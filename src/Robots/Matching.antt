-- ===== src/Robots/Matching.antt =====
-- internal/robots/robots.go: `compile` and the matching of its regexp. The expression is "^", the
-- quoted parts between the stars joined by ".*", and "$" if the pattern ends in one.
use serp_harvester.Prelude.{
  ℕ, ◌+◌, ◌-◌, ◌*◌, ◌==◌, leb, ltb, List, [], ◌∷◌, Bool, true, false, not, ◌&&◌, ◌||◌,
  if◌then◌else◌, Option, none, some, Text,
}

abbrev pub star : ℕ
star = 42

abbrev pub dollar : ℕ
dollar = 36

abbrev pub newline : ℕ
newline = 10

-- The value of a hexadecimal digit.
unfoldable pub hex_digit : ℕ → Option ℕ
hex_digit c =
    if leb 48 c && leb c 57
    then some (c - 48)
    else if leb 97 c && leb c 102
    then some (c - 87)
    else if leb 65 c && leb c 70
    then some (c - 55)
    else none

unfoldable pub cons_option : ℕ → Option Text → Option Text
cons_option c none = none
cons_option c (some s) = some (c ∷ s)

unfoldable pub escape_byte : Option ℕ → Option ℕ → Option Text → Option Text
escape_byte (some a) (some b) rest = cons_option (16 * a + b) rest
escape_byte _ _ rest = none

-- `url.PathUnescape`, where `none` is its error; 37 is '%'.
unfoldable pub path_unescape : Text → Option Text
path_unescape [] = some []
path_unescape (c ∷ []) = if c == 37 then none else some (c ∷ [])
path_unescape (c ∷ d ∷ []) = if (c == 37) || (d == 37) then none else some (c ∷ d ∷ [])
path_unescape (c ∷ d ∷ e ∷ s) =
    let after = path_unescape s in
    let next = path_unescape (d ∷ e ∷ s) in
    if c == 37 then escape_byte (hex_digit d) (hex_digit e) after else cons_option c next

-- `unescape`
unfoldable pub unescape : Text → Text
unescape s = elim (path_unescape s) [ none ↦ s | some u ↦ u ]

-- The continuation bytes that a first byte of UTF-8 asks for, as ranges.
unfoldable pub continuations : ℕ → Option (List (ℕ × ℕ))
continuations b =
    if ltb b 128
    then some []
    else if leb 194 b && leb b 223
    then some ((128, 191) ∷ [])
    else if b == 224
    then some ((160, 191) ∷ (128, 191) ∷ [])
    else if b == 237
    then some ((128, 159) ∷ (128, 191) ∷ [])
    else if leb 225 b && leb b 239
    then some ((128, 191) ∷ (128, 191) ∷ [])
    else if b == 240
    then some ((144, 191) ∷ (128, 191) ∷ (128, 191) ∷ [])
    else if leb 241 b && leb b 243
    then some ((128, 191) ∷ (128, 191) ∷ (128, 191) ∷ [])
    else if b == 244
    then some ((128, 143) ∷ (128, 191) ∷ (128, 191) ∷ [])
    else none

-- Valid UTF-8, when the ranges are still to come.
unfoldable pub is_utf8_from : List (ℕ × ℕ) → Text → Bool
is_utf8_from [] [] = true
is_utf8_from (r ∷ rs) [] = false
is_utf8_from [] (b ∷ s) = elim (continuations b) [ none ↦ false | some rs ↦ is_utf8_from rs s ]
is_utf8_from ((low, high) ∷ rs) (b ∷ s) = leb low b && leb b high && is_utf8_from rs s

unfoldable pub is_utf8 : Text → Bool
is_utf8 s = is_utf8_from [] s

unfoldable pub ends_with_dollar : Text → Bool
ends_with_dollar [] = false
ends_with_dollar (c ∷ []) = c == dollar
ends_with_dollar (c ∷ d ∷ s) = ends_with_dollar (d ∷ s)

-- The text without its last byte.
unfoldable pub drop_last : Text → Text
drop_last [] = []
drop_last (c ∷ []) = []
drop_last (c ∷ d ∷ s) = c ∷ drop_last (d ∷ s)

unfoldable pub onto_first : ℕ → List Text → List Text
onto_first c [] = (c ∷ []) ∷ []
onto_first c (p ∷ ps) = (c ∷ p) ∷ ps

-- `strings.Split` by "*"
unfoldable pub split_stars : Text → List Text
split_stars [] = [] ∷ []
split_stars (c ∷ s) =
    let parts = split_stars s in if c == star then [] ∷ parts else onto_first c parts

-- The compiled expression.
pub record Pattern : Type 0 where
  pub parts : List Text
  pub anchored : Bool

-- `compile`; `none` is the panic of `regexp.MustCompile`, whose only error here is text that is not
-- UTF-8.
unfoldable pub compile : Text → Option Pattern
compile pattern =
    let anchored = ends_with_dollar pattern in
    let decoded = unescape (if anchored then drop_last pattern else pattern) in
    if is_utf8 decoded
    then some (record { parts = split_stars decoded; anchored = anchored })
    else none

-- What follows a prefix.
unfoldable pub strip_prefix : Text → Text → Option Text
strip_prefix [] s = some s
strip_prefix (c ∷ p) [] = none
strip_prefix (c ∷ p) (d ∷ s) = let rest = strip_prefix p s in if c == d then rest else none

-- ".*": some end of the text satisfies `k`, and no newline stands before it.
unfoldable pub after_any : (Text → Bool) → Text → Bool
after_any k [] = k []
after_any k (c ∷ s) = k (c ∷ s) || (not (c == newline) && after_any k s)

unfoldable pub at_end : Bool → Text → Bool
at_end anchored [] = true
at_end anchored (c ∷ s) = not anchored

-- Each part in turn, after any text.
unfoldable pub match_parts : Bool → List Text → Text → Bool
match_parts anchored [] s = at_end anchored s
match_parts anchored (p ∷ ps) s =
    after_any (λ t. elim (strip_prefix p t) [ none ↦ false | some u ↦ match_parts anchored ps u ]) s

-- `MatchString`; the first part stands at the start.
unfoldable pub matches : Pattern → Text → Bool
matches pattern s = elim pattern.parts [
  | [] ↦ at_end pattern.anchored s
  | p ∷ ps ↦ elim (strip_prefix p s) [ none ↦ false | some u ↦ match_parts pattern.anchored ps u ]
]
