-- ===== src/Fetcher/RetryAfter.antt =====
-- internal/fetcher/errors.go: `parseRetryAfter`. `http.ParseTime` is a parameter; instants are
-- nanoseconds from the zero time on.
use serp_harvester.Prelude.{
  ℕ, ◌+◌, ◌-◌, ◌*◌, ◌==◌, ◌≤◌, ◌<◌, ◌≡◌, ◌⊎◌, inl, inr, refl, min, ltb, leb, [], ◌∷◌, Text, leb→le,
  ap, Bool, true, false, ◌&&◌, if◌then◌else◌, Option, none, some, ℤ, pos, negsuc, ltb_ℤ, sub_ℕ,
  times, wrap64, two63, ◌≤ℤ◌, arith, Bool-cases,
}
use serp_harvester.Robots.{is_empty}

-- The value of a text of digits, after `acc`.
unfoldable pub digits : Text → ℕ → Option ℕ
digits [] acc = some acc
digits (c ∷ s) acc =
    let rest = digits s (10 * acc + (c - 48)) in if leb 48 c && leb c 57 then rest else none

unfoldable pub magnitude : Text → Option ℕ
magnitude [] = none
magnitude (c ∷ s) = digits (c ∷ s) 0

unfoldable pub positive : Option ℕ → Option ℤ
positive none = none
positive (some n) = if ltb n two63 then some (pos n) else none

unfoldable pub negative : Option ℕ → Option ℤ
negative none = none
negative (some n) = if leb n two63 then some (sub_ℕ 0 n) else none

-- `strconv.Atoi`; `none` is an error.
unfoldable pub atoi : Text → Option ℤ
atoi [] = none
atoi (c ∷ s) =
    if c == 45
    then negative (magnitude s)
    else if c == 43
    then positive (magnitude s)
    else positive (magnitude (c ∷ s))

abbrev pub nanoseconds_per_second : ℕ
nanoseconds_per_second = 1000000000

-- The branch of a number of seconds; the product is an int64.
unfoldable pub of_seconds : ℤ → ℤ × Bool
of_seconds secs =
    if ltb_ℤ secs (pos 0)
    then (pos 0, false)
    else (wrap64 (times nanoseconds_per_second secs), true)

-- The branch of a date; `time.Until` saturates.
unfoldable pub of_date : ℕ → Option ℕ → ℤ × Bool
of_date now none = (pos 0, false)
of_date now (some t) = if ltb t now then (pos 0, false) else (pos (min (t - now) (two63 - 1)), true)

unfoldable pub of_number : (Text → Option ℕ) → ℕ → Text → Option ℤ → ℤ × Bool
of_number parse_time now header none = of_date now (parse_time header)
of_number parse_time now header (some secs) = of_seconds secs

-- `parseRetryAfter`
unfoldable pub parse_retry_after : (Text → Option ℕ) → ℕ → Text → ℤ × Bool
parse_retry_after parse_time now header =
    if is_empty header then (pos 0, false) else of_number parse_time now header (atoi header)

-- The longest wait in seconds that a duration holds.
abbrev pub max_seconds : ℕ
max_seconds = 9223372036

of_seconds-small :
    (n : ℕ) → n ≤ max_seconds → of_seconds (pos n) ≡ (pos (nanoseconds_per_second * n), true)
unfolding of_seconds
of_seconds-small n h = ground arith

of_date_nonneg : (now : ℕ) (o : Option ℕ) → pos 0 ≤ℤ (of_date now o).0
unfolding of_date
of_date_nonneg now none = omega arith
of_date_nonneg now (some t) = ground arith

-- A header with a number of seconds that a duration can hold is read as exactly that many
-- seconds, with or without a date parser that would accept it.
pub parse_retry_after_seconds :
    (parse_time : Text → Option ℕ) (now : ℕ) (header : Text) (n : ℕ)
    → atoi header ≡ some (pos n)
    → n ≤ max_seconds
    → parse_retry_after parse_time now header ≡ (pos (nanoseconds_per_second * n), true)
unfolding parse_retry_after of_number atoi is_empty
parse_retry_after_seconds parse_time now [] n e h = cc
parse_retry_after_seconds parse_time now (c ∷ s) n e h = rw (e, of_number) (of_seconds-small n h)

of_seconds-sign :
    (secs : ℤ) → (pos 0 ≤ℤ (of_seconds secs).0) ⊎ ((n : ℕ) × (secs ≡ pos n) × (max_seconds < n))
unfolding of_seconds
of_seconds-sign (negsuc n) = inl (ground arith)
of_seconds-sign (pos n) = elim (Bool-cases (leb n max_seconds)) [
  | inl small ↦ inl (rw (of_seconds-small n (leb→le n max_seconds small)) (omega arith))
  | inr large ↦ inr (n, refl, ground arith)
]

of_number-sign :
    (parse_time : Text → Option ℕ) (now : ℕ) (header : Text) (o : Option ℤ)
    → (pos 0 ≤ℤ (of_number parse_time now header o).0)
      ⊎ ((n : ℕ) × (o ≡ some (pos n)) × (max_seconds < n))
unfolding of_number
of_number-sign parse_time now header none = inl (of_date_nonneg now (parse_time header))
of_number-sign parse_time now header (some secs) = elim (of_seconds-sign secs) [
  | inl fine ↦ inl fine
  | inr (n, e, big) ↦ inr (n, ap some e, big)
]

-- The wait that a header asks for is never negative, unless the header is a number of seconds
-- above 9223372036.
pub parse_retry_after_nonneg :
    (parse_time : Text → Option ℕ) (now : ℕ) (header : Text)
    → (pos 0 ≤ℤ (parse_retry_after parse_time now header).0)
      ⊎ ((n : ℕ) × (atoi header ≡ some (pos n)) × (max_seconds < n))
unfolding parse_retry_after
parse_retry_after_nonneg parse_time now header = elim (Bool-cases (is_empty header)) [
  | inl e ↦ rw e (inl (omega arith))
  | inr e ↦ rw e (of_number-sign parse_time now header (atoi header))
]

of_seconds-large :
    (n : ℕ)
    → max_seconds < n
    → n ≤ 18446744073
    → (ltb_ℤ (of_seconds (pos n)).0 (pos 0) ≡ true) × ((of_seconds (pos n)).1 ≡ true)
unfolding of_seconds
of_seconds-large n h k = (ground arith, ground arith)

-- A number of seconds above 9223372036, and up to 18446744073, is accepted as a negative wait.
pub parse_retry_after_wraps :
    (parse_time : Text → Option ℕ) (now : ℕ) (header : Text) (n : ℕ)
    → atoi header ≡ some (pos n)
    → max_seconds < n
    → n ≤ 18446744073
    → (ltb_ℤ (parse_retry_after parse_time now header).0 (pos 0) ≡ true)
      × ((parse_retry_after parse_time now header).1 ≡ true)
unfolding parse_retry_after of_number atoi is_empty
parse_retry_after_wraps parse_time now [] n e h k = cc
parse_retry_after_wraps parse_time now (c ∷ s) n e h k = rw (e, of_number) (of_seconds-large n h k)
