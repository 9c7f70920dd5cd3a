-- ===== src/Robots.antt =====
-- internal/robots/robots.go: the rules of a robots.txt for one agent. `strings.ToLower`,
-- `strings.TrimSpace` and the reading of a delay depend on Unicode and on float64: parameters.
pub mod Matching
pub mod Precedence
pub mod Cache
pub mod Refusal
use serp_harvester.Prelude.{
  ℕ, zero, suc, ◌+◌, ◌==◌, ltb, ℤ, pos, ltb_ℤ, List, [], ◌∷◌, ◌++◌, Bool, true, false, not, ◌&&◌,
  ◌||◌, if◌then◌else◌, Option, none, some, Text, bytes, text_eq, length, leb,
}
use serp_harvester.Robots.Matching.{Pattern, compile, matches, unescape, strip_prefix}

pub record Rule : Type 0 where
  pub allow : Bool
  pub pattern : Text
  pub re : Pattern

-- `Rules`
pub record Rules : Type 0 where
  pub rules : List Rule
  pub crawl_delay : ℤ
  pub sitemaps : List Text

-- `AllowAll`
abbrev pub allow_all : Rules
allow_all = record { rules = []; crawl_delay = pos 0; sitemaps = [] }

-- `DisallowAll`
abbrev pub disallow_all : Rules
disallow_all = record {
  rules =
      record {
        allow = false;
        pattern = bytes "/";
        re = record { parts = bytes "/" ∷ []; anchored = false };
      }
      ∷ [];
  crawl_delay = pos 0;
  sitemaps = [];
}

pub record Group : Type 0 where
  pub agents : List Text
  pub rules : List Rule
  pub delay : ℤ

-- The state of the loop of `Parse`; `cur` is the last group.
pub record Reading : Type 0 where
  pub groups : List Group
  pub last_was_agent : Bool
  pub sitemaps : List Text

unfoldable pub update_last : (Group → Group) → List Group → List Group
update_last f [] = []
update_last f (g ∷ []) = f g ∷ []
update_last f (g ∷ h ∷ gs) = g ∷ update_last f (h ∷ gs)

-- The text before the first '#'.
unfoldable pub before_hash : Text → Text
before_hash [] = []
before_hash (c ∷ s) = if c == 35 then [] else c ∷ before_hash s

unfoldable pub cons_key : ℕ → Option (Text × Text) → Option (Text × Text)
cons_key c none = none
cons_key c (some (key, value)) = some (c ∷ key, value)

-- `strings.Cut` by ":"
unfoldable pub cut_colon : Text → Option (Text × Text)
cut_colon [] = none
cut_colon (c ∷ s) = let rest = cons_key c (cut_colon s) in if c == 58 then some ([], s) else rest

-- `newRule`; `none` is a panic.
unfoldable pub new_rule : Bool → Text → Option Rule
new_rule allow pattern = elim (compile pattern) [
  | none ↦ none
  | some re ↦ some (record { allow = allow; pattern = pattern; re = re })
]

unfoldable pub is_empty : Text → Bool
is_empty [] = true
is_empty (c ∷ s) = false

unfoldable pub add_rule : Option Rule → Reading → Option Reading
add_rule none st = none
add_rule (some r) st = some (record st {
  groups = update_last (λ g. record g { rules = g.rules ++ r ∷ [] }) st.groups;
  last_was_agent = false;
})

unfoldable pub set_delay : Option ℤ → List Group → List Group
set_delay none gs = gs
set_delay (some d) gs = update_last (λ g. record g { delay = d }) gs

unfoldable pub no_groups : List Group → Bool
no_groups [] = true
no_groups (g ∷ gs) = false

-- `strings.Contains(s, sub)`
unfoldable pub contains : Text → Text → Bool
contains [] sub = is_empty sub
contains (c ∷ s) sub = elim (strip_prefix sub (c ∷ s)) [ none ↦ contains s sub | some rest ↦ true ]

unfoldable pub max_delay : ℤ → ℤ → ℤ
max_delay a b = if ltb_ℤ a b then b else a

unfoldable pub names_agent : Text → List Text → Bool
names_agent agent [] = false
names_agent agent (a ∷ agents) =
    (not (text_eq a (bytes "*")) && not (is_empty a) && contains agent a)
    || names_agent agent agents

unfoldable pub names_all : List Text → Bool
names_all [] = false
names_all (a ∷ agents) = text_eq a (bytes "*") || names_all agents

-- The groups that pass a test, merged; and whether there is one.
unfoldable pub merge : (List Text → Bool) → List Group → Rules × Bool → Rules × Bool
merge test [] out = out
merge test (g ∷ gs) (out, found) = merge test gs (
    if test g.agents
    then (
      record out { rules = out.rules ++ g.rules; crawl_delay = max_delay out.crawl_delay g.delay },
      true,
    )
    else (out, found))

-- The end of `Parse`: the groups of the agent, or else those of "*".
unfoldable pub select : Text → Reading → Rules
select agent st =
    let start : Rules = record { rules = []; crawl_delay = pos 0; sitemaps = st.sitemaps } in
    let (out, matched) = merge (names_agent agent) st.groups (start, false) in
    if matched then out else (merge names_all st.groups (start, false)).0

module _ (to_lower trim_space : Text → Text) (delay_of : Text → Option ℤ) where
  -- The body of the loop of `Parse`, after the key and the value are read.
  unfoldable pub read_field : Text → Text → Reading → Option Reading
  read_field key value st =
      if text_eq key (bytes "user-agent")
      then (let fresh : Group = record {
        agents = to_lower value ∷ [];
        rules = [];
        delay = pos 0;
      } in
          some (record st {
            groups =
                if not st.last_was_agent || no_groups st.groups
                then st.groups ++ fresh ∷ []
                else update_last (λ g. record g { agents = g.agents ++ to_lower value ∷ [] })
                    st.groups;
            last_was_agent = true;
          }))
      else if text_eq key (bytes "allow") || text_eq key (bytes "disallow")
      then (if no_groups st.groups || is_empty value
          then some (record st { last_was_agent = false })
          else add_rule (new_rule (text_eq key (bytes "allow")) value) st)
      else if text_eq key (bytes "crawl-delay")
      then some
          (record st { groups = set_delay (delay_of value) st.groups; last_was_agent = false })
      else if text_eq key (bytes "sitemap")
      then some (record st { sitemaps = st.sitemaps ++ value ∷ []; last_was_agent = false })
      else some (record st { last_was_agent = false })

  -- The body of the loop of `Parse`, on a line; `none` is a panic.
  unfoldable pub read_line : Text → Reading → Option Reading
  read_line line st = elim (cut_colon (before_hash line)) [
    | none ↦ some st
    | some (key, value) ↦ read_field (to_lower (trim_space key)) (trim_space value) st
  ]

  unfoldable pub read_lines : List Text → Reading → Option Reading
  read_lines [] st = some st
  read_lines (line ∷ lines) st = elim (read_line line st) [
    | none ↦ none
    | some st' ↦ read_lines lines st'
  ]

  -- `Parse`, on the lines that the scanner gives.
  unfoldable pub parse : List Text → Text → Option Rules
  parse lines agent =
      elim (read_lines lines (record { groups = []; last_was_agent = false; sitemaps = [] })) [
        | none ↦ none
        | some st ↦ some (select (to_lower agent) st)
      ]

-- The loop of `Allowed`; the first number is `best` + 1.
unfoldable pub pick : Text → ℕ → Bool → List Rule → ℕ × Bool
pick path best allow [] = (best, allow)
pick path best allow (r ∷ rs) =
    let n = suc (length r.pattern) in
    if matches r.re path && (ltb best n || ((n == best) && r.allow))
    then pick path n r.allow rs
    else pick path best allow rs

-- The path as `Allowed` matches it.
unfoldable pub match_path : Text → Text
match_path path = unescape (if is_empty path then bytes "/" else path)

-- `Allowed`
unfoldable pub allowed : Rules → Text → Bool
allowed r path =
    if text_eq path (bytes "/robots.txt") then true else (pick (match_path path) 0 true r.rules).1

-- `For`, on the first use of an origin: the status, or none for a network failure, and the file as
-- it is parsed.
unfoldable pub rules_for : Option ℕ → Option Rules → Option Rules
rules_for none file = some disallow_all
rules_for (some status) file =
    if leb 200 status && ltb status 300
    then file
    else if leb 400 status && ltb status 500 && not (status == 429)
    then some allow_all
    else some disallow_all
