-- ===== src/Robots/Refusal.antt =====
-- internal/robots/robots.go: what `For` and `Allowed` do when robots.txt cannot be read.
use serp_harvester.Prelude.{
  ℕ, ◌≤◌, ◌<◌, ◌≡◌, refl, ◌⊎◌, inl, inr, [], ◌∷◌, ◌++◌, Text, bytes, text_eq, true, false, Option,
  none, some, List, ℤ, lookup, ◌==◌, if_both, arith,
}
use serp_harvester.Robots.{Rules, disallow_all, is_empty, rules_for, match_path, pick, allowed}
use serp_harvester.Robots.Matching.{
  path_unescape, cons_option, unescape, matches, match_parts, at_end, strip_prefix,
}
use serp_harvester.Robots.Cache.{Entries, status_of, get_rules, entry_or, origin_of, cache_for}

abbrev pub slash : ℕ
slash = 47

-- An error, or none but a path that begins with a slash.
abbrev IsSlashed : Option Text → Type 0
IsSlashed x = (x ≡ none) ⊎ ((u : Text) × (x ≡ some (slash ∷ u)))

cons_option-IsSlashed : (x : Option Text) → IsSlashed (cons_option slash x)
unfolding cons_option
cons_option-IsSlashed none = inl refl
cons_option-IsSlashed (some u) = inr (u, refl)

path_unescape-IsSlashed : (s : Text) → IsSlashed (path_unescape (slash ∷ s))
unfolding path_unescape
path_unescape-IsSlashed [] = inr ([], refl)
path_unescape-IsSlashed (d ∷ []) = if_both IsSlashed (d == 37) _ _ (inl refl) (inr (d ∷ [], refl))
path_unescape-IsSlashed (d ∷ e ∷ s) = cons_option-IsSlashed (path_unescape (d ∷ e ∷ s))

unescape-slash : (s : Text) → (u : Text) × (unescape (slash ∷ s) ≡ slash ∷ u)
unfolding unescape
unescape-slash s = elim (path_unescape-IsSlashed s) [
  | inl failed ↦ (s, rw (failed, unescape) refl)
  | inr (u, read) ↦ (u, rw (read, unescape) refl)
]

pick-disallow_all : (u : Text) → (pick (slash ∷ u) 0 true disallow_all.rules).1 ≡ false
unfolding pick matches match_parts at_end strip_prefix
pick-disallow_all [] = refl
pick-disallow_all (c ∷ u) = refl

allowed-disallow_all :
    (s : Text)
    → text_eq (slash ∷ s) (bytes "/robots.txt") ≡ false
    → allowed disallow_all (slash ∷ s) ≡ false
unfolding allowed match_path is_empty
allowed-disallow_all s other = let (u, e) = unescape-slash s in rw (other, e) (pick-disallow_all u)

-- The answers after which nothing is fetched: no answer, and every status but 2xx and 4xx, and 429.
abbrev pub IsRefusal : Option ℕ → Type 0
IsRefusal none = Unit {0}
IsRefusal (some n) = (n < 200) ⊎ (((300 ≤ n) × (n < 400)) ⊎ ((500 ≤ n) ⊎ (n ≡ 429)))

rules_for-IsRefusal :
    (x : Option ℕ) (file : Option Rules) → IsRefusal x → rules_for x file ≡ some disallow_all
unfolding rules_for
rules_for-IsRefusal none file h = refl
rules_for-IsRefusal (some n) file h = ground arith

entry_or-refused :
    {W : Type 0} (get : Text → W → Option (ℕ × Text) × W) (lines : Text → List Text)
    (to_lower trim_space : Text → Text) (delay_of : Text → Option ℤ) (agent o : Text)
    (x : Option (Option Rules)) (c : Entries) (w : W)
    → x ≡ none
    → IsRefusal (status_of (get (o ++ bytes "/robots.txt") w).0)
    → (entry_or get lines to_lower trim_space delay_of agent o x c w).0 ≡ some disallow_all
unfolding entry_or get_rules
entry_or-refused get lines to_lower trim_space delay_of agent o (some r) c w missing h =
    ground arith
entry_or-refused get lines to_lower trim_space delay_of agent o none c w missing h =
    rules_for-IsRefusal _ _ h

-- On the first use of an origin, when the request for robots.txt fails, or its status is below 200,
-- from 300 to 399, 429, or 500 and more, then the rules that `For` returns allow no path that begins with a
-- slash but "/robots.txt", whatever the body says and however the path is escaped.
pub cache_for-refuses :
    {W : Type 0} (get : Text → W → Option (ℕ × Text) × W) (lines : Text → List Text)
    (to_lower trim_space : Text → Text) (delay_of : Text → Option ℤ) (agent scheme host : Text)
    (c : Entries) (w : W) (path : Text)
    → lookup (origin_of scheme host) c ≡ none
    → IsRefusal (status_of (get (origin_of scheme host ++ bytes "/robots.txt") w).0)
    → text_eq (slash ∷ path) (bytes "/robots.txt") ≡ false
    → (r : Rules) × ((cache_for get lines to_lower trim_space delay_of agent (scheme, host) c w).0
        ≡ some r)
      × (allowed r (slash ∷ path) ≡ false)
unfolding cache_for
cache_for-refuses get lines to_lower trim_space delay_of agent scheme host c w path missing h
      other =
    (
      disallow_all,
      entry_or-refused get lines to_lower trim_space delay_of agent (origin_of scheme host) _ c w
          missing h,
      allowed-disallow_all path other,
    )
