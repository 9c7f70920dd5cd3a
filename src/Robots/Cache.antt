-- ===== src/Robots/Cache.antt =====
-- internal/robots/robots.go: `Cache`, the rules of each origin. A map with an entry for each origin
-- is an association list, `get` is the `Getter` over a world `W`, and `lines` is the scanner.
use serp_harvester.Prelude.{
  ℕ, ◌≡◌, refl, ap, ◌∙◌, List, [], ◌∷◌, ◌++◌, Text, bytes, text_eq_iff, Option, none, some, ℤ,
  lookup, insert, lookup-insert, arith,
}
use serp_harvester.Robots.{Rules, parse, rules_for}

-- The entries of a `Cache`; rules that are `none` are those of a `Parse` that panicked.
abbrev pub Entries : Type 0
Entries = List (Text × Option Rules)

unfoldable pub status_of : Option (ℕ × Text) → Option ℕ
status_of none = none
status_of (some (status, body)) = some status

unfoldable pub origin_of : Text → Text → Text
origin_of scheme host = scheme ++ bytes "://" ++ host

module _ {W : Type 0} (get : Text → W → Option (ℕ × Text) × W) (lines : Text → List Text)
    (to_lower trim_space : Text → Text) (delay_of : Text → Option ℤ) (agent : Text) where
  unfoldable pub file_of : Option (ℕ × Text) → Option Rules
  file_of none = none
  file_of (some (status, body)) = parse to_lower trim_space delay_of (lines body) agent

  unfoldable pub get_rules : Text → W → Option Rules × W
  get_rules origin w =
      let (x, w') = get (origin ++ bytes "/robots.txt") w in
      (rules_for (status_of x) (file_of x), w')

  unfoldable pub entry_or : Text → Option (Option Rules) → Entries → W → Option Rules × Entries × W
  entry_or origin (some rules) entries w = (rules, entries, w)
  entry_or origin none entries w =
      let (rules, w') = get_rules origin w in (rules, insert origin rules entries, w')

  -- `For`, of a URL with this scheme and host.
  unfoldable pub cache_for : Text × Text → Entries → W → Option Rules × Entries × W
  cache_for (scheme, host) entries w =
      let origin = origin_of scheme host in entry_or origin (lookup origin entries) entries w

  -- Calls of `For`, one after the other.
  unfoldable pub cache_for_all : List (Text × Text) → Entries → W → Entries × W
  cache_for_all [] entries w = (entries, w)
  cache_for_all (u ∷ us) entries w =
      let (rules, entries', w') = cache_for u entries w in cache_for_all us entries' w'

  entry_or-lookup :
      (o q : Text) (r : Option Rules) (x : Option (Option Rules)) (c : Entries) (w : W)
      → lookup q c ≡ x
      → lookup o c ≡ some r
      → lookup o (entry_or q x c w).1 ≡ some r
  unfolding entry_or
  entry_or-lookup o q r (some rules) c w missing found = found
  entry_or-lookup o q r none c w missing found =
      lookup-insert q o (get_rules q w).0 c ∙ ground (arith, text_eq_iff q o)

  cache_for_all-lookup :
      (o : Text) (r : Option Rules) (us : List (Text × Text)) (c : Entries) (w : W)
      → lookup o c ≡ some r
      → lookup o (cache_for_all us c w).0 ≡ some r
  unfolding cache_for_all cache_for
  cache_for_all-lookup o r [] c w found = found
  cache_for_all-lookup o r ((s, h) ∷ us) c w found =
      cache_for_all-lookup o r us _ _ (entry_or-lookup o (origin_of s h) r _ c w refl found)

  entry_or-found :
      (q : Text) (x : Option (Option Rules)) (c : Entries) (w : W)
      → lookup q c ≡ x
      → lookup q (entry_or q x c w).1 ≡ some (entry_or q x c w).0
  unfolding entry_or
  entry_or-found q (some rules) c w found = found
  entry_or-found q none c w missing =
      lookup-insert q q (get_rules q w).0 c ∙ ground (arith, text_eq_iff q q)

  -- The rules of an origin are fetched once: after a call of `For`, and any other calls after it, a
  -- call for the same scheme and host returns the same rules and changes neither the cache nor the
  -- world, whatever the getter does.
  pub cache_for-again :
      (u : Text × Text) (us : List (Text × Text)) (c : Entries) (w w₂ : W)
      → let (rules, c', w') = cache_for u c w in
        let (c₁, w₁) = cache_for_all us c' w' in cache_for u c₁ w₂ ≡ (rules, c₁, w₂)
  unfolding cache_for entry_or
  cache_for-again (s, h) us c w w₂ =
      let q = origin_of s h in
      let (rules, c', w') = entry_or q (lookup q c) c w in
      let c₁ = (cache_for_all us c' w').0 in
      ap (λ x. entry_or q x c₁ w₂)
        (cache_for_all-lookup q rules us c' w' (entry_or-found q (lookup q c) c w refl))
