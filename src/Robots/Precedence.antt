-- ===== src/Robots/Precedence.antt =====
-- internal/robots/robots.go: which rule decides in `Allowed`.
use serp_harvester.Prelude.{
  ℕ, suc, ◌≤◌, ◌<◌, ◌==◌, ltb, ◌≡◌, refl, sym, ◌⊎◌, inl, inr, List, [], ◌∷◌, Bool, true, false,
  ◌&&◌, ◌||◌, Bool-cases, Text, bytes, text_eq, length, Listed, arith, subst,
}
use serp_harvester.Robots.{Rule, Rules, pick, match_path, allowed}
use serp_harvester.Robots.Matching.{matches}

-- The result `(m, b)` of the loop from `(n, a)`: it is at least every rule that matches, it is the start or
-- a rule that matches, and when it disallows, every Allow rule that matches is shorter.
abbrev Picks : Text → ℕ → Bool → List Rule → ℕ × Bool → Type 0
Picks path n a rs (m, b) =
    (n ≤ m)
    × ((r : Rule) → Listed r rs → matches r.re path ≡ true → suc (length r.pattern) ≤ m)
    × (((m ≡ n) × (b ≡ a))
        ⊎ ((r : Rule) × Listed r rs
            × (matches r.re path ≡ true)
            × (suc (length r.pattern) ≡ m)
            × (r.allow ≡ b)))
    × (b ≡ false
        → (r : Rule) → Listed r rs
        → matches r.re path ≡ true
        → r.allow ≡ true
        → suc (length r.pattern) < m)
    × (b ≡ false → m ≡ n → a ≡ false)

module _ (path : Text) (n : ℕ) (a : Bool) (r : Rule) (rs : List Rule) where
  -- A rule that is taken is longer, or as long and an Allow rule.
  taken-Picks :
      (x : ℕ × Bool)
      → matches r.re path ≡ true
      → (n < suc (length r.pattern)) ⊎ ((suc (length r.pattern) ≡ n) × (r.allow ≡ true))
      → Picks path (suc (length r.pattern)) r.allow rs x
      → Picks path n a (r ∷ rs) x
  taken-Picks (m, b) fits wins (le, bound, from, shorter, start) = (
    ground arith,
    (λ s l f. elim l [
      | inl e ↦ subst (λ t. suc (length t.pattern) ≤ m) (sym e) le
      | inr l' ↦ bound s l' f
    ]),
    inr (elim from [
      | inl (em, eb) ↦ (r, inl refl, fits, sym em, sym eb)
      | inr (s, l, f, em, eb) ↦ (s, inr l, f, em, eb)
    ]),
    (λ eb s l f al. elim l [ inl e ↦ ground (arith, start eb, e) | inr l' ↦ shorter eb s l' f al ]),
    (λ eb em. ground (arith, start eb)),
  )

  -- A rule that is not taken does not match, or is shorter, or as long and not an Allow rule.
  kept-Picks :
      (x : ℕ × Bool)
      → (matches r.re path ≡ false)
        ⊎ (suc (length r.pattern) < n)
        ⊎ ((suc (length r.pattern) ≡ n) × (r.allow ≡ false))
      → Picks path n a rs x
      → Picks path n a (r ∷ rs) x
  kept-Picks (m, b) loses (le, bound, from, shorter, start) = (
    le,
    (λ s l f. elim l [ inl e ↦ ground (arith, e) | inr l' ↦ bound s l' f ]),
    (elim from [ inl same ↦ inl same | inr (s, l, f, em, eb) ↦ inr (s, inr l, f, em, eb) ]),
    (λ eb s l f al. elim l [ inl e ↦ ground (arith, e) | inr l' ↦ shorter eb s l' f al ]),
    start,
  )

pick-Picks :
    (path : Text) (n : ℕ) (a : Bool) (rs : List Rule) → Picks path n a rs (pick path n a rs)
unfolding pick
pick-Picks path n a [] =
    (omega arith, (λ r l. elim l [ ]), inl (refl, refl), (λ e r l. elim l [ ]), (λ e f. e))
pick-Picks path n a (r ∷ rs) =
    elim (Bool-cases (
      matches r.re path
      && (ltb n (suc (length r.pattern)) || ((suc (length r.pattern) == n) && r.allow)))) [
        | inl e ↦ rw e (
            taken-Picks path n a r rs _ (ground arith) (ground arith)
              (pick-Picks path (suc (length r.pattern)) r.allow rs))
        | inr e ↦ rw e (kept-Picks path n a r rs _ (ground arith) (pick-Picks path n a rs))
      ]

-- What a result `b` of `Allowed` says of the rules.
abbrev Decides : Text → List Rule → Bool → Type 0
Decides path rs b =
    ((b ≡ true)
      × (((r : Rule) → Listed r rs → matches r.re path ≡ false)
          ⊎ ((r : Rule) × Listed r rs
              × (matches r.re path ≡ true)
              × (r.allow ≡ true)
              × ((s : Rule)
                  → Listed s rs
                  → matches s.re path ≡ true
                  → length s.pattern ≤ length r.pattern))))
    ⊎ ((b ≡ false)
        × ((r : Rule) × Listed r rs
            × (matches r.re path ≡ true)
            × (r.allow ≡ false)
            × ((s : Rule)
                → Listed s rs
                → matches s.re path ≡ true
                → length s.pattern ≤ length r.pattern)
            × ((s : Rule)
                → Listed s rs
                → matches s.re path ≡ true
                → s.allow ≡ true
                → length s.pattern < length r.pattern)))

Picks-Decides :
    (path : Text) (rs : List Rule) (x : ℕ × Bool) → Picks path 0 true rs x → Decides path rs x.1
Picks-Decides path rs (m, true) (le, bound, inl (em, eb), shorter, start) =
    inl (refl, inl (λ r l. ground (arith, bound r l)))
Picks-Decides path rs (m, true) (le, bound, inr (r, l, f, em, eb), shorter, start) =
    inl (refl, inr (r, l, f, eb, (λ s k g. omega (arith, bound s k g, em))))
Picks-Decides path rs (m, false) (le, bound, inl (em, eb), shorter, start) = absurd (cc)
Picks-Decides path rs (m, false) (le, bound, inr (r, l, f, em, eb), shorter, start) = inr (
  refl,
  (
    r,
    l,
    f,
    eb,
    (λ s k g. omega (arith, bound s k g, em)),
    (λ s k g al. omega (arith, shorter refl s k g al, em)),
  ),
)

-- For a path other than "/robots.txt": `Allowed` is true and no rule matches, or an Allow rule that
-- matches is as long as every rule that matches; or it is false, and a Disallow rule that matches is
-- as long as every rule that matches and longer than every Allow rule that does.
pub allowed_lem :
    (rules : Rules) (path : Text)
    → text_eq path (bytes "/robots.txt") ≡ false
    → let p = match_path path in
      ((allowed rules path ≡ true)
        × (((r : Rule) → Listed r rules.rules → matches r.re p ≡ false)
            ⊎ ((r : Rule) × Listed r rules.rules
                × (matches r.re p ≡ true)
                × (r.allow ≡ true)
                × ((s : Rule)
                    → Listed s rules.rules
                    → matches s.re p ≡ true
                    → length s.pattern ≤ length r.pattern))))
      ⊎ ((allowed rules path ≡ false)
          × ((r : Rule) × Listed r rules.rules
              × (matches r.re p ≡ true)
              × (r.allow ≡ false)
              × ((s : Rule)
                  → Listed s rules.rules
                  → matches s.re p ≡ true
                  → length s.pattern ≤ length r.pattern)
              × ((s : Rule)
                  → Listed s rules.rules
                  → matches s.re p ≡ true
                  → s.allow ≡ true
                  → length s.pattern < length r.pattern)))
unfolding allowed
allowed_lem rules path h = rw h (
    Picks-Decides (match_path path) rules.rules _ (pick-Picks (match_path path) 0 true rules.rules))
