-- ===== src/Proxy/Queries.antt =====
-- internal/proxy/pool.go: what the pool tells of its proxies.
use serp_harvester.Prelude.{
  ℕ, ◌+◌, ◌≤◌, ◌<◌, ◌≡◌, refl, ◌∙◌, ◌≢◌, List, [], ◌∷◌, Bool, true, false, not, ◌||◌, if◌then◌else◌,
  ltb, ◌==◌, length, arith, Float, Listed, inl, inr, ◌⊎◌, Bool-cases, ltb→lt,
}
use serp_harvester.Proxy.{Proxy, Pool, is_banned}
use serp_harvester.Proxy.Health.{Stats, stats}

-- `earliest.IsZero() || until.Before(earliest)`
unfoldable pub sooner : ℕ → ℕ → ℕ
sooner until earliest = if (earliest == 0) || ltb until earliest then until else earliest

-- `Counts`
pub record Counts : Type 0 where
  pub available : ℕ
  pub cooling : ℕ

-- `cooling++` or `available++`
unfoldable pub tally : Bool → Counts → Counts
tally true c = record c { cooling = c.cooling + 1 }
tally false c = record c { available = c.available + 1 }

module _ {W : Type 0} where
  -- The loop of `NextAvailableAt`; the zero time is 0.
  unfoldable pub earliest_from : ℕ → (ℕ → Proxy W) → ℕ → List ℕ → ℕ
  earliest_from now cell earliest [] = earliest
  earliest_from now cell earliest (r ∷ rs) =
      let until = (cell r).banned_until in
      let rest = earliest_from now cell (sooner until earliest) rs in
      if not (ltb now until) then 0 else rest

  -- `NextAvailableAt`
  unfoldable pub next_available_at : ℕ → Pool W → ℕ
  next_available_at now pl = earliest_from now pl.cell 0 pl.proxies

  -- The loop of `Counts`; reading `i` of the clock is for the head.
  unfoldable pub counts_from : (ℕ → ℕ) → ℕ → (ℕ → Proxy W) → Counts → List ℕ → Counts
  counts_from clock i cell c [] = c
  counts_from clock i cell c (r ∷ rs) =
      counts_from clock (i + 1) cell (tally (is_banned (clock i) (cell r)) c) rs

  unfoldable pub counts : (ℕ → ℕ) → Pool W → Counts
  counts clock pl = counts_from clock 0 pl.cell (record { available = 0; cooling = 0 }) pl.proxies

  -- `Size`
  unfoldable pub size : Pool W → ℕ
  size pl = length pl.proxies

module _ {W : Type 0} ⦃f : Float W⦄ where
  -- The loop of `AllStats`.
  unfoldable pub all_stats_from : (ℕ → ℕ) → ℕ → (ℕ → Proxy W) → List ℕ → List (Stats W)
  all_stats_from clock i cell [] = []
  all_stats_from clock i cell (r ∷ rs) =
      stats (clock i) (cell r) ∷ all_stats_from clock (i + 1) cell rs

  -- `AllStats`
  unfoldable pub all_stats : (ℕ → ℕ) → Pool W → List (Stats W)
  all_stats clock pl = all_stats_from clock 0 pl.cell pl.proxies

tally-total :
    (b : Bool) (c : Counts)
    → (tally b c).available + (tally b c).cooling ≡ c.available + c.cooling + 1
unfolding tally
tally-total true c = omega arith
tally-total false c = omega arith

sooner_lem :
    (u e : ℕ)
    → 0 < u
    → (sooner u e ≤ u)
      × (e ≢ 0 → sooner u e ≤ e)
      × (sooner u e ≢ 0)
      × ((sooner u e ≡ u) ⊎ (sooner u e ≡ e))
unfolding sooner
sooner_lem u e h = (ground arith, ground arith, ground arith, ground arith)

module _ {W : Type 0} where
  counts_from-total :
      (clock : ℕ → ℕ) (i : ℕ) (cell : ℕ → Proxy W) (c : Counts) (rs : List ℕ)
      → let d = counts_from clock i cell c rs in
        d.available + d.cooling ≡ c.available + c.cooling + length rs
  unfolding counts_from
  counts_from-total clock i cell c [] = omega arith
  counts_from-total clock i cell c (r ∷ rs) = omega (
    arith,
    counts_from-total clock (i + 1) cell (tally (is_banned (clock i) (cell r)) c) rs,
    tally-total (is_banned (clock i) (cell r)) c,
  )

  -- The two counts add up to the number of proxies, whatever the clock shows meanwhile.
  pub counts-size :
      (clock : ℕ → ℕ) (pl : Pool W)
      → (counts clock pl).available + (counts clock pl).cooling ≡ size pl
  unfolding counts size
  counts-size clock pl = omega (arith, counts_from-total clock 0 pl.cell _ pl.proxies)

  -- 0 and one of the list is free, or the least instant at which one of the list, or `earliest` if
  -- that is set, becomes free.
  abbrev Earliest : ℕ → (ℕ → Proxy W) → ℕ → List ℕ → ℕ → Type 0
  Earliest now cell earliest rs at =
      ((at ≡ 0) × ((r : ℕ) × Listed r rs × (is_banned now (cell r) ≡ false)))
      ⊎ (((r : ℕ) → Listed r rs → (is_banned now (cell r) ≡ true) × (at ≤ (cell r).banned_until))
          × (earliest ≢ 0 → at ≤ earliest)
          × ((earliest ≢ 0) ⊎ (rs ≢ []) → at ≢ 0)
          × ((at ≡ earliest) ⊎ ((r : ℕ) × Listed r rs × (at ≡ (cell r).banned_until))))

  Earliest-cons :
      (now : ℕ) (cell : ℕ → Proxy W) (earliest r : ℕ) (rs : List ℕ) (at : ℕ)
      → ltb now (cell r).banned_until ≡ true
      → Earliest now cell (sooner (cell r).banned_until earliest) rs at
      → Earliest now cell earliest (r ∷ rs) at
  Earliest-cons now cell earliest r rs at b (inl (z, (s, l, g))) = inl (z, (s, inr l, g))
  Earliest-cons now cell earliest r rs at b (inr (bounds, below, nonzero, from)) =
      let (le_until, le_earliest, set, source) =
        sooner_lem (cell r).banned_until earliest (omega (arith, ltb→lt now _ b)) in
      inr (
        (λ s l. elim l [
          | inl here ↦ rw here (banned b, omega (arith, below set, le_until))
          | inr there ↦ bounds s there
        ]),
        (λ h. omega (arith, below set, le_earliest h)),
        (λ _. nonzero (inl set)),
        (elim from [
          | inl e ↦ elim source [ inl u ↦ inr (r, inl refl, e ∙ u) | inr o ↦ inl (e ∙ o) ]
          | inr (s, l, e) ↦ inr (s, inr l, e)
        ]),
      )
    where
      banned : ltb now (cell r).banned_until ≡ true → is_banned now (cell r) ≡ true
      banned h = unfold is_banned in h

  earliest_from-Earliest :
      (now : ℕ) (cell : ℕ → Proxy W) (earliest : ℕ) (rs : List ℕ)
      → Earliest now cell earliest rs (earliest_from now cell earliest rs)
  unfolding earliest_from is_banned
  earliest_from-Earliest now cell earliest [] = inr (
    (λ r l. elim l [ ]),
    (λ h. omega arith),
    (λ h. elim h [ inl e ↦ e | inr e ↦ absurd (e refl) ]),
    inl refl,
  )
  earliest_from-Earliest now cell earliest (r ∷ rs) =
      elim (Bool-cases (ltb now (cell r).banned_until)) [
        | inl cooling ↦ rw cooling (
            Earliest-cons now cell earliest r rs _ cooling
              (earliest_from-Earliest now cell (sooner (cell r).banned_until earliest) rs))
        | inr free ↦ rw free (inl (refl, (r, inl refl, free)))
      ]

  -- For a pool with a proxy, `NextAvailableAt` is the zero time and some proxy is free, or each one
  -- is cooling and it is the least instant at which one of them becomes free.
  pub next_available_at_lem :
      (now : ℕ) (pl : Pool W)
      → 0 < size pl
      → let at = next_available_at now pl in
        ((at ≡ 0) × ((r : ℕ) × Listed r pl.proxies × (is_banned now (pl.cell r) ≡ false)))
        ⊎ (((r : ℕ)
              → Listed r pl.proxies
              → (is_banned now (pl.cell r) ≡ true) × (at ≤ (pl.cell r).banned_until))
            × ((r : ℕ) × Listed r pl.proxies × (at ≡ (pl.cell r).banned_until)))
  unfolding next_available_at size
  next_available_at_lem now pl h = go pl.proxies h (earliest_from-Earliest now pl.cell 0 pl.proxies)
    where
      go :
          (rs : List ℕ)
          → 0 < length rs
          → {at : ℕ} → Earliest now pl.cell 0 rs at
          → ((at ≡ 0) × ((r : ℕ) × Listed r rs × (is_banned now (pl.cell r) ≡ false)))
            ⊎ (((r : ℕ)
                  → Listed r rs
                  → (is_banned now (pl.cell r) ≡ true) × (at ≤ (pl.cell r).banned_until))
                × ((r : ℕ) × Listed r rs × (at ≡ (pl.cell r).banned_until)))
      go rs p (inl z) = inl z
      go rs p (inr (bounds, below, nonzero, inr found)) = inr (bounds, found)
      go [] p (inr (bounds, below, nonzero, inl z)) = absurd (omega arith)
      go (r ∷ rs) p (inr (bounds, below, nonzero, inl z)) = absurd (nonzero (inr (λ e. cc)) z)
