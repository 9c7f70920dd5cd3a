-- ===== src/Proxy/Rotation/Frame.antt =====
-- What `Next` leaves as it was.
use serp_harvester.Prelude.{
  ℕ, ◌<◌, ◌≡◌, refl, List, Option, none, some, length, get_elem?, ◌==◌, Float, Option-cases,
  Bool-cases, inl, inr, arith,
}
use native.Mathlib.Nat.{mod-lt}
use serp_harvester.Proxy.{Pool, Strategy, round_robin, random, weighted_success_rate}
use serp_harvester.Proxy.Rotation.{
  Picked, Draws, mark_used, healthy_locked, use_at, next_random, next_weighted, next_by, next,
}
use serp_harvester.Proxy.Rotation.Cycle.{chosen, next_round_robin-first_free}

module _ {W : Type 0} where
  -- The list is the same, and the index still on it.
  abbrev pub Keeps : Pool W → Pool W × Picked → Type 0
  Keeps pl (q, x) = (q.proxies ≡ pl.proxies) × (q.idx < length q.proxies)

  chosen-Keeps :
      (clock : ℕ → ℕ) (pl : Pool W) (o : Option (ℕ × ℕ))
      → pl.idx < length pl.proxies
      → Keeps pl (chosen clock pl o)
  chosen-Keeps clock pl none h = (refl, h)
  chosen-Keeps clock pl (some (j, r)) h = unfold mark_used in (refl, mod-lt _ (omega arith))

  use_at-Keeps :
      (now : ℕ) (pl : Pool W) (healthy : List ℕ) (k : ℕ)
      → pl.idx < length pl.proxies
      → Keeps pl (use_at now pl healthy k)
  unfolding use_at mark_used
  use_at-Keeps now pl healthy k h = elim (Option-cases (get_elem? healthy k)) [
    | inl e ↦ rw (e, use_at) (refl, h)
    | inr (r, e) ↦ rw (e, use_at) (refl, h)
  ]

module _ {W : Type 0} ⦃f : Float W⦄ where
  next_by-Keeps :
      (s : Strategy) (draws : Draws W) (clock : ℕ → ℕ) (pl : Pool W)
      → pl.idx < length pl.proxies
      → Keeps pl (next_by s draws clock pl)
  unfolding next_by next_random next_weighted
  next_by-Keeps round_robin draws clock pl h =
      rw (next_round_robin-first_free clock pl h) (chosen-Keeps clock pl _ h)
  next_by-Keeps random draws clock pl h =
      elim (Bool-cases (length (healthy_locked clock pl) == 0)) [
        | inl e ↦ rw e (refl, h)
        | inr e ↦ rw e (use_at-Keeps _ pl _ _ h)
      ]
  next_by-Keeps weighted_success_rate draws clock pl h =
      elim (Bool-cases (length (healthy_locked clock pl) == 0)) [
        | inl e ↦ rw e (refl, h)
        | inr e ↦ rw e (use_at-Keeps _ pl _ _ h)
      ]

  pub next-Keeps :
      (draws : Draws W) (clock : ℕ → ℕ) (pl : Pool W)
      → pl.idx < length pl.proxies
      → Keeps pl (next draws clock pl)
  unfolding next
  next-Keeps draws clock pl h = next_by-Keeps pl.strategy draws clock pl h
