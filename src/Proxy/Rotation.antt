-- ===== src/Proxy/Rotation.antt =====
-- internal/proxy/pool.go: `Next`. `time.Now` is read anew in every round, so a call takes its clock,
-- whose value at `i` is what reading number `i` of the call gives; it also takes its random draws.
pub mod Cycle
pub mod Available
pub mod Frame
use serp_harvester.Prelude.{
  ℕ, zero, suc, ◌+◌, ◌-◌, ◌%◌, List, [], ◌∷◌, ◌++◌, Bool, true, false, if◌then◌else◌, Option, none,
  some, get_elem?, length, update, ◌==◌, Float,
}
use serp_harvester.Proxy.{
  Proxy, Pool, Strategy, round_robin, random, weighted_success_rate, is_banned,
}
use serp_harvester.Proxy.Health.{stats, health_locked}

-- A proxy, `ErrAllBanned`, or the panic of an index out of range.
pub data Picked : Type 0 where
  picked : ℕ → Picked
  all_banned index_panic : Picked

-- What `rand.Intn` and `rand.Float64` give to the call.
pub record Draws (W : Type 0) : Type 0 where
  pub intn : ℕ → ℕ
  pub float64 : W

module _ {W : Type 0} where
  -- `markUsed`
  unfoldable pub mark_used : ℕ → ℕ → Pool W → Pool W
  mark_used now r pl = record pl {
    cell = update pl.cell r (record (pl.cell r) { last_used_at = now });
  }

  -- The loop of `nextRoundRobinLocked`, by the rounds left; `i` counts the clock readings.
  unfoldable pub rounds : ℕ → (ℕ → ℕ) → ℕ → Pool W → Pool W × Picked
  rounds zero clock i pl = (pl, all_banned)
  rounds (suc k) clock i pl = elim (get_elem? pl.proxies pl.idx) [
    | none ↦ (pl, index_panic)
    | some r ↦
        let q = record pl { idx = (pl.idx + 1) % length pl.proxies } in
        let rest = rounds k clock (i + 1) q in
        if is_banned (clock i) (pl.cell r) then rest else (mark_used (clock (i + 1)) r q, picked r)
  ]

  -- `nextRoundRobinLocked`
  unfoldable pub next_round_robin : (ℕ → ℕ) → Pool W → Pool W × Picked
  next_round_robin clock pl = rounds (length pl.proxies) clock 0 pl

  -- The loop of `healthyLocked`.
  unfoldable pub healthy_from : (ℕ → ℕ) → ℕ → (ℕ → Proxy W) → List ℕ → List ℕ
  healthy_from clock i cell [] = []
  healthy_from clock i cell (r ∷ rs) =
      let rest = healthy_from clock (i + 1) cell rs in
      if is_banned (clock i) (cell r) then rest else r ∷ rest

  -- `healthyLocked`
  unfoldable pub healthy_locked : (ℕ → ℕ) → Pool W → List ℕ
  healthy_locked clock pl = healthy_from clock 0 pl.cell pl.proxies

  -- An element of `healthy` by its index, used at a clock reading.
  unfoldable pub use_at : ℕ → Pool W → List ℕ → ℕ → Pool W × Picked
  use_at now pl healthy k = elim (get_elem? healthy k) [
    | none ↦ (pl, index_panic)
    | some r ↦ (mark_used now r pl, picked r)
  ]

  -- `nextRandomLocked`
  unfoldable pub next_random : Draws W → (ℕ → ℕ) → Pool W → Pool W × Picked
  next_random draws clock pl =
      let healthy = healthy_locked clock pl in
      if length healthy == 0
      then (pl, all_banned)
      else use_at (clock (length pl.proxies)) pl healthy (draws.intn (length healthy))

-- The index found, or `len(healthy)-1`.
unfoldable pub pick_or_last : Option ℕ → ℕ → ℕ
pick_or_last (some i) n = i
pick_or_last none n = n - 1

module _ {W : Type 0} ⦃f : Float W⦄ where
  -- The weight of one proxy: 0.5 with no history, and 0.1 at least.
  unfoldable pub weight : Proxy W → W
  weight p =
      let h = health_locked p in
      let w = if f.lt h (f.lit 0 1) then f.lit 5 10 else h in
      if f.lt w (f.lit 1 10) then f.lit 1 10 else w

  unfoldable pub weights : (ℕ → Proxy W) → List ℕ → List W
  weights cell [] = []
  weights cell (r ∷ rs) = weight (cell r) ∷ weights cell rs

  -- `total += w`
  unfoldable pub total_weight : W → List W → W
  total_weight total [] = total
  total_weight total (w ∷ ws) = total_weight (f.add total w) ws

  -- `r -= w; if r <= 0 { return i }`
  unfoldable pub pick_weight : W → ℕ → List W → Option ℕ
  pick_weight r i [] = none
  pick_weight r i (w ∷ ws) =
      let left = f.sub r w in
      let rest = pick_weight left (i + 1) ws in if f.le left (f.lit 0 1) then some i else rest

  -- `nextWeightedLocked`; each `Stats` reads the clock once.
  unfoldable pub next_weighted : Draws W → (ℕ → ℕ) → Pool W → Pool W × Picked
  next_weighted draws clock pl =
      let healthy = healthy_locked clock pl in
      let ws = weights pl.cell healthy in
      let r = f.mul draws.float64 (total_weight (f.lit 0 1) ws) in
      if length healthy == 0
      then (pl, all_banned)
      else use_at (clock (length pl.proxies + length healthy)) pl healthy
          (pick_or_last (pick_weight r 0 ws) (length healthy))

  -- The `switch` of `Next`; round robin is its default.
  unfoldable pub next_by : Strategy → Draws W → (ℕ → ℕ) → Pool W → Pool W × Picked
  next_by random draws clock pl = next_random draws clock pl
  next_by weighted_success_rate draws clock pl = next_weighted draws clock pl
  next_by round_robin draws clock pl = next_round_robin clock pl

  -- `Next`
  unfoldable pub next : Draws W → (ℕ → ℕ) → Pool W → Pool W × Picked
  next draws clock pl = next_by pl.strategy draws clock pl
