-- ===== src/Limiter.antt =====
-- internal/ratelimit/limiter.go: one token bucket per key, and the AIMD adaptation of its rate. The
-- bucket, `rate.Limiter` of golang.org/x/time, is a parameter: a type with the operations called.
pub mod Adaptation
use serp_harvester.Prelude.{
  ℕ, ◌+◌, ◌≡◌, List, [], ◌∷◌, Bool, true, false, if◌then◌else◌, ◌||◌, Option, none, some, Text,
  lookup, insert, Float,
}

-- `NewLimiter`, `Limit` and `SetLimit`.
pub record Buckets (W B : Type 0) : Type 0 where
  pub new_limiter : W → ℕ → B
  pub limit : B → W
  pub set_limit : W → B → B

-- What the documentation says of `Limit`.
pub record IsBuckets {W B : Type 0} (k : Buckets W B) : Type 0 where
  pub limit-new : (x : W) (n : ℕ) → k.limit (k.new_limiter x n) ≡ x
  pub limit-set : (x : W) (b : B) → k.limit (k.set_limit x b) ≡ x

-- `Limiter`
pub record Limiter (W B : Type 0) : Type 0 where
  pub buckets : List (Text × B)
  pub rps : W
  pub burst : ℕ
  pub adaptive : Bool
  pub min_rps : W
  pub step : W

module _ {W B : Type 0} ⦃f : Float W⦄ (k : Buckets W B) where
  -- `New`
  unfoldable pub new : W → ℕ → Limiter W B
  new rps burst = record {
    buckets = [];
    rps = rps;
    burst = burst;
    adaptive = false;
    min_rps = f.lit 0 1;
    step = f.lit 0 1;
  }

  -- `NewAdaptive`
  unfoldable pub new_adaptive : W → ℕ → W → Limiter W B
  new_adaptive rps burst min_rps = record (new rps burst) {
    adaptive = true;
    min_rps =
        if f.le min_rps (f.lit 0 1) || f.lt rps min_rps then f.div rps (f.lit 10 1) else min_rps;
    step = f.mul rps (f.lit 5 100);
  }

  -- The bucket of a key: the one of the map, or a new one.
  unfoldable pub bucket : Limiter W B → Text → B
  bucket l key = elim (lookup key l.buckets) [ none ↦ k.new_limiter l.rps l.burst | some b ↦ b ]

  -- `bucketFor`; the pointer that it returns is the key's entry.
  unfoldable pub bucket_for : Limiter W B → Text → Limiter W B × B
  bucket_for l key = elim (lookup key l.buckets) [
    | none ↦
        let b = k.new_limiter l.rps l.burst in (record l { buckets = insert key b l.buckets }, b)
    | some b ↦ (l, b)
  ]

  -- `b.SetLimit`, on the bucket that the map holds for the key.
  unfoldable pub set_limit_of : Text → W → B → Limiter W B → Limiter W B
  set_limit_of key x b l = record l { buckets = insert key (k.set_limit x b) l.buckets }

  -- `Penalize`
  unfoldable pub penalize : Limiter W B → Text → Limiter W B × Bool
  penalize l key =
      let (q, b) = bucket_for l key in
      let cur = k.limit b in
      let half = f.div cur (f.lit 2 1) in
      let next = if f.lt half l.min_rps then l.min_rps else half in
      if l.adaptive
      then (if f.le cur next then (q, false) else (set_limit_of key next b q, true))
      else (l, false)

  -- `Reward`
  unfoldable pub reward : Limiter W B → Text → Limiter W B
  reward l key =
      let (q, b) = bucket_for l key in
      let cur = k.limit b in
      let raised = f.add cur l.step in
      let next = if f.lt l.rps raised then l.rps else raised in
      if l.adaptive then (if f.le l.rps cur then q else set_limit_of key next b q) else l

  -- `Rate`
  unfoldable pub rate : Limiter W B → Text → Limiter W B × W
  rate l key = let (q, b) = bucket_for l key in (q, k.limit b)

  -- The loop of `Throttled`.
  unfoldable pub throttled_from : W → List (Text × B) → ℕ
  throttled_from rps [] = 0
  throttled_from rps ((key, b) ∷ m) =
      let rest = throttled_from rps m in if f.lt (k.limit b) rps then rest + 1 else rest

  -- `Throttled`
  unfoldable pub throttled : Limiter W B → ℕ
  throttled l = throttled_from l.rps l.buckets
