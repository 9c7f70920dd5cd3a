-- ===== src/Worker/Timing.antt =====
-- internal/worker/pool.go: `backoffDuration` and `sleepCtx`.
use native.Mathlib.Nat.{add-zero, pow-suc}
use serp_harvester.Prelude.{
  ℕ, zero, suc, ◌+◌, ◌-◌, ◌*◌, ◌/◌, ◌^◌, ◌≤◌, ◌<◌, ◌≡◌, ℤ, pos, negsuc, ◌-ℤ◌, ◌+ℤ◌, ◌≤ℤ◌, ◌<ℤ◌,
  leb_ℤ, ltb_ℤ, wrap64, Bool, not, if◌then◌else◌, Option, none, some, min, arith, pos_part, ap,
  subst,
}
use serp_harvester.Worker.{Env, World, step}

abbrev pub milliseconds : ℕ
milliseconds = 1000000

abbrev pub seconds : ℕ
seconds = 1000000000

-- Division by 2, toward zero.
unfoldable pub halve : ℤ → ℤ
halve (pos n) = pos (n / 2)
halve (negsuc n) = pos 0 -ℤ pos ((n + 1) / 2)

-- `base`, capped at 2s.
unfoldable pub backoff_base : ℕ → ℤ
backoff_base attempt =
    let base = wrap64 (pos (2 ^ attempt * (50 * milliseconds))) in
    if ltb_ℤ (pos (2 * seconds)) base then pos (2 * seconds) else base

-- `backoffDuration`; `rand.Int63n` panics on an argument that is not positive.
unfoldable pub backoff_duration : (ℤ → ℤ) → ℕ → Option ℤ
backoff_duration int63n attempt =
    let base = backoff_base attempt in
    if leb_ℤ (halve base) (pos 0) then none else some (base +ℤ int63n (halve base))

module _ {W B S U : Type 0} (env : Env W B S) where
  -- `sleepCtx`
  unfoldable pub sleep_ctx : ℤ → World W B S U → World W B S U × Bool
  sleep_ctx d w = (step w, if leb_ℤ d (pos 0) then not (env.ended w.tick) else env.timer w.tick d)

-- The capped delay of a product that does not overflow.
capped :
    (n : ℕ)
    → n ≤ 6871947673600000000
    → let b = wrap64 (pos n) in
      (if ltb_ℤ (pos (2 * seconds)) b then pos (2 * seconds) else b) ≡ pos (min n (2 * seconds))
capped n h = ground arith

pow-le-pow : (n k : ℕ) → 2 ^ n ≤ 2 ^ (n + k)
pow-le-pow n zero = rw add-zero (omega arith)
pow-le-pow n (suc k) =
    omega (arith, pow-le-pow n k, pow-suc 2 (n + k), ap (λ t. 2 ^ t) (the_sum n k))
  where
    the_sum : (n k : ℕ) → n + suc k ≡ suc (n + k)
    the_sum n k = omega arith

pow_bounds : (n : ℕ) → 1 ≤ n → n ≤ 37 → (2 ≤ 2 ^ n) × (2 ^ n ≤ 137438953472)
pow_bounds n h1 h2 = (
  subst (λ t. 2 ≤ 2 ^ t) below (pow-le-pow 1 (n - 1)),
  subst (λ t. 2 ^ n ≤ 2 ^ t) above (pow-le-pow n (37 - n)),
)
  where
    below : 1 + (n - 1) ≡ n
    below = omega arith

    above : n + (37 - n) ≡ 37
    above = omega arith

backoff_base-min :
    (attempt : ℕ)
    → 1 ≤ attempt
    → attempt ≤ 37
    → (backoff_base attempt ≡ pos (min (2 ^ attempt * (50 * milliseconds)) (2 * seconds)))
      × (2 ≤ min (2 ^ attempt * (50 * milliseconds)) (2 * seconds))
unfolding backoff_base
backoff_base-min attempt h1 h2 =
    let (low, high) = pow_bounds attempt h1 h2 in
    (capped (2 ^ attempt * (50 * milliseconds)) (omega arith), omega arith)

jittered :
    (int63n : ℤ → ℤ) (b : ℕ)
    → 2 ≤ b
    → (pos 0 ≤ℤ int63n (pos (b / 2))) × (int63n (pos (b / 2)) <ℤ pos (b / 2))
    → (d : ℕ) × ((if leb_ℤ (pos (b / 2)) (pos 0)
          then none
          else some (pos b +ℤ int63n (pos (b / 2))))
        ≡ some (pos d))
      × (b ≤ d)
      × (d < b + b / 2)
jittered int63n b h hd = (b + pos_part (int63n (pos (b / 2))), ground arith, ground arith, small)
  where
    pos_of_lt : (z : ℤ) → z <ℤ pos (b / 2) → pos_part z < b / 2
    pos_of_lt z l = ground arith

    small : b + pos_part (int63n (pos (b / 2))) < b + b / 2
    small = omega (arith, pos_of_lt (int63n (pos (b / 2))) hd.1)

-- Up to attempt 37 the delay doubles from 100ms on up to 2s, and the jitter adds less than half of
-- that; there is no panic.
pub backoff_duration_lem :
    (int63n : ℤ → ℤ) (attempt : ℕ)
    → 1 ≤ attempt
    → attempt ≤ 37
    → ((n : ℕ) → 0 < n → (pos 0 ≤ℤ int63n (pos n)) × (int63n (pos n) <ℤ pos n))
    → let base = min (2 ^ attempt * (50 * milliseconds)) (2 * seconds) in
      (d : ℕ) × (backoff_duration int63n attempt ≡ some (pos d))
      × (base ≤ d)
      × (d < base + base / 2)
unfolding backoff_duration backoff_base halve
backoff_duration_lem int63n attempt h1 h2 hd =
    let (e, two) = backoff_base-min attempt h1 h2 in
    rw (e, halve) (jittered int63n _ two (hd _ (omega arith)))
