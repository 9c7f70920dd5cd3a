-- ===== src/Proxy/Cooldown.antt =====
-- internal/proxy/pool.go: how long a proxy cools. Durations are int64 nanoseconds.
use native.Mathlib.Nat.{pow-suc, one-le-pow, add-zero}
use serp_harvester.Prelude.{
  ℕ, zero, suc, ◌+◌, ◌*◌, ◌^◌, ◌≤◌, ◌<◌, min, ◌≡◌, refl, Bool, not, if◌then◌else◌, arith, ℤ, pos,
  ◌≤ℤ◌, leb_ℤ, ltb_ℤ, ltb, times, wrap64, add_time, two63, ltb→lt, ltb→ge, Bool-cases, inl, inr,
  ◌∙◌, ap,
}
use serp_harvester.Proxy.{Proxy, Pool, is_banned}

-- `for i := 0; i < p.banStreak && d < max; i++ { d *= 2 }`, by the rounds left.
unfoldable pub double_upto : ℕ → ℤ → ℤ → ℤ
double_upto zero max d = d
double_upto (suc n) max d =
    let rest = double_upto n max (wrap64 (times 2 d)) in if ltb_ℤ d max then rest else d

-- The cap: `MaxCooldown`, or 16 times `banCooldown`.
unfoldable pub cooldown_cap : ℤ → ℤ → ℤ
cooldown_cap max_cooldown ban_cooldown =
    if leb_ℤ max_cooldown (pos 0) then wrap64 (times 16 ban_cooldown) else max_cooldown

unfoldable pub escalate : ℤ → ℤ → ℕ → ℤ
escalate max_cooldown ban_cooldown streak =
    let top = cooldown_cap max_cooldown ban_cooldown in
    let d = double_upto streak top ban_cooldown in if ltb_ℤ top d then top else d

module _ {W : Type 0} where
  -- `escalatedCooldownLocked`
  unfoldable pub escalated_cooldown_locked : Pool W → Proxy W → ℤ × Proxy W
  escalated_cooldown_locked pl p = (
    escalate pl.max_cooldown pl.ban_cooldown p.ban_streak,
    record p { ban_streak = p.ban_streak + 1 },
  )

  -- `coolLocked`: the proxy, and whether it was not already cooling.
  unfoldable pub cool_locked : ℕ → ℤ → Proxy W → Proxy W × Bool
  cool_locked now d p =
      let until = add_time now d in
      let later = if ltb p.banned_until until then until else p.banned_until in
      (record p { banned_until = later; consecutive_fails = 0 }, not (is_banned now p))

-- No duration computed here passes 2 ^ 62 ns (146 years), so nothing wraps.
abbrev pub two62 : ℕ
two62 = 4611686018427387904

-- In range, int64 doubling is doubling.
wrap64-times : (k n : ℕ) → k * n < two63 → wrap64 (times k (pos n)) ≡ pos (k * n)
wrap64-times k n h = ground arith

min_of_reached : (n d m : ℕ) → m ≤ d → min d m ≡ min (d * 2 ^ n) m
min_of_reached n d m h = grind (arith, one-le-pow n 2 (omega arith), mul_mono d 1 (2 ^ n))
  where
    mul_mono : (a b c : ℕ) → b ≤ c → a * b ≤ a * c
    mul_mono a b c p = grind arith

double_upto_lem :
    (n m d : ℕ)
    → m ≤ two62
    → d < two63
    → (e : ℕ) × (double_upto n (pos m) (pos d) ≡ pos e) × (min e m ≡ min (d * 2 ^ n) m)
unfolding double_upto
double_upto_lem zero m d hm hd = (d, refl, omega arith)
double_upto_lem (suc n) m d hm hd = elim (Bool-cases (ltb d m)) [
  | inl below ↦
      let lt : d < m = ltb→lt d m below in
      let (e, run, least) = double_upto_lem n m (2 * d) hm (omega arith) in
      (
        e,
        rw (add-zero, add-zero, below)
            (ap (double_upto n (pos m)) (wrap64-times 2 d (omega arith)) ∙ run),
        least ∙ ap (λ (t : ℕ). min t m) (omega (arith, ap (λ (t : ℕ). d * t) (pow-suc 2 n))),
      )
  | inr reached ↦
      (d, rw (add-zero, add-zero, reached), min_of_reached (suc n) d m (ltb→ge d m reached))
]

-- With a positive base and a cap of at most 2 ^ 62 ns, the cooldown is the base doubled once for each
-- earlier cooldown, cut at the cap: `MaxCooldown` if that is set, else 16 times the base.
pub escalate-eq-min :
    (base cap streak : ℕ) (max_cooldown : ℤ)
    → base < two63
    → cooldown_cap max_cooldown (pos base) ≡ pos cap
    → cap ≤ two62
    → escalate max_cooldown (pos base) streak ≡ pos (min (base * 2 ^ streak) cap)
unfolding escalate
escalate-eq-min base cap streak max_cooldown hb e hc =
    let (d, run, least) = double_upto_lem streak cap base hc hb in
    rw (e, run) (cut d ∙ ap pos least)
  where
    cut : (d : ℕ) → (if ltb_ℤ (pos cap) (pos d) then pos cap else pos d) ≡ pos (min d cap)
    cut d = ground arith

-- Whatever the settings, a cooldown never exceeds the cap.
pub escalate-le-cap :
    (max_cooldown ban_cooldown : ℤ) (streak : ℕ)
    → escalate max_cooldown ban_cooldown streak ≤ℤ cooldown_cap max_cooldown ban_cooldown
unfolding escalate
escalate-le-cap max_cooldown ban_cooldown streak = ground arith
