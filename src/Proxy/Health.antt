-- ===== src/Proxy/Health.antt =====
-- internal/proxy/pool.go: the health score of a proxy, its snapshot, and the bounds of the score.
use serp_harvester.Prelude.{
  ℕ, ◌≡◌, Bool, true, false, if◌then◌else◌, Float, IsIeee, ◌≼◌, Text, ◌==◌, add64, Bool-cases, inl,
  inr,
}
use serp_harvester.Proxy.{Proxy, is_banned}

module _ {W : Type 0} ⦃f : Float W⦄ where
  -- `healthAlpha`; `1 - healthAlpha` is a constant that the compiler computes exactly.
  abbrev pub health_alpha : W
  health_alpha = f.lit 2 10

  abbrev pub health_beta : W
  health_beta = f.lit 8 10

  -- `healthLocked`
  unfoldable pub health_locked : Proxy W → W
  health_locked p = if p.has_health then p.health else f.neg (f.lit 1 1)

  -- `recordHealthLocked`
  unfoldable pub record_health_locked : Bool → Proxy W → Proxy W
  record_health_locked ok p =
      let v = if ok then f.lit 1 1 else f.lit 0 1 in
      if p.has_health
      then record p { health = f.add (f.mul health_beta p.health) (f.mul health_alpha v) }
      else record p { health = v; has_health = true }

-- `Stats`
pub record Stats (W : Type 0) : Type 0 where
  pub url : Text
  pub total_success : ℕ
  pub total_failure : ℕ
  pub consecutive_fails : ℕ
  pub banned : Bool
  pub banned_until : ℕ
  pub last_used_at : ℕ
  pub ban_streak : ℕ
  pub health : W

module _ {W : Type 0} ⦃f : Float W⦄ where
  -- `(*Proxy).Stats`
  unfoldable pub stats : ℕ → Proxy W → Stats W
  stats now p = record {
    url = p.url;
    total_success = p.total_success;
    total_failure = p.total_failure;
    consecutive_fails = p.consecutive_fails;
    banned = is_banned now p;
    banned_until = p.banned_until;
    last_used_at = p.last_used_at;
    ban_streak = p.ban_streak;
    health = health_locked p;
  }

  -- `Stats.SuccessRate`, where `of_nat` is the conversion of a uint64.
  unfoldable pub success_rate : (ℕ → W) → Stats W → W
  success_rate of_nat s =
      let total = add64 s.total_success s.total_failure in
      if total == 0 then f.lit 0 1 else f.div (of_nat s.total_success) (of_nat total)

  -- A score that is used lies in [0, 1].
  abbrev pub InUnit : W → Type 0
  InUnit x = (f.lit 0 1 ≼ x) × (x ≼ f.lit 1 1)

  pub record HasUnitHealth (p : Proxy W) : Type 0 where
    pub unit : p.has_health ≡ true → InUnit p.health

-- The constants as float64 has them: 0, 0.2, 0.8 and 1 lie in this order, and both ends of the
-- average stay in the interval.
pub record HasConstants (W : Type 0) ⦃f : Float W⦄ : Type 0 where
  pub zero_le_one : f.lit 0 1 ≼ f.lit 1 1
  pub zero_refl : f.lit 0 1 ≼ f.lit 0 1
  pub one_refl : f.lit 1 1 ≼ f.lit 1 1
  pub alpha_nonneg : f.lit 0 1 ≼ health_alpha
  pub beta_nonneg : f.lit 0 1 ≼ health_beta
  pub alpha_le_one : health_alpha ≼ f.lit 1 1
  pub beta_le_one : health_beta ≼ f.lit 1 1
  pub alpha_zero : f.lit 0 1 ≼ f.mul health_alpha (f.lit 0 1)
  pub beta_zero : f.lit 0 1 ≼ f.mul health_beta (f.lit 0 1)
  pub sum_zero : f.lit 0 1 ≼ f.add (f.mul health_beta (f.lit 0 1)) (f.mul health_alpha (f.lit 0 1))
  pub sum_one : f.add (f.mul health_beta (f.lit 1 1)) (f.mul health_alpha (f.lit 1 1)) ≼ f.lit 1 1

module _ {W : Type 0} ⦃f : Float W⦄ (ieee : IsIeee W) (c : HasConstants W) where
  average-InUnit :
      (h v : W) → InUnit h → InUnit v → InUnit (f.add (f.mul health_beta h) (f.mul health_alpha v))
  average-InUnit h v uh uv = (
    ieee.le_trans _ _ _ c.sum_zero (
        ieee.add_mono _ _ _ _ c.beta_zero c.alpha_zero
          (scaled c.beta_nonneg c.beta_le_one c.zero_refl uh.0 uh.1)
          (scaled c.alpha_nonneg c.alpha_le_one c.zero_refl uv.0 uv.1)),
    ieee.le_trans _ _ _
        (ieee.add_mono _ _ _ _ (positive c.beta_zero c.beta_nonneg c.beta_le_one uh)
          (positive c.alpha_zero c.alpha_nonneg c.alpha_le_one uv)
          (scaled c.beta_nonneg c.beta_le_one uh.0 uh.1 c.one_refl)
          (scaled c.alpha_nonneg c.alpha_le_one uv.0 uv.1 c.one_refl))
        c.sum_one,
  )
    where
      scaled :
          {a x y : W}
          → f.lit 0 1 ≼ a
          → a ≼ f.lit 1 1
          → f.lit 0 1 ≼ x
          → x ≼ y
          → y ≼ f.lit 1 1
          → f.mul a x ≼ f.mul a y
      scaled {a} {x} {y} p le q r s = ieee.mul_mono a x y p le q r s

      positive :
          {a x : W}
          → f.lit 0 1 ≼ f.mul a (f.lit 0 1)
          → f.lit 0 1 ≼ a
          → a ≼ f.lit 1 1
          → InUnit x
          → f.lit 0 1 ≼ f.mul a x
      positive {a} {x} z p le q =
          ieee.le_trans _ _ _ z (ieee.mul_mono a _ x p le c.zero_refl q.0 q.1)

  -- Recording an outcome keeps the health score in [0, 1], whatever the history.
  pub record_health_locked-HasUnitHealth :
      (ok : Bool) (p : Proxy W) → HasUnitHealth p → HasUnitHealth (record_health_locked ok p)
  unfolding record_health_locked
  record_health_locked-HasUnitHealth ok p h = record { unit = λ _. new }
    where
      outcome : (b : Bool) → InUnit (if b then f.lit 1 1 else f.lit 0 1)
      outcome true = (c.zero_le_one, c.one_refl)
      outcome false = (c.zero_refl, c.zero_le_one)

      new : InUnit (record_health_locked ok p).health
      new = elim (Bool-cases p.has_health) [
        | inl e ↦ rw (e, record_health_locked) (average-InUnit p.health _ (h.unit e) (outcome ok))
        | inr e ↦ rw (e, record_health_locked) (outcome ok)
      ]
