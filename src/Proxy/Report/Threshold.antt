-- ===== src/Proxy/Report/Threshold.antt =====
-- The ban threshold: how many failures in a row cool a proxy.
use serp_harvester.Prelude.{ℕ, zero, suc, ◌<◌, ◌≡◌, refl, arith, false, pos, Float}
use serp_harvester.Proxy.{Pool}
use serp_harvester.Proxy.Health.{record_health_locked}
use serp_harvester.Proxy.Report.{penalize, count_failure, report_cell, report_outcome}
use serp_harvester.Proxy.Report.Effects.{failures}

module _ {W : Type 0} ⦃f : Float W⦄ where
  failures_settings :
      (n : ℕ) (pl : Pool W) (now r : ℕ)
      → let q = (failures n pl now r).0 in
        (q.ban_threshold ≡ pl.ban_threshold)
        × (q.ban_cooldown ≡ pl.ban_cooldown)
        × (q.max_cooldown ≡ pl.max_cooldown)
  unfolding failures report_outcome
  failures_settings zero pl now r = (refl, refl, refl)
  failures_settings (suc n) pl now r = failures_settings n pl now r

  module _ (pl : Pool W) (now r t : ℕ) (limit : pl.ban_threshold ≡ pos t)
      (clean : (pl.cell r).consecutive_fails ≡ 0) where
    -- Fewer failures than the threshold only count: the proxy is not cooled.
    pub failures_below :
        (n : ℕ)
        → n < t
        → let q = (failures n pl now r).0.cell r in
          (q.consecutive_fails ≡ n)
          × (q.banned_until ≡ (pl.cell r).banned_until)
          × (q.ban_streak ≡ (pl.cell r).ban_streak)
          × ((failures n pl now r).1 ≡ false)
    unfolding failures report_outcome report_cell penalize count_failure record_health_locked
    failures_below zero h = (clean, refl, refl, refl)
    failures_below (suc n) h =
        ground (arith, failures_below n (omega arith), failures_settings n pl now r)
