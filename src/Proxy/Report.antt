-- ===== src/Proxy/Report.antt =====
-- internal/proxy/pool.go: what a reported outcome does to a proxy.
pub mod Effects
pub mod Threshold
use serp_harvester.Prelude.{
  ℕ, ◌+◌, Bool, true, false, if◌then◌else◌, ℤ, pos, leb_ℤ, ltb_ℤ, ltb, ◌&&◌, add64, Float, update,
  Option, none, some,
}
use serp_harvester.Proxy.{Proxy, Pool, Outcome, success, failure, blocked, rate_limited, neutral}
use serp_harvester.Proxy.Health.{record_health_locked}
use serp_harvester.Proxy.Cooldown.{escalated_cooldown_locked, cool_locked}

module _ {W : Type 0} ⦃f : Float W⦄ where
  -- A cooldown of the length that the streak gives.
  unfoldable pub cool_escalated : Pool W → ℕ → Proxy W → Proxy W × Bool
  unfolding escalated_cooldown_locked
  cool_escalated pl now p = let (d, q) = escalated_cooldown_locked pl p in cool_locked now d q

  -- The second `switch` of `ReportOutcome`, after the failure is counted.
  unfoldable pub penalize : Pool W → ℕ → Outcome → ℤ → Proxy W → Proxy W × Bool
  penalize pl now rate_limited retry_after p =
      if ltb_ℤ (pos 0) retry_after then cool_locked now retry_after p else cool_escalated pl now p
  penalize pl now blocked retry_after p = cool_escalated pl now p
  penalize pl now _ retry_after p =
      let q = record p { consecutive_fails = p.consecutive_fails + 1 } in
      if ltb_ℤ (pos 0) pl.ban_threshold && leb_ℤ pl.ban_threshold (pos q.consecutive_fails)
      then cool_escalated pl now q
      else (q, false)

  unfoldable pub count_failure : Proxy W → Proxy W
  count_failure p =
      record_health_locked false (record p { total_failure = add64 p.total_failure 1 })

  -- The body of `ReportOutcome`, on the proxy that the pointer names.
  unfoldable pub report_cell : Pool W → ℕ → Outcome → ℤ → Proxy W → Proxy W × Bool
  report_cell pl now success retry_after p = (
    record_health_locked true (record p {
      consecutive_fails = 0;
      ban_streak = 0;
      total_success = add64 p.total_success 1;
    }),
    false,
  )
  report_cell pl now neutral retry_after p = (p, false)
  report_cell pl now outcome retry_after p = penalize pl now outcome retry_after (count_failure p)

  -- `ReportOutcome`, at the instant that `time.Now` gives.
  unfoldable pub report_outcome : Pool W → ℕ → ℕ → Outcome → ℤ → Pool W × Bool
  report_outcome pl now r outcome retry_after =
      let (p, cooled) = report_cell pl now outcome retry_after (pl.cell r) in
      (record pl { cell = update pl.cell r p }, cooled)

  -- `ReportResult`, where `none` is the nil error.
  unfoldable pub report_result {ℓ} : {E : Type ℓ} → Pool W → ℕ → ℕ → Option E → Pool W × Bool
  report_result pl now r none = report_outcome pl now r success (pos 0)
  report_result pl now r (some e) = report_outcome pl now r failure (pos 0)
