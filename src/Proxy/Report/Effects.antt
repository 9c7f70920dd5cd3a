-- ===== src/Proxy/Report/Effects.antt =====
-- What a report changes, and what its result tells.
use native.Mathlib.Nat.{one-le-pow, one-le-mul}
use serp_harvester.Prelude.{
  ℕ, zero, suc, ◌+◌, ◌*◌, ◌^◌, ◌≤◌, ◌<◌, min, max, ◌≡◌, ◌≢◌, ◌↔◌, Bool, true, false, arith, ℤ, pos,
  two63, Float,
}
use serp_harvester.Proxy.{Pool, Outcome, success, failure, blocked, rate_limited, is_banned}
use serp_harvester.Proxy.Health.{record_health_locked}
use serp_harvester.Proxy.Cooldown.{
  escalate, cooldown_cap, two62, escalated_cooldown_locked, cool_locked, escalate-eq-min,
}
use serp_harvester.Proxy.Report.{
  cool_escalated, penalize, count_failure, report_cell, report_outcome,
}

-- A positive base and a positive cap of at most 2 ^ 62 ns.
pub record IsSane {W : Type 0} (pl : Pool W) : Type 0 where
  pub base : ℕ
  pub cap : ℕ
  pub base_eq : pl.ban_cooldown ≡ pos base
  pub base_pos : 0 < base
  pub base_lt : base < two63
  pub cap_eq : cooldown_cap pl.max_cooldown pl.ban_cooldown ≡ pos cap
  pub cap_pos : 0 < cap
  pub cap_le : cap ≤ two62

module _ {W : Type 0} ⦃f : Float W⦄ where
  -- The instant until which a report keeps the proxy out of rotation never moves back.
  pub banned_until-report :
      (pl : Pool W) (now r : ℕ) (outcome : Outcome) (retry_after : ℤ)
      → (pl.cell r).banned_until
        ≤ ((report_outcome pl now r outcome retry_after).0.cell r).banned_until
  unfolding report_outcome report_cell penalize count_failure cool_escalated cool_locked
      record_health_locked
  banned_until-report pl now r outcome retry_after = ground arith

  -- A report touches no other proxy, nor the pool's lists.
  pub report_frame :
      (pl : Pool W) (now r s : ℕ) (outcome : Outcome) (retry_after : ℤ)
      → s ≢ r
      → let q = (report_outcome pl now r outcome retry_after).0 in
        (q.cell s ≡ pl.cell s)
        × (q.proxies ≡ pl.proxies)
        × (q.by_url ≡ pl.by_url)
        × (q.idx ≡ pl.idx)
  unfolding report_outcome
  report_frame pl now r s outcome retry_after h = ground arith

  module _ (pl : Pool W) (sane : IsSane pl) where
    open sane use {base, cap, base_eq, base_pos, base_lt, cap_eq, cap_pos, cap_le}

    -- The escalated cooldown after `streak` earlier ones.
    abbrev pub span : ℕ → ℕ
    span streak = min (base * 2 ^ streak) cap

    pub escalate-span :
        (streak : ℕ) → escalate pl.max_cooldown pl.ban_cooldown streak ≡ pos (span streak)
    escalate-span streak =
        rw base_eq
          (escalate-eq-min base cap streak pl.max_cooldown base_lt (rw (← base_eq) cap_eq) cap_le)

    pub span_pos : (streak : ℕ) → 0 < span streak
    span_pos streak = grind (arith, one-le-pow streak 2 (omega arith), one-le-mul {a = base})

    -- `ReportOutcome` returns true exactly when the call put the proxy into a new cooldown: it was
    -- available before, and is cooling after.
    pub report_new :
        (now r : ℕ) (outcome : Outcome) (retry_after : ℤ)
        → let (q, cooled) = report_outcome pl now r outcome retry_after in
          (cooled ≡ true)
          ↔ ((is_banned now (pl.cell r) ≡ false) × (is_banned now (q.cell r) ≡ true))
    unfolding report_outcome report_cell penalize count_failure cool_escalated cool_locked
        record_health_locked escalated_cooldown_locked is_banned
    report_new now r outcome retry_after =
        ground (arith, escalate-span (pl.cell r).ban_streak, span_pos (pl.cell r).ban_streak)

    -- A block cools the proxy at once, for the base doubled once per earlier cooldown up to the
    -- cap, without shortening a cooldown under way; it counts one cooldown more and starts the
    -- failure count again.
    pub report_blocked :
        (now r : ℕ) (retry_after : ℤ)
        → let p = pl.cell r in
          let q = (report_outcome pl now r blocked retry_after).0.cell r in
          (q.banned_until ≡ max p.banned_until (now + span p.ban_streak))
          × (q.ban_streak ≡ p.ban_streak + 1)
          × (q.consecutive_fails ≡ 0)
    unfolding report_outcome report_cell penalize count_failure cool_escalated cool_locked
        record_health_locked escalated_cooldown_locked
    report_blocked now r retry_after = ground (arith, escalate-span (pl.cell r).ban_streak)

    -- After a success the next block cools for the base alone (or the cap, if that is less).
    pub success-blocked :
        (now later r : ℕ) (ra rb : ℤ)
        → let p = pl.cell r in
          let q = (report_outcome pl now r success ra).0 in
          (((report_outcome q later r blocked rb).0.cell r).banned_until
            ≡ max p.banned_until (later + min base cap))
    unfolding report_outcome report_cell penalize count_failure cool_escalated cool_locked
        record_health_locked escalated_cooldown_locked
    success-blocked now later r ra rb = ground (arith, escalate-span 0)

  -- A rate limit with a Retry-After of `n` > 0 ns cools for exactly that long and does not escalate.
  pub report_retry_after :
      (pl : Pool W) (now r n : ℕ)
      → 0 < n
      → let p = pl.cell r in
        let q = (report_outcome pl now r rate_limited (pos n)).0.cell r in
        (q.banned_until ≡ max p.banned_until (now + n)) × (q.ban_streak ≡ p.ban_streak)
  unfolding report_outcome report_cell penalize count_failure cool_escalated cool_locked
      record_health_locked
  report_retry_after pl now r n h = ground arith

  -- `n` failures in a row, all reported at `now`: the pool, and the last result.
  unfoldable pub failures : ℕ → Pool W → ℕ → ℕ → Pool W × Bool
  failures zero pl now r = (pl, false)
  failures (suc n) pl now r = report_outcome (failures n pl now r).0 now r failure (pos 0)
