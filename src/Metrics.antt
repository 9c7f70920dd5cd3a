-- ===== src/Metrics.antt =====
-- internal/metrics: metrics.go and acquisition.go, the counters of a run, all uint64.
pub mod Browser
pub mod Latency
use serp_harvester.Prelude.{
  ℕ, ◌+◌, ◌≡◌, refl, List, [], ◌∷◌, Text, text_eq, Option, none, some, lookup, insert, add64, arith,
  lookup-insert, if◌then◌else◌, text_eq_iff,
}

-- `Counters`, without the browser's counters and the gauges; a labelled counter is its map.
pub record Counters : Type 0 where
  pub success : ℕ
  pub failure : ℕ
  pub dropped : ℕ
  pub retried : ℕ
  pub ai_overview_present : ℕ
  pub calibration_flagged : ℕ
  pub proxy_banned : ℕ
  pub rate_decreases : ℕ
  pub failovers : ℕ
  pub http_consent_handled : ℕ
  pub robots_disallowed : ℕ
  pub outcomes : List (Text × ℕ)
  pub cooldowns : List (Text × ℕ)

unfoldable pub inc_success : Counters → Counters
inc_success c = record c { success = add64 c.success 1 }

unfoldable pub inc_failure : Counters → Counters
inc_failure c = record c { failure = add64 c.failure 1 }

unfoldable pub inc_dropped : Counters → Counters
inc_dropped c = record c { dropped = add64 c.dropped 1 }

unfoldable pub inc_retried : Counters → Counters
inc_retried c = record c { retried = add64 c.retried 1 }

unfoldable pub inc_ai_overview_present : Counters → Counters
inc_ai_overview_present c = record c { ai_overview_present = add64 c.ai_overview_present 1 }

unfoldable pub inc_calibration_flagged : Counters → Counters
inc_calibration_flagged c = record c { calibration_flagged = add64 c.calibration_flagged 1 }

unfoldable pub inc_proxy_banned : Counters → Counters
inc_proxy_banned c = record c { proxy_banned = add64 c.proxy_banned 1 }

unfoldable pub inc_rate_decrease : Counters → Counters
inc_rate_decrease c = record c { rate_decreases = add64 c.rate_decreases 1 }

unfoldable pub inc_failover : Counters → Counters
inc_failover c = record c { failovers = add64 c.failovers 1 }

unfoldable pub inc_http_consent_handled : Counters → Counters
inc_http_consent_handled c = record c { http_consent_handled = add64 c.http_consent_handled 1 }

unfoldable pub inc_robots_disallowed : Counters → Counters
inc_robots_disallowed c = record c { robots_disallowed = add64 c.robots_disallowed 1 }

unfoldable pub count_of : Option ℕ → ℕ
count_of none = 0
count_of (some n) = n

-- `labeledCounter.inc`
unfoldable pub inc_label : Text → List (Text × ℕ) → List (Text × ℕ)
inc_label label m = insert label (add64 (count_of (lookup label m)) 1) m

unfoldable pub inc_outcome : Text → Counters → Counters
inc_outcome outcome c = record c { outcomes = inc_label outcome c.outcomes }

unfoldable pub inc_proxy_cooldown : Text → Counters → Counters
inc_proxy_cooldown reason c = record c { cooldowns = inc_label reason c.cooldowns }

-- `Snapshot`
pub record Snapshot : Type 0 where
  pub success : ℕ
  pub failure : ℕ
  pub dropped : ℕ
  pub retried : ℕ
  pub ai_overview_present : ℕ
  pub calibration_flagged : ℕ
  pub proxy_banned : ℕ

unfoldable pub snapshot : Counters → Snapshot
snapshot c = record {
  success = c.success;
  failure = c.failure;
  dropped = c.dropped;
  retried = c.retried;
  ai_overview_present = c.ai_overview_present;
  calibration_flagged = c.calibration_flagged;
  proxy_banned = c.proxy_banned;
}

-- The count of a label after one more `inc`: one more of that label, modulo 2 ^ 64, and the same of
-- every other.
pub count-inc_label :
    (label other : Text) (m : List (Text × ℕ))
    → count_of (lookup other (inc_label label m)) ≡ (
        if text_eq label other
        then add64 (count_of (lookup label m)) 1
        else count_of (lookup other m))
unfolding inc_label count_of
count-inc_label label other m =
    ground (arith, lookup-insert label other (add64 (count_of (lookup label m)) 1) m)
