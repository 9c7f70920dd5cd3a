-- ===== src/Worker/Feedback.antt =====
-- internal/worker/pool.go: what a fetch outcome tells the proxy pool, the limiter and the metrics.
use serp_harvester.Prelude.{
  ℕ, Bool, true, false, ◌||◌, if◌then◌else◌, Option, none, some, ℤ, pos, Text, bytes, Float,
}
use serp_harvester.Proxy
use serp_harvester.Proxy.Report.{report_outcome}
use serp_harvester.Limiter.{Buckets, Limiter, penalize, reward}
use serp_harvester.Metrics.{Counters, inc_proxy_banned, inc_proxy_cooldown, inc_rate_decrease}
use serp_harvester.Fetcher.{
  Error, links, Outcome, success, rate_limited, captcha, consent, interstitial, challenge,
  client_error, is_blocked,
}
use serp_harvester.Fetcher.Classify.{as_rate_limit}
use serp_harvester.Worker.{World}

-- `proxyOutcome`
unfoldable pub proxy_outcome : Outcome → Proxy.Outcome
proxy_outcome success = Proxy.success
proxy_outcome rate_limited = Proxy.rate_limited
proxy_outcome captcha = Proxy.blocked
proxy_outcome interstitial = Proxy.blocked
proxy_outcome challenge = Proxy.blocked
proxy_outcome consent = Proxy.neutral
proxy_outcome client_error = Proxy.neutral
proxy_outcome Outcome.canceled = Proxy.neutral
proxy_outcome _ = Proxy.failure

unfoldable pub is_success : Outcome → Bool
is_success success = true
is_success _ = false

unfoldable pub is_rate_limited : Outcome → Bool
is_rate_limited rate_limited = true
is_rate_limited _ = false

-- `cooldownReason`
unfoldable pub cooldown_reason : Outcome → Text
cooldown_reason o =
    if is_rate_limited o
    then bytes "rate_limited"
    else (if is_blocked o then bytes "blocked" else bytes "failures")

-- `errors.As(err, &rl)`, and then its `RetryAfter`, or 0.
unfoldable pub retry_after_of : Option Error → ℤ
retry_after_of none = pos 0
retry_after_of (some e) = elim (as_rate_limit (links e)) [ none ↦ pos 0 | some d ↦ d ]

unfoldable pub count_cooldown : Outcome → Bool → Counters → Counters
count_cooldown o false c = c
count_cooldown o true c = inc_proxy_cooldown (cooldown_reason o) (inc_proxy_banned c)

module _ {W B : Type 0} ⦃f : Float W⦄ (k : Buckets W B) where
  -- The `switch` of `recordOutcome`.
  unfoldable pub adapt : Text → Outcome → Limiter W B → Counters → Limiter W B × Counters
  adapt bucket_key o l c =
      let (l', decreased) = penalize k l bucket_key in
      if is_success o
      then (reward k l bucket_key, c)
      else (if is_rate_limited o || is_blocked o
          then (l', if decreased then inc_rate_decrease c else c)
          else (l, c))

module _ {W B S U : Type 0} ⦃f : Float W⦄ (k : Buckets W B) where
  -- `recordOutcome`; the pool reads the time `now`.
  unfoldable pub record_outcome :
      ℕ → ℕ → Text → Outcome → Option Error → World W B S U → World W B S U
  record_outcome now r bucket_key o err w =
      let (pl, cooled) = report_outcome w.pool now r (proxy_outcome o) (retry_after_of err) in
      let (l, c) = adapt k bucket_key o w.limiter (count_cooldown o cooled w.counters) in
      record w { pool = pl; limiter = l; counters = c }
