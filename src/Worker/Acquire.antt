-- ===== src/Worker/Acquire.antt =====
-- internal/worker/pool.go: `nextProxy` and `Acquire`, one function per stage of the loop's body.
pub mod Attempts
pub mod Waiting
pub mod Totality
use serp_harvester.Prelude.{
  ℕ, zero, suc, ◌+◌, ◌==◌, ℤ, pos, ◌+ℤ◌, ◌-ℤ◌, leb_ℤ, ltb, pos_part, add_time, times, Bool, true,
  false, ◌||◌, if◌then◌else◌, Option, none, some, Text, Float, insert, [],
}
use serp_harvester.Proxy.{Proxy, key}
use serp_harvester.Proxy.Rotation.{Picked, picked, all_banned, index_panic, next}
use serp_harvester.Proxy.Queries.{next_available_at}
use serp_harvester.Limiter.{Buckets, bucket_for}
use serp_harvester.Metrics.{inc_retried, inc_failure, inc_outcome}
use serp_harvester.Metrics.Latency.{Recorder, observe}
use serp_harvester.Fetcher.{
  Request, Response, Error, FetchResult, fetched, failed, error_of, Outcome, outcome_name,
  is_retryable, is_blocked,
}
use serp_harvester.Fetcher
use serp_harvester.Fetcher.Classify.{classify}
use serp_harvester.Worker.{
  Env, Config, World, Task, DroppedError, Acquired, acquired, dropped, panicked, unfinished,
  Progress, Turn, again, finish, step, count,
}
use serp_harvester.Worker.Timing.{seconds, backoff_duration, sleep_ctx}
use serp_harvester.Worker.Feedback.{is_rate_limited, record_outcome}

-- What `nextProxy` returns, the panic of `Next`, or fuel that ran out.
pub data Found : Type 0 where
  found : ℕ → Found
  no_proxy : Error → Found
  crashed stuck : Found

-- `ErrAllBanned`
abbrev pub err_all_banned : Error
err_all_banned = record { outer = Fetcher.all_banned; inner = [] }

-- `maxWait`, with its default of 2 minutes.
unfoldable pub proxy_wait : ℤ → ℤ
proxy_wait d = if leb_ℤ d (pos 0) then times 120 (pos seconds) else d

unfoldable pub canceled_with : Progress → Error → Acquired
canceled_with l e = dropped (record { attempts = l.attempts; is_canceled = true; err = some e })

unfoldable pub gave_up : Progress → Acquired
gave_up l = dropped (record { attempts = l.attempts; is_canceled = false; err = l.last_err })

unfoldable pub is_canceled_outcome : Outcome → Bool
is_canceled_outcome Outcome.canceled = true
is_canceled_outcome _ = false

-- The class of a fetch's result: an error is a cancellation when the context has ended.
unfoldable pub outcome_of : Bool → FetchResult → Outcome
outcome_of over (fetched r) = classify none
outcome_of over (failed e) = if over then Outcome.canceled else classify (some e)

unfoldable pub record_latency : ℤ → Option Recorder → Option Recorder
record_latency d none = none
record_latency d (some r) = some (observe d r)

module _ {W B S U : Type 0} ⦃f : Float W⦄ (env : Env W B S) where
  -- What `nextProxy` does with the result of `Next`, from the soonest recovery `at`, the result of
  -- going on at once, the state after the sleep, and the result of going on then.
  unfoldable pub on_picked :
      ℕ
      → ℕ
      → World W B S U
      → World W B S U × Found
      → World W B S U × Bool
      → World W B S U × Found
      → Picked
      → World W B S U × Found
  on_picked at deadline w recovered (slept, alive) rested (picked r) = (w, found r)
  on_picked at deadline w recovered (slept, alive) rested index_panic = (w, crashed)
  on_picked at deadline w recovered (slept, alive) rested all_banned =
      if at == 0
      then recovered
      else (if ltb deadline at
          then (w, no_proxy err_all_banned)
          else (if alive then rested else (slept, no_proxy env.cause)))

  -- The loop of `nextProxy`.
  unfoldable pub next_proxy_from : ℕ → ℕ → World W B S U → World W B S U × Found
  next_proxy_from zero deadline w = (w, stuck)
  next_proxy_from (suc n) deadline w =
      let (pl, x) = next (env.draws w.tick) (env.clock w.tick) w.pool in
      let asked = step (record w { pool = pl }) in
      let at = next_available_at (env.clock asked.tick 0) pl in
      let looked = step asked in
      let until = pos at -ℤ pos (env.clock looked.tick 0) in
      let rest = sleep_ctx env until (step looked) in
      on_picked at deadline looked (next_proxy_from n deadline looked) rest
        (next_proxy_from n deadline rest.0) x

  -- The delay before a retry, where `none` is the panic of `rand.Int63n`.
  unfoldable pub back_off : Progress → World W B S U → Option ℤ → World W B S U × Option Acquired
  back_off l w none = (w, some panicked)
  back_off l w (some d) =
      let (slept, alive) = sleep_ctx env d w in
      (slept, if alive then none else some (canceled_with l env.cause))

  -- What comes before a round's request: the count of a retry, and the delay unless the round
  -- fails over.
  unfoldable pub pause : Progress → World W B S U → World W B S U × Option Acquired
  pause l w =
      let retried = count inc_retried w in
      let waited = back_off l retried (backoff_duration (env.int63n w.tick) l.attempt) in
      if l.attempt == 0 then (w, none) else (if l.failover then (retried, none) else waited)

  -- After `use`, which returned its error.
  unfoldable pub after_use : Progress → World W B S U → Option Error → World W B S U × Turn
  after_use l w none = (w, finish acquired)
  after_use l w (some e) =
      (count inc_failure w, again (record l { last_err = some e; failover = false }))

  -- The rest of the round, once the outcome is recorded.
  unfoldable pub settle :
      Task W U → Progress → ℕ → Outcome → FetchResult → World W B S U → World W B S U × Turn
  settle task l r o (failed e) w =
      let l' = record l { last_err = some e; failover = is_rate_limited o || is_blocked o } in
      if is_canceled_outcome o then (w, finish (canceled_with l e)) else (
        count inc_failure w,
        if is_retryable o
            then again l'
            else finish
                (dropped (record { attempts = l.attempts; is_canceled = false; err = some e })),
      )
  settle task l r o (fetched resp) w =
      let (u, e) = task.consume w.tick resp (w.pool.cell r) w.user in
      after_use l
        (step (record w { latencies = record_latency resp.latency w.latencies; user = u })) e

  -- `nextProxy`
  unfoldable pub next_proxy : ℕ → Config → World W B S U → World W B S U × Found
  next_proxy fuel cfg w =
      next_proxy_from fuel (add_time (env.clock w.tick 0) (proxy_wait cfg.max_proxy_wait)) (step w)

module _ {W B S U : Type 0} where
  -- The end of the call, or the next round.
  unfoldable pub after_round :
      (Progress → World W B S U → World W B S U × Acquired)
      → World W B S U × Turn
      → World W B S U × Acquired
  after_round next_round (w, again l) = next_round (record l { attempt = l.attempt + 1 }) w
  after_round next_round (w, finish a) = (w, a)

module _ {W U : Type 0} where
  -- `key`, from the proxy or from `rateKey`.
  unfoldable pub key_of : Task W U → Proxy W → Request → Text
  key_of task p req = elim task.rate_key [ none ↦ key p | some rate_key ↦ rate_key p req ]

module _ {W B S U : Type 0} ⦃f : Float W⦄ (k : Buckets W B) (env : Env W B S) (fuel : ℕ) where
  -- After `Fetch`: the outcome is counted and recorded.
  unfoldable pub after_fetch :
      Task W U → Progress → ℕ → Text → FetchResult → World W B S U → World W B S U × Turn
  after_fetch task l r bucket_key result w =
      let o = outcome_of (env.ended w.tick) result in
      settle env task l r o result (
        step (
          record_outcome k (env.clock w.tick 0) r bucket_key o (error_of result)
            (count (inc_outcome (outcome_name o)) w)))

  -- After `Limiter.Wait`, which returned its error.
  unfoldable pub after_wait :
      Task W U → Progress → ℕ → Text → Request → World W B S U → Option Error → World W B S U × Turn
  after_wait task l r bucket_key req w (some e) = (w, finish (canceled_with l e))
  after_wait task l r bucket_key req w none =
      let (result, s) = env.fetch w.tick req w.server in
      after_fetch task (record l { attempts = l.attempts + 1 }) r bucket_key result
        (step (record w { server = s }))

  -- The request for the proxy that was found, and the wait for its bucket.
  unfoldable pub request : Task W U → Progress → ℕ → World W B S U → World W B S U × Turn
  request task l r w =
      let p = w.pool.cell r in
      let req = task.build w.tick p in
      let bucket_key = key_of task p req in
      let (limiter, b) = bucket_for k w.limiter bucket_key in
      let (b', e) = env.wait w.tick b in
      after_wait task l r bucket_key req
        (step (record w {
          limiter = record limiter { buckets = insert bucket_key b' limiter.buckets };
        }))
        e

  -- After `nextProxy`.
  unfoldable pub after_next : Task W U → Progress → World W B S U → Found → World W B S U × Turn
  after_next task l w (found r) = request task l r w
  after_next task l w (no_proxy e) = (
    w,
    if env.ended w.tick
        then finish (canceled_with l env.cause)
        else again (record l { last_err = some e; failover = false }),
  )
  after_next task l w crashed = (w, finish panicked)
  after_next task l w stuck = (w, finish unfinished)

  -- After the pause, which may have ended the call.
  unfoldable pub after_pause :
      Config → Task W U → Progress → World W B S U → Option Acquired → World W B S U × Turn
  after_pause cfg task l w (some a) = (w, finish a)
  after_pause cfg task l w none =
      let (w', x) = next_proxy env fuel cfg w in
      after_next task (record l { failover = false }) w' x

  -- The body of the loop.
  unfoldable pub round : Config → Task W U → Progress → World W B S U → World W B S U × Turn
  round cfg task l w = let (w', x) = pause env l w in after_pause cfg task l w' x

  -- The loop of `Acquire`, by the rounds left.
  unfoldable pub acquire_from :
      ℕ → Config → Task W U → Progress → World W B S U → World W B S U × Acquired
  acquire_from zero cfg task l w = (w, gave_up l)
  acquire_from (suc n) cfg task l w = after_round (acquire_from n cfg task) (round cfg task l w)

  -- `Acquire`
  unfoldable pub acquire : Config → Task W U → World W B S U → World W B S U × Acquired
  acquire cfg task w =
      acquire_from (pos_part (cfg.max_retries +ℤ pos 1)) cfg task
        (record { attempt = 0; attempts = 0; failover = false; last_err = none }) w
