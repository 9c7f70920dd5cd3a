-- ===== src/Worker/Process/Conservation.antt =====
-- internal/worker/pool.go: the counters of finished jobs and the sink, from one job to the next.
use serp_harvester.Prelude.{
  ℕ, zero, suc, ◌<◌, ◌==◌, ltb, ◌≡◌, refl, ap, subst, ◌∙◌, ℤ, pos, ◌≤ℤ◌, ◌<ℤ◌, ◌≤◌, Bool, true,
  false, ◌||◌, Option, none, some, Text, Float, add64, Bool-cases, Option-cases, inl, inr, ◌⊎◌,
}
use serp_harvester.Model.{SerpResult}
use serp_harvester.Proxy.{Proxy}
use serp_harvester.Proxy.Report.{report_outcome}
use serp_harvester.Proxy.Rotation.{Picked, picked, all_banned, index_panic}
use serp_harvester.Limiter.{Limiter, Buckets, penalize}
use serp_harvester.Metrics.{
  Counters, inc_success, inc_failure, inc_retried, inc_dropped, inc_outcome, inc_proxy_banned,
  inc_proxy_cooldown, inc_rate_decrease, inc_ai_overview_present, inc_calibration_flagged,
}
use serp_harvester.Fetcher.{
  Response, Error, FetchResult, fetched, failed, Outcome, is_retryable, is_blocked,
}
use serp_harvester.Worker.{
  Env, Config, World, Task, Acquired, acquired, dropped, panicked, unfinished, Progress, Turn,
  again, finish,
}
use serp_harvester.Worker.Timing.{sleep_ctx}
use serp_harvester.Worker.Feedback.{
  is_success, is_rate_limited, count_cooldown, adapt, record_outcome,
}
use serp_harvester.Worker.Acquire
use serp_harvester.Worker.Acquire.Waiting.{IsTimely, Ready}
use serp_harvester.Worker.Acquire.Totality.{Returned, acquire-Returned}
use serp_harvester.Worker.Process

-- The two counters of finished jobs.
abbrev pub finished : Counters → ℕ × ℕ
finished c = (c.success, c.dropped)

finished-count_cooldown :
    (o : Outcome) (b : Bool) (c : Counters) → finished (count_cooldown o b c) ≡ finished c
unfolding count_cooldown inc_proxy_cooldown inc_proxy_banned
finished-count_cooldown o true c = refl
finished-count_cooldown o false c = refl

module _ {W B : Type 0} ⦃f : Float W⦄ (k : Buckets W B) where
  finished-adapt :
      (bucket_key : Text) (o : Outcome) (l : Limiter W B) (c : Counters)
      → finished (adapt k bucket_key o l c).1 ≡ finished c
  unfolding adapt inc_rate_decrease
  finished-adapt bucket_key o l c = elim (Bool-cases (is_success o)) [
    | inl good ↦ rw good refl
    | inr other ↦ elim (Bool-cases (is_rate_limited o || is_blocked o)) [
      | inl pushed ↦ elim (Bool-cases (penalize k l bucket_key).1) [
        | inl lower ↦ rw (other, pushed, lower) refl
        | inr same ↦ rw (other, pushed, same) refl
      ]
      | inr rest ↦ rw (other, rest) refl
    ]
  ]

module _ {W B S U : Type 0} (Done : U → Type 0) where
  -- The counters stay `n`, and a call that succeeds leaves what `use` sets.
  abbrev pub Holds : ℕ × ℕ → World W B S U × Acquired → Type 0
  Holds n (w, acquired) = (finished w.counters ≡ n) × Done w.user
  Holds n (w, dropped d) = finished w.counters ≡ n
  Holds n (w, panicked) = finished w.counters ≡ n
  Holds n (w, unfinished) = finished w.counters ≡ n

-- The fetcher returned the response for a request that the task built.
abbrev pub Came : {W B S U : Type 0} → Env W B S → Task W U → Response → Type 0
Came {W = W} {S = S} env task resp =
    (at : ℕ) × (p : Proxy W) × (t : ℕ) × (s : S) × ((env.fetch t (task.build at p) s).0
      ≡ fetched resp)

module _ {W B S U : Type 0} ⦃f : Float W⦄ (k : Buckets W B) (env : Env W B S) (fuel : ℕ)
    (task : Task W U) (Done : U → Type 0)
    (sets : (t : ℕ) (resp : Response) (w : World W B S U) (r : ℕ)
      → Came env task resp
      → let (u, e) = task.consume t resp (w.pool.cell r) w.user in e ≡ none → Done u) where
  abbrev Turns : ℕ × ℕ → World W B S U × Turn → Type 0
  Turns n (w, again l) = finished w.counters ≡ n
  Turns n (w, finish a) = Holds Done n (w, a)

  on_picked-finished :
      (n : ℕ × ℕ) (at deadline : ℕ) (w : World W B S U) (recovered : World W B S U × Acquire.Found)
      (slept : World W B S U × Bool) (rested : World W B S U × Acquire.Found) (x : Picked)
      → finished w.counters ≡ n
      → finished recovered.0.counters ≡ n
      → finished slept.0.counters ≡ n
      → finished rested.0.counters ≡ n
      → finished (Acquire.on_picked env at deadline w recovered slept rested x).0.counters ≡ n
  unfolding Acquire.on_picked
  on_picked-finished n at deadline w recovered slept rested (picked r) h a b c = h
  on_picked-finished n at deadline w recovered slept rested index_panic h a b c = h
  on_picked-finished n at deadline w recovered slept rested all_banned h a b c =
      elim (Bool-cases (at == 0)) [
        | inl e ↦ rw e a
        | inr e ↦ elim (Bool-cases (ltb deadline at)) [
          | inl late ↦ rw (e, late) h
          | inr early ↦ elim (Bool-cases slept.1) [
            | inl alive ↦ rw (e, early, alive) c
            | inr over ↦ rw (e, early, over) b
          ]
        ]
      ]

  next_proxy_from-finished :
      (n deadline : ℕ) (w : World W B S U)
      → finished (Acquire.next_proxy_from env n deadline w).0.counters ≡ finished w.counters
  unfolding Acquire.next_proxy_from sleep_ctx
  next_proxy_from-finished zero deadline w = refl
  next_proxy_from-finished (suc n) deadline w =
      on_picked-finished (finished w.counters) _ deadline _ _ _ _ _ refl
        (next_proxy_from-finished n deadline _) refl (next_proxy_from-finished n deadline _)

  after_use-Turns :
      (n : ℕ × ℕ) (l : Progress) (w : World W B S U) (e : Option Error)
      → finished w.counters ≡ n
      → (e ≡ none → Done w.user)
      → Turns n (Acquire.after_use env l w e)
  unfolding Acquire.after_use inc_failure
  after_use-Turns n l w none h d = (h, d refl)
  after_use-Turns n l w (some e) h d = h

  settle-Turns :
      (n : ℕ × ℕ) (l : Progress) (r : ℕ) (o : Outcome) (result : FetchResult) (w : World W B S U)
      → ((resp : Response) → result ≡ fetched resp → Came env task resp)
      → finished w.counters ≡ n
      → Turns n (Acquire.settle env task l r o result w)
  unfolding Acquire.settle Acquire.canceled_with inc_failure
  settle-Turns n l r o (fetched resp) w came h =
      after_use-Turns n l _ _ h (sets w.tick resp w r (came resp refl))
  settle-Turns n l r o (failed e) w came h = elim (Bool-cases (Acquire.is_canceled_outcome o)) [
    | inl over ↦ rw over h
    | inr live ↦ elim (Bool-cases (is_retryable o)) [
      | inl retry ↦ rw (live, retry) h
      | inr stop ↦ rw (live, stop) h
    ]
  ]

  after_wait-Turns :
      (l : Progress) (r : ℕ) (bucket_key : Text) (at : ℕ) (p : Proxy W) (w : World W B S U)
      (e : Option Error)
      → Turns
          (finished w.counters)
          (Acquire.after_wait k env fuel task l r bucket_key (task.build at p) w e)
  unfolding Acquire.after_wait Acquire.after_fetch Acquire.canceled_with record_outcome
      report_outcome inc_outcome
  after_wait-Turns l r bucket_key at p w (some e) = refl
  after_wait-Turns l r bucket_key at p w none =
      settle-Turns (finished w.counters) _ r _ _ _ (λ resp e. (at, p, w.tick, w.server, e))
        (finished-adapt k bucket_key _ w.limiter _ ∙ finished-count_cooldown _ _ _)

  after_next-Turns :
      (l : Progress) (w : World W B S U) (x : Acquire.Found)
      → Turns (finished w.counters) (Acquire.after_next k env fuel task l w x)
  unfolding Acquire.after_next Acquire.request Acquire.canceled_with
  after_next-Turns l w (Acquire.found r) = after_wait-Turns l r _ w.tick (w.pool.cell r) _ _
  after_next-Turns l w (Acquire.no_proxy e) = elim (Bool-cases (env.ended w.tick)) [
    | inl over ↦ rw over refl
    | inr live ↦ rw live refl
  ]
  after_next-Turns l w Acquire.crashed = refl
  after_next-Turns l w Acquire.stuck = refl

  abbrev Pauses : ℕ × ℕ → World W B S U × Option Acquired → Type 0
  Pauses n (w, none) = finished w.counters ≡ n
  Pauses n (w, some a) = Holds Done n (w, a)

  back_off-Pauses :
      (l : Progress) (w : World W B S U) (d : Option ℤ)
      → Pauses (finished w.counters) (Acquire.back_off env l w d)
  unfolding Acquire.back_off sleep_ctx Acquire.canceled_with
  back_off-Pauses l w none = refl
  back_off-Pauses l w (some d) = elim (Bool-cases (sleep_ctx env d w).1) [
    | inl alive ↦ rw alive refl
    | inr over ↦ rw over refl
  ]

  pause-Pauses :
      (l : Progress) (w : World W B S U) → Pauses (finished w.counters) (Acquire.pause env l w)
  unfolding Acquire.pause inc_retried
  pause-Pauses l w = elim (Bool-cases (l.attempt == 0)) [
    | inl first ↦ rw first refl
    | inr retry ↦ elim (Bool-cases l.failover) [
      | inl direct ↦ rw (retry, direct) refl
      | inr slow ↦
          rw (retry, slow)
            (back_off-Pauses (record l { failover = false })
              (record w { counters = inc_retried w.counters }) _)
    ]
  ]

  after_pause-Turns :
      (cfg : Config) (l : Progress) (n : ℕ × ℕ) (w : World W B S U) (x : Option Acquired)
      → Pauses n (w, x)
      → Turns n (Acquire.after_pause k env fuel cfg task l w x)
  unfolding Acquire.after_pause Acquire.next_proxy
  after_pause-Turns cfg l n w (some a) h = h
  after_pause-Turns cfg l n w none h =
      subst (λ m. Turns m (Acquire.after_pause k env fuel cfg task l w none))
        (next_proxy_from-finished fuel _ _ ∙ h)
        (after_next-Turns (record l { failover = false }) _ _)

  after_round-Holds :
      (next_round : Progress → World W B S U → World W B S U × Acquired) (n : ℕ × ℕ)
      (x : World W B S U × Turn)
      → ((l : Progress) (w : World W B S U)
          → finished w.counters ≡ n
          → Holds Done n (next_round l w))
      → Turns n x
      → Holds Done n (Acquire.after_round next_round x)
  unfolding Acquire.after_round
  after_round-Holds next_round n (w, again l) rest h = rest _ w h
  after_round-Holds next_round n (w, finish a) rest h = h

  acquire_from-Holds :
      (m : ℕ) (cfg : Config) (l : Progress) (w : World W B S U) (n : ℕ × ℕ)
      → finished w.counters ≡ n
      → Holds Done n (Acquire.acquire_from k env fuel m cfg task l w)
  unfolding Acquire.acquire_from Acquire.gave_up Acquire.round
  acquire_from-Holds zero cfg l w n h = h
  acquire_from-Holds (suc m) cfg l w n h =
      after_round-Holds (Acquire.acquire_from k env fuel m cfg task) n _
        (λ l' w' e. acquire_from-Holds m cfg l' w' n e)
        (after_pause-Turns cfg l n _ _
          (subst (λ t. Pauses t (Acquire.pause env l w)) h (pause-Pauses l w)))

  pub acquire-Holds :
      (cfg : Config) (w : World W B S U)
      → Holds Done (finished w.counters) (Acquire.acquire k env fuel cfg task w)
  unfolding Acquire.acquire
  acquire-Holds cfg w = acquire_from-Holds _ cfg _ w (finished w.counters) refl

finished-count_result :
    (r : SerpResult) (c : Counters)
    → ((Process.count_result r c).success ≡ add64 c.success 1)
      × ((Process.count_result r c).dropped ≡ c.dropped)
unfolding Process.count_result Process.if_present inc_success inc_ai_overview_present
    inc_calibration_flagged
finished-count_result r c = elim (Option-cases r.calibration) [
  | inl plain ↦ elim (Option-cases r.ai_overview) [
    | inl bare ↦ rw (plain, bare) (refl, refl)
    | inr (o, has) ↦ rw (plain, has) (refl, refl)
  ]
  | inr (note, flagged) ↦ elim (Option-cases r.ai_overview) [
    | inl bare ↦ rw (flagged, bare) (refl, refl)
    | inr (o, has) ↦ rw (flagged, has) (refl, refl)
  ]
]

-- The variable `result` is set, with the job's fields.
abbrev IsResultOf : Process.Job → Option SerpResult → Type 0
IsResultOf job u =
    (r : SerpResult) × (u ≡ some r)
    × (r.run_id ≡ job.run_id)
    × (r.locale ≡ job.locale)
    × (r.device ≡ job.device)

keep_parsed-IsResultOf :
    {W : Type 0} (job : Process.Job) (now : ℕ) (resp : Response) (px : Proxy W)
    (result : Option SerpResult) (x : Process.Parsed)
    → let (u, e) = Process.keep_parsed job now resp px result x in e ≡ none → IsResultOf job u
unfolding Process.keep_parsed Process.stamp
keep_parsed-IsResultOf job now resp px result (Process.parsed r) h = (_, refl, refl, refl, refl)
keep_parsed-IsResultOf job now resp px result (Process.parse_error e) h = cc

module _ {W B S K : Type 0} ⦃f : Float W⦄ (k : Buckets W B) (env : Env W B S) (fuel : ℕ)
    (parse : Text → Text → Process.Parsed) (write : SerpResult → K → K × Option Error) where
  -- What `process` does to the counters of finished jobs and to the sink, if it started from the
  -- counters `n` and the sink `sink`.
  abbrev Counted :
      Process.Job → ℕ × ℕ → K → World W B S (Option SerpResult) × K × Process.Processed → Type 0
  Counted job n sink (w, sink', p) =
      ((p ≡ Process.delivered)
        × (w.counters.success ≡ add64 n.0 1)
        × (w.counters.dropped ≡ n.1)
        × ((r : SerpResult) × (sink' ≡ (write r sink).0)
            × (r.run_id ≡ job.run_id)
            × (r.locale ≡ job.locale)
            × (r.device ≡ job.device)))
      ⊎ ((p ≡ Process.given_up)
          × (w.counters.success ≡ n.0)
          × (w.counters.dropped ≡ add64 n.1 1)
          × (sink' ≡ sink))

  deliver-Counted :
      (job : Process.Job) (n : ℕ × ℕ) (sink : K) (w : World W B S (Option SerpResult))
      (u : Option SerpResult)
      → finished w.counters ≡ n
      → IsResultOf job u
      → Counted job n sink (Process.deliver k env fuel parse write w sink u)
  unfolding Process.deliver
  deliver-Counted job n sink w none h (r, e, run, loc, dev) = absurd (cc)
  deliver-Counted job n sink w (some r) h (r', e, run, loc, dev) =
      let (s, d) = finished-count_result r w.counters in
      inl (
        refl,
        s ∙ ap (λ (t : ℕ × ℕ). add64 t.0 1) h,
        d ∙ ap (λ (t : ℕ × ℕ). t.1) h,
        (r', ap (λ t. (write t sink).0) (same r r' e), run, loc, dev),
      )
    where
      same : (a b : SerpResult) → some a ≡ some b → a ≡ b
      same a b q = cc

  after_acquire-Counted :
      (job : Process.Job) (n : ℕ × ℕ) (sink : K) (w : World W B S (Option SerpResult))
      (a : Acquired)
      → Holds (IsResultOf job) n (w, a)
      → Returned a
      → Counted job n sink (Process.after_acquire k env fuel parse write sink (w, a))
  unfolding Process.after_acquire inc_dropped
  after_acquire-Counted job n sink w acquired (h, done) r =
      deliver-Counted job n sink w w.user h done
  after_acquire-Counted job n sink w (dropped d) h r =
      inr (refl, ap (λ (t : ℕ × ℕ). t.0) h, ap (λ (t : ℕ × ℕ). add64 t.1 1) h, refl)
  after_acquire-Counted job n sink w panicked h r = elim r [ ]
  after_acquire-Counted job n sink w unfinished h r = elim r [ ]

  -- From a pool with a proxy, with at most 37 retries and a clock and timers that behave, a job is
  -- counted exactly once: one result, with the job's run, locale and device, is written to the sink
  -- and the count of successes grows by one (modulo 2 ^ 64), or the sink is untouched and the count
  -- of dropped jobs grows by one. The other count stays, and there is no panic.
  pub process-Counted :
      (time : IsTimely env)
      (int63n_range : (t n : ℕ)
        → 0 < n
        → (pos 0 ≤ℤ env.int63n t (pos n)) × (env.int63n t (pos n) <ℤ pos n))
      (cfg : Config) (job : Process.Job) (w : World W B S (Option SerpResult)) (sink : K)
      → 2 ≤ fuel
      → Ready env w
      → cfg.max_retries ≤ℤ pos 37
      → let (w', sink', p) = Process.process k env fuel parse write cfg job w sink in
        ((p ≡ Process.delivered)
          × (w'.counters.success ≡ add64 w.counters.success 1)
          × (w'.counters.dropped ≡ w.counters.dropped)
          × ((r : SerpResult) × (sink' ≡ (write r sink).0)
              × (r.run_id ≡ job.run_id)
              × (r.locale ≡ job.locale)
              × (r.device ≡ job.device)))
        ⊎ ((p ≡ Process.given_up)
            × (w'.counters.success ≡ w.counters.success)
            × (w'.counters.dropped ≡ add64 w.counters.dropped 1)
            × (sink' ≡ sink))
  unfolding Process.process Process.task_of
  process-Counted time int63n_range cfg job w sink enough ready le =
      after_acquire-Counted job (finished w.counters) sink _ _
        (acquire-Holds k env fuel (Process.task_of k env fuel parse write cfg job) (IsResultOf job)
          (λ t resp w' r came. keep_parsed-IsResultOf job _ resp _ _ _) cfg
          (record w { user = none }))
        (acquire-Returned k env fuel time int63n_range enough cfg _ (record w { user = none }) ready
          le)
