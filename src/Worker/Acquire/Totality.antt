-- ===== src/Worker/Acquire/Totality.antt =====
-- internal/worker/pool.go: the panics of `Acquire` and the fuel of its loops.
use serp_harvester.Prelude.{
  ℕ, zero, suc, ◌+◌, ◌≤◌, ◌<◌, ◌==◌, ◌≡◌, ◌≢◌, refl, ℤ, pos, ◌≤ℤ◌, ◌<ℤ◌, false, Option, none, some,
  Text, Float, Bool-cases, inl, inr, arith,
}
use serp_harvester.Proxy.Report.{report_outcome}
use serp_harvester.Limiter.{Buckets}
use serp_harvester.Fetcher.{Request, Error, FetchResult, fetched, failed, Outcome, is_retryable}
use serp_harvester.Worker.{
  Env, Config, World, Task, Acquired, acquired, dropped, panicked, unfinished, Progress, Turn,
  again, finish, count,
}
use serp_harvester.Metrics.{inc_retried}
use serp_harvester.Worker.Timing.{sleep_ctx, backoff_duration, backoff_duration_lem}
use serp_harvester.Worker.Feedback.{record_outcome}
use serp_harvester.Worker.Acquire
use serp_harvester.Worker.Acquire.Waiting.{IsTimely, Ready, Fine, next_proxy-Fine}

-- The nil error or a `DroppedError`.
abbrev pub Returned : Acquired → Type 0
Returned acquired = Unit {0}
Returned (dropped d) = Unit {0}
Returned panicked = ⊥
Returned unfinished = ⊥

no_panic :
    (int63n : ℤ → ℤ) (attempt : ℕ)
    → (attempt == 0) ≡ false
    → attempt ≤ 37
    → ((n : ℕ) → 0 < n → (pos 0 ≤ℤ int63n (pos n)) × (int63n (pos n) <ℤ pos n))
    → backoff_duration int63n attempt ≢ none
no_panic int63n attempt h le range e =
    let (d, some_delay, low, high) = backoff_duration_lem int63n attempt (ground arith) le range in
    cc

module _ {W B S U : Type 0} ⦃f : Float W⦄ (k : Buckets W B) (env : Env W B S) (fuel : ℕ) where
  abbrev Keeps : Progress → World W B S U × Turn → Type 0
  Keeps l (w, again l') = (l'.attempt ≡ l.attempt) × Ready env w
  Keeps l (w, finish a) = Returned a

  after_use-Keeps :
      (l : Progress) (w : World W B S U) (e : Option Error)
      → Ready env w
      → Keeps l (Acquire.after_use env l w e)
  unfolding Acquire.after_use
  after_use-Keeps l w none h = tt
  after_use-Keeps l w (some e) h = (refl, h)

  settle-Keeps :
      (task : Task W U) (l : Progress) (r : ℕ) (o : Outcome) (result : FetchResult)
      (w : World W B S U)
      → Ready env w
      → Keeps l (Acquire.settle env task l r o result w)
  unfolding Acquire.settle Acquire.canceled_with
  settle-Keeps task l r o (fetched resp) w h = after_use-Keeps l _ _ h
  settle-Keeps task l r o (failed e) w h = elim (Bool-cases (Acquire.is_canceled_outcome o)) [
    | inl over ↦ rw over tt
    | inr live ↦ elim (Bool-cases (is_retryable o)) [
      | inl retry ↦ rw (live, retry) (refl, h)
      | inr stop ↦ rw (live, stop) tt
    ]
  ]

  after_wait-Keeps :
      (task : Task W U) (l : Progress) (r : ℕ) (bucket_key : Text) (req : Request)
      (w : World W B S U) (e : Option Error)
      → Ready env w
      → Keeps l (Acquire.after_wait k env fuel task l r bucket_key req w e)
  unfolding Acquire.after_wait Acquire.after_fetch Acquire.canceled_with record_outcome
      report_outcome
  after_wait-Keeps task l r bucket_key req w (some e) h = tt
  after_wait-Keeps task l r bucket_key req w none h =
      settle-Keeps task (record l { attempts = l.attempts + 1 }) r _ _ _ h

  after_next-Keeps :
      (task : Task W U) (l : Progress) (w : World W B S U) (x : Acquire.Found)
      → Fine env (w, x)
      → Keeps l (Acquire.after_next k env fuel task l w x)
  unfolding Acquire.after_next Acquire.request Acquire.canceled_with
  after_next-Keeps task l w (Acquire.found r) h = after_wait-Keeps task l r _ _ _ _ h
  after_next-Keeps task l w (Acquire.no_proxy e) h = elim (Bool-cases (env.ended w.tick)) [
    | inl over ↦ rw over tt
    | inr live ↦ rw live (refl, h)
  ]
  after_next-Keeps task l w Acquire.crashed h = elim h [ ]
  after_next-Keeps task l w Acquire.stuck h = elim h [ ]

  -- A pause that goes on leaves the pool ready, and one that ends the call does not panic.
  abbrev Pauses : World W B S U × Option Acquired → Type 0
  Pauses (w, none) = Ready env w
  Pauses (w, some a) = Returned a

  module _ (time : IsTimely env)
      (int63n_range : (t n : ℕ)
        → 0 < n
        → (pos 0 ≤ℤ env.int63n t (pos n)) × (env.int63n t (pos n) <ℤ pos n))
      (enough : 2 ≤ fuel) where
    back_off-Pauses :
        (l : Progress) (w : World W B S U) (d : Option ℤ)
        → Ready env w
        → d ≢ none
        → Pauses (Acquire.back_off env l w d)
    unfolding Acquire.back_off sleep_ctx Acquire.canceled_with
    back_off-Pauses l w none h e = absurd (e refl)
    back_off-Pauses l w (some d) h e = elim (Bool-cases (sleep_ctx env d w).1) [
      | inl alive ↦ rw alive h
      | inr over ↦ rw over tt
    ]

    pause-Pauses :
        (l : Progress) (w : World W B S U)
        → Ready env w
        → l.attempt ≤ 37
        → Pauses (Acquire.pause env l w)
    unfolding Acquire.pause
    pause-Pauses l w h le = elim (Bool-cases (l.attempt == 0)) [
      | inl first ↦ rw first h
      | inr retry ↦ elim (Bool-cases l.failover) [
        | inl direct ↦ rw (retry, direct) h
        | inr slow ↦
            rw (retry, slow)
              (back_off-Pauses (record l { failover = false }) (count inc_retried w) _ h
                (no_panic (env.int63n w.tick) l.attempt retry le (int63n_range w.tick)))
      ]
    ]

    after_pause-Keeps :
        (cfg : Config) (task : Task W U) (l : Progress) (w : World W B S U) (x : Option Acquired)
        → Pauses (w, x)
        → Keeps l (Acquire.after_pause k env fuel cfg task l w x)
    unfolding Acquire.after_pause
    after_pause-Keeps cfg task l w (some a) h = h
    after_pause-Keeps cfg task l w none h =
        after_next-Keeps task (record l { failover = false }) _ _
          (next_proxy-Fine env time fuel cfg w enough h).0

    after_round-Returned :
        (next_round : Progress → World W B S U → World W B S U × Acquired) (n : ℕ) (l : Progress)
        (x : World W B S U × Turn)
        → ((l' : Progress) (w : World W B S U)
            → l'.attempt + n ≤ 38
            → Ready env w
            → Returned (next_round l' w).1)
        → l.attempt + suc n ≤ 38
        → Keeps l x
        → Returned (Acquire.after_round next_round x).1
    unfolding Acquire.after_round
    after_round-Returned next_round n l (w, again l') rest le h =
        rest (record l' { attempt = l'.attempt + 1 }) w (omega arith) h.1
    after_round-Returned next_round n l (w, finish a) rest le h = h

    acquire_from-Returned :
        (n : ℕ) (cfg : Config) (task : Task W U) (l : Progress) (w : World W B S U)
        → l.attempt + n ≤ 38
        → Ready env w
        → Returned (Acquire.acquire_from k env fuel n cfg task l w).1
    unfolding Acquire.acquire_from Acquire.gave_up Acquire.round
    acquire_from-Returned zero cfg task l w le h = tt
    acquire_from-Returned (suc n) cfg task l w le h =
        after_round-Returned (Acquire.acquire_from k env fuel n cfg task) n l _
          (λ l' w' le' h'. acquire_from-Returned n cfg task l' w' le' h') le
          (after_pause-Keeps cfg task l _ _ (pause-Pauses l w h (omega arith)))

    -- From a pool with a proxy, with at most 37 retries, a clock that does not go back and a timer
    -- that does not fire early, `Acquire` returns the nil error or a `DroppedError`: two rounds of
    -- `nextProxy` are enough fuel, no index is out of range and `rand.Int63n` does not panic.
    pub acquire-Returned :
        (cfg : Config) (task : Task W U) (w : World W B S U)
        → Ready env w
        → cfg.max_retries ≤ℤ pos 37
        → Returned (Acquire.acquire k env fuel cfg task w).1
    unfolding Acquire.acquire
    acquire-Returned cfg task w h le = acquire_from-Returned _ cfg task _ w (ground arith) h
