-- ===== src/Worker/Acquire/Attempts.antt =====
-- internal/worker/pool.go: the number of fetches of a call of `Acquire`. The fetcher's state is measured
-- by a count that every fetch raises by one.
use serp_harvester.Prelude.{
  ℕ, zero, suc, ◌+◌, ◌≤◌, ◌<◌, ◌==◌, ltb, ◌≡◌, refl, ◌∙◌, ap, subst, ℤ, pos, ◌+ℤ◌, pos_part, Bool,
  false, Option, none, some, Text, Float, Bool-cases, inl, inr, arith,
}
use serp_harvester.Proxy.Rotation.{Picked, picked, all_banned, index_panic}
use serp_harvester.Limiter.{Buckets}
use serp_harvester.Fetcher.{Request, Error, FetchResult, fetched, failed, Outcome, is_retryable}
use serp_harvester.Worker.{
  Env, Config, World, Task, Acquired, acquired, dropped, panicked, unfinished, Progress, Turn,
  again, finish,
}
use serp_harvester.Worker.Timing.{sleep_ctx}
use serp_harvester.Worker.Feedback.{record_outcome}
use serp_harvester.Worker.Acquire

module _ {W B S U : Type 0} ⦃f : Float W⦄ (env : Env W B S) where
  on_picked-server :
      (s : S) (at deadline : ℕ) (w : World W B S U) (recovered : World W B S U × Acquire.Found)
      (slept : World W B S U × Bool) (rested : World W B S U × Acquire.Found) (x : Picked)
      → w.server ≡ s
      → recovered.0.server ≡ s
      → slept.0.server ≡ s
      → rested.0.server ≡ s
      → (Acquire.on_picked env at deadline w recovered slept rested x).0.server ≡ s
  unfolding Acquire.on_picked
  on_picked-server s at deadline w recovered slept rested (picked r) h a b c = h
  on_picked-server s at deadline w recovered slept rested index_panic h a b c = h
  on_picked-server s at deadline w recovered slept rested all_banned h a b c =
      elim (Bool-cases (at == 0)) [
        | inl e ↦ rw e a
        | inr e ↦ elim (Bool-cases (ltb deadline at)) [
          | inl late ↦ rw (e, late) h
          | inr early ↦ elim (Bool-cases slept.1) [
            | inl alive ↦ rw (e, early, alive) c
            | inr over ↦ rw (e, early, over) b
          ]
        ]
      ]

  next_proxy_from-server :
      (n deadline : ℕ) (w : World W B S U)
      → (Acquire.next_proxy_from env n deadline w).0.server ≡ w.server
  unfolding Acquire.next_proxy_from sleep_ctx
  next_proxy_from-server zero deadline w = refl
  next_proxy_from-server (suc n) deadline w =
      on_picked-server w.server _ deadline _ _ _ _ _ refl (next_proxy_from-server n deadline _) refl
        (next_proxy_from-server n deadline _)

  back_off-server :
      (l : Progress) (w : World W B S U) (d : Option ℤ)
      → (Acquire.back_off env l w d).0.server ≡ w.server
  unfolding Acquire.back_off sleep_ctx
  back_off-server l w none = refl
  back_off-server l w (some d) = refl

module _ {W B S U : Type 0} ⦃f : Float W⦄ (k : Buckets W B) (env : Env W B S) (fuel : ℕ)
    (made : S → ℕ)
    (counts : (t : ℕ) (req : Request) (s : S) → made (env.fetch t req s).1 ≡ made s + 1) where
  -- The fetches made so far.
  abbrev pub fetches : World W B S U → ℕ
  fetches w = made w.server

  -- A call that ends with `a`, when `n` fetches were made before it and `c` are counted.
  abbrev Ends : ℕ → ℕ → World W B S U → Acquired → Type 0
  Ends n c w acquired = fetches w ≡ n + 1
  Ends n c w (dropped d) = (fetches w + c ≡ n + d.attempts) × (n ≤ fetches w) × (fetches w ≤ n + 1)
  Ends n c w panicked = fetches w ≡ n
  Ends n c w unfinished = fetches w ≡ n

  abbrev Turns : ℕ → Progress → World W B S U × Turn → Type 0
  Turns n l (w, finish a) = Ends n l.attempts w a
  Turns n l (w, again l') =
      (l'.attempt ≡ l.attempt)
      × (fetches w + l.attempts ≡ n + l'.attempts)
      × (n ≤ fetches w)
      × (fetches w ≤ n + 1)

  after_use-Turns :
      (n : ℕ) (l : Progress) (w : World W B S U) (e : Option Error)
      → fetches w ≡ n + 1
      → Turns n l (Acquire.after_use env (record l { attempts = l.attempts + 1 }) w e)
  unfolding Acquire.after_use
  after_use-Turns n l w none h = h
  after_use-Turns n l w (some e) h = (refl, omega arith, omega arith, omega arith)

  settle-Turns :
      (task : Task W U) (n : ℕ) (l : Progress) (r : ℕ) (o : Outcome) (result : FetchResult)
      (w : World W B S U)
      → fetches w ≡ n + 1
      → Turns n l (Acquire.settle env task (record l { attempts = l.attempts + 1 }) r o result w)
  unfolding Acquire.settle
  settle-Turns task n l r o (fetched resp) w h = after_use-Turns n l _ _ h
  settle-Turns task n l r o (failed e) w h = elim (Bool-cases (Acquire.is_canceled_outcome o)) [
    | inl over ↦ rw over (unfold Acquire.canceled_with in (omega arith, omega arith, omega arith))
    | inr live ↦ elim (Bool-cases (is_retryable o)) [
      | inl retry ↦ rw (live, retry) (refl, omega arith, omega arith, omega arith)
      | inr stop ↦ rw (live, stop) (omega arith, omega arith, omega arith)
    ]
  ]

  after_wait-Turns :
      (task : Task W U) (l : Progress) (r : ℕ) (bucket_key : Text) (req : Request)
      (w : World W B S U) (e : Option Error)
      → Turns (fetches w) l (Acquire.after_wait k env fuel task l r bucket_key req w e)
  unfolding Acquire.after_wait Acquire.after_fetch record_outcome
  after_wait-Turns task l r bucket_key req w (some e) =
      unfold Acquire.canceled_with in (omega arith, omega arith, omega arith)
  after_wait-Turns task l r bucket_key req w none =
      settle-Turns task (made w.server) l r _ _ _ (counts w.tick req w.server)

  after_next-Turns :
      (task : Task W U) (l : Progress) (w : World W B S U) (x : Acquire.Found)
      → Turns (fetches w) l (Acquire.after_next k env fuel task l w x)
  unfolding Acquire.after_next Acquire.request
  after_next-Turns task l w (Acquire.found r) = after_wait-Turns task l r _ _ _ _
  after_next-Turns task l w (Acquire.no_proxy e) = elim (Bool-cases (env.ended w.tick)) [
    | inl over ↦ rw over (unfold Acquire.canceled_with in (omega arith, omega arith, omega arith))
    | inr live ↦ rw live (refl, omega arith, omega arith, omega arith)
  ]
  after_next-Turns task l w Acquire.crashed = refl
  after_next-Turns task l w Acquire.stuck = refl

  -- What a pause leaves: no fetch, and the end of the call if it ends it.
  abbrev Pauses : ℕ → Progress → World W B S U × Option Acquired → Type 0
  Pauses n l (w, none) = fetches w ≡ n
  Pauses n l (w, some a) = Ends n l.attempts w a

  back_off-Pauses :
      (l : Progress) (w : World W B S U) (d : Option ℤ)
      → Pauses (fetches w) l (Acquire.back_off env l w d)
  unfolding Acquire.back_off sleep_ctx
  back_off-Pauses l w none = refl
  back_off-Pauses l w (some d) = elim (Bool-cases (sleep_ctx env d w).1) [
    | inl alive ↦ rw alive refl
    | inr over ↦ rw over (unfold Acquire.canceled_with in (omega arith, omega arith, omega arith))
  ]

  pause-Pauses : (l : Progress) (w : World W B S U) → Pauses (fetches w) l (Acquire.pause env l w)
  unfolding Acquire.pause Acquire.back_off Acquire.canceled_with
  pause-Pauses l w = elim (Bool-cases (l.attempt == 0)) [
    | inl first ↦ rw first refl
    | inr retry ↦ elim (Bool-cases l.failover) [
      | inl direct ↦ rw (retry, direct) refl
      | inr slow ↦ rw (retry, slow) (back_off-Pauses l _ _)
    ]
  ]

  after_pause-Turns :
      (cfg : Config) (task : Task W U) (l : Progress) (n : ℕ) (w : World W B S U)
      (x : Option Acquired)
      → Pauses n l (w, x)
      → Turns n l (Acquire.after_pause k env fuel cfg task l w x)
  unfolding Acquire.after_pause Acquire.next_proxy
  after_pause-Turns cfg task l n w (some a) h = h
  after_pause-Turns cfg task l n w none h =
      subst (λ m. Turns m l (Acquire.after_pause k env fuel cfg task l w none))
        (ap made (next_proxy_from-server env fuel _ _) ∙ h)
        (after_next-Turns task (record l { failover = false }) _ _)

  round-Turns :
      (cfg : Config) (task : Task W U) (l : Progress) (w : World W B S U)
      → Turns (fetches w) l (Acquire.round k env fuel cfg task l w)
  unfolding Acquire.round
  round-Turns cfg task l w = after_pause-Turns cfg task l (fetches w) _ _ (pause-Pauses l w)

  -- The end of a call that had made `b` fetches less than it counts, with at most `c` to count.
  abbrev pub Total : ℕ → ℕ → World W B S U × Acquired → Type 0
  Total b c (w, acquired) = (b < fetches w) × (fetches w ≤ b + c)
  Total b c (w, dropped d) = (fetches w ≡ b + d.attempts) × (d.attempts ≤ c)
  Total b c (w, panicked) = fetches w ≤ b + c
  Total b c (w, unfinished) = fetches w ≤ b + c

  finish-Total :
      (b n c : ℕ) (l : Progress) (w : World W B S U) (a : Acquired)
      → n ≡ b + l.attempts
      → Ends n l.attempts w a
      → Total b (l.attempts + suc c) (w, a)
  finish-Total b n c l w acquired h e = (omega arith, omega arith)
  finish-Total b n c l w (dropped d) h e = (omega arith, omega arith)
  finish-Total b n c l w panicked h e = omega arith
  finish-Total b n c l w unfinished h e = omega arith

  widen : (b c c' : ℕ) (x : World W B S U × Acquired) → c ≤ c' → Total b c x → Total b c' x
  widen b c c' (w, acquired) h t = (t.0, omega arith)
  widen b c c' (w, dropped d) h t = (t.0, omega arith)
  widen b c c' (w, panicked) h t = omega arith
  widen b c c' (w, unfinished) h t = omega arith

  after_round-Total :
      (next_round : Progress → World W B S U → World W B S U × Acquired) (n b m : ℕ) (l : Progress)
      (x : World W B S U × Turn)
      → ((l' : Progress) (w : World W B S U)
          → fetches w ≡ b + l'.attempts
          → Total b (l'.attempts + n) (next_round l' w))
      → m ≡ b + l.attempts
      → Turns m l x
      → Total b (l.attempts + suc n) (Acquire.after_round next_round x)
  unfolding Acquire.after_round
  after_round-Total next_round n b m l (w, again l') rest h t =
      widen b (l'.attempts + n) _ (next_round (record l' { attempt = l'.attempt + 1 }) w)
        (omega arith) (rest (record l' { attempt = l'.attempt + 1 }) w (omega arith))
  after_round-Total next_round n b m l (w, finish a) rest h t = finish-Total b m n l w a h t

  acquire_from-Total :
      (n : ℕ) (cfg : Config) (task : Task W U) (l : Progress) (w : World W B S U) (b : ℕ)
      → fetches w ≡ b + l.attempts
      → Total b (l.attempts + n) (Acquire.acquire_from k env fuel n cfg task l w)
  unfolding Acquire.acquire_from Acquire.gave_up
  acquire_from-Total zero cfg task l w b h = (h, omega arith)
  acquire_from-Total (suc n) cfg task l w b h =
      after_round-Total (Acquire.acquire_from k env fuel n cfg task) n b (fetches w) l _
        (λ l' w' e. acquire_from-Total n cfg task l' w' b e) h (round-Turns cfg task l w)

  -- Fetches are counted by any measure of the fetcher's state that each fetch raises by one.
  -- A call of `Acquire` makes at most MaxRetries + 1 fetches, and none if that is not positive. If it
  -- succeeds it made at least one; if it drops the job, `Attempts` is the number of fetches made.
  pub acquire-Total :
      (cfg : Config) (task : Task W U) (w : World W B S U)
      → Total
          (fetches w)
          (pos_part (cfg.max_retries +ℤ pos 1))
          (Acquire.acquire k env fuel cfg task w)
  unfolding Acquire.acquire
  acquire-Total cfg task w =
      widen (fetches w) _ _ (Acquire.acquire k env fuel cfg task w) (omega arith)
        (acquire_from-Total _ cfg task _ w (fetches w) (omega arith))
