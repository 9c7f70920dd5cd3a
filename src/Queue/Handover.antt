-- ===== src/Queue/Handover.antt =====
-- internal/queue/redis_stream.go: what a consumer hands over and acknowledges.
use serp_harvester.Prelude.{
  ◌≡◌, refl, ap, List, [], ◌∷◌, ◌++◌, true, false, Bool-cases, inl, inr, ◌⊎◌,
}
use serp_harvester.Worker.Process.{Job}
use serp_harvester.Queue.{Message, Stream, Handed, values_of, job_of, text_or_empty, hand_messages}

-- A job that `PushJob` adds is read back as the same job.
pub job_of-values_of : (job : Job) → job_of (values_of job) ≡ job
unfolding job_of values_of text_or_empty
job_of-values_of job = refl

module _ {S : Type 0} (redis : Stream S) where
  -- The world after the jobs of some entries were received, each acknowledged at once.
  unfoldable pub acked : List Message → S → S
  acked [] w = w
  acked (m ∷ ms) w = acked ms (redis.ack m.id (redis.hand (job_of m.values) w).1)

  -- Each of the entries was received, in the world that the ones before it leave.
  abbrev pub AllReceived : List Message → S → Type 0
  AllReceived [] w = Unit {0}
  AllReceived (m ∷ ms) w =
      ((redis.hand (job_of m.values) w).0 ≡ true)
      × AllReceived ms (redis.ack m.id (redis.hand (job_of m.values) w).1)

  abbrev pub jobs_of : List Message → List Job
  jobs_of [] = []
  jobs_of (m ∷ ms) = job_of m.values ∷ jobs_of ms

  -- What a loop over the entries leaves: either all of them were received, or it stopped at one
  -- that was not.
  abbrev pub Ended : List Message → List Message → S → Handed → S → Type 0
  Ended passed left w h w' =
      ((h.goes_on ≡ true) × (left ≡ []) × (w' ≡ acked passed w))
      ⊎ ((m : Message) × (ms : List Message) × (h.goes_on ≡ false)
          × (left ≡ m ∷ ms)
          × (redis.hand (job_of m.values) (acked passed w) ≡ (false, w')))

  abbrev Split : List Message → S → Handed × S → Type 0
  Split ms w r =
      (passed : List Message) × (left : List Message) × (ms ≡ passed ++ left)
      × (r.0.jobs ≡ jobs_of passed)
      × AllReceived passed w
      × Ended passed left w r.0 r.1

  refused :
      (m : Message) (ms : List Message) (w : S)
      → (redis.hand (job_of m.values) w).0 ≡ false
      → Split (m ∷ ms) w (hand_messages redis (m ∷ ms) w)
  unfolding hand_messages acked
  refused m ms w e = rw e (
    [],
    m ∷ ms,
    refl,
    refl,
    tt,
    inr (m, ms, refl, refl, ap (λ b. (b, (redis.hand (job_of m.values) w).1)) e),
  )

  received :
      (m : Message) (ms : List Message) (w : S)
      → (redis.hand (job_of m.values) w).0 ≡ true
      → Split ms
          (redis.ack m.id (redis.hand (job_of m.values) w).1)
          (hand_messages redis ms (redis.ack m.id (redis.hand (job_of m.values) w).1))
      → Split (m ∷ ms) w (hand_messages redis (m ∷ ms) w)
  unfolding hand_messages acked
  received m ms w e (passed, left, split, jobs, all, inl (on, none_left, same)) = rw e (
    m ∷ passed,
    left,
    ap (λ x. m ∷ x) split,
    ap (λ x. job_of m.values ∷ x) jobs,
    (e, all),
    inl (on, none_left, same),
  )
  received m ms w e (passed, left, split, jobs, all, inr (n, ns, on, some_left, same)) = rw e (
    m ∷ passed,
    left,
    ap (λ x. m ∷ x) split,
    ap (λ x. job_of m.values ∷ x) jobs,
    (e, all),
    inr (n, ns, on, some_left, same),
  )

  hand_messages-Split : (ms : List Message) (w : S) → Split ms w (hand_messages redis ms w)
  unfolding hand_messages acked
  hand_messages-Split [] w = ([], [], refl, refl, tt, inl (refl, refl, refl))
  hand_messages-Split (m ∷ ms) w = elim (Bool-cases (redis.hand (job_of m.values) w).0) [
    | inl e ↦ received m ms w e (hand_messages-Split ms _)
    | inr e ↦ refused m ms w e
  ]

  -- A consumer hands over the jobs of a front part of the entries, in order. Each of these entries
  -- was received and is then acknowledged, before the next is offered. It stops early only at an
  -- entry that was not received, and then that entry and all later ones are not acknowledged.
  pub hand_messages_lem :
      (ms : List Message) (w : S)
      → let (h, w') = hand_messages redis ms w in
        (passed : List Message) × (left : List Message) × (ms ≡ passed ++ left)
        × (h.jobs ≡ jobs_of passed)
        × AllReceived passed w
        × (((h.goes_on ≡ true) × (left ≡ []) × (w' ≡ acked passed w))
            ⊎ ((m : Message) × (rest : List Message) × (h.goes_on ≡ false)
                × (left ≡ m ∷ rest)
                × (redis.hand (job_of m.values) (acked passed w) ≡ (false, w'))))
  hand_messages_lem ms w = hand_messages-Split ms w
