-- ===== src/Queue.antt =====
-- internal/queue: queue.go and redis_stream.go, the memory source and the Redis stream. Redis, the
-- channel and the context are the record `Stream`, over a world `S`.
pub mod Handover
use serp_harvester.Prelude.{
  ℕ, zero, suc, List, [], ◌∷◌, ◌++◌, Text, bytes, Bool, true, false, not, if◌then◌else◌, Option,
  none, some, ℤ, pos, leb_ℤ, lookup,
}
use serp_harvester.Fetcher.{Error, wrap}
use serp_harvester.Worker.Process.{Job}

-- An entry of the stream; the values are strings.
pub record Message : Type 0 where
  pub id : Text
  pub values : List (Text × Text)

-- What `XReadGroup` returns: entries by stream, or an error; `nothing_new` is `redis.Nil`.
pub data Read : Type 0 where
  entries : List (List Message) → Read
  nothing_new : Read
  read_error : Error → Read

-- `hand job` is the `select` of the hand-over: `true` when the job was received, `false` when the
-- context ended. `pause` is the `select` after an error, `false` when the context ended.
pub record Stream (S : Type 0) : Type 0 where
  pub group_error : S → Option Error × S
  pub is_busy_group : Error → Bool
  pub add : List (Text × Text) → S → Option Error × S
  pub read_group : ℤ → S → Read × S
  pub ack : Text → S → S
  pub hand : Job → S → Bool × S
  pub pause : S → Bool × S
  pub ended : S → Bool

-- The job of the memory source for a query.
unfoldable pub query_job : Text → Job
query_job q = record { query = q; run_id = []; locale = []; device = [] }

-- The values that `PushJob` adds.
unfoldable pub values_of : Job → List (Text × Text)
values_of job =
    (bytes "query", job.query)
    ∷ (bytes "run_id", job.run_id)
    ∷ (bytes "locale", job.locale)
    ∷ (bytes "device", job.device)
    ∷ []

unfoldable pub text_or_empty : Option Text → Text
text_or_empty none = []
text_or_empty (some t) = t

-- The job of an entry; a missing value is "".
unfoldable pub job_of : List (Text × Text) → Job
job_of values = record {
  query = text_or_empty (lookup (bytes "query") values);
  run_id = text_or_empty (lookup (bytes "run_id") values);
  locale = text_or_empty (lookup (bytes "locale") values);
  device = text_or_empty (lookup (bytes "device") values);
}

-- How a part of the loop ends: it goes on or the source is done, with the jobs handed over.
pub record Handed : Type 0 where
  pub goes_on : Bool
  pub jobs : List Job

abbrev pub block_for : ℤ → ℤ
block_for block = if leb_ℤ block (pos 0) then pos 2000000000 else block

module _ {S : Type 0} (redis : Stream S) where
  unfoldable pub send_job : Job → S → Bool × S
  send_job job w = redis.hand job w

  -- `(*MemorySource).Jobs`: the jobs that were received.
  unfoldable pub memory_jobs : List Text → S → List Job × S
  memory_jobs [] w = ([], w)
  memory_jobs (q ∷ qs) w =
      let (received, w') = send_job (query_job q) w in
      let (rest, w'') = memory_jobs qs w' in
      if received then (query_job q ∷ rest, w'') else ([], w')

  -- `EnsureGroup`; `none` is nil.
  unfoldable pub group_result : Option Error → Option Error
  group_result none = none
  group_result (some e) =
      if redis.is_busy_group e then none else some (wrap (bytes "queue: create consumer group: ") e)

  unfoldable pub ensure_group : S → Option Error × S
  ensure_group w = let (e, w') = redis.group_error w in (group_result e, w')

  unfoldable pub push_result : Option Error → Option Error
  push_result none = none
  push_result (some e) = some (wrap (bytes "queue: push job: ") e)

  -- `PushJob`
  unfoldable pub push_job : Job → S → Option Error × S
  push_job job w = let (e, w') = redis.add (values_of job) w in (push_result e, w')

  -- `PushQuery`
  unfoldable pub push_query : Text → S → Option Error × S
  push_query q w = push_job (query_job q) w

  -- The loop over the entries of one stream; an entry is acknowledged when it was handed over.
  unfoldable pub hand_messages : List Message → S → Handed × S
  hand_messages [] w = (record { goes_on = true; jobs = [] }, w)
  hand_messages (m ∷ ms) w =
      let job = job_of m.values in
      let (received, w') = redis.hand job w in
      let (rest, w'') = hand_messages ms (redis.ack m.id w') in
      if received
      then (record { goes_on = rest.goes_on; jobs = job ∷ rest.jobs }, w'')
      else (record { goes_on = false; jobs = [] }, w')

  unfoldable pub hand_streams : List (List Message) → S → Handed × S
  hand_streams [] w = (record { goes_on = true; jobs = [] }, w)
  hand_streams (ms ∷ mss) w =
      let (first, w') = hand_messages ms w in
      let (rest, w'') = hand_streams mss w' in
      if first.goes_on
      then (record { goes_on = rest.goes_on; jobs = first.jobs ++ rest.jobs }, w'')
      else (first, w')

  unfoldable pub after_read : Read → S → Handed × S
  after_read (entries mss) w = hand_streams mss w
  after_read nothing_new w = (record { goes_on = true; jobs = [] }, w)
  after_read (read_error e) w =
      let (alive, w') = redis.pause w in
      if redis.ended w
      then (record { goes_on = true; jobs = [] }, w)
      else (record { goes_on = alive; jobs = [] }, w')

  -- One round of the loop of `(*RedisStreamSource).Jobs`.
  unfoldable pub jobs_round : ℤ → S → Handed × S
  jobs_round block w =
      let (r, w') = redis.read_group (block_for block) w in
      if redis.ended w then (record { goes_on = false; jobs = [] }, w) else after_read r w'

  -- `(*RedisStreamSource).Jobs`, for at most so many rounds.
  unfoldable pub jobs : ℕ → ℤ → S → List Job × S
  jobs zero block w = ([], w)
  jobs (suc n) block w =
      let (round, w') = jobs_round block w in
      let (rest, w'') = jobs n block w' in
      if round.goes_on then (round.jobs ++ rest, w'') else (round.jobs, w')
