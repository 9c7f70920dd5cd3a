-- ===== src/Api.antt =====
-- internal/api/server.go: the handlers of the job API. The producer, with its own state `P`, and the
-- counter of results are behind interfaces; decoding JSON, crypto/rand and `strings.TrimSpace` are
-- outside, so a handler takes what they give.
pub mod Status
use serp_harvester.Prelude.{
  ℕ, zero, ℤ, pos, negsuc, List, [], ◌∷◌, ◌++◌, Bool, true, false, ◌&&◌, if◌then◌else◌, Option,
  none, some, Text, text_eq, length, lookup, insert,
}
use serp_harvester.Fetcher.{Error}
use serp_harvester.Worker.Process.{Job}
use serp_harvester.Worker.Process.Locale.{dash}

-- `createJobRequest`
pub record CreateJobRequest : Type 0 where
  pub queries : List Text
  pub country : Text
  pub language : Text
  pub device : Text

-- `jobStatusResponse`
pub record JobStatus : Type 0 where
  pub run_id : Text
  pub submitted : ℕ
  pub completed : ℤ
  pub known : Bool
  pub submitted_known : Bool

-- The answers: an error with its status, `createJobResponse` with 202, or a job's status with 200.
pub data Reply : Type 0 where
  failed_with : ℕ → Reply
  accepted : Text → ℕ → Reply
  job_status : JobStatus → Reply

unfoldable pub locale_for : CreateJobRequest → Text
locale_for r =
    if text_eq r.country [] && text_eq r.language [] then [] else r.country ++ dash ∷ r.language

unfoldable pub has_none : List Text → Bool
has_none [] = true
has_none (q ∷ qs) = false

module _ {P : Type 0} (push_job : Job → P → P × Option Error) where
  -- The loop of `handleCreateJob`; the first failed push ends it, and what was pushed stays.
  unfoldable pub enqueue_queries : CreateJobRequest → Text → List Text → P → P × Bool
  enqueue_queries r run_id [] p = (p, true)
  enqueue_queries r run_id (q ∷ qs) p =
      let (p', e) =
        push_job (record { query = q; run_id = run_id; locale = locale_for r; device = r.device })
          p in
      elim e [ none ↦ enqueue_queries r run_id qs p' | some why ↦ (p', false) ]

  -- `handleCreateJob`, after the request is decoded and the run has an id.
  unfoldable pub submit :
      CreateJobRequest → Text → List (Text × ℕ) → P → List (Text × ℕ) × P × Reply
  submit r run_id submitted p =
      let (p', ok) = enqueue_queries r run_id r.queries p in
      if ok
      then (insert run_id (length r.queries) submitted, p', accepted run_id (length r.queries))
      else (submitted, p', failed_with 502)

  -- `handleCreateJob`, where `none` is a body that is not JSON, or a failure of `newRunID`.
  unfoldable pub handle_create_job :
      Option CreateJobRequest → Option Text → List (Text × ℕ) → P → List (Text × ℕ) × P × Reply
  handle_create_job none run_id submitted p = (submitted, p, failed_with 400)
  handle_create_job (some r) none submitted p =
      (submitted, p, if has_none r.queries then failed_with 400 else failed_with 500)
  handle_create_job (some r) (some run_id) submitted p =
      if has_none r.queries then (submitted, p, failed_with 400) else submit r run_id submitted p

unfoldable pub submitted_of : Option ℕ → ℕ
submitted_of none = 0
submitted_of (some n) = n

unfoldable pub was_submitted : Option ℕ → Bool
was_submitted none = false
was_submitted (some n) = true

-- The answer from the count of results: no counter, a counter that fails, or a count.
unfoldable pub counted_reply : Option (Option ℤ) → JobStatus → Reply
counted_reply none resp = job_status resp
counted_reply (some none) resp = failed_with 500
counted_reply (some (some n)) resp = job_status (record resp { completed = n; known = true })

-- `handleJobStatus`, on the trimmed run id; `count` is what the counter gives for it.
unfoldable pub handle_job_status : Text → Option (Option ℤ) → List (Text × ℕ) → Reply
handle_job_status run_id count submitted =
    if text_eq run_id []
    then failed_with 400
    else counted_reply count (record {
      run_id = run_id;
      submitted = submitted_of (lookup run_id submitted);
      completed = negsuc 0;
      known = false;
      submitted_known = was_submitted (lookup run_id submitted);
    })
