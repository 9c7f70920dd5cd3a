-- ===== src/Scheduler.antt =====
-- internal/scheduler/scheduler.go: one firing of a harvest. The producer is behind an interface, so it
-- is a parameter with its own state `P`; cron and crypto/rand are third-party or outside.
pub mod Firing
use serp_harvester.Prelude.{
  ℕ, ◌+◌, List, [], ◌∷◌, ◌++◌, Bool, true, false, ◌&&◌, if◌then◌else◌, Option, none, some, Text,
  text_eq,
}
use serp_harvester.Fetcher.{Error}
use serp_harvester.Worker.Process.{Job}
use serp_harvester.Worker.Process.Locale.{dash}

pub record Harvest : Type 0 where
  pub name : Text
  pub cron_expr : Text
  pub queries : List Text
  pub country : Text
  pub language : Text
  pub device : Text

-- The variable `locale` of `runOnce`.
unfoldable pub locale_of : Harvest → Text
locale_of h =
    if text_eq h.country [] && text_eq h.language [] then [] else h.country ++ dash ∷ h.language

unfoldable pub job_of : Harvest → Text → Text → Job
job_of h run_id q = record { query = q; run_id = run_id; locale = locale_of h; device = h.device }

module _ {P : Type 0} (push_job : Job → P → P × Option Error) where
  -- A failed push is logged and not counted.
  unfoldable pub count_push : Option Error → ℕ → ℕ
  count_push none pushed = pushed + 1
  count_push (some e) pushed = pushed

  -- The loop of `runOnce`.
  unfoldable pub push_all : Harvest → Text → List Text → ℕ → P → P × ℕ
  push_all h run_id [] pushed p = (p, pushed)
  push_all h run_id (q ∷ qs) pushed p =
      let (p', e) = push_job (job_of h run_id q) p in push_all h run_id qs (count_push e pushed) p'

  -- `runOnce`, where `none` is the failure of `newRunID`.
  unfoldable pub run_once : Option Text → Harvest → P → P × ℕ
  run_once none h p = (p, 0)
  run_once (some run_id) h p = push_all h run_id h.queries 0 p
