-- ===== src/Scheduler/Firing.antt =====
-- internal/scheduler/scheduler.go: which jobs a firing pushes, and what the worker reads back.
use native.Mathlib.Nat.{add-zero}
use serp_harvester.Prelude.{
  ℕ, ◌+◌, ◌≡◌, ◌≢◌, refl, List, [], ◌∷◌, ◌++◌, map, All, ◌&&◌, Option, none, some, Text, text_eq,
  text_eq_iff, Bool-cases, inl, inr, length, arith, ap, ap₂, ◌∙◌,
}
use mathlib.Core.List.{append-nil, append_assoc}
use serp_harvester.Fetcher.{Error}
use serp_harvester.Worker.Process.{Job}
use serp_harvester.Worker.Process.Locale.{cut, dash, locale_country, locale_language, locale-append}
use serp_harvester.Scheduler.{Harvest, locale_of, job_of, count_push, push_all, run_once}

-- A country without a dash, and the language, come back from the locale of a job, also when one of
-- them or both are empty.
pub locale_of-parts :
    (h : Harvest)
    → All (λ c. c ≢ dash) h.country
    → (locale_country (locale_of h) ≡ h.country) × (locale_language (locale_of h) ≡ h.language)
unfolding locale_of locale_country locale_language cut
locale_of-parts h plain = elim (Bool-cases (text_eq h.country [] && text_eq h.language [])) [
  | inl e ↦ rw e (ground (arith, text_eq_iff h.country [], text_eq_iff h.language []))
  | inr e ↦ rw e (locale-append h.country h.language plain)
]

-- A producer that accepts every job.
abbrev pub accepting : Job → List Job → List Job × Option Error
accepting job jobs = (jobs ++ job ∷ [], none)

push_all-map :
    (h : Harvest) (run_id : Text) (qs : List Text) (n : ℕ) (js : List Job)
    → push_all accepting h run_id qs n js ≡ (js ++ map (job_of h run_id) qs, n + length qs)
unfolding push_all count_push
push_all-map h run_id [] n js = rw (append-nil, add-zero) refl
push_all-map h run_id (q ∷ qs) n js =
    push_all-map h run_id qs (n + 1) (js ++ job_of h run_id q ∷ [])
    ∙ ap₂ (λ (a : List Job) (b : ℕ). (a, b))
        (append_assoc js (job_of h run_id q ∷ []) (map (job_of h run_id) qs)) (omega arith)

-- With a producer that accepts every job, a firing pushes one job per query, in order, all with the
-- run's id, and counts them.
pub run_once-map :
    (run_id : Text) (h : Harvest) (jobs : List Job)
    → run_once accepting (some run_id) h jobs
      ≡ (jobs ++ map (job_of h run_id) h.queries, length h.queries)
unfolding run_once
run_once-map run_id h jobs =
    push_all-map h run_id h.queries 0 jobs
    ∙ ap (λ (b : ℕ). (jobs ++ map (job_of h run_id) h.queries, b)) (omega arith)
