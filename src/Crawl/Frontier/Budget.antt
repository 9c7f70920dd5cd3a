-- ===== src/Crawl/Frontier/Budget.antt =====
-- internal/crawl/crawler.go: the page budget, and the end of every crawl.
use serp_harvester.Prelude.{
  ℕ, zero, suc, ◌+◌, ◌-◌, ◌*◌, ◌≤◌, ◌≡◌, refl, ap, subst, ◌∙◌, List, [], ◌∷◌, Bool, true, false,
  not, ◌&&◌, if◌then◌else◌, Option, none, some, Text, length, length-append, Bool-cases,
  Option-cases, inl, inr, arith,
}
use serp_harvester.Crawl.Frontier.{
  Job, Frontier, Event, send, receive, cancel, enqueue, enqueue_all, starts_of, started, send_first,
  receive_links, is_running, step, run,
}

-- The pages seen are within the budget, and `Discovered` counts them.
abbrev pub InBudget : ℕ → Frontier → Type 0
InBudget max_pages st = (length st.seen ≤ max_pages) × (st.discovered ≡ length st.seen)

unit : Bool → ℕ
unit true = 0
unit false = 1

-- What is left to do: two rounds for each page that can still be queued or is pending, one for each
-- page in flight, and one for the end of the context.
abbrev left : ℕ → Frontier → ℕ
left max_pages st =
    2 * (max_pages - length st.seen) + 2 * length st.pending + st.in_flight + unit st.canceled

enqueue-InBudget :
    (max_pages : ℕ) (j : Job) (st : Frontier)
    → InBudget max_pages st
    → let q = enqueue max_pages j st in
      InBudget max_pages q × (left max_pages q ≡ left max_pages st)
unfolding enqueue
enqueue-InBudget max_pages j st h = ground (arith, length-append st.pending (j ∷ []))

enqueue_all-InBudget :
    (max_pages : ℕ) (js : List Job) (st : Frontier)
    → InBudget max_pages st
    → let q = enqueue_all max_pages js st in
      InBudget max_pages q × (left max_pages q ≡ left max_pages st)
unfolding enqueue_all
enqueue_all-InBudget max_pages [] st h = (h, refl)
enqueue_all-InBudget max_pages (j ∷ js) st h =
    let (b, e) = enqueue-InBudget max_pages j st h in
    let (b', e') = enqueue_all-InBudget max_pages js (enqueue max_pages j st) b in (b', e' ∙ e)

-- The state after `n` rounds, if there is one, is in budget and has so much less to do.
abbrev Progresses : ℕ → ℕ → Frontier → Option Frontier → Type 0
Progresses max_pages n st none = Unit {0}
Progresses max_pages n st (some q) =
    InBudget max_pages q × (n + left max_pages q ≤ left max_pages st)

send_first-Progresses :
    (max_pages : ℕ) (js : List Job) (st : Frontier)
    → InBudget max_pages st
    → length st.pending ≡ length js
    → Progresses max_pages 1 st (send_first js st)
unfolding send_first
send_first-Progresses max_pages [] st h e = tt
send_first-Progresses max_pages (j ∷ js) st h e = (h, omega arith)

receive_links-Progresses :
    (max_pages : ℕ) (over : Bool) (links : List Job) (n : ℕ) (st : Frontier)
    → InBudget max_pages st
    → st.in_flight ≡ n
    → Progresses max_pages 1 st (receive_links max_pages over links n st)
unfolding receive_links
receive_links-Progresses max_pages over links zero st h e = tt
receive_links-Progresses max_pages true links (suc n) st h e = (h, omega arith)
receive_links-Progresses max_pages false links (suc n) st h e =
    let (b, same) = enqueue_all-InBudget max_pages links (record st { in_flight = n }) h in
    (b, omega arith)

cancel-Progresses :
    (max_pages : ℕ) (running : Bool) (st : Frontier)
    → InBudget max_pages st
    → Progresses max_pages 1 st (
        if running && not st.canceled
        then some (record st { canceled = true; pending = [] })
        else none)
unfolding unit
cancel-Progresses max_pages false st h = tt
cancel-Progresses max_pages true st h = elim (Bool-cases st.canceled) [
  | inl e ↦ rw e tt
  | inr e ↦ rw e (h, omega (arith, ap unit e))
]

step-Progresses :
    (max_pages : ℕ) (e : Event) (st : Frontier)
    → InBudget max_pages st
    → Progresses max_pages 1 st (step max_pages e st)
unfolding step
step-Progresses max_pages send st h = send_first-Progresses max_pages st.pending st h refl
step-Progresses max_pages (receive over links) st h =
    receive_links-Progresses max_pages over links st.in_flight st h refl
step-Progresses max_pages cancel st h =
    cancel-Progresses max_pages (is_running st.pending st.in_flight) st h

then_run :
    (max_pages n : ℕ) (st q : Frontier) (o : Option Frontier)
    → 1 + left max_pages q ≤ left max_pages st
    → Progresses max_pages n q o
    → Progresses max_pages (suc n) st o
then_run max_pages n st q none h p = tt
then_run max_pages n st q (some t) h p = (p.0, omega arith)

run-Progresses :
    (max_pages : ℕ) (es : List Event) (st : Frontier)
    → InBudget max_pages st
    → Progresses max_pages (length es) st (run max_pages es st)
unfolding run
run-Progresses max_pages [] st h = (h, omega arith)
run-Progresses max_pages (e ∷ es) st h = elim (Option-cases (step max_pages e st)) [
  | inl stop ↦ rw (stop, run) tt
  | inr (q, next) ↦
      let p : Progresses max_pages 1 st (some q) =
        subst (Progresses max_pages 1 st) next (step-Progresses max_pages e st h) in
      rw (next, run) (then_run max_pages (length es) st q _ p.1 (run-Progresses max_pages es q p.0))
]

started-Progresses :
    (max_pages : ℕ) (starts : List Text)
    → InBudget max_pages (started max_pages starts)
      × (left max_pages (started max_pages starts) ≡ 2 * max_pages + 1)
unfolding started unit
started-Progresses max_pages starts =
    let (b, e) = enqueue_all-InBudget max_pages (starts_of starts) _ (omega arith, refl) in
    (b, e ∙ omega arith)

-- Whatever the workers return, in whatever order: after any run of the loop the pages seen are at
-- most MaxPages and `Discovered` is their number; and the loop makes at most 2 * MaxPages + 1 rounds.
pub run-InBudget :
    (max_pages : ℕ) (starts : List Text) (es : List Event) (q : Frontier)
    → run max_pages es (started max_pages starts) ≡ some q
    → InBudget max_pages q × (length es ≤ 2 * max_pages + 1)
run-InBudget max_pages starts es q h =
    let (b, e) = started-Progresses max_pages starts in
    let p : Progresses max_pages (length es) (started max_pages starts) (some q) =
      subst (Progresses max_pages (length es) (started max_pages starts)) h
        (run-Progresses max_pages es (started max_pages starts) b) in
    (p.0, omega arith)
