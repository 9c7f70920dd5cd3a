-- ===== src/Crawl/Frontier.antt =====
-- internal/crawl/crawler.go: the coordinator of `Run`. Its loop selects between handing out a job,
-- taking back the links of a visit and the end of the context; a run is the list of the events
-- selected. Which event comes is up to the workers, so every order is allowed.
pub mod Budget
use serp_harvester.Prelude.{
  ℕ, zero, suc, ◌+◌, leb, List, [], ◌∷◌, ◌++◌, Bool, true, false, not, ◌||◌, ◌&&◌, if◌then◌else◌,
  Option, none, some, Text, text_eq, length, ltb,
}

-- `job`
pub record Job : Type 0 where
  pub url : Text
  pub depth : ℕ

-- The variables of `Run` that the coordinator owns; `seen` has the keys of the map.
pub record Frontier : Type 0 where
  pub seen : List Text
  pub pending : List Job
  pub in_flight : ℕ
  pub discovered : ℕ
  pub budget_exhausted : Bool
  pub canceled : Bool

unfoldable pub is_seen : Text → List Text → Bool
is_seen raw [] = false
is_seen raw (s ∷ seen) = text_eq s raw || is_seen raw seen

-- `enqueue`
unfoldable pub enqueue : ℕ → Job → Frontier → Frontier
enqueue max_pages j st =
    if is_seen j.url st.seen
    then st
    else (if leb max_pages (length st.seen)
        then record st { budget_exhausted = true }
        else record st {
          seen = j.url ∷ st.seen;
          discovered = st.discovered + 1;
          pending = st.pending ++ j ∷ [];
        })

unfoldable pub enqueue_all : ℕ → List Job → Frontier → Frontier
enqueue_all max_pages [] st = st
enqueue_all max_pages (j ∷ js) st = enqueue_all max_pages js (enqueue max_pages j st)

unfoldable pub starts_of : List Text → List Job
starts_of [] = []
starts_of (u ∷ us) = record { url = u; depth = 0 } ∷ starts_of us

-- The state before the loop.
unfoldable pub started : ℕ → List Text → Frontier
started max_pages starts = enqueue_all max_pages (starts_of starts) (record {
  seen = [];
  pending = [];
  in_flight = 0;
  discovered = 0;
  budget_exhausted = false;
  canceled = false;
})

-- The cases of the `select`: a job is handed out; links come back, and the context has ended or not;
-- the end of the context is seen.
pub data Event : Type 0 where
  send : Event
  receive : Bool → List Job → Event
  cancel : Event

unfoldable pub send_first : List Job → Frontier → Option Frontier
send_first [] st = none
send_first (j ∷ js) st = some (record st { pending = js; in_flight = st.in_flight + 1 })

unfoldable pub receive_links : ℕ → Bool → List Job → ℕ → Frontier → Option Frontier
receive_links max_pages over links zero st = none
receive_links max_pages over links (suc n) st =
    let back = record st { in_flight = n } in
    some (if over then back else enqueue_all max_pages links back)

-- The condition of the loop.
unfoldable pub is_running : List Job → ℕ → Bool
is_running [] n = ltb 0 n
is_running (j ∷ js) n = true

-- One round of the loop; `none` when the event cannot be selected.
unfoldable pub step : ℕ → Event → Frontier → Option Frontier
step max_pages send st = send_first st.pending st
step max_pages (receive over links) st = receive_links max_pages over links st.in_flight st
step max_pages cancel st =
    if is_running st.pending st.in_flight && not st.canceled
    then some (record st { canceled = true; pending = [] })
    else none

unfoldable pub run : ℕ → List Event → Frontier → Option Frontier
run max_pages [] st = some st
run max_pages (e ∷ es) st = elim (step max_pages e st) [
  | none ↦ none
  | some st' ↦ run max_pages es st'
]
