-- ===== src/Metrics/Latency.antt =====
-- internal/metrics/latency.go: the ring of the latest observations.
pub mod Window
use serp_harvester.Prelude.{
  ℕ, zero, suc, ◌+◌, ◌-◌, ◌*◌, ◌%◌, ◌≤◌, ◌<◌, ◌≡◌, refl, ap, sym, ◌∙◌, List, [], ◌∷◌, ◌++◌, ℤ, pos,
  Bool, true, false, if◌then◌else◌, ltb, length, set, take, drop, add64, arith,
}

pub record Recorder : Type 0 where
  pub samples : List ℤ
  pub idx : ℕ
  pub capacity : ℕ
  pub total : ℕ

-- `NewLatencyRecorder`
unfoldable pub new_recorder : ℤ → Recorder
new_recorder (pos (suc c)) = record { samples = []; idx = 0; capacity = suc c; total = 0 }
new_recorder _ = record { samples = []; idx = 0; capacity = 1; total = 0 }

-- `Record`
unfoldable pub observe : ℤ → Recorder → Recorder
observe d r =
    let t = record r { total = add64 r.total 1 } in
    if ltb (length r.samples) r.capacity
    then record t { samples = r.samples ++ d ∷ [] }
    else record t { samples = set r.samples r.idx d; idx = (r.idx + 1) % r.capacity }

unfoldable pub observe_all : List ℤ → Recorder → Recorder
observe_all [] r = r
observe_all (d ∷ ds) r = observe_all ds (observe d r)
