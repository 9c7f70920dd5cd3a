-- ===== src/Examples/Jobs.antt =====
-- A worker whose first fetch is rate-limited and whose second one succeeds.
use serp_harvester.Prelude.{
  ◌⊎◌, add64, ◌≡◌, ℕ, ◌+◌, ◌-◌, ◌==◌, refl, List, [], ◌∷◌, false, if◌then◌else◌, Option, none, pos,
  ◌+ℤ◌, leb_ℤ, pos_part, Text, bytes, arith,
}
use serp_harvester.Model.{SerpResult}
use serp_harvester.Metrics.{Counters}
use serp_harvester.Fetcher.{Error, fetched, failed}
use serp_harvester.Worker.{Env, Config, World, Task}
use serp_harvester.Worker.Acquire.{acquire, next_proxy}
use serp_harvester.Worker.Acquire.Attempts.{Total, acquire-Total}
use serp_harvester.Worker.Acquire.Waiting.{IsTimely, Fine, IsServed, next_proxy-Fine}
use serp_harvester.Worker.Acquire.Totality.{Returned, acquire-Returned}
use serp_harvester.Worker.Process.{Job, Parsed, parsed, delivered, given_up, task_of, process}
use serp_harvester.Worker.Process.Conservation.{process-Counted}
use serp_harvester.Examples.Numbers.{thousandths}
use serp_harvester.Examples.Pools.{two_proxies}
use serp_harvester.Examples.Clients.{rates, limiter, slow_down, page}

-- The clock shows the number of the operation, and a timer of 1 ns fires during the next one.
abbrev pub surroundings : Env ℕ ℕ ℕ
surroundings = record {
  clock = λ t i. t;
  ended = λ t. false;
  cause = slow_down;
  timer = λ t d. leb_ℤ d (pos 1);
  wait = λ t b. (b, none);
  fetch = λ t req s. (if s == 0 then failed slow_down else fetched page, s + 1);
  draws = λ t. record { intn = λ n. n - 1; float64 = 500 };
  int63n = λ t n. pos 0;
}

pub surroundings-IsTimely : IsTimely surroundings
surroundings-IsTimely = record {
  clock_mono = λ t i t' j h. omega arith;
  timer_late = λ t₀ i t t' j d fires h g. ground arith;
  intn_lt = λ t n h. omega arith;
}

abbrev pub config : Config
config = record { max_retries = pos 3; max_proxy_wait = pos 0; user_agent = bytes "agent" }

abbrev pub counters : Counters
counters = record {
  success = 4;
  failure = 0;
  dropped = 1;
  retried = 0;
  ai_overview_present = 0;
  calibration_flagged = 0;
  proxy_banned = 0;
  rate_decreases = 0;
  failovers = 0;
  http_consent_handled = 0;
  robots_disallowed = 0;
  outcomes = [];
  cooldowns = [];
}

abbrev start : World ℕ ℕ ℕ (Option SerpResult)
start = record {
  tick = 0;
  pool = two_proxies;
  limiter = limiter;
  counters = counters;
  latencies = none;
  server = 0;
  user = none;
}

abbrev job : Job
job = record {
  query = bytes "q";
  run_id = bytes "run";
  locale = bytes "US-en";
  device = bytes "desktop";
}

abbrev empty_result : SerpResult
empty_result = record {
  query = bytes "q";
  run_id = [];
  locale = [];
  device = [];
  fetched_at = 0;
  latency_ms = pos 0;
  proxy_used = [];
  ai_overview = none;
  featured_snippet = none;
  people_also_ask = [];
  organic = [];
  calibration = none;
  raw_body = [];
}

abbrev parse : Text → Text → Parsed
parse query body = parsed empty_result

-- A sink that keeps the list of results.
abbrev write : SerpResult → List SerpResult → List SerpResult × Option Error
write r rs = (r ∷ rs, none)

abbrev task : Task ℕ (Option SerpResult)
task = task_of rates surroundings 2 parse write config job

next_proxy-Fine_example :
    Fine surroundings (next_proxy surroundings 2 config start)
    × IsServed surroundings start.pool (next_proxy surroundings 2 config start)
next_proxy-Fine_example =
    next_proxy-Fine surroundings surroundings-IsTimely 2 config start (omega arith) (omega arith)

acquire-Total_example :
    Total rates surroundings 2
      (λ s. s)
      (λ t req s. refl)
      0
      (pos_part (pos 3 +ℤ pos 1))
      (acquire rates surroundings 2 config task start)
acquire-Total_example =
    acquire-Total rates surroundings 2 (λ s. s) (λ t req s. refl) config task start

acquire-Returned_example : Returned (acquire rates surroundings 2 config task start).1
acquire-Returned_example =
    acquire-Returned rates surroundings 2 surroundings-IsTimely
      (λ t n h. (omega arith, omega arith)) (omega arith) config task start (omega arith)
      (omega arith)

process-Counted_example :
    let (w, sink, p) = process rates surroundings 2 parse write config job start [] in
    ((p ≡ delivered)
      × (w.counters.success ≡ add64 4 1)
      × (w.counters.dropped ≡ 1)
      × ((r : SerpResult) × (sink ≡ r ∷ [])
          × (r.run_id ≡ bytes "run")
          × (r.locale ≡ bytes "US-en")
          × (r.device ≡ bytes "desktop")))
    ⊎ ((p ≡ given_up) × (w.counters.success ≡ 4) × (w.counters.dropped ≡ add64 1 1) × (sink ≡ []))
process-Counted_example =
    process-Counted rates surroundings 2 parse write surroundings-IsTimely
      (λ t n h. (omega arith, omega arith)) config job start [] (omega arith) (omega arith)
      (omega arith)
