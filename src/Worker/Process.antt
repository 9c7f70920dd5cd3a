-- ===== src/Worker/Process.antt =====
-- internal/worker/pool.go: `process`, one search job from its request to the sink. The parser and the
-- sink are behind interfaces, so they are parameters; the sink has its own state `K`.
pub mod Locale
pub mod Conservation
use serp_harvester.Prelude.{
  ℕ, ◌/◌, ◌+◌, ℤ, pos, negsuc, ◌-ℤ◌, List, [], ◌∷◌, length, get_elem?, Bool, if◌then◌else◌, Option,
  none, some, Text, text_eq, bytes, Float,
}
use serp_harvester.Model.{SerpResult}
use serp_harvester.Proxy.{Proxy, key}
use serp_harvester.Limiter.{Buckets}
use serp_harvester.Metrics.{
  Counters, inc_success, inc_dropped, inc_ai_overview_present, inc_calibration_flagged,
}
use serp_harvester.Fetcher.{Request, Response, Error}
use serp_harvester.Worker.{
  Env, Config, World, Task, Acquired, acquired, dropped, panicked, unfinished, count,
}
use serp_harvester.Worker.Acquire.{acquire}
use serp_harvester.Worker.Process.Locale.{locale_country, locale_language}

-- `queue.Job`
pub record Job : Type 0 where
  pub query : Text
  pub run_id : Text
  pub locale : Text
  pub device : Text

-- What `Parse` returns.
pub data Parsed : Type 0 where
  parsed : SerpResult → Parsed
  parse_error : Error → Parsed

-- What becomes of a job.
pub data Processed : Type 0 where
  delivered given_up crashed unended : Processed

-- `userAgents`
abbrev pub user_agents : List Text
user_agents =
    bytes "Mozilla/5.0 (Windows NT 10.0; Win64; x64) web-harvester/0.1"
    ∷ bytes "Mozilla/5.0 (Macintosh; Intel Mac OS X 10_15_7) web-harvester/0.1"
    ∷ bytes "Mozilla/5.0 (X11; Linux x86_64) web-harvester/0.1"
    ∷ []

-- `userAgent`, with what `rand.Intn` gives; that is below its argument, so the index is in range.
unfoldable pub user_agent_of : Config → (ℕ → ℕ) → Text
user_agent_of cfg intn = elim (get_elem? user_agents (intn (length user_agents))) [
  | none ↦ cfg.user_agent
  | some agent ↦ if text_eq cfg.user_agent [] then agent else cfg.user_agent
]

-- `Duration.Milliseconds`, toward zero.
unfoldable pub milliseconds_of : ℤ → ℤ
milliseconds_of (pos n) = pos (n / 1000000)
milliseconds_of (negsuc n) = pos 0 -ℤ pos ((n + 1) / 1000000)

-- The fields that `use` stamps on the result of the parser.
unfoldable pub stamp : {W : Type 0} → Job → ℕ → Response → Proxy W → SerpResult → SerpResult
stamp job now resp p r = record r {
  latency_ms = milliseconds_of resp.latency;
  proxy_used = key p;
  fetched_at = now;
  run_id = job.run_id;
  locale = job.locale;
  device = job.device;
  raw_body = elim r.calibration [ none ↦ r.raw_body | some note ↦ resp.body ];
}

-- A counter that is raised when a pointer is not nil.
unfoldable pub if_present : {A : Type 0} → Option A → (Counters → Counters) → Counters → Counters
if_present none inc c = c
if_present (some a) inc c = inc c

unfoldable pub count_result : SerpResult → Counters → Counters
count_result r c =
    if_present r.calibration inc_calibration_flagged
      (if_present r.ai_overview inc_ai_overview_present (inc_success c))

-- `use`, after `Parse`; what it sets is the variable `result`.
unfoldable pub keep_parsed :
    {W : Type 0}
    → Job
    → ℕ
    → Response
    → Proxy W
    → Option SerpResult
    → Parsed
    → Option SerpResult × Option Error
keep_parsed job now resp p result (parse_error e) = (result, some e)
keep_parsed job now resp p result (parsed r) = (some (stamp job now resp p r), none)

module _ {W B S K : Type 0} ⦃f : Float W⦄ (k : Buckets W B) (env : Env W B S) (fuel : ℕ)
    (parse : Text → Text → Parsed) (write : SerpResult → K → K × Option Error) where
  -- `build` and `use`, with one rate-limiter bucket per proxy.
  unfoldable pub task_of : Config → Job → Task W (Option SerpResult)
  task_of cfg job = record {
    build = λ t p. record {
      query = job.query;
      target = [];
      user_agent = user_agent_of cfg (env.draws t).intn;
      proxy_url = p.url;
      country = locale_country job.locale;
      language = locale_language job.locale;
      device = job.device;
      wait_selector = [];
    };
    rate_key = none;
    consume = λ t resp p result.
        keep_parsed job (env.clock t 0) resp p result (parse job.query resp.body);
  }

  -- The end of `process`; a nil `result` would be a panic. The sink's error is only logged.
  unfoldable pub deliver :
      World W B S (Option SerpResult)
      → K
      → Option SerpResult
      → World W B S (Option SerpResult) × K × Processed
  deliver w sink none = (w, sink, crashed)
  deliver w sink (some r) = (count (count_result r) w, (write r sink).0, delivered)

  unfoldable pub after_acquire :
      K
      → World W B S (Option SerpResult) × Acquired
      → World W B S (Option SerpResult) × K × Processed
  after_acquire sink (w, acquired) = deliver w sink w.user
  after_acquire sink (w, dropped d) = (count inc_dropped w, sink, given_up)
  after_acquire sink (w, panicked) = (w, sink, crashed)
  after_acquire sink (w, unfinished) = (w, sink, unended)

  -- `process`
  unfoldable pub process :
      Config
      → Job
      → World W B S (Option SerpResult)
      → K
      → World W B S (Option SerpResult) × K × Processed
  process cfg job w sink =
      after_acquire sink (acquire k env fuel cfg (task_of cfg job) (record w { user = none }))
