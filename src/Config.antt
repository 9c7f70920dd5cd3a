-- ===== src/Config.antt =====
-- internal/config/config.go: the settings of a run and their defaults. The file is read by a YAML
-- library, over the defaults.
use serp_harvester.Prelude.{ℕ, ◌*◌, ℤ, pos, List, [], Bool, true, false, Text, bytes, Float}

abbrev pub seconds : ℕ
seconds = 1000000000

abbrev pub minutes : ℕ
minutes = 60 * seconds

-- `Config`
pub record Settings (W : Type 0) : Type 0 where
  pub mode : Text
  pub queries : List Text
  pub queue_backend : Text
  pub redis_addr : Text
  pub redis_stream : Text
  pub redis_group : Text
  pub redis_consumer : Text
  pub redis_seed_queue : Bool
  pub concurrency : ℤ
  pub max_retries : ℤ
  pub rate_per_proxy_rps : W
  pub rate_burst : ℤ
  pub adaptive_rate : Bool
  pub rate_min_rps : W
  pub proxies : List Text
  pub proxy_ban_fails : ℤ
  pub proxy_ban_cooldown : ℤ
  pub proxy_ban_cooldown_max : ℤ
  pub proxy_strategy : Text
  pub max_proxy_wait : ℤ
  pub live_endpoint : Text
  pub request_timeout : ℤ
  pub mock_fixture_dir : Text
  pub provider_base_url : Text
  pub provider_api_key_env : Text
  pub provider_engine : Text
  pub browser_pool_size : ℤ
  pub browser_headful : Bool
  pub browser_executable_path : Text
  pub browser_wait_selector : Text
  pub browser_max_session_uses : ℤ
  pub sink_backend : Text
  pub postgres_dsn_env : Text
  pub output_path : Text
  pub report_interval : ℤ

-- `Default`
unfoldable pub default_settings : {W : Type 0} ⦃f : Float W⦄ → Settings W
default_settings {W} ⦃f⦄ = record {
  mode = bytes "mock";
  queries = [];
  queue_backend = bytes "memory";
  redis_addr = bytes "localhost:6379";
  redis_stream = bytes "serp-harvester:queries";
  redis_group = bytes "harvesters";
  redis_consumer = bytes "worker-1";
  redis_seed_queue = false;
  concurrency = pos 8;
  max_retries = pos 2;
  rate_per_proxy_rps = f.lit 1 1;
  rate_burst = pos 1;
  adaptive_rate = true;
  rate_min_rps = f.lit 0 1;
  proxies = [];
  proxy_ban_fails = pos 3;
  proxy_ban_cooldown = pos (30 * seconds);
  proxy_ban_cooldown_max = pos (10 * minutes);
  proxy_strategy = bytes "round_robin";
  max_proxy_wait = pos (2 * minutes);
  live_endpoint = bytes "https://www.google.com/search";
  request_timeout = pos (10 * seconds);
  mock_fixture_dir = bytes "internal/parser/testdata";
  provider_base_url = [];
  provider_api_key_env = [];
  provider_engine = bytes "google";
  browser_pool_size = pos 4;
  browser_headful = false;
  browser_executable_path = [];
  browser_wait_selector = [];
  browser_max_session_uses = pos 50;
  sink_backend = bytes "jsonl";
  postgres_dsn_env = bytes "POSTGRES_DSN";
  output_path = bytes "-";
  report_interval = pos (2 * seconds);
}
