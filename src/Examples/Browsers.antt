-- ===== src/Examples/Browsers.antt =====
-- A pool of two browser sessions, and a browser that does not start.
use serp_harvester.Prelude.{
  ℕ, ◌+◌, ◌*◌, ◌≤◌, ◌==◌, ◌≡◌, refl, inl, inr, [], ◌∷◌, true, false, none, some, pos, negsuc, Text,
  bytes, arith, ◌++◌, ap, get_elem?,
}
use serp_harvester.Robots.{is_empty}
use serp_harvester.Metrics.Browser.{BrowserCounters, inc_launches}
use serp_harvester.Fetcher.{Request, Error}
use serp_harvester.Fetcher.Sessions.{
  PlaywrightConfig, Session, Pool, Driver, session, acquire, release, second, launch_browser,
  browser_locked, browser_or, relaunch, drop_dead, on_launch, with_browser, sift, choose,
  open_session, evict, close_sessions, new_session, open_context, context_options, after_context,
  after_cookies, page_of, on_session, session_key, join_zero, locale_tag, device_profile_for,
  sessions_of, some_nonempty, one_if, with_defaults, empty_pool, launched, started,
  new_playwright_fetcher,
}
use serp_harvester.Fetcher.Sessions.Conservation.{total}
use serp_harvester.Fetcher.Sessions.Conservation.Start.{Starts, new_playwright_fetcher-IsValid}
use serp_harvester.Fetcher.Sessions.Conservation.Steps.{
  IsValid, held, remove_at, rest, take, give, steps-IsValid,
}
use serp_harvester.Fetcher.Sessions.Launch.{failed_launch_waits}
use serp_harvester.Fetcher.Sessions.Profile.{IsPlain, profile_of, acquire_profile}
use serp_harvester.Fetcher.Render.{Pages, navigated, fetch_browser}
use serp_harvester.Fetcher.Render.Verdict.{fetch_browser-IsValid}
use serp_harvester.Examples.Fetches.{query, html, failure}

abbrev driver : Driver ℕ
driver = record {
  clock = λ w. w;
  connected = λ w b. b == 1;
  crashed = λ w i. false;
  page_closed = λ w i. false;
  launch = λ cfg w. (inr 1, w + 1);
  new_context = λ b o w. (inr w, w + 1);
  add_cookies = λ i k v u w. (none, w);
  new_page = λ i w. (none, w);
  close_context = λ i w. w;
  start_driver = λ w. (none, w);
  stop_driver = λ w. (none, w);
  close_browser = λ b w. (none, w);
  is_target_closed = λ e. false;
  drain = λ w. w;
  parse_proxy = λ u. none;
  to_lower = λ t. t;
  to_upper = λ t. t;
}

-- Chromium is missing.
abbrev broken : Driver ℕ
broken = record driver { launch = λ cfg w. (inl failure, w + 1) }

abbrev config : PlaywrightConfig
config = record {
  endpoint = bytes "http://g/search";
  timeout = pos (30 * second);
  pool_size = pos 2;
  max_session_uses = pos 50;
  headless = true;
  executable_path = [];
  wait_selector = [];
  generic = false;
}

abbrev zeros : BrowserCounters
zeros = record {
  launches = 0;
  disconnects = 0;
  navigation_timeouts = 0;
  consent_handled = 0;
  blocked_captcha = 0;
  blocked_consent = 0;
  blocked_interstitial = 0;
  blocked_challenge = 0;
  launch_failures = 0;
  page_crashes = 0;
  sessions_open = pos 0;
  sessions_in_use = pos 0;
}

abbrev pool : Pool
pool = record {
  slots = 0;
  browser = none;
  idle = [];
  opened = pos 0;
  launch_failures = 0;
  next_launch = 0;
  last_launch_err = none;
  closed = false;
  counters = zeros;
  next_id = 0;
}

pool-IsValid : IsValid driver config 2 50 pool []
unfolding total
pool-IsValid = record {
  books = record {
    counted = refl;
    bounded = omega arith;
    once = λ i. omega arith;
    unused = λ i h. refl;
    rested = refl;
  };
  taken = refl;
}

-- Every page shows a result.
abbrev pages : Pages ℕ Text
pages = record {
  html = html;
  clock = λ w. w;
  goto = λ c u ms w. (inr none, w + 1);
  content = λ c w. (inr (bytes "results"), w);
  page_url = λ c w. bytes "/search";
  click_reject = λ c ms w. (navigated none, w);
  wait_for = λ c s ms w. (true, w);
  error_text = λ e. [];
  parse_time = λ t. none;
  search = λ e vs. inr e;
  ended = λ w. none;
}

fetch_browser-IsValid_example :
    IsValid driver config 2 50 (fetch_browser driver pages config query pool 5).1 []
fetch_browser-IsValid_example =
    fetch_browser-IsValid driver pages config 2 50 refl refl query pool 5 [] pool-IsValid
      (omega arith)

failed_launch_waits_example :
    let (r, p', w') = launch_browser broken config pool 5 in
    ((x : Error) × (browser_locked broken config p' 7 ≡ (inl x, p', 7)))
    × (p'.launch_failures ≡ 0 + 1)
    × (p'.next_launch ≤ 6 + 30 * second)
unfolding launch_browser on_launch
failed_launch_waits_example = failed_launch_waits broken config pool 5 7 _ refl (omega arith) tt

-- Another query with the same profile.
abbrev other_query : Request
other_query = record query { query = bytes "java" }

abbrev key : Text
key = 0 ∷ bytes "agent" ++ 0 ∷ bytes "en-us" ++ 0 ∷ bytes "mobile"

-- The session of the first fetch in the pool.
abbrev first_session : Session
first_session = record { id = 0; key = key; browser = 1; context = 6; uses = 0 }

acquired : (acquire driver config query pool 5).0 ≡ session first_session
unfolding acquire browser_locked browser_or relaunch drop_dead launch_browser on_launch with_browser
    sift choose open_session evict close_sessions new_session open_context context_options
    after_context after_cookies page_of on_session session_key join_zero locale_tag
    device_profile_for sessions_of some_nonempty is_empty one_if
acquired = refl

steps-IsValid_example :
    let (r, p, w) = acquire driver config query pool 5 in
    IsValid driver config 2 50
      (release driver config true first_session p w).0
      (remove_at (held r []) 0)
steps-IsValid_example =
    let (r, p, w) = acquire driver config query pool 5 in
    steps-IsValid driver config 2 50 refl refl pool-IsValid (
      give true 0 first_session (ap (λ x. get_elem? (held x []) 0) acquired)
        (take query (omega arith) rest))

other_acquired : (acquire driver config other_query pool 5).0 ≡ session first_session
unfolding acquire browser_locked browser_or relaunch drop_dead launch_browser on_launch with_browser
    sift choose open_session evict close_sessions new_session open_context context_options
    after_context after_cookies page_of on_session session_key join_zero locale_tag
    device_profile_for sessions_of some_nonempty is_empty one_if
other_acquired = refl

query-IsPlain : IsPlain driver config query
unfolding locale_tag is_empty
query-IsPlain = ground arith

other_query-IsPlain : IsPlain driver config other_query
unfolding locale_tag is_empty
other_query-IsPlain = ground arith

acquire_profile_example : profile_of driver config query ≡ profile_of driver config other_query
acquire_profile_example =
    acquire_profile driver config query other_query pool pool 5 5 first_session first_session
      query-IsPlain other_query-IsPlain acquired other_acquired refl

-- A configuration without limits, and the fetcher that it gives.
abbrev open_config : PlaywrightConfig
open_config = record config { pool_size = pos 0; max_session_uses = negsuc 3 }

abbrev started_pool : Pool
started_pool = record pool { browser = some 1; counters = record zeros { launches = 1 } }

started_one : (new_playwright_fetcher driver open_config zeros 5).1 ≡ inr started_pool
unfolding new_playwright_fetcher started empty_pool launched browser_locked browser_or relaunch
    drop_dead launch_browser on_launch is_empty with_defaults inc_launches
started_one = refl

new_playwright_fetcher-IsValid_example :
    Starts driver (new_playwright_fetcher driver open_config zeros 5).0 started_pool
new_playwright_fetcher-IsValid_example =
    new_playwright_fetcher-IsValid driver open_config zeros 5 started_pool started_one
