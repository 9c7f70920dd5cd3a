-- ===== src/Examples/Clients.antt =====
-- The limiter with one penalized key, the metrics, and errors of a fetch.
use serp_harvester.Prelude.{
  ℕ, ◌+◌, ◌*◌, ◌/◌, ◌^◌, ◌≤◌, ◌<◌, min, ◌≡◌, ◌≢◌, ◌⊎◌, refl, [], ◌∷◌, Bool, true, false, none, some,
  pos, bytes, arith, leb,
}
use serp_harvester.Limiter.{Buckets, IsBuckets, Limiter, penalize, bucket}
use serp_harvester.Limiter.Adaptation.{InBand, Frame, rate_of, penalize_lem, reward_lem}
use serp_harvester.Limiter.Adaptation
use serp_harvester.Metrics.Latency.{new_recorder, observe_all}
use serp_harvester.Metrics.Latency.Window.{view, latest, new_recorder-latest}
use serp_harvester.Fetcher.{
  Request, Response, Error, fetched, failed, captcha, rate_limit_error, blocked_error,
}
use serp_harvester.Fetcher.Classify.{
  classify, classify_links, classify_blocked, blocked_outcome, as_blocked, as_rate_limit,
}
use serp_harvester.Fetcher.Failover.{
  FailoverFetcher, failover_test, notify, fetch_failover, fetch_failover_cases,
}
use serp_harvester.Worker.Timing.{milliseconds, seconds, backoff_duration, backoff_duration_lem}
use serp_harvester.Examples.Numbers.{thousandths, thousandths-IsIeee, thousandths-HasHalves}

-- A bucket that is its rate.
abbrev pub rates : Buckets ℕ ℕ
rates = record { new_limiter = λ x n. x; limit = λ x. x; set_limit = λ x b. x }

pub rates-IsBuckets : IsBuckets rates
rates-IsBuckets = record { limit-new = λ x n. refl; limit-set = λ x b. refl }

-- Ten requests per second, one at least, and one key at four.
abbrev pub limiter : Limiter ℕ ℕ
limiter = record {
  buckets = (bytes "http://a", 4000) ∷ [];
  rps = 10000;
  burst = 1;
  adaptive = true;
  min_rps = 1000;
  step = 500;
}

limiter-InBand : InBand rates limiter
unfolding bucket
limiter-InBand = (refl, refl, (λ key. (ground arith, ground arith)))

penalize_lem_example :
    let (m, decreased) = penalize rates limiter (bytes "http://a") in
    InBand rates m
    × Frame rates (bytes "http://a") limiter m
    × (((decreased ≡ true)
          × (rate_of rates m (bytes "http://a")
              ≡ Adaptation.lowered rates rates-IsBuckets limiter (bytes "http://a"))
          × (leb (rate_of rates limiter (bytes "http://a")) (rate_of rates m (bytes "http://a"))
              ≡ false))
        ⊎ ((decreased ≡ false)
            × (rate_of rates m (bytes "http://a") ≡ rate_of rates limiter (bytes "http://a"))
            × (leb
                  (rate_of rates limiter (bytes "http://a"))
                  (Adaptation.lowered rates rates-IsBuckets limiter (bytes "http://a"))
                ≡ true)))
penalize_lem_example =
    penalize_lem rates rates-IsBuckets thousandths-IsIeee thousandths-HasHalves limiter
      (bytes "http://a") refl limiter-InBand

new_recorder-latest_example :
    view (observe_all (pos 1 ∷ pos 2 ∷ pos 3 ∷ []) (new_recorder (pos 2)))
    ≡ latest 2 (pos 1 ∷ pos 2 ∷ pos 3 ∷ [])
new_recorder-latest_example = new_recorder-latest 1 (pos 1 ∷ pos 2 ∷ pos 3 ∷ [])

-- A rate limit that asks for 5s.
abbrev pub slow_down : Error
slow_down = record { outer = rate_limit_error 429 (pos (5 * seconds)) []; inner = [] }

-- A fetcher that fails with a CAPTCHA, before one that succeeds; the world counts the calls.
abbrev captcha_page : Error
captcha_page = record {
  outer = blocked_error (bytes "captcha") (bytes "http://s") 200 [];
  inner = [];
}

abbrev pub page : Response
page = record {
  status_code = 200;
  body = bytes "ok";
  latency = pos 7;
  content_type = bytes "text/html";
  final_url = bytes "http://s";
}

abbrev get : Request
get = record {
  query = bytes "q";
  target = [];
  user_agent = [];
  proxy_url = [];
  country = [];
  language = [];
  device = [];
  wait_selector = [];
}

abbrev two_fetchers : FailoverFetcher ℕ
two_fetchers = record {
  primary = λ req w. (failed captcha_page, w + 1);
  secondary = λ req w. (fetched page, w + 10);
  failover_on = none;
  on_failover = none;
}

abbrev alive : ℕ → Bool
alive w = false

fetch_failover_cases_example :
    ((fetch_failover alive two_fetchers get 0 ≡ (failed captcha_page, 1))
      × ((false ≡ true)
          ⊎ (failover_test alive two_fetchers (classify (some captcha_page)) ≡ false)
          ⊎ (some captcha_page ≡ none)))
    ⊎ ((fetch_failover alive two_fetchers get 0
          ≡ (fetched page, notify alive none (classify (some captcha_page)) 1 + 10))
        × (false ≡ false)
        × (failover_test alive two_fetchers (classify (some captcha_page)) ≡ true)
        × (some captcha_page ≢ none))
fetch_failover_cases_example = fetch_failover_cases alive two_fetchers get 0

captcha_page-captcha : classify (some captcha_page) ≡ captcha
unfolding classify classify_links as_rate_limit classify_blocked as_blocked blocked_outcome
captcha_page-captcha = refl

backoff_duration_lem_example :
    (d : ℕ) × (backoff_duration (λ n. pos 0) 3 ≡ some (pos d))
    × (min (2 ^ 3 * (50 * milliseconds)) (2 * seconds) ≤ d)
    × (d
        < min (2 ^ 3 * (50 * milliseconds)) (2 * seconds)
          + min (2 ^ 3 * (50 * milliseconds)) (2 * seconds) / 2)
backoff_duration_lem_example =
    backoff_duration_lem (λ n. pos 0) 3 (omega arith) (omega arith)
      (λ n h. (omega arith, omega arith))
