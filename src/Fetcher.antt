-- ===== src/Fetcher.antt =====
-- internal/fetcher: fetcher.go, errors.go and classify.go, the data of a fetch, the errors that a
-- fetcher returns, and their classification.
pub mod Classify
pub mod Failover
pub mod Pages
pub mod RetryAfter
pub mod Http
pub mod Provider
pub mod Sessions
pub mod Render
use serp_harvester.Prelude.{ℕ, List, [], ◌∷◌, Text, ℤ, Bool, true, false, Option, none, some, bytes}

pub record Request : Type 0 where
  pub query : Text
  pub target : Text  -- `URL`
  pub user_agent : Text
  pub proxy_url : Text
  pub country : Text
  pub language : Text
  pub device : Text
  pub wait_selector : Text

pub record Response : Type 0 where
  pub status_code : ℕ
  pub body : Text
  pub latency : ℤ
  pub content_type : Text
  pub final_url : Text

-- One error of a chain that `Unwrap` follows. `net_error` and `url_error` hold what `Timeout` says.
pub data Link : Type 0 where
  rate_limit_error : ℕ → ℤ → Text → Link
  blocked_error : Text → Text → ℕ → Text → Link
  status_error : ℕ → Link
  transport_error canceled deadline_exceeded playwright_timeout all_banned : Link
  net_error url_error : Bool → Link
  message : Text → Link

-- A non-nil error: its outermost link and the rest of the chain.
pub record Error : Type 0 where
  pub outer : Link
  pub inner : List Link

abbrev pub links : Error → List Link
links e = e.outer ∷ e.inner

-- `fmt.Errorf` with `%w`
unfoldable pub wrap : Text → Error → Error
wrap text e = record { outer = message text; inner = links e }

-- What `Fetch` returns: a response and the nil error, or an error.
pub data FetchResult : Type 0 where
  fetched : Response → FetchResult
  failed : Error → FetchResult

-- The error of a result, `none` for nil.
abbrev pub error_of : FetchResult → Option Error
error_of (fetched r) = none
error_of (failed e) = some e

pub data Outcome : Type 0 where
  success rate_limited captcha consent interstitial challenge timeout transport server_error :
      Outcome
  client_error canceled other : Outcome

-- `String`, with `outcomeNames`
unfoldable pub outcome_name : Outcome → Text
outcome_name success = bytes "success"
outcome_name rate_limited = bytes "rate_limited"
outcome_name captcha = bytes "captcha"
outcome_name consent = bytes "consent"
outcome_name interstitial = bytes "interstitial"
outcome_name challenge = bytes "challenge"
outcome_name timeout = bytes "timeout"
outcome_name transport = bytes "transport"
outcome_name server_error = bytes "http_5xx"
outcome_name client_error = bytes "http_4xx"
outcome_name Outcome.canceled = bytes "canceled"
outcome_name other = bytes "other"

-- `Retryable`
unfoldable pub is_retryable : Outcome → Bool
is_retryable success = false
is_retryable client_error = false
is_retryable Outcome.canceled = false
is_retryable _ = true

-- `Blocked`
unfoldable pub is_blocked : Outcome → Bool
is_blocked captcha = true
is_blocked interstitial = true
is_blocked challenge = true
is_blocked _ = false
