-- ===== src/Fetcher/Render.antt =====
-- internal/fetcher/playwright.go: `Fetch`, `render` and the consent step, over the sessions of
-- Sessions.antt. What a page does is the record `Pages`, over the driver's world.
pub mod Verdict
use serp_harvester.Prelude.{
  ℕ, ◌+◌, ◌-◌, ◌/◌, ◌==◌, max, leb, List, [], ◌∷◌, ◌++◌, Text, bytes, text_eq, Bool, true, false,
  not, ◌&&◌, ◌||◌, if◌then◌else◌, Option, none, some, ◌⊎◌, inl, inr, ℤ, pos, negsuc, sub_ℕ,
  add_time, take, insert, length,
}
use serp_harvester.Robots.{contains, is_empty}
use serp_harvester.Fetcher.{
  Request, Response, Error, Link, links, wrap, message, FetchResult, fetched, failed,
  rate_limit_error, status_error, transport_error, playwright_timeout,
}
use serp_harvester.Fetcher.Classify.{any_link}
use serp_harvester.Fetcher.Pages.{
  PageKind, normal, consent, captcha, interstitial, challenge, Html, truncate, blocked_reason,
  blocked_error_for, classify_page, classify_generic_page,
}
use serp_harvester.Fetcher.RetryAfter.{parse_retry_after}
use serp_harvester.Fetcher.Http.{max_body_bytes, search_values}
use serp_harvester.Fetcher.Sessions.{
  PlaywrightConfig, Session, Pool, Driver, Acquired, session, refusal, acquire, release,
}
use serp_harvester.Metrics.Browser.{
  BrowserCounters, inc_navigation_timeouts, inc_consent_handled, inc_blocked, add_sessions_in_use,
}

-- A response of a navigation; a header that cannot be read is "".
pub record Landed : Type 0 where
  pub status : ℕ
  pub content_type : Text
  pub retry_after : Text

-- The page after the navigations: the last response, and the DOM as HTML.
pub record Shown : Type 0 where
  pub response : Option Landed
  pub content_type : Text
  pub html : Text

-- What a click on the submit control of the "reject all" form leads to.
pub data Click : Type 0 where
  no_button : Click
  click_error : Error → Click
  navigated : Option Landed → Click

-- `goto context url ms`, `wait_for context selector ms` and `click_reject context ms` are calls of
-- Playwright; `ended` is the error of the fetch's context, when it ends before `render` returns;
-- `search` is `url.Parse` of the endpoint with the values set in its query.
pub record Pages (S D : Type 0) : Type 0 where
  pub html : Html D
  pub clock : S → ℕ
  pub goto : ℕ → Text → ℕ → S → (Error ⊎ Option Landed) × S
  pub content : ℕ → S → (Error ⊎ Text) × S
  pub page_url : ℕ → S → Text
  pub click_reject : ℕ → ℕ → S → Click × S
  pub wait_for : ℕ → Text → ℕ → S → Bool × S
  pub error_text : Error → Text
  pub parse_time : Text → Option ℕ
  pub search : Text → List (Text × Text) → Error ⊎ Text
  pub ended : S → Option Error

unfoldable pub is_playwright_timeout : Link → Bool
is_playwright_timeout playwright_timeout = true
is_playwright_timeout l = false

-- The `status` of a response, 0 for nil.
unfoldable pub status_of : Option Landed → ℕ
status_of none = 0
status_of (some r) = r.status

unfoldable pub content_type_of : Option Landed → Text
content_type_of none = []
content_type_of (some r) = r.content_type

unfoldable pub retry_after_of : Option Landed → Text
retry_after_of none = []
retry_after_of (some r) = r.retry_after

-- `searchURL`, with the error of `url.Parse` wrapped.
unfoldable pub search_url : Error ⊎ Text → Error ⊎ Text
search_url (inl e) = inl (wrap (bytes "playwright fetcher: invalid endpoint: ") e)
search_url (inr u) = inr u

-- `remainingMS`: at least 1, also past the deadline.
unfoldable pub remaining_ms : ℕ → ℕ → ℕ
remaining_ms deadline now = max 1 ((deadline - now) / 1000000)

-- `IncBlocked`, for the reason of a page kind.
unfoldable pub count_blocked : PageKind → BrowserCounters → BrowserCounters
count_blocked kind b = elim (blocked_reason kind) [ none ↦ b | some reason ↦ inc_blocked reason b ]

unfoldable pub is_fetched : FetchResult → Bool
is_fetched (fetched r) = true
is_fetched (failed e) = false

abbrev pub Outcome : Type 0 → Type 0
Outcome S = FetchResult × BrowserCounters × S

module _ {S D : Type 0} (driver : Driver S) (pages : Pages S D) (cfg : PlaywrightConfig) where
  -- `classify`
  unfoldable pub classify : Text → ℕ → Text → PageKind
  classify page_url status html =
      if cfg.generic
      then classify_generic_page pages.html page_url status html
      else classify_page pages.html page_url html

  -- `navigationError`
  unfoldable pub navigation_error : Error → BrowserCounters → Error × BrowserCounters
  navigation_error e b =
      if any_link is_playwright_timeout (links e)
      then (wrap (bytes "playwright fetcher: navigation timed out") e, inc_navigation_timeouts b)
      else if contains (pages.error_text e) (bytes "net::ERR_")
      then (
        record {
          outer = transport_error;
          inner = links (wrap (bytes "playwright fetcher: navigation failed: ") e);
        },
        b,
      )
      else (wrap (bytes "playwright fetcher: navigation failed: ") e, b)

  unfoldable pub navigation_failed : Error → BrowserCounters → S → Outcome S
  navigation_failed e b w = let (e', b') = navigation_error e b in (failed e', b', w)

  unfoldable pub content_failed : Error → BrowserCounters → S → Outcome S
  content_failed e b w = (failed (wrap (bytes "playwright fetcher: read page content: ") e), b, w)

  -- The response that `render` returns.
  unfoldable pub rendered : Session → ℕ → Shown → S → FetchResult
  rendered s start shown w =
      let status = status_of shown.response in
      fetched (record {
        status_code = if status == 0 then 200 else status;
        body = truncate shown.html max_body_bytes;
        latency = sub_ℕ (pages.clock w) start;
        content_type = shown.content_type;
        final_url = pages.page_url s.context w;
      })

  unfoldable pub after_wait : Session → ℕ → Shown → BrowserCounters → (Error ⊎ Text) × S → Outcome S
  after_wait s start shown b (inl e, w) = content_failed e b w
  after_wait s start shown b (inr html, w) =
      (rendered s start (record shown { html = html }) w, b, w)

  unfoldable pub on_selector : Session → ℕ → Shown → BrowserCounters → Bool × S → Outcome S
  on_selector s start shown b (false, w) = (rendered s start shown w, b, w)
  on_selector s start shown b (true, w) = after_wait s start shown b (pages.content s.context w)

  -- The wait for the selector of the request, or that of the configuration.
  unfoldable pub await_selector :
      Session → Request → ℕ → ℕ → Shown → BrowserCounters → S → Outcome S
  await_selector s req start deadline shown b w =
      let selector = if is_empty req.wait_selector then cfg.wait_selector else req.wait_selector in
      if is_empty selector
      then (rendered s start shown w, b, w)
      else on_selector s start shown b
          (pages.wait_for s.context selector (remaining_ms deadline (pages.clock w)) w)

  unfoldable pub by_status : Session → Request → ℕ → ℕ → Shown → BrowserCounters → S → Outcome S
  by_status s req start deadline shown b w =
      let status = status_of shown.response in
      if status == 429
      then (
        failed (record {
          outer =
              rate_limit_error 429
                (parse_retry_after pages.parse_time (pages.clock w)
                  (retry_after_of shown.response)).0
                (truncate shown.html 512);
          inner = [];
        }),
        b,
        w,
      )
      else if leb 400 status
      then (failed (record { outer = status_error status; inner = [] }), b, w)
      else await_selector s req start deadline shown b w

  unfoldable pub by_block :
      Session → Request → ℕ → ℕ → PageKind → Shown → Option Error → BrowserCounters → S → Outcome S
  by_block s req start deadline kind shown (some e) b w = (failed e, count_blocked kind b, w)
  by_block s req start deadline kind shown none b w = by_status s req start deadline shown b w

  -- From `blockedErrorFor` on.
  unfoldable pub by_kind :
      Session → Request → ℕ → ℕ → PageKind → Shown → BrowserCounters → S → Outcome S
  by_kind s req start deadline kind shown b w =
      by_block s req start deadline kind shown
        (blocked_error_for kind (pages.page_url s.context w) (status_of shown.response) shown.html)
        b w

  unfoldable pub after_consent :
      Session
      → Request
      → ℕ
      → ℕ
      → Text
      → Option Landed
      → BrowserCounters
      → (Error ⊎ Text) × S
      → Outcome S
  after_consent s req start deadline content_type next b (inl e, w) = content_failed e b w
  after_consent s req start deadline content_type next b (inr html, w) =
      by_kind s req start deadline (classify (pages.page_url s.context w) (status_of next) html)
        (record { response = next; content_type = content_type; html = html }) b w

  -- After `submitRejectConsent`.
  unfoldable pub on_click :
      Session → Request → ℕ → ℕ → Shown → BrowserCounters → Click × S → Outcome S
  on_click s req start deadline shown b (click_error e, w) = navigation_failed e b w
  on_click s req start deadline shown b (no_button, w) =
      by_block s req start deadline consent shown
        (blocked_error_for consent (pages.page_url s.context w) (status_of shown.response)
          shown.html)
        b w
  on_click s req start deadline shown b (navigated next, w) =
      after_consent s req start deadline shown.content_type next (inc_consent_handled b)
        (pages.content s.context w)

  unfoldable pub on_kind :
      Session → Request → ℕ → ℕ → PageKind → Shown → BrowserCounters → S → Outcome S
  on_kind s req start deadline consent shown b w =
      on_click s req start deadline shown b
        (pages.click_reject s.context (remaining_ms deadline (pages.clock w)) w)
  on_kind s req start deadline kind shown b w = by_kind s req start deadline kind shown b w

  unfoldable pub on_content :
      Session → Request → ℕ → ℕ → Option Landed → BrowserCounters → (Error ⊎ Text) × S → Outcome S
  on_content s req start deadline response b (inl e, w) = content_failed e b w
  on_content s req start deadline response b (inr html, w) =
      on_kind s req start deadline (classify (pages.page_url s.context w) (status_of response) html)
        (record { response = response; content_type = content_type_of response; html = html }) b w

  unfoldable pub on_goto :
      Session → Request → ℕ → ℕ → BrowserCounters → (Error ⊎ Option Landed) × S → Outcome S
  on_goto s req start deadline b (inl e, w) = navigation_failed e b w
  on_goto s req start deadline b (inr response, w) =
      on_content s req start deadline response b (pages.content s.context w)

  unfoldable pub go_to : Session → Request → ℕ → ℕ → Error ⊎ Text → BrowserCounters → S → Outcome S
  go_to s req start deadline (inl e) b w = (failed e, b, w)
  go_to s req start deadline (inr target) b w =
      on_goto s req start deadline b
        (pages.goto s.context target (remaining_ms deadline (pages.clock w)) w)

  -- The page to load.
  unfoldable pub target_of : Request → Error ⊎ Text
  target_of req =
      if is_empty req.target
      then if is_empty cfg.endpoint
        then inl (record {
          outer =
              message (bytes "playwright fetcher: request has no URL and the fetcher no endpoint");
          inner = [];
        })
        else search_url (pages.search cfg.endpoint (search_values req))
      else inr req.target

  -- `render`
  unfoldable pub render : Session → Request → BrowserCounters → S → Outcome S
  render s req b w =
      let start = pages.clock w in
      go_to s req start (add_time start cfg.timeout) (target_of req) b w

  -- The `select` after `render` was started.
  unfoldable pub finish : Session → FetchResult → Option Error → Pool → S → FetchResult × Pool × S
  finish s r none p w = let (p', w') = release driver cfg (is_fetched r) s p w in (r, p', w')
  finish s r (some e) p w =
      let (p', w') = release driver cfg false s p (driver.close_context s.context w) in
      (failed e, p', w')

  unfoldable pub with_session : Request → Acquired → Pool → S → FetchResult × Pool × S
  with_session req (refusal e) p w = (failed e, p, w)
  with_session req (session s) p w =
      let (r, b, w') = render s req (add_sessions_in_use (pos 1) p.counters) w in
      finish s r (pages.ended w') (record p { counters = b }) w'

  -- `Fetch`, from the moment that it has its slot.
  unfoldable pub fetch_browser : Request → Pool → S → FetchResult × Pool × S
  fetch_browser req p w = let (x, p', w') = acquire driver cfg req p w in with_session req x p' w'
