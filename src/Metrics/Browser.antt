-- ===== src/Metrics/Browser.antt =====
-- internal/metrics/browser.go: `BrowserCounters`, for a receiver that is not nil. Counters are uint64,
-- gauges int64.
use serp_harvester.Prelude.{ℕ, Text, bytes, text_eq, if◌then◌else◌, ℤ, ◌+ℤ◌, wrap64, add64}

-- `BrowserCounters`, and `BrowserSnapshot`
pub record BrowserCounters : Type 0 where
  pub launches : ℕ
  pub disconnects : ℕ
  pub navigation_timeouts : ℕ
  pub consent_handled : ℕ
  pub blocked_captcha : ℕ
  pub blocked_consent : ℕ
  pub blocked_interstitial : ℕ
  pub blocked_challenge : ℕ
  pub launch_failures : ℕ
  pub page_crashes : ℕ
  pub sessions_open : ℤ
  pub sessions_in_use : ℤ

-- `IncLaunches`
unfoldable pub inc_launches : BrowserCounters → BrowserCounters
inc_launches b = record b { launches = add64 b.launches 1 }

-- `IncDisconnects`
unfoldable pub inc_disconnects : BrowserCounters → BrowserCounters
inc_disconnects b = record b { disconnects = add64 b.disconnects 1 }

-- `IncLaunchFailures`
unfoldable pub inc_launch_failures : BrowserCounters → BrowserCounters
inc_launch_failures b = record b { launch_failures = add64 b.launch_failures 1 }

-- `IncPageCrashes`
unfoldable pub inc_page_crashes : BrowserCounters → BrowserCounters
inc_page_crashes b = record b { page_crashes = add64 b.page_crashes 1 }

-- `IncNavigationTimeouts`
unfoldable pub inc_navigation_timeouts : BrowserCounters → BrowserCounters
inc_navigation_timeouts b = record b { navigation_timeouts = add64 b.navigation_timeouts 1 }

-- `IncConsentHandled`
unfoldable pub inc_consent_handled : BrowserCounters → BrowserCounters
inc_consent_handled b = record b { consent_handled = add64 b.consent_handled 1 }

-- `IncBlocked`
unfoldable pub inc_blocked : Text → BrowserCounters → BrowserCounters
inc_blocked reason b =
    if text_eq reason (bytes "captcha")
    then record b { blocked_captcha = add64 b.blocked_captcha 1 }
    else if text_eq reason (bytes "consent")
    then record b { blocked_consent = add64 b.blocked_consent 1 }
    else if text_eq reason (bytes "challenge")
    then record b { blocked_challenge = add64 b.blocked_challenge 1 }
    else record b { blocked_interstitial = add64 b.blocked_interstitial 1 }

-- `AddSessionsOpen`
unfoldable pub add_sessions_open : ℤ → BrowserCounters → BrowserCounters
add_sessions_open delta b = record b { sessions_open = wrap64 (b.sessions_open +ℤ delta) }

-- `AddSessionsInUse`
unfoldable pub add_sessions_in_use : ℤ → BrowserCounters → BrowserCounters
add_sessions_in_use delta b = record b { sessions_in_use = wrap64 (b.sessions_in_use +ℤ delta) }
