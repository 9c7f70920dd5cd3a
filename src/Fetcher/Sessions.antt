-- ===== src/Fetcher/Sessions.antt =====
-- internal/fetcher/playwright.go: the browser and its sessions, as `PlaywrightFetcher` keeps them. A
-- function here is a section under the mutex, or a whole method when no other runs in between. The
-- Playwright driver is the record `Driver`, over a world `S`.
pub mod Launch
pub mod Conservation
pub mod Profile
use serp_harvester.Prelude.{
  ℕ, ◌+◌, ◌-◌, ◌*◌, ◌^◌, ◌==◌, min, ltb, leb, List, [], ◌∷◌, ◌++◌, Text, bytes, text_eq, Bool, true,
  false, not, ◌&&◌, ◌||◌, if◌then◌else◌, Option, none, some, ◌⊎◌, inl, inr, ℤ, pos, negsuc, ◌+ℤ◌,
  ◌-ℤ◌, leb_ℤ, ltb_ℤ, length, keep,
}
use serp_harvester.Robots.{is_empty}
use serp_harvester.Fetcher.{Request, Error, wrap, message}
use serp_harvester.Metrics.Browser.{
  BrowserCounters, inc_launches, inc_launch_failures, inc_page_crashes, inc_disconnects,
  add_sessions_open, add_sessions_in_use,
}

-- `PlaywrightConfig`
pub record PlaywrightConfig : Type 0 where
  pub endpoint : Text
  pub timeout : ℤ
  pub pool_size : ℤ
  pub max_session_uses : ℤ
  pub headless : Bool
  pub executable_path : Text
  pub wait_selector : Text
  pub generic : Bool

-- `browserSession`; `id` is the address of the object, and `crashed` is asked of the driver.
pub record Session : Type 0 where
  pub id : ℕ
  pub key : Text
  pub browser : ℕ
  pub context : ℕ
  pub uses : ℕ

-- The state of a `PlaywrightFetcher`; `slots` is how many slots are taken, `next_id` the next
-- address of a session.
pub record Pool : Type 0 where
  pub slots : ℕ
  pub browser : Option ℕ
  pub idle : List Session
  pub opened : ℤ  -- `open`
  pub launch_failures : ℕ
  pub next_launch : ℕ
  pub last_launch_err : Option Error
  pub closed : Bool
  pub counters : BrowserCounters
  pub next_id : ℕ

-- `deviceProfile`, its scale in thousandths.
pub record DeviceProfile : Type 0 where
  pub name : Text
  pub width : ℕ
  pub height : ℕ
  pub scale : ℕ
  pub mobile : Bool
  pub touch : Bool

pub record ProxySettings : Type 0 where
  pub server : Text
  pub username : Option Text
  pub password : Option Text

-- `url.Parse` of a proxy URL: scheme, host and the user's name and password.
pub record ProxyUrl : Type 0 where
  pub scheme : Text
  pub host : Text
  pub user : Option (Text × Option Text)

-- `BrowserNewContextOptions`
pub record ContextOptions : Type 0 where
  pub device : DeviceProfile
  pub user_agent : Option Text
  pub locale : Option Text
  pub proxy : Option ProxySettings

-- `crashed`, `page_closed` and `connected` are what the driver reports in a world; `start_driver` is
-- `playwright.Run`, and `drain` the wait of `Close` for the slots.
pub record Driver (S : Type 0) : Type 0 where
  pub clock : S → ℕ
  pub connected : S → ℕ → Bool
  pub crashed : S → ℕ → Bool
  pub page_closed : S → ℕ → Bool
  pub launch : PlaywrightConfig → S → (Error ⊎ ℕ) × S
  pub new_context : ℕ → ContextOptions → S → (Error ⊎ ℕ) × S
  pub add_cookies : ℕ → Text → Text → Text → S → Option Error × S
  pub new_page : ℕ → S → Option Error × S
  pub close_context : ℕ → S → S
  pub start_driver : S → Option Error × S
  pub stop_driver : S → Option Error × S
  pub close_browser : ℕ → S → Option Error × S
  pub is_target_closed : Error → Bool
  pub drain : S → S
  pub parse_proxy : Text → Option ProxyUrl
  pub to_lower : Text → Text
  pub to_upper : Text → Text

abbrev pub second : ℕ
second = 1000000000

-- The defaults of `NewPlaywrightFetcher`.
unfoldable pub with_defaults : PlaywrightConfig → PlaywrightConfig
with_defaults cfg = record cfg {
  timeout = if leb_ℤ cfg.timeout (pos 0) then pos (30 * second) else cfg.timeout;
  pool_size = if leb_ℤ cfg.pool_size (pos 0) then pos 4 else cfg.pool_size;
  max_session_uses = if leb_ℤ cfg.max_session_uses (pos 0) then pos 50 else cfg.max_session_uses;
}

-- `ErrFetcherClosed`
abbrev pub err_fetcher_closed : Error
err_fetcher_closed = record { outer = message (bytes "playwright fetcher: closed"); inner = [] }

-- `ErrBrowserUnavailable`
abbrev pub err_browser_unavailable : Error
err_browser_unavailable = record {
  outer = message (bytes "playwright fetcher: browser unavailable (launch backoff)");
  inner = [];
}

-- The wait after the launch that brings the count of failures to `failures`.
unfoldable pub launch_backoff : ℕ → ℕ
launch_backoff failures = min (second * 2 ^ min (failures - 1) 5) (30 * second)

-- `localeTag`
unfoldable pub locale_tag : (Text → Text) → Text → Text → Text
locale_tag to_upper language country =
    if is_empty language
    then []
    else if is_empty country
    then language
    else language ++ bytes "-" ++ to_upper country

abbrev pub mobile_profile : DeviceProfile
mobile_profile = record {
  name = bytes "mobile";
  width = 412;
  height = 915;
  scale = 2625;
  mobile = true;
  touch = true;
}

abbrev pub tablet_profile : DeviceProfile
tablet_profile = record {
  name = bytes "tablet";
  width = 820;
  height = 1180;
  scale = 2000;
  mobile = true;
  touch = true;
}

abbrev pub desktop_profile : DeviceProfile
desktop_profile = record {
  name = bytes "desktop";
  width = 1366;
  height = 768;
  scale = 1000;
  mobile = false;
  touch = false;
}

-- `deviceProfileFor`
unfoldable pub device_profile_for : (Text → Text) → Text → DeviceProfile
device_profile_for to_lower device =
    let d = to_lower device in
    if text_eq d (bytes "mobile")
    then mobile_profile
    else if text_eq d (bytes "tablet")
    then tablet_profile
    else desktop_profile

-- `strings.Join` with the byte 0.
unfoldable pub join_zero : List Text → Text
join_zero [] = []
join_zero (t ∷ []) = t
join_zero (t ∷ u ∷ ts) = t ++ 0 ∷ join_zero (u ∷ ts)

-- How a loop over the idle sessions splits them: those that died, the one to reuse, the others.
pub record Sifted : Type 0 where
  pub stale : List Session
  pub reuse : Option Session
  pub kept : List Session

-- The loop of `acquire`, with the session to reuse so far.
unfoldable pub sift : (Session → Bool) → (Session → Bool) → Option Session → List Session → Sifted
sift dead fits reuse [] = record { stale = []; reuse = reuse; kept = [] }
sift dead fits (some r) (s ∷ ss) =
    let rest = sift dead fits (some r) ss in
    if dead s then record rest { stale = s ∷ rest.stale } else record rest { kept = s ∷ rest.kept }
sift dead fits none (s ∷ ss) =
    let rest = sift dead fits none ss in
    let taken = sift dead fits (some s) ss in
    if dead s
    then record rest { stale = s ∷ rest.stale }
    else if fits s
    then taken
    else record rest { kept = s ∷ rest.kept }

-- The session to evict, and the idle sessions without it.
unfoldable pub evict : Bool → List Session → Option Session × List Session
evict true (s ∷ ss) = (some s, ss)
evict full ss = (none, ss)

unfoldable pub one_if : Option Session → ℤ
one_if none = pos 0
one_if (some s) = pos 1

unfoldable pub sessions_of : Option Session → List Session
sessions_of none = []
sessions_of (some s) = s ∷ []

unfoldable pub is_browser : Option ℕ → ℕ → Bool
is_browser none b = false
is_browser (some c) b = b == c

pub data Acquired : Type 0 where
  session : Session → Acquired
  refusal : Error → Acquired

module _ {S : Type 0} (driver : Driver S) (cfg : PlaywrightConfig) where
  -- `sessionKey`
  unfoldable pub session_key : Request → Text
  session_key req = join_zero (
      req.proxy_url
      ∷ req.user_agent
      ∷ locale_tag driver.to_upper req.language req.country
      ∷ (device_profile_for driver.to_lower req.device).name
      ∷ [])

  unfoldable pub settings_of : Option ProxyUrl → Option ProxySettings
  settings_of none = none
  settings_of (some u) =
      if is_empty u.host
      then none
      else some (record {
        server = u.scheme ++ bytes "://" ++ u.host;
        username = elim u.user [ none ↦ none | some (name, pass) ↦ some name ];
        password = elim u.user [ none ↦ none | some (name, pass) ↦ pass ];
      })

  -- `proxySettings`; `none` is an error.
  unfoldable pub proxy_settings : Text → Option ProxySettings
  proxy_settings url = settings_of (driver.parse_proxy url)

  -- `closeSession`, for each of a list.
  unfoldable pub close_sessions : List Session → BrowserCounters → S → BrowserCounters × S
  close_sessions [] b w = (b, w)
  close_sessions (s ∷ ss) b w =
      close_sessions ss (add_sessions_open (negsuc 0) b) (driver.close_context s.context w)

  -- The sessions of a dead browser are dropped.
  unfoldable pub drop_count : List Session → BrowserCounters → BrowserCounters
  drop_count [] b = b
  drop_count (s ∷ ss) b = drop_count ss (add_sessions_open (negsuc 0) b)

  unfoldable pub drop_dead : Option ℕ → Pool → Pool
  drop_dead none p = p
  drop_dead (some b) p =
      let dropped = keep (λ s. s.browser == b) p.idle in
      record p {
        idle = keep (λ s. not (s.browser == b)) p.idle;
        opened = p.opened -ℤ pos (length dropped);
        counters = drop_count dropped p.counters;
      }

  unfoldable pub on_launch : Pool → S → Error ⊎ ℕ → (Error ⊎ ℕ) × Pool
  on_launch p w (inl e) = (
    inl (wrap (bytes "playwright fetcher: launch chromium: ") e),
    record p {
      launch_failures = p.launch_failures + 1;
      next_launch = driver.clock w + launch_backoff (p.launch_failures + 1);
      last_launch_err = some e;
      counters = inc_launch_failures p.counters;
    },
  )
  on_launch p w (inr b) = (
    inr b,
    record p {
      launch_failures = 0;
      next_launch = 0;
      last_launch_err = none;
      browser = some b;
      counters = inc_launches p.counters;
    },
  )

  unfoldable pub launch_browser : Pool → S → (Error ⊎ ℕ) × Pool × S
  launch_browser p w =
      let (launched, w') = driver.launch cfg w in
      let (result, p') = on_launch p w' launched in (result, p', w')

  -- `browserLocked`, when no connected browser is at hand.
  unfoldable pub relaunch : Pool → S → (Error ⊎ ℕ) × Pool × S
  relaunch p w =
      if p.closed
      then (inl err_fetcher_closed, p, w)
      else if ltb (driver.clock w) p.next_launch
      then (inl (wrap (bytes "last launch error: ") err_browser_unavailable), p, w)
      else launch_browser (drop_dead p.browser p) w

  unfoldable pub browser_or : Option ℕ → Pool → S → (Error ⊎ ℕ) × Pool × S
  browser_or none p w = relaunch p w
  browser_or (some b) p w = if driver.connected w b then (inr b, p, w) else relaunch p w

  -- `browserLocked`
  unfoldable pub browser_locked : Pool → S → (Error ⊎ ℕ) × Pool × S
  browser_locked p w = browser_or p.browser p w

  unfoldable pub some_nonempty : Text → Option Text
  some_nonempty t = if is_empty t then none else some t

  unfoldable pub context_options : Request → Option ProxySettings → ContextOptions
  context_options req proxy = record {
    device = device_profile_for driver.to_lower req.device;
    user_agent = some_nonempty req.user_agent;
    locale = some_nonempty (locale_tag driver.to_upper req.language req.country);
    proxy = proxy;
  }

  unfoldable pub page_of : ℕ → Option Error × S → (Error ⊎ ℕ) × S
  page_of context (none, w) = (inr context, w)
  page_of context (some e, w) =
      (inl (wrap (bytes "playwright fetcher: new page: ") e), driver.close_context context w)

  unfoldable pub after_cookies : ℕ → Option Error × S → (Error ⊎ ℕ) × S
  after_cookies context (none, w) = page_of context (driver.new_page context w)
  after_cookies context (some e, w) = (
    inl (wrap (bytes "playwright fetcher: seed consent cookie: ") e),
    driver.close_context context w,
  )

  unfoldable pub after_context : Error ⊎ ℕ → S → (Error ⊎ ℕ) × S
  after_context (inl e) w = (inl (wrap (bytes "playwright fetcher: new browser context: ") e), w)
  after_context (inr context) w =
      if not cfg.generic && not (is_empty cfg.endpoint)
      then after_cookies context
          (driver.add_cookies context (bytes "CONSENT") (bytes "YES+") cfg.endpoint w)
      else page_of context (driver.new_page context w)

  unfoldable pub open_context : ℕ → Request → Option ProxySettings → S → (Error ⊎ ℕ) × S
  open_context browser req proxy w =
      let (x, w') = driver.new_context browser (context_options req proxy) w in after_context x w'

  unfoldable pub with_proxy : ℕ → Request → Option ProxySettings → S → (Error ⊎ ℕ) × S
  with_proxy browser req none w = (
    inl (record {
      outer = message (bytes "playwright fetcher: invalid proxy url " ++ req.proxy_url);
      inner = [];
    }),
    w,
  )
  with_proxy browser req (some p) w = open_context browser req (some p) w

  -- `newSession`: the context of the session, or an error.
  unfoldable pub new_session : ℕ → Request → S → (Error ⊎ ℕ) × S
  new_session browser req w =
      if is_empty req.proxy_url
      then open_context browser req none w
      else with_proxy browser req (proxy_settings req.proxy_url) w

  unfoldable pub on_session : ℕ → Text → Error ⊎ ℕ → Pool → Acquired × Pool
  on_session browser key (inl e) p =
      (refusal e, record p { opened = p.opened -ℤ pos 1; slots = p.slots - 1 })
  on_session browser key (inr context) p = (
    session (record { id = p.next_id; key = key; browser = browser; context = context; uses = 0 }),
    record p { counters = add_sessions_open (pos 1) p.counters; next_id = p.next_id + 1 },
  )

  -- `acquire`, where no idle session fits.
  unfoldable pub open_session : ℕ → Request → List Session → Pool → S → Acquired × Pool × S
  open_session browser req stale p w =
      let (evicted, idle) = evict (leb_ℤ cfg.pool_size p.opened) p.idle in
      let (b, w₁) = close_sessions (stale ++ sessions_of evicted) p.counters w in
      let (made, w₂) = new_session browser req w₁ in
      let (result, p') =
        on_session browser (session_key req) made
          (record p { idle = idle; opened = p.opened -ℤ one_if evicted +ℤ pos 1; counters = b }) in
      (result, p', w₂)

  unfoldable pub choose : ℕ → Request → Sifted → Pool → S → Acquired × Pool × S
  choose browser req x p w = elim x.reuse [
    | none ↦ open_session browser req x.stale p w
    | some s ↦
        let (b, w') = close_sessions x.stale p.counters w in
        (session s, record p { counters = b }, w')
  ]

  unfoldable pub is_dead : S → Session → Bool
  is_dead w s = driver.crashed w s.id || driver.page_closed w s.context

  unfoldable pub fits : Text → ℕ → Session → Bool
  fits key browser s = text_eq s.key key && (s.browser == browser)

  unfoldable pub with_browser : Request → Error ⊎ ℕ → Pool → S → Acquired × Pool × S
  with_browser req (inl e) p w = (refusal e, record p { slots = p.slots - 1 }, w)
  with_browser req (inr b) p w =
      let x = sift (is_dead w) (fits (session_key req) b) none p.idle in
      choose b req x (record p { idle = x.kept; opened = p.opened -ℤ pos (length x.stale) }) w

  -- `acquire`, from the moment that it has its slot.
  unfoldable pub acquire : Request → Pool → S → Acquired × Pool × S
  acquire req p w =
      let p' : Pool = record p { slots = p.slots + 1 } in
      if p.closed
      then (refusal err_fetcher_closed, p, w)
      else (let (b, p'', w') = browser_locked p' w in with_browser req b p'' w')

  -- `keep`, for a session whose use is counted.
  unfoldable pub is_kept : Bool → Session → Pool → S → Bool
  is_kept healthy s p w =
      healthy
      && not p.closed
      && not (driver.crashed w s.id)
      && ltb_ℤ (pos s.uses) cfg.max_session_uses
      && is_browser p.browser s.browser
      && driver.connected w s.browser

  unfoldable pub put_back : Bool → Session → Pool → S → Pool × S
  put_back true s p w = (record p { idle = p.idle ++ s ∷ []; slots = p.slots - 1 }, w)
  put_back false s p w =
      let (b, w') = close_sessions (s ∷ []) p.counters w in
      (record p { opened = p.opened -ℤ pos 1; counters = b; slots = p.slots - 1 }, w')

  -- `release`
  unfoldable pub release : Bool → Session → Pool → S → Pool × S
  release healthy s p w =
      let used : Session = record s { uses = s.uses + 1 } in
      put_back (is_kept healthy used p w) used
        (record p { counters = add_sessions_in_use (negsuc 0) p.counters }) w

  -- `Close`, its first section: the idle sessions.
  unfoldable pub close_idle : Pool → S → Pool × S
  close_idle p w =
      let (b, w') = close_sessions p.idle p.counters w in
      (
        record p {
          closed = true;
          idle = [];
          opened = p.opened -ℤ pos (length p.idle);
          counters = b;
        },
        w',
      )

  unfoldable pub close_error : Option Error → Option Error
  close_error none = none
  close_error (some e) =
      if driver.is_target_closed e
      then none
      else some (wrap (bytes "playwright fetcher: close browser: ") e)

  unfoldable pub close_browser : Option ℕ → S → Option Error × S
  close_browser none w = (none, w)
  close_browser (some b) w = let (e, w') = driver.close_browser b w in (close_error e, w')

  unfoldable pub stop_error : Option Error → Option Error → Option Error
  stop_error (some e) stopped = some e
  stop_error none none = none
  stop_error none (some e) = some (wrap (bytes "playwright fetcher: stop driver: ") e)

  unfoldable pub shut_down : Option Error × S → Option Error × S
  shut_down (e, w) = let (stopped, w') = driver.stop_driver w in (stop_error e stopped, w')

  -- `Close`; only the first call does anything.
  unfoldable pub close : Pool → S → Option Error × Pool × S
  close p w =
      let (p', w₁) = close_idle p w in
      let (e, w₂) = shut_down (close_browser p'.browser (driver.drain w₁)) in
      if p.closed then (none, p, w) else (e, p', w₂)

  -- `onPageCrash`; the flag is the driver's report.
  unfoldable pub on_page_crash : Pool → Pool
  on_page_crash p = record p { counters = inc_page_crashes p.counters }

  -- `OnDisconnected`
  unfoldable pub on_disconnected : Pool → Pool
  on_disconnected p = if p.closed then p else record p { counters = inc_disconnects p.counters }

  -- The fetcher before its first launch.
  unfoldable pub empty_pool : BrowserCounters → Pool
  empty_pool counters = record {
    slots = 0;
    browser = none;
    idle = [];
    opened = pos 0;
    launch_failures = 0;
    next_launch = 0;
    last_launch_err = none;
    closed = false;
    counters = counters;
    next_id = 0;
  }

  unfoldable pub launched : (Error ⊎ ℕ) × Pool × S → (Error ⊎ Pool) × S
  launched (inl e, p, w) = (inl e, (driver.stop_driver w).1)
  launched (inr b, p, w) = (inr p, w)

  unfoldable pub started : BrowserCounters → Option Error × S → (Error ⊎ Pool) × S
  started counters (some e, w) = (inl (wrap (bytes "playwright fetcher: start driver: ") e), w)
  started counters (none, w) = launched (browser_locked (empty_pool counters) w)

-- `NewPlaywrightFetcher`: the configuration with its defaults, and the fetcher or an error.
unfoldable pub new_playwright_fetcher :
    {S : Type 0}
    → Driver S
    → PlaywrightConfig
    → BrowserCounters
    → S
    → PlaywrightConfig × (Error ⊎ Pool) × S
new_playwright_fetcher driver cfg counters w =
    if is_empty cfg.endpoint && not cfg.generic
    then (
      cfg,
      inl (record {
        outer =
            message
              (bytes "playwright fetcher: endpoint is required (or Generic, for URL fetches)");
        inner = [];
      }),
      w,
    )
    else (let (r, w') = started driver (with_defaults cfg) counters (driver.start_driver w) in
        (with_defaults cfg, r, w'))
