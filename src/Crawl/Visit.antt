-- ===== src/Crawl/Visit.antt =====
-- internal/crawl/crawler.go: `visit`, one URL from its robots.txt to the links to follow. The rules of
-- robots.Cache and the timer of a crawl delay come from the record `Site`.
pub mod Counting
use serp_harvester.Prelude.{
  ℕ, ◌+◌, ltb_ℤ, List, [], ◌∷◌, ◌++◌, Text, bytes, text_eq, Bool, true, false, not, ◌&&◌,
  if◌then◌else◌, Option, none, some, ℤ, pos, ◌+ℤ◌, wrap64, Float,
}
use serp_harvester.Robots.{Rules, allowed, is_empty}
use serp_harvester.Model.{Page}
use serp_harvester.Extract.{Dom, Value, links, page}
use serp_harvester.Proxy.{Proxy, key}
use serp_harvester.Limiter.{Buckets}
use serp_harvester.Metrics.{
  Counters, inc_success, inc_dropped, inc_robots_disallowed, inc_calibration_flagged,
}
use serp_harvester.Fetcher.{Request, Response, Error, message}
use serp_harvester.Fetcher.Pages.{is_html}
use serp_harvester.Worker.{
  Env, Config, World, Task, Acquired, acquired, dropped, panicked, unfinished, count,
}
use serp_harvester.Worker.Acquire.{acquire}
use serp_harvester.Worker.Process.{milliseconds_of, if_present}
use serp_harvester.Worker.Process.Locale.{locale_country, locale_language}
use serp_harvester.Crawl.Frontier.{Job}
use serp_harvester.Crawl.Target.{Address, Urls, Scope, no_text, normalize, follows}

-- The counts of `Stats` that a visit raises, int64.
pub record Stats : Type 0 where
  pub fetched : ℤ
  pub failed : ℤ
  pub robots_disallow : ℤ
  pub flagged : ℤ

-- The variables `page` and `follow`.
pub record Visited : Type 0 where
  pub page : Option (Page Value)
  pub follow : List Text

-- `rules` is `Cache.For`, and `wait_delay` is `waitCrawlDelay`, `false` when the context ends;
-- both may take time in the worker's world.
pub record Site (R X K : Type 0) : Type 0 where
  pub escaped_path : Address R → Text
  pub raw_query : Address R → Text
  pub host : Address R → Text
  pub rules : Address R → X → Rules × X
  pub wait_delay : Text → ℤ → X → Bool × X
  pub write_page : Page Value → K → K × Option Error
  pub run_id : Text

-- What a visit leaves: the world, the sink, the counts, and the jobs to queue; `crashed` is a
-- panic.
pub record Trip (X K : Type 0) : Type 0 where
  pub world : X
  pub sink : K
  pub stats : Stats
  pub next : List Job
  pub crashed : Bool

unfoldable pub plus_one : ℤ → ℤ
plus_one n = wrap64 (n +ℤ pos 1)

-- `query`
unfoldable pub query_of : Text → Text
query_of raw = if is_empty raw then [] else bytes "?" ++ raw

unfoldable pub final_of : Job → Response → Text
final_of j resp = if is_empty resp.final_url then j.url else resp.final_url

-- An empty `model.Page`.
abbrev pub empty_page : Page Value
empty_page = record {
  target = [];
  run_id = [];
  url = [];
  final_url = [];
  depth = pos 0;
  status_code = pos 0;
  content_type = [];
  fetched_at = 0;
  latency_ms = pos 0;
  proxy_used = [];
  title = [];
  description = [];
  canonical = [];
  language = [];
  headings = [];
  open_graph = [];
  json_ld = [];
  text = [];
  links = [];
  fields = [];
  items = [];
  extraction = none;
  raw_body = [];
}

abbrev pub extract_error : Error
extract_error = record { outer = message (bytes "extract"); inner = [] }

module _ {R U N : Type 0} (urls : Urls R) (dom : Dom U N) where
  unfoldable pub links_of : Option U → Option N → Text → List Text
  links_of (some base) (some doc) selector = links dom base doc selector
  links_of base doc selector = []

  -- `followLinks`; the links of a page without any are nil.
  unfoldable pub follow_links : Text → Text → Text → List Text → List Text
  follow_links page_url body selector extracted =
      if text_eq selector (bytes "a[href]") && not (no_text extracted)
      then extracted
      else links_of (dom.parse_url page_url) (dom.document body) selector

  unfoldable pub job_of_link : Scope → ℕ → Option (Address R) → List Job → List Job
  job_of_link s depth none rest = rest
  job_of_link s depth (some u) rest =
      let n = normalize urls dom u in
      if follows urls dom s n then record { url = n; depth = depth + 1 } ∷ rest else rest

  -- The loop over `follow`.
  unfoldable pub next_jobs : Scope → ℕ → List Text → List Job
  next_jobs s depth [] = []
  next_jobs s depth (l ∷ ls) = job_of_link s depth (urls.parse l) (next_jobs s depth ls)

  -- The page and the links of an HTML document.
  unfoldable pub read_html : Scope → Job → Response → Page Value → Visited
  read_html s j resp p = record {
    page =
        some
          (record p { raw_body = elim p.extraction [ none ↦ p.raw_body | some note ↦ resp.body ] });
    follow =
        if ltb_ℤ (pos j.depth) s.target.max_depth
        then follow_links (final_of j resp) resp.body s.target.follow p.links
        else [];
  }

  -- The fields that are set for every page.
  unfoldable pub stamp_page :
      {W : Type 0} → Scope → Text → Job → ℕ → Response → Proxy W → Page Value → Page Value
  stamp_page s run_id j now resp px p = record p {
    target = s.target.name;
    run_id = run_id;
    url = j.url;
    depth = pos j.depth;
    final_url = if text_eq (final_of j resp) j.url then p.final_url else final_of j resp;
    status_code = pos resp.status_code;
    content_type = resp.content_type;
    fetched_at = now;
    latency_ms = milliseconds_of resp.latency;
    proxy_used = key px;
  }

  unfoldable pub stamped :
      {W : Type 0} → Scope → Text → Job → ℕ → Response → Proxy W → Visited → Visited
  stamped s run_id j now resp px v = record v {
    page = elim v.page [ none ↦ none | some p ↦ some (stamp_page s run_id j now resp px p) ];
  }

  unfoldable pub extracted :
      {W : Type 0}
      → Scope
      → Text
      → Job
      → ℕ
      → Response
      → Proxy W
      → Visited
      → Option (Page Value)
      → Visited × Option Error
  extracted s run_id j now resp px v none = (v, some extract_error)
  extracted s run_id j now resp px v (some p) =
      (stamped s run_id j now resp px (read_html s j resp p), none)

  -- `use`
  unfoldable pub keep_page :
      {W : Type 0} → Scope → Text → Job → ℕ → Response → Proxy W → Visited → Visited × Option Error
  keep_page s run_id j now resp px v =
      if is_html resp.content_type
      then extracted s run_id j now resp px v
          (page dom (final_of j resp) resp.body s.target.extract)
      else (stamped s run_id j now resp px (record v { page = some empty_page }), none)

-- `rateByHost`
unfoldable pub rate_by_host :
    {W R : Type 0} → Urls R → (Address R → Text) → Proxy W → Request → Text
rate_by_host urls host p req = elim (urls.parse req.target) [
  | none ↦ req.target
  | some u ↦ urls.to_lower (host u)
]

module _ {W B S R U N K : Type 0} ⦃f : Float W⦄ (k : Buckets W B) (env : Env W B S) (fuel : ℕ)
    (urls : Urls R) (dom : Dom U N) (site : Site R (World W B S Visited) K) where
  unfoldable pub page_task : Config → Scope → Job → Task W Visited
  page_task cfg s j = record {
    build = λ t p. record {
      query = [];
      target = j.url;
      user_agent = cfg.user_agent;
      proxy_url = p.url;
      country = locale_country s.target.locale;
      language = locale_language s.target.locale;
      device = s.target.device;
      wait_selector = s.target.wait_selector;
    };
    rate_key = some (rate_by_host urls site.host);
    consume = λ t resp p v. keep_page urls dom s site.run_id j (env.clock t 0) resp p v;
  }

  unfoldable pub stay : World W B S Visited → K → Stats → Trip (World W B S Visited) K
  stay w sink stats = record { world = w; sink = sink; stats = stats; next = []; crashed = false }

  -- After `Acquire` returned nil; a nil page would be a panic.
  unfoldable pub arrive :
      Scope
      → Job
      → World W B S Visited
      → K
      → Stats
      → Option (Page Value)
      → Trip (World W B S Visited) K
  arrive s j w sink stats none = record (stay w sink stats) { crashed = true }
  arrive s j w sink stats (some p) = record {
    world = count (λ c. if_present p.extraction inc_calibration_flagged (inc_success c)) w;
    sink = (site.write_page p sink).0;
    stats = record stats {
      fetched = plus_one stats.fetched;
      flagged = elim p.extraction [ none ↦ stats.flagged | some note ↦ plus_one stats.flagged ];
    };
    next = next_jobs urls dom s j.depth w.user.follow;
    crashed = false;
  }

  unfoldable pub after_acquire :
      Scope → Job → K → Stats → World W B S Visited × Acquired → Trip (World W B S Visited) K
  after_acquire s j sink stats (w, acquired) = arrive s j w sink stats w.user.page
  after_acquire s j sink stats (w, dropped d) =
      if d.is_canceled
      then stay w sink stats
      else stay (count inc_dropped w) sink (record stats { failed = plus_one stats.failed })
  after_acquire s j sink stats (w, panicked) = record (stay w sink stats) { crashed = true }
  after_acquire s j sink stats (w, unfinished) = record (stay w sink stats) { crashed = true }

  unfoldable pub fetch_page :
      Config → Scope → Job → World W B S Visited → K → Stats → Trip (World W B S Visited) K
  fetch_page cfg s j w sink stats = after_acquire s j sink stats (
      acquire k env fuel cfg (page_task cfg s j)
        (record w { user = record { page = none; follow = [] } }))

  unfoldable pub after_delay :
      Config → Scope → Job → K → Stats → Bool × World W B S Visited → Trip (World W B S Visited) K
  after_delay cfg s j sink stats (true, w) = fetch_page cfg s j w sink stats
  after_delay cfg s j sink stats (false, w) = stay w sink stats

  unfoldable pub under_rules :
      Config
      → Scope
      → Job
      → Address R
      → Rules
      → World W B S Visited
      → K
      → Stats
      → Trip (World W B S Visited) K
  under_rules cfg s j u rules w sink stats =
      if allowed rules (site.escaped_path u ++ query_of (site.raw_query u))
      then if ltb_ℤ (pos 0) rules.crawl_delay
        then after_delay cfg s j sink stats
            (site.wait_delay (urls.to_lower (site.host u)) rules.crawl_delay w)
        else fetch_page cfg s j w sink stats
      else stay (count inc_robots_disallowed w) sink
          (record stats { robots_disallow = plus_one stats.robots_disallow })

  unfoldable pub obeys : Option Bool → Bool
  obeys none = false
  obeys (some b) = b

  unfoldable pub visit_address :
      Config
      → Scope
      → Job
      → Option (Address R)
      → World W B S Visited
      → K
      → Stats
      → Trip (World W B S Visited) K
  visit_address cfg s j none w sink stats = stay w sink stats
  visit_address cfg s j (some u) w sink stats =
      if obeys s.target.respect_robots
      then (let (rules, w') = site.rules u w in under_rules cfg s j u rules w' sink stats)
      else fetch_page cfg s j w sink stats

  -- `visit`
  unfoldable pub visit :
      Config → Scope → Job → World W B S Visited → K → Stats → Trip (World W B S Visited) K
  visit cfg s j w sink stats = visit_address cfg s j (urls.parse j.url) w sink stats
