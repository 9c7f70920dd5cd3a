-- ===== src/Examples/Visits.antt =====
-- The visit of a page whose first fetch is rate-limited.
use serp_harvester.Prelude.{ℕ, [], ◌≡◌, List, ◌∷◌, none, pos, Text, bytes, All, false, true, arith}
use serp_harvester.Model.{Page}
use serp_harvester.Extract.{Value}
use serp_harvester.Robots.{allow_all}
use serp_harvester.Worker.{World}
use serp_harvester.Worker.Acquire.{acquire}
use serp_harvester.Crawl.Frontier.{Job}
use serp_harvester.Worker.Process.Conservation.{finished}
use serp_harvester.Crawl.RobotsFile.{
  IsAnswered, robots_task, robots_getter, robots_getter-IsAnswered,
}
use serp_harvester.Crawl.Visit.{Stats, Visited, Site, page_task, fetch_page}
use serp_harvester.Crawl.Visit.Counting.{InScope, Ends, fetch_page-Counted}
use serp_harvester.Examples.Numbers.{thousandths}
use serp_harvester.Examples.Pools.{two_proxies}
use serp_harvester.Examples.Clients.{rates, limiter}
use serp_harvester.Examples.Jobs.{surroundings, surroundings-IsTimely, config, counters}
use serp_harvester.Examples.Pages.{dom, urls, scope}

abbrev job : Job
job = record { url = bytes "https://shop.example/"; depth = 0 }

abbrev start : World ℕ ℕ ℕ Visited
start = record {
  tick = 0;
  pool = two_proxies;
  limiter = limiter;
  counters = counters;
  latencies = none;
  server = 0;
  user = record { page = none; follow = [] };
}

abbrev site : Site ℕ (World ℕ ℕ ℕ Visited) (List (Page Value))
site = record {
  escaped_path = λ u. bytes "/";
  raw_query = λ u. [];
  host = λ u. bytes "shop.example";
  rules = λ u w. (allow_all, w);
  wait_delay = λ h d w. (true, w);
  write_page = λ p ps. (p ∷ ps, none);
  run_id = bytes "run";
}

abbrev stats : Stats
stats = record { fetched = pos 0; failed = pos 0; robots_disallow = pos 0; flagged = pos 0 }

fetch_page-Counted_example :
    let t = fetch_page rates surroundings 2 urls dom site config scope job start [] stats in
    (t.crashed ≡ false)
    × All (InScope urls dom scope job) t.next
    × Ends rates surroundings 2 urls dom site scope job
        (4, 1)
        []
        stats
        (acquire rates surroundings 2 config
          (page_task rates surroundings 2 urls dom site config scope job)
          start).1
        t
fetch_page-Counted_example =
    fetch_page-Counted rates surroundings 2 urls dom site surroundings-IsTimely
      (λ t n h. (omega arith, omega arith)) config scope job start [] stats (omega arith)
      (omega arith) (omega arith)

-- The world of the pool that fetches the files.
abbrev files : World ℕ ℕ ℕ (ℕ × Text)
files = record {
  tick = 0;
  pool = two_proxies;
  limiter = limiter;
  counters = counters;
  latencies = none;
  server = 0;
  user = (0, []);
}

robots_getter-IsAnswered_example :
    let url = bytes "https://shop.example/robots.txt" in
    let (a, w') = robots_getter rates surroundings 2 urls site.host config url files in
    IsAnswered rates surroundings 2 urls site.host config url
      (acquire rates surroundings 2 config
        (robots_task rates surroundings 2 urls site.host config url)
        files).1
      a
    × (finished w'.counters ≡ (4, 1))
robots_getter-IsAnswered_example =
    robots_getter-IsAnswered rates surroundings 2 urls site.host surroundings-IsTimely
      (λ t n h. (omega arith, omega arith)) config (bytes "https://shop.example/robots.txt") files
      (omega arith) (omega arith) (omega arith)
