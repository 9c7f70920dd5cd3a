-- ===== src/Examples/Sites.antt =====
-- A robots.txt with two rules, a crawl of two pages, a request, and a harvest of two queries.
use serp_harvester.Prelude.{
  ◌+◌, ◌*◌, lookup, List, ◌≢◌, text_eq_iff, true, ◌≤◌, ◌<◌, ◌≡◌, ◌⊎◌, refl, [], ◌∷◌, true, false,
  some, pos, bytes, length, Listed,
}
use serp_harvester.Robots.{Rule, Rules, match_path, allowed}
use serp_harvester.Robots.Matching.{matches}
use serp_harvester.Robots.Precedence.{allowed_lem}
use serp_harvester.Crawl.Delay.{next_slot, reserve, reserve-spacing}
use serp_harvester.Crawl.Frontier.{
  Frontier, Event, send, receive, run, step, started, enqueue_all, enqueue, starts_of, send_first,
  receive_links, is_seen,
}
use serp_harvester.Crawl.Frontier.Budget.{InBudget, run-InBudget}
use serp_harvester.Api.{CreateJobRequest}
use serp_harvester.Scheduler.{Harvest}

-- "Disallow: /a" and "Allow: /a/b".
abbrev rules : Rules
rules = record {
  rules =
      record {
        allow = false;
        pattern = bytes "/a";
        re = record { parts = bytes "/a" ∷ []; anchored = false };
      }
      ∷ record {
        allow = true;
        pattern = bytes "/a/b";
        re = record { parts = bytes "/a/b" ∷ []; anchored = false };
      }
      ∷ [];
  crawl_delay = pos 0;
  sitemaps = [];
}

allowed_lem_example :
    let p = match_path (bytes "/a/b/c") in
    ((allowed rules (bytes "/a/b/c") ≡ true)
      × (((r : Rule) → Listed r rules.rules → matches r.re p ≡ false)
          ⊎ ((r : Rule) × Listed r rules.rules
              × (matches r.re p ≡ true)
              × (r.allow ≡ true)
              × ((s : Rule)
                  → Listed s rules.rules
                  → matches s.re p ≡ true
                  → length s.pattern ≤ length r.pattern))))
    ⊎ ((allowed rules (bytes "/a/b/c") ≡ false)
        × ((r : Rule) × Listed r rules.rules
            × (matches r.re p ≡ true)
            × (r.allow ≡ false)
            × ((s : Rule)
                → Listed s rules.rules
                → matches s.re p ≡ true
                → length s.pattern ≤ length r.pattern)
            × ((s : Rule)
                → Listed s rules.rules
                → matches s.re p ≡ true
                → s.allow ≡ true
                → length s.pattern < length r.pattern)))
allowed_lem_example = allowed_lem rules (bytes "/a/b/c") refl

abbrev harvest : Harvest
harvest = record {
  name = bytes "set";
  cron_expr = bytes "@daily";
  queries = bytes "a" ∷ bytes "b" ∷ [];
  country = bytes "US";
  language = bytes "en";
  device = [];
}

apart : bytes "b" ≢ bytes "a"
apart e = differ ((text_eq_iff (bytes "b") (bytes "a")).1 e)
  where
    differ : false ≢ true
    differ h = cc

-- A slot for one host is reserved at 50 for 10 ns; 55 is the next call.
reserve-spacing_example :
    let (g, at) = reserve 50 (bytes "a") 10 [] in
    (50 ≤ at)
    × (next_slot (lookup (bytes "b") g) ≡ next_slot (lookup (bytes "b") []))
    × (next_slot (lookup (bytes "a") g) ≡ next_slot (lookup (bytes "a") g)
        → at + 10 ≤ (reserve 55 (bytes "a") 10 g).1)
reserve-spacing_example =
    reserve-spacing 50 55 (bytes "a") (bytes "b") 10 10 [] (reserve 50 (bytes "a") 10 []).0 apart

-- The start page is handed out and comes back with one link, whose page comes back with none.
abbrev events : List Event
events =
    send
    ∷ receive false (record { url = bytes "http://s/1"; depth = 1 } ∷ [])
    ∷ send
    ∷ receive false []
    ∷ []

abbrev last_state : Frontier
last_state = record {
  seen = bytes "http://s/1" ∷ bytes "http://s/" ∷ [];
  pending = [];
  in_flight = 0;
  discovered = 2;
  budget_exhausted = false;
  canceled = false;
}

events-run : run 5 events (started 5 (bytes "http://s/" ∷ [])) ≡ some last_state
unfolding run step started enqueue_all enqueue starts_of send_first receive_links is_seen
events-run = refl

run-InBudget_example : InBudget 5 last_state × (length events ≤ 2 * 5 + 1)
run-InBudget_example = run-InBudget 5 (bytes "http://s/" ∷ []) events last_state events-run

abbrev request : CreateJobRequest
request = record {
  queries = bytes "a" ∷ bytes "b" ∷ [];
  country = bytes "US";
  language = bytes "en";
  device = [];
}
