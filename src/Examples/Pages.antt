-- ===== src/Examples/Pages.antt =====
-- A page and its target, a provider's response, and a stream of jobs.
use serp_harvester.Prelude.{
  ℕ, ◌+◌, ◌≤◌, ◌<◌, ◌==◌, ◌≡◌, ◌⊎◌, ◌↔◌, refl, List, [], ◌∷◌, ◌++◌, true, false, none, some, pos,
  ◌≤ℤ◌, Text, bytes, length, take, get_elem?, arith, Listed, map,
}
use serp_harvester.Fetcher.Pages.{lower_char, lower_ascii}
use serp_harvester.Extract.{
  Spec, Rule, Dom, is_continuation, truncate_utf8, links, page_of, validate, check_fields, check,
}
use serp_harvester.Extract.Cut.{truncate_utf8_lem}
use serp_harvester.Extract.Gathering.{NoDup, IsFollowable, links_lem}
use serp_harvester.Extract.Order.{exchange, page_of-extraction}
use serp_harvester.Extract.{has_text}
use serp_harvester.Parser.{ProviderResponse, Overview, result_of}
use serp_harvester.Parser.Provided.{organic_result, nonempty, told, result_of_lem}
use serp_harvester.Robots.{is_empty, contains}
use serp_harvester.Robots.Matching.{strip_prefix}
use serp_harvester.Worker.Process.{Job}
use serp_harvester.Queue.{Message, Stream, nothing_new, values_of, job_of, hand_messages}
use serp_harvester.Queue.Handover.{acked, AllReceived, jobs_of, hand_messages_lem}
use serp_harvester.Crawl.Target.{
  Address, Urls, Target, Scope, compile, follows, is_render, is_acceptable, with_defaults, scope_of,
  read_starts, add_start, domains_of, all_compile, is_web, default_render, follow_spec, no_text,
  normalize, with_port, bracketed, is_default_port,
}
use serp_harvester.Crawl.Target.Domains.{
  any_upper, AreStarts, compile_lem, capital_start_follows_nothing,
}

-- "aé" is cut inside of its second character.
truncate_utf8_lem_example :
    ((3 ≤ 2) × (truncate_utf8 (97 ∷ 195 ∷ 169 ∷ []) 2 ≡ 97 ∷ 195 ∷ 169 ∷ []))
    ⊎ ((k : ℕ) × (2 < 3)
        × (truncate_utf8 (97 ∷ 195 ∷ 169 ∷ []) 2 ≡ take k (97 ∷ 195 ∷ 169 ∷ []))
        × (k ≤ 2)
        × ((k ≡ 0) ⊎ (is_continuation (get_elem? (97 ∷ 195 ∷ 169 ∷ []) k) ≡ false))
        × ((j : ℕ) → k < j → j ≤ 2 → is_continuation (get_elem? (97 ∷ 195 ∷ 169 ∷ []) j) ≡ true))
truncate_utf8_lem_example = truncate_utf8_lem (97 ∷ 195 ∷ 169 ∷ []) 2

-- Two links to one URL; a selection is the text of its link.
abbrev pub dom : Dom Text Text
dom = record {
  parse_url = λ t. some t;
  follow = λ u t. some t;
  url_text = λ u. u;
  scheme = λ u. bytes "https";
  without_fragment = λ u. u;
  document = λ t. some t;
  find = λ d s. bytes "https://a/" ∷ bytes "https://a/" ∷ [];
  attribute = λ n a. some n;
  text = λ n. n;
  inner_html = λ n. some n;
  heading_level = λ n. pos 1;
  visible_text = λ n. n;
  json_valid = λ t. true;
  clean = λ t. t;
  trim_space = λ t. t;
  to_lower = lower_ascii;
  compiles = λ t. true;
}

links_lem_example :
    NoDup (links dom (bytes "https://a/") (bytes "page") (bytes "a[href]"))
    × ((l : Text)
        → (has_text l (links dom (bytes "https://a/") (bytes "page") (bytes "a[href]")) ≡ true) ↔ (
            (s : Text) × Listed s (dom.find (bytes "page") (bytes "a[href]"))
            × IsFollowable dom (bytes "https://a/") s l))
links_lem_example = links_lem dom (bytes "https://a/") (bytes "page") (bytes "a[href]")

abbrev pub price : Rule
price = record { selector = bytes ".price"; attr = []; all = false; required = true }

abbrev pub spec : Spec
spec = record {
  fields = (bytes "price", price) ∷ (bytes "name", price) ∷ [];
  items = none;
  text_limit = pos 0;
  skip_links = false;
}

-- No element matches.
abbrev bare : Dom Text Text
bare = record dom { find = λ d s. [] }

page_of-extraction_example :
    (page_of bare (bytes "https://a/") (bytes "page") spec).extraction
    ≡ (page_of bare
        (bytes "https://a/")
        (bytes "page")
        (record spec { fields = (bytes "name", price) ∷ (bytes "price", price) ∷ [] })).extraction
page_of-extraction_example =
    page_of-extraction bare (bytes "https://a/") (bytes "page") spec
      ((bytes "name", price) ∷ (bytes "price", price) ∷ [])
      (exchange (bytes "price", price) (bytes "name", price) [])

abbrev overview : Overview
overview = record {
  text_blocks = bytes "one" ∷ [] ∷ bytes "two" ∷ [];
  references = bytes "https://a/" ∷ [];
  error = [];
}

abbrev response : ProviderResponse
response = record {
  organic_results =
      record {
        position = pos 1;
        title = bytes "Go";
        link = bytes "https://go.dev/";
        snippet = bytes "The language";
      }
      ∷ [];
  related_questions = [];
  answer_box = none;
  ai_overview = some overview;
}

result_of_lem_example :
    let r = result_of (bytes "go") response in
    (r.organic ≡ map organic_result response.organic_results)
    × ((r.calibration ≡ none) ↔ (1 ≤ 1))
    × (r.people_also_ask ≡ nonempty [])
    × (r.ai_overview ≡ told (some overview))
result_of_lem_example = result_of_lem (bytes "go") response

abbrev job : Job
job = record {
  query = bytes "go";
  run_id = bytes "7";
  locale = bytes "US-en";
  device = bytes "mobile";
}

-- A consumer that receives one job; the world counts the calls.
abbrev redis : Stream ℕ
redis = record {
  group_error = λ w. (none, w);
  is_busy_group = λ e. true;
  add = λ vs w. (none, w);
  read_group = λ b w. (nothing_new, w);
  ack = λ i w. w + 1;
  hand = λ j w. (w == 0, w);
  pause = λ w. (false, w);
  ended = λ w. false;
}

abbrev messages : List Message
messages =
    record { id = bytes "1"; values = values_of job }
    ∷ record { id = bytes "2"; values = values_of job }
    ∷ []

hand_messages_lem_example :
    let (h, w') = hand_messages redis messages 0 in
    (passed : List Message) × (left : List Message) × (messages ≡ passed ++ left)
    × (h.jobs ≡ jobs_of redis passed)
    × AllReceived redis passed 0
    × (((h.goes_on ≡ true) × (left ≡ []) × (w' ≡ acked redis passed 0))
        ⊎ ((m : Message) × (rest : List Message) × (h.goes_on ≡ false)
            × (left ≡ m ∷ rest)
            × (redis.hand (job_of m.values) (acked redis passed 0) ≡ (false, w'))))
hand_messages_lem_example = hand_messages_lem redis messages 0

abbrev pub shop : Address ℕ
shop = record {
  scheme = bytes "https";
  host = bytes "Shop.example";
  hostname = bytes "Shop.example";
  port = [];
  path = [];
  rest = 0;
}

abbrev pub urls : Urls ℕ
urls = record {
  parse = λ t. some shop;
  text = λ scheme host path rest. scheme ++ bytes "://" ++ host ++ path;
  ext = λ p. [];
  to_lower = lower_ascii;
  trim_space = λ t. t;
  compiles = λ e. true;
  matches = λ e t. true;
}

abbrev pub target : Target
target = record {
  name = bytes "shop";
  start_urls = bytes "https://Shop.example" ∷ [];
  allowed_domains = [];
  max_depth = pos 1;
  max_pages = pos 0;
  follow = [];
  include = [];
  exclude = [];
  render = [];
  wait_selector = [];
  extract = spec;
  respect_robots = none;
  concurrency = pos 0;
  locale = [];
  device = [];
}

abbrev pub scope : Scope
scope = record {
  target = with_defaults target;
  starts = bytes "https://shop.example/" ∷ [];
  domains = bytes "Shop.example" ∷ [];
  include = [];
  exclude = [];
}

compiled : compile urls dom target ≡ some scope
unfolding compile is_acceptable with_defaults scope_of read_starts add_start domains_of all_compile
    is_web is_render default_render follow_spec no_text normalize with_port bracketed
    is_default_port is_empty strip_prefix lower_ascii lower_char validate check_fields check
    contains
compiled = refl

lower_ascii-any_upper : (t : Text) → any_upper (lower_ascii t) ≡ false
unfolding any_upper lower_ascii lower_char
lower_ascii-any_upper [] = refl
lower_ascii-any_upper (c ∷ t) = ground (arith, lower_ascii-any_upper t)

compile_lem_example :
    AreStarts urls dom target.start_urls scope.starts
    × (1 ≤ length scope.starts)
    × (pos 1 ≤ℤ scope.target.max_pages)
    × (is_render scope.target.render ≡ true)
compile_lem_example = compile_lem urls dom target scope compiled

capital_start_follows_nothing_example :
    follows urls dom scope (bytes "https://shop.example/items") ≡ false
unfolding any_upper
capital_start_follows_nothing_example =
    capital_start_follows_nothing urls dom target scope (bytes "https://Shop.example")
      (bytes "https://shop.example/items") shop lower_ascii-any_upper compiled refl refl refl refl
