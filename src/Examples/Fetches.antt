-- ===== src/Examples/Fetches.antt =====
-- Fetches over plain HTTP and in a browser, and an API whose AI overview needs a second request.
use serp_harvester.Prelude.{
  ℕ, ◌+◌, ◌*◌, ◌≤◌, ◌<◌, ◌==◌, ◌≡◌, ◌≢◌, ◌⊎◌, refl, List, [], ◌∷◌, true, false, if◌then◌else◌, none,
  some, pos, ltb_ℤ, Text, bytes, length, arith, text_eq,
}
use serp_harvester.Fetcher.Sessions.{second}
use serp_harvester.Fetcher.{Request, Response, Error, fetched, failed, error_of, success, message}
use serp_harvester.Fetcher.Classify
use serp_harvester.Fetcher.Pages.{Html, normal}
use serp_harvester.Fetcher.RetryAfter.{
  parse_retry_after, atoi, digits, magnitude, positive, parse_retry_after_wraps,
}
use serp_harvester.Fetcher.Http.{
  Web, HttpFetcher, Client, Answer, answered, max_body_bytes, fetch_http, settle, final_kind,
}
use serp_harvester.Fetcher.Http.Verdict.{verdict, settle-outcome, fetch_http-Sound}
use serp_harvester.Fetcher.Provider.{
  Provider, ProviderFetcher, Stub, Got, received, good, resolve_ai_overview, after_get,
}
use serp_harvester.Fetcher.Provider.Overview.{
  outcome_of_answer, HasStub, Merges, resolve_ai_overview_cases, after_get-outcome,
}
use serp_harvester.Fetcher.{is_retryable}

abbrev pub failure : Error
failure = record { outer = message (bytes "no"); inner = [] }

abbrev pub query : Request
query = record {
  query = bytes "go";
  target = [];
  user_agent = bytes "agent";
  proxy_url = [];
  country = bytes "us";
  language = bytes "en";
  device = bytes "mobile";
  wait_selector = [];
}

-- Documents are their own text, and a document that is the selector matches it.
abbrev pub html : Html Text
html = record {
  parse_url = λ u. some (record { path = u; hostname = u });
  document = λ t. some t;
  count = λ d s. if text_eq d s then 1 else 0;
  title = λ d. d;
  script_types = λ d. [];
  visible_text = λ d. d;
  noscripts = λ t. [];
  refreshes = λ t. false;
  trim_space = λ t. t;
  to_lower = λ t. t;
}

abbrev consent_page : Text
consent_page = bytes "form[action*=\"consent\"], input[name=\"set_eom\"]"

-- The first answer is a consent page, the second one a result; the world counts the requests.
abbrev web : Web ℕ ℕ Text
web = record {
  html = html;
  clock = λ w. w;
  proxy_error = λ p. none;
  new_transport = λ p w. (0, w);
  encode = λ vs. bytes "q=go";
  request_error = λ m u. none;
  send = λ t d r w. (
    answered (record {
      status = 200;
      final_url = bytes "/search";
      content_type = bytes "text/html";
      retry_after = [];
      body = if w == 0 then consent_page else bytes "results";
    }),
    w + 1,
  );
  parse_time = λ t. none;
  form = λ d s. some (record { action = bytes "/save"; method = none; inputs = [] });
  resolve = λ u a. some a;
  with_query = λ u q. u;
  new_jar = λ w. (none, w);
  set_cookie = λ u k v w. w;
}

abbrev fetcher : HttpFetcher ℕ
fetcher = record {
  endpoint = bytes "http://g/search";
  timeout = pos (10 * second);
  on_consent_handled = none;
  generic = false;
  detect_app_shells = false;
}

abbrev client : Client ℕ ℕ
client = record { transports = []; world = 0 }

fetch_http-Sound_example :
    ((r : Response)
      → (fetch_http web fetcher query client).0 ≡ fetched r
      → (r.status_code < 400) × (length r.body ≤ max_body_bytes))
    × ((e : Error)
        → (fetch_http web fetcher query client).0 ≡ failed e
        → Classify.classify (some e) ≢ success)
fetch_http-Sound_example = fetch_http-Sound web fetcher query client

abbrev limited : Answer
limited = record {
  status = 429;
  final_url = bytes "/search";
  content_type = bytes "text/html";
  retry_after = bytes "30";
  body = bytes "slow down";
}

settle-outcome_example :
    Classify.classify (error_of (settle web fetcher 0 5 normal limited))
    ≡ verdict (final_kind web fetcher normal limited) 429
settle-outcome_example = settle-outcome web fetcher 0 5 normal limited

parse_retry_after_wraps_example :
    (ltb_ℤ (parse_retry_after (λ t. none) 7 (bytes "9223372037")).0 (pos 0) ≡ true)
    × ((parse_retry_after (λ t. none) 7 (bytes "9223372037")).1 ≡ true)
unfolding atoi magnitude digits positive
parse_retry_after_wraps_example =
    parse_retry_after_wraps (λ t. none) 7 (bytes "9223372037") 9223372037 refl (omega arith)
      (omega arith)

abbrev api : Provider ℕ
api = record {
  clock = λ w. w;
  proxy_error = λ p. none;
  encode = λ vs. bytes "q=go";
  request_error = λ u. none;
  exchange = λ p d u w.
      (received (record { body = bytes "answer"; status = 200; retry_after = [] }), w + 1);
  object = λ t. some ((bytes "ai_overview", bytes "stub") ∷ []);
  stub = λ t. some (record { page_token = bytes "token"; text_blocks = 0 });
  wrapper = λ t. some (bytes "page");
  marshal = λ top. some (bytes "merged");
  parse_time = λ t. none;
  status_text = λ t n b. t;
}

abbrev account : ProviderFetcher
account = record {
  base_url = bytes "https://api/search";
  api_key = bytes "key";
  engine = bytes "google";
  timeout = pos (10 * second);
}

resolve_ai_overview_cases_example :
    let r = resolve_ai_overview api account [] (bytes "body") 1 in
    ((top : List (Text × Text)) × (s : Stub) × HasStub api account [] (bytes "body") top s
      × Merges api account [] top s (bytes "body") 1 r)
    ⊎ (((top : List (Text × Text)) (s : Stub) → ¬ HasStub api account [] (bytes "body") top s)
        × (r ≡ (bytes "body", 1)))
resolve_ai_overview_cases_example = resolve_ai_overview_cases api account [] (bytes "body") 1

abbrev forbidden : Got
forbidden = record { body = bytes "bad key"; status = 401; retry_after = [] }

after_get-outcome_example :
    (Classify.classify (error_of (after_get api account query 0 (good forbidden) 1).0)
      ≡ outcome_of_answer 401)
    × (is_retryable (outcome_of_answer 401) ≡ true)
after_get-outcome_example = after_get-outcome api account query 0 forbidden 1
