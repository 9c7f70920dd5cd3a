-- ===== src/Fetcher/Http.antt =====
-- internal/fetcher/http.go: `HTTPFetcher`. What it uses of net/http, net/url and goquery is the
-- record `Web`; `send` also keeps the cookie jar, in the world `S`.
pub mod Verdict
pub mod Requests
use serp_harvester.Prelude.{
  ℕ, ◌==◌, leb, ◌⊎◌, inl, inr, List, [], ◌∷◌, ◌++◌, Text, bytes, text_eq, Bool, true, false, not,
  ◌&&◌, if◌then◌else◌, Option, none, some, ℤ, sub_ℕ, take, lookup, insert,
}
use serp_harvester.Robots.{is_empty}
use serp_harvester.Fetcher.{
  Request, Response, Error, links, wrap, FetchResult, fetched, failed, rate_limit_error,
  status_error, transport_error,
}
use serp_harvester.Fetcher.Pages.{
  PageKind, normal, consent, interstitial, Html, lower_ascii, is_html, truncate, blocked_error_for,
  classify_page, classify_generic_page, requires_js, looks_like_js_shell,
}
use serp_harvester.Fetcher.RetryAfter.{parse_retry_after}

-- A request as it is sent; an absent Content-Type is "".
pub record Outgoing : Type 0 where
  pub method : Text
  pub url : Text
  pub user_agent : Text
  pub accept_language : Text
  pub content_type : Text
  pub content : Text

-- What `do` returns of an answer: `finalURL` and the headers that are read.
pub record Answer : Type 0 where
  pub status : ℕ
  pub final_url : Text
  pub content_type : Text
  pub retry_after : Text
  pub body : Text

-- `client.Do`, and the reading of the body.
pub data Sent : Type 0 where
  answered : Answer → Sent
  unsent unread : Error → Sent

pub data Reply : Type 0 where
  got : Answer → Reply
  gone : Error → Reply

-- A form of a page, with the name and value of each named input.
pub record Form : Type 0 where
  pub action : Text
  pub method : Option Text
  pub inputs : List (Text × Text)

-- `request_error method url` is the error of `http.NewRequest`, `resolve` is `URL.Parse`, and
-- `encode` is `Values.Encode`.
pub record Web (S T D : Type 0) : Type 0 where
  pub html : Html D
  pub clock : S → ℕ
  pub proxy_error : Text → Option Error
  pub new_transport : Text → S → T × S
  pub encode : List (Text × Text) → Text
  pub request_error : Text → Text → Option Error
  pub send : T → ℤ → Outgoing → S → Sent × S
  pub parse_time : Text → Option ℕ
  pub form : D → Text → Option Form
  pub resolve : Text → Text → Option Text
  pub with_query : Text → Text → Text
  pub new_jar : S → Option Error × S
  pub set_cookie : Text → Text → Text → S → S

-- `HTTPFetcher`, but for its state.
pub record HttpFetcher (S : Type 0) : Type 0 where
  pub endpoint : Text
  pub timeout : ℤ
  pub on_consent_handled : Option (S → S)
  pub generic : Bool
  pub detect_app_shells : Bool

-- The transports by proxy URL, and the world.
pub record Client (S T : Type 0) : Type 0 where
  pub transports : List (Text × T)
  pub world : S

-- `maxBodyBytes`
abbrev pub max_body_bytes : ℕ
max_body_bytes = 5242880

-- `setHeaders`
unfoldable pub set_headers : Text → Outgoing → Outgoing
set_headers agent r = record r {
  user_agent =
      if is_empty agent then bytes "Mozilla/5.0 (compatible; web-harvester/0.1)" else agent;
  accept_language = bytes "en-US,en;q=0.9";
}

unfoldable pub set_nonempty : Text → Text → List (Text × Text) → List (Text × Text)
set_nonempty key value q = if is_empty value then q else insert key value q

unfoldable pub search_values : Request → List (Text × Text)
search_values req =
    set_nonempty (bytes "hl") req.language
      (set_nonempty (bytes "gl") req.country (insert (bytes "q") req.query []))

unfoldable pub plain_request : Text → Text → Outgoing
plain_request method url = record {
  method = method;
  url = url;
  user_agent = [];
  accept_language = [];
  content_type = [];
  content = [];
}

abbrev pub reject_consent_form : Text
reject_consent_form = bytes "form:has(input[name=\"set_eom\"][value=\"true\"])"

pub data Submission : Type 0 where
  submit : Outgoing → Submission
  no_form : Submission
  bad_form : Error → Submission

module _ {S T D : Type 0} (web : Web S T D) where
  unfoldable pub seed_cookie : Text → Option Error → S → S
  seed_cookie endpoint none w = elim (web.html.parse_url endpoint) [
    | none ↦ w
    | some u ↦ web.set_cookie endpoint (bytes "CONSENT") (bytes "YES+") w
  ]
  seed_cookie endpoint (some e) w = w

  -- `NewHTTPFetcher`: the world with its cookie jar, or an error.
  unfoldable pub new_http_fetcher : Text → ℤ → S → Option (HttpFetcher S) × S
  new_http_fetcher endpoint timeout w =
      let (failure, w') = web.new_jar w in
      (
        elim failure [
          | some e ↦ none
          | none ↦ some (record {
            endpoint = endpoint;
            timeout = timeout;
            on_consent_handled = none;
            generic = false;
            detect_app_shells = false;
          })
        ],
        seed_cookie endpoint failure w',
      )

  unfoldable pub search_url : HttpFetcher S → Request → Text
  search_url f req =
      if is_empty req.target
      then f.endpoint ++ bytes "?" ++ web.encode (search_values req)
      else req.target

  -- `transportFor`, where no transport is pooled for the proxy.
  unfoldable pub create_transport : Text → Option Error → Client S T → (Error ⊎ T) × Client S T
  create_transport proxy (some e) c = (inl (wrap (bytes "fetcher: invalid proxy url: ") e), c)
  create_transport proxy none c =
      let (t, w) = web.new_transport proxy c.world in
      (inr t, record { transports = insert proxy t c.transports; world = w })

  unfoldable pub pooled_transport : Text → Option T → Client S T → (Error ⊎ T) × Client S T
  pooled_transport proxy (some t) c = (inr t, c)
  pooled_transport proxy none c =
      create_transport proxy (if is_empty proxy then none else web.proxy_error proxy) c

  -- `transportFor`
  unfoldable pub transport_for : Text → Client S T → (Error ⊎ T) × Client S T
  transport_for proxy c = pooled_transport proxy (lookup proxy c.transports) c

  unfoldable pub reply_of : Sent → Reply
  reply_of (answered a) = got (record a { body = take max_body_bytes a.body })
  reply_of (unsent e) = gone (wrap (bytes "fetcher: request failed: ") e)
  reply_of (unread e) =
      gone (record { outer = transport_error; inner = links (wrap (bytes "read body: ") e) })

  -- `do`
  unfoldable pub do_request : HttpFetcher S → T → Outgoing → Client S T → Reply × Client S T
  do_request f t r c =
      let (sent, w) = web.send t f.timeout r c.world in (reply_of sent, record c { world = w })

  -- `classify`
  unfoldable pub classify : HttpFetcher S → Text → ℕ → Text → PageKind
  classify f page_url status html =
      if f.generic
      then classify_generic_page web.html page_url status html
      else classify_page web.html page_url html

  -- `needsJS`
  unfoldable pub needs_js : HttpFetcher S → Text → Bool
  needs_js f raw_html =
      if f.generic
      then f.detect_app_shells && looks_like_js_shell web.html raw_html
      else requires_js web.html raw_html

  unfoldable pub is_get : Option Text → Bool
  is_get none = false
  is_get (some m) = text_eq (lower_ascii m) (bytes "get")

  -- The request of a form, by its method.
  unfoldable pub form_request : Bool → Text → List (Text × Text) → Outgoing
  form_request true target inputs =
      plain_request (bytes "GET") (web.with_query target (web.encode inputs))
  form_request false target inputs = record (plain_request (bytes "POST") target) {
    content_type = bytes "application/x-www-form-urlencoded";
    content = web.encode inputs;
  }

  unfoldable pub submission : Text → Outgoing → Option Error → Submission
  submission agent r (some e) = bad_form (wrap (bytes "fetcher: build consent request: ") e)
  submission agent r none = submit (set_headers agent r)

  unfoldable pub submit_form : Text → Form → Option Text → Submission
  submit_form agent form none = no_form
  submit_form agent form (some target) =
      let r = form_request (is_get form.method) target form.inputs in
      submission agent r (web.request_error r.method r.url)

  unfoldable pub found_form : Text → Text → Option Form → Submission
  found_form agent page_url none = no_form
  found_form agent page_url (some form) = submit_form agent form (web.resolve page_url form.action)

  -- `rejectConsentRequest`
  unfoldable pub reject_consent_request : Text → Text → Text → Submission
  reject_consent_request page_url body agent = elim (web.html.document body) [
    | none ↦ no_form
    | some d ↦ found_form agent page_url (web.form d reject_consent_form)
  ]

  -- The kind that decides, after `needsJS`.
  unfoldable pub final_kind : HttpFetcher S → PageKind → Answer → PageKind
  final_kind f normal a =
      if is_html a.content_type && needs_js f a.body then interstitial else normal
  final_kind f kind a = kind

  -- The `switch` on the status.
  unfoldable pub result_of_status : ℕ → ℕ → Answer → FetchResult
  result_of_status start now a =
      if a.status == 429
      then failed (record {
        outer =
            rate_limit_error 429 (parse_retry_after web.parse_time now a.retry_after).0
              (truncate a.body 512);
        inner = [];
      })
      else if leb 400 a.status
      then failed (record { outer = status_error a.status; inner = [] })
      else fetched (record {
        status_code = a.status;
        body = a.body;
        latency = sub_ℕ now start;
        content_type = a.content_type;
        final_url = a.final_url;
      })

  unfoldable pub result_of_block : ℕ → ℕ → Answer → Option Error → FetchResult
  result_of_block start now a (some e) = failed e
  result_of_block start now a none = result_of_status start now a

  -- `Fetch`, from the check for scripts on.
  unfoldable pub settle : HttpFetcher S → ℕ → ℕ → PageKind → Answer → FetchResult
  settle f start now kind a =
      result_of_block start now a
        (blocked_error_for (final_kind f kind a) a.final_url a.status a.body)

  unfoldable pub handled : HttpFetcher S → S → S
  handled f w = elim f.on_consent_handled [ none ↦ w | some hook ↦ hook w ]

  -- After the consent form was submitted.
  unfoldable pub after_consent : HttpFetcher S → ℕ → Reply → Client S T → FetchResult × Client S T
  after_consent f start (gone e) c = (failed e, c)
  after_consent f start (got a) c =
      let c' : Client S T = record c { world = handled f c.world } in
      (settle f start (web.clock c'.world) (classify f a.final_url a.status a.body) a, c')

  unfoldable pub on_submission :
      HttpFetcher S → T → ℕ → Answer → Submission → Client S T → FetchResult × Client S T
  on_submission f t start a (bad_form e) c = (failed e, c)
  on_submission f t start a no_form c = (
    result_of_block start (web.clock c.world) a
        (blocked_error_for consent a.final_url a.status a.body),
    c,
  )
  on_submission f t start a (submit r) c =
      let (reply, c') = do_request f t r c in after_consent f start reply c'

  unfoldable pub on_kind :
      HttpFetcher S → Request → T → ℕ → Answer → PageKind → Client S T → FetchResult × Client S T
  on_kind f req t start a consent c =
      on_submission f t start a (reject_consent_request a.final_url a.body req.user_agent) c
  on_kind f req t start a kind c = (settle f start (web.clock c.world) kind a, c)

  unfoldable pub first_kind : HttpFetcher S → Answer → PageKind
  first_kind f a = if is_html a.content_type then classify f a.final_url a.status a.body else normal

  -- After the first answer.
  unfoldable pub after_reply :
      HttpFetcher S → Request → T → ℕ → Reply → Client S T → FetchResult × Client S T
  after_reply f req t start (gone e) c = (failed e, c)
  after_reply f req t start (got a) c = on_kind f req t start a (first_kind f a) c

  -- From `http.NewRequestWithContext` on.
  unfoldable pub after_build :
      HttpFetcher S → Request → T → Text → Option Error → Client S T → FetchResult × Client S T
  after_build f req t u (some e) c = (failed (wrap (bytes "fetcher: build request: ") e), c)
  after_build f req t u none c =
      let (reply, c') =
        do_request f t (set_headers req.user_agent (plain_request (bytes "GET") u)) c in
      after_reply f req t (web.clock c.world) reply c'

  unfoldable pub with_transport :
      HttpFetcher S → Request → Error ⊎ T → Client S T → FetchResult × Client S T
  with_transport f req (inl e) c = (failed e, c)
  with_transport f req (inr t) c =
      let u = search_url f req in after_build f req t u (web.request_error (bytes "GET") u) c

  -- `Fetch`
  unfoldable pub fetch_http : HttpFetcher S → Request → Client S T → FetchResult × Client S T
  fetch_http f req c = let (t, c') = transport_for req.proxy_url c in with_transport f req t c'
