-- ===== src/Fetcher/Provider.antt =====
-- internal/fetcher/provider.go: `ProviderFetcher`, a client of a data API. encoding/json, net/http and
-- net/url are parameters; a JSON object is the list of its members.
pub mod Overview
use serp_harvester.Prelude.{
  ℕ, ◌==◌, ltb, List, [], ◌∷◌, ◌++◌, Text, bytes, Bool, true, false, ◌||◌, not, if◌then◌else◌,
  Option, none, some, ℤ, sub_ℕ, take, lookup, insert, length,
}
use serp_harvester.Robots.{is_empty}
use serp_harvester.Fetcher.{
  Request, Response, Error, wrap, FetchResult, fetched, failed, rate_limit_error, message,
}
use serp_harvester.Fetcher.RetryAfter.{parse_retry_after}

-- What `doGet` returns besides an error: body, status and the Retry-After header.
pub record Got : Type 0 where
  pub body : Text
  pub status : ℕ
  pub retry_after : Text

pub data Exchange : Type 0 where
  received : Got → Exchange
  refused unreadable : Error → Exchange

pub data Gotten : Type 0 where
  good : Got → Gotten
  bad : Error → Gotten

-- The `stub` of an ai_overview: the page token and how many text blocks there are.
pub record Stub : Type 0 where
  pub page_token : Text
  pub text_blocks : ℕ

-- `object` is `json.Unmarshal` into a map, `stub` into the stub, `wrapper` into the wrapper, whose
-- member is empty when it is absent; `encode` is `Values.Encode`.
pub record Provider (S : Type 0) : Type 0 where
  pub clock : S → ℕ
  pub proxy_error : Text → Option Error
  pub encode : List (Text × Text) → Text
  pub request_error : Text → Option Error
  pub exchange : Text → ℤ → Text → S → Exchange × S
  pub object : Text → Option (List (Text × Text))
  pub stub : Text → Option Stub
  pub wrapper : Text → Option Text
  pub marshal : List (Text × Text) → Option Text
  pub parse_time : Text → Option ℕ
  pub status_text : Text → ℕ → Text → Text

-- `ProviderFetcher`
pub record ProviderFetcher : Type 0 where
  pub base_url : Text
  pub api_key : Text
  pub engine : Text
  pub timeout : ℤ

-- `NewProviderFetcher`
unfoldable pub new_provider_fetcher : Text → Text → Text → ℤ → ProviderFetcher
new_provider_fetcher base_url api_key engine timeout = record {
  base_url = base_url;
  api_key = api_key;
  engine = if is_empty engine then bytes "google" else engine;
  timeout = timeout;
}

unfoldable pub set_hint : Text → Text → List (Text × Text) → List (Text × Text)
set_hint key value q = if is_empty value then q else insert key value q

unfoldable pub provider_values : ProviderFetcher → Request → List (Text × Text)
provider_values f req = set_hint (bytes "device") req.device (
    set_hint (bytes "hl") req.language (
      set_hint (bytes "gl") req.country
        (insert (bytes "q") req.query (insert (bytes "engine") f.engine []))))

unfoldable pub overview_values : Text → List (Text × Text)
overview_values token =
    insert (bytes "page_token") token (insert (bytes "engine") (bytes "google_ai_overview") [])

unfoldable pub needs_follow_up : Stub → Bool
needs_follow_up s = not (is_empty s.page_token || ltb 0 s.text_blocks)

module _ {S : Type 0} (lib : Provider S) (f : ProviderFetcher) where
  unfoldable pub gotten : Exchange → Gotten
  gotten (received g) = good (record g { body = take 5242880 g.body })
  gotten (refused e) = bad e
  gotten (unreadable e) = bad (wrap (bytes "read body: ") e)

  unfoldable pub after_url : Text → Text → Option Error → S → Gotten × S
  after_url proxy u (some e) w = (bad (wrap (bytes "build request: ") e), w)
  after_url proxy u none w = let (x, w') = lib.exchange proxy f.timeout u w in (gotten x, w')

  unfoldable pub after_proxy : Text → List (Text × Text) → Option Error → S → Gotten × S
  after_proxy proxy params (some e) w = (bad (wrap (bytes "invalid proxy url: ") e), w)
  after_proxy proxy params none w =
      let u = f.base_url ++ bytes "?" ++ lib.encode (set_hint (bytes "api_key") f.api_key params) in
      after_url proxy u (lib.request_error u) w

  -- `doGet`
  unfoldable pub do_get : Text → List (Text × Text) → S → Gotten × S
  do_get proxy params w =
      after_proxy proxy params (if is_empty proxy then none else lib.proxy_error proxy) w

  unfoldable pub unwrapped : Text → Option Text → Text
  unwrapped body none = body
  unwrapped body (some inner) = if is_empty inner then body else inner

  -- The page of `fetchAIOverviewPage`; `none` is an error.
  unfoldable pub overview_page : Gotten → Option Text
  overview_page (bad e) = none
  overview_page (good g) =
      if g.status == 200 then some (unwrapped g.body (lib.wrapper g.body)) else none

  -- `fetchAIOverviewPage`
  unfoldable pub fetch_ai_overview_page : Text → Text → S → Option Text × S
  fetch_ai_overview_page proxy token w =
      let (g, w') = do_get proxy (overview_values token) w in (overview_page g, w')

  unfoldable pub merged : Text → List (Text × Text) → Option Text → Text
  merged body top none = body
  merged body top (some page) = elim (lib.marshal (insert (bytes "ai_overview") page top)) [
    | none ↦ body
    | some text ↦ text
  ]

  unfoldable pub follow_up : Text → Text → List (Text × Text) → Option Stub → S → Text × S
  follow_up proxy body top none w = (body, w)
  follow_up proxy body top (some s) w =
      if needs_follow_up s
      then (let (page, w') = fetch_ai_overview_page proxy s.page_token w in
          (merged body top page, w'))
      else (body, w)

  unfoldable pub of_member : Text → Text → List (Text × Text) → Option Text → S → Text × S
  of_member proxy body top none w = (body, w)
  of_member proxy body top (some raw) w = follow_up proxy body top (lib.stub raw) w

  unfoldable pub of_top : Text → Text → Option (List (Text × Text)) → S → Text × S
  of_top proxy body none w = (body, w)
  of_top proxy body (some top) w = of_member proxy body top (lookup (bytes "ai_overview") top) w

  -- `resolveAIOverview`
  unfoldable pub resolve_ai_overview : Text → Text → S → Text × S
  resolve_ai_overview proxy body w = of_top proxy body (lib.object body) w

  unfoldable pub after_get : Request → ℕ → Gotten → S → FetchResult × S
  after_get req start (bad e) w = (failed (wrap (bytes "provider fetcher: request failed: ") e), w)
  after_get req start (good g) w =
      if g.status == 429
      then (
        failed (record {
          outer =
              rate_limit_error 429 (parse_retry_after lib.parse_time (lib.clock w) g.retry_after).0
                g.body;
          inner = [];
        }),
        w,
      )
      else if g.status == 200
      then (let (body, w') = resolve_ai_overview req.proxy_url g.body w in
          (
            fetched (record {
              status_code = 200;
              body = body;
              latency = sub_ℕ (lib.clock w') start;
              content_type = [];
              final_url = [];
            }),
            w',
          ))
      else (
        failed (record {
          outer =
              message
                (lib.status_text (bytes "provider fetcher: unexpected status ") g.status g.body);
          inner = [];
        }),
        w,
      )

  -- `Fetch`
  unfoldable pub fetch_provider : Request → S → FetchResult × S
  fetch_provider req w =
      let (g, w') = do_get req.proxy_url (provider_values f req) w in
      after_get req (lib.clock w) g w'
