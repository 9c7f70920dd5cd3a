-- ===== src/Fetcher/Http/Requests.antt =====
-- internal/fetcher/http.go: what a fetch sends.
use serp_harvester.Prelude.{
  ℕ, suc, ◌≤◌, Text, bytes, Option, none, some, ◌⊎◌, inl, inr, arith, lookup,
}
use serp_harvester.Fetcher.{Request, Error}
use serp_harvester.Fetcher.Pages.{PageKind, normal, consent, captcha, interstitial, challenge}
use serp_harvester.Fetcher.Http.{
  Web, HttpFetcher, Client, Answer, Outgoing, Reply, got, gone, Submission, submit, no_form,
  bad_form, fetch_http, transport_for, pooled_transport, create_transport, with_transport,
  after_build, do_request, after_reply, on_kind, on_submission, after_consent, handled, first_kind,
  reject_consent_request, search_url, set_headers, plain_request,
}

-- `n` requests lead from the world `w` to a world, with the other effects of a fetch in between.
pub data Sends {S T D : Type 0} (web : Web S T D) (f : HttpFetcher S) : ℕ → S → S → Type 0 where
  start : {w : S} → Sends web f 0 w w
  connect :
      {n : ℕ} {w v : S}
      → (proxy : Text) → Sends web f n w v
      → Sends web f n w (web.new_transport proxy v).1
  send :
      {n : ℕ} {w v : S}
      → (t : T) (r : Outgoing) → Sends web f n w v
      → Sends web f (suc n) w (web.send t f.timeout r v).1
  notify : {n : ℕ} {w v : S} → Sends web f n w v → Sends web f n w (handled web f v)

module _ {S T D : Type 0} (web : Web S T D) (f : HttpFetcher S) where
  abbrev AtMost : ℕ → S → S → Type 0
  AtMost k w v = (n : ℕ) × (n ≤ k) × Sends web f n w v

  after_consent-Sends :
      (k start_time : ℕ) (reply : Reply) (w : S) (c : Client S T)
      → AtMost k w c.world
      → AtMost k w (after_consent web f start_time reply c).1.world
  unfolding after_consent
  after_consent-Sends k start_time (gone e) w c h = h
  after_consent-Sends k start_time (got a) w c (n, le, s) = (n, le, notify s)

  do_request-Sends :
      (k : ℕ) (t : T) (r : Outgoing) (w : S) (c : Client S T)
      → AtMost k w c.world
      → AtMost (suc k) w (do_request web f t r c).1.world
  unfolding do_request
  do_request-Sends k t r w c (n, le, s) = (suc n, omega arith, send t r s)

  widen : (k : ℕ) (w v : S) → AtMost k w v → AtMost (suc k) w v
  widen k w v (n, le, s) = (n, omega arith, s)

  on_submission-Sends :
      (k : ℕ) (t : T) (start_time : ℕ) (a : Answer) (s : Submission) (w : S) (c : Client S T)
      → AtMost k w c.world
      → AtMost (suc k) w (on_submission web f t start_time a s c).1.world
  unfolding on_submission
  on_submission-Sends k t start_time a (bad_form e) w c h = widen k w c.world h
  on_submission-Sends k t start_time a no_form w c h = widen k w c.world h
  on_submission-Sends k t start_time a (submit r) w c h =
      after_consent-Sends (suc k) start_time (do_request web f t r c).0 w (do_request web f t r c).1
        (do_request-Sends k t r w c h)

  on_kind-Sends :
      (k : ℕ) (req : Request) (t : T) (start_time : ℕ) (a : Answer) (kind : PageKind) (w : S)
      (c : Client S T)
      → AtMost k w c.world
      → AtMost (suc k) w (on_kind web f req t start_time a kind c).1.world
  unfolding on_kind
  on_kind-Sends k req t start_time a consent w c h =
      on_submission-Sends k t start_time a
        (reject_consent_request web a.final_url a.body req.user_agent) w c h
  on_kind-Sends k req t start_time a normal w c h = widen k w c.world h
  on_kind-Sends k req t start_time a captcha w c h = widen k w c.world h
  on_kind-Sends k req t start_time a interstitial w c h = widen k w c.world h
  on_kind-Sends k req t start_time a challenge w c h = widen k w c.world h

  after_reply-Sends :
      (k : ℕ) (req : Request) (t : T) (start_time : ℕ) (reply : Reply) (w : S) (c : Client S T)
      → AtMost k w c.world
      → AtMost (suc k) w (after_reply web f req t start_time reply c).1.world
  unfolding after_reply
  after_reply-Sends k req t start_time (gone e) w c h = widen k w c.world h
  after_reply-Sends k req t start_time (got a) w c h =
      on_kind-Sends k req t start_time a (first_kind web f a) w c h

  after_build-Sends :
      (req : Request) (t : T) (u : Text) (o : Option Error) (w : S) (c : Client S T)
      → AtMost 0 w c.world
      → AtMost 2 w (after_build web f req t u o c).1.world
  unfolding after_build
  after_build-Sends req t u (some e) w c h = widen 1 w c.world (widen 0 w c.world h)
  after_build-Sends req t u none w c h =
      let r = set_headers req.user_agent (plain_request (bytes "GET") u) in
      let (reply, c') = do_request web f t r c in
      after_reply-Sends 1 req t (web.clock c.world) reply w c' (do_request-Sends 0 t r w c h)

  with_transport-Sends :
      (req : Request) (x : Error ⊎ T) (w : S) (c : Client S T)
      → AtMost 0 w c.world
      → AtMost 2 w (with_transport web f req x c).1.world
  unfolding with_transport
  with_transport-Sends req (inl e) w c h = widen 1 w c.world (widen 0 w c.world h)
  with_transport-Sends req (inr t) w c h =
      let u = search_url web f req in
      after_build-Sends req t u (web.request_error (bytes "GET") u) w c h

  create_transport-Sends :
      (proxy : Text) (o : Option Error) (c : Client S T)
      → AtMost 0 c.world (create_transport web proxy o c).1.world
  unfolding create_transport
  create_transport-Sends proxy none c = (0, omega arith, connect proxy start)
  create_transport-Sends proxy (some e) c = (0, omega arith, start)

  pooled_transport-Sends :
      (proxy : Text) (o : Option T) (c : Client S T)
      → AtMost 0 c.world (pooled_transport web proxy o c).1.world
  unfolding pooled_transport
  pooled_transport-Sends proxy (some t) c = (0, omega arith, start)
  pooled_transport-Sends proxy none c = create_transport-Sends proxy _ c

  -- A fetch sends at most two requests, and it changes the world otherwise only by a new
  -- transport and by the hook for a handled consent page.
  pub fetch_http-Sends :
      (req : Request) (c : Client S T)
      → (n : ℕ) × (n ≤ 2) × Sends web f n c.world (fetch_http web f req c).1.world
  unfolding fetch_http transport_for
  fetch_http-Sends req c =
      with_transport-Sends req (transport_for web req.proxy_url c).0 c.world
        (transport_for web req.proxy_url c).1
        (pooled_transport-Sends req.proxy_url (lookup req.proxy_url c.transports) c)
