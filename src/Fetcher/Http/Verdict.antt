-- ===== src/Fetcher/Http/Verdict.antt =====
-- internal/fetcher: http.go and classify.go, how the outcome of a fetch follows from the answer.
use serp_harvester.Prelude.{
  ℕ, ◌<◌, ◌≤◌, ◌==◌, ◌≡◌, ◌≢◌, refl, leb, Text, if◌then◌else◌, Option, none, some, ◌⊎◌, inl, inr,
  subst, arith, Bool-cases, length, length-take-le,
}
use serp_harvester.Fetcher.{
  Request, Response, Error, FetchResult, fetched, failed, error_of, Outcome, success, rate_limited,
  server_error, client_error,
}
use serp_harvester.Fetcher.Classify
use serp_harvester.Fetcher.Classify.{
  classify_links, classify_blocked, classify_status, classify_network, blocked_outcome, as_blocked,
  as_rate_limit, as_status,
}
use serp_harvester.Fetcher.Pages.{
  PageKind, normal, consent, captcha, interstitial, challenge, blocked_error_for, blocked_reason,
}
use serp_harvester.Fetcher.Http.{
  Web, HttpFetcher, Client, Answer, Sent, answered, unsent, unread, Reply, got, gone, Submission,
  submit, no_form, bad_form, max_body_bytes, fetch_http, transport_for, with_transport, after_build,
  do_request, reply_of, after_reply, on_kind, on_submission, after_consent, settle, final_kind,
  result_of_block, result_of_status,
}

-- The outcome that an answer of status `status` stands for.
abbrev pub outcome_of_status : ℕ → Outcome
outcome_of_status status =
    if status == 429
    then rate_limited
    else if leb 500 status
    then server_error
    else if leb 400 status
    then client_error
    else success

-- The outcome that a page stands for: a page without results wins over the status.
abbrev pub verdict : PageKind → ℕ → Outcome
verdict normal status = outcome_of_status status
verdict captcha status = Outcome.captcha
verdict consent status = Outcome.consent
verdict interstitial status = Outcome.interstitial
verdict challenge status = Outcome.challenge

module _ {S T D : Type 0} (web : Web S T D) where
  status-outcome :
      (start now : ℕ) (a : Answer)
      → Classify.classify (error_of (result_of_status web start now a)) ≡ outcome_of_status a.status
  unfolding result_of_status Classify.classify as_rate_limit classify_links as_blocked
      classify_blocked as_status classify_status
  status-outcome start now a = ground arith

  block-outcome :
      (start now : ℕ) (a : Answer) (kind : PageKind)
      → Classify.classify (
          error_of
            (result_of_block web start now a (blocked_error_for kind a.final_url a.status a.body)))
        ≡ verdict kind a.status
  unfolding result_of_block blocked_error_for blocked_reason Classify.classify as_rate_limit
      classify_links as_blocked classify_blocked blocked_outcome
  block-outcome start now a normal = status-outcome start now a
  block-outcome start now a consent = refl
  block-outcome start now a captcha = refl
  block-outcome start now a interstitial = refl
  block-outcome start now a challenge = refl

  -- The outcome of a settled answer is the verdict on its page and its status: the error that the
  -- fetcher builds for a page without results is classified back as that page, and otherwise the
  -- status decides.
  pub settle-outcome :
      (f : HttpFetcher S) (start now : ℕ) (kind : PageKind) (a : Answer)
      → Classify.classify (error_of (settle web f start now kind a))
        ≡ verdict (final_kind web f kind a) a.status
  unfolding settle
  settle-outcome f start now kind a = block-outcome start now a (final_kind web f kind a)

  -- What a result promises: a response is no error page, by its status, and keeps to the limit on
  -- the body.
  abbrev pub Sound : FetchResult → Type 0
  Sound (fetched r) =
      (outcome_of_status r.status_code ≡ success)
      × (r.status_code < 400)
      × (length r.body ≤ max_body_bytes)
  Sound (failed e) = Classify.classify (some e) ≢ success

  abbrev Capped : Reply → Type 0
  Capped (got a) = length a.body ≤ max_body_bytes
  Capped (gone e) = Classify.classify (some e) ≢ success

  status-Sound :
      (start now : ℕ) (a : Answer)
      → length a.body ≤ max_body_bytes
      → Sound (result_of_status web start now a)
  unfolding result_of_status
  status-Sound start now a h = elim (Bool-cases (a.status == 429)) [
    | inl limited ↦ rw limited (Classify.classify-ne-success _)
    | inr other_status ↦ elim (Bool-cases (leb 400 a.status)) [
      | inl bad ↦ rw (other_status, bad) (Classify.classify-ne-success _)
      | inr good ↦ rw (other_status, good) (ground arith, ground arith, h)
    ]
  ]

  block-Sound :
      (start now : ℕ) (a : Answer) (o : Option Error)
      → length a.body ≤ max_body_bytes
      → Sound (result_of_block web start now a o)
  unfolding result_of_block
  block-Sound start now a (some e) h = Classify.classify-ne-success e
  block-Sound start now a none h = status-Sound start now a h

  reply-Capped : (x : Sent) → Capped (reply_of web x)
  unfolding reply_of
  reply-Capped (answered a) = length-take-le max_body_bytes a.body
  reply-Capped (unsent e) = Classify.classify-ne-success _
  reply-Capped (unread e) = Classify.classify-ne-success _

  module _ (f : HttpFetcher S) where
    settle-Sound :
        (start now : ℕ) (kind : PageKind) (a : Answer)
        → length a.body ≤ max_body_bytes
        → Sound (settle web f start now kind a)
    unfolding settle
    settle-Sound start now kind a h = block-Sound start now a _ h

    after_consent-Sound :
        (start : ℕ) (reply : Reply) (c : Client S T)
        → Capped reply
        → Sound (after_consent web f start reply c).0
    unfolding after_consent
    after_consent-Sound start (gone e) c h = h
    after_consent-Sound start (got a) c h = settle-Sound start _ _ a h

    on_submission-Sound :
        (t : T) (start : ℕ) (a : Answer) (s : Submission) (c : Client S T)
        → length a.body ≤ max_body_bytes
        → Sound (on_submission web f t start a s c).0
    unfolding on_submission do_request
    on_submission-Sound t start a (bad_form e) c h = Classify.classify-ne-success e
    on_submission-Sound t start a no_form c h = block-Sound start _ a _ h
    on_submission-Sound t start a (submit r) c h = after_consent-Sound start _ _ (reply-Capped _)

    on_kind-Sound :
        (req : Request) (t : T) (start : ℕ) (a : Answer) (kind : PageKind) (c : Client S T)
        → length a.body ≤ max_body_bytes
        → Sound (on_kind web f req t start a kind c).0
    unfolding on_kind
    on_kind-Sound req t start a consent c h = on_submission-Sound t start a _ c h
    on_kind-Sound req t start a normal c h = settle-Sound start _ normal a h
    on_kind-Sound req t start a captcha c h = settle-Sound start _ captcha a h
    on_kind-Sound req t start a interstitial c h = settle-Sound start _ interstitial a h
    on_kind-Sound req t start a challenge c h = settle-Sound start _ challenge a h

    after_reply-Sound :
        (req : Request) (t : T) (start : ℕ) (reply : Reply) (c : Client S T)
        → Capped reply
        → Sound (after_reply web f req t start reply c).0
    unfolding after_reply
    after_reply-Sound req t start (gone e) c h = h
    after_reply-Sound req t start (got a) c h = on_kind-Sound req t start a _ c h

    after_build-Sound :
        (req : Request) (t : T) (u : Text) (o : Option Error) (c : Client S T)
        → Sound (after_build web f req t u o c).0
    unfolding after_build do_request
    after_build-Sound req t u (some e) c = Classify.classify-ne-success _
    after_build-Sound req t u none c = after_reply-Sound req t _ _ _ (reply-Capped _)

    with_transport-Sound :
        (req : Request) (x : Error ⊎ T) (c : Client S T) → Sound (with_transport web f req x c).0
    unfolding with_transport
    with_transport-Sound req (inl e) c = Classify.classify-ne-success e
    with_transport-Sound req (inr t) c = after_build-Sound req t _ _ c

    -- A response that a fetch returns has a status below 400, and its body keeps to the limit of
    -- 5 MiB; an error that it returns is never classified as a success. This holds on every path:
    -- with and without a consent page, and whatever the server sends.
    pub fetch_http-Sound :
        (req : Request) (c : Client S T)
        → ((r : Response)
            → (fetch_http web f req c).0 ≡ fetched r
            → (r.status_code < 400) × (length r.body ≤ max_body_bytes))
          × ((e : Error)
              → (fetch_http web f req c).0 ≡ failed e
              → Classify.classify (some e) ≢ success)
    unfolding fetch_http
    fetch_http-Sound req c =
        let s =
          with_transport-Sound req (transport_for web req.proxy_url c).0
            (transport_for web req.proxy_url c).1 in
        (
          (λ r h. let all : Sound (fetched r) = subst Sound h s in (all.1, all.2)),
          (λ e h. subst Sound h s),
        )
