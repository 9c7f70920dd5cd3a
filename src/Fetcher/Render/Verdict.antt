-- ===== src/Fetcher/Render/Verdict.antt =====
-- internal/fetcher/playwright.go: what a fetch in the browser returns, and what it leaves behind.
use serp_harvester.Prelude.{
  ℕ, ◌≤◌, ◌<◌, ◌==◌, ◌≡◌, ◌≢◌, refl, subst, leb, List, ◌∷◌, Text, Bool, true, false, if◌then◌else◌,
  Option, none, some, ◌⊎◌, inl, inr, pos, arith, Bool-cases, length, length-take-le, if_both,
  leb→le,
}
use serp_harvester.Robots.{is_empty}
use serp_harvester.Fetcher.{Request, Response, Error, FetchResult, fetched, failed, success}
use serp_harvester.Fetcher.Classify
use serp_harvester.Fetcher.Pages.{
  PageKind, normal, consent, captcha, interstitial, challenge, truncate,
}
use serp_harvester.Fetcher.Http.{max_body_bytes}
use serp_harvester.Fetcher.Sessions.{
  PlaywrightConfig, Session, Pool, Driver, Acquired, session, refusal, acquire,
}
use serp_harvester.Fetcher.Sessions.Conservation.Steps.{
  IsValid, held, acquire-IsValid, release-IsValid,
}
use serp_harvester.Metrics.Browser.{BrowserCounters}
use serp_harvester.Fetcher.Render.{
  Pages, Landed, Shown, Click, no_button, click_error, navigated, Outcome, status_of, rendered,
  after_wait, on_selector, await_selector, by_status, by_block, by_kind, after_consent, on_click,
  on_kind, on_content, on_goto, go_to, render, finish, with_session, fetch_browser,
  navigation_failed, content_failed, is_fetched,
}

-- A response has a status between 1 and 399 and keeps to the limit on the body; an error is not
-- taken for a success.
abbrev pub Sound : FetchResult → Type 0
Sound (fetched r) = (r.status_code ≢ 0) × (r.status_code < 400) × (length r.body ≤ max_body_bytes)
Sound (failed e) = Classify.classify (some e) ≢ success

length-truncate-le : (s : Text) (n : ℕ) → length (truncate s n) ≤ n
unfolding truncate
length-truncate-le s n = elim (Bool-cases (leb (length s) n)) [
  | inl e ↦ rw e (leb→le _ n e)
  | inr e ↦ rw e (length-take-le n s)
]

module _ {S D : Type 0} (driver : Driver S) (pages : Pages S D) (cfg : PlaywrightConfig) where
  abbrev Fine : Outcome S → Type 0
  Fine r = Sound r.0

  rendered-Sound :
      (s : Session) (start : ℕ) (shown : Shown) (w : S)
      → status_of shown.response < 400
      → Sound (rendered driver pages cfg s start shown w)
  unfolding rendered
  rendered-Sound s start shown w h =
      (ground (arith, h), ground (arith, h), length-truncate-le shown.html max_body_bytes)

  module _ (s : Session) (req : Request) (start deadline : ℕ) where
    after_wait-Fine :
        (shown : Shown) (b : BrowserCounters) (x : (Error ⊎ Text) × S)
        → status_of shown.response < 400
        → Fine (after_wait driver pages cfg s start shown b x)
    unfolding after_wait content_failed
    after_wait-Fine shown b (inl e, w) h = Classify.classify-ne-success _
    after_wait-Fine shown b (inr html, w) h =
        rendered-Sound s start (record shown { html = html }) w h

    on_selector-Fine :
        (shown : Shown) (b : BrowserCounters) (x : Bool × S)
        → status_of shown.response < 400
        → Fine (on_selector driver pages cfg s start shown b x)
    unfolding on_selector
    on_selector-Fine shown b (false, w) h = rendered-Sound s start shown w h
    on_selector-Fine shown b (true, w) h = after_wait-Fine shown b _ h

    await_selector-Fine :
        (shown : Shown) (b : BrowserCounters) (w : S)
        → status_of shown.response < 400
        → Fine (await_selector driver pages cfg s req start deadline shown b w)
    unfolding await_selector
    await_selector-Fine shown b w h =
        if_both Fine
          (is_empty (if is_empty req.wait_selector then cfg.wait_selector else req.wait_selector)) _
          _ (rendered-Sound s start shown w h) (on_selector-Fine shown b _ h)

    by_status-Fine :
        (shown : Shown) (b : BrowserCounters) (w : S)
        → Fine (by_status driver pages cfg s req start deadline shown b w)
    unfolding by_status
    by_status-Fine shown b w = elim (Bool-cases (leb 400 (status_of shown.response))) [
      | inl e ↦
          if_both Fine (status_of shown.response == 429) _ _ (Classify.classify-ne-success _)
            (rw e (Classify.classify-ne-success _))
      | inr e ↦
          if_both Fine (status_of shown.response == 429) _ _ (Classify.classify-ne-success _)
            (rw e (await_selector-Fine shown b w (ground (arith, e))))
    ]

    by_block-Fine :
        (kind : PageKind) (shown : Shown) (o : Option Error) (b : BrowserCounters) (w : S)
        → Fine (by_block driver pages cfg s req start deadline kind shown o b w)
    unfolding by_block
    by_block-Fine kind shown (some e) b w = Classify.classify-ne-success e
    by_block-Fine kind shown none b w = by_status-Fine shown b w

    by_kind-Fine :
        (kind : PageKind) (shown : Shown) (b : BrowserCounters) (w : S)
        → Fine (by_kind driver pages cfg s req start deadline kind shown b w)
    unfolding by_kind
    by_kind-Fine kind shown b w = by_block-Fine kind shown _ b w

    after_consent-Fine :
        (t : Text) (next : Option Landed) (b : BrowserCounters) (x : (Error ⊎ Text) × S)
        → Fine (after_consent driver pages cfg s req start deadline t next b x)
    unfolding after_consent content_failed
    after_consent-Fine t next b (inl e, w) = Classify.classify-ne-success _
    after_consent-Fine t next b (inr html, w) = by_kind-Fine _ _ b w

    on_click-Fine :
        (shown : Shown) (b : BrowserCounters) (x : Click × S)
        → Fine (on_click driver pages cfg s req start deadline shown b x)
    unfolding on_click navigation_failed
    on_click-Fine shown b (click_error e, w) = Classify.classify-ne-success _
    on_click-Fine shown b (no_button, w) = by_block-Fine consent shown _ b w
    on_click-Fine shown b (navigated next, w) = after_consent-Fine _ next _ _

    on_kind-Fine :
        (kind : PageKind) (shown : Shown) (b : BrowserCounters) (w : S)
        → Fine (on_kind driver pages cfg s req start deadline kind shown b w)
    unfolding on_kind
    on_kind-Fine consent shown b w = on_click-Fine shown b _
    on_kind-Fine normal shown b w = by_kind-Fine normal shown b w
    on_kind-Fine captcha shown b w = by_kind-Fine captcha shown b w
    on_kind-Fine interstitial shown b w = by_kind-Fine interstitial shown b w
    on_kind-Fine challenge shown b w = by_kind-Fine challenge shown b w

    on_content-Fine :
        (o : Option Landed) (b : BrowserCounters) (x : (Error ⊎ Text) × S)
        → Fine (on_content driver pages cfg s req start deadline o b x)
    unfolding on_content content_failed
    on_content-Fine o b (inl e, w) = Classify.classify-ne-success _
    on_content-Fine o b (inr html, w) = on_kind-Fine _ _ b w

    on_goto-Fine :
        (b : BrowserCounters) (x : (Error ⊎ Option Landed) × S)
        → Fine (on_goto driver pages cfg s req start deadline b x)
    unfolding on_goto navigation_failed
    on_goto-Fine b (inl e, w) = Classify.classify-ne-success _
    on_goto-Fine b (inr o, w) = on_content-Fine o b _

    go_to-Fine :
        (x : Error ⊎ Text) (b : BrowserCounters) (w : S)
        → Fine (go_to driver pages cfg s req start deadline x b w)
    unfolding go_to
    go_to-Fine (inl e) b w = Classify.classify-ne-success e
    go_to-Fine (inr t) b w = on_goto-Fine b _

  render-Fine :
      (s : Session) (req : Request) (b : BrowserCounters) (w : S)
      → Fine (render driver pages cfg s req b w)
  unfolding render
  render-Fine s req b w = go_to-Fine s req _ _ _ b w

  finish-Sound :
      (s : Session) (r : FetchResult) (o : Option Error) (p : Pool) (w : S)
      → Sound r
      → Sound (finish driver pages cfg s r o p w).0
  unfolding finish
  finish-Sound s r none p w h = h
  finish-Sound s r (some e) p w h = Classify.classify-ne-success e

  with_session-Sound :
      (req : Request) (x : Acquired) (p : Pool) (w : S)
      → Sound (with_session driver pages cfg req x p w).0
  unfolding with_session
  with_session-Sound req (refusal e) p w = Classify.classify-ne-success e
  with_session-Sound req (session s) p w = finish-Sound s _ _ _ _ (render-Fine s req _ w)

  -- A response of the browser has a status from 1 to 399 and a body of at most 5 MiB, and an error
  -- is never classified as a success, on every path: no session to be had, an invalid endpoint, a
  -- failed or canceled navigation, the consent step, the wait for a selector.
  pub fetch_browser-Sound :
      (req : Request) (p : Pool) (w : S)
      → ((r : Response)
          → (fetch_browser driver pages cfg req p w).0 ≡ fetched r
          → (r.status_code ≢ 0) × (r.status_code < 400) × (length r.body ≤ max_body_bytes))
        × ((e : Error)
            → (fetch_browser driver pages cfg req p w).0 ≡ failed e
            → Classify.classify (some e) ≢ success)
  unfolding fetch_browser
  fetch_browser-Sound req p w =
      let (x, p', w') = acquire driver cfg req p w in
      let s = with_session-Sound req x p' w' in
      ((λ r h. let all : Sound (fetched r) = subst Sound h s in all), (λ e h. subst Sound h s))

  module _ (n m : ℕ) (size : cfg.pool_size ≡ pos n) (uses : cfg.max_session_uses ≡ pos m) where
    finish-IsValid :
        (s : Session) (r : FetchResult) (o : Option Error) (p : Pool) (w : S) (out : List Session)
        → IsValid driver cfg n m p (s ∷ out)
        → IsValid driver cfg n m (finish driver pages cfg s r o p w).1 out
    unfolding finish
    finish-IsValid s r none p w out v =
        release-IsValid driver cfg n m size uses (is_fetched r) s p w (s ∷ out) 0 refl v
    finish-IsValid s r (some e) p w out v =
        release-IsValid driver cfg n m size uses false s p _ (s ∷ out) 0 refl v

    with_session-IsValid :
        (req : Request) (x : Acquired) (p : Pool) (w : S) (out : List Session)
        → IsValid driver cfg n m p (held x out)
        → IsValid driver cfg n m (with_session driver pages cfg req x p w).1 out
    unfolding with_session
    with_session-IsValid req (refusal e) p w out v = v
    with_session-IsValid req (session s) p w out v =
        finish-IsValid s _ _ _ _ out (record { books = v.books; taken = v.taken })

    -- A fetch that starts while a slot is free gives back what it took, however it ends: the
    -- sessions out and the slots taken are those of before, and the books are kept.
    pub fetch_browser-IsValid :
        (req : Request) (p : Pool) (w : S) (out : List Session)
        → IsValid driver cfg n m p out
        → p.slots < n
        → IsValid driver cfg n m (fetch_browser driver pages cfg req p w).1 out
    unfolding fetch_browser
    fetch_browser-IsValid req p w out v free =
        let (x, p', w') = acquire driver cfg req p w in
        with_session-IsValid req x p' w' out
          (acquire-IsValid driver cfg n m size uses req p w out v free)
