-- ===== src/Fetcher/Provider/Overview.antt =====
-- internal/fetcher/provider.go: the second request, for an AI overview, and what a fetch returns.
use serp_harvester.Prelude.{
  ℕ, ◌==◌, ◌≡◌, refl, ◌⊎◌, inl, inr, ap, List, Text, bytes, true, not, if◌then◌else◌, Option, none,
  some, lookup, insert, Bool-cases, Option-cases, arith, false, ◌↔◌, sym, ◌∙◌, subst,
}
use mathlib.Core.Option.{none-ne-some, some-injective}
use serp_harvester.Robots.{is_empty}
use serp_harvester.Fetcher.{Request, error_of, Outcome, success, rate_limited, other, is_retryable}
use serp_harvester.Fetcher.Classify.{
  classify, as_rate_limit, classify_links, as_blocked, classify_blocked, as_status, classify_status,
  classify_network, any_link, is_canceled, is_deadline, is_transport, as_net,
}
use serp_harvester.Fetcher.Provider.{
  Provider, ProviderFetcher, Stub, Got, good, fetch_ai_overview_page, merged, follow_up, of_member,
  of_top, resolve_ai_overview, needs_follow_up, after_get,
}

module _ {S : Type 0} (lib : Provider S) (f : ProviderFetcher) (proxy : Text) where
  -- The body is an object whose `ai_overview` is a stub: it has a page token and no text blocks.
  abbrev pub HasStub : Text → List (Text × Text) → Stub → Type 0
  HasStub body top s =
      (lib.object body ≡ some top)
      × ((raw : Text) × (lookup (bytes "ai_overview") top ≡ some raw) × (lib.stub raw ≡ some s))
      × (is_empty s.page_token ≡ false)
      × (s.text_blocks ≡ 0)

  -- What becomes of the body of a stub: with the page of the second request in the place of the
  -- stub; or as it was, when that request failed or the object cannot be written.
  abbrev pub Merges : List (Text × Text) → Stub → Text → S → Text × S → Type 0
  Merges top s body w r =
      ((page : Text) × (fetch_ai_overview_page lib f proxy s.page_token w ≡ (some page, r.1))
        × (lib.marshal (insert (bytes "ai_overview") page top) ≡ some r.0))
      ⊎ ((fetch_ai_overview_page lib f proxy s.page_token w ≡ (none, r.1)) × (r.0 ≡ body))
      ⊎ ((page : Text) × (fetch_ai_overview_page lib f proxy s.page_token w ≡ (some page, r.1))
          × (lib.marshal (insert (bytes "ai_overview") page top) ≡ none)
          × (r.0 ≡ body))

  abbrev Resolved : Text → S → Text × S → Type 0
  Resolved body w r =
      ((top : List (Text × Text)) × (s : Stub) × HasStub body top s × Merges top s body w r)
      ⊎ (((top : List (Text × Text)) (s : Stub) → ¬ HasStub body top s) × (r ≡ (body, w)))

  needs_follow_up_iff :
      (s : Stub)
      → (needs_follow_up s ≡ true) ↔ ((is_empty s.page_token ≡ false) × (s.text_blocks ≡ 0))
  unfolding needs_follow_up
  needs_follow_up_iff s = (
    (λ h. (ground (arith, h), ground (arith, h))),
    (λ (token, blocks). ground (arith, token, blocks)),
  )

  merged-Merges :
      (top : List (Text × Text)) (s : Stub) (body : Text) (w w' : S) (o : Option Text)
      → fetch_ai_overview_page lib f proxy s.page_token w ≡ (o, w')
      → Merges top s body w (merged lib f body top o, w')
  unfolding merged
  merged-Merges top s body w w' none h = inr (inl (h, refl))
  merged-Merges top s body w w' (some page) h =
      elim (Option-cases (lib.marshal (insert (bytes "ai_overview") page top))) [
        | inl e ↦ rw (merged, e) (inr (inr (page, h, e, refl)))
        | inr (text, e) ↦ rw (merged, e) (inl (page, h, e))
      ]

  clash : false ≡ true → ⊥
  clash h = cc

  -- Only this stub can be the body's.
  only_stub :
      (body raw : Text) (top top' : List (Text × Text)) (o : Option Stub) (s' : Stub)
      → lib.object body ≡ some top
      → lookup (bytes "ai_overview") top ≡ some raw
      → lib.stub raw ≡ o
      → HasStub body top' s'
      → o ≡ some s'
  only_stub body raw top top' o s' h l e (h', (raw', l', e'), token, blocks) =
      let same = some-injective _ _ (sym h ∙ h') in
      let raws =
        some-injective _ _
          (sym l ∙ subst (λ t. lookup (bytes "ai_overview") t ≡ some raw') (sym same) l') in
      sym e ∙ subst (λ x. lib.stub x ≡ some s') (sym raws) e'

  follow_up-Resolved :
      (body raw : Text) (top : List (Text × Text)) (o : Option Stub) (w : S)
      → lib.object body ≡ some top
      → lookup (bytes "ai_overview") top ≡ some raw
      → lib.stub raw ≡ o
      → Resolved body w (follow_up lib f proxy body top o w)
  unfolding follow_up
  follow_up-Resolved body raw top none w h l e =
      inr ((λ top' s' stub. none-ne-some _ (only_stub body raw top top' none s' h l e stub)), refl)
  follow_up-Resolved body raw top (some s) w h l e = elim (Bool-cases (needs_follow_up s)) [
    | inl asks ↦
        let (token, blocks) = (needs_follow_up_iff s).0 asks in
        rw asks (inl (top, s, (h, (raw, l, e), token, blocks), merged-Merges top s body w _ _ refl))
    | inr idle ↦ rw idle (
        inr (
          (λ top' s' stub.
              let same = some-injective _ _ (only_stub body raw top top' (some s) s' h l e stub) in
              let (h', found, token, blocks) = stub in
              clash
                (sym idle ∙ ap needs_follow_up same ∙ (needs_follow_up_iff s').1 (token, blocks))),
          refl,
        ))
  ]

  of_member-Resolved :
      (body : Text) (top : List (Text × Text)) (o : Option Text) (w : S)
      → lib.object body ≡ some top
      → lookup (bytes "ai_overview") top ≡ o
      → Resolved body w (of_member lib f proxy body top o w)
  unfolding of_member
  of_member-Resolved body top none w h l = inr (
    (λ top' s' (h', (raw, l', e'), token, blocks). none-ne-some _ (
        sym l
        ∙ subst (λ t. lookup (bytes "ai_overview") t ≡ some raw)
            (sym (some-injective _ _ (sym h ∙ h'))) l')),
    refl,
  )
  of_member-Resolved body top (some raw) w h l =
      follow_up-Resolved body raw top (lib.stub raw) w h l refl

  of_top-Resolved :
      (body : Text) (o : Option (List (Text × Text))) (w : S)
      → lib.object body ≡ o
      → Resolved body w (of_top lib f proxy body o w)
  unfolding of_top
  of_top-Resolved body none w h =
      inr ((λ top s (h', found, token, blocks). none-ne-some _ (sym h ∙ h')), refl)
  of_top-Resolved body (some top) w h =
      of_member-Resolved body top (lookup (bytes "ai_overview") top) w h refl

  -- Either the body's `ai_overview` is a stub, with a page token and no text blocks: then there is a
  -- second request for it, and the body comes back with the page of that request in the place of
  -- the stub, or as it was when the request failed or the object cannot be written. Or there is no
  -- such stub: then nothing is requested and the body comes back as it was.
  pub resolve_ai_overview_cases :
      (body : Text) (w : S)
      → let r = resolve_ai_overview lib f proxy body w in
        ((top : List (Text × Text)) × (s : Stub) × HasStub body top s × Merges top s body w r)
        ⊎ (((top : List (Text × Text)) (s : Stub) → ¬ HasStub body top s) × (r ≡ (body, w)))
  unfolding resolve_ai_overview
  resolve_ai_overview_cases body w = of_top-Resolved body (lib.object body) w refl

-- The outcomes of an answer of the provider.
abbrev pub outcome_of_answer : ℕ → Outcome
outcome_of_answer status =
    if status == 429 then rate_limited else if status == 200 then success else other

module _ {S : Type 0} (lib : Provider S) (f : ProviderFetcher) where
  -- The status of an answer decides the outcome of a fetch, whatever the answer's body holds and
  -- however the request for an AI overview ends: 200 is a success, 429 a rate limit, and every
  -- other status, 4xx and 5xx alike, is of the class `other`, which is retried.
  pub after_get-outcome :
      (req : Request) (start : ℕ) (g : Got) (w : S)
      → (classify (error_of (after_get lib f req start (good g) w).0) ≡ outcome_of_answer g.status)
        × (is_retryable (outcome_of_answer g.status) ≡ not (g.status == 200))
  unfolding after_get classify as_rate_limit classify_links as_blocked classify_blocked as_status
      classify_status classify_network any_link is_canceled is_deadline is_transport as_net
      is_retryable
  after_get-outcome req start g w = (ground arith, ground arith)
