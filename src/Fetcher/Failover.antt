-- ===== src/Fetcher/Failover.antt =====
-- internal/fetcher/failover.go: a second fetcher for the pages that need one. A fetcher changes the
-- world `S` that it runs in; `ended` says whether the context has ended.
use serp_harvester.Prelude.{
  ◌≡◌, refl, ◌≢◌, Bool, true, false, if◌then◌else◌, Option, none, some, ◌⊎◌, inl, inr, Bool-cases,
  sym, ◌∙◌,
}
use serp_harvester.Fetcher.{
  Request, FetchResult, fetched, failed, error_of, Outcome, interstitial, consent, captcha,
  challenge, rate_limited,
}
use serp_harvester.Fetcher.Classify.{classify}

-- `DefaultFailoverOn`
unfoldable pub default_failover_on : Outcome → Bool
default_failover_on interstitial = true
default_failover_on consent = true
default_failover_on _ = false

-- `FailoverFetcher`; `failover_on` and `on_failover` may be nil.
pub record FailoverFetcher (S : Type 0) : Type 0 where
  pub primary : Request → S → FetchResult × S
  pub secondary : Request → S → FetchResult × S
  pub failover_on : Option (Outcome → Bool)
  pub on_failover : Option (Outcome → S → S)

module _ {S : Type 0} (ended : S → Bool) where
  unfoldable pub failover_test : FailoverFetcher S → Outcome → Bool
  failover_test f outcome = elim f.failover_on [
    | none ↦ default_failover_on outcome
    | some on ↦ on outcome
  ]

  unfoldable pub notify : Option (Outcome → S → S) → Outcome → S → S
  notify none outcome w = w
  notify (some hook) outcome w = hook outcome w

  -- `Fetch`, after the primary's result.
  unfoldable pub after_primary : FailoverFetcher S → Request → FetchResult → S → FetchResult × S
  after_primary f req (fetched r) w = (fetched r, w)
  after_primary f req (failed e) w =
      if ended w
      then (failed e, w)
      else (let outcome = classify (some e) in
          if failover_test f outcome
          then f.secondary req (notify f.on_failover outcome w)
          else (failed e, w))

  -- `Fetch`
  unfoldable pub fetch_failover : FailoverFetcher S → Request → S → FetchResult × S
  fetch_failover f req w = let (r, w') = f.primary req w in after_primary f req r w'

  -- What a call does with the primary's result `r` and the world `w` that it left.
  abbrev Cases : FailoverFetcher S → Request → FetchResult → S → FetchResult × S → Type 0
  Cases f req r w x =
      let outcome = classify (error_of r) in
      ((x ≡ (r, w)) × ((ended w ≡ true) ⊎ (failover_test f outcome ≡ false) ⊎ (error_of r ≡ none)))
      ⊎ ((x ≡ f.secondary req (notify f.on_failover outcome w))
          × (ended w ≡ false)
          × (failover_test f outcome ≡ true)
          × (error_of r ≢ none))

  after_primary-Cases :
      (f : FailoverFetcher S) (req : Request) (r : FetchResult) (w : S)
      → Cases f req r w (after_primary f req r w)
  unfolding after_primary
  after_primary-Cases f req (fetched r) w = inl (refl, inr (inr refl))
  after_primary-Cases f req (failed e) w = elim (Bool-cases (ended w)) [
    | inl over ↦ rw over (inl (refl, inl refl))
    | inr alive ↦ elim (Bool-cases (failover_test f (classify (some e)))) [
      | inl accepted ↦ rw (alive, accepted) (inr (refl, refl, refl, (λ h. cc)))
      | inr refused ↦ rw (alive, refused) (inl (refl, inr (inl refl)))
    ]
  ]

  -- The secondary fetcher runs exactly when the primary fails, the context is still alive, and the
  -- test accepts the outcome; it runs on the same request, after the hook.
  pub fetch_failover_cases :
      (f : FailoverFetcher S) (req : Request) (w : S)
      → let (r, w') = f.primary req w in
        ((fetch_failover f req w ≡ (r, w'))
          × ((ended w' ≡ true)
              ⊎ (failover_test f (classify (error_of r)) ≡ false)
              ⊎ (error_of r ≡ none)))
        ⊎ ((fetch_failover f req w
              ≡ f.secondary req (notify f.on_failover (classify (error_of r)) w'))
            × (ended w' ≡ false)
            × (failover_test f (classify (error_of r)) ≡ true)
            × (error_of r ≢ none))
  unfolding fetch_failover
  fetch_failover_cases f req w = after_primary-Cases f req (f.primary req w).0 (f.primary req w).1

  default_test :
      (f : FailoverFetcher S) (o : Outcome)
      → f.failover_on ≡ none
      → failover_test f o ≡ default_failover_on o
  unfolding failover_test
  default_test f o h = rw h refl

  blocked_test :
      (o : Outcome)
      → (o ≡ captcha) ⊎ (o ≡ challenge) ⊎ (o ≡ rate_limited)
      → default_failover_on o ≡ false
  unfolding default_failover_on
  blocked_test o (inl e) = rw e refl
  blocked_test o (inr (inl e)) = rw e refl
  blocked_test o (inr (inr e)) = rw e refl

  true_ne_false : true ≢ false
  true_ne_false h = cc

  -- With the default test, a CAPTCHA, a challenge page or a rate limit is never taken to the
  -- secondary fetcher: the primary's result and the world it left are returned as they are.
  pub fetch_failover_blocked :
      (f : FailoverFetcher S) (req : Request) (w : S)
      → f.failover_on ≡ none
      → (classify (error_of (f.primary req w).0) ≡ captcha)
        ⊎ (classify (error_of (f.primary req w).0) ≡ challenge)
        ⊎ (classify (error_of (f.primary req w).0) ≡ rate_limited)
      → fetch_failover f req w ≡ f.primary req w
  fetch_failover_blocked f req w h c = elim (fetch_failover_cases f req w) [
    | inl (e, why) ↦ e
    | inr (e, alive, accepted, some_error) ↦
        absurd (true_ne_false (sym accepted ∙ default_test f _ h ∙ blocked_test _ c))
  ]
