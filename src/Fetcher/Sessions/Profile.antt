-- ===== src/Fetcher/Sessions/Profile.antt =====
-- internal/fetcher/playwright.go: `sessionKey`, and which session a request is given.
use serp_harvester.Prelude.{
  ℕ, ◌≡◌, ◌≢◌, refl, sym, ◌∙◌, ◌⊎◌, inl, inr, List, [], ◌∷◌, ◌++◌, Bool, true, Option, none, some,
  Text, text_eq_iff, ==_iff, arith, Bool-cases, if_both, subst,
}
use serp_harvester.Fetcher.{Request, Error}
use serp_harvester.Fetcher.Sessions.{
  PlaywrightConfig, Session, Pool, Driver, Sifted, sift, Acquired, session, refusal, locale_tag,
  device_profile_for, join_zero, session_key, fits, choose, open_session, on_session, with_browser,
  acquire,
}

-- No byte of a text is 0.
abbrev pub NoZero : Text → Type 0
NoZero [] = Unit {0}
NoZero (c ∷ s) = (c ≢ 0) × NoZero s

-- The first part of a text that a 0 ends is determined, and so is the rest.
cut_zero : (s t u v : Text) → NoZero s → NoZero t → s ++ 0 ∷ u ≡ t ++ 0 ∷ v → (s ≡ t) × (u ≡ v)
cut_zero [] [] u v zs zt e = ground (arith, e)
cut_zero [] (c ∷ t) u v zs (z, zt) e = absurd (z (ground (arith, e)))
cut_zero (c ∷ s) [] u v (z, zs) zt e = absurd (z (ground (arith, e)))
cut_zero (c ∷ s) (d ∷ t) u v (z, zs) (y, zt) e =
    let (p, q) = cut_zero s t u v zs zt (ground (arith, e)) in (ground (arith, e, p), q)

module _ {S : Type 0} (driver : Driver S) (cfg : PlaywrightConfig) where
  -- The parts of a key.
  abbrev pub profile_of : Request → Text × Text × Text × Text
  profile_of req = (
    req.proxy_url,
    req.user_agent,
    locale_tag driver.to_upper req.language req.country,
    (device_profile_for driver.to_lower req.device).name,
  )

  -- The parts that are joined hold no byte 0, but for the last, where it does no harm.
  abbrev pub IsPlain : Request → Type 0
  IsPlain req =
      NoZero req.proxy_url
      × NoZero req.user_agent
      × NoZero (locale_tag driver.to_upper req.language req.country)

  -- Two requests with the same session key agree on proxy, User-Agent, locale and device, so that a
  -- session is never shared between profiles; the parts must hold no byte 0, which the key uses as
  -- a separator.
  pub session_key-inj :
      (req req' : Request)
      → IsPlain req
      → IsPlain req'
      → session_key driver cfg req ≡ session_key driver cfg req'
      → (req.proxy_url ≡ req'.proxy_url)
        × (req.user_agent ≡ req'.user_agent)
        × (locale_tag driver.to_upper req.language req.country
            ≡ locale_tag driver.to_upper req'.language req'.country)
        × ((device_profile_for driver.to_lower req.device).name
            ≡ (device_profile_for driver.to_lower req'.device).name)
  unfolding session_key join_zero
  session_key-inj req req' (a, b, c) (a', b', c') e =
      let (p, e₁) = cut_zero _ _ _ _ a a' e in
      let (q, e₂) = cut_zero _ _ _ _ b b' e₁ in
      let (r, d) = cut_zero _ _ _ _ c c' e₂ in (p, q, r, d)

  -- The session that a request is given, if any, has the key of the request.
  abbrev Keyed : Request → Acquired → Type 0
  Keyed req (session s) = s.key ≡ session_key driver cfg req
  Keyed req (refusal e) = Unit {0}

  abbrev Fitting : (Session → Bool) → Option Session → Type 0
  Fitting fit none = Unit {0}
  Fitting fit (some s) = fit s ≡ true

  sift-Fitting :
      (dead fit : Session → Bool) (o : Option Session) (ss : List Session)
      → Fitting fit o
      → Fitting fit (sift dead fit o ss).reuse
  unfolding sift
  sift-Fitting dead fit o [] h = h
  sift-Fitting dead fit (some r) (s ∷ ss) h =
      if_both (λ (x : Sifted). Fitting fit x.reuse) (dead s) _ _
        (sift-Fitting dead fit (some r) ss h) (sift-Fitting dead fit (some r) ss h)
  sift-Fitting dead fit none (s ∷ ss) h = elim (Bool-cases (fit s)) [
    | inl e ↦
        if_both (λ (x : Sifted). Fitting fit x.reuse) (dead s) _ _ (sift-Fitting dead fit none ss h)
          (rw e (sift-Fitting dead fit (some s) ss e))
    | inr e ↦
        if_both (λ (x : Sifted). Fitting fit x.reuse) (dead s) _ _ (sift-Fitting dead fit none ss h)
          (rw e (sift-Fitting dead fit none ss h))
  ]

  on_session-Keyed :
      (req : Request) (b : ℕ) (x : Error ⊎ ℕ) (p : Pool)
      → Keyed req (on_session driver cfg b (session_key driver cfg req) x p).0
  unfolding on_session
  on_session-Keyed req b (inl e) p = tt
  on_session-Keyed req b (inr context) p = refl

  fits-key :
      (key : Text) (b : ℕ) (s : Session)
      → fits driver cfg key b s ≡ true
      → (s.key ≡ key) × (s.browser ≡ b)
  unfolding fits
  fits-key key b s h = ground (arith, h, (text_eq_iff s.key key).0, (==_iff s.browser b).0)

  choose-Keyed :
      (req : Request) (b : ℕ) (x : Sifted) (p : Pool) (w : S)
      → Fitting (fits driver cfg (session_key driver cfg req) b) x.reuse
      → Keyed req (choose driver cfg b req x p w).0
  unfolding choose open_session
  choose-Keyed req b x p w h = go x.reuse refl
    where
      go : (o : Option Session) → x.reuse ≡ o → Keyed req (choose driver cfg b req x p w).0
      go none e = rw e (on_session-Keyed req b _ _)
      go (some s) e = rw e ((fits-key _ b s (rw e at h)).0)

  with_browser-Keyed :
      (req : Request) (x : Error ⊎ ℕ) (p : Pool) (w : S)
      → Keyed req (with_browser driver cfg req x p w).0
  unfolding with_browser
  with_browser-Keyed req (inl e) p w = tt
  with_browser-Keyed req (inr b) p w = choose-Keyed req b _ _ w (sift-Fitting _ _ none p.idle tt)

  acquire-Keyed : (req : Request) (p : Pool) (w : S) → Keyed req (acquire driver cfg req p w).0
  unfolding acquire
  acquire-Keyed req p w =
      if_both (λ (r : Acquired × Pool × S). Keyed req r.0) p.closed _ _ tt
        (with_browser-Keyed req _ _ _)

  -- A session that is given to a request, opened for it or reused, has the key of the request.
  pub acquire_key :
      (req : Request) (p : Pool) (w : S) (s : Session)
      → (acquire driver cfg req p w).0 ≡ session s
      → s.key ≡ session_key driver cfg req
  acquire_key req p w s e = subst (Keyed req) e (acquire-Keyed req p w)

  -- Two requests that are given sessions with one key, or the same session, agree on proxy,
  -- User-Agent, locale and device: a browser context and its cookies never cross profiles. The
  -- parts of the key must hold no byte 0, which separates them.
  pub acquire_profile :
      (req req' : Request) (p p' : Pool) (w w' : S) (s s' : Session)
      → IsPlain req
      → IsPlain req'
      → (acquire driver cfg req p w).0 ≡ session s
      → (acquire driver cfg req' p' w').0 ≡ session s'
      → s.key ≡ s'.key
      → profile_of req ≡ profile_of req'
  acquire_profile req req' p p' w w' s s' plain plain' e e' same =
      let (a, b, c, d) =
        session_key-inj req req' plain plain'
          (sym (acquire_key req p w s e) ∙ same ∙ acquire_key req' p' w' s' e') in
      ground (arith, a, b, c, d)
