-- ===== src/Fetcher/Sessions/Conservation/Slots.antt =====
-- internal/fetcher/playwright.go: the slots that `acquire` takes.
use serp_harvester.Prelude.{
  ℕ, ◌+◌, ◌≡◌, refl, ◌∙◌, ◌⊎◌, inl, inr, ltb, Option, none, some, arith, Text, if_both,
}
use serp_harvester.Fetcher.{Request, Error}
use serp_harvester.Fetcher.Sessions.{
  PlaywrightConfig, Session, Pool, Driver, Sifted, Acquired, session, refusal, drop_dead, on_launch,
  launch_browser, relaunch, browser_or, browser_locked, on_session, open_session, choose,
  with_browser, acquire,
}

module _ {S : Type 0} (driver : Driver S) (cfg : PlaywrightConfig) where
  -- What a call of `acquire` adds to the slots that are taken.
  abbrev pub Slots : ℕ → Acquired × Pool × S → Type 0
  Slots k (session s, p, w) = p.slots ≡ k + 1
  Slots k (refusal e, p, w) = p.slots ≡ k

  on_session-Slots :
      (k b : ℕ) (key : Text) (x : Error ⊎ ℕ) (p : Pool) (w : S)
      → p.slots ≡ k + 1
      → let (r, p') = on_session driver cfg b key x p in Slots k (r, p', w)
  unfolding on_session
  on_session-Slots k b key (inl e) p w h = omega (arith, h)
  on_session-Slots k b key (inr context) p w h = h

  choose-Slots :
      (k b : ℕ) (req : Request) (x : Sifted) (p : Pool) (w : S)
      → p.slots ≡ k + 1
      → Slots k (choose driver cfg b req x p w)
  unfolding choose open_session
  choose-Slots k b req x p w h = go x.reuse refl
    where
      go : (o : Option Session) → x.reuse ≡ o → Slots k (choose driver cfg b req x p w)
      go none e = rw e (on_session-Slots k b _ _ _ _ h)
      go (some s) e = rw e h

  with_browser-Slots :
      (k : ℕ) (req : Request) (x : Error ⊎ ℕ) (p : Pool) (w : S)
      → p.slots ≡ k + 1
      → Slots k (with_browser driver cfg req x p w)
  unfolding with_browser
  with_browser-Slots k req (inl e) p w h = omega (arith, h)
  with_browser-Slots k req (inr b) p w h = choose-Slots k b req _ _ w h

  on_launch-slots :
      (p : Pool) (w : S) (x : Error ⊎ ℕ) → (on_launch driver cfg p w x).1.slots ≡ p.slots
  unfolding on_launch
  on_launch-slots p w (inl e) = refl
  on_launch-slots p w (inr b) = refl

  drop_dead-slots : (o : Option ℕ) (p : Pool) → (drop_dead driver cfg o p).slots ≡ p.slots
  unfolding drop_dead
  drop_dead-slots none p = refl
  drop_dead-slots (some b) p = refl

  relaunch-slots : (p : Pool) (w : S) → (relaunch driver cfg p w).1.slots ≡ p.slots
  unfolding relaunch launch_browser
  relaunch-slots p w =
      let Kept = λ (r : (Error ⊎ ℕ) × Pool × S). r.1.slots ≡ p.slots in
      if_both Kept p.closed _ _ refl (
        if_both Kept (ltb (driver.clock w) p.next_launch) _ _ refl
          (on_launch-slots _ _ _ ∙ drop_dead-slots p.browser p))

  pub browser_or-slots :
      (o : Option ℕ) (p : Pool) (w : S) → (browser_or driver cfg o p w).1.slots ≡ p.slots
  unfolding browser_or
  browser_or-slots none p w = relaunch-slots p w
  browser_or-slots (some b) p w =
      if_both (λ (r : (Error ⊎ ℕ) × Pool × S). r.1.slots ≡ p.slots) (driver.connected w b) _ _ refl
        (relaunch-slots p w)

  pub acquire-Slots :
      (req : Request) (p : Pool) (w : S) → Slots p.slots (acquire driver cfg req p w)
  unfolding acquire browser_locked
  acquire-Slots req p w = if_both (Slots p.slots) p.closed _ _ refl (
      with_browser-Slots p.slots req _ _ _
        (browser_or-slots p.browser (record p { slots = p.slots + 1 }) w))
