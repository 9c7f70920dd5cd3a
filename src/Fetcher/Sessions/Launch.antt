-- ===== src/Fetcher/Sessions/Launch.antt =====
-- internal/fetcher/playwright.go: `browserLocked`, its launches and the wait after a failed one.
use native.Mathlib.Nat.{one-le-pow}
use serp_harvester.Prelude.{
  ℕ, ◌+◌, ◌-◌, ◌*◌, ◌≤◌, ◌<◌, min, ◌≡◌, refl, sym, ◌⊎◌, inl, inr, false, if◌then◌else◌, Option,
  none, some, arith, lt→ltb, if_both, subst, bytes,
}
use serp_harvester.Fetcher.{Error, wrap}
use serp_harvester.Fetcher.Sessions.{
  PlaywrightConfig, Pool, Driver, second, launch_backoff, on_launch, launch_browser, relaunch,
  browser_or, browser_locked, drop_dead, err_fetcher_closed, err_browser_unavailable,
}

launch_backoff-Bounds : (k : ℕ) → (second ≤ launch_backoff k) × (launch_backoff k ≤ 30 * second)
unfolding launch_backoff
launch_backoff-Bounds k = (omega (arith, one-le-pow (min (k - 1) 5) 2 (omega arith)), omega arith)

module _ {S : Type 0} (driver : Driver S) (cfg : PlaywrightConfig) where
  -- The browser of the fetcher is not connected in a world.
  abbrev pub Down : Option ℕ → S → Type 0
  Down none w = Unit {0}
  Down (some b) w = driver.connected w b ≡ false

  on_launch-waits :
      (p : Pool) (w v : S) (x : Error ⊎ ℕ) (e : Error)
      → let (r, p') = on_launch driver cfg p w x in
        r ≡ inl e
        → driver.clock v < driver.clock w + second
        → (driver.clock v < p'.next_launch)
          × (p'.browser ≡ p.browser)
          × (p'.closed ≡ p.closed)
          × (p'.launch_failures ≡ p.launch_failures + 1)
          × (p'.next_launch ≤ driver.clock w + 30 * second)
  unfolding on_launch
  on_launch-waits p w v (inl x) e h early =
      let (low, high) = launch_backoff-Bounds (p.launch_failures + 1) in
      (omega arith, refl, refl, refl, omega arith)
  on_launch-waits p w v (inr b) e h early = cc

  -- A refusal that leaves the fetcher and the world as they were.
  abbrev Refused : Pool → S → (Error ⊎ ℕ) × Pool × S → Type 0
  Refused p w r = (x : Error) × (r ≡ (inl x, p, w))

  relaunch-Refused :
      (p : Pool) (w : S) → driver.clock w < p.next_launch → Refused p w (relaunch driver cfg p w)
  unfolding relaunch
  relaunch-Refused p w early =
      let e = wrap (bytes "last launch error: ") err_browser_unavailable in
      if_both (Refused p w) p.closed _ _ (err_fetcher_closed, refl)
        (subst
          (λ b. Refused p w (
            if b
            then (inl e, p, w)
            else launch_browser driver cfg (drop_dead driver cfg p.browser p) w))
          (sym (lt→ltb _ _ early)) (e, refl))

  browser_or-Refused :
      (o : Option ℕ) (p : Pool) (w : S)
      → Down o w
      → driver.clock w < p.next_launch
      → Refused p w (browser_or driver cfg o p w)
  unfolding browser_or
  browser_or-Refused none p w down early = relaunch-Refused p w early
  browser_or-Refused (some b) p w down early = rw down (relaunch-Refused p w early)

  -- After a launch that failed, the next launch is due between one and thirty seconds later: for
  -- a second, as long as the old browser stays down, every call of `browserLocked` is refused, and
  -- it neither launches a browser nor changes anything.
  pub failed_launch_waits :
      (p : Pool) (w v : S) (e : Error)
      → let (r, p', w') = launch_browser driver cfg p w in
        r ≡ inl e
        → driver.clock v < driver.clock w' + second
        → Down p'.browser v
        → ((x : Error) × (browser_locked driver cfg p' v ≡ (inl x, p', v)))
          × (p'.launch_failures ≡ p.launch_failures + 1)
          × (p'.next_launch ≤ driver.clock w' + 30 * second)
  unfolding launch_browser browser_locked
  failed_launch_waits p w v e h early down =
      let (due, same, open_still, one_more, high) =
        on_launch-waits p (driver.launch cfg w).1 v (driver.launch cfg w).0 e h early in
      (browser_or-Refused _ _ v down due, one_more, high)
