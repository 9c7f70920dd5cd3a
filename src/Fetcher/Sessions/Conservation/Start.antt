-- ===== src/Fetcher/Sessions/Conservation/Start.antt =====
-- internal/fetcher/playwright.go: `NewPlaywrightFetcher`.
use serp_harvester.Prelude.{
  ℕ, zero, suc, ◌≤◌, ◌≡◌, refl, ◌∙◌, subst, ◌⊎◌, inl, inr, [], not, ◌&&◌, leb_ℤ, if◌then◌else◌,
  Option, none, some, ℤ, pos, negsuc, arith, if_both,
}
use serp_harvester.Robots.{is_empty}
use serp_harvester.Fetcher.{Error}
use serp_harvester.Metrics.Browser.{BrowserCounters}
use serp_harvester.Fetcher.Sessions.{
  PlaywrightConfig, Pool, Driver, with_defaults, browser_locked, empty_pool, launched, started,
  new_playwright_fetcher,
}
use serp_harvester.Fetcher.Sessions.Conservation.{total}
use serp_harvester.Fetcher.Sessions.Conservation.Taking.{Books, browser_or-Books}
use serp_harvester.Fetcher.Sessions.Conservation.Slots.{browser_or-slots}
use serp_harvester.Fetcher.Sessions.Conservation.Steps.{IsValid}

positive_or :
    (z : ℤ) (d : ℕ) → 1 ≤ d → (n : ℕ) × ((if leb_ℤ z (pos 0) then pos d else z) ≡ pos n) × (1 ≤ n)
positive_or (pos zero) d h = (d, refl, h)
positive_or (pos (suc n)) d h = (suc n, ground arith, omega arith)
positive_or (negsuc n) d h = (d, ground arith, h)

module _ {S : Type 0} (driver : Driver S) (cfg : PlaywrightConfig) (n m : ℕ) where
  empty-Books : (c : BrowserCounters) → Books driver cfg n m (empty_pool driver cfg c) []
  unfolding empty_pool total
  empty-Books c = record {
    counted = refl;
    bounded = omega arith;
    once = λ i. omega arith;
    unused = λ i h. refl;
    rested = refl;
  }

  no_slots : (c : BrowserCounters) → (empty_pool driver cfg c).slots ≡ 0
  unfolding empty_pool
  no_slots c = refl

  -- What a constructor may return.
  abbrev Valid : Error ⊎ Pool → Type 0
  Valid (inl e) = Unit {0}
  Valid (inr p) = IsValid driver cfg n m p []

  launched-Valid :
      (x : Error ⊎ ℕ) (p : Pool) (w : S)
      → IsValid driver cfg n m p []
      → Valid (launched driver cfg (x, p, w)).0
  unfolding launched
  launched-Valid (inl e) p w v = tt
  launched-Valid (inr b) p w v = v

  started-Valid : (c : BrowserCounters) (x : Option Error × S) → Valid (started driver cfg c x).0
  unfolding started browser_locked
  started-Valid c (some e, w) = tt
  started-Valid c (none, w) =
      let p = empty_pool driver cfg c in
      launched-Valid _ _ _ (record {
        books = browser_or-Books driver cfg n m p.browser p w [] (empty-Books c);
        taken = browser_or-slots driver cfg p.browser p w ∙ no_slots c;
      })

-- The result of a constructor: its configuration has both limits, and the fetcher is valid for them.
abbrev pub Starts : {S : Type 0} → Driver S → PlaywrightConfig → Pool → Type 0
Starts driver cfg p =
    (n : ℕ) × (m : ℕ) × (cfg.pool_size ≡ pos n)
    × (cfg.max_session_uses ≡ pos m)
    × (1 ≤ n)
    × (1 ≤ m)
    × IsValid driver cfg n m p []

defaults-pool_size :
    (cfg : PlaywrightConfig) → (n : ℕ) × ((with_defaults cfg).pool_size ≡ pos n) × (1 ≤ n)
unfolding with_defaults
defaults-pool_size cfg = positive_or cfg.pool_size 4 (omega arith)

defaults-max_session_uses :
    (cfg : PlaywrightConfig) → (m : ℕ) × ((with_defaults cfg).max_session_uses ≡ pos m) × (1 ≤ m)
unfolding with_defaults
defaults-max_session_uses cfg = positive_or cfg.max_session_uses 50 (omega arith)

-- A started fetcher, by what the driver's start returned.
started-Starts :
    {S : Type 0} (driver : Driver S) (cfg : PlaywrightConfig) (c : BrowserCounters)
    (x : Option Error × S) (p : Pool)
    → (started driver (with_defaults cfg) c x).0 ≡ inr p
    → Starts driver (with_defaults cfg) p
started-Starts driver cfg c x p e =
    let (n, is_n, n_pos) = defaults-pool_size cfg in
    let (m, is_m, m_pos) = defaults-max_session_uses cfg in
    let v = started-Valid driver (with_defaults cfg) n m c x in
    (n, m, is_n, is_m, n_pos, m_pos, subst (λ r. Valid driver (with_defaults cfg) n m r) e v)

-- When `new_playwright_fetcher` returns a fetcher, then whatever the driver did and whatever the
-- configuration was, the configuration it returns has a size of the pool and a number of uses of at
-- least 1, and the fetcher is valid for them with no session out: the slots, the sessions open and
-- the uses are within the bounds of `IsValid`.
pub new_playwright_fetcher-IsValid :
    {S : Type 0} (driver : Driver S) (cfg : PlaywrightConfig) (c : BrowserCounters) (w : S)
    (p : Pool)
    → (new_playwright_fetcher driver cfg c w).1 ≡ inr p
    → Starts driver (new_playwright_fetcher driver cfg c w).0 p
unfolding new_playwright_fetcher
new_playwright_fetcher-IsValid {S = S} driver cfg c w p e =
    if_both (λ (r : PlaywrightConfig × (Error ⊎ Pool) × S). (r.1 ≡ inr p) → Starts driver r.0 p)
      (is_empty cfg.endpoint && not cfg.generic) _ _ (λ wrong. ground arith)
      (λ started_well. started-Starts driver cfg c (driver.start_driver w) p started_well) e
