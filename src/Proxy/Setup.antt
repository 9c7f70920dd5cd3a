-- ===== src/Proxy/Setup.antt =====
-- internal/proxy/pool.go: building a pool, and replacing its list at run time.
pub mod Reloading
use serp_harvester.Prelude.{
  ℕ, suc, ◌+◌, ◌++◌, List, [], ◌∷◌, Text, Bool, false, ℤ, pos, Float, update, Option, none, some,
  lookup, insert,
}
use serp_harvester.Proxy.{Proxy, Pool, round_robin}

module _ {W : Type 0} ⦃f : Float W⦄ where
  -- `&Proxy{URL: u}`
  unfoldable pub clean : Text → Proxy W
  clean u = record {
    url = u;
    consecutive_fails = 0;
    banned_until = 0;
    total_success = 0;
    total_failure = 0;
    last_used_at = 0;
    ban_streak = 0;
    health = f.lit 0 1;
    has_health = false;
  }

-- An empty list means the one direct identity.
unfoldable pub or_direct : List Text → List Text
or_direct [] = [] ∷ []
or_direct (u ∷ us) = u ∷ us

module _ {W : Type 0} ⦃f : Float W⦄ where
  -- The body of the loop of `setProxies`.
  unfoldable pub add_proxy : Pool W → Text → Pool W
  add_proxy pl u = record pl {
    cell = update pl.cell pl.fresh (clean u);
    fresh = suc pl.fresh;
    proxies = pl.proxies ++ pl.fresh ∷ [];
    by_url = insert u pl.fresh pl.by_url;
  }

  unfoldable pub add_proxies : Pool W → List Text → Pool W
  add_proxies pl [] = pl
  add_proxies pl (u ∷ us) = add_proxies (add_proxy pl u) us

  -- `setProxies`
  unfoldable pub set_proxies : Pool W → List Text → Pool W
  set_proxies pl urls = add_proxies (record pl { proxies = [] }) (or_direct urls)

  -- The literal of `NewPool`: `Strategy` and `MaxCooldown` have their zero values.
  unfoldable pub empty_pool : ℤ → ℤ → Pool W
  empty_pool ban_threshold ban_cooldown = record {
    cell = λ r. clean [];
    fresh = 0;
    proxies = [];
    by_url = [];
    idx = 0;
    ban_threshold = ban_threshold;
    ban_cooldown = ban_cooldown;
    strategy = round_robin;
    max_cooldown = pos 0;
  }

  -- `NewPool`
  unfoldable pub new_pool : List Text → ℤ → ℤ → Pool W
  new_pool urls ban_threshold ban_cooldown =
      set_proxies (empty_pool ban_threshold ban_cooldown) urls

  -- The body of the loop of `Reload`, with `old` for the map that it reads and the pool for the new
  -- list and map.
  unfoldable pub reload_proxy : List (Text × ℕ) → Pool W → Text → Pool W
  reload_proxy old pl u = elim (lookup u old) [
    | some r ↦ record pl { proxies = pl.proxies ++ r ∷ []; by_url = insert u r pl.by_url }
    | none ↦ add_proxy pl u
  ]

  unfoldable pub reload_proxies : List (Text × ℕ) → Pool W → List Text → Pool W
  reload_proxies old pl [] = pl
  reload_proxies old pl (u ∷ us) = reload_proxies old (reload_proxy old pl u) us

  -- `Reload`
  unfoldable pub reload : Pool W → List Text → Pool W
  reload pl urls =
      let q = reload_proxies pl.by_url (record pl { proxies = []; by_url = [] }) (or_direct urls) in
      record q { idx = 0 }
