-- ===== src/Examples/Pools.antt =====
-- The proxy pool on two proxies, with a threshold of 3 failures and a cooldown of a minute.
use serp_harvester.Prelude.{
  ℕ, ◌+◌, ◌-◌, ◌*◌, ◌^◌, ◌≤◌, min, ◌≡◌, ◌⊎◌, refl, List, [], ◌∷◌, map, true, false, pos, Text,
  bytes, Listed, arith, ◌==◌, if◌then◌else◌,
}
use serp_harvester.Proxy.{Pool, is_banned, random}
use serp_harvester.Proxy.Health.{HasUnitHealth}
use serp_harvester.Proxy.Cooldown.{escalate, cooldown_cap, escalate-eq-min}
use serp_harvester.Proxy.Setup.{clean, or_direct, new_pool, reload}
use serp_harvester.Proxy.Setup.Reloading.{IsAllocated, Aligned, Kept, reload_keeps, new_pool-IsWf}
use serp_harvester.Proxy.Rotation.{Draws, picked, next_round_robin, next}
use serp_harvester.Proxy.Rotation.Cycle.{
  rotation, first_free, chosen, serve, AllFree, next_round_robin-first_free, serve-rotation,
}
use serp_harvester.Proxy.Rotation.Available.{IsGood, next-IsGood}
use serp_harvester.Proxy.Queries.{size, next_available_at, next_available_at_lem}
use serp_harvester.Examples.Numbers.{thousandths}

abbrev pub minute : ℕ
minute = 60000000000

abbrev pub urls : List Text
urls = bytes "http://a" ∷ bytes "http://b" ∷ []

-- The first proxy is number 0 and cools until 100; the second is number 1 and free.
abbrev pub two_proxies : Pool ℕ
two_proxies = record {
  cell = λ r.
      if r == 0
      then record (clean (bytes "http://a")) { banned_until = 100 }
      else clean (bytes "http://b");
  fresh = 2;
  proxies = 0 ∷ 1 ∷ [];
  by_url = (bytes "http://a", 0) ∷ (bytes "http://b", 1) ∷ [];
  idx = 0;
  ban_threshold = pos 3;
  ban_cooldown = pos minute;
  strategy = random;
  max_cooldown = pos 0;
}

-- Every clock shows 50.
abbrev fifty : ℕ → ℕ
fifty i = 50

abbrev draws : Draws ℕ
draws = record { intn = λ n. n - 1; float64 = 500 }

next_round_robin-first_free_example :
    next_round_robin fifty two_proxies
    ≡ chosen fifty two_proxies
        (first_free fifty 0 two_proxies.cell (rotation 0 two_proxies.proxies))
next_round_robin-first_free_example = next_round_robin-first_free fifty two_proxies (omega arith)

-- Every reading of these clocks is after the cooldown.
abbrev later_clocks : ℕ → ℕ → ℕ
later_clocks c i = 200 + c + i

later_clocks-AllFree : AllFree later_clocks two_proxies
unfolding is_banned clean
later_clocks-AllFree = λ c i r. ground arith

serve-rotation_example :
    serve 2 later_clocks 0 two_proxies ≡ map picked (rotation 0 two_proxies.proxies)
serve-rotation_example = serve-rotation later_clocks two_proxies (omega arith) later_clocks-AllFree

next-IsGood_example : IsGood fifty two_proxies (next draws fifty two_proxies)
next-IsGood_example = next-IsGood draws fifty two_proxies (λ n h. omega arith) (omega arith)

default_cap : cooldown_cap (pos 0) (pos minute) ≡ pos (16 * minute)
unfolding cooldown_cap
default_cap = refl

escalate-eq-min_example : escalate (pos 0) (pos minute) 3 ≡ pos (min (minute * 2 ^ 3) (16 * minute))
escalate-eq-min_example =
    escalate-eq-min minute (16 * minute) 3 (pos 0) (omega arith) default_cap (omega arith)

no_history : HasUnitHealth (two_proxies.cell 1)
unfolding clean
no_history = record { unit = λ h. cc }

-- A pool as `NewPool` makes it.
abbrev fresh_pool : Pool ℕ
fresh_pool = new_pool urls (pos 3) (pos minute)

fresh_pool-IsAllocated : IsAllocated fresh_pool
fresh_pool-IsAllocated = (new_pool-IsWf urls (pos 3) (pos minute)).0.allocated

reload_keeps_example :
    let q = reload fresh_pool (bytes "http://b" ∷ []) in
    Aligned
      (λ u r. Kept fresh_pool.by_url fresh_pool.cell u r (q.cell r))
      (or_direct (bytes "http://b" ∷ []))
      q.proxies
reload_keeps_example = reload_keeps fresh_pool (bytes "http://b" ∷ []) fresh_pool-IsAllocated

next_available_at_lem_example :
    let at = next_available_at 50 two_proxies in
    ((at ≡ 0)
      × ((r : ℕ) × Listed r two_proxies.proxies × (is_banned 50 (two_proxies.cell r) ≡ false)))
    ⊎ (((r : ℕ)
          → Listed r two_proxies.proxies
          → (is_banned 50 (two_proxies.cell r) ≡ true) × (at ≤ (two_proxies.cell r).banned_until))
        × ((r : ℕ) × Listed r two_proxies.proxies × (at ≡ (two_proxies.cell r).banned_until)))
next_available_at_lem_example = next_available_at_lem 50 two_proxies (unfold size in omega arith)
