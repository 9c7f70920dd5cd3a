-- ===== src/Examples/Caches.antt =====
-- A cache of robots.txt files, over a server that counts its requests and is out of order.
use serp_harvester.Prelude.{
  ℕ, ◌+◌, ◌≡◌, refl, inl, inr, [], ◌∷◌, false, none, some, ℤ, Text, bytes, Option, List, arith,
}
use serp_harvester.Robots.{Rules, allowed}
use serp_harvester.Robots.Cache.{cache_for, cache_for_all, cache_for-again, status_of}
use serp_harvester.Robots.Refusal.{cache_for-refuses}

abbrev failing : Text → ℕ → Option (ℕ × Text) × ℕ
failing origin w = (some (503, bytes "Allow: /"), w + 1)

abbrev one_line : Text → List Text
one_line t = t ∷ []

abbrev same : Text → Text
same t = t

abbrev no_delay : Text → Option ℤ
no_delay t = none

abbrev home : Text × Text
home = (bytes "http", bytes "a.test")

abbrev away : Text × Text
away = (bytes "http", bytes "b.test")

cache_for-again_example :
    let (rules, c', w') = cache_for failing one_line same same no_delay (bytes "serp") home [] 0 in
    let (c₁, w₁) =
      cache_for_all failing one_line same same no_delay (bytes "serp") (away ∷ home ∷ []) c' w' in
    cache_for failing one_line same same no_delay (bytes "serp") home c₁ 9 ≡ (rules, c₁, 9)
cache_for-again_example =
    cache_for-again failing one_line same same no_delay (bytes "serp") home (away ∷ home ∷ []) [] 0
      9

cache_for-refuses_example :
    (r : Rules) × ((cache_for failing one_line same same no_delay (bytes "serp") home [] 0).0
      ≡ some r)
    × (allowed r (bytes "/a") ≡ false)
unfolding status_of
cache_for-refuses_example =
    cache_for-refuses failing one_line same same no_delay (bytes "serp") (bytes "http")
      (bytes "a.test") [] 0 (bytes "a") refl (inr (inr (inl (omega arith)))) refl
