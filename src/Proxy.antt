-- ===== src/Proxy.antt =====
-- internal/proxy/pool.go: the data of a proxy and of the pool. Proxies are shared by pointer, so the
-- pool holds references into a store of cells; a proxy that a reload drops keeps its cell.
pub mod Health
pub mod Cooldown
pub mod Report
pub mod Setup
pub mod Rotation
pub mod Queries
use serp_harvester.Prelude.{
  ℕ, Text, bytes, ◌∷◌, [], List, Bool, true, false, ltb, ℤ, text_eq, if◌then◌else◌,
}

pub data Strategy : Type 0 where
  round_robin random weighted_success_rate : Strategy

pub data Outcome : Type 0 where
  success failure blocked rate_limited neutral : Outcome

-- `total_success` and `total_failure` are uint64; instants are nanoseconds from the zero time on.
pub record Proxy (W : Type 0) : Type 0 where
  pub url : Text
  pub consecutive_fails : ℕ
  pub banned_until : ℕ
  pub total_success : ℕ
  pub total_failure : ℕ
  pub last_used_at : ℕ
  pub ban_streak : ℕ
  pub health : W
  pub has_health : Bool

-- `proxies` and `by_url` hold references; `fresh` is the next unused one.
pub record Pool (W : Type 0) : Type 0 where
  pub cell : ℕ → Proxy W
  pub fresh : ℕ
  pub proxies : List ℕ
  pub by_url : List (Text × ℕ)
  pub idx : ℕ
  pub ban_threshold : ℤ
  pub ban_cooldown : ℤ
  pub strategy : Strategy
  pub max_cooldown : ℤ

module _ {W : Type 0} where
  -- `Key`
  unfoldable pub key : Proxy W → Text
  key p = if text_eq p.url [] then bytes "direct" else p.url

  -- `isBanned`, at the instant that `time.Now` gives.
  unfoldable pub is_banned : ℕ → Proxy W → Bool
  is_banned now p = ltb now p.banned_until
