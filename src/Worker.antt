-- ===== src/Worker.antt =====
-- internal/worker/pool.go: the data of a worker. A call of `Acquire` is sequential, so it threads one
-- state. What the state meets from outside is a parameter: clock reading `i` of operation `t` is
-- `clock t i`, `ended t` is whether the context has ended at `t`, and `timer t d` whether a timer
-- fires before it ends.
pub mod Timing
pub mod Feedback
pub mod Acquire
pub mod Process
use serp_harvester.Prelude.{ℕ, ◌+◌, ℤ, Bool, Option, Text, List}
use serp_harvester.Proxy.{Proxy, Pool}
use serp_harvester.Proxy.Rotation.{Draws}
use serp_harvester.Limiter.{Limiter}
use serp_harvester.Metrics.{Counters}
use serp_harvester.Metrics.Latency.{Recorder}
use serp_harvester.Fetcher.{Request, Response, Error, FetchResult}

-- What is outside of the worker: the time, the context, `rate.Limiter.Wait`, the fetcher with its own
-- state `S`, and math/rand.
pub record Env (W B S : Type 0) : Type 0 where
  pub clock : ℕ → ℕ → ℕ
  pub ended : ℕ → Bool
  pub cause : Error  -- `ctx.Err()`
  pub timer : ℕ → ℤ → Bool
  pub wait : ℕ → B → B × Option Error
  pub fetch : ℕ → Request → S → FetchResult × S
  pub draws : ℕ → Draws W
  pub int63n : ℕ → ℤ → ℤ

-- The fields of the worker's `Pool` that `Acquire` reads and does not change.
pub record Config : Type 0 where
  pub max_retries : ℤ
  pub max_proxy_wait : ℤ
  pub user_agent : Text

-- What `Acquire` changes: `tick` counts the operations done, `user` is what `use` writes.
pub record World (W B S U : Type 0) : Type 0 where
  pub tick : ℕ
  pub pool : Pool W
  pub limiter : Limiter W B
  pub counters : Counters
  pub latencies : Option Recorder
  pub server : S
  pub user : U

-- The functions that `Acquire` is called with; `rate_key` may be nil.
pub record Task (W U : Type 0) : Type 0 where
  pub build : ℕ → Proxy W → Request
  pub rate_key : Option (Proxy W → Request → Text)
  pub consume : ℕ → Response → Proxy W → U → U × Option Error  -- `use`

-- `DroppedError`
pub record DroppedError : Type 0 where
  pub attempts : ℕ
  pub is_canceled : Bool
  pub err : Option Error

-- The nil error, a dropped job, a panic, or fuel that ran out.
pub data Acquired : Type 0 where
  acquired : Acquired
  dropped : DroppedError → Acquired
  panicked unfinished : Acquired

-- The local variables of the loop.
pub record Progress : Type 0 where
  pub attempt : ℕ
  pub attempts : ℕ
  pub failover : Bool
  pub last_err : Option Error

-- What one round of the loop ends with.
pub data Turn : Type 0 where
  again : Progress → Turn
  finish : Acquired → Turn

module _ {W B S U : Type 0} where
  abbrev pub step : World W B S U → World W B S U
  step w = record w { tick = w.tick + 1 }

  abbrev pub count : (Counters → Counters) → World W B S U → World W B S U
  count inc w = record w { counters = inc w.counters }
