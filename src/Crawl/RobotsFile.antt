-- ===== src/Crawl/RobotsFile.antt =====
-- internal/crawl/crawler.go: `RobotsGetter`, the fetch of a robots.txt through the worker pool.
use serp_harvester.Prelude.{
  ◌⊎◌, inl, inr, Listed, ℤ, ℕ, ◌≤◌, ◌<◌, ◌≤ℤ◌, ◌<ℤ◌, ◌≡◌, ◌≢◌, refl, [], List, Text, Option, none,
  some, pos, Float, arith, ◌∷◌,
}
use serp_harvester.Limiter.{Buckets}
use serp_harvester.Fetcher.{
  Link, Error, links, rate_limit_error, status_error, Request, Response, fetched,
}
use serp_harvester.Fetcher.Classify.{as_status}
use serp_harvester.Worker.{
  Env, Config, World, Task, Acquired, acquired, dropped, panicked, unfinished, DroppedError,
}
use serp_harvester.Worker.Acquire.{acquire}
use serp_harvester.Worker.Acquire.Waiting.{IsTimely, Ready}
use serp_harvester.Worker.Acquire.Totality.{Returned, acquire-Returned}
use serp_harvester.Worker.Process.Conservation.{acquire-Holds, Holds, finished}
use serp_harvester.Crawl.Target.{Address, Urls}
use serp_harvester.Crawl.Visit.{rate_by_host}

-- What a getter returns: the status and the body, or an error; or a panic.
pub data Answer : Type 0 where
  answer : ℕ → Text → Answer
  no_answer : Option Error → Answer
  crash : Answer

-- `errors.As(err, &rl)`: its status.
unfoldable pub as_rate_limit_status : List Link → Option ℕ
as_rate_limit_status [] = none
as_rate_limit_status (rate_limit_error status retry_after body ∷ ls) = some status
as_rate_limit_status (_ ∷ ls) = as_rate_limit_status ls

unfoldable pub chain_of : Option Error → List Link
chain_of none = []
chain_of (some e) = links e

-- By what `errors.As` finds in the error.
unfoldable pub answer_of : Option ℕ → Option ℕ → Option Error → Answer
answer_of (some status) limited e = answer status []
answer_of none (some status) e = answer status []
answer_of none none e = no_answer e

unfoldable pub answer_of_error : Option Error → Answer
answer_of_error e = answer_of (as_status (chain_of e)) (as_rate_limit_status (chain_of e)) e

-- An answer for an error: the status that a StatusError of its chain carries; without one, the
-- status of a RateLimitError of its chain, with no body in either case; without either, the error.
abbrev pub IsAnswerOf : Option Error → Answer → Type 0
IsAnswerOf e a =
    ((status : ℕ) × (a ≡ answer status []) × Listed (status_error status) (chain_of e))
    ⊎ ((status : ℕ) × (a ≡ answer status [])
        × ((other : ℕ) → ¬ Listed (status_error other) (chain_of e))
        × ((wait : ℤ) × (body : Text) × Listed (rate_limit_error status wait body) (chain_of e)))
    ⊎ ((a ≡ no_answer e)
        × ((other : ℕ) → ¬ Listed (status_error other) (chain_of e))
        × ((other : ℕ) (wait : ℤ) (body : Text)
            → ¬ Listed (rate_limit_error other wait body) (chain_of e)))

-- What a search of the chain finds.
abbrev HasStatus : List Link → Option ℕ → Type 0
HasStatus ls none = (other : ℕ) → ¬ Listed (status_error other) ls
HasStatus ls (some status) = Listed (status_error status) ls

abbrev HasLimit : List Link → Option ℕ → Type 0
HasLimit ls none =
    (other : ℕ) (wait : ℤ) (body : Text) → ¬ Listed (rate_limit_error other wait body) ls
HasLimit ls (some status) =
    (wait : ℤ) × (body : Text) × Listed (rate_limit_error status wait body) ls

HasStatus-cons :
    (l : Link) (ls : List Link) (o : Option ℕ)
    → ((other : ℕ) → status_error other ≢ l)
    → HasStatus ls o
    → HasStatus (l ∷ ls) o
HasStatus-cons l ls none differs h =
    λ other listed. elim listed [ inl here ↦ differs other here | inr there ↦ h other there ]
HasStatus-cons l ls (some status) differs h = inr h

HasLimit-cons :
    (l : Link) (ls : List Link) (o : Option ℕ)
    → ((other : ℕ) (wait : ℤ) (body : Text) → rate_limit_error other wait body ≢ l)
    → HasLimit ls o
    → HasLimit (l ∷ ls) o
HasLimit-cons l ls none differs h = λ other wait body listed. elim listed [
  | inl here ↦ differs other wait body here
  | inr there ↦ h other wait body there
]
HasLimit-cons l ls (some status) differs (wait, body, h) = (wait, body, inr h)

as_status-HasStatus : (ls : List Link) → HasStatus ls (as_status ls)
unfolding as_status
as_status-HasStatus [] = λ other listed. elim listed [ ]
as_status-HasStatus (status_error code ∷ ls) = inl refl
as_status-HasStatus (l ∷ ls) =
    HasStatus-cons l ls _ (λ other same. ground (arith, same)) (as_status-HasStatus ls)

as_rate_limit_status-HasLimit : (ls : List Link) → HasLimit ls (as_rate_limit_status ls)
unfolding as_rate_limit_status
as_rate_limit_status-HasLimit [] = λ other wait body listed. elim listed [ ]
as_rate_limit_status-HasLimit (rate_limit_error status wait body ∷ ls) = (wait, body, inl refl)
as_rate_limit_status-HasLimit (l ∷ ls) =
    HasLimit-cons l ls _ (λ other wait body same. ground (arith, same))
      (as_rate_limit_status-HasLimit ls)

answer_of-IsAnswerOf :
    (s l : Option ℕ) (e : Option Error)
    → HasStatus (chain_of e) s
    → HasLimit (chain_of e) l
    → IsAnswerOf e (answer_of s l e)
unfolding answer_of
answer_of-IsAnswerOf (some n) l e has limit = inl (n, refl, has)
answer_of-IsAnswerOf none (some n) e has limit = inr (inl (n, refl, has, limit))
answer_of-IsAnswerOf none none e has limit = inr (inr (refl, has, limit))

module _ {W B S R : Type 0} ⦃f : Float W⦄ (k : Buckets W B) (env : Env W B S) (fuel : ℕ)
    (urls : Urls R) (host : Address R → Text) where
  -- `build`, `rateByHost` and `use`
  unfoldable pub robots_task : Config → Text → Task W (ℕ × Text)
  robots_task cfg url = record {
    build = λ t p. record {
      query = [];
      target = url;
      user_agent = cfg.user_agent;
      proxy_url = p.url;
      country = [];
      language = [];
      device = [];
      wait_selector = [];
    };
    rate_key = some (rate_by_host urls host);
    consume = λ t resp p u. ((resp.status_code, resp.body), none);
  }

  unfoldable pub after_robots : World W B S (ℕ × Text) × Acquired → Answer × World W B S (ℕ × Text)
  after_robots (w, acquired) = (answer w.user.0 w.user.1, w)
  after_robots (w, dropped d) = (answer_of_error d.err, w)
  after_robots (w, panicked) = (crash, w)
  after_robots (w, unfinished) = (crash, w)

  -- `RobotsGetter`
  unfoldable pub robots_getter :
      Config → Text → World W B S (ℕ × Text) → Answer × World W B S (ℕ × Text)
  robots_getter cfg url w =
      after_robots (acquire k env fuel cfg (robots_task cfg url) (record w { user = (0, []) }))

  -- A response that the fetcher returned for a request of this URL.
  abbrev pub IsFetched : Config → Text → Response → Type 0
  IsFetched cfg url resp =
      (req : Request) × (t : ℕ) × (s : S) × (req.target ≡ url)
      × (req.user_agent ≡ cfg.user_agent)
      × ((env.fetch t req s).0 ≡ fetched resp)

  -- The answer, by what `Acquire` returned.
  abbrev pub IsAnswered : Config → Text → Acquired → Answer → Type 0
  IsAnswered cfg url x a =
      ((x ≡ acquired)
        × ((resp : Response) × IsFetched cfg url resp × (a ≡ answer resp.status_code resp.body)))
      ⊎ ((d : DroppedError) × (x ≡ dropped d) × IsAnswerOf d.err a)

  -- The status and the body are those of a response.
  abbrev Keeps : Config → Text → ℕ × Text → Type 0
  Keeps cfg url u =
      (resp : Response) × IsFetched cfg url resp × (u.0 ≡ resp.status_code) × (u.1 ≡ resp.body)

  after_robots-IsAnswered :
      (cfg : Config) (url : Text) (n : ℕ × ℕ) (w : World W B S (ℕ × Text)) (x : Acquired)
      → Holds (Keeps cfg url) n (w, x)
      → Returned x
      → IsAnswered cfg url x (after_robots (w, x)).0
        × (finished (after_robots (w, x)).1.counters ≡ n)
  unfolding after_robots answer_of_error
  after_robots-IsAnswered cfg url n w acquired (h, (resp, came, status, body)) r =
      (inl (refl, (resp, came, rw (status, body) refl)), h)
  after_robots-IsAnswered cfg url n w (dropped d) h r = (
    inr (
      d,
      refl,
      answer_of-IsAnswerOf _ _ d.err (as_status-HasStatus (chain_of d.err))
          (as_rate_limit_status-HasLimit (chain_of d.err)),
    ),
    h,
  )
  after_robots-IsAnswered cfg url n w panicked h r = elim r [ ]
  after_robots-IsAnswered cfg url n w unfinished h r = elim r [ ]

  -- From a pool with a proxy, with at most 37 retries and a clock and timers that behave, the fetch
  -- of a robots.txt ends without a panic, by what `Acquire` returned. For nil, the answer is the
  -- status and the body of a response that the fetcher returned for a request of this URL with the
  -- configured User-Agent. For a dropped call, it has no body and is the status that a StatusError
  -- in its error carries, or else the status of a RateLimitError in it, or else the error. The
  -- call is not counted as a job: the counts of successes and of dropped jobs stay.
  pub robots_getter-IsAnswered :
      (time : IsTimely env)
      (int63n_range : (t n : ℕ)
        → 0 < n
        → (pos 0 ≤ℤ env.int63n t (pos n)) × (env.int63n t (pos n) <ℤ pos n))
      (cfg : Config) (url : Text) (w : World W B S (ℕ × Text))
      → 2 ≤ fuel
      → Ready env w
      → cfg.max_retries ≤ℤ pos 37
      → let (a, w') = robots_getter cfg url w in
        IsAnswered cfg url
          (acquire k env fuel cfg (robots_task cfg url) (record w { user = (0, []) })).1
          a
        × (finished w'.counters ≡ finished w.counters)
  unfolding robots_getter robots_task
  robots_getter-IsAnswered time int63n_range cfg url w enough ready le =
      after_robots-IsAnswered cfg url (finished w.counters) _ _
        (acquire-Holds k env fuel (robots_task cfg url) (Keeps cfg url)
          (λ t resp w' r (at, p, t', s, came) h.
            (resp, ((robots_task cfg url).build at p, t', s, refl, refl, came), refl, refl))
          cfg (record w { user = (0, []) }))
        (acquire-Returned k env fuel time int63n_range enough cfg _ (record w { user = (0, []) })
          ready le)
