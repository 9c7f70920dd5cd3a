-- ===== src/Crawl/Visit/Counting.antt =====
-- internal/crawl/crawler.go: what a visit counts, writes and returns.
use serp_harvester.Prelude.{
  ℕ, ◌+◌, ◌≤◌, ◌<◌, ◌≤ℤ◌, ◌<ℤ◌, ◌≡◌, refl, ap, ◌∙◌, ◌⊎◌, inl, inr, List, [], ◌∷◌, Text, true, false,
  Option, none, some, pos, Float, All, Bool, if◌then◌else◌, arith, add64, Bool-cases, Option-cases,
  if_both,
}
use serp_harvester.Model.{Page}
use serp_harvester.Extract.{Dom, Value}
use serp_harvester.Proxy.{Proxy}
use serp_harvester.Limiter.{Buckets}
use serp_harvester.Metrics.{Counters, inc_success, inc_dropped, inc_calibration_flagged}
use serp_harvester.Fetcher.{Response, Error}
use serp_harvester.Fetcher.Pages.{is_html}
use serp_harvester.Worker.{
  Env, Config, World, DroppedError, Acquired, count, acquired, dropped, panicked, unfinished,
}
use serp_harvester.Worker.Acquire.{acquire}
use serp_harvester.Worker.Acquire.Waiting.{IsTimely, Ready}
use serp_harvester.Worker.Acquire.Totality.{Returned, acquire-Returned}
use serp_harvester.Worker.Process.{if_present}
use serp_harvester.Worker.Process.Conservation.{acquire-Holds, Holds, finished}
use serp_harvester.Crawl.Frontier.{Job}
use serp_harvester.Crawl.Target.{Address, Urls, Scope, normalize, follows}
use serp_harvester.Crawl.Visit.{
  Stats, Visited, Site, Trip, plus_one, job_of_link, next_jobs, read_html, stamped, stamp_page,
  extracted, keep_page, page_task, stay, arrive, after_acquire, fetch_page,
}

-- The page stands for the job of the target.
abbrev pub IsPageOf : Scope → Job → Option (Page Value) → Type 0
IsPageOf s j o =
    (p : Page Value) × (o ≡ some p)
    × (p.target ≡ s.target.name)
    × (p.url ≡ j.url)
    × (p.depth ≡ pos j.depth)

finished-page :
    (p : Page Value) (c : Counters)
    → finished (if_present p.extraction inc_calibration_flagged (inc_success c))
      ≡ (add64 c.success 1, c.dropped)
unfolding if_present inc_calibration_flagged inc_success
finished-page p c = elim (Option-cases p.extraction) [
  | inl e ↦ rw e refl
  | inr (note, e) ↦ rw e refl
]

module _ {R U N : Type 0} (urls : Urls R) (dom : Dom U N) where
  -- The jobs that a visit of `j` may return.
  abbrev pub InScope : Scope → Job → Job → Type 0
  InScope s j n = (follows urls dom s n.url ≡ true) × (n.depth ≡ j.depth + 1)

  job_of_link-InScope :
      (s : Scope) (j : Job) (o : Option (Address R)) (rest : List Job)
      → All (InScope s j) rest
      → All (InScope s j) (job_of_link urls dom s j.depth o rest)
  unfolding job_of_link
  job_of_link-InScope s j none rest h = h
  job_of_link-InScope s j (some u) rest h =
      elim (Bool-cases (follows urls dom s (normalize urls dom u))) [
        | inl e ↦ rw e ((e, refl), h)
        | inr e ↦ rw e h
      ]

  next_jobs-InScope :
      (s : Scope) (j : Job) (ls : List Text) → All (InScope s j) (next_jobs urls dom s j.depth ls)
  unfolding next_jobs
  next_jobs-InScope s j [] = tt
  next_jobs-InScope s j (l ∷ ls) =
      job_of_link-InScope s j (urls.parse l) _ (next_jobs-InScope s j ls)

  module _ {W : Type 0} (s : Scope) (run_id : Text) (j : Job) where
    extracted-IsPageOf :
        (now : ℕ) (resp : Response) (p : Proxy W) (v : Visited) (o : Option (Page Value))
        → let (v', e) = extracted urls dom s run_id j now resp p v o in
          e ≡ none → IsPageOf s j v'.page
    unfolding extracted stamped read_html stamp_page
    extracted-IsPageOf now resp p v none h = absurd (ground (arith, h))
    extracted-IsPageOf now resp p v (some q) h = (_, refl, refl, refl, refl)

    keep_page-IsPageOf :
        (now : ℕ) (resp : Response) (p : Proxy W) (v : Visited)
        → let (v', e) = keep_page urls dom s run_id j now resp p v in
          e ≡ none → IsPageOf s j v'.page
    unfolding keep_page stamped stamp_page
    keep_page-IsPageOf now resp p v =
        if_both (λ (r : Visited × Option Error). r.1 ≡ none → IsPageOf s j r.0.page)
          (is_html resp.content_type) _ _ (extracted-IsPageOf now resp p v _)
          (λ h. (_, refl, refl, refl, refl))

module _ {W B S R U N K : Type 0} ⦃f : Float W⦄ (k : Buckets W B) (env : Env W B S) (fuel : ℕ)
    (urls : Urls R) (dom : Dom U N) (site : Site R (World W B S Visited) K) where
  -- How a visit ends: a page is written and counted, the job is dropped, or the context ended.
  abbrev pub Ends :
      Scope → Job → ℕ × ℕ → K → Stats → Acquired → Trip (World W B S Visited) K → Type 0
  Ends s j n sink stats a t =
      ((p : Page Value) × (a ≡ acquired)
        × IsPageOf s j (some p)
        × (t.sink ≡ (site.write_page p sink).0)
        × (t.stats.fetched ≡ plus_one stats.fetched)
        × (t.stats.failed ≡ stats.failed)
        × (finished t.world.counters ≡ (add64 n.0 1, n.1)))
      ⊎ ((d : DroppedError) × (a ≡ dropped d)
          × (d.is_canceled ≡ false)
          × (t.sink ≡ sink)
          × (t.next ≡ [])
          × (t.stats ≡ record stats { failed = plus_one stats.failed })
          × (finished t.world.counters ≡ (n.0, add64 n.1 1)))
      ⊎ ((d : DroppedError) × (a ≡ dropped d)
          × (d.is_canceled ≡ true)
          × (t.sink ≡ sink)
          × (t.next ≡ [])
          × (t.stats ≡ stats)
          × (finished t.world.counters ≡ n))

  abbrev Good : Scope → Job → ℕ × ℕ → K → Stats → Acquired → Trip (World W B S Visited) K → Type 0
  Good s j n sink stats a t =
      (t.crashed ≡ false) × All (InScope urls dom s j) t.next × Ends s j n sink stats a t

  arrive-Good :
      (s : Scope) (j : Job) (n : ℕ × ℕ) (w : World W B S Visited) (sink : K) (stats : Stats)
      (o : Option (Page Value))
      → finished w.counters ≡ n
      → IsPageOf s j o
      → Good s j n sink stats acquired (arrive k env fuel urls dom site s j w sink stats o)
  unfolding arrive
  arrive-Good s j n w sink stats none h (p, e, target, url, depth) = absurd (cc)
  arrive-Good s j n w sink stats (some q) h page_ok = (
    refl,
    next_jobs-InScope urls dom s j w.user.follow,
    inl (
      q,
      refl,
      page_ok,
      refl,
      refl,
      refl,
      finished-page q w.counters ∙ ap (λ (t : ℕ × ℕ). (add64 t.0 1, t.1)) h,
    ),
  )

  dropped-Good :
      (s : Scope) (j : Job) (n : ℕ × ℕ) (w : World W B S Visited) (sink : K) (stats : Stats)
      (d : DroppedError)
      → finished w.counters ≡ n
      → Good s j n sink stats
          (dropped d)
          (after_acquire k env fuel urls dom site s j sink stats (w, dropped d))
  unfolding after_acquire stay inc_dropped
  dropped-Good s j n w sink stats d h = by_flag d.is_canceled refl
    where
      by_flag :
          (b : Bool)
          → d.is_canceled ≡ b
          → Good s j n sink stats (dropped d) (
              if b
              then stay k env fuel urls dom site w sink stats
              else stay k env fuel urls dom site
                  (count inc_dropped w)
                  sink
                  (record stats { failed = plus_one stats.failed }))
      by_flag true over = (refl, tt, inr (inr (d, refl, over, refl, refl, refl, h)))
      by_flag false kept = (
        refl,
        tt,
        inr (inl (d, refl, kept, refl, refl, refl, ap (λ (t : ℕ × ℕ). (t.0, add64 t.1 1)) h)),
      )

  after_acquire-Good :
      (s : Scope) (j : Job) (n : ℕ × ℕ) (sink : K) (stats : Stats) (w : World W B S Visited)
      (a : Acquired)
      → Holds (λ (v : Visited). IsPageOf s j v.page) n (w, a)
      → Returned a
      → Good s j n sink stats a (after_acquire k env fuel urls dom site s j sink stats (w, a))
  unfolding after_acquire
  after_acquire-Good s j n sink stats w acquired (h, done) r =
      arrive-Good s j n w sink stats w.user.page h done
  after_acquire-Good s j n sink stats w (dropped d) h r = dropped-Good s j n w sink stats d h
  after_acquire-Good s j n sink stats w panicked h r = elim r [ ]
  after_acquire-Good s j n sink stats w unfinished h r = elim r [ ]

  -- From a pool with a proxy, with at most 37 retries and a clock and timers that behave, the fetch
  -- of a page does not panic and ends as `Acquire` does. When that returns nil, a page of the
  -- target, with the job's URL and depth, is written to the sink and counted as fetched and as a
  -- success. When it drops the job and was not canceled, nothing is written and the job is counted
  -- as failed and as dropped. When it was canceled, nothing is written and nothing counted. Every job that it returns is in the target's scope and one link
  -- deeper, and only the first way returns any.
  pub fetch_page-Counted :
      (time : IsTimely env)
      (int63n_range : (t n : ℕ)
        → 0 < n
        → (pos 0 ≤ℤ env.int63n t (pos n)) × (env.int63n t (pos n) <ℤ pos n))
      (cfg : Config) (s : Scope) (j : Job) (w : World W B S Visited) (sink : K) (stats : Stats)
      → 2 ≤ fuel
      → Ready env w
      → cfg.max_retries ≤ℤ pos 37
      → let t = fetch_page k env fuel urls dom site cfg s j w sink stats in
        (t.crashed ≡ false)
        × All (InScope urls dom s j) t.next
        × Ends s j
            (finished w.counters)
            sink
            stats
            (acquire k env fuel cfg
              (page_task k env fuel urls dom site cfg s j)
              (record w { user = record { page = none; follow = [] } })).1
            t
  unfolding fetch_page page_task
  fetch_page-Counted time int63n_range cfg s j w sink stats enough ready le =
      after_acquire-Good s j (finished w.counters) sink stats _ _
        (acquire-Holds k env fuel (page_task k env fuel urls dom site cfg s j)
          (λ v. IsPageOf s j v.page)
          (λ t resp w' r came. keep_page-IsPageOf urls dom s site.run_id j _ resp _ _) cfg
          (record w { user = record { page = none; follow = [] } }))
        (acquire-Returned k env fuel time int63n_range enough cfg _
          (record w { user = record { page = none; follow = [] } }) ready le)
