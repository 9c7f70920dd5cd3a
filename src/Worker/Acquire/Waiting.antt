-- ===== src/Worker/Acquire/Waiting.antt =====
-- internal/worker/pool.go: the rounds of the loop of `nextProxy`, with a clock that does not go back and
-- a timer that does not fire early.
use serp_harvester.Prelude.{
  ℕ, zero, suc, ◌+◌, ◌≤◌, ◌<◌, ◌==◌, ==_iff, ltb, ◌≡◌, ◌≢◌, refl, sym, ◌∙◌, subst, ℤ, pos, ◌-ℤ◌,
  leb_ℤ, pos_part, Bool, true, false, Float, Bool-cases, inl, inr, ◌⊎◌, ltb→lt, ltb→ge, ge→ltb,
  Listed, length, arith,
}
use serp_harvester.Proxy.{Proxy, Pool, is_banned}
use serp_harvester.Proxy.Rotation.{Picked, picked, all_banned, index_panic, next}
use serp_harvester.Proxy.Rotation.Frame.{next-Keeps}
use serp_harvester.Proxy.Rotation.Available.{IsGood, next-IsGood}
use serp_harvester.Proxy.Queries.{next_available_at, next_available_at_lem, size}
use serp_harvester.Worker.{Env, Config, World, step}
use serp_harvester.Worker.Timing.{sleep_ctx}
use serp_harvester.Worker.Acquire.{
  Found, found, no_proxy, crashed, stuck, on_picked, err_all_banned, next_proxy_from, next_proxy,
}

-- Time passes from one operation to the next, a timer does not fire early, and `rand.Intn` stays below
-- its argument.
pub record IsTimely {W B S : Type 0} (env : Env W B S) : Type 0 where
  pub clock_mono : (t i t' j : ℕ) → t < t' → env.clock t i ≤ env.clock t' j
  pub timer_late :
      (t₀ i t t' j : ℕ) (d : ℤ)
      → env.timer t d ≡ true
      → t₀ < t
      → t < t'
      → env.clock t₀ i + pos_part d ≤ env.clock t' j
  pub intn_lt : (t n : ℕ) → 0 < n → (env.draws t).intn n < n

not_after : (a c : ℕ) → leb_ℤ (pos a -ℤ pos c) (pos 0) ≡ true → a ≤ c
not_after a c h = ground arith

until_sum : (a c : ℕ) → leb_ℤ (pos a -ℤ pos c) (pos 0) ≡ false → c + pos_part (pos a -ℤ pos c) ≡ a
until_sum a c h = ground arith

true_ne_false : true ≢ false
true_ne_false h = cc

module _ {W : Type 0} where
  no_panic : (clock : ℕ → ℕ) (pl q : Pool W) (x : Picked) → IsGood clock pl (q, x) → x ≢ index_panic
  no_panic clock pl q x g e = subst (λ y. IsGood clock pl (q, y)) e g

  all_cooling :
      (clock : ℕ → ℕ) (pl q : Pool W) (x : Picked)
      → IsGood clock pl (q, x)
      → x ≡ all_banned
      → (r : ℕ) → Listed r pl.proxies
      → (i : ℕ) × (is_banned (clock i) (pl.cell r) ≡ true)
  all_cooling clock pl q x g e = (subst (λ y. IsGood clock pl (q, y)) e g).0

  free_later :
      (p : Proxy W) (now later : ℕ)
      → now ≤ later
      → is_banned now p ≡ false
      → is_banned later p ≡ false
  unfolding is_banned
  free_later p now later h e =
      ge→ltb later p.banned_until (omega (arith, ltb→ge now p.banned_until e))

  free_after : (p : Proxy W) (now : ℕ) → p.banned_until ≤ now → is_banned now p ≡ false
  unfolding is_banned
  free_after p now h = ge→ltb now p.banned_until h

  cooling_before : (p : Proxy W) (now : ℕ) → is_banned now p ≡ true → now < p.banned_until
  unfolding is_banned
  cooling_before p now h = ltb→lt now p.banned_until h

module _ {W B S : Type 0} (env : Env W B S) where
  -- Some proxy is free at every reading of an operation's clock.
  abbrev AnyFree : ℕ → Pool W → Type 0
  AnyFree t pl =
      (r : ℕ) × Listed r pl.proxies × ((i : ℕ) → is_banned (env.clock t i) (pl.cell r) ≡ false)

module _ {W B S U : Type 0} ⦃f : Float W⦄ (env : Env W B S) where
  -- The rotation index is on the list of proxies, which is then not empty.
  abbrev pub Ready : World W B S U → Type 0
  Ready w = w.pool.idx < length w.pool.proxies

  -- A result with the index on the list, and not a panic or a lack of fuel.
  abbrev pub Fine : World W B S U × Found → Type 0
  Fine (w, found r) = Ready w
  Fine (w, no_proxy e) = Ready w
  Fine (w, crashed) = ⊥
  Fine (w, stuck) = ⊥

  -- What is found for the pool: a proxy of its list that was free at some reading of the clock, or
  -- `ErrAllBanned` or the context's error.
  abbrev pub IsServed : Pool W → World W B S U × Found → Type 0
  IsServed pl (w, found r) =
      Listed r pl.proxies × ((t : ℕ) × (i : ℕ) × (is_banned (env.clock t i) (pl.cell r) ≡ false))
  IsServed pl (w, no_proxy e) = (e ≡ err_all_banned) ⊎ (e ≡ env.cause)
  IsServed pl (w, crashed) = Unit {0}
  IsServed pl (w, stuck) = Unit {0}

  on_picked-IsServed :
      (pl q : Pool W) (t at deadline : ℕ) (w : World W B S U) (recovered : World W B S U × Found)
      (slept : World W B S U × Bool) (rested : World W B S U × Found) (x : Picked)
      → IsGood (env.clock t) pl (q, x)
      → IsServed q recovered
      → IsServed q rested
      → IsServed pl (on_picked env at deadline w recovered slept rested x)
  unfolding on_picked
  on_picked-IsServed pl q t at deadline w recovered slept rested (picked r) good a b =
      (good.0, (t, good.1.0, good.1.1))
  on_picked-IsServed pl q t at deadline w recovered slept rested index_panic good a b = tt
  on_picked-IsServed pl q t at deadline w recovered slept rested all_banned good a b =
      elim (Bool-cases (at == 0)) [
        | inl e ↦ rw e (subst (λ p. IsServed p recovered) good.1 a)
        | inr e ↦ elim (Bool-cases (ltb deadline at)) [
          | inl late ↦ rw (e, late) (inl refl)
          | inr early ↦ elim (Bool-cases slept.1) [
            | inl alive ↦ rw (e, early, alive) (subst (λ p. IsServed p rested) good.1 b)
            | inr over ↦ rw (e, early, over) (inr refl)
          ]
        ]
      ]

  on_picked-Fine :
      (at deadline : ℕ) (w : World W B S U) (recovered : World W B S U × Found)
      (slept : World W B S U × Bool) (rested : World W B S U × Found) (x : Picked)
      → x ≢ index_panic
      → Ready w
      → Ready slept.0
      → (x ≡ all_banned → at ≡ 0 → Fine recovered)
      → (x ≡ all_banned → at ≢ 0 → slept.1 ≡ true → Fine rested)
      → Fine (on_picked env at deadline w recovered slept rested x)
  unfolding on_picked
  on_picked-Fine at deadline w recovered slept rested (picked r) h a b c d = a
  on_picked-Fine at deadline w recovered slept rested index_panic h a b c d = absurd (h refl)
  on_picked-Fine at deadline w recovered slept rested all_banned h a b c d =
      elim (Bool-cases (at == 0)) [
        | inl e ↦ rw e (c refl ((==_iff at 0).0 e))
        | inr e ↦ elim (Bool-cases (ltb deadline at)) [
          | inl late ↦ rw (e, late) a
          | inr early ↦ elim (Bool-cases slept.1) [
            | inl alive ↦ rw (e, early, alive) (d refl (nonzero e) alive)
            | inr over ↦ rw (e, early, over) b
          ]
        ]
      ]
    where
      nonzero : (at == 0) ≡ false → at ≢ 0
      nonzero e = λ z. ground arith

  module _ (time : IsTimely env) where
    -- A round that meets a free proxy is the last.
    free-Fine :
        (n deadline : ℕ) (w : World W B S U)
        → Ready w
        → AnyFree env w.tick w.pool
        → Fine (next_proxy_from env (suc n) deadline w)
    unfolding next_proxy_from sleep_ctx
    free-Fine n deadline w h (r, l, free) =
        on_picked-Fine _ deadline _ _ _ _ _ (no_panic _ _ _ _ good) keeps keeps
          (λ e z. absurd (busy e)) (λ e z a. absurd (busy e))
      where
        good : IsGood (env.clock w.tick) w.pool (next (env.draws w.tick) (env.clock w.tick) w.pool)
        good = next-IsGood (env.draws w.tick) (env.clock w.tick) w.pool (time.intn_lt w.tick) h

        keeps :
            let q = (next (env.draws w.tick) (env.clock w.tick) w.pool).0 in
            q.idx < length q.proxies
        keeps = (next-Keeps (env.draws w.tick) (env.clock w.tick) w.pool h).1

        busy : (next (env.draws w.tick) (env.clock w.tick) w.pool).1 ≡ all_banned → ⊥
        busy e =
            let (i, b) = all_cooling (env.clock w.tick) w.pool _ _ good e r l in
            true_ne_false (sym b ∙ free i)

    -- After the wait that `NextAvailableAt` asks for, some proxy is free.
    next_available_at-AnyFree :
        (t₁ t₂ t₄ : ℕ) (pl : Pool W) (w : World W B S U)
        → pl.idx < length pl.proxies
        → t₁ < t₂
        → t₂ < w.tick
        → w.tick < t₄
        → let at = next_available_at (env.clock t₁ 0) pl in
          (at ≡ 0 → AnyFree env t₂ pl)
          × (at ≢ 0
              → (sleep_ctx env (pos at -ℤ pos (env.clock t₂ 0)) w).1 ≡ true
              → AnyFree env t₄ pl)
    unfolding sleep_ctx
    next_available_at-AnyFree t₁ t₂ t₄ pl w h l1 l2 l3 =
        elim (next_available_at_lem (env.clock t₁ 0) pl (unfold size in omega arith)) [
          | inl (zero_at, (r, l, free)) ↦ (
            (λ e. (r, l, (λ i. free_later (pl.cell r) _ _ (time.clock_mono t₁ 0 t₂ i l1) free))),
            (λ ne alive. absurd (ne zero_at)),
          )
          | inr (bounds, (r, l, e)) ↦ (
            (λ z. absurd (omega (arith, cooling_before (pl.cell r) _ (bounds r l).0))),
            (λ ne alive. (r, l, (λ i. free_after (pl.cell r) _ (woken r i e alive)))),
          )
        ]
      where
        woken :
            (r i : ℕ)
            → next_available_at (env.clock t₁ 0) pl ≡ (pl.cell r).banned_until
            → (sleep_ctx env
                (pos (next_available_at (env.clock t₁ 0) pl) -ℤ pos (env.clock t₂ 0))
                w).1
              ≡ true
            → (pl.cell r).banned_until ≤ env.clock t₄ i
        woken r i e alive =
            elim (Bool-cases (
              leb_ℤ (pos (next_available_at (env.clock t₁ 0) pl) -ℤ pos (env.clock t₂ 0))
                (pos 0))) [
                  | inl past ↦
                      omega (arith, not_after _ _ past, time.clock_mono t₂ 0 t₄ i (omega arith))
                  | inr ahead ↦ omega (
                    arith,
                    until_sum _ _ ahead,
                    time.timer_late t₂ 0 w.tick t₄ i _ (rw ahead at alive) l2 l3,
                  )
                ]

    next_proxy_from-Fine :
        (n deadline : ℕ) (w : World W B S U)
        → Ready w
        → Fine (next_proxy_from env (suc (suc n)) deadline w)
    unfolding next_proxy_from sleep_ctx
    next_proxy_from-Fine n deadline w h =
        on_picked-Fine _ deadline _ _ _ _ _ (no_panic _ _ _ _ good) keeps keeps
          (λ e z. free-Fine n deadline _ keeps (free.0 z))
          (λ e z a. free-Fine n deadline _ keeps (free.1 z a))
      where
        good : IsGood (env.clock w.tick) w.pool (next (env.draws w.tick) (env.clock w.tick) w.pool)
        good = next-IsGood (env.draws w.tick) (env.clock w.tick) w.pool (time.intn_lt w.tick) h

        keeps :
            let q = (next (env.draws w.tick) (env.clock w.tick) w.pool).0 in
            q.idx < length q.proxies
        keeps = (next-Keeps (env.draws w.tick) (env.clock w.tick) w.pool h).1

        free :
            let q = (next (env.draws w.tick) (env.clock w.tick) w.pool).0 in
            let t = w.tick + 1 + 1 in
            let at = next_available_at (env.clock (w.tick + 1) 0) q in
            (at ≡ 0 → AnyFree env t q)
            × (at ≢ 0
                → (sleep_ctx env
                    (pos at -ℤ pos (env.clock t 0))
                    (record w { tick = t + 1; pool = q })).1
                  ≡ true
                → AnyFree env (t + 1 + 1) q)
        free =
            next_available_at-AnyFree (w.tick + 1) (w.tick + 1 + 1) (w.tick + 1 + 1 + 1 + 1)
              (next (env.draws w.tick) (env.clock w.tick) w.pool).0
              (record w {
                tick = w.tick + 1 + 1 + 1;
                pool = (next (env.draws w.tick) (env.clock w.tick) w.pool).0;
              })
              keeps (omega arith) (omega arith) (omega arith)

    next_proxy_from-enough :
        (fuel deadline : ℕ) (w : World W B S U)
        → 2 ≤ fuel
        → Ready w
        → Fine (next_proxy_from env fuel deadline w)
    next_proxy_from-enough zero deadline w h ready = absurd (omega arith)
    next_proxy_from-enough (suc zero) deadline w h ready = absurd (omega arith)
    next_proxy_from-enough (suc (suc n)) deadline w h ready =
        next_proxy_from-Fine n deadline w ready

    next_proxy_from-IsServed :
        (n deadline : ℕ) (w : World W B S U)
        → Ready w
        → IsServed w.pool (next_proxy_from env n deadline w)
    unfolding next_proxy_from sleep_ctx
    next_proxy_from-IsServed zero deadline w h = tt
    next_proxy_from-IsServed (suc n) deadline w h =
        on_picked-IsServed w.pool q w.tick _ deadline _ _ _ _ _
          (next-IsGood (env.draws w.tick) (env.clock w.tick) w.pool (time.intn_lt w.tick) h)
          (next_proxy_from-IsServed n deadline looked keeps)
          (next_proxy_from-IsServed n deadline rest keeps)
      where
        q : Pool W
        q = (next (env.draws w.tick) (env.clock w.tick) w.pool).0

        looked : World W B S U
        looked = step (step (record w { pool = q }))

        rest : World W B S U
        rest =
            (sleep_ctx env
              (pos (next_available_at (env.clock (w.tick + 1) 0) q)
                -ℤ pos (env.clock looked.tick 0))
              (step looked)).0

        keeps : q.idx < length q.proxies
        keeps = (next-Keeps (env.draws w.tick) (env.clock w.tick) w.pool h).1

    -- From a pool with a proxy, when the clock does not go back, timers do not fire early and
    -- `rand.Intn` stays below its argument: two rounds of its loop are enough for `nextProxy` to
    -- return. It returns a proxy of the list that was not cooling at a reading of the clock, or
    -- `ErrAllBanned` or the context's error; an index is never out of range, and the rotation
    -- index stays on the list.
    pub next_proxy-Fine :
        (fuel : ℕ) (cfg : Config) (w : World W B S U)
        → 2 ≤ fuel
        → Ready w
        → Fine (next_proxy env fuel cfg w) × IsServed w.pool (next_proxy env fuel cfg w)
    unfolding next_proxy
    next_proxy-Fine fuel cfg w h ready =
        (next_proxy_from-enough fuel _ _ h ready, next_proxy_from-IsServed fuel _ _ ready)
