-- ===== src/Proxy/Setup/Reloading.antt =====
-- The invariant of the pool, and what a reload keeps.
use mathlib.Core.List.{append-nil, append_assoc}
use serp_harvester.Prelude.{
  subst, ℕ, suc, ◌+◌, ◌≤◌, ◌<◌, ◌≡◌, refl, ap, sym, inl, inr, ◌++◌, List, [], ◌∷◌, Text, ℤ, Float,
  update, none, some, lookup, insert, arith, length, length-append, All, All-append, lookup-insert,
  text_eq_iff, Option-cases,
}
use serp_harvester.Proxy.{Proxy, Pool}
use serp_harvester.Proxy.Setup.{
  clean, or_direct, add_proxy, add_proxies, set_proxies, empty_pool, new_pool, reload_proxy,
  reload_proxies, reload,
}

-- Every reference is allocated, and the map leads to a proxy of the URL.
pub record IsAllocated {W : Type 0} (pl : Pool W) : Type 0 where
  pub listed : All (λ r. r < pl.fresh) pl.proxies
  pub mapped :
      (u : Text) (r : ℕ) → lookup u pl.by_url ≡ some r → (r < pl.fresh) × ((pl.cell r).url ≡ u)

-- Besides, the list has an entry at the rotation's index.
pub record IsWf {W : Type 0} (pl : Pool W) : Type 0 where
  pub allocated : IsAllocated pl
  pub idx_lt : pl.idx < length pl.proxies

All-lt-suc : (n : ℕ) (rs : List ℕ) → All (λ r. r < n) rs → All (λ r. r < suc n) rs
All-lt-suc n [] h = tt
All-lt-suc n (r ∷ rs) h = (omega arith, All-lt-suc n rs h.1)

or_direct_pos : (us : List Text) → 0 < length (or_direct us)
unfolding or_direct
or_direct_pos [] = omega arith
or_direct_pos (u ∷ us) = omega arith

module _ {W : Type 0} ⦃f : Float W⦄ where
  add_proxy-IsAllocated : (pl : Pool W) (u : Text) → IsAllocated pl → IsAllocated (add_proxy pl u)
  unfolding add_proxy clean
  add_proxy-IsAllocated pl u h = record {
    listed = All-append _ pl.proxies _ (All-lt-suc pl.fresh pl.proxies h.listed) (omega arith, tt);
    mapped = λ v r e.
        ground (arith, lookup-insert u v pl.fresh pl.by_url, text_eq_iff u v, h.mapped v r);
  }

  reload_proxy-IsAllocated :
      (old : List (Text × ℕ)) (pl : Pool W) (u : Text)
      → ((r : ℕ) → lookup u old ≡ some r → (r < pl.fresh) × ((pl.cell r).url ≡ u))
      → IsAllocated pl
      → IsAllocated (reload_proxy old pl u)
  unfolding reload_proxy
  reload_proxy-IsAllocated old pl u known h = elim (Option-cases (lookup u old)) [
    | inl e ↦ rw (e, reload_proxy) (add_proxy-IsAllocated pl u h)
    | inr (r, e) ↦
        rw (e, reload_proxy)
          (record {
            listed = All-append _ pl.proxies _ h.listed ((known r e).0, tt);
            mapped = λ v s e'.
                ground
                  (arith, lookup-insert u v r pl.by_url, text_eq_iff u v, h.mapped v s, known r e);
          })
  ]

-- The map that a loop reads leads to allocated proxies of the URL.
abbrev Known : {W : Type 0} → List (Text × ℕ) → Pool W → Type 0
Known old pl = (u : Text) (r : ℕ) → lookup u old ≡ some r → (r < pl.fresh) × ((pl.cell r).url ≡ u)

-- Position by position, the URLs and the references are related.
abbrev pub Aligned : (Text → ℕ → Type 0) → List Text → List ℕ → Type 0
Aligned P [] [] = Unit {0}
Aligned P [] (r ∷ rs) = ⊥
Aligned P (u ∷ us) [] = ⊥
Aligned P (u ∷ us) (r ∷ rs) = P u r × Aligned P us rs

Aligned-snoc :
    (P : Text → ℕ → Type 0) (us : List Text) (rs : List ℕ) {u : Text} {r : ℕ}
    → Aligned P us rs
    → P u r
    → Aligned P (us ++ u ∷ []) (rs ++ r ∷ [])
Aligned-snoc P [] [] a p = (p, tt)
Aligned-snoc P [] (r ∷ rs) a p = absurd a
Aligned-snoc P (u ∷ us) [] a p = absurd a
Aligned-snoc P (u ∷ us) (r ∷ rs) a p = (a.0, Aligned-snoc P us rs a.1 p)

Aligned-mono :
    (P Q : Text → ℕ → Type 0) (n : ℕ) (us : List Text) (rs : List ℕ)
    → ((u : Text) (r : ℕ) → r < n → P u r → Q u r)
    → All (λ r. r < n) rs
    → Aligned P us rs
    → Aligned Q us rs
Aligned-mono P Q n [] [] f h a = tt
Aligned-mono P Q n [] (r ∷ rs) f h a = absurd a
Aligned-mono P Q n (u ∷ us) [] f h a = absurd a
Aligned-mono P Q n (u ∷ us) (r ∷ rs) f h a = (f u r h.0 a.0, Aligned-mono P Q n us rs f h.1 a.1)

length-Aligned :
    (P : Text → ℕ → Type 0) (us : List Text) (rs : List ℕ) → Aligned P us rs → length us ≡ length rs
length-Aligned P [] [] a = refl
length-Aligned P [] (r ∷ rs) a = absurd a
length-Aligned P (u ∷ us) [] a = absurd a
length-Aligned P (u ∷ us) (r ∷ rs) a = ap suc (length-Aligned P us rs a.1)

module _ {W : Type 0} ⦃f : Float W⦄ where
  -- The proxy `p` behind the reference `r` for the URL `u`, after a reload of a pool with the cells
  -- `cells` and the map `old`: the same proxy with all its statistics if the map has one, else a
  -- clean one.
  abbrev pub Kept : List (Text × ℕ) → (ℕ → Proxy W) → Text → ℕ → Proxy W → Type 0
  Kept old cells u r p = elim (lookup u old) [
    | some s ↦ (r ≡ s) × (p ≡ cells s)
    | none ↦ p ≡ clean u
  ]

  update_other : (cell : ℕ → Proxy W) (n r : ℕ) (p : Proxy W) → r < n → update cell n p r ≡ cell r
  update_other cell n r p h = ground arith

  update_self : (cell : ℕ → Proxy W) (n : ℕ) (p : Proxy W) → update cell n p n ≡ p
  update_self cell n p = ground arith

  module _ (old : List (Text × ℕ)) (cells : ℕ → Proxy W) (first : ℕ) where
    -- What the loop of a reload maintains, with `first` for the references allocated before it.
    record Loop (q : Pool W) (done : List Text) : Type 0 where
      allocated : IsAllocated q
      known : Known old q
      old_lt : (u : Text) (r : ℕ) → lookup u old ≡ some r → r < first
      first-le : first ≤ q.fresh
      old_cells : (r : ℕ) → r < first → q.cell r ≡ cells r
      aligned : Aligned (λ u r. Kept old cells u r (q.cell r)) done q.proxies

    add_proxy-Loop :
        (q : Pool W) (done : List Text) (u : Text)
        → lookup u old ≡ none
        → Loop q done
        → Loop (add_proxy q u) (done ++ u ∷ [])
    unfolding add_proxy
    add_proxy-Loop q done u e h = record {
      allocated = add_proxy-IsAllocated q u h.allocated;
      known = λ v r e'. ground (arith, h.known v r e');
      old_lt = h.old_lt;
      first-le = omega (arith, h.first-le);
      old_cells = λ r lt. ground (arith, h.old_cells r lt, h.first-le);
      aligned =
          Aligned-snoc _ done q.proxies
            (Aligned-mono _ _ q.fresh done q.proxies stays h.allocated.listed h.aligned)
            (rw (e, Kept) (update_self q.cell q.fresh (clean u)));
    }
      where
        stays :
            (v : Text) (r : ℕ)
            → r < q.fresh
            → Kept old cells v r (q.cell r)
            → Kept old cells v r ((add_proxy q u).cell r)
        stays v r lt k =
            subst (Kept old cells v r) (sym (update_other q.cell q.fresh r (clean u) lt)) k

    reload_proxy-Loop :
        (q : Pool W) (done : List Text) (u : Text)
        → Loop q done
        → Loop (reload_proxy old q u) (done ++ u ∷ [])
    unfolding reload_proxy
    reload_proxy-Loop q done u h = elim (Option-cases (lookup u old)) [
      | inl e ↦ rw (e, reload_proxy) (add_proxy-Loop q done u e h)
      | inr (r, e) ↦
          rw (e, reload_proxy)
            (record {
              allocated = kept r e;
              known = h.known;
              old_lt = h.old_lt;
              first-le = h.first-le;
              old_cells = h.old_cells;
              aligned =
                  Aligned-snoc _ done q.proxies h.aligned
                    (rw (e, Kept) (refl, h.old_cells r (h.old_lt u r e)));
            })
    ]
      where
        kept :
            (r : ℕ)
            → lookup u old ≡ some r
            → IsAllocated (record q { proxies = q.proxies ++ r ∷ []; by_url = insert u r q.by_url })
        kept r e =
            let w = reload_proxy-IsAllocated old q u (h.known u) h.allocated in
            rw (e, reload_proxy) at w

    reload_proxies-Loop :
        (q : Pool W) (done us : List Text)
        → Loop q done
        → Loop (reload_proxies old q us) (done ++ us)
    unfolding reload_proxies
    reload_proxies-Loop q done [] h = rw append-nil h
    reload_proxies-Loop q done (u ∷ us) h = rw (← append_assoc done (u ∷ []) us) (
        reload_proxies-Loop (reload_proxy old q u) (done ++ u ∷ []) us
          (reload_proxy-Loop q done u h))

  reload-Loop :
      (pl : Pool W) (urls : List Text)
      → IsAllocated pl
      → Loop pl.by_url pl.cell pl.fresh (reload pl urls) (or_direct urls)
  unfolding reload
  reload-Loop pl urls h = record {
    allocated = record { listed = l.allocated.listed; mapped = l.allocated.mapped };
    known = l.known;
    old_lt = l.old_lt;
    first-le = l.first-le;
    old_cells = l.old_cells;
    aligned = l.aligned;
  }
    where
      q : Pool W
      q = record pl { proxies = []; by_url = [] }

      l :
          Loop pl.by_url pl.cell pl.fresh
            (reload_proxies pl.by_url q (or_direct urls))
            (or_direct urls)
      l = reload_proxies-Loop pl.by_url pl.cell pl.fresh q [] (or_direct urls) (record {
        allocated = record { listed = tt; mapped = λ u r e. cc };
        known = h.mapped;
        old_lt = λ u r e. (h.mapped u r e).0;
        first-le = omega arith;
        old_cells = λ r lt. refl;
        aligned = tt;
      })

  -- A reload of an allocated pool gives a well-formed one: every reference is allocated, the map
  -- leads to proxies of the URL, and the rotation's index is on the list.
  pub reload-IsWf : (pl : Pool W) (urls : List Text) → IsAllocated pl → IsWf (reload pl urls)
  unfolding reload
  reload-IsWf pl urls h =
      let l = reload-Loop pl urls h in
      record {
        allocated = l.allocated;
        idx_lt = omega (arith, or_direct_pos urls, length-Aligned _ (or_direct urls) _ l.aligned);
      }

  -- After a reload of an allocated pool the list has, position by position, for each URL given (or
  -- the direct identity, if none is) the same proxy as before with its statistics, if the map had
  -- one, and a clean proxy otherwise.
  pub reload_keeps :
      (pl : Pool W) (urls : List Text)
      → IsAllocated pl
      → let q = reload pl urls in
        Aligned (λ u r. Kept pl.by_url pl.cell u r (q.cell r)) (or_direct urls) q.proxies
  reload_keeps pl urls h = (reload-Loop pl urls h).aligned

  add_proxies-IsAllocated :
      (pl : Pool W) (us : List Text)
      → IsAllocated pl
      → IsAllocated (add_proxies pl us)
        × (length (add_proxies pl us).proxies ≡ length pl.proxies + length us)
        × ((add_proxies pl us).idx ≡ pl.idx)
  unfolding add_proxies add_proxy
  add_proxies-IsAllocated pl [] h = (h, omega arith, refl)
  add_proxies-IsAllocated pl (u ∷ us) h =
      let (a, n, i) = add_proxies-IsAllocated (add_proxy pl u) us (add_proxy-IsAllocated pl u h) in
      (a, omega (arith, n, length-append pl.proxies (pl.fresh ∷ [])), i)

  -- A new pool is well formed, for any list of URLs and any settings, and has at least one proxy.
  pub new_pool-IsWf :
      (urls : List Text) (ban_threshold ban_cooldown : ℤ)
      → IsWf (new_pool {W = W} urls ban_threshold ban_cooldown)
        × (0 < length (new_pool {W = W} urls ban_threshold ban_cooldown).proxies)
  unfolding new_pool set_proxies empty_pool
  new_pool-IsWf urls ban_threshold ban_cooldown =
      let (a, n, i) =
        add_proxies-IsAllocated (record start { proxies = [] }) (or_direct urls)
          (record { listed = tt; mapped = λ u r e. cc }) in
      (
        record { allocated = a; idx_lt = omega (arith, n, i, or_direct_pos urls) },
        omega (arith, n, or_direct_pos urls),
      )
    where
      start : Pool W
      start = empty_pool ban_threshold ban_cooldown
