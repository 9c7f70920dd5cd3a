-- ===== src/Proxy/Rotation/Available.antt =====
-- Whatever the strategy, the random draws and the arithmetic of the weights: what `Next` hands out.
use mathlib.Core.Option
use native.Mathlib.Nat.{zero-add}
use serp_harvester.Prelude.{
  ℕ, suc, ◌+◌, ◌<◌, ◌≡◌, refl, ap, List, [], ◌∷◌, true, false, Option, none, some, length, take,
  drop, take-append-drop, ◌==◌, arith, Float, Bool-cases, inl, inr, Listed, Listed-swap,
  get_elem?-Listed, get_elem?-some,
}
use serp_harvester.Proxy.{
  Proxy, Pool, Strategy, round_robin, random, weighted_success_rate, is_banned,
}
use serp_harvester.Proxy.Rotation.{
  Picked, picked, all_banned, index_panic, Draws, next_round_robin, healthy_from, healthy_locked,
  use_at, next_random, weights, pick_weight, pick_or_last, next_weighted, next_by, next,
}
use serp_harvester.Proxy.Rotation.Cycle.{first_free, rotation, chosen, next_round_robin-first_free}

module _ {W : Type 0} where
  -- A proxy that is handed out is on the list and was not cooling when it was looked at;
  -- `ErrAllBanned` means that each one on the list was cooling when it was looked at, and the pool
  -- is left as it was. An index is never out of range.
  abbrev pub IsGood : (ℕ → ℕ) → Pool W → Pool W × Picked → Type 0
  IsGood clock pl (q, picked r) =
      Listed r pl.proxies × ((i : ℕ) × (is_banned (clock i) (pl.cell r) ≡ false))
  IsGood clock pl (q, all_banned) =
      ((r : ℕ) → Listed r pl.proxies → (i : ℕ) × (is_banned (clock i) (pl.cell r) ≡ true))
      × (q ≡ pl)
  IsGood clock pl (q, index_panic) = ⊥

  -- What a search for a free proxy finds on the list `rs`.
  abbrev Finds : (ℕ → ℕ) → (ℕ → Proxy W) → List ℕ → Option (ℕ × ℕ) → Type 0
  Finds clock cell rs (some (j, r)) =
      Listed r rs × ((i : ℕ) × (is_banned (clock i) (cell r) ≡ false))
  Finds clock cell rs none = (r : ℕ) → Listed r rs → (i : ℕ) × (is_banned (clock i) (cell r) ≡ true)

  Finds-cons :
      (clock : ℕ → ℕ) (i : ℕ) (cell : ℕ → Proxy W) (r : ℕ) (rs : List ℕ) (o : Option (ℕ × ℕ))
      → is_banned (clock i) (cell r) ≡ true
      → Finds clock cell rs o
      → Finds clock cell (r ∷ rs) (Option.map (λ (e : ℕ × ℕ). (e.0 + 1, e.1)) o)
  Finds-cons clock i cell r rs none b h = λ s l. elim l [ inl e ↦ (i, rw e b) | inr l' ↦ h s l' ]
  Finds-cons clock i cell r rs (some (j, s)) b h = (inr h.0, h.1)

  first_free-Finds :
      (clock : ℕ → ℕ) (i : ℕ) (cell : ℕ → Proxy W) (rs : List ℕ)
      → Finds clock cell rs (first_free clock i cell rs)
  unfolding first_free
  first_free-Finds clock i cell [] = λ r l. elim l [ ]
  first_free-Finds clock i cell (r ∷ rs) = elim (Bool-cases (is_banned (clock i) (cell r))) [
    | inl b ↦ rw b (Finds-cons clock i cell r rs _ b (first_free-Finds clock (i + 1) cell rs))
    | inr f ↦ rw f (inl refl, (i, f))
  ]

  chosen-IsGood :
      (clock : ℕ → ℕ) (pl : Pool W) (o : Option (ℕ × ℕ))
      → Finds clock pl.cell (rotation pl.idx pl.proxies) o
      → IsGood clock pl (chosen clock pl o)
  chosen-IsGood clock pl none h = (λ r l. h r (back r l), refl)
    where
      back : (r : ℕ) → Listed r pl.proxies → Listed r (rotation pl.idx pl.proxies)
      back r l =
          Listed-swap r (take pl.idx pl.proxies) (drop pl.idx pl.proxies)
            (rw (take-append-drop pl.idx pl.proxies) l)
  chosen-IsGood clock pl (some (j, r)) h = (
    rw (take-append-drop pl.idx pl.proxies) at
        (Listed-swap r (drop pl.idx pl.proxies) (take pl.idx pl.proxies) h.0),
    h.1,
  )

  next_round_robin-IsGood :
      (clock : ℕ → ℕ) (pl : Pool W)
      → pl.idx < length pl.proxies
      → IsGood clock pl (next_round_robin clock pl)
  next_round_robin-IsGood clock pl h =
      rw (next_round_robin-first_free clock pl h)
        (chosen-IsGood clock pl _ (first_free-Finds clock 0 pl.cell _))

  -- Each healthy proxy is on the list and was free; one that is left out was cooling.
  healthy_from_lem :
      (clock : ℕ → ℕ) (i : ℕ) (cell : ℕ → Proxy W) (rs : List ℕ)
      → ((r : ℕ)
          → Listed r (healthy_from clock i cell rs)
          → Listed r rs × ((j : ℕ) × (is_banned (clock j) (cell r) ≡ false)))
        × ((r : ℕ)
            → Listed r rs
            → (healthy_from clock i cell rs ≡ [])
            → (j : ℕ) × (is_banned (clock j) (cell r) ≡ true))
  unfolding healthy_from
  healthy_from_lem clock i cell [] = ((λ r l. elim l [ ]), (λ r l e. elim l [ ]))
  healthy_from_lem clock i cell (r ∷ rs) =
      let (sound, full) = healthy_from_lem clock (i + 1) cell rs in
      elim (Bool-cases (is_banned (clock i) (cell r))) [
        | inl b ↦ rw b (
          (λ s l. (inr (sound s l).0, (sound s l).1)),
          (λ s l e. elim l [ inl here ↦ (i, rw here b) | inr there ↦ full s there e ]),
        )
        | inr f ↦ rw f (
          (λ s l. elim l [
            | inl here ↦ (inl here, (i, rw here f))
            | inr there ↦ (inr (sound s there).0, (sound s there).1)
          ]),
          (λ s l e. absurd (cc e)),
        )
      ]

  use_at-IsGood :
      (clock : ℕ → ℕ) (now : ℕ) (pl : Pool W) (k : ℕ)
      → k < length (healthy_locked clock pl)
      → IsGood clock pl (use_at now pl (healthy_locked clock pl) k)
  unfolding use_at healthy_locked
  use_at-IsGood clock now pl k h =
      let (r, e) = get_elem?-some (healthy_from clock 0 pl.cell pl.proxies) k h in
      rw (e, use_at) ((healthy_from_lem clock 0 pl.cell pl.proxies).0 r (get_elem?-Listed _ k e))

  none_healthy-IsGood :
      (clock : ℕ → ℕ) (pl : Pool W)
      → (length (healthy_locked clock pl) == 0) ≡ true
      → IsGood clock pl (pl, all_banned)
  unfolding healthy_locked
  none_healthy-IsGood clock pl h =
      (λ r l. (healthy_from_lem clock 0 pl.cell pl.proxies).1 r l (nil_of_length _ h), refl)
    where
      nil_of_length : (xs : List ℕ) → (length xs == 0) ≡ true → xs ≡ []
      nil_of_length [] e = refl
      nil_of_length (x ∷ xs) e = ground (arith, e)

pos_of_ne : (xs : List ℕ) → (length xs == 0) ≡ false → 0 < length xs
pos_of_ne xs h = ground arith

module _ {W : Type 0} ⦃f : Float W⦄ where
  length-weights : (cell : ℕ → Proxy W) (rs : List ℕ) → length (weights cell rs) ≡ length rs
  unfolding weights
  length-weights cell [] = refl
  length-weights cell (r ∷ rs) = ap suc (length-weights cell rs)

  pick_weight-lt :
      (r : W) (i n : ℕ) (ws : List W)
      → 0 < n
      → i + length ws ≡ n
      → pick_or_last (pick_weight r i ws) n < n
  unfolding pick_weight pick_or_last
  pick_weight-lt r i n [] h e = omega arith
  pick_weight-lt r i n (w ∷ ws) h e = elim (Bool-cases (f.le (f.sub r w) (f.lit 0 1))) [
    | inl hit ↦ rw hit (omega arith)
    | inr miss ↦ rw miss (pick_weight-lt (f.sub r w) (i + 1) n ws h (omega arith))
  ]

  next_by-IsGood :
      (s : Strategy) (draws : Draws W) (clock : ℕ → ℕ) (pl : Pool W)
      → ((n : ℕ) → 0 < n → draws.intn n < n)
      → pl.idx < length pl.proxies
      → IsGood clock pl (next_by s draws clock pl)
  unfolding next_by next_random next_weighted
  next_by-IsGood round_robin draws clock pl hd h = next_round_robin-IsGood clock pl h
  next_by-IsGood random draws clock pl hd h =
      elim (Bool-cases (length (healthy_locked clock pl) == 0)) [
        | inl e ↦ rw e (none_healthy-IsGood clock pl e)
        | inr e ↦ rw e (use_at-IsGood clock _ pl _ (hd _ (pos_of_ne _ e)))
      ]
  next_by-IsGood weighted_success_rate draws clock pl hd h =
      elim (Bool-cases (length (healthy_locked clock pl) == 0)) [
        | inl e ↦ rw e (none_healthy-IsGood clock pl e)
        | inr e ↦ rw e (
            use_at-IsGood clock _ pl _ (
              pick_weight-lt _ 0 _ (weights pl.cell (healthy_locked clock pl)) (pos_of_ne _ e)
                (rw zero-add (length-weights pl.cell (healthy_locked clock pl)))))
      ]

  -- Whatever the strategy and the weights, rounding and NaN included, with an index on the list and
  -- draws of `rand.Intn` below its argument: `Next` hands out a proxy of the list that was not
  -- cooling when it was looked at, or finds each one cooling and leaves the pool as it was; no index
  -- is ever out of range.
  pub next-IsGood :
      (draws : Draws W) (clock : ℕ → ℕ) (pl : Pool W)
      → ((n : ℕ) → 0 < n → draws.intn n < n)
      → pl.idx < length pl.proxies
      → IsGood clock pl (next draws clock pl)
  unfolding next
  next-IsGood draws clock pl hd h = next_by-IsGood pl.strategy draws clock pl hd h
