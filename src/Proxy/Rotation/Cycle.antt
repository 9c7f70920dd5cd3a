-- ===== src/Proxy/Rotation/Cycle.antt =====
-- The order in which the round robin visits the list, and its fairness.
use mathlib.Core.Option
use mathlib.Core.List.{append-nil, append_assoc}
use native.Mathlib.Nat.{
  mod-eq_of_lt, mod-add-mod, mod_self, mod-lt, zero-mod, add-zero, zero-add, add_assoc,
  add-mod_right,
}
use serp_harvester.Prelude.{
  ℕ, zero, suc, ◌+◌, ◌-◌, ◌%◌, ◌<◌, ◌≡◌, refl, ap, ap₂, sym, ◌∙◌, subst, List, [], ◌∷◌, ◌++◌, map,
  false, if◌then◌else◌, Option, none, some, get_elem?, length, length-append, take, drop,
  take-append-drop, length-take_of_le, get_elem?-append_length, arith, Bool-cases, inl, inr,
}
use serp_harvester.Proxy.{Proxy, Pool, is_banned}
use serp_harvester.Proxy.Rotation.{Picked, picked, all_banned, mark_used, rounds, next_round_robin}

-- Reading `xs` from the index `i` on, modulo `n`, gives `ys`.
abbrev pub Reads : List ℕ → ℕ → ℕ → List ℕ → Type 0
Reads xs n i [] = Unit {0}
Reads xs n i (y ∷ ys) = (get_elem? xs i ≡ some y) × Reads xs n ((i + 1) % n) ys

-- The list from position `s` on, and then its beginning.
abbrev pub rotation : ℕ → List ℕ → List ℕ
rotation s xs = drop s xs ++ take s xs

Reads-append :
    (xs us bs rest cs : List ℕ)
    → xs ≡ us ++ (bs ++ rest)
    → Reads xs (length xs) (length (us ++ bs) % length xs) cs
    → Reads xs (length xs) (length us % length xs) (bs ++ cs)
Reads-append xs us [] rest cs e h = rw append-nil at h
Reads-append xs us (b ∷ bs) rest cs e h = (
  here,
  subst (λ t. Reads xs (length xs) t (bs ++ cs)) step
      (Reads-append xs (us ++ b ∷ []) bs rest cs e' h'),
)
  where
    lt : length us < length xs
    lt = rw e (omega (arith, length-append us (b ∷ (bs ++ rest))))

    small : length us % length xs ≡ length us
    small = mod-eq_of_lt lt

    here : get_elem? xs (length us % length xs) ≡ some b
    here = rw (small, e) (get_elem?-append_length us b (bs ++ rest))

    step : length (us ++ b ∷ []) % length xs ≡ (length us % length xs + 1) % length xs
    step = rw small (ap (λ t. t % length xs) (length-append us (b ∷ [])))

    e' : xs ≡ (us ++ b ∷ []) ++ (bs ++ rest)
    e' = e ∙ sym (append_assoc us (b ∷ []) (bs ++ rest))

    h' : Reads xs (length xs) (length ((us ++ b ∷ []) ++ bs) % length xs) cs
    h' = rw (append_assoc us (b ∷ []) bs) h

-- The modular index visits the list from `s` on, then its beginning, and nothing else.
Reads-rotation : (s : ℕ) (xs : List ℕ) → s < length xs → Reads xs (length xs) s (rotation s xs)
Reads-rotation s xs h =
    subst (λ t. Reads xs n t (rotation s xs))
      (rw (length-take_of_le s xs (omega arith)) (mod-eq_of_lt h))
      (Reads-append xs (take s xs) (drop s xs) [] (take s xs)
        (rw append-nil (sym (take-append-drop s xs))) wrapped)
  where
    n : ℕ
    n = length xs

    start : Reads xs n 0 (take s xs)
    start =
        subst (λ t. Reads xs n t (take s xs)) (zero-mod n)
          (rw append-nil at
            (Reads-append xs [] (take s xs) (drop s xs) [] (sym (take-append-drop s xs)) tt))

    wrapped : Reads xs n (length (take s xs ++ drop s xs) % n) (take s xs)
    wrapped = rw (take-append-drop s xs, mod_self n) start

length-rotation : (s : ℕ) (xs : List ℕ) → length (rotation s xs) ≡ length xs
length-rotation s xs = omega (
  arith,
  length-append (drop s xs) (take s xs),
  length-append (take s xs) (drop s xs),
  ap (length {A = ℕ}) (take-append-drop s xs),
)

-- The first free proxy of a list, with its position; reading `i` is for the head.
unfoldable pub first_free : {W : Type 0} → (ℕ → ℕ) → ℕ → (ℕ → Proxy W) → List ℕ → Option (ℕ × ℕ)
first_free clock i cell [] = none
first_free clock i cell (r ∷ rs) =
    let rest = Option.map (λ (e : ℕ × ℕ). (e.0 + 1, e.1)) (first_free clock (i + 1) cell rs) in
    if is_banned (clock i) (cell r) then rest else some (0, r)

next_index : (x j n : ℕ) → ((x + 1) % n + j) % n ≡ (x + suc j) % n
next_index x j n = mod-add-mod (x + 1) n j ∙ ap (λ t. t % n) (omega arith)

module _ {W : Type 0} where
  -- The proxy at position `j` of the visited list is used, and the index goes past it; if there is
  -- none, the index goes past all `m`.
  abbrev pub served : (ℕ → ℕ) → ℕ → Pool W → ℕ → Option (ℕ × ℕ) → Pool W × Picked
  served clock i pl m none = (record pl { idx = (pl.idx + m) % length pl.proxies }, all_banned)
  served clock i pl m (some (j, r)) = (
    mark_used (clock (i + j + 1)) r (record pl { idx = (pl.idx + j + 1) % length pl.proxies }),
    picked r,
  )

  past : Pool W → Pool W
  past pl = record pl { idx = (pl.idx + 1) % length pl.proxies }

  served-past :
      (clock : ℕ → ℕ) (i : ℕ) (pl : Pool W) (m : ℕ) (o : Option (ℕ × ℕ))
      → served clock (i + 1) (past pl) m o
        ≡ served clock i pl (suc m) (Option.map (λ (e : ℕ × ℕ). (e.0 + 1, e.1)) o)
  unfolding past
  served-past clock i pl m none =
      ap (λ (t : ℕ). (record pl { idx = t }, all_banned)) (next_index pl.idx m (length pl.proxies))
  served-past clock i pl m (some (j, r)) =
      ap₂ (λ (t u : ℕ). (mark_used (clock t) r (record pl { idx = u }), picked r)) (omega arith)
        (rw (add_assoc ((pl.idx + 1) % length pl.proxies) j 1) (
          next_index pl.idx (j + 1) (length pl.proxies)
          ∙ ap (λ t. t % length pl.proxies) (omega arith)))

  rounds-first_free :
      (clock : ℕ → ℕ) (i : ℕ) (pl : Pool W) (ys : List ℕ)
      → pl.idx < length pl.proxies
      → Reads pl.proxies (length pl.proxies) pl.idx ys
      → rounds (length ys) clock i pl
        ≡ served clock i pl (length ys) (first_free clock i pl.cell ys)
  unfolding rounds first_free past
  rounds-first_free clock i pl [] h e =
      ap (λ (t : ℕ). (record pl { idx = t }, all_banned)) (sym (rw add-zero (mod-eq_of_lt h)))
  rounds-first_free clock i pl (y ∷ ys) h e = elim (Bool-cases (is_banned (clock i) (pl.cell y))) [
    | inl banned ↦
        rw (e.0, banned, rounds)
          (rounds-first_free clock (i + 1) (past pl) ys (mod-lt _ (omega arith)) e.1
            ∙ served-past clock i pl (length ys) (first_free clock (i + 1) pl.cell ys))
    | inr free ↦ rw (e.0, free, rounds) (cc (add-zero i, add-zero pl.idx))
  ]

  -- The result of a call, from the position and the proxy that it chooses.
  abbrev pub chosen : (ℕ → ℕ) → Pool W → Option (ℕ × ℕ) → Pool W × Picked
  chosen clock pl none = (pl, all_banned)
  chosen clock pl (some (j, r)) = (
    mark_used (clock (j + 1)) r (record pl { idx = (pl.idx + j + 1) % length pl.proxies }),
    picked r,
  )

  served-chosen :
      (clock : ℕ → ℕ) (pl : Pool W) (o : Option (ℕ × ℕ))
      → pl.idx < length pl.proxies
      → served clock 0 pl (length pl.proxies) o ≡ chosen clock pl o
  served-chosen clock pl none h =
      ap (λ (t : ℕ). (record pl { idx = t }, all_banned))
        (add-mod_right pl.idx (length pl.proxies) ∙ mod-eq_of_lt h)
  served-chosen clock pl (some (j, r)) h = rw zero-add

  -- Round robin, with an index on the list: reading the list from the index on and then from its
  -- beginning, `Next` uses the first proxy that is not cooling at the instant it is looked at, and
  -- the index goes past that one. If every one is cooling it returns `ErrAllBanned` and leaves the
  -- pool as it was.
  pub next_round_robin-first_free :
      (clock : ℕ → ℕ) (pl : Pool W)
      → pl.idx < length pl.proxies
      → next_round_robin clock pl
        ≡ chosen clock pl (first_free clock 0 pl.cell (rotation pl.idx pl.proxies))
  unfolding next_round_robin
  next_round_robin-first_free clock pl h =
      subst (λ m. rounds m clock 0 pl ≡ served clock 0 pl m found)
        (length-rotation pl.idx pl.proxies)
        (rounds-first_free clock 0 pl _ h (Reads-rotation pl.idx pl.proxies h))
      ∙ served-chosen clock pl found h
    where
      found : Option (ℕ × ℕ)
      found = first_free clock 0 pl.cell (rotation pl.idx pl.proxies)

  -- Successive calls, the first of them number `c`, each with its own clock: the proxies chosen.
  unfoldable pub serve : ℕ → (ℕ → ℕ → ℕ) → ℕ → Pool W → List Picked
  serve zero clocks c pl = []
  serve (suc k) clocks c pl =
      let (q, x) = next_round_robin (clocks c) pl in x ∷ serve k clocks (c + 1) q

  -- No reading of the clocks finds a proxy cooling.
  abbrev pub AllFree : (ℕ → ℕ → ℕ) → Pool W → Type 0
  AllFree clocks pl = (c i r : ℕ) → is_banned (clocks c i) (pl.cell r) ≡ false

  rounds_head :
      (k : ℕ) (clock : ℕ → ℕ) (pl : Pool W) (y : ℕ)
      → get_elem? pl.proxies pl.idx ≡ some y
      → is_banned (clock 0) (pl.cell y) ≡ false
      → rounds (suc k) clock 0 pl ≡ (mark_used (clock 1) y (past pl), picked y)
  unfolding rounds past
  rounds_head k clock pl y e free = rw (e, free, rounds)

  mark_used-is_banned :
      (used t s r : ℕ) (pl : Pool W)
      → is_banned t (pl.cell r) ≡ false
      → is_banned t ((mark_used used s (past pl)).cell r) ≡ false
  unfolding mark_used past is_banned
  mark_used-is_banned used t s r pl h = ground arith

  serve-Reads :
      (clocks : ℕ → ℕ → ℕ) (c : ℕ) (pl : Pool W) (ys : List ℕ)
      → pl.idx < length pl.proxies
      → AllFree clocks pl
      → Reads pl.proxies (length pl.proxies) pl.idx ys
      → serve (length ys) clocks c pl ≡ map picked ys
  unfolding serve next_round_robin mark_used past
  serve-Reads clocks c pl [] h free e = refl
  serve-Reads clocks c pl (y ∷ ys) h free e = rw first (
      ap (◌∷◌ (picked y))
        (serve-Reads clocks (c + 1) (after y) ys (mod-lt _ (omega arith)) (still y) e.1))
    where
      after : ℕ → Pool W
      after r = mark_used (clocks c 1) r (past pl)

      still : (s : ℕ) → AllFree clocks (after s)
      still s d i r = mark_used-is_banned (clocks c 1) (clocks d i) s r pl (free d i r)

      first : next_round_robin (clocks c) pl ≡ (after y, picked y)
      first =
          subst (λ m. rounds m (clocks c) 0 pl ≡ (after y, picked y)) (omega arith)
            (rounds_head (length pl.proxies - 1) (clocks c) pl y e.0 (free c 0 y))

  -- With no proxy cooling, as many calls as the list is long choose every position of the list
  -- once: from the index on, and then from the beginning.
  pub serve-rotation :
      (clocks : ℕ → ℕ → ℕ) (pl : Pool W)
      → pl.idx < length pl.proxies
      → AllFree clocks pl
      → serve (length pl.proxies) clocks 0 pl ≡ map picked (rotation pl.idx pl.proxies)
  serve-rotation clocks pl h free =
      subst (λ m. serve m clocks 0 pl ≡ map picked (rotation pl.idx pl.proxies))
        (length-rotation pl.idx pl.proxies)
        (serve-Reads clocks 0 pl _ h free (Reads-rotation pl.idx pl.proxies h))
