-- ===== src/Metrics/Latency/Window.antt =====
-- internal/metrics/latency.go: the order in which the ring holds its samples.
use mathlib.Core.List.{append-nil, append_assoc}
use native.Mathlib.Nat.{mod-eq_of_lt, mod_self, mod-lt}
use native.Mathlib.Numerals.{add-one}
use serp_harvester.Prelude.{
  ℕ, suc, ◌+◌, ◌-◌, ◌%◌, ◌≤◌, ◌<◌, ◌≡◌, refl, ap, sym, ◌∙◌, List, [], ◌∷◌, ◌++◌, ℤ, pos,
  if◌then◌else◌, ltb, length, length-append, length-set, length-drop, set, take, drop, arith,
  drop-set, take-set, take-append-drop, drop-one-drop, drop-append_of_le, drop_all, take_all,
  Bool-cases, inl, inr, ltb→lt, ltb→ge,
}
use serp_harvester.Metrics.Latency.{Recorder, new_recorder, observe, observe_all}

-- The samples, oldest first.
abbrev pub view : Recorder → List ℤ
view r = drop r.idx r.samples ++ take r.idx r.samples

-- The last `n` of a list.
abbrev pub latest : ℕ → List ℤ → List ℤ
latest n xs = drop (length xs - n) xs

pub record IsRing (r : Recorder) : Type 0 where
  pub idx_lt : r.idx < r.capacity
  pub bounded : length r.samples ≤ r.capacity
  pub filling : length r.samples < r.capacity → r.idx ≡ 0

-- The index after a write at `i` reads the ring as the position after `i` would.
wrap_view :
    (n i : ℕ) (xs : List ℤ)
    → length xs ≡ n
    → i < n
    → drop ((i + 1) % n) xs ++ take ((i + 1) % n) xs ≡ drop (suc i) xs ++ take (suc i) xs
wrap_view n i xs e h = elim (Bool-cases (ltb (suc i) n)) [
  | inl lt ↦ rw (mod-eq_of_lt {n = i + 1} {m = n} (omega (arith, ltb→lt _ _ lt)), add-one)
  | inr ge ↦
      let last : i + 1 ≡ n = omega (arith, ltb→ge _ _ ge) in
      rw (
        last,
        mod_self n,
        drop_all (suc i) xs (omega arith),
        take_all (suc i) xs (omega arith),
        append-nil,
      )
]

overwrite_view :
    (xs : List ℤ) (i : ℕ) (d : ℤ)
    → i < length xs
    → drop (suc i) (set xs i d) ++ take (suc i) (set xs i d)
      ≡ drop 1 (drop i xs ++ take i xs) ++ d ∷ []
overwrite_view xs i d h =
    rw
      (
        drop-set xs i d,
        take-set xs i d h,
        drop-append_of_le 1 (drop i xs) (take i xs) (omega (arith, length-drop i xs)),
        drop-one-drop i xs,
      )
      (sym (append_assoc (drop (suc i) xs) (take i xs) (d ∷ [])))

length-view : (r : Recorder) → length (view r) ≡ length r.samples
length-view r = omega (
  arith,
  length-append (drop r.idx r.samples) (take r.idx r.samples),
  length-append (take r.idx r.samples) (drop r.idx r.samples),
  ap (length {A = ℤ}) (take-append-drop r.idx r.samples),
)

-- One observation: the view grows by it, without its oldest entry if it was full.
view-observe :
    (d : ℤ) (r : Recorder)
    → IsRing r
    → view (observe d r)
      ≡ (if ltb (length r.samples) r.capacity then view r else drop 1 (view r)) ++ d ∷ []
unfolding observe
view-observe d r h = elim (Bool-cases (ltb (length r.samples) r.capacity)) [
  | inl room ↦ rw (room, h.filling (ltb→lt _ _ room), append-nil, append-nil) refl
  | inr full ↦
      let e : length r.samples ≡ r.capacity = omega (arith, ltb→ge _ _ full, h.bounded) in
      rw full (
        wrap_view r.capacity r.idx (set r.samples r.idx d) (length-set r.samples r.idx d ∙ e)
          h.idx_lt
        ∙ overwrite_view r.samples r.idx d (omega (arith, h.idx_lt)))
]

observe-IsRing : (d : ℤ) (r : Recorder) → IsRing r → IsRing (observe d r)
unfolding observe
observe-IsRing d r h = ground (
  arith,
  length-append r.samples (d ∷ []),
  length-set r.samples r.idx d,
  mod-lt (r.idx + 1) {m = r.capacity} (omega (arith, h.idx_lt)),
)

latest-snoc :
    (n : ℕ) (xs : List ℤ) (d : ℤ)
    → 0 < n
    → latest n (xs ++ d ∷ [])
      ≡ (if ltb (length (latest n xs)) n then latest n xs else drop 1 (latest n xs)) ++ d ∷ []
latest-snoc n xs d pos_n = elim (Bool-cases (ltb (length (latest n xs)) n)) [
  | inl room ↦
      let few : length xs < n = omega (arith, ltb→lt _ _ room, length-drop (length xs - n) xs) in
      rw
        (
          room,
          few_drop (length (xs ++ d ∷ [])) (omega (arith, length-append xs (d ∷ []))),
          few_drop (length xs) (omega arith),
        )
        refl
  | inr full ↦
      let many : n ≤ length xs = omega (arith, ltb→ge _ _ full, length-drop (length xs - n) xs) in
      rw
        (
          full,
          one_more many,
          drop-append_of_le (suc (length xs - n)) xs (d ∷ []) (omega arith),
          drop-one-drop (length xs - n) xs,
        )
        refl
]
  where
    few_drop : (k : ℕ) → k ≤ n → k - n ≡ 0
    few_drop k h = omega arith

    one_more : n ≤ length xs → length (xs ++ d ∷ []) - n ≡ suc (length xs - n)
    one_more h = omega (arith, length-append xs (d ∷ []))

capacity-observe : (d : ℤ) (r : Recorder) → (observe d r).capacity ≡ r.capacity
unfolding observe
capacity-observe d r = ground arith

observe-latest :
    (cap : ℕ) (d : ℤ) (past : List ℤ) (r : Recorder)
    → r.capacity ≡ cap
    → IsRing r
    → view r ≡ latest cap past
    → view (observe d r) ≡ latest cap (past ++ d ∷ [])
observe-latest cap d past r c h e =
    view-observe d r h
    ∙ rw (← length-view r, e, c) (sym (latest-snoc cap past d (omega (arith, h.idx_lt))))

observe_all-latest :
    (cap : ℕ) (ds past : List ℤ) (r : Recorder)
    → r.capacity ≡ cap
    → IsRing r
    → view r ≡ latest cap past
    → view (observe_all ds r) ≡ latest cap (past ++ ds)
unfolding observe_all
observe_all-latest cap [] past r c h e = rw append-nil e
observe_all-latest cap (d ∷ ds) past r c h e = rw append_assoc at (
    observe_all-latest cap ds (past ++ d ∷ []) (observe d r) (capacity-observe d r ∙ c)
      (observe-IsRing d r h) (observe-latest cap d past r c h e))

-- A recorder of a positive capacity, after any observations, holds exactly the latest of them, as
-- many as the capacity, in their order.
pub new_recorder-latest :
    (c : ℕ) (ds : List ℤ) → view (observe_all ds (new_recorder (pos (suc c)))) ≡ latest (suc c) ds
unfolding new_recorder
new_recorder-latest c ds =
    observe_all-latest (suc c) ds [] _ refl
      (record { idx_lt = omega arith; bounded = omega arith; filling = λ _. refl })
      (sym (drop_all (0 - suc c) [] (omega arith)))
