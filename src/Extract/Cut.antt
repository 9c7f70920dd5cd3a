-- ===== src/Extract/Cut.antt =====
-- internal/extract/extract.go: `truncateUTF8`.
use serp_harvester.Prelude.{
  ℕ, suc, zero, ◌≤◌, ◌<◌, ◌≡◌, refl, ◌⊎◌, inl, inr, Text, true, false, leb, length, take, get_elem?,
  arith, Bool-cases, leb→le, subst,
}
use serp_harvester.Extract.{is_continuation, boundary, truncate_utf8}

boundary-le : (s : Text) (n : ℕ) → boundary s n ≤ n
unfolding boundary
boundary-le s zero = omega arith
boundary-le s (suc n) = ground (arith, boundary-le s n)

-- No character begins between the boundary and `n`.
boundary-greatest :
    (s : Text) (n j : ℕ) → boundary s n < j → j ≤ n → is_continuation (get_elem? s j) ≡ true
unfolding boundary
boundary-greatest s zero j lt le = absurd (omega arith)
boundary-greatest s (suc n) j lt le = elim (Bool-cases (is_continuation (get_elem? s (suc n)))) [
  | inl e ↦ elim (Bool-cases (leb j n)) [
    | inl small ↦ boundary-greatest s n j (rw e at lt) (leb→le j n small)
    | inr large ↦
        let last : suc n ≡ j = ground (arith, large, le) in
        subst (λ i. is_continuation (get_elem? s i) ≡ true) last e
  ]
  | inr e ↦ absurd (ground (arith, rw e at lt, le))
]

boundary-starts :
    (s : Text) (n : ℕ) → (boundary s n ≡ 0) ⊎ (is_continuation (get_elem? s (boundary s n)) ≡ false)
unfolding boundary
boundary-starts s zero = inl refl
boundary-starts s (suc n) = elim (Bool-cases (is_continuation (get_elem? s (suc n)))) [
  | inl e ↦ rw e (boundary-starts s n)
  | inr e ↦ rw e (inr e)
]

-- A text that is too long is cut to its longest prefix of at most `n` bytes that ends where a
-- character begins, or at the start of the text; any other text is kept whole. The cut never
-- splits a character, and it drops nothing but bytes of the character that stands across `n`.
pub truncate_utf8_lem :
    (s : Text) (n : ℕ)
    → ((length s ≤ n) × (truncate_utf8 s n ≡ s))
      ⊎ ((k : ℕ) × (n < length s)
          × (truncate_utf8 s n ≡ take k s)
          × (k ≤ n)
          × ((k ≡ 0) ⊎ (is_continuation (get_elem? s k) ≡ false))
          × ((j : ℕ) → k < j → j ≤ n → is_continuation (get_elem? s j) ≡ true))
unfolding truncate_utf8
truncate_utf8_lem s n = elim (Bool-cases (leb (length s) n)) [
  | inl e ↦ inl (leb→le _ n e, rw e refl)
  | inr e ↦ inr (
    boundary s n,
    ground (arith, e),
    rw e refl,
    boundary-le s n,
    boundary-starts s n,
    boundary-greatest s n,
  )
]
