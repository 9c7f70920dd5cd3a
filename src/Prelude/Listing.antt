-- ===== src/Prelude/Listing.antt =====
-- Membership as a predicate by recursion.
use Prim.Native.Nat.{ℕ, zero, suc}
use mathlib.Core.Path.{◌≡◌, subst, sym}
use mathlib.Core.Logic.{◌⊎◌, inl, inr}
use mathlib.Core.List.{List, [], ◌∷◌, ◌++◌}
use mathlib.Core.Option.{some}
use serp_harvester.Prelude.Lists.{get_elem?, All}

-- No value, at any level.
pub data Empty {ℓ} : Type ℓ where

module _ {ℓ} {A : Type ℓ} where
  -- The element stands on the list.
  abbrev pub Listed : A → List A → Type ℓ
  Listed a [] = Empty
  Listed a (x ∷ xs) = (a ≡ x) ⊎ Listed a xs

  pub Listed-append_left : (a : A) (xs ys : List A) → Listed a xs → Listed a (xs ++ ys)
  Listed-append_left a [] ys h = elim h [ ]
  Listed-append_left a (x ∷ xs) ys (inl e) = inl e
  Listed-append_left a (x ∷ xs) ys (inr h) = inr (Listed-append_left a xs ys h)

  pub Listed-append_right : (a : A) (xs ys : List A) → Listed a ys → Listed a (xs ++ ys)
  Listed-append_right a [] ys h = h
  Listed-append_right a (x ∷ xs) ys h = inr (Listed-append_right a xs ys h)

  pub Listed-append_cases :
      (a : A) (xs ys : List A) → Listed a (xs ++ ys) → Listed a xs ⊎ Listed a ys
  Listed-append_cases a [] ys h = inr h
  Listed-append_cases a (x ∷ xs) ys (inl e) = inl (inl e)
  Listed-append_cases a (x ∷ xs) ys (inr h) = elim (Listed-append_cases a xs ys h) [
    | inl l ↦ inl (inr l)
    | inr r ↦ inr r
  ]

  -- The halves of a list in the other order have the same elements.
  pub Listed-swap : (a : A) (xs ys : List A) → Listed a (xs ++ ys) → Listed a (ys ++ xs)
  Listed-swap a xs ys h = elim (Listed-append_cases a xs ys h) [
    | inl l ↦ Listed-append_right a ys xs l
    | inr r ↦ Listed-append_left a ys xs r
  ]

  pub get_elem?-Listed : (xs : List A) (i : ℕ) {a : A} → get_elem? xs i ≡ some a → Listed a xs
  get_elem?-Listed [] i e = cc
  get_elem?-Listed (x ∷ xs) zero e = inl (cc)
  get_elem?-Listed (x ∷ xs) (suc i) e = inr (get_elem?-Listed xs i e)

  pub All-Listed {κ} : (P : A → Type κ) (xs : List A) {a : A} → All P xs → Listed a xs → P a
  All-Listed P [] h l = elim l [ ]
  All-Listed P (x ∷ xs) h (inl e) = subst P (sym e) h.0
  All-Listed P (x ∷ xs) h (inr l) = All-Listed P xs h.1 l
