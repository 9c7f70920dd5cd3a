-- ===== src/Prelude/Ieee.antt =====
-- float64, which the program uses through these operations only.
use Prim.Native.Nat.{ℕ}
use mathlib.Core.Path.{◌≡◌}
use mathlib.Core.Bool.{Bool, true, false}

pub record Float (W : Type 0) : Type 0 where
  -- The constant n / d.
  pub lit : ℕ → ℕ → W
  pub neg : W → W
  pub add : W → W → W
  pub sub : W → W → W
  pub mul : W → W → W
  pub div : W → W → W
  pub lt : W → W → Bool
  pub le : W → W → Bool

infix 50 ◌≼◌
abbrev pub ◌≼◌ : {W : Type 0} ⦃f : Float W⦄ → W → W → Type 0
◌≼◌ ⦃f⦄ x y = f.le x y ≡ true

-- What IEEE 754 documents of the order and of rounding. A NaN is not `≼` itself.
pub record IsIeee (W : Type 0) ⦃f : Float W⦄ : Type 0 where
  pub refl_of_le : (low high : W) → low ≼ high → (low ≼ low) × (high ≼ high)
  pub le_of_not_lt : (x y : W) → x ≼ x → y ≼ y → f.lt x y ≡ false → y ≼ x
  pub le_of_lt : (x y : W) → f.lt x y ≡ true → x ≼ y
  pub not_lt_of_le : (x y : W) → y ≼ x → f.lt x y ≡ false
  pub add_mono :
      (a b x y : W) → f.lit 0 1 ≼ a → f.lit 0 1 ≼ x → a ≼ b → x ≼ y → f.add a x ≼ f.add b y
  -- Within [0, 1], where no product is a NaN.
  pub mul_mono :
      (a x y : W)
      → f.lit 0 1 ≼ a
      → a ≼ f.lit 1 1
      → f.lit 0 1 ≼ x
      → x ≼ y
      → y ≼ f.lit 1 1
      → f.mul a x ≼ f.mul a y
  pub le_trans : (a b d : W) → a ≼ b → b ≼ d → a ≼ d
