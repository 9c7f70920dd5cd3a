-- ===== src/Examples/Numbers.antt =====
-- A float64 that rounds down to thousandths and has no negative numbers: the laws that the
-- developments ask of float64 can hold.
use native.Mathlib.Nat.{mul-le-mul_left}
use serp_harvester.Prelude.{ℕ, ◌+◌, ◌-◌, ◌*◌, ◌/◌, refl, ltb, leb, leb→le, Float, IsIeee, arith}
use serp_harvester.Proxy.Health.{HasConstants}
use serp_harvester.Limiter.Adaptation.{HasHalves}

instance abbrev pub thousandths : Float ℕ
thousandths = record {
  lit = λ n d. n * 1000 / d;
  neg = λ x. 0;
  add = ◌+◌;
  sub = ◌-◌;
  mul = λ x y. x * y / 1000;
  div = λ x y. x * 1000 / y;
  lt = ltb;
  le = leb;
}

pub thousandths-IsIeee : IsIeee ℕ
thousandths-IsIeee = record {
  refl_of_le = λ x y h. (ground arith, ground arith);
  le_trans = λ x y z h g. ground arith;
  le_of_not_lt = λ x y h g l. ground arith;
  le_of_lt = λ x y h. ground arith;
  not_lt_of_le = λ x y h. ground arith;
  add_mono = λ a b x y ha hx h g. ground arith;
  mul_mono = λ a x y ha le hx h top. ground (arith, mul-le-mul_left a (leb→le x y h));
}

pub thousandths-HasConstants : HasConstants ℕ
thousandths-HasConstants = record {
  zero_le_one = refl;
  zero_refl = refl;
  one_refl = refl;
  alpha_nonneg = refl;
  beta_nonneg = refl;
  alpha_le_one = refl;
  beta_le_one = refl;
  alpha_zero = refl;
  beta_zero = refl;
  sum_zero = refl;
  sum_one = refl;
}

pub thousandths-HasHalves : HasHalves ℕ
thousandths-HasHalves = record { half-le = λ x h. ground arith; le-add = λ x y h g. ground arith }
