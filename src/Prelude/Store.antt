-- ===== src/Prelude/Store.antt =====
-- The cells that pointers name, as a function from references.
use Prim.Native.Nat.{ℕ}
use serp_harvester.Prelude.Tests.{◌==◌, if◌then◌else◌}

abbrev pub update {ℓ} : {A : Type ℓ} → (ℕ → A) → ℕ → A → ℕ → A
update m p v q = if p == q then v else m q
