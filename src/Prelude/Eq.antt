-- ===== src/Prelude/Eq.antt =====
-- Equality tests of the types that other libraries define, such as addresses.
use Prim.Native.Nat.{ℕ}
use mathlib.Core.Bool.{Bool, true}
use mathlib.Core.Path.{◌≡◌}
use ouinet.Prelude.Tests.{◌==◌, ==_iff}

pub record Eq {ℓ} (E : Type ℓ) : Type ℓ where
  pub beq : E → E → Bool
  pub beq_sound : (x y : E) → beq x y ≡ true → x ≡ y
  pub beq_complete : (x y : E) → x ≡ y → beq x y ≡ true

instance abbrev pub nat_eq : Eq ℕ
nat_eq = record {
  beq = λ m n. m == n;
  beq_sound = λ m n. (==_iff m n).0;
  beq_complete = λ m n. (==_iff m n).1;
}
