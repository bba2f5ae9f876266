-- ===== src/Prelude/ByteTables.antt =====
-- Facts about the bits of bytes, checked by evaluation over all bytes.
use mathlib.Core.Bool.{Bool, true, false, ◌&&◌}
use native.Mathlib.Omega.{arith}
use mathlib.Core.Path.{◌≡◌, refl}
use Prim.Native.Nat.{ℕ, zero, suc, ◌<◌, bit_xor}
use ouinet.Prelude.Tests.{◌==◌, ==_iff, ltb, ltb→lt, if◌then◌else◌}

unfoldable pub holds_below : (ℕ → Bool) → ℕ → Bool
holds_below test zero = true
holds_below test (suc n) = if test n then holds_below test n else false

pub holds_below-lt : (test : ℕ → Bool) (n b : ℕ) → b < n → holds_below test n ≡ true → test b ≡ true
unfolding holds_below
holds_below-lt test zero b l h = absurd (omega arith)
holds_below-lt test (suc n) b l h = ground (arith, holds_below-lt test n b)

xor_test : ℕ → ℕ → Bool
xor_test a b =
    (bit_xor a b == bit_xor b a) && (ltb (bit_xor a b) 256 && (bit_xor (bit_xor a b) b == a))

xor_table : holds_below (λ a. holds_below (xor_test a) 256) 256 ≡ true
unfolding holds_below xor_test
xor_table = refl

xor_checked : (a b : ℕ) → a < 256 → b < 256 → xor_test a b ≡ true
xor_checked a b ha hb =
    holds_below-lt (xor_test a) 256 b hb
      (holds_below-lt (λ c. holds_below (xor_test c) 256) 256 a ha xor_table)

pub bit_xor_byte :
    (a b : ℕ)
    → a < 256
    → b < 256
    → (bit_xor a b ≡ bit_xor b a) × (bit_xor a b < 256) × (bit_xor (bit_xor a b) b ≡ a)
unfolding xor_test
bit_xor_byte a b ha hb = ground (
  arith,
  xor_checked a b ha hb,
  ==_iff (bit_xor a b) (bit_xor b a),
  ==_iff (bit_xor (bit_xor a b) b) a,
  ltb→lt (bit_xor a b) 256,
)
