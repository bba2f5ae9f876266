-- ===== src/Util/Bytes/RoundTrip.antt =====
-- What is written in hexadecimal is read back.
use ouinet.Prelude.{
  ℕ, ◌/◌, ◌<◌, ◌≡◌, refl, ap, Bool, true, false, [], ◌∷◌, Option, none, some, Bytes, All, ◌==◌,
  ==_iff,
}
use ouinet.Prelude.ByteTables.{holds_below, holds_below-lt}
use ouinet.Util.Bytes.{digit_at, to_hex, from_hex, from_hex_digits}

is_number : Option ℕ → ℕ → Bool
is_number none c = false
is_number (some n) c = n == c

is_number-eq : (o : Option ℕ) (c : ℕ) → is_number o c ≡ true → o ≡ some c
unfolding is_number
is_number-eq none c h = cc
is_number-eq (some n) c h = ap some ((==_iff n c).0 h)

digits_test : ℕ → Bool
digits_test c = is_number (from_hex_digits (digit_at (c / 16)) (digit_at c)) c

digits_table : holds_below digits_test 256 ≡ true
unfolding holds_below digits_test is_number from_hex_digits
digits_table = refl

from_hex_digits-digit_at :
    (c : ℕ) → c < 256 → from_hex_digits (digit_at (c / 16)) (digit_at c) ≡ some c
unfolding digits_test
from_hex_digits-digit_at c h =
    is_number-eq (from_hex_digits (digit_at (c / 16)) (digit_at c)) c
      (holds_below-lt digits_test 256 c h digits_table)

-- from_hex reads back what to_hex writes of bytes.
pub from_hex-to_hex : (s : Bytes) → All (λ c. c < 256) s → from_hex (to_hex s) ≡ some s
unfolding from_hex to_hex
from_hex-to_hex [] h = refl
from_hex-to_hex (c ∷ s) h =
    rw (from_hex, from_hex_digits-digit_at c h.0, from_hex-to_hex s h.1) refl
