-- ===== src/Prelude/Decimal.antt =====
-- `std::to_string` of an unsigned integer, and the number that decimal digits spell.
use Prim.Native.Nat.{ℕ, zero, suc, ◌+◌, ◌-◌, ◌*◌, ◌/◌, ◌%◌, ◌≤◌, ◌<◌}
use mathlib.Core.Path.{◌≡◌, refl}
use mathlib.Core.List.{[], ◌∷◌, ◌++◌}
use native.Mathlib.Omega.{arith}
use ouinet.Prelude.Tests.{ltb, if◌then◌else◌, Bytes}
use ouinet.Prelude.Int.{ℤ, pos, negsuc}
use ouinet.Prelude.Lists.{length, length-append, All, All-append}

abbrev pub IsDigit : ℕ → Type 0
IsDigit digit = (b'0' ≤ digit) × (digit ≤ b'9')

-- The number that digits spell behind `n`.
abbrev pub value_from : ℕ → Bytes → ℕ
value_from n [] = n
value_from n (c ∷ s) = value_from (n * 10 + (c - b'0')) s

abbrev pub value : Bytes → ℕ
value = value_from 0

-- The digits of `n`, each round dividing by ten; a round is left for each digit.
digits : ℕ → ℕ → Bytes
digits zero n = []
digits (suc f) n =
    let rest = digits f (n / 10) in
    if ltb n 10 then (b'0' + n) ∷ [] else rest ++ (b'0' + n % 10) ∷ []

unfoldable pub to_string : ℕ → Bytes
unfolding digits
to_string n = digits (suc n) n

pub value_from-append :
    (n : ℕ) (s t : Bytes) → value_from n (s ++ t) ≡ value_from (value_from n s) t
value_from-append n [] t = refl
value_from-append n (c ∷ s) t = value_from-append (n * 10 + (c - b'0')) s t

digits-IsDigit : (f n : ℕ) → All IsDigit (digits f n)
unfolding digits
digits-IsDigit zero n = tt
digits-IsDigit (suc f) n = ground (
  arith,
  All-append IsDigit (digits f (n / 10)) ((b'0' + n % 10) ∷ []) (digits-IsDigit f (n / 10)),
)

value-digits : (f n : ℕ) → n < f → value (digits f n) ≡ n
unfolding digits
value-digits zero n h = absurd (omega arith)
value-digits (suc f) n h =
    ground (
      arith,
      value_from-append 0 (digits f (n / 10)) ((b'0' + n % 10) ∷ []),
      value-digits f (n / 10),
    )

digits-ne-nil : (f n : ℕ) → 0 < f → 0 < length (digits f n)
unfolding digits
digits-ne-nil zero n h = absurd (omega arith)
digits-ne-nil (suc f) n h = ground (arith, length-append (digits f (n / 10)) ((b'0' + n % 10) ∷ []))

pub to_string-IsDigit : (n : ℕ) → All IsDigit (to_string n)
unfolding to_string
to_string-IsDigit n = digits-IsDigit (suc n) n

pub value-to_string : (n : ℕ) → value (to_string n) ≡ n
unfolding to_string
value-to_string n = value-digits (suc n) n (omega arith)

pub to_string-ne-nil : (n : ℕ) → 0 < length (to_string n)
unfolding to_string
to_string-ne-nil n = digits-ne-nil (suc n) n (omega arith)

-- `std::to_string` of a signed integer.
unfoldable pub print_int : ℤ → Bytes
print_int (pos n) = to_string n
print_int (negsuc n) = b'-' ∷ to_string (suc n)
