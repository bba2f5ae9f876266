-- ===== src/Parse/Number/Signed.antt =====
-- The signed `parse::number`: range, failures, and reading back what `std::to_string` prints.
use ouinet.Prelude.{
  ℕ, suc, ◌-◌, ◌≤◌, ◌<◌, ◌≡◌, refl, ◌∙◌, Bool, Option, none, some, [], ◌∷◌, ◌++◌, arith, Bytes,
  length, get_or, All,
}
use ouinet.Prelude.Int.{ℤ, pos, negsuc}
use ouinet.Prelude.Decimal.{
  IsDigit, value, to_string, to_string-IsDigit, value-to_string, to_string-ne-nil, print_int,
}
use ouinet.Parse.Number.{
  Width, one_byte, two_bytes, four_bytes, eight_bytes, modulus, signed_max, number, strip_sign,
  apply_sign, settle, conclude, signed_number,
}
use ouinet.Parse.Number.Spec.{read_number, NoDigit, span_digits_unique}
use ouinet.Parse.Number.Exact.{number-read_number_lem}

-- The values of the signed type.
abbrev pub InRange : Width → ℤ → Type 0
InRange w (pos n) = n ≤ signed_max w
InRange w (negsuc n) = n ≤ signed_max w

signed_max-lt : (w : Width) → suc (signed_max w) < modulus w - 1
signed_max-lt one_byte = omega arith
signed_max-lt two_bytes = omega arith
signed_max-lt four_bytes = omega arith
signed_max-lt eight_bytes = omega arith

read_number-append :
    (w : Width) (past : ℕ) (ds rest : Bytes)
    → All IsDigit ds
    → NoDigit rest
    → 0 < length ds
    → value ds < modulus w - 1
    → read_number w past (ds ++ rest) ≡ (some (value ds), rest)
unfolding read_number
read_number-append w past ds rest h n l v = rw (span_digits_unique ds rest h n) (ground arith)

-- An unsigned number below the largest value is read back from its print.
pub number-to_string :
    (w : Width) (past n : ℕ) (rest : Bytes)
    → n < modulus w - 1
    → NoDigit rest
    → get_or rest 0 past < 256
    → number w past (to_string n ++ rest) ≡ (some n, rest)
number-to_string w past n rest h nd behind =
    number-read_number_lem w past (to_string n ++ rest)
      (rw (span_digits_unique (to_string n) rest (to_string-IsDigit n) nd) behind)
    ∙ cc (
      read_number-append w past (to_string n) rest (to_string-IsDigit n) nd (to_string-ne-nil n)
          (omega (arith, value-to_string n)),
      value-to_string n,
    )

-- A digit at the head is no sign.
signed_number-unsigned :
    (w : Width) (past n : ℕ) (ds rest : Bytes)
    → All IsDigit ds
    → 0 < length ds
    → n ≤ signed_max w
    → number w past (ds ++ rest) ≡ (some n, rest)
    → signed_number w past (ds ++ rest) ≡ (some (pos n), rest)
unfolding signed_number strip_sign conclude settle apply_sign
signed_number-unsigned w past n [] rest h l r e = absurd (omega arith)
signed_number-unsigned w past n (d ∷ ds) rest (hd, _) l r e = ground arith

signed_number-minus :
    (w : Width) (past n : ℕ) (s rest : Bytes)
    → n ≤ signed_max w
    → number w past s ≡ (some (suc n), rest)
    → signed_number w past (b'-' ∷ s) ≡ (some (negsuc n), rest)
unfolding signed_number strip_sign conclude settle apply_sign
signed_number-minus w past n s rest r e = ground arith

-- What `std::to_string` prints of a value of the signed type is read back, and the rest is left, if it
-- does not begin with a digit and a byte stands behind the number, in the view or behind it.
pub signed_number-print_int :
    (w : Width) (past : ℕ) (n : ℤ) (rest : Bytes)
    → InRange w n
    → NoDigit rest
    → get_or rest 0 past < 256
    → signed_number w past (print_int n ++ rest) ≡ (some n, rest)
unfolding print_int
signed_number-print_int w past (pos n) rest r nd behind =
    signed_number-unsigned w past n (to_string n) rest (to_string-IsDigit n) (to_string-ne-nil n) r
      (number-to_string w past n rest (omega (arith, signed_max-lt w)) nd behind)
signed_number-print_int w past (negsuc n) rest r nd behind =
    signed_number-minus w past n (to_string (suc n) ++ rest) rest r
      (number-to_string w past (suc n) rest (omega (arith, signed_max-lt w)) nd behind)

abbrev pub Within : Width → Bytes → Option ℤ × Bytes → Type 0
Within w s (none, left) = left ≡ s
Within w s (some n, left) = InRange w n

apply_sign-InRange :
    (w : Width) (negative : Bool) (abs : ℕ) (n : ℤ)
    → apply_sign w negative abs ≡ some n
    → InRange w n
unfolding apply_sign
apply_sign-InRange w negative abs (pos n) h = ground arith
apply_sign-InRange w negative abs (negsuc n) h = ground arith

settle-Within :
    (w : Width) (s left : Bytes) (o : Option ℤ)
    → ((n : ℤ) → o ≡ some n → InRange w n)
    → Within w s (settle s left o)
unfolding settle
settle-Within w s left none h = refl
settle-Within w s left (some n) h = h n refl

conclude-Within :
    (w : Width) (s : Bytes) (negative : Bool) (r : Option ℕ × Bytes)
    → Within w s (conclude w s negative r)
unfolding conclude
conclude-Within w s negative (none, left) = refl
conclude-Within w s negative (some abs, left) =
    settle-Within w s left (apply_sign w negative abs) (apply_sign-InRange w negative abs)

-- Whatever the bytes, a result of the signed `parse::number` is a value of the type, and a failure
-- leaves the view as it was.
pub signed_number-Within : (w : Width) (past : ℕ) (s : Bytes) → Within w s (signed_number w past s)
unfolding signed_number
signed_number-Within w past [] = refl
signed_number-Within w past (c ∷ s) =
    conclude-Within w (c ∷ s) (strip_sign (c ∷ s)).0 (number w past (strip_sign (c ∷ s)).1)
