-- ===== src/Parse/Number/Spec.antt =====
-- What a decimal number at the head of a view is, independently of the loops of number.h.
use ouinet.Prelude.{
  ℕ, ◌-◌, ◌<◌, ◌≡◌, refl, Bool, true, false, ◌&&◌, Option, none, some, [], ◌∷◌, ◌++◌, arith, Bytes,
  length, get_or, All, ltb, ◌==◌, if◌then◌else◌,
}
use ouinet.Prelude.Decimal.{IsDigit, value}
use ouinet.Parse.Number.{Width, modulus, is_digit}

-- The digits at the head of a view, and what follows them.
unfoldable pub span_digits : Bytes → Bytes × Bytes
unfolding is_digit
span_digits [] = ([], [])
span_digits (c ∷ s) = if is_digit c then (c ∷ (span_digits s).0, (span_digits s).1) else ([], c ∷ s)

-- A byte from 1 to 47.
abbrev pub is_low : ℕ → Bool
is_low c = ltb 0 c && ltb c b'0'

-- A number is read whole and by value, and refused with the view untouched if there is no digit or it
-- does not fit; the largest value is refused too where such a byte follows it.
unfoldable pub read_number : Width → ℕ → Bytes → Option ℕ × Bytes
unfolding span_digits
read_number w past s =
    let (ds, rest) = span_digits s in
    if length ds == 0
    then (none, s)
    else if ltb (modulus w - 1) (value ds)
    then (none, s)
    else if value ds == modulus w - 1 && is_low (get_or rest 0 past)
    then (none, s)
    else (some (value ds), rest)

-- No digit stands at the head.
abbrev pub NoDigit : Bytes → Type 0
NoDigit [] = Unit {0}
NoDigit (c ∷ s) = is_digit c ≡ false

pub is_digit-IsDigit : (c : ℕ) → is_digit c ≡ true → IsDigit c
unfolding is_digit
is_digit-IsDigit c h = ground arith

pub IsDigit-is_digit : (c : ℕ) → IsDigit c → is_digit c ≡ true
unfolding is_digit
IsDigit-is_digit c h = ground arith

pub span_digits-append : (s : Bytes) → (span_digits s).0 ++ (span_digits s).1 ≡ s
unfolding span_digits
span_digits-append [] = refl
span_digits-append (c ∷ s) = ground (arith, span_digits-append s)

pub span_digits-IsDigit : (s : Bytes) → All IsDigit (span_digits s).0
unfolding span_digits
span_digits-IsDigit [] = tt
span_digits-IsDigit (c ∷ s) = ground (arith, span_digits-IsDigit s)

pub span_digits-NoDigit : (s : Bytes) → NoDigit (span_digits s).1
unfolding span_digits
span_digits-NoDigit [] = tt
span_digits-NoDigit (c ∷ s) = ground (arith, span_digits-NoDigit s)

pub span_digits_unique :
    (ds rest : Bytes) → All IsDigit ds → NoDigit rest → span_digits (ds ++ rest) ≡ (ds, rest)
unfolding span_digits
span_digits_unique [] [] _ _ = refl
span_digits_unique [] (c ∷ rest) _ h = ground arith
span_digits_unique (d ∷ ds) rest h n = ground (arith, span_digits_unique ds rest h.1 n)

pub above_nine-NoDigit : (c : ℕ) (rest : Bytes) → b'9' < c → NoDigit (c ∷ rest)
unfolding is_digit
above_nine-NoDigit c rest h = ground arith

pub below_zero-NoDigit : (c : ℕ) (rest : Bytes) → c < b'0' → NoDigit (c ∷ rest)
unfolding is_digit
below_zero-NoDigit c rest h = ground arith
