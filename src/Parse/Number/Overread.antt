-- ===== src/Parse/Number/Overread.antt =====
-- The loop that compares with the largest value runs while `i <= endpos`, one byte past the digits.
use ouinet.Prelude.{ℕ, ◌<◌, ◌≡◌, ◌∙◌, none, ◌∷◌, ◌++◌, arith, Bytes}
use ouinet.Parse.Number.{Width, max_str, number, is_digit}
use ouinet.Parse.Number.Spec.{read_number, span_digits_unique, NoDigit}
use ouinet.Parse.Number.Exact.{number-read_number_lem, value-max_str, max_str_digits}

low-NoDigit : (c : ℕ) (rest : Bytes) → c < b'0' → NoDigit (c ∷ rest)
unfolding is_digit
low-NoDigit c rest h = ground arith

read_number_refuses :
    (w : Width) (past c : ℕ) (rest : Bytes)
    → 0 < c
    → c < b'0'
    → read_number w past (max_str w ++ c ∷ rest) ≡ (none, max_str w ++ c ∷ rest)
unfolding read_number
read_number_refuses w past c rest lo hi =
    rw (span_digits_unique (max_str w) (c ∷ rest) (max_str_digits w).0 (low-NoDigit c rest hi))
      (ground (arith, value-max_str w))

-- The largest value of an unsigned type is refused where a byte from 1 to 47 follows it, such as a space,
-- a comma or a slash.
pub number_refuses_max :
    (w : Width) (past c : ℕ) (rest : Bytes)
    → 0 < c
    → c < b'0'
    → number w past (max_str w ++ c ∷ rest) ≡ (none, max_str w ++ c ∷ rest)
number_refuses_max w past c rest lo hi =
    number-read_number_lem w past (max_str w ++ c ∷ rest) (
      rw (span_digits_unique (max_str w) (c ∷ rest) (max_str_digits w).0 (low-NoDigit c rest hi))
        (omega arith))
    ∙ read_number_refuses w past c rest lo hi
