-- ===== src/Bittorrent/DhtNode/Requests/Transactions.antt =====
-- The texts of the transactions, which are the digits of a number to the base 256.
use ouinet.Prelude.{
  ℕ, zero, suc, ◌+◌, ◌*◌, ◌/◌, ◌^◌, ◌<◌, ◌≡◌, refl, sym, ap, ◌∙◌, Bool, if◌then◌else◌, true, false,
  [], ◌∷◌, Bytes, arith, ◌==◌,
}
use native.Mathlib.Numerals.{unary_clauses}
use ouinet.Bittorrent.DhtNode.Requests.{digits, transaction_string}

-- The number that the digits stand for.
number_of : Bytes → ℕ
number_of [] = 0
number_of (b ∷ s) = b + 256 * number_of s

number_of-digits : (fuel n : ℕ) → n < 256 ^ fuel → number_of (digits fuel n) ≡ n
unfolding number_of digits
number_of-digits zero n h = omega arith
number_of-digits (suc fuel) n h =
    let smaller : n / 256 < 256 ^ fuel = divided n (256 ^ fuel) (simp unary_clauses at h) in
    ground (arith, number_of-digits fuel (n / 256) smaller)
  where
    divided : (n m : ℕ) → n < m * 256 → n / 256 < m
    divided n m h = omega arith

text-number_of :
    (b : Bool) (n : ℕ) (s : Bytes)
    → (n == 0) ≡ b
    → number_of s ≡ n
    → number_of (if b then 0 ∷ [] else s) ≡ n
unfolding number_of
text-number_of true n s z h = ground arith
text-number_of false n s z h = h

-- The text of a 32-bit identifier determines it.
number_of-transaction_string : (n : ℕ) → n < 2 ^ 32 → number_of (transaction_string n) ≡ n
unfolding transaction_string
number_of-transaction_string n h =
    text-number_of (n == 0) n (digits 4 n) refl (number_of-digits 4 n h)

-- Identifiers of 32 bits that have the same transaction text are equal.
pub transaction_string_injective :
    (i j : ℕ) → i < 2 ^ 32 → j < 2 ^ 32 → transaction_string i ≡ transaction_string j → i ≡ j
transaction_string_injective i j hi hj same =
    sym (number_of-transaction_string i hi) ∙ ap number_of same ∙ number_of-transaction_string j hj
