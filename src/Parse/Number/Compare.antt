-- ===== src/Parse/Number/Compare.antt =====
-- Digit strings are ordered by length, and those of one length as text.
use ouinet.Prelude.{
  ℕ, suc, ◌+◌, ◌-◌, ◌*◌, ◌≤◌, ◌<◌, ◌≡◌, true, false, [], ◌∷◌, ◌++◌, arith, Bytes, length, get_or,
  All, ltb, leb, Bool-cases, inl, inr, if◌then◌else◌,
}
use ouinet.Prelude.Decimal.{IsDigit, value, value_from}
use ouinet.Parse.Number.{exceeds}
use ouinet.Parse.Number.Spec.{is_low}

pub value_from-lt :
    (a b : ℕ) (s t : Bytes)
    → a < b
    → length s ≡ length t
    → All IsDigit s
    → value_from a s < value_from b t
value_from-lt a b [] [] h _ _ = h
value_from-lt a b [] (y ∷ t) h e _ = absurd (omega arith)
value_from-lt a b (x ∷ s) [] h e _ = absurd (omega arith)
value_from-lt a b (x ∷ s) (y ∷ t) h e (hx, hs) =
    value_from-lt (a * 10 + (x - b'0')) (b * 10 + (y - b'0')) s t (omega arith) (omega arith) hs

-- A shorter text of digits is smaller than one that begins with a positive number.
pub value_from-lt_of_length :
    (b : ℕ) (s t : Bytes) → 0 < b → length s ≤ length t → All IsDigit s → value s < value_from b t
value_from-lt_of_length b [] [] h _ _ = h
value_from-lt_of_length b (x ∷ s) [] h e _ = absurd (omega arith)
value_from-lt_of_length b [] (y ∷ t) h e _ =
    value_from-lt_of_length (b * 10 + (y - b'0')) [] t (omega arith) (omega arith) tt
value_from-lt_of_length b (x ∷ s) (y ∷ t) h e (hx, hs) =
    elim (Bool-cases (leb (suc (length s)) (length t))) [
      | inl shorter ↦
          value_from-lt_of_length (b * 10 + (y - b'0')) (x ∷ s) t (omega arith) (ground arith)
            (hx, hs)
      | inr same ↦
          value_from-lt (0 * 10 + (x - b'0')) (b * 10 + (y - b'0')) s t (omega arith) (ground arith)
            hs
    ]

-- The byte behind the digits decides where the two numbers are equal.
pub exceeds-value_from :
    (n : ℕ) (s t rest : Bytes) (past : ℕ)
    → length s ≡ length t
    → All IsDigit s
    → All IsDigit t
    → get_or rest 0 past < 256
    → exceeds (suc (length s)) (s ++ rest) t past ≡ (
        if ltb (value_from n t) (value_from n s)
        then true
        else if ltb (value_from n s) (value_from n t)
        then false
        else is_low (get_or rest 0 past))
unfolding exceeds
exceeds-value_from n [] [] rest past e _ _ h = ground arith
exceeds-value_from n [] (y ∷ t) rest past e _ _ h = absurd (omega arith)
exceeds-value_from n (x ∷ s) [] rest past e _ _ h = absurd (omega arith)
exceeds-value_from n (x ∷ s) (y ∷ t) rest past e (hx, hs) (hy, ht) h = ground (
  arith,
  exceeds-value_from (n * 10 + (x - b'0')) s t rest past (omega arith) hs ht h,
  value_from-lt (n * 10 + (x - b'0')) (n * 10 + (y - b'0')) s t,
  value_from-lt (n * 10 + (y - b'0')) (n * 10 + (x - b'0')) t s,
)
