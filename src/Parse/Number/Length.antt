-- ===== src/Parse/Number/Length.antt =====
-- `parse::number` never makes the view longer.
use ouinet.Prelude.{ℕ, ◌≤◌, Bool, Option, none, some, [], ◌∷◌, arith, Bytes, length, length-drop-le}
use ouinet.Prelude.Int.{ℤ}
use ouinet.Parse.Number.{
  Width, number, signed_number, strip_zeros, strip_sign, conclude, settle, apply_sign, count_digits,
}

length-strip_zeros : (s : Bytes) → length (strip_zeros s).1 ≤ length s
unfolding strip_zeros
length-strip_zeros [] = omega arith
length-strip_zeros (c ∷ s) = ground (arith, length-strip_zeros s)

pub length-number : (w : Width) (past : ℕ) (s : Bytes) → length (number w past s).1 ≤ length s
unfolding number
length-number w past s =
    ground (
      arith,
      length-strip_zeros s,
      length-drop-le (count_digits (strip_zeros s).1) (strip_zeros s).1,
    )

length-strip_sign : (s : Bytes) → length (strip_sign s).1 ≤ length s
unfolding strip_sign
length-strip_sign [] = omega arith
length-strip_sign (c ∷ s) = ground arith

length-settle :
    (s left : Bytes) (o : Option ℤ) → length left ≤ length s → length (settle s left o).1 ≤ length s
unfolding settle
length-settle s left none h = omega arith
length-settle s left (some n) h = h

length-conclude :
    (w : Width) (s : Bytes) (negative : Bool) (r : Option ℕ × Bytes)
    → length r.1 ≤ length s
    → length (conclude w s negative r).1 ≤ length s
unfolding conclude
length-conclude w s negative (none, left) h = omega arith
length-conclude w s negative (some abs, left) h = length-settle s left (apply_sign w negative abs) h

pub length-signed_number :
    (w : Width) (past : ℕ) (s : Bytes) → length (signed_number w past s).1 ≤ length s
unfolding signed_number
length-signed_number w past [] = omega arith
length-signed_number w past (c ∷ s) =
    let t = strip_sign (c ∷ s) in
    length-conclude w (c ∷ s) t.0 (number w past t.1)
      (omega (arith, length-number w past t.1, length-strip_sign (c ∷ s)))
