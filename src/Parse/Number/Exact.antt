-- ===== src/Parse/Number/Exact.antt =====
-- The unsigned `parse::number` reads what Spec.antt says.
use mathlib.Core.List.{reverse-cons, reverse-reverse}
use native.Mathlib.Nat.{add-mul-mod_self_left, div-add-mod, mod-eq_of_lt}
use ouinet.Prelude.{
  ℕ, suc, ◌+◌, ◌-◌, ◌*◌, ◌/◌, ◌%◌, ◌<◌, ◌≡◌, refl, sym, subst, ap, ◌∙◌, true, false, ◌&&◌, ◌||◌,
  ◌≢◌, [], ◌∷◌, ◌++◌, arith, Bytes, length, get_or, take, drop, All, All-append, All-append, ltb,
  ◌==◌, reverse,
}
use ouinet.Prelude.Decimal.{IsDigit, value, value_from-append}
use ouinet.Parse.Number.{
  Width, one_byte, two_bytes, four_bytes, eight_bytes, modulus, max_str, accumulate, digit, exceeds,
  count_digits, strip_zeros, number, is_digit,
}
use ouinet.Parse.Number.Spec.{
  span_digits, read_number, is_low, span_digits-append, span_digits-IsDigit,
}
use ouinet.Parse.Number.Compare.{exceeds-value_from, value_from-lt_of_length}

add-mul-mod_mod : (m a b c : ℕ) → (a % m + b % m * c) % m ≡ (a + b * c) % m
add-mul-mod_mod m a b c =
    sym (add-mul-mod_self_left (a % m + b % m * c) m (a / m + b / m * c))
    ∙ ap (λ t. t % m)
        (grind (arith, div-add-mod a m, div-add-mod b m, ap (λ t. t * c) (div-add-mod b m)))

-- The number that digits spell from the last to the first.
value_back : Bytes → ℕ
value_back [] = 0
value_back (c ∷ s) = (c - b'0') + 10 * value_back s

value-reverse : (s : Bytes) → value (reverse s) ≡ value_back s
unfolding value_back
value-reverse [] = refl
value-reverse (c ∷ s) =
    omega (
      arith,
      ap value (reverse-cons c s),
      value_from-append 0 (reverse s) (c ∷ []),
      value-reverse s,
    )

spread : (k r c v : ℕ) → IsDigit c → r + k * digit c + k * 10 * v ≡ r + k * (c - b'0' + 10 * v)
unfolding digit
spread k r c v h = let e : digit c ≡ c - b'0' = omega arith in rw e (grind arith)

accumulate-value_back :
    (m : ℕ) (s : Bytes) (r k : ℕ)
    → All IsDigit s
    → r < m
    → accumulate m s r k ≡ (r + k * value_back s) % m
unfolding accumulate value_back
accumulate-value_back m [] r k _ h = sym (ap (λ t. t % m) (omega arith) ∙ mod-eq_of_lt h)
accumulate-value_back m (c ∷ s) r k (hc, hs) h =
    accumulate-value_back m s ((r + k * digit c) % m) (k * 10 % m) hs (grind arith)
    ∙ add-mul-mod_mod m (r + k * digit c) (k * 10) (value_back s)
    ∙ ap (λ t. t % m) (spread k r c (value_back s) hc)

All-reverse : (s : Bytes) → All IsDigit s → All IsDigit (reverse s)
All-reverse [] _ = tt
All-reverse (c ∷ s) (hc, hs) =
    rw (reverse-cons c s) (All-append IsDigit (reverse s) (c ∷ []) (All-reverse s hs) (hc, tt))

-- The sum that the loop computes is the number, if it fits.
accumulate-value :
    (m : ℕ) (s : Bytes) → All IsDigit s → value s < m → accumulate m (reverse s) 0 1 ≡ value s
accumulate-value m s h fits =
    accumulate-value_back m (reverse s) 0 1 (All-reverse s h) (omega arith)
    ∙ ap (λ t. t % m) (omega (arith, value-reverse (reverse s), ap value (reverse-reverse s)))
    ∙ mod-eq_of_lt fits

-- The text does not begin with a zero.
abbrev pub NoZero : Bytes → Type 0
NoZero [] = Unit {0}
NoZero (c ∷ s) = c ≢ b'0'

shorter-lt :
    (s t : Bytes)
    → length s < length t
    → All IsDigit s
    → All IsDigit t
    → NoZero t
    → value s < value t
shorter-lt s [] h _ _ _ = absurd (omega arith)
shorter-lt s (y ∷ t) h hs (hy, _) ne =
    value_from-lt_of_length (0 * 10 + (y - b'0')) s t (omega arith) (omega arith) hs

pub value-max_str : (w : Width) → value (max_str w) ≡ modulus w - 1
value-max_str one_byte = refl
value-max_str two_bytes = refl
value-max_str four_bytes = refl
value-max_str eight_bytes = refl

pub max_str_digits : (w : Width) → All IsDigit (max_str w) × NoZero (max_str w) × (0 < modulus w)
max_str_digits one_byte = (omega arith, omega arith, omega arith)
max_str_digits two_bytes = (omega arith, omega arith, omega arith)
max_str_digits four_bytes = (omega arith, omega arith, omega arith)
max_str_digits eight_bytes = (omega arith, omega arith, omega arith)

module _ (w : Width) (past : ℕ) where
  -- The two tests of the source refuse what does not fit, and the overread case.
  refuses :
      (ds rest : Bytes)
      → All IsDigit ds
      → NoZero ds
      → get_or rest 0 past < 256
      → (ltb (length (max_str w)) (length ds)
          || (length ds == length (max_str w)
              && exceeds (suc (length ds)) (ds ++ rest) (max_str w) past))
        ≡ (ltb (modulus w - 1) (value ds)
            || (value ds == modulus w - 1 && is_low (get_or rest 0 past)))
  refuses ds rest h nz fits =
      let (md, mz, _) = max_str_digits w in
      ground (
        arith,
        value-max_str w,
        shorter-lt ds (max_str w),
        shorter-lt (max_str w) ds,
        exceeds-value_from 0 ds (max_str w) rest past,
      )

count_digits-span : (s : Bytes) → count_digits s ≡ length (span_digits s).0
unfolding count_digits span_digits
count_digits-span [] = refl
count_digits-span (c ∷ s) = ground (arith, count_digits-span s)

span_digits-NoZero : (s : Bytes) → NoZero s → NoZero (span_digits s).0
unfolding span_digits
span_digits-NoZero [] h = tt
span_digits-NoZero (c ∷ s) h = ground arith

-- Leading zeros change neither the number nor what follows it.
strip_zeros-NoZero : (s : Bytes) → NoZero (strip_zeros s).1
unfolding strip_zeros
strip_zeros-NoZero [] = tt
strip_zeros-NoZero (c ∷ s) = ground (arith, strip_zeros-NoZero s)

strip_zeros-span :
    (s : Bytes)
    → (value (span_digits (strip_zeros s).1).0 ≡ value (span_digits s).0)
      × ((span_digits (strip_zeros s).1).1 ≡ (span_digits s).1)
      × ((strip_zeros s).0 ≡ false → (strip_zeros s).1 ≡ s)
      × ((strip_zeros s).0 ≡ true → 0 < length (span_digits s).0)
unfolding strip_zeros span_digits is_digit
strip_zeros-span [] = (refl, refl, λ _. refl, λ h. cc)
strip_zeros-span (c ∷ s) = ground (arith, strip_zeros-span s)

abbrev pub IsByte : ℕ → Type 0
IsByte c = c < 256

span_digits-IsByte :
    (s : Bytes) (past : ℕ) → All IsByte s → past < 256 → get_or (span_digits s).1 0 past < 256
unfolding span_digits
span_digits-IsByte [] past _ h = h
span_digits-IsByte (c ∷ s) past (hc, hs) h = ground (arith, span_digits-IsByte s past hs h)

take-drop_digits :
    (s : Bytes)
    → (take (count_digits s) s ≡ (span_digits s).0) × (drop (count_digits s) s ≡ (span_digits s).1)
unfolding span_digits count_digits
take-drop_digits [] = (refl, refl)
take-drop_digits (c ∷ s) = ground (arith, take-drop_digits s)

no_digits : (s : Bytes) → length (span_digits s).0 ≡ 0 → (span_digits s).1 ≡ s
unfolding span_digits
no_digits [] h = refl
no_digits (c ∷ s) h = ground arith

-- Only the byte behind the digits has to be a byte.
pub number-read_number_lem :
    (w : Width) (past : ℕ) (s : Bytes)
    → get_or (span_digits s).1 0 past < 256
    → number w past s ≡ read_number w past s
unfolding number read_number
number-read_number_lem w past s behind =
    let s' = (strip_zeros s).1 in
    let ds = (span_digits s').0 in
    let rest = (span_digits s').1 in
    ground (
      arith,
      strip_zeros-span s,
      count_digits-span s',
      take-drop_digits s',
      no_digits s',
      refuses w past ds rest (span_digits-IsDigit s') (span_digits-NoZero s' (strip_zeros-NoZero s))
          (subst (λ t. get_or t 0 past < 256) (sym (strip_zeros-span s).1) behind),
      span_digits-append s',
      accumulate-value (modulus w) ds (span_digits-IsDigit s'),
      max_str_digits w,
    )

-- `parse::number<T>` for an unsigned `T` of any width reads a view of bytes as `read_number` says: the value of
-- the digits at its head, refused if there are none, if they do not fit, or if they spell the largest value
-- and a byte from 1 to 47 follows.
pub number-read_number :
    (w : Width) (past : ℕ) (s : Bytes)
    → All IsByte s
    → past < 256
    → number w past s ≡ read_number w past s
number-read_number w past s bytes behind =
    number-read_number_lem w past s (span_digits-IsByte s past bytes behind)
