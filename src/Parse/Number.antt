-- ===== src/Parse/Number.antt =====
-- src/parse/number.h: `parse::number<T>` for unsigned and for signed `T`. A view is the list of its
-- bytes; the function returns its result and what is left of the view. `past` is the byte that lies
-- behind the view in memory, since the comparison with the largest value reads one byte too far.
pub mod Spec
pub mod Compare
pub mod Exact
pub mod Signed
pub mod Length
pub mod Overread
use ouinet.Prelude.{
  ℕ, zero, suc, ◌+◌, ◌-◌, ◌*◌, ◌/◌, ◌%◌, ◌^◌, Bool, true, false, ◌&&◌, ◌||◌, Option, none, some,
  List, [], ◌∷◌, reverse, Bytes, codes, length, get_or, take, drop, ltb, leb, ◌==◌, if◌then◌else◌,
}
use ouinet.Prelude.Int.{ℤ, pos, negsuc}

-- `sizeof(T)`.
pub data Width : Type 0 where
  one_byte two_bytes four_bytes eight_bytes : Width

abbrev pub max_str : Width → Bytes
max_str one_byte = codes "255"
max_str two_bytes = codes "65535"
max_str four_bytes = codes "4294967295"
max_str eight_bytes = codes "18446744073709551615"

-- One more than the largest value of the unsigned type.
abbrev pub modulus : Width → ℕ
modulus one_byte = 2 ^ 8
modulus two_bytes = 2 ^ 16
modulus four_bytes = 2 ^ 32
modulus eight_bytes = 2 ^ 64

-- `std::numeric_limits<T>::max()` of the signed type.
abbrev pub signed_max : Width → ℕ
signed_max w = modulus w / 2 - 1

pub is_digit : ℕ → Bool
is_digit c = leb b'0' c && leb c b'9'

-- `uint8_t(c - '0')`.
pub digit : ℕ → ℕ
digit c = (c + 256 - b'0') % 256

-- `while (s.starts_with('0'))`, with whether it made a round.
pub strip_zeros : Bytes → Bool × Bytes
strip_zeros [] = (false, [])
strip_zeros (c ∷ s) = if c == b'0' then (true, (strip_zeros s).1) else (false, c ∷ s)

-- `endpos` after its loop.
pub count_digits : Bytes → ℕ
unfolding is_digit
count_digits [] = 0
count_digits (c ∷ s) = if is_digit c then suc (count_digits s) else 0

-- The comparison with `max_str`, with a round for each `i` that is left: whether it refuses. A
-- literal ends with a zero byte.
pub exceeds : ℕ → Bytes → Bytes → ℕ → Bool
unfolding digit
exceeds zero s max past = false
exceeds (suc rounds) s max past =
    let rest = exceeds rounds (drop 1 s) (drop 1 max) past in
    let d_in = digit (get_or s 0 past) in
    let d_max = digit (get_or max 0 0) in
    if ltb d_max d_in then true else if ltb d_in d_max then false else rest

-- `r += m * d; m *= 10;` in `T`, over the digits from the last to the first.
pub accumulate : ℕ → Bytes → ℕ → ℕ → ℕ
unfolding digit
accumulate modulus [] r m = r
accumulate modulus (c ∷ s) r m =
    accumulate modulus s ((r + m * digit c) % modulus) (m * 10 % modulus)

unfoldable pub number : Width → ℕ → Bytes → Option ℕ × Bytes
unfolding strip_zeros count_digits exceeds accumulate
number w past s_ =
    let (zeros_stripped, s) = strip_zeros s_ in
    let endpos = count_digits s in
    let size = length (max_str w) in
    if endpos == 0
    then if zeros_stripped then (some 0, s) else (none, s_)
    else if ltb size endpos
    then (none, s_)
    else if endpos == size && exceeds (suc endpos) s (max_str w) past
    then (none, s_)
    else (some (accumulate (modulus w) (reverse (take endpos s)) 0 1), drop endpos s)

-- What the signed function makes of the absolute value.
pub apply_sign : Width → Bool → ℕ → Option ℤ
apply_sign w negative abs =
    if abs == 0
    then some (pos 0)
    else if negative
    then if leb (abs - 1) (signed_max w) then some (negsuc (abs - 1)) else none
    else if ltb (signed_max w) abs
    then none
    else some (pos abs)

-- The view after the sign, and whether the sign is a minus.
pub strip_sign : Bytes → Bool × Bytes
strip_sign [] = (false, [])
strip_sign (c ∷ s) =
    if c == b'+' then (false, s) else if c == b'-' then (true, s) else (false, c ∷ s)

-- `s = s_` on a failure.
pub settle : Bytes → Bytes → Option ℤ → Option ℤ × Bytes
settle s_ left none = (none, s_)
settle s_ left (some n) = (some n, left)

pub conclude : Width → Bytes → Bool → Option ℕ × Bytes → Option ℤ × Bytes
conclude w s_ negative (none, left) = (none, s_)
conclude w s_ negative (some abs, left) = settle s_ left (apply_sign w negative abs)

unfoldable pub signed_number : Width → ℕ → Bytes → Option ℤ × Bytes
unfolding apply_sign strip_sign settle conclude
signed_number w past [] = (none, [])
signed_number w past (c ∷ s) =
    let (negative, unsigned) = strip_sign (c ∷ s) in
    conclude w (c ∷ s) negative (number w past unsigned)
