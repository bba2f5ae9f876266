-- ===== src/Bittorrent/NodeId.antt =====
-- src/bittorrent/node_id.h and node_id.cpp: 160-bit identifiers, the most significant byte first, and
-- the XOR metric. What `rand` returns is an argument; `generate` and the hexadecimal forms are not
-- modelled.
pub mod Metric
use ouinet.Prelude.{
  ℕ, zero, suc, ◌+◌, ◌-◌, ◌*◌, ◌/◌, ◌%◌, ◌^◌, bit_and, bit_or, bit_xor, Bool, true, false, not,
  List, [], ◌∷◌, Bytes, length, get_or, set, ltb, ◌==◌, if◌then◌else◌,
}

-- `NodeID::size` and `NodeID::bit_size`.
abbrev pub size : ℕ
size = 20

abbrev pub bit_size : ℕ
bit_size = size * 8

abbrev pub repeat : ℕ → ℕ → Bytes
repeat zero b = []
repeat (suc n) b = b ∷ repeat n b

-- `zero()` and `max()`.
unfoldable pub zero_id : Bytes
zero_id = repeat size 0

unfoldable pub max_id : Bytes
max_id = repeat size 0xff

-- `1 << (CHAR_BIT - 1 - n % CHAR_BIT)`.
pub bit_mask : ℕ → ℕ
bit_mask n = 2 ^ (7 - n % 8)

-- `get_rbit`, which is `NodeID::bit`.
unfoldable pub bit : Bytes → ℕ → Bool
unfolding bit_mask
bit buffer n = not (bit_and (get_or buffer (n / 8) 0) (bit_mask n) == 0)

-- `set_rbit`, which is `NodeID::set_bit`. `~bit` keeps the other seven bits of a byte.
unfoldable pub set_bit : Bytes → ℕ → Bool → Bytes
unfolding bit_mask
set_bit buffer n value =
    let old = get_or buffer (n / 8) 0 in
    set buffer (n / 8) (if value then bit_or old (bit_mask n) else bit_and old (255 - bit_mask n))

-- `operator<` of two arrays: lexicographic.
unfoldable pub id_lt : Bytes → Bytes → Bool
id_lt [] t = false
id_lt (a ∷ s) [] = false
id_lt (a ∷ s) (b ∷ t) = if ltb a b then true else if ltb b a then false else id_lt s t

-- `operator<=` and `operator>`.
unfoldable pub id_le : Bytes → Bytes → Bool
id_le a b = not (id_lt b a)

unfoldable pub id_gt : Bytes → Bytes → Bool
id_gt a b = id_lt b a

-- `operator==`.
unfoldable pub id_eq : Bytes → Bytes → Bool
id_eq [] [] = true
id_eq [] (b ∷ t) = false
id_eq (a ∷ s) [] = false
id_eq (a ∷ s) (b ∷ t) = if a == b then id_eq s t else false

-- `operator^` and `distance_to`.
unfoldable pub xor_id : Bytes → Bytes → Bytes
xor_id (a ∷ s) (b ∷ t) = bit_xor a b ∷ xor_id s t
xor_id s t = []

-- `closer_to(left, right)`, called on `self`: the loop over the bytes of the three.
unfoldable pub closer_to : Bytes → Bytes → Bytes → Bool
closer_to (c ∷ self) (a ∷ left) (b ∷ right) =
    let rest = closer_to self left right in
    let l = bit_xor a c in
    let r = bit_xor b c in if ltb l r then true else if ltb r l then false else rest
closer_to self left right = false

-- `NodeID::Range`.
pub record Range : Type 0 where
  pub stencil : Bytes
  pub mask : ℕ

-- `Range::max()`.
unfoldable pub max_range : Range
max_range = record { stencil = zero_id; mask = 0 }

unfoldable pub reduce : Range → Bool → Range
reduce r value = record { stencil = set_bit r.stencil (r.mask + 1) value; mask = r.mask + 1 }

-- One byte of `random_id`, the byte `i` of the stencil being `s` and `rand()` returning `random`.
pub random_byte : ℕ → ℕ → ℕ → ℕ → ℕ
random_byte mask i s random =
    let s_bytes = mask / 8 in
    let s_bits = mask % 8 in
    if ltb i s_bytes
    then s
    else if ltb s_bytes i
    then bit_and random 0xff
    else bit_or (bit_and s (bit_and (0xff * 2 ^ (8 - s_bits)) 0xff))
        (bit_and random (2 ^ (8 - s_bits) - 1))

-- `random_id` from the byte `i` on; `random i` is what `rand()` returns for the byte `i`.
random_from : ℕ → ℕ → Bytes → (ℕ → ℕ) → Bytes
unfolding random_byte
random_from mask i [] random = []
random_from mask i (s ∷ stencil) random =
    random_byte mask i s (random i) ∷ random_from mask (suc i) stencil random

unfoldable pub random_id : Range → (ℕ → ℕ) → Bytes
unfolding random_from
random_id r random = random_from r.mask 0 r.stencil random
