-- ===== src/Bittorrent/Bencoding.antt =====
-- src/bittorrent/bencoding.h and bencoding.cpp. A `std::string` that a function consumes is returned
-- as what is left of it. Reading `encoded[0]` of an empty string gives the terminating zero byte. The
-- recursion and its loops take fuel, and `stuck` says that it ran out.
pub mod Keys
pub mod Encode
pub mod Decode
use ouinet.Prelude.{
  ℕ, suc, ◌+◌, ◌-◌, ◌*◌, ◌^◌, Bool, true, false, Option, none, some, [], ◌∷◌, ◌++◌, Bytes, length,
  take, ltb, if◌then◌else◌,
}
use ouinet.Prelude.Int.{ℤ, pos, negsuc}

-- `BencodedValue`, `BencodedList` and `BencodedMap`. A map is a flat_map, whose entries stand in the
-- order of their keys.
mutual
  pub data Value : Type 0 where
    int : ℤ → Value
    string : Bytes → Value
    list : Values → Value
    map : Entries → Value

  pub data Values : Type 0 where
    nil : Values
    cons : Value → Values → Values

  pub data Entries : Type 0 where
    end : Entries
    entry : Bytes → Value → Entries → Entries

abbrev pub depth_limit : ℕ
depth_limit = 100

abbrev pub length_limit : ℕ
length_limit = 2000000

-- `std::less<std::string>`.
unfoldable pub key_lt : Bytes → Bytes → Bool
key_lt s [] = false
key_lt [] (d ∷ t) = true
key_lt (c ∷ s) (d ∷ t) = if ltb c d then true else if ltb d c then false else key_lt s t

-- `output[key] = value`.
unfoldable pub put : Bytes → Value → Entries → Entries
unfolding key_lt
put k v end = entry k v end
put k v (entry j w m) =
    if key_lt k j
    then entry k v (entry j w m)
    else if key_lt j k
    then entry j w (put k v m)
    else entry k v m

-- `as_int`, `as_string`, `as_list` and `as_map`.
unfoldable pub as_int : Value → Option ℤ
as_int (int n) = some n
as_int v = none

unfoldable pub as_string : Value → Option Bytes
as_string (string s) = some s
as_string v = none

unfoldable pub as_list : Value → Option Values
as_list (list vs) = some vs
as_list v = none

unfoldable pub as_map : Value → Option Entries
as_map (map m) = some m
as_map v = none
