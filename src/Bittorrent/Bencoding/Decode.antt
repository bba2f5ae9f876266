-- ===== src/Bittorrent/Bencoding/Decode.antt =====
-- `destructive_parse_int`, `destructive_parse_string`, `destructive_parse_value`, `bencoding_decode`.
pub mod Fuel
pub mod RoundTrip
use ouinet.Prelude.{
  ℕ, zero, suc, ◌+◌, ◌-◌, ◌*◌, ◌%◌, ◌^◌, Bool, true, false, ◌&&◌, ◌||◌, Option, none, some, [], ◌∷◌,
  Bytes, length, get_or, take, drop, ltb, leb, ◌==◌, is_empty, if◌then◌else◌, not,
}
use ouinet.Prelude.Int.{ℤ, pos, negsuc}
use ouinet.Parse.Number.{eight_bytes, signed_number}
use ouinet.Bittorrent.Bencoding.{
  Value, Values, Entries, int, string, list, map, nil, cons, end, entry, put, depth_limit,
  length_limit,
}

-- `fail` is `boost::none`; `stuck` says that the fuel ran out.
pub data Parsed {ℓ} (A : Type ℓ) : Type ℓ where
  ok : A → Bytes → Parsed A
  fail : Parsed A
  stuck : Parsed A

infixl 5 ◌>>=◌
abbrev pub ◌>>=◌ {ℓ κ} : {A : Type ℓ} {B : Type κ} → Parsed A → (A × Bytes → Parsed B) → Parsed B
ok a s >>= f = f (a, s)
fail >>= f = fail
stuck >>= f = stuck

abbrev pub head : Bytes → ℕ
head s = get_or s 0 0

abbrev pub to_parsed {ℓ} : {A : Type ℓ} → Option A × Bytes → Parsed A
to_parsed (none, left) = fail
to_parsed (some a, left) = ok a left

pub parse_int : Bytes → Parsed ℤ
parse_int encoded = to_parsed (signed_number eight_bytes 0 encoded)

-- `(size_t)*size`.
pub size_of : ℤ → ℕ
size_of (pos n) = n
size_of (negsuc n) = 2 ^ 64 - suc n

abbrev over_limit : ℤ → Bool
over_limit (pos n) = ltb length_limit n
over_limit (negsuc n) = false

pub take_string : ℤ → Bytes → Parsed Bytes
unfolding size_of
take_string size encoded =
    if ltb (length encoded) (size_of size)
    then fail
    else if over_limit size
    then fail
    else ok (take (size_of size) encoded) (drop (size_of size) encoded)

pub parse_string : Bytes → Parsed Bytes
unfolding parse_int take_string
parse_string encoded = do
  (size, rest) ← parse_int encoded
  if head rest == b':' then take_string size (drop 1 rest) else fail

-- The body of `i…e`.
pub parse_int_value : Bytes → Parsed Value
unfolding parse_int
parse_int_value encoded = do
  (n, rest) ← parse_int encoded
  if is_empty rest then fail else if head rest == b'e' then ok (int n) (drop 1 rest) else fail

pub parse_string_value : Bytes → Parsed Value
unfolding parse_string
parse_string_value encoded = do (s, rest) ← parse_string encoded; ok (string s) rest

-- The loop has stopped: at the end of the text, or at an 'e', which is erased.
abbrev pub close {ℓ} : {A : Type ℓ} → A → Bytes → Parsed A
close a encoded = if is_empty encoded then fail else ok a (drop 1 encoded)

-- Whether the loop goes on.
abbrev pub more : Bytes → Bool
more encoded = not (is_empty encoded) && not (head encoded == b'e')

-- The branches of `destructive_parse_value`, given what its two loops return.
pub dispatch : Bytes → ℕ → Parsed Value → Parsed Value → Parsed Value
unfolding parse_int_value parse_string_value
dispatch encoded depth items entries =
    if is_empty encoded || ltb depth_limit depth
    then fail
    else if head encoded == b'i'
    then parse_int_value (drop 1 encoded)
    else if leb b'0' (head encoded) && leb (head encoded) b'9'
    then parse_string_value encoded
    else if head encoded == b'l'
    then items
    else if head encoded == b'd'
    then entries
    else fail

mutual
  -- `destructive_parse_value`.
  pub parse_value : ℕ → Bytes → ℕ → Parsed Value
  parse_value zero encoded depth = stuck
  parse_value (suc f) encoded depth =
      let deeper = (depth + 1) % 2 ^ 8 in
      let items = parse_items f (drop 1 encoded) deeper >>= λ r. ok (list r.0) r.1 in
      let entries = parse_entries f (drop 1 encoded) deeper end >>= λ r. ok (map r.0) r.1 in
      dispatch encoded depth items entries

  -- The loop over the items of a list.
  pub parse_items : ℕ → Bytes → ℕ → Parsed Values
  parse_items zero encoded depth = stuck
  parse_items (suc f) encoded depth =
      let one_more = (do
        (v, rest) ← parse_value f encoded depth
        (vs, left) ← parse_items f rest depth
        ok (cons v vs) left) in
      if more encoded then one_more else close nil encoded

  -- The loop over the entries of a map.
  pub parse_entries : ℕ → Bytes → ℕ → Entries → Parsed Entries
  parse_entries zero encoded depth output = stuck
  parse_entries (suc f) encoded depth output =
      let one_more = (do
        (k, rest) ← parse_string encoded
        (v, left) ← parse_value f rest depth
        parse_entries f left depth (put k v output)) in
      if more encoded then one_more else close output encoded

-- A call is given two steps for each byte. What follows the value is ignored.
abbrev pub enough_fuel : Bytes → ℕ
enough_fuel encoded = suc (2 * length encoded)

abbrev pub value_of : Parsed Value → Option Value
value_of (ok v rest) = some v
value_of fail = none
value_of stuck = none

unfoldable pub bencoding_decode : Bytes → Option Value
unfolding parse_value parse_items parse_entries dispatch parse_string
bencoding_decode encoded = value_of (parse_value (enough_fuel encoded) encoded 1)
