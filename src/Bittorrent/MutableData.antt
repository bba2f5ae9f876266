-- ===== src/Bittorrent/MutableData.antt =====
-- src/bittorrent/mutable_data.h and mutable_data.cpp. Keys and signatures are their bytes. What gcrypt
-- does for src/util/sign.h is a parameter: `verify_signature key message signature`, `sign_message` and
-- `public_key_of` of a secret key. A function that throws `std::length_error` returns `length_error`.
pub mod Encoding
use ouinet.Prelude.{
  ℕ, ◌+◌, ◌*◌, ◌^◌, Bool, true, false, ◌||◌, not, Option, none, some, [], ◌∷◌, ◌++◌, Bytes, codes,
  length, ltb, is_empty, ◌==◌, if◌then◌else◌,
}
use ouinet.Prelude.Int.{ℤ}
use ouinet.Prelude.Decimal.{to_string, print_int}
use ouinet.Bittorrent.Bencoding.{
  Value, Entries, int, string, map, end, entry, put, key_lt, as_int, as_string, as_map,
}
use ouinet.Bittorrent.Bencoding.Encode.{bencoding_encode}
use ouinet.Bittorrent.Bencoding.Decode.{bencoding_decode}

pub data Result {ℓ} (A : Type ℓ) : Type ℓ where
  returned : A → Result A
  length_error : Result A

pub record MutableDataItem : Type 0 where
  pub public_key : Bytes
  pub salt : Bytes
  pub value : Value
  pub sequence_number : ℤ
  pub signature : Bytes

-- `sign::PublicKey::size` and the size of `Signature::bytes`.
abbrev pub public_key_size : ℕ
public_key_size = 32

abbrev pub signature_size : ℕ
signature_size = 64

-- `mutable_data_signature_buffer`.
pub signature_buffer : Value → Bytes → ℤ → Result Bytes
signature_buffer value salt sequence_number =
    let encoded_data = bencoding_encode value in
    let salted =
      if is_empty salt then [] else codes "4:salt" ++ (to_string (length salt) ++ b':' ∷ salt) in
    if ltb 1000 (length encoded_data)
    then length_error
    else returned (
        salted ++ (codes "3:seqi" ++ (print_int sequence_number ++ (codes "e1:v" ++ encoded_data))))

-- `MutableDataItem::bencode`: the five pairs of the map, in the order of the source.
abbrev pub item_map : MutableDataItem → Entries
item_map item = put (codes "v") item.value (
    put (codes "sig") (string item.signature) (
      put (codes "seq") (int item.sequence_number)
        (put (codes "salt") (string item.salt) (put (codes "k") (string item.public_key) end))))

unfoldable pub bencode : MutableDataItem → Bytes
bencode item = bencoding_encode (map (item_map item))

-- `BencodedMap::at`: it throws for a missing key, and the caller catches that.
unfoldable pub at : Entries → Bytes → Option Value
at end key = none
at (entry k v m) key = if key_lt k key || key_lt key k then at m key else some v

infixl 5 ◌>>=◌
abbrev pub ◌>>=◌ {ℓ κ} : {A : Type ℓ} {B : Type κ} → Option A → (A → Option B) → Option B
none >>= f = none
some a >>= f = f a

-- `at(key).as_string().value()` and `at(key).as_int().value()`.
pub string_at : Entries → Bytes → Option Bytes
unfolding at
string_at m key = at m key >>= as_string

pub int_at : Entries → Bytes → Option ℤ
unfolding at
int_at m key = at m key >>= as_int

-- `if (s.size() != size) return none;`.
abbrev pub sized : ℕ → Bytes → Option Bytes
sized size s = if length s == size then some s else none

-- The fields of the map, up to the end of the `try` block.
pub fields : Value → Option MutableDataItem
unfolding string_at int_at
fields ins = do
  ins_map ← as_map ins
  k ← string_at ins_map (codes "k")
  public_key ← sized public_key_size k
  salt ← string_at ins_map (codes "salt")
  value ← at ins_map (codes "v")
  sequence_number ← int_at ins_map (codes "seq")
  sig ← string_at ins_map (codes "sig")
  signature ← sized signature_size sig
  some record {
    public_key = public_key;
    salt = salt;
    value = value;
    sequence_number = sequence_number;
    signature = signature;
  }

module _ (verify_signature : Bytes → Bytes → Bytes → Bool) where
  -- `MutableDataItem::verify`.
  unfoldable pub verify : MutableDataItem → Result Bool
  unfolding signature_buffer
  verify item = elim (signature_buffer item.value item.salt item.sequence_number) [
    | returned message ↦ returned (verify_signature item.public_key message item.signature)
    | length_error ↦ length_error
  ]

  -- The end of `bdecode`.
  abbrev pub accept : MutableDataItem → Result Bool → Result (Option MutableDataItem)
  accept item (returned true) = returned (some item)
  accept item (returned false) = returned none
  accept item length_error = length_error

  abbrev pub conclude_item : Option MutableDataItem → Result (Option MutableDataItem)
  conclude_item none = returned none
  conclude_item (some item) = accept item (verify item)

  unfoldable pub bdecode : Bytes → Result (Option MutableDataItem)
  unfolding fields verify
  bdecode s = conclude_item (bencoding_decode s >>= fields)

module _ (sign_message : Bytes → Bytes → Bytes) (public_key_of : Bytes → Bytes) where
  -- `MutableDataItem::sign`.
  unfoldable pub sign : Value → ℤ → Bytes → Bytes → Result MutableDataItem
  unfolding signature_buffer
  sign value sequence_number salt private_key = elim (signature_buffer value salt sequence_number) [
    | length_error ↦ length_error
    | returned message ↦ returned record {
      public_key = public_key_of private_key;
      salt = salt;
      value = value;
      sequence_number = sequence_number;
      signature = sign_message private_key message;
    }
  ]
