-- ===== src/Bittorrent/MutableData/Encoding.antt =====
-- Signed items survive their encoding, and only signed items are decoded.
use ouinet.Prelude.{
  false, ◌≤◌, ◌<◌, ◌≡◌, refl, ap, ◌∙◌, Bool, true, some, Bytes, codes, length, ltb, arith,
  Bool-cases, inl, inr, ◌⊎◌,
}
use ouinet.Prelude.Int.{ℤ}
use ouinet.Parse.Number.{eight_bytes}
use ouinet.Parse.Number.Signed.{InRange}
use ouinet.Bittorrent.Bencoding.{
  Value, Entries, int, string, map, end, entry, put, key_lt, length_limit, as_map, as_string,
  as_int,
}
use ouinet.Bittorrent.Bencoding.Encode.{bencoding_encode}
use ouinet.Bittorrent.Bencoding.Decode.{bencoding_decode}
use ouinet.Bittorrent.Bencoding.Decode.RoundTrip.{Fits, bencoding_decode-encode}
use ouinet.Bittorrent.MutableData.{
  Result, returned, length_error, MutableDataItem, public_key_size, signature_size,
  signature_buffer, item_map, bencode, at, string_at, int_at, fields, verify, accept, conclude_item,
  bdecode, sign, ◌>>=◌,
}

-- What the encoding of an item has room for.
pub record Encodable (item : MutableDataItem) : Type 0 where
  pub key_size : length item.public_key ≡ public_key_size
  pub signature_length : length item.signature ≡ signature_size
  pub salt_length : length item.salt ≤ length_limit
  pub number : InRange eight_bytes item.sequence_number
  pub value_fits : Fits 2 item.value

Result-cases : {A : Type 0} (r : Result A) → (r ≡ length_error) ⊎ ((a : A) × (r ≡ returned a))
Result-cases (returned a) = inr (a, refl)
Result-cases length_error = inl refl

signature_buffer_error :
    (v : Value) (salt : Bytes) (n : ℤ)
    → signature_buffer v salt n ≡ length_error
    → 1000 < length (bencoding_encode v)
unfolding signature_buffer
signature_buffer_error v salt n h = elim (Bool-cases (ltb 1000 (length (bencoding_encode v)))) [
  | inl long ↦ ground arith
  | inr short ↦ absurd (ground (arith, h, short))
]

sorted_map : MutableDataItem → Entries
sorted_map item = entry (codes "k") (string item.public_key) (
    entry (codes "salt") (string item.salt) (
      entry (codes "seq") (int item.sequence_number)
        (entry (codes "sig") (string item.signature) (entry (codes "v") item.value end))))

item_map-sorted_map : (item : MutableDataItem) → item_map item ≡ sorted_map item
unfolding put key_lt sorted_map
item_map-sorted_map item = refl

sorted_map-Fits : (item : MutableDataItem) → Encodable item → Fits 1 (map (sorted_map item))
unfolding sorted_map key_lt
sorted_map-Fits item h =
    let key_size = h.key_size in
    let signature_length = h.signature_length in
    let salt_length = h.salt_length in
    (
      omega arith,
      (
        omega arith,
        (omega arith, omega arith),
        (refl, (refl, (refl, (refl, tt)))),
        (
          omega arith,
          (omega arith, omega arith),
          (refl, (refl, (refl, tt))),
          (
            omega arith,
            (omega arith, h.number),
            (refl, (refl, tt)),
            (
              omega arith,
              (omega arith, omega arith),
              (refl, tt),
              (omega arith, h.value_fits, tt, tt),
            ),
          ),
        ),
      ),
    )

fields-sorted_map :
    (item : MutableDataItem) → Encodable item → fields (map (sorted_map item)) ≡ some item
unfolding fields sorted_map string_at int_at at key_lt as_map as_string as_int
fields-sorted_map item h = rw (h.key_size, h.signature_length) refl

decoded :
    (item : MutableDataItem)
    → Encodable item
    → bencoding_decode (bencode item) ≡ some (map (sorted_map item))
unfolding bencode
decoded item h =
    rw (item_map-sorted_map item)
      (bencoding_decode-encode (map (sorted_map item)) (sorted_map-Fits item h))

module _ (verify_signature : Bytes → Bytes → Bytes → Bool) where
  -- The end of `bdecode` on what `bencode` wrote.
  bdecode-bencode-accept :
      (item : MutableDataItem)
      → Encodable item
      → bdecode verify_signature (bencode item)
        ≡ accept verify_signature item (verify verify_signature item)
  unfolding bdecode
  bdecode-bencode-accept item h =
      ap (λ o. conclude_item verify_signature (o >>= fields)) (decoded item h)
      ∙ ap (conclude_item verify_signature) (fields-sorted_map item h)

  -- `bdecode` reads back what `bencode` wrote of an item with a right signature.
  pub bdecode-bencode :
      (item : MutableDataItem)
      → Encodable item
      → verify verify_signature item ≡ returned true
      → bdecode verify_signature (bencode item) ≡ returned (some item)
  bdecode-bencode item h v = bdecode-bencode-accept item h ∙ ap (accept verify_signature item) v

  verify_throws :
      (item : MutableDataItem)
      → ltb 1000 (length (bencoding_encode item.value)) ≡ true
      → verify verify_signature item ≡ length_error
  unfolding signature_buffer verify
  verify_throws item h = rw (h, verify, signature_buffer) refl

  -- An encoded item whose value takes more than 1000 bytes makes `bdecode` throw.
  pub bdecode_throws :
      (item : MutableDataItem)
      → Encodable item
      → 1000 < length (bencoding_encode item.value)
      → bdecode verify_signature (bencode item) ≡ length_error
  bdecode_throws item h l =
      bdecode-bencode-accept item h
      ∙ ap (accept verify_signature item) (verify_throws item (long item.value l))
    where
      long :
          (v : Value)
          → 1000 < length (bencoding_encode v)
          → ltb 1000 (length (bencoding_encode v)) ≡ true
      long v l = ground arith

module _ (verify_signature : Bytes → Bytes → Bytes → Bool) (sign_message : Bytes → Bytes → Bytes)
    (public_key_of : Bytes → Bytes) where
  -- What `sign` returns: an item with these fields that `verify` accepts, or an error if the value
  -- takes more than 1000 bytes.
  abbrev pub Signed : Value → ℤ → Bytes → Bytes → Result MutableDataItem → Type 0
  Signed v n salt key (returned item) =
      (verify verify_signature item ≡ returned true)
      × (item.value ≡ v)
      × (item.sequence_number ≡ n)
      × (item.salt ≡ salt)
      × (item.public_key ≡ public_key_of key)
  Signed v n salt key length_error = 1000 < length (bencoding_encode v)

  -- With a signature scheme that accepts what it signs, `sign` returns an item that `verify` accepts, or
  -- throws for a value that takes more than 1000 bytes.
  pub sign-Signed :
      (v : Value) (n : ℤ) (salt key : Bytes)
      → ((m : Bytes) → verify_signature (public_key_of key) m (sign_message key m) ≡ true)
      → Signed v n salt key (sign sign_message public_key_of v n salt key)
  unfolding verify sign
  sign-Signed v n salt key scheme = elim (Result-cases (signature_buffer v salt n)) [
    | inl thrown ↦ rw (thrown, sign) (signature_buffer_error v salt n thrown)
    | inr (m, e) ↦ rw (e, sign) (rw (e, verify) (ap returned (scheme m)), refl, refl, refl, refl)
  ]

-- The test of a short value's signature returns.
pub verify_returned :
    (verify_signature : Bytes → Bytes → Bytes → Bool) (item : MutableDataItem)
    → length (bencoding_encode item.value) < 1000
    → (b : Bool) × (verify verify_signature item ≡ returned b)
unfolding verify signature_buffer
verify_returned verify_signature item h =
    let short : ltb 1000 (length (bencoding_encode item.value)) ≡ false = ground arith in
    rw (short, verify, signature_buffer) (_, refl)
