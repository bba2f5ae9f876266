-- ===== src/Tests/Storage.antt =====
-- src/bittorrent/dht_storage.cpp and mutable_data.cpp at concrete inputs, with numbers for endpoints and
-- addresses, and with short functions in place of SHA-1 and of the signature scheme.
use ouinet.Prelude.{
  ℕ, ◌+◌, ◌<◌, ◌≡◌, ◌↔◌, refl, Bool, true, false, List, [], ◌∷◌, some, Bytes, codes, arith, take,
  length, ◌==◌,
}
use ouinet.Prelude.Int.{pos}
use ouinet.Prelude.Decimal.{to_string, print_int}
use ouinet.Prelude.Eq.{nat_eq}
use ouinet.Bittorrent.Bencoding.{int, string}
use ouinet.Bittorrent.NodeId.{repeat}
use ouinet.Bittorrent.Bencoding.Encode.{bencoding_encode}
use ouinet.Bittorrent.MutableData.{
  MutableDataItem, returned, length_error, verify, bencode, bdecode, sign,
}
use ouinet.Bittorrent.MutableData.Encoding.{
  bdecode-bencode, bdecode_throws, sign-Signed, Signed, Encodable,
}
use ouinet.Bittorrent.Storage.Swarm.{Peer, Swarm, empty_swarm, add, expire, is_expired, seconds}
use ouinet.Bittorrent.Storage.Swarm.Index.{Indexed, empty_swarm-Indexed, add-Indexed}
use ouinet.Bittorrent.Storage.Swarm.Members.{Holds}
use ouinet.Bittorrent.Storage.Swarm.Expiry.{expire-Holds}
use ouinet.Bittorrent.Storage.Tokens.{TokenStorage, new_storage, generate_token, verify_token}
use ouinet.Bittorrent.Storage.Tokens.Validity.{verify_token-generate_token, run, generated}

abbrev swarm : Swarm ℕ
swarm = add (add empty_swarm 10 (seconds 1)) 20 (seconds 9000)

abbrev rand : ℕ → ℕ
rand i = i + 1

swarm-Indexed : Indexed swarm
swarm-Indexed =
    add-Indexed (add empty_swarm 10 (seconds 1)) 20 (seconds 9000)
      (add-Indexed empty_swarm 10 (seconds 1) empty_swarm-Indexed)

abbrev stale_peer : Peer ℕ
stale_peer = record { endpoint = 10; last_seen = seconds 1 }

expire-Holds_example :
    Holds (expire swarm (seconds 9001)) stale_peer
    ↔ (Holds swarm stale_peer × (is_expired (seconds 9001) stale_peer ≡ false))
expire-Holds_example = expire-Holds swarm (seconds 9001) stale_peer

-- A digest for the tests.
abbrev digest : Bytes → Bytes
digest s = take 20 s

abbrev storage : TokenStorage
storage = new_storage (codes "salt")

verify_token-generate_token_example :
    let (t, token) = generate_token digest to_string storage 7 (codes "id") (seconds 301) in
    (verify_token digest to_string
      (run digest to_string t ((seconds 302, generated 8 (codes "x")) ∷ []))
      7
      (codes "id")
      token
      (seconds 1201)).1
    ≡ true
verify_token-generate_token_example =
    verify_token-generate_token digest to_string storage 7 (codes "id") (seconds 301) (seconds 1201)
      ((seconds 302, generated 8 (codes "x")) ∷ []) (omega arith) (omega arith) (omega arith)

-- A scheme whose signature is the key behind zeros.
abbrev check_signature : Bytes → Bytes → Bytes → Bool
check_signature key message signature = length signature == 64

abbrev sign_message : Bytes → Bytes → Bytes
sign_message key message = repeat 64 0

abbrev public_key_of : Bytes → Bytes
public_key_of key = repeat 32 1

abbrev item : MutableDataItem
item = record {
  public_key = repeat 32 1;
  salt = codes "s";
  value = int (pos 5);
  sequence_number = pos 1;
  signature = repeat 64 0;
}

item-Encodable : Encodable item
item-Encodable = record {
  key_size = refl;
  signature_length = refl;
  salt_length = omega arith;
  number = omega arith;
  value_fits = (omega arith, omega arith);
}

item-verified : verify check_signature item ≡ returned true
unfolding verify bencoding_encode to_string print_int
item-verified = refl

bdecode-bencode_example : bdecode check_signature (bencode item) ≡ returned (some item)
bdecode-bencode_example = bdecode-bencode check_signature item item-Encodable item-verified

sign-Signed_example :
    Signed check_signature sign_message public_key_of
      (int (pos 5))
      (pos 1)
      (codes "s")
      (codes "key")
      (sign sign_message public_key_of (int (pos 5)) (pos 1) (codes "s") (codes "key"))
sign-Signed_example =
    sign-Signed check_signature sign_message public_key_of (int (pos 5)) (pos 1) (codes "s")
      (codes "key") λ m. refl

abbrev tracked : List (Bytes × Swarm ℕ)
tracked = (codes "swarm", swarm) ∷ []

-- Its value takes 1005 bytes.
abbrev long_item : MutableDataItem
long_item = record item { value = string (repeat 1000 b'x') }

long_item-Encodable : Encodable long_item
long_item-Encodable = record {
  key_size = refl;
  signature_length = refl;
  salt_length = omega arith;
  number = omega arith;
  value_fits = (omega arith, omega arith);
}

long_value : 1000 < length (bencoding_encode long_item.value)
unfolding bencoding_encode to_string
long_value = omega arith

bdecode_throws_example : bdecode check_signature (bencode long_item) ≡ length_error
bdecode_throws_example = bdecode_throws check_signature long_item long_item-Encodable long_value
