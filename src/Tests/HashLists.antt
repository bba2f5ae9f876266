-- ===== src/Tests/HashLists.antt =====
-- src/cache/hash_list.cpp at concrete inputs.
use ouinet.Prelude.{
  ℕ, ◌+◌, ◌≡◌, refl, Bool, true, List, [], ◌∷◌, ◌++◌, some, Bytes, codes, take, drop, length,
}
use ouinet.Bittorrent.NodeId.{repeat}
use ouinet.Cache.HashList.{
  Block, HashList, verify, Part, body, chunk_body, other_part, load, write, content_length,
  write_blocks,
}
use ouinet.Cache.ChainHasher.{verify_chain_hash}
use ouinet.Cache.HashList.RoundTrip.{payload, load-write}
use ouinet.Cache.HashList.Signing.{signed_list, verify-signed_list}

abbrev sha512 : Bytes → Bytes
sha512 s = take 64 (s ++ repeat 64 0)

abbrev accept_all : Bytes → Bytes → Bytes → Bool
accept_all key message signature = true

abbrev block : ℕ → Block
block b = record { data_hash = repeat 64 b; chained_hash_signature = repeat 64 (b + 1) }

abbrev hashes : HashList
hashes = record {
  signed_head = record { block_size = 65536; public_key = codes "key"; injection_id = codes "id" };
  blocks = block 1 ∷ block 3 ∷ [];
}

abbrev parts : List Part
parts =
    body (take 30 (write hashes)) ∷ other_part ∷ chunk_body (drop 30 (write hashes)) ∷ body [] ∷ []

hashes_verified : verify sha512 accept_all hashes ≡ true
unfolding verify verify_chain_hash
hashes_verified = refl

payload-parts : payload parts ≡ write hashes
unfolding payload write write_blocks
payload-parts = refl

load-write_example :
    (load sha512 accept_all hashes.signed_head parts ≡ some hashes)
    × (length (write hashes) ≡ content_length hashes)
load-write_example =
    load-write sha512 accept_all hashes parts ((refl, refl), ((refl, refl), tt)) hashes_verified
      payload-parts

all_accepted : (m : Bytes) → accept_all (codes "key") m (repeat 64 3) ≡ true
all_accepted m = refl

verify-signed_list_example :
    verify sha512 accept_all (
      signed_list sha512
        (codes "id")
        (λ m. repeat 64 3)
        (codes "key")
        65536
        100
        (repeat 64 1)
        (repeat 64 2 ∷ []))
    ≡ true
verify-signed_list_example =
    verify-signed_list sha512 (codes "id") (λ m. repeat 64 3) accept_all (codes "key") 65536 100
      (repeat 64 1) (repeat 64 2 ∷ []) all_accepted
