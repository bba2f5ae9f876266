-- ===== src/Cache/HashList/Signing.antt =====
-- The lists that a signer makes are accepted.
use ouinet.Prelude.{ℕ, ◌≡◌, Bool, true, List, [], ◌∷◌, Bytes}
use ouinet.Cache.ChainHasher.{
  ChainHasher, new_hasher, signature, signer, calculate_block, verify_chain_hash,
}
use ouinet.Cache.HashList.{Block, HashList, verify, last_chain_hash}

module _ (sha512 : Bytes → Bytes) (injection_id : Bytes) (sign : Bytes → Bytes) where
  abbrev pub signed_block : ChainHasher → ℕ → Bytes → Block
  signed_block hasher size digest = record {
    data_hash = digest;
    chained_hash_signature =
        (calculate_block sha512 hasher size digest (signer injection_id sign)).0.chain_signature;
  }

  -- The blocks of the signed data: all have the block size, but the last may be shorter.
  unfoldable pub signed_blocks : ChainHasher → ℕ → ℕ → Bytes → List Bytes → List Block
  signed_blocks hasher size last_size digest [] = signed_block hasher last_size digest ∷ []
  signed_blocks hasher size last_size digest (next ∷ digests) =
      signed_block hasher size digest
      ∷ signed_blocks (calculate_block sha512 hasher size digest (signer injection_id sign)).1 size
          last_size next digests

  abbrev pub signed_list : Bytes → ℕ → ℕ → Bytes → List Bytes → HashList
  signed_list public_key size last_size digest digests = record {
    signed_head = record {
      block_size = size;
      public_key = public_key;
      injection_id = injection_id;
    };
    blocks = signed_blocks new_hasher size last_size digest digests;
  }

  module _ (verify_signature : Bytes → Bytes → Bytes → Bool) (public_key : Bytes) (size : ℕ) where
    -- The chain hash of the last block is accepted.
    abbrev Accepts : ChainHasher → List Block → Type 0
    Accepts hasher [] = ⊥
    Accepts hasher (b ∷ bs) =
        verify_chain_hash verify_signature
          (last_chain_hash sha512 verify_signature size hasher b bs) public_key injection_id
        ≡ true

    Accepts-cons :
        (hasher : ChainHasher) (b : Block) (bs : List Block)
        → Accepts
            (calculate_block sha512 hasher size b.data_hash (signature b.chained_hash_signature)).1
            bs
        → Accepts hasher (b ∷ bs)
    unfolding last_chain_hash
    Accepts-cons hasher b [] h = absurd h
    Accepts-cons hasher b (c ∷ cs) h = h

    signed_blocks-Accepts :
        (hasher : ChainHasher) (last_size : ℕ) (digest : Bytes) (digests : List Bytes)
        → ((m : Bytes) → verify_signature public_key m (sign m) ≡ true)
        → Accepts hasher (signed_blocks hasher size last_size digest digests)
    unfolding signed_blocks last_chain_hash calculate_block verify_chain_hash
    signed_blocks-Accepts hasher last_size digest [] right = right _
    signed_blocks-Accepts hasher last_size digest (next ∷ digests) right =
        Accepts-cons hasher (signed_block hasher size digest) _ (
          signed_blocks-Accepts
            (calculate_block sha512 hasher size digest (signer injection_id sign)).1 last_size next
            digests right)

    -- With a signature scheme that accepts what it signs, `verify` accepts the list that
    -- `calculate_block` makes of any digests, whatever the size of the last block.
    pub verify-signed_list :
        (last_size : ℕ) (digest : Bytes) (digests : List Bytes)
        → ((m : Bytes) → verify_signature public_key m (sign m) ≡ true)
        → verify sha512 verify_signature (signed_list public_key size last_size digest digests)
          ≡ true
    unfolding verify
    verify-signed_list last_size digest digests right =
        accepted (signed_blocks new_hasher size last_size digest digests)
          (signed_blocks-Accepts new_hasher last_size digest digests right)
      where
        accepted :
            (blocks : List Block)
            → Accepts new_hasher blocks
            → verify sha512 verify_signature record {
              signed_head = record {
                block_size = size;
                public_key = public_key;
                injection_id = injection_id;
              };
              blocks = blocks;
            }
              ≡ true
        accepted [] h = absurd h
        accepted (b ∷ bs) h = h
