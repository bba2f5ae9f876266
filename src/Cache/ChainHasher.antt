-- ===== src/Cache/ChainHasher.antt =====
-- src/cache/chain_hasher.h. SHA-512 and the signature scheme of gcrypt are parameters; a digest and a
-- signature are their 64 bytes.
use ouinet.Prelude.{ℕ, ◌+◌, ◌%◌, ◌^◌, Bool, [], ◌∷◌, ◌++◌, Option, none, some, Bytes}
use ouinet.Prelude.Decimal.{to_string}

pub record ChainHash : Type 0 where
  pub offset : ℕ
  pub chain_digest : Bytes
  pub chain_signature : Bytes

-- `ChainHash::str_to_sign`.
unfoldable pub str_to_sign : Bytes → ℕ → Bytes → Bytes
str_to_sign injection_id offset digest = injection_id ++ 0 ∷ (to_string offset ++ 0 ∷ digest)

-- `ChainHash::verify`.
unfoldable pub verify_chain_hash : (Bytes → Bytes → Bytes → Bool) → ChainHash → Bytes → Bytes → Bool
verify_chain_hash verify_signature h public_key injection_id =
    verify_signature public_key (str_to_sign injection_id h.offset h.chain_digest) h.chain_signature

-- `SigOrSigner`: a signature, or an injection with what its key signs.
pub data SigOrSigner : Type 0 where
  signature : Bytes → SigOrSigner
  signer : Bytes → (Bytes → Bytes) → SigOrSigner

abbrev pub signature_of : SigOrSigner → ℕ → Bytes → Bytes
signature_of (signature s) offset digest = s
signature_of (signer injection_id sign) offset digest =
    sign (str_to_sign injection_id offset digest)

pub record ChainHasher : Type 0 where
  pub offset : ℕ
  pub prev_chained_digest : Option Bytes
  pub prev_chained_signature : Option Bytes

abbrev pub new_hasher : ChainHasher
new_hasher = record { offset = 0; prev_chained_digest = none; prev_chained_signature = none }

abbrev pub bytes_of : Option Bytes → Bytes
bytes_of none = []
bytes_of (some s) = s

-- `calculate_block`; `size_t` wraps around.
unfoldable pub calculate_block :
    (Bytes → Bytes) → ChainHasher → ℕ → Bytes → SigOrSigner → ChainHash × ChainHasher
calculate_block sha512 h data_size data_digest sig_or_signer =
    let chained_digest =
      sha512
        (bytes_of h.prev_chained_signature ++ (bytes_of h.prev_chained_digest ++ data_digest)) in
    let chained_signature = signature_of sig_or_signer h.offset chained_digest in
    (
      record {
        offset = h.offset;
        chain_digest = chained_digest;
        chain_signature = chained_signature;
      },
      record {
        offset = (h.offset + data_size) % 2 ^ 64;
        prev_chained_digest = some chained_digest;
        prev_chained_signature = some chained_signature;
      },
    )
