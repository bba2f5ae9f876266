-- ===== src/Cache/SigningReader/Wire.antt =====
-- The parts of a signed body, block by block, and how a verifying reader takes them in.
use ouinet.Prelude.{◌≡◌, true, List, [], ◌∷◌, none, some, Bytes, length}
use ouinet.Cache.ChainHasher.{ChainHash, ChainHasher, new_hasher, signer, calculate_block}
use ouinet.Cache.HttpSignature.{HeadLibrary}
use ouinet.Cache.HttpSignature.Signing.{Signer}
use ouinet.Cache.ResponsePart.{ResponsePart, chunk_hdr, chunk_body, ReaderLibrary}
use ouinet.Cache.VerifyingReader.{block_chunk_ext, block_signature_ext}

module _ (lib : HeadLibrary) (io : ReaderLibrary) (key : Signer) (injection_id : Bytes) where
  abbrev pub signed_hash : ChainHasher → Bytes → ChainHash × ChainHasher
  signed_hash h block =
      calculate_block io.sha512 h (length block) (io.sha512 block) (signer injection_id key.sign)

  abbrev pub ext_of : ChainHasher → Bytes → Bytes
  ext_of h block = block_chunk_ext lib io (some (signed_hash h block).0.chain_signature) none

  -- The parts behind a block, which has its signature in the next chunk header.
  unfoldable pub wire_from : ChainHasher → Bytes → List Bytes → List ResponsePart
  wire_from h block [] = chunk_hdr 0 (ext_of h block) ∷ []
  wire_from h block (next ∷ blocks) =
      chunk_hdr (length next) (ext_of h block)
      ∷ chunk_body next 0
      ∷ wire_from (signed_hash h block).1 next blocks

  unfoldable pub wire : List Bytes → List ResponsePart
  unfolding wire_from
  wire [] = chunk_hdr 0 (ext_of new_hasher []) ∷ []
  wire (block ∷ blocks) =
      chunk_hdr (length block) [] ∷ chunk_body block 0 ∷ wire_from new_hasher block blocks

  -- What the chunk extensions, base64 and the signature scheme promise.
  pub record SignatureLaws (pk : Bytes) : Type 0 where
    pub ext_found :
        (s : Bytes)
        → io.chunk_extension (block_chunk_ext lib io (some s) none) block_signature_ext
          ≡ some (lib.base64_encode s)
    pub decoded :
        (m : Bytes) → lib.decode_signature (lib.base64_encode (key.sign m)) ≡ some (key.sign m)
    pub accepted : (m : Bytes) → lib.verify_signature pk m (key.sign m) ≡ true
