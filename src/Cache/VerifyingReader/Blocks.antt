-- ===== src/Cache/VerifyingReader/Blocks.antt =====
-- What the reader passes on at a chunk header is signed.
use ouinet.Prelude.{
  ℕ, ◌≡◌, refl, sym, ◌∙◌, subst, true, List, [], ◌∷◌, none, some, Bytes, length, is_empty, ltb, All,
  All-append, if_given, if_both, option_both, if◌then◌else◌,
}
use mathlib.Core.Option.{some-injective}
use ouinet.Cache.ChainHasher.{ChainHasher, signature, calculate_block, verify_chain_hash}
use ouinet.Cache.HttpSignature.{HeadLibrary}
use ouinet.Cache.SignedHead.{SignedHead}
use ouinet.Cache.ResponsePart.{
  ResponsePart, head_part, chunk_hdr, chunk_body, body_part, trailer_part, ReaderLibrary,
}
use ouinet.Cache.VerifyingReader.{
  VerifyingReader, Processed, bad_message, refused, processed, Read, failed, delivered, block_sig,
  with_prev_digest, after_block, verify_block, process_block, process_chunk_hdr,
}

-- Chunk headers, and what a body is made of.
abbrev pub IsHeader : ResponsePart → Type 0
IsHeader (head_part h) = ⊥
IsHeader (chunk_hdr size exts) = Unit
IsHeader (chunk_body ind remain) = ⊥
IsHeader (body_part ind) = ⊥
IsHeader (trailer_part t) = ⊥

abbrev pub IsOfBody : ResponsePart → Type 0
IsOfBody (head_part h) = ⊥
IsOfBody (chunk_hdr size exts) = Unit
IsOfBody (chunk_body ind remain) = Unit
IsOfBody (body_part ind) = Unit
IsOfBody (trailer_part t) = ⊥

-- The data of the parts, block by block.
abbrev pub blocks_of : List ResponsePart → List Bytes
blocks_of [] = []
blocks_of (head_part h ∷ ps) = blocks_of ps
blocks_of (chunk_hdr size exts ∷ ps) = blocks_of ps
blocks_of (chunk_body ind remain ∷ ps) = ind ∷ blocks_of ps
blocks_of (body_part ind ∷ ps) = ind ∷ blocks_of ps
blocks_of (trailer_part t ∷ ps) = blocks_of ps

module _ (lib : HeadLibrary) (io : ReaderLibrary) where
  abbrev pub chained : ChainHasher → Bytes → Bytes → ChainHasher
  chained h ind sig = (calculate_block io.sha512 h (length ind) (io.sha512 ind) (signature sig)).1

  -- The key of the head accepts a signature of the block behind what the hasher has seen.
  abbrev pub Accepts : SignedHead → ChainHasher → Bytes → Bytes → Type 0
  Accepts head h ind sig =
      verify_chain_hash lib.verify_signature
        (calculate_block io.sha512 h (length ind) (io.sha512 ind) (signature sig)).0 head.public_key
        head.injection_id
      ≡ true

  -- There are signatures of all blocks, one behind the other.
  abbrev pub IsChain : SignedHead → ChainHasher → List Bytes → Type 0
  IsChain head h [] = Unit
  IsChain head h (ind ∷ blocks) =
      (sig : Bytes) × Accepts head h ind sig × IsChain head (chained h ind sig) blocks

  abbrev pub Advances : SignedHead → ChainHasher → ChainHasher → ResponsePart → Type 0
  Advances head h h' (head_part inh) = ⊥
  Advances head h h' (chunk_hdr size exts) = h' ≡ h
  Advances head h h' (chunk_body ind remain) =
      (sig : Bytes) × Accepts head h ind sig × (h' ≡ chained h ind sig)
  Advances head h h' (body_part ind) = ⊥
  Advances head h h' (trailer_part t) = ⊥

  pub record Keeps (r r' : VerifyingReader) : Type 0 where
    pub same_head : r'.head ≡ r.head
    pub whole : r'.range ≡ none
    pub only_headers : All IsHeader r'.pending_parts

  abbrev pub IsRight : VerifyingReader → Processed → Type 0
  IsRight r (refused e) = Unit
  IsRight r (processed r' none) = Keeps r r' × (r'.chain_hasher ≡ r.chain_hasher)
  IsRight r (processed r' (some part)) =
      Keeps r r' × Advances r.head r.chain_hasher r'.chain_hasher part

  abbrev pub IsRightRead : VerifyingReader → Read → Type 0
  IsRightRead r (failed e) = Unit
  IsRightRead r (delivered r' input none) = Unit
  IsRightRead r (delivered r' input (some part)) =
      Keeps r r' × All IsOfBody input × Advances r.head r.chain_hasher r'.chain_hasher part

  pub verify_block-IsRight :
      (r : VerifyingReader) (size : ℕ) (sig : Bytes)
      → Keeps r r
      → IsRight r (verify_block lib io r size sig)
  unfolding verify_block after_block
  verify_block-IsRight r size sig k =
      if_given (IsRight r) _
        (processed (after_block lib io r size sig) (some (chunk_body r.block_data 0))) _
        (λ accepted. (
          record {
            same_head = refl;
            whole = k.whole;
            only_headers = All-append IsHeader r.pending_parts _ k.only_headers (tt, tt);
          },
          (sig, accepted, refl),
        ))
        (λ e. tt)

  pub with_prev_digest-whole :
      (r : VerifyingReader) (exts : Bytes)
      → r.range ≡ none
      → with_prev_digest lib io r exts ≡ some r
  unfolding with_prev_digest
  with_prev_digest-whole r exts h = rw h refl

  pub process_block-IsRight :
      (r : VerifyingReader) (size : ℕ) (exts : Bytes)
      → Keeps r r
      → IsRight r (process_block lib io r size exts)
  unfolding process_block
  process_block-IsRight r size exts k =
      option_both (IsRight r) (block_sig lib io exts) (refused bad_message) _ tt (λ sig e.
        option_both (IsRight r) (with_prev_digest lib io r exts) (refused bad_message)
          (λ (r' : VerifyingReader). verify_block lib io r' size sig) tt
          (λ r' e'.
            subst (λ (x : VerifyingReader). IsRight r (verify_block lib io x size sig))
              (some-injective _ _ (sym (with_prev_digest-whole r exts k.whole) ∙ e'))
              (verify_block-IsRight r size sig k)))

  pub process_chunk_hdr-IsRight :
      (r : VerifyingReader) (size : ℕ) (exts : Bytes)
      → Keeps r r
      → IsRight r (process_chunk_hdr lib io r size exts)
  unfolding process_chunk_hdr
  process_chunk_hdr-IsRight r size exts k =
      let pass = processed r (some (chunk_hdr size exts)) in
      let block = process_block lib io r size exts in
      if_both (IsRight r) (ltb r.head.block_size size) (refused bad_message)
        (if is_empty r.block_data then pass else block) tt
        (if_both (IsRight r) (is_empty r.block_data) pass block (k, refl)
          (process_block-IsRight r size exts k))
