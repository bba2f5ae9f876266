-- ===== src/Cache/SigningReader/Reading.antt =====
-- How a verifying reader takes in the parts of a signed body.
use ouinet.Prelude.{
  ℕ, ◌+◌, ◌%◌, ◌^◌, ◌≡◌, refl, ap, true, false, List, [], ◌∷◌, ◌++◌, Option, none, some, Bytes,
  length, is_empty, ltb, All, arith,
}
use ouinet.Http.{Library}
use ouinet.Cache.ChainHasher.{
  ChainHasher, new_hasher, calculate_block, verify_chain_hash, str_to_sign,
}
use ouinet.Cache.HttpSignature.{HeadLibrary}
use ouinet.Cache.HttpSignature.Signing.{Signer}
use ouinet.Cache.SignedHead.{SignedHead}
use ouinet.Cache.ResponsePart.{ResponsePart, chunk_hdr, chunk_body, ReaderLibrary}
use ouinet.Cache.VerifyingReader.{
  VerifyingReader, processed, delivered, block_chunk_ext, block_arrattr, block_sig,
  with_prev_digest, after_block, verify_block, process_block, process_chunk_hdr, process_data,
}
use ouinet.Cache.VerifyingReader.Reading.{process_part, deliver, read_loop, read_part}
use ouinet.Cache.VerifyingReader.Verified.{Reads, stop, read}
use ouinet.Cache.VerifyingReader.Blocks.{blocks_of}
use ouinet.Cache.SigningReader.Wire.{SignatureLaws, signed_hash, ext_of, wire_from, wire}

module _ (lib : HeadLibrary) (io : ReaderLibrary) (key : Signer) (injection_id pk : Bytes)
    (laws : SignatureLaws lib io key injection_id pk) where
  block_sig-ext_of :
      (h : ChainHasher) (block : Bytes)
      → block_sig lib io (ext_of lib io key injection_id h block)
        ≡ some (signed_hash lib io key injection_id h block).0.chain_signature
  unfolding block_arrattr block_chunk_ext calculate_block
  block_sig-ext_of h block =
      rw (laws.ext_found (signed_hash lib io key injection_id h block).0.chain_signature) (
        laws.decoded (
          str_to_sign injection_id h.offset
            (signed_hash lib io key injection_id h block).0.chain_digest))

  verify_signed_hash :
      (h : ChainHasher) (block : Bytes)
      → verify_chain_hash lib.verify_signature
          (signed_hash lib io key injection_id h block).0
          pk
          injection_id
        ≡ true
  unfolding calculate_block verify_chain_hash
  verify_signed_hash h block = laws.accepted _

  -- A reader between two blocks of a whole response.
  module _ (statuses : List ℕ) (head : SignedHead) (keys : head.public_key ≡ pk)
      (ids : head.injection_id ≡ injection_id) where
    abbrev pub reading : ChainHasher → ℕ → Option Bytes → ℕ → Bytes → VerifyingReader
    reading h offset digest body_length body = record {
      pk = pk;
      statuses = statuses;
      head = head;
      range = none;
      block_offset = offset;
      block_data = [];
      chain_hasher = h;
      prev_block_dig = digest;
      pending_parts = [];
      body_length = body_length;
      body = body;
      is_done = false;
    }

    -- The reader that has taken in a block.
    abbrev holding : ChainHasher → ℕ → Option Bytes → ℕ → Bytes → Bytes → VerifyingReader
    holding h offset digest body_length body block =
        record (reading h offset digest (body_length + length block) (body ++ block)) {
          block_data = block;
        }

    process_block-signed :
        (h : ChainHasher) (offset : ℕ) (digest : Option Bytes) (n : ℕ) (body block : Bytes)
        (size : ℕ)
        → process_block lib io
            (holding h offset digest n body block)
            size
            (ext_of lib io key injection_id h block)
          ≡ processed
              (after_block lib io
                (holding h offset digest n body block)
                size
                (signed_hash lib io key injection_id h block).0.chain_signature)
              (some (chunk_body block 0))
    unfolding process_block verify_block with_prev_digest calculate_block
    process_block-signed h offset digest n body block size =
        rw (block_sig-ext_of h block, keys, ids, verify_signed_hash h block) refl

    process_data-block :
        (h : ChainHasher) (offset : ℕ) (digest : Option Bytes) (n : ℕ) (body block : Bytes)
        → ltb head.block_size (length block) ≡ false
        → process_data (reading h offset digest n body) block
          ≡ processed (holding h offset digest n body block) none
    unfolding process_data
    process_data-block h offset digest n body block fits = ground arith

    process_chunk_hdr-block :
        (h : ChainHasher) (offset : ℕ) (digest : Option Bytes) (n : ℕ) (body block : Bytes)
        (size : ℕ)
        → is_empty block ≡ false
        → ltb head.block_size size ≡ false
        → process_chunk_hdr lib io
            (holding h offset digest n body block)
            size
            (ext_of lib io key injection_id h block)
          ≡ processed
              (after_block lib io
                (holding h offset digest n body block)
                size
                (signed_hash lib io key injection_id h block).0.chain_signature)
              (some (chunk_body block 0))
    unfolding process_chunk_hdr
    process_chunk_hdr-block h offset digest n body block size full next =
        rw (next, full) (process_block-signed h offset digest n body block size)

    module _ (http : Library) where
      -- A block and the chunk header behind it: the block is passed on, and then the header.
      read_part-block :
          (h : ChainHasher) (offset : ℕ) (digest : Option Bytes) (n : ℕ) (body block : Bytes)
          (size : ℕ) (x : ResponsePart) (input : List ResponsePart)
          → is_empty block ≡ false
          → ltb head.block_size (length block) ≡ false
          → ltb head.block_size size ≡ false
          → read_part http lib io (reading h offset digest n body) (
              chunk_body block 0
              ∷ chunk_hdr size (ext_of lib io key injection_id h block)
              ∷ x
              ∷ input)
            ≡ delivered
                (after_block lib io
                  (holding h offset digest n body block)
                  size
                  (signed_hash lib io key injection_id h block).0.chain_signature)
                (x ∷ input)
                (some (chunk_body block 0))
      unfolding read_part read_loop process_part deliver
      read_part-block h offset digest n body block size x input full fits next =
          rw
            (
              process_data-block h offset digest n body block fits,
              read_loop,
              process_chunk_hdr-block h offset digest n body block size full next,
              deliver,
            )
            refl

      read_part-pending :
          (h : ChainHasher) (offset : ℕ) (digest : Option Bytes) (n : ℕ) (body block : Bytes)
          (size : ℕ) (x : ResponsePart) (input : List ResponsePart)
          → read_part http lib io
              (after_block lib io
                (holding h offset digest n body block)
                size
                (signed_hash lib io key injection_id h block).0.chain_signature)
              (x ∷ input)
            ≡ delivered
                (reading
                  (signed_hash lib io key injection_id h block).1
                  ((offset + length block) % 2 ^ 64)
                  (some (signed_hash lib io key injection_id h block).0.chain_digest)
                  (n + length block)
                  (body ++ block))
                (x ∷ input)
                (some (
                  chunk_hdr size (
                    block_chunk_ext lib io
                      (some (signed_hash lib io key injection_id h block).0.chain_signature)
                      digest)))
      unfolding read_part deliver after_block calculate_block
      read_part-pending h offset digest n body block size x input = refl

      abbrev pub IsBlock : Bytes → Type 0
      IsBlock block = (is_empty block ≡ false) × (ltb head.block_size (length block) ≡ false)

      -- The rest of a wire lib io key injection_id is read to its end, and gives its blocks.
      read_wire_from :
          (h : ChainHasher) (offset : ℕ) (digest : Option Bytes) (n : ℕ) (body block : Bytes)
          (blocks : List Bytes) (x : ResponsePart) (input : List ResponsePart)
          → All IsBlock (block ∷ blocks)
          → (out : List ResponsePart) × (r : VerifyingReader) × Reads http lib io
              (reading h offset digest n body)
              (chunk_body block 0 ∷ (wire_from lib io key injection_id h block blocks ++ x ∷ input))
              out
              r
              (x ∷ input)
            × (blocks_of out ≡ block ∷ blocks)
      unfolding wire_from
      read_wire_from h offset digest n body block [] x input (b, bs) = (
        _,
        _,
        read (chunk_body block 0)
            (read_part-block h offset digest n body block 0 x input b.0 b.1 (ground arith))
            (read _ (read_part-pending h offset digest n body block 0 x input) stop),
        refl,
      )
      read_wire_from h offset digest n body block (next ∷ blocks) x input (b, bs) =
          let (out, r, reads, same) =
            read_wire_from (signed_hash lib io key injection_id h block).1
              ((offset + length block) % 2 ^ 64)
              (some (signed_hash lib io key injection_id h block).0.chain_digest) (n + length block)
              (body ++ block) next blocks x input bs in
          (
            _,
            r,
            read (chunk_body block 0)
                (read_part-block h offset digest n body block (length next) (chunk_body next 0)
                  (wire_from lib io key injection_id (signed_hash lib io key injection_id h block).1
                      next blocks
                    ++ x ∷ input)
                  b.0 b.1 bs.0.1)
                (read _
                  (read_part-pending h offset digest n body block (length next) (chunk_body next 0)
                    (wire_from lib io key injection_id
                        (signed_hash lib io key injection_id h block).1 next blocks
                      ++ x ∷ input))
                  reads),
            ap (◌∷◌ block) same,
          )

      process_chunk_hdr-pass :
          (size : ℕ) (exts : Bytes)
          → ltb head.block_size size ≡ false
          → process_chunk_hdr lib io (reading new_hasher 0 none 0 []) size exts
            ≡ processed (reading new_hasher 0 none 0 []) (some (chunk_hdr size exts))
      unfolding process_chunk_hdr
      process_chunk_hdr-pass size exts fits = rw fits refl

      -- A header is passed on when no data is held.
      read_part-hdr :
          (size : ℕ) (exts : Bytes) (x : ResponsePart) (input : List ResponsePart)
          → ltb head.block_size size ≡ false
          → read_part http lib io (reading new_hasher 0 none 0 []) (chunk_hdr size exts ∷ x ∷ input)
            ≡ delivered (reading new_hasher 0 none 0 []) (x ∷ input) (some (chunk_hdr size exts))
      unfolding read_part read_loop process_part deliver
      read_part-hdr size exts x input fits =
          rw (read_loop, process_chunk_hdr-pass size exts fits, deliver) refl

      pub read_wire :
          (blocks : List Bytes) (x : ResponsePart) (input : List ResponsePart)
          → All IsBlock blocks
          → (out : List ResponsePart) × (r : VerifyingReader) × Reads http lib io
              (reading new_hasher 0 none 0 [])
              (wire lib io key injection_id blocks ++ x ∷ input)
              out
              r
              (x ∷ input)
            × (blocks_of out ≡ blocks)
      unfolding wire
      read_wire [] x input h = (
        _,
        _,
        read _
            (read_part-hdr 0 (ext_of lib io key injection_id new_hasher []) x input (ground arith))
            stop,
        refl,
      )
      read_wire (block ∷ blocks) x input h =
          let (out, r, reads, same) =
            read_wire_from new_hasher 0 none 0 [] block blocks x input h in
          (
            _,
            r,
            read _
                (read_part-hdr (length block) [] (chunk_body block 0)
                  (wire_from lib io key injection_id new_hasher block blocks ++ x ∷ input) h.0.1)
                reads,
            same,
          )
