-- ===== src/Cache/VerifyingReader.antt =====
-- `VerifyingReader` of src/cache/http_sign.cpp: the reader that passes on signed blocks only. The reader under
-- it is the list of the parts that it is going to give; it is done when there are no more.
pub mod Reading
pub mod Blocks
pub mod Verified
use ouinet.Prelude.{
  ℕ, zero, suc, ◌+◌, ◌-◌, ◌%◌, ◌^◌, Bool, true, false, not, ◌&&◌, ◌||◌, List, [], ◌∷◌, ◌++◌, Option,
  none, some, Bytes, codes, length, any, is_empty, ltb, ◌==◌, if◌then◌else◌,
}
use ouinet.Prelude.Decimal.{to_string}
use ouinet.Parse.Number.{Width, eight_bytes, four_bytes, number}
use ouinet.Bittorrent.NodeId.{id_eq}
use ouinet.Http.{HeaderField, Fields, ResponseHeader, Library}
use ouinet.Http.Split.{split_string_pair}
use ouinet.Http.Ranges.{matches_length_text}
use ouinet.Http.Injection.{header_prefix, field_named}
use ouinet.Cache.ChainHasher.{
  ChainHash, ChainHasher, new_hasher, signature, calculate_block, verify_chain_hash,
}
use ouinet.Cache.HttpSignature.{HeadLibrary, insert_all}
use ouinet.Cache.SignedHead.{SignedHead, verify_and_create, is_signature}
use ouinet.Cache.ResponsePart.{
  ResponsePart, head_part, chunk_hdr, chunk_body, body_part, trailer_part, ResponseRange,
  ReaderLibrary,
}

-- The errors that the reader sets.
pub data Errc : Type 0 where
  no_message bad_message : Errc

pub record VerifyingReader : Type 0 where
  pub pk : Bytes
  pub statuses : List ℕ
  pub head : SignedHead
  -- `_range_begin` and `_range_end`, which are set together.
  pub range : Option (ℕ × ℕ)
  pub block_offset : ℕ
  pub block_data : Bytes
  pub chain_hasher : ChainHasher
  pub prev_block_dig : Option Bytes
  pub pending_parts : List ResponsePart
  pub body_length : ℕ
  -- What `_body_hash` was updated with.
  pub body : Bytes
  pub is_done : Bool

-- The reader behind the head of a whole response.
abbrev pub verifying_reader : Bytes → List ℕ → SignedHead → VerifyingReader
verifying_reader pk statuses head = record {
  pk = pk;
  statuses = statuses;
  head = head;
  range = none;
  block_offset = 0;
  block_data = [];
  chain_hasher = new_hasher;
  prev_block_dig = none;
  pending_parts = [];
  body_length = 0;
  body = [];
  is_done = false;
}

-- The result of a `process_part`.
pub data Processed : Type 0 where
  refused : Errc → Processed
  processed : VerifyingReader → Option ResponsePart → Processed

-- The result of `async_read_part`: an error, or the reader, what is left of the input, and a part.
pub data Read : Type 0 where
  failed : Errc → Read
  delivered : VerifyingReader → List ResponsePart → Option ResponsePart → Read

abbrev pub original_http_status : Bytes
original_http_status = header_prefix ++ codes "HTTP-Status"

abbrev pub data_size_hdr : Bytes
data_size_hdr = header_prefix ++ codes "Data-Size"

abbrev pub content_range : Bytes
content_range = codes "Content-Range"

abbrev pub quoted : Bytes → Bytes → Bytes
quoted name value = codes ";" ++ (name ++ (codes "=\"" ++ (value ++ codes "\"")))

abbrev pub block_signature_ext : Bytes
block_signature_ext = codes "ouisig"

abbrev pub block_chain_hash_ext : Bytes
block_chain_hash_ext = codes "ouihash"

module _ (lib : HeadLibrary) (io : ReaderLibrary) where
  abbrev pub encoded_ext : Bytes → Option Bytes → Bytes
  encoded_ext name none = []
  encoded_ext name (some bytes) = quoted name (lib.base64_encode bytes)

  -- `block_chunk_ext`.
  unfoldable pub block_chunk_ext : Option Bytes → Option Bytes → Bytes
  block_chunk_ext sig prev_digest =
      encoded_ext block_signature_ext sig ++ encoded_ext block_chain_hash_ext prev_digest

  -- `block_arrattr_from_exts`, for a signature and for a digest.
  unfoldable pub block_arrattr : (Bytes → Option Bytes) → Bytes → Bytes → Option Bytes
  block_arrattr decode xs name =
      if is_empty xs
      then none
      else elim (io.chunk_extension xs name) [ none ↦ none | some value ↦ decode value ]

  abbrev pub block_sig : Bytes → Option Bytes
  block_sig xs = block_arrattr lib.decode_signature xs block_signature_ext

  abbrev pub block_dig : Bytes → Option Bytes
  block_dig xs = block_arrattr io.decode_digest xs block_chain_hash_ext

  abbrev pub starts_range : VerifyingReader → Bool
  starts_range r = elim r.range [
    | none ↦ false
    | some range ↦ ltb 0 r.block_offset && (r.block_offset == range.0)
  ]

  -- The chain hash that a range needs for its first block.
  unfoldable pub with_prev_digest : VerifyingReader → Bytes → Option VerifyingReader
  unfolding block_arrattr
  with_prev_digest r exts = if not (starts_range r) then some r else elim (block_dig exts) [
    | none ↦ none
    | some digest ↦ some (record r {
      prev_block_dig = some digest;
      chain_hasher = record r.chain_hasher {
        prev_chained_digest = some digest;
        offset = r.block_offset;
      };
    })
  ]

  abbrev pub chain_block : VerifyingReader → Bytes → ChainHash × ChainHasher
  chain_block r sig =
      calculate_block io.sha512 r.chain_hasher (length r.block_data) (io.sha512 r.block_data)
        (signature sig)

  -- The reader behind a block that is passed on before its chunk header.
  unfoldable pub after_block : VerifyingReader → ℕ → Bytes → VerifyingReader
  unfolding block_chunk_ext
  after_block r size sig = record r {
    chain_hasher = (chain_block r sig).1;
    block_offset = (r.block_offset + length r.block_data) % 2 ^ 64;
    pending_parts =
        r.pending_parts ++ chunk_hdr size (block_chunk_ext (some sig) r.prev_block_dig) ∷ [];
    prev_block_dig = some (chain_block r sig).0.chain_digest;
    block_data = [];
  }

  -- The check of a whole block.
  unfoldable pub verify_block : VerifyingReader → ℕ → Bytes → Processed
  unfolding after_block
  verify_block r size sig =
      let hash = (chain_block r sig).0 in
      if verify_chain_hash lib.verify_signature hash r.head.public_key r.head.injection_id
      then processed (after_block r size sig) (some (chunk_body r.block_data 0))
      else refused bad_message

  -- The part of `process_part` from the signature on.
  unfoldable pub process_block : VerifyingReader → ℕ → Bytes → Processed
  unfolding verify_block with_prev_digest
  process_block r size exts = elim (block_sig exts) [
    | none ↦ refused bad_message
    | some sig ↦ elim (with_prev_digest r exts) [
      | none ↦ refused bad_message
      | some r' ↦ verify_block r' size sig
    ]
  ]

  -- `process_part` of a chunk header.
  unfoldable pub process_chunk_hdr : VerifyingReader → ℕ → Bytes → Processed
  unfolding process_block
  process_chunk_hdr r size exts =
      if ltb r.head.block_size size
      then refused bad_message
      else if is_empty r.block_data
      then processed r (some (chunk_hdr size exts))
      else process_block r size exts

-- `process_part` of data.
unfoldable pub process_data : VerifyingReader → Bytes → Processed
process_data r ind =
    if ltb r.head.block_size (length r.block_data + length ind)
    then refused bad_message
    else processed
        (record r {
          body_length = r.body_length + length ind;
          body = r.body ++ ind;
          block_data = r.block_data ++ ind;
        })
        none
