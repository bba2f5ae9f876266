-- ===== src/Cache/SigningReader.antt =====
-- `SigningReader` of src/cache/http_sign.cpp, from the head on: how it cuts a body into blocks and signs
-- them. The input's data comes in parts of any sizes.
pub mod Wire
pub mod Reading
pub mod Cut
pub mod Steps
pub mod Parts
pub mod RoundTrip
use ouinet.Prelude.{
  ℕ, ◌+◌, ◌%◌, ◌^◌, Bool, true, false, not, List, [], ◌∷◌, ◌++◌, Option, none, some, Bytes, length,
  is_empty, ltb, if◌then◌else◌,
}
use ouinet.Http.{Fields, ResponseHeader}
use ouinet.Util.QuantizedBuffer.{QuantizedBuffer, put_data, get_quantum, get_rest}
use ouinet.Cache.ChainHasher.{ChainHash, ChainHasher, new_hasher, signer, calculate_block}
use ouinet.Cache.HttpSignature.{HeadLibrary}
use ouinet.Cache.HttpSignature.Signing.{Signer, http_injection_trailer}
use ouinet.Cache.SignedHead.{encode_key_id}
use ouinet.Cache.ResponsePart.{ResponsePart, chunk_hdr, chunk_body, trailer_part, ReaderLibrary}
use ouinet.Cache.VerifyingReader.{block_chunk_ext}

abbrev pub response_data_block : ℕ
response_data_block = 65536

pub record SigningReader : Type 0 where
  pub injection_id : Bytes
  pub chain_hasher : ChainHasher
  pub do_inject : Bool
  pub outh : ResponseHeader
  pub body_length : ℕ
  pub block_offset : ℕ
  pub block_size_last : ℕ
  -- What `_body_hash` was updated with, and `_block_hash` since it was closed.
  pub body : Bytes
  pub block : Bytes
  pub qbuf : QuantizedBuffer
  pub pending_parts : List ResponsePart
  pub trailer_in : Fields
  pub is_done : Bool

-- The reader behind the head, with the quantum of its buffer.
abbrev pub signing_reader : ℕ → Bytes → Bool → ResponseHeader → Fields → SigningReader
signing_reader size injection_id do_inject outh trailer_in = record {
  injection_id = injection_id;
  chain_hasher = new_hasher;
  do_inject = do_inject;
  outh = outh;
  body_length = 0;
  block_offset = 0;
  block_size_last = 0;
  body = [];
  block = [];
  qbuf = record { size = size; buf = [] };
  pending_parts = [];
  trailer_in = trailer_in;
  is_done = false;
}

module _ (lib : HeadLibrary) (io : ReaderLibrary) (key : Signer) where
  -- The chain hash of the last block.
  abbrev pub close_block : SigningReader → ChainHash × ChainHasher
  close_block s =
      calculate_block io.sha512 s.chain_hasher s.block_size_last (io.sha512 s.block)
        (signer s.injection_id key.sign)

  abbrev pub signed_ext : SigningReader → Bytes
  signed_ext s = block_chunk_ext lib io (some (close_block s).0.chain_signature) none

  -- A block of data to send: its chunk header has the signature of the block before.
  unfoldable pub send_block : SigningReader → Bytes → SigningReader × Option ResponsePart
  unfolding calculate_block block_chunk_ext
  send_block s data_block =
      let kept = record s { pending_parts = s.pending_parts ++ chunk_body data_block 0 ∷ [] } in
      let counted = record kept {
        block_offset = (s.block_offset + length data_block) % 2 ^ 64;
        block_size_last = length data_block;
      } in
      if is_empty data_block
      then (s, none)
      else if not s.do_inject
      then (kept, some (chunk_hdr (length data_block) []))
      else if ltb 0 s.block_offset
      then (
        record counted { chain_hasher = (close_block s).1; block = data_block },
        some (chunk_hdr (length data_block) (signed_ext s)),
      )
      else (
        record counted { block = s.block ++ data_block },
        some (chunk_hdr (length data_block) []),
      )

  -- `process_part` of data, which throws when the buffer is full.
  unfoldable pub sign_data : SigningReader → Bytes → Option (SigningReader × Option ResponsePart)
  unfolding send_block put_data get_quantum get_rest
  sign_data s inbuf = elim (put_data s.qbuf inbuf) [
    | none ↦ none
    | some qbuf ↦
        let got = if is_empty inbuf then get_rest qbuf else get_quantum qbuf in
        some (
          send_block
            (record s {
              body_length = (s.body_length + length inbuf) % 2 ^ 64;
              body = if s.do_inject then s.body ++ inbuf else s.body;
              qbuf = got.1;
            })
            got.0)
  ]

  -- The last chunk header and the trailer, at a time.
  unfoldable pub sign_last : ℕ → SigningReader → SigningReader × Option ResponsePart
  unfolding calculate_block block_chunk_ext
  sign_last ts s =
      if not s.do_inject
      then (
        record s {
          is_done = true;
          pending_parts = s.pending_parts ++ trailer_part s.trailer_in ∷ [];
        },
        some (chunk_hdr 0 []),
      )
      else (
        record s {
          is_done = true;
          chain_hasher = (close_block s).1;
          block = [];
          pending_parts =
              s.pending_parts
              ++ trailer_part (
                  http_injection_trailer lib key s.outh s.trailer_in s.body_length
                    (io.sha256 s.body) (encode_key_id lib key.public_key) ts)
                ∷ [];
        },
        some (chunk_hdr 0 (signed_ext s)),
      )

  abbrev pub or_last : ℕ → SigningReader × Option ResponsePart → SigningReader × Option ResponsePart
  or_last ts (s, some part) = (s, some part)
  or_last ts (s, none) = sign_last ts s

  -- `process_end`.
  unfoldable pub process_end : ℕ → SigningReader → Option (SigningReader × Option ResponsePart)
  unfolding sign_data sign_last
  process_end ts s =
      if s.is_done
      then some (s, none)
      else elim (sign_data s []) [ none ↦ none | some given ↦ some (or_last ts given) ]

  -- What the calls of `async_read_part` give for a part and for those that it leaves pending.
  abbrev pub give : SigningReader × Option ResponsePart → SigningReader × List ResponsePart
  give (s, none) = (s, [])
  give (s, some part) = (record s { pending_parts = [] }, part ∷ s.pending_parts)

  -- The calls at the end of the input: one for the rest of the data, if there is any, and the last one.
  unfoldable pub read_end : ℕ → SigningReader → Option (List ResponsePart)
  unfolding process_end
  read_end ts s = elim (process_end ts s) [
    | none ↦ none
    | some given ↦
        let (s', parts) = give given in
        if s'.is_done
        then some parts
        else elim (process_end ts s') [ none ↦ none | some last ↦ some (parts ++ (give last).1) ]
  ]

  -- The parts that `async_read_part` gives for the data of the input and its end.
  unfoldable pub read_data : ℕ → SigningReader → List Bytes → Option (List ResponsePart)
  unfolding sign_data read_end
  read_data ts s [] = read_end ts s
  read_data ts s (inbuf ∷ inbufs) = elim (sign_data s inbuf) [
    | none ↦ none
    | some given ↦
        let (s', parts) = give given in
        elim (read_data ts s' inbufs) [ none ↦ none | some rest ↦ some (parts ++ rest) ]
  ]
