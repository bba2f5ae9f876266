-- ===== src/Cache/SigningReader/Steps.antt =====
-- What a signing reader sends at each step.
use ouinet.Prelude.{
  ℕ, ◌+◌, ◌*◌, ◌%◌, ◌^◌, ◌<◌, ◌≡◌, refl, true, false, [], ◌∷◌, ◌++◌, none, some, Bytes, length,
  take, drop, is_empty, ltb, arith, append-nil,
}
use ouinet.Http.{Fields, ResponseHeader}
use ouinet.Util.QuantizedBuffer.{QuantizedBuffer, put_data, get_quantum, get_rest}
use ouinet.Cache.ChainHasher.{ChainHasher, new_hasher}
use ouinet.Cache.HttpSignature.{HeadLibrary}
use ouinet.Cache.HttpSignature.Signing.{Signer, http_injection_trailer}
use ouinet.Cache.SignedHead.{encode_key_id}
use ouinet.Cache.ResponsePart.{chunk_hdr, chunk_body, ReaderLibrary}
use ouinet.Cache.SigningReader.{SigningReader, send_block, sign_data, sign_last, process_end}
use ouinet.Cache.SigningReader.Wire.{signed_hash, ext_of}

-- A signing reader's fixed parts: the quantum of its buffer, the time of its end, the head and the trailer
-- of its input.
pub record Setup : Type 0 where
  pub lib : HeadLibrary
  pub io : ReaderLibrary
  pub key : Signer
  pub injection_id : Bytes
  pub size : ℕ
  pub ts : ℕ
  pub outh : ResponseHeader
  pub trailer_in : Fields

put_data-fits :
    (b : QuantizedBuffer) (source : Bytes)
    → ltb (2 * b.size) (length b.buf + length source) ≡ false
    → put_data b source ≡ some (record b { buf = b.buf ++ source })
unfolding put_data
put_data-fits b source h = rw h refl

get_quantum-less :
    (b : QuantizedBuffer) → ltb (length b.buf) b.size ≡ true → get_quantum b ≡ ([], b)
unfolding get_quantum
get_quantum-less b h = rw h refl

get_quantum-full :
    (b : QuantizedBuffer)
    → ltb (length b.buf) b.size ≡ false
    → get_quantum b ≡ (take b.size b.buf, record b { buf = drop b.size b.buf })
unfolding get_quantum
get_quantum-full b h = rw h refl

module _ (u : Setup) where
  -- A signing reader behind the block `block`.
  abbrev pub behind : ChainHasher → Bytes → ℕ → Bytes → ℕ → Bytes → SigningReader
  behind h block offset held body_length body = record {
    injection_id = u.injection_id;
    chain_hasher = h;
    do_inject = true;
    outh = u.outh;
    body_length = body_length;
    block_offset = offset;
    block_size_last = length block;
    body = body;
    block = block;
    qbuf = record { size = u.size; buf = held };
    pending_parts = [];
    trailer_in = u.trailer_in;
    is_done = false;
  }

  -- Data that does not fill a block.
  pub sign_data-held :
      (h : ChainHasher) (block : Bytes) (offset : ℕ) (held : Bytes) (n : ℕ) (body inbuf : Bytes)
      → is_empty inbuf ≡ false
      → ltb (2 * u.size) (length held + length inbuf) ≡ false
      → ltb (length (held ++ inbuf)) u.size ≡ true
      → sign_data u.lib u.io u.key (behind h block offset held n body) inbuf
        ≡ some (
          behind h block offset (held ++ inbuf) ((n + length inbuf) % 2 ^ 64) (body ++ inbuf),
          none,
        )
  unfolding sign_data send_block
  sign_data-held h block offset held n body inbuf full room less =
      rw
        (
          sign_data,
          put_data-fits (record { size = u.size; buf = held }) inbuf room,
          full,
          get_quantum-less (record { size = u.size; buf = held ++ inbuf }) less,
        )
        refl

  -- The reader that has a block to send.
  abbrev pub sending : ChainHasher → Bytes → ℕ → Bytes → ℕ → Bytes → SigningReader
  sending h block offset held n body = record (behind h block offset held n body) {
    pending_parts = chunk_body block 0 ∷ [];
  }

  pub send_block-behind :
      (h : ChainHasher) (block : Bytes) (offset : ℕ) (held : Bytes) (n : ℕ) (body next : Bytes)
      → is_empty next ≡ false
      → ltb 0 offset ≡ true
      → send_block u.lib u.io u.key (behind h block offset held n body) next ≡ (
        sending
            (signed_hash u.lib u.io u.key u.injection_id h block).1
            next
            ((offset + length next) % 2 ^ 64)
            held
            n
            body,
        some (chunk_hdr (length next) (ext_of u.lib u.io u.key u.injection_id h block)),
      )
  unfolding send_block
  send_block-behind h block offset held n body next full later = rw (full, later) refl

  pub send_block-first :
      (held : Bytes) (n : ℕ) (body next : Bytes)
      → is_empty next ≡ false
      → send_block u.lib u.io u.key (behind new_hasher [] 0 held n body) next ≡ (
        sending new_hasher next ((0 + length next) % 2 ^ 64) held n body,
        some (chunk_hdr (length next) []),
      )
  unfolding send_block
  send_block-first held n body next full = rw full refl

  -- What `sign_data` sends, if anything.
  pub sign_data-send_block :
      (h : ChainHasher) (block : Bytes) (offset : ℕ) (held : Bytes) (n : ℕ) (body inbuf : Bytes)
      → is_empty inbuf ≡ false
      → ltb (2 * u.size) (length held + length inbuf) ≡ false
      → ltb (length (held ++ inbuf)) u.size ≡ false
      → sign_data u.lib u.io u.key (behind h block offset held n body) inbuf
        ≡ some (
            send_block u.lib u.io u.key
              (behind h block offset
                (drop u.size (held ++ inbuf))
                ((n + length inbuf) % 2 ^ 64)
                (body ++ inbuf))
              (take u.size (held ++ inbuf)))
  unfolding sign_data
  sign_data-send_block h block offset held n body inbuf full room less =
      rw
        (
          sign_data,
          put_data-fits (record { size = u.size; buf = held }) inbuf room,
          full,
          get_quantum-full (record { size = u.size; buf = held ++ inbuf }) less,
        )
        refl

  -- At the end, what is held is sent.
  pub sign_data-rest :
      (h : ChainHasher) (block : Bytes) (offset : ℕ) (held : Bytes) (n : ℕ) (body : Bytes)
      → ltb (2 * u.size) (length held + 0) ≡ false
      → sign_data u.lib u.io u.key (behind h block offset held n body) []
        ≡ some (
            send_block u.lib u.io u.key
              (behind h block offset [] ((n + 0) % 2 ^ 64) (body ++ []))
              held)
  unfolding sign_data get_rest
  sign_data-rest h block offset held n body room =
      rw (sign_data, put_data-fits (record { size = u.size; buf = held }) [] room, append-nil held)
        refl

  abbrev pub trailer_of : ℕ → Bytes → Fields
  trailer_of n body =
      http_injection_trailer u.lib u.key u.outh u.trailer_in n (u.io.sha256 body)
        (encode_key_id u.lib u.key.public_key) u.ts

  pub process_end-empty :
      (h : ChainHasher) (block : Bytes) (offset n : ℕ) (body : Bytes)
      → process_end u.lib u.io u.key u.ts (behind h block offset [] n body)
        ≡ some (
            sign_last u.lib u.io u.key u.ts
              (behind h block offset [] ((n + 0) % 2 ^ 64) (body ++ [])))
  unfolding process_end send_block
  process_end-empty h block offset n body =
      rw (sign_data-rest h block offset [] n body (ground arith)) refl

  pub process_end-held :
      (h : ChainHasher) (block : Bytes) (offset : ℕ) (held : Bytes) (n : ℕ) (body : Bytes)
      → length held < u.size
      → is_empty held ≡ false
      → ltb 0 offset ≡ true
      → process_end u.lib u.io u.key u.ts (behind h block offset held n body)
        ≡ some (
          sending
              (signed_hash u.lib u.io u.key u.injection_id h block).1
              held
              ((offset + length held) % 2 ^ 64)
              []
              ((n + 0) % 2 ^ 64)
              (body ++ []),
          some (chunk_hdr (length held) (ext_of u.lib u.io u.key u.injection_id h block)),
        )
  unfolding process_end
  process_end-held h block offset held n body less full later =
      rw
        (
          sign_data-rest h block offset held n body (ground arith),
          send_block-behind h block offset [] ((n + 0) % 2 ^ 64) (body ++ []) held full later,
        )
        refl

  pub process_end-first :
      (held : Bytes) (n : ℕ) (body : Bytes)
      → length held < u.size
      → is_empty held ≡ false
      → process_end u.lib u.io u.key u.ts (behind new_hasher [] 0 held n body)
        ≡ some (
          sending new_hasher held ((0 + length held) % 2 ^ 64) [] ((n + 0) % 2 ^ 64) (body ++ []),
          some (chunk_hdr (length held) []),
        )
  unfolding process_end
  process_end-first held n body less full =
      rw
        (
          sign_data-rest new_hasher [] 0 held n body (ground arith),
          send_block-first [] ((n + 0) % 2 ^ 64) (body ++ []) held full,
        )
        refl
