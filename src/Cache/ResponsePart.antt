-- ===== src/Cache/ResponsePart.antt =====
-- `Part` of src/response_part.h: what the readers of a response pass on, and what Boost, the hashes and
-- the connection do for those readers.
use ouinet.Prelude.{ℕ, Bool, Option, Bytes}
use ouinet.Http.{Fields, ResponseHeader}

pub data ResponsePart : Type 0 where
  head_part : ResponseHeader → ResponsePart
  chunk_hdr : ℕ → Bytes → ResponsePart
  chunk_body : Bytes → ℕ → ResponsePart
  body_part : Bytes → ResponsePart
  trailer_part : Fields → ResponsePart

-- `HttpResponseByteRange`.
pub record ResponseRange : Type 0 where
  pub first : ℕ
  pub last : ℕ
  pub length : Option ℕ

pub record ReaderLibrary : Type 0 where
  -- The value of the first chunk extension with a name, as `http::chunk_extensions` parses them.
  pub chunk_extension : Bytes → Bytes → Option Bytes
  -- `base64_decode` to the array of a digest.
  pub decode_digest : Bytes → Option Bytes
  pub sha256 : Bytes → Bytes
  pub sha512 : Bytes → Bytes
  -- `Head::chunked` and `http::int_to_status(n) != unknown`.
  pub is_chunked : Fields → Bool
  pub is_known_status : ℕ → Bool
  -- `HttpResponseByteRange::parse`, which is a regular expression of Boost.
  pub parse_response_range : Bytes → Option ResponseRange
