-- ===== src/Tests/Signatures.antt =====
-- The signatures of heads and blocks at concrete inputs.
use ouinet.Prelude.{
  ◌≡◌, ◌≢◌, refl, ap, ◌⊎◌, inl, inr, true, not, List, [], ◌∷◌, ◌++◌, none, some, Bytes, codes, keep,
  map, take, drop, IsIn, IsIn-keep, Bool-cases, arith,
}
use ouinet.Bittorrent.NodeId.{id_eq}
use ouinet.Bittorrent.Storage.Keys.{id_eq_complete, id_key}
use ouinet.Prelude.Maps.{find}
use ouinet.Http.{Field, HeaderField, Fields, ResponseHeader}
use ouinet.Cache.HttpSignature.{HeadLibrary, has_named, flatten_header_values}
use ouinet.Cache.HttpSignature.Signing.{hdr_values}
use ouinet.Cache.HttpSignature.Agreement.{
  named_values, flatten_header_values-hdr_values, flatten_header_values-ne-hdr_values,
}
use ouinet.Http.Split.{split_string, split_string_pair, trim_back}
use ouinet.Prelude.Decimal.{to_string}
use ouinet.Prelude.Int.{pos}
use ouinet.Cache.HttpSignature.Signing.{Signer}
use ouinet.Cache.ResponsePart.{ResponsePart, chunk_hdr, chunk_body, trailer_part, ReaderLibrary}
use ouinet.Cache.VerifyingReader.{
  VerifyingReader, verifying_reader, block_chunk_ext, block_signature_ext, after_block,
}
use ouinet.Cache.VerifyingReader.Reading.{read_part}
use ouinet.Cache.ChainHasher.{new_hasher, calculate_block, verify_chain_hash, str_to_sign}
use ouinet.Cache.VerifyingReader.Blocks.{blocks_of, IsChain}
use ouinet.Cache.VerifyingReader.Verified.{Reads, stop, read, Reads-IsChain}
use ouinet.Cache.SigningReader.{signing_reader, read_data}
use ouinet.Cache.SigningReader.Wire.{SignatureLaws, signed_hash, ext_of}
use ouinet.Tests.CacheControl.{library}
use ouinet.Cache.SigningReader.Cut.{concat}
use ouinet.Cache.SigningReader.RoundTrip.{read_part-read_data}
use ouinet.Cache.SignedHead.{SignedHead, verify_head, unsigned_fields, head_to_verify}
use ouinet.Cache.SignedHead.Covered.{FieldLaws, IsCovered, IsOld, verify_head-IsCovered}

values_of : Fields → Bytes → List Bytes
values_of fs name =
    map (λ (h : HeaderField). h.value) (keep (λ (h : HeaderField). id_eq h.name name) fs)

-- Fields as a list, with names compared as they are, and a key that accepts what ends with it.
abbrev lib : HeadLibrary
lib = record {
  is_signature_name = λ n. id_eq (take 12 n) (codes "X-Ouinet-Sig");
  same_name = id_eq;
  insert_named = λ fs h. fs ++ h ∷ [];
  set_named = λ fs n v.
      keep (λ (h : HeaderField). not (id_eq h.name n)) fs
      ++ record { field = Field.unknown; name = n; value = v } ∷ [];
  erase_named = λ fs n. keep (λ (h : HeaderField). not (id_eq h.name n)) fs;
  values_named = values_of;
  unchunk = λ fs. fs;
  base64_encode = λ b. b;
  decode_signature = λ b. some b;
  decode_key = λ b. some b;
  verify_signature = λ pk m s. id_eq s m;
}

abbrev field : Bytes → Bytes → HeaderField
field n v = record { field = Field.unknown; name = n; value = v }

has_front : (fs : Fields) (g : HeaderField) → has_named lib (fs ++ g ∷ []) g.name ≡ true
unfolding values_of
has_front [] g = ground (arith, id_eq_complete g.name g.name refl)
has_front (h ∷ fs) g = ground (arith, has_front fs g)

has_still :
    (fs : Fields) (g : HeaderField) (n : Bytes)
    → has_named lib fs n ≡ true
    → has_named lib (fs ++ g ∷ []) n ≡ true
unfolding values_of
has_still [] g n h = absurd (ground arith)
has_still (h' ∷ fs) g n h = ground (arith, has_still fs g n)

in_append : (fs : Fields) (g h : HeaderField) → IsIn h (fs ++ g ∷ []) → IsIn h fs ⊎ (h ≡ g)
in_append [] g h (inl e) = inr e
in_append [] g h (inr e) = absurd e
in_append (x ∷ fs) g h (inl e) = inl (inl e)
in_append (x ∷ fs) g h (inr i) = elim (in_append fs g h i) [ inl j ↦ inl (inr j) | inr e ↦ inr e ]

laws : FieldLaws lib
laws = record {
  same_refl = λ n. id_eq_complete n n refl;
  erased = λ fs n h i.
      let k = IsIn-keep (λ (x : HeaderField). not (id_eq x.name n)) fs h i in
      (k.0, elim (Bool-cases (id_eq h.name n)) [ inl e ↦ cc (k.1, e) | inr e ↦ e ]);
  inserted = in_append;
  named = has_front;
  still_named = has_still;
}

abbrev foo : HeaderField
foo = field (codes "X-Foo") (codes "bar")

abbrev rsh : ResponseHeader
rsh = record {
  status = 200;
  fields =
      foo
      ∷ field (codes "X-Bad") (codes "unsigned")
      ∷ field (codes "X-Ouinet-Sig7")
          (codes "keyId=\"ed25519=k\",headers=\"X-Foo\",signature=\"X-Foo: bar\"")
      ∷ [];
}

abbrev verified : ResponseHeader
verified = record {
  status = 200;
  fields =
      foo
      ∷ field (codes "X-Ouinet-Sig0")
          (codes "keyId=\"ed25519=k\",headers=\"X-Foo\",signature=\"X-Foo: bar\"")
      ∷ [];
}

verify_head-rsh : verify_head lib rsh (codes "k") ≡ some verified
unfolding verify_head values_of id_eq split_string split_string_pair trim_back to_string
verify_head-rsh = refl

verify_head-IsCovered_example :
    IsOld lib laws (unsigned_fields lib rsh) foo
    × (IsIn foo (unsigned_fields lib rsh)
        → IsIn foo (head_to_verify lib rsh).fields
        → IsCovered lib (head_to_verify lib rsh) (codes "k") (codes "X-Foo"))
verify_head-IsCovered_example =
    verify_head-IsCovered lib laws rsh (codes "k") verified foo verify_head-rsh (inl refl)

abbrev twice : Fields
twice = field (codes "x") (codes "a") ∷ field (codes "x") (codes " b") ∷ []

abbrev half_blank : Fields
half_blank = field (codes "x") [] ∷ field (codes "x") (codes "b") ∷ []

flatten_header_values-hdr_values_example :
    flatten_header_values lib twice (codes "x") ≡ find (hdr_values (λ n. n) [] twice) (codes "x")
unfolding values_of named_values trim_back id_eq
flatten_header_values-hdr_values_example =
    flatten_header_values-hdr_values lib (λ n. n) twice (codes "x") (codes "a") (codes " b" ∷ [])
      refl refl refl

flatten_header_values-ne-hdr_values_example :
    flatten_header_values lib half_blank (codes "x")
    ≢ find (hdr_values (λ n. n) [] half_blank) (codes "x")
unfolding values_of named_values trim_back id_eq
flatten_header_values-ne-hdr_values_example =
    flatten_header_values-ne-hdr_values lib (λ n. n) half_blank (codes "x") [] (codes "b") [] refl
      refl refl

without_last : Bytes → Bytes
without_last [] = []
without_last (b ∷ []) = []
without_last (b ∷ c ∷ s) = b ∷ without_last (c ∷ s)

abbrev io : ReaderLibrary
io = record {
  chunk_extension = λ xs name. some (without_last (drop 9 xs));
  decode_digest = λ b. some b;
  sha256 = λ b. take 32 b;
  sha512 = λ b. take 64 b;
  is_chunked = λ fs. true;
  is_known_status = λ n. true;
  parse_response_range = λ b. none;
}

abbrev key : Signer
key = record { to_lower = λ n. n; public_key = codes "k"; sign = λ m. m }

without_last-quoted : (s : Bytes) → without_last ((s ++ b'"' ∷ []) ++ []) ≡ s
unfolding without_last
without_last-quoted [] = refl
without_last-quoted (b ∷ []) = refl
without_last-quoted (b ∷ c ∷ s) = ap (◌∷◌ b) (without_last-quoted (c ∷ s))

signature_laws : SignatureLaws lib io key (codes "id") (codes "k")
unfolding block_chunk_ext
signature_laws = record {
  ext_found = found;
  decoded = λ m. refl;
  accepted = λ m. id_eq_complete m m refl;
}
  where
    found :
        (s : Bytes)
        → io.chunk_extension (block_chunk_ext lib io (some s) none) block_signature_ext ≡ some s
    found s = ap some (without_last-quoted s)

abbrev head : SignedHead
head = record {
  head = verified;
  injection_id = codes "id";
  injection_ts = pos 1;
  uri = codes "u";
  public_key = codes "k";
  block_size = 3;
}

abbrev body : List Bytes
body = codes "ab" ∷ codes "cde" ∷ codes "f" ∷ []

read_part-read_data_example :
    (parts : List ResponsePart) × (trailer : Fields) × (out : List ResponsePart)
    × (r : VerifyingReader) × (read_data lib io key 1
          (signing_reader 3 (codes "id") true verified [])
          body
        ≡ some (parts ++ trailer_part trailer ∷ []))
    × Reads library lib io
        (verifying_reader (codes "k") [] head)
        (parts ++ trailer_part trailer ∷ [])
        out
        r
        (trailer_part trailer ∷ [])
    × (concat (blocks_of out) ≡ codes "abcdef")
read_part-read_data_example =
    read_part-read_data library lib io key (codes "k") 1 verified [] [] head body signature_laws
      refl (omega arith) ((refl, omega arith), ((refl, omega arith), ((refl, omega arith), tt)))
      (omega arith)

abbrev signed_body : List ResponsePart
signed_body =
    chunk_hdr 2 []
    ∷ chunk_body (codes "ab") 0
    ∷ chunk_hdr 0 (ext_of lib io key (codes "id") new_hasher (codes "ab"))
    ∷ chunk_hdr 0 []
    ∷ []

reads_block :
    Reads library lib io
      (verifying_reader (codes "k") [] head)
      signed_body
      (chunk_hdr 2 [] ∷ chunk_body (codes "ab") 0 ∷ [])
      (after_block lib io
        (record (verifying_reader (codes "k") [] head) {
          block_data = codes "ab";
          body = codes "ab";
          body_length = 2;
        })
        0
        (signed_hash lib io key (codes "id") new_hasher (codes "ab")).0.chain_signature)
      (chunk_hdr 0 [] ∷ [])
unfolding read_part block_chunk_ext calculate_block verify_chain_hash str_to_sign id_eq to_string
    without_last
reads_block = read (chunk_hdr 2 []) refl (read (chunk_body (codes "ab") 0) refl stop)

Reads-IsChain_example : IsChain lib io head new_hasher (codes "ab" ∷ [])
Reads-IsChain_example =
    Reads-IsChain library lib io reads_block refl refl (tt, (tt, (tt, (tt, tt))))
