-- ===== src/Cache/SignedHead.antt =====
-- src/cache/signed_head.h and signed_head.cpp: the head of a signed response, as it is read and checked.
-- `int` counters of signatures do not reach their bound.
pub mod Covered
use ouinet.Prelude.{
  ℕ, zero, suc, ◌+◌, ◌*◌, Bool, true, false, not, ◌&&◌, List, [], ◌∷◌, ◌++◌, Option, none, some,
  Bytes, codes, is_empty, keep, length, drop, ltb, ◌==◌, if◌then◌else◌,
}
use ouinet.Prelude.Int.{ℤ}
use ouinet.Prelude.Decimal.{to_string}
use ouinet.Parse.Number.{eight_bytes, number, signed_number}
use ouinet.Bittorrent.NodeId.{id_eq}
use ouinet.Http.{HeaderField, Field, Fields, ResponseHeader, Library}
use ouinet.Http.Split.{split_string, split_string_pair}
use ouinet.Http.Ranges.{consume}
use ouinet.Http.Injection.{header_prefix, field_named, http_injection_field}
use ouinet.Cache.HttpSignature.{
  HeadLibrary, has_named, without_framing, insert_all, has_comma_in_quotes, unquote,
  parse_signature, check_signature,
}

abbrev pub sig_alg_hs2019 : Bytes
sig_alg_hs2019 = codes "hs2019"

abbrev pub key_id_pfx : Bytes
key_id_pfx = codes "ed25519="

abbrev pub response_signature_hdr_pfx : Bytes
response_signature_hdr_pfx = header_prefix ++ codes "Sig"

abbrev pub response_data_block_max : ℕ
response_data_block_max = 1024 * 1024

pub record BlockSigs : Type 0 where
  pub pk : Option Bytes
  pub algorithm : Bytes
  pub size : ℕ

pub record SignedHead : Type 0 where
  pub head : ResponseHeader
  pub injection_id : Bytes
  pub injection_ts : ℤ
  pub uri : Bytes
  pub public_key : Bytes
  pub block_size : ℕ

-- The fields while `verify` goes over the signatures.
pub record Verifying : Type 0 where
  pub fields : Fields
  pub extra : Fields
  pub sig_idx : ℕ
  pub sig_ok : Bool

module _ (lib : HeadLibrary) where
  abbrev pub encode_key_id : Bytes → Bytes
  encode_key_id pk = key_id_pfx ++ lib.base64_encode pk

  unfoldable pub decode_key_id : Bytes → Option Bytes
  decode_key_id key_id = elim (consume key_id key_id_pfx) [
    | none ↦ none
    | some r ↦ lib.decode_key r
  ]

  -- `keep_signature`.
  abbrev pub signature_field : ℕ → Bytes → HeaderField
  signature_field sig_idx value = record {
    field = Field.unknown;
    name = response_signature_hdr_pfx ++ to_string sig_idx;
    value = value;
  }

  abbrev pub keep_signature : Verifying → Bytes → Verifying
  keep_signature s value = record s {
    fields = lib.insert_named s.fields (signature_field s.sig_idx value);
    sig_idx = s.sig_idx + 1;
  }

  -- A round of the loop over the signatures.
  unfoldable pub verify_field : ResponseHeader → Bytes → Verifying → Bytes → Verifying
  unfolding parse_signature check_signature
  verify_field to_verify pk s value = elim (parse_signature value) [
    | none ↦ s
    | some sig ↦
        if not (id_eq sig.key_id (encode_key_id pk))
        then keep_signature s value
        else if not (is_empty sig.algorithm) && not (id_eq sig.algorithm sig_alg_hs2019)
        then s
        else elim (check_signature lib to_verify sig pk) [
          | none ↦ s
          | some extra ↦ record (keep_signature s value) {
            extra = keep (λ h. has_named lib extra h.name) s.extra;
            sig_ok = true;
          }
        ]
  ]

  unfoldable pub verify_fields : ResponseHeader → Bytes → Verifying → Fields → Verifying
  unfolding verify_field
  verify_fields to_verify pk s [] = s
  verify_fields to_verify pk s (h ∷ hs) =
      verify_fields to_verify pk (verify_field to_verify pk s h.value) hs

  -- `erase` of the names of some fields, one after the other.
  unfoldable pub erase_all : Fields → Fields → Fields
  erase_all fs [] = fs
  erase_all fs (h ∷ hs) = erase_all (lib.erase_named fs h.name) hs

  abbrev pub is_signature : HeaderField → Bool
  is_signature h = lib.is_signature_name h.name

  -- The head that the signatures are checked against.
  unfoldable pub head_to_verify : ResponseHeader → ResponseHeader
  unfolding erase_all
  head_to_verify rsh = record rsh {
    fields = erase_all (without_framing lib rsh.fields) (keep is_signature rsh.fields);
  }

  abbrev pub unsigned_fields : ResponseHeader → Fields
  unsigned_fields rsh = keep (λ h. not (is_signature h)) rsh.fields

  unfoldable pub verified_fields : ResponseHeader → Bytes → Verifying
  unfolding verify_fields head_to_verify insert_all
  verified_fields rsh pk =
      verify_fields (head_to_verify rsh) pk
        record {
          fields = unsigned_fields rsh;
          extra = unsigned_fields rsh;
          sig_idx = 0;
          sig_ok = false;
        }
        (insert_all lib [] (keep is_signature rsh.fields))

  -- `verify`.
  unfoldable pub verify_head : ResponseHeader → Bytes → Option ResponseHeader
  unfolding verified_fields erase_all
  verify_head rsh pk =
      let s = verified_fields rsh pk in
      if s.sig_ok then some (record rsh { fields = erase_all s.fields s.extra }) else none

module _ (http : Library) (lib : HeadLibrary) where
  -- A round of the loop of `BlockSigs::parse`. A malformed key is passed over.
  unfoldable pub parse_block_quoted : BlockSigs → Bytes → Bytes → Option BlockSigs
  unfolding decode_key_id
  parse_block_quoted hbs key value =
      if id_eq key (codes "keyId")
      then elim (decode_key_id lib value) [
        | none ↦ some hbs
        | some pk ↦ some (record hbs { pk = some pk })
      ]
      else if id_eq key (codes "algorithm")
      then some (record hbs { algorithm = value })
      else none

  abbrev pub size_or_zero : Option ℕ × Bytes → ℕ
  size_or_zero (none, s) = 0
  size_or_zero (some n, s) = n

  unfoldable pub parse_block_item : BlockSigs → Bytes × Bytes → Option BlockSigs
  unfolding parse_block_quoted unquote
  parse_block_item hbs (key, value) =
      if id_eq key (codes "size")
      then some
          (record hbs { size = size_or_zero (number eight_bytes (http.byte_behind value) value) })
      else elim (unquote value) [ none ↦ none | some v ↦ parse_block_quoted hbs key v ]

  unfoldable pub parse_block_items : BlockSigs → List Bytes → Option BlockSigs
  unfolding parse_block_item
  parse_block_items hbs [] = some hbs
  parse_block_items hbs (item ∷ items) = elim (parse_block_item hbs (split_string_pair item b'=')) [
    | none ↦ none
    | some hbs' ↦ parse_block_items hbs' items
  ]

  -- The tests at the end: the key, the algorithm and the size.
  unfoldable pub conclude_block_sigs : BlockSigs → Option (Bytes × ℕ)
  conclude_block_sigs hbs = elim hbs.pk [
    | none ↦ none
    | some pk ↦
        if not (id_eq hbs.algorithm sig_alg_hs2019)
        then none
        else if hbs.size == 0
        then none
        else some (pk, hbs.size)
  ]

  -- `BlockSigs::parse`, with the key and the size, since the algorithm is always the same.
  unfoldable pub parse_block_sigs : Bytes → Option (Bytes × ℕ)
  unfolding has_comma_in_quotes parse_block_items conclude_block_sigs
  parse_block_sigs bsigs =
      if has_comma_in_quotes bsigs
      then none
      else elim (parse_block_items record { pk = none; algorithm = []; size = 0 }
          (split_string bsigs b',')) [ none ↦ none | some hbs ↦ conclude_block_sigs hbs ]

  abbrev pub created_head :
      ResponseHeader → Bytes → Option ℤ × Bytes → Bytes × ℕ → Option SignedHead
  created_head rsh injection_id (none, s) sigs = none
  created_head rsh injection_id (some injection_ts, s) (pk, size) = some record {
    head = rsh;
    injection_id = injection_id;
    injection_ts = injection_ts;
    uri = field_named http rsh.fields (header_prefix ++ codes "URI");
    public_key = pk;
    block_size = size;
  }

  -- `create_from_trusted_source`.
  unfoldable pub create_from_trusted_source : ResponseHeader → Option SignedHead
  unfolding parse_block_sigs
  create_from_trusted_source rsh =
      let bsh = field_named http rsh.fields (header_prefix ++ codes "BSigs") in
      let injection_id = http_injection_field http rsh (codes "id") in
      let tsh = http_injection_field http rsh (codes "ts") in
      if is_empty bsh then none else elim (parse_block_sigs bsh) [
        | none ↦ none
        | some sigs ↦
            if ltb response_data_block_max sigs.1
            then none
            else if is_empty injection_id
            then none
            else created_head rsh injection_id
                (signed_number eight_bytes (http.byte_behind tsh) tsh) sigs
      ]

  unfoldable pub verify_and_create : ResponseHeader → Bytes → Option SignedHead
  unfolding verify_head create_from_trusted_source
  verify_and_create rsh pk = elim (verify_head lib rsh pk) [
    | none ↦ none
    | some rsh' ↦ create_from_trusted_source rsh'
  ]
