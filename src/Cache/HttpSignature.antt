-- ===== src/Cache/HttpSignature.antt =====
-- `HttpSignature` of src/cache/http_sign.h and http_sign.cpp: the signature of a response's head. The head's
-- fields are lists, as in Http; what Boost.Beast, Boost.Regex, Boost's base64 and gcrypt do with
-- them is the record `HeadLibrary`.

pub mod Signing
pub mod Agreement
use ouinet.Prelude.{
  ℕ, zero, suc, ◌+◌, ◌%◌, Bool, true, false, not, ◌||◌, List, [], ◌∷◌, ◌++◌, reverse, Option, none,
  some, Bytes, codes, is_empty, keep, ◌==◌, if◌then◌else◌,
}
use ouinet.Prelude.Decimal.{to_string}
use ouinet.Bittorrent.NodeId.{id_eq}
use ouinet.Http.{HeaderField, Fields, ResponseHeader}
use ouinet.Http.Split.{split_string, split_string_pair, trim_whitespace}

pub record HeadLibrary : Type 0 where
  -- `regex_match` with `response_signature_hdr_rx`.
  pub is_signature_name : Bytes → Bool
  -- The comparison of names, `insert`, `set`, `erase` and `equal_range` of `http::fields`, by name.
  pub same_name : Bytes → Bytes → Bool
  pub insert_named : Fields → HeaderField → Fields
  pub set_named : Fields → Bytes → Bytes → Fields
  pub erase_named : Fields → Bytes → Fields
  pub values_named : Fields → Bytes → List Bytes
  -- `chunked(false)` of a message.
  pub unchunk : Fields → Fields
  -- `base64_encode`, and `base64_decode` to the arrays of a signature and of a key.
  pub base64_encode : Bytes → Bytes
  pub decode_signature : Bytes → Option Bytes
  pub decode_key : Bytes → Option Bytes
  -- `PublicKey::verify`: the key, the text and the signature.
  pub verify_signature : Bytes → Bytes → Bytes → Bool

pub record HttpSignature : Type 0 where
  pub key_id : Bytes
  pub algorithm : Bytes
  pub created : Bytes
  pub expires : Bytes
  pub headers : Bytes
  pub signature : Bytes

-- The loop of `has_comma_in_quotes`, with the quotes seen.
comma_in_quotes_from : ℕ → Bytes → Bool
comma_in_quotes_from quotes_seen [] = false
comma_in_quotes_from quotes_seen (c ∷ s) =
    let rest = comma_in_quotes_from (if c == b'"' then quotes_seen + 1 else quotes_seen) s in
    if c == b'"'
    then rest
    else if c == b','
    then (if quotes_seen % 2 == 0 then rest else true)
    else rest

unfoldable pub has_comma_in_quotes : Bytes → Bool
unfolding comma_in_quotes_from
has_comma_in_quotes s = comma_in_quotes_from 0 s

-- The value between its quotes.
unfoldable pub unquote : Bytes → Option Bytes
unquote [] = none
unquote (q ∷ value) =
    if q == b'"'
    then elim (reverse value) [ [] ↦ none | p ∷ r ↦ if p == b'"' then some (reverse r) else none ]
    else none

-- A round of the loop of `parse`.
unfoldable pub parse_quoted : HttpSignature → Bytes → Bytes → Option HttpSignature
parse_quoted hs key value =
    if id_eq key (codes "keyId")
    then some (record hs { key_id = value })
    else if id_eq key (codes "algorithm")
    then some (record hs { algorithm = value })
    else if id_eq key (codes "headers")
    then some (record hs { headers = value })
    else if id_eq key (codes "signature")
    then some (record hs { signature = value })
    else none

unfoldable pub parse_pair : HttpSignature → Bytes × Bytes → Option HttpSignature
unfolding parse_quoted unquote
parse_pair hs (key, value) =
    if id_eq key (codes "created")
    then some (record hs { created = value })
    else if id_eq key (codes "expires")
    then some (record hs { expires = value })
    else elim (unquote value) [ none ↦ none | some v ↦ parse_quoted hs key v ]

unfoldable pub parse_items : HttpSignature → List Bytes → Option HttpSignature
unfolding parse_pair
parse_items hs [] = some hs
parse_items hs (item ∷ items) = elim (parse_pair hs (split_string_pair item b'=')) [
  | none ↦ none
  | some hs' ↦ parse_items hs' items
]

abbrev pub def_signature : HttpSignature
def_signature = record {
  key_id = [];
  algorithm = [];
  created = [];
  expires = [];
  headers = codes "(created)";
  signature = [];
}

-- `parse`; an empty algorithm, time stamp or list of headers is only logged.
unfoldable pub parse_signature : Bytes → Option HttpSignature
unfolding has_comma_in_quotes parse_items
parse_signature sig =
    if has_comma_in_quotes sig
    then none
    else elim (parse_items def_signature (split_string sig b',')) [
      | none ↦ none
      | some hs ↦ if is_empty hs.key_id || is_empty hs.signature then none else some hs
    ]

-- The loop of `flatten_header_values`, with what it has so far.
unfoldable pub flatten_from : Bytes → List Bytes → Bytes
flatten_from ret [] = ret
flatten_from ret (value ∷ values) =
    let sep = if is_empty ret then [] else codes ", " in
    flatten_from (ret ++ (sep ++ trim_whitespace value)) values

abbrev pub flatten_values : List Bytes → Option Bytes
flatten_values [] = none
flatten_values (value ∷ values) = some (flatten_from [] (value ∷ values))

-- `get_sig_str_hdrs`, the text only.
unfoldable pub sig_string : Fields → Bytes
sig_string [] = []
sig_string (h ∷ []) = h.name ++ (codes ": " ++ h.value)
sig_string (h ∷ g ∷ hs) = h.name ++ (codes ": " ++ (h.value ++ 10 ∷ sig_string (g ∷ hs)))

module _ (lib : HeadLibrary) where
  abbrev pub has_named : Fields → Bytes → Bool
  has_named fs name = not (is_empty (lib.values_named fs name))

  -- `without_framing`.
  abbrev pub without_framing : Fields → Fields
  without_framing fs =
      lib.erase_named (lib.erase_named (lib.unchunk fs) (codes "Content-Length")) (codes "Trailer")

  unfoldable pub flatten_header_values : Fields → Bytes → Option Bytes
  unfolding flatten_from
  flatten_header_values fs name = flatten_values (lib.values_named fs name)

  -- What a round of the loop of `verification_head` sets. A response has no request target. The byte that
  -- is read of an empty name is the space or the quote behind it.
  unfoldable pub signed_value : ResponseHeader → HttpSignature → Bytes → Option Bytes
  unfolding flatten_header_values
  signed_value inh hsig [] = flatten_header_values inh.fields []
  signed_value inh hsig (b ∷ name) =
      let hn = b ∷ name in
      if not (b == b'(')
      then flatten_header_values inh.fields hn
      else if id_eq hn (codes "(request-target)")
      then none
      else if id_eq hn (codes "(response-status)")
      then some (to_string inh.status)
      else if id_eq hn (codes "(created)")
      then some hsig.created
      else if id_eq hn (codes "(expires)")
      then some hsig.expires
      else none

  unfoldable pub verification_fields :
      ResponseHeader → HttpSignature → Fields → List Bytes → Option Fields
  unfolding signed_value
  verification_fields inh hsig vh [] = some vh
  verification_fields inh hsig vh (hn ∷ names) = elim (signed_value inh hsig hn) [
    | none ↦ none
    | some value ↦ verification_fields inh hsig (lib.set_named vh hn value) names
  ]

  unfoldable pub verification_head : ResponseHeader → HttpSignature → Option Fields
  unfolding verification_fields
  verification_head inh hsig = verification_fields inh hsig [] (split_string hsig.headers b' ')

  -- The loop that collects the fields that the signature does not cover.
  unfoldable pub insert_all : Fields → Fields → Fields
  insert_all fs [] = fs
  insert_all fs (h ∷ hs) = insert_all (lib.insert_named fs h) hs

  abbrev pub extra_fields : Fields → Fields → Fields
  extra_fields vh fields = insert_all [] (keep (λ h. not (has_named vh h.name)) fields)

  -- `verify`: the fields that are not covered, or none for a failure.
  unfoldable pub check_signature : ResponseHeader → HttpSignature → Bytes → Option Fields
  unfolding verification_head sig_string insert_all
  check_signature rsh hsig pk = elim (verification_head rsh hsig) [
    | none ↦ none
    | some vh ↦ elim (lib.decode_signature hsig.signature) [
      | none ↦ none
      | some signature ↦
          if lib.verify_signature pk (sig_string vh) signature
          then some (extra_fields vh rsh.fields)
          else none
    ]
  ]
