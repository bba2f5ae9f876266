-- ===== src/Cache/HttpSignature/Signing.antt =====
-- `http_signature` and `http_injection_trailer` of src/cache/http_sign.cpp: the signature of a head.
use ouinet.Prelude.{ℕ, List, [], ◌∷◌, ◌++◌, Bytes, codes, if◌then◌else◌}
use ouinet.Prelude.Decimal.{to_string}
use ouinet.Bittorrent.NodeId.{id_eq}
use ouinet.Http.{Fields, ResponseHeader}
use ouinet.Http.Split.{trim_whitespace}
use ouinet.Http.Injection.{header_prefix}
use ouinet.Cache.HttpSignature.{HeadLibrary, without_framing, sig_string}

-- `to_lower`, the key's public part and what the key signs.
pub record Signer : Type 0 where
  pub to_lower : Bytes → Bytes
  pub public_key : Bytes
  pub sign : Bytes → Bytes

-- `hdr_values` in the order of `hdr_sorted`.
unfoldable pub add_value : List (Bytes × Bytes) → Bytes → Bytes → List (Bytes × Bytes)
add_value [] name value = (name, value) ∷ []
add_value (h ∷ hs) name value =
    if id_eq h.0 name then (h.0, h.1 ++ (codes ", " ++ value)) ∷ hs else h ∷ add_value hs name value

unfoldable pub hdr_values : (Bytes → Bytes) → List (Bytes × Bytes) → Fields → List (Bytes × Bytes)
unfolding add_value
hdr_values to_lower values [] = values
hdr_values to_lower values (h ∷ hs) =
    hdr_values to_lower (add_value values (to_lower h.name) (trim_whitespace h.value)) hs

unfoldable pub set_values : HeadLibrary → Fields → List (Bytes × Bytes) → Fields
set_values lib outh [] = outh
set_values lib outh (h ∷ hs) = set_values lib (lib.set_named outh h.0 h.1) hs

-- `get_sig_str_hdrs`, the names only.
unfoldable pub sig_headers : Fields → Bytes
sig_headers [] = []
sig_headers (h ∷ []) = h.name
sig_headers (h ∷ g ∷ hs) = h.name ++ b' ' ∷ sig_headers (g ∷ hs)

module _ (lib : HeadLibrary) (signer : Signer) where
  -- `prep_sig_head`.
  unfoldable pub prep_sig_head : Fields → Fields → Fields
  unfolding hdr_values set_values
  prep_sig_head inh outh = set_values lib outh (hdr_values signer.to_lower [] inh)

  abbrev pub quoted_value : Bytes → Bytes → Bytes
  quoted_value name value = name ++ (codes "=\"" ++ (value ++ codes "\""))

  -- `http_signature`.
  unfoldable pub http_signature : ResponseHeader → Bytes → ℕ → Bytes
  unfolding prep_sig_head sig_headers sig_string
  http_signature rsh key_id ts =
      let status = lib.set_named [] (codes "(response-status)") (to_string rsh.status) in
      let sig_head =
        prep_sig_head rsh.fields (lib.set_named status (codes "(created)") (to_string ts)) in
      let encoded_sig = lib.base64_encode (signer.sign (sig_string sig_head)) in
      quoted_value (codes "keyId") key_id
      ++ (quoted_value (codes ",algorithm") (codes "hs2019")
          ++ (codes ",created="
              ++ (to_string ts
                  ++ (quoted_value (codes ",headers") (sig_headers sig_head)
                      ++ quoted_value (codes ",signature") encoded_sig))))

  unfoldable pub set_fields : Fields → Fields → Fields
  set_fields outh [] = outh
  set_fields outh (h ∷ hs) = set_fields (lib.set_named outh h.name h.value) hs

  -- `http_injection_trailer`, for the digest of the body.
  unfoldable pub http_injection_trailer : ResponseHeader → Fields → ℕ → Bytes → Bytes → ℕ → Fields
  unfolding http_signature set_fields
  http_injection_trailer rsh rst content_length content_digest key_id ts =
      let sized =
        lib.set_named rst (header_prefix ++ codes "Data-Size") (to_string content_length) in
      let digest = codes "SHA-256=" ++ lib.base64_encode content_digest in
      let full = lib.set_named sized (codes "Digest") digest in
      let initial =
        lib.erase_named (without_framing lib rsh.fields) (header_prefix ++ codes "Sig0") in
      let to_sign = record rsh { fields = set_fields initial full } in
      lib.set_named full (header_prefix ++ codes "Sig1") (http_signature to_sign key_id ts)
