-- ===== src/Cache/HttpSignature/Agreement.antt =====
-- What the signer and the verifier of a head make of the values of a field.
use ouinet.Prelude.{
  ◌≡◌, refl, sym, ap, ◌∙◌, true, false, List, [], ◌∷◌, ◌++◌, Option, none, some, Bytes, codes,
  length, length-append, ◌<◌, is_empty, Bool-cases, inl, inr, if◌then◌else◌, arith, ◌≢◌,
}
use mathlib.Core.Option.{some-injective}
use ouinet.Prelude.Maps.{find}
use ouinet.Bittorrent.NodeId.{id_eq}
use ouinet.Bittorrent.Storage.Keys.{id_key, id_eq_sound, id_eq_complete}
use ouinet.Http.{Fields}
use ouinet.Http.Split.{trim_whitespace}
use ouinet.Cache.HttpSignature.{HeadLibrary, flatten_from, flatten_header_values}
use ouinet.Cache.HttpSignature.Signing.{add_value, hdr_values}

-- The values of the fields that have a name in lower case.
unfoldable pub named_values : (Bytes → Bytes) → Fields → Bytes → List Bytes
named_values to_lower [] name = []
named_values to_lower (h ∷ hs) name =
    if id_eq (to_lower h.name) name
    then h.value ∷ named_values to_lower hs name
    else named_values to_lower hs name

-- All values, trimmed, with commas between them.
unfoldable pub join_from : Bytes → List Bytes → Bytes
join_from ret [] = ret
join_from ret (value ∷ values) = join_from (ret ++ (codes ", " ++ trim_whitespace value)) values

abbrev pub join_values : List Bytes → Option Bytes
join_values [] = none
join_values (value ∷ values) = some (join_from (trim_whitespace value) values)

abbrev pub joined : Option Bytes → List Bytes → Option Bytes
joined none values = join_values values
joined (some ret) values = some (join_from ret values)

found_value : Option Bytes → Bytes → Bytes
found_value none value = value
found_value (some ret) value = ret ++ (codes ", " ++ value)

id_eq_other : (a n k : Bytes) → id_eq a n ≡ false → id_eq a k ≡ true → id_eq n k ≡ false
id_eq_other a n k e f = elim (Bool-cases (id_eq n k)) [
  | inl g ↦ cc (id_eq_complete a n (id_eq_sound a k f ∙ sym (id_eq_sound n k g)), e)
  | inr g ↦ g
]

find-add_value :
    (m : List (Bytes × Bytes)) (name value k : Bytes)
    → find (add_value m name value) k
      ≡ (if id_eq name k then some (found_value (find m k) value) else find m k)
unfolding add_value find found_value
find-add_value [] name value k = ground arith
find-add_value (h ∷ hs) name value k = elim (Bool-cases (id_eq h.0 name)) [
  | inl e ↦ rw (id_eq_sound h.0 name e, id_eq_complete name name refl) (ground arith)
  | inr e ↦ elim (Bool-cases (id_eq h.0 k)) [
    | inl f ↦ rw (e, f, id_eq_other h.0 name k e f) refl
    | inr f ↦ rw (e, f) (find-add_value hs name value k)
  ]
]

joined-nil : (o : Option Bytes) → o ≡ joined o []
unfolding join_from
joined-nil none = refl
joined-nil (some ret) = refl

joined-cons :
    (o : Option Bytes) (value : Bytes) (values : List Bytes)
    → joined (some (found_value o (trim_whitespace value))) values ≡ joined o (value ∷ values)
unfolding found_value join_from
joined-cons none value values = refl
joined-cons (some ret) value values = refl

find-hdr_values :
    (to_lower : Bytes → Bytes) (m : List (Bytes × Bytes)) (fs : Fields) (k : Bytes)
    → find (hdr_values to_lower m fs) k ≡ joined (find m k) (named_values to_lower fs k)
unfolding hdr_values named_values
find-hdr_values to_lower m [] k = joined-nil (find m k)
find-hdr_values to_lower m (h ∷ hs) k =
    find-hdr_values to_lower (add_value m (to_lower h.name) (trim_whitespace h.value)) hs k
    ∙ elim (Bool-cases (id_eq (to_lower h.name) k)) [
      | inl e ↦
          rw (find-add_value m (to_lower h.name) (trim_whitespace h.value) k, e)
            (joined-cons (find m k) h.value (named_values to_lower hs k))
      | inr e ↦ rw (find-add_value m (to_lower h.name) (trim_whitespace h.value) k, e) refl
    ]

flatten_from-join_from :
    (ret : Bytes) (values : List Bytes)
    → is_empty ret ≡ false
    → flatten_from ret values ≡ join_from ret values
unfolding flatten_from join_from
flatten_from-join_from ret [] h = refl
flatten_from-join_from [] (value ∷ values) h = absurd (ground arith)
flatten_from-join_from (b ∷ ret) (value ∷ values) h =
    flatten_from-join_from ((b ∷ ret) ++ (codes ", " ++ trim_whitespace value)) values refl

-- The verifier's text for a name is the value that the signer signs, if the name's first value is not
-- blank and `equal_range` finds the fields that have the name in lower case.
pub flatten_header_values-hdr_values :
    (lib : HeadLibrary) (to_lower : Bytes → Bytes) (fs : Fields) (name value : Bytes)
    (values : List Bytes)
    → lib.values_named fs name ≡ named_values to_lower fs name
    → named_values to_lower fs name ≡ value ∷ values
    → is_empty (trim_whitespace value) ≡ false
    → flatten_header_values lib fs name ≡ find (hdr_values to_lower [] fs) name
unfolding flatten_header_values flatten_from find
flatten_header_values-hdr_values lib to_lower fs name value values found e full =
    rw (find-hdr_values to_lower [] fs name, found, e)
      (ap some (flatten_from-join_from (trim_whitespace value) values full))

length-separated-lt :
    (a b value : Bytes)
    → length a < length b
    → length (a ++ ((if is_empty a then [] else codes ", ") ++ value))
      < length (b ++ (codes ", " ++ value))
length-separated-lt [] b value h = omega (arith, length-append b (codes ", " ++ value))
length-separated-lt (c ∷ a) b value h =
    omega
      (arith, length-append (c ∷ a) (codes ", " ++ value), length-append b (codes ", " ++ value))

length-flatten_from-lt :
    (values : List Bytes) (a b : Bytes)
    → length a < length b
    → length (flatten_from a values) < length (join_from b values)
unfolding flatten_from join_from
length-flatten_from-lt [] a b h = h
length-flatten_from-lt (value ∷ values) a b h =
    length-flatten_from-lt values _ (b ++ (codes ", " ++ trim_whitespace value))
      (length-separated-lt a b (trim_whitespace value) h)

-- If the name's first value is blank and there is another one, the texts differ, so that the signer's own
-- signature does not cover what the verifier checks.
pub flatten_header_values-ne-hdr_values :
    (lib : HeadLibrary) (to_lower : Bytes → Bytes) (fs : Fields) (name value other : Bytes)
    (values : List Bytes)
    → lib.values_named fs name ≡ named_values to_lower fs name
    → named_values to_lower fs name ≡ value ∷ other ∷ values
    → trim_whitespace value ≡ []
    → flatten_header_values lib fs name ≢ find (hdr_values to_lower [] fs) name
unfolding flatten_header_values flatten_from find join_from
flatten_header_values-ne-hdr_values lib to_lower fs name value other values found e blank same =
    let k =
      some-injective _ _ (rw (find-hdr_values to_lower [] fs name, found, e, blank) at same) in
    let lt =
      length-flatten_from-lt values (trim_whitespace other) (codes ", " ++ trim_whitespace other)
        (omega arith) in
    omega (arith, lt, ap length k)
