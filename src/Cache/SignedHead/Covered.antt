-- ===== src/Cache/SignedHead/Covered.antt =====
-- `SignedHead::verify` passes on signed fields only.
use ouinet.Prelude.{
  ℕ, ◌≡◌, subst, sym, ap, ◌∙◌, ◌⊎◌, inl, inr, true, false, not, [], ◌∷◌, ◌++◌, some, Bytes, keep,
  IsIn, keep-IsIn, Bool-cases, elim-eq-some, if-eq-some, if_both, option_both,
}
use mathlib.Core.Option.{some-injective}
use ouinet.Prelude.Decimal.{to_string}
use ouinet.Http.{HeaderField, Fields, ResponseHeader}
use ouinet.Cache.HttpSignature.{
  HeadLibrary, HttpSignature, has_named, insert_all, extra_fields, parse_signature,
  verification_head, sig_string, check_signature,
}
use ouinet.Cache.SignedHead.{
  Verifying, response_signature_hdr_pfx, signature_field, keep_signature, verify_field,
  verify_fields, erase_all, head_to_verify, unsigned_fields, is_signature, verified_fields,
  verify_head,
}

-- What Boost.Beast documents of `http::fields`.
pub record FieldLaws (lib : HeadLibrary) : Type 0 where
  pub same_refl : (n : Bytes) → lib.same_name n n ≡ true
  pub erased :
      (fs : Fields) (n : Bytes) (h : HeaderField)
      → IsIn h (lib.erase_named fs n)
      → IsIn h fs × (lib.same_name h.name n ≡ false)
  pub inserted :
      (fs : Fields) (g h : HeaderField) → IsIn h (lib.insert_named fs g) → IsIn h fs ⊎ (h ≡ g)
  pub named : (fs : Fields) (g : HeaderField) → has_named lib (lib.insert_named fs g) g.name ≡ true
  pub still_named :
      (fs : Fields) (g : HeaderField) (n : Bytes)
      → has_named lib fs n ≡ true
      → has_named lib (lib.insert_named fs g) n ≡ true

-- A signature that the key accepts, of a text that is made of fields with the name.
pub record IsCovered (lib : HeadLibrary) (rsh : ResponseHeader) (pk : Bytes) (name : Bytes)
    : Type 0 where
  pub value : Bytes
  pub sig : HttpSignature
  pub signed : Fields
  pub signature : Bytes
  pub parsed : parse_signature value ≡ some sig
  pub made : verification_head lib rsh sig ≡ some signed
  pub decoded : lib.decode_signature sig.signature ≡ some signature
  pub accepted : lib.verify_signature pk (sig_string signed) signature ≡ true
  pub has_name : has_named lib signed name ≡ true

module _ (lib : HeadLibrary) (laws : FieldLaws lib) where
  insert_all-still_named :
      (fs hs : Fields) (n : Bytes)
      → has_named lib fs n ≡ true
      → has_named lib (insert_all lib fs hs) n ≡ true
  unfolding insert_all
  insert_all-still_named fs [] n h = h
  insert_all-still_named fs (g ∷ hs) n h =
      insert_all-still_named (lib.insert_named fs g) hs n (laws.still_named fs g n h)

  insert_all-named :
      (fs hs : Fields) (h : HeaderField)
      → IsIn h hs
      → has_named lib (insert_all lib fs hs) h.name ≡ true
  unfolding insert_all
  insert_all-named fs [] h i = absurd i
  insert_all-named fs (g ∷ hs) h (inl e) =
      insert_all-still_named (lib.insert_named fs g) hs h.name
        (ap (λ (x : HeaderField). has_named lib (lib.insert_named fs g) x.name) e ∙ laws.named fs g)
  insert_all-named fs (g ∷ hs) h (inr i) = insert_all-named (lib.insert_named fs g) hs h i

  -- A field that is not among those left over has its name in the signed text.
  extra_fields-covered :
      (vh fields : Fields) (h : HeaderField)
      → IsIn h fields
      → has_named lib (extra_fields lib vh fields) h.name ≡ false
      → has_named lib vh h.name ≡ true
  extra_fields-covered vh fields h i left = elim (Bool-cases (has_named lib vh h.name)) [
    | inl e ↦ e
    | inr e ↦
        let k =
          insert_all-named [] (keep (λ (x : HeaderField). not (has_named lib vh x.name)) fields) h (
            keep-IsIn (λ (x : HeaderField). not (has_named lib vh x.name)) fields h i (ap not e)) in
        cc
  ]

  pub check_signature-IsCovered :
      (rsh : ResponseHeader) (value : Bytes) (sig : HttpSignature) (pk : Bytes) (extra : Fields)
      → parse_signature value ≡ some sig
      → check_signature lib rsh sig pk ≡ some extra
      → (h : HeaderField) → IsIn h rsh.fields
      → has_named lib extra h.name ≡ false
      → IsCovered lib rsh pk h.name
  unfolding check_signature
  check_signature-IsCovered rsh value sig pk extra p c h i left =
      let (vh, made, c') = elim-eq-some (verification_head lib rsh sig) _ c in
      let (signature, decoded, c'') = elim-eq-some (lib.decode_signature sig.signature) _ c' in
      let (accepted, e) = if-eq-some (lib.verify_signature pk (sig_string vh) signature) _ c'' in
      let left' = ap (λ (x : Fields). has_named lib x h.name) (some-injective _ _ e) ∙ left in
      record {
        value = value;
        sig = sig;
        signed = vh;
        signature = signature;
        parsed = p;
        made = made;
        decoded = decoded;
        accepted = accepted;
        has_name = extra_fields-covered vh rsh.fields h i left';
      }

  -- What a field of the head may be: a signature that was kept, or one of some fields.
  abbrev pub IsOld : Fields → HeaderField → Type 0
  IsOld fields h = ((i : ℕ) × (h.name ≡ response_signature_hdr_pfx ++ to_string i)) ⊎ IsIn h fields

  -- The state of the loop: a field that is not left over is no field to verify, or it is covered.
  record IsSound (to_verify : ResponseHeader) (pk : Bytes) (fields : Fields) (s : Verifying)
      : Type 0 where
    kept : (h : HeaderField) → IsIn h s.fields → IsOld fields h
    settled :
        (h : HeaderField)
        → IsIn h fields
        → IsIn h to_verify.fields
        → IsIn h s.extra ⊎ IsCovered lib to_verify pk h.name

  module _ (to_verify : ResponseHeader) (pk : Bytes) (fields : Fields) where
    keep_signature-IsSound :
        (s : Verifying) (value : Bytes)
        → IsSound to_verify pk fields s
        → IsSound to_verify pk fields (keep_signature lib s value)
    keep_signature-IsSound s value v = record {
      kept = λ h i. elim (laws.inserted s.fields (signature_field lib s.sig_idx value) h i) [
        | inl old ↦ v.kept h old
        | inr e ↦ inl (s.sig_idx, ap (λ (x : HeaderField). x.name) e)
      ];
      settled = v.settled;
    }

    -- A good signature takes the fields that it covers from those left over.
    accept-IsSound :
        (s : Verifying) (value : Bytes) (sig : HttpSignature) (extra : Fields)
        → parse_signature value ≡ some sig
        → check_signature lib to_verify sig pk ≡ some extra
        → IsSound to_verify pk fields s
        → IsSound to_verify pk fields record (keep_signature lib s value) {
          extra = keep (λ (h : HeaderField). has_named lib extra h.name) s.extra;
          sig_ok = true;
        }
    accept-IsSound s value sig extra p c v = record {
      kept = λ h i. (keep_signature-IsSound s value v).kept h i;
      settled = λ h i j. elim (v.settled h i j) [
        | inr done ↦ inr done
        | inl still ↦ elim (Bool-cases (has_named lib extra h.name)) [
          | inl e ↦
              inl (keep-IsIn (λ (x : HeaderField). has_named lib extra x.name) s.extra h still e)
          | inr e ↦ inr (check_signature-IsCovered to_verify value sig pk extra p c h j e)
        ]
      ];
    }

    verify_field-IsSound :
        (s : Verifying) (value : Bytes)
        → IsSound to_verify pk fields s
        → IsSound to_verify pk fields (verify_field lib to_verify pk s value)
    unfolding verify_field
    verify_field-IsSound s value v =
        let P = IsSound to_verify pk fields in
        option_both P (parse_signature value) _ _ v (λ sig p.
          if_both P _ _ _ (keep_signature-IsSound s value v) (
            if_both P _ _ _ v (
              option_both P (check_signature lib to_verify sig pk) _ _ v
                (λ extra c. accept-IsSound s value sig extra p c v))))

    verify_fields-IsSound :
        (s : Verifying) (hs : Fields)
        → IsSound to_verify pk fields s
        → IsSound to_verify pk fields (verify_fields lib to_verify pk s hs)
    unfolding verify_fields
    verify_fields-IsSound s [] v = v
    verify_fields-IsSound s (h ∷ hs) v =
        verify_fields-IsSound (verify_field lib to_verify pk s h.value) hs
          (verify_field-IsSound s h.value v)

  -- What `erase_all` leaves has none of the names.
  erase_all-IsIn :
      (fs hs : Fields) (h : HeaderField) → IsIn h (erase_all lib fs hs) → IsIn h fs × (¬ IsIn h hs)
  unfolding erase_all
  erase_all-IsIn fs [] h i = (i, λ e. e)
  erase_all-IsIn fs (g ∷ hs) h i =
      let (j, rest) = erase_all-IsIn (lib.erase_named fs g.name) hs h i in
      let (k, other) = laws.erased fs g.name h j in
      (
        k,
        λ where_is. elim where_is [
          | inl e ↦ cc (
            laws.same_refl g.name,
            ap (λ (x : HeaderField). lib.same_name x.name g.name) e,
            other,
          )
          | inr r ↦ rest r
        ],
      )

  -- Each field of the head that `SignedHead::verify` returns is a signature under its new name or a field
  -- of the given head that is no signature. A field among those that the signatures are checked against,
  -- which is without the framing, has its name in a text that the key signed, if the fields' operations do
  -- what Boost.Beast documents.
  pub verify_head-IsCovered :
      (rsh : ResponseHeader) (pk : Bytes) (out : ResponseHeader) (h : HeaderField)
      → verify_head lib rsh pk ≡ some out
      → IsIn h out.fields
      → IsOld (unsigned_fields lib rsh) h
        × (IsIn h (unsigned_fields lib rsh)
            → IsIn h (head_to_verify lib rsh).fields
            → IsCovered lib (head_to_verify lib rsh) pk h.name)
  unfolding verify_head verified_fields
  verify_head-IsCovered rsh pk out h e i =
      let s = verified_fields lib rsh pk in
      let (ok, same) = if-eq-some s.sig_ok _ e in
      let (old, left) =
        erase_all-IsIn s.fields s.extra h
          (subst (λ (o : ResponseHeader). IsIn h o.fields) (sym (some-injective _ _ same)) i) in
      let sound =
        verify_fields-IsSound (head_to_verify lib rsh) pk (unsigned_fields lib rsh) _
          (insert_all lib [] (keep (is_signature lib) rsh.fields))
          (record { kept = λ h' j. inr j; settled = λ h' j k. inl j }) in
      (
        sound.kept h old,
        λ j k. elim (sound.settled h j k) [ inl extra ↦ absurd (left extra) | inr c ↦ c ],
      )
