-- ===== src/CacheControl/Cacheable/Rules.antt =====
-- The rules of RFC 7234, section 3, that `ok_to_cache` follows, without the order of its tests.
use ouinet.Prelude.{
  ◌≡◌, refl, sym, ◌↔◌, ◌⊎◌, Bool, true, false, not, ◌&&◌, List, [], ◌∷◌, Option, none, some, Bytes,
  codes, any, All, if◌then◌else◌, inl, inr,
}
use ouinet.Http.{Library, RequestHeader, ResponseHeader, find_field, cache_control, authorization}
use ouinet.Http.Split.{split_string, split_string_pair}
use ouinet.CacheControl.{directives, is_present}
use ouinet.CacheControl.Cacheable.{
  contains_private_data, cacheable_status, allows_authorized, forbids, authorized_reason, or_reason,
  refusal, no_reason, ok_to_cache,
}

-- What a Boolean test and its parts say.
any-false {ℓ} :
    {A : Type ℓ} (p : A → Bool) (xs : List A) → (any p xs ≡ false) ↔ All (λ x. p x ≡ false) xs
any-false p [] = (λ h. tt, λ h. refl)
any-false p (x ∷ xs) = go (p x) (any-false p xs)
  where
    go :
        (b : Bool)
        → ((any p xs ≡ false) ↔ All (λ x. p x ≡ false) xs)
        → ((if b then true else any p xs) ≡ false) ↔ ((b ≡ false) × All (λ x. p x ≡ false) xs)
    go true rest = (λ h. cc, λ h. h.0)
    go false rest = (λ h. (refl, rest.0 h), λ h. rest.1 h.1)

three_false :
    (a b c : Bool) → ((not a && b && c) ≡ false) ↔ ((a ≡ true) ⊎ ((b ≡ false) ⊎ (c ≡ false)))
three_false true b c = (λ h. inl refl, λ h. refl)
three_false false false c = (λ h. inr (inl refl), λ h. refl)
three_false false true false = (λ h. inr (inr refl), λ h. refl)
three_false false true true = (λ h. cc, λ h. go h)
  where
    go : ((false ≡ true) ⊎ ((true ≡ false) ⊎ (true ≡ false))) → true ≡ false
    go (inl e) = cc
    go (inr (inl e)) = e
    go (inr (inr e)) = e

no_reason_iff : (r : Option Bytes) → (no_reason r ≡ true) ↔ (r ≡ none)
no_reason_iff none = (λ h. refl, λ h. refl)
no_reason_iff (some r) = (λ h. cc, λ h. cc)

apart : true ≡ false → ⊥
apart h = cc

module _ (lib : Library) where
  -- A directive of the response that lets it be cached.
  abbrev pub Allows : RequestHeader → Bool → Bytes → Type 0
  Allows request cache_private kv =
      (lib.iequals (split_string_pair kv b'=').0 (codes "no-store") ≡ false)
      × ((cache_private ≡ true)
          ⊎ ((lib.iequals (split_string_pair kv b'=').0 (codes "private") ≡ false)
              ⊎ (contains_private_data lib request ≡ false)))

  forbids_iff :
      (request : RequestHeader) (cache_private : Bool) (items : List Bytes)
      → (forbids lib request cache_private items ≡ none) ↔ All (Allows request cache_private) items
  unfolding forbids
  forbids_iff request cache_private [] = (λ h. tt, λ h. refl)
  forbids_iff request cache_private (kv ∷ items) =
      let key = (split_string_pair kv b'=').0 in
      let private_key = lib.iequals key (codes "private") in
      let secret = contains_private_data lib request in
      go _ _ (lib.iequals key (codes "no-store")) (not cache_private && private_key && secret)
        (three_false cache_private private_key secret) (forbids_iff request cache_private items)
    where
      go :
          {P : Type 0} {Q : Type 0} {rest : Option Bytes} (x y : Bytes) (a b : Bool)
          → (b ≡ false) ↔ P
          → (rest ≡ none) ↔ Q
          → ((if a then some x else if b then some y else rest) ≡ none) ↔ (((a ≡ false) × P) × Q)
      go x y true b p q = (λ h. cc, λ h. cc)
      go x y false true p q = (λ h. cc, λ h. absurd (apart (p.1 h.0.1)))
      go x y false false p q = (λ h. ((refl, p.0 refl), q.0 h), λ h. q.1 h.1)

  authorized_iff :
      (response : ResponseHeader)
      → (authorized_reason lib (find_field response.fields cache_control) ≡ none)
        ↔ (allows_authorized lib (directives lib response.fields) ≡ true)
  unfolding authorized_reason directives allows_authorized
  authorized_iff response = go (find_field response.fields cache_control)
    where
      choose : (r : Bytes) (b : Bool) → ((if b then none else some r) ≡ none) ↔ (b ≡ true)
      choose r true = (λ h. refl, λ h. refl)
      choose r false = (λ h. cc, λ h. cc)

      go :
          (o : Option Bytes)
          → (authorized_reason lib o ≡ none)
            ↔ (allows_authorized lib (elim o [ none ↦ [] | some v ↦ split_string v b',' ]) ≡ true)
      go none = (λ h. cc, λ h. cc)
      go (some v) = choose _ (allows_authorized lib (split_string v b','))

  -- What the rules ask of a request and its response.
  abbrev pub MayCache : RequestHeader → ResponseHeader → Bool → Type 0
  MayCache request response cache_private =
      (cacheable_status response.status ≡ true)
      × All (λ v. lib.iequals v (codes "no-store") ≡ false) (directives lib request.fields)
      × ((cache_private ≡ true)
          ⊎ ((is_present (find_field request.fields authorization) ≡ false)
              ⊎ (allows_authorized lib (directives lib response.fields) ≡ true)))
      × All (Allows request cache_private) (directives lib response.fields)

  -- `ok_to_cache` accepts a response just if its status is 200, 301, 302 or 307, the request has no
  -- directive no-store, the response has none either, a private response is to a request without private
  -- data, and the response to a request with an authorization allows it; the last two rules do not
  -- hold of a private cache.
  pub ok_to_cache-MayCache :
      (request : RequestHeader) (response : ResponseHeader) (cache_private : Bool)
      → (ok_to_cache lib request response cache_private ≡ true)
        ↔ MayCache request response cache_private
  unfolding ok_to_cache refusal
  ok_to_cache-MayCache request response cache_private =
      go _ _ (cacheable_status response.status)
        (any (λ v. lib.iequals v (codes "no-store")) (directives lib request.fields)) cache_private
        (is_present (find_field request.fields authorization))
        (any-false (λ v. lib.iequals v (codes "no-store")) (directives lib request.fields))
        (authorized_iff response)
        (forbids_iff request cache_private (directives lib response.fields))
    where
      both :
          {N : Type 0} {L : Type 0} {M : Type 0} (auth forbid : Option Bytes)
          → (false ≡ false) ↔ N
          → (auth ≡ none) ↔ L
          → (forbid ≡ none) ↔ M
          → (no_reason (or_reason auth forbid) ≡ true)
            ↔ ((true ≡ true) × N × ((false ≡ true) ⊎ ((true ≡ false) ⊎ L)) × M)
      both none forbid nf l m = (
        λ h. (refl, nf.0 refl, inr (inr (l.0 refl)), m.0 ((no_reason_iff forbid).0 h)),
        λ h. (no_reason_iff forbid).1 (m.1 h.3),
      )
      both (some r) forbid nf l m = (
        λ h. cc,
        λ h. elim h.2 [
          | inl e ↦ e
          | inr (inl e) ↦ sym e
          | inr (inr x) ↦ (no_reason_iff (some r)).1 (l.1 x)
        ],
      )

      go :
          {N : Type 0} {L : Type 0} {M : Type 0} {auth forbid : Option Bytes} (x y : Bytes)
          (s n p a : Bool)
          → (n ≡ false) ↔ N
          → (auth ≡ none) ↔ L
          → (forbid ≡ none) ↔ M
          → (no_reason (
                if not s
                then some x
                else if n
                then some y
                else or_reason (if not p && a then auth else none) forbid)
              ≡ true)
            ↔ ((s ≡ true) × N × ((p ≡ true) ⊎ ((a ≡ false) ⊎ L)) × M)
      go x y false n p a nf l m = (λ h. cc, λ h. cc)
      go x y true true p a nf l m = (λ h. cc, λ h. absurd (apart (nf.1 h.1)))
      go {forbid = forbid} x y true false true a nf l m = (
        λ h. (refl, nf.0 refl, inl refl, m.0 ((no_reason_iff forbid).0 h)),
        λ h. (no_reason_iff forbid).1 (m.1 h.3),
      )
      go {forbid = forbid} x y true false false false nf l m = (
        λ h. (refl, nf.0 refl, inr (inl refl), m.0 ((no_reason_iff forbid).0 h)),
        λ h. (no_reason_iff forbid).1 (m.1 h.3),
      )
      go {auth = auth} {forbid = forbid} x y true false false true nf l m = both auth forbid nf l m
