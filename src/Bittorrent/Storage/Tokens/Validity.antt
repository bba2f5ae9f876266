-- ===== src/Bittorrent/Storage/Tokens/Validity.antt =====
-- A token is accepted for as long as its secret is valid, whatever happens in between.
use ouinet.Prelude.{
  ℕ, ◌+◌, ◌≤◌, ◌<◌, ◌≡◌, refl, Bool, true, false, ◌||◌, ◌⊎◌, inl, inr, List, [], ◌∷◌, ◌++◌, Bytes,
  ltb, is_empty, if_both, arith,
}
use ouinet.Bittorrent.NodeId.{id_eq}
use ouinet.Bittorrent.Storage.Swarm.{seconds}
use ouinet.Bittorrent.Storage.Tokens.{
  Secret, TokenStorage, expire_secrets, back_secret, renew, token_of, generate_token, matches,
  verify_token, token_validity_seconds, secret_refresh_time_seconds,
}

-- The secret `x` is among `ss`, valid until `until`.
abbrev pub Live : Bytes → ℕ → List Secret → Type 0
Live x until [] = ⊥
Live x until (s ∷ ss) = ((s.secret ≡ x) × (until ≤ s.expires)) ⊎ Live x until ss

expire_secrets-Live :
    (now : ℕ) (x : Bytes) (until : ℕ) (ss : List Secret)
    → now ≤ until
    → Live x until ss
    → Live x until (expire_secrets now ss)
unfolding expire_secrets
expire_secrets-Live now x until [] l h = h
expire_secrets-Live now x until (s ∷ ss) l (inl h) =
    let still : ltb s.expires now ≡ false = ground (arith, h.1) in rw still (inl h)
expire_secrets-Live now x until (s ∷ ss) l (inr h) =
    if_both (Live x until) (ltb s.expires now) _ _ (expire_secrets-Live now x until ss l h) (inr h)

append-Live :
    (x : Bytes) (until : ℕ) (ss : List Secret) (s : Secret)
    → Live x until ss
    → Live x until (ss ++ s ∷ [])
append-Live x until [] s h = absurd h
append-Live x until (r ∷ ss) s (inl h) = inl h
append-Live x until (r ∷ ss) s (inr h) = inr (append-Live x until ss s h)

back_secret-Live :
    (ss : List Secret) (s : Secret) (until : ℕ)
    → until ≤ s.expires
    → Live (back_secret (ss ++ s ∷ [])) until (ss ++ s ∷ [])
unfolding back_secret
back_secret-Live [] s until l = inl (refl, l)
back_secret-Live (r ∷ []) s until l = inr (inl (refl, l))
back_secret-Live (r ∷ (q ∷ ss)) s until l = inr (back_secret-Live (q ∷ ss) s until l)

renew-Live :
    (t : TokenStorage) (x : Bytes) (now until : ℕ)
    → now ≤ until
    → Live x until t.secrets
    → Live x until (renew t now)
unfolding renew
renew-Live t x now until l h =
    let kept = expire_secrets-Live now x until t.secrets l h in
    if_both (Live x until) _ _ (expire_secrets now t.secrets)
      (append-Live x until (expire_secrets now t.secrets) _ kept) kept

or_true : (b c : Bool) → c ≡ true → (b || c) ≡ true
or_true true c h = refl
or_true false c h = h

back_secret-renew :
    (t : TokenStorage) (now : ℕ)
    → t.last_generated + seconds secret_refresh_time_seconds < now
    → Live (back_secret (renew t now)) (now + seconds token_validity_seconds) (renew t now)
unfolding renew
back_secret-renew t now h =
    let due : ltb (t.last_generated + seconds secret_refresh_time_seconds) now ≡ true =
      ground arith in
    rw (or_true (is_empty (expire_secrets now t.secrets)) _ due, renew)
      (back_secret-Live (expire_secrets now t.secrets) _ (now + seconds token_validity_seconds)
        (omega arith))

id_eq_refl : (s : Bytes) → id_eq s s ≡ true
unfolding id_eq
id_eq_refl [] = refl
id_eq_refl (a ∷ s) = ground (arith, id_eq_refl s)

-- What may happen to the storage between the two: other tokens are generated and verified.
pub data Event (A : Type 0) : Type 0 where
  generated : A → Bytes → Event A
  verified : A → Bytes → Bytes → Event A

module _ (sha1_digest : Bytes → Bytes) {A : Type 0} (address_string : A → Bytes) where
  -- The storage after some events, each at its time.
  unfoldable pub run : TokenStorage → List (ℕ × Event A) → TokenStorage
  unfolding generate_token
  run t [] = t
  run t (step ∷ rest) = elim step.1 [
    | generated address id ↦
        run (generate_token sha1_digest address_string t address id step.0).0 rest
    | verified address id token ↦
        run (verify_token sha1_digest address_string t address id token step.0).0 rest
  ]

  -- The events are over by `until`.
  abbrev pub By : ℕ → List (ℕ × Event A) → Type 0
  By until [] = Unit {0}
  By until (step ∷ rest) = (step.0 ≤ until) × By until rest

  run-Live :
      (t : TokenStorage) (events : List (ℕ × Event A)) (x : Bytes) (until : ℕ)
      → By until events
      → Live x until t.secrets
      → Live x until (run t events).secrets
  unfolding run verify_token
  run-Live t [] x until b h = h
  run-Live t ((now, generated address id) ∷ rest) x until b h =
      run-Live (generate_token sha1_digest address_string t address id now).0 rest x until b.1
        (renew-Live t x now until b.0 h)
  run-Live t ((now, verified address id token) ∷ rest) x until b h =
      run-Live (verify_token sha1_digest address_string t address id token now).0 rest x until b.1
        (expire_secrets-Live now x until t.secrets b.0 h)

  matches-Live :
      (ss : List Secret) (address : A) (id x : Bytes) (until : ℕ)
      → Live x until ss
      → matches sha1_digest address_string address id
          (token_of sha1_digest address_string x address id)
          ss
        ≡ true
  unfolding matches
  matches-Live [] address id x until h = absurd h
  matches-Live (s ∷ ss) address id x until (inl h) =
      rw (h.0, id_eq_refl (token_of sha1_digest address_string x address id)) refl
  matches-Live (s ∷ ss) address id x until (inr h) =
      ground (arith, matches-Live ss address id x until h)

  -- A token that is generated more than the refresh time after the clock's epoch is accepted for its
  -- validity time, whatever tokens are generated and verified in between.
  pub verify_token-generate_token :
      (t : TokenStorage) (address : A) (id : Bytes) (now later : ℕ) (events : List (ℕ × Event A))
      → t.last_generated + seconds secret_refresh_time_seconds < now
      → By (now + seconds token_validity_seconds) events
      → later ≤ now + seconds token_validity_seconds
      → let (t', token) = generate_token sha1_digest address_string t address id now in
        (verify_token sha1_digest address_string (run t' events) address id token later).1 ≡ true
  unfolding verify_token generate_token
  verify_token-generate_token t address id now later events h b l =
      let until = now + seconds token_validity_seconds in
      let x = back_secret (renew t now) in
      let after : TokenStorage = record t { secrets = renew t now } in
      matches-Live (expire_secrets later (run after events).secrets) address id x until (
        expire_secrets-Live later x until (run after events).secrets l
          (run-Live after events x until b (back_secret-renew t now h)))
