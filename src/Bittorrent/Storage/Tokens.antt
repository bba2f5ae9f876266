-- ===== src/Bittorrent/Storage/Tokens.antt =====
-- `detail::DhtWriteTokenStorage` of src/bittorrent/dht_storage.cpp. An operation reads the clock once
-- here, as `now` in nanoseconds. The printed form of an address (Boost) and SHA-1 (src/util/hash.h,
-- over gcrypt) are parameters, and the salt is a field that the constructor draws.
use ouinet.Prelude.{
  ℕ, zero, suc, ◌+◌, ◌*◌, ◌^◌, ◌≤◌, ◌<◌, Bool, true, false, ◌||◌, List, [], ◌∷◌, ◌++◌, Bytes, ltb,
  is_empty, if◌then◌else◌,
}
use ouinet.Prelude.Decimal.{to_string}
use ouinet.Bittorrent.NodeId.{id_eq}
use ouinet.Bittorrent.Storage.Swarm.{seconds}
pub mod Validity

abbrev pub token_validity_seconds : ℕ
token_validity_seconds = 60 * 15

abbrev pub secret_refresh_time_seconds : ℕ
secret_refresh_time_seconds = 60 * 5

pub record Secret : Type 0 where
  pub secret : Bytes
  pub expires : ℕ

pub record TokenStorage : Type 0 where
  pub salt : Bytes
  pub secrets : List Secret
  pub last_generated : ℕ

-- The constructor: a time point starts at the epoch.
abbrev pub new_storage : Bytes → TokenStorage
new_storage salt = record { salt = salt; secrets = []; last_generated = 0 }

pub expire_secrets : ℕ → List Secret → List Secret
expire_secrets now [] = []
expire_secrets now (s ∷ ss) = if ltb s.expires now then expire_secrets now ss else s ∷ ss

-- `_secrets.back().secret`; the source reads it where there is one.
pub back_secret : List Secret → Bytes
back_secret [] = []
back_secret (s ∷ []) = s.secret
back_secret (s ∷ (t ∷ ss)) = back_secret (t ∷ ss)

-- The secrets after the first part of `generate_token`.
pub renew : TokenStorage → ℕ → List Secret
unfolding expire_secrets
renew t now =
    let kept = expire_secrets now t.secrets in
    let fresh : Secret = record {
      secret = to_string now ++ t.salt;
      expires = now + seconds token_validity_seconds;
    } in
    if is_empty kept || ltb (t.last_generated + seconds secret_refresh_time_seconds) now
    then kept ++ fresh ∷ []
    else kept

module _ (sha1_digest : Bytes → Bytes) {A : Type 0} (address_string : A → Bytes) where
  pub token_of : Bytes → A → Bytes → Bytes
  token_of secret address id = sha1_digest (secret ++ (address_string address ++ id))

  unfoldable pub generate_token : TokenStorage → A → Bytes → ℕ → TokenStorage × Bytes
  unfolding renew back_secret token_of
  generate_token t address id now =
      let secrets = renew t now in
      (record t { secrets = secrets }, token_of (back_secret secrets) address id)

  -- The loop over the secrets.
  pub matches : A → Bytes → Bytes → List Secret → Bool
  unfolding token_of
  matches address id token [] = false
  matches address id token (s ∷ ss) =
      if id_eq (token_of s.secret address id) token then true else matches address id token ss

  unfoldable pub verify_token : TokenStorage → A → Bytes → Bytes → ℕ → TokenStorage × Bool
  unfolding expire_secrets matches
  verify_token t address id token now =
      let kept = expire_secrets now t.secrets in
      (record t { secrets = kept }, matches address id token kept)
