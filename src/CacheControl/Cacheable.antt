-- ===== src/CacheControl/Cacheable.antt =====
-- `CacheControl::ok_to_cache`, with the reason that it gives.
pub mod Rules
use ouinet.Prelude.{
  ℕ, Bool, true, false, not, ◌&&◌, ◌||◌, List, [], ◌∷◌, Option, none, some, Bytes, codes, any,
  is_empty, ◌==◌, if◌then◌else◌,
}
use ouinet.Http.{
  Field, cache_control, authorization, host, user_agent, accept, accept_language, accept_encoding,
  from, origin, keep_alive, connection, referer, proxy_connection, te, same_field, HeaderField,
  Fields, find_field, is_get, RequestHeader, ResponseHeader, Library,
}
use ouinet.Http.Split.{split_string, split_string_pair}
use ouinet.Http.Injection.{header_prefix}
use ouinet.CacheControl.{is_present, directives}

-- `200`, `301`, `302` and `307`.
abbrev pub cacheable_status : ℕ → Bool
cacheable_status status = (status == 200) || (status == 301) || (status == 302) || (status == 307)

abbrev pub or_reason : Option Bytes → Option Bytes → Option Bytes
or_reason none r = r
or_reason (some r) r' = some r

abbrev pub no_reason : Option Bytes → Bool
no_reason none = true
no_reason (some r) = false

module _ (lib : Library) where
  -- `field_is_one_of` with the fields and the names that `contains_private_data` lists.
  unfoldable pub is_harmless : HeaderField → Bool
  is_harmless h =
      any (λ f. same_field h.field f)
        (host ∷ user_agent ∷ cache_control ∷ accept ∷ accept_language ∷ accept_encoding ∷ from
          ∷ origin ∷ keep_alive ∷ connection ∷ referer ∷ proxy_connection ∷ te ∷ [])
      || any (λ name. lib.iequals h.name name)
          (codes "X-Requested-With" ∷ codes "Upgrade-Insecure-Requests" ∷ codes "DNT" ∷ [])

  unfoldable pub contains_private_data : RequestHeader → Bool
  contains_private_data request =
      if any (λ h. not (is_harmless h || lib.starts_with h.name header_prefix)) request.fields
      then true
      else if not (is_get request.method)
      then true
      else not (is_empty (split_string_pair request.target b'?').1)

  -- The directives that allow a response to a request with an authorization.
  unfoldable pub allows_authorized : List Bytes → Bool
  allows_authorized items =
      any
        (λ v.
          lib.iequals v (codes "must-revalidate")
          || lib.iequals v (codes "public")
          || lib.iequals v (codes "s-maxage"))
        items

  -- The last loop: `none` if it finds no reason.
  unfoldable pub forbids : RequestHeader → Bool → List Bytes → Option Bytes
  forbids request cache_private [] = none
  forbids request cache_private (kv ∷ items) =
      let key = (split_string_pair kv b'=').0 in
      if lib.iequals key (codes "no-store")
      then some (codes "response contains \"Cache-Control: no-store\"")
      else if not cache_private
          && lib.iequals key (codes "private")
          && contains_private_data request
      then some (codes "response contains \"Cache-Control: private\"")
      else forbids request cache_private items

  -- The test of a request with an authorization.
  unfoldable pub authorized_reason : Option Bytes → Option Bytes
  authorized_reason none = some (codes "request has auth")
  authorized_reason (some v) =
      if allows_authorized (split_string v b',')
      then none
      else some (
          codes
            "request has auth, but response's \"Cache-Control\" contains none of {must-revalidate, public, s-maxage}")

  -- The reason for which a response must not be cached.
  unfoldable pub refusal : RequestHeader → ResponseHeader → Bool → Option Bytes
  unfolding forbids authorized_reason
  refusal request response cache_private =
      if not (cacheable_status response.status)
      then some (codes "response status")
      else if any (λ v. lib.iequals v (codes "no-store")) (directives lib request.fields)
      then some (codes "request contains \"Cache-Control: no-store\"")
      else or_reason
          (if not cache_private && is_present (find_field request.fields authorization)
            then authorized_reason (find_field response.fields cache_control)
            else none)
          (forbids request cache_private (directives lib response.fields))

  unfoldable pub ok_to_cache : RequestHeader → ResponseHeader → Bool → Bool
  ok_to_cache request response cache_private = no_reason (refusal request response cache_private)
