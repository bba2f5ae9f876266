-- ===== src/CacheControl/Operations.antt =====
-- The requests of src/request.h and request.cpp as the cache sends them on, and the operations that
-- `CacheControl` is given.
use ouinet.Prelude.{ℕ, Bool, true, false, Option, none, some, Bytes}
use ouinet.Prelude.Int.{ℤ}
use ouinet.Http.{Verb, RequestHeader}
use ouinet.CacheControl.{Session}

pub data ErrorCode : Type 0 where
  operation_aborted operation_not_supported invalid_argument : ErrorCode
  other_error : ℕ → ErrorCode

abbrev pub is_aborted : ErrorCode → Bool
is_aborted operation_aborted = true
is_aborted operation_not_supported = false
is_aborted invalid_argument = false
is_aborted (other_error n) = false

-- `std::expected`.
pub data Expected {ℓ} (A : Type ℓ) : Type ℓ where
  unexpected : ErrorCode → Expected A
  expected : A → Expected A

pub data CacheType : Type 0 where
  bep5_http bep3_http_over_i2p ouisync : CacheType

-- `CacheRequest`, `CacheInjectRequest` and `CacheRetrieveRequest`, whose keys follow from the resource.
pub record CacheRequest : Type 0 where
  pub header : RequestHeader
  pub cache_type : CacheType
  pub resource_id : Bytes
  pub dht_group : Bytes

pub record CacheInjectRequest : Type 0 where
  pub header : RequestHeader
  pub cache_type : CacheType
  pub resource_id : Bytes
  pub dht_group : Bytes

pub record CacheRetrieveRequest : Type 0 where
  pub method : Verb
  pub cache_type : CacheType
  pub resource_id : Bytes
  pub dht_group : Bytes

abbrev pub inject_request : CacheRequest → CacheInjectRequest
inject_request rq = record {
  header = rq.header;
  cache_type = rq.cache_type;
  resource_id = rq.resource_id;
  dht_group = rq.dht_group;
}

abbrev pub to_inject : CacheType → CacheRequest → Option CacheInjectRequest
to_inject bep5_http rq = some (inject_request rq)
to_inject bep3_http_over_i2p rq = some (inject_request rq)
to_inject ouisync rq = none

abbrev pub to_inject_request : CacheRequest → Option CacheInjectRequest
to_inject_request rq = to_inject rq.cache_type rq

abbrev pub to_retrieve_request : CacheRequest → CacheRetrieveRequest
to_retrieve_request rq = record {
  method = rq.header.method;
  cache_type = rq.cache_type;
  resource_id = rq.resource_id;
  dht_group = rq.dht_group;
}

-- The members of `CacheControl`.
pub record Controller : Type 0 where
  pub fetch_stored : Option (CacheRetrieveRequest → Expected Session)
  pub fetch_fresh : Option (CacheInjectRequest → Expected Session)
  pub max_cached_age : ℤ

unfoldable pub do_fetch_fresh : Controller → CacheRequest → Expected Session
do_fetch_fresh cc rq = elim cc.fetch_fresh [
  | none ↦ unexpected operation_not_supported
  | some fetch_fresh ↦ elim (to_inject_request rq) [
    | none ↦ unexpected invalid_argument
    | some inject_rq ↦ fetch_fresh inject_rq
  ]
]

-- The setter `max_cached_age`.
abbrev pub set_max_cached_age : Controller → ℤ → Controller
set_max_cached_age cc d = record cc { max_cached_age = d }
