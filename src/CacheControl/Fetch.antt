-- ===== src/CacheControl/Fetch.antt =====
-- `CacheControl::fetch`. What the injected operations return is a function of the request; the two
-- coroutines that `fetch` spawns end in any order, as a list of events says, one for each time that the
-- waiting coroutine goes on. The source reads the clock in two places: `now` when the stored response is
-- there, `later` where it tests whether that is expired.
pub mod Served
pub mod Answered
use ouinet.Prelude.{
  ℕ, Bool, true, false, not, ◌||◌, List, [], ◌∷◌, Option, none, some, Bytes, codes, ◌==◌,
  if◌then◌else◌,
}
use ouinet.Prelude.Int.{ℤ}
use ouinet.Http.{
  Field, etag, if_none_match, find_field, Verb, RequestHeader, ResponseHeader, Library,
}
use ouinet.CacheControl.{
  Session, CacheEntry, has_cache_control_directive, is_expired, is_older_than_max_cache_age,
  add_warning, add_stale_warning, must_revalidate, has_temporary_result, injection_time,
}
use ouinet.CacheControl.Operations.{
  ErrorCode, operation_aborted, operation_not_supported, invalid_argument, other_error, is_aborted,
  Expected, unexpected, expected, CacheType, bep5_http, bep3_http_over_i2p, ouisync, CacheRequest,
  CacheInjectRequest, CacheRetrieveRequest, inject_request, to_inject, to_inject_request,
  to_retrieve_request, Controller, do_fetch_fresh,
}

-- What `fetch` comes to; it may still wait for a coroutine.
pub data Answer : Type 0 where
  waiting : Answer
  failed : ErrorCode → Answer
  served : Session → Answer

module _ (lib : Library) where
  abbrev pub to_entry : Expected Session → Expected (CacheEntry lib)
  to_entry (unexpected e) = unexpected e
  to_entry (expected session) =
      expected record { time_stamp = injection_time lib session.header; response = session }

  unfoldable pub do_fetch_stored : Controller → CacheRequest → Expected (CacheEntry lib)
  do_fetch_stored cc rq = elim cc.fetch_stored [
    | none ↦ unexpected operation_not_supported
    | some fetch_stored ↦ to_entry (fetch_stored (to_retrieve_request rq))
  ]

  unfoldable pub set_if_none_match : CacheRequest → Bytes → CacheRequest
  set_if_none_match rq value = record rq {
    header = record rq.header { fields = lib.set_field rq.header.fields if_none_match value };
  }

  -- What has ended since the coroutine went to wait.
  pub data Event : Type 0 where
    fresh_done : Expected Session → Event
    stored_done : Expected (CacheEntry lib) → Event
    both_done : Expected Session → Expected (CacheEntry lib) → Event

  -- `fresh_result` and `stored_result`.
  pub record Jobs : Type 0 where
    pub fresh_result : Option (Expected Session)
    pub stored_result : Option (Expected (CacheEntry lib))

  abbrev pub no_jobs : Jobs
  no_jobs = record { fresh_result = none; stored_result = none }

  unfoldable pub arrive : Jobs → Event → Jobs
  arrive j (fresh_done r) = record j { fresh_result = some r }
  arrive j (stored_done s) = record j { stored_result = some s }
  arrive j (both_done r s) = record { fresh_result = some r; stored_result = some s }

  -- `fresh_result && *fresh_result`.
  abbrev pub succeeded {ℓ} : {A : Type ℓ} → Option (Expected A) → Bool
  succeeded none = false
  succeeded (some (unexpected e)) = false
  succeeded (some (expected a)) = true

  abbrev pub has_ended {ℓ} : {A : Type ℓ} → Option (Expected A) → Bool
  has_ended none = false
  has_ended (some r) = true

  -- The three tests of the loop.
  abbrev pub settled : Jobs → Bool
  settled j =
      succeeded j.fresh_result
      || succeeded j.stored_result
      || (if has_ended j.fresh_result then has_ended j.stored_result else false)

  -- The loop, with the events that are left for later; none if it still waits.
  unfoldable pub wait_first : Jobs → List Event → Option (Jobs × List Event)
  unfolding arrive
  wait_first j [] = if settled j then some (j, []) else none
  wait_first j (e ∷ events) =
      let rest = wait_first (arrive j e) events in if settled j then some (j, e ∷ events) else rest

  -- `while (!fresh_result) cv.wait(yield);`.
  unfoldable pub wait_fresh : Jobs → List Event → Option (Expected Session)
  unfolding arrive
  wait_fresh j [] = j.fresh_result
  wait_fresh j (e ∷ events) =
      let rest = wait_fresh (arrive j e) events in
      if has_ended j.fresh_result then j.fresh_result else rest

  -- The end of a branch that prefers a fresh response.
  abbrev pub or_else : Option (Expected Session) → Session → Answer
  or_else none response = waiting
  or_else (some (unexpected e)) response = served response
  or_else (some (expected s)) response = served s

  -- The stored response, with a warning if it has expired.
  abbrev pub with_warning : CacheEntry lib → lib.Time → Session
  with_warning entry later =
      if is_expired lib entry.response.header entry.time_stamp later
      then add_stale_warning lib entry.response
      else entry.response

  -- `304 Not Modified` stands for the stored response.
  abbrev pub revalidated : CacheEntry lib → Expected Session → Answer
  revalidated entry (unexpected e) = served (add_stale_warning lib entry.response)
  revalidated entry (expected response) =
      if response.header.status == 304 then served entry.response else served response

  module _ (cc : Controller) (request : CacheRequest) where
    -- `cache_etag && !rq_etag`, and the branch without a tag.
    unfoldable pub from_expired :
        CacheEntry lib → Option Bytes → Option Bytes → Option (Expected Session) → Answer
    from_expired entry (some tag) none fresh =
        revalidated entry (do_fetch_fresh cc (set_if_none_match request tag))
    from_expired entry none rq_etag fresh = or_else fresh (add_stale_warning lib entry.response)
    from_expired entry (some tag) (some rq_etag) fresh =
        or_else fresh (add_stale_warning lib entry.response)

    -- What follows a successful `fetch_stored`.
    unfoldable pub from_entry :
        CacheEntry lib → Option (Expected Session) → lib.Time → lib.Time → Answer
    unfolding from_expired
    from_entry entry fresh now later =
        if has_cache_control_directive lib entry.response.header.fields (codes "private")
          || is_older_than_max_cache_age lib cc.max_cached_age entry.time_stamp now
          || has_temporary_result lib entry.response
        then or_else fresh (with_warning entry later)
        else if not (is_expired lib entry.response.header entry.time_stamp later)
        then served entry.response
        else from_expired entry (find_field entry.response.header.fields etag)
            (find_field request.header.fields if_none_match) fresh

    -- The tests after the loop. `rest` is what ends later.
    unfoldable pub decide : Jobs → List Event → lib.Time → lib.Time → Answer
    unfolding from_entry
    decide j rest now later = elim j.fresh_result [
      | some (expected s) ↦ served s
      | some (unexpected e) ↦ elim j.stored_result [
        | some (expected entry) ↦ from_entry entry (some (unexpected e)) now later
        | some (unexpected e') ↦ failed e
        | none ↦ waiting
      ]
      | none ↦ elim j.stored_result [
        | some (expected entry) ↦ from_entry entry (wait_fresh j rest) now later
        | some (unexpected e') ↦ waiting
        | none ↦ waiting
      ]
    ]

    abbrev pub from_cache : Expected (CacheEntry lib) → Answer
    from_cache (unexpected e) = failed e
    from_cache (expected entry) =
        served (add_warning lib entry.response (codes "111 Ouinet \"Revalidation Failed\""))

    -- The branch of a request that asks for a revalidation.
    unfoldable pub forced : Expected Session → Expected (CacheEntry lib) → Answer
    forced (expected s) stored = served s
    forced (unexpected e) stored = if is_aborted e then failed e else from_cache stored

    unfoldable pub fetch : List Event → lib.Time → lib.Time → Answer
    unfolding decide wait_first forced
    fetch events now later =
        if must_revalidate lib request.header
        then forced (do_fetch_fresh cc request) (do_fetch_stored cc request)
        else elim (wait_first no_jobs events) [
          | none ↦ waiting
          | some (j, rest) ↦ decide j rest now later
        ]
