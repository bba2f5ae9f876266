-- ===== src/CacheControl/Fetch/Served.antt =====
-- What `fetch` may serve.
use ouinet.Prelude.{
  ◌≡◌, true, false, ◌||◌, List, [], ◌∷◌, Option, none, some, Bytes, codes, All, if_both, Bool-cases,
  inl, inr, ◌==◌, ==_iff,
}
use ouinet.Http.{Library, etag, if_none_match, find_field}
use ouinet.CacheControl.{
  Session, CacheEntry, add_warning, add_stale_warning, is_expired, must_revalidate,
  has_cache_control_directive, is_older_than_max_cache_age, has_temporary_result,
}
use ouinet.CacheControl.Operations.{
  Expected, unexpected, expected, CacheRequest, Controller, do_fetch_fresh, is_aborted,
}
use ouinet.CacheControl.Fetch.{
  do_fetch_stored, set_if_none_match, Answer, waiting, failed, served, Event, fresh_done,
  stored_done, both_done, Jobs, no_jobs, arrive, settled, has_ended, wait_first, wait_fresh,
  or_else, with_warning, revalidated, from_expired, from_entry, decide, from_cache, forced, fetch,
}

module _ (lib : Library) (cc : Controller) (request : CacheRequest) (later : lib.Time)
    (Fresh : Session → Type 0) (Stored : CacheEntry lib → Type 0) where
  -- A response that may be served: it is fresh, or it is stored and has not expired, or the injector says
  -- that it is not modified, or it has a warning: it has expired, or the request asks for a revalidation.
  pub data IsFair : Session → Type 0 where
    from_injector : (s : Session) → Fresh s → IsFair s
    unexpired :
        (entry : CacheEntry lib)
        → Stored entry
        → is_expired lib entry.response.header entry.time_stamp later ≡ false
        → IsFair entry.response
    not_modified :
        (entry : CacheEntry lib) (response : Session)
        → Stored entry
        → Fresh response
        → response.header.status ≡ 304
        → IsFair entry.response
    stale :
        (entry : CacheEntry lib)
        → Stored entry
        → is_expired lib entry.response.header entry.time_stamp later ≡ true
        → IsFair (add_stale_warning lib entry.response)
    unrevalidated :
        (entry : CacheEntry lib)
        → Stored entry
        → must_revalidate lib request.header ≡ true
        → IsFair (add_warning lib entry.response (codes "111 Ouinet \"Revalidation Failed\""))

  abbrev pub AnswersFairly : Answer → Type 0
  AnswersFairly waiting = Unit
  AnswersFairly (failed e) = Unit
  AnswersFairly (served s) = IsFair s

  -- A result that has come from the injector or from the cache.
  abbrev pub Succeeds {ℓ} : {A : Type ℓ} → (A → Type 0) → Expected A → Type 0
  Succeeds P (unexpected e) = Unit
  Succeeds P (expected a) = P a

  abbrev pub SucceedsIn {ℓ} : {A : Type ℓ} → (A → Type 0) → Option (Expected A) → Type 0
  SucceedsIn P none = Unit
  SucceedsIn P (some r) = Succeeds P r

  abbrev pub Arrives : Event lib → Type 0
  Arrives (fresh_done r) = Succeeds Fresh r
  Arrives (stored_done s) = Succeeds Stored s
  Arrives (both_done r s) = Succeeds Fresh r × Succeeds Stored s

  abbrev Known : Jobs lib → Type 0
  Known j = SucceedsIn Fresh j.fresh_result × SucceedsIn Stored j.stored_result

  arrive-Known : (j : Jobs lib) (e : Event lib) → Known j → Arrives e → Known (arrive lib j e)
  unfolding arrive
  arrive-Known j (fresh_done r) k a = (a, k.1)
  arrive-Known j (stored_done s) k a = (k.0, a)
  arrive-Known j (both_done r s) k a = a

  abbrev KnownIn : Option (Jobs lib × List (Event lib)) → Type 0
  KnownIn none = Unit
  KnownIn (some (j, rest)) = Known j × All Arrives rest

  wait_first-Known :
      (j : Jobs lib) (events : List (Event lib))
      → Known j
      → All Arrives events
      → KnownIn (wait_first lib j events)
  unfolding wait_first
  wait_first-Known j [] k h = if_both KnownIn (settled lib j) _ _ (k, tt) tt
  wait_first-Known j (e ∷ events) k h =
      if_both KnownIn (settled lib j) _ _ (k, h)
        (wait_first-Known (arrive lib j e) events (arrive-Known j e k h.0) h.1)

  wait_fresh-Succeeds :
      (j : Jobs lib) (events : List (Event lib))
      → Known j
      → All Arrives events
      → SucceedsIn Fresh (wait_fresh lib j events)
  unfolding wait_fresh
  wait_fresh-Succeeds j [] k h = k.0
  wait_fresh-Succeeds j (e ∷ events) k h =
      if_both (SucceedsIn Fresh) (has_ended lib j.fresh_result) _ _ k.0
        (wait_fresh-Succeeds (arrive lib j e) events (arrive-Known j e k h.0) h.1)

  or_else-Fair :
      (fresh : Option (Expected Session)) (response : Session)
      → SucceedsIn Fresh fresh
      → IsFair response
      → AnswersFairly (or_else lib fresh response)
  or_else-Fair none response f h = tt
  or_else-Fair (some (unexpected e)) response f h = h
  or_else-Fair (some (expected s)) response f h = from_injector s f

  with_warning-IsFair :
      (entry : CacheEntry lib) → Stored entry → IsFair (with_warning lib entry later)
  with_warning-IsFair entry h =
      elim (Bool-cases (is_expired lib entry.response.header entry.time_stamp later)) [
        | inl old ↦ rw old (stale entry h old)
        | inr young ↦ rw young (unexpired entry h young)
      ]

  revalidated-Fair :
      (entry : CacheEntry lib) (r : Expected Session)
      → Stored entry
      → is_expired lib entry.response.header entry.time_stamp later ≡ true
      → Succeeds Fresh r
      → AnswersFairly (revalidated lib entry r)
  revalidated-Fair entry (unexpected e) h x f = stale entry h x
  revalidated-Fair entry (expected response) h x f =
      elim (Bool-cases (response.header.status == 304)) [
        | inl same ↦
            rw same (not_modified entry response h f ((==_iff response.header.status 304).0 same))
        | inr other ↦ rw other (from_injector response f)
      ]

  from_expired-Fair :
      (entry : CacheEntry lib) (tag rq_etag : Option Bytes) (fresh : Option (Expected Session))
      → Stored entry
      → is_expired lib entry.response.header entry.time_stamp later ≡ true
      → ((rq : CacheRequest) → Succeeds Fresh (do_fetch_fresh cc rq))
      → SucceedsIn Fresh fresh
      → AnswersFairly (from_expired lib cc request entry tag rq_etag fresh)
  unfolding from_expired
  from_expired-Fair entry (some tag) none fresh h x d f =
      revalidated-Fair entry (do_fetch_fresh cc (set_if_none_match lib request tag)) h x
        (d (set_if_none_match lib request tag))
  from_expired-Fair entry (some tag) (some rq_etag) fresh h x d f =
      or_else-Fair fresh (add_stale_warning lib entry.response) f (stale entry h x)
  from_expired-Fair entry none none fresh h x d f =
      or_else-Fair fresh (add_stale_warning lib entry.response) f (stale entry h x)
  from_expired-Fair entry none (some rq_etag) fresh h x d f =
      or_else-Fair fresh (add_stale_warning lib entry.response) f (stale entry h x)

  from_entry-Fair :
      (entry : CacheEntry lib) (fresh : Option (Expected Session)) (now : lib.Time)
      → Stored entry
      → ((rq : CacheRequest) → Succeeds Fresh (do_fetch_fresh cc rq))
      → SucceedsIn Fresh fresh
      → AnswersFairly (from_entry lib cc request entry fresh now later)
  unfolding from_entry
  from_entry-Fair entry fresh now h d f =
      let old =
        has_cache_control_directive lib entry.response.header.fields (codes "private")
        || is_older_than_max_cache_age lib cc.max_cached_age entry.time_stamp now
        || has_temporary_result lib entry.response in
      if_both AnswersFairly old _ _
        (or_else-Fair fresh (with_warning lib entry later) f (with_warning-IsFair entry h))
        (elim (Bool-cases (is_expired lib entry.response.header entry.time_stamp later)) [
          | inl expired ↦ rw expired (
              from_expired-Fair entry (find_field entry.response.header.fields etag)
                (find_field request.header.fields if_none_match) fresh h expired d f)
          | inr young ↦ rw young (unexpired entry h young)
        ])

  decide-Fair :
      (j : Jobs lib) (rest : List (Event lib)) (now : lib.Time)
      → Known j
      → All Arrives rest
      → ((rq : CacheRequest) → Succeeds Fresh (do_fetch_fresh cc rq))
      → AnswersFairly (decide lib cc request j rest now later)
  unfolding decide
  decide-Fair j rest now k h d =
      go j.fresh_result j.stored_result (wait_fresh lib j rest) k.0 k.1
        (wait_fresh-Succeeds j rest k h)
    where
      go :
          (fresh : Option (Expected Session)) (stored : Option (Expected (CacheEntry lib)))
          (awaited : Option (Expected Session))
          → SucceedsIn Fresh fresh
          → SucceedsIn Stored stored
          → SucceedsIn Fresh awaited
          → AnswersFairly (elim fresh [
            | some (expected s) ↦ served s
            | some (unexpected e) ↦ elim stored [
              | some (expected entry) ↦
                  from_entry lib cc request entry (some (unexpected e)) now later
              | some (unexpected e') ↦ failed e
              | none ↦ waiting
            ]
            | none ↦ elim stored [
              | some (expected entry) ↦ from_entry lib cc request entry awaited now later
              | some (unexpected e') ↦ waiting
              | none ↦ waiting
            ]
          ])
      go (some (expected s)) stored awaited f s' w = from_injector s f
      go (some (unexpected e)) (some (expected entry)) awaited f s w =
          from_entry-Fair entry (some (unexpected e)) now s d tt
      go (some (unexpected e)) (some (unexpected e')) awaited f s w = tt
      go (some (unexpected e)) none awaited f s w = tt
      go none (some (expected entry)) awaited f s w = from_entry-Fair entry awaited now s d w
      go none (some (unexpected e)) awaited f s w = tt
      go none none awaited f s w = tt

  forced-Fair :
      (fresh : Expected Session) (stored : Expected (CacheEntry lib))
      → must_revalidate lib request.header ≡ true
      → Succeeds Fresh fresh
      → Succeeds Stored stored
      → AnswersFairly (forced lib cc request fresh stored)
  unfolding forced
  forced-Fair (expected s) stored m f s' = from_injector s f
  forced-Fair (unexpected e) stored m f s =
      if_both AnswersFairly (is_aborted e) _ _ tt (from_cache-Fair stored s)
    where
      from_cache-Fair :
          (stored : Expected (CacheEntry lib))
          → Succeeds Stored stored
          → AnswersFairly (from_cache lib cc request stored)
      from_cache-Fair (unexpected e) s = tt
      from_cache-Fair (expected entry) s = unrevalidated entry s m

  -- Whatever `fetch` serves is a response of the injector, or it is a stored response that has not
  -- expired, that the injector calls not modified or that has a warning: that it is stale, and it has
  -- expired, or that the revalidation failed, and the request asked for one. `Fresh` and `Stored` hold for what the two operations
  -- return.
  pub fetch-AnswersFairly :
      (events : List (Event lib)) (now : lib.Time)
      → All Arrives events
      → ((rq : CacheRequest) → Succeeds Fresh (do_fetch_fresh cc rq))
      → Succeeds Stored (do_fetch_stored lib cc request)
      → AnswersFairly (fetch lib cc request events now later)
  unfolding fetch
  fetch-AnswersFairly events now h d s = elim (Bool-cases (must_revalidate lib request.header)) [
    | inl m ↦
        rw (m, fetch)
          (forced-Fair (do_fetch_fresh cc request) (do_fetch_stored lib cc request) m (d request) s)
    | inr m ↦
        rw (m, fetch)
          (from_jobs (wait_first lib (no_jobs lib) events)
            (wait_first-Known (no_jobs lib) events (tt, tt) h))
  ]
    where
      from_jobs :
          (r : Option (Jobs lib × List (Event lib)))
          → KnownIn r
          → AnswersFairly
              (elim r [ none ↦ waiting | some (j, rest) ↦ decide lib cc request j rest now later ])
      from_jobs none k = tt
      from_jobs (some (j, rest)) k = decide-Fair j rest now k.0 k.1 d
