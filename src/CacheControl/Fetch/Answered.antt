-- ===== src/CacheControl/Fetch/Answered.antt =====
-- `fetch` comes to an end when the coroutines that it spawned have.
use ouinet.Prelude.{
  ◌≡◌, refl, true, false, not, ◌||◌, List, [], ◌∷◌, Option, none, some, Bytes, codes, if_both,
  Bool-cases, inl, inr, ◌==◌,
}
use ouinet.Http.{Library, etag, if_none_match, find_field}
use ouinet.CacheControl.{
  Session, CacheEntry, is_expired, must_revalidate, has_cache_control_directive,
  is_older_than_max_cache_age, has_temporary_result,
}
use ouinet.CacheControl.Operations.{
  Expected, unexpected, expected, CacheRequest, Controller, do_fetch_fresh, is_aborted,
}
use ouinet.CacheControl.Fetch.{
  do_fetch_stored, set_if_none_match, Answer, waiting, failed, served, Event, Jobs, no_jobs, arrive,
  settled, has_ended, wait_first, wait_fresh, or_else, with_warning, revalidated, from_expired,
  from_entry, decide, from_cache, forced, fetch,
}

no_way : false ≡ true → ⊥
no_way h = cc

module _ (lib : Library) where
  -- The results after all the events.
  unfoldable pub run_jobs : Jobs lib → List (Event lib) → Jobs lib
  run_jobs j [] = j
  run_jobs j (e ∷ events) = run_jobs (arrive lib j e) events

  abbrev pub BothEnd : Jobs lib → Type 0
  BothEnd j = (has_ended lib j.fresh_result ≡ true) × (has_ended lib j.stored_result ≡ true)

  abbrev pub IsAnswer : Answer → Type 0
  IsAnswer waiting = ⊥
  IsAnswer (failed e) = Unit
  IsAnswer (served s) = Unit

  settled_both : (j : Jobs lib) → BothEnd j → settled lib j ≡ true
  settled_both j h = go j.fresh_result j.stored_result h.0 h.1
    where
      go :
          (fresh : Option (Expected Session)) (stored : Option (Expected (CacheEntry lib)))
          → has_ended lib fresh ≡ true
          → has_ended lib stored ≡ true
          → settled lib record { fresh_result = fresh; stored_result = stored } ≡ true
      go none stored f s = cc
      go (some r) none f s = cc
      go (some (expected a)) (some stored) f s = refl
      go (some (unexpected e)) (some (expected a)) f s = refl
      go (some (unexpected e)) (some (unexpected e')) f s = refl

  abbrev Goes : Option (Jobs lib × List (Event lib)) → Type 0
  Goes none = ⊥
  Goes (some (j, rest)) = (settled lib j ≡ true) × BothEnd (run_jobs j rest)

  wait_first-Goes :
      (j : Jobs lib) (events : List (Event lib))
      → BothEnd (run_jobs j events)
      → Goes (wait_first lib j events)
  unfolding wait_first run_jobs
  wait_first-Goes j [] h = rw (settled_both j h) (settled_both j h, h)
  wait_first-Goes j (e ∷ events) h = elim (Bool-cases (settled lib j)) [
    | inl now ↦ rw now (now, h)
    | inr later ↦ rw later (wait_first-Goes (arrive lib j e) events h)
  ]

  wait_fresh-ends :
      (j : Jobs lib) (events : List (Event lib))
      → BothEnd (run_jobs j events)
      → has_ended lib (wait_fresh lib j events) ≡ true
  unfolding wait_fresh run_jobs
  wait_fresh-ends j [] h = h.0
  wait_fresh-ends j (e ∷ events) h = elim (Bool-cases (has_ended lib j.fresh_result)) [
    | inl now ↦ rw now now
    | inr later ↦ rw later (wait_fresh-ends (arrive lib j e) events h)
  ]

  or_else-IsAnswer :
      (fresh : Option (Expected Session)) (response : Session)
      → has_ended lib fresh ≡ true
      → IsAnswer (or_else lib fresh response)
  or_else-IsAnswer none response h = cc
  or_else-IsAnswer (some (unexpected e)) response h = tt
  or_else-IsAnswer (some (expected s)) response h = tt

  revalidated-IsAnswer :
      (entry : CacheEntry lib) (r : Expected Session) → IsAnswer (revalidated lib entry r)
  revalidated-IsAnswer entry (unexpected e) = tt
  revalidated-IsAnswer entry (expected response) =
      if_both IsAnswer (response.header.status == 304) _ _ tt tt

  module _ (cc : Controller) (request : CacheRequest) where
    from_expired-IsAnswer :
        (entry : CacheEntry lib) (tag rq_etag : Option Bytes) (fresh : Option (Expected Session))
        → has_ended lib fresh ≡ true
        → IsAnswer (from_expired lib cc request entry tag rq_etag fresh)
    unfolding from_expired
    from_expired-IsAnswer entry (some tag) none fresh h =
        revalidated-IsAnswer entry (do_fetch_fresh cc (set_if_none_match lib request tag))
    from_expired-IsAnswer entry (some tag) (some rq_etag) fresh h = or_else-IsAnswer fresh _ h
    from_expired-IsAnswer entry none none fresh h = or_else-IsAnswer fresh _ h
    from_expired-IsAnswer entry none (some rq_etag) fresh h = or_else-IsAnswer fresh _ h

    from_entry-IsAnswer :
        (entry : CacheEntry lib) (fresh : Option (Expected Session)) (now later : lib.Time)
        → has_ended lib fresh ≡ true
        → IsAnswer (from_entry lib cc request entry fresh now later)
    unfolding from_entry
    from_entry-IsAnswer entry fresh now later h =
        let old =
          has_cache_control_directive lib entry.response.header.fields (codes "private")
          || is_older_than_max_cache_age lib cc.max_cached_age entry.time_stamp now
          || has_temporary_result lib entry.response in
        if_both IsAnswer old _ _ (or_else-IsAnswer fresh (with_warning lib entry later) h) (
          if_both IsAnswer (not (is_expired lib entry.response.header entry.time_stamp later)) _ _
            tt
            (from_expired-IsAnswer entry (find_field entry.response.header.fields etag)
              (find_field request.header.fields if_none_match) fresh h))

    decide-IsAnswer :
        (j : Jobs lib) (rest : List (Event lib)) (now later : lib.Time)
        → Goes (some (j, rest))
        → IsAnswer (decide lib cc request j rest now later)
    unfolding decide
    decide-IsAnswer j rest now later h =
        go j.fresh_result j.stored_result (wait_fresh lib j rest) h.0 (wait_fresh-ends j rest h.1)
      where
        go :
            (fresh : Option (Expected Session)) (stored : Option (Expected (CacheEntry lib)))
            (awaited : Option (Expected Session))
            → settled lib record { fresh_result = fresh; stored_result = stored } ≡ true
            → has_ended lib awaited ≡ true
            → IsAnswer (elim fresh [
              | some (expected s) ↦ served s
              | some (unexpected e) ↦ elim stored [
                | some (expected entry) ↦
                    from_entry lib cc request entry (some (unexpected e)) now later
                | some (unexpected e') ↦ failed e
                | none ↦ waiting
              ]
              | none ↦ elim stored [
                | some (expected entry) ↦ from_entry lib cc request entry awaited now later
                | some (unexpected e') ↦ waiting
                | none ↦ waiting
              ]
            ])
        go (some (expected s)) stored awaited f w = tt
        go (some (unexpected e)) (some (expected entry)) awaited f w =
            from_entry-IsAnswer entry (some (unexpected e)) now later refl
        go (some (unexpected e)) (some (unexpected e')) awaited f w = tt
        go (some (unexpected e)) none awaited f w = no_way f
        go none (some (expected entry)) awaited f w = from_entry-IsAnswer entry awaited now later w
        go none (some (unexpected e)) awaited f w = no_way f
        go none none awaited f w = no_way f

    from_cache-IsAnswer :
        (stored : Expected (CacheEntry lib)) → IsAnswer (from_cache lib cc request stored)
    from_cache-IsAnswer (unexpected e) = tt
    from_cache-IsAnswer (expected entry) = tt

    forced-IsAnswer :
        (fresh : Expected Session) (stored : Expected (CacheEntry lib))
        → IsAnswer (forced lib cc request fresh stored)
    unfolding forced
    forced-IsAnswer (expected s) stored = tt
    forced-IsAnswer (unexpected e) stored =
        if_both IsAnswer (is_aborted e) _ _ tt (from_cache-IsAnswer stored)

    -- If both coroutines end, in whatever order, `fetch` serves a response or fails.
    pub fetch-IsAnswer :
        (events : List (Event lib)) (now later : lib.Time)
        → BothEnd (run_jobs (no_jobs lib) events)
        → IsAnswer (fetch lib cc request events now later)
    unfolding fetch
    fetch-IsAnswer events now later h =
        if_both IsAnswer (must_revalidate lib request.header) _ _
          (forced-IsAnswer (do_fetch_fresh cc request) (do_fetch_stored lib cc request))
          (from_jobs (wait_first lib (no_jobs lib) events) (wait_first-Goes (no_jobs lib) events h))
      where
        from_jobs :
            (r : Option (Jobs lib × List (Event lib)))
            → Goes r
            → IsAnswer (elim r [
              | none ↦ waiting
              | some (j, rest) ↦ decide lib cc request j rest now later
            ])
        from_jobs none g = elim g [ ]
        from_jobs (some (j, rest)) g = decide-IsAnswer j rest now later g
