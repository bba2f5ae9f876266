-- ===== src/Tests/Caches.antt =====
-- src/util/lru_cache.h and semaphore.h at concrete inputs.
use ouinet.Prelude.{ℕ, ◌+◌, ◌≤◌, ◌<◌, ◌≡◌, refl, List, [], ◌∷◌, none, some, arith, length}
use ouinet.Prelude.Eq.{nat_eq}
use ouinet.Prelude.Maps.{find, assign, erase}
use ouinet.Util.LruCache.{Call, put_call, get_call, erase_call, new_cache, run}
use ouinet.Util.LruCache.Refinement.{recall, run-new_cache}
use ouinet.Util.Semaphore.{
  Semaphore, new_semaphore, await_lock, unlock, run_posted, Reached, created, awaited, unlocked,
  ran,
}
use ouinet.Util.Semaphore.Count.{Reached-Counts}

abbrev calls : List (Call ℕ ℕ)
calls =
    put_call 1 10
    ∷ put_call 2 20
    ∷ put_call 1 11
    ∷ put_call 3 30
    ∷ get_call 2
    ∷ get_call 1
    ∷ erase_call 1
    ∷ get_call 1
    ∷ []

-- The second entry goes, since the first was put again.
second_goes : run (new_cache 2) calls ≡ none ∷ some 11 ∷ none ∷ []
unfolding run new_cache find assign erase
second_goes = refl

run-new_cache_example : run (new_cache 2) calls ≡ recall 2 [] calls
run-new_cache_example = run-new_cache 2 calls

-- Two handlers wait for one lock, and the second gets it from the first.
abbrev both_waiting : Semaphore
both_waiting = await_lock (await_lock (new_semaphore 1) 1) 2

abbrev handed_over : Semaphore
handed_over = run_posted (unlock both_waiting) []

one_locked : 0 < both_waiting.locks
unfolding await_lock
one_locked = omega arith

second_posted : (unlock both_waiting).posted ≡ 2 ∷ []
unfolding unlock await_lock
second_posted = refl

handed_over-Reached : Reached 1 handed_over 1
handed_over-Reached = ran (unlock both_waiting) 0 2 [] second_posted (
    unlocked both_waiting 0 one_locked
      (awaited (await_lock (new_semaphore 1) 1) 0 2 (awaited (new_semaphore 1) 0 1 created)))

Reached-Counts_example :
    (handed_over.max_lock_count ≡ 1)
    × (handed_over.lock_count ≡ handed_over.locks + length handed_over.posted + 1)
    × (handed_over.locks + length handed_over.posted ≤ 1)
Reached-Counts_example = Reached-Counts 1 handed_over 1 handed_over-Reached
