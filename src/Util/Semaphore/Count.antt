-- ===== src/Util/Semaphore/Count.antt =====
-- How the count of a semaphore relates to its locks.
use ouinet.Prelude.{
  ℕ, suc, ◌+◌, ◌-◌, ◌≤◌, ◌<◌, ◌≡◌, refl, ap, List, [], ◌∷◌, length, length-append, arith,
  Bool-cases, inl, inr,
}
use ouinet.Util.Semaphore.{
  Semaphore, await_lock, unlock, run_posted, can_create_lock, hand_over, Reached, created, awaited,
  unlocked, ran,
}

-- The count is that of the locks, those to come and one more for each handover.
abbrev pub Counts : ℕ → ℕ → Semaphore → Type 0
Counts max handovers s =
    (s.max_lock_count ≡ max)
    × (s.lock_count ≡ s.locks + length s.posted + handovers)
    × (s.locks + length s.posted ≤ max)

await_lock-Counts :
    (max handovers handler : ℕ) (s : Semaphore)
    → Counts max handovers s
    → Counts max handovers (await_lock s handler)
unfolding await_lock
await_lock-Counts max handovers handler s h = elim (Bool-cases (can_create_lock s)) [
  | inl room ↦ rw room (h.0, ground arith, ground arith)
  | inr none_left ↦ rw none_left h
]

unlock-Counts :
    (max handovers : ℕ) (s : Semaphore)
    → 0 < s.locks
    → Counts max handovers s
    → Counts max handovers (unlock s)
unfolding unlock
unlock-Counts max handovers s l h = go s.handlers
  where
    go : (hs : List ℕ) → Counts max handovers (hand_over (record s { locks = s.locks - 1 }) hs)
    go [] = (h.0, ground arith, ground arith)
    go (handler ∷ hs) = (
      h.0,
      ground (arith, length-append s.posted (handler ∷ [])),
      ground (arith, length-append s.posted (handler ∷ [])),
    )

run_posted-Counts :
    (max handovers handler : ℕ) (rest : List ℕ) (s : Semaphore)
    → s.posted ≡ handler ∷ rest
    → Counts max handovers s
    → Counts max (suc handovers) (run_posted s rest)
unfolding run_posted
run_posted-Counts max handovers handler rest s p h =
    (h.0, ground (arith, ap length p), ground (arith, ap length p))

-- A semaphore never gives more locks than its maximum, but its count is too great by one for each
-- posted handler that has run, whether locks exist or not.
pub Reached-Counts :
    (max : ℕ) (s : Semaphore) (handovers : ℕ)
    → Reached max s handovers
    → (s.max_lock_count ≡ max)
      × (s.lock_count ≡ s.locks + length s.posted + handovers)
      × (s.locks + length s.posted ≤ max)
Reached-Counts max _ _ created = (refl, omega arith, omega arith)
Reached-Counts max _ _ (awaited s handovers handler r) =
    await_lock-Counts max handovers handler s (Reached-Counts max s handovers r)
Reached-Counts max _ _ (unlocked s handovers l r) =
    unlock-Counts max handovers s l (Reached-Counts max s handovers r)
Reached-Counts max _ _ (ran s handovers handler rest p r) =
    run_posted-Counts max handovers handler rest s p (Reached-Counts max s handovers r)
