-- ===== src/Util/Semaphore.antt =====
-- src/util/semaphore.h. A handler is a number, and a lock is counted while it exists; the handlers that
-- are posted to the executor run later, in any order with the other operations.
pub mod Count
use ouinet.Prelude.{ℕ, suc, ◌+◌, ◌-◌, ◌<◌, ◌≡◌, Bool, List, [], ◌∷◌, ◌++◌, ltb, if◌then◌else◌}

-- `State`, with the posted handlers and the number of the locks that exist.
pub record Semaphore : Type 0 where
  pub max_lock_count : ℕ
  pub lock_count : ℕ
  pub handlers : List ℕ
  pub posted : List ℕ
  pub locks : ℕ

abbrev pub new_semaphore : ℕ → Semaphore
new_semaphore max = record {
  max_lock_count = max;
  lock_count = 0;
  handlers = [];
  posted = [];
  locks = 0;
}

abbrev pub can_create_lock : Semaphore → Bool
can_create_lock s = ltb s.lock_count s.max_lock_count

abbrev pub create_lock : Semaphore → Semaphore
create_lock s = record s { lock_count = suc s.lock_count; locks = suc s.locks }

-- The handler gets a lock at once, or waits.
unfoldable pub await_lock : Semaphore → ℕ → Semaphore
await_lock s handler =
    if can_create_lock s then create_lock s else record s { handlers = s.handlers ++ handler ∷ [] }

-- `on_one_unlocked`.
abbrev pub hand_over : Semaphore → List ℕ → Semaphore
hand_over s [] = record s { lock_count = s.lock_count - 1 }
hand_over s (handler ∷ handlers) = record s {
  handlers = handlers;
  posted = s.posted ++ handler ∷ [];
}

-- The destructor of a lock.
unfoldable pub unlock : Semaphore → Semaphore
unlock s = hand_over (record s { locks = s.locks - 1 }) s.handlers

-- The executor runs the first of the posted handlers.
unfoldable pub run_posted : Semaphore → List ℕ → Semaphore
run_posted s rest = create_lock (record s { posted = rest })

-- The states that a semaphore reaches, with the number of posted handlers that have run.
pub data Reached (max : ℕ) : Semaphore → ℕ → Type 0 where
  created : Reached max (new_semaphore max) 0
  awaited :
      (s : Semaphore) (handovers handler : ℕ)
      → Reached max s handovers
      → Reached max (await_lock s handler) handovers
  unlocked :
      (s : Semaphore) (handovers : ℕ)
      → 0 < s.locks
      → Reached max s handovers
      → Reached max (unlock s) handovers
  ran :
      (s : Semaphore) (handovers handler : ℕ) (rest : List ℕ)
      → s.posted ≡ handler ∷ rest
      → Reached max s handovers
      → Reached max (run_posted s rest) (suc handovers)
