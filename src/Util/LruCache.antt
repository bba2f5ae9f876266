-- ===== src/Util/LruCache.antt =====
-- src/util/lru_cache.h. A node of `_list` has an address, which an iterator holds; `_map` gives the
-- iterator of a key. The entry used last is first in the list. Keys of the hash map are a parameter with
-- equality, and an address is never used again.
pub mod Keys
pub mod Valid
pub mod Room
pub mod Eviction
pub mod Refinement
use ouinet.Prelude.{ℕ, ◌+◌, List, [], ◌∷◌, Option, none, some, length, ltb, if◌then◌else◌}
use ouinet.Prelude.Eq.{Eq, nat_eq}
use ouinet.Prelude.Maps.{find, assign, erase}

abbrev pub Nodes : Type 0 → Type 0 → Type 0
Nodes K V = List (ℕ × (K × V))

pub record LruCache (K V : Type 0) : Type 0 where
  pub list : Nodes K V
  pub map : List (K × ℕ)
  pub max_size : ℕ
  -- The address of the next node that is made.
  pub next : ℕ

unfoldable pub new_cache : {K V : Type 0} → ℕ → LruCache K V
new_cache max_size = record { list = []; map = []; max_size = max_size; next = 0 }

-- Calls of the operations; `move_to_front` and `erase` take an iterator of the map, which is its key.
pub data Call (K V : Type 0) : Type 0 where
  put_call : K → V → Call K V
  get_call move_call erase_call : K → Call K V

module _ {ℓ} {A : Type ℓ} where
  -- `--end()` and `pop_back`.
  unfoldable pub last_node : List A → Option A
  last_node [] = none
  last_node (x ∷ []) = some x
  last_node (x ∷ y ∷ xs) = last_node (y ∷ xs)

  unfoldable pub without_last : List A → List A
  without_last [] = []
  without_last (x ∷ []) = []
  without_last (x ∷ y ∷ xs) = x ∷ without_last (y ∷ xs)

module _ {K V : Type 0} ⦃e : Eq K⦄ where
  -- The entry used least recently goes if there is no room.
  unfoldable pub make_room : LruCache K V → LruCache K V
  unfolding last_node without_last
  make_room c = if ltb c.max_size (length c.map) then evicted (last_node c.list) else c
    where
      evicted : Option (ℕ × (K × V)) → LruCache K V
      evicted none = c
      evicted (some node) = record c { list = without_last c.list; map = erase c.map node.1.0 }

  -- The list after `push_front` and, if the key was there, `erase`.
  unfoldable pub push_front : Nodes K V → ℕ × (K × V) → Option ℕ → Nodes K V
  push_front nodes node none = node ∷ nodes
  push_front nodes node (some it) = erase (node ∷ nodes) it

  -- `put`.
  unfoldable pub put : LruCache K V → K → V → LruCache K V
  unfolding make_room push_front
  put c key value = make_room (record c {
    list = push_front c.list (c.next, (key, value)) (find c.map key);
    map = assign c.map key c.next;
    next = c.next + 1;
  })

  -- `get`; there is a node behind each iterator of the map.
  unfoldable pub get : LruCache K V → K → LruCache K V × Option V
  get c key = elim (find c.map key) [
    | none ↦ (c, none)
    | some it ↦ elim (find c.list it) [
      | none ↦ (c, none)
      | some node ↦ (record c { list = (it, node) ∷ erase c.list it }, some node.1)
    ]
  ]

  -- `move_to_front` and `erase`, of the entry of a key that is there.
  unfoldable pub move_to_front : LruCache K V → K → LruCache K V
  unfolding get
  move_to_front c key = (get c key).0

  unfoldable pub erase_entry : LruCache K V → K → LruCache K V
  erase_entry c key = elim (find c.map key) [
    | none ↦ c
    | some it ↦ record c { list = erase c.list it; map = erase c.map key }
  ]

  -- What the `get`s of some calls return.
  unfoldable pub run : LruCache K V → List (Call K V) → List (Option V)
  unfolding put get move_to_front erase_entry
  run c [] = []
  run c (put_call key value ∷ calls) = run (put c key value) calls
  run c (get_call key ∷ calls) = let (c', found) = get c key in found ∷ run c' calls
  run c (move_call key ∷ calls) = run (move_to_front c key) calls
  run c (erase_call key ∷ calls) = run (erase_entry c key) calls
