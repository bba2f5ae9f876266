-- ===== src/Bittorrent/ProximityMap.antt =====
-- src/bittorrent/proximity_map.h. The `std::map` below it is the list of its entries in the order of the
-- comparison, whose keys are all different; `insert` leaves an entry whose key is there already.
pub mod Truncation
pub mod Nearest
use ouinet.Prelude.{
  ℕ, Bool, true, false, not, List, [], ◌∷◌, Bytes, length, ltb, leb, ◌==◌, if◌then◌else◌,
}
use ouinet.Bittorrent.NodeId.{closer_to}

pub record ProximityMap {ℓ} (V : Type ℓ) : Type ℓ where
  pub entries : List (Bytes × V)
  pub max_size : ℕ

abbrev pub full {ℓ} : {V : Type ℓ} → ProximityMap V → Bool
full m = leb m.max_size (length m.entries)

-- `std::prev(end())`, of a map that is not empty.
unfoldable pub last_entry {ℓ} : {E : Type ℓ} → E → List E → E
last_entry e [] = e
last_entry e (f ∷ es) = last_entry f es

-- `Parent::erase(last)`.
unfoldable pub erase_last {ℓ} : {E : Type ℓ} → List E → List E
erase_last [] = []
erase_last (e ∷ []) = []
erase_last (e ∷ (f ∷ es)) = e ∷ erase_last (f ∷ es)

module _ {ℓ} {V : Type ℓ} (pivot : Bytes) where
  -- `Parent::insert`, with `Cmp`.
  unfoldable pub map_insert : List (Bytes × V) → Bytes → V → List (Bytes × V)
  map_insert [] k v = (k, v) ∷ []
  map_insert (e ∷ es) k v =
      let rest = map_insert es k v in
      if closer_to pivot k e.0
      then (k, v) ∷ e ∷ es
      else if closer_to pivot e.0 k
      then e ∷ rest
      else e ∷ es

  -- The end of `insert`, for a full map.
  unfoldable pub replace_last : List (Bytes × V) → Bytes → V → List (Bytes × V)
  unfolding last_entry erase_last map_insert
  replace_last [] k v = []
  replace_last (e ∷ es) k v =
      if closer_to pivot (last_entry e es).0 k then e ∷ es else map_insert (erase_last (e ∷ es)) k v

  unfoldable pub insert : ProximityMap V → Bytes → V → ProximityMap V
  unfolding map_insert replace_last
  insert m k v =
      if m.max_size == 0
      then m
      else if not (full m)
      then record m { entries = map_insert m.entries k v }
      else record m { entries = replace_last m.entries k v }

  abbrev pub is_last_farther : List (Bytes × V) → Bytes → Bool
  is_last_farther [] id = false
  is_last_farther (e ∷ es) id = closer_to pivot id (last_entry e es).0

  unfoldable pub would_insert : ProximityMap V → Bytes → Bool
  unfolding last_entry
  would_insert m id =
      if m.max_size == 0
      then false
      else if ltb (length m.entries) m.max_size
      then true
      else is_last_farther m.entries id
