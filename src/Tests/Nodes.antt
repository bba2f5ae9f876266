-- ===== src/Tests/Nodes.antt =====
-- src/bittorrent/node_id.cpp, code.h, node_contact.h and proximity_map.h at concrete inputs.
use ouinet.Prelude.{ℕ, ◌≡◌, refl, true, [], ◌∷◌, ◌++◌, Bytes, arith}
use ouinet.Bittorrent.NodeId.{repeat, bit, set_bit, closer_to}
use ouinet.Prelude.{take, length, ◌≤◌}
use ouinet.Bittorrent.RoutingTable.{NodeContact}
use ouinet.Bittorrent.ProximityMap.{ProximityMap, map_insert, insert}
use ouinet.Bittorrent.ProximityMap.Nearest.{IsFresh, Sorted, insert-Sorted}
use ouinet.Bittorrent.Compact.{Endpoint, v4}

-- The identifier whose last byte is `b`.
abbrev id_ending : ℕ → Bytes
id_ending b = repeat 19 0 ++ b ∷ []

second_bit : bit (set_bit (repeat 20 0) 1 true) 1 ≡ true
unfolding bit set_bit
second_bit = refl

abbrev near_node : NodeContact Endpoint
near_node = record {
  id = id_ending 1;
  endpoint = record { address = v4 (127 ∷ 0 ∷ 0 ∷ 1 ∷ []); port = 6881 };
}

abbrev proximity_map : ProximityMap ℕ
proximity_map = record { entries = (id_ending 1, 10) ∷ (id_ending 4, 40) ∷ []; max_size = 2 }

proximity_map-Sorted : Sorted (id_ending 0) proximity_map.entries
unfolding closer_to
proximity_map-Sorted = ((refl, tt), (tt, tt))

three-IsFresh : IsFresh (id_ending 3) proximity_map.entries
three-IsFresh = (cc, (cc, tt))

insert-Sorted_example :
    let m = insert (id_ending 0) proximity_map (id_ending 3) 30 in
    (m.entries ≡ take 2 (map_insert (id_ending 0) proximity_map.entries (id_ending 3) 30))
    × Sorted (id_ending 0) m.entries
    × (length m.entries ≤ 2)
insert-Sorted_example =
    insert-Sorted (id_ending 0) (id_ending 3) 30 (omega arith) (omega arith) proximity_map
      (omega arith) three-IsFresh proximity_map-Sorted (omega arith)
