-- ===== src/Tests/Table.antt =====
-- src/bittorrent/routing_table.cpp at concrete inputs, with numbers for endpoints.
use ouinet.Prelude.{ℕ, ◌≡◌, true, [], ◌∷◌, ◌++◌, Bytes, arith, take, reverse, drop}
use ouinet.Prelude.Eq.{nat_eq}
use ouinet.Bittorrent.NodeId.{repeat}
use ouinet.Bittorrent.RoutingTable.{NodeContact, RoutingTable, new, find_bucket_id}
use ouinet.Bittorrent.RoutingTable.Closest.{
  find_closest_routing_nodes, find_closest_routing_nodes-take, all_contacts,
}
use ouinet.Bittorrent.RoutingTable.Update.{try_add_node, fail_node}
use ouinet.Bittorrent.RoutingTable.Update.Valid.{
  IsValid, new-IsValid, try_add_node-IsValid, fail_node-IsValid,
}

abbrev owner : Bytes
owner = repeat 20 0

abbrev contact : NodeContact ℕ
contact = record { id = repeat 19 0 ++ 7 ∷ []; endpoint = 6881 }

abbrev table : RoutingTable ℕ
table = new owner

table-IsValid : IsValid table
table-IsValid = new-IsValid owner (omega arith)

try_add_node-IsValid_example : IsValid (try_add_node table contact true 100).0
try_add_node-IsValid_example =
    try_add_node-IsValid table contact true 100 table-IsValid (omega arith)

fail_node-IsValid_example :
    IsValid (fail_node (try_add_node table contact true 100).0 contact 200).0
fail_node-IsValid_example =
    fail_node-IsValid (try_add_node table contact true 100).0 contact 200
      (try_add_node-IsValid table contact true 100 table-IsValid (omega arith))

find_closest_routing_nodes-take_example :
    find_closest_routing_nodes table owner 3
    ≡ take 3 (
        all_contacts (drop (find_bucket_id table owner) table.buckets)
        ++ all_contacts (reverse (take (find_bucket_id table owner) table.buckets)))
find_closest_routing_nodes-take_example = find_closest_routing_nodes-take table owner 3
