-- ===== src/Bittorrent/DhtNode/Lookups.antt =====
-- The queries that change no stored peer or item: "find_node", "get_peers" and "get".
use ouinet.Prelude.{ℕ, List, [], ◌∷◌, Option, none, some, Bytes, codes, if◌then◌else◌}
use ouinet.Prelude.Int.{ℤ, int_lt}
use ouinet.Bittorrent.Bencoding.{
  Value, Values, Entries, int, string, list, nil, cons, end, put, as_int,
}
use ouinet.Bittorrent.NodeId.{id_eq}
use ouinet.Bittorrent.Compact.{Endpoint, encode_endpoint, compact, compact_all}
use ouinet.Bittorrent.Compact.Equality.{endpoint_key}
use ouinet.Bittorrent.MutableData.{MutableDataItem}
use ouinet.Bittorrent.RoutingTable.{NodeContact, bucket_size}
use ouinet.Bittorrent.RoutingTable.Closest.{find_closest_routing_nodes}
use ouinet.Bittorrent.Storage.Tokens.{generate_token}
use ouinet.Bittorrent.Storage.Tracker.{list_peers}
use ouinet.Bittorrent.Storage.DataStore.{get_immutable, get_mutable}
use ouinet.Bittorrent.DhtNode.{
  Environment, Node, Response, error, reply, null_table, refused, passed, read, id_argument,
  closest, put_nodes,
}

-- The contacts of the answer to "find_node": the first one alone if it is the target.
abbrev pub found_nodes : Bytes → List (NodeContact Endpoint) → Bytes
found_nodes target [] = []
found_nodes target (c ∷ cs) = if id_eq c.id target then compact c else compact_all (c ∷ cs)

unfoldable pub find_node : Node → Entries → Response
find_node node arguments =
    elim (id_argument arguments (codes "target") (codes "Missing argument 'target'")
      (codes "Malformed argument 'target'")) [
        | refused code text ↦ error code text
        | passed target ↦
            reply (put_nodes node (found_nodes target (closest node target bucket_size)) end)
      ]

-- `reply["values"]`.
abbrev pub peer_list : List Endpoint → Values
peer_list [] = nil
peer_list (peer ∷ peers) = cons (string (encode_endpoint peer)) (peer_list peers)

abbrev pub put_values : List Endpoint → Entries → Entries
put_values [] m = m
put_values (peer ∷ peers) m = put (codes "values") (list (peer_list (peer ∷ peers))) m

abbrev pub num_peers : ℕ
num_peers = 50

-- `rand` is what `std::rand` returns.
unfoldable pub get_peers : Environment → Node → Endpoint → Entries → ℕ → (ℕ → ℕ) → Node × Response
get_peers env node sender arguments now rand =
    elim (id_argument arguments (codes "info_hash") (codes "Missing argument 'info_hash'")
      (codes "Malformed argument 'info_hash'")) [
        | refused code text ↦ (node, error code text)
        | passed infohash ↦
            let nodes = compact_all (closest node infohash bucket_size) in
            let (tokens, token) =
              generate_token env.sha1_digest env.address_string node.tracker_tokens sender.address
                infohash now in
            let (swarms, peers) = list_peers node.swarms infohash num_peers rand in
            (
              record node { tracker_tokens = tokens; swarms = swarms },
              reply (
                  put_values peers (put (codes "token") (string token) (put_nodes node nodes end))),
            )
      ]

-- The fields of a mutable item in the reply to "get".
abbrev pub put_item : MutableDataItem → Entries → Entries
put_item item m = put (codes "v") item.value (
    put (codes "sig") (string item.signature)
      (put (codes "seq") (int item.sequence_number) (put (codes "k") (string item.public_key) m)))

-- The end of "get" for a mutable item: nothing more is sent of one that the sender has.
abbrev pub put_mutable_item : Option ℤ → Option MutableDataItem → Entries → Entries
put_mutable_item sequence_number none m = m
put_mutable_item none (some item) m = put_item item m
put_mutable_item (some n) (some item) m =
    if int_lt item.sequence_number n then put_item item m else m

abbrev pub put_found : Option ℤ → Option Value → Option MutableDataItem → Entries → Entries
put_found none (some value) item m = put (codes "v") value m
put_found none none item m = put_mutable_item none item m
put_found (some n) value item m = put_mutable_item (some n) item m

-- "get" reads `_routing_table` without a test.
unfoldable pub get : Environment → Node → Endpoint → Entries → ℕ → Node × Response
get env node sender arguments now =
    elim (id_argument arguments (codes "target") (codes "Missing argument 'target'")
      (codes "Malformed argument 'target'")) [
        | refused code text ↦ (node, error code text)
        | passed target ↦ elim node.table [
          | none ↦ (node, null_table)
          | some t ↦
              let nodes = compact_all (find_closest_routing_nodes t target bucket_size) in
              let (tokens, token) =
                generate_token env.sha1_digest env.address_string node.store_tokens sender.address
                  target now in
              let m = put (codes "token") (string token) (put_nodes node nodes end) in
              (
                record node { store_tokens = tokens },
                reply (
                    put_found (as_int (read arguments (codes "seq")))
                      (get_immutable node.store target) (get_mutable node.store target) m),
              )
        ]
      ]
