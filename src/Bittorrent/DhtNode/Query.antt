-- ===== src/Bittorrent/DhtNode/Query.antt =====
-- `handle_query`, and the datagram that it sends.
use ouinet.Prelude.{
  ℕ, Bool, true, false, not, Option, none, some, [], Bytes, codes, if◌then◌else◌, List,
}
use ouinet.Prelude.Int.{ℤ, pos, int_eq}
use ouinet.Bittorrent.Bencoding.{
  Value, Entries, int, string, list, map, nil, cons, end, put, as_int, as_string, as_map,
}
use ouinet.Bittorrent.MutableData.{at}
use ouinet.Bittorrent.NodeId.{id_eq}
use ouinet.Bittorrent.Compact.{Endpoint, encode_endpoint}
use ouinet.Bittorrent.Compact.Equality.{endpoint_key}
use ouinet.Bittorrent.RoutingTable.{NodeContact, RoutingTable}
use ouinet.Bittorrent.RoutingTable.Update.{try_add_node}
use ouinet.Bittorrent.DhtNode.{
  Environment, Node, Response, error, reply, null_table, threw, Checked, refused, passed, ◌>>=◌,
  read, required, sized,
}
use ouinet.Bittorrent.DhtNode.Lookups.{find_node, get_peers, get}
use ouinet.Bittorrent.DhtNode.Announce.{announce_peer}
use ouinet.Bittorrent.DhtNode.Put.{put_query}

pub record Question : Type 0 where
  pub query_type : Bytes
  pub arguments : Entries
  pub id : Bytes

-- The guards before the routing table is touched.
unfoldable pub question : Entries → Checked Question
question query = do
  query_type ← required (as_string (read query (codes "q"))) (codes "Missing field 'q'")
  arguments ← required (as_map (read query (codes "a"))) (codes "Missing field 'a'")
  sender_id ← required (as_string (read arguments (codes "id"))) (codes "Missing argument 'id'")
  id ← sized 20 sender_id (codes "Malformed argument 'id'")
  passed record { query_type = query_type; arguments = arguments; id = id }

-- `!read_only_flag || *read_only_flag != 1`.
abbrev pub may_route : Option ℤ → Bool
may_route none = true
may_route (some flag) = not (int_eq flag (pos 1))

abbrev pub add_sender :
    RoutingTable Endpoint
    → NodeContact Endpoint
    → ℕ
    → RoutingTable Endpoint × List (NodeContact Endpoint)
add_sender t contact now = try_add_node t contact false now

-- The sender is offered to the routing table, which may ping contacts.
unfoldable pub note_sender : Node → Question → Endpoint → ℕ → Node × List (NodeContact Endpoint)
note_sender node q sender now = elim node.table [
  | none ↦ (node, [])
  | some t ↦
      let (t', pings) = add_sender t record { id = q.id; endpoint = sender } now in
      if may_route (as_int (read q.arguments (codes "ro")))
      then (record node { table = some t' }, pings)
      else (node, [])
]

-- The branches on the type of the query.
unfoldable pub answer : Environment → Node → Endpoint → Question → ℕ → (ℕ → ℕ) → Node × Response
answer env node sender q now rand =
    if id_eq q.query_type (codes "ping")
    then (node, reply end)
    else if id_eq q.query_type (codes "find_node")
    then (node, find_node node q.arguments)
    else if id_eq q.query_type (codes "get_peers")
    then get_peers env node sender q.arguments now rand
    else if id_eq q.query_type (codes "announce_peer")
    then announce_peer env node sender q.arguments now
    else if id_eq q.query_type (codes "get")
    then get env node sender q.arguments now
    else if id_eq q.query_type (codes "put")
    then put_query env node sender q.arguments now
    else (node, error 204 (codes "Query type not implemented"))

-- A query without a transaction is ignored; otherwise a datagram is sent, unless the node reads through
-- its null routing table or an exception leaves the handler.
pub data Outcome : Type 0 where
  ignored crashed thrown : Outcome
  sent : Entries → Outcome

-- `send_error` and `send_reply`.
unfoldable pub datagram : Node → Endpoint → Bytes → Response → Outcome
datagram node sender transaction (error code text) = sent (
    put (codes "ip") (string (encode_endpoint sender)) (
      put (codes "e") (list (cons (int (pos code)) (cons (string text) nil)))
        (put (codes "t") (string transaction) (put (codes "y") (string (codes "e")) end))))
datagram node sender transaction (reply m) = sent (
    put (codes "ip") (string (encode_endpoint sender)) (
      put (codes "r") (map (put (codes "id") (string node.node_id) m))
        (put (codes "t") (string transaction) (put (codes "y") (string (codes "r")) end))))
datagram node sender transaction null_table = crashed
datagram node sender transaction threw = thrown

pub record Handled : Type 0 where
  pub node : Node
  pub pings : List (NodeContact Endpoint)
  pub outcome : Outcome

unfoldable pub respond :
    Environment
    → Node
    → Endpoint
    → Entries
    → ℕ
    → (ℕ → ℕ)
    → Node × (List (NodeContact Endpoint) × Response)
respond env node sender query now rand = elim (question query) [
  | refused code text ↦ (node, ([], error code text))
  | passed q ↦
      let (noted, pings) = note_sender node q sender now in
      let (node', response) = answer env noted sender q now rand in (node', (pings, response))
]

-- Whether `query["q"]` or `query["a"]` inserts an entry, which comes before `t`.
abbrev pub inserts : Option Value → Option Value → Bool
inserts none a = true
inserts (some (string s)) none = true
inserts (some (string s)) (some v) = false
inserts (some v) a = false

-- What the view of the transaction shows when the datagram is made.
abbrev pub transaction_view : Environment → Entries → Bytes → Bytes
transaction_view env query transaction =
    if inserts (at query (codes "q")) (at query (codes "a"))
    then env.displaced query transaction
    else transaction

unfoldable pub handle_query : Environment → Node → Endpoint → Entries → ℕ → (ℕ → ℕ) → Handled
unfolding respond datagram question note_sender answer
handle_query env node sender query now rand = elim (as_string (read query (codes "t"))) [
  | none ↦ record { node = node; pings = []; outcome = ignored }
  | some transaction ↦
      let (node', rest) = respond env node sender query now rand in
      record {
        node = node';
        pings = rest.0;
        outcome = datagram node sender (transaction_view env query transaction) rest.1;
      }
]
