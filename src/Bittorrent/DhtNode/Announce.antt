-- ===== src/Bittorrent/DhtNode/Announce.antt =====
-- The query "announce_peer".
use ouinet.Prelude.{ℕ, Bool, true, not, Option, none, some, Bytes, codes, ◌*◌, if◌then◌else◌}
use ouinet.Prelude.Int.{ℤ, pos, int_eq}
use ouinet.Bittorrent.Bencoding.{Entries, end, as_int, as_string}
use ouinet.Bittorrent.Compact.{Endpoint}
use ouinet.Bittorrent.Compact.Equality.{endpoint_key}
use ouinet.Bittorrent.RoutingTable.Closest.{find_closest_routing_nodes}
use ouinet.Bittorrent.Storage.Tokens.{verify_token}
use ouinet.Bittorrent.Storage.Tracker.{add_peer}
use ouinet.Bittorrent.DhtNode.{
  Environment, Node, Response, error, reply, Checked, refused, passed, ◌>>=◌, read, id_argument,
  required, contains_self, to_port, responsible_trackers_per_swarm,
}

pub record Announcement : Type 0 where
  pub infohash : Bytes
  pub token : Bytes
  pub port : ℕ

-- `effective_port`, as 16 bits.
abbrev pub effective_port : Endpoint → Option ℤ → ℤ → ℕ
effective_port sender none port = to_port port
effective_port sender (some implied) port =
    if int_eq implied (pos 1) then sender.port else to_port port

unfoldable pub announcement : Endpoint → Entries → Checked Announcement
announcement sender arguments = do
  infohash ←
      id_argument arguments (codes "info_hash") (codes "Missing argument 'info_hash'")
        (codes "Malformed argument 'info_hash'")
  token ← required (as_string (read arguments (codes "token"))) (codes "Missing argument 'token'")
  port ← required (as_int (read arguments (codes "port"))) (codes "Missing argument 'port'")
  passed record {
    infohash = infohash;
    token = token;
    port = effective_port sender (as_int (read arguments (codes "implied_port"))) port;
  }

-- Without a routing table the node answers for every swarm.
abbrev pub is_responsible : Node → Bytes → Bool
is_responsible node infohash = elim node.table [
  | none ↦ true
  | some t ↦
      contains_self node infohash
        (find_closest_routing_nodes t infohash (responsible_trackers_per_swarm * 4))
]

unfoldable pub announce_peer : Environment → Node → Endpoint → Entries → ℕ → Node × Response
announce_peer env node sender arguments now = elim (announcement sender arguments) [
  | refused code text ↦ (node, error code text)
  | passed a ↦
      let (tokens, right) =
        verify_token env.sha1_digest env.address_string node.tracker_tokens sender.address
          a.infohash a.token now in
      let peer : Endpoint = record { address = sender.address; port = a.port } in
      if not (is_responsible node a.infohash)
      then (node, error 201 (codes "This torrent is not my responsibility"))
      else if not right
      then (record node { tracker_tokens = tokens }, error 203 (codes "Incorrect announce token"))
      else (
        record node { tracker_tokens = tokens; swarms = add_peer node.swarms a.infohash peer now },
        reply end,
      )
]
