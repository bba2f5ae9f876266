-- ===== src/Bittorrent/DhtNode/Tokens.antt =====
-- How the queries meet: the token that "get_peers" gives is the one that "announce_peer" asks for.
use ouinet.Prelude.{
  ℕ, ◌+◌, ◌≤◌, ◌<◌, ◌≡◌, refl, sym, subst, ap, ◌∙◌, Bool, true, false, List, [], ◌∷◌, Option, none,
  some, Bytes, codes, if◌then◌else◌,
}
use mathlib.Core.Option.{some-injective}
use ouinet.Bittorrent.Bencoding.{Value, Entries, string, end, put, key_lt, as_string}
use ouinet.Bittorrent.MutableData.{at}
use ouinet.Bittorrent.Compact.{Endpoint, compact_all}
use ouinet.Bittorrent.Compact.Equality.{endpoint_key}
use ouinet.Bittorrent.RoutingTable.{bucket_size}
use ouinet.Bittorrent.Storage.Swarm.{seconds}
use ouinet.Bittorrent.Storage.Tokens.{
  token_validity_seconds, secret_refresh_time_seconds, generate_token, verify_token,
}
use ouinet.Bittorrent.Storage.Tokens.Validity.{verify_token-generate_token, run}
use ouinet.Bittorrent.Storage.Tracker.{add_peer, list_peers}
use ouinet.Bittorrent.DhtNode.{
  Environment, Node, Response, error, reply, null_table, threw, Checked, passed, id_argument,
  closest, put_nodes,
}
use ouinet.Bittorrent.DhtNode.Lookups.{get_peers, num_peers, put_values}
use ouinet.Bittorrent.DhtNode.Announce.{announce_peer, announcement, Announcement, is_responsible}

-- What a reply has under a key.
abbrev pub reply_entry : Response → Bytes → Option Value
reply_entry (error code text) key = none
reply_entry (reply m) key = at m key
reply_entry null_table key = none
reply_entry threw key = none

token_of_reply :
    (v4 : Bool) (nodes token : Bytes) (peers : List Endpoint)
    → at
        (put_values peers (
          put
            (codes "token")
            (string token)
            (put (if v4 then codes "nodes" else codes "nodes6") (string nodes) end)))
        (codes "token")
      ≡ some (string token)
unfolding at put key_lt
token_of_reply true nodes token [] = refl
token_of_reply true nodes token (peer ∷ peers) = refl
token_of_reply false nodes token [] = refl
token_of_reply false nodes token (peer ∷ peers) = refl

-- The announcement that "announce_peer" reads.
abbrev pub info_hash_argument : Entries → Checked Bytes
info_hash_argument arguments =
    id_argument arguments (codes "info_hash") (codes "Missing argument 'info_hash'")
      (codes "Malformed argument 'info_hash'")

string_injective : {s t : Bytes} → some (string s) ≡ some (string t) → s ≡ t
unfolding as_string
string_injective {s} {t} h = some-injective s t (ap as_string (some-injective _ _ h))

-- The token is right for a while.
token_accepted :
    (env : Environment) (node : Node) (sender : Endpoint) (asked : Entries) (now later : ℕ)
    (rand : ℕ → ℕ) (infohash token : Bytes)
    → node.tracker_tokens.last_generated + seconds secret_refresh_time_seconds < now
    → later ≤ now + seconds token_validity_seconds
    → info_hash_argument asked ≡ passed infohash
    → reply_entry (get_peers env node sender asked now rand).1 (codes "token") ≡ some (string token)
    → (verify_token env.sha1_digest env.address_string
        (get_peers env node sender asked now rand).0.tracker_tokens
        sender.address
        infohash
        token
        later).1
      ≡ true
unfolding run get_peers
token_accepted env node sender asked now later rand infohash token old soon found given =
    let made =
      generate_token env.sha1_digest env.address_string node.tracker_tokens sender.address infohash
        now in
    let nodes = compact_all (closest node infohash bucket_size) in
    let known : get_peers env node sender asked now rand ≡ (
      record node {
        tracker_tokens = made.0;
        swarms = (list_peers node.swarms infohash num_peers rand).0;
      },
      reply (
          put_values (list_peers node.swarms infohash num_peers rand).1
            (put (codes "token") (string made.1) (put_nodes node nodes end))),
    ) =
      rw (found, get_peers) refl in
    let read : some (string made.1) ≡ some (string token) =
      sym
        (token_of_reply node.is_v4 nodes made.1 (list_peers node.swarms infohash num_peers rand).1)
      ∙ subst (λ r. reply_entry r.1 (codes "token") ≡ some (string token)) known given in
    rw (known, sym (string_injective read))
      (verify_token-generate_token env.sha1_digest env.address_string node.tracker_tokens
        sender.address infohash now later [] old tt soon)

-- A peer that announces itself to a swarm with the token that "get_peers" gave it for that swarm is
-- added, within the token's validity time, if the node still holds itself responsible and had made its
-- last secret more than the refresh time before the token.
pub announce_peer-get_peers :
    (env : Environment) (node : Node) (sender : Endpoint) (asked announced : Entries)
    (now later : ℕ) (rand : ℕ → ℕ) (a : Announcement)
    → node.tracker_tokens.last_generated + seconds secret_refresh_time_seconds < now
    → later ≤ now + seconds token_validity_seconds
    → info_hash_argument asked ≡ passed a.infohash
    → reply_entry (get_peers env node sender asked now rand).1 (codes "token")
      ≡ some (string a.token)
    → announcement sender announced ≡ passed a
    → is_responsible (get_peers env node sender asked now rand).0 a.infohash ≡ true
    → let node' = (get_peers env node sender asked now rand).0 in
      let handled = announce_peer env node' sender announced later in
      (handled.1 ≡ reply end)
      × (handled.0.swarms
          ≡ add_peer node'.swarms a.infohash
              record { address = sender.address; port = a.port }
              later)
unfolding announce_peer
announce_peer-get_peers env node sender asked announced now later rand a old soon found given read
      near =
    rw
      (
        read,
        announce_peer,
        near,
        token_accepted env node sender asked now later rand a.infohash a.token old soon found given,
      )
      (refl, refl)
