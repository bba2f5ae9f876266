-- ===== src/Bittorrent/DhtNode.antt =====
-- The queries that a node of the DHT answers: `DhtNode::handle_query` of src/bittorrent/mainline_dht.cpp
-- and the state that it reads and writes (dht_node.h). What SHA-1, the printed form of an address and
-- gcrypt's test of signatures return is a record of functions. A query is a bencoded map; its answer is
-- the datagram that is sent to the sender.
pub mod Lookups
pub mod Announce
pub mod Put
pub mod Query
pub mod Steps
pub mod Refinement
pub mod Valid
pub mod Sequence
pub mod Answers
pub mod Tokens
pub mod Refused
pub mod Requests
use ouinet.Prelude.{
  ◌≡◌, refl, ◌⊎◌, inl, inr, ℕ, zero, suc, ◌+◌, ◌-◌, ◌*◌, ◌%◌, ◌^◌, Bool, true, false, not, List, [],
  ◌∷◌, ◌++◌, Option, none, some, Bytes, codes, length, any, ltb, ◌==◌, if◌then◌else◌,
}
use ouinet.Prelude.Int.{ℤ, pos, negsuc, int_eq}
use ouinet.Prelude.Eq.{Eq}
use ouinet.Bittorrent.Bencoding.{
  Value, Values, Entries, int, string, list, map, nil, cons, end, put, as_int, as_string,
}
use ouinet.Bittorrent.MutableData.{at}
use ouinet.Bittorrent.NodeId.{closer_to, id_eq}
use ouinet.Bittorrent.Compact.{Address, v4, v6, Endpoint, encode_endpoint, compact_all}
use ouinet.Bittorrent.RoutingTable.{NodeContact, RoutingTable}
use ouinet.Bittorrent.RoutingTable.Closest.{find_closest_routing_nodes}
use ouinet.Bittorrent.Storage.Swarm.{Swarm}
use ouinet.Bittorrent.Storage.Tokens.{TokenStorage}
use ouinet.Bittorrent.Storage.DataStore.{DataStore}

-- The calls of other libraries. `displaced` is what a view into the map of a query shows after `map[key]`
-- has inserted an entry before it, which moves what the view points to.
pub record Environment : Type 0 where
  pub sha1_digest : Bytes → Bytes
  pub address_string : Address → Bytes
  pub verify_signature : Bytes → Bytes → Bytes → Bool
  pub displaced : Entries → Bytes → Bytes

-- The members that a query reads or writes. `table` is `none` until the node has bootstrapped.
pub record Node : Type 0 where
  pub node_id : Bytes
  pub is_v4 : Bool
  pub table : Option (RoutingTable Endpoint)
  pub tracker_tokens : TokenStorage
  pub swarms : List (Bytes × Swarm Endpoint)
  pub store_tokens : TokenStorage
  pub store : DataStore

abbrev pub responsible_trackers_per_swarm : ℕ
responsible_trackers_per_swarm = 8

-- `map[key]`: a missing key is inserted with the default value, the empty string.
abbrev pub or_empty : Option Value → Value
or_empty none = string []
or_empty (some v) = v

unfoldable pub read : Entries → Bytes → Value
read m key = or_empty (at m key)

-- What a handler says: `send_error`, `send_reply`, the access through a null `_routing_table`, or an
-- exception.
pub data Response : Type 0 where
  error : ℕ → Bytes → Response
  reply : Entries → Response
  null_table threw : Response

-- The guards of the handlers, which return early with an error.
pub data Checked {ℓ} (A : Type ℓ) : Type ℓ where
  refused : ℕ → Bytes → Checked A
  passed : A → Checked A

infixl 5 ◌>>=◌
abbrev pub ◌>>=◌ {ℓ κ} : {A : Type ℓ} {B : Type κ} → Checked A → (A → Checked B) → Checked B
refused code text >>= f = refused code text
passed a >>= f = f a

abbrev pub required {ℓ} : {A : Type ℓ} → Option A → Bytes → Checked A
required none missing = refused 203 missing
required (some a) missing = passed a

abbrev pub sized : ℕ → Bytes → Bytes → Checked Bytes
sized size s malformed = if length s == size then passed s else refused 203 malformed

-- An argument of 20 bytes.
unfoldable pub id_argument : Entries → Bytes → Bytes → Bytes → Checked Bytes
id_argument arguments name missing malformed = do
  id ← required (as_string (read arguments name)) missing
  sized 20 id malformed

-- The contacts that a reply holds, and the entry for them.
abbrev pub closest : Node → Bytes → ℕ → List (NodeContact Endpoint)
closest node target count = elim node.table [
  | none ↦ []
  | some t ↦ find_closest_routing_nodes t target count
]

abbrev pub put_nodes : Node → Bytes → Entries → Entries
put_nodes node nodes m = put (if node.is_v4 then codes "nodes" else codes "nodes6") (string nodes) m

-- Whether this node is closer to the target than one of the nodes that it knows best for it.
abbrev pub contains_self : Node → Bytes → List (NodeContact Endpoint) → Bool
contains_self node target closer_nodes = any (λ i. closer_to target node.node_id i.id) closer_nodes

-- The conversion of an `int64_t` to the 16 bits of a port.
abbrev pub to_port : ℤ → ℕ
to_port (pos n) = n % 2 ^ 16
to_port (negsuc n) = 2 ^ 16 - 1 - n % 2 ^ 16

pub Checked-cases {ℓ} :
    {A : Type ℓ} (c : Checked A)
    → ((code : ℕ) × (text : Bytes) × (c ≡ refused code text)) ⊎ ((a : A) × (c ≡ passed a))
Checked-cases (refused code text) = inl (code, text, refl)
Checked-cases (passed a) = inr (a, refl)

-- What the guards ensure of a value that passes them.
abbrev pub Ensures {ℓ κ} : {A : Type ℓ} → (A → Type κ) → Checked A → Type κ
Ensures P (refused code text) = Unit
Ensures P (passed a) = P a
