-- ===== src/Bittorrent/DhtNode/Steps.antt =====
-- The abstract machine of a node: what its tables, swarms and items may become.
use ouinet.Prelude.{ℕ, ◌≤◌, ◌<◌, ◌≡◌, true, false, List, Option, some, Bytes, length}
use ouinet.Prelude.Int.{ℤ}
use ouinet.Bittorrent.Bencoding.{Value}
use ouinet.Bittorrent.Bencoding.Encode.{bencoding_encode}
use ouinet.Bittorrent.NodeId.Metric.{IsId}
use ouinet.Bittorrent.Compact.{Endpoint}
use ouinet.Bittorrent.Compact.Equality.{endpoint_key}
use ouinet.Bittorrent.MutableData.{
  MutableDataItem, returned, verify, public_key_size, signature_size,
}
use ouinet.Bittorrent.RoutingTable.{RoutingTable, NodeContact}
use ouinet.Bittorrent.RoutingTable.Update.{try_add_node}
use ouinet.Bittorrent.Storage.Swarm.{Swarm}
use ouinet.Bittorrent.Storage.Tracker.{add_peer, list_peers}
use ouinet.Bittorrent.Storage.DataStore.{
  DataStore, get_mutable, put_mutable, put_immutable, mutable_get_id,
}
use ouinet.Bittorrent.DhtNode.{Environment, Node, passed}
use ouinet.Bittorrent.DhtNode.Put.{update_check}

-- What a node knows and stores, without its write tokens.
pub record Contents : Type 0 where
  pub table : Option (RoutingTable Endpoint)
  pub swarms : List (Bytes × Swarm Endpoint)
  pub store : DataStore

abbrev pub contents : Node → Contents
contents node = record { table = node.table; swarms = node.swarms; store = node.store }

-- An item that may be stored: it is signed and short, and may replace what is stored.
pub record IsAcceptable (env : Environment) (store : DataStore) (item : MutableDataItem)
    : Type 0 where
  pub signed : verify env.verify_signature item ≡ returned true
  pub short : length (bencoding_encode item.value) < 1000
  pub short_salt : length item.salt ≤ 64
  pub key_size : length item.public_key ≡ public_key_size
  pub signature_length : length item.signature ≡ signature_size
  pub cas : Option ℤ
  pub updates :
      update_check item
        (get_mutable store (mutable_get_id env.sha1_digest item.public_key item.salt))
        cas
      ≡ passed tt

pub data Step (env : Environment) : Contents → Contents → Type 0 where
  -- A contact is offered to the routing table.
  learn :
      (c : Contents) (t : RoutingTable Endpoint) (contact : NodeContact Endpoint) (now : ℕ)
      → c.table ≡ some t
      → IsId contact.id
      → Step env c (record c { table = some (try_add_node t contact false now).0 })
  -- Peers are listed, which moves them in their swarm.
  ask :
      (c : Contents) (id : Bytes) (count : ℕ) (rand : ℕ → ℕ)
      → Step env c (record c { swarms = (list_peers c.swarms id count rand).0 })
  announce :
      (c : Contents) (id : Bytes) (peer : Endpoint) (now : ℕ)
      → Step env c (record c { swarms = add_peer c.swarms id peer now })
  store_item :
      (c : Contents) (item : MutableDataItem) (now : ℕ)
      → IsAcceptable env c.store item
      → Step env c (record c { store = put_mutable env.sha1_digest c.store item now })
  store_value :
      (c : Contents) (value : Value) (now : ℕ)
      → length (bencoding_encode value) < 1000
      → Step env c (record c { store = put_immutable env.sha1_digest c.store value now })

pub data Steps (env : Environment) (c : Contents) : Contents → Type 0 where
  here : Steps env c c
  next : {d f : Contents} → Steps env c d → Step env d f → Steps env c f

pub Steps-trans :
    {env : Environment} {c d f : Contents} → Steps env c d → Steps env d f → Steps env c f
Steps-trans s here = s
Steps-trans s (next r p) = next (Steps-trans s r) p

abbrev pub To : Environment → Node → Node → Type 0
To env a b = Steps env (contents a) (contents b)
