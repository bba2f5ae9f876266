-- ===== src/Bittorrent/DhtNode/Valid.antt =====
-- The invariant of a node, which every step of the abstract machine keeps, and so every query.
use ouinet.Prelude.{
  ℕ, ◌≤◌, ◌<◌, ◌≡◌, refl, subst, true, false, Option, none, some, Bytes, All, length,
}
use ouinet.Prelude.Maps.{All-assign}
use ouinet.Bittorrent.Bencoding.{Value, Entries}
use ouinet.Bittorrent.Bencoding.Encode.{bencoding_encode}
use ouinet.Bittorrent.Compact.{Endpoint}
use ouinet.Bittorrent.Compact.Equality.{endpoint_key}
use ouinet.Bittorrent.MutableData.{
  MutableDataItem, returned, verify, public_key_size, signature_size,
}
use ouinet.Bittorrent.RoutingTable.{RoutingTable}
use ouinet.Bittorrent.RoutingTable.Update.Valid as Table
use ouinet.Bittorrent.Storage.Keys.{id_key}
use ouinet.Bittorrent.Storage.Tracker.{AllIndexed, add_peer-AllIndexed, list_peers-AllIndexed}
use ouinet.Bittorrent.Storage.DataStore.{
  StoredItem, put_mutable, put_immutable, mutable_get_id, immutable_get_id,
}
use ouinet.Bittorrent.DhtNode.{Environment, Node}
use ouinet.Bittorrent.DhtNode.Query.{handle_query}
use ouinet.Bittorrent.DhtNode.Steps.{
  Contents, contents, Step, learn, ask, announce, store_item, store_value, Steps, here, next,
}
use ouinet.Bittorrent.DhtNode.Refinement.{HasByteId, handle_query-Steps}

-- A stored mutable item lies under its identifier, is signed and has the sizes of BEP 44.
abbrev pub IsSigned : Environment → Bytes × StoredItem MutableDataItem → Type 0
IsSigned env kv =
    (kv.0 ≡ mutable_get_id env.sha1_digest kv.1.item.public_key kv.1.item.salt)
    × (verify env.verify_signature kv.1.item ≡ returned true)
    × (length (bencoding_encode kv.1.item.value) < 1000)
    × (length kv.1.item.salt ≤ 64)
    × (length kv.1.item.public_key ≡ public_key_size)
    × (length kv.1.item.signature ≡ signature_size)

-- A stored immutable item lies under its digest and is short.
abbrev pub IsDigested : Environment → Bytes × StoredItem Value → Type 0
IsDigested env kv =
    (kv.0 ≡ immutable_get_id env.sha1_digest kv.1.item)
    × (length (bencoding_encode kv.1.item) < 1000)

abbrev pub IsValidTable : Option (RoutingTable Endpoint) → Type 0
IsValidTable none = Unit
IsValidTable (some t) = Table.IsValid t

pub record IsValid (env : Environment) (c : Contents) : Type 0 where
  pub table_valid : IsValidTable c.table
  pub swarms_indexed : AllIndexed c.swarms
  pub items_signed : All (IsSigned env) c.store.mutable_data
  pub values_digested : All (IsDigested env) c.store.immutable_data

Step-IsValid : {env : Environment} {c d : Contents} → Step env c d → IsValid env c → IsValid env d
unfolding put_mutable put_immutable
Step-IsValid (learn c t contact now found id) v = record {
  table_valid =
      Table.try_add_node-IsValid t contact false now (subst IsValidTable found v.table_valid) id;
  swarms_indexed = v.swarms_indexed;
  items_signed = v.items_signed;
  values_digested = v.values_digested;
}
Step-IsValid (ask c id count rand) v = record {
  table_valid = v.table_valid;
  swarms_indexed = list_peers-AllIndexed c.swarms id count rand v.swarms_indexed;
  items_signed = v.items_signed;
  values_digested = v.values_digested;
}
Step-IsValid (announce c id peer now) v = record {
  table_valid = v.table_valid;
  swarms_indexed = add_peer-AllIndexed c.swarms id peer now v.swarms_indexed;
  items_signed = v.items_signed;
  values_digested = v.values_digested;
}
Step-IsValid {env} (store_item c item now a) v = record {
  table_valid = v.table_valid;
  swarms_indexed = v.swarms_indexed;
  items_signed =
      All-assign (IsSigned env) c.store.mutable_data _ _ v.items_signed
        (refl, a.signed, a.short, a.short_salt, a.key_size, a.signature_length);
  values_digested = v.values_digested;
}
Step-IsValid {env} (store_value c value now short) v = record {
  table_valid = v.table_valid;
  swarms_indexed = v.swarms_indexed;
  items_signed = v.items_signed;
  values_digested =
      All-assign (IsDigested env) c.store.immutable_data _ _ v.values_digested (refl, short);
}

pub Steps-IsValid :
    {env : Environment} {c d : Contents} → Steps env c d → IsValid env c → IsValid env d
Steps-IsValid here v = v
Steps-IsValid (next s r) v = Step-IsValid r (Steps-IsValid s v)

-- A query, whatever it is, leaves the node valid: its routing table and the indices of its swarms stay
-- valid, and each stored item lies under its identifier, is short and, if it is mutable, is signed. The
-- identifier that the query gives for its sender is made of bytes.
pub handle_query-IsValid :
    (env : Environment) (node : Node) (sender : Endpoint) (query : Entries) (now : ℕ) (rand : ℕ → ℕ)
    → HasByteId query
    → IsValid env (contents node)
    → IsValid env (contents (handle_query env node sender query now rand).node)
handle_query-IsValid env node sender query now rand h v =
    Steps-IsValid (handle_query-Steps env node sender query now rand h) v
