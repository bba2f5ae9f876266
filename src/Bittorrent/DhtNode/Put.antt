-- ===== src/Bittorrent/DhtNode/Put.antt =====
-- The query "put", of mutable and of immutable items. Both read `_routing_table` without a test.
pub mod Arguments
pub mod Refinement
use ouinet.Prelude.{
  ℕ, ◌*◌, Bool, true, false, not, ◌&&◌, Option, none, some, [], Bytes, codes, length, ltb, leb,
  if◌then◌else◌,
}
use ouinet.Prelude.Int.{ℤ, int_lt, int_eq}
use ouinet.Bittorrent.Bencoding.{Value, Entries, end, as_int, as_string}
use ouinet.Bittorrent.Bencoding.Encode.{bencoding_encode}
use ouinet.Bittorrent.NodeId.{id_eq}
use ouinet.Bittorrent.Compact.{Endpoint}
use ouinet.Bittorrent.MutableData.{
  MutableDataItem, Result, returned, length_error, at, verify, public_key_size, signature_size,
}
use ouinet.Bittorrent.RoutingTable.{RoutingTable}
use ouinet.Bittorrent.RoutingTable.Closest.{find_closest_routing_nodes}
use ouinet.Bittorrent.Storage.Tokens.{verify_token}
use ouinet.Bittorrent.Storage.DataStore.{
  DataStore, put_mutable, get_mutable, put_immutable, mutable_get_id, immutable_get_id,
}
use ouinet.Bittorrent.DhtNode.{
  Environment, Node, Response, error, reply, null_table, threw, Checked, refused, passed, ◌>>=◌,
  read, required, sized, contains_self, responsible_trackers_per_swarm,
}

-- The token and the value.
pub record Request : Type 0 where
  pub token : Bytes
  pub value : Value

unfoldable pub request : Entries → Checked Request
request arguments = do
  token ← required (as_string (read arguments (codes "token"))) (codes "Missing argument 'token'")
  value ← required (at arguments (codes "v")) (codes "Missing argument 'v'")
  if leb 1000 (length (bencoding_encode value))
      then refused 205 (codes "Argument 'v' too big")
      else passed record { token = token; value = value }

abbrev pub salt_argument : Option Bytes → Checked Bytes
salt_argument none = passed []
salt_argument (some salt) =
    if ltb 64 (length salt) then refused 207 (codes "Argument 'salt' too big") else passed salt

-- The item that the arguments describe.
unfoldable pub mutable_item : Entries → Value → Checked MutableDataItem
mutable_item arguments value = do
  k ← required (as_string (read arguments (codes "k"))) (codes "Missing argument 'k'")
  public_key ← sized public_key_size k (codes "Malformed argument 'k'")
  sig ← required (as_string (read arguments (codes "sig"))) (codes "Missing argument 'sig'")
  signature ← sized signature_size sig (codes "Malformed argument 'sig'")
  sequence_number ←
      required (as_int (read arguments (codes "seq"))) (codes "Missing argument 'seq'")
  salt ← salt_argument (as_string (read arguments (codes "salt")))
  passed record {
    public_key = public_key;
    salt = salt;
    value = value;
    sequence_number = sequence_number;
    signature = signature;
  }

abbrev pub swap_check : Option ℤ → MutableDataItem → Checked (Unit {0})
swap_check none existing = passed tt
swap_check (some n) existing =
    if int_eq n existing.sequence_number
    then passed tt
    else refused 301 (codes "Compare-and-swap mismatch")

-- Whether an item may take the place of the one that is stored.
unfoldable pub update_check :
    MutableDataItem → Option MutableDataItem → Option ℤ → Checked (Unit {0})
update_check item none cas = passed tt
update_check item (some existing) cas =
    if int_lt item.sequence_number existing.sequence_number
    then refused 302 (codes "Sequence number less than current")
    else if int_eq item.sequence_number existing.sequence_number
        && not (id_eq (bencoding_encode item.value) (bencoding_encode existing.value))
    then refused 302 (codes "Sequence number not updated")
    else swap_check cas existing

-- The signature is tested before the item that is stored; what `verify` throws is not caught.
abbrev pub item_checks :
    Result Bool → MutableDataItem → Option MutableDataItem → Option ℤ → Result (Checked (Unit {0}))
item_checks (returned true) item existing cas = returned (update_check item existing cas)
item_checks (returned false) item existing cas = returned (refused 206 (codes "Invalid signature"))
item_checks length_error item existing cas = length_error

abbrev pub is_near : Node → RoutingTable Endpoint → Bytes → Bool
is_near node t target =
    contains_self node target
      (find_closest_routing_nodes t target (responsible_trackers_per_swarm * 4))

abbrev pub finish_put : Node → DataStore → Result (Checked (Unit {0})) → Node × Response
finish_put node store (returned (refused code text)) = (node, error code text)
finish_put node store (returned (passed done)) = (record node { store = store }, reply end)
finish_put node store length_error = (node, threw)

-- The two guards that both kinds of item have, and then the others.
unfoldable pub guarded_put :
    Environment
    → Node
    → Endpoint
    → Bytes
    → Bytes
    → ℕ
    → DataStore
    → Result (Checked (Unit {0}))
    → Node × Response
guarded_put env node sender target token now store checks =
    let (tokens, right) =
      verify_token env.sha1_digest env.address_string node.store_tokens sender.address target token
        now in
    let node' = record node { store_tokens = tokens } in
    if not right then (node', error 203 (codes "Incorrect put token")) else elim node.table [
      | none ↦ (node', null_table)
      | some t ↦
          if not (is_near node t target)
          then (node', error 201 (codes "This data item is not my responsibility"))
          else finish_put node' store checks
    ]

unfoldable pub put_mutable_item :
    Environment → Node → Endpoint → Entries → Request → ℕ → Node × Response
put_mutable_item env node sender arguments r now = elim (mutable_item arguments r.value) [
  | refused code text ↦ (node, error code text)
  | passed item ↦
      let target = mutable_get_id env.sha1_digest item.public_key item.salt in
      let checks =
        item_checks (verify env.verify_signature item) item (get_mutable node.store target)
          (as_int (read arguments (codes "cas"))) in
      guarded_put env node sender target r.token now
        (put_mutable env.sha1_digest node.store item now) checks
]

unfoldable pub put_immutable_value : Environment → Node → Endpoint → Request → ℕ → Node × Response
put_immutable_value env node sender r now =
    guarded_put env node sender (immutable_get_id env.sha1_digest r.value) r.token now
      (put_immutable env.sha1_digest node.store r.value now) (returned (passed tt))

abbrev pub is_string : Option Bytes → Bool
is_string none = false
is_string (some s) = true

unfoldable pub put_query : Environment → Node → Endpoint → Entries → ℕ → Node × Response
put_query env node sender arguments now = elim (request arguments) [
  | refused code text ↦ (node, error code text)
  | passed r ↦
      if is_string (as_string (read arguments (codes "k")))
      then put_mutable_item env node sender arguments r now
      else put_immutable_value env node sender r now
]
