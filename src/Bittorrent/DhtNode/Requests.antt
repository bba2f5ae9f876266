-- ===== src/Bittorrent/DhtNode/Requests.antt =====
-- The requests that a node sends and the packets that it receives: `new_transaction_string`,
-- `send_query_await_reply` and `receive_loop` of src/bittorrent/mainline_dht.cpp. The coroutine that
-- waits for the reply is split where it waits: `begin_request` is what it does before and
-- `finish_request` what it does after, with the reply or without one.
pub mod Transactions
pub mod Delivery
use ouinet.Prelude.{
  ℕ, zero, suc, ◌+◌, ◌-◌, ◌*◌, ◌/◌, ◌%◌, ◌^◌, Bool, true, false, not, ◌&&◌, ◌||◌, List, [], ◌∷◌,
  Option, none, some, Bytes, codes, leb, ◌==◌, if◌then◌else◌,
}
use ouinet.Prelude.Eq.{Eq}
use ouinet.Prelude.Maps.{find, assign, erase}
use ouinet.Bittorrent.Bencoding.{Value, Entries, string, map, end, put, as_string, as_map}
use ouinet.Bittorrent.Bencoding.Decode.{bencoding_decode}
use ouinet.Bittorrent.MutableData.{at}
use ouinet.Bittorrent.NodeId.{id_eq}
use ouinet.Bittorrent.Compact.{Endpoint}
use ouinet.Bittorrent.Compact.Equality.{endpoint_key}
use ouinet.Bittorrent.Storage.Keys.{id_key}
use ouinet.Bittorrent.RoutingTable.{RoutingTable, NodeContact}
use ouinet.Bittorrent.RoutingTable.Update.{try_add_node, fail_node}
use ouinet.Bittorrent.DhtNode.{read}

-- The `while` loop: each round takes a byte off the number.
digits : ℕ → ℕ → Bytes
digits zero n = []
digits (suc fuel) n = if n == 0 then [] else n % 256 ∷ digits fuel (n / 256)

-- `new_transaction_string` of a 32-bit identifier, whose loop ends within four rounds.
unfoldable pub transaction_string : ℕ → Bytes
unfolding digits
transaction_string id = if id == 0 then 0 ∷ [] else digits 4 id

abbrev pub max_handle_query_concurrency : ℕ
max_handle_query_concurrency = 32

-- `_active_requests` with their destinations, `_next_transaction_id` and the queries that are being
-- handled.
pub record Receiver : Type 0 where
  pub active_requests : List (Bytes × Endpoint)
  pub next_transaction_id : ℕ
  pub concurrency : ℕ

-- The datagram of `send_query`.
abbrev pub query_message : Bytes → Bytes → Entries → Entries
query_message transaction query_type arguments = put (codes "y") (string (codes "q")) (
    put (codes "q") (string query_type)
      (put (codes "a") (map arguments) (put (codes "t") (string transaction) end)))

-- The transaction, the datagram and the state while the request waits.
unfoldable pub begin_request : Receiver → Endpoint → Bytes → Entries → Receiver × (Bytes × Entries)
begin_request r destination query_type arguments =
    let transaction = transaction_string r.next_transaction_id in
    (
      record r {
        active_requests = assign r.active_requests transaction destination;
        next_transaction_id = (r.next_transaction_id + 1) % 2 ^ 32;
      },
      (transaction, query_message transaction query_type arguments),
    )

-- What a packet leads to.
pub data Received : Type 0 where
  skipped busy : Received
  query : Entries → Received
  delivered : Bytes → Entries → Received

-- The end of the loop's body for a response.
abbrev pub deliver : Option Endpoint → Endpoint → Bytes → Entries → Received
deliver none sender transaction message = skipped
deliver (some destination) sender transaction message =
    if endpoint_key.beq destination sender then delivered transaction message else skipped

-- A message with its type and its transaction.
unfoldable pub classify : Receiver → Endpoint → Entries → Bytes → Bytes → Receiver × Received
classify r sender message message_type transaction =
    if id_eq message_type (codes "q")
    then (if leb max_handle_query_concurrency r.concurrency
        then (r, busy)
        else (record r { concurrency = suc r.concurrency }, query message))
    else if id_eq message_type (codes "r") || id_eq message_type (codes "e")
    then (r, deliver (find r.active_requests transaction) sender transaction message)
    else (r, skipped)

infixl 5 ◌>>=◌
abbrev ◌>>=◌ : {A B : Type 0} → Option A → (A → Option B) → Option B
none >>= f = none
some a >>= f = f a

-- What is read of a packet: the message, its type and its transaction.
unfoldable pub message_of : Bytes → Option (Entries × Bytes × Bytes)
message_of packet = do
  decoded ← bencoding_decode packet
  message ← as_map decoded
  y ← at message (codes "y")
  t ← at message (codes "t")
  message_type ← as_string y
  transaction ← as_string t
  some (message, message_type, transaction)

-- The body of the loop, for a packet.
unfoldable pub receive : Receiver → Endpoint → Bytes → Receiver × Received
receive r sender packet = elim (message_of packet) [
  | none ↦ (r, skipped)
  | some m ↦ classify r sender m.0 m.1 m.2
]

-- The end of the coroutine that handles a query.
abbrev pub query_done : Receiver → Receiver
query_done r = record r { concurrency = r.concurrency - 1 }

-- The destination that a request names, with its contact if that is known.
unfoldable pub finish_request :
    Receiver
    → RoutingTable Endpoint
    → Bytes
    → Option (NodeContact Endpoint)
    → Option Entries
    → ℕ
    → Receiver × (RoutingTable Endpoint × List (NodeContact Endpoint))
finish_request r table transaction none result now =
    (record r { active_requests = erase r.active_requests transaction }, (table, []))
finish_request r table transaction (some contact) result now =
    (record r { active_requests = erase r.active_requests transaction }, update result)
  where
    is_reply : Option Bytes → Bool
    is_reply none = false
    is_reply (some y) = id_eq y (codes "r")

    update : Option Entries → RoutingTable Endpoint × List (NodeContact Endpoint)
    update none = fail_node table contact now
    update (some message) =
        if is_reply (as_string (read message (codes "y")))
        then try_add_node table contact true now
        else fail_node table contact now
