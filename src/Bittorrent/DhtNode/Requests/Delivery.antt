-- ===== src/Bittorrent/DhtNode/Requests/Delivery.antt =====
-- To whom a response is delivered.
use ouinet.Prelude.{
  ◌≤◌, ◌≡◌, ◌≢◌, refl, sym, true, false, Option, none, some, Bytes, codes, inl, inr, arith, ap, ◌∙◌,
  Bool-cases, Option-cases, if_both, ◌||◌, leb,
}
use ouinet.Prelude.Maps.{find, find-assign_same}
use ouinet.Bittorrent.Bencoding.{Entries}
use ouinet.Bittorrent.NodeId.{id_eq}
use ouinet.Bittorrent.Compact.{Endpoint}
use ouinet.Bittorrent.Compact.Equality.{endpoint_key}
use ouinet.Bittorrent.Storage.Keys.{id_key}
use ouinet.Bittorrent.DhtNode.Requests.{
  Receiver, Received, skipped, busy, query, delivered, deliver, classify, message_of, receive,
  begin_request, max_handle_query_concurrency, transaction_string,
}

-- A delivered response comes from where its request went.
abbrev pub IsDelivery : Receiver → Endpoint → Received → Type 0
IsDelivery r sender skipped = Unit
IsDelivery r sender busy = Unit
IsDelivery r sender (query message) = Unit
IsDelivery r sender (delivered transaction message) =
    find r.active_requests transaction ≡ some sender

deliver-IsDelivery :
    (r : Receiver) (o : Option Endpoint) (sender : Endpoint) (transaction : Bytes)
    (message : Entries)
    → find r.active_requests transaction ≡ o
    → IsDelivery r sender (deliver o sender transaction message)
deliver-IsDelivery r none sender transaction message h = tt
deliver-IsDelivery r (some destination) sender transaction message h =
    elim (Bool-cases (endpoint_key.beq destination sender)) [
      | inl same ↦ rw same (h ∙ ap some (endpoint_key.beq_sound destination sender same))
      | inr other ↦ rw other tt
    ]

-- The state stays within the limit, and what is delivered has the right sender.
abbrev Ok : Receiver → Endpoint → Receiver × Received → Type 0
Ok r sender result =
    IsDelivery r sender result.1 × (result.0.concurrency ≤ max_handle_query_concurrency)

classify-Ok :
    (r : Receiver) (sender : Endpoint) (message : Entries) (message_type transaction : Bytes)
    → r.concurrency ≤ max_handle_query_concurrency
    → Ok r sender (classify r sender message message_type transaction)
unfolding classify
classify-Ok r sender message message_type transaction h =
    if_both (Ok r sender) (id_eq message_type (codes "q")) _ _
      (elim (Bool-cases (leb max_handle_query_concurrency r.concurrency)) [
        | inl full ↦ rw full (tt, h)
        | inr room ↦ rw room (tt, ground arith)
      ])
      (if_both (Ok r sender) (id_eq message_type (codes "r") || id_eq message_type (codes "e")) _ _
        (
          deliver-IsDelivery r (find r.active_requests transaction) sender transaction message refl,
          h,
        )
        (tt, h))

-- Whatever a packet holds, no more than 32 queries are handled at a time, if no more were before, and a
-- response is delivered to a request only if its sender is the destination of the request with that
-- transaction.
pub receive-IsDelivery :
    (r : Receiver) (sender : Endpoint) (packet : Bytes)
    → r.concurrency ≤ max_handle_query_concurrency
    → IsDelivery r sender (receive r sender packet).1
      × ((receive r sender packet).0.concurrency ≤ max_handle_query_concurrency)
unfolding receive
receive-IsDelivery r sender packet h = elim (Option-cases (message_of packet)) [
  | inl unread ↦ rw (unread, receive) (tt, h)
  | inr (m, read) ↦ rw (read, receive) (classify-Ok r sender m.0 m.1 m.2 h)
]

-- A response that the destination of a request sends with its transaction is delivered to it, and the
-- same packet from another endpoint is skipped.
pub receive-begin_request :
    (r : Receiver) (destination other : Endpoint) (query_type : Bytes) (arguments message : Entries)
    (packet : Bytes)
    → message_of packet ≡ some (message, codes "r", transaction_string r.next_transaction_id)
    → other ≢ destination
    → let r' = (begin_request r destination query_type arguments).0 in
      ((receive r' destination packet).1
        ≡ delivered (transaction_string r.next_transaction_id) message)
      × ((receive r' other packet).1 ≡ skipped)
unfolding receive classify begin_request id_eq
receive-begin_request r destination other query_type arguments message packet read different =
    let same : endpoint_key.beq destination destination ≡ true =
      endpoint_key.beq_complete destination destination refl in
    let apart : endpoint_key.beq destination other ≡ false =
      elim (Bool-cases (endpoint_key.beq destination other)) [
        | inl e ↦ absurd (different (sym (endpoint_key.beq_sound destination other e)))
        | inr e ↦ e
      ] in
    let found =
      find-assign_same r.active_requests (transaction_string r.next_transaction_id) destination in
    (
      rw (read, receive, classify, found, same) refl,
      rw (read, receive, classify, found, apart) refl,
    )
