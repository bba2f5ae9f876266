-- ===== src/Tests/Queries.antt =====
-- The queries of src/bittorrent/mainline_dht.cpp at concrete inputs.
use ouinet.Prelude.{
  ℕ, ◌≡◌, ◌≢◌, ◌⊎◌, ◌≤◌, refl, true, [], ◌∷◌, Bytes, none, some, arith, codes, take,
}
use ouinet.Prelude.Int.{pos}
use ouinet.Bittorrent.Bencoding.{
  Entries, string, int, map, end, put, key_lt, as_string, as_map, as_int,
}
use ouinet.Bittorrent.NodeId.{repeat}
use ouinet.Bittorrent.Compact.{Endpoint, v4}
use ouinet.Bittorrent.Compact.Equality.{endpoint_key}
use ouinet.Bittorrent.MutableData.{at}
use ouinet.Bittorrent.RoutingTable.{new}
use ouinet.Bittorrent.RoutingTable.Update.Valid.{new-IsValid}
use ouinet.Bittorrent.Storage.Swarm.{seconds}
use ouinet.Bittorrent.Storage.Tokens.{new_storage, generate_token}
use ouinet.Bittorrent.Storage.Tracker.{add_peer, list_peers}
use ouinet.Prelude.Maps.{find}
use ouinet.Bittorrent.Storage.Keys.{id_key}
use ouinet.Bittorrent.Storage.DataStore.{empty_store, get_mutable}
use ouinet.Bittorrent.DhtNode.{Environment, Node, error, reply, read, passed, id_argument}
use ouinet.Bittorrent.DhtNode.Lookups.{get_peers}
use ouinet.Bittorrent.DhtNode.Announce.{announce_peer, announcement, Announcement, is_responsible}
use ouinet.Bittorrent.DhtNode.Put.{put_query}
use ouinet.Bittorrent.DhtNode.Query.{handle_query, question, sent, transaction_view}
use ouinet.Bittorrent.DhtNode.Steps.{Steps, contents}
use ouinet.Bittorrent.DhtNode.Refinement.{HasByteId, handle_query-Steps}
use ouinet.Bittorrent.DhtNode.Valid.{IsValid, handle_query-IsValid}
use ouinet.Bittorrent.DhtNode.Sequence.{IsNoOlder, handle_query-IsNoOlder}
use ouinet.Bittorrent.DhtNode.Answers.{handle_query_answers}
use ouinet.Bittorrent.DhtNode.Tokens.{announce_peer-get_peers, reply_entry, info_hash_argument}
use ouinet.Bittorrent.Bencoding.Decode.{bencoding_decode}
use ouinet.Bittorrent.DhtNode.Requests.{
  Receiver, skipped, delivered, message_of, receive, begin_request, transaction_string,
  max_handle_query_concurrency,
}
use ouinet.Bittorrent.DhtNode.Requests.Delivery.{
  IsDelivery, receive-IsDelivery, receive-begin_request,
}
use ouinet.Parse.Number.{number, signed_number}
use ouinet.Bittorrent.DhtNode.Refused.{put_query_refuses}

abbrev environment : Environment
environment = record {
  sha1_digest = λ s. take 20 s;
  address_string = λ a. codes "127.0.0.1";
  verify_signature = λ key message signature. true;
  displaced = λ query transaction. codes "a";
}

abbrev node : Node
node = record {
  node_id = repeat 20 1;
  is_v4 = true;
  table = some (new (repeat 20 1));
  tracker_tokens = new_storage (codes "salt");
  swarms = [];
  store_tokens = new_storage (codes "salt");
  store = empty_store;
}

abbrev sender : Endpoint
sender = record { address = v4 (127 ∷ 0 ∷ 0 ∷ 1 ∷ []); port = 6881 }

abbrev arguments : Entries
arguments =
    put (codes "id") (string (repeat 20 7)) (put (codes "info_hash") (string (repeat 20 9)) end)

abbrev query : Entries
query =
    put (codes "a") (map arguments)
      (put (codes "q") (string (codes "get_peers")) (put (codes "t") (string (codes "aa")) end))

abbrev rand : ℕ → ℕ
rand i = i

query-HasByteId : HasByteId query
unfolding question read as_string at put key_lt as_map
query-HasByteId = omega arith

node-IsValid : IsValid environment (contents node)
node-IsValid = record {
  table_valid = new-IsValid (repeat 20 1) (omega arith);
  swarms_indexed = tt;
  items_signed = tt;
  values_digested = tt;
}

handle_query-Steps_example :
    Steps environment
      (contents node)
      (contents (handle_query environment node sender query (seconds 400) rand).node)
handle_query-Steps_example =
    handle_query-Steps environment node sender query (seconds 400) rand query-HasByteId

handle_query-IsValid_example :
    IsValid environment
      (contents (handle_query environment node sender query (seconds 400) rand).node)
handle_query-IsValid_example =
    handle_query-IsValid environment node sender query (seconds 400) rand query-HasByteId
      node-IsValid

handle_query-IsNoOlder_example : IsNoOlder (get_mutable node.store (codes "item")) (
    get_mutable
      (handle_query environment node sender query (seconds 400) rand).node.store
      (codes "item"))
handle_query-IsNoOlder_example =
    handle_query-IsNoOlder environment node sender query (seconds 400) rand (codes "item")
      query-HasByteId

transaction_read : as_string (read query (codes "t")) ≡ some (codes "aa")
unfolding read as_string at put key_lt
transaction_read = refl

handle_query_answers_example :
    (m : Entries) × ((handle_query environment node sender query (seconds 400) rand).outcome
      ≡ sent m)
    × ((at m (codes "t") ≡ some (string (codes "aa")))
        ⊎ (at query (codes "q") ≡ none)
        ⊎ (at query (codes "a") ≡ none))
handle_query_answers_example =
    handle_query_answers environment node sender query (seconds 400) rand (codes "aa")
      transaction_read (_, refl)

-- The query's type is missing.
nameless_query :
    transaction_view environment (put (codes "t") (string (codes "aa")) end) (codes "aa")
    ≡ codes "a"
unfolding at put key_lt
nameless_query = refl

k_absent : at arguments (codes "k") ≡ none
unfolding at put key_lt
k_absent = refl

put_query_refuses_example :
    (code : ℕ) × (text : Bytes) × (put_query environment node sender arguments (seconds 400)
      ≡ (node, error code text))
put_query_refuses_example =
    put_query_refuses environment node sender arguments (seconds 400) k_absent

-- A node that has not bootstrapped.
abbrev young_node : Node
young_node = record node { table = none }

abbrev made_token : Bytes
made_token =
    (generate_token environment.sha1_digest environment.address_string young_node.tracker_tokens
      sender.address (repeat 20 9) (seconds 400)).1

abbrev made : Announcement
made = record { infohash = repeat 20 9; token = made_token; port = 8080 }

abbrev announced : Entries
announced =
    put (codes "info_hash") (string (repeat 20 9))
      (put (codes "token") (string made_token) (put (codes "port") (int (pos 8080)) end))

asked : info_hash_argument arguments ≡ passed (repeat 20 9)
unfolding id_argument read as_string at put key_lt
asked = refl

given :
    reply_entry
      (get_peers environment young_node sender arguments (seconds 400) rand).1
      (codes "token")
    ≡ some (string made_token)
unfolding get_peers id_argument read as_string at put key_lt list_peers find
given = refl

announcement_read : announcement sender announced ≡ passed made
unfolding announcement id_argument read as_string as_int at put key_lt
announcement_read = refl

responsible :
    is_responsible
      (get_peers environment young_node sender arguments (seconds 400) rand).0
      (repeat 20 9)
    ≡ true
unfolding get_peers id_argument read as_string at put key_lt
responsible = refl

announce_peer-get_peers_example :
    let node' = (get_peers environment young_node sender arguments (seconds 400) rand).0 in
    let handled = announce_peer environment node' sender announced (seconds 1000) in
    (handled.1 ≡ reply end)
    × (handled.0.swarms
        ≡ add_peer node'.swarms
            (repeat 20 9)
            record { address = sender.address; port = 8080 }
            (seconds 1000))
announce_peer-get_peers_example =
    announce_peer-get_peers environment young_node sender arguments announced (seconds 400)
      (seconds 1000) rand made (omega arith) (omega arith) asked given announcement_read responsible

abbrev identifier : ℕ
identifier = 258

abbrev receiver : Receiver
receiver = record { active_requests = []; next_transaction_id = 65; concurrency = 32 }

abbrev response : Entries
response = put (codes "t") (string (codes "A")) (put (codes "y") (string (codes "r")) end)

abbrev packet : Bytes
packet = codes "d1:t1:A1:y1:re"

receive-IsDelivery_example :
    IsDelivery receiver sender (receive receiver sender packet).1
    × ((receive receiver sender packet).0.concurrency ≤ max_handle_query_concurrency)
receive-IsDelivery_example = receive-IsDelivery receiver sender packet (omega arith)

packet_read :
    message_of packet ≡ some (response, codes "r", transaction_string receiver.next_transaction_id)
unfolding message_of bencoding_decode signed_number number at put key_lt as_map as_string
    transaction_string
packet_read = refl

abbrev stranger : Endpoint
stranger = record { address = v4 (127 ∷ 0 ∷ 0 ∷ 2 ∷ []); port = 6881 }

stranger_apart : stranger ≢ sender
stranger_apart = cc

receive-begin_request_example :
    let r' = (begin_request receiver sender (codes "ping") end).0 in
    ((receive r' sender packet).1
      ≡ delivered (transaction_string receiver.next_transaction_id) response)
    × ((receive r' stranger packet).1 ≡ skipped)
receive-begin_request_example =
    receive-begin_request receiver sender stranger (codes "ping") end response packet packet_read
      stranger_apart
