-- ===== src/Bittorrent/DhtNode/Answers.antt =====
-- What a node with a routing table answers: each query that has a transaction.
use ouinet.Prelude.{
  ℕ, ◌≡◌, refl, ap, ◌∙◌, ◌⊎◌, inl, inr, subst, Bool, true, false, not, List, Option, none, some,
  Bytes, codes, if_both, if◌then◌else◌,
}
use ouinet.Prelude.Int.{ℤ}
use ouinet.Bittorrent.Bencoding.{Entries, as_int, as_string}
use ouinet.Bittorrent.NodeId.{id_eq}
use ouinet.Bittorrent.Compact.{Endpoint}
use ouinet.Bittorrent.Compact.Equality.{endpoint_key}
use ouinet.Bittorrent.MutableData.{MutableDataItem, Result, returned, length_error}
use ouinet.Bittorrent.RoutingTable.{NodeContact}
use ouinet.Bittorrent.Storage.Tokens.{verify_token}
use ouinet.Bittorrent.Storage.DataStore.{DataStore}
use ouinet.Bittorrent.DhtNode.{
  Environment, Node, Response, Checked, refused, passed, id_argument, Ensures, read,
}
use ouinet.Bittorrent.DhtNode.Lookups.{find_node, get_peers, get}
use ouinet.Bittorrent.DhtNode.Announce.{announce_peer, announcement, is_responsible}
use ouinet.Bittorrent.DhtNode.Put.{
  put_query, put_mutable_item, put_immutable_value, guarded_put, finish_put, mutable_item, request,
  update_check, item_checks, is_near, is_string,
}
use ouinet.Bittorrent.DhtNode.Query.{
  question, Question, note_sender, may_route, answer, respond, handle_query,
}
use ouinet.Bittorrent.Bencoding.{Value, string, int, list, map, put, key_lt}
use ouinet.Bittorrent.MutableData.{at}
use ouinet.Bittorrent.RoutingTable.{RoutingTable}
use ouinet.Bittorrent.MutableData.Encoding.{verify_returned}
use ouinet.Bittorrent.DhtNode.{error, reply, null_table, threw}
use ouinet.Bittorrent.DhtNode.Query.{sent, datagram, inserts, transaction_view}
use ouinet.Bittorrent.DhtNode.Put.Arguments.{
  IsShort, request-IsShort, IsSized, mutable_item-IsSized,
}

-- The response is sent.
abbrev pub IsSent : Response → Type 0
IsSent (error code text) = Unit
IsSent (reply m) = Unit
IsSent null_table = ⊥
IsSent threw = ⊥

abbrev pub HasTable : Node → Type 0
HasTable node = (t : RoutingTable Endpoint) × (node.table ≡ some t)

-- What is read of an option that is there.
some_both :
    {A : Type 0} {R : Type 0} (P : R → Type 0) (o : Option A) (x : R) (f : A → R)
    → ((a : A) × (o ≡ some a))
    → ((a : A) → P (f a))
    → P (elim o [ none ↦ x | some a ↦ f a ])
some_both P none x f h q = cc
some_both P (some a) x f h q = q a

checked_both :
    {A : Type 0} {R : Type 0} (P : R → Type 0) (c : Checked A) (f : ℕ → Bytes → R) (g : A → R)
    → ((code : ℕ) (text : Bytes) → P (f code text))
    → ((a : A) → c ≡ passed a → P (g a))
    → P (elim c [ refused code text ↦ f code text | passed a ↦ g a ])
checked_both P (refused code text) f g p q = p code text
checked_both P (passed a) f g p q = q a refl

abbrev Sends : Node × Response → Type 0
Sends r = IsSent r.1

get_peers-IsSent :
    (env : Environment) (node : Node) (sender : Endpoint) (arguments : Entries) (now : ℕ)
    (rand : ℕ → ℕ)
    → IsSent (get_peers env node sender arguments now rand).1
unfolding get_peers
get_peers-IsSent env node sender arguments now rand =
    checked_both Sends
      (id_argument arguments (codes "info_hash") (codes "Missing argument 'info_hash'")
        (codes "Malformed argument 'info_hash'"))
      _ _ (λ code text. tt) λ infohash e. tt

find_node-IsSent : (node : Node) (arguments : Entries) → IsSent (find_node node arguments)
unfolding find_node
find_node-IsSent node arguments =
    checked_both IsSent
      (id_argument arguments (codes "target") (codes "Missing argument 'target'")
        (codes "Malformed argument 'target'"))
      _ _ (λ code text. tt) λ target e. tt

get-IsSent :
    (env : Environment) (node : Node) (sender : Endpoint) (arguments : Entries) (now : ℕ)
    → HasTable node
    → IsSent (get env node sender arguments now).1
unfolding get
get-IsSent env node sender arguments now h =
    checked_both Sends
      (id_argument arguments (codes "target") (codes "Missing argument 'target'")
        (codes "Malformed argument 'target'"))
      _ _ (λ code text. tt) λ target e. some_both Sends node.table _ _ h λ t. tt

announce_peer-IsSent :
    (env : Environment) (node : Node) (sender : Endpoint) (arguments : Entries) (now : ℕ)
    → IsSent (announce_peer env node sender arguments now).1
unfolding announce_peer
announce_peer-IsSent env node sender arguments now =
    checked_both Sends (announcement sender arguments) _ _ (λ code text. tt)
      λ a e.
        let checked =
          verify_token env.sha1_digest env.address_string node.tracker_tokens sender.address
            a.infohash a.token now in
        if_both Sends (not (is_responsible node a.infohash)) _ _ tt
          (if_both Sends (not checked.1) _ _ tt tt)

-- The checks come to an end.
abbrev Concludes : Result (Checked (Unit {0})) → Type 0
Concludes checks = (c : Checked (Unit {0})) × (checks ≡ returned c)

finish_put-IsSent :
    (node : Node) (store : DataStore) (checks : Result (Checked (Unit {0})))
    → Concludes checks
    → IsSent (finish_put node store checks).1
finish_put-IsSent node store (returned (refused code text)) h = tt
finish_put-IsSent node store (returned (passed done)) h = tt
finish_put-IsSent node store length_error h = cc

guarded_put-IsSent :
    (env : Environment) (node : Node) (sender : Endpoint) (target token : Bytes) (now : ℕ)
    (store : DataStore) (checks : Result (Checked (Unit {0})))
    → HasTable node
    → Concludes checks
    → IsSent (guarded_put env node sender target token now store checks).1
unfolding guarded_put
guarded_put-IsSent env node sender target token now store checks h c =
    let checked =
      verify_token env.sha1_digest env.address_string node.store_tokens sender.address target token
        now in
    if_both Sends (not checked.1) _ _ tt (
      some_both Sends node.table _ _ h λ t.
        if_both Sends (not (is_near node t target)) _ _ tt
          (finish_put-IsSent (record node { store_tokens = checked.0 }) store checks c))

item_checks-Concludes :
    (b : Result Bool) (item : MutableDataItem) (existing : Option MutableDataItem) (cas : Option ℤ)
    → ((a : Bool) × (b ≡ returned a))
    → Concludes (item_checks b item existing cas)
item_checks-Concludes (returned true) item existing cas h = (update_check item existing cas, refl)
item_checks-Concludes (returned false) item existing cas h = (_, refl)
item_checks-Concludes length_error item existing cas h = cc

put_query-IsSent :
    (env : Environment) (node : Node) (sender : Endpoint) (arguments : Entries) (now : ℕ)
    → HasTable node
    → IsSent (put_query env node sender arguments now).1
unfolding put_query put_mutable_item put_immutable_value IsShort IsSized
put_query-IsSent env node sender arguments now h =
    checked_both Sends (request arguments) _ _ (λ code text. tt)
      λ r e.
        let short : IsShort r = subst (Ensures IsShort) e (request-IsShort arguments) in
        if_both Sends (is_string (as_string (read arguments (codes "k")))) _ _
          (checked_both Sends (mutable_item arguments r.value) _ _ (λ code text. tt)
            λ item made.
              let sizes : IsSized r.value item =
                subst (Ensures (IsSized r.value)) made (mutable_item-IsSized arguments r.value) in
              guarded_put-IsSent env node sender _ r.token now _ _ h (
                item_checks-Concludes _ item _ _
                  (verify_returned env.verify_signature item (rw sizes.0 short))))
          (guarded_put-IsSent env node sender _ r.token now _ _ h (passed tt, refl))

answer-IsSent :
    (env : Environment) (node : Node) (sender : Endpoint) (q : Question) (now : ℕ) (rand : ℕ → ℕ)
    → HasTable node
    → IsSent (answer env node sender q now rand).1
unfolding answer
answer-IsSent env node sender q now rand h =
    let branch = λ (b : Bool) (x y : Node × Response). if_both Sends b x y in
    branch (id_eq q.query_type (codes "ping")) _ _ tt (
      branch (id_eq q.query_type (codes "find_node")) _ _ (find_node-IsSent node q.arguments) (
        branch (id_eq q.query_type (codes "get_peers")) _ _
          (get_peers-IsSent env node sender q.arguments now rand)
          (branch (id_eq q.query_type (codes "announce_peer")) _ _
            (announce_peer-IsSent env node sender q.arguments now)
            (branch (id_eq q.query_type (codes "get")) _ _
              (get-IsSent env node sender q.arguments now h)
              (branch (id_eq q.query_type (codes "put")) _ _
                (put_query-IsSent env node sender q.arguments now h) tt)))))

note_sender-HasTable :
    (node : Node) (q : Question) (sender : Endpoint) (now : ℕ)
    → HasTable node
    → HasTable (note_sender node q sender now).0
unfolding note_sender
note_sender-HasTable node q sender now h =
    let Ok : Node × List (NodeContact Endpoint) → Type 0 = λ r. HasTable r.0 in
    some_both Ok node.table _ _ h
      λ t. if_both Ok (may_route (as_int (read q.arguments (codes "ro")))) _ _ (_, refl) h

respond-IsSent :
    (env : Environment) (node : Node) (sender : Endpoint) (query : Entries) (now : ℕ) (rand : ℕ → ℕ)
    → HasTable node
    → IsSent (respond env node sender query now rand).1.1
unfolding respond
respond-IsSent env node sender query now rand h =
    checked_both (λ (r : Node × (List (NodeContact Endpoint) × Response)). IsSent r.1.1)
      (question query) _ _ (λ code text. tt)
      λ q e.
        answer-IsSent env (note_sender node q sender now).0 sender q now rand
          (note_sender-HasTable node q sender now h)

datagram-transaction :
    (node : Node) (sender : Endpoint) (x : Bytes) (response : Response)
    → IsSent response
    → (m : Entries) × (datagram node sender x response ≡ sent m)
      × (at m (codes "t") ≡ some (string x))
unfolding datagram at put key_lt
datagram-transaction node sender x (error code text) h = (_, refl, refl)
datagram-transaction node sender x (reply m) h = (_, refl, refl)
datagram-transaction node sender x null_table h = elim h [ ]
datagram-transaction node sender x threw h = elim h [ ]

-- The transaction is the query's, unless an entry was inserted before it.
transaction_view-kept :
    (env : Environment) (query : Entries) (x : Bytes)
    → (transaction_view env query x ≡ x)
      ⊎ (at query (codes "q") ≡ none)
      ⊎ (at query (codes "a") ≡ none)
transaction_view-kept env query x = go (at query (codes "q")) (at query (codes "a"))
  where
    go :
        (q a : Option Value)
        → ((if inserts q a then env.displaced query x else x) ≡ x) ⊎ (q ≡ none) ⊎ (a ≡ none)
    go none a = inr (inl refl)
    go (some (string s)) none = inr (inr refl)
    go (some (string s)) (some v) = inl refl
    go (some (int n)) a = inl refl
    go (some (list vs)) a = inl refl
    go (some (map m)) a = inl refl

-- A node with a routing table answers each query that has a transaction: it sends one datagram, and that
-- has the query's transaction, unless the query has no `q` or no `a`.
pub handle_query_answers :
    (env : Environment) (node : Node) (sender : Endpoint) (query : Entries) (now : ℕ) (rand : ℕ → ℕ)
    (x : Bytes)
    → as_string (read query (codes "t")) ≡ some x
    → HasTable node
    → (m : Entries) × ((handle_query env node sender query now rand).outcome ≡ sent m)
      × ((at m (codes "t") ≡ some (string x))
          ⊎ (at query (codes "q") ≡ none)
          ⊎ (at query (codes "a") ≡ none))
unfolding handle_query
handle_query_answers env node sender query now rand x t h =
    rw (t, handle_query)
      (let view = transaction_view env query x in
        let (m, sent_m, shown) =
          datagram-transaction node sender view _
            (respond-IsSent env node sender query now rand h) in
        (
          m,
          sent_m,
          elim (transaction_view-kept env query x) [
            | inl same ↦ inl (shown ∙ ap (λ (t : Bytes). some (string t)) same)
            | inr missing ↦ inr missing
          ],
        ))
