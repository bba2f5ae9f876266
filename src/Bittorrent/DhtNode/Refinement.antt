-- ===== src/Bittorrent/DhtNode/Refinement.antt =====
-- The handlers of the queries as steps of the abstract machine.
use ouinet.Prelude.{
  ℕ, ◌≡◌, subst, Bool, not, List, codes, All, length, if_both, option_both, inl, inr, Option-cases,
  arith,
}
use ouinet.Bittorrent.Bencoding.{Entries, as_int, as_string}
use ouinet.Bittorrent.NodeId.{id_eq}
use ouinet.Bittorrent.NodeId.Metric.{IsId, IsByte}
use ouinet.Bittorrent.Compact.{Endpoint}
use ouinet.Bittorrent.Compact.Equality.{endpoint_key}
use ouinet.Bittorrent.RoutingTable.{NodeContact}
use ouinet.Bittorrent.Storage.Tokens.{verify_token}
use ouinet.Bittorrent.DhtNode.{
  Environment, Node, Response, Checked-cases, id_argument, Ensures, read,
}
use ouinet.Bittorrent.DhtNode.Lookups.{get_peers, get, num_peers}
use ouinet.Bittorrent.DhtNode.Announce.{announce_peer, announcement, is_responsible}
use ouinet.Bittorrent.DhtNode.Query.{
  question, Question, note_sender, may_route, answer, respond, handle_query,
}
use ouinet.Bittorrent.DhtNode.Steps.{
  contents, learn, ask, announce, Steps, here, next, Steps-trans, To,
}
use ouinet.Bittorrent.DhtNode.Put.Refinement.{put_query-To}

get_peers-To :
    (env : Environment) (node : Node) (sender : Endpoint) (arguments : Entries) (now : ℕ)
    (rand : ℕ → ℕ)
    → To env node (get_peers env node sender arguments now rand).0
unfolding get_peers
get_peers-To env node sender arguments now rand =
    elim (Checked-cases (
      id_argument arguments (codes "info_hash") (codes "Missing argument 'info_hash'")
        (codes "Malformed argument 'info_hash'"))) [
          | inl (code, text, e) ↦ rw (e, get_peers) here
          | inr (infohash, e) ↦
              rw (e, get_peers) (next here (ask (contents node) infohash num_peers rand))
        ]

get-To :
    (env : Environment) (node : Node) (sender : Endpoint) (arguments : Entries) (now : ℕ)
    → To env node (get env node sender arguments now).0
unfolding get
get-To env node sender arguments now =
    elim (Checked-cases (
      id_argument arguments (codes "target") (codes "Missing argument 'target'")
        (codes "Malformed argument 'target'"))) [
          | inl (code, text, e) ↦ rw (e, get) here
          | inr (infohash, e) ↦
              rw (e, get)
                (option_both (λ (r : Node × Response). To env node r.0) node.table _ _ here
                  λ t found. here)
        ]

announce_peer-To :
    (env : Environment) (node : Node) (sender : Endpoint) (arguments : Entries) (now : ℕ)
    → To env node (announce_peer env node sender arguments now).0
unfolding announce_peer
announce_peer-To env node sender arguments now =
    elim (Checked-cases (announcement sender arguments)) [
      | inl (code, text, e) ↦ rw (e, announce_peer) here
      | inr (a, e) ↦
          let Ok : Node × Response → Type 0 = λ r. To env node r.0 in
          let checked =
            verify_token env.sha1_digest env.address_string node.tracker_tokens sender.address
              a.infohash a.token now in
          rw (e, announce_peer)
            (if_both Ok (not (is_responsible node a.infohash)) _ _ here (
              if_both Ok (not checked.1) _ _ here
                (next here (announce (contents node) a.infohash _ now))))
    ]

answer-To :
    (env : Environment) (node : Node) (sender : Endpoint) (q : Question) (now : ℕ) (rand : ℕ → ℕ)
    → To env node (answer env node sender q now rand).0
unfolding answer
answer-To env node sender q now rand =
    let branch = λ (b : Bool) (x y : Node × Response).
      if_both (λ (r : Node × Response). To env node r.0) b x y in
    branch (id_eq q.query_type (codes "ping")) _ _ here (
      branch (id_eq q.query_type (codes "find_node")) _ _ here (
        branch (id_eq q.query_type (codes "get_peers")) _ _
          (get_peers-To env node sender q.arguments now rand)
          (branch (id_eq q.query_type (codes "announce_peer")) _ _
            (announce_peer-To env node sender q.arguments now)
            (branch (id_eq q.query_type (codes "get")) _ _ (get-To env node sender q.arguments now)
              (branch (id_eq q.query_type (codes "put")) _ _
                (put_query-To env node sender q.arguments now) here)))))

note_sender-To :
    (env : Environment) (node : Node) (q : Question) (sender : Endpoint) (now : ℕ)
    → IsId q.id
    → To env node (note_sender node q sender now).0
unfolding note_sender
note_sender-To env node q sender now h =
    let Ok : Node × List (NodeContact Endpoint) → Type 0 = λ r. To env node r.0 in
    option_both Ok node.table _ _ here λ t found.
      if_both Ok (may_route (as_int (read q.arguments (codes "ro")))) _ _
        (next here (learn (contents node) t record { id = q.id; endpoint = sender } now found h))
        here

question-length : (query : Entries) → Ensures (λ q. length q.id ≡ 20) (question query)
unfolding question
question-length query = ground arith

-- The sender's identifier, where the query has one, is made of bytes.
abbrev pub HasByteId : Entries → Type 0
HasByteId query = Ensures (λ q. All IsByte q.id) (question query)

respond-To :
    (env : Environment) (node : Node) (sender : Endpoint) (query : Entries) (now : ℕ) (rand : ℕ → ℕ)
    → HasByteId query
    → To env node (respond env node sender query now rand).0
unfolding respond
respond-To env node sender query now rand h = elim (Checked-cases (question query)) [
  | inl (code, text, e) ↦ rw (e, respond) here
  | inr (q, e) ↦
      let bytes : All IsByte q.id = subst (Ensures (λ q. All IsByte q.id)) e h in
      let size : length q.id ≡ 20 =
        subst (Ensures (λ q. length q.id ≡ 20)) e (question-length query) in
      rw (e, respond)
        (Steps-trans (note_sender-To env node q sender now (size, bytes))
          (answer-To env (note_sender node q sender now).0 sender q now rand))
]

-- What a query changes of the tables, swarms and items of a node is a few steps of the abstract machine,
-- if the identifier that it gives for its sender is made of bytes.
pub handle_query-Steps :
    (env : Environment) (node : Node) (sender : Endpoint) (query : Entries) (now : ℕ) (rand : ℕ → ℕ)
    → HasByteId query
    → Steps env (contents node) (contents (handle_query env node sender query now rand).node)
unfolding handle_query
handle_query-Steps env node sender query now rand h =
    elim (Option-cases (as_string (read query (codes "t")))) [
      | inl t ↦ rw (t, handle_query) here
      | inr (x, t) ↦ rw (t, handle_query) (respond-To env node sender query now rand h)
    ]
