-- ===== src/Bittorrent/DhtNode/Put/Refinement.antt =====
-- The query "put" as steps of the abstract machine.
use ouinet.Prelude.{ℕ, ◌≡◌, refl, subst, not, Bytes, codes, if_both, option_both, inl, inr}
use ouinet.Bittorrent.Bencoding.{Entries, as_int, as_string}
use ouinet.Bittorrent.Compact.{Endpoint}
use ouinet.Bittorrent.Compact.Equality.{endpoint_key}
use ouinet.Bittorrent.MutableData.{Result, returned, length_error, verify}
use ouinet.Bittorrent.Storage.Tokens.{verify_token}
use ouinet.Bittorrent.Storage.DataStore.{DataStore, get_mutable, mutable_get_id}
use ouinet.Bittorrent.DhtNode.{
  Environment, Node, Response, Checked, refused, passed, Checked-cases, Ensures, read,
}
use ouinet.Bittorrent.DhtNode.Put.{
  put_query, put_mutable_item, put_immutable_value, guarded_put, finish_put, mutable_item, request,
  Request, item_checks, is_near, is_string,
}
use ouinet.Bittorrent.DhtNode.Steps.{contents, Step, store_item, store_value, here, next, To}
use ouinet.Bittorrent.DhtNode.Put.Arguments.{
  IsSized, IsShort, request-IsShort, mutable_item-IsSized, item_checks-passed,
}

-- The items and the others, if the checks pass.
abbrev Put : Environment → Node → DataStore → Result (Checked (Unit {0})) → Type 0
Put env node store checks =
    checks ≡ returned (passed tt)
    → Step env (contents node) (record (contents node) { store = store })

finish_put-To :
    (env : Environment) (node : Node) (store : DataStore) (checks : Result (Checked (Unit {0})))
    → Put env node store checks
    → To env node (finish_put node store checks).0
finish_put-To env node store (returned (refused code text)) h = here
finish_put-To env node store (returned (passed done)) h = next here (h refl)
finish_put-To env node store length_error h = here

guarded_put-To :
    (env : Environment) (node : Node) (sender : Endpoint) (target token : Bytes) (now : ℕ)
    (store : DataStore) (checks : Result (Checked (Unit {0})))
    → Put env node store checks
    → To env node (guarded_put env node sender target token now store checks).0
unfolding guarded_put
guarded_put-To env node sender target token now store checks h =
    let Ok : Node × Response → Type 0 = λ r. To env node r.0 in
    let checked =
      verify_token env.sha1_digest env.address_string node.store_tokens sender.address target token
        now in
    let node' = record node { store_tokens = checked.0 } in
    if_both Ok (not checked.1) _ _ here (
      option_both Ok node.table _ _ here λ t found.
        if_both Ok (not (is_near node t target)) _ _ here (finish_put-To env node' store checks h))

put_mutable_item-To :
    (env : Environment) (node : Node) (sender : Endpoint) (arguments : Entries) (r : Request)
    (now : ℕ)
    → IsShort r
    → To env node (put_mutable_item env node sender arguments r now).0
unfolding put_mutable_item IsSized IsShort
put_mutable_item-To env node sender arguments r now short =
    elim (Checked-cases (mutable_item arguments r.value)) [
      | inl (code, text, e) ↦ rw (e, put_mutable_item) here
      | inr (item, e) ↦
          let existing =
            get_mutable node.store (mutable_get_id env.sha1_digest item.public_key item.salt) in
          let cas = as_int (read arguments (codes "cas")) in
          let signed = verify env.verify_signature item in
          let (value, salt, key, signature) : IsSized r.value item =
            subst (Ensures (IsSized r.value)) e (mutable_item-IsSized arguments r.value) in
          rw (e, put_mutable_item)
            (guarded_put-To env node sender _ r.token now _ (item_checks signed item existing cas)
              λ h. store_item (contents node) item now record {
                signed = (item_checks-passed signed item existing cas h).0;
                short = rw value short;
                short_salt = salt;
                key_size = key;
                signature_length = signature;
                cas = cas;
                updates = (item_checks-passed signed item existing cas h).1;
              })
    ]

put_immutable_value-To :
    (env : Environment) (node : Node) (sender : Endpoint) (r : Request) (now : ℕ)
    → IsShort r
    → To env node (put_immutable_value env node sender r now).0
unfolding put_immutable_value IsShort
put_immutable_value-To env node sender r now short =
    guarded_put-To env node sender _ r.token now _ _
      λ h. store_value (contents node) r.value now short

pub put_query-To :
    (env : Environment) (node : Node) (sender : Endpoint) (arguments : Entries) (now : ℕ)
    → To env node (put_query env node sender arguments now).0
unfolding put_query
put_query-To env node sender arguments now = elim (Checked-cases (request arguments)) [
  | inl (code, text, e) ↦ rw (e, put_query) here
  | inr (r, e) ↦
      let short : IsShort r = subst (Ensures IsShort) e (request-IsShort arguments) in
      rw (e, put_query)
        (if_both (λ (x : Node × Response). To env node x.0)
          (is_string (as_string (read arguments (codes "k")))) _ _
          (put_mutable_item-To env node sender arguments r now short)
          (put_immutable_value-To env node sender r now short))
]
