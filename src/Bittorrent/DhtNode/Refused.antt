-- ===== src/Bittorrent/DhtNode/Refused.antt =====
-- The branch of "put" that a request without a key takes.
use ouinet.Prelude.{ℕ, ◌≡◌, refl, none, Bytes, codes, inl, inr}
use ouinet.Bittorrent.Bencoding.{Entries, as_string}
use ouinet.Bittorrent.Compact.{Endpoint}
use ouinet.Bittorrent.MutableData.{at}
use ouinet.Bittorrent.DhtNode.{Environment, Node, error, read, refused, Checked-cases}
use ouinet.Bittorrent.DhtNode.Put.{put_query, put_mutable_item, mutable_item, request, Request}

without_key :
    (env : Environment) (node : Node) (sender : Endpoint) (arguments : Entries) (r : Request)
    (now : ℕ)
    → at arguments (codes "k") ≡ none
    → put_mutable_item env node sender arguments r now
      ≡ (node, error 203 (codes "Malformed argument 'k'"))
unfolding put_mutable_item mutable_item read as_string
without_key env node sender arguments r now absent =
    let e : mutable_item arguments r.value ≡ refused 203 (codes "Malformed argument 'k'") =
      rw (mutable_item, read, absent) refl in
    rw (put_mutable_item, e) refl

-- A "put" without the argument "k", so of an immutable item, is answered by an error and stores nothing,
-- whatever its other arguments are.
pub put_query_refuses :
    (env : Environment) (node : Node) (sender : Endpoint) (arguments : Entries) (now : ℕ)
    → at arguments (codes "k") ≡ none
    → (code : ℕ) × (text : Bytes) × (put_query env node sender arguments now
        ≡ (node, error code text))
unfolding put_query read as_string
put_query_refuses env node sender arguments now absent = elim (Checked-cases (request arguments)) [
  | inl (code, text, e) ↦ (code, text, rw (e, put_query) refl)
  | inr (r, e) ↦ (
    203,
    codes "Malformed argument 'k'",
    rw (e, put_query, without_key env node sender arguments r now absent, read, absent) refl,
  )
]
