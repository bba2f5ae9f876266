-- ===== src/Bittorrent/RoutingTable.antt =====
-- src/bittorrent/routing_table.h and routing_table.cpp, and `NodeContact` of node_contact.h. An
-- operation returns the new table and the contacts that it asked `_send_ping` to ping, in order. `now`
-- is what the steady clock reads, in nanoseconds, and does not move during an operation. Endpoints
-- are a type of Boost: a parameter with its equality.
pub mod Buckets
pub mod Closest
pub mod Update
use ouinet.Prelude.{
  ℕ, zero, suc, ◌+◌, ◌-◌, ◌*◌, ◌^◌, ◌≤◌, Bool, true, false, not, ◌&&◌, List, [], ◌∷◌, ◌++◌, Option,
  none, some, Bytes, length, get_or, set, ltb, leb, ◌==◌, is_empty, keep, if◌then◌else◌,
}
use ouinet.Prelude.Eq.{Eq}
use ouinet.Bittorrent.NodeId.{max_id, set_bit, xor_id, id_gt, id_le, id_eq}

abbrev pub bucket_size : ℕ
bucket_size = 8

abbrev pub minutes : ℕ → ℕ
minutes n = n * 60 * 10 ^ 9

pub record NodeContact (E : Type 0) : Type 0 where
  pub id : Bytes
  pub endpoint : E

pub record RoutingNode (E : Type 0) : Type 0 where
  pub contact : NodeContact E
  pub recv_time : ℕ
  pub reply_time : ℕ
  pub queries_failed : ℕ
  pub ping_ongoing : Bool

pub record Bucket (E : Type 0) : Type 0 where
  pub nodes : List (RoutingNode E)
  pub verified_candidates : List (RoutingNode E)
  pub unverified_candidates : List (RoutingNode E)

pub record RoutingTable (E : Type 0) : Type 0 where
  pub node_id : Bytes
  pub buckets : List (Bucket E)

-- `max_distance`: the loop has `n` rounds left and stands at bit `i`.
pub clear_bits : ℕ → ℕ → Bytes → Bytes
clear_bits zero i ret = ret
clear_bits (suc n) i ret = clear_bits n (suc i) (set_bit ret i false)

unfoldable pub max_distance : ℕ → Bytes
unfolding clear_bits
max_distance bucket_id = clear_bits bucket_id 0 max_id

module _ {E : Type 0} where
  pub is_questionable : ℕ → RoutingNode E → Bool
  is_questionable now n = ltb (n.recv_time + minutes 15) now

  pub is_good : ℕ → RoutingNode E → Bool
  is_good now n =
      leb n.queries_failed 2
      && (leb now (n.recv_time + minutes 15) && leb now (n.reply_time + minutes 120))

  -- The distance of a node from the owner of the table, as `split_bucket` computes it.
  abbrev pub distance : Bytes → RoutingNode E → Bytes
  distance node_id n = xor_id n.contact.id node_id

  abbrev pub empty_bucket : Bucket E
  empty_bucket = record { nodes = []; verified_candidates = []; unverified_candidates = [] }

  -- The constructor.
  unfoldable pub new : Bytes → RoutingTable E
  new node_id = record { node_id = node_id; buckets = empty_bucket ∷ [] }

  -- `find_bucket_id`: `max` is kept from round to round, `ret` is the last bucket that was passed.
  pub find_from : Bytes → Bytes → ℕ → ℕ → List (Bucket E) → ℕ
  find_from distance max i ret [] = ret
  find_from distance max i ret (b ∷ bs) =
      let rest = find_from distance (set_bit max i false) (suc i) i bs in
      if id_gt distance max then ret else rest

  unfoldable pub find_bucket_id : RoutingTable E → Bytes → ℕ
  unfolding find_from
  find_bucket_id t id = find_from (xor_id t.node_id id) max_id 0 0 t.buckets

  pub bucket_at : RoutingTable E → ℕ → Bucket E
  bucket_at t i = get_or t.buckets i empty_bucket

  pub set_bucket : RoutingTable E → ℕ → Bucket E → RoutingTable E
  set_bucket t i b = record t { buckets = set t.buckets i b }

  -- The nodes for which a test holds are counted.
  pub count_if : (RoutingNode E → Bool) → List (RoutingNode E) → ℕ
  count_if p [] = 0
  count_if p (n ∷ ns) = if p n then suc (count_if p ns) else count_if p ns

  pub would_split_bucket : RoutingTable E → ℕ → Bytes → Bool
  unfolding bucket_at count_if
  would_split_bucket t bucket_id new_id =
      let dst = xor_id new_id t.node_id in
      let b = bucket_at t bucket_id in
      let half_dst = max_distance (bucket_id + 1) in
      let near = count_if (λ n. id_le (distance t.node_id n) half_dst) b.nodes in
      let cnt = if id_le dst half_dst then suc near else near in
      if id_gt dst (max_distance bucket_id)
      then false
      else if ltb (length b.nodes) bucket_size
      then false
      else ltb 0 cnt && leb cnt bucket_size

  -- `move_elements`: what stays, and what moves.
  abbrev pub stays : (RoutingNode E → Bool) → List (RoutingNode E) → List (RoutingNode E)
  stays p = keep (λ n. not (p n))

  abbrev pub moves : (RoutingNode E → Bool) → List (RoutingNode E) → List (RoutingNode E)
  moves p = keep p

  split_with : (RoutingNode E → Bool) → (Bucket E) → Bucket E × Bucket E
  split_with belongs b = (
    record {
      nodes = stays belongs b.nodes;
      verified_candidates = stays belongs b.verified_candidates;
      unverified_candidates = stays belongs b.unverified_candidates;
    },
    record {
      nodes = moves belongs b.nodes;
      verified_candidates = moves belongs b.verified_candidates;
      unverified_candidates = moves belongs b.unverified_candidates;
    },
  )

  pub split_bucket : RoutingTable E → ℕ → RoutingTable E
  unfolding split_with bucket_at set_bucket
  split_bucket t i =
      let belongs = λ (n : RoutingNode E). id_le (distance t.node_id n) (max_distance (i + 1)) in
      let (old, new_bucket) = split_with belongs (bucket_at t i) in
      let t' = set_bucket t i old in record t' { buckets = t'.buckets ++ new_bucket ∷ [] }
