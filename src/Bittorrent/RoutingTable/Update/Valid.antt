-- ===== src/Bittorrent/RoutingTable/Update/Valid.antt =====
-- The routing table stays valid: every node stands in the bucket of its distance, a bucket holds at
-- most eight nodes, and there is a bucket.
use ouinet.Prelude.{
  ℕ, suc, ◌+◌, ◌<◌, ◌≡◌, refl, ap, sym, ◌∙◌, subst, Bool, true, false, List, [], ◌∷◌, ◌++◌, some,
  arith, Bytes, length, length-append, length-set, All-append, ltb, if_both, Bool-cases,
  Option-cases, inl, inr, get_elem?, get_elem?-lt, All-get_elem?, append_one_pos,
}
use ouinet.Prelude.Eq.{Eq}
use ouinet.Bittorrent.NodeId.{xor_id, id_gt, max_id}
use ouinet.Bittorrent.NodeId.Metric.{IsId, xor_id_comm, xor_id-IsId, id_gt_max}
use ouinet.Bittorrent.RoutingTable.{
  NodeContact, RoutingNode, Bucket, RoutingTable, bucket_size, max_distance, clear_bits, bucket_at,
  set_bucket, would_split_bucket, split_bucket, find_bucket_id, find_from, new,
}
use ouinet.Bittorrent.RoutingTable.Buckets.{
  Belongs, Placed, Placed-get, set-Placed, set-Belongs, Within, find_from-Belongs,
}
use ouinet.Bittorrent.RoutingTable.Update.Keeps.{
  Sound, Contacts, Kept, bump-keeps, erase_contact-keeps, drop_bad-keeps, add_candidate-Sound,
  fail_found-Sound,
}
use ouinet.Bittorrent.RoutingTable.Update.Split.{would_split-last, split_bucket-Placed}
use ouinet.Bittorrent.RoutingTable.Update.{
  fresh_node, bump, erase_contact, drop_bad, replace_or_queue, add_new, try_add_node, index_of,
  fail_found, fail_node,
}

pub record IsValid {E : Type 0} (t : RoutingTable E) : Type 0 where
  pub owner : IsId t.node_id
  pub placed : Placed t.node_id 0 t.buckets
  pub some_bucket : 0 < length t.buckets

-- A contact that belongs to the bucket `i`.
abbrev pub InBucket : {E : Type 0} → RoutingTable E → ℕ → NodeContact E → Type 0
InBucket t i c = Belongs 0 t.buckets i (xor_id c.id t.node_id)

max_distance-zero : max_distance 0 ≡ max_id
unfolding max_distance clear_bits
max_distance-zero = refl

module _ {E : Type 0} (owner id : Bytes) where
  find_in :
      (bs : List (Bucket E))
      → IsId owner
      → IsId id
      → 0 < length bs
      → let i = find_bucket_id (record { node_id = owner; buckets = bs }) id in
        Belongs 0 bs i (xor_id id owner) × (i < length bs)
  unfolding find_bucket_id
  find_in [] o h l = absurd (omega arith)
  find_in (b ∷ bs) o h l =
      let d = xor_id owner id in
      let near : Within 0 d =
        subst (λ m. id_gt d m ≡ false) (sym max_distance-zero)
          (id_gt_max d (xor_id-IsId owner id o h)) in
      let (j, e, belongs, inside) = find_from-Belongs d 0 0 b bs near in
      let zero_add : 0 + j ≡ j = omega arith in
      let e' = ap (λ m. find_from d m 0 0 (b ∷ bs)) (sym max_distance-zero) ∙ e ∙ zero_add in
      rw e' (subst (Belongs 0 (b ∷ bs) j) (xor_id_comm owner id o h) belongs, inside)

-- `find_bucket_id` finds the bucket to which the distance belongs.
pub find_bucket_id-Belongs :
    {E : Type 0} (t : RoutingTable E) (id : Bytes)
    → IsValid t
    → IsId id
    → Belongs 0 t.buckets (find_bucket_id t id) (xor_id id t.node_id)
      × (find_bucket_id t id < length t.buckets)
find_bucket_id-Belongs t id v h = find_in t.node_id id t.buckets v.owner h v.some_bucket

module _ {E : Type 0} (t : RoutingTable E) (i : ℕ) where
  set_bucket-IsValid :
      (b : Bucket E) → IsValid t → Sound (InBucket t i) b → IsValid (set_bucket t i b)
  unfolding set_bucket
  set_bucket-IsValid b v (l, h) = record {
    owner = v.owner;
    placed = set-Placed t.node_id 0 t.buckets i b v.placed l h;
    some_bucket = omega (arith, length-set t.buckets i b);
  }

  bucket_at-Sound : IsValid t → Sound (InBucket t i) (bucket_at t i)
  unfolding bucket_at
  bucket_at-Sound v = Placed-get t.node_id 0 t.buckets i v.placed

  abbrev Ok : RoutingTable E × List (NodeContact E) → Type 0
  Ok r = IsValid r.0

  module _ (b : Bucket E) (contact : NodeContact E) (now : ℕ) (verified : Bool) where
    -- With one node more there are still at most eight.
    push-IsValid :
        (ns : List (RoutingNode E))
        → IsValid t
        → InBucket t i contact
        → Sound (InBucket t i) b
        → Contacts (InBucket t i) ns
        → length ns < bucket_size
        → IsValid (set_bucket t i (record b { nodes = ns ++ fresh_node contact now ∷ [] }))
    unfolding fresh_node
    push-IsValid ns v here (l, (_, vc, uc)) n small =
        set_bucket-IsValid (record b { nodes = ns ++ fresh_node contact now ∷ [] }) v
          (
            omega (arith, length-append ns (fresh_node contact now ∷ [])),
            (
              All-append (λ n. InBucket t i n.contact) ns (fresh_node contact now ∷ []) n
                  (here, tt),
              vc,
              uc,
            ),
          )

    replace_or_queue-IsValid :
        IsValid t
        → InBucket t i contact
        → Sound (InBucket t i) b
        → (k : ℕ) → length b.nodes ≡ suc k
        → Ok (replace_or_queue t i b contact now verified)
    unfolding replace_or_queue
    replace_or_queue-IsValid v here s k e = elim (Option-cases (drop_bad now b.nodes)) [
      | inl none_bad ↦
          rw (none_bad, replace_or_queue)
            (set_bucket-IsValid _ v
              (add_candidate-Sound (InBucket t i) contact now verified b here s))
      | inr (ns, bad) ↦
          let kept : Kept (InBucket t i) k (some ns) =
            subst (Kept (InBucket t i) k) bad
              (drop_bad-keeps (InBucket t i) now k b.nodes e s.1.0) in
          rw (bad, replace_or_queue)
            (if_both Ok verified _ _ (push-IsValid ns v here s kept.0 (omega arith))
              (set_bucket-IsValid b v s))
    ]

    split-IsValid :
        IsValid t
        → i < length t.buckets
        → InBucket t i contact
        → Sound (InBucket t i) b
        → would_split_bucket (set_bucket t i b) i contact.id ≡ true
        → IsValid (
            split_bucket
              (set_bucket t i (record b { nodes = b.nodes ++ fresh_node contact now ∷ [] }))
              i)
    unfolding set_bucket split_bucket
    split-IsValid v inside here s splits =
        let cleaned = set_bucket t i b in
        let valid = set_bucket-IsValid b v s in
        let same = length-set t.buckets i b in
        let last =
          would_split-last cleaned i contact.id valid.placed
            (set-Belongs 0 t.buckets i b (xor_id contact.id t.node_id) here) (omega arith) splits in
        record {
          owner = v.owner;
          placed =
              split_bucket-Placed t i b contact now v.placed inside here s splits (omega arith);
          some_bucket = append_one_pos _ _;
        }

    pub add_new-IsValid :
        IsValid t
        → i < length t.buckets
        → InBucket t i contact
        → Sound (InBucket t i) b
        → Ok (add_new t i b contact now verified)
    unfolding add_new
    add_new-IsValid v inside here s = elim (Bool-cases (ltb (length b.nodes) bucket_size)) [
      | inl small ↦
          rw (small, add_new)
            (if_both Ok verified _ _ (push-IsValid b.nodes v here s s.1.0 (ground arith))
              (set_bucket-IsValid b v s))
      | inr full ↦ elim (Bool-cases (would_split_bucket (set_bucket t i b) i contact.id)) [
        | inl splits ↦
            rw (full, splits, add_new)
              (if_both Ok verified _ _ (split-IsValid v inside here s splits)
                (set_bucket-IsValid b v s))
        | inr keeps ↦ rw (full, keeps, add_new) (replace_or_queue-IsValid v here s 7 (ground arith))
      ]
    ]

module _ {E : Type 0} ⦃e : Eq E⦄ where
  -- `try_add_node` keeps the table valid.
  pub try_add_node-IsValid :
      (t : RoutingTable E) (contact : NodeContact E) (verified : Bool) (now : ℕ)
      → IsValid t
      → IsId contact.id
      → IsValid (try_add_node t contact verified now).0
  unfolding try_add_node
  try_add_node-IsValid t contact verified now v h =
      let i = find_bucket_id t contact.id in
      let b = bucket_at t i in
      let (here, inside) = find_bucket_id-Belongs t contact.id v h in
      let (l, (ns, vc, uc)) = bucket_at-Sound t i v in
      let P = InBucket t i in
      elim (Option-cases (bump contact now verified b.nodes)) [
        | inl unknown ↦
            let b' = record b {
              verified_candidates = erase_contact contact b.verified_candidates;
              unverified_candidates = erase_contact contact b.unverified_candidates;
            } in
            rw (unknown, try_add_node)
              (add_new-IsValid t i b' contact now verified v inside here (
                l,
                (
                  ns,
                  erase_contact-keeps P contact b.verified_candidates vc,
                  erase_contact-keeps P contact b.unverified_candidates uc,
                ),
              ))
        | inr (ms, known) ↦
            let kept : Kept P (length b.nodes) (some ms) =
              subst (Kept P (length b.nodes)) known
                (bump-keeps P contact now verified b.nodes ns) in
            rw (known, try_add_node)
              (set_bucket-IsValid t i (record b { nodes = ms }) v (omega arith, (kept.0, vc, uc)))
      ]

  -- `fail_node` keeps the table valid.
  pub fail_node-IsValid :
      (t : RoutingTable E) (contact : NodeContact E) (now : ℕ)
      → IsValid t
      → IsValid (fail_node t contact now).0
  unfolding fail_node
  fail_node-IsValid t contact now v =
      let i = find_bucket_id t contact.id in
      let b = bucket_at t i in
      let s = bucket_at-Sound t i v in
      let node_i = index_of contact b.nodes in
      let P = InBucket t i in
      elim (Option-cases (get_elem? b.nodes node_i)) [
        | inl absent ↦ rw (absent, fail_node) v
        | inr (n, found) ↦
            rw (found, fail_node)
              (set_bucket-IsValid t i (fail_found now node_i n b contact).0 v (
                fail_found-Sound P now node_i n b contact (get_elem?-lt b.nodes node_i n found)
                  (All-get_elem? (λ m. P m.contact) b.nodes node_i n s.1.0 found) s))
      ]

-- The table that the constructor makes is valid.
pub new-IsValid : {E : Type 0} (owner : Bytes) → IsId owner → IsValid (new {E = E} owner)
unfolding new
new-IsValid owner h = record {
  owner = h;
  placed = (omega arith, (tt, tt, tt));
  some_bucket = omega arith;
}
