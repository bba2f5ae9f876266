-- ===== src/Bittorrent/RoutingTable/Update/Split.antt =====
-- When `would_split_bucket` says so, the bucket is the last one, and both halves hold at most eight
-- nodes: the assertions behind `split_bucket` hold.
use ouinet.Prelude.{
  ℕ, suc, ◌+◌, ◌≤◌, ◌<◌, ◌≡◌, refl, subst, Bool, true, false, not, List, [], ◌∷◌, ◌++◌, arith,
  Bytes, length, length-append, get_or, get_or-set, set-set, set, keep, All, All-append, All-keep,
  ltb, if◌then◌else◌, Bool-cases, inl, inr,
}
use ouinet.Bittorrent.NodeId.{xor_id, id_gt, id_le}
use ouinet.Bittorrent.RoutingTable.{
  NodeContact, RoutingNode, Bucket, RoutingTable, bucket_size, distance, max_distance, count_if,
  bucket_at, set_bucket, would_split_bucket, split_bucket, split_with, stays, moves, empty_bucket,
}
use ouinet.Bittorrent.RoutingTable.Buckets.{
  Belongs, Belongs-Beyond, Placed, Placed-get, split-Placed, Within, Beyond,
}
use ouinet.Bittorrent.RoutingTable.Update.Keeps.{Sound}
use ouinet.Bittorrent.RoutingTable.Update.{fresh_node}

module _ {E : Type 0} where
  count_if-keep :
      (p : RoutingNode E → Bool) (ns : List (RoutingNode E)) → count_if p ns ≡ length (keep p ns)
  unfolding count_if
  count_if-keep p [] = refl
  count_if-keep p (n ∷ ns) = ground (arith, count_if-keep p ns)

  length_parts :
      (p : RoutingNode E → Bool) (ns : List (RoutingNode E))
      → length (stays p ns) + length (moves p ns) ≡ length ns
  length_parts p [] = omega arith
  length_parts p (n ∷ ns) = ground (arith, length_parts p ns)

  count_if-append_one :
      (p : RoutingNode E → Bool) (ns : List (RoutingNode E)) (n : RoutingNode E)
      → count_if p (ns ++ n ∷ []) ≡ (if p n then suc (count_if p ns) else count_if p ns)
  unfolding count_if
  count_if-append_one p [] n = refl
  count_if-append_one p (m ∷ ns) n = ground (arith, count_if-append_one p ns n)

  count_if-none :
      (p : RoutingNode E → Bool) (ns : List (RoutingNode E))
      → All (λ n. p n ≡ false) ns
      → count_if p ns ≡ 0
  unfolding count_if
  count_if-none p [] h = refl
  count_if-none p (n ∷ ns) h = ground (arith, count_if-none p ns h.1)

  stays-not :
      (p : RoutingNode E → Bool) (ns : List (RoutingNode E)) → All (λ n. p n ≡ false) (stays p ns)
  stays-not p [] = tt
  stays-not p (n ∷ ns) = ground (arith, stays-not p ns)

  moves-yes :
      (p : RoutingNode E → Bool) (ns : List (RoutingNode E)) → All (λ n. p n ≡ true) (moves p ns)
  moves-yes p [] = tt
  moves-yes p (n ∷ ns) = ground (arith, moves-yes p ns)

id_le-false : (d m : Bytes) → id_gt d m ≡ true → id_le d m ≡ false
unfolding id_gt id_le
id_le-false d m h = ground arith

id_gt-of_le : (d m : Bytes) → id_le d m ≡ false → id_gt d m ≡ true
unfolding id_gt id_le
id_gt-of_le d m h = ground arith

id_gt-of_not_le : (d m : Bytes) → id_le d m ≡ true → id_gt d m ≡ false
unfolding id_gt id_le
id_gt-of_not_le d m h = ground arith

module _ {E : Type 0} (t : RoutingTable E) (i : ℕ) where
  -- The bucket is near enough, full, and would be split into two smaller ones.
  abbrev pub near_half : RoutingNode E → Bool
  near_half n = id_le (distance t.node_id n) (max_distance (i + 1))

  pub would_split_counts :
      (id : Bytes)
      → would_split_bucket t i id ≡ true
      → let cnt = count_if near_half (bucket_at t i).nodes in
        let total = if id_le (xor_id id t.node_id) (max_distance (i + 1)) then suc cnt else cnt in
        (bucket_size ≤ length (bucket_at t i).nodes) × (0 < total) × (total ≤ bucket_size)
  unfolding would_split_bucket
  would_split_counts id h = ground arith

  All-Beyond :
      (ns : List (RoutingNode E))
      → suc i < length t.buckets
      → All (λ n. Belongs 0 t.buckets i (distance t.node_id n)) ns
      → All (λ n. near_half n ≡ false) ns
  All-Beyond [] l h = tt
  All-Beyond (n ∷ ns) l h = (
    id_le-false (distance t.node_id n) (max_distance (i + 1)) (
        subst (λ k. Beyond k (distance t.node_id n)) (omega arith)
          (Belongs-Beyond 0 t.buckets i (distance t.node_id n) l h.0)),
    All-Beyond ns l h.1,
  )

  -- Only the last bucket is ever split.
  pub would_split-last :
      (id : Bytes)
      → Placed t.node_id 0 t.buckets
      → Belongs 0 t.buckets i (xor_id id t.node_id)
      → i < length t.buckets
      → would_split_bucket t i id ≡ true
      → suc i ≡ length t.buckets
  unfolding bucket_at
  would_split-last id placed belongs inside h = elim (Bool-cases (ltb (suc i) (length t.buckets))) [
    | inl before ↦
        let ns = (get_or t.buckets i empty_bucket).nodes in
        let l : suc i < length t.buckets = ground arith in
        let far = id_le-false (xor_id id t.node_id) (max_distance (i + 1)) (
          subst (λ k. Beyond k (xor_id id t.node_id)) (omega arith)
            (Belongs-Beyond 0 t.buckets i (xor_id id t.node_id) l belongs)) in
        absurd (
          ground (
            arith,
            would_split_counts id h,
            far,
            count_if-none near_half ns
                (All-Beyond ns l (Placed-get t.node_id 0 t.buckets i placed).1.0),
          ))
    | inr after ↦ ground arith
  ]

module _ {E : Type 0} (t : RoutingTable E) (i : ℕ) (b : Bucket E) (contact : NodeContact E)
    (now : ℕ) where
  abbrev pub pushed : Bucket E
  pushed = record b { nodes = b.nodes ++ fresh_node contact now ∷ [] }

  old-Beyond :
      (ns : List (RoutingNode E))
      → All (λ n. near_half t i n ≡ false) ns
      → All (λ n. Beyond (suc i) (distance t.node_id n)) ns
  old-Beyond [] h = tt
  old-Beyond (n ∷ ns) h = (
    subst (λ k. Beyond k (distance t.node_id n)) (omega arith)
        (id_gt-of_le (distance t.node_id n) (max_distance (i + 1)) h.0),
    old-Beyond ns h.1,
  )

  young-Within :
      (ns : List (RoutingNode E))
      → All (λ n. near_half t i n ≡ true) ns
      → All (λ n. Within (suc i) (distance t.node_id n)) ns
  young-Within [] h = tt
  young-Within (n ∷ ns) h = (
    subst (λ k. Within k (distance t.node_id n)) (omega arith)
        (id_gt-of_not_le (distance t.node_id n) (max_distance (i + 1)) h.0),
    young-Within ns h.1,
  )

  -- The buckets of the table after the split.
  split_buckets :
      i < length t.buckets
      → (split_bucket (set_bucket t i pushed) i).buckets
        ≡ set t.buckets i (split_with (near_half t i) pushed).0
          ++ (split_with (near_half t i) pushed).1 ∷ []
  unfolding split_bucket set_bucket bucket_at split_with
  split_buckets inside = rw (
    get_or-set t.buckets i pushed empty_bucket inside,
    set-set t.buckets i pushed (split_with (near_half t i) pushed).0,
  )

  bucket_at-set_bucket : i < length t.buckets → bucket_at (set_bucket t i b) i ≡ b
  unfolding bucket_at set_bucket
  bucket_at-set_bucket inside = get_or-set t.buckets i b empty_bucket inside

  -- The nearer half is neither empty nor too large.
  pushed_counts :
      i < length t.buckets
      → would_split_bucket (set_bucket t i b) i contact.id ≡ true
      → (0 < length (moves (near_half t i) pushed.nodes))
        × (length (moves (near_half t i) pushed.nodes) ≤ bucket_size)
  unfolding set_bucket fresh_node
  pushed_counts inside test = ground (
    arith,
    would_split_counts (set_bucket t i b) i contact.id test,
    bucket_at-set_bucket inside,
    count_if-keep (near_half t i) pushed.nodes,
    count_if-append_one (near_half t i) b.nodes (fresh_node contact now),
  )

  -- A full bucket that the test allows to split leaves a table whose nodes are all in place.
  pub split_bucket-Placed :
      (Placed t.node_id 0 t.buckets)
      → i < length t.buckets
      → Belongs 0 t.buckets i (xor_id contact.id t.node_id)
      → Sound (λ c. Belongs 0 t.buckets i (xor_id c.id t.node_id)) b
      → would_split_bucket (set_bucket t i b) i contact.id ≡ true
      → suc i ≡ length t.buckets
      → Placed t.node_id 0 (split_bucket (set_bucket t i pushed) i).buckets
  unfolding split_with fresh_node
  split_bucket-Placed placed inside belongs (l, (ns, vc, uc)) test last =
      let near = near_half t i in
      let (old, young) = split_with near pushed in
      let lengths = length_parts near pushed.nodes in
      let total = length-append b.nodes (fresh_node contact now ∷ []) in
      let (least, most) = pushed_counts inside test in
      let here = λ (n : RoutingNode E). Belongs 0 t.buckets i (distance t.node_id n) in
      let ns' = All-append here b.nodes (fresh_node contact now ∷ []) ns (belongs, tt) in
      rw (split_buckets inside) (
        split-Placed t.node_id (suc i) 0 t.buckets i old young last (omega arith) placed
          (omega arith) (omega arith)
          (
            All-keep here (λ n. not (near n)) pushed.nodes ns',
            All-keep here (λ n. not (near n)) b.verified_candidates vc,
            All-keep here (λ n. not (near n)) b.unverified_candidates uc,
          )
          (
            old-Beyond _ (stays-not near pushed.nodes),
            old-Beyond _ (stays-not near b.verified_candidates),
            old-Beyond _ (stays-not near b.unverified_candidates),
          )
          (
            young-Within _ (moves-yes near pushed.nodes),
            young-Within _ (moves-yes near b.verified_candidates),
            young-Within _ (moves-yes near b.unverified_candidates),
          ))
