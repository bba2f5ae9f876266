-- ===== src/Bittorrent/RoutingTable/Update.antt =====
-- `RoutingTable::try_add_node` and `RoutingTable::fail_node`, on the bucket that the contact belongs to.
pub mod Keeps
pub mod Split
pub mod Valid
use ouinet.Prelude.{
  ℕ, zero, suc, ◌+◌, Bool, true, false, not, ◌&&◌, List, [], ◌∷◌, ◌++◌, Option, none, some, Bytes,
  length, get_elem?, set, ltb, keep, if◌then◌else◌,
}
use ouinet.Prelude.Eq.{Eq}
use ouinet.Bittorrent.NodeId.{id_eq}
use ouinet.Bittorrent.RoutingTable.{
  NodeContact, RoutingNode, Bucket, RoutingTable, bucket_size, is_good, is_questionable, bucket_at,
  set_bucket, count_if, find_bucket_id, would_split_bucket, split_bucket,
}

module _ {E : Type 0} ⦃e : Eq E⦄ where
  -- `NodeContact::operator==`.
  pub same_contact : NodeContact E → NodeContact E → Bool
  same_contact a b = id_eq a.id b.id && e.beq a.endpoint b.endpoint

  refresh : ℕ → Bool → RoutingNode E → RoutingNode E
  refresh now true n = record n {
    recv_time = now;
    reply_time = now;
    queries_failed = 0;
    ping_ongoing = false;
  }
  refresh now false n = record n { recv_time = now }

  -- The first loop of `try_add_node`: a known contact is refreshed and moved to the end.
  pub bump : NodeContact E → ℕ → Bool → List (RoutingNode E) → Option (List (RoutingNode E))
  unfolding same_contact refresh
  bump contact now verified [] = none
  bump contact now verified (n ∷ ns) =
      if same_contact n.contact contact
      then some (ns ++ refresh now verified n ∷ [])
      else elim (bump contact now verified ns) [ none ↦ none | some ms ↦ some (n ∷ ms) ]

  -- `erase_if`.
  pub erase_contact : NodeContact E → List (RoutingNode E) → List (RoutingNode E)
  unfolding same_contact
  erase_contact contact = keep (λ c. not (same_contact c.contact contact))

module _ {E : Type 0} where
  pub fresh_node : NodeContact E → ℕ → RoutingNode E
  fresh_node contact now = record {
    contact = contact;
    recv_time = now;
    reply_time = now;
    queries_failed = 0;
    ping_ongoing = false;
  }

  -- The nodes without the first one that is not good.
  pub drop_bad : ℕ → List (RoutingNode E) → Option (List (RoutingNode E))
  drop_bad now [] = none
  drop_bad now (n ∷ ns) =
      if not (is_good now n)
      then some ns
      else elim (drop_bad now ns) [ none ↦ none | some ms ↦ some (n ∷ ms) ]

  -- The loop that pings the questionable nodes: the nodes, and the contacts that it pings.
  pub ping_questionable : ℕ → List (RoutingNode E) → List (RoutingNode E) × List (NodeContact E)
  ping_questionable now [] = ([], [])
  ping_questionable now (n ∷ ns) =
      let (ms, pings) = ping_questionable now ns in
      if is_questionable now n && not n.ping_ongoing
      then (record n { ping_ongoing = true } ∷ ms, n.contact ∷ pings)
      else (n ∷ ms, pings)

  -- `erase_front_questionables`.
  pub erase_front_questionables : ℕ → List (RoutingNode E) → List (RoutingNode E)
  erase_front_questionables now [] = []
  erase_front_questionables now (c ∷ cs) =
      if is_questionable now c then erase_front_questionables now cs else c ∷ cs

  -- `while (candidates.size() + others > limit) candidates.pop_front();`. A pop from an empty deque is
  -- undefined: it is left out.
  pub pop_excess : ℕ → ℕ → List (RoutingNode E) → List (RoutingNode E)
  pop_excess limit others [] = []
  pop_excess limit others (c ∷ cs) =
      if ltb limit (others + suc (length cs)) then pop_excess limit others cs else c ∷ cs

  -- The two loops at the end of both operations.
  pub trim_candidates : ℕ → Bucket E → Bucket E
  unfolding pop_excess
  trim_candidates questionable_nodes b =
      let verified = pop_excess questionable_nodes 0 b.verified_candidates in
      record b {
        verified_candidates = verified;
        unverified_candidates =
            pop_excess questionable_nodes (length verified) b.unverified_candidates;
      }

  -- The candidate is queued, with the number of questionable nodes.
  pub queue_candidate : ℕ → RoutingNode E → ℕ → Bool → Bucket E → Bucket E
  unfolding erase_front_questionables
  queue_candidate questionable_nodes candidate now true b =
      if ltb 0 questionable_nodes
      then record b { verified_candidates = b.verified_candidates ++ candidate ∷ [] }
      else b
  queue_candidate questionable_nodes candidate now false b =
      let remaining = erase_front_questionables now b.verified_candidates in
      record b {
        verified_candidates = remaining;
        unverified_candidates =
            if ltb (length remaining) questionable_nodes
            then b.unverified_candidates ++ candidate ∷ []
            else b.unverified_candidates;
      }

  -- The last part of `try_add_node`: the contact becomes a candidate.
  pub add_candidate : NodeContact E → ℕ → Bool → Bucket E → Bucket E × List (NodeContact E)
  unfolding ping_questionable queue_candidate trim_candidates fresh_node
  add_candidate contact now verified b =
      let questionable_nodes = count_if (is_questionable now) b.nodes in
      let (nodes, pings) = ping_questionable now b.nodes in
      let candidate = record (fresh_node contact now) {
        reply_time = if verified then now else 0;
      } in
      (
        trim_candidates questionable_nodes (
            queue_candidate questionable_nodes candidate now verified (record b { nodes = nodes })),
        pings,
      )

  -- A full bucket that is not split: a bad node is replaced, or the contact becomes a candidate.
  pub replace_or_queue :
      RoutingTable E
      → ℕ
      → Bucket E
      → NodeContact E
      → ℕ
      → Bool
      → RoutingTable E × List (NodeContact E)
  unfolding fresh_node drop_bad add_candidate
  replace_or_queue t i b contact now verified = elim (drop_bad now b.nodes) [
    | some ns ↦
        if verified
        then (set_bucket t i (record b { nodes = ns ++ fresh_node contact now ∷ [] }), [])
        else (set_bucket t i b, contact ∷ [])
    | none ↦ (
      set_bucket t i (add_candidate contact now verified b).0,
      (add_candidate contact now verified b).1,
    )
  ]

  -- A contact that is not among the nodes of the bucket `i`, which is `b` without it.
  pub add_new :
      RoutingTable E
      → ℕ
      → Bucket E
      → NodeContact E
      → ℕ
      → Bool
      → RoutingTable E × List (NodeContact E)
  unfolding fresh_node replace_or_queue
  add_new t i b contact now verified =
      let cleaned = set_bucket t i b in
      let pushed = set_bucket t i (record b { nodes = b.nodes ++ fresh_node contact now ∷ [] }) in
      if ltb (length b.nodes) bucket_size
      then (if verified then (pushed, []) else (cleaned, contact ∷ []))
      else if would_split_bucket cleaned i contact.id
      then (if verified then (split_bucket pushed i, []) else (cleaned, contact ∷ []))
      else replace_or_queue t i b contact now verified

module _ {E : Type 0} ⦃e : Eq E⦄ where
  unfoldable pub try_add_node :
      RoutingTable E → NodeContact E → Bool → ℕ → RoutingTable E × List (NodeContact E)
  unfolding bump add_new erase_contact
  try_add_node t contact verified now =
      let i = find_bucket_id t contact.id in
      let b = bucket_at t i in
      elim (bump contact now verified b.nodes) [
        | some ns ↦ (set_bucket t i (record b { nodes = ns }), [])
        | none ↦
            add_new t i
              (record b {
                verified_candidates = erase_contact contact b.verified_candidates;
                unverified_candidates = erase_contact contact b.unverified_candidates;
              })
              contact now verified
      ]

  -- The index of the contact, or the length.
  pub index_of : NodeContact E → List (RoutingNode E) → ℕ
  unfolding same_contact
  index_of contact [] = 0
  index_of contact (n ∷ ns) =
      if same_contact n.contact contact then 0 else suc (index_of contact ns)

module _ {E : Type 0} where
  -- `nodes.insert` before the first node that was heard of later: with none, nothing is inserted.
  pub insert_by_time : RoutingNode E → List (RoutingNode E) → List (RoutingNode E)
  insert_by_time node [] = []
  insert_by_time node (n ∷ ns) =
      if ltb node.recv_time n.recv_time then node ∷ n ∷ ns else n ∷ insert_by_time node ns

  pub remove_at : ℕ → List (RoutingNode E) → List (RoutingNode E)
  remove_at i [] = []
  remove_at zero (n ∷ ns) = ns
  remove_at (suc i) (n ∷ ns) = n ∷ remove_at i ns

  -- The replacement of a bad node at `i`, given the verified and the unverified candidates.
  pub replace_bad :
      ℕ → Bucket E → List (RoutingNode E) → List (RoutingNode E) → Bucket E × List (NodeContact E)
  unfolding insert_by_time remove_at
  replace_bad i b (c ∷ cs) us =
      let node = record c { queries_failed = 0; ping_ongoing = false } in
      (
        record {
          nodes = insert_by_time node (remove_at i b.nodes);
          verified_candidates = cs;
          unverified_candidates = us;
        },
        [],
      )
  replace_bad i b [] (u ∷ us) =
      (record b { verified_candidates = []; unverified_candidates = us }, u.contact ∷ [])
  replace_bad i b [] [] = (record b { verified_candidates = []; unverified_candidates = [] }, [])

  -- The node at `i` is still good after its failure.
  pub fail_good : ℕ → ℕ → RoutingNode E → Bucket E → NodeContact E → Bucket E × List (NodeContact E)
  fail_good now i failed b contact =
      if is_questionable now failed
      then (
        record b { nodes = set b.nodes i (record failed { ping_ongoing = true }) },
        contact ∷ [],
      )
      else (record b { nodes = set b.nodes i failed }, [])

  -- It is bad.
  pub fail_bad : ℕ → ℕ → RoutingNode E → Bucket E → Bucket E × List (NodeContact E)
  unfolding replace_bad trim_candidates erase_front_questionables
  fail_bad now i failed b =
      let verified = erase_front_questionables now b.verified_candidates in
      let unverified = erase_front_questionables now b.unverified_candidates in
      let (replaced, pings) =
        replace_bad i (record b { nodes = set b.nodes i failed }) verified unverified in
      (trim_candidates (count_if (is_questionable now) replaced.nodes) replaced, pings)

  -- `fail_node` once the node `n` was found at `i` in the bucket `b`.
  pub fail_found :
      ℕ → ℕ → RoutingNode E → Bucket E → NodeContact E → Bucket E × List (NodeContact E)
  unfolding fail_good fail_bad
  fail_found now i n b contact =
      let failed = record n { queries_failed = n.queries_failed + 1 } in
      if is_good now failed then fail_good now i failed b contact else fail_bad now i failed b

module _ {E : Type 0} ⦃e : Eq E⦄ where
  unfoldable pub fail_node :
      RoutingTable E → NodeContact E → ℕ → RoutingTable E × List (NodeContact E)
  unfolding index_of fail_found
  fail_node t contact now =
      let i = find_bucket_id t contact.id in
      let b = bucket_at t i in
      let node_i = index_of contact b.nodes in
      elim (get_elem? b.nodes node_i) [
        | none ↦ (t, [])
        | some n ↦ let (b', pings) = fail_found now node_i n b contact in (set_bucket t i b', pings)
      ]
