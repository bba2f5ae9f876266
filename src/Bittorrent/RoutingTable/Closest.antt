-- ===== src/Bittorrent/RoutingTable/Closest.antt =====
-- `RoutingTable::find_closest_routing_nodes`.
use ouinet.Prelude.{
  ℕ, zero, suc, ◌+◌, ◌-◌, ◌≤◌, ◌≡◌, refl, sym, ap, ◌∙◌, Bool, true, false, List, [], ◌∷◌, ◌++◌,
  append-nil, append_assoc, reverse, arith, Bytes, length, length-append, take, drop, leb, ◌==◌,
  if◌then◌else◌, Bool-cases, inl, inr,
}
use ouinet.Bittorrent.RoutingTable.{NodeContact, RoutingNode, Bucket, RoutingTable, find_bucket_id}

module _ {E : Type 0} where
  -- The loop over the nodes of a bucket: the output, and whether it is done.
  visit : ℕ → List (NodeContact E) → List (RoutingNode E) → List (NodeContact E) × Bool
  visit count output [] = (output, false)
  visit count output (n ∷ ns) =
      let rest = visit count (output ++ n.contact ∷ []) ns in
      if leb count (length (output ++ n.contact ∷ []))
      then (output ++ n.contact ∷ [], true)
      else rest

  -- The loop over the buckets, which ends when it is done.
  visit_buckets : ℕ → List (NodeContact E) → List (Bucket E) → List (NodeContact E) × Bool
  unfolding visit
  visit_buckets count output [] = (output, false)
  visit_buckets count output (b ∷ bs) =
      let (output', done) = visit count output b.nodes in
      let rest = visit_buckets count output' bs in if done then (output', true) else rest

  -- From the bucket of the target to the last one, and then back to the first.
  unfoldable pub find_closest_routing_nodes : RoutingTable E → Bytes → ℕ → List (NodeContact E)
  unfolding visit_buckets
  find_closest_routing_nodes t target count =
      let bucket_i = find_bucket_id t target in
      let (output, done) = visit_buckets count [] (drop bucket_i t.buckets) in
      if count == 0
      then []
      else if done
      then output
      else (visit_buckets count output (reverse (take bucket_i t.buckets))).0

  abbrev pub contacts : List (RoutingNode E) → List (NodeContact E)
  contacts [] = []
  contacts (n ∷ ns) = n.contact ∷ contacts ns

  -- The contacts of some buckets, in order.
  abbrev pub all_contacts : List (Bucket E) → List (NodeContact E)
  all_contacts [] = []
  all_contacts (b ∷ bs) = contacts b.nodes ++ all_contacts bs

  -- With room for `k` more, the output gets that many of `cs`, and it is done if there are enough.
  abbrev Gathers :
      ℕ → List (NodeContact E) → List (NodeContact E) → List (NodeContact E) × Bool → Type 0
  Gathers k output cs r = (r.0 ≡ output ++ take k cs) × (r.1 ≡ leb k (length cs))

  visit-Gathers :
      (count k : ℕ) (output : List (NodeContact E)) (ns : List (RoutingNode E))
      → length output + suc k ≡ count
      → Gathers (suc k) output (contacts ns) (visit count output ns)
  unfolding visit
  visit-Gathers count k output [] h = (sym (append-nil output), ground arith)
  visit-Gathers count zero output (n ∷ ns) h = ground (arith, length-append output (n.contact ∷ []))
  visit-Gathers count (suc k) output (n ∷ ns) h = ground (
    arith,
    length-append output (n.contact ∷ []),
    visit-Gathers count k (output ++ n.contact ∷ []) ns,
    append_assoc output (n.contact ∷ []) (take (suc k) (contacts ns)),
  )

  -- The two ways in which a text is cut at `k`.
  take_short :
      (k : ℕ) (cs ds : List (NodeContact E)) → k ≤ length cs → take k (cs ++ ds) ≡ take k cs
  take_short zero cs ds h = refl
  take_short (suc k) [] ds h = absurd (omega arith)
  take_short (suc k) (c ∷ cs) ds h = ap (◌∷◌ c) (take_short k cs ds (omega arith))

  take_long :
      (j k : ℕ) (cs ds : List (NodeContact E))
      → length cs + j ≡ k
      → (take k (cs ++ ds) ≡ cs ++ take j ds) × (take k cs ≡ cs)
  take_long j zero [] ds h = (ap (λ n. take n ds) (sym (h' h)), refl)
    where
      h' : 0 + j ≡ 0 → j ≡ 0
      h' e = omega arith
  take_long j (suc k) [] ds h = (ap (λ n. take n ds) (sym (h' h)), refl)
    where
      h' : 0 + j ≡ suc k → j ≡ suc k
      h' e = omega arith
  take_long j zero (c ∷ cs) ds h = absurd (omega arith)
  take_long j (suc k) (c ∷ cs) ds h =
      let (whole, front) = take_long j k cs ds (omega arith) in (ap (◌∷◌ c) whole, ap (◌∷◌ c) front)

  -- A loop over more contacts after one that had room for `k + 1`.
  chain :
      (count k : ℕ) (output cs ds : List (NodeContact E)) (r : List (NodeContact E) × Bool)
      (next : List (NodeContact E) → List (NodeContact E) × Bool)
      → length output + suc k ≡ count
      → Gathers (suc k) output cs r
      → ((j : ℕ) → length r.0 + suc j ≡ count → Gathers (suc j) r.0 ds (next r.0))
      → Gathers (suc k) output (cs ++ ds) (if r.1 then (r.0, true) else next r.0)
  chain count k output cs ds (out, done) next h (e, e') g =
      elim (Bool-cases (leb (suc k) (length cs))) [
        | inl full ↦
            rw (e', full)
              (
                e ∙ ap (◌++◌ output) (sym (take_short (suc k) cs ds (ground arith))),
                ground (arith, length-append cs ds),
              )
        | inr room ↦
            let j = k - length cs in
            let fits : length cs + suc j ≡ suc k = ground arith in
            let (whole, front) = take_long (suc j) (suc k) cs ds fits in
            let e'' = e ∙ ap (◌++◌ output) front in
            let left : length out + suc j ≡ count =
              omega (arith, ap length e'', length-append output cs) in
            let (f, f') = g j left in
            rw (e', room)
              (
                f
                    ∙ ap (λ o. o ++ take (suc j) ds) e''
                    ∙ append_assoc output cs (take (suc j) ds)
                    ∙ ap (◌++◌ output) (sym whole),
                f' ∙ ground (arith, length-append cs ds),
              )
      ]

  -- Room for `k + 1`, and what is left of it after some contacts.
  visit_buckets-Gathers :
      (count k : ℕ) (output : List (NodeContact E)) (bs : List (Bucket E))
      → length output + suc k ≡ count
      → Gathers (suc k) output (all_contacts bs) (visit_buckets count output bs)
  unfolding visit_buckets
  visit_buckets-Gathers count k output [] h = (sym (append-nil output), ground arith)
  visit_buckets-Gathers count k output (b ∷ bs) h =
      chain count k output (contacts b.nodes) (all_contacts bs) (visit count output b.nodes)
        (λ out. visit_buckets count out bs) h (visit-Gathers count k output b.nodes h)
        λ j e. visit_buckets-Gathers count j (visit count output b.nodes).0 bs e

  -- The result is the first `count` contacts of the table, taken from the bucket of the target to the
  -- last and then back to the first: as many as asked for, if the table has them.
  pub find_closest_routing_nodes-take :
      (t : RoutingTable E) (target : Bytes) (count : ℕ)
      → let i = find_bucket_id t target in
        find_closest_routing_nodes t target count
        ≡ take count (all_contacts (drop i t.buckets) ++ all_contacts (reverse (take i t.buckets)))
  unfolding find_closest_routing_nodes
  find_closest_routing_nodes-take t target zero = refl
  find_closest_routing_nodes-take t target (suc k) =
      let i = find_bucket_id t target in
      let after = drop i t.buckets in
      let before = reverse (take i t.buckets) in
      let r = visit_buckets (suc k) [] after in
      let next = λ (out : List (NodeContact E)). visit_buckets (suc k) out before in
      let all =
        chain (suc k) k [] (all_contacts after) (all_contacts before) r next (omega arith)
          (visit_buckets-Gathers (suc k) k [] after (omega arith))
          λ j e. visit_buckets-Gathers (suc k) j r.0 before e in
      ground (arith, all.0)
