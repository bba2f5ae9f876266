-- ===== src/Bittorrent/RoutingTable/Update/Keeps.antt =====
-- Each step of `try_add_node` and `fail_node` on a bucket keeps at most eight nodes, and keeps what is
-- known of the contacts.
use ouinet.Prelude.{
  ℕ, zero, suc, ◌+◌, ◌≤◌, ◌<◌, ◌≡◌, refl, ap, Bool, true, false, not, List, [], ◌∷◌, Option, none,
  some, arith, length, length-append, set, All, All-append, All-keep, ltb, if◌then◌else◌, if_both,
}
use ouinet.Prelude.Eq.{Eq}
use ouinet.Bittorrent.RoutingTable.{
  NodeContact, RoutingNode, Bucket, bucket_size, is_good, is_questionable, count_if,
}
use ouinet.Bittorrent.RoutingTable.Buckets.{Holds}
use ouinet.Bittorrent.RoutingTable.Update.{
  same_contact, refresh, bump, erase_contact, fresh_node, drop_bad, ping_questionable,
  erase_front_questionables, pop_excess, trim_candidates, queue_candidate, add_candidate,
  insert_by_time, remove_at, replace_bad, fail_good, fail_bad, fail_found,
}

module _ {E : Type 0} (P : NodeContact E → Type 0) where
  -- All contacts of a list, or of a bucket with at most eight nodes.
  abbrev pub Contacts : List (RoutingNode E) → Type 0
  Contacts = All (λ n. P n.contact)

  abbrev pub Sound : Bucket E → Type 0
  Sound b = (length b.nodes ≤ bucket_size) × Holds (λ n. P n.contact) b

  -- A result has `k` nodes.
  abbrev pub Kept : ℕ → Option (List (RoutingNode E)) → Type 0
  Kept k none = Unit {0}
  Kept k (some ms) = Contacts ms × (length ms ≡ k)

  cons-Kept :
      (n : RoutingNode E) (k : ℕ) (o : Option (List (RoutingNode E)))
      → P n.contact
      → Kept k o
      → Kept (suc k) (elim o [ none ↦ none | some ms ↦ some (n ∷ ms) ])
  cons-Kept n k none h a = tt
  cons-Kept n k (some ms) h a = ((h, a.0), ap suc a.1)

  module _ ⦃e : Eq E⦄ where
    refresh-contact :
        (now : ℕ) (v : Bool) (n : RoutingNode E) → P n.contact → P (refresh now v n).contact
    unfolding refresh
    refresh-contact now true n h = h
    refresh-contact now false n h = h

    pub bump-keeps :
        (contact : NodeContact E) (now : ℕ) (v : Bool) (ns : List (RoutingNode E))
        → Contacts ns
        → Kept (length ns) (bump contact now v ns)
    unfolding bump
    bump-keeps contact now v [] a = tt
    bump-keeps contact now v (n ∷ ns) a =
        if_both (Kept (length (n ∷ ns))) (same_contact n.contact contact) _ _
          (
            All-append (λ n. P n.contact) ns (refresh now v n ∷ []) a.1
                (refresh-contact now v n a.0, tt),
            omega (arith, length-append ns (refresh now v n ∷ [])),
          )
          (cons-Kept n (length ns) (bump contact now v ns) a.0 (bump-keeps contact now v ns a.1))

    pub erase_contact-keeps :
        (contact : NodeContact E) (cs : List (RoutingNode E))
        → Contacts cs
        → Contacts (erase_contact contact cs)
    unfolding erase_contact
    erase_contact-keeps contact cs a =
        All-keep (λ n. P n.contact) (λ c. not (same_contact c.contact contact)) cs a

  pub drop_bad-keeps :
      (now k : ℕ) (ns : List (RoutingNode E))
      → length ns ≡ suc k
      → Contacts ns
      → Kept k (drop_bad now ns)
  unfolding drop_bad
  drop_bad-keeps now k [] l a = tt
  drop_bad-keeps now k (n ∷ []) l a =
      if_both (Kept k) (not (is_good now n)) _ _ (a.1, omega arith) tt
  drop_bad-keeps now zero (n ∷ m ∷ ns) l a = absurd (omega arith)
  drop_bad-keeps now (suc k) (n ∷ m ∷ ns) l a =
      if_both (Kept (suc k)) (not (is_good now n)) _ _ (a.1, omega arith)
        (cons-Kept n k (drop_bad now (m ∷ ns)) a.0
          (drop_bad-keeps now k (m ∷ ns) (omega arith) a.1))

  pub ping_questionable-keeps :
      (now : ℕ) (ns : List (RoutingNode E))
      → Contacts ns
      → Contacts (ping_questionable now ns).0 × (length (ping_questionable now ns).0 ≡ length ns)
  unfolding ping_questionable
  ping_questionable-keeps now [] a = (tt, refl)
  ping_questionable-keeps now (n ∷ ns) a = ground (arith, ping_questionable-keeps now ns a.1)

  erase_front-keeps :
      (now : ℕ) (cs : List (RoutingNode E))
      → Contacts cs
      → Contacts (erase_front_questionables now cs)
  unfolding erase_front_questionables
  erase_front-keeps now [] a = tt
  erase_front-keeps now (c ∷ cs) a = ground (arith, erase_front-keeps now cs a.1)

  pop_excess-keeps :
      (limit others : ℕ) (cs : List (RoutingNode E))
      → Contacts cs
      → Contacts (pop_excess limit others cs)
  unfolding pop_excess
  pop_excess-keeps limit others [] a = tt
  pop_excess-keeps limit others (c ∷ cs) a = ground (arith, pop_excess-keeps limit others cs a.1)

  insert_by_time-keeps :
      (n : RoutingNode E) (ns : List (RoutingNode E))
      → P n.contact
      → Contacts ns
      → Contacts (insert_by_time n ns) × (length (insert_by_time n ns) ≤ suc (length ns))
  unfolding insert_by_time
  insert_by_time-keeps n [] h a = (tt, omega arith)
  insert_by_time-keeps n (m ∷ ns) h a = ground (arith, insert_by_time-keeps n ns h a.1)

  remove_at-keeps :
      (i : ℕ) (ns : List (RoutingNode E))
      → i < length ns
      → Contacts ns
      → Contacts (remove_at i ns) × (suc (length (remove_at i ns)) ≡ length ns)
  unfolding remove_at
  remove_at-keeps i [] l a = absurd (omega arith)
  remove_at-keeps zero (n ∷ ns) l a = (a.1, refl)
  remove_at-keeps (suc i) (n ∷ ns) l a =
      let (kept, e) = remove_at-keeps i ns (omega arith) a.1 in ((a.0, kept), omega arith)

  set-keeps :
      (i : ℕ) (n : RoutingNode E) (ns : List (RoutingNode E))
      → P n.contact
      → Contacts ns
      → Contacts (set ns i n) × (length (set ns i n) ≡ length ns)
  set-keeps i n [] h a = (tt, refl)
  set-keeps zero n (m ∷ ns) h a = ((h, a.1), refl)
  set-keeps (suc i) n (m ∷ ns) h a =
      let (kept, e) = set-keeps i n ns h a.1 in ((a.0, kept), omega arith)

  trim-Sound : (q : ℕ) (b : Bucket E) → Sound b → Sound (trim_candidates q b)
  unfolding trim_candidates
  trim-Sound q b (l, (n, v, u)) = (
    l,
    (
      n,
      pop_excess-keeps q 0 b.verified_candidates v,
      pop_excess-keeps q (length (pop_excess q 0 b.verified_candidates)) b.unverified_candidates u,
    ),
  )

  queue_candidate-Sound :
      (q : ℕ) (c : RoutingNode E) (now : ℕ) (v : Bool) (b : Bucket E)
      → P c.contact
      → Sound b
      → Sound (queue_candidate q c now v b)
  unfolding queue_candidate
  queue_candidate-Sound q c now true b h (l, (n, vc, uc)) =
      if_both Sound (ltb 0 q) _ b
        (l, (n, All-append (λ n. P n.contact) b.verified_candidates (c ∷ []) vc (h, tt), uc))
        (l, (n, vc, uc))
  queue_candidate-Sound q c now false b h (l, (n, vc, uc)) = (
    l,
    (
      n,
      erase_front-keeps now b.verified_candidates vc,
      if_both Contacts (ltb (length (erase_front_questionables now b.verified_candidates)) q) _ _
          (All-append (λ n. P n.contact) b.unverified_candidates (c ∷ []) uc (h, tt)) uc,
    ),
  )

  -- The last part of `try_add_node`.
  pub add_candidate-Sound :
      (contact : NodeContact E) (now : ℕ) (v : Bool) (b : Bucket E)
      → P contact
      → Sound b
      → Sound (add_candidate contact now v b).0
  unfolding add_candidate fresh_node
  add_candidate-Sound contact now v b h (l, (n, vc, uc)) =
      let (ns, e) = ping_questionable-keeps now b.nodes n in
      let q = count_if (is_questionable now) b.nodes in
      let candidate = record (fresh_node contact now) { reply_time = if v then now else 0 } in
      let pinged = record b { nodes = (ping_questionable now b.nodes).0 } in
      trim-Sound q (queue_candidate q candidate now v pinged)
        (queue_candidate-Sound q candidate now v pinged h (omega arith, (ns, vc, uc)))

  replace_bad-Sound :
      (i : ℕ) (b : Bucket E) (vs us : List (RoutingNode E))
      → i < length b.nodes
      → length b.nodes ≤ bucket_size
      → Contacts b.nodes
      → Contacts vs
      → Contacts us
      → Sound (replace_bad i b vs us).0
  unfolding replace_bad
  replace_bad-Sound i b (c ∷ cs) us inside l n vc uc =
      let (left, e) = remove_at-keeps i b.nodes inside n in
      let node = record c { queries_failed = 0; ping_ongoing = false } in
      let (ns, e') = insert_by_time-keeps node (remove_at i b.nodes) vc.0 left in
      (omega arith, (ns, vc.1, uc))
  replace_bad-Sound i b [] (u ∷ us) inside l n vc uc = (l, (n, tt, uc.1))
  replace_bad-Sound i b [] [] inside l n vc uc = (l, (n, tt, tt))

  fail_good-Sound :
      (now i : ℕ) (n : RoutingNode E) (b : Bucket E) (contact : NodeContact E)
      → P n.contact
      → Sound b
      → Sound (fail_good now i n b contact).0
  unfolding fail_good
  fail_good-Sound now i n b contact h (l, (ns, vc, uc)) =
      let pinged = record n { ping_ongoing = true } in
      let (kept, e) = set-keeps i pinged b.nodes h ns in
      let (kept', e') = set-keeps i n b.nodes h ns in
      if_both (λ (r : Bucket E × List (NodeContact E)). Sound r.0) (is_questionable now n)
        (record b { nodes = set b.nodes i pinged }, contact ∷ [])
        (record b { nodes = set b.nodes i n }, []) (omega arith, (kept, vc, uc))
        (omega arith, (kept', vc, uc))

  fail_bad-Sound :
      (now i : ℕ) (n : RoutingNode E) (b : Bucket E)
      → i < length b.nodes
      → P n.contact
      → Sound b
      → Sound (fail_bad now i n b).0
  unfolding fail_bad
  fail_bad-Sound now i n b inside h (l, (ns, vc, uc)) =
      let (kept, e) = set-keeps i n b.nodes h ns in
      let b' = record b { nodes = set b.nodes i n } in
      let verified = erase_front_questionables now b.verified_candidates in
      let unverified = erase_front_questionables now b.unverified_candidates in
      let replaced = (replace_bad i b' verified unverified).0 in
      trim-Sound (count_if (is_questionable now) replaced.nodes) replaced (
        replace_bad-Sound i b' verified unverified (omega arith) (omega arith) kept
          (erase_front-keeps now b.verified_candidates vc)
          (erase_front-keeps now b.unverified_candidates uc))

  pub fail_found-Sound :
      (now i : ℕ) (n : RoutingNode E) (b : Bucket E) (contact : NodeContact E)
      → i < length b.nodes
      → P n.contact
      → Sound b
      → Sound (fail_found now i n b contact).0
  unfolding fail_found
  fail_found-Sound now i n b contact inside h s =
      let failed = record n { queries_failed = n.queries_failed + 1 } in
      if_both (λ (r : Bucket E × List (NodeContact E)). Sound r.0) (is_good now failed)
        (fail_good now i failed b contact) (fail_bad now i failed b)
        (fail_good-Sound now i failed b contact h s) (fail_bad-Sound now i failed b inside h s)
