-- ===== src/Bittorrent/RoutingTable/Buckets.antt =====
-- Where a node stands: every bucket but the last holds the nodes of one range of distances, and the
-- last one all that are nearer.
use ouinet.Prelude.{
  ℕ, zero, suc, ◌+◌, ◌≤◌, ◌<◌, ◌≡◌, refl, ap, ◌∙◌, subst, true, false, List, [], ◌∷◌, ◌++◌, arith,
  Bytes, length, get_or, set, All, Bool-cases, inl, inr,
}
use ouinet.Bittorrent.NodeId.{max_id, set_bit, id_gt}
use ouinet.Bittorrent.RoutingTable.{
  RoutingNode, Bucket, bucket_size, max_distance, clear_bits, distance, empty_bucket, find_from,
}

-- The distance `d` is at most, or more than, the largest distance of the bucket `k`.
abbrev pub Within : ℕ → Bytes → Type 0
Within k d = id_gt d (max_distance k) ≡ false

abbrev pub Beyond : ℕ → Bytes → Type 0
Beyond k d = id_gt d (max_distance k) ≡ true

clear_bits-last :
    (n i : ℕ) (ret : Bytes) → clear_bits (suc n) i ret ≡ set_bit (clear_bits n i ret) (i + n) false
unfolding clear_bits
clear_bits-last zero i ret = ap (λ k. set_bit ret k false) (omega arith)
clear_bits-last (suc n) i ret =
    clear_bits-last n (suc i) (set_bit ret i false)
    ∙ ap (λ k. set_bit (clear_bits n (suc i) (set_bit ret i false)) k false) (omega arith)

pub max_distance-suc : (n : ℕ) → max_distance (suc n) ≡ set_bit (max_distance n) n false
unfolding max_distance
max_distance-suc n =
    clear_bits-last n 0 max_id ∙ ap (λ k. set_bit (clear_bits n 0 max_id) k false) (omega arith)

-- A property of all nodes and candidates of a bucket.
abbrev pub Holds : {E : Type 0} → (RoutingNode E → Type 0) → Bucket E → Type 0
Holds P b = All P b.nodes × All P b.verified_candidates × All P b.unverified_candidates

module _ {E : Type 0} where
  -- The distance `d` belongs to the bucket `j` of `bs`, whose first bucket is the `i`-th of the table.
  abbrev pub Belongs : ℕ → List (Bucket E) → ℕ → Bytes → Type 0
  Belongs i [] j d = Unit {0}
  Belongs i (b ∷ []) zero d = Within i d
  Belongs i (b ∷ c ∷ bs) zero d = Within i d × Beyond (suc i) d
  Belongs i (b ∷ bs) (suc j) d = Belongs (suc i) bs j d

  module _ (owner : Bytes) where
    abbrev pub Placed : ℕ → List (Bucket E) → Type 0
    Placed i [] = Unit {0}
    Placed i (b ∷ []) = (length b.nodes ≤ bucket_size) × Holds (λ n. Within i (distance owner n)) b
    Placed i (b ∷ c ∷ bs) =
        (length b.nodes ≤ bucket_size)
        × Holds (λ n. Within i (distance owner n) × Beyond (suc i) (distance owner n)) b
        × Placed (suc i) (c ∷ bs)

  find_from_passes :
      (d : Bytes) (i ret : ℕ) (b : Bucket E) (bs : List (Bucket E))
      → Within i d
      → find_from d (max_distance i) i ret (b ∷ bs)
        ≡ find_from d (max_distance (suc i)) (suc i) i bs
  unfolding find_from
  find_from_passes d i ret b bs h = rw (h, max_distance-suc i)

  find_from_stops :
      (d : Bytes) (i ret : ℕ) (bs : List (Bucket E))
      → Beyond i d
      → find_from d (max_distance i) i ret bs ≡ ret
  unfolding find_from
  find_from_stops d i ret [] h = refl
  find_from_stops d i ret (b ∷ bs) h = rw h

  find_from_end :
      (d : Bytes) (i ret : ℕ) (bs : List (Bucket E))
      → length bs ≡ 0
      → find_from d (max_distance i) i ret bs ≡ ret
  unfolding find_from
  find_from_end d i ret [] h = refl
  find_from_end d i ret (b ∷ bs) h = absurd (omega arith)

  -- The loop of `find_bucket_id` stops at the bucket to which the distance belongs.
  pub find_from-Belongs :
      (d : Bytes) (i ret : ℕ) (b : Bucket E) (bs : List (Bucket E))
      → Within i d
      → (j : ℕ) × (find_from d (max_distance i) i ret (b ∷ bs) ≡ i + j)
        × Belongs i (b ∷ bs) j d
        × (j < length (b ∷ bs))
  find_from-Belongs d i ret b [] h = (
    0,
    omega (arith, find_from_passes d i ret b [] h, find_from_end d (suc i) i [] refl),
    h,
    omega arith,
  )
  find_from-Belongs d i ret b (c ∷ bs) h = elim (Bool-cases (id_gt d (max_distance (suc i)))) [
    | inl beyond ↦ (
      0,
      omega (
        arith,
        find_from_passes d i ret b (c ∷ bs) h,
        find_from_stops d (suc i) i (c ∷ bs) beyond,
      ),
      (h, beyond),
      omega arith,
    )
    | inr within ↦
        let (j, e, belongs, inside) = find_from-Belongs d (suc i) i c bs within in
        (suc j, omega (arith, find_from_passes d i ret b (c ∷ bs) h), belongs, omega arith)
  ]

module _ {E : Type 0} (owner : Bytes) where
  -- The nodes of the bucket `j`, and how many there are.
  pub Placed-get :
      (i : ℕ) (bs : List (Bucket E)) (j : ℕ)
      → Placed owner i bs
      → (length (get_or bs j empty_bucket).nodes ≤ bucket_size)
        × Holds (λ n. Belongs i bs j (distance owner n)) (get_or bs j empty_bucket)
  Placed-get i [] j h = (omega arith, (tt, tt, tt))
  Placed-get i (b ∷ []) zero h = h
  Placed-get i (b ∷ []) (suc j) h = (omega arith, (tt, tt, tt))
  Placed-get i (b ∷ c ∷ bs) zero h = (h.0, h.1)
  Placed-get i (b ∷ c ∷ bs) (suc j) h = Placed-get (suc i) (c ∷ bs) j h.2

  -- Another bucket in its place.
  pub set-Placed :
      (i : ℕ) (bs : List (Bucket E)) (j : ℕ) (b' : Bucket E)
      → Placed owner i bs
      → length b'.nodes ≤ bucket_size
      → Holds (λ n. Belongs i bs j (distance owner n)) b'
      → Placed owner i (set bs j b')
  set-Placed i [] j b' h l a = tt
  set-Placed i (b ∷ []) zero b' h l a = (l, a)
  set-Placed i (b ∷ []) (suc j) b' h l a = h
  set-Placed i (b ∷ c ∷ bs) zero b' h l a = (l, a, h.2)
  set-Placed i (b ∷ c ∷ bs) (suc zero) b' h l a =
      (h.0, h.1, set-Placed (suc i) (c ∷ bs) zero b' h.2 l a)
  set-Placed i (b ∷ c ∷ bs) (suc (suc j)) b' h l a =
      (h.0, h.1, set-Placed (suc i) (c ∷ bs) (suc j) b' h.2 l a)

  All-both :
      (k i : ℕ) (ns : List (RoutingNode E))
      → k ≡ suc i
      → All (λ n. Within i (distance owner n)) ns
      → All (λ n. Beyond k (distance owner n)) ns
      → All (λ n. Within i (distance owner n) × Beyond (suc i) (distance owner n)) ns
  All-both k i [] e h g = tt
  All-both k i (n ∷ ns) e h g =
      ((h.0, subst (λ m. Beyond m (distance owner n)) e g.0), All-both k i ns e h.1 g.1)

  -- The last bucket split in two, `k` being the index of the new one.
  pub split-Placed :
      (k i : ℕ) (bs : List (Bucket E)) (j : ℕ) (old young : Bucket E)
      → suc j ≡ length bs
      → k ≡ suc (i + j)
      → Placed owner i bs
      → (length old.nodes ≤ bucket_size)
      → (length young.nodes ≤ bucket_size)
      → Holds (λ n. Belongs i bs j (distance owner n)) old
      → Holds (λ n. Beyond k (distance owner n)) old
      → Holds (λ n. Within k (distance owner n)) young
      → Placed owner i (set bs j old ++ young ∷ [])
  split-Placed k i [] j old young last e h lo ly ao bo ay = absurd (omega arith)
  split-Placed k i (b ∷ []) zero old young last e h lo ly ao bo ay =
      let e' : k ≡ suc i = omega arith in
      (
        lo,
        (
          All-both k i old.nodes e' ao.0 bo.0,
          All-both k i old.verified_candidates e' ao.1 bo.1,
          All-both k i old.unverified_candidates e' ao.2 bo.2,
        ),
        (ly, subst (λ m. Holds (λ n. Within m (distance owner n)) young) e' ay),
      )
  split-Placed k i (b ∷ []) (suc j) old young last e h lo ly ao bo ay = absurd (omega arith)
  split-Placed k i (b ∷ c ∷ bs) zero old young last e h lo ly ao bo ay = absurd (omega arith)
  split-Placed k i (b ∷ c ∷ bs) (suc zero) old young last e h lo ly ao bo ay = (
    h.0,
    h.1,
    split-Placed k (suc i) (c ∷ bs) zero old young (omega arith) (omega arith) h.2 lo ly ao bo ay,
  )
  split-Placed k i (b ∷ c ∷ bs) (suc (suc j)) old young last e h lo ly ao bo ay = (
    h.0,
    h.1,
    split-Placed k (suc i) (c ∷ bs) (suc j) old young (omega arith) (omega arith) h.2 lo ly ao bo
        ay,
  )

module _ {E : Type 0} where
  -- A bucket with others behind it holds no node of the nearer half.
  pub Belongs-Beyond :
      (i : ℕ) (bs : List (Bucket E)) (j : ℕ) (d : Bytes)
      → suc j < length bs
      → Belongs i bs j d
      → Beyond (suc (i + j)) d
  Belongs-Beyond i [] j d l h = absurd (omega arith)
  Belongs-Beyond i (b ∷ []) j d l h = absurd (omega arith)
  Belongs-Beyond i (b ∷ c ∷ bs) zero d l h =
      subst (λ m. Beyond m d) (let e : suc i ≡ suc (i + 0) = omega arith in e) h.1
  Belongs-Beyond i (b ∷ c ∷ bs) (suc j) d l h =
      subst (λ m. Beyond m d) (let e : suc (suc i + j) ≡ suc (i + suc j) = omega arith in e)
        (Belongs-Beyond (suc i) (c ∷ bs) j d (omega arith) h)

  pub set-Belongs :
      (i : ℕ) (bs : List (Bucket E)) (j : ℕ) (b' : Bucket E) (d : Bytes)
      → Belongs i bs j d
      → Belongs i (set bs j b') j d
  set-Belongs i [] j b' d h = tt
  set-Belongs i (b ∷ []) zero b' d h = h
  set-Belongs i (b ∷ []) (suc j) b' d h = tt
  set-Belongs i (b ∷ c ∷ bs) zero b' d h = h
  set-Belongs i (b ∷ c ∷ bs) (suc zero) b' d h = set-Belongs (suc i) (c ∷ bs) zero b' d h
  set-Belongs i (b ∷ c ∷ bs) (suc (suc j)) b' d h = set-Belongs (suc i) (c ∷ bs) (suc j) b' d h
