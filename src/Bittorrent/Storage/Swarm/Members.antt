-- ===== src/Bittorrent/Storage/Swarm/Members.antt =====
-- Which peers a swarm holds after its operations, and where they stand.
use ouinet.Prelude.{
  ℕ, ◌-◌, ◌<◌, ◌≡◌, refl, sym, ◌∙◌, some, length, get_elem?, set, length-set, arith, ltb, ◌==◌,
  if◌then◌else◌, Bool-cases, Option-cases, inl, inr,
}
use ouinet.Prelude.Eq.{Eq}
use ouinet.Bittorrent.Storage.Swarm.{Peer, Swarm, swap_peers, remove_last, remove, pop_back}
use ouinet.Bittorrent.Storage.Swarm.Positions.{
  get_elem?-take, get_elem?-some, take-all, length-take,
}
use ouinet.Bittorrent.Storage.Swarm.Index.{get_elem?-set_twice, swap_peers_list}

-- The peer stands somewhere in the swarm.
abbrev pub Holds : {E : Type 0} → Swarm E → Peer E → Type 0
Holds s p = (k : ℕ) × (get_elem? s.peers k ≡ some p)

-- Two positions change places and the others stay.
abbrev pub swapped : ℕ → ℕ → ℕ → ℕ
swapped i j k = if j == k then i else if i == k then j else k

-- The last peer takes the place `i`.
abbrev pub filled : ℕ → ℕ → ℕ → ℕ
filled last i k = if i == k then last else k

module _ {E : Type 0} ⦃e : Eq E⦄ where
  pub get_elem?-swap_peers :
      (s : Swarm E) (i j k : ℕ)
      → i < length s.peers
      → j < length s.peers
      → get_elem? (swap_peers s i j).peers k ≡ get_elem? s.peers (swapped i j k)
  unfolding swap_peers
  get_elem?-swap_peers s i j k li lj =
      let (p, hi) = get_elem?-some s.peers i li in
      let (q, hj) = get_elem?-some s.peers j lj in
      rw
        (hi, hj, swap_peers, swap_peers_list s i j p q, get_elem?-set_twice s.peers i j p q k li lj)
        (ground (arith, hi, hj))

  pub length-swap_peers : (s : Swarm E) (i j : ℕ) → length (swap_peers s i j).peers ≡ length s.peers
  unfolding swap_peers
  length-swap_peers s i j = elim (Option-cases (get_elem? s.peers i)) [
    | inl out ↦ rw (out, swap_peers) refl
    | inr (p, hi) ↦ elim (Option-cases (get_elem? s.peers j)) [
      | inl out ↦ rw (hi, out, swap_peers) refl
      | inr (q, hj) ↦
          rw (hi, hj, swap_peers, swap_peers_list s i j p q)
            (length-set (set s.peers i q) j p ∙ length-set s.peers i q)
    ]
  ]

  -- The last peer leaves, and the others stay.
  remove_last_peers : (s : Swarm E) → (remove_last s).peers ≡ pop_back s.peers
  unfolding remove_last
  remove_last_peers s = elim (Bool-cases (ltb 0 (length s.peers))) [
    | inl some_left ↦
        let (p, at) = get_elem?-some s.peers (length s.peers - 1) (ground arith) in
        rw (at, remove_last) refl
    | inr none_left ↦
        let all : pop_back s.peers ≡ s.peers = take-all _ s.peers (ground arith) in
        elim (Option-cases (get_elem? s.peers (length s.peers - 1))) [
          | inl out ↦ rw (out, remove_last) (sym all)
          | inr (p, at) ↦ rw (at, remove_last) refl
        ]
  ]

  pub get_elem?-remove :
      (s : Swarm E) (i k : ℕ)
      → i < length s.peers
      → k < length s.peers - 1
      → get_elem? (remove s i).peers k ≡ get_elem? s.peers (filled (length s.peers - 1) i k)
  unfolding remove
  get_elem?-remove s i k li lk =
      let last = length s.peers - 1 in
      elim (Bool-cases (last == i)) [
        | inl same ↦
            rw (same, remove, remove_last_peers s, get_elem?-take last s.peers k lk) (ground arith)
        | inr other ↦
            let t = swap_peers s last i in
            let l = length-swap_peers s last i in
            rw
              (
                other,
                remove,
                remove_last_peers t,
                l,
                get_elem?-take last t.peers k lk,
                get_elem?-swap_peers s last i k (omega arith) li,
              )
              (ground arith)
      ]

  pub length-remove : (s : Swarm E) (i : ℕ) → length (remove s i).peers ≡ length s.peers - 1
  unfolding remove
  length-remove s i =
      let last = length s.peers - 1 in
      elim (Bool-cases (last == i)) [
        | inl same ↦ rw (same, remove, remove_last_peers s) (length-take last s.peers (omega arith))
        | inr other ↦
            let t = swap_peers s last i in
            let l = length-swap_peers s last i in
            rw (other, remove, remove_last_peers t, l) (length-take last t.peers (omega arith))
      ]
