-- ===== src/Bittorrent/Storage/Swarm/Index.antt =====
-- The index of a swarm agrees with its peers, and every operation keeps that.
use ouinet.Prelude.{
  ℕ, zero, suc, ◌-◌, ◌<◌, ◌≡◌, ◌≢◌, refl, ap, false, List, Option, none, some, length, get_elem?,
  get_elem?-lt, set, length-set, arith, ◌==◌, if◌then◌else◌, Bool-cases, Option-cases, inl, inr,
  if_both,
}
use ouinet.Prelude.Eq.{Eq}
use ouinet.Prelude.Maps.{
  find, assign, find-assign_same, find-assign_other, find-erase_same, find-erase_other,
}
use ouinet.Bittorrent.Storage.Swarm.{
  Peer, Swarm, add, swap_entries, swap_peers, remove_last, remove, expire_from, expire, empty_swarm,
  index_at, is_expired,
}
use ouinet.Bittorrent.Storage.Swarm.Positions.{
  get_elem?-set_same, get_elem?-set_other, get_elem?-append_last, get_elem?-append_other,
  get_elem?-take, get_elem?-take_beyond, get_elem?-beyond,
}

abbrev pub endpoint_of : {E : Type 0} → Option (Peer E) → Option E
endpoint_of none = none
endpoint_of (some p) = some p.endpoint

module _ {E : Type 0} ⦃e : Eq E⦄ where
  -- An endpoint has the index `i` just if it is the endpoint of the peer at `i`.
  pub record Indexed (s : Swarm E) : Type 0 where
    pub listed :
        (x : E) (i : ℕ)
        → find s.peer_indices x ≡ some i
        → endpoint_of (get_elem? s.peers i) ≡ some x
    pub found :
        (x : E) (i : ℕ)
        → endpoint_of (get_elem? s.peers i) ≡ some x
        → find s.peer_indices x ≡ some i

  pub empty_swarm-Indexed : Indexed empty_swarm
  unfolding find
  empty_swarm-Indexed = record { listed = λ x i h. cc; found = λ x i h. cc }

  -- The index after two writes.
  find-assign_twice :
      (m : List (E × ℕ)) (a b : E) (i j : ℕ) (x : E)
      → find (assign (assign m a j) b i) x
        ≡ (if e.beq b x then some i else if e.beq a x then some j else find m x)
  find-assign_twice m a b i j x = ground (
    arith,
    find-assign_same (assign m a j) b i,
    find-assign_other (assign m a j) b x i,
    find-assign_same m a j,
    find-assign_other m a x j,
    e.beq_sound b x,
    e.beq_sound a x,
  )

  -- The peers after two writes.
  pub get_elem?-set_twice :
      (ps : List (Peer E)) (i j : ℕ) (p q : Peer E) (k : ℕ)
      → i < length ps
      → j < length ps
      → get_elem? (set (set ps i q) j p) k
        ≡ (if j == k then some p else if i == k then some q else get_elem? ps k)
  get_elem?-set_twice ps i j p q k hi hj = ground (
    arith,
    get_elem?-set_same (set ps i q) j p,
    get_elem?-set_other (set ps i q) j k p,
    get_elem?-set_same ps i q,
    get_elem?-set_other ps i k q,
    length-set ps i q,
  )

  -- Different positions hold different endpoints.
  apart :
      (s : Swarm E) (i j : ℕ) (p q : Peer E)
      → Indexed s
      → get_elem? s.peers i ≡ some p
      → get_elem? s.peers j ≡ some q
      → i ≢ j
      → e.beq q.endpoint p.endpoint ≡ false
  apart s i j p q h hi hj n =
      let f = h.found p.endpoint i (ap endpoint_of hi) in
      let g = h.found q.endpoint j (ap endpoint_of hj) in
      ground (arith, f, g, e.beq_sound q.endpoint p.endpoint)

  swap_indices :
      (s : Swarm E) (i j : ℕ) (p q : Peer E)
      → find s.peer_indices p.endpoint ≡ some i
      → find s.peer_indices q.endpoint ≡ some j
      → (swap_entries s i p j q).peer_indices
        ≡ assign (assign s.peer_indices p.endpoint j) q.endpoint i
  unfolding swap_entries
  swap_indices s i j p q fp fq =
      let ei : index_at s.peer_indices p.endpoint ≡ i = rw (fp, index_at) refl in
      let ej : index_at s.peer_indices q.endpoint ≡ j = rw (fq, index_at) refl in cc (ei, ej)

  pub swap_peers_list :
      (s : Swarm E) (i j : ℕ) (p q : Peer E)
      → (swap_entries s i p j q).peers ≡ set (set s.peers i q) j p
  unfolding swap_entries
  swap_peers_list s i j p q = refl

  swap_entries-Indexed :
      (s : Swarm E) (i j : ℕ) (p q : Peer E)
      → Indexed s
      → get_elem? s.peers i ≡ some p
      → get_elem? s.peers j ≡ some q
      → i ≢ j
      → Indexed (swap_entries s i p j q)
  swap_entries-Indexed s i j p q h hi hj n =
      let fp = h.found p.endpoint i (ap endpoint_of hi) in
      let fq = h.found q.endpoint j (ap endpoint_of hj) in
      let at = get_elem?-set_twice s.peers i j p q in
      let li = get_elem?-lt s.peers i p hi in
      let lj = get_elem?-lt s.peers j q hj in
      let by_key = find-assign_twice s.peer_indices p.endpoint q.endpoint i j in
      let distinct = apart s i j p q h hi hj n in
      record {
        listed = λ x k.
            rw (swap_indices s i j p q fp fq, swap_peers_list s i j p q, by_key x, at k li lj)
              λ g. ground (
                arith,
                h.listed x k,
                h.listed x i,
                h.listed x j,
                e.beq_sound q.endpoint x,
                e.beq_sound p.endpoint x,
                e.beq_complete q.endpoint x,
                e.beq_complete p.endpoint x,
              );
        found = λ x k.
            rw (swap_indices s i j p q fp fq, swap_peers_list s i j p q, by_key x, at k li lj)
              λ g. ground (
                arith,
                h.found x k,
                e.beq_sound q.endpoint x,
                e.beq_sound p.endpoint x,
                e.beq_complete q.endpoint x,
                e.beq_complete p.endpoint x,
              );
      }

  pub swap_peers-Indexed : (s : Swarm E) (i j : ℕ) → Indexed s → i ≢ j → Indexed (swap_peers s i j)
  unfolding swap_peers
  swap_peers-Indexed s i j h n = elim (Option-cases (get_elem? s.peers i)) [
    | inl out ↦ rw (out, swap_peers) h
    | inr (p, hi) ↦ elim (Option-cases (get_elem? s.peers j)) [
      | inl out ↦ rw (hi, out, swap_peers) h
      | inr (q, hj) ↦ rw (hi, hj, swap_peers) (swap_entries-Indexed s i j p q h hi hj n)
    ]
  ]

  pub remove_last-Indexed : (s : Swarm E) → Indexed s → Indexed (remove_last s)
  unfolding remove_last
  remove_last-Indexed s h =
      let last = length s.peers - 1 in
      elim (Option-cases (get_elem? s.peers last)) [
        | inl out ↦ rw (out, remove_last) h
        | inr (p, at) ↦
            let fp = h.found p.endpoint last (ap endpoint_of at) in
            let l = get_elem?-lt s.peers last p at in
            rw (at, remove_last)
              record {
                listed = λ x k g. ground (
                  arith,
                  h.listed x k,
                  find-erase_same s.peer_indices p.endpoint,
                  find-erase_other s.peer_indices p.endpoint x,
                  e.beq_sound p.endpoint x,
                  get_elem?-take last s.peers k,
                  get_elem?-beyond s.peers k,
                  at,
                );
                found = λ x k g. ground (
                  arith,
                  h.found x k,
                  find-erase_other s.peer_indices p.endpoint x,
                  e.beq_sound p.endpoint x,
                  get_elem?-take last s.peers k,
                  get_elem?-take_beyond last s.peers k,
                  fp,
                );
              }
      ]

  pub remove-Indexed : (s : Swarm E) (i : ℕ) → Indexed s → Indexed (remove s i)
  unfolding remove
  remove-Indexed s i h =
      let last = length s.peers - 1 in
      elim (Bool-cases (last == i)) [
        | inl same ↦ rw (same, remove) (remove_last-Indexed s h)
        | inr other ↦
            rw (other, remove)
              (remove_last-Indexed (swap_peers s last i)
                (swap_peers-Indexed s last i h (ground arith)))
      ]

  expire_from-Indexed : (f now i : ℕ) (s : Swarm E) → Indexed s → Indexed (expire_from f now i s)
  unfolding expire_from
  expire_from-Indexed zero now i s h = h
  expire_from-Indexed (suc f) now i s h = elim (Option-cases (get_elem? s.peers i)) [
    | inl out ↦ rw (out, expire_from) h
    | inr (p, at) ↦
        rw (at, expire_from)
          (expire_from-Indexed f now (if is_expired now p then i else suc i)
            (if is_expired now p then remove s i else s)
            (if_both Indexed (is_expired now p) (remove s i) s (remove-Indexed s i h) h))
  ]

  -- `expire` keeps the index of the swarm right.
  pub expire-Indexed : (s : Swarm E) (now : ℕ) → Indexed s → Indexed (expire s now)
  unfolding expire
  expire-Indexed s now h = expire_from-Indexed (length s.peers) now 0 s h

  -- `add` keeps the index of the swarm right.
  pub add-Indexed :
      (s : Swarm E) (endpoint : E) (now : ℕ) → Indexed s → Indexed (add s endpoint now)
  unfolding add
  add-Indexed s endpoint now h =
      let m = s.peer_indices in
      let new : Peer E = record { endpoint = endpoint; last_seen = now } in
      let n = length s.peers in
      elim (Option-cases (find m endpoint)) [
        | inl absent ↦
            rw (absent, add)
              record {
                listed = λ x k g. ground (
                  arith,
                  h.listed x k,
                  find-assign_same m endpoint n,
                  find-assign_other m endpoint x n,
                  e.beq_sound endpoint x,
                  get_elem?-append_last s.peers new,
                  get_elem?-append_other s.peers new k,
                  get_elem?-beyond s.peers n,
                );
                found = λ x k g. ground (
                  arith,
                  h.found x k,
                  absent,
                  find-assign_same m endpoint n,
                  find-assign_other m endpoint x n,
                  e.beq_sound endpoint x,
                  get_elem?-append_last s.peers new,
                  get_elem?-append_other s.peers new k,
                );
              }
        | inr (i, present) ↦ elim (Option-cases (get_elem? s.peers i)) [
          | inl out ↦ rw (present, add, out) h
          | inr (p, at) ↦
              let l = get_elem?-lt s.peers i p at in
              let q : Peer E = record p { last_seen = now } in
              rw (present, add, at)
                record {
                  listed = λ x k g. ground (
                    arith,
                    h.listed x k,
                    at,
                    get_elem?-set_same s.peers i q,
                    get_elem?-set_other s.peers i k q,
                  );
                  found = λ x k g. ground (
                    arith,
                    h.found x k,
                    at,
                    get_elem?-set_same s.peers i q,
                    get_elem?-set_other s.peers i k q,
                  );
                }
        ]
      ]
