-- ===== src/Bittorrent/Storage/Swarm.antt =====
-- `detail::Swarm` of src/bittorrent/dht_storage.cpp: the peers of a swarm with the index of each
-- endpoint. `now` is what the steady clock reads, in nanoseconds, and `rand i` what `std::rand` returns
-- in the round `i` of `list`. Endpoints are a type of Boost: a parameter with its equality.
pub mod Expiry
pub mod Index
pub mod Listing
pub mod Members
pub mod Positions
use ouinet.Prelude.{
  ℕ, zero, suc, ◌+◌, ◌-◌, ◌*◌, ◌%◌, ◌^◌, Bool, true, false, not, List, [], ◌∷◌, ◌++◌, Option, none,
  some, length, get_elem?, set, take, ltb, ◌==◌, is_empty, if◌then◌else◌,
}
use ouinet.Prelude.Eq.{Eq}
use ouinet.Prelude.Maps.{find, assign, erase}

abbrev pub seconds : ℕ → ℕ
seconds n = n * 10 ^ 9

abbrev pub announce_validity_seconds : ℕ
announce_validity_seconds = 3600 * 2

pub record Peer (E : Type 0) : Type 0 where
  pub endpoint : E
  pub last_seen : ℕ

pub record Swarm (E : Type 0) : Type 0 where
  pub peers : List (Peer E)
  pub peer_indices : List (E × ℕ)

abbrev pub empty_swarm : {E : Type 0} → Swarm E
empty_swarm = record { peers = []; peer_indices = [] }

-- The condition under which `expire` removes a peer.
abbrev pub is_expired : {E : Type 0} → ℕ → Peer E → Bool
is_expired now p = ltb (p.last_seen + seconds announce_validity_seconds) now

-- `pop_back`.
abbrev pub pop_back {ℓ} : {A : Type ℓ} → List A → List A
pop_back xs = take (length xs - 1) xs

module _ {E : Type 0} ⦃e : Eq E⦄ where
  unfoldable pub add : Swarm E → E → ℕ → Swarm E
  add s endpoint now = elim (find s.peer_indices endpoint) [
    | none ↦ record {
      peers = s.peers ++ record { endpoint = endpoint; last_seen = now } ∷ [];
      peer_indices = assign s.peer_indices endpoint (length s.peers);
    }
    | some index ↦ elim (get_elem? s.peers index) [
      | none ↦ s
      | some p ↦ record s { peers = set s.peers index (record p { last_seen = now }) }
    ]
  ]

  -- `m[k]`, which gives 0 to a new key.
  abbrev pub index_at : List (E × ℕ) → E → ℕ
  index_at m k = elim (find m k) [ none ↦ 0 | some i ↦ i ]

  -- The two `std::swap` on the entries of `p` and `q`, which stand at `i` and `j`.
  pub swap_entries : Swarm E → ℕ → Peer E → ℕ → Peer E → Swarm E
  swap_entries s i p j q =
      let m = s.peer_indices in
      record {
        peers = set (set s.peers i q) j p;
        peer_indices =
            assign (assign m p.endpoint (index_at m q.endpoint)) q.endpoint (index_at m p.endpoint);
      }

  -- The swap of the peers at `i` and `j`.
  pub swap_peers : Swarm E → ℕ → ℕ → Swarm E
  unfolding swap_entries
  swap_peers s i j = elim (get_elem? s.peers i) [
    | none ↦ s
    | some p ↦ elim (get_elem? s.peers j) [ none ↦ s | some q ↦ swap_entries s i p j q ]
  ]

  -- The loop of `list`, with `rounds` left and standing at `i`.
  pub list_from : ℕ → ℕ → (ℕ → ℕ) → Swarm E → Swarm E × List E
  unfolding swap_peers
  list_from zero i rand s = (s, [])
  list_from (suc rounds) i rand s =
      let target = i + rand i % (length s.peers - i) in
      elim (get_elem? s.peers target) [
        | none ↦ (s, [])
        | some p ↦
            let s' = if target == i then s else swap_peers s target i in
            let rest = list_from rounds (suc i) rand s' in
            if ltb i (length s.peers) then (rest.0, p.endpoint ∷ rest.1) else (s, [])
      ]

  unfoldable pub list : Swarm E → ℕ → (ℕ → ℕ) → Swarm E × List E
  unfolding list_from
  list s count rand = list_from count 0 rand s

  -- The last peer leaves.
  pub remove_last : Swarm E → Swarm E
  remove_last s = elim (get_elem? s.peers (length s.peers - 1)) [
    | none ↦ s
    | some p ↦ record { peers = pop_back s.peers; peer_indices = erase s.peer_indices p.endpoint }
  ]

  -- The peer at `i` leaves.
  pub remove : Swarm E → ℕ → Swarm E
  unfolding swap_peers remove_last
  remove s i =
      let replacement = length s.peers - 1 in
      remove_last (if replacement == i then s else swap_peers s replacement i)

  -- The loop of `expire`, standing at `i`, for as many rounds as there is fuel.
  pub expire_from : ℕ → ℕ → ℕ → Swarm E → Swarm E
  unfolding remove
  expire_from zero now i s = s
  expire_from (suc f) now i s = elim (get_elem? s.peers i) [
    | none ↦ s
    | some p ↦
        let i' = if is_expired now p then i else suc i in
        let s' = if is_expired now p then remove s i else s in expire_from f now i' s'
  ]

  -- Each round removes a peer or passes one.
  unfoldable pub expire : Swarm E → ℕ → Swarm E
  unfolding expire_from
  expire s now = expire_from (length s.peers) now 0 s

  unfoldable pub empty : Swarm E → Bool
  empty s = is_empty s.peers
