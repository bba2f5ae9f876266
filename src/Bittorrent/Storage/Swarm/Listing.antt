-- ===== src/Bittorrent/Storage/Swarm/Listing.antt =====
-- What `Swarm::list` returns, and the swarm that it leaves.
use ouinet.Prelude.{
  ℕ, zero, suc, ◌+◌, ◌-◌, ◌%◌, ◌≤◌, ◌<◌, ◌≡◌, ◌↔◌, refl, sym, ap, ◌∙◌, List, [], ◌∷◌, some, length,
  get_elem?, take, drop, arith, ltb, ◌==◌, if◌then◌else◌, Bool-cases, Option-cases, inl, inr,
}
use native.Mathlib.Nat.{mod-lt}
use ouinet.Prelude.Eq.{Eq}
use ouinet.Bittorrent.Storage.Swarm.{Peer, Swarm, swap_peers, list_from, list}
use ouinet.Bittorrent.Storage.Swarm.Positions.{get_elem?-some}
use ouinet.Bittorrent.Storage.Swarm.Index.{Indexed, swap_peers-Indexed}
use ouinet.Bittorrent.Storage.Swarm.Members.{
  Holds, swapped, get_elem?-swap_peers, length-swap_peers,
}

abbrev pub endpoints : {E : Type 0} → List (Peer E) → List E
endpoints [] = []
endpoints (p ∷ ps) = p.endpoint ∷ endpoints ps

drop-endpoints :
    {E : Type 0} (ps : List (Peer E)) (i : ℕ) (p : Peer E)
    → get_elem? ps i ≡ some p
    → drop i (endpoints ps) ≡ p.endpoint ∷ drop (suc i) (endpoints ps)
drop-endpoints [] i p h = cc
drop-endpoints (q ∷ ps) zero p h = ground arith
drop-endpoints (q ∷ ps) (suc i) p h = drop-endpoints ps i p h

drop-endpoints_beyond :
    {E : Type 0} (ps : List (Peer E)) (i : ℕ) → length ps ≤ i → drop i (endpoints ps) ≡ []
drop-endpoints_beyond [] zero h = refl
drop-endpoints_beyond [] (suc i) h = refl
drop-endpoints_beyond (q ∷ ps) zero h = absurd (omega arith)
drop-endpoints_beyond (q ∷ ps) (suc i) h = drop-endpoints_beyond ps i (omega arith)

module _ {E : Type 0} ⦃e : Eq E⦄ where
  -- What a round leaves of the swarm `s`, standing at `i`.
  record Rearranged (i : ℕ) (s r : Swarm E) : Type 0 where
    size : length r.peers ≡ length s.peers
    kept : (k : ℕ) → k < i → get_elem? r.peers k ≡ get_elem? s.peers k
    indexed : Indexed s → Indexed r
    from : (p : Peer E) → Holds r p → Holds s p
    to : (p : Peer E) → Holds s p → Holds r p

  Rearranged-refl : (i : ℕ) (s : Swarm E) → Rearranged i s s
  Rearranged-refl i s = record {
    size = refl;
    kept = λ k l. refl;
    indexed = λ h. h;
    from = λ p h. h;
    to = λ p h. h;
  }

  Rearranged-trans :
      (i : ℕ) (s t r : Swarm E) → Rearranged i s t → Rearranged (suc i) t r → Rearranged i s r
  Rearranged-trans i s t r a b = record {
    size = b.size ∙ a.size;
    kept = λ k l. b.kept k (omega arith) ∙ a.kept k l;
    indexed = λ h. b.indexed (a.indexed h);
    from = λ p h. a.from p (b.from p h);
    to = λ p h. b.to p (a.to p h);
  }

  swap_peers-Rearranged :
      (s : Swarm E) (target i : ℕ)
      → i < target
      → target < length s.peers
      → Rearranged i s (swap_peers s target i)
  swap_peers-Rearranged s target i l inside =
      let at = λ (k : ℕ). get_elem?-swap_peers s target i k inside (omega arith) in
      record {
        size = length-swap_peers s target i;
        kept = λ k lk. ground (arith, at k);
        indexed = λ h. swap_peers-Indexed s target i h (omega arith);
        from = λ p (k, g). (swapped target i k, sym (at k) ∙ g);
        to = λ p (k, g). (swapped target i k, ground (arith, at (swapped target i k), g));
      }

  -- The swarm after the swap of a round.
  abbrev turned : Swarm E → ℕ → ℕ → Swarm E
  turned s target i = if target == i then s else swap_peers s target i

  turned-Rearranged :
      (s : Swarm E) (target i : ℕ)
      → i ≤ target
      → target < length s.peers
      → Rearranged i s (turned s target i)
  turned-Rearranged s target i l inside = elim (Bool-cases (target == i)) [
    | inl same ↦ rw same (Rearranged-refl i s)
    | inr other ↦ rw other (swap_peers-Rearranged s target i (ground arith) inside)
  ]

  turned_at :
      (s : Swarm E) (target i : ℕ)
      → i ≤ target
      → target < length s.peers
      → get_elem? (turned s target i).peers i ≡ get_elem? s.peers target
  turned_at s target i l inside = elim (Bool-cases (target == i)) [
    | inl same ↦ rw same (ground arith)
    | inr other ↦ rw (other, get_elem?-swap_peers s target i i inside (omega arith)) (ground arith)
  ]

  -- The loop has gathered what now stands from `i` on.
  abbrev Lists : ℕ → ℕ → Swarm E → Swarm E × List E → Type 0
  Lists rounds i s r = Rearranged i s r.0 × (r.1 ≡ take rounds (drop i (endpoints r.0.peers)))

  take_nil : (n : ℕ) (xs : List E) → xs ≡ [] → [] ≡ take n xs
  take_nil zero xs h = refl
  take_nil (suc n) [] h = refl
  take_nil (suc n) (x ∷ xs) h = cc

  list_from-Lists :
      (rounds i : ℕ) (rand : ℕ → ℕ) (s : Swarm E) → Lists rounds i s (list_from rounds i rand s)
  unfolding list_from
  list_from-Lists zero i rand s = (Rearranged-refl i s, refl)
  list_from-Lists (suc rounds) i rand s =
      let n = length s.peers in
      let target = i + rand i % (n - i) in
      elim (Bool-cases (ltb i n)) [
        | inl room ↦
            let below : rand i % (n - i) < n - i = mod-lt (rand i) (ground arith) in
            let (p, at) = get_elem?-some s.peers target (omega arith) in
            let (a, gathered) = list_from-Lists rounds (suc i) rand (turned s target i) in
            let r = list_from rounds (suc i) rand (turned s target i) in
            let here : get_elem? r.0.peers i ≡ some p =
              a.kept i (omega arith) ∙ turned_at s target i (omega arith) (omega arith) ∙ at in
            rw (at, room, list_from)
              (
                Rearranged-trans i s (turned s target i) r.0
                    (turned-Rearranged s target i (omega arith) (omega arith)) a,
                rw (drop-endpoints r.0.peers i p here) (ap (◌∷◌ p.endpoint) gathered),
              )
        | inr full ↦
            let nothing =
              take_nil (suc rounds) (drop i (endpoints s.peers))
                (drop-endpoints_beyond s.peers i (ground arith)) in
            elim (Option-cases (get_elem? s.peers target)) [
              | inl out ↦ rw (out, list_from) (Rearranged-refl i s, nothing)
              | inr (p, at) ↦ rw (at, full, list_from) (Rearranged-refl i s, nothing)
            ]
      ]

  -- On a swarm with a right index, `list` returns the endpoints of the first `count` peers of the swarm
  -- that it leaves, which has the same peers, as many of them, and a right index.
  pub list-take :
      (s : Swarm E) (count : ℕ) (rand : ℕ → ℕ)
      → Indexed s
      → let (r, output) = list s count rand in
        (output ≡ take count (endpoints r.peers))
        × (length r.peers ≡ length s.peers)
        × ((p : Peer E) → Holds r p ↔ Holds s p)
        × Indexed r
  unfolding list
  list-take s count rand h =
      let (a, gathered) = list_from-Lists count 0 rand s in
      (gathered, a.size, (λ p. (a.from p, a.to p)), a.indexed h)
