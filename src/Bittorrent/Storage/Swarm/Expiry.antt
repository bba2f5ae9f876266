-- ===== src/Bittorrent/Storage/Swarm/Expiry.antt =====
-- What `Swarm::expire` leaves.
use ouinet.Prelude.{
  ℕ, zero, suc, ◌+◌, ◌-◌, ◌≤◌, ◌<◌, ◌≡◌, ◌≢◌, ◌↔◌, sym, ◌∙◌, true, false, some, length, get_elem?,
  get_elem?-lt, arith, ltb, ◌==◌, Bool-cases, Option-cases, inl, inr,
}
use ouinet.Prelude.Eq.{Eq}
use ouinet.Bittorrent.Storage.Swarm.{Peer, Swarm, remove, expire_from, expire, is_expired}
use ouinet.Bittorrent.Storage.Swarm.Positions.{get_elem?-some}
use ouinet.Bittorrent.Storage.Swarm.Members.{Holds, filled, get_elem?-remove, length-remove}

module _ {E : Type 0} ⦃e : Eq E⦄ where
  -- No peer before `i` has expired.
  abbrev Fresh : ℕ → ℕ → Swarm E → Type 0
  Fresh now i s =
      (k : ℕ) (p : Peer E) → k < i → get_elem? s.peers k ≡ some p → is_expired now p ≡ false

  remove-Holds :
      (s : Swarm E) (i : ℕ) (p : Peer E) → i < length s.peers → Holds (remove s i) p → Holds s p
  remove-Holds s i p l (k, at) =
      let lk = get_elem?-lt (remove s i).peers k p at in
      let n = length-remove s i in
      (filled (length s.peers - 1) i k, sym (get_elem?-remove s i k l (omega arith)) ∙ at)

  remove_keeps :
      (s : Swarm E) (i k : ℕ) (p : Peer E)
      → i < length s.peers
      → i ≢ k
      → get_elem? s.peers k ≡ some p
      → Holds (remove s i) p
  remove_keeps s i k p l n at =
      let lk = get_elem?-lt s.peers k p at in
      elim (Bool-cases (k == length s.peers - 1)) [
        | inl last ↦ (i, ground (arith, get_elem?-remove s i i l, at))
        | inr other ↦ (k, ground (arith, get_elem?-remove s i k l, at))
      ]

  remove-Fresh :
      (now : ℕ) (s : Swarm E) (i : ℕ)
      → i < length s.peers
      → Fresh now i s
      → Fresh now i (remove s i)
  remove-Fresh now s i l h k p lk at =
      let inside = get_elem?-lt (remove s i).peers k p at in
      let n = length-remove s i in h k p lk (ground (arith, get_elem?-remove s i k l, at))

  -- The three facts about the loop, by the rounds that are left.
  record Leaves (now : ℕ) (s r : Swarm E) : Type 0 where
    fresh : (p : Peer E) → Holds r p → is_expired now p ≡ false
    from : (p : Peer E) → Holds r p → Holds s p
    keeps : (p : Peer E) → Holds s p → is_expired now p ≡ false → Holds r p

  done-Leaves : (now i : ℕ) (s : Swarm E) → length s.peers ≤ i → Fresh now i s → Leaves now s s
  done-Leaves now i s l h = record {
    fresh = λ p (k, at). let inside = get_elem?-lt s.peers k p at in h k p (omega arith) at;
    from = λ p q. q;
    keeps = λ p q f. q;
  }

  -- An expired peer at `i` leaves before the rest of the loop runs.
  remove-Leaves :
      (now i : ℕ) (s r : Swarm E) (x : Peer E)
      → get_elem? s.peers i ≡ some x
      → is_expired now x ≡ true
      → Leaves now (remove s i) r
      → Leaves now s r
  remove-Leaves now i s r x at old h =
      let l = get_elem?-lt s.peers i x at in
      record {
        fresh = h.fresh;
        from = λ p q. remove-Holds s i p l (h.from p q);
        keeps = λ p (k, at') f.
            h.keeps p (remove_keeps s i k p l (λ same. ground (arith, same, at, at', old, f)) at')
              f;
      }

  Fresh-suc :
      (now i : ℕ) (s : Swarm E) (x : Peer E)
      → get_elem? s.peers i ≡ some x
      → is_expired now x ≡ false
      → Fresh now i s
      → Fresh now (suc i) s
  Fresh-suc now i s x at f h k p l at' = ground (arith, at, at', f, h k p)

  expire_from-Leaves :
      (f now i : ℕ) (s : Swarm E)
      → length s.peers ≤ f + i
      → Fresh now i s
      → Leaves now s (expire_from f now i s)
  unfolding expire_from
  expire_from-Leaves zero now i s l h = done-Leaves now i s (omega arith) h
  expire_from-Leaves (suc f) now i s l h = elim (Option-cases (get_elem? s.peers i)) [
    | inl out ↦
        rw (out, expire_from)
          (done-Leaves now i s
            (elim (Bool-cases (ltb i (length s.peers))) [
              | inl inside ↦
                  let (x, at) = get_elem?-some s.peers i (ground arith) in ground (arith, out, at)
              | inr beyond ↦ ground arith
            ])
            h)
    | inr (p, at) ↦
        let inside = get_elem?-lt s.peers i p at in
        elim (Bool-cases (is_expired now p)) [
          | inl old ↦
              let n = length-remove s i in
              rw (at, expire_from, old)
                (remove-Leaves now i s (expire_from f now i (remove s i)) p at old (
                  expire_from-Leaves f now i (remove s i) (omega arith)
                    (remove-Fresh now s i inside h)))
          | inr still ↦
              rw (at, expire_from, still)
                (expire_from-Leaves f now (suc i) s (omega arith) (Fresh-suc now i s p at still h))
        ]
  ]

  -- `expire` leaves exactly the peers of the swarm that have not expired.
  pub expire-Holds :
      (s : Swarm E) (now : ℕ) (p : Peer E)
      → Holds (expire s now) p ↔ (Holds s p × (is_expired now p ≡ false))
  unfolding expire
  expire-Holds s now p =
      let h =
        expire_from-Leaves (length s.peers) now 0 s (omega arith)
          λ k q l at. absurd (omega arith) in
      (λ q. (h.from p q, h.fresh p q), λ q. h.keeps p q.0 q.1)
