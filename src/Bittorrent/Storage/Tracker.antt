-- ===== src/Bittorrent/Storage/Tracker.antt =====
-- `Tracker` of src/bittorrent/dht_storage.cpp: the swarms by their identifier. The coroutine of the
-- constructor calls `sweep_swarms` every minute.
use ouinet.Prelude.{
  ℕ, List, [], ◌∷◌, none, some, Bytes, All, Option-cases, inl, inr, if_both, if◌then◌else◌,
}
use ouinet.Prelude.Eq.{Eq}
use ouinet.Prelude.Maps.{find, assign, All-assign, All-find}
use ouinet.Bittorrent.Storage.Keys.{id_key}
use ouinet.Bittorrent.Storage.Swarm.{Swarm, empty_swarm, add, list, expire, empty}
use ouinet.Bittorrent.Storage.Swarm.Index.{
  Indexed, empty_swarm-Indexed, add-Indexed, expire-Indexed,
}
use ouinet.Bittorrent.Storage.Swarm.Listing.{list-take}

module _ {E : Type 0} ⦃e : Eq E⦄ where
  unfoldable pub add_peer : List (Bytes × Swarm E) → Bytes → E → ℕ → List (Bytes × Swarm E)
  add_peer swarms id endpoint now =
      assign swarms id
        (add (elim (find swarms id) [ none ↦ empty_swarm | some s ↦ s ]) endpoint now)

  unfoldable pub list_peers :
      List (Bytes × Swarm E) → Bytes → ℕ → (ℕ → ℕ) → List (Bytes × Swarm E) × List E
  list_peers swarms id count rand = elim (find swarms id) [
    | none ↦ (swarms, [])
    | some s ↦ (assign swarms id (list s count rand).0, (list s count rand).1)
  ]

  unfoldable pub sweep_swarms : List (Bytes × Swarm E) → ℕ → List (Bytes × Swarm E)
  sweep_swarms [] now = []
  sweep_swarms (kv ∷ swarms) now =
      let rest = sweep_swarms swarms now in
      let s = expire kv.1 now in if empty s then rest else (kv.0, s) ∷ rest

  -- The index of every swarm is right.
  abbrev pub AllIndexed : List (Bytes × Swarm E) → Type 0
  AllIndexed = All λ kv. Indexed kv.1

  -- `add_peer` keeps the index of every swarm right.
  pub add_peer-AllIndexed :
      (swarms : List (Bytes × Swarm E)) (id : Bytes) (endpoint : E) (now : ℕ)
      → AllIndexed swarms
      → AllIndexed (add_peer swarms id endpoint now)
  unfolding add_peer
  add_peer-AllIndexed swarms id endpoint now h =
      All-assign (λ kv. Indexed kv.1) swarms id _ h
        (add-Indexed (elim (find swarms id) [ none ↦ empty_swarm | some s ↦ s ]) endpoint now
          (elim (Option-cases (find swarms id)) [
            | inl absent ↦ rw absent empty_swarm-Indexed
            | inr (s, found) ↦ rw found (All-find Indexed swarms id s h found)
          ]))

  -- `list_peers` keeps the index of every swarm right.
  pub list_peers-AllIndexed :
      (swarms : List (Bytes × Swarm E)) (id : Bytes) (count : ℕ) (rand : ℕ → ℕ)
      → AllIndexed swarms
      → AllIndexed (list_peers swarms id count rand).0
  unfolding list_peers
  list_peers-AllIndexed swarms id count rand h = elim (Option-cases (find swarms id)) [
    | inl absent ↦ rw (absent, list_peers) h
    | inr (s, found) ↦
        let listed = list-take s count rand (All-find Indexed swarms id s h found) in
        rw (found, list_peers)
          (All-assign (λ kv. Indexed kv.1) swarms id (list s count rand).0 h listed.3)
  ]

  -- The round of the coroutine keeps the index of every swarm right.
  pub sweep_swarms-AllIndexed :
      (swarms : List (Bytes × Swarm E)) (now : ℕ)
      → AllIndexed swarms
      → AllIndexed (sweep_swarms swarms now)
  unfolding sweep_swarms
  sweep_swarms-AllIndexed [] now h = tt
  sweep_swarms-AllIndexed (kv ∷ swarms) now h =
      let rest = sweep_swarms-AllIndexed swarms now h.1 in
      if_both AllIndexed (empty (expire kv.1 now)) _ _ rest (expire-Indexed kv.1 now h.0, rest)
