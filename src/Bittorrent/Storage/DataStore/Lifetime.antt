-- ===== src/Bittorrent/Storage/DataStore/Lifetime.antt =====
-- What is put stays for its validity time.
use ouinet.Prelude.{ℕ, ◌+◌, ◌≤◌, ◌≡◌, ap, not, List, [], ◌∷◌, some, Bytes, keep, arith}
use ouinet.Prelude.Maps.{find, find-assign_same}
use ouinet.Bittorrent.Bencoding.{Value}
use ouinet.Bittorrent.MutableData.{MutableDataItem}
use ouinet.Bittorrent.Storage.Keys.{id_key}
use ouinet.Bittorrent.Storage.Swarm.{seconds}
use ouinet.Bittorrent.Storage.DataStore.{
  StoredItem, DataStore, sweep, is_stale, item_of, get_immutable, get_mutable, put_immutable,
  put_mutable, immutable_get_id, mutable_get_id, put_validity_seconds,
}

find-keep {ℓ} :
    {V : Type ℓ} (now : ℕ) (m : List (Bytes × StoredItem V)) (id : Bytes) (x : StoredItem V)
    → now ≤ x.last_seen + seconds put_validity_seconds
    → find m id ≡ some x
    → find (keep (λ kv. not (is_stale now kv)) m) id ≡ some x
unfolding find
find-keep now [] id x l h = cc
find-keep now (kv ∷ m) id x l h = ground (arith, find-keep now m id x l)

-- The store after sweeps at some times.
abbrev pub sweep_all : DataStore → List ℕ → DataStore
sweep_all s [] = s
sweep_all s (now ∷ later) = sweep_all (sweep s now) later

abbrev pub By : ℕ → List ℕ → Type 0
By until [] = Unit {0}
By until (now ∷ later) = (now ≤ until) × By until later

sweep_all-immutable :
    (s : DataStore) (sweeps : List ℕ) (id : Bytes) (x : StoredItem Value)
    → By (x.last_seen + seconds put_validity_seconds) sweeps
    → find s.immutable_data id ≡ some x
    → find (sweep_all s sweeps).immutable_data id ≡ some x
unfolding sweep
sweep_all-immutable s [] id x b h = h
sweep_all-immutable s (now ∷ later) id x b h =
    sweep_all-immutable (sweep s now) later id x b.1 (find-keep now s.immutable_data id x b.0 h)

sweep_all-mutable :
    (s : DataStore) (sweeps : List ℕ) (id : Bytes) (x : StoredItem MutableDataItem)
    → By (x.last_seen + seconds put_validity_seconds) sweeps
    → find s.mutable_data id ≡ some x
    → find (sweep_all s sweeps).mutable_data id ≡ some x
unfolding sweep
sweep_all-mutable s [] id x b h = h
sweep_all-mutable s (now ∷ later) id x b h =
    sweep_all-mutable (sweep s now) later id x b.1 (find-keep now s.mutable_data id x b.0 h)

module _ (sha1_digest : Bytes → Bytes) where
  -- A value that is put is found under its identifier for the validity time, whenever the store is
  -- swept in it.
  pub get_immutable-put_immutable :
      (s : DataStore) (value : Value) (now : ℕ) (sweeps : List ℕ)
      → By (now + seconds put_validity_seconds) sweeps
      → get_immutable
          (sweep_all (put_immutable sha1_digest s value now) sweeps)
          (immutable_get_id sha1_digest value)
        ≡ some value
  unfolding get_immutable put_immutable
  get_immutable-put_immutable s value now sweeps b =
      let id = immutable_get_id sha1_digest value in
      let x : StoredItem Value = record { item = value; last_seen = now } in
      ap item_of (
        sweep_all-immutable (put_immutable sha1_digest s value now) sweeps id x b
          (find-assign_same s.immutable_data id x))

  -- An item that is put is found under its identifier for the validity time, whenever the store is
  -- swept in it.
  get_mutable-put_mutable :
      (s : DataStore) (item : MutableDataItem) (now : ℕ) (sweeps : List ℕ)
      → By (now + seconds put_validity_seconds) sweeps
      → get_mutable
          (sweep_all (put_mutable sha1_digest s item now) sweeps)
          (mutable_get_id sha1_digest item.public_key item.salt)
        ≡ some item
  unfolding get_mutable put_mutable
  get_mutable-put_mutable s item now sweeps b =
      let id = mutable_get_id sha1_digest item.public_key item.salt in
      let x : StoredItem MutableDataItem = record { item = item; last_seen = now } in
      ap item_of (
        sweep_all-mutable (put_mutable sha1_digest s item now) sweeps id x b
          (find-assign_same s.mutable_data id x))
