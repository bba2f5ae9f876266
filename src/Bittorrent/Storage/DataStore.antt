-- ===== src/Bittorrent/Storage/DataStore.antt =====
-- `DataStore` of src/bittorrent/dht_storage.cpp. SHA-1 (src/util/hash.h, over gcrypt) is a parameter;
-- its two-argument form digests the one text behind the other. The coroutine of the constructor calls
-- `sweep` every minute.
pub mod Lifetime
use ouinet.Prelude.{
  ℕ, ◌+◌, ◌*◌, ◌^◌, Bool, true, false, not, List, [], ◌∷◌, ◌++◌, Option, none, some, Bytes, keep,
  ltb, if◌then◌else◌,
}
use ouinet.Prelude.Maps.{find, assign}
use ouinet.Bittorrent.Bencoding.{Value}
use ouinet.Bittorrent.Bencoding.Encode.{bencoding_encode}
use ouinet.Bittorrent.MutableData.{MutableDataItem}
use ouinet.Bittorrent.Storage.Keys.{id_key}
use ouinet.Bittorrent.Storage.Swarm.{seconds}

abbrev pub put_validity_seconds : ℕ
put_validity_seconds = 3600 * 2

-- `ImmutableStoredItem` and `MutableStoredItem`.
pub record StoredItem {ℓ} (V : Type ℓ) : Type ℓ where
  pub item : V
  pub last_seen : ℕ

pub record DataStore : Type 0 where
  pub immutable_data : List (Bytes × StoredItem Value)
  pub mutable_data : List (Bytes × StoredItem MutableDataItem)

abbrev pub empty_store : DataStore
empty_store = record { immutable_data = []; mutable_data = [] }

abbrev pub is_stale {ℓ} : {V : Type ℓ} → ℕ → Bytes × StoredItem V → Bool
is_stale now kv = ltb (kv.1.last_seen + seconds put_validity_seconds) now

-- One round of the coroutine.
unfoldable pub sweep : DataStore → ℕ → DataStore
sweep s now = record {
  immutable_data = keep (λ kv. not (is_stale now kv)) s.immutable_data;
  mutable_data = keep (λ kv. not (is_stale now kv)) s.mutable_data;
}

abbrev pub item_of {ℓ} : {V : Type ℓ} → Option (StoredItem V) → Option V
item_of none = none
item_of (some stored) = some stored.item

unfoldable pub get_immutable : DataStore → Bytes → Option Value
get_immutable s id = item_of (find s.immutable_data id)

unfoldable pub get_mutable : DataStore → Bytes → Option MutableDataItem
get_mutable s id = item_of (find s.mutable_data id)

module _ (sha1_digest : Bytes → Bytes) where
  abbrev pub immutable_get_id : Value → Bytes
  immutable_get_id value = sha1_digest (bencoding_encode value)

  unfoldable pub put_immutable : DataStore → Value → ℕ → DataStore
  put_immutable s value now = record s {
    immutable_data =
        assign s.immutable_data (immutable_get_id value) record { item = value; last_seen = now };
  }

  abbrev pub mutable_get_id : Bytes → Bytes → Bytes
  mutable_get_id public_key salt = sha1_digest (public_key ++ salt)

  unfoldable pub put_mutable : DataStore → MutableDataItem → ℕ → DataStore
  put_mutable s item now = record s {
    mutable_data =
        assign s.mutable_data (mutable_get_id item.public_key item.salt)
          record { item = item; last_seen = now };
  }
