-- ===== src/Bittorrent/Compact/Equality.antt =====
-- The equality of endpoints: that of their addresses, by kind and bytes, and of their ports.
use ouinet.Prelude.{◌≡◌, refl, ap, Bool, true, false, ◌&&◌, ◌==◌, arith}
use ouinet.Prelude.Eq.{Eq}
use ouinet.Bittorrent.NodeId.{id_eq}
use ouinet.Bittorrent.Storage.Keys.{id_eq_sound, id_eq_complete}
use ouinet.Bittorrent.Compact.{Address, v4, v6, Endpoint}

abbrev pub address_eq : Address → Address → Bool
address_eq (v4 a) (v4 b) = id_eq a b
address_eq (v4 a) (v6 b) = false
address_eq (v6 a) (v4 b) = false
address_eq (v6 a) (v6 b) = id_eq a b

abbrev pub endpoint_eq : Endpoint → Endpoint → Bool
endpoint_eq x y = address_eq x.address y.address && x.port == y.port

pub address_eq_sound : (a b : Address) → address_eq a b ≡ true → a ≡ b
address_eq_sound (v4 a) (v4 b) h = ap v4 (id_eq_sound a b h)
address_eq_sound (v4 a) (v6 b) h = cc
address_eq_sound (v6 a) (v4 b) h = cc
address_eq_sound (v6 a) (v6 b) h = ap v6 (id_eq_sound a b h)

address_eq_refl : (a : Address) → address_eq a a ≡ true
address_eq_refl (v4 a) = id_eq_complete a a refl
address_eq_refl (v6 a) = id_eq_complete a a refl

pub endpoint_eq_sound : (x y : Endpoint) → endpoint_eq x y ≡ true → x ≡ y
endpoint_eq_sound x y h = ground (arith, address_eq_sound x.address y.address)

pub endpoint_eq_complete : (x y : Endpoint) → x ≡ y → endpoint_eq x y ≡ true
endpoint_eq_complete x y h = rw (← h) (ground (arith, address_eq_refl x.address))

instance abbrev pub endpoint_key : Eq Endpoint
endpoint_key = record {
  beq = endpoint_eq;
  beq_sound = endpoint_eq_sound;
  beq_complete = endpoint_eq_complete;
}
