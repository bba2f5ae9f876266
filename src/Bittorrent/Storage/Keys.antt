-- ===== src/Bittorrent/Storage/Keys.antt =====
-- Identifiers as the keys of the maps of the storage.
use ouinet.Prelude.{◌≡◌, refl, true, [], ◌∷◌, Bytes, arith}
use ouinet.Prelude.Eq.{Eq}
use ouinet.Bittorrent.NodeId.{id_eq}

pub id_eq_sound : (s t : Bytes) → id_eq s t ≡ true → s ≡ t
unfolding id_eq
id_eq_sound [] [] h = refl
id_eq_sound [] (b ∷ t) h = cc
id_eq_sound (a ∷ s) [] h = cc
id_eq_sound (a ∷ s) (b ∷ t) h = ground (arith, id_eq_sound s t)

pub id_eq_complete : (s t : Bytes) → s ≡ t → id_eq s t ≡ true
unfolding id_eq
id_eq_complete [] [] h = refl
id_eq_complete [] (b ∷ t) h = cc
id_eq_complete (a ∷ s) [] h = cc
id_eq_complete (a ∷ s) (b ∷ t) h = ground (arith, id_eq_complete s t)

instance abbrev pub id_key : Eq Bytes
id_key = record { beq = id_eq; beq_sound = id_eq_sound; beq_complete = id_eq_complete }
