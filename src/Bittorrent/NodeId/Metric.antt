-- ===== src/Bittorrent/NodeId/Metric.antt =====
-- The XOR metric: an order by distance, which tells identifiers apart.
use ouinet.Prelude.{
  ℕ, zero, suc, ◌<◌, ◌≡◌, refl, sym, ◌∙◌, ap, true, false, [], ◌∷◌, Bytes, length, All, arith,
}
use ouinet.Prelude.ByteTables.{bit_xor_byte}
use ouinet.Bittorrent.NodeId.{size, id_lt, id_gt, xor_id, closer_to, max_id, repeat}

abbrev pub IsByte : ℕ → Type 0
IsByte b = b < 256

-- Twenty bytes.
abbrev pub IsId : Bytes → Type 0
IsId a = (length a ≡ size) × All IsByte a

xor_id_comm_lem :
    (a b : Bytes) → length a ≡ length b → All IsByte a → All IsByte b → xor_id a b ≡ xor_id b a
unfolding xor_id
xor_id_comm_lem [] [] e _ _ = refl
xor_id_comm_lem [] (y ∷ b) e _ _ = absurd (omega arith)
xor_id_comm_lem (x ∷ a) [] e _ _ = absurd (omega arith)
xor_id_comm_lem (x ∷ a) (y ∷ b) e (hx, ha) (hy, hb) =
    ground (arith, bit_xor_byte x y hx hy, xor_id_comm_lem a b (omega arith) ha hb)

pub xor_id_comm : (a b : Bytes) → IsId a → IsId b → xor_id a b ≡ xor_id b a
xor_id_comm a b (la, ha) (lb, hb) = xor_id_comm_lem a b (omega arith) ha hb

xor_id-IsByte : (a b : Bytes) → All IsByte a → All IsByte b → All IsByte (xor_id a b)
unfolding xor_id
xor_id-IsByte [] b _ _ = tt
xor_id-IsByte (x ∷ a) [] _ _ = tt
xor_id-IsByte (x ∷ a) (y ∷ b) (hx, ha) (hy, hb) =
    ((bit_xor_byte x y hx hy).1, xor_id-IsByte a b ha hb)

length-xor_id : (a b : Bytes) → length a ≡ length b → length (xor_id a b) ≡ length a
unfolding xor_id
length-xor_id [] [] e = refl
length-xor_id [] (y ∷ b) e = absurd (omega arith)
length-xor_id (x ∷ a) [] e = absurd (omega arith)
length-xor_id (x ∷ a) (y ∷ b) e = ap suc (length-xor_id a b (omega arith))

pub xor_id-IsId : (a b : Bytes) → IsId a → IsId b → IsId (xor_id a b)
xor_id-IsId a b (la, ha) (lb, hb) =
    (omega (arith, length-xor_id a b (omega arith)), xor_id-IsByte a b ha hb)

-- No distance is above the largest identifier.
id_lt-repeat : (n : ℕ) (d : Bytes) → All IsByte d → id_lt (repeat n 0xff) d ≡ false
unfolding id_lt
id_lt-repeat zero d h = refl
id_lt-repeat (suc n) [] h = refl
id_lt-repeat (suc n) (b ∷ d) (hb, hd) = ground (arith, id_lt-repeat n d hd)

pub id_gt_max : (d : Bytes) → IsId d → id_gt d max_id ≡ false
unfolding id_gt max_id
id_gt_max d h = id_lt-repeat size d h.1

id_lt-closer_to :
    (self a b : Bytes)
    → length a ≡ length self
    → length b ≡ length self
    → closer_to self a b ≡ id_lt (xor_id a self) (xor_id b self)
unfolding closer_to id_lt xor_id
id_lt-closer_to [] [] [] _ _ = refl
id_lt-closer_to [] (x ∷ a) b e _ = absurd (omega arith)
id_lt-closer_to [] [] (y ∷ b) _ e = absurd (omega arith)
id_lt-closer_to (c ∷ self) [] b e _ = absurd (omega arith)
id_lt-closer_to (c ∷ self) (x ∷ a) [] _ e = absurd (omega arith)
id_lt-closer_to (c ∷ self) (x ∷ a) (y ∷ b) e e' =
    ground (arith, id_lt-closer_to self a b (omega arith) (omega arith))

-- `closer_to` compares the distances as 160-bit numbers.
pub closer_to-xor_id :
    (self a b : Bytes)
    → IsId self
    → IsId a
    → IsId b
    → closer_to self a b ≡ id_lt (xor_id a self) (xor_id b self)
closer_to-xor_id self a b s ha hb = id_lt-closer_to self a b (omega arith) (omega arith)

apart_lem :
    (self a b : Bytes)
    → length a ≡ length self
    → length b ≡ length self
    → All IsByte self
    → All IsByte a
    → All IsByte b
    → closer_to self a b ≡ false
    → closer_to self b a ≡ false
    → a ≡ b
unfolding closer_to
apart_lem [] [] [] _ _ _ _ _ _ _ = refl
apart_lem [] (x ∷ a) b e _ _ _ _ _ _ = absurd (omega arith)
apart_lem [] [] (y ∷ b) _ e _ _ _ _ _ = absurd (omega arith)
apart_lem (c ∷ self) [] b e _ _ _ _ _ _ = absurd (omega arith)
apart_lem (c ∷ self) (x ∷ a) [] _ e _ _ _ _ _ = absurd (omega arith)
apart_lem (c ∷ self) (x ∷ a) (y ∷ b) e e' (hc, hs) (hx, ha) (hy, hb) f g = ground (
  arith,
  bit_xor_byte x c hx hc,
  bit_xor_byte y c hy hc,
  apart_lem self a b (omega arith) (omega arith) hs ha hb,
)

-- Two identifiers neither of which is closer to a third are the same: as keys of a map ordered by
-- distance they are told apart.
pub closer_to_apart :
    (self a b : Bytes)
    → IsId self
    → IsId a
    → IsId b
    → closer_to self a b ≡ false
    → closer_to self b a ≡ false
    → a ≡ b
closer_to_apart self a b s ha hb = apart_lem self a b (omega arith) (omega arith) s.1 ha.1 hb.1

id_lt_trans : (a b c : Bytes) → id_lt a b ≡ true → id_lt b c ≡ true → id_lt a c ≡ true
unfolding id_lt
id_lt_trans [] b c h g = cc
id_lt_trans (x ∷ a) [] c h g = cc
id_lt_trans (x ∷ a) (y ∷ b) [] h g = cc
id_lt_trans (x ∷ a) (y ∷ b) (z ∷ c) h g = ground (arith, id_lt_trans a b c)

-- Being closer is transitive.
pub closer_to_trans :
    (self a b c : Bytes)
    → IsId self
    → IsId a
    → IsId b
    → IsId c
    → closer_to self a b ≡ true
    → closer_to self b c ≡ true
    → closer_to self a c ≡ true
closer_to_trans self a b c s ha hb hc f g =
    closer_to-xor_id self a c s ha hc
    ∙ id_lt_trans (xor_id a self) (xor_id b self) (xor_id c self)
        (sym (closer_to-xor_id self a b s ha hb) ∙ f) (sym (closer_to-xor_id self b c s hb hc) ∙ g)
