-- ===== src/Bittorrent/DhtNode/Sequence.antt =====
-- The sequence numbers of the mutable items that a node stores.
use ouinet.Prelude.{
  ℕ, ◌≡◌, refl, sym, Bool, true, false, Option, none, some, Bytes, Bool-cases, inl, inr,
  if◌then◌else◌, arith, not, ◌&&◌, ◌⊎◌, ◌∙◌, codes,
}
use ouinet.Prelude.Maps.{find, find-assign_same, find-assign_other}
use ouinet.Prelude.Int.{ℤ, pos, negsuc, int_lt, int_eq}
use ouinet.Bittorrent.Bencoding.{Entries}
use ouinet.Bittorrent.Bencoding.Encode.{bencoding_encode}
use ouinet.Bittorrent.NodeId.{id_eq}
use ouinet.Bittorrent.Compact.{Endpoint}
use ouinet.Bittorrent.MutableData.{MutableDataItem}
use ouinet.Bittorrent.Storage.Keys.{id_key, id_eq_sound}
use ouinet.Bittorrent.Storage.DataStore.{
  DataStore, StoredItem, item_of, get_mutable, put_mutable, put_immutable, mutable_get_id,
}
use ouinet.Bittorrent.DhtNode.{Environment, Node, refused, passed}
use ouinet.Bittorrent.DhtNode.Put.{update_check, swap_check}
use ouinet.Bittorrent.DhtNode.Query.{handle_query}
use ouinet.Bittorrent.DhtNode.Steps.{
  Contents, Step, learn, ask, announce, store_item, store_value, Steps, here, next,
}
use ouinet.Bittorrent.DhtNode.Refinement.{HasByteId, handle_query-Steps}

int_lt_trans : (l m n : ℤ) → int_lt l m ≡ true → int_lt m n ≡ true → int_lt l n ≡ true
int_lt_trans (pos l) (pos m) (pos n) p q = ground arith
int_lt_trans (pos l) (pos m) (negsuc n) p q = ground arith
int_lt_trans (pos l) (negsuc m) n p q = ground arith
int_lt_trans (negsuc l) (pos m) (pos n) p q = refl
int_lt_trans (negsuc l) (pos m) (negsuc n) p q = ground arith
int_lt_trans (negsuc l) (negsuc m) (pos n) p q = refl
int_lt_trans (negsuc l) (negsuc m) (negsuc n) p q = ground arith

-- Numbers that are not less and not equal are greater.
int_trichotomy :
    (m n : ℤ) → int_lt m n ≡ false → (int_lt n m ≡ true) ⊎ ((int_eq m n ≡ true) × (n ≡ m))
int_trichotomy (pos m) (pos n) p = ground arith
int_trichotomy (pos m) (negsuc n) p = inl refl
int_trichotomy (negsuc m) (pos n) p = cc
int_trichotomy (negsuc m) (negsuc n) p = ground arith

-- An item in place of another: it is newer, or it is as new and has the same value.
abbrev pub Supersedes : MutableDataItem → MutableDataItem → Type 0
Supersedes new old =
    (int_lt old.sequence_number new.sequence_number ≡ true)
    ⊎ ((old.sequence_number ≡ new.sequence_number)
        × (bencoding_encode old.value ≡ bencoding_encode new.value))

Supersedes-trans : (a b c : MutableDataItem) → Supersedes b a → Supersedes c b → Supersedes c a
Supersedes-trans a b c (inl p) (inl q) =
    inl (int_lt_trans a.sequence_number b.sequence_number c.sequence_number p q)
Supersedes-trans a b c (inl p) (inr q) = inl (rw (sym q.0) p)
Supersedes-trans a b c (inr p) (inl q) = inl (rw p.0 q)
Supersedes-trans a b c (inr p) (inr q) = inr (p.0 ∙ q.0, p.1 ∙ q.1)

-- What is stored stays stored, or something supersedes it.
abbrev pub IsNoOlder : Option MutableDataItem → Option MutableDataItem → Type 0
IsNoOlder none new = Unit
IsNoOlder (some old) none = ⊥
IsNoOlder (some old) (some new) = Supersedes new old

IsNoOlder-refl : (o : Option MutableDataItem) → IsNoOlder o o
IsNoOlder-refl none = tt
IsNoOlder-refl (some item) = inr (refl, refl)

IsNoOlder-trans : (a b c : Option MutableDataItem) → IsNoOlder a b → IsNoOlder b c → IsNoOlder a c
IsNoOlder-trans none b c p q = tt
IsNoOlder-trans (some a) none c p q = elim p [ ]
IsNoOlder-trans (some a) (some b) none p q = elim q [ ]
IsNoOlder-trans (some a) (some b) (some c) p q = Supersedes-trans a b c p q

-- An item that passes the check supersedes the one that is stored.
update_check-IsNoOlder :
    (item : MutableDataItem) (existing : Option MutableDataItem) (cas : Option ℤ)
    → update_check item existing cas ≡ passed tt
    → IsNoOlder existing (some item)
unfolding update_check
update_check-IsNoOlder item none cas h = tt
update_check-IsNoOlder item (some old) cas h =
    go (int_lt item.sequence_number old.sequence_number)
      (int_eq item.sequence_number old.sequence_number)
      (id_eq (bencoding_encode item.value) (bencoding_encode old.value))
      (int_trichotomy item.sequence_number old.sequence_number)
      (id_eq_sound (bencoding_encode item.value) (bencoding_encode old.value)) h
  where
    go :
        (less same same_value : Bool)
        → (less ≡ false
            → (int_lt old.sequence_number item.sequence_number ≡ true)
              ⊎ ((same ≡ true) × (old.sequence_number ≡ item.sequence_number)))
        → (same_value ≡ true → bencoding_encode item.value ≡ bencoding_encode old.value)
        → (if less
            then refused 302 (codes "Sequence number less than current")
            else if same && not same_value
            then refused 302 (codes "Sequence number not updated")
            else swap_check cas old)
          ≡ passed tt
        → Supersedes item old
    go true same same_value order value h = cc
    go false false same_value order value h = elim (order refl) [
      | inl newer ↦ inl newer
      | inr (e, same) ↦ cc
    ]
    go false true true order value h = elim (order refl) [
      | inl newer ↦ inl newer
      | inr (e, same) ↦ inr (same, sym (value refl))
    ]
    go false true false order value h = cc

put_mutable-IsNoOlder :
    (env : Environment) (s : DataStore) (item : MutableDataItem) (now : ℕ) (k : Bytes)
    → IsNoOlder
        (get_mutable s (mutable_get_id env.sha1_digest item.public_key item.salt))
        (some item)
    → IsNoOlder (get_mutable s k) (get_mutable (put_mutable env.sha1_digest s item now) k)
unfolding get_mutable put_mutable
put_mutable-IsNoOlder env s item now k h =
    let id = mutable_get_id env.sha1_digest item.public_key item.salt in
    let stored : StoredItem MutableDataItem = record { item = item; last_seen = now } in
    elim (Bool-cases (id_key.beq id k)) [
      | inl same ↦
          rw (sym (id_key.beq_sound id k same), find-assign_same s.mutable_data id stored) h
      | inr other ↦
          rw (find-assign_other s.mutable_data id k stored other)
            (IsNoOlder-refl (item_of (find s.mutable_data k)))
    ]

Step-IsNoOlder :
    {env : Environment} {c d : Contents} (k : Bytes)
    → Step env c d
    → IsNoOlder (get_mutable c.store k) (get_mutable d.store k)
unfolding put_immutable get_mutable
Step-IsNoOlder k (learn c t contact now found id) = IsNoOlder-refl (get_mutable c.store k)
Step-IsNoOlder k (ask c id count rand) = IsNoOlder-refl (get_mutable c.store k)
Step-IsNoOlder k (announce c id peer now) = IsNoOlder-refl (get_mutable c.store k)
Step-IsNoOlder {env} k (store_item c item now a) =
    put_mutable-IsNoOlder env c.store item now k (update_check-IsNoOlder item _ a.cas a.updates)
Step-IsNoOlder k (store_value c value now short) = IsNoOlder-refl (get_mutable c.store k)

pub Steps-IsNoOlder :
    {env : Environment} {c d : Contents} (k : Bytes)
    → Steps env c d
    → IsNoOlder (get_mutable c.store k) (get_mutable d.store k)
Steps-IsNoOlder {c = c} k here = IsNoOlder-refl (get_mutable c.store k)
Steps-IsNoOlder k (next {d} {f} s r) =
    IsNoOlder-trans _ (get_mutable d.store k) _ (Steps-IsNoOlder k s) (Step-IsNoOlder k r)

-- A query never removes a mutable item, and it replaces one only by an item with a greater sequence
-- number, or with the same number and the same encoded value. The identifier that the query gives for
-- its sender is made of bytes.
pub handle_query-IsNoOlder :
    (env : Environment) (node : Node) (sender : Endpoint) (query : Entries) (now : ℕ) (rand : ℕ → ℕ)
    (k : Bytes)
    → HasByteId query
    → IsNoOlder
        (get_mutable node.store k)
        (get_mutable (handle_query env node sender query now rand).node.store k)
handle_query-IsNoOlder env node sender query now rand k h =
    Steps-IsNoOlder k (handle_query-Steps env node sender query now rand h)
