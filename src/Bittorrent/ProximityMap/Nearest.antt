-- ===== src/Bittorrent/ProximityMap/Nearest.antt =====
-- A bounded insertion keeps the nearest entries.
use ouinet.Prelude.{
  ℕ, zero, suc, ◌≤◌, ◌<◌, ◌≡◌, ◌≢◌, ◌⊎◌, refl, sym, ap, ◌∙◌, Bool, true, false, List, [], ◌∷◌, ◌++◌,
  Bytes, All, length, take, take_append, ◌==◌, if◌then◌else◌, if_both, Bool-cases, inl, inr, arith,
}
use ouinet.Bittorrent.NodeId.{closer_to}
use ouinet.Bittorrent.NodeId.Metric.{IsId, closer_to_apart, closer_to_trans}
use ouinet.Bittorrent.ProximityMap.Truncation.{take_all, All-take, length-take-le, take-erase_last}
use ouinet.Bittorrent.ProximityMap.{
  ProximityMap, full, last_entry, erase_last, map_insert, replace_last, insert,
}

closer_to_self : (p a : Bytes) → closer_to p a a ≡ false
unfolding closer_to
closer_to_self [] a = refl
closer_to_self (c ∷ p) [] = refl
closer_to_self (c ∷ p) (b ∷ a) = ground (arith, closer_to_self p a)

-- The key is not there.
abbrev pub IsFresh {ℓ} : {V : Type ℓ} → Bytes → List (Bytes × V) → Type 0
IsFresh k = All λ e. e.0 ≢ k

abbrev pub HasIds {ℓ} : {V : Type ℓ} → List (Bytes × V) → Type 0
HasIds = All λ e. IsId e.0

-- The entries are in the order of the map, each nearer than all that follow.
abbrev pub Sorted {ℓ} : {V : Type ℓ} → Bytes → List (Bytes × V) → Type 0
Sorted pivot [] = Unit
Sorted pivot (e ∷ es) = All (λ f. closer_to pivot e.0 f.0 ≡ true) es × Sorted pivot es

module _ {V : Type 0} (pivot k : Bytes) (v : V) (p : IsId pivot) (i : IsId k) where
  apart :
      (a : Bytes)
      → IsId a
      → a ≢ k
      → (closer_to pivot k a ≡ true)
        ⊎ ((closer_to pivot k a ≡ false) × (closer_to pivot a k ≡ true))
  apart a ha n = elim (Bool-cases (closer_to pivot k a)) [
    | inl nearer ↦ inl nearer
    | inr f ↦ elim (Bool-cases (closer_to pivot a k)) [
      | inl farther ↦ inr (f, farther)
      | inr g ↦ absurd (n (closer_to_apart pivot a k p ha i g f))
    ]
  ]

  asymmetric : (a : Bytes) → IsId a → closer_to pivot a k ≡ true → closer_to pivot k a ≡ false
  asymmetric a ha h = elim (Bool-cases (closer_to pivot k a)) [
    | inl g ↦ absurd (no (sym (closer_to_self pivot a) ∙ closer_to_trans pivot a k a p ha i ha h g))
    | inr g ↦ g
  ]
    where
      no : false ≡ true → ⊥
      no h = cc

  length-map_insert :
      (es : List (Bytes × V))
      → HasIds es
      → IsFresh k es
      → length (map_insert pivot es k v) ≡ suc (length es)
  unfolding map_insert
  length-map_insert [] h n = omega arith
  length-map_insert (e ∷ es) h n = elim (apart e.0 h.0 n.0) [
    | inl nearer ↦ rw (nearer, map_insert) (omega arith)
    | inr (f, farther) ↦ rw (f, farther, map_insert) (omega (arith, length-map_insert es h.1 n.1))
  ]

  -- An entry before the last one.
  erase_last-cons :
      (e : Bytes × V) (es : List (Bytes × V))
      → erase_last (e ∷ map_insert pivot es k v) ≡ e ∷ erase_last (map_insert pivot es k v)
  unfolding erase_last map_insert
  erase_last-cons e [] = refl
  erase_last-cons e (f ∷ es) =
      if_both (λ xs. erase_last (e ∷ xs) ≡ e ∷ erase_last xs) (closer_to pivot k f.0) _ _ refl
        (if_both (λ xs. erase_last (e ∷ xs) ≡ e ∷ erase_last xs) (closer_to pivot f.0 k) _ _ refl
          refl)

  map_insert-erase_last :
      (e : Bytes × V) (es : List (Bytes × V))
      → closer_to pivot k (last_entry e es).0 ≡ true
      → map_insert pivot (erase_last (e ∷ es)) k v ≡ erase_last (map_insert pivot (e ∷ es) k v)
  unfolding map_insert erase_last last_entry
  map_insert-erase_last e [] h = rw (h, map_insert) refl
  map_insert-erase_last e (f ∷ es) h =
      go (closer_to pivot k e.0) (closer_to pivot e.0 k) (map_insert-erase_last f es h)
    where
      go :
          (a b : Bool)
          → map_insert pivot (erase_last (f ∷ es)) k v ≡ erase_last (map_insert pivot (f ∷ es) k v)
          → (if a
              then (k, v) ∷ e ∷ erase_last (f ∷ es)
              else if b
              then e ∷ map_insert pivot (erase_last (f ∷ es)) k v
              else e ∷ erase_last (f ∷ es))
            ≡ erase_last (
                if a
                then (k, v) ∷ e ∷ f ∷ es
                else if b
                then e ∷ map_insert pivot (f ∷ es) k v
                else e ∷ f ∷ es)
      go true b rest = refl
      go false false rest = refl
      go false true rest = ap (λ xs. e ∷ xs) rest ∙ sym (erase_last-cons e (f ∷ es))

  -- If the last entry is nearer than the key, all are.
  abbrev AllNearer : List (Bytes × V) → Type 0
  AllNearer = All λ e. closer_to pivot e.0 k ≡ true

  last_entry-AllNearer :
      (e : Bytes × V) (es : List (Bytes × V))
      → HasIds (e ∷ es)
      → Sorted pivot (e ∷ es)
      → closer_to pivot (last_entry e es).0 k ≡ true
      → AllNearer (e ∷ es)
  unfolding last_entry
  last_entry-AllNearer e [] h s c = (c, tt)
  last_entry-AllNearer e (f ∷ es) h s c =
      let rest = last_entry-AllNearer f es h.1 s.1 c in
      (closer_to_trans pivot e.0 f.0 k p h.0 h.1.0 i s.0.0 rest.0, rest)

  map_insert-AllNearer :
      (es : List (Bytes × V))
      → HasIds es
      → AllNearer es
      → map_insert pivot es k v ≡ es ++ (k, v) ∷ []
  unfolding map_insert
  map_insert-AllNearer [] h c = refl
  map_insert-AllNearer (e ∷ es) h c =
      rw (asymmetric e.0 h.0 c.0, c.0, map_insert)
        (ap (λ xs. e ∷ xs) (map_insert-AllNearer es h.1 c.1))

  last_entry-Id :
      (e : Bytes × V) (es : List (Bytes × V))
      → HasIds (e ∷ es)
      → IsFresh k (e ∷ es)
      → IsId (last_entry e es).0 × ((last_entry e es).0 ≢ k)
  unfolding last_entry
  last_entry-Id e [] h n = (h.0, n.0)
  last_entry-Id e (f ∷ es) h n = last_entry-Id f es h.1 n.1

  replace_last-take :
      (e : Bytes × V) (es : List (Bytes × V))
      → HasIds (e ∷ es)
      → IsFresh k (e ∷ es)
      → Sorted pivot (e ∷ es)
      → replace_last pivot (e ∷ es) k v ≡ take (length (e ∷ es)) (map_insert pivot (e ∷ es) k v)
  unfolding replace_last
  replace_last-take e es h n s =
      let (id, other) = last_entry-Id e es h n in
      elim (Bool-cases (closer_to pivot (last_entry e es).0 k)) [
        | inl c ↦
            rw (c, replace_last, map_insert-AllNearer (e ∷ es) h (last_entry-AllNearer e es h s c))
              (sym (take_append (e ∷ es) ((k, v) ∷ [])))
        | inr c ↦ elim (apart (last_entry e es).0 id other) [
          | inl nearer ↦
              rw (c, replace_last)
                (map_insert-erase_last e es nearer
                  ∙ sym (
                      take-erase_last (length (e ∷ es)) (map_insert pivot (e ∷ es) k v)
                        (length-map_insert (e ∷ es) h n)))
          | inr (f, farther) ↦ absurd (no (sym c ∙ farther))
        ]
      ]
    where
      no : false ≡ true → ⊥
      no h = cc

  All-map_insert :
      (P : Bytes × V → Type 0) (es : List (Bytes × V))
      → All P es
      → P (k, v)
      → All P (map_insert pivot es k v)
  unfolding map_insert
  All-map_insert P [] h q = (q, tt)
  All-map_insert P (e ∷ es) h q =
      if_both (All P) (closer_to pivot k e.0) _ _ (q, h)
        (if_both (All P) (closer_to pivot e.0 k) _ _ (h.0, All-map_insert P es h.1 q) h)

  -- What is farther than an entry is farther than the key, if that is nearer.
  farther_than_key :
      (e : Bytes × V) (es : List (Bytes × V))
      → IsId e.0
      → HasIds es
      → closer_to pivot k e.0 ≡ true
      → All (λ f. closer_to pivot e.0 f.0 ≡ true) es
      → All (λ f. closer_to pivot k f.0 ≡ true) es
  farther_than_key e [] ie h c s = tt
  farther_than_key e (f ∷ es) ie h c s =
      (closer_to_trans pivot k e.0 f.0 p i ie h.0 c s.0, farther_than_key e es ie h.1 c s.1)

  map_insert-Sorted :
      (es : List (Bytes × V))
      → HasIds es
      → IsFresh k es
      → Sorted pivot es
      → Sorted pivot (map_insert pivot es k v)
  unfolding map_insert
  map_insert-Sorted [] h n s = (tt, tt)
  map_insert-Sorted (e ∷ es) h n s = elim (apart e.0 h.0 n.0) [
    | inl nearer ↦ rw (nearer, map_insert) ((nearer, farther_than_key e es h.0 h.1 nearer s.0), s)
    | inr (f, farther) ↦
        rw (f, farther, map_insert)
          (
            All-map_insert (λ g. closer_to pivot e.0 g.0 ≡ true) es s.0 farther,
            map_insert-Sorted es h.1 n.1 s.1,
          )
  ]

  take-Sorted : (n : ℕ) (es : List (Bytes × V)) → Sorted pivot es → Sorted pivot (take n es)
  take-Sorted zero es s = tt
  take-Sorted (suc n) [] s = tt
  take-Sorted (suc n) (e ∷ es) s =
      (All-take (λ f. closer_to pivot e.0 f.0 ≡ true) n es s.0, take-Sorted n es s.1)

  insert-take :
      (m : ProximityMap V)
      → HasIds m.entries
      → IsFresh k m.entries
      → Sorted pivot m.entries
      → length m.entries ≤ m.max_size
      → (insert pivot m k v).entries ≡ take m.max_size (map_insert pivot m.entries k v)
  unfolding insert
  insert-take m h n s l = elim (Bool-cases (m.max_size == 0)) [
    | inl z ↦ rw (z, insert) (nothing m.max_size m.entries (ground arith) l)
    | inr z ↦ elim (Bool-cases (full m)) [
      | inl f ↦
          rw (z, f, insert) (replaced m.entries m.max_size h n s (ground arith) (ground arith))
      | inr f ↦
          rw (z, f, insert)
            (sym (
              take_all m.max_size (map_insert pivot m.entries k v)
                (ground (arith, length-map_insert m.entries h n))))
    ]
  ]
    where
      nothing :
          (size : ℕ) (es : List (Bytes × V))
          → size ≡ 0
          → length es ≤ size
          → es ≡ take size (map_insert pivot es k v)
      nothing zero [] z l = refl
      nothing zero (e ∷ es) z l = absurd (ground arith)
      nothing (suc size) es z l = absurd (ground arith)

      replaced :
          (es : List (Bytes × V)) (size : ℕ)
          → HasIds es
          → IsFresh k es
          → Sorted pivot es
          → size ≡ length es
          → 0 < size
          → replace_last pivot es k v ≡ take size (map_insert pivot es k v)
      replaced [] size h n s e z = absurd (ground arith)
      replaced (e ∷ es) size h n s q z = rw q (replace_last-take e es h n s)

  -- `insert` of a key that is not there keeps the `max_size` nearest of the entries and the new one, and
  -- the map stays sorted and within its size, if it was and all keys are identifiers.
  pub insert-Sorted :
      (m : ProximityMap V)
      → HasIds m.entries
      → IsFresh k m.entries
      → Sorted pivot m.entries
      → length m.entries ≤ m.max_size
      → ((insert pivot m k v).entries ≡ take m.max_size (map_insert pivot m.entries k v))
        × Sorted pivot (insert pivot m k v).entries
        × (length (insert pivot m k v).entries ≤ m.max_size)
  insert-Sorted m h n s l =
      let kept = insert-take m h n s l in
      (
        kept,
        rw kept (
            take-Sorted m.max_size (map_insert pivot m.entries k v)
              (map_insert-Sorted m.entries h n s)),
        rw kept (length-take-le m.max_size (map_insert pivot m.entries k v)),
      )
