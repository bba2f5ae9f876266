-- ===== src/Util/LruCache/Keys.antt =====
-- Lists of entries with distinct keys, for the nodes and for the map of src/util/lru_cache.h.
use ouinet.Prelude.{
  suc, Bool-cases, ◌≡◌, refl, sym, ◌∙◌, ap, subst, false, List, [], ◌∷◌, none, some, length, All,
  if_both, if_given, arith, inl, inr,
}
use mathlib.Core.Option.{some-injective}
use ouinet.Prelude.Eq.{Eq}
use ouinet.Prelude.Maps.{find, assign, erase, All-assign}

pub All-mono {ℓ} :
    {A : Type ℓ} (P Q : A → Type 0) (xs : List A) → ((a : A) → P a → Q a) → All P xs → All Q xs
All-mono P Q [] f h = tt
All-mono P Q (x ∷ xs) f h = (f x h.0, All-mono P Q xs f h.1)

pub beq_sym : {K : Type 0} ⦃e : Eq K⦄ (j k : K) → e.beq j k ≡ false → e.beq k j ≡ false
beq_sym ⦃e⦄ j k h = elim (Bool-cases (e.beq k j)) [
  | inl y ↦ cc (e.beq_complete j k (sym (e.beq_sound k j y)), h)
  | inr n ↦ n
]

module _ {K V : Type 0} ⦃e : Eq K⦄ where
  abbrev pub HasDistinctKeys : List (K × V) → Type 0
  HasDistinctKeys [] = Unit
  HasDistinctKeys (kv ∷ m) = All (λ (x : K × V). e.beq kv.0 x.0 ≡ false) m × HasDistinctKeys m

  pub All-erase : (P : K × V → Type 0) (m : List (K × V)) (k : K) → All P m → All P (erase m k)
  unfolding erase
  All-erase P [] k h = tt
  All-erase P (kv ∷ m) k h =
      if_both (All P) (e.beq kv.0 k) _ _ (All-erase P m k h.1) (h.0, All-erase P m k h.1)

  pub erase-HasDistinctKeys :
      (m : List (K × V)) (k : K) → HasDistinctKeys m → HasDistinctKeys (erase m k)
  unfolding erase
  erase-HasDistinctKeys [] k h = tt
  erase-HasDistinctKeys (kv ∷ m) k h =
      if_both HasDistinctKeys (e.beq kv.0 k) _ _ (erase-HasDistinctKeys m k h.1)
        (All-erase (λ (x : K × V). e.beq kv.0 x.0 ≡ false) m k h.0, erase-HasDistinctKeys m k h.1)

  pub assign-HasDistinctKeys :
      (m : List (K × V)) (k : K) (v : V) → HasDistinctKeys m → HasDistinctKeys (assign m k v)
  unfolding assign
  assign-HasDistinctKeys [] k v h = (tt, tt)
  assign-HasDistinctKeys (kv ∷ m) k v h =
      if_given HasDistinctKeys (e.beq kv.0 k) ((k, v) ∷ m) (kv ∷ assign m k v)
        (λ y. (
          subst (λ (j : K). All (λ (x : K × V). e.beq j x.0 ≡ false) m) (e.beq_sound kv.0 k y) h.0,
          h.1,
        ))
        (λ n. (
          All-assign (λ (x : K × V). e.beq kv.0 x.0 ≡ false) m k v h.0 n,
          assign-HasDistinctKeys m k v h.1,
        ))

  pub erase_absent :
      (m : List (K × V)) (k : K) → All (λ (x : K × V). e.beq x.0 k ≡ false) m → erase m k ≡ m
  unfolding erase
  erase_absent [] k h = refl
  erase_absent (kv ∷ m) k h = rw (h.0, erase_absent m k h.1) refl

  pub length-erase :
      (m : List (K × V)) (k : K) (v : V)
      → HasDistinctKeys m
      → find m k ≡ some v
      → length m ≡ suc (length (erase m k))
  unfolding find erase
  length-erase [] k v d h = cc
  length-erase (kv ∷ m) k v d h = elim (Bool-cases (e.beq kv.0 k)) [
    | inl y ↦
        let apart : All (λ (x : K × V). e.beq x.0 k ≡ false) m =
          All-mono (λ (x : K × V). e.beq kv.0 x.0 ≡ false) (λ (x : K × V). e.beq x.0 k ≡ false) m
            (λ x n. beq_sym k x.0 (subst (λ (j : K). e.beq j x.0 ≡ false) (e.beq_sound kv.0 k y) n))
            d.0 in
        rw (y, erase_absent m k apart) refl
    | inr n ↦
        let found : find m k ≡ some v = rw n at h in rw n (ap suc (length-erase m k v d.1 found))
  ]

  pub length-assign_new :
      (m : List (K × V)) (k : K) (v : V) → find m k ≡ none → length (assign m k v) ≡ suc (length m)
  unfolding find assign
  length-assign_new [] k v h = refl
  length-assign_new (kv ∷ m) k v h = ground (arith, length-assign_new m k v)

  pub length-assign_old :
      (m : List (K × V)) (k : K) (v w : V) → find m k ≡ some w → length (assign m k v) ≡ length m
  unfolding find assign
  length-assign_old [] k v w h = cc
  length-assign_old (kv ∷ m) k v w h = ground (arith, length-assign_old m k v w)

  -- What is found is one of the entries.
  pub All-found :
      (P : K × V → Type 0) (m : List (K × V)) (k : K) (v : V)
      → All P m
      → find m k ≡ some v
      → P (k, v)
  unfolding find
  All-found P [] k v h f = cc
  All-found P (kv ∷ m) k v h f = elim (Bool-cases (e.beq kv.0 k)) [
    | inl y ↦
        subst P
          (ap (λ (j : K). (j, kv.1)) (e.beq_sound kv.0 k y)
            ∙ ap (λ (w : V). (k, w)) (some-injective kv.1 v (rw y at f)))
          h.0
    | inr n ↦ All-found P m k v h.1 (rw n at f)
  ]
