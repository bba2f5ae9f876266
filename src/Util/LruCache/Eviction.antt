-- ===== src/Util/LruCache/Eviction.antt =====
-- The entry that `put` and `erase` of src/util/lru_cache.h take away.
use ouinet.Prelude.{
  ℕ, zero, suc, ◌+◌, ◌≤◌, Bool-cases, ◌≡◌, refl, sym, ◌∙◌, ap, subst, false, List, [], ◌∷◌, some,
  length, take, All, ltb, arith, inl, inr, ◌==◌,
}
use mathlib.Core.Option.{some-injective}
use ouinet.Prelude.Eq.{Eq, nat_eq}
use ouinet.Prelude.Maps.{find, erase, find-erase_same, find-erase_other}
use ouinet.Util.LruCache.{Nodes, LruCache, last_node, without_last, make_room}
use ouinet.Util.LruCache.Keys.{All-mono, HasDistinctKeys, erase-HasDistinctKeys, length-erase}
use ouinet.Util.LruCache.Valid.{entries, IsLinked, IsValid, erase-IsRest}

All-last_node {ℓ} :
    {A : Type ℓ} (P : A → Type 0) (l : List A) (x : A) → All P l → last_node l ≡ some x → P x
unfolding last_node
All-last_node P [] x h f = cc
All-last_node P (y ∷ []) x h f = subst P (some-injective y x f) h.0
All-last_node P (y ∷ z ∷ l) x h f = All-last_node P (z ∷ l) x h.1 f

last_there {ℓ} :
    {A : Type ℓ} (l : List A) (n : ℕ) → length l ≡ suc n → (x : A) × (last_node l ≡ some x)
unfolding last_node
last_there [] n h = absurd (omega arith)
last_there (x ∷ []) n h = (x, refl)
last_there (x ∷ y ∷ l) n h = last_there (y ∷ l) (length l) refl

take_short {ℓ} : {A : Type ℓ} (n : ℕ) (l : List A) → length l ≤ n → take n l ≡ l
take_short zero [] h = refl
take_short (suc n) [] h = refl
take_short zero (x ∷ l) h = absurd (omega arith)
take_short (suc n) (x ∷ l) h = ap (λ t. x ∷ t) (take_short n l (omega arith))

module _ {K V : Type 0} ⦃e : Eq K⦄ where
  without_last-erase :
      (l : Nodes K V) (x : ℕ × (K × V))
      → HasDistinctKeys l
      → last_node l ≡ some x
      → without_last l ≡ erase l x.0
  unfolding without_last last_node erase
  without_last-erase [] x d h = refl
  without_last-erase (y ∷ []) x d h =
      rw (ap (λ (n : ℕ × (K × V)). n.0) (sym (some-injective y x h))) (ground arith)
  without_last-erase (y ∷ z ∷ l) x d h =
      let apart : (y.0 == x.0) ≡ false =
        All-last_node (λ (n : ℕ × (K × V)). (y.0 == n.0) ≡ false) (z ∷ l) x d.0 h in
      rw apart (ap (λ (t : Nodes K V). y ∷ t) (without_last-erase (z ∷ l) x d.1 h))

  entries-without_last :
      (l : Nodes K V) (n : ℕ) → length l ≡ suc n → entries (without_last l) ≡ take n (entries l)
  unfolding without_last
  entries-without_last [] n h = absurd (omega arith)
  entries-without_last (x ∷ []) zero h = refl
  entries-without_last (x ∷ []) (suc n) h = absurd (omega arith)
  entries-without_last (x ∷ y ∷ l) zero h = absurd (omega arith)
  entries-without_last (x ∷ y ∷ l) (suc n) h =
      ap (λ (t : List (K × V)). x.1 ∷ t) (entries-without_last (y ∷ l) n (omega arith))

  length-entries : (l : Nodes K V) → length (entries l) ≡ length l
  length-entries [] = refl
  length-entries (x ∷ l) = ap suc (length-entries l)

  -- A key goes from the map, and its node from the list.
  pub dropped-IsValid :
      (c : LruCache K V) (key : K) (value : V) (it : ℕ)
      → IsValid c
      → find c.map key ≡ some it
      → find c.list it ≡ some (key, value)
      → IsValid (record c { list = erase c.list it; map = erase c.map key })
  dropped-IsValid c key value it v h g =
      let r = erase-IsRest c key it v h in
      let fewer = length-erase c.list it (key, value) v.apart g in
      let fewer' = length-erase c.map key it v.keys h in
      let size = v.sized in
      record {
        fresh = r.fresh;
        apart = r.apart;
        keys = erase-HasDistinctKeys c.map key v.keys;
        linked =
            All-mono (λ (x : ℕ × (K × V)). IsLinked c.map x × (e.beq key x.1.0 ≡ false))
              (IsLinked (erase c.map key)) (erase c.list it)
              (λ x l. find-erase_other c.map key x.1.0 l.1 ∙ l.0) r.linked;
        backed = λ j it' f. elim (Bool-cases (e.beq key j)) [
          | inl y ↦
              cc (find-erase_same c.map key, ap (find (erase c.map key)) (e.beq_sound key j y), f)
          | inr n ↦
              let (w, g') = v.backed j it' (sym (find-erase_other c.map key j n) ∙ f) in
              (w, r.found j it' w n g')
        ];
        sized = omega arith;
      }

  -- `make_room` keeps the entries that there is room for.
  pub make_room-take :
      (c : LruCache K V)
      → IsValid c
      → length c.list ≤ c.max_size + 1
      → IsValid (make_room c)
        × (length (make_room c).list ≤ c.max_size)
        × (entries (make_room c).list ≡ take c.max_size (entries c.list))
        × ((make_room c).max_size ≡ c.max_size)
  unfolding make_room
  make_room-take c v h = elim (Bool-cases (ltb c.max_size (length c.map))) [
    | inr fits ↦
        let size = v.sized in
        let small : length c.map ≤ c.max_size = ground arith in
        rw fits (
          v,
          ground arith,
          sym (
              take_short c.max_size (entries c.list) (omega (arith, length-entries c.list, small))),
          refl,
        )
    | inl over ↦
        let size = v.sized in
        let full : length c.list ≡ suc c.max_size = ground arith in
        let (x, l) = last_there c.list c.max_size full in
        let linked = All-last_node (IsLinked c.map) c.list x v.linked l in
        let (w, g) = v.backed x.1.0 x.0 linked in
        let popped = without_last-erase c.list x v.apart l in
        let fewer = length-erase c.list x.0 (x.1.0, w) v.apart g in
        rw (over, l)
          (
            rw popped (dropped-IsValid c x.1.0 w x.0 v linked g),
            rw popped (omega arith),
            entries-without_last c.list c.max_size full,
            refl,
          )
  ]
