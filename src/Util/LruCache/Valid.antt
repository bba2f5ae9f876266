-- ===== src/Util/LruCache/Valid.antt =====
-- `put` and `get` of src/util/lru_cache.h keep the list and the map in step.
use ouinet.Prelude.{
  ℕ, ◌<◌, Bool-cases, ◌≡◌, refl, sym, ◌∙◌, ap, false, List, [], ◌∷◌, Option, none, some, length,
  All, inl, inr, ◌==◌, ==_iff,
}
use mathlib.Core.Option.{some-injective}
use ouinet.Prelude.Eq.{Eq, nat_eq}
use ouinet.Prelude.Maps.{find, erase, find-erase_other}
use ouinet.Util.LruCache.{Nodes, LruCache}
use ouinet.Util.LruCache.Keys.{
  All-mono, beq_sym, HasDistinctKeys, All-erase, erase-HasDistinctKeys, erase_absent,
}

All-both {ℓ} :
    {A : Type ℓ} (P Q : A → Type 0) (xs : List A)
    → All P xs
    → All Q xs
    → All (λ (x : A). P x × Q x) xs
All-both P Q [] h k = tt
All-both P Q (x ∷ xs) h k = ((h.0, k.0), All-both P Q xs h.1 k.1)

module _ {K V : Type 0} ⦃e : Eq K⦄ where
  abbrev pub entries : Nodes K V → List (K × V)
  entries [] = []
  entries (x ∷ xs) = x.1 ∷ entries xs

  abbrev pub IsLinked : List (K × ℕ) → ℕ × (K × V) → Type 0
  IsLinked m x = find m x.1.0 ≡ some x.0

  -- Each node has its own address below the next one and its key's iterator, each iterator has its node,
  -- and the two have the same size.
  pub record IsValid (c : LruCache K V) : Type 0 where
    pub fresh : All (λ (x : ℕ × (K × V)). x.0 < c.next) c.list
    pub apart : HasDistinctKeys c.list
    pub keys : HasDistinctKeys c.map
    pub linked : All (IsLinked c.map) c.list
    pub backed :
        (k : K) (it : ℕ) → find c.map k ≡ some it → (v : V) × (find c.list it ≡ some (k, v))
    pub sized : length c.map ≡ length c.list

  -- The nodes without the one of a key.
  pub record IsRest (c : LruCache K V) (key : K) (rest : Nodes K V) : Type 0 where
    pub fresh : All (λ (x : ℕ × (K × V)). x.0 < c.next) rest
    pub apart : HasDistinctKeys rest
    pub linked : All (λ (x : ℕ × (K × V)). IsLinked c.map x × (e.beq key x.1.0 ≡ false)) rest
    pub without : entries rest ≡ erase (entries c.list) key
    pub found :
        (j : K) (it : ℕ) (v : V)
        → e.beq key j ≡ false
        → find c.list it ≡ some (j, v)
        → find rest it ≡ some (j, v)

  abbrev pub Agrees : K → ℕ → ℕ × (K × V) → Type 0
  Agrees key it x = e.beq x.1.0 key ≡ (x.0 == it)

  same_key : (o : Option (K × V)) (k j : K) (v w : V) → o ≡ some (k, v) → o ≡ some (j, w) → k ≡ j
  same_key o k j v w h g = ap (λ (x : K × V). x.0) (some-injective _ _ (sym h ∙ g))

  pub agree :
      (c : LruCache K V) (key : K) (it : ℕ)
      → IsValid c
      → find c.map key ≡ some it
      → All (Agrees key it) c.list
  agree c key it v h = All-mono (IsLinked c.map) (Agrees key it) c.list each v.linked
    where
      each : (x : ℕ × (K × V)) → IsLinked c.map x → Agrees key it x
      each x l = elim (Bool-cases (e.beq x.1.0 key)) [
        | inl y ↦
            let same = ap (find c.map) (sym (e.beq_sound x.1.0 key y)) in
            y ∙ sym ((==_iff x.0 it).1 (some-injective _ _ (sym l ∙ sym same ∙ h)))
        | inr n ↦ elim (Bool-cases (x.0 == it)) [
          | inl y ↦
              let (w, g) = v.backed x.1.0 x.0 l in
              let (w', g') = v.backed key it h in
              let g'' = ap (find c.list) (sym ((==_iff x.0 it).0 y)) ∙ g in
              cc (e.beq_complete x.1.0 key (same_key _ x.1.0 key w w' g'' g'), n)
          | inr n' ↦ n ∙ sym n'
        ]
      ]

  entries-erase :
      (l : Nodes K V) (key : K) (it : ℕ)
      → All (Agrees key it) l
      → entries (erase l it) ≡ erase (entries l) key
  unfolding erase
  entries-erase [] key it h = refl
  entries-erase (x ∷ xs) key it h = elim (Bool-cases (x.0 == it)) [
    | inl y ↦ rw (h.0, y) (entries-erase xs key it h.1)
    | inr n ↦ rw (h.0, n) (ap (λ (t : List (K × V)). x.1 ∷ t) (entries-erase xs key it h.1))
  ]

  absent-erase :
      (l : Nodes K V) (key : K) (it : ℕ)
      → All (Agrees key it) l
      → All (λ (x : ℕ × (K × V)). e.beq x.1.0 key ≡ false) (erase l it)
  unfolding erase
  absent-erase [] key it h = tt
  absent-erase (x ∷ xs) key it h = elim (Bool-cases (x.0 == it)) [
    | inl y ↦ rw y (absent-erase xs key it h.1)
    | inr n ↦ rw n (h.0 ∙ n, absent-erase xs key it h.1)
  ]

  turned :
      (l : Nodes K V) (key : K)
      → All (λ (x : ℕ × (K × V)). e.beq x.1.0 key ≡ false) l
      → All (λ (x : ℕ × (K × V)). e.beq key x.1.0 ≡ false) l
  turned l key =
      All-mono (λ (x : ℕ × (K × V)). e.beq x.1.0 key ≡ false)
        (λ (x : ℕ × (K × V)). e.beq key x.1.0 ≡ false) l (λ x. beq_sym x.1.0 key)

  pub erase-IsRest :
      (c : LruCache K V) (key : K) (it : ℕ)
      → IsValid c
      → find c.map key ≡ some it
      → IsRest c key (erase c.list it)
  erase-IsRest c key it v h = record {
    fresh = All-erase (λ (x : ℕ × (K × V)). x.0 < c.next) c.list it v.fresh;
    apart = erase-HasDistinctKeys c.list it v.apart;
    linked =
        All-both (IsLinked c.map) (λ (x : ℕ × (K × V)). e.beq key x.1.0 ≡ false) (erase c.list it)
          (All-erase (IsLinked c.map) c.list it v.linked)
          (turned (erase c.list it) key (absent-erase c.list key it (agree c key it v h)));
    without = entries-erase c.list key it (agree c key it v h);
    found = λ j it' w n f. elim (Bool-cases (it == it')) [
      | inl y ↦
          let (w', g) = v.backed key it h in
          let f' = ap (find c.list) ((==_iff it it').0 y) ∙ f in
          cc (e.beq_complete key j (same_key _ key j w' w g f'), n)
      | inr n' ↦ find-erase_other c.list it it' n' ∙ f
    ];
  }

  entries_absent :
      (l : Nodes K V) (key : K)
      → All (λ (x : ℕ × (K × V)). e.beq x.1.0 key ≡ false) l
      → All (λ (x : K × V). e.beq x.0 key ≡ false) (entries l)
  entries_absent [] key h = tt
  entries_absent (x ∷ xs) key h = (h.0, entries_absent xs key h.1)

  pub absent :
      (c : LruCache K V) (key : K)
      → IsValid c
      → find c.map key ≡ none
      → All (λ (x : ℕ × (K × V)). e.beq x.1.0 key ≡ false) c.list
  absent c key v h = All-mono (IsLinked c.map) _ c.list each v.linked
    where
      each : (x : ℕ × (K × V)) → IsLinked c.map x → e.beq x.1.0 key ≡ false
      each x l = elim (Bool-cases (e.beq x.1.0 key)) [
        | inl y ↦ cc (ap (find c.map) (e.beq_sound x.1.0 key y), l, h)
        | inr n ↦ n
      ]

  pub whole-IsRest :
      (c : LruCache K V) (key : K) → IsValid c → find c.map key ≡ none → IsRest c key c.list
  whole-IsRest c key v h = record {
    fresh = v.fresh;
    apart = v.apart;
    linked =
        All-both (IsLinked c.map) (λ (x : ℕ × (K × V)). e.beq key x.1.0 ≡ false) c.list v.linked
          (turned c.list key (absent c key v h));
    without =
        sym (erase_absent (entries c.list) key (entries_absent c.list key (absent c key v h)));
    found = λ j it w n f. f;
  }
