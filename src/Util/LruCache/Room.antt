-- ===== src/Util/LruCache/Room.antt =====
-- `put` and `get` of src/util/lru_cache.h as operations on the list of entries.
use ouinet.Prelude.{
  ℕ, suc, ◌+◌, ◌<◌, ◌≤◌, Bool-cases, ◌≡◌, refl, sym, ◌∙◌, ap, false, List, [], ◌∷◌, Option, none,
  some, length, All, arith, inl, inr, ◌==◌, ==_iff,
}
use mathlib.Core.Option.{some-injective}
use ouinet.Prelude.Eq.{Eq, nat_eq}
use ouinet.Prelude.Maps.{find, assign, erase, find-assign_same, find-assign_other}
use ouinet.Util.LruCache.{Nodes, LruCache, push_front}
use ouinet.Util.LruCache.Keys.{
  All-mono, HasDistinctKeys, assign-HasDistinctKeys, length-erase, length-assign_new,
  length-assign_old, All-found,
}
use ouinet.Util.LruCache.Valid.{entries, IsLinked, IsValid, IsRest, erase-IsRest, whole-IsRest}

module _ {K V : Type 0} ⦃e : Eq K⦄ where
  -- A node of the key comes to the front.
  pub front-IsValid :
      (c : LruCache K V) (key : K) (value : V) (rest : Nodes K V) (a n : ℕ) (m : List (K × ℕ))
      → IsValid c
      → IsRest c key rest
      → find m key ≡ some a
      → ((j : K) → e.beq key j ≡ false → find m j ≡ find c.map j)
      → HasDistinctKeys m
      → length m ≡ suc (length rest)
      → All (λ (x : ℕ × (K × V)). x.0 < n) rest
      → a < n
      → All (λ (x : ℕ × (K × V)). (a == x.0) ≡ false) rest
      → IsValid (record c { list = (a, (key, value)) ∷ rest; map = m; next = n })
  unfolding find
  front-IsValid c key value rest a n m v r here others d size below a_below a_apart = record {
    fresh = (a_below, below);
    apart = (a_apart, r.apart);
    keys = d;
    linked = (
      here,
      All-mono (λ (x : ℕ × (K × V)). IsLinked c.map x × (e.beq key x.1.0 ≡ false)) (IsLinked m) rest
          (λ x l. others x.1.0 l.1 ∙ l.0) r.linked,
    );
    backed = λ j it f. elim (Bool-cases (e.beq key j)) [
      | inl y ↦
          let same = e.beq_sound key j y in
          let at_a : a ≡ it = some-injective a it (sym here ∙ ap (find m) same ∙ f) in
          (value, rw ((==_iff a it).1 at_a) (ap (λ (k : K). some (k, value)) same))
      | inr n ↦
          let (w, g) = v.backed j it (sym (others j n) ∙ f) in
          let g' = r.found j it w n g in
          let apart =
            All-found (λ (x : ℕ × (K × V)). (a == x.0) ≡ false) rest it (j, w) a_apart g' in
          (w, rw apart g')
    ];
    sized = size;
  }

  below_apart :
      (n : ℕ) (l : Nodes K V)
      → All (λ (x : ℕ × (K × V)). x.0 < n) l
      → All (λ (x : ℕ × (K × V)). (n == x.0) ≡ false) l
  below_apart n l =
      All-mono (λ (x : ℕ × (K × V)). x.0 < n) (λ (x : ℕ × (K × V)). (n == x.0) ≡ false) l
        (λ x h. ground arith)

  below_suc :
      (n : ℕ) (l : Nodes K V)
      → All (λ (x : ℕ × (K × V)). x.0 < n) l
      → All (λ (x : ℕ × (K × V)). x.0 < n + 1) l
  below_suc n l =
      All-mono (λ (x : ℕ × (K × V)). x.0 < n) (λ (x : ℕ × (K × V)). x.0 < n + 1) l
        (λ x h. omega arith)

  -- What `put` makes before it makes room.
  abbrev pub Pushed : LruCache K V → K → V → LruCache K V → Type 0
  Pushed c key value c' =
      IsValid c'
      × (entries c'.list ≡ (key, value) ∷ erase (entries c.list) key)
      × (length c'.list ≤ length c.list + 1)

  -- Without the node that the key had, if any.
  push-front :
      (c : LruCache K V) (key : K) (value : V) (rest : Nodes K V)
      → IsValid c
      → IsRest c key rest
      → length (assign c.map key c.next) ≡ suc (length rest)
      → length rest ≤ length c.list
      → Pushed c key value (record c {
        list = (c.next, (key, value)) ∷ rest;
        map = assign c.map key c.next;
        next = c.next + 1;
      })
  push-front c key value rest v r size shorter = (
    front-IsValid c key value rest c.next (c.next + 1) (assign c.map key c.next) v r
        (find-assign_same c.map key c.next) (λ j n. find-assign_other c.map key j c.next n)
        (assign-HasDistinctKeys c.map key c.next v.keys) size (below_suc c.next rest r.fresh)
        (omega arith) (below_apart c.next rest r.fresh),
    ap (λ (t : List (K × V)). (key, value) ∷ t) r.without,
    omega arith,
  )

  abbrev pub after_push : LruCache K V → K → V → Option ℕ → LruCache K V
  after_push c key value o = record c {
    list = push_front c.list (c.next, (key, value)) o;
    map = assign c.map key c.next;
    next = c.next + 1;
  }

  pub push-Pushed :
      (c : LruCache K V) (key : K) (value : V) (o : Option ℕ)
      → IsValid c
      → find c.map key ≡ o
      → Pushed c key value (after_push c key value o)
  unfolding push_front erase
  push-Pushed c key value none v h =
      let size = v.sized in
      push-front c key value c.list v (whole-IsRest c key v h)
        (omega (arith, length-assign_new c.map key c.next h)) (omega arith)
  push-Pushed c key value (some it) v h =
      let size = v.sized in
      let (w, g) = v.backed key it h in
      let below = All-found (λ (x : ℕ × (K × V)). x.0 < c.next) c.list it (key, w) v.fresh g in
      let apart : (c.next == it) ≡ false = ground arith in
      let less = length-erase c.list it (key, w) v.apart g in
      rw apart (
        push-front c key value (erase c.list it) v (erase-IsRest c key it v h)
          (omega (arith, length-assign_old c.map key c.next it h)) (omega arith))

  gone : (l : Nodes K V) (it : ℕ) → All (λ (x : ℕ × (K × V)). (it == x.0) ≡ false) (erase l it)
  unfolding erase
  gone [] it = tt
  gone (x ∷ xs) it = elim (Bool-cases (x.0 == it)) [
    | inl y ↦ rw y (gone xs it)
    | inr n ↦ rw n (ground arith, gone xs it)
  ]

  -- `get` of a key that is there.
  pub move-IsValid :
      (c : LruCache K V) (key : K) (value : V) (it : ℕ)
      → IsValid c
      → find c.map key ≡ some it
      → find c.list it ≡ some (key, value)
      → IsValid (record c { list = (it, (key, value)) ∷ erase c.list it })
        × (entries ((it, (key, value)) ∷ erase c.list it)
            ≡ (key, value) ∷ erase (entries c.list) key)
        × (length ((it, (key, value)) ∷ erase c.list it) ≡ length c.list)
  move-IsValid c key value it v h g =
      let r = erase-IsRest c key it v h in
      let less = length-erase c.list it (key, value) v.apart g in
      (
        front-IsValid c key value (erase c.list it) it c.next c.map v r h (λ j n. refl) v.keys
            (v.sized ∙ less) r.fresh
            (All-found (λ (x : ℕ × (K × V)). x.0 < c.next) c.list it (key, value) v.fresh g)
            (gone c.list it),
        ap (λ (t : List (K × V)). (key, value) ∷ t) r.without,
        sym less,
      )
