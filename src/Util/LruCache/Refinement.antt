-- ===== src/Util/LruCache/Refinement.antt =====
-- src/util/lru_cache.h is a list of entries, the one used last first.
use ouinet.Prelude.{
  ℕ, ◌≤◌, Bool-cases, Option-cases, ◌≡◌, refl, ◌∙◌, ap, false, List, [], ◌∷◌, Option, none, some,
  length, take, All, arith, inl, inr, ◌==◌,
}
use mathlib.Core.Option.{some-injective}
use ouinet.Prelude.Eq.{Eq, nat_eq}
use ouinet.Prelude.Maps.{find, erase}
use ouinet.Util.LruCache.{
  Nodes, LruCache, new_cache, Call, put_call, get_call, move_call, erase_call, put, get, run,
  move_to_front, erase_entry,
}
use ouinet.Util.LruCache.Keys.{length-erase}
use ouinet.Util.LruCache.Valid.{entries, IsValid, erase-IsRest, whole-IsRest, absent, Agrees, agree}
use ouinet.Util.LruCache.Eviction.{make_room-take, dropped-IsValid}
use ouinet.Util.LruCache.Room.{after_push, push-Pushed, move-IsValid}

module _ {K V : Type 0} ⦃e : Eq K⦄ where
  -- The specification: what the calls return over a list of entries.
  unfoldable pub used_first : List (K × V) → K → V → List (K × V)
  used_first kvs key value = (key, value) ∷ erase kvs key

  unfoldable pub recall : ℕ → List (K × V) → List (Call K V) → List (Option V)
  unfolding used_first
  recall max_size kvs [] = []
  recall max_size kvs (put_call key value ∷ calls) =
      recall max_size (take max_size (used_first kvs key value)) calls
  recall max_size kvs (get_call key ∷ calls) = elim (find kvs key) [
    | none ↦ none ∷ recall max_size kvs calls
    | some value ↦ some value ∷ recall max_size (used_first kvs key value) calls
  ]
  recall max_size kvs (move_call key ∷ calls) = elim (find kvs key) [
    | none ↦ recall max_size kvs calls
    | some value ↦ recall max_size (used_first kvs key value) calls
  ]
  recall max_size kvs (erase_call key ∷ calls) = recall max_size (erase kvs key) calls

  put-used_first :
      (c : LruCache K V) (key : K) (value : V)
      → IsValid c
      → length c.list ≤ c.max_size
      → IsValid (put c key value)
        × (length (put c key value).list ≤ c.max_size)
        × (entries (put c key value).list ≡ take c.max_size (used_first (entries c.list) key value))
        × ((put c key value).max_size ≡ c.max_size)
  unfolding put used_first
  put-used_first c key value v h =
      let (v', kvs, long) = push-Pushed c key value (find c.map key) v refl in
      let (valid, short, kept, same) =
        make_room-take (after_push c key value (find c.map key)) v' (omega arith) in
      (valid, short, kept ∙ ap (take c.max_size) kvs, same)

  find-entries :
      (l : Nodes K V) (key : K)
      → All (λ (x : ℕ × (K × V)). e.beq x.1.0 key ≡ false) l
      → find (entries l) key ≡ none
  unfolding find
  find-entries [] key h = refl
  find-entries (x ∷ l) key h = rw h.0 (find-entries l key h.1)

  find-entries_there :
      (c : LruCache K V) (key : K) (value : V) (it : ℕ)
      → IsValid c
      → find c.map key ≡ some it
      → find c.list it ≡ some (key, value)
      → find (entries c.list) key ≡ some value
  unfolding find
  find-entries_there c key value it v h = go c.list (agree c key it v h)
    where
      go :
          (l : Nodes K V)
          → All (Agrees key it) l
          → find l it ≡ some (key, value)
          → find (entries l) key ≡ some value
      go [] a f = cc
      go (x ∷ l) a f = elim (Bool-cases (x.0 == it)) [
        | inl y ↦
            let found : x.1 ≡ (key, value) = some-injective _ _ (rw y at f) in
            rw (a.0, y) (ap (λ (kv : K × V). some kv.1) found)
        | inr n ↦ rw (a.0, n) (go l a.1 (rw n at f))
      ]

  run-recall :
      (c : LruCache K V) (calls : List (Call K V))
      → IsValid c
      → length c.list ≤ c.max_size
      → run c calls ≡ recall c.max_size (entries c.list) calls
  unfolding run recall move_to_front erase_entry
  run-recall c [] v h = refl
  run-recall c (put_call key value ∷ calls) v h =
      let (v', short, kvs, same) = put-used_first c key value v h in
      run-recall (put c key value) calls v' (omega arith)
      ∙ ap (λ (n : ℕ). recall n (entries (put c key value).list) calls) same
      ∙ ap (λ (t : List (K × V)). recall c.max_size t calls) kvs
  run-recall c (get_call key ∷ calls) v h = elim (Option-cases (find c.map key)) [
    | inl nowhere ↦
        rw (get, nowhere, recall, find-entries c.list key (absent c key v nowhere))
          (ap (λ (t : List (Option V)). none ∷ t) (run-recall c calls v h))
    | inr (it, there) ↦
        let (value, g) = v.backed key it there in
        let (v', kvs, size) = move-IsValid c key value it v there g in
        rw (get, there, g, recall, find-entries_there c key value it v there g)
          (ap (λ (t : List (Option V)). some value ∷ t)
            (run-recall (record c { list = (it, (key, value)) ∷ erase c.list it }) calls v'
                (omega arith)
              ∙ ap (λ (t : List (K × V)). recall c.max_size t calls) kvs))
  ]
  run-recall c (move_call key ∷ calls) v h = elim (Option-cases (find c.map key)) [
    | inl nowhere ↦
        rw
          (
            run,
            move_to_front,
            get,
            nowhere,
            recall,
            find-entries c.list key (absent c key v nowhere),
          )
          (run-recall c calls v h)
    | inr (it, there) ↦
        let (value, g) = v.backed key it there in
        let (v', kvs, size) = move-IsValid c key value it v there g in
        rw (run, move_to_front, get, there, g, recall, find-entries_there c key value it v there g)
          (run-recall (record c { list = (it, (key, value)) ∷ erase c.list it }) calls v'
              (omega arith)
            ∙ ap (λ (t : List (K × V)). recall c.max_size t calls) kvs)
  ]
  run-recall c (erase_call key ∷ calls) v h = elim (Option-cases (find c.map key)) [
    | inl nowhere ↦
        rw (run, erase_entry, nowhere)
          (run-recall c calls v h
            ∙ ap (λ (t : List (K × V)). recall c.max_size t calls)
                (whole-IsRest c key v nowhere).without)
    | inr (it, there) ↦
        let (value, g) = v.backed key it there in
        let fewer = length-erase c.list it (key, value) v.apart g in
        rw (run, erase_entry, there)
          (run-recall (record c { list = erase c.list it; map = erase c.map key }) calls
              (dropped-IsValid c key value it v there g) (omega arith)
            ∙ ap (λ (t : List (K × V)). recall c.max_size t calls)
                (erase-IsRest c key it v there).without)
  ]

  -- Whatever is called on a new cache, `get` returns what it returns over a list of entries, the one used last
  -- first: `put` takes away the older entry of its key and what is past the size, `get` and `move_to_front`
  -- bring the entry of their key to the front, and `erase` takes it away. A `move_to_front` or an `erase` of
  -- a key that is not there does nothing.
  pub run-new_cache :
      (max_size : ℕ) (calls : List (Call K V))
      → run (new_cache max_size) calls ≡ recall max_size [] calls
  unfolding new_cache find
  run-new_cache max_size calls =
      run-recall (new_cache max_size) calls
        record {
          fresh = tt;
          apart = tt;
          keys = tt;
          linked = tt;
          backed = λ k it f. cc;
          sized = refl;
        }
        (omega arith)
