-- ===== src/Cache/DhtGroups/Adding.antt =====
-- `add` of src/cache/dht_groups.cpp and what is on the disk.
use ouinet.Prelude.{
  ◌≡◌, refl, sym, subst, ◌⊎◌, ◌↔◌, inl, inr, Bool, true, false, List, [], ◌∷◌, some, Bytes,
  is_empty, All, Bool-cases, if_given, option_both, if◌then◌else◌,
}
use mathlib.Core.Option.{some-injective}
use ouinet.Prelude.Maps.{find, assign, All-assign}
use ouinet.Bittorrent.NodeId.{id_eq}
use ouinet.Bittorrent.Storage.Keys.{id_key, id_eq_sound}
use ouinet.Cache.DhtGroups.{
  GroupDir, Disk, Groups, DhtGroups, FileSystem, contains, insert_item, add_to_disk, add_to_groups,
  add_item,
}
use ouinet.Cache.DhtGroups.Stored.{
  IsStored, IsPersisted, id_eq_sym, SameButFor, IsStored-other, IsStored-fewer, IsPersisted-other,
}
use ouinet.Cache.DhtGroups.Memory.{
  Holds, insert_item-sub, add_to_groups-Holds, HasFailed, add_to_disk-FailsByStep,
}
use ouinet.Cache.DhtGroups.Added.{IsAdded, add_to_disk-IsAdded}

module _ (sha1_hex : Bytes → Bytes) (fs : FileSystem)
    (no_collision : (a b : Bytes) → sha1_hex a ≡ sha1_hex b → a ≡ b) where
  -- The items of a group in memory are stored.
  find-IsStored :
      (disk : Disk) (groups : Groups) (gn : Bytes) (items : List Bytes)
      → IsPersisted sha1_hex fs disk groups
      → find groups gn ≡ some items
      → IsStored sha1_hex fs disk gn items
  unfolding find
  find-IsStored disk [] gn items v h = cc
  find-IsStored disk ((other, its) ∷ groups) gn items v h = elim (Bool-cases (id_eq other gn)) [
    | inl e ↦
        subst (λ (g : Bytes). IsStored sha1_hex fs disk g items) (id_eq_sound other gn e)
          (subst (IsStored sha1_hex fs disk other) (some-injective _ _ (rw e at h)) v.1)
    | inr e ↦ find-IsStored disk groups gn items v.3 (rw e at h)
  ]

  find-full :
      (disk : Disk) (groups : Groups) (gn : Bytes) (items : List Bytes)
      → IsPersisted sha1_hex fs disk groups
      → find groups gn ≡ some items
      → is_empty items ≡ false
  unfolding find
  find-full disk [] gn items v h = cc
  find-full disk ((other, its) ∷ groups) gn items v h = elim (Bool-cases (id_eq other gn)) [
    | inl e ↦ subst (λ (l : List Bytes). is_empty l ≡ false) (some-injective _ _ (rw e at h)) v.0
    | inr e ↦ find-full disk groups gn items v.3 (rw e at h)
  ]

  assign-apart :
      (groups : Groups) (gn other : Bytes) (items : List Bytes)
      → id_eq other gn ≡ false
      → All (λ (g : Bytes × List Bytes). id_eq other g.0 ≡ false) groups
      → All (λ (g : Bytes × List Bytes). id_eq other g.0 ≡ false) (assign groups gn items)
  assign-apart groups gn other items h a =
      All-assign (λ (g : Bytes × List Bytes). id_eq other g.0 ≡ false) groups gn items a h

  -- A group is added or replaced.
  assign-IsPersisted :
      (disk disk' : Disk) (gn : Bytes) (items : List Bytes) (groups : Groups)
      → SameButFor sha1_hex fs no_collision gn disk disk'
      → is_empty items ≡ false
      → IsStored sha1_hex fs disk' gn items
      → IsPersisted sha1_hex fs disk groups
      → IsPersisted sha1_hex fs disk' (assign groups gn items)
  unfolding assign
  assign-IsPersisted disk disk' gn items [] same full v p = (full, v, tt, tt)
  assign-IsPersisted disk disk' gn items ((other, its) ∷ groups) same full v p =
      if_given (IsPersisted sha1_hex fs disk') (id_eq other gn) ((gn, items) ∷ groups)
        ((other, its) ∷ assign groups gn items)
        (λ e.
          let apart =
            subst (λ (k : Bytes). All (λ (g : Bytes × List Bytes). id_eq k g.0 ≡ false) groups)
              (id_eq_sound other gn e) p.2 in
          (
            full,
            v,
            apart,
            IsPersisted-other sha1_hex fs no_collision disk disk' gn groups same apart p.3,
          ))
        (λ e. (
          p.0,
          IsStored-other sha1_hex fs no_collision disk disk' gn other its same
              (id_eq_sym sha1_hex fs no_collision other gn e) p.1,
          assign-apart groups gn other items e p.2,
          assign-IsPersisted disk disk' gn items groups same full v p.3,
        ))

  -- A failure keeps what is stored.
  kept-IsPersisted :
      (disk disk' : Disk) (gn : Bytes) (groups : Groups)
      → SameButFor sha1_hex fs no_collision gn disk disk'
      → ((items : List Bytes)
          → is_empty items ≡ false
          → IsStored sha1_hex fs disk gn items
          → IsStored sha1_hex fs disk' gn items)
      → IsPersisted sha1_hex fs disk groups
      → IsPersisted sha1_hex fs disk' groups
  kept-IsPersisted disk disk' gn [] same keeps p = tt
  kept-IsPersisted disk disk' gn ((other, its) ∷ groups) same keeps p = (
    p.0,
    elim (Bool-cases (id_eq gn other)) [
      | inl e ↦
          let g = id_eq_sound gn other e in
          subst (λ (k : Bytes). IsStored sha1_hex fs disk' k its) g
            (keeps its p.0 (subst (λ (k : Bytes). IsStored sha1_hex fs disk k its) (sym g) p.1))
      | inr e ↦ IsStored-other sha1_hex fs no_collision disk disk' gn other its same e p.1
    ],
    p.2,
    kept-IsPersisted disk disk' gn groups same keeps p.3,
  )

  insert_item-full :
      (items : List Bytes) (item : Bytes)
      → is_empty items ≡ false
      → is_empty (insert_item items item) ≡ false
  insert_item-full items item h =
      if_given (λ (l : List Bytes). is_empty l ≡ false) (contains items item) items (item ∷ items)
        (λ e. h) (λ e. refl)

  add_to_groups-IsPersisted :
      (disk disk' : Disk) (groups : Groups) (gn item : Bytes)
      → IsAdded sha1_hex fs no_collision disk gn item (true, disk')
      → IsPersisted sha1_hex fs disk groups
      → IsPersisted sha1_hex fs disk' (add_to_groups groups gn item)
  unfolding add_to_groups
  add_to_groups-IsPersisted disk disk' groups gn item a p =
      option_both (IsPersisted sha1_hex fs disk') (find groups gn) (assign groups gn (item ∷ []))
        (λ (items : List Bytes). assign groups gn (insert_item items item))
        (assign-IsPersisted disk disk' gn (item ∷ []) groups a.0 refl a.1 p)
        (λ items e.
          let stored = find-IsStored disk groups gn items p e in
          assign-IsPersisted disk disk' gn (insert_item items item) groups a.0
            (insert_item-full items item (find-full disk groups gn items p e))
            (IsStored-fewer sha1_hex fs no_collision disk' gn (item ∷ items)
              (insert_item items item) (insert_item-sub items item) (a.2 items stored))
            p)

  -- After a success the memory has what it had and the new item; a failure comes from a step of the file
  -- system and leaves the memory as it was.
  abbrev pub Remembers : Groups → Bytes → Bytes → Bytes → Bytes → Bool × DhtGroups → Type 0
  Remembers groups gn item other i (true, s') =
      Holds s'.groups other i ↔ (Holds groups other i ⊎ ((other ≡ gn) × (i ≡ item)))
  Remembers groups gn item other i (false, s') =
      (s'.groups ≡ groups) × HasFailed sha1_hex fs no_collision

  -- `add` keeps all groups in memory stored with their items. If it succeeds, a group has an item in memory
  -- exactly if it had it or both are the given ones; if it fails, the memory is as it was and a step of the
  -- file system has failed. SHA-1 has no collision, and a directory that is there for the group has its name.
  pub add_item-IsPersisted :
      (s : DhtGroups) (gn item other i : Bytes)
      → ((dir : GroupDir) → find s.disk (sha1_hex gn) ≡ some dir → dir.group_name ≡ gn)
      → IsPersisted sha1_hex fs s.disk s.groups
      → IsPersisted sha1_hex fs
          (add_item sha1_hex fs s gn item).1.disk
          (add_item sha1_hex fs s gn item).1.groups
        × Remembers s.groups gn item other i (add_item sha1_hex fs s gn item)
  unfolding add_item
  add_item-IsPersisted s gn item other i named p =
      go (add_to_disk sha1_hex fs s.disk gn item)
        (add_to_disk-IsAdded sha1_hex fs no_collision s.disk gn item named)
        (add_to_disk-FailsByStep sha1_hex fs no_collision s.disk gn item)
    where
      after : Bool × Disk → Bool × DhtGroups
      after res =
          if res.0
          then (true, record { groups = add_to_groups s.groups gn item; disk = res.1 })
          else (false, record s { disk = res.1 })

      go :
          (res : Bool × Disk)
          → IsAdded sha1_hex fs no_collision s.disk gn item res
          → (res.0 ≡ false → HasFailed sha1_hex fs no_collision)
          → IsPersisted sha1_hex fs (after res).1.disk (after res).1.groups
            × Remembers s.groups gn item other i (after res)
      go (true, disk') a f = (
        add_to_groups-IsPersisted s.disk disk' s.groups gn item a p,
        add_to_groups-Holds sha1_hex fs no_collision s.groups gn item other i,
      )
      go (false, disk') a f = (kept-IsPersisted s.disk disk' gn s.groups a.0 a.1 p, (refl, f refl))
