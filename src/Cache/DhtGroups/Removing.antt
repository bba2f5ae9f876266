-- ===== src/Cache/DhtGroups/Removing.antt =====
-- `remove` and what is on the disk.
use ouinet.Prelude.{
  ◌≡◌, refl, sym, ◌∙◌, subst, false, not, ◌&&◌, ◌||◌, List, [], ◌∷◌, Option, none, some, Bytes,
  is_empty, All, IsIn, IsIn-keep, keep-IsIn, if_given, option_both,
}
use mathlib.Core.Option.{some-injective}
use ouinet.Prelude.Maps.{find, assign}
use ouinet.Bittorrent.NodeId.{id_eq}
use ouinet.Bittorrent.Storage.Keys.{id_key}
use ouinet.Cache.DhtGroups.{
  GroupDir, Disk, Groups, FileStep, FileSystem, contains, erase_item, Removed, try_remove,
  without_file, remove_file, is_pinned, remove_in, remove_item,
}
use ouinet.Cache.DhtGroups.Stored.{
  IsStored, IsPersisted, sha1_other, id_eq_sym, SameButFor, try_remove-SameButFor,
  remove_file-SameButFor, IsStored-same, IsStored-fewer, assign-IsStored, IsPersisted-other,
}

module _ (sha1_hex : Bytes → Bytes) (fs : FileSystem)
    (no_collision : (a b : Bytes) → sha1_hex a ≡ sha1_hex b → a ≡ b) where
  erase_item-sub :
      (items files : List Bytes) (item : Bytes)
      → ((i : Bytes) → IsIn i items → IsIn i files)
      → (i : Bytes) → IsIn i (erase_item items item)
      → IsIn i (erase_item files item)
  erase_item-sub items files item sub i h =
      let k = IsIn-keep (λ (j : Bytes). not (id_eq j item)) items i h in
      keep-IsIn (λ (j : Bytes). not (id_eq j item)) files i (sub i k.0) k.1

  without_file-held :
      (dir : GroupDir) (item : Bytes) (files : List Bytes)
      → dir.items ≡ some files
      → ((without_file sha1_hex fs dir item).group_name ≡ dir.group_name)
        × ((without_file sha1_hex fs dir item).items ≡ some (erase_item files item))
  unfolding without_file
  without_file-held dir item files h = rw h (refl, refl)

  remove_file-IsStored :
      (disk : Disk) (gn item : Bytes) (items : List Bytes)
      → IsStored sha1_hex fs disk gn items
      → IsStored sha1_hex fs (remove_file sha1_hex fs disk gn item) gn (erase_item items item)
  unfolding remove_file
  remove_file-IsStored disk gn item items v =
      let P = λ (d : Disk). IsStored sha1_hex fs d gn (erase_item items item) in
      let fewer =
        IsStored-fewer sha1_hex fs no_collision disk gn items (erase_item items item)
          (λ i h. (IsIn-keep (λ (j : Bytes). not (id_eq j item)) items i h).0) v in
      if_given P (fs.fails (FileStep.remove_file_of gn item)) disk _ (λ e. fewer)
        (λ e.
          option_both P (find disk (sha1_hex gn)) disk
            (λ (dir : GroupDir). assign disk (sha1_hex gn) (without_file sha1_hex fs dir item))
            fewer
            (λ dir e'.
              let right = without_file-held v.dir item v.files v.held in
              subst
                (λ (x : GroupDir). P (assign disk (sha1_hex gn) (without_file sha1_hex fs x item)))
                (some-injective _ _ (sym v.there ∙ e'))
                (assign-IsStored sha1_hex fs no_collision disk gn
                  (without_file sha1_hex fs v.dir item) (erase_item items item)
                  (erase_item v.files item) (right.0 ∙ v.named) right.1
                  (erase_item-sub items v.files item v.all_there))))

  -- A round of `remove` keeps what stays of the group stored.
  abbrev IsRemoved : Disk → Bytes → Option (List Bytes) × Disk → Type 0
  IsRemoved disk gn (none, disk') = SameButFor sha1_hex fs no_collision gn disk disk'
  IsRemoved disk gn (some left, disk') =
      SameButFor sha1_hex fs no_collision gn disk disk'
      × (is_empty left ≡ false)
      × IsStored sha1_hex fs disk' gn left

  remove_in-IsRemoved :
      (disk : Disk) (gn item : Bytes) (items : List Bytes)
      → is_empty items ≡ false
      → IsStored sha1_hex fs disk gn items
      → IsRemoved disk gn (remove_in sha1_hex fs disk gn items item)
  unfolding remove_in
  remove_in-IsRemoved disk gn item items full v =
      let P = IsRemoved disk gn in
      let left = erase_item items item in
      let disk' = remove_file sha1_hex fs disk gn item in
      let same = remove_file-SameButFor sha1_hex fs no_collision disk gn item in
      if_given P (is_empty items) (none, try_remove sha1_hex fs disk gn) _ (λ e. cc (e, full))
        (λ e0.
          if_given P (not (contains items item)) (some items, disk) _ (λ e. (λ k h. refl, full, v))
            (λ e1.
              if_given P (is_pinned sha1_hex fs disk gn) (some items, disk) _
                (λ e. (λ k h. refl, full, v))
                (λ e2.
                  if_given P (is_empty left) (none, try_remove sha1_hex fs disk' gn)
                    (some left, disk')
                    (λ e k h.
                      try_remove-SameButFor sha1_hex fs no_collision disk' gn k h ∙ same k h)
                    (λ e. (same, e, remove_file-IsStored disk gn item items v)))))

  -- What `remove` does to a disk and to groups.
  record IsRemovedAll (disk : Disk) (groups : Groups) (r : Removed) : Type 0 where
    persisted : IsPersisted sha1_hex fs r.disk r.groups
    others :
        (gn : Bytes)
        → All (λ (g : Bytes × List Bytes). id_eq gn g.0 ≡ false) groups
        → (All (λ (g : Bytes × List Bytes). id_eq gn g.0 ≡ false) r.groups)
          × (find r.disk (sha1_hex gn) ≡ find disk (sha1_hex gn))

  remove_item-IsRemovedAll :
      (disk : Disk) (groups : Groups) (item : Bytes)
      → IsPersisted sha1_hex fs disk groups
      → IsRemovedAll disk groups (remove_item sha1_hex fs disk groups item)
  unfolding remove_item
  remove_item-IsRemovedAll disk [] item v = record { persisted = tt; others = λ gn a. (tt, refl) }
  remove_item-IsRemovedAll disk ((gn, items) ∷ groups) item v =
      go (remove_in sha1_hex fs disk gn items item) (remove_in-IsRemoved disk gn item items v.0 v.1)
        (λ disk'. remove_item-IsRemovedAll disk' groups item)
    where
      go :
          (res : Option (List Bytes) × Disk)
          → IsRemoved disk gn res
          → ((disk' : Disk)
              → IsPersisted sha1_hex fs disk' groups
              → IsRemovedAll disk' groups (remove_item sha1_hex fs disk' groups item))
          → IsRemovedAll disk ((gn, items) ∷ groups) (
              let rest = remove_item sha1_hex fs res.1 groups item in
              let pinned = contains items item && is_pinned sha1_hex fs disk gn in
              elim res.0 [
                | none ↦ record rest { erased_groups = gn ∷ rest.erased_groups }
                | some left ↦ record rest {
                  groups = (gn, left) ∷ rest.groups;
                  group_pinned = pinned || rest.group_pinned;
                }
              ])
      go (none, disk') h ih =
          let r =
            ih disk' (IsPersisted-other sha1_hex fs no_collision disk disk' gn groups h v.2 v.3) in
          record {
            persisted = r.persisted;
            others = λ k a.
                let o = r.others k a.1 in
                (
                  o.0,
                  o.1
                      ∙ h (sha1_hex k) (
                          sha1_other sha1_hex fs no_collision gn k
                            (id_eq_sym sha1_hex fs no_collision k gn a.0)),
                );
          }
      go (some left, disk') h ih =
          let r =
            ih disk'
              (IsPersisted-other sha1_hex fs no_collision disk disk' gn groups h.0 v.2 v.3) in
          let o = r.others gn v.2 in
          record {
            persisted = (
              h.1,
              IsStored-same sha1_hex fs no_collision disk' _ gn left o.1 h.2,
              o.0,
              r.persisted,
            );
            others = λ k a.
                let o' = r.others k a.1 in
                (
                  (a.0, o'.0),
                  o'.1
                      ∙ h.0 (sha1_hex k) (
                          sha1_other sha1_hex fs no_collision gn k
                            (id_eq_sym sha1_hex fs no_collision k gn a.0)),
                );
          }

  -- `remove` keeps all groups that stay stored, with what they hold, whichever removal fails or stops half-way,
  -- if SHA-1 has no collision.
  pub remove_item-IsPersisted :
      (disk : Disk) (groups : Groups) (item : Bytes)
      → IsPersisted sha1_hex fs disk groups
      → IsPersisted sha1_hex fs
          (remove_item sha1_hex fs disk groups item).disk
          (remove_item sha1_hex fs disk groups item).groups
  remove_item-IsPersisted disk groups item v =
      (remove_item-IsRemovedAll disk groups item v).persisted
