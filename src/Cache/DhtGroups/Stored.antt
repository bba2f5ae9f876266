-- ===== src/Cache/DhtGroups/Stored.antt =====
-- What the groups hold in memory is on the disk.
use ouinet.Prelude.{
  ◌≡◌, refl, sym, ◌∙◌, inl, inr, false, List, [], ◌∷◌, some, Bytes, is_empty, All, IsIn, Bool-cases,
  if_given, option_both,
}
use ouinet.Prelude.Maps.{find, assign, erase, find-assign_same, find-assign_other, find-erase_other}
use ouinet.Bittorrent.NodeId.{id_eq}
use ouinet.Bittorrent.Storage.Keys.{id_key, id_eq_sound, id_eq_complete}
use ouinet.Cache.DhtGroups.{
  GroupDir, Disk, Groups, FileStep, FileSystem, try_remove, without_file, remove_file,
}

module _ (sha1_hex : Bytes → Bytes) (fs : FileSystem) where
  -- The group's directory has its name and a file for each of the items.
  pub record IsStored (disk : Disk) (gn : Bytes) (items : List Bytes) : Type 0 where
    pub dir : GroupDir
    pub files : List Bytes
    pub there : find disk (sha1_hex gn) ≡ some dir
    pub named : dir.group_name ≡ gn
    pub held : dir.items ≡ some files
    pub all_there : (i : Bytes) → IsIn i items → IsIn i files

  -- Each group of the memory has items and is stored, and no name stands twice.
  abbrev pub IsPersisted : Disk → Groups → Type 0
  IsPersisted disk [] = Unit
  IsPersisted disk ((gn, items) ∷ groups) =
      (is_empty items ≡ false)
      × IsStored disk gn items
      × All (λ (g : Bytes × List Bytes). id_eq gn g.0 ≡ false) groups
      × IsPersisted disk groups

  module _ (no_collision : (a b : Bytes) → sha1_hex a ≡ sha1_hex b → a ≡ b) where
    pub sha1_other : (a b : Bytes) → id_eq a b ≡ false → id_eq (sha1_hex a) (sha1_hex b) ≡ false
    sha1_other a b h = elim (Bool-cases (id_eq (sha1_hex a) (sha1_hex b))) [
      | inl e ↦ cc (id_eq_complete a b (no_collision a b (id_eq_sound _ _ e)), h)
      | inr e ↦ e
    ]

    pub id_eq_sym : (a b : Bytes) → id_eq a b ≡ false → id_eq b a ≡ false
    id_eq_sym a b h = elim (Bool-cases (id_eq b a)) [
      | inl e ↦ cc (id_eq_complete a b (sym (id_eq_sound b a e)), h)
      | inr e ↦ e
    ]

    -- The disk is changed at one group only.
    abbrev pub SameButFor : Bytes → Disk → Disk → Type 0
    SameButFor gn disk disk' =
        (k : Bytes) → id_eq (sha1_hex gn) k ≡ false → find disk' k ≡ find disk k

    pub try_remove-SameButFor :
        (disk : Disk) (gn : Bytes) → SameButFor gn disk (try_remove sha1_hex fs disk gn)
    unfolding try_remove
    try_remove-SameButFor disk gn =
        option_both (SameButFor gn disk) (find disk (sha1_hex gn)) disk _ (λ k h. refl)
          (λ dir e.
            option_both (SameButFor gn disk) (fs.left_of gn dir) (erase disk (sha1_hex gn))
              (assign disk (sha1_hex gn)) (find-erase_other disk (sha1_hex gn))
              (λ left e' k h. find-assign_other disk (sha1_hex gn) k left h))

    pub assign-SameButFor :
        (disk : Disk) (gn : Bytes) (dir : GroupDir)
        → SameButFor gn disk (assign disk (sha1_hex gn) dir)
    assign-SameButFor disk gn dir k h = find-assign_other disk (sha1_hex gn) k dir h

    pub remove_file-SameButFor :
        (disk : Disk) (gn item : Bytes) → SameButFor gn disk (remove_file sha1_hex fs disk gn item)
    unfolding remove_file
    remove_file-SameButFor disk gn item =
        if_given (SameButFor gn disk) (fs.fails (FileStep.remove_file_of gn item)) disk _
          (λ e k h. refl)
          (λ e.
            option_both (SameButFor gn disk) (find disk (sha1_hex gn)) disk
              (λ (dir : GroupDir). assign disk (sha1_hex gn) (without_file sha1_hex fs dir item))
              (λ k h. refl)
              (λ dir e'. assign-SameButFor disk gn (without_file sha1_hex fs dir item)))

    pub IsStored-same :
        (disk disk' : Disk) (gn : Bytes) (items : List Bytes)
        → find disk' (sha1_hex gn) ≡ find disk (sha1_hex gn)
        → IsStored disk gn items
        → IsStored disk' gn items
    IsStored-same disk disk' gn items same v = record {
      dir = v.dir;
      files = v.files;
      there = same ∙ v.there;
      named = v.named;
      held = v.held;
      all_there = v.all_there;
    }

    pub IsStored-other :
        (disk disk' : Disk) (gn other : Bytes) (items : List Bytes)
        → SameButFor gn disk disk'
        → id_eq gn other ≡ false
        → IsStored disk other items
        → IsStored disk' other items
    IsStored-other disk disk' gn other items same apart v =
        IsStored-same disk disk' other items (same (sha1_hex other) (sha1_other gn other apart)) v

    pub IsStored-fewer :
        (disk : Disk) (gn : Bytes) (items fewer : List Bytes)
        → ((i : Bytes) → IsIn i fewer → IsIn i items)
        → IsStored disk gn items
        → IsStored disk gn fewer
    IsStored-fewer disk gn items fewer sub v = record {
      dir = v.dir;
      files = v.files;
      there = v.there;
      named = v.named;
      held = v.held;
      all_there = λ i h. v.all_there i (sub i h);
    }

    -- A directory that is written for a group.
    pub assign-IsStored :
        (disk : Disk) (gn : Bytes) (dir : GroupDir) (items files : List Bytes)
        → dir.group_name ≡ gn
        → dir.items ≡ some files
        → ((i : Bytes) → IsIn i items → IsIn i files)
        → IsStored (assign disk (sha1_hex gn) dir) gn items
    assign-IsStored disk gn dir items files named held sub = record {
      dir = dir;
      files = files;
      there = find-assign_same disk (sha1_hex gn) dir;
      named = named;
      held = held;
      all_there = sub;
    }

    pub IsPersisted-other :
        (disk disk' : Disk) (gn : Bytes) (groups : Groups)
        → SameButFor gn disk disk'
        → All (λ (g : Bytes × List Bytes). id_eq gn g.0 ≡ false) groups
        → IsPersisted disk groups
        → IsPersisted disk' groups
    IsPersisted-other disk disk' gn [] same apart v = tt
    IsPersisted-other disk disk' gn ((other, items) ∷ groups) same apart v = (
      v.0,
      IsStored-other disk disk' gn other items same apart.0 v.1,
      v.2,
      IsPersisted-other disk disk' gn groups same apart.1 v.3,
    )
