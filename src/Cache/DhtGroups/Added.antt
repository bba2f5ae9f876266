-- ===== src/Cache/DhtGroups/Added.antt =====
-- What `add` does to the disk.
use ouinet.Prelude.{
  ◌≡◌, refl, sym, ap, ◌∙◌, subst, ◌⊎◌, inl, inr, Bool, true, false, not, ◌&&◌, ◌||◌, List, [], ◌∷◌,
  Option, none, some, Bytes, is_empty, IsIn, Bool-cases, if_given, if◌then◌else◌,
}
use mathlib.Core.Option.{some-injective}
use ouinet.Prelude.Maps.{find, assign, find-assign_same}
use ouinet.Bittorrent.NodeId.{id_eq}
use ouinet.Bittorrent.Storage.Keys.{id_key, id_eq_sound}
use ouinet.Cache.DhtGroups.{
  GroupDir, Disk, FileStep, FileSystem, contains, insert_item, files_of, is_missing, new_dir,
  nameless_dir, try_remove, make_item, add_to_disk,
}
use ouinet.Cache.DhtGroups.Stored.{
  IsStored, SameButFor, try_remove-SameButFor, assign-SameButFor, assign-IsStored,
}

module _ (sha1_hex : Bytes → Bytes) (fs : FileSystem)
    (no_collision : (a b : Bytes) → sha1_hex a ≡ sha1_hex b → a ≡ b) where
  -- What `add` does to the disk, for the items that the group has in memory.
  abbrev pub IsAdded : Disk → Bytes → Bytes → Bool × Disk → Type 0
  IsAdded disk gn item (true, disk') =
      SameButFor sha1_hex fs no_collision gn disk disk'
      × (IsStored sha1_hex fs disk' gn (item ∷ []))
      × ((items : List Bytes)
          → IsStored sha1_hex fs disk gn items
          → IsStored sha1_hex fs disk' gn (item ∷ items))
  IsAdded disk gn item (false, disk') =
      SameButFor sha1_hex fs no_collision gn disk disk'
      × ((items : List Bytes)
          → is_empty items ≡ false
          → IsStored sha1_hex fs disk gn items
          → IsStored sha1_hex fs disk' gn items)

  pub insert_item-IsIn :
      (files : List Bytes) (item i : Bytes)
      → (i ≡ item) ⊎ IsIn i files
      → IsIn i (insert_item files item)
  insert_item-IsIn files item i h =
      if_given (IsIn i) (contains files item) files (item ∷ files)
        (λ e. elim h [ inl same ↦ contained files e same | inr there ↦ there ])
        (λ e. elim h [ inl same ↦ inl same | inr there ↦ inr there ])
    where
      contained : (xs : List Bytes) → contains xs item ≡ true → i ≡ item → IsIn i xs
      contained [] e same = cc
      contained (x ∷ xs) e same = elim (Bool-cases (id_eq x item)) [
        | inl f ↦ inl (same ∙ sym (id_eq_sound x item f))
        | inr f ↦ inr (contained xs (rw f at e) same)
      ]

  module _ (disk : Disk) (gn item : Bytes) (dir : GroupDir)
      (there : find disk (sha1_hex gn) ≡ some dir) (named : dir.group_name ≡ gn) where
    pub stored_items :
        (items : List Bytes) (v : IsStored sha1_hex fs disk gn items) → dir.items ≡ some v.files
    stored_items items v =
        ap (λ (d : GroupDir). d.items) (some-injective _ _ (sym there ∙ v.there)) ∙ v.held

    pub stored_files :
        (items : List Bytes) (v : IsStored sha1_hex fs disk gn items) → files_of dir.items ≡ v.files
    stored_files items v = ap files_of (stored_items items v)

    -- The directory with other files, if these include the group's.
    pub written-IsStored :
        (items files : List Bytes)
        → ((i : Bytes) → IsIn i items → IsIn i files)
        → IsStored sha1_hex fs
            (assign disk (sha1_hex gn) (record dir { items = some files }))
            gn
            items
    written-IsStored items files sub =
        assign-IsStored sha1_hex fs no_collision disk gn (record dir { items = some files }) items
          files named refl sub

    pub item_full-IsAdded :
        (ok : Bool)
        → IsAdded disk gn item (
          ok,
          assign disk
              (sha1_hex gn)
              (record dir { items = some (insert_item (files_of dir.items) item) }),
        )
    item_full-IsAdded true = (
      assign-SameButFor sha1_hex fs no_collision disk gn _,
      written-IsStored (item ∷ []) (insert_item (files_of dir.items) item) (λ i h. elim h [
        | inl e ↦ insert_item-IsIn (files_of dir.items) item i (inl e)
        | inr e ↦ absurd e
      ]),
      λ items v. written-IsStored (item ∷ items) (insert_item (files_of dir.items) item) (λ i h.
          elim h [
            | inl e ↦ insert_item-IsIn (files_of dir.items) item i (inl e)
            | inr e ↦
                insert_item-IsIn (files_of dir.items) item i
                  (inr (subst (IsIn i) (sym (stored_files items v)) (v.all_there i e)))
          ]),
    )
    item_full-IsAdded false = (
      assign-SameButFor sha1_hex fs no_collision disk gn _,
      λ items full v. written-IsStored items (insert_item (files_of dir.items) item) (λ i e.
          insert_item-IsIn (files_of dir.items) item i
            (inr (subst (IsIn i) (sym (stored_files items v)) (v.all_there i e)))),
    )

    pub empty_IsIn : (xs : List Bytes) → is_empty xs ≡ true → (i : Bytes) → ¬ IsIn i xs
    empty_IsIn [] e i h = h
    empty_IsIn (x ∷ xs) e i h = cc

    pub no_items :
        (items : List Bytes) → is_empty items ≡ false → ((i : Bytes) → ¬ IsIn i items) → ⊥
    no_items [] h none_in = cc
    no_items (i ∷ items) h none_in = none_in i (inl refl)

    pub make_item-IsAdded : IsAdded disk gn item (make_item sha1_hex fs disk gn dir item)
    unfolding make_item
    make_item-IsAdded =
        let P = IsAdded disk gn item in
        let files = files_of dir.items in
        let emptied = assign disk (sha1_hex gn) (record dir { items = some files }) in
        let full =
          assign disk (sha1_hex gn) (record dir { items = some (insert_item files item) }) in
        let same =
          assign-SameButFor sha1_hex fs no_collision disk gn (record dir { items = some files }) in
        if_given P (is_missing dir.items && fs.fails FileStep.create_items)
          (false, try_remove sha1_hex fs disk gn) _
          (λ e. (
            try_remove-SameButFor sha1_hex fs no_collision disk gn,
            λ items f v. cc (rw (stored_items items v) at e),
          ))
          (λ e0.
            if_given P (fs.fails FileStep.open_item)
              (false, if is_empty files then try_remove sha1_hex fs emptied gn else emptied)
              (not (fs.fails FileStep.truncate_item), full)
              (λ e.
                if_given (λ (d : Disk). P (false, d)) (is_empty files)
                  (try_remove sha1_hex fs emptied gn) emptied
                  (λ none_left. (
                    λ k h. try_remove-SameButFor sha1_hex fs no_collision emptied gn k h ∙ same k h,
                    λ items f v. absurd (
                        no_items items f (λ i h.
                          empty_IsIn v.files (rw (stored_files items v) at none_left) i
                            (v.all_there i h))),
                  ))
                  (λ some_left. (
                    same,
                    λ items f v.
                        written-IsStored items files
                          (λ i h. subst (IsIn i) (sym (stored_files items v)) (v.all_there i h)),
                  )))
              (λ e. item_full-IsAdded (not (fs.fails FileStep.truncate_item))))

  -- A group that was not there.
  pub IsAdded-fresh :
      (disk disk1 : Disk) (gn item : Bytes) (res : Bool × Disk)
      → find disk (sha1_hex gn) ≡ none
      → SameButFor sha1_hex fs no_collision gn disk disk1
      → IsAdded disk1 gn item res
      → IsAdded disk gn item res
  IsAdded-fresh disk disk1 gn item (true, disk') nowhere same a =
      (λ k h. a.0 k h ∙ same k h, a.1, λ items v. cc (v.there, nowhere))
  IsAdded-fresh disk disk1 gn item (false, disk') nowhere same a =
      (λ k h. a.0 k h ∙ same k h, λ items f v. cc (v.there, nowhere))

  pub add_to_disk-IsAdded :
      (disk : Disk) (gn item : Bytes)
      → ((dir : GroupDir) → find disk (sha1_hex gn) ≡ some dir → dir.group_name ≡ gn)
      → IsAdded disk gn item (add_to_disk sha1_hex fs disk gn item)
  unfolding add_to_disk
  add_to_disk-IsAdded disk gn item named = go (find disk (sha1_hex gn)) refl
    where
      go :
          (found : Option GroupDir)
          → find disk (sha1_hex gn) ≡ found
          → IsAdded disk gn item (elim found [
            | some dir ↦ make_item sha1_hex fs disk gn dir item
            | none ↦
                if fs.fails FileStep.create_group
                then (false, disk)
                else if fs.fails FileStep.open_name || fs.fails FileStep.write_name
                then (false, try_remove sha1_hex fs (assign disk (sha1_hex gn) nameless_dir) gn)
                else make_item sha1_hex fs
                    (assign disk (sha1_hex gn) (new_dir gn))
                    gn
                    (new_dir gn)
                    item
          ])
      go (some dir) there = make_item-IsAdded disk gn item dir there (named dir there)
      go none nowhere =
          let P = IsAdded disk gn item in
          let disk1 = assign disk (sha1_hex gn) (new_dir gn) in
          let made = make_item sha1_hex fs disk1 gn (new_dir gn) item in
          let unmade : Bool × Disk =
            (false, try_remove sha1_hex fs (assign disk (sha1_hex gn) nameless_dir) gn) in
          if_given P (fs.fails FileStep.create_group) (false, disk)
            (if fs.fails FileStep.open_name || fs.fails FileStep.write_name then unmade else made)
            (λ e. (λ k h. refl, λ items f v. v))
            (λ e.
              if_given P (fs.fails FileStep.open_name || fs.fails FileStep.write_name) unmade made
                (λ e'. (
                  λ k h.
                      try_remove-SameButFor sha1_hex fs no_collision
                        (assign disk (sha1_hex gn) nameless_dir) gn k h
                      ∙ assign-SameButFor sha1_hex fs no_collision disk gn nameless_dir k h,
                  λ items f v. cc (v.there, nowhere),
                ))
                (λ e'.
                  IsAdded-fresh disk disk1 gn item made nowhere
                    (assign-SameButFor sha1_hex fs no_collision disk gn (new_dir gn))
                    (make_item-IsAdded disk1 gn item (new_dir gn)
                      (find-assign_same disk (sha1_hex gn) (new_dir gn)) refl)))
