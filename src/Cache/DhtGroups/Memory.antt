-- ===== src/Cache/DhtGroups/Memory.antt =====
-- `add` of src/cache/dht_groups.cpp and what is in memory.
use ouinet.Prelude.{
  ◌≡◌, refl, sym, ap, ◌∙◌, subst, ◌⊎◌, ◌↔◌, inl, inr, Bool, true, false, not, ◌&&◌, ◌||◌, List, [],
  ◌∷◌, Option, none, some, Bytes, IsIn, Bool-cases, if_given, if◌then◌else◌,
}
use mathlib.Core.Option.{some-injective}
use ouinet.Prelude.Maps.{find, assign, find-assign_same, find-assign_other}
use ouinet.Bittorrent.NodeId.{id_eq}
use ouinet.Bittorrent.Storage.Keys.{id_key, id_eq_sound, id_eq_complete}
use ouinet.Cache.DhtGroups.{
  GroupDir, Disk, Groups, FileStep, FileSystem, contains, insert_item, is_missing, nameless_dir,
  new_dir, try_remove, make_item, add_to_disk, add_to_groups,
}
use ouinet.Cache.DhtGroups.Added.{insert_item-IsIn}

-- The group has the item in memory.
abbrev pub Holds : Groups → Bytes → Bytes → Type 0
Holds groups gn item = (items : List Bytes) × (find groups gn ≡ some items) × IsIn item items

pub insert_item-sub :
    (items : List Bytes) (item i : Bytes) → IsIn i (insert_item items item) → IsIn i (item ∷ items)
insert_item-sub items item i h = sub (contains items item) h
  where
    sub : (b : Bool) → IsIn i (if b then items else item ∷ items) → IsIn i (item ∷ items)
    sub true j = inr j
    sub false j = j

and_right : (a b : Bool) → (a && b) ≡ true → b ≡ true
and_right true b h = h
and_right false b h = cc

or_other : (a b : Bool) → (a || b) ≡ true → a ≡ false → b ≡ true
or_other true b h f = cc
or_other false b h f = h

held : (a : Bool) → not a ≡ false → a ≡ true
held true h = refl
held false h = cc

module _ (sha1_hex : Bytes → Bytes) (fs : FileSystem)
    (no_collision : (a b : Bytes) → sha1_hex a ≡ sha1_hex b → a ≡ b) where
  -- The items of the group after `add`.
  abbrev Made : Groups → Bytes → Bytes → Groups → Type 0
  Made groups gn item made =
      (items : List Bytes) × (made ≡ assign groups gn items)
      × ((i : Bytes) → IsIn i items ↔ (Holds groups gn i ⊎ (i ≡ item)))

  add_to_groups-Made :
      (groups : Groups) (gn item : Bytes) → Made groups gn item (add_to_groups groups gn item)
  unfolding add_to_groups
  add_to_groups-Made groups gn item = go (find groups gn) refl
    where
      go :
          (o : Option (List Bytes))
          → find groups gn ≡ o
          → Made groups gn item (elim o [
            | none ↦ assign groups gn (item ∷ [])
            | some items ↦ assign groups gn (insert_item items item)
          ])
      go none e = (
        item ∷ [],
        refl,
        λ i. (
          λ h. elim h [ inl same ↦ inr same | inr x ↦ absurd x ],
          λ h. elim h [ inl old ↦ cc (old.1, e) | inr same ↦ inl same ],
        ),
      )
      go (some items) e = (
        insert_item items item,
        refl,
        λ i. (
          λ h. elim (insert_item-sub items item i h) [
            | inl same ↦ inr same
            | inr there ↦ inl (items, e, there)
          ],
          λ h. insert_item-IsIn sha1_hex fs no_collision items item i (elim h [
            | inl old ↦ inr (subst (IsIn i) (some-injective _ _ (sym old.1 ∙ e)) old.2)
            | inr same ↦ inl same
          ]),
        ),
      )

  pub add_to_groups-Holds :
      (groups : Groups) (gn item other i : Bytes)
      → Holds (add_to_groups groups gn item) other i
        ↔ (Holds groups other i ⊎ ((other ≡ gn) × (i ≡ item)))
  add_to_groups-Holds groups gn item other i =
      let (items, made, all) = add_to_groups-Made groups gn item in
      let found = ap (λ (m : Groups). find m gn) made ∙ find-assign_same groups gn items in
      elim (Bool-cases (id_eq gn other)) [
        | inl e ↦
            subst
              (λ (o : Bytes).
                Holds (add_to_groups groups gn item) o i
                ↔ (Holds groups o i ⊎ ((o ≡ gn) × (i ≡ item))))
              (id_eq_sound gn other e)
              (
                λ h. elim ((all i).0 (subst (IsIn i) (some-injective _ _ (sym h.1 ∙ found)) h.2)) [
                  | inl old ↦ inl old
                  | inr same ↦ inr (refl, same)
                ],
                λ h. (items, found, (all i).1 (elim h [ inl old ↦ inl old | inr new ↦ inr new.1 ])),
              )
        | inr e ↦
            let kept =
              ap (λ (m : Groups). find m other) made ∙ find-assign_other groups gn other items e in
            (
              λ h. inl (h.0, sym kept ∙ h.1, h.2),
              λ h. elim h [
                | inl old ↦ (old.0, kept ∙ old.1, old.2)
                | inr new ↦ cc (id_eq_complete gn other (sym new.0), e)
              ],
            )
      ]

  abbrev pub HasFailed : Type 0
  HasFailed = (step : FileStep) × (fs.fails step ≡ true)

  abbrev FailsByStep : Bool × Disk → Type 0
  FailsByStep res = res.0 ≡ false → HasFailed

  make_item-FailsByStep :
      (disk : Disk) (gn : Bytes) (dir : GroupDir) (item : Bytes)
      → FailsByStep (make_item sha1_hex fs disk gn dir item)
  unfolding make_item
  make_item-FailsByStep disk gn dir item =
      if_given FailsByStep (is_missing dir.items && fs.fails FileStep.create_items) _ _
        (λ e f. (FileStep.create_items, and_right (is_missing dir.items) _ e))
        (λ e.
          if_given FailsByStep (fs.fails FileStep.open_item) _ _ (λ e' f. (FileStep.open_item, e'))
            (λ e' f. (FileStep.truncate_item, held _ f)))

  pub add_to_disk-FailsByStep :
      (disk : Disk) (gn item : Bytes) → (add_to_disk sha1_hex fs disk gn item).0 ≡ false → HasFailed
  unfolding add_to_disk
  add_to_disk-FailsByStep disk gn item = go (find disk (sha1_hex gn))
    where
      go :
          (found : Option GroupDir)
          → FailsByStep (elim found [
            | some dir ↦ make_item sha1_hex fs disk gn dir item
            | none ↦
                if fs.fails FileStep.create_group
                then (false, disk)
                else if fs.fails FileStep.open_name || fs.fails FileStep.write_name
                then (false, try_remove sha1_hex fs (assign disk (sha1_hex gn) nameless_dir) gn)
                else make_item sha1_hex fs
                    (assign disk (sha1_hex gn) (new_dir gn))
                    gn
                    (new_dir gn)
                    item
          ])
      go (some dir) = make_item-FailsByStep disk gn dir item
      go none =
          if_given FailsByStep (fs.fails FileStep.create_group) _ _
            (λ e f. (FileStep.create_group, e))
            (λ e.
              if_given FailsByStep (fs.fails FileStep.open_name || fs.fails FileStep.write_name) _ _
                (λ e' f. elim (Bool-cases (fs.fails FileStep.open_name)) [
                  | inl o ↦ (FileStep.open_name, o)
                  | inr o ↦ (FileStep.write_name, or_other (fs.fails FileStep.open_name) _ e' o)
                ])
                (λ e'.
                  make_item-FailsByStep (assign disk (sha1_hex gn) (new_dir gn)) gn (new_dir gn)
                    item))
