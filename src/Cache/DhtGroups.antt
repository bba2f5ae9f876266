-- ===== src/Cache/DhtGroups.antt =====
-- `DhtGroupsImpl` of src/cache/dht_groups.cpp: the groups of cached resources, in memory and on disk. The disk
-- holds a directory for each group, under the SHA-1 of its name. A step of the file system may fail, and
-- a removal may stop half-way, as an argument tells; a path of the store is a directory if it exists.
pub mod Stored
pub mod Removing
pub mod Added
pub mod Memory
pub mod Adding
use ouinet.Prelude.{
  ℕ, Bool, true, false, not, ◌&&◌, ◌||◌, List, [], ◌∷◌, Option, none, some, Bytes, any, is_empty,
  keep, if◌then◌else◌,
}
use ouinet.Prelude.Maps.{find, assign, erase}
use ouinet.Bittorrent.NodeId.{id_eq}
use ouinet.Bittorrent.Storage.Keys.{id_key}

pub record GroupDir : Type 0 where
  pub group_name : Bytes
  -- The directory `items`, if it exists, with its files.
  pub items : Option (List Bytes)
  pub pinned : Bool

abbrev pub Disk : Type 0
Disk = List (Bytes × GroupDir)

abbrev pub Groups : Type 0
Groups = List (Bytes × List Bytes)

pub record DhtGroups : Type 0 where
  pub groups : Groups
  pub disk : Disk

-- The steps of the file system.
pub data FileStep : Type 0 where
  create_group open_name write_name create_items open_item truncate_item open_pin remove_pin :
      FileStep
  -- The file of an item of a group.
  remove_file_of : Bytes → Bytes → FileStep

-- What the steps come to: whether they fail, and what `remove_all` leaves of a group's directory: nothing,
-- or whatever is there when it stops half-way.
pub record FileSystem : Type 0 where
  pub fails : FileStep → Bool
  pub left_of : Bytes → GroupDir → Option GroupDir

abbrev pub contains : List Bytes → Bytes → Bool
contains items item = any (λ i. id_eq i item) items

-- `std::set::insert` and `erase`.
abbrev pub insert_item : List Bytes → Bytes → List Bytes
insert_item items item = if contains items item then items else item ∷ items

abbrev pub erase_item : List Bytes → Bytes → List Bytes
erase_item items item = keep (λ i. not (id_eq i item)) items

abbrev pub files_of : Option (List Bytes) → List Bytes
files_of none = []
files_of (some files) = files

abbrev pub is_missing : Option (List Bytes) → Bool
is_missing none = true
is_missing (some files) = false

abbrev pub new_dir : Bytes → GroupDir
new_dir gn = record { group_name = gn; items = none; pinned = false }

-- A directory whose file `group_name` could not be written.
abbrev pub nameless_dir : GroupDir
nameless_dir = record { group_name = []; items = none; pinned = false }

-- What `remove` returns, with `group_pinned`.
pub record Removed : Type 0 where
  pub groups : Groups
  pub disk : Disk
  pub erased_groups : List Bytes
  pub group_pinned : Bool

-- `add` in memory.
unfoldable pub add_to_groups : Groups → Bytes → Bytes → Groups
add_to_groups groups gn item = elim (find groups gn) [
  | none ↦ assign groups gn (item ∷ [])
  | some items ↦ assign groups gn (insert_item items item)
]

module _ (sha1_hex : Bytes → Bytes) (fs : FileSystem) where
  -- `try_remove` of a group's directory.
  unfoldable pub try_remove : Disk → Bytes → Disk
  try_remove disk gn = elim (find disk (sha1_hex gn)) [
    | none ↦ disk
    | some dir ↦ elim (fs.left_of gn dir) [
      | none ↦ erase disk (sha1_hex gn)
      | some left ↦ assign disk (sha1_hex gn) left
    ]
  ]

  -- `try_remove` of the file of an item.
  unfoldable pub without_file : GroupDir → Bytes → GroupDir
  without_file dir item = elim dir.items [
    | none ↦ dir
    | some files ↦ record dir { items = some (erase_item files item) }
  ]

  unfoldable pub remove_file : Disk → Bytes → Bytes → Disk
  unfolding without_file
  remove_file disk gn item =
      if fs.fails (remove_file_of gn item) then disk else elim (find disk (sha1_hex gn)) [
        | none ↦ disk
        | some dir ↦ assign disk (sha1_hex gn) (without_file dir item)
      ]

  -- `is_pinned`.
  unfoldable pub is_pinned : Disk → Bytes → Bool
  is_pinned disk gn = elim (find disk (sha1_hex gn)) [ none ↦ false | some dir ↦ dir.pinned ]

  -- The item's file, in a group's directory.
  unfoldable pub make_item : Disk → Bytes → GroupDir → Bytes → Bool × Disk
  make_item disk gn dir item =
      let files = files_of dir.items in
      let emptied = assign disk (sha1_hex gn) (record dir { items = some files }) in
      let full = assign disk (sha1_hex gn) (record dir { items = some (insert_item files item) }) in
      if is_missing dir.items && fs.fails create_items
      then (false, try_remove disk gn)
      else if fs.fails open_item
      then (false, if is_empty files then try_remove emptied gn else emptied)
      else (not (fs.fails truncate_item), full)

  -- `add` on the disk: whether it succeeds, and the disk.
  unfoldable pub add_to_disk : Disk → Bytes → Bytes → Bool × Disk
  unfolding make_item
  add_to_disk disk gn item =
      let fresh = new_dir gn in
      elim (find disk (sha1_hex gn)) [
        | some dir ↦ make_item disk gn dir item
        | none ↦
            if fs.fails create_group
            then (false, disk)
            else if fs.fails open_name || fs.fails write_name
            then (false, try_remove (assign disk (sha1_hex gn) nameless_dir) gn)
            else make_item (assign disk (sha1_hex gn) fresh) gn fresh item
      ]

  -- `add`.
  unfoldable pub add_item : DhtGroups → Bytes → Bytes → Bool × DhtGroups
  unfolding add_to_disk add_to_groups
  add_item s gn item =
      let (ok, disk) = add_to_disk s.disk gn item in
      if ok
      then (true, record { groups = add_to_groups s.groups gn item; disk = disk })
      else (false, record s { disk = disk })

  -- A round of the loop of `remove`: the group if it stays, and the disk.
  unfoldable pub remove_in : Disk → Bytes → List Bytes → Bytes → Option (List Bytes) × Disk
  unfolding is_pinned try_remove remove_file
  remove_in disk gn items item =
      let left = erase_item items item in
      let disk' = remove_file disk gn item in
      if is_empty items
      then (none, try_remove disk gn)
      else if not (contains items item)
      then (some items, disk)
      else if is_pinned disk gn
      then (some items, disk)
      else if is_empty left
      then (none, try_remove disk' gn)
      else (some left, disk')

  -- `remove`, over the groups.
  unfoldable pub remove_item : Disk → Groups → Bytes → Removed
  unfolding remove_in
  remove_item disk [] item = record {
    groups = [];
    disk = disk;
    erased_groups = [];
    group_pinned = false;
  }
  remove_item disk ((gn, items) ∷ groups) item =
      let (stays, disk') = remove_in disk gn items item in
      let rest = remove_item disk' groups item in
      let pinned = contains items item && is_pinned disk gn in
      elim stays [
        | none ↦ record rest { erased_groups = gn ∷ rest.erased_groups }
        | some left ↦ record rest {
          groups = (gn, left) ∷ rest.groups;
          group_pinned = pinned || rest.group_pinned;
        }
      ]

  -- `remove_group`, of a group that is there.
  unfoldable pub remove_group : DhtGroups → Bytes → DhtGroups
  unfolding try_remove
  remove_group s gn = elim (find s.groups gn) [
    | none ↦ s
    | some items ↦ record { groups = erase s.groups gn; disk = try_remove s.disk gn }
  ]

  -- `pin_group` and `unpin_group`: whether they succeed, and the disk.
  unfoldable pub pin_group : Disk → Bytes → Bool × Disk
  pin_group disk gn = elim (find disk (sha1_hex gn)) [
    | none ↦ (false, disk)
    | some dir ↦
        if fs.fails open_pin
        then (false, disk)
        else (true, assign disk (sha1_hex gn) (record dir { pinned = true }))
  ]

  unfoldable pub unpin_group : Disk → Bytes → Bool × Disk
  unpin_group disk gn = elim (find disk (sha1_hex gn)) [
    | none ↦ (false, disk)
    | some dir ↦
        if not dir.pinned
        then (true, disk)
        else if fs.fails remove_pin
        then (false, disk)
        else (true, assign disk (sha1_hex gn) (record dir { pinned = false }))
  ]

-- `BackedDhtGroups::remove`, of the groups that `remove` returned.
unfoldable pub backed_emptied : List Bytes → List Bytes → List Bytes
backed_emptied emptied fallback = keep (λ gn. not (contains fallback gn)) emptied
