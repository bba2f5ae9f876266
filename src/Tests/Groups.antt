-- ===== src/Tests/Groups.antt =====
-- src/cache/dht_groups.cpp and resource_id.cpp at concrete inputs.
use ouinet.Prelude.{◌≡◌, refl, Bool, true, false, [], ◌∷◌, ◌++◌, none, some, Bytes, codes, arith}
use ouinet.Prelude.Maps.{find, assign}
use ouinet.Bittorrent.NodeId.{id_eq, repeat}
use ouinet.Bittorrent.Storage.Keys.{id_key}
use ouinet.Cache.DhtGroups.{
  GroupDir, Disk, Groups, DhtGroups, FileStep, FileSystem, add_item, remove_item, remove_group,
}
use ouinet.Cache.DhtGroups.Stored.{IsPersisted}
use ouinet.Cache.DhtGroups.Removing.{remove_item-IsPersisted}
use ouinet.Cache.DhtGroups.Adding.{Remembers, add_item-IsPersisted}
use ouinet.Util.Bytes.{from_hex, to_printable, from_printable}
use ouinet.Cache.ResourceId.{from_url, resource_from_hex, resource_from_hex-from_url}

abbrev hex : Bytes → Bytes
hex gn = gn

-- No step fails.
abbrev never : FileSystem
never = record { fails = λ step. false; left_of = λ gn dir. none }

abbrev is_truncation : FileStep → Bool
is_truncation FileStep.truncate_item = true
is_truncation step = false

-- The truncation fails, and a removal leaves the directory without its name.
abbrev failing : FileSystem
failing = record {
  fails = is_truncation;
  left_of = λ gn dir. some (record dir { group_name = [] });
}

abbrev dir : GroupDir
dir = record { group_name = codes "g"; items = some (codes "a" ∷ codes "b" ∷ []); pinned = false }

abbrev disk : Disk
disk = (codes "g", dir) ∷ []

abbrev groups : Groups
groups = (codes "g", codes "a" ∷ codes "b" ∷ []) ∷ []

groups-IsPersisted : IsPersisted hex never disk groups
unfolding find id_eq
groups-IsPersisted = (
  refl,
  record {
    dir = dir;
    files = codes "a" ∷ codes "b" ∷ [];
    there = refl;
    named = refl;
    held = refl;
    all_there = λ i h. h;
  },
  tt,
  tt,
)

dir_named : (d : GroupDir) → find disk (hex (codes "h")) ≡ some d → d.group_name ≡ codes "h"
unfolding find id_eq
dir_named d h = cc

remove_item-a :
    (remove_item hex never disk groups (codes "a")).groups ≡ (codes "g", codes "b" ∷ []) ∷ []
unfolding remove_item find id_eq
remove_item-a = refl

remove_item-IsPersisted_example :
    IsPersisted hex never
      (remove_item hex never disk groups (codes "a")).disk
      (remove_item hex never disk groups (codes "a")).groups
remove_item-IsPersisted_example =
    remove_item-IsPersisted hex never (λ a b e. e) disk groups (codes "a") groups-IsPersisted

abbrev state : DhtGroups
state = record { groups = groups; disk = disk }

add_item-IsPersisted_example :
    IsPersisted hex never
      (add_item hex never state (codes "h") (codes "c")).1.disk
      (add_item hex never state (codes "h") (codes "c")).1.groups
    × Remembers hex never
        (λ a b e. e)
        groups
        (codes "h")
        (codes "c")
        (codes "h")
        (codes "c")
        (add_item hex never state (codes "h") (codes "c"))
add_item-IsPersisted_example =
    add_item-IsPersisted hex never (λ a b e. e) state (codes "h") (codes "c") (codes "h")
      (codes "c") dir_named groups-IsPersisted

-- A directory that could not be removed stays without a name.
remove_leaves :
    find (remove_group hex failing state (codes "g")).disk (codes "g")
    ≡ some (record dir { group_name = [] })
unfolding remove_group find assign id_eq
remove_leaves = refl

abbrev sha1 : Bytes → Bytes
sha1 s = repeat 20 171

capital_refused : resource_from_hex (codes "ABABABABABABABABABABABABABABABABABABABAB") ≡ none
unfolding resource_from_hex
capital_refused = refl

odd_digits : from_hex (codes "Ab7") ≡ some (171 ∷ 7 ∷ [])
unfolding from_hex
odd_digits = refl

escape_kept : from_printable (b'"' ∷ to_printable (codes "\\") ++ b'"' ∷ []) ≡ some (codes "\\\\")
unfolding from_printable to_printable
escape_kept = refl

resource_from_hex-from_url_example :
    (resource_from_hex (from_url sha1 (codes "u")).repr ≡ some (from_url sha1 (codes "u")))
    × (from_hex (from_url sha1 (codes "u")).repr ≡ some (sha1 (codes "ouinet-resource-id-saltu")))
resource_from_hex-from_url_example =
    resource_from_hex-from_url sha1 (codes "u") (λ s. (refl, ground arith))
