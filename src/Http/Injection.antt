-- ===== src/Http/Injection.antt =====
-- `http_injection_field` and `parse_date` of src/http_util.cpp.
use ouinet.Prelude.{true, false, List, [], ◌∷◌, Bytes, codes, is_empty, ◌==◌, ◌||◌, if◌then◌else◌}
use ouinet.Bittorrent.NodeId.{id_eq}
use ouinet.Http.{Fields, ResponseHeader, Library}
use ouinet.Http.Split.{split_string, split_string_pair}

abbrev pub header_prefix : Bytes
header_prefix = codes "X-Ouinet-"

abbrev pub response_injection_hdr : Bytes
response_injection_hdr = codes "X-Ouinet-Injection"

module _ (lib : Library) where
  -- `rsh[name]`, which is empty for a missing field.
  unfoldable pub field_named : Fields → Bytes → Bytes
  field_named [] name = []
  field_named (h ∷ hs) name = if lib.iequals h.name name then h.value else field_named hs name

  -- The loop over the items.
  unfoldable pub item_named : List Bytes → Bytes → Bytes
  item_named [] field = []
  item_named (item ∷ items) field =
      let (key, value) = split_string_pair item b'=' in
      if id_eq key field then value else item_named items field

  unfoldable pub http_injection_field : ResponseHeader → Bytes → Bytes
  http_injection_field rsh field =
      let ih = field_named rsh.fields response_injection_hdr in
      if is_empty ih then [] else item_named (split_string ih b',') field

  -- The quotes and spaces at the beginning.
  unfoldable pub trim_date : Bytes → Bytes
  trim_date [] = []
  trim_date (b ∷ v) = if (b == b'"') || (b == b' ') then trim_date v else b ∷ v

  unfoldable pub parse_date : Bytes → lib.Time
  unfolding trim_date
  parse_date s =
      let v = trim_date s in
      let first = lib.read_date true v in if lib.is_date first then first else lib.read_date false v
