-- ===== src/Bittorrent/Compact.antt =====
-- The compact form of endpoints and contacts: src/bittorrent/code.h and node_contact.h. An address of
-- Boost is its bytes. A list of contacts that is refused is `none`.
pub mod RoundTrip
pub mod Equality
use ouinet.Prelude.{
  ℕ, zero, suc, ◌+◌, ◌*◌, ◌/◌, ◌%◌, ◌^◌, bit_or, bit_and, Bool, true, false, List, [], ◌∷◌, ◌++◌,
  Option, none, some, Bytes, length, take, drop, get_or, ltb, ◌==◌, if◌then◌else◌,
}
use ouinet.Bittorrent.RoutingTable.{NodeContact}

pub data Address : Type 0 where
  v4 v6 : Bytes → Address

pub record Endpoint : Type 0 where
  pub address : Address
  pub port : ℕ

abbrev pub address_bytes : Address → Bytes
address_bytes (v4 ip_bytes) = ip_bytes
address_bytes (v6 ip_bytes) = ip_bytes

unfoldable pub encode_endpoint : Endpoint → Bytes
encode_endpoint endpoint =
    address_bytes endpoint.address ++ (endpoint.port / 2 ^ 8 % 256 ∷ endpoint.port % 256 ∷ [])

-- `(high << 8) | low` in 16 bits.
abbrev pub port_of : ℕ → ℕ → ℕ
port_of high low = bit_or (high * 2 ^ 8 % 2 ^ 16) low

unfoldable pub decode_endpoint : Bytes → Option Endpoint
decode_endpoint s =
    if length s == 6
    then some record { address = v4 (take 4 s); port = port_of (get_or s 4 0) (get_or s 5 0) }
    else if length s == 18
    then some record { address = v6 (take 16 s); port = port_of (get_or s 16 0) (get_or s 17 0) }
    else none

-- A contact of an endpoint that is read: the source takes the value without a test.
abbrev pub with_endpoint : Bytes → Option Endpoint → Option (NodeContact Endpoint)
with_endpoint id none = none
with_endpoint id (some endpoint) = some record { id = id; endpoint = endpoint }

-- `decode_compact_v4` and `decode_compact_v6` of one contact, whose endpoint has `size` bytes.
pub decode_compact : ℕ → Bytes → Option (NodeContact Endpoint)
decode_compact size s =
    if ltb (length s) (20 + size)
    then none
    else with_endpoint (take 20 s) (decode_endpoint (take size (drop 20 s)))

-- The loop over the contacts, with `n` of them left.
pub decode_contacts : ℕ → ℕ → Bytes → Option (List (NodeContact Endpoint))
decode_contacts size zero s = some []
decode_contacts size (suc n) s =
    let rest = decode_contacts size n (drop (20 + size) s) in
    elim (decode_compact size (take (20 + size) s)) [
      | none ↦ none
      | some c ↦ elim rest [ none ↦ none | some cs ↦ some (c ∷ cs) ]
    ]

unfoldable pub decode_compact_v4 : Bytes → Option (List (NodeContact Endpoint))
unfolding decode_contacts decode_compact decode_endpoint
decode_compact_v4 s = if length s % 26 == 0 then decode_contacts 6 (length s / 26) s else none

unfoldable pub decode_compact_v6 : Bytes → Option (List (NodeContact Endpoint))
unfolding decode_contacts decode_compact decode_endpoint
decode_compact_v6 s = if length s % 38 == 0 then decode_contacts 18 (length s / 38) s else none

-- The compact form of a contact, and of some contacts, as the replies of a node hold it.
abbrev pub compact : NodeContact Endpoint → Bytes
compact c = c.id ++ encode_endpoint c.endpoint

abbrev pub compact_all : List (NodeContact Endpoint) → Bytes
compact_all [] = []
compact_all (c ∷ cs) = compact c ++ compact_all cs
