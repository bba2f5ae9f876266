-- ===== src/Bittorrent/Compact/RoundTrip.antt =====
-- Endpoints and contacts are read back from their compact form.
use ouinet.Prelude.{
  ℕ, suc, ◌+◌, ◌*◌, ◌/◌, ◌%◌, ◌^◌, ◌<◌, ◌≡◌, refl, ap, ◌∙◌, Bool, true, false, List, [], ◌∷◌, ◌++◌,
  some, Bytes, length, length-append, take, drop, take_append, drop_append, ltb, ◌==◌, ==_iff,
  arith, All, subst,
}
use ouinet.Prelude.ByteTables.{holds_below, holds_below-lt}
use ouinet.Bittorrent.Storage.Swarm.Positions.{take-all}
use ouinet.Bittorrent.RoutingTable.{NodeContact}
use ouinet.Bittorrent.Compact.{
  Address, v4, v6, Endpoint, encode_endpoint, decode_endpoint, port_of, decode_compact,
  decode_contacts, decode_compact_v4, compact, compact_all,
}

port_test : ℕ → ℕ → Bool
port_test high low = port_of high low == high * 256 + low

port_table : holds_below (λ high. holds_below (port_test high) 256) 256 ≡ true
unfolding holds_below port_test
port_table = refl

port_of_bytes : (high low : ℕ) → high < 256 → low < 256 → port_of high low ≡ high * 256 + low
unfolding port_test
port_of_bytes high low h l = (==_iff (port_of high low) (high * 256 + low)).0 (
    holds_below-lt (port_test high) 256 low l
      (holds_below-lt (λ i. holds_below (port_test i) 256) 256 high h port_table))

port_back : (port : ℕ) → port < 2 ^ 16 → port_of (port / 2 ^ 8 % 256) (port % 256) ≡ port
port_back port h =
    port_of_bytes (port / 2 ^ 8 % 256) (port % 256) (omega arith) (omega arith) ∙ omega arith

abbrev pub IsV4 : Address → Type 0
IsV4 (v4 ip_bytes) = length ip_bytes ≡ 4
IsV4 (v6 ip_bytes) = ⊥

-- A contact with an identifier of 20 bytes and an address of four.
abbrev pub IsCompactV4 : NodeContact Endpoint → Type 0
IsCompactV4 c = (length c.id ≡ 20) × IsV4 c.endpoint.address × (c.endpoint.port < 2 ^ 16)

decode_v4 :
    (s : Bytes) (port : ℕ)
    → length s ≡ 4
    → port < 2 ^ 16
    → decode_endpoint (s ++ (port / 2 ^ 8 % 256 ∷ port % 256 ∷ []))
      ≡ some record { address = v4 s; port = port }
unfolding decode_endpoint
decode_v4 [] port h l = absurd (omega arith)
decode_v4 (a ∷ []) port h l = absurd (omega arith)
decode_v4 (a ∷ b ∷ []) port h l = absurd (omega arith)
decode_v4 (a ∷ b ∷ c ∷ []) port h l = absurd (omega arith)
decode_v4 (a ∷ b ∷ c ∷ d ∷ []) port h l =
    ap (λ n. some record { address = v4 (a ∷ b ∷ c ∷ d ∷ []); port = n }) (port_back port l)
decode_v4 (a ∷ b ∷ c ∷ d ∷ x ∷ s) port h l = absurd (omega arith)

decode_address :
    (address : Address) (port : ℕ)
    → IsV4 address
    → port < 2 ^ 16
    → (decode_endpoint (encode_endpoint record { address = address; port = port })
        ≡ some record { address = address; port = port })
      × (length (encode_endpoint record { address = address; port = port }) ≡ 6)
unfolding encode_endpoint
decode_address (v4 s) port h l =
    (decode_v4 s port h l, omega (arith, length-append s (port / 2 ^ 8 % 256 ∷ port % 256 ∷ [])))
decode_address (v6 s) port h l = absurd h

decode_compact_parts :
    (s id enc : Bytes) (e : Endpoint)
    → ltb (length s) 26 ≡ false
    → take 20 s ≡ id
    → take 6 (drop 20 s) ≡ enc
    → decode_endpoint enc ≡ some e
    → decode_compact 6 s ≡ some record { id = id; endpoint = e }
unfolding decode_compact
decode_compact_parts s id enc e long front behind back = rw (long, front, behind, back) refl

decode_compact-compact :
    (c : NodeContact Endpoint) → IsCompactV4 c → decode_compact 6 (compact c) ≡ some c
decode_compact-compact c (id_size, address, port) =
    let (back, size) = decode_address c.endpoint.address c.endpoint.port address port in
    let total = length-append c.id (encode_endpoint c.endpoint) in
    let front : take 20 (compact c) ≡ c.id =
      subst (λ n. take n (compact c) ≡ c.id) id_size
        (take_append c.id (encode_endpoint c.endpoint)) in
    let behind : drop 20 (compact c) ≡ encode_endpoint c.endpoint =
      subst (λ n. drop n (compact c) ≡ encode_endpoint c.endpoint) id_size
        (drop_append c.id (encode_endpoint c.endpoint)) in
    let whole : take 6 (encode_endpoint c.endpoint) ≡ encode_endpoint c.endpoint =
      take-all 6 (encode_endpoint c.endpoint) (omega arith) in
    let long : ltb (length (compact c)) (20 + 6) ≡ false = ground arith in
    decode_compact_parts (compact c) c.id (encode_endpoint c.endpoint) c.endpoint long front
      (ap (take 6) behind ∙ whole) back

length-compact : (c : NodeContact Endpoint) → IsCompactV4 c → length (compact c) ≡ 26
length-compact c (id_size, address, port) =
    let (back, size) = decode_address c.endpoint.address c.endpoint.port address port in
    omega (arith, length-append c.id (encode_endpoint c.endpoint))

decode_contacts_step :
    (n : ℕ) (s first rest : Bytes) (c : NodeContact Endpoint) (cs : List (NodeContact Endpoint))
    → take 26 s ≡ first
    → drop 26 s ≡ rest
    → decode_compact 6 first ≡ some c
    → decode_contacts 6 n rest ≡ some cs
    → decode_contacts 6 (suc n) s ≡ some (c ∷ cs)
unfolding decode_contacts
decode_contacts_step n s first rest c cs front behind e es =
    rw (front, decode_contacts, e, behind, es) refl

decode_contacts-compact_all :
    (cs : List (NodeContact Endpoint))
    → All IsCompactV4 cs
    → decode_contacts 6 (length cs) (compact_all cs) ≡ some cs
unfolding decode_contacts
decode_contacts-compact_all [] h = refl
decode_contacts-compact_all (c ∷ cs) (h, hs) =
    let size = length-compact c h in
    let rest = compact_all cs in
    let front : take 26 (compact c ++ rest) ≡ compact c =
      subst (λ n. take n (compact c ++ rest) ≡ compact c) size (take_append (compact c) rest) in
    let behind : drop 26 (compact c ++ rest) ≡ rest =
      subst (λ n. drop n (compact c ++ rest) ≡ rest) size (drop_append (compact c) rest) in
    decode_contacts_step (length cs) (compact c ++ rest) (compact c) rest c cs front behind
      (decode_compact-compact c h) (decode_contacts-compact_all cs hs)

length-compact_all :
    (cs : List (NodeContact Endpoint))
    → All IsCompactV4 cs
    → length (compact_all cs) ≡ 26 * length cs
length-compact_all [] h = refl
length-compact_all (c ∷ cs) (h, hs) = omega (
  arith,
  length-append (compact c) (compact_all cs),
  length-compact c h,
  length-compact_all cs hs,
)

-- `decode_compact_v4` reads back the compact form of contacts whose identifiers have 20 bytes, whose
-- addresses have four and whose ports have 16 bits.
pub decode_compact_v4-compact_all :
    (cs : List (NodeContact Endpoint))
    → All IsCompactV4 cs
    → decode_compact_v4 (compact_all cs) ≡ some cs
unfolding decode_compact_v4
decode_compact_v4-compact_all cs h =
    let size = length-compact_all cs h in
    let even : (length (compact_all cs) % 26 == 0) ≡ true = ground (arith, size) in
    let count : length (compact_all cs) / 26 ≡ length cs = omega arith in
    rw (even, count) (decode_contacts-compact_all cs h)
