-- ===== src/Cache/ResourceId.antt =====
-- src/cache/resource_id.h and resource_id.cpp: the name of a cached resource, 40 hexadecimal digits.
use ouinet.Prelude.{
  ℕ, ◌*◌, ◌/◌, ◌<◌, ◌≡◌, refl, Bool, true, false, ◌&&◌, ◌||◌, [], ◌∷◌, ◌++◌, Option, none, some,
  Bytes, codes, All, length, leb, ◌==◌, ==_iff, arith, if◌then◌else◌,
}
use ouinet.Prelude.ByteTables.{holds_below, holds_below-lt}
use ouinet.Util.Bytes.{to_hex, from_hex, digit_at}
use ouinet.Util.Bytes.RoundTrip.{from_hex-to_hex}

abbrev pub byte_size : ℕ
byte_size = 20

pub record ResourceId : Type 0 where
  pub repr : Bytes

-- `is_hex`, without capital letters.
unfoldable pub is_hex_char : ℕ → Bool
is_hex_char c = leb b'0' c && leb c b'9' || leb b'a' c && leb c b'f'

-- The loop of `sanitize_hex`.
unfoldable pub sanitize_from : Bytes → Option Bytes
unfolding is_hex_char
sanitize_from [] = some []
sanitize_from (c ∷ hex) =
    let rest = sanitize_from hex in
    if is_hex_char c then elim rest [ none ↦ none | some r ↦ some (c ∷ r) ] else none

unfoldable pub sanitize_hex : Bytes → Option Bytes
unfolding sanitize_from
sanitize_hex hex = if length hex == byte_size * 2 then sanitize_from hex else none

-- `from_hex`.
unfoldable pub resource_from_hex : Bytes → Option ResourceId
unfolding sanitize_hex
resource_from_hex hex = elim (sanitize_hex hex) [
  | none ↦ none
  | some repr ↦ some (record { repr = repr })
]

-- `from_url`.
unfoldable pub from_url : (Bytes → Bytes) → Bytes → ResourceId
from_url sha1 url = record { repr = to_hex (sha1 (codes "ouinet-resource-id-salt" ++ url)) }

length-to_hex : (s : Bytes) → length (to_hex s) ≡ length s * 2
unfolding to_hex
length-to_hex [] = omega arith
length-to_hex (c ∷ s) = omega (arith, length-to_hex s)

chars_test : ℕ → Bool
chars_test c = is_hex_char (digit_at (c / 16)) && is_hex_char (digit_at c)

chars_table : holds_below chars_test 256 ≡ true
unfolding holds_below chars_test is_hex_char
chars_table = refl

both : (a b : Bool) → (a && b) ≡ true → (a ≡ true) × (b ≡ true)
both true b h = (refl, h)
both false b h = cc

sanitize_from-to_hex :
    (s : Bytes) → All (λ c. c < 256) s → sanitize_from (to_hex s) ≡ some (to_hex s)
unfolding sanitize_from to_hex chars_test
sanitize_from-to_hex [] h = refl
sanitize_from-to_hex (c ∷ s) h =
    let (high, low) =
      both (is_hex_char (digit_at (c / 16))) (is_hex_char (digit_at c))
        (holds_below-lt chars_test 256 c h.0 chars_table) in
    rw (high, low, sanitize_from-to_hex s h.1) refl

sanitize_hex-to_hex :
    (s : Bytes) → length s ≡ 20 → All (λ c. c < 256) s → sanitize_hex (to_hex s) ≡ some (to_hex s)
unfolding sanitize_hex
sanitize_hex-to_hex s n h =
    let forty : (length (to_hex s) == 40) ≡ true =
      (==_iff (length (to_hex s)) 40).1 (omega (arith, length-to_hex s, n)) in
    rw (forty, sanitize_from-to_hex s h) refl

-- The hexadecimal name of a URL's resource is read back as that resource, and from_hex gives the bytes of the
-- digest, if SHA-1 gives 20 bytes.
pub resource_from_hex-from_url :
    (sha1 : Bytes → Bytes) (url : Bytes)
    → ((s : Bytes) → (length (sha1 s) ≡ 20) × All (λ c. c < 256) (sha1 s))
    → (resource_from_hex (from_url sha1 url).repr ≡ some (from_url sha1 url))
      × (from_hex (from_url sha1 url).repr ≡ some (sha1 (codes "ouinet-resource-id-salt" ++ url)))
unfolding resource_from_hex sanitize_hex from_url
resource_from_hex-from_url sha1 url digests =
    let s = sha1 (codes "ouinet-resource-id-salt" ++ url) in
    let d = digests (codes "ouinet-resource-id-salt" ++ url) in
    (rw (resource_from_hex, sanitize_hex-to_hex s d.0 d.1) refl, from_hex-to_hex s d.1)
