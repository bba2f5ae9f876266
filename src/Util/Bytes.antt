-- ===== src/Util/Bytes.antt =====
-- src/util/bytes.h: bytes in hexadecimal and in printable text.
pub mod RoundTrip
use ouinet.Prelude.{
  ℕ, ◌+◌, ◌-◌, ◌*◌, ◌/◌, ◌%◌, Bool, true, false, not, ◌&&◌, ◌||◌, List, [], ◌∷◌, ◌++◌, Option, none,
  some, Bytes, codes, reverse, get_or, any, leb, ◌==◌, if◌then◌else◌,
}

abbrev pub hex_digits : Bytes
hex_digits = codes "0123456789abcdef"

abbrev pub digit_at : ℕ → ℕ
digit_at n = get_or hex_digits (n % 16) 0

-- `to_hex`.
unfoldable pub to_hex : Bytes → Bytes
to_hex [] = []
to_hex (c ∷ s) = digit_at (c / 16) ∷ digit_at c ∷ to_hex s

-- `is_hex`.
unfoldable pub is_hex : Bytes → Bool
is_hex [] = true
is_hex (c ∷ s) = if any (λ d. d == c) (codes "0123456789abcdefABCDEF") then is_hex s else false

-- `from_hex` of a character, and of two.
unfoldable pub from_hex_digit : ℕ → Option ℕ
from_hex_digit c =
    if leb b'0' c && leb c b'9'
    then some (c - b'0')
    else if leb b'a' c && leb c b'f'
    then some (10 + c - b'a')
    else if leb b'A' c && leb c b'F'
    then some (10 + c - b'A')
    else none

unfoldable pub from_hex_digits : ℕ → ℕ → Option ℕ
unfolding from_hex_digit
from_hex_digits c1 c2 = elim (from_hex_digit c1) [
  | none ↦ none
  | some n1 ↦ elim (from_hex_digit c2) [ none ↦ none | some n2 ↦ some (n1 * 16 + n2) ]
]

-- `from_hex` of a text, whose last character may stand alone.
unfoldable pub from_hex : Bytes → Option Bytes
unfolding from_hex_digits
from_hex [] = some []
from_hex (c ∷ []) = elim (from_hex_digit c) [ none ↦ none | some n ↦ some (n ∷ []) ]
from_hex (c1 ∷ c2 ∷ hex) = elim (from_hex_digits c1 c2) [
  | none ↦ none
  | some n ↦ elim (from_hex hex) [ none ↦ none | some s ↦ some (n ∷ s) ]
]

-- `to_printable`.
unfoldable pub to_printable : Bytes → Bytes
to_printable [] = []
to_printable (c ∷ s) =
    let rest = to_printable s in
    if (c == b'\\') || (c == b'"')
    then b'\\' ∷ c ∷ rest
    else if leb b' ' c && leb c b'~'
    then c ∷ rest
    else b'\\' ∷ b'x' ∷ digit_at (c / 16) ∷ digit_at c ∷ rest

-- The loop of `from_printable`; the two digits behind `\x` are there or the text is refused.
unfoldable pub unescape : Bytes → Option Bytes
unfolding from_hex_digits
unescape [] = some []
unescape (c ∷ []) = some (c ∷ [])
unescape (c ∷ x ∷ []) = if (c == b'\\') && (x == b'x') then none else some (c ∷ x ∷ [])
unescape (c ∷ x ∷ d ∷ []) =
    if (c == b'\\') && (x == b'x')
    then none
    else elim (unescape (x ∷ d ∷ [])) [ none ↦ none | some s ↦ some (c ∷ s) ]
unescape (c ∷ x ∷ d ∷ e ∷ s) = elim ((c == b'\\') && (x == b'x')) [
  | true ↦ elim (from_hex_digits d e) [
    | none ↦ none
    | some n ↦ elim (unescape s) [ none ↦ none | some r ↦ some (n ∷ r) ]
  ]
  | false ↦ elim (unescape (x ∷ d ∷ e ∷ s)) [ none ↦ none | some r ↦ some (c ∷ r) ]
]

-- `from_printable`, of a text between quotes.
unfoldable pub from_printable : Bytes → Option Bytes
unfolding unescape
from_printable [] = none
from_printable (q ∷ s) =
    if not (q == b'"')
    then none
    else elim (reverse s) [ [] ↦ none | p ∷ r ↦ if p == b'"' then unescape (reverse r) else none ]
