-- ===== src/Http/Split.antt =====
-- src/split_string.h. A view with a null pointer, which ends the iteration, is `none`.
pub mod Fuel
pub mod RoundTrip
use ouinet.Prelude.{
  ℕ, zero, suc, ◌+◌, Bool, true, false, List, [], ◌∷◌, Option, none, some, Bytes, reverse, length,
  ◌==◌, if◌then◌else◌,
}

-- `while (v.starts_with(' ')) v.remove_prefix(1)`.
unfoldable pub trim_front : ℕ → Bytes → Bytes
trim_front c [] = []
trim_front c (b ∷ v) = if b == c then trim_front c v else b ∷ v

-- `while (v.ends_with(' ')) v.remove_suffix(1)`.
unfoldable pub trim_back : ℕ → Bytes → Bytes
unfolding trim_front
trim_back c v = reverse (trim_front c (reverse v))

abbrev pub trim_whitespace : Bytes → Bytes
trim_whitespace v = trim_back b' ' (trim_front b' ' v)

-- `v.find(c)`, with what is before and what is after.
unfoldable pub cut : ℕ → Bytes → Bytes × Option Bytes
cut c [] = ([], none)
cut c (b ∷ v) = let rest = cut c v in if b == c then ([], some v) else (b ∷ rest.0, rest.1)

-- `split_first`.
abbrev pub split_first : Bytes → ℕ → Bytes × Option Bytes
split_first v separator = let (body, rest) = cut separator v in (trim_whitespace body, rest)

-- The bodies from `begin()` to `end()`, on fuel.
pub split_rest : ℕ → Option Bytes → ℕ → List Bytes
unfolding cut
split_rest fuel none separator = []
split_rest zero (some v) separator = []
split_rest (suc fuel) (some v) separator =
    let (body, rest) = split_first v separator in body ∷ split_rest fuel rest separator

-- Each round takes a separator, so that one more round than there are bytes is enough.
unfoldable pub split_string : Bytes → ℕ → List Bytes
unfolding split_rest
split_string v separator = split_rest (suc (length v)) (some v) separator

abbrev pub or_nothing : Option Bytes → Bytes
or_nothing none = []
or_nothing (some v) = v

unfoldable pub split_string_pair : Bytes → ℕ → Bytes × Bytes
unfolding cut
split_string_pair v at =
    let (key, value) = cut at v in (trim_whitespace key, trim_whitespace (or_nothing value))
