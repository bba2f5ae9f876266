-- ===== src/Http/Ranges.antt =====
-- `HttpRequestByteRange::parse` and `HttpResponseByteRange::matches_length` of src/http_util.cpp. `past`
-- is the byte behind the view.
pub mod Fuel
pub mod RoundTrip
use ouinet.Prelude.{
  ℕ, zero, suc, Bool, true, false, not, List, [], ◌∷◌, ◌++◌, Option, none, some, Bytes, codes,
  length, ◌==◌, if◌then◌else◌,
}
use ouinet.Parse.Number.{Width, eight_bytes, number}
use ouinet.Http.Split.{trim_front}

pub record HttpRequestByteRange : Type 0 where
  pub first : ℕ
  pub last : ℕ

abbrev pub trim_ws : Bytes → Bytes
trim_ws s = trim_front b' ' s

-- `consume`: what is left behind the text `what`.
unfoldable pub consume : Bytes → Bytes → Option Bytes
consume s [] = some s
consume [] (w ∷ what) = none
consume (b ∷ s) (w ∷ what) = let rest = consume s what in if b == w then rest else none

infixl 5 ◌>>=◌
abbrev pub ◌>>=◌ : {A B : Type 0} → Option A → (A → Option B) → Option B
none >>= f = none
some a >>= f = f a

-- `parse::number<size_t>(s)`, with the view that it leaves.
abbrev pub with_view : Option ℕ × Bytes → Option (ℕ × Bytes)
with_view (none, s) = none
with_view (some n, s) = some (n, s)

unfoldable pub size_number : ℕ → Bytes → Option (ℕ × Bytes)
size_number past s = with_view (number eight_bytes past s)

-- A round of the loop: the range, and the view before the comma.
unfoldable pub parse_range : ℕ → Bytes → Option (HttpRequestByteRange × Bytes)
unfolding consume size_number
parse_range past s = do
  first ← size_number past s
  after ← consume (trim_ws first.1) (codes "-")
  last ← size_number past (trim_ws after)
  some (record { first = first.0; last = last.0 }, trim_ws last.1)

-- The loop, on fuel.
unfoldable pub parse_ranges : ℕ → ℕ → Bytes → Option (List HttpRequestByteRange)
unfolding parse_range consume
parse_ranges past zero s = none
parse_ranges past (suc fuel) s = elim (parse_range past s) [
  | none ↦ none
  | some r ↦ elim (consume r.1 (codes ",")) [
    | none ↦ some (r.0 ∷ [])
    | some rest ↦ elim (parse_ranges past fuel (trim_ws rest)) [
      | none ↦ none
      | some ranges ↦ some (r.0 ∷ ranges)
    ]
  ]
]

-- Each round takes a hyphen, so that one more round than there are bytes is enough.
unfoldable pub parse : ℕ → Bytes → Option (List HttpRequestByteRange)
unfolding consume parse_ranges
parse past s = do
  units ← consume (trim_ws s) (codes "bytes")
  set ← consume (trim_ws units) (codes "=")
  parse_ranges past (suc (length set)) (trim_ws set)

-- `matches_length`, of a response's range whose length may be unknown.
unfoldable pub matches_length : Option ℕ → ℕ → Bool
matches_length none size = false
matches_length (some length) size = length == size

abbrev pub matches_parsed : Option ℕ → Option ℕ → Bool
matches_parsed range_length (some size) = matches_length range_length size
matches_parsed (some length) none = false
matches_parsed none none = true

unfoldable pub matches_length_text : ℕ → Option ℕ → Bytes → Bool
unfolding matches_length
matches_length_text past range_length text =
    matches_parsed range_length (number eight_bytes past text).0
