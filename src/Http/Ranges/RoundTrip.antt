-- ===== src/Http/Ranges/RoundTrip.antt =====
-- `parse` reads the ranges that a `Range` field lists.
use ouinet.Prelude.{
  ℕ, zero, suc, ◌-◌, ◌<◌, ◌^◌, ◌≡◌, refl, sym, ap, ◌∙◌, false, List, [], ◌∷◌, ◌++◌, some, Bytes,
  codes, All, length, length-append, append_assoc, append-nil, get_or, arith, ◌==◌,
}
use ouinet.Prelude.Decimal.{to_string, to_string-IsDigit, to_string-ne-nil, IsDigit}
use ouinet.Parse.Number.{eight_bytes}
use ouinet.Parse.Number.Spec.{NoDigit, below_zero-NoDigit}
use ouinet.Parse.Number.Signed.{number-to_string}
use ouinet.Http.Split.{trim_front}
use ouinet.Http.Ranges.{
  HttpRequestByteRange, trim_ws, consume, size_number, parse_range, parse_ranges, parse,
}

-- The text of a range, and of a list of ranges with commas between them.
abbrev pub print_range : HttpRequestByteRange → Bytes
print_range r = to_string r.first ++ b'-' ∷ to_string r.last

unfoldable pub print_ranges : HttpRequestByteRange → List HttpRequestByteRange → Bytes
print_ranges r [] = print_range r
print_ranges r (next ∷ ranges) = print_range r ++ b',' ∷ print_ranges next ranges

-- Both ends are less than the largest `size_t`.
abbrev pub Fits : HttpRequestByteRange → Type 0
Fits r = (r.first < 2 ^ 64 - 1) × (r.last < 2 ^ 64 - 1)

-- A digit is not a space.
trim_ws-digits :
    (ds rest : Bytes) → All IsDigit ds → 0 < length ds → trim_ws (ds ++ rest) ≡ ds ++ rest
unfolding trim_front
trim_ws-digits [] rest h l = absurd (ground arith)
trim_ws-digits (d ∷ ds) rest h l =
    let other : (d == b' ') ≡ false = ground arith in rw (other, trim_front) refl

size_number-to_string :
    (past n : ℕ) (rest : Bytes)
    → n < 2 ^ 64 - 1
    → NoDigit rest
    → get_or rest 0 past < 256
    → size_number past (to_string n ++ rest) ≡ some (n, rest)
unfolding size_number
size_number-to_string past n rest h nd behind =
    rw (number-to_string eight_bytes past n rest h nd behind, size_number) refl

-- The text that follows a range: nothing, or a comma.
unfoldable pub IsTail : Bytes → Type 0
IsTail [] = Unit
IsTail (b ∷ rest) = b ≡ b','

IsTail-trim_ws : (rest : Bytes) → IsTail rest → trim_ws rest ≡ rest
unfolding IsTail trim_front
IsTail-trim_ws [] h = refl
IsTail-trim_ws (b ∷ rest) h = rw h refl

IsTail-NoDigit : (rest : Bytes) → IsTail rest → NoDigit rest
unfolding IsTail
IsTail-NoDigit [] h = tt
IsTail-NoDigit (b ∷ rest) h = below_zero-NoDigit b rest (ground arith)

IsTail-get_or : (rest : Bytes) (past : ℕ) → past < 256 → IsTail rest → get_or rest 0 past < 256
unfolding IsTail
IsTail-get_or [] past p h = p
IsTail-get_or (b ∷ rest) past p h = ground arith

hyphen_consumed : (s : Bytes) → consume (trim_ws (b'-' ∷ s)) (codes "-") ≡ some s
unfolding consume trim_front
hyphen_consumed s = refl

parse_range-print_range :
    (past : ℕ) (r : HttpRequestByteRange) (rest : Bytes)
    → Fits r
    → past < 256
    → IsTail rest
    → parse_range past (print_range r ++ rest) ≡ some (r, rest)
unfolding parse_range
parse_range-print_range past r rest f p t =
    let after = to_string r.last ++ rest in
    rw
      (
        append_assoc (to_string r.first) (b'-' ∷ to_string r.last) rest,
        parse_range,
        size_number-to_string past r.first (b'-' ∷ after) f.0
            (below_zero-NoDigit b'-' after (omega arith)) (omega arith),
        hyphen_consumed after,
        trim_ws-digits (to_string r.last) rest (to_string-IsDigit r.last) (to_string-ne-nil r.last),
        size_number-to_string past r.last rest f.1 (IsTail-NoDigit rest t)
            (IsTail-get_or rest past p t),
        IsTail-trim_ws rest t,
      )
      refl

-- A range is not empty.
length-print_range : (r : HttpRequestByteRange) → 0 < length (print_range r)
length-print_range r = omega (arith, length-append (to_string r.first) (b'-' ∷ to_string r.last))

trim_ws-print_ranges :
    (r : HttpRequestByteRange) (ranges : List HttpRequestByteRange)
    → trim_ws (print_ranges r ranges) ≡ print_ranges r ranges
unfolding print_ranges
trim_ws-print_ranges r [] =
    trim_ws-digits (to_string r.first) (b'-' ∷ to_string r.last) (to_string-IsDigit r.first)
      (to_string-ne-nil r.first)
trim_ws-print_ranges r (next ∷ ranges) =
    rw
      (append_assoc (to_string r.first) (b'-' ∷ to_string r.last) (b',' ∷ print_ranges next ranges))
      (trim_ws-digits (to_string r.first)
        (b'-' ∷ (to_string r.last ++ b',' ∷ print_ranges next ranges)) (to_string-IsDigit r.first)
        (to_string-ne-nil r.first))

parse_ranges-print_ranges :
    (past fuel : ℕ) (r : HttpRequestByteRange) (ranges : List HttpRequestByteRange)
    → Fits r
    → All Fits ranges
    → past < 256
    → length (print_ranges r ranges) < fuel
    → parse_ranges past fuel (print_ranges r ranges) ≡ some (r ∷ ranges)
unfolding parse_ranges print_ranges IsTail consume
parse_ranges-print_ranges past zero r ranges f h p l = absurd (ground arith)
parse_ranges-print_ranges past (suc fuel) r [] f h p l =
    let whole : parse_range past (print_range r) ≡ some (r, []) =
      ap (parse_range past) (sym (append-nil (print_range r)))
      ∙ parse_range-print_range past r [] f p tail_end in
    rw (whole, parse_ranges) refl
  where
    tail_end : IsTail []
    tail_end = tt
parse_ranges-print_ranges past (suc fuel) r (next ∷ ranges) f h p l =
    let rest = print_ranges next ranges in
    let shorter : length rest < fuel =
      omega (arith, l, length-append (print_range r) (b',' ∷ rest)) in
    rw
      (
        parse_range-print_range past r (b',' ∷ rest) f p (tail_comma rest),
        parse_ranges,
        trim_ws-print_ranges next ranges,
        parse_ranges-print_ranges past fuel next ranges h.0 h.1 p shorter,
      )
      refl
  where
    tail_comma : (s : Bytes) → IsTail (b',' ∷ s)
    tail_comma s = refl

-- `parse` reads back the text of one or more ranges, if their ends are less than the largest `size_t` and
-- what lies behind the text is a byte.
pub parse-print_ranges :
    (past : ℕ) (r : HttpRequestByteRange) (ranges : List HttpRequestByteRange)
    → Fits r
    → All Fits ranges
    → past < 256
    → parse past (codes "bytes=" ++ print_ranges r ranges) ≡ some (r ∷ ranges)
unfolding parse consume trim_front
parse-print_ranges past r ranges f h p =
    rw (parse, trim_ws-print_ranges r ranges)
      (parse_ranges-print_ranges past (suc (length (print_ranges r ranges))) r ranges f h p
        (omega arith))
