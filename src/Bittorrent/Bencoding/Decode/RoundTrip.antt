-- ===== src/Bittorrent/Bencoding/Decode/RoundTrip.antt =====
-- Decoding undoes encoding.
use ouinet.Prelude.{
  ℕ, zero, suc, ◌+◌, ◌*◌, ◌%◌, ◌^◌, ◌≤◌, ◌<◌, ◌≡◌, refl, sym, subst, ap, ◌∙◌, true, some, [], ◌∷◌,
  ◌++◌, append_assoc, append-nil, Bytes, length, length-append, take_append, drop_append, arith,
  All, length-ne-nil,
}
use ouinet.Prelude.Int.{ℤ, pos}
use ouinet.Prelude.Decimal.{to_string, print_int, IsDigit, to_string-IsDigit, to_string-ne-nil}
use ouinet.Parse.Number.{eight_bytes}
use ouinet.Parse.Number.Spec.{above_nine-NoDigit}
use ouinet.Parse.Number.Signed.{InRange, signed_number-print_int}
use ouinet.Bittorrent.Bencoding.{
  Value, Values, Entries, nil, end, list, map, cons, entry, int, string, depth_limit, length_limit,
}
use ouinet.Bittorrent.Bencoding.Keys.{
  Above, BelowAll, append, snoc, put_above, snoc-BelowAll, BelowAll-end, append-snoc,
}
use ouinet.Bittorrent.Bencoding.Encode.{
  encode, encode_items, encode_entries, encode_string, bencoding_encode,
}
use ouinet.Bittorrent.Bencoding.Decode.{
  Parsed, ok, ◌>>=◌, parse_int, to_parsed, parse_string, take_string, parse_int_value,
  parse_string_value, dispatch, parse_value, parse_items, parse_entries, more, enough_fuel,
  value_of, bencoding_decode,
}

-- What the decoder accepts of a value at a depth: numbers of 64 bits, texts and nesting within the
-- limits, and the keys of a map in ascending order, as a flat_map holds them.
abbrev mutual
  pub Fits : ℕ → Value → Type 0
  Fits d (int n) = (d ≤ depth_limit) × InRange eight_bytes n
  Fits d (string s) = (d ≤ depth_limit) × (length s ≤ length_limit)
  Fits d (list vs) = (d ≤ depth_limit) × FitsItems (suc d) vs
  Fits d (map m) = (d ≤ depth_limit) × FitsEntries (suc d) m

  pub FitsItems : ℕ → Values → Type 0
  FitsItems d nil = Unit {0}
  FitsItems d (cons v vs) = Fits d v × FitsItems d vs

  pub FitsEntries : ℕ → Entries → Type 0
  FitsEntries d end = Unit {0}
  FitsEntries d (entry k v m) = (length k ≤ length_limit) × Fits d v × Above k m × FitsEntries d m

parse_int-print_int :
    (n : ℤ) (c : ℕ) (rest : Bytes)
    → InRange eight_bytes n
    → b'9' < c
    → c < 256
    → parse_int (print_int n ++ c ∷ rest) ≡ ok n (c ∷ rest)
unfolding parse_int
parse_int-print_int n c rest r lo hi =
    ap to_parsed
      (signed_number-print_int eight_bytes 0 n (c ∷ rest) r (above_nine-NoDigit c rest lo) hi)

take_string_append :
    (s rest : Bytes)
    → length s ≤ length_limit
    → take_string (pos (length s)) (s ++ rest) ≡ ok s rest
unfolding take_string
take_string_append s rest h =
    ground (arith, length-append s rest, take_append s rest, drop_append s rest)

parse_string-encode_string :
    (s rest : Bytes) → length s ≤ length_limit → parse_string (encode_string s ++ rest) ≡ ok s rest
unfolding parse_string encode_string print_int
parse_string-encode_string s rest h = rw (append_assoc (to_string (length s)) (b':' ∷ s) rest) (
    ground (
      arith,
      parse_int-print_int (pos (length s)) b':' (s ++ rest) (omega arith) (omega arith)
          (omega arith),
      take_string_append s rest h,
    ))

dispatch-int :
    (s : Bytes) (d : ℕ) (items entries : Parsed Value)
    → d ≤ depth_limit
    → dispatch (b'i' ∷ s) d items entries ≡ parse_int_value s
unfolding dispatch
dispatch-int s d items entries h = ground arith

dispatch-list :
    (s : Bytes) (d : ℕ) (items entries : Parsed Value)
    → d ≤ depth_limit
    → dispatch (b'l' ∷ s) d items entries ≡ items
unfolding dispatch
dispatch-list s d items entries h = ground arith

dispatch-map :
    (s : Bytes) (d : ℕ) (items entries : Parsed Value)
    → d ≤ depth_limit
    → dispatch (b'd' ∷ s) d items entries ≡ entries
unfolding dispatch
dispatch-map s d items entries h = ground arith

dispatch-string :
    (s rest : Bytes) (d : ℕ) (items entries : Parsed Value)
    → d ≤ depth_limit
    → dispatch (encode_string s ++ rest) d items entries
      ≡ parse_string_value (encode_string s ++ rest)
unfolding dispatch encode_string
dispatch-string s rest d items entries h =
    let (c, cs, e) = length-ne-nil (to_string (length s)) (to_string-ne-nil (length s)) in
    let digits : All IsDigit (c ∷ cs) = subst (All IsDigit) e (to_string-IsDigit (length s)) in
    rw e (ground arith)

parse_int_value-encode :
    (n : ℤ) (rest : Bytes)
    → InRange eight_bytes n
    → parse_int_value (print_int n ++ b'e' ∷ rest) ≡ ok (int n) rest
unfolding parse_int_value
parse_int_value-encode n rest r = rw (parse_int-print_int n b'e' rest r (omega arith) (omega arith))

parse_string_value-encode :
    (s rest : Bytes)
    → length s ≤ length_limit
    → parse_string_value (encode_string s ++ rest) ≡ ok (string s) rest
unfolding parse_string_value
parse_string_value-encode s rest h = rw (parse_string-encode_string s rest h)

more-encode_string : (s rest : Bytes) → more (encode_string s ++ rest) ≡ true
unfolding encode_string
more-encode_string s rest =
    let (c, cs, e) = length-ne-nil (to_string (length s)) (to_string-ne-nil (length s)) in
    let digits : All IsDigit (c ∷ cs) = subst (All IsDigit) e (to_string-IsDigit (length s)) in
    rw e (ground arith)

more-encode : (v : Value) (rest : Bytes) → more (encode v ++ rest) ≡ true
unfolding encode
more-encode (int n) rest = refl
more-encode (string s) rest = more-encode_string s rest
more-encode (list vs) rest = refl
more-encode (map m) rest = refl

length-encode : (v : Value) → 0 < length (encode v)
unfolding encode encode_string
length-encode (int n) = omega arith
length-encode (string s) = omega (arith, length-append (to_string (length s)) (b':' ∷ s))
length-encode (list vs) = omega arith
length-encode (map m) = omega arith

append-end : (out : Entries) → append out end ≡ out
append-end end = refl
append-end (entry k v m) = ap (entry k v) (append-end m)

mutual
  unfolding encode parse_value

  parse_value-encode :
      (f : ℕ) (v : Value) (rest : Bytes) (d : ℕ)
      → Fits d v
      → 2 * length (encode v) < f
      → parse_value f (encode v ++ rest) d ≡ ok v rest
  parse_value-encode zero v rest d h l = absurd (omega arith)
  parse_value-encode (suc f) (int n) rest d h l =
      rw (append_assoc (print_int n) (b'e' ∷ []) rest)
        (dispatch-int _ d _ _ h.0 ∙ parse_int_value-encode n rest h.1)
  parse_value-encode (suc f) (string s) rest d h l =
      dispatch-string s rest d _ _ h.0 ∙ parse_string_value-encode s rest h.1
  parse_value-encode (suc f) (list vs) rest d h l =
      let deeper : (d + 1) % 2 ^ 8 ≡ suc d = omega arith in
      rw (append_assoc (encode_items vs) (b'e' ∷ []) rest, deeper)
        (dispatch-list _ d _ _ h.0
          ∙ ap {B = Parsed Value} (λ (p : Parsed Values). p >>= λ r. ok (list r.0) r.1)
              (parse_items-encode f vs rest (suc d) h.1
                (omega (arith, length-append (encode_items vs) (b'e' ∷ [])))))
  parse_value-encode (suc f) (map m) rest d h l =
      let deeper : (d + 1) % 2 ^ 8 ≡ suc d = omega arith in
      rw (append_assoc (encode_entries m) (b'e' ∷ []) rest, deeper)
        (dispatch-map _ d _ _ h.0
          ∙ ap {B = Parsed Value} (λ (p : Parsed Entries). p >>= λ r. ok (map r.0) r.1)
              (parse_entries-encode f m rest (suc d) end h.1 (BelowAll-end m)
                (omega (arith, length-append (encode_entries m) (b'e' ∷ [])))))

  parse_items-encode :
      (f : ℕ) (vs : Values) (rest : Bytes) (d : ℕ)
      → FitsItems d vs
      → suc (2 * length (encode_items vs)) < f
      → parse_items f (encode_items vs ++ b'e' ∷ rest) d ≡ ok vs rest
  parse_items-encode zero vs rest d h l = absurd (omega arith)
  parse_items-encode (suc f) nil rest d h l = refl
  parse_items-encode (suc f) (cons v vs) rest d h l = rw (
    append_assoc (encode v) (encode_items vs) (b'e' ∷ rest),
    more-encode v (encode_items vs ++ b'e' ∷ rest),
    parse_value-encode f v (encode_items vs ++ b'e' ∷ rest) d h.0
        (omega (arith, length-append (encode v) (encode_items vs))),
    parse_items-encode f vs rest d h.1
        (omega (arith, length-append (encode v) (encode_items vs), length-encode v)),
  )

  parse_entries-encode :
      (f : ℕ) (m : Entries) (rest : Bytes) (d : ℕ) (out : Entries)
      → FitsEntries d m
      → BelowAll out m
      → suc (2 * length (encode_entries m)) < f
      → parse_entries f (encode_entries m ++ b'e' ∷ rest) d out ≡ ok (append out m) rest
  parse_entries-encode zero m rest d out h b l = absurd (omega arith)
  parse_entries-encode (suc f) end rest d out h b l = ap (λ o. ok o rest) (sym (append-end out))
  parse_entries-encode (suc f) (entry k v m) rest d out h b l =
      let tail = encode v ++ encode_entries m in
      let total : length (encode_entries (entry k v m)) ≡ length (encode_string k ++ tail) = refl in
      let e = append_assoc (encode_string k) tail (b'e' ∷ rest) in
      let e' = append_assoc (encode v) (encode_entries m) (b'e' ∷ rest) in
      let sizes = length-append (encode_string k) tail in
      let sizes' = length-append (encode v) (encode_entries m) in
      rw (
        e,
        e',
        more-encode_string k (encode v ++ (encode_entries m ++ b'e' ∷ rest)),
        parse_string-encode_string k (encode v ++ (encode_entries m ++ b'e' ∷ rest)) h.0,
        parse_value-encode f v (encode_entries m ++ b'e' ∷ rest) d h.1 (omega arith),
        put_above k v out b.0,
        parse_entries-encode f m rest d (snoc out k v) h.3 (snoc-BelowAll out k v m b.1 h.2)
            (omega (arith, length-encode v)),
        append-snoc out k v m,
      )

-- `bencoding_decode` gives back every value that `bencoding_encode` was given, within the limits.
pub bencoding_decode-encode :
    (v : Value) → Fits 1 v → bencoding_decode (bencoding_encode v) ≡ some v
unfolding bencoding_decode bencoding_encode
bencoding_decode-encode v h = ap value_of (
    subst (λ s. parse_value (enough_fuel (encode v)) s 1 ≡ ok v []) (append-nil (encode v))
      (parse_value-encode (enough_fuel (encode v)) v [] 1 h (omega arith)))
