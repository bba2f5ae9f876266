-- ===== src/Tests/Bencode.antt =====
-- src/bittorrent/bencoding.cpp at concrete inputs.
use ouinet.Prelude.{◌≡◌, refl, some, [], codes, arith}
use ouinet.Prelude.Decimal.{to_string, print_int}
use ouinet.Prelude.Int.{negsuc}
use ouinet.Bittorrent.Bencoding.{Value, int, string, list, map, nil, cons, end, entry, key_lt}
use ouinet.Bittorrent.Bencoding.Encode.{bencoding_encode}
use ouinet.Bittorrent.Bencoding.Decode.{bencoding_decode, parse_value, enough_fuel}
use ouinet.Bittorrent.Bencoding.Decode.Fuel.{Ends, parse_value-Ends}
use ouinet.Bittorrent.Bencoding.Decode.RoundTrip.{bencoding_decode-encode}

-- A query with a negative number, an empty text and a list.
abbrev query : Value
query = map (
    entry (codes "a") (list (cons (int (negsuc 4)) (cons (string []) nil)))
      (entry (codes "q") (string (codes "ping")) end))

encoded_query : bencoding_encode query ≡ codes "d1:ali-5e0:e1:q4:pinge"
unfolding bencoding_encode to_string print_int
encoded_query = refl

bencoding_decode-encode_example : bencoding_decode (bencoding_encode query) ≡ some query
unfolding key_lt
bencoding_decode-encode_example = bencoding_decode-encode query (
  omega arith,
  (
    omega arith,
    (omega arith, ((omega arith, omega arith), ((omega arith, omega arith), tt))),
    (refl, tt),
    (omega arith, (omega arith, omega arith), tt, tt),
  ),
)

parse_value-Ends_example : Ends 7 (parse_value (enough_fuel (codes "li1e1:x")) (codes "li1e1:x") 1)
parse_value-Ends_example = parse_value-Ends (codes "li1e1:x") 1
