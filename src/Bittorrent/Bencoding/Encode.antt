-- ===== src/Bittorrent/Bencoding/Encode.antt =====
-- `BencodedValueVisitor` and `bencoding_encode`.
use ouinet.Prelude.{[], ◌∷◌, ◌++◌, Bytes, length}
use ouinet.Prelude.Decimal.{to_string, print_int}
use ouinet.Bittorrent.Bencoding.{
  Value, Values, Entries, int, string, list, map, nil, cons, end, entry,
}

unfoldable pub encode_string : Bytes → Bytes
encode_string s = to_string (length s) ++ b':' ∷ s

unfoldable mutual
  unfolding encode_string

  pub encode : Value → Bytes
  encode (int n) = b'i' ∷ print_int n ++ b'e' ∷ []
  encode (string s) = encode_string s
  encode (list vs) = b'l' ∷ encode_items vs ++ b'e' ∷ []
  encode (map m) = b'd' ∷ encode_entries m ++ b'e' ∷ []

  pub encode_items : Values → Bytes
  encode_items nil = []
  encode_items (cons v vs) = encode v ++ encode_items vs

  pub encode_entries : Entries → Bytes
  encode_entries end = []
  encode_entries (entry k v m) = encode_string k ++ (encode v ++ encode_entries m)

unfoldable pub bencoding_encode : Value → Bytes
unfolding encode encode_items encode_entries
bencoding_encode v = encode v
