-- ===== src/Bittorrent/DhtNode/Put/Arguments.antt =====
-- What the arguments of a "put" that pass its checks are like.
use ouinet.Prelude.{
  ◌≤◌, ◌<◌, ◌≡◌, refl, Bool, true, false, Option, none, some, Bytes, codes, length, arith,
}
use ouinet.Prelude.Int.{ℤ}
use ouinet.Bittorrent.Bencoding.{Value, Entries, as_string}
use ouinet.Bittorrent.Bencoding.Encode.{bencoding_encode}
use ouinet.Bittorrent.Compact.Equality.{endpoint_key}
use ouinet.Bittorrent.MutableData.{
  MutableDataItem, Result, returned, length_error, public_key_size, signature_size,
}
use ouinet.Bittorrent.DhtNode.{Checked, passed, Ensures, read}
use ouinet.Bittorrent.DhtNode.Put.{
  mutable_item, request, Request, update_check, item_checks, salt_argument,
}

-- The item that the arguments describe has the value, the sizes of its key and signature and a short
-- salt.
unfoldable pub IsSized : Value → MutableDataItem → Type 0
IsSized value item =
    (item.value ≡ value)
    × (length item.salt ≤ 64)
    × (length item.public_key ≡ public_key_size)
    × (length item.signature ≡ signature_size)

salt_argument-Ensures : (o : Option Bytes) → Ensures (λ s. length s ≤ 64) (salt_argument o)
salt_argument-Ensures none = omega arith
salt_argument-Ensures (some s) = ground arith

pub mutable_item-IsSized :
    (arguments : Entries) (value : Value) → Ensures (IsSized value) (mutable_item arguments value)
unfolding mutable_item IsSized
mutable_item-IsSized arguments value =
    ground (arith, salt_argument-Ensures (as_string (read arguments (codes "salt"))))

-- The value of a request is short.
unfoldable pub IsShort : Request → Type 0
IsShort r = length (bencoding_encode r.value) < 1000

pub request-IsShort : (arguments : Entries) → Ensures IsShort (request arguments)
unfolding request IsShort
request-IsShort arguments = ground arith

-- The checks pass only for an item whose signature is right and that may replace the one stored.
pub item_checks-passed :
    (b : Result Bool) (item : MutableDataItem) (existing : Option MutableDataItem) (cas : Option ℤ)
    → item_checks b item existing cas ≡ returned (passed tt)
    → (b ≡ returned true) × (update_check item existing cas ≡ passed tt)
item_checks-passed (returned true) item existing cas h = (refl, returned_injective h)
  where
    returned_injective : {x y : Checked (Unit {0})} → returned x ≡ returned y → x ≡ y
    returned_injective h = ground arith
item_checks-passed (returned false) item existing cas h = cc
item_checks-passed length_error item existing cas h = cc
