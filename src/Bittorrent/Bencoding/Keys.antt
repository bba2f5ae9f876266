-- ===== src/Bittorrent/Bencoding/Keys.antt =====
-- Entries in ascending order of their keys, and what `put` does at the end of them.
use ouinet.Prelude.{◌≡◌, refl, ap, true, false, [], ◌∷◌, arith, Bytes}
use ouinet.Bittorrent.Bencoding.{Value, Entries, put, end, entry, key_lt}

-- The keys of `m` are above `k`.
abbrev pub Above : Bytes → Entries → Type 0
Above k end = Unit {0}
Above k (entry j w m) = (key_lt k j ≡ true) × Above k m

-- `std::string::operator<` is asymmetric.
key_lt_asymm : (s t : Bytes) → key_lt s t ≡ true → key_lt t s ≡ false
unfolding key_lt
key_lt_asymm [] [] h = cc
key_lt_asymm [] (d ∷ t) h = refl
key_lt_asymm (c ∷ s) [] h = cc
key_lt_asymm (c ∷ s) (d ∷ t) h = ground (arith, key_lt_asymm s t)

-- The keys of `m` are below `k`.
abbrev pub Below : Entries → Bytes → Type 0
Below end k = Unit {0}
Below (entry j w m) k = (key_lt j k ≡ true) × Below m k

abbrev pub snoc : Entries → Bytes → Value → Entries
snoc end k v = entry k v end
snoc (entry j w m) k v = entry j w (snoc m k v)

abbrev pub append : Entries → Entries → Entries
append end m = m
append (entry k v out) m = entry k v (append out m)

abbrev pub BelowAll : Entries → Entries → Type 0
BelowAll out end = Unit {0}
BelowAll out (entry k v m) = Below out k × BelowAll out m

pub put_above : (k : Bytes) (v : Value) (out : Entries) → Below out k → put k v out ≡ snoc out k v
unfolding put
put_above k v end h = refl
put_above k v (entry j w m) h = ground (arith, key_lt_asymm j k, put_above k v m)

snoc-Below :
    (out : Entries) (k j : Bytes) (v : Value)
    → Below out j
    → key_lt k j ≡ true
    → Below (snoc out k v) j
snoc-Below end k j v h e = (e, tt)
snoc-Below (entry i w m) k j v h e = (h.0, snoc-Below m k j v h.1 e)

pub snoc-BelowAll :
    (out : Entries) (k : Bytes) (v : Value) (m : Entries)
    → BelowAll out m
    → Above k m
    → BelowAll (snoc out k v) m
snoc-BelowAll out k v end h a = tt
snoc-BelowAll out k v (entry j w m) h a =
    (snoc-Below out k j v h.0 a.0, snoc-BelowAll out k v m h.1 a.1)

pub BelowAll-end : (m : Entries) → BelowAll end m
BelowAll-end end = tt
BelowAll-end (entry k v m) = (tt, BelowAll-end m)

pub append-snoc :
    (out : Entries) (k : Bytes) (v : Value) (m : Entries)
    → append (snoc out k v) m ≡ append out (entry k v m)
append-snoc end k v m = refl
append-snoc (entry j w out) k v m = ap (entry j w) (append-snoc out k v m)
