-- ===== src/Bittorrent/Bencoding/Decode/Fuel.antt =====
-- The decoder ends: each round of its loops erases a byte, so twice the length of the text is enough.
use ouinet.Prelude.{
  ℕ, zero, suc, ◌+◌, ◌*◌, ◌%◌, ◌^◌, ◌≤◌, ◌<◌, ◌≡◌, refl, if_both, false, [], ◌∷◌, Bytes, length,
  length-drop-le, drop, arith, is_empty,
}
use ouinet.Prelude.Int.{ℤ}
use ouinet.Parse.Number.{eight_bytes}
use ouinet.Parse.Number.Length.{length-signed_number}
use ouinet.Bittorrent.Bencoding.{Value, Values, Entries, put, nil, end, list, map, cons}
use ouinet.Bittorrent.Bencoding.Decode.{
  Parsed, ok, fail, stuck, ◌>>=◌, parse_int, parse_string, take_string, parse_int_value,
  parse_string_value, dispatch, parse_value, parse_items, parse_entries, close, more, size_of,
  enough_fuel,
}

-- A result leaves fewer bytes than `n`, and the fuel did not run out.
abbrev pub Ends {ℓ} : {A : Type ℓ} → ℕ → Parsed A → Type 0
Ends n (ok a rest) = length rest < n
Ends n fail = Unit {0}
Ends n stuck = ⊥

Ends-bind {ℓ κ} :
    {A : Type ℓ} {B : Type κ} (k n : ℕ) (m : Parsed A) (f : A × Bytes → Parsed B)
    → Ends k m
    → ((a : A) (rest : Bytes) → length rest < k → Ends n (f (a, rest)))
    → Ends n (m >>= f)
Ends-bind k n (ok a rest) f h g = g a rest h
Ends-bind k n fail f h g = tt
Ends-bind k n stuck f h g = absurd h

length-drop_one :
    (s : Bytes) (n : ℕ) → length s < suc n → is_empty s ≡ false → length (drop 1 s) < n
length-drop_one [] n h e = cc
length-drop_one (c ∷ s) n h e = omega arith

parse_int-Ends : (s : Bytes) → Ends (suc (length s)) (parse_int s)
unfolding parse_int
parse_int-Ends s = ground (arith, length-signed_number eight_bytes 0 s)

parse_int_value-Ends : (s : Bytes) → Ends (length s) (parse_int_value s)
unfolding parse_int_value
parse_int_value-Ends s =
    Ends-bind (suc (length s)) (length s) (parse_int s) _ (parse_int-Ends s)
      λ n rest h. ground (arith, length-drop_one rest (length s))

take_string-Ends : (n : ℤ) (s : Bytes) → Ends (suc (length s)) (take_string n s)
unfolding take_string
take_string-Ends n s = ground (arith, length-drop-le (size_of n) s)

parse_string-Ends : (s : Bytes) → Ends (length s) (parse_string s)
unfolding parse_string
parse_string-Ends s =
    Ends-bind (suc (length s)) (length s) (parse_int s) _ (parse_int-Ends s)
      λ n rest h. ground (arith, length-drop_one rest (length s), take_string-Ends n (drop 1 rest))

parse_string_value-Ends : (s : Bytes) → Ends (length s) (parse_string_value s)
unfolding parse_string_value
parse_string_value-Ends s =
    Ends-bind (length s) (length s) (parse_string s) _ (parse_string-Ends s) λ v rest h. h

length-drop-ne-nil : (s : Bytes) → is_empty s ≡ false → suc (length (drop 1 s)) ≡ length s
length-drop-ne-nil [] e = cc
length-drop-ne-nil (c ∷ s) e = refl

Ends-mono {ℓ} : {A : Type ℓ} (k n : ℕ) (m : Parsed A) → k ≤ n → Ends k m → Ends n m
Ends-mono k n (ok a rest) h e = omega arith
Ends-mono k n fail h e = tt
Ends-mono k n stuck h e = e

close-Ends {ℓ} : {A : Type ℓ} (a : A) (s : Bytes) → Ends (length s) (close a s)
close-Ends a s = ground (arith, length-drop-ne-nil s)

dispatch-Ends :
    (s : Bytes) (d : ℕ) (items entries : Parsed Value)
    → (is_empty s ≡ false → Ends (length s) items)
    → (is_empty s ≡ false → Ends (length s) entries)
    → Ends (length s) (dispatch s d items entries)
unfolding dispatch
dispatch-Ends [] d items entries hi he = tt
dispatch-Ends (c ∷ s) d items entries hi he = ground (
  arith,
  parse_string_value-Ends (c ∷ s),
  Ends-mono (length s) (suc (length s)) (parse_int_value s) (omega arith) (parse_int_value-Ends s),
  hi refl,
  he refl,
)

mutual
  unfolding parse_value parse_items parse_entries

  parse_value-Ends_fuel :
      (f : ℕ) (s : Bytes) (d : ℕ) → 2 * length s < f → Ends (length s) (parse_value f s d)
  parse_value-Ends_fuel zero s d h = absurd (omega arith)
  parse_value-Ends_fuel (suc f) s d h =
      let deeper = (d + 1) % 2 ^ 8 in
      let inner = drop 1 s in
      dispatch-Ends s d (parse_items f inner deeper >>= λ r. ok (list r.0) r.1)
        (parse_entries f inner deeper end >>= λ r. ok (map r.0) r.1)
        (λ e.
          let l = length-drop-ne-nil s e in
          Ends-bind (length inner) (length s) (parse_items f inner deeper) (λ r. ok (list r.0) r.1)
            (parse_items-Ends_fuel f inner deeper (omega arith)) λ v rest k. omega arith)
        (λ e.
          let l = length-drop-ne-nil s e in
          Ends-bind (length inner) (length s) (parse_entries f inner deeper end)
            (λ r. ok (map r.0) r.1) (parse_entries-Ends_fuel f inner deeper end (omega arith))
            λ v rest k. omega arith)

  parse_items-Ends_fuel :
      (f : ℕ) (s : Bytes) (d : ℕ) → suc (2 * length s) < f → Ends (length s) (parse_items f s d)
  parse_items-Ends_fuel zero s d h = absurd (omega arith)
  parse_items-Ends_fuel (suc f) s d h =
      let P : Parsed Values → Type 0 = Ends (length s) in
      if_both P (more s) _ _
        (Ends-bind (length s) (length s) (parse_value f s d) _
          (parse_value-Ends_fuel f s d (omega arith))
          λ v rest k.
            Ends-bind (length rest) (length s) (parse_items f rest d) (λ r. ok (cons v r.0) r.1)
              (parse_items-Ends_fuel f rest d (omega arith)) λ vs left j. omega arith)
        (close-Ends nil s)

  parse_entries-Ends_fuel :
      (f : ℕ) (s : Bytes) (d : ℕ) (output : Entries)
      → suc (2 * length s) < f
      → Ends (length s) (parse_entries f s d output)
  parse_entries-Ends_fuel zero s d output h = absurd (omega arith)
  parse_entries-Ends_fuel (suc f) s d output h =
      let P : Parsed Entries → Type 0 = Ends (length s) in
      if_both P (more s) _ _
        (Ends-bind (length s) (length s) (parse_string s) _ (parse_string-Ends s) λ k rest j.
          Ends-bind (length rest) (length s) (parse_value f rest d) _
            (parse_value-Ends_fuel f rest d (omega arith))
            λ v left i.
              Ends-mono _ _ (parse_entries f left d (put k v output)) (omega arith)
                (parse_entries-Ends_fuel f left d (put k v output) (omega arith)))
        (close-Ends output s)

-- The decoder never runs out of fuel, and a value that it returns took at least one byte.
pub parse_value-Ends :
    (encoded : Bytes) (depth : ℕ)
    → Ends (length encoded) (parse_value (enough_fuel encoded) encoded depth)
parse_value-Ends encoded depth =
    parse_value-Ends_fuel (enough_fuel encoded) encoded depth (omega arith)
