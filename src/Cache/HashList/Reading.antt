-- ===== src/Cache/HashList/Reading.antt =====
-- What the parser's reads return when the buffer holds a prefix of what is expected.
use ouinet.Prelude.{
  ℕ, zero, suc, ◌+◌, ◌≤◌, ◌<◌, ◌≡◌, ◌⊎◌, refl, sym, subst, true, false, [], ◌∷◌, ◌++◌, Option, none,
  some, Bytes, length, take, drop, ltb, ◌==◌, arith, inl, inr, Bool-cases,
}
use ouinet.Http.Split.RoundTrip.{Lacks}
use ouinet.Cache.HashList.{read_line, read_array}

-- A read of the text `zs` from a buffer, if `ys` is still to come and `ws` follows: nothing is read, since
-- the buffer is too short, or the text is.
abbrev pub Reads : Option (Bytes × Bytes) → Bytes → Bytes → Bytes → ℕ → Bytes → Type 0
Reads result zs ys ws size xs =
    ((result ≡ none) × (length xs < size))
    ⊎ ((r : Bytes) × (result ≡ some (zs, r)) × (r ++ ys ≡ ws) × (length r < length xs))

cons_injective : {x y : ℕ} {xs ys : Bytes} → x ∷ xs ≡ y ∷ ys → (x ≡ y) × (xs ≡ ys)
cons_injective h = (cc, cc)

take-append :
    (xs ys zs ws : Bytes)
    → xs ++ ys ≡ zs ++ ws
    → length zs ≤ length xs
    → (take (length zs) xs ≡ zs) × (drop (length zs) xs ++ ys ≡ ws)
take-append xs ys [] ws h l = (refl, h)
take-append [] ys (z ∷ zs) ws h l = absurd (ground arith)
take-append (x ∷ xs) ys (z ∷ zs) ws h l =
    let (e, rest) = cons_injective h in
    let (t, d) = take-append xs ys zs ws rest (omega arith) in (cc, d)

pub length-drop : (n : ℕ) (xs : Bytes) → n ≤ length xs → length (drop n xs) + n ≡ length xs
length-drop zero xs h = omega arith
length-drop (suc n) [] h = absurd (ground arith)
length-drop (suc n) (x ∷ xs) h = ground (arith, length-drop n xs)

pub read_array-Reads :
    (n : ℕ) (xs ys zs ws : Bytes)
    → 0 < n
    → length zs ≡ n
    → xs ++ ys ≡ zs ++ ws
    → Reads (read_array n xs) zs ys ws n xs
unfolding read_array
read_array-Reads n xs ys zs ws p l h = elim (Bool-cases (ltb (length xs) n)) [
  | inl short ↦ inl (rw short refl, ground arith)
  | inr long ↦
      let enough : length zs ≤ length xs = ground arith in
      let (t, d) = take-append xs ys zs ws h enough in
      let shorter = length-drop (length zs) xs enough in
      inr (
        drop n xs,
        rw (long, sym l, t) refl,
        rw (sym l) d,
        rw (sym l) (omega (arith, shorter, l, p)),
      )
]

pub read_line-Reads :
    (xs ys zs ws : Bytes)
    → Lacks 10 zs
    → xs ++ ys ≡ zs ++ 10 ∷ ws
    → Reads (read_line xs) zs ys ws (suc (length zs)) xs
unfolding read_line
read_line-Reads [] ys zs ws k h = inl (refl, omega arith)
read_line-Reads (x ∷ xs) ys [] ws k h =
    let (e, rest) = cons_injective h in
    let same : (x == 10) ≡ true = ground arith in
    inr (xs, rw (same, read_line) refl, rest, omega arith)
read_line-Reads (x ∷ xs) ys (z ∷ zs) ws k h =
    let (e, rest) = cons_injective h in
    let other : (x == 10) ≡ false = subst (λ y. (y == 10) ≡ false) (sym e) k.0 in
    elim (read_line-Reads xs ys zs ws k.1 rest) [
      | inl (nothing, short) ↦ inl (rw (other, nothing, read_line) refl, omega (arith, short))
      | inr (r, found, follows, shorter) ↦
          inr (r, rw (other, found, sym e, read_line) refl, follows, omega (arith, shorter))
    ]
