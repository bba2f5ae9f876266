-- ===== src/Http/Ranges/Fuel.antt =====
-- The loop over the ranges ends within its fuel.
use ouinet.Prelude.{
  ℕ, zero, suc, ◌≤◌, ◌<◌, ◌≡◌, refl, ap, subst, [], ◌∷◌, Option, none, some, Bytes, codes, length,
  arith, ◌==◌, Bool-cases, inl, inr,
}
use ouinet.Parse.Number.{eight_bytes, number}
use ouinet.Parse.Number.Length.{length-number}
use ouinet.Http.Split.{trim_front}
use ouinet.Http.Ranges.{
  HttpRequestByteRange, trim_ws, consume, with_view, size_number, parse_range, parse_ranges, ◌>>=◌,
}

length-trim_ws : (s : Bytes) → length (trim_ws s) ≤ length s
unfolding trim_front
length-trim_ws [] = omega arith
length-trim_ws (b ∷ s) = ground (arith, length-trim_ws s)

-- What is left is shorter.
abbrev Shorter : ℕ → Option Bytes → Type 0
Shorter size none = Unit
Shorter size (some rest) = length rest < size

consume-Shorter : (b : ℕ) (s : Bytes) → Shorter (length s) (consume s (b ∷ []))
unfolding consume
consume-Shorter b [] = tt
consume-Shorter b (c ∷ s) = elim (Bool-cases (c == b)) [
  | inl same ↦ rw (same, consume) (omega arith)
  | inr other ↦ rw (other, consume) tt
]

abbrev Within : ℕ → Option (ℕ × Bytes) → Type 0
Within size none = Unit
Within size (some r) = length r.1 ≤ size

size_number-Within : (past : ℕ) (s : Bytes) → Within (length s) (size_number past s)
unfolding size_number
size_number-Within past s = go (number eight_bytes past s) (length-number eight_bytes past s)
  where
    go : (r : Option ℕ × Bytes) → length r.1 ≤ length s → Within (length s) (with_view r)
    go (none, rest) h = tt
    go (some n, rest) h = h

bind_both :
    {A : Type 0} {B : Type 0} (P : Option B → Type 0) (o : Option A) (f : A → Option B)
    → P none
    → ((a : A) → o ≡ some a → P (f a))
    → P (o >>= f)
bind_both P none f p q = p
bind_both P (some a) f p q = q a refl

abbrev Less : ℕ → Option (HttpRequestByteRange × Bytes) → Type 0
Less size none = Unit
Less size (some r) = length r.1 < size

parse_range-Less : (past : ℕ) (s : Bytes) → Less (length s) (parse_range past s)
unfolding parse_range
parse_range-Less past s = bind_both (Less (length s)) (size_number past s) _ tt λ first e.
    bind_both (Less (length s)) (consume (trim_ws first.1) (codes "-")) _ tt λ after f.
      bind_both (Less (length s)) (size_number past (trim_ws after)) _ tt λ last g.
        let a : length first.1 ≤ length s =
          subst (Within (length s)) e (size_number-Within past s) in
        let b : length after < length (trim_ws first.1) =
          subst (Shorter (length (trim_ws first.1))) f (consume-Shorter b'-' (trim_ws first.1)) in
        let c : length last.1 ≤ length (trim_ws after) =
          subst (Within (length (trim_ws after))) g (size_number-Within past (trim_ws after)) in
        omega (arith, a, b, c, length-trim_ws first.1, length-trim_ws after, length-trim_ws last.1)

-- With more rounds than the view has bytes, one more round changes nothing.
pub parse_ranges-suc :
    (past fuel : ℕ) (s : Bytes)
    → length s < fuel
    → parse_ranges past fuel s ≡ parse_ranges past (suc fuel) s
unfolding parse_ranges
parse_ranges-suc past zero s h = absurd (ground arith)
parse_ranges-suc past (suc fuel) s h =
    go (parse_range past s) (parse_range-Less past s)
      (λ rest x. parse_ranges-suc past fuel rest (omega (arith, x, h)))
  where
    again :
        (r : HttpRequestByteRange) (o : Option Bytes) (size : ℕ)
        → Shorter size o
        → ((rest : Bytes)
            → length rest < size
            → parse_ranges past fuel rest ≡ parse_ranges past (suc fuel) rest)
        → (elim o [
          | none ↦ some (r ∷ [])
          | some rest ↦ elim (parse_ranges past fuel (trim_ws rest)) [
            | none ↦ none
            | some ranges ↦ some (r ∷ ranges)
          ]
        ])
          ≡ (elim o [
            | none ↦ some (r ∷ [])
            | some rest ↦ elim (parse_ranges past (suc fuel) (trim_ws rest)) [
              | none ↦ none
              | some ranges ↦ some (r ∷ ranges)
            ]
          ])
    again r none size x rest = refl
    again r (some t) size x rest =
        ap (λ o. elim o [ none ↦ none | some ranges ↦ some (r ∷ ranges) ])
          (rest (trim_ws t) (omega (arith, x, length-trim_ws t)))

    go :
        (o : Option (HttpRequestByteRange × Bytes))
        → Less (length s) o
        → ((rest : Bytes)
            → length rest < length s
            → parse_ranges past fuel rest ≡ parse_ranges past (suc fuel) rest)
        → (elim o [
          | none ↦ none
          | some r ↦ elim (consume r.1 (codes ",")) [
            | none ↦ some (r.0 ∷ [])
            | some rest ↦ elim (parse_ranges past fuel (trim_ws rest)) [
              | none ↦ none
              | some ranges ↦ some (r.0 ∷ ranges)
            ]
          ]
        ])
          ≡ (elim o [
            | none ↦ none
            | some r ↦ elim (consume r.1 (codes ",")) [
              | none ↦ some (r.0 ∷ [])
              | some rest ↦ elim (parse_ranges past (suc fuel) (trim_ws rest)) [
                | none ↦ none
                | some ranges ↦ some (r.0 ∷ ranges)
              ]
            ]
          ])
    go none x rest = refl
    go (some r) x rest =
        again r.0 (consume r.1 (codes ",")) (length r.1) (consume-Shorter b',' r.1)
          (λ t y. rest t (omega (arith, x, y)))
