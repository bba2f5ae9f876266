-- ===== src/Http/Split/Fuel.antt =====
-- The iteration ends within its fuel.
use ouinet.Prelude.{
  ℕ, zero, suc, ◌<◌, ◌≡◌, refl, ap, [], ◌∷◌, none, some, Bytes, length, arith, Option-cases, inl,
  inr,
}
use ouinet.Http.Split.{cut, trim_whitespace, split_rest}

cut-lt : (c : ℕ) (v : Bytes) (rest : Bytes) → (cut c v).1 ≡ some rest → length rest < length v
unfolding cut
cut-lt c [] rest h = cc
cut-lt c (b ∷ v) rest h = ground (arith, cut-lt c v rest)

-- With more rounds than the view has bytes, one more round changes nothing.
pub split_rest-suc :
    (fuel : ℕ) (v : Bytes) (separator : ℕ)
    → length v < fuel
    → split_rest fuel (some v) separator ≡ split_rest (suc fuel) (some v) separator
unfolding split_rest
split_rest-suc zero v separator h = absurd (ground arith)
split_rest-suc (suc fuel) v separator h = elim (Option-cases (cut separator v).1) [
  | inl ends ↦ rw (ends, split_rest) (last fuel)
  | inr (rest, found) ↦
      let shorter = cut-lt separator v rest found in
      rw (found, split_rest)
        (ap (λ items. trim_whitespace (cut separator v).0 ∷ items)
          (split_rest-suc fuel rest separator (omega (arith, shorter, h))))
]
  where
    last :
        (fuel : ℕ)
        → trim_whitespace (cut separator v).0 ∷ split_rest fuel none separator
          ≡ trim_whitespace (cut separator v).0 ∷ []
    last zero = refl
    last (suc fuel) = refl
