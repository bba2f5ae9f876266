-- ===== src/Http/Split/RoundTrip.antt =====
-- Splitting what was joined.
use ouinet.Prelude.{
  ℕ, zero, suc, ◌<◌, ◌≡◌, refl, ap, true, false, List, [], ◌∷◌, ◌++◌, none, some, Bytes, All, arith,
  length, length-append, ◌==◌,
}
use ouinet.Http.Split.{cut, trim_whitespace, split_rest, split_string}

-- A text that the separator does not end.
abbrev pub Lacks : ℕ → Bytes → Type 0
Lacks c v = All (λ b. (b == c) ≡ false) v

cut-Lacks : (c : ℕ) (p : Bytes) → Lacks c p → cut c p ≡ (p, none)
unfolding cut
cut-Lacks c [] h = refl
cut-Lacks c (b ∷ p) h = rw (h.0, cut, cut-Lacks c p h.1) refl

cut-append : (c : ℕ) (p v : Bytes) → Lacks c p → cut c (p ++ c ∷ v) ≡ (p, some v)
unfolding cut
cut-append c [] v h = let same : (c == c) ≡ true = ground arith in rw (same, cut) refl
cut-append c (b ∷ p) v h = rw (h.0, cut, cut-append c p v h.1) refl

-- The items with the separator between them.
unfoldable pub join : ℕ → Bytes → List Bytes → Bytes
join c p [] = p
join c p (q ∷ ps) = p ++ c ∷ join c q ps

-- An item is trimmed and lacks the separator.
abbrev pub IsItem : ℕ → Bytes → Type 0
IsItem c p = Lacks c p × (trim_whitespace p ≡ p)

split_rest-join :
    (c fuel : ℕ) (p : Bytes) (ps : List Bytes)
    → IsItem c p
    → All (IsItem c) ps
    → length (join c p ps) < fuel
    → split_rest fuel (some (join c p ps)) c ≡ p ∷ ps
unfolding split_rest join
split_rest-join c zero p ps i h f = absurd (ground arith)
split_rest-join c (suc fuel) p [] i h f = rw (split_rest, cut-Lacks c p i.0, i.1) (last fuel p)
  where
    last : (fuel : ℕ) (p : Bytes) → p ∷ split_rest fuel none c ≡ p ∷ []
    last zero p = refl
    last (suc fuel) p = refl
split_rest-join c (suc fuel) p (q ∷ ps) i h f =
    let shorter : length (join c q ps) < fuel = ground (arith, length-append p (c ∷ join c q ps)) in
    rw (split_rest, cut-append c p (join c q ps) i.0, i.1)
      (ap (λ rest. p ∷ rest) (split_rest-join c fuel q ps h.0 h.1 shorter))

-- The items of a joined text are the ones that were joined, if they are trimmed and lack the separator.
pub split_string-join :
    (c : ℕ) (p : Bytes) (ps : List Bytes)
    → IsItem c p
    → All (IsItem c) ps
    → split_string (join c p ps) c ≡ p ∷ ps
unfolding split_string
split_string-join c p ps i h = split_rest-join c (suc (length (join c p ps))) p ps i h (omega arith)
