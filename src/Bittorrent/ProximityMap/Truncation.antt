-- ===== src/Bittorrent/ProximityMap/Truncation.antt =====
-- Lists that are cut short.
use ouinet.Prelude.{ℕ, zero, suc, ◌≤◌, ◌≡◌, refl, ap, List, [], ◌∷◌, All, length, take, arith}
use ouinet.Bittorrent.ProximityMap.{erase_last}

pub take_all {ℓ} : {A : Type ℓ} (n : ℕ) (xs : List A) → length xs ≤ n → take n xs ≡ xs
take_all zero [] h = refl
take_all zero (x ∷ xs) h = absurd (ground arith)
take_all (suc n) [] h = refl
take_all (suc n) (x ∷ xs) h = ap (λ ys. x ∷ ys) (take_all n xs (omega arith))

pub All-take {ℓ} :
    {A : Type ℓ} (P : A → Type 0) (n : ℕ) (xs : List A) → All P xs → All P (take n xs)
All-take P zero xs h = tt
All-take P (suc n) [] h = tt
All-take P (suc n) (x ∷ xs) h = (h.0, All-take P n xs h.1)

pub length-take-le {ℓ} : {A : Type ℓ} (n : ℕ) (xs : List A) → length (take n xs) ≤ n
length-take-le zero xs = omega arith
length-take-le (suc n) [] = omega arith
length-take-le (suc n) (x ∷ xs) = omega (arith, length-take-le n xs)

pub take-erase_last {ℓ} :
    {A : Type ℓ} (n : ℕ) (xs : List A) → length xs ≡ suc n → take n xs ≡ erase_last xs
unfolding erase_last
take-erase_last zero [] h = refl
take-erase_last zero (x ∷ []) h = refl
take-erase_last zero (x ∷ (y ∷ xs)) h = absurd (ground arith)
take-erase_last (suc n) [] h = absurd (ground arith)
take-erase_last (suc n) (x ∷ []) h = absurd (ground arith)
take-erase_last (suc n) (x ∷ (y ∷ xs)) h =
    ap (λ ys. x ∷ ys) (take-erase_last n (y ∷ xs) (ground arith))
