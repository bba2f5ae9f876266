-- ===== src/Prelude/Maps.antt =====
-- `std::map` as an association list, read by key.
use mathlib.Core.Bool.{Bool, true, false}
use mathlib.Core.List.{List, [], ◌∷◌}
use mathlib.Core.Option.{Option, none, some, some-injective}
use mathlib.Core.Path.{◌≡◌, refl, subst}
use native.Mathlib.Omega.{arith}
use ouinet.Prelude.Tests.{if◌then◌else◌, if_both}
use ouinet.Prelude.Lists.{All}
use ouinet.Prelude.Eq.{Eq}

module _ {ℓ} {K : Type 0} {V : Type ℓ} ⦃e : Eq K⦄ where
  -- `find`.
  unfoldable pub find : List (K × V) → K → Option V
  find [] k = none
  find (kv ∷ m) k = if e.beq kv.0 k then some kv.1 else find m k

  -- `m[k] = v`.
  unfoldable pub assign : List (K × V) → K → V → List (K × V)
  assign [] k v = (k, v) ∷ []
  assign (kv ∷ m) k v = if e.beq kv.0 k then (k, v) ∷ m else kv ∷ assign m k v

  -- `erase(k)`.
  unfoldable pub erase : List (K × V) → K → List (K × V)
  erase [] k = []
  erase (kv ∷ m) k = if e.beq kv.0 k then erase m k else kv ∷ erase m k

  pub find-assign_same : (m : List (K × V)) (k : K) (v : V) → find (assign m k v) k ≡ some v
  unfolding find assign
  find-assign_same [] k v = ground (arith, e.beq_complete k k refl)
  find-assign_same (kv ∷ m) k v = ground (arith, e.beq_complete k k refl, find-assign_same m k v)

  pub find-assign_other :
      (m : List (K × V)) (k j : K) (v : V) → e.beq k j ≡ false → find (assign m k v) j ≡ find m j
  unfolding find assign
  find-assign_other [] k j v h = ground arith
  find-assign_other (kv ∷ m) k j v h =
      ground (arith, e.beq_sound kv.0 k, find-assign_other m k j v h)

  pub find-erase_same : (m : List (K × V)) (k : K) → find (erase m k) k ≡ none
  unfolding find erase
  find-erase_same [] k = refl
  find-erase_same (kv ∷ m) k = ground (arith, find-erase_same m k)

  pub find-erase_other :
      (m : List (K × V)) (k j : K) → e.beq k j ≡ false → find (erase m k) j ≡ find m j
  unfolding find erase
  find-erase_other [] k j h = refl
  find-erase_other (kv ∷ m) k j h = ground (arith, e.beq_sound kv.0 k, find-erase_other m k j h)

  pub All-assign {κ} :
      (P : K × V → Type κ) (m : List (K × V)) (k : K) (v : V)
      → All P m
      → P (k, v)
      → All P (assign m k v)
  unfolding assign
  All-assign P [] k v h p = (p, tt)
  All-assign P (kv ∷ m) k v h p =
      if_both (All P) (e.beq kv.0 k) _ _ (p, h.1) (h.0, All-assign P m k v h.1 p)

  -- The entry that is found, and its test.
  pub All-find {κ} :
      (Q : V → Type κ) (m : List (K × V)) (k : K) (v : V)
      → All (λ kv. Q kv.1) m
      → find m k ≡ some v
      → Q v
  unfolding find
  All-find Q [] k v h f = cc
  All-find Q (kv ∷ m) k v h f = go (e.beq kv.0 k) f (All-find Q m k v h.1)
    where
      go :
          (b : Bool)
          → (if b then some kv.1 else find m k) ≡ some v
          → (find m k ≡ some v → Q v)
          → Q v
      go true f rest = subst Q (some-injective kv.1 v f) h.0
      go false f rest = rest f
