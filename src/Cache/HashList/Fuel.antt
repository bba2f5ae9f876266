-- ===== src/Cache/HashList/Fuel.antt =====
-- The inner loop of the parser ends within its fuel.
use ouinet.Prelude.{
  ℕ, zero, suc, ◌≤◌, ◌<◌, ◌≡◌, refl, not, [], ◌∷◌, none, some, Bytes, length, drop, arith,
  Option-cases, if_both, option_both, inl, inr, Bool-cases, ltb, ◌==◌, if◌then◌else◌,
}
use ouinet.Bittorrent.NodeId.{id_eq}
use ouinet.Cache.HashList.Reading.{length-drop}
use ouinet.Cache.HashList.{
  Loading, Round, stuck, bad_message, progress, round, rounds, read_line, read_array, magic,
  digest_size, signature_size, max_line_size_bytes,
}

read_line-lt : (s line rest : Bytes) → read_line s ≡ some (line, rest) → length rest < length s
unfolding read_line
read_line-lt [] line rest h = cc
read_line-lt (b ∷ s) line rest h = elim (Bool-cases (b == 10)) [
  | inl nl ↦ ground arith
  | inr other ↦ elim (Option-cases (read_line s)) [
    | inl nothing ↦ absurd (ground arith)
    | inr (r, found) ↦ let shorter = read_line-lt s r.0 r.1 found in ground (arith, shorter)
  ]
]

read_array-lt :
    (n : ℕ) (s : Bytes) (r : Bytes × Bytes)
    → 0 < n
    → read_array n s ≡ some r
    → length r.1 < length s
unfolding read_array
read_array-lt n s r p h = elim (Bool-cases (ltb (length s) n)) [
  | inl short ↦ absurd (ground arith)
  | inr long ↦
      let enough : n ≤ length s = ground arith in
      let shorter = length-drop n s enough in
      let e : drop n s ≡ r.1 = ground arith in rw (← e) (omega (arith, shorter, p))
]

-- What is left of the buffer after a round with progress.
abbrev Shorter : ℕ → Round → Type 0
Shorter size stuck = Unit
Shorter size bad_message = Unit
Shorter size (progress s) = length s.buffer < size

round-Shorter : (s : Loading) → Shorter (length s.buffer) (round s)
unfolding round
round-Shorter s =
    if_both (Shorter (length s.buffer)) (not s.magic_checked) _ _
      (option_both (Shorter (length s.buffer)) (read_line s.buffer) _ _ tt λ r found.
        if_both (Shorter (length s.buffer)) (id_eq r.0 magic) _ _
          (read_line-lt s.buffer r.0 r.1 found) tt)
      (option_both (Shorter (length s.buffer)) s.digest _ _
        (option_both (Shorter (length s.buffer)) (read_array digest_size s.buffer) _ _ tt
          λ r found. read_array-lt digest_size s.buffer r (omega arith) found)
        λ d held.
          option_both (Shorter (length s.buffer)) (read_array signature_size s.buffer) _ _ tt
            λ r found. read_array-lt signature_size s.buffer r (omega arith) found)

-- With more rounds than the buffer has bytes, one more round changes nothing.
pub rounds-suc :
    (fuel : ℕ) (s : Loading) → length s.buffer < fuel → rounds fuel s ≡ rounds (suc fuel) s
unfolding rounds
rounds-suc zero s h = absurd (ground arith)
rounds-suc (suc fuel) s h =
    go (round s) (round-Shorter s) (λ s' x. rounds-suc fuel s' (omega (arith, x, h)))
  where
    go :
        (r : Round)
        → Shorter (length s.buffer) r
        → ((s' : Loading)
            → length s'.buffer < length s.buffer
            → rounds fuel s' ≡ rounds (suc fuel) s')
        → (elim r [
          | stuck ↦ if ltb max_line_size_bytes (length s.buffer) then none else some s
          | bad_message ↦ none
          | progress s' ↦ rounds fuel s'
        ])
          ≡ (elim r [
            | stuck ↦ if ltb max_line_size_bytes (length s.buffer) then none else some s
            | bad_message ↦ none
            | progress s' ↦ rounds (suc fuel) s'
          ])
    go stuck x rest = refl
    go bad_message x rest = refl
    go (progress s') x rest = rest s' x
