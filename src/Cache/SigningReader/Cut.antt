-- ===== src/Cache/SigningReader/Cut.antt =====
-- How the buffer of a signing reader cuts a body into blocks.
use ouinet.Prelude.{
  ℕ, ◌+◌, ◌≤◌, ◌<◌, ◌≡◌, refl, sym, subst, ap, ◌∙◌, true, false, List, [], ◌∷◌, ◌++◌, Bytes, length,
  take, drop, is_empty, ltb, All, arith, append_assoc, length-append, Bool-cases, inl, inr, ltb→lt,
  zero, suc, if◌then◌else◌,
}

-- The blocks that the buffer gives, with what it holds.
unfoldable pub cut_blocks : ℕ → Bytes → List Bytes → List Bytes
cut_blocks size held [] = if is_empty held then [] else held ∷ []
cut_blocks size held (inbuf ∷ inbufs) =
    let all = held ++ inbuf in
    let full = ltb (length all) size in
    let rest = cut_blocks size (if full then all else drop size all) inbufs in
    if full then rest else take size all ∷ rest

pub length-take-drop : (n : ℕ) (xs : Bytes) → length (take n xs) + length (drop n xs) ≡ length xs
length-take-drop zero xs = omega arith
length-take-drop (suc n) [] = omega arith
length-take-drop (suc n) (x ∷ xs) = omega (arith, length-take-drop n xs)

pub length-take : (n : ℕ) (xs : Bytes) → n ≤ length xs → length (take n xs) ≡ n
length-take zero xs h = refl
length-take (suc n) [] h = omega arith
length-take (suc n) (x ∷ xs) h = omega (arith, length-take n xs (omega arith))

pub take-drop : (n : ℕ) (xs : Bytes) → take n xs ++ drop n xs ≡ xs
take-drop zero xs = refl
take-drop (suc n) [] = refl
take-drop (suc n) (x ∷ xs) = ap (◌∷◌ x) (take-drop n xs)

pub is_empty_pos : (xs : Bytes) → 0 < length xs → is_empty xs ≡ false
is_empty_pos [] h = absurd (omega arith)
is_empty_pos (x ∷ xs) h = refl

pub cut_blocks-small :
    (size : ℕ) (held inbuf : Bytes) (inbufs : List Bytes)
    → ltb (length (held ++ inbuf)) size ≡ true
    → cut_blocks size held (inbuf ∷ inbufs) ≡ cut_blocks size (held ++ inbuf) inbufs
unfolding cut_blocks
cut_blocks-small size held inbuf inbufs h = rw h refl

pub cut_blocks-big :
    (size : ℕ) (held inbuf : Bytes) (inbufs : List Bytes)
    → ltb (length (held ++ inbuf)) size ≡ false
    → cut_blocks size held (inbuf ∷ inbufs)
      ≡ take size (held ++ inbuf) ∷ cut_blocks size (drop size (held ++ inbuf)) inbufs
unfolding cut_blocks
cut_blocks-big size held inbuf inbufs h = rw h refl

abbrev pub total : List Bytes → ℕ
total [] = 0
total (inbuf ∷ inbufs) = length inbuf + total inbufs

-- Parts of the input that fit in the buffer.
abbrev pub IsInput : ℕ → Bytes → Type 0
IsInput size inbuf = (is_empty inbuf ≡ false) × (length inbuf ≤ size)

abbrev pub concat : List Bytes → Bytes
concat [] = []
concat (x ∷ xs) = x ++ concat xs

pub concat-cut_blocks :
    (size : ℕ) (held : Bytes) (inbufs : List Bytes)
    → concat (cut_blocks size held inbufs) ≡ held ++ concat inbufs
unfolding cut_blocks
concat-cut_blocks size [] [] = refl
concat-cut_blocks size (b ∷ held) [] = refl
concat-cut_blocks size held (inbuf ∷ inbufs) =
    elim (Bool-cases (ltb (length (held ++ inbuf)) size)) [
      | inl small ↦
          ap concat (cut_blocks-small size held inbuf inbufs small)
          ∙ (concat-cut_blocks size (held ++ inbuf) inbufs
              ∙ append_assoc held inbuf (concat inbufs))
      | inr big ↦
          ap concat (cut_blocks-big size held inbuf inbufs big)
          ∙ (ap (λ (x : Bytes). take size (held ++ inbuf) ++ x)
                (concat-cut_blocks size (drop size (held ++ inbuf)) inbufs)
              ∙ (sym (
                    append_assoc (take size (held ++ inbuf)) (drop size (held ++ inbuf))
                      (concat inbufs))
                  ∙ (ap (λ (x : Bytes). x ++ concat inbufs) (take-drop size (held ++ inbuf))
                      ∙ append_assoc held inbuf (concat inbufs))))
    ]

abbrev pub IsBlockOf : ℕ → Bytes → Type 0
IsBlockOf size block = (is_empty block ≡ false) × (ltb size (length block) ≡ false)

pub cut_blocks-IsBlockOf :
    (size : ℕ) (held : Bytes) (inbufs : List Bytes)
    → 0 < size
    → length held < size
    → All (IsInput size) inbufs
    → All (IsBlockOf size) (cut_blocks size held inbufs)
unfolding cut_blocks
cut_blocks-IsBlockOf size [] [] pos less a = tt
cut_blocks-IsBlockOf size (b ∷ held) [] pos less a = ((refl, ground arith), tt)
cut_blocks-IsBlockOf size held (inbuf ∷ inbufs) pos less (i, is) =
    let all = held ++ inbuf in
    let len = length-append held inbuf in
    elim (Bool-cases (ltb (length all) size)) [
      | inl small ↦
          subst (All (IsBlockOf size)) (sym (cut_blocks-small size held inbuf inbufs small))
            (cut_blocks-IsBlockOf size all inbufs pos (ltb→lt _ _ small) is)
      | inr big ↦
          let size_le : size ≤ length all = ground arith in
          let len_next = length-take size all size_le in
          let sum = length-take-drop size all in
          subst (All (IsBlockOf size)) (sym (cut_blocks-big size held inbuf inbufs big)) (
            (is_empty_pos (take size all) (omega (arith, len_next)), ground (arith, len_next)),
            cut_blocks-IsBlockOf size (drop size all) inbufs pos
                (let within = i.1 in omega (arith, sum, len_next, len)) is,
          )
    ]
