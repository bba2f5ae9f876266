-- ===== src/Cache/SigningReader/Parts.antt =====
-- The parts of a signed body are those of the blocks that the buffer gives.
use ouinet.Prelude.{
  ℕ, ◌+◌, ◌*◌, ◌%◌, ◌^◌, ◌≤◌, ◌<◌, ◌≡◌, refl, ap, ◌∙◌, true, false, List, [], ◌∷◌, ◌++◌, some,
  Bytes, length, take, drop, ltb, All, arith, length-append, Bool-cases, inl, inr, ltb→lt,
}
use native.Mathlib.Nat.{mod-eq_of_lt}
use ouinet.Http.{Fields}
use ouinet.Cache.ChainHasher.{ChainHasher, new_hasher}
use ouinet.Cache.ResponsePart.{trailer_part}
use ouinet.Cache.SigningReader.{sign_last, read_end, read_data}
use ouinet.Cache.SigningReader.Wire.{signed_hash, wire_from, wire}
use ouinet.Cache.SigningReader.Cut.{
  cut_blocks, length-take-drop, length-take, is_empty_pos, cut_blocks-small, cut_blocks-big, total,
  IsInput,
}
use ouinet.Cache.SigningReader.Steps.{
  Setup, behind, sign_data-held, send_block-behind, send_block-first, sign_data-send_block,
  trailer_of, process_end-empty, process_end-held, process_end-first,
}

module _ (u : Setup) where
  -- The parts at the end are those of the blocks that are held.
  read_end-wire_from :
      (h : ChainHasher) (block : Bytes) (offset : ℕ) (held : Bytes) (n : ℕ) (body : Bytes)
      → length held < u.size
      → ltb 0 offset ≡ true
      → (t : Fields) × (read_end u.lib u.io u.key u.ts (behind u h block offset held n body)
          ≡ some (
              wire_from u.lib u.io u.key u.injection_id h block (cut_blocks u.size held [])
              ++ trailer_part t ∷ []))
  unfolding read_end wire_from cut_blocks sign_last
  read_end-wire_from h block offset [] n body less later = (
    trailer_of u ((n + 0) % 2 ^ 64) (body ++ []),
    rw (read_end, process_end-empty u h block offset n body) refl,
  )
  read_end-wire_from h block offset (b ∷ held) n body less later = (
    trailer_of u (((n + 0) % 2 ^ 64 + 0) % 2 ^ 64) ((body ++ []) ++ []),
    rw
        (
          read_end,
          process_end-held u h block offset (b ∷ held) n body less refl later,
          process_end-empty u (signed_hash u.lib u.io u.key u.injection_id h block).1 (b ∷ held)
              ((offset + length (b ∷ held)) % 2 ^ 64) ((n + 0) % 2 ^ 64) (body ++ []),
        )
        refl,
  )

  -- The parts behind u a block are those of the blocks that the buffer gives.
  read_data-wire_from :
      (h : ChainHasher) (block : Bytes) (offset : ℕ) (held : Bytes) (n : ℕ) (body : Bytes)
      (inbufs : List Bytes)
      → length held < u.size
      → ltb 0 offset ≡ true
      → offset + (length held + total inbufs) < 2 ^ 64
      → All (IsInput u.size) inbufs
      → (t : Fields) × (read_data u.lib u.io u.key u.ts (behind u h block offset held n body) inbufs
          ≡ some (
              wire_from u.lib u.io u.key u.injection_id h block (cut_blocks u.size held inbufs)
              ++ trailer_part t ∷ []))
  unfolding read_data wire_from
  read_data-wire_from h block offset held n body [] less later bound a =
      read_end-wire_from h block offset held n body less later
  read_data-wire_from h block offset held n body (inbuf ∷ inbufs) less later bound (i, is) =
      let all = held ++ inbuf in
      let n' = (n + length inbuf) % 2 ^ 64 in
      let len = length-append held inbuf in
      let fits : ltb (2 * u.size) (length held + length inbuf) ≡ false =
        (let within = i.1 in ground arith) in
      elim (Bool-cases (ltb (length all) u.size)) [
        | inl small ↦
            let (t, e) =
              read_data-wire_from h block offset all n' (body ++ inbuf) inbufs (ltb→lt _ _ small)
                later (omega (arith, len)) is in
            (
              t,
              rw
                  (
                    read_data,
                    sign_data-held u h block offset held n body inbuf i.0 fits small,
                    e,
                    cut_blocks-small u.size held inbuf inbufs small,
                  )
                  refl,
            )
        | inr big ↦
            let next = take u.size all in
            let h' = (signed_hash u.lib u.io u.key u.injection_id h block).1 in
            let size_le : u.size ≤ length all = ground arith in
            let len_next = length-take u.size all size_le in
            let sum = length-take-drop u.size all in
            let off : (offset + length next) % 2 ^ 64 ≡ offset + length next =
              mod-eq_of_lt (omega (arith, len)) in
            let full = is_empty_pos next (omega arith) in
            let (t, e) =
              read_data-wire_from h' next ((offset + length next) % 2 ^ 64) (drop u.size all) n'
                (body ++ inbuf) inbufs (let within = i.1 in omega (arith, sum, len_next, len))
                (ground (arith, off)) (omega (arith, off, len)) is in
            (
              t,
              rw
                  (
                    read_data,
                    sign_data-send_block u h block offset held n body inbuf i.0 fits big
                        ∙ ap some (
                            send_block-behind u h block offset (drop u.size all) n' (body ++ inbuf)
                              next full later),
                    e,
                    cut_blocks-big u.size held inbuf inbufs big,
                    wire_from,
                  )
                  refl,
            )
      ]

  read_end-wire :
      (held : Bytes) (n : ℕ) (body : Bytes)
      → length held < u.size
      → (t : Fields) × (read_end u.lib u.io u.key u.ts (behind u new_hasher [] 0 held n body)
          ≡ some (
              wire u.lib u.io u.key u.injection_id (cut_blocks u.size held [])
              ++ trailer_part t ∷ []))
  unfolding read_end wire wire_from cut_blocks sign_last
  read_end-wire [] n body less = (
    trailer_of u ((n + 0) % 2 ^ 64) (body ++ []),
    rw (read_end, process_end-empty u new_hasher [] 0 n body) refl,
  )
  read_end-wire (b ∷ held) n body less = (
    trailer_of u (((n + 0) % 2 ^ 64 + 0) % 2 ^ 64) ((body ++ []) ++ []),
    rw
        (
          read_end,
          process_end-first u (b ∷ held) n body less refl,
          process_end-empty u new_hasher (b ∷ held) ((0 + length (b ∷ held)) % 2 ^ 64)
              ((n + 0) % 2 ^ 64) (body ++ []),
        )
        refl,
  )

  -- All parts that the reader gives, from the beginning on.
  pub read_data-wire :
      (held : Bytes) (n : ℕ) (body : Bytes) (inbufs : List Bytes)
      → length held < u.size
      → length held + total inbufs < 2 ^ 64
      → All (IsInput u.size) inbufs
      → (t : Fields) × (read_data u.lib u.io u.key u.ts
            (behind u new_hasher [] 0 held n body)
            inbufs
          ≡ some (
              wire u.lib u.io u.key u.injection_id (cut_blocks u.size held inbufs)
              ++ trailer_part t ∷ []))
  unfolding read_data wire
  read_data-wire held n body [] less bound a = read_end-wire held n body less
  read_data-wire held n body (inbuf ∷ inbufs) less bound (i, is) =
      let all = held ++ inbuf in
      let n' = (n + length inbuf) % 2 ^ 64 in
      let len = length-append held inbuf in
      let fits : ltb (2 * u.size) (length held + length inbuf) ≡ false =
        (let within = i.1 in ground arith) in
      elim (Bool-cases (ltb (length all) u.size)) [
        | inl small ↦
            let (t, e) =
              read_data-wire all n' (body ++ inbuf) inbufs (ltb→lt _ _ small) (omega (arith, len))
                is in
            (
              t,
              rw
                  (
                    read_data,
                    sign_data-held u new_hasher [] 0 held n body inbuf i.0 fits small,
                    e,
                    cut_blocks-small u.size held inbuf inbufs small,
                  )
                  refl,
            )
        | inr big ↦
            let next = take u.size all in
            let size_le : u.size ≤ length all = ground arith in
            let len_next = length-take u.size all size_le in
            let sum = length-take-drop u.size all in
            let off : (0 + length next) % 2 ^ 64 ≡ 0 + length next =
              mod-eq_of_lt (omega (arith, len)) in
            let full = is_empty_pos next (omega arith) in
            let (t, e) =
              read_data-wire_from new_hasher next ((0 + length next) % 2 ^ 64) (drop u.size all) n'
                (body ++ inbuf) inbufs (let within = i.1 in omega (arith, sum, len_next, len))
                (ground (arith, off)) (omega (arith, off, len)) is in
            (
              t,
              rw
                  (
                    read_data,
                    sign_data-send_block u new_hasher [] 0 held n body inbuf i.0 fits big
                        ∙ ap some
                            (send_block-first u (drop u.size all) n' (body ++ inbuf) next full),
                    e,
                    cut_blocks-big u.size held inbuf inbufs big,
                    wire,
                  )
                  refl,
            )
      ]
