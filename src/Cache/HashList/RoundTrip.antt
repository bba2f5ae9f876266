-- ===== src/Cache/HashList/RoundTrip.antt =====
-- `load` reads back what `write` sent, however the network cuts it.
use ouinet.Prelude.{
  ℕ, zero, suc, ◌+◌, ◌*◌, ◌≤◌, ◌<◌, ◌≡◌, ◌⊎◌, refl, sym, ap, ◌∙◌, Bool, true, false, not, List, [],
  ◌∷◌, ◌++◌, Option, none, some, Bytes, All, length, length-append, append-nil, append_assoc,
  is_empty, ltb, arith, inl, inr,
}
use ouinet.Bittorrent.Storage.Keys.{id_eq_complete}
use ouinet.Http.Split.RoundTrip.{Lacks}
use ouinet.Cache.HashList.{
  Block, HashList, verify, magic, digest_size, signature_size, max_line_size_bytes, read_array,
  Loading, start, stuck, progress, round, rounds, Part, body, chunk_body, other_part, append_data,
  receive_part, receive_parts, load, write_blocks, write, content_length,
}
use ouinet.Cache.HashList.Reading.{read_array-Reads, read_line-Reads}

-- The sizes of a digest and a signature.
abbrev pub IsBlock : Block → Type 0
IsBlock b = (length b.data_hash ≡ digest_size) × (length b.chained_hash_signature ≡ signature_size)

-- What the parts carry.
unfoldable pub payload : List Part → Bytes
payload [] = []
payload (body bytes ∷ parts) = bytes ++ payload parts
payload (chunk_body bytes ∷ parts) = bytes ++ payload parts
payload (other_part ∷ parts) = payload parts

-- The parser is within the text of the blocks `all`, of which `t` is still to come.
data Expects (all : List Block) : Loading → Bytes → Type 0 where
  at_magic :
      (buffer t : Bytes)
      → buffer ++ t ≡ magic ++ 10 ∷ write_blocks all
      → Expects all record { buffer = buffer; magic_checked = false; digest = none; blocks = [] } t
  at_digest :
      (buffer t : Bytes) (done rest : List Block)
      → done ++ rest ≡ all
      → All IsBlock rest
      → buffer ++ t ≡ write_blocks rest
      → Expects all record { buffer = buffer; magic_checked = true; digest = none; blocks = done } t
  at_signature :
      (buffer t d g : Bytes) (done rest : List Block)
      → done ++ record { data_hash = d; chained_hash_signature = g } ∷ rest ≡ all
      → length g ≡ signature_size
      → All IsBlock rest
      → buffer ++ t ≡ g ++ write_blocks rest
      → Expects all
          record { buffer = buffer; magic_checked = true; digest = some d; blocks = done }
          t

-- What a round does there.
abbrev Goes : List Block → Loading → Bytes → Type 0
Goes all s t =
    ((round s ≡ stuck) × (length s.buffer < 64))
    ⊎ ((s' : Loading) × (round s ≡ progress s')
        × Expects all s' t
        × (length s'.buffer < length s.buffer))

magic-Goes :
    (all : List Block) (buffer t : Bytes)
    → All IsBlock all
    → buffer ++ t ≡ magic ++ 10 ∷ write_blocks all
    → Goes all record { buffer = buffer; magic_checked = false; digest = none; blocks = [] } t
unfolding round
magic-Goes all buffer t h e =
    elim (read_line-Reads buffer t magic (write_blocks all) magic-Lacks e) [
      | inl (nothing, short) ↦ inl (rw (nothing, round) refl, omega (arith, short))
      | inr (r, found, follows, shorter) ↦ inr (
        record { buffer = r; magic_checked = true; digest = none; blocks = [] },
        rw (found, id_eq_complete magic magic refl, round) refl,
        at_digest r t [] all refl h follows,
        shorter,
      )
    ]
  where
    magic-Lacks : Lacks 10 magic
    magic-Lacks = ground arith

cons_not_nil : {x : ℕ} {xs : Bytes} → x ∷ xs ≡ [] → ⊥
cons_not_nil h = cc

digest-Goes :
    (all : List Block) (buffer t : Bytes) (done rest : List Block)
    → done ++ rest ≡ all
    → All IsBlock rest
    → buffer ++ t ≡ write_blocks rest
    → Goes all record { buffer = buffer; magic_checked = true; digest = none; blocks = done } t
unfolding round write_blocks read_array
digest-Goes all [] t done [] d h e = inl (refl, omega arith)
digest-Goes all (x ∷ xs) t done [] d h e = absurd (cons_not_nil e)
digest-Goes all buffer t done (b ∷ bs) d h e =
    elim (read_array-Reads digest_size buffer t b.data_hash
      (b.chained_hash_signature ++ write_blocks bs) (omega arith) h.0.0 e) [
        | inl (nothing, short) ↦ inl (rw (nothing, round) refl, short)
        | inr (r, found, follows, shorter) ↦ inr (
          record { buffer = r; magic_checked = true; digest = some b.data_hash; blocks = done },
          rw (found, round) refl,
          at_signature r t b.data_hash b.chained_hash_signature done bs d h.0.1 h.1 follows,
          shorter,
        )
      ]

signature-Goes :
    (all : List Block) (buffer t d g : Bytes) (done rest : List Block)
    → done ++ record { data_hash = d; chained_hash_signature = g } ∷ rest ≡ all
    → length g ≡ signature_size
    → All IsBlock rest
    → buffer ++ t ≡ g ++ write_blocks rest
    → Goes all record { buffer = buffer; magic_checked = true; digest = some d; blocks = done } t
unfolding round
signature-Goes all buffer t d g done rest p l h e =
    elim (read_array-Reads signature_size buffer t g (write_blocks rest) (omega arith) l e) [
      | inl (nothing, short) ↦ inl (rw (nothing, round) refl, short)
      | inr (r, found, follows, shorter) ↦
          let b : Block = record { data_hash = d; chained_hash_signature = g } in
          inr (
            record { buffer = r; magic_checked = true; digest = none; blocks = done ++ b ∷ [] },
            rw (found, round) refl,
            at_digest r t (done ++ b ∷ []) rest (append_assoc done (b ∷ []) rest ∙ p) h follows,
            shorter,
          )
    ]

round-Goes :
    (all : List Block) (s : Loading) (t : Bytes) → All IsBlock all → Expects all s t → Goes all s t
round-Goes all _ _ h (at_magic buffer t e) = magic-Goes all buffer t h e
round-Goes all _ _ h (at_digest buffer t done rest d k e) = digest-Goes all buffer t done rest d k e
round-Goes all _ _ h (at_signature buffer t d g done rest p l k e) =
    signature-Goes all buffer t d g done rest p l k e

-- The parser after a part: it waits for more, or has all.
abbrev Waits : List Block → Option Loading → Bytes → Type 0
Waits all result t = (s : Loading) × (result ≡ some s) × Expects all s t × (length s.buffer < 64)

rounds-Waits :
    (all : List Block) (fuel : ℕ) (s : Loading) (t : Bytes)
    → All IsBlock all
    → Expects all s t
    → length s.buffer < fuel
    → Waits all (rounds fuel s) t
unfolding rounds
rounds-Waits all zero s t h x f = absurd (ground arith)
rounds-Waits all (suc fuel) s t h x f = elim (round-Goes all s t h x) [
  | inl (ends, short) ↦
      let fits : ltb max_line_size_bytes (length s.buffer) ≡ false = ground arith in
      (s, rw (ends, rounds, fits) refl, x, short)
  | inr (s', goes, x', shorter) ↦
      let (s'', found, later, short) =
        rounds-Waits all fuel s' t h x' (omega (arith, shorter, f)) in
      (s'', rw (goes, rounds) found, later, short)
]

-- More of the text in the buffer.
append-Expects :
    (all : List Block) (s : Loading) (bytes t : Bytes)
    → Expects all s (bytes ++ t)
    → Expects all (record s { buffer = s.buffer ++ bytes }) t
append-Expects all _ bytes t (at_magic buffer _ e) =
    at_magic (buffer ++ bytes) t (append_assoc buffer bytes t ∙ e)
append-Expects all _ bytes t (at_digest buffer _ done rest d k e) =
    at_digest (buffer ++ bytes) t done rest d k (append_assoc buffer bytes t ∙ e)
append-Expects all _ bytes t (at_signature buffer _ d g done rest p l k e) =
    at_signature (buffer ++ bytes) t d g done rest p l k (append_assoc buffer bytes t ∙ e)

append_data-Waits :
    (all : List Block) (s : Loading) (bytes t : Bytes)
    → All IsBlock all
    → Expects all s (bytes ++ t)
    → Waits all (append_data s bytes) t
unfolding append_data
append_data-Waits all s bytes t h x =
    rounds-Waits all (suc (length (s.buffer ++ bytes))) (record s { buffer = s.buffer ++ bytes }) t
      h (append-Expects all s bytes t x) (omega arith)

receive_parts-Waits :
    (all : List Block) (s : Loading) (parts : List Part)
    → All IsBlock all
    → Expects all s (payload parts)
    → length s.buffer < 64
    → Waits all (receive_parts s parts) []
unfolding receive_parts receive_part payload
receive_parts-Waits all s [] h x l = (s, refl, x, l)
receive_parts-Waits all s (body bytes ∷ parts) h x l =
    let (s', found, later, short) = append_data-Waits all s bytes (payload parts) h x in
    rw (found, receive_parts) (receive_parts-Waits all s' parts h later short)
receive_parts-Waits all s (chunk_body bytes ∷ parts) h x l =
    let (s', found, later, short) = append_data-Waits all s bytes (payload parts) h x in
    rw (found, receive_parts) (receive_parts-Waits all s' parts h later short)
receive_parts-Waits all s (other_part ∷ parts) h x l = receive_parts-Waits all s parts h x l

length-of-append : (xs : Bytes) → length (xs ++ []) ≡ length xs
length-of-append xs = ap length (append-nil xs)

-- A short buffer holds no block, nor the magic line and a block.
write_blocks_long : (b : Block) (bs : List Block) → IsBlock b → 128 ≤ length (write_blocks (b ∷ bs))
unfolding write_blocks
write_blocks_long b bs h = ground (
  arith,
  length-append b.data_hash (b.chained_hash_signature ++ write_blocks bs),
  length-append b.chained_hash_signature (write_blocks bs),
)

-- At the end of the text the parser has all the blocks.
ends-blocks :
    (all : List Block) (s : Loading)
    → All IsBlock all
    → not (is_empty all) ≡ true
    → Expects all s []
    → length s.buffer < 64
    → s.blocks ≡ all
ends-blocks [] _ h n x l = absurd (ground (arith, n))
ends-blocks (b ∷ bs) _ h n (at_magic buffer _ e) l = absurd (
    ground (
      arith,
      write_blocks_long b bs h.0,
      length-of-append buffer,
      l,
      ap length e,
      length-append magic (10 ∷ write_blocks (b ∷ bs)),
    ))
ends-blocks all _ h n (at_digest buffer _ done [] d k e) l = sym (append-nil done) ∙ d
ends-blocks all _ h n (at_digest buffer _ done (b ∷ bs) d k e) l =
    absurd (ground (arith, write_blocks_long b bs k.0, length-of-append buffer, l, ap length e))
ends-blocks all _ h n (at_signature buffer _ d g done rest p m k e) l = absurd (
    ground (arith, length-of-append buffer, l, ap length e, m, length-append g (write_blocks rest)))

verify-is_empty :
    (sha512 : Bytes → Bytes) (verify_signature : Bytes → Bytes → Bytes → Bool) (list : HashList)
    → verify sha512 verify_signature list ≡ true
    → is_empty list.blocks ≡ false
unfolding verify
verify-is_empty sha512 verify_signature list v = go list.blocks v
  where
    go :
        (blocks : List Block)
        → verify sha512 verify_signature record { signed_head = list.signed_head; blocks = blocks }
          ≡ true
        → is_empty blocks ≡ false
    go [] v = sym v
    go (b ∷ bs) v = refl

length-write_blocks :
    (bs : List Block)
    → All IsBlock bs
    → length (write_blocks bs) ≡ length bs * (signature_size + digest_size)
unfolding write_blocks
length-write_blocks [] h = omega arith
length-write_blocks (b ∷ bs) h = ground (
  arith,
  length-append b.data_hash (b.chained_hash_signature ++ write_blocks bs),
  length-append b.chained_hash_signature (write_blocks bs),
  length-write_blocks bs h.1,
)

-- A hash list that `verify` accepts is loaded from what `write` sends of it, in whatever parts that
-- arrives, and `write` sends as many bytes as its head announces, if the digests and signatures have 64
-- bytes.
pub load-write :
    (sha512 : Bytes → Bytes) (verify_signature : Bytes → Bytes → Bytes → Bool) (list : HashList)
    (parts : List Part)
    → All IsBlock list.blocks
    → verify sha512 verify_signature list ≡ true
    → payload parts ≡ write list
    → (load sha512 verify_signature list.signed_head parts ≡ some list)
      × (length (write list) ≡ content_length list)
unfolding load write content_length
load-write sha512 verify_signature list parts h v p =
    let full = verify-is_empty sha512 verify_signature list v in
    let (s, found, later, short) =
      receive_parts-Waits list.blocks start parts h (at_magic [] (payload parts) p) (omega arith) in
    let all : s.blocks ≡ list.blocks = ends-blocks list.blocks s h (rw full refl) later short in
    (
      rw (found, load, all, full, v) refl,
      ground (
        arith,
        length-append magic (10 ∷ write_blocks list.blocks),
        length-write_blocks list.blocks h,
      ),
    )
