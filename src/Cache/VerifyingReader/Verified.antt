-- ===== src/Cache/VerifyingReader/Verified.antt =====
-- Every block that the reader passes on is signed at its place in the chain.
use ouinet.Prelude.{
  ◌+◌, ◌≡◌, refl, ◌∙◌, subst, true, List, [], ◌∷◌, ◌++◌, none, some, Bytes, length, ltb, All,
  if_both,
}
use ouinet.Http.{Library}
use ouinet.Cache.HttpSignature.{HeadLibrary}
use ouinet.Cache.ResponsePart.{
  ResponsePart, head_part, chunk_hdr, chunk_body, body_part, trailer_part, ReaderLibrary,
}
use ouinet.Cache.VerifyingReader.{
  VerifyingReader, Processed, bad_message, refused, processed, Read, failed, delivered,
  process_data,
}
use ouinet.Cache.VerifyingReader.Reading.{process_part, check_body, deliver, read_loop, read_part}
use ouinet.Cache.VerifyingReader.Blocks.{
  IsHeader, IsOfBody, blocks_of, IsChain, Advances, Keeps, IsRight, IsRightRead,
  process_chunk_hdr-IsRight,
}

module _ (http : Library) (lib : HeadLibrary) (io : ReaderLibrary) where
  deliver-IsRight :
      (r r' : VerifyingReader) (input : List ResponsePart) (part : ResponsePart)
      → Keeps lib io r r'
      → All IsOfBody input
      → Advances lib io r.head r.chain_hasher r'.chain_hasher part
      → IsRightRead lib io r (deliver http lib io r' input (some part))
  unfolding deliver
  deliver-IsRight r r' [] part k a d =
      let k' : Keeps lib io r (record r' { is_done = true }) = record {
        same_head = k.same_head;
        whole = k.whole;
        only_headers = k.only_headers;
      } in
      if_both (IsRightRead lib io r) (check_body http lib io r')
        (delivered (record r' { is_done = true }) [] (some part)) (failed bad_message) (k', tt, d)
        tt
  deliver-IsRight r r' (p ∷ input) part k a d = (k, a, d)

  process_data-IsRight :
      (r : VerifyingReader) (ind : Bytes) → Keeps lib io r r → IsRight lib io r (process_data r ind)
  unfolding process_data
  process_data-IsRight r ind k =
      if_both (IsRight lib io r) (ltb r.head.block_size (length r.block_data + length ind))
        (refused bad_message)
        (processed
          record r {
            body_length = r.body_length + length ind;
            body = r.body ++ ind;
            block_data = r.block_data ++ ind;
          }
          none)
        tt (record { same_head = refl; whole = k.whole; only_headers = k.only_headers }, refl)

  process_part-IsRight :
      (r : VerifyingReader) (part : ResponsePart)
      → Keeps lib io r r
      → IsOfBody part
      → IsRight lib io r (process_part http lib io r part)
  unfolding process_part
  process_part-IsRight r (head_part h) k b = absurd b
  process_part-IsRight r (chunk_hdr size exts) k b = process_chunk_hdr-IsRight lib io r size exts k
  process_part-IsRight r (chunk_body ind remain) k b = process_data-IsRight r ind k
  process_part-IsRight r (body_part ind) k b = process_data-IsRight r ind k
  process_part-IsRight r (trailer_part t) k b = absurd b

  -- A right read of a reader that has only taken in data.
  IsRightRead-trans :
      (r r' : VerifyingReader) (res : Read)
      → Keeps lib io r r'
      → r'.chain_hasher ≡ r.chain_hasher
      → IsRightRead lib io r' res
      → IsRightRead lib io r res
  IsRightRead-trans r r' (failed e) k c h = tt
  IsRightRead-trans r r' (delivered r'' input none) k c h = tt
  IsRightRead-trans r r' (delivered r'' input (some part)) k c h = (
    record {
      same_head = h.0.same_head ∙ k.same_head;
      whole = h.0.whole;
      only_headers = h.0.only_headers;
    },
    h.1,
    rw (k.same_head, c) at h.2,
  )

  Keeps-self : (r r' : VerifyingReader) → Keeps lib io r r' → Keeps lib io r' r'
  Keeps-self r r' k = record { same_head = refl; whole = k.whole; only_headers = k.only_headers }

  read_loop-IsRight :
      (r : VerifyingReader) (input : List ResponsePart)
      → Keeps lib io r r
      → All IsOfBody input
      → IsRightRead lib io r (read_loop http lib io r input)
  unfolding read_loop deliver
  read_loop-IsRight r [] k a =
      if_both (IsRightRead lib io r) (check_body http lib io r)
        (delivered (record r { is_done = true }) [] none) (failed bad_message) tt tt
  read_loop-IsRight r (p ∷ input) k a =
      go (process_part http lib io r p) (process_part-IsRight r p k a.0)
        (λ r'. read_loop-IsRight r' input)
    where
      go :
          (res : Processed)
          → IsRight lib io r res
          → ((r' : VerifyingReader)
              → Keeps lib io r' r'
              → All IsOfBody input
              → IsRightRead lib io r' (read_loop http lib io r' input))
          → IsRightRead lib io r (elim res [
            | refused e ↦ failed e
            | processed r' none ↦ read_loop http lib io r' input
            | processed r' (some part) ↦ deliver http lib io r' input (some part)
          ])
      go (refused e) h rest = tt
      go (processed r' none) h rest =
          IsRightRead-trans r r' _ h.0 h.1 (rest r' (Keeps-self r r' h.0) a.1)
      go (processed r' (some part)) h rest = deliver-IsRight r r' input part h.0 a.1 h.1

  -- What a call of `async_read_part` passes on is right.
  read_part-IsRight :
      (r : VerifyingReader) (input : List ResponsePart)
      → Keeps lib io r r
      → All IsOfBody input
      → IsRightRead lib io r (read_part http lib io r input)
  unfolding read_part
  read_part-IsRight r input k a = go r.pending_parts k.only_headers
    where
      go :
          (parts : List ResponsePart)
          → All IsHeader parts
          → IsRightRead lib io r (elim parts [
            | [] ↦ read_loop http lib io r input
            | part ∷ rest ↦
                deliver http lib io (record r { pending_parts = rest }) input (some part)
          ])
      go [] h = read_loop-IsRight r input k a
      go (head_part x ∷ rest) h = absurd h.0
      go (chunk_hdr size exts ∷ rest) h =
          deliver-IsRight r (record r { pending_parts = rest }) input (chunk_hdr size exts)
            (record { same_head = refl; whole = k.whole; only_headers = h.1 }) a refl
      go (chunk_body x n ∷ rest) h = absurd h.0
      go (body_part x ∷ rest) h = absurd h.0
      go (trailer_part x ∷ rest) h = absurd h.0

  -- Calls of `async_read_part`, with the parts that they give.
  pub data Reads
      : VerifyingReader
        → List ResponsePart
        → List ResponsePart
        → VerifyingReader
        → List ResponsePart
        → Type 0 where
    stop : {r : VerifyingReader} {input : List ResponsePart} → Reads r input [] r input
    read :
        {r r' r'' : VerifyingReader} {input input' input'' out : List ResponsePart}
        (part : ResponsePart)
        → read_part http lib io r input ≡ delivered r' input' (some part)
        → Reads r' input' out r'' input''
        → Reads r input (part ∷ out) r'' input''

  -- The data that calls of `async_read_part` pass on of the body of a whole response is a chain of blocks,
  -- each with a signature that the head's key accepts for its offset and for the blocks before it.
  pub Reads-IsChain :
      {r r' : VerifyingReader} {input input' out : List ResponsePart}
      → Reads r input out r' input'
      → r.range ≡ none
      → r.pending_parts ≡ []
      → All IsOfBody input
      → IsChain lib io r.head r.chain_hasher (blocks_of out)
  Reads-IsChain {r} reads whole fresh a =
      chain reads (record { same_head = refl; whole = whole; only_headers = rw fresh tt }) a
    where
      step :
          (r r1 : VerifyingReader) (out : List ResponsePart) (part : ResponsePart)
          → r1.head ≡ r.head
          → Advances lib io r.head r.chain_hasher r1.chain_hasher part
          → IsChain lib io r1.head r1.chain_hasher (blocks_of out)
          → IsChain lib io r.head r.chain_hasher (blocks_of (part ∷ out))
      step r r1 out (head_part h) s d c = absurd d
      step r r1 out (chunk_hdr size exts) s d c = rw (s, d) at c
      step r r1 out (chunk_body ind n) s (sig, ok, d) c = (sig, ok, rw (s, d) at c)
      step r r1 out (body_part ind) s d c = absurd d
      step r r1 out (trailer_part t) s d c = absurd d

      chain :
          {r r' : VerifyingReader} {input input' out : List ResponsePart}
          → Reads r input out r' input'
          → Keeps lib io r r
          → All IsOfBody input
          → IsChain lib io r.head r.chain_hasher (blocks_of out)
      chain stop k a = tt
      chain {r} {input = input} (read {r' = r1} {out = out} part e rest) k a =
          let right = subst (IsRightRead lib io r) e (read_part-IsRight r input k a) in
          step r r1 out part right.0.same_head right.2 (chain rest (Keeps-self _ _ right.0) right.1)
