-- ===== src/Cache/VerifyingReader/Reading.antt =====
-- `process_part` of heads and trailers, `check_body` and `async_read_part`.
use ouinet.Prelude.{
  ℕ, ◌+◌, ◌-◌, ◌%◌, ◌^◌, Bool, true, false, not, ◌&&◌, ◌||◌, List, [], ◌∷◌, ◌++◌, Option, none,
  some, Bytes, codes, any, is_empty, ltb, ◌==◌, if◌then◌else◌,
}
use ouinet.Prelude.Decimal.{to_string}
use ouinet.Parse.Number.{eight_bytes, four_bytes, number}
use ouinet.Bittorrent.NodeId.{id_eq}
use ouinet.Http.{Fields, ResponseHeader, Library}
use ouinet.Http.Split.{split_string_pair}
use ouinet.Http.Ranges.{matches_length_text}
use ouinet.Http.Injection.{field_named}
use ouinet.Cache.HttpSignature.{HeadLibrary, insert_all}
use ouinet.Cache.SignedHead.{SignedHead, verify_and_create, is_signature}
use ouinet.Cache.ResponsePart.{
  ResponsePart, head_part, chunk_hdr, chunk_body, body_part, trailer_part, ReaderLibrary,
}
use ouinet.Cache.VerifyingReader.{
  VerifyingReader, Processed, Read, original_http_status, data_size_hdr, content_range,
  process_chunk_hdr, process_data, refused, processed, failed, delivered, no_message, bad_message,
}

module _ (http : Library) (lib : HeadLibrary) (io : ReaderLibrary) where
  -- `process_part` of a trailer, whose fields extend the head.
  unfoldable pub process_trailer : VerifyingReader → Fields → Processed
  process_trailer r trailer =
      let fields = insert_all lib r.head.head.fields trailer in
      let rsh = record r.head.head { fields = fields } in
      if any (is_signature lib) trailer
      then elim (verify_and_create http lib rsh r.pk) [
        | none ↦ refused bad_message
        | some head ↦ processed (record r { head = head }) (some (trailer_part trailer))
      ]
      else processed (record r { head = record r.head { head = rsh } })
          (some (trailer_part trailer))

  -- `get_original_status`.
  unfoldable pub get_original_status : List ℕ → ResponseHeader → Option ℕ
  get_original_status statuses inh =
      let text = field_named http inh.fields original_http_status in
      if is_empty statuses
      then none
      else if not (any (λ n. n == inh.status) statuses)
      then none
      else if is_empty text
      then none
      else elim (number four_bytes (http.byte_behind text) text).0 [
        | none ↦ none
        | some status ↦ if io.is_known_status status then some status else none
      ]

  -- The first field with a name goes.
  unfoldable pub erase_first : Fields → Bytes → Fields
  erase_first [] name = []
  erase_first (h ∷ hs) name = if lib.same_name h.name name then hs else h ∷ erase_first hs name

  -- The head with its original status, and the range that is taken from it.
  unfoldable pub restore_status : ResponseHeader → Option ℕ → ResponseHeader × Bytes
  unfolding erase_first
  restore_status inh none = (inh, [])
  restore_status inh (some status) =
      let fields = lib.erase_named inh.fields original_http_status in
      if inh.status == 206
      then (
        record inh { status = status; fields = erase_first fields content_range },
        field_named http fields content_range,
      )
      else (record inh { status = status; fields = fields }, [])

  -- The fields of the head that is passed on.
  unfoldable pub output_head : ResponseHeader → ℕ → Bytes → Option ℕ → ResponseHeader
  output_head head status range none = head
  output_head head status range (some original) =
      let fields = lib.set_named head.fields original_http_status (to_string original) in
      record head {
        status = status;
        fields =
            if (status == 206) && not (is_empty range)
            then lib.set_named fields content_range range
            else fields;
      }

  -- The range of a partial response: its begin and its end.
  unfoldable pub partial_range : SignedHead → Bytes → Option (Option (ℕ × ℕ))
  partial_range head range =
      let size = field_named http head.head.fields data_size_hdr in
      if is_empty range then some none else elim (io.parse_response_range range) [
        | none ↦ none
        | some br ↦
            if matches_length_text (http.byte_behind size) br.length size
            then some (some (br.first, (br.last + 1) % 2 ^ 64))
            else none
      ]

  abbrev pub begin_of : ℕ → Option (ℕ × ℕ) → ℕ
  begin_of offset none = offset
  begin_of offset (some range) = range.0

  -- `process_part` of the head.
  unfoldable pub process_head : VerifyingReader → ResponseHeader → Processed
  unfolding get_original_status restore_status output_head partial_range
  process_head r inh =
      let original = get_original_status r.statuses inh in
      let (restored, range) = restore_status inh original in
      elim (verify_and_create http lib restored r.pk) [
        | none ↦ refused no_message
        | some head ↦
            if not (io.is_chunked head.head.fields)
            then refused no_message
            else elim (partial_range head range) [
              | none ↦ refused no_message
              | some found ↦
                  processed
                    (record r {
                      head = head;
                      range = found;
                      block_offset = begin_of r.block_offset found;
                    })
                    (some (head_part (output_head head.head inh.status range original)))
            ]
      ]

  unfoldable pub process_part : VerifyingReader → ResponsePart → Processed
  unfolding process_chunk_hdr process_data process_head process_trailer
  process_part r (head_part inh) = process_head r inh
  process_part r (chunk_hdr size exts) = process_chunk_hdr lib io r size exts
  process_part r (chunk_body ind remain) = process_data r ind
  process_part r (body_part ind) = process_data r ind
  process_part r (trailer_part trailer) = process_trailer r trailer

  -- The loop over the digests of the head: whether each one of the same algorithm matches.
  unfoldable pub digests_match : Bytes → List Bytes → Bool
  digests_match digest [] = true
  digests_match digest (value ∷ values) =
      let (name, body_digest) = split_string_pair digest b'=' in
      let (head_name, head_digest) = split_string_pair value b'=' in
      if http.iequals name head_name && not (id_eq body_digest head_digest)
      then false
      else digests_match digest values

  abbrev pub http_digest : Bytes → Bytes
  http_digest body = codes "SHA-256=" ++ lib.base64_encode (io.sha256 body)

  abbrev pub expected_length : VerifyingReader → ℕ → ℕ
  expected_length r size = elim r.range [
    | none ↦ size
    | some range ↦ (range.1 + (2 ^ 64 - range.0)) % 2 ^ 64
  ]

  abbrev pub is_partial : VerifyingReader → ℕ → Bool
  is_partial r size = elim r.range [ none ↦ false | some range ↦ ltb 0 range.0 || ltb range.1 size ]

  abbrev pub signed_size : VerifyingReader → Option ℕ
  signed_size r =
      let text = field_named http r.head.head.fields data_size_hdr in
      (number eight_bytes (http.byte_behind text) text).0

  -- `check_body`: whether it sets no error.
  unfoldable pub check_body : VerifyingReader → Bool
  unfolding digests_match
  check_body r = if r.is_done then true else elim (signed_size r) [
    | none ↦ false
    | some size ↦
        if not (expected_length r size == r.body_length)
        then false
        else if is_partial r size
        then true
        else digests_match (http_digest r.body)
            (lib.values_named r.head.head.fields (codes "Digest"))
  ]

  -- The end of `async_read_part`, with the check when the reader under it is done.
  unfoldable pub deliver : VerifyingReader → List ResponsePart → Option ResponsePart → Read
  unfolding check_body
  deliver r [] part =
      if check_body r then delivered (record r { is_done = true }) [] part else failed bad_message
  deliver r (p ∷ input) part = delivered r (p ∷ input) part

  -- Its loop.
  unfoldable pub read_loop : VerifyingReader → List ResponsePart → Read
  unfolding process_part deliver
  read_loop r [] = deliver r [] none
  read_loop r (p ∷ input) = elim (process_part r p) [
    | refused e ↦ failed e
    | processed r' none ↦ read_loop r' input
    | processed r' (some part) ↦ deliver r' input (some part)
  ]

  -- `async_read_part`.
  unfoldable pub read_part : VerifyingReader → List ResponsePart → Read
  unfolding read_loop
  read_part r input = elim r.pending_parts [
    | [] ↦ read_loop r input
    | part ∷ parts ↦ deliver (record r { pending_parts = parts }) input (some part)
  ]
