-- ===== src/Cache/SigningReader/RoundTrip.antt =====
-- What a signing reader makes of a body is accepted by a verifying reader.
use ouinet.Prelude.{
  ℕ, ◌^◌, ◌<◌, ◌≡◌, refl, ap, ◌∙◌, true, List, [], ◌∷◌, ◌++◌, some, Bytes, All, arith,
}
use ouinet.Http.{Fields, ResponseHeader, Library}
use ouinet.Cache.HttpSignature.{HeadLibrary}
use ouinet.Cache.HttpSignature.Signing.{Signer}
use ouinet.Cache.SignedHead.{SignedHead}
use ouinet.Cache.ResponsePart.{ResponsePart, trailer_part, ReaderLibrary}
use ouinet.Cache.VerifyingReader.{VerifyingReader, verifying_reader}
use ouinet.Cache.VerifyingReader.Verified.{Reads}
use ouinet.Cache.VerifyingReader.Blocks.{blocks_of}
use ouinet.Cache.SigningReader.{signing_reader, read_data}
use ouinet.Cache.SigningReader.Wire.{SignatureLaws, wire}
use ouinet.Cache.SigningReader.Reading.{read_wire}
use ouinet.Cache.SigningReader.Cut.{
  cut_blocks, total, IsInput, concat, concat-cut_blocks, cut_blocks-IsBlockOf,
}
use ouinet.Cache.SigningReader.Steps.{Setup}
use ouinet.Cache.SigningReader.Parts.{read_data-wire}

module _ (http : Library) (lib : HeadLibrary) (io : ReaderLibrary) (key : Signer) where
  -- The parts that a signing reader gives for a body are read by a verifying reader to the trailer, and the
  -- data that it passes on is the body, if the verified head has the signer's key, injection identifier and
  -- block size, no part of the input is empty or larger than a block, the body is shorter than 2^64 bytes,
  -- and the chunk extensions, base64 and the signature scheme keep their promises.
  pub read_part-read_data :
      (pk : Bytes) (ts : ℕ) (outh : ResponseHeader) (trailer_in : Fields) (statuses : List ℕ)
      (head : SignedHead) (inbufs : List Bytes)
      → SignatureLaws lib io key head.injection_id pk
      → head.public_key ≡ pk
      → 0 < head.block_size
      → All (IsInput head.block_size) inbufs
      → total inbufs < 2 ^ 64
      → (parts : List ResponsePart) × (trailer : Fields) × (out : List ResponsePart)
        × (r : VerifyingReader) × (read_data lib io key ts
              (signing_reader head.block_size head.injection_id true outh trailer_in)
              inbufs
            ≡ some (parts ++ trailer_part trailer ∷ []))
        × Reads http lib io
            (verifying_reader pk statuses head)
            (parts ++ trailer_part trailer ∷ [])
            out
            r
            (trailer_part trailer ∷ [])
        × (concat (blocks_of out) ≡ concat inbufs)
  read_part-read_data pk ts outh trailer_in statuses head inbufs laws keys pos a bound =
      let size = head.block_size in
      let u : Setup = record {
        lib = lib;
        io = io;
        key = key;
        injection_id = head.injection_id;
        size = size;
        ts = ts;
        outh = outh;
        trailer_in = trailer_in;
      } in
      let blocks = cut_blocks size [] inbufs in
      let (t, given) = read_data-wire u [] 0 [] inbufs pos (omega arith) a in
      let (out, r, reads, same) =
        read_wire lib io key head.injection_id pk laws statuses head keys refl http blocks
          (trailer_part t) [] (cut_blocks-IsBlockOf size [] inbufs pos pos a) in
      (
        wire lib io key head.injection_id blocks,
        t,
        out,
        r,
        given,
        reads,
        ap concat same ∙ concat-cut_blocks size [] inbufs,
      )
