-- ===== src/Cache/HashList.antt =====
-- src/cache/hash_list.h and hash_list.cpp: the list of a response's block hashes. The head of the message is
-- checked elsewhere; what the list reads of it is a record. A message's body comes in parts, of any
-- sizes.
pub mod Fuel
pub mod Reading
pub mod RoundTrip
pub mod Signing
use ouinet.Prelude.{
  ℕ, zero, suc, ◌+◌, ◌*◌, Bool, true, false, not, List, [], ◌∷◌, ◌++◌, Option, none, some, Bytes,
  codes, length, take, drop, get_elem?, is_empty, ltb, leb, ◌==◌, if◌then◌else◌,
}
use ouinet.Bittorrent.NodeId.{id_eq}
use ouinet.Cache.ChainHasher.{
  ChainHash, ChainHasher, new_hasher, SigOrSigner, signature, calculate_block, verify_chain_hash,
}

pub record Block : Type 0 where
  pub data_hash : Bytes
  pub chained_hash_signature : Bytes

-- What is read of the `SignedHead`.
pub record SignedHead : Type 0 where
  pub block_size : ℕ
  pub public_key : Bytes
  pub injection_id : Bytes

pub record HashList : Type 0 where
  pub signed_head : SignedHead
  pub blocks : List Block

unfoldable pub get_block : HashList → ℕ → Option Block
get_block list block_id =
    if leb (length list.blocks) block_id then none else get_elem? list.blocks block_id

module _ (sha512 : Bytes → Bytes) (verify_signature : Bytes → Bytes → Bytes → Bool) where
  -- The loop of `verify`: the chain hash of the last block.
  unfoldable pub last_chain_hash : ℕ → ChainHasher → Block → List Block → ChainHash
  last_chain_hash block_size hasher block [] =
      (calculate_block sha512 hasher block_size block.data_hash
        (signature block.chained_hash_signature)).0
  last_chain_hash block_size hasher block (next ∷ blocks) =
      last_chain_hash block_size
        (calculate_block sha512 hasher block_size block.data_hash
          (signature block.chained_hash_signature)).1
        next blocks

  abbrev pub verify_blocks : SignedHead → List Block → Bool
  verify_blocks head [] = false
  verify_blocks head (block ∷ blocks) =
      verify_chain_hash verify_signature (last_chain_hash head.block_size new_hasher block blocks)
        head.public_key head.injection_id

  unfoldable pub verify : HashList → Bool
  unfolding last_chain_hash
  verify list = verify_blocks list.signed_head list.blocks

abbrev pub max_line_size_bytes : ℕ
max_line_size_bytes = 512

abbrev pub magic : Bytes
magic = codes "OUINET_HASH_LIST_V1"

abbrev pub digest_size : ℕ
digest_size = 64

abbrev pub signature_size : ℕ
signature_size = 64

-- `read_line`, with what is left of the buffer.
unfoldable pub read_line : Bytes → Option (Bytes × Bytes)
read_line [] = none
read_line (b ∷ buffer) =
    let rest = read_line buffer in
    if b == 10 then some ([], buffer) else elim rest [ none ↦ none | some r ↦ some (b ∷ r.0, r.1) ]

-- `read_array`.
unfoldable pub read_array : ℕ → Bytes → Option (Bytes × Bytes)
read_array n buffer = if ltb (length buffer) n then none else some (take n buffer, drop n buffer)

-- The locals of `load`. The source's `signature` is empty between the rounds.
pub record Loading : Type 0 where
  pub buffer : Bytes
  pub magic_checked : Bool
  pub digest : Option Bytes
  pub blocks : List Block

abbrev pub start : Loading
start = record { buffer = []; magic_checked = false; digest = none; blocks = [] }

-- A round of the inner loop: no progress, progress, or the return of an error.
pub data Round : Type 0 where
  stuck bad_message : Round
  progress : Loading → Round

unfoldable pub round : Loading → Round
round s =
    if not s.magic_checked
    then elim (read_line s.buffer) [
      | none ↦ stuck
      | some r ↦
          if id_eq r.0 magic
          then progress (record s { buffer = r.1; magic_checked = true })
          else bad_message
    ]
    else elim s.digest [
      | none ↦ elim (read_array digest_size s.buffer) [
        | none ↦ stuck
        | some r ↦ progress (record s { buffer = r.1; digest = some r.0 })
      ]
      | some d ↦ elim (read_array signature_size s.buffer) [
        | none ↦ stuck
        | some r ↦ progress (record s {
          buffer = r.1;
          digest = none;
          blocks = s.blocks ++ record { data_hash = d; chained_hash_signature = r.0 } ∷ [];
        })
      ]
    ]

-- The inner loop on fuel. `none` is the return of an error.
unfoldable pub rounds : ℕ → Loading → Option Loading
unfolding round
rounds zero s = some s
rounds (suc fuel) s = elim (round s) [
  | stuck ↦ if ltb max_line_size_bytes (length s.buffer) then none else some s
  | bad_message ↦ none
  | progress s' ↦ rounds fuel s'
]

-- A part of the response.
pub data Part : Type 0 where
  body chunk_body : Bytes → Part
  other_part : Part

-- Each round with progress takes a byte, so that one more round than there are bytes is enough.
unfoldable pub append_data : Loading → Bytes → Option Loading
unfolding rounds
append_data s bytes =
    let s' = record s { buffer = s.buffer ++ bytes } in rounds (suc (length (s.buffer ++ bytes))) s'

unfoldable pub receive_part : Loading → Part → Option Loading
unfolding append_data
receive_part s (body bytes) = append_data s bytes
receive_part s (chunk_body bytes) = append_data s bytes
receive_part s other_part = some s

-- The outer loop, to the end of the message.
unfoldable pub receive_parts : Loading → List Part → Option Loading
unfolding receive_part
receive_parts s [] = some s
receive_parts s (part ∷ parts) = elim (receive_part s part) [
  | none ↦ none
  | some s' ↦ receive_parts s' parts
]

-- The end of `load`.
unfoldable pub load :
    (Bytes → Bytes) → (Bytes → Bytes → Bytes → Bool) → SignedHead → List Part → Option HashList
unfolding receive_parts verify
load sha512 verify_signature head parts = elim (receive_parts start parts) [
  | none ↦ none
  | some s ↦
      let list : HashList = record { signed_head = head; blocks = s.blocks } in
      if is_empty s.blocks
      then none
      else if not (verify sha512 verify_signature list)
      then none
      else some list
]

-- What `write` sends after the head, and the content length that the head announces.
unfoldable pub write_blocks : List Block → Bytes
write_blocks [] = []
write_blocks (block ∷ blocks) =
    block.data_hash ++ (block.chained_hash_signature ++ write_blocks blocks)

unfoldable pub write : HashList → Bytes
unfolding write_blocks
write list = magic ++ 10 ∷ write_blocks list.blocks

unfoldable pub content_length : HashList → ℕ
content_length list = length magic + 1 + length list.blocks * (signature_size + digest_size)
