-- ===== src/Types/BlockId.antt =====
-- types/block.go and types/part_set.go: block identifiers and their validation. A protobuf
-- message and the Go type that it converts to have the same fields, and one record stands for both.
use tendermintx.Common.{ℕ, ◌++◌, Bytes, Bytes-discrete, Bool, ◌&&◌, not, ◌==◌, ltb, length, holds}

pub record PartSetHeader : Type 0 where
  pub total : ℕ  -- uint32
  pub hash : Bytes

pub record BlockId : Type 0 where
  pub hash : Bytes
  pub parts : PartSetHeader

-- tmhash.Size, the size of a SHA-256 hash
abbrev pub hash_size : ℕ
hash_size = 32

-- `ValidateHash`: a hash may be empty
unfoldable pub validate_hash : Bytes → Bool
validate_hash h = not (ltb 0 (length h) && not (length h == hash_size))

unfoldable pub parts_is_zero : PartSetHeader → Bool
parts_is_zero p = p.total == 0 && length p.hash == 0

unfoldable pub parts_equals : PartSetHeader → PartSetHeader → Bool
unfolding Bytes-discrete
parts_equals p q = p.total == q.total && holds (Bytes-discrete p.hash q.hash)

unfoldable pub equals : BlockId → BlockId → Bool
unfolding Bytes-discrete parts_equals
equals a b = holds (Bytes-discrete a.hash b.hash) && parts_equals a.parts b.parts

unfoldable pub is_zero : BlockId → Bool
unfolding parts_is_zero
is_zero b = length b.hash == 0 && parts_is_zero b.parts

unfoldable pub is_complete : BlockId → Bool
is_complete b =
    length b.hash == hash_size && ltb 0 b.parts.total && length b.parts.hash == hash_size

-- `BlockID.ValidateBasic`, the check that `BlockIDFromProto` ends with; `PartSetHeaderFromProto`
-- has made the second test before
unfoldable pub validate_basic : BlockId → Bool
unfolding validate_hash
validate_basic b = validate_hash b.hash && validate_hash b.parts.hash

-- `BlockID.Key`, over the generated encoding of the part-set header
unfoldable pub key : (PartSetHeader → Bytes) → BlockId → Bytes
key marshal b = b.hash ++ marshal b.parts
