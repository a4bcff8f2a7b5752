-- ===== src/PartSet.antt =====
-- types/part_set.go: the parts of a block, each with a Merkle proof, and their assembly. The mutex
-- makes each method atomic; the bits of the parts that are there are those of the parts themselves.
use tendermintx.Common.{
  ℕ, ◌+◌, Bytes, Bool, true, false, Option, none, some, List, [], ◌∷◌, ◌++◌, get_elem?, set,
  replicate, leb, ◌==◌, if◌then◌else◌, Run, ok, panic, ◌>>=◌,
}
use tendermintx.Types.BlockId.{PartSetHeader, parts_equals}
use tendermintx.Merkle.Tree.{Hash}
use tendermintx.Merkle.Proof.{Proof, verify}
pub mod Assembly
pub mod Split
mod Tests

pub record Part : Type 0 where
  pub index : ℕ  -- uint32
  pub bytes : Bytes
  pub proof : Proof

pub record PartSet : Type 0 where
  pub total : ℕ  -- uint32
  pub hash : Bytes
  pub parts : List (Option Part)
  pub count : ℕ

pub data PartSetError : Type 0 where
  unexpected_index invalid_proof : PartSetError

unfoldable pub new_part_set_from_header : PartSetHeader → PartSet
new_part_set_from_header header = record {
  total = header.total;
  hash = header.hash;
  parts = replicate header.total none;
  count = 0;
}

-- a nil part set has the zero header
unfoldable pub header : Option PartSet → PartSetHeader
header none = record { total = 0; hash = [] }
header (some ps) = record { total = ps.total; hash = ps.hash }

unfoldable pub has_header : Option PartSet → PartSetHeader → Bool
unfolding header
has_header none h = false
has_header (some ps) h = parts_equals (header (some ps)) h

unfoldable pub add_part : Hash → Part → PartSet → Run (PartSet × Bool × Option PartSetError)
add_part hash part ps =
    if leb ps.total part.index
    then ok (ps, false, some unexpected_index)
    else elim (get_elem? ps.parts part.index) [
      | none ↦ panic
      | some (some _) ↦ ok (ps, false, none)
      | some none ↦ elim (verify hash part.proof ps.hash part.bytes) [
        | some _ ↦ ok (ps, false, some invalid_proof)
        | none ↦ ok (
          record ps { parts = set ps.parts part.index (some part); count = ps.count + 1 },
          true,
          none,
        )
      ]
    ]

unfoldable pub is_complete : PartSet → Bool
is_complete ps = ps.count == ps.total

-- What `PartSetReader` reads up to its end; a missing part is a nil dereference.
unfoldable pub read_parts : List (Option Part) → Run Bytes
read_parts [] = ok []
read_parts (none ∷ parts) = panic
read_parts (some p ∷ parts) = read_parts parts >>= λ rest. ok (p.bytes ++ rest)

-- `GetReader`, read to its end; it panics without a first part.
unfoldable pub read_all : PartSet → Run Bytes
unfolding is_complete read_parts
read_all ps =
    if is_complete ps
    then elim ps.parts [ [] ↦ panic | p ∷ parts ↦ read_parts (p ∷ parts) ]
    else panic
