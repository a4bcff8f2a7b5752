-- ===== src/PartSet/Tests.antt =====
-- A block of two parts, with a hash that pads its input.
use tendermintx.Common.{
  ◌^◌, ◌-◌, panic, ℕ, pos, Bytes, none, some, List, [], ◌∷◌, ◌≡◌, ◌⊎◌, refl, arith, All, true, ok,
}
use tendermintx.Merkle.Padding.{pad, padding_hash}
use tendermintx.Merkle.Tree.{leaf_hash}
use tendermintx.Merkle.Proof.{Proof, validate_proof}
use tendermintx.Merkle.Climb.{Collision}
use tendermintx.PartSet.{Part, PartSet, new_part_set_from_header, add_part, is_complete, read_all}
use tendermintx.PartSet.Split.{new_part_set_from_data, new_part_set-read, new_part_set-overflow}
use tendermintx.PartSet.Assembly.{Placed, add_parts, header_of, add_parts-joined, add_part_anywhere}

abbrev two_chunks : List Bytes
two_chunks = (5 ∷ []) ∷ (6 ∷ []) ∷ []

abbrev part_of : ℕ → Bytes → Bytes → Part
part_of i item aunt = record {
  index = i;
  bytes = item;
  proof = record {
    total = pos 2;
    index = pos i;
    leaf_hash = some (leaf_hash padding_hash item);
    aunts = leaf_hash padding_hash aunt ∷ [];
  };
}

-- The second part comes first.
abbrev both_parts : List Part
both_parts = part_of 1 (6 ∷ []) (5 ∷ []) ∷ part_of 0 (5 ∷ []) (6 ∷ []) ∷ []

both_parts-Placed : All (Placed padding_hash two_chunks) both_parts
unfolding validate_proof leaf_hash padding_hash pad
both_parts-Placed = (
  record { total = refl; index = refl; valid = refl },
  (record { total = refl; index = refl; valid = refl }, tt),
)

add_parts-joined_example :
    (ps : PartSet) × (add_parts padding_hash both_parts
        (new_part_set_from_header (header_of padding_hash two_chunks))
      ≡ ok ps)
    × (is_complete ps ≡ true → (read_all ps ≡ ok (5 ∷ 6 ∷ [])) ⊎ Collision padding_hash)
add_parts-joined_example =
    add_parts-joined padding_hash two_chunks both_parts (omega arith) both_parts-Placed

add_part_anywhere_example :
    (p : Proof) × (ps : PartSet) × (p.index ≡ pos 0)
    × (add_part padding_hash
          (record { index = 1; bytes = 5 ∷ []; proof = p })
          (new_part_set_from_header (header_of padding_hash two_chunks))
        ≡ ok (ps, true, none))
add_part_anywhere_example =
    add_part_anywhere padding_hash two_chunks 0 1 (5 ∷ []) refl (omega arith)

new_part_set-read_example :
    (ps : PartSet) × (new_part_set_from_data padding_hash (5 ∷ 6 ∷ 7 ∷ []) 2 ≡ ok ps)
    × (is_complete ps ≡ true)
    × (read_all ps ≡ ok (5 ∷ 6 ∷ 7 ∷ []))
new_part_set-read_example =
    new_part_set-read padding_hash (5 ∷ 6 ∷ 7 ∷ []) 2 (omega arith) (omega arith) (omega arith)

new_part_set-overflow_example :
    new_part_set_from_data padding_hash (5 ∷ 6 ∷ []) (2 ^ 32 - 1) ≡ panic
new_part_set-overflow_example =
    new_part_set-overflow padding_hash (5 ∷ 6 ∷ []) (2 ^ 32 - 1) (omega arith) (omega arith)
      (omega arith)
