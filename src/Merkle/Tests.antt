-- ===== src/Merkle/Tests.antt =====
-- A tree of two items, with a hash that pads its input.
use tendermintx.Common.{
  ℕ, pos, Bytes, Bytes-discrete, none, some, List, [], ◌∷◌, ◌≡◌, ◌⊎◌, refl, arith, length,
  get_elem?, ok,
}
use tendermintx.Merkle.Split.{get_split_point, bits_len}
use tendermintx.Merkle.Padding.{pad, padding_hash}
use tendermintx.Merkle.Tree.{leaf_hash, inner_hash, hash_from_byte_slices}
use tendermintx.Merkle.Proof.{
  Proof, proofs_from_byte_slices, compute_hash, compute_hash_from_aunts, verify, validate_proof,
}
use tendermintx.Merkle.Climb.{Collision}
use tendermintx.Merkle.Sound.{verify_sound, verify_empty_root}
use tendermintx.Merkle.Complete.{proofs_complete}
use tendermintx.Merkle.Iterative.{hash_from_byte_slices_iterative, iterative_same}

abbrev two_items : List Bytes
two_items = (5 ∷ []) ∷ (6 ∷ []) ∷ []

abbrev first_proof : Proof
first_proof = record {
  total = pos 2;
  index = pos 0;
  leaf_hash = some (leaf_hash padding_hash (5 ∷ []));
  aunts = leaf_hash padding_hash (6 ∷ []) ∷ [];
}

first_proof-valid : validate_proof first_proof ≡ none
unfolding validate_proof leaf_hash padding_hash pad
first_proof-valid = refl

first_proof-verified :
    verify padding_hash first_proof (hash_from_byte_slices padding_hash two_items) (5 ∷ []) ≡ none
unfolding verify hash_from_byte_slices compute_hash_from_aunts compute_hash leaf_hash inner_hash
    padding_hash pad get_split_point bits_len Bytes-discrete
first_proof-verified = refl

split_points : get_split_point 5 ≡ 4
unfolding get_split_point bits_len
split_points = refl

verify_sound_example : (get_elem? two_items 0 ≡ some (5 ∷ [])) ⊎ Collision padding_hash
verify_sound_example =
    verify_sound padding_hash two_items (5 ∷ []) first_proof 0 (omega arith) refl refl
      first_proof-valid first_proof-verified

verify_empty_root_example :
    verify padding_hash
      (record {
        total = pos 0;
        index = pos 0;
        leaf_hash = some (leaf_hash padding_hash (9 ∷ []));
        aunts = [];
      })
      []
      (9 ∷ [])
    ≡ none
verify_empty_root_example =
    verify_empty_root padding_hash (9 ∷ []) _ 0 0 refl refl (omega arith) refl

proofs_complete_example :
    (proofs : List Proof) × (proofs_from_byte_slices padding_hash two_items
      ≡ ok (hash_from_byte_slices padding_hash two_items, proofs))
    × (length proofs ≡ length two_items)
    × ((i : ℕ) (item : Bytes)
        → get_elem? two_items i ≡ some item
        → (p : Proof) × (get_elem? proofs i ≡ some p)
          × (verify padding_hash p (hash_from_byte_slices padding_hash two_items) item ≡ none)
          × (p.index ≡ pos i)
          × (p.total ≡ pos (length two_items)))
proofs_complete_example = proofs_complete padding_hash two_items (omega arith)

iterative_same_example :
    hash_from_byte_slices_iterative padding_hash two_items
    ≡ hash_from_byte_slices padding_hash two_items
iterative_same_example = iterative_same padding_hash two_items
