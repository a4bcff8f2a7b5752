-- ===== src/Merkle/Padding.antt =====
-- A hash function for the tests, which pads its input.
use tendermintx.Common.{ℕ, zero, suc, Bytes, [], ◌∷◌, ◌≡◌, refl, ap, length}
use tendermintx.Merkle.Tree.{Hash}

unfoldable pub pad : ℕ → Bytes → Bytes
pad zero b = []
pad (suc n) [] = 0 ∷ pad n []
pad (suc n) (x ∷ b) = x ∷ pad n b

pub length-pad : (n : ℕ) (b : Bytes) → length (pad n b) ≡ n
unfolding pad
length-pad zero b = refl
length-pad (suc n) [] = ap suc (length-pad n [])
length-pad (suc n) (x ∷ b) = ap suc (length-pad n b)

unfoldable pub padding_hash : Hash
unfolding pad
padding_hash = record { sum = pad 32; size = length-pad 32 }
