-- ===== src/VoteSet/Read.antt =====
-- The methods that read single votes and bits; a nil `*VoteSet` is `none`.
use tendermintx.Common.{
  get_elem?-below, get_elem?-map, ℕ, suc, ◌<◌, ℤ, pos, negsuc, Bytes, Bytes-discrete, Bool, Option,
  none, some, List, [], ◌∷◌, ◌≡◌, refl, ap, ◌∙◌, arith, get_elem?, if◌then◌else◌, find, Run, ok,
  panic,
}
use tendermintx.Types.BlockId.{BlockId}
use tendermintx.Types.Vote.{Vote}
use tendermintx.VoteSet.Defs.{Validator, Crypto, VoteSet, size, key, is_some, bytes_equal}
use tendermintx.VoteSet.Majority.{Reach, Reach-Inv}

unfoldable pub bit_array : Option VoteSet → Option (List Bool)
bit_array none = none
bit_array (some s) = some s.votes_bit_array

unfoldable pub bit_array_by_block_id : Crypto → BlockId → Option VoteSet → Option (List Bool)
bit_array_by_block_id crypto b none = none
bit_array_by_block_id crypto b (some s) =
    elim (find Bytes-discrete (key crypto b) s.votes_by_block) [
      | none ↦ none
      | some bv ↦ some bv.bit_array
    ]

-- `VoteSet.GetByIndex`
unfoldable pub vote_by_index : ℤ → Option VoteSet → Run (Option Vote)
vote_by_index i none = ok none
vote_by_index (negsuc _) (some s) = panic
vote_by_index (pos i) (some s) = elim (get_elem? s.votes i) [ none ↦ panic | some o ↦ ok o ]

-- `ValidatorSet.GetByAddress`, from the index `i` on
unfoldable pub find_address : Bytes → ℕ → List Validator → Option (ℕ × Validator)
find_address address i [] = none
find_address address i (v ∷ vs) =
    let rest = find_address address (suc i) vs in
    if bytes_equal v.address address then some (i, v) else rest

-- `VoteSet.GetByAddress`
unfoldable pub vote_by_address : Bytes → Option VoteSet → Run (Option Vote)
unfolding find_address vote_by_index
vote_by_address address none = ok none
vote_by_address address (some s) = elim (find_address address 0 s.val_set.validators) [
  | none ↦ panic
  | some (i, v) ↦ vote_by_index (pos i) (some s)
]

vote_by_index-run :
    (s : VoteSet) (i : ℕ) {o : Option Vote}
    → get_elem? s.votes i ≡ some o
    → vote_by_index (pos i) (some s) ≡ ok o
unfolding vote_by_index
vote_by_index-run s i e = rw (vote_by_index, e)

-- In a vote set that the methods give, reading the vote of an index below the size returns without
-- a panic, and the bit of `BitArray` at the index says whether there is a vote.
pub vote_by_index-bit_array :
    (crypto : Crypto) (s : VoteSet) (i : ℕ)
    → Reach crypto s
    → i < size s.val_set
    → (o : Option Vote) × (bits : List Bool) × (vote_by_index (pos i) (some s) ≡ ok o)
      × (bit_array (some s) ≡ some bits)
      × (get_elem? bits i ≡ some (is_some o))
unfolding bit_array
vote_by_index-bit_array crypto s i r low =
    let inv = Reach-Inv crypto r in
    let (o, e) = get_elem?-below s.votes i (omega (arith, low, inv.sized)) in
    (
      o,
      s.votes_bit_array,
      vote_by_index-run s i e,
      refl,
      ap (λ l. get_elem? l i) inv.bits ∙ get_elem?-map is_some s.votes i e,
    )
