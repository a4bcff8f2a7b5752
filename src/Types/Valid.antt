-- ===== src/Types/Valid.antt =====
-- `ValidateBasic` of votes and proposals, and what it gives to signing.
use tendermintx.Common.{
  ℕ, pos, negsuc, ltb_ℤ, true, false, not, ◌&&◌, Option, none, some, ◌≡◌, ◌⊎◌, inl, inr, refl,
  arith, ltb, ◌==◌, length, if◌then◌else◌, Bool-cases, Bytes,
}
use tendermintx.Types.BlockId
use tendermintx.Types.BlockId.{BlockId}
use tendermintx.Types.Vote.{
  Vote, Proposal, CanonicalVote, CanonicalProposal, is_vote_type_valid, canonicalize_block_id,
  canonicalize_vote, canonicalize_proposal, vote_of, proposal_of,
}

pub data ValidationError : Type 0 where
  invalid_type negative_height negative_round negative_pol_round : ValidationError
  wrong_block_id incomplete_block_id wrong_address_size negative_index : ValidationError
  missing_signature big_signature : ValidationError

-- `crypto.AddressSize` and `MaxSignatureSize`
abbrev pub address_size : ℕ
address_size = 20

abbrev pub max_signature_size : ℕ
max_signature_size = 64

-- The tests of the signature, which come last.
unfoldable pub validate_signature : Bytes → Option ValidationError
validate_signature signature =
    if length signature == 0
    then some missing_signature
    else if ltb max_signature_size (length signature)
    then some big_signature
    else none

-- `Vote.ValidateBasic`; `none` is no error
unfoldable pub validate_vote : Vote → Option ValidationError
unfolding validate_signature
validate_vote v =
    if not (is_vote_type_valid v.kind)
    then some invalid_type
    else if ltb_ℤ v.height (pos 0)
    then some negative_height
    else if ltb_ℤ v.round (pos 0)
    then some negative_round
    else if not (BlockId.validate_basic v.block_id)
    then some wrong_block_id
    else if not (BlockId.is_zero v.block_id) && not (BlockId.is_complete v.block_id)
    then some incomplete_block_id
    else if not (length v.validator_address == address_size)
    then some wrong_address_size
    else if ltb_ℤ v.validator_index (pos 0)
    then some negative_index
    else validate_signature v.signature

-- `Proposal.ValidateBasic`, after the test of the type
unfoldable pub validate_proposal : Proposal → Option ValidationError
unfolding validate_signature
validate_proposal p =
    if ltb_ℤ p.height (pos 0)
    then some negative_height
    else if ltb_ℤ p.round (pos 0)
    then some negative_round
    else if ltb_ℤ p.pol_round (negsuc 0)
    then some negative_pol_round
    else if not (BlockId.validate_basic p.block_id)
    then some wrong_block_id
    else if not (BlockId.is_complete p.block_id)
    then some incomplete_block_id
    else validate_signature p.signature

-- What signing relies on.
validate_vote-none :
    (v : Vote)
    → validate_vote v ≡ none
    → (is_vote_type_valid v.kind ≡ true)
      × (BlockId.validate_basic v.block_id ≡ true)
      × ((BlockId.is_zero v.block_id ≡ true) ⊎ (BlockId.is_complete v.block_id ≡ true))
unfolding validate_vote
validate_vote-none v e = elim (Bool-cases (BlockId.is_zero v.block_id)) [
  | inl empty ↦ (ground arith, ground arith, inl empty)
  | inr full ↦ (ground arith, ground arith, inr (ground arith))
]

validate_proposal-none :
    (p : Proposal)
    → validate_proposal p ≡ none
    → (BlockId.validate_basic p.block_id ≡ true) × (BlockId.is_complete p.block_id ≡ true)
unfolding validate_proposal
validate_proposal-none p e = (ground arith, ground arith)

complete-not_zero : (b : BlockId) → BlockId.is_complete b ≡ true → BlockId.is_zero b ≡ false
unfolding BlockId.is_complete BlockId.is_zero
complete-not_zero b e = ground arith

canonical_zero :
    (b : BlockId)
    → BlockId.validate_basic b ≡ true
    → BlockId.is_zero b ≡ true
    → canonicalize_block_id b ≡ some none
unfolding canonicalize_block_id
canonical_zero b valid e = rw (canonicalize_block_id, valid, e)

canonical_full :
    (b : BlockId)
    → BlockId.validate_basic b ≡ true
    → BlockId.is_zero b ≡ false
    → canonicalize_block_id b ≡ some (some b)
unfolding canonicalize_block_id
canonical_full b valid e = rw (canonicalize_block_id, valid, e)

module _ (chain_id : Bytes) where
  -- A vote that `ValidateBasic` accepts has a canonical form for signing, and its type is one of the
  -- two; the canonical block ID is missing for a zero block ID, and else it is the vote's, which is
  -- complete.
  pub validate_vote-canonicalize :
      (v : Vote)
      → validate_vote v ≡ none
      → (is_vote_type_valid v.kind ≡ true)
        × ((c : CanonicalVote) × (canonicalize_vote chain_id v ≡ some c)
            × (((c.block_id ≡ none) × (BlockId.is_zero v.block_id ≡ true))
                ⊎ ((c.block_id ≡ some v.block_id) × (BlockId.is_complete v.block_id ≡ true))))
  unfolding canonicalize_vote vote_of
  validate_vote-canonicalize v e =
      let (kind, valid, which) = validate_vote-none v e in
      elim which [
        | inl empty ↦ (
          kind,
          (
            vote_of chain_id v none,
            rw (canonicalize_vote, canonical_zero v.block_id valid empty),
            inl (refl, empty),
          ),
        )
        | inr full ↦ (
          kind,
          (
            vote_of chain_id v (some v.block_id),
            rw (
              canonicalize_vote,
              canonical_full v.block_id valid (complete-not_zero v.block_id full),
            ),
            inr (refl, full),
          ),
        )
      ]

  -- A proposal that `ValidateBasic` accepts has a canonical form for signing, with its own block ID,
  -- which is complete.
  pub validate_proposal-canonicalize :
      (p : Proposal)
      → validate_proposal p ≡ none
      → (c : CanonicalProposal) × (canonicalize_proposal chain_id p ≡ some c)
        × (c.block_id ≡ some p.block_id)
        × (BlockId.is_complete p.block_id ≡ true)
  unfolding canonicalize_proposal proposal_of
  validate_proposal-canonicalize p e =
      let (valid, full) = validate_proposal-none p e in
      (
        proposal_of chain_id p (some p.block_id),
        rw (
          canonicalize_proposal,
          canonical_full p.block_id valid (complete-not_zero p.block_id full),
        ),
        refl,
        full,
      )
