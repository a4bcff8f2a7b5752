-- ===== src/VoteSet/Defs/Methods.antt =====
-- The methods of a vote set.
use tendermintx.Common.{
  ℕ, ℤ, pos, negsuc, ◌+◌, ◌*◌, ◌/◌, Bytes, Bytes-discrete, Bool, true, false, not, ◌&&◌, Option,
  none, some, ltb, leb, ◌==◌, ◌==ℤ◌, if◌then◌else◌, holds, length, get_elem?, set, find, store, Run,
  ok, panic, ◌>>=◌,
}
use tendermintx.Types.BlockId
use tendermintx.Types.BlockId.{BlockId, PartSetHeader}
use tendermintx.Types.Vote.{Vote, precommit, SignedMsgType-discrete, canonicalize_vote}
use tendermintx.VoteSet.Defs.Data.{
  Validator, ValidatorSet, Crypto, VoteError, BlockVotes, VoteSet, size, bytes_equal, is_some,
  new_block_votes, add_to_block, copy_votes, quorum, vote_nil, unexpected_step, invalid_index,
  invalid_address, invalid_signature, non_deterministic_signature, peer_maj23_conflict,
  conflicting_votes,
}

module _ (crypto : Crypto) where
  abbrev pub key : BlockId → Bytes
  key = BlockId.key crypto.marshal_parts

  -- `Vote.Verify`: `none` is success
  unfoldable pub verify : Bytes → Bytes → Vote → Run (Option VoteError)
  verify chain_id pub_key vote =
      if not (bytes_equal (crypto.address_of pub_key) vote.validator_address)
      then ok (some invalid_address)
      else elim (canonicalize_vote chain_id vote) [
        | none ↦ panic
        | some c ↦ elim (crypto.marshal_vote c) [
          | none ↦ panic
          | some b ↦ ok (
              if crypto.verify_bytes pub_key b vote.signature then none else some invalid_signature)
        ]
      ]

  -- the votes of the block that a key stands for; a nil `*blockVotes` has none
  unfoldable pub block_vote : Bytes → ℕ → VoteSet → Run (Option Vote)
  block_vote block_key i s = elim (find Bytes-discrete block_key s.votes_by_block) [
    | none ↦ ok none
    | some bv ↦ elim (get_elem? bv.votes i) [ none ↦ panic | some v ↦ ok v ]
  ]

  unfoldable pub get_vote : ℕ → Bytes → VoteSet → Run (Option Vote)
  get_vote i block_key s = elim (get_elem? s.votes i) [
    | none ↦ panic
    | some none ↦ block_vote block_key i s
    | some (some v) ↦
        if bytes_equal (key v.block_id) block_key then ok (some v) else block_vote block_key i s
  ]

  -- The canonical votes after a verified vote: the state, and the vote that it conflicts with.
  unfoldable pub record_vote : ℕ → Vote → Bytes → ℕ → VoteSet → Run (VoteSet × Option Vote)
  record_vote i vote block_key power s = elim (get_elem? s.votes i) [
    | none ↦ panic
    | some none ↦ ok (
      record s {
        votes = set s.votes i (some vote);
        votes_bit_array = set s.votes_bit_array i true;
        sum = s.sum + power;
      },
      none,
    )
    | some (some v) ↦ if BlockId.equals v.block_id vote.block_id then panic else elim s.maj23 [
      | none ↦ ok (s, some v)
      | some b ↦
          if bytes_equal (key b) block_key
          then ok (
            record s {
              votes = set s.votes i (some vote);
              votes_bit_array = set s.votes_bit_array i true;
            },
            some v,
          )
          else ok (s, some v)
    ]
  ]

  -- The end of `addVerifiedVote`: the vote is counted for its block, which may give the first quorum.
  unfoldable pub count_vote : ℕ → Vote → Bytes → ℕ → BlockVotes → VoteSet → Run VoteSet
  count_vote i vote block_key power bv s = do
    bv' ← add_to_block i vote power bv
    let t = record s { votes_by_block = store Bytes-discrete block_key bv' s.votes_by_block }
    ok (
        if ltb bv.sum (quorum s.val_set) && leb (quorum s.val_set) bv'.sum && not (is_some s.maj23)
        then record t { maj23 = some vote.block_id; votes = copy_votes bv'.votes t.votes }
        else t)

  unfoldable pub add_verified_vote :
      ℕ → Vote → Bytes → ℕ → VoteSet → Run (VoteSet × Bool × Option Vote)
  add_verified_vote i vote block_key power s0 = do
    (s, conflicting) ← record_vote i vote block_key power s0
    elim (find Bytes-discrete block_key s.votes_by_block) [
      | some bv ↦
          if is_some conflicting && not bv.peer_maj23
          then ok (s, false, conflicting)
          else count_vote i vote block_key power bv s >>= λ t. ok (t, true, conflicting)
      | none ↦
          if is_some conflicting
          then ok (s, false, conflicting)
          else count_vote i vote block_key power (new_block_votes false (size s.val_set)) s >>= λ t.
              ok (t, true, conflicting)
    ]

  -- The result of `addVote` from that of `addVerifiedVote`.
  unfoldable pub added_result :
      Vote → VoteSet × Bool × Option Vote → Run (VoteSet × Bool × Option VoteError)
  added_result vote (t, added, some v) = ok (t, added, some (conflicting_votes v vote))
  added_result vote (t, true, none) = ok (t, true, none)
  added_result vote (t, false, none) = panic

  -- `addVote` from the search for a known vote on
  unfoldable pub add_new : ℕ → Validator → Vote → VoteSet → Run (VoteSet × Bool × Option VoteError)
  add_new i val vote s = do
    known ← get_vote i (key vote.block_id) s
    elim known [
      | some v ↦
          if bytes_equal v.signature vote.signature
          then ok (s, false, none)
          else ok (s, false, some non_deterministic_signature)
      | none ↦ do
        bad ← verify s.chain_id val.pub_key vote
        elim bad [
          | some e ↦ ok (s, false, some e)
          | none ↦
              add_verified_vote i vote (key vote.block_id) val.voting_power s >>= added_result vote
        ]
    ]

  abbrev pub same_step : Vote → VoteSet → Bool
  same_step vote s =
      vote.height ==ℤ s.height
      && vote.round ==ℤ s.round
      && holds (SignedMsgType-discrete vote.kind s.signed_msg_type)

  -- `ValidatorSet.GetByIndex`
  unfoldable pub get_by_index : ℤ → ValidatorSet → Option (ℕ × Validator)
  get_by_index (negsuc _) vals = none
  get_by_index (pos i) vals = elim (get_elem? vals.validators i) [
    | none ↦ none
    | some v ↦ some (i, v)
  ]

  abbrev pub is_negative : ℤ → Bool
  is_negative (pos _) = false
  is_negative (negsuc _) = true

  -- `AddVote`; a nil vote is `none`
  unfoldable pub add_vote : Option Vote → VoteSet → Run (VoteSet × Bool × Option VoteError)
  add_vote none s = ok (s, false, some vote_nil)
  add_vote (some vote) s =
      if is_negative vote.validator_index
      then ok (s, false, some invalid_index)
      else if length vote.validator_address == 0
      then ok (s, false, some invalid_address)
      else if not (same_step vote s)
      then ok (s, false, some unexpected_step)
      else elim (get_by_index vote.validator_index s.val_set) [
        | none ↦ ok (s, false, some invalid_index)
        | some (i, val) ↦
            if not (bytes_equal vote.validator_address val.address)
            then ok (s, false, some invalid_address)
            else add_new i val vote s
      ]

  -- `SetPeerMaj23`: `none` is no error
  unfoldable pub set_peer_maj23 : Bytes → BlockId → VoteSet → VoteSet × Option VoteError
  set_peer_maj23 peer block_id s = elim (find Bytes-discrete peer s.peer_maj23s) [
    | some b ↦ if BlockId.equals b block_id then (s, none) else (s, some peer_maj23_conflict)
    | none ↦
        let t = record s { peer_maj23s = store Bytes-discrete peer block_id s.peer_maj23s } in
        elim (find Bytes-discrete (key block_id) s.votes_by_block) [
          | some bv ↦ if bv.peer_maj23 then (t, none) else (
            record t {
              votes_by_block =
                  store Bytes-discrete (key block_id) (record bv { peer_maj23 = true })
                    s.votes_by_block;
            },
            none,
          )
          | none ↦ (
            record t {
              votes_by_block =
                  store Bytes-discrete (key block_id) (new_block_votes true (size s.val_set))
                    s.votes_by_block;
            },
            none,
          )
        ]
  ]

unfoldable pub two_thirds_majority : VoteSet → Option BlockId
two_thirds_majority s = s.maj23

unfoldable pub has_two_thirds_majority : VoteSet → Bool
has_two_thirds_majority s = is_some s.maj23

unfoldable pub has_two_thirds_any : VoteSet → Bool
has_two_thirds_any s = ltb (s.val_set.total_voting_power * 2 / 3) s.sum

unfoldable pub has_all : VoteSet → Bool
has_all s = s.sum == s.val_set.total_voting_power

unfoldable pub is_commit : VoteSet → Bool
unfolding SignedMsgType-discrete
is_commit s = holds (SignedMsgType-discrete s.signed_msg_type precommit) && is_some s.maj23
