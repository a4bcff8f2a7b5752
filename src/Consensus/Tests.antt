-- ===== src/Consensus/Tests.antt =====
-- One validator proposes, votes and commits a block of one part.
use tendermintx.Common.{
  ℤ, pos, ◌+ℤ◌, ◌-ℤ◌, ℤ-discrete, ℕ_discrete, Bytes, Bytes-discrete, false, [], ◌≡◌, ◌≢◌, refl,
  arith, find, store, All, ok,
}
use tendermintx.Types.BlockId
use tendermintx.Types.BlockId.{
  BlockId, PartSetHeader, parts_equals, parts_is_zero, is_zero, validate_hash,
}
use tendermintx.Types.Vote.{
  canonicalize_vote, canonicalize_block_id, is_vote_type_valid, SignedMsgType-discrete,
}
use tendermintx.VoteSet.Defs as VoteSets
use tendermintx.VoteSet.Defs.{
  Crypto, ValidatorSet, VoteSet, new_vote_set, add_new, get_vote, block_vote, get_by_index,
  added_result, add_verified_vote, record_vote, count_vote, add_to_block, new_block_votes,
  copy_votes, quorum, two_thirds_majority, has_two_thirds_any, has_two_thirds_majority, has_all,
}
use tendermintx.HeightVoteSet.Defs as HeightVoteSets
use tendermintx.HeightVoteSet.Defs.{
  HeightVoteSet, reset, add_round, add_rounds, set_round, turns, wrap_int32, safe_sub_int32,
  add_to_set, get_vote_set, put_vote_set, catchup_rounds, pol_info, pol_below, prevote_majority,
}
use tendermintx.HeightVoteSet.Stays.{Typed, reset-Typed}
use tendermintx.Merkle.Split.{get_split_point, bits_len, bits_len_from}
use tendermintx.Merkle.Padding.{pad, padding_hash}
use tendermintx.Merkle.Tree.{leaf_hash, inner_hash}
use tendermintx.Merkle.Proof.{verify, compute_hash, compute_hash_from_aunts}
use tendermintx.PartSet.{
  header, has_header, new_part_set_from_header, add_part, is_complete, read_all, read_parts,
}
use tendermintx.Consensus.State.{State, new_height, safe_add_int32, hashes_to, compare_hrs}
use tendermintx.Consensus.Sign.{
  vote_time, unsigned_vote, send_vote, sign_add_vote, default_do_prevote, enter_prevote,
  create_proposal_block, send_parts, send_proposal, decide_proposal, propose_turn,
}
use tendermintx.Consensus.Enter.{
  is_proposal_complete, enter_propose, round_validators, enter_new_round, precommit_majority,
  enter_precommit, enter_precommit_wait,
}
use tendermintx.Consensus.Commit.{
  next_last_commit, update_to_state, apply_commit, finalize_commit, try_finalize_commit,
  enter_commit,
}
use tendermintx.Consensus.Handle.{
  unlock_recent, update_valid, current_prevotes, prevote_transition, after_prevote, commit_block,
  after_precommit, vote_transition, add_vote, try_add_vote,
}
use tendermintx.Consensus.Events.{
  receive, handle, handle_msg, handle_timeout, set_proposal, add_proposal_block_part, add_to_parts,
  complete_proposal,
}
use tendermintx.Consensus.Rules.{core, Moves}
use tendermintx.Consensus.Refine.Events.{receive_refines}
use tendermintx.Consensus.Invariants.{
  Justified, Recorded, Decided, receive-Justified, receive_monotone, receive-saved,
}
use tendermintx.Consensus.Returns.{Acceptable, enter_precommit_returns}
use tendermintx.Consensus.Example.{
  easy_crypto, easy_env, one_validator, first_height, opening, whole_height, locked_state,
  next_state,
}

whole_height-run :
    receive easy_env easy_crypto padding_hash whole_height first_height ≡ ok next_state
unfolding receive handle handle_msg handle_timeout enter_new_round round_validators safe_add_int32
    set_round safe_sub_int32 add_rounds wrap_int32 turns add_round new_vote_set reset find store
    ℤ-discrete ℕ_discrete Bytes-discrete enter_propose propose_turn decide_proposal
    create_proposal_block send_proposal send_parts header is_proposal_complete set_proposal
    new_part_set_from_header add_proposal_block_part add_to_parts add_part verify
    compute_hash_from_aunts compute_hash leaf_hash inner_hash get_split_point bits_len bits_len_from
    is_complete read_all read_parts complete_proposal enter_prevote default_do_prevote sign_add_vote
    unsigned_vote send_vote vote_time try_add_vote add_vote vote_transition after_prevote
    after_precommit HeightVoteSets.add_vote add_to_set get_vote_set put_vote_set catchup_rounds
    is_vote_type_valid VoteSets.add_vote get_by_index add_new get_vote block_vote VoteSets.verify
    BlockId.key add_to_block copy_votes new_block_votes quorum add_verified_vote added_result
    count_vote record_vote SignedMsgType-discrete canonicalize_vote canonicalize_block_id
    validate_hash unlock_recent update_valid hashes_to has_header parts_equals prevote_transition
    current_prevotes enter_precommit precommit_majority pol_info pol_below prevote_majority
    two_thirds_majority commit_block enter_commit try_finalize_commit finalize_commit apply_commit
    update_to_state next_last_commit enter_precommit_wait ◌+ℤ◌ ◌-ℤ◌ pad padding_hash easy_crypto
    easy_env is_zero parts_is_zero has_two_thirds_any has_two_thirds_majority has_all
whole_height-run = refl

opening-run : receive easy_env easy_crypto padding_hash opening first_height ≡ ok locked_state
unfolding receive handle handle_msg handle_timeout enter_new_round round_validators safe_add_int32
    set_round safe_sub_int32 add_rounds wrap_int32 turns add_round new_vote_set reset find store
    ℤ-discrete ℕ_discrete Bytes-discrete enter_propose propose_turn decide_proposal
    create_proposal_block send_proposal send_parts header is_proposal_complete set_proposal
    new_part_set_from_header add_proposal_block_part add_to_parts add_part verify
    compute_hash_from_aunts compute_hash leaf_hash inner_hash get_split_point bits_len bits_len_from
    is_complete read_all read_parts complete_proposal enter_prevote default_do_prevote sign_add_vote
    unsigned_vote send_vote vote_time try_add_vote add_vote vote_transition after_prevote
    after_precommit HeightVoteSets.add_vote add_to_set get_vote_set put_vote_set catchup_rounds
    is_vote_type_valid VoteSets.add_vote get_by_index add_new get_vote block_vote VoteSets.verify
    BlockId.key add_to_block copy_votes new_block_votes quorum add_verified_vote added_result
    count_vote record_vote SignedMsgType-discrete canonicalize_vote canonicalize_block_id
    validate_hash unlock_recent update_valid hashes_to has_header parts_equals prevote_transition
    current_prevotes enter_precommit precommit_majority pol_info pol_below prevote_majority
    two_thirds_majority commit_block enter_commit try_finalize_commit finalize_commit apply_commit
    update_to_state next_last_commit enter_precommit_wait ◌+ℤ◌ ◌-ℤ◌ pad padding_hash easy_crypto
    easy_env is_zero parts_is_zero has_two_thirds_any has_two_thirds_majority has_all
opening-run = refl

receive_refines_example : Moves easy_env (core easy_env first_height) (core easy_env next_state)
receive_refines_example =
    receive_refines easy_env easy_crypto padding_hash whole_height first_height next_state
      whole_height-run

first_height-Justified : Justified easy_env (core easy_env first_height)
first_height-Justified = record { lock_backed = refl; valid_backed = refl }

receive-Justified_example : Justified easy_env (core easy_env locked_state)
receive-Justified_example =
    receive-Justified easy_env easy_crypto padding_hash opening first_height locked_state
      opening-run first_height-Justified

chain-running : (chain : ℤ) → easy_env.is_empty chain ≡ false
unfolding easy_env
chain-running chain = refl

receive_monotone_example :
    compare_hrs (pos 1) (pos 0) new_height next_state.height next_state.round next_state.step
    ≢ pos 1
receive_monotone_example =
    receive_monotone easy_env easy_crypto padding_hash whole_height first_height next_state
      chain-running whole_height-run

first_reset : reset [] (pos 1) one_validator ≡ ok first_height.votes
unfolding reset add_round find store new_vote_set
first_reset = refl

first_height-Recorded : Recorded easy_env (core easy_env first_height)
first_height-Recorded = record {
  typed = reset-Typed [] (pos 1) one_validator first_height.votes first_reset;
  decided = tt;
}

receive-saved_example : Typed next_state.votes × All (Decided easy_env) next_state.saved
receive-saved_example =
    receive-saved easy_env easy_crypto padding_hash whole_height first_height next_state
      whole_height-run first_height-Recorded

first_height-Acceptable : Acceptable easy_env (pos 0) first_height
unfolding easy_env
first_height-Acceptable b id found polka same = refl

first_round : first_height.votes.round ≡ pos 0
unfolding reset add_round find store new_vote_set
first_round = refl

enter_precommit_returns_example :
    (t : State Bytes ℤ ValidatorSet Bytes) × (enter_precommit easy_env (pos 1) (pos 0) first_height
      ≡ ok t)
    × Moves easy_env (core easy_env first_height) (core easy_env t)
enter_precommit_returns_example =
    enter_precommit_returns easy_env (pos 1) 0 0 first_height first_round (omega arith)
      first_height-Acceptable
