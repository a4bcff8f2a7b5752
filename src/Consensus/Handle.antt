-- ===== src/Consensus/Handle.antt =====
-- Votes that are added, and the transitions they cause.
use tendermintx.Common.{
  ℤ, pos, ◌+ℤ◌, ◌==ℤ◌, ltb_ℤ, Bytes, Bool, true, false, not, ◌&&◌, ◌||◌, Option, none, some, [],
  ◌∷◌, ◌++◌, length, leb, ◌==◌, if◌then◌else◌, Run, ok, panic, ◌>>=◌,
}
use tendermintx.Types.BlockId.{BlockId}
use tendermintx.Types.Vote.{Vote, Proposal, SignedMsgType, prevote, precommit}
use tendermintx.VoteSet.Defs as VoteSets
use tendermintx.VoteSet.Defs.{
  Crypto, VoteSet, VoteError, conflicting_votes, bytes_equal, is_some, has_all,
}
use tendermintx.HeightVoteSet.Defs as HeightVoteSets
use tendermintx.HeightVoteSet.Defs.{HeightVoteSet, HeightVoteError, rejected}
use tendermintx.PartSet.{has_header, new_part_set_from_header}
use tendermintx.Consensus.State.{
  Env, new_height, prevoted, step_number, prevotes, precommits, majority, any_two_thirds, hashes_to,
}
use tendermintx.Consensus.Sign.{S, enter_prevote}
use tendermintx.Consensus.Enter.{
  is_proposal_complete, enter_new_round, enter_prevote_wait, enter_precommit, enter_precommit_wait,
  unlock,
}
use tendermintx.Consensus.Commit.{enter_commit}

module _ {Block Chain Vals Signer : Type 0} (env : Env Block Chain Vals Signer) where
  -- `savePOLC`; a node without a key dereferences nil.
  unfoldable pub save_polc : ℤ → BlockId → S env → Run (S env)
  save_polc r b s = if r ==ℤ pos 0 then ok s else elim s.signer [
    | none ↦ panic
    | some key ↦ elim (env.address key) [
      | none ↦ ok s
      | some a ↦ prevotes r s >>= λ v.
          ok (if env.save_polc v a b then record s { polcs = s.polcs ++ (r, b) ∷ [] } else s)
    ]
  ]

  -- A majority of prevotes of a later round than that of the lock, and not for the locked block.
  abbrev pub unlocks : ℤ → BlockId → S env → Bool
  unlocks r b s =
      is_some s.locked_block
      && ltb_ℤ s.locked_round r
      && not (ltb_ℤ s.round r)
      && not (hashes_to env s.locked_block b.hash)

  unfoldable pub unlock_recent : ℤ → BlockId → S env → Run (S env)
  unfolding save_polc hashes_to
  unlock_recent r b s = if unlocks r b s then save_polc r b (unlock env s) else ok s

  abbrev pub set_valid : ℤ → S env → S env
  set_valid r s = record s {
    valid_round = r;
    valid_block = s.proposal_block;
    valid_block_parts = s.proposal_block_parts;
  }

  -- The proposal block with a majority of prevotes is the valid one; another one is dropped.
  abbrev pub revalue : ℤ → BlockId → S env → S env
  revalue r b s =
      if hashes_to env s.proposal_block b.hash
      then set_valid r s
      else record s { proposal_block = none }

  abbrev pub expect_parts : BlockId → S env → S env
  expect_parts b s =
      if has_header s.proposal_block_parts b.parts
      then s
      else record s { proposal_block_parts = some (new_part_set_from_header b.parts) }

  unfoldable pub update_valid : ℤ → BlockId → S env → S env
  unfolding has_header hashes_to
  update_valid r b s =
      if not (length b.hash == 0) && ltb_ℤ s.valid_round r && r ==ℤ s.round
      then expect_parts b (revalue r b s)
      else s

  -- Whether a majority of prevotes ends the wait: for a block that is complete, or for nil.
  abbrev pub decides : Bool → Option BlockId → Bool
  decides complete none = false
  decides complete (some b) = complete || length b.hash == 0

  -- The step after prevotes of the current round.
  unfoldable pub current_prevotes : ℤ → Option VoteSet → S env → Run (S env)
  unfolding enter_precommit enter_prevote_wait is_proposal_complete
  current_prevotes r v s = do
    complete ← is_proposal_complete env s
    if decides complete (majority v)
        then enter_precommit env s.height r s
        else if any_two_thirds v
        then enter_prevote_wait env s.height r s
        else ok s

  -- The prevotes may be those that the proposal refers to.
  abbrev pub prevote_if_complete : ℤ → Option Proposal → S env → Run (S env)
  prevote_if_complete r none s = ok s
  prevote_if_complete r (some p) s =
      if not (ltb_ℤ p.pol_round (pos 0)) && p.pol_round ==ℤ r
      then (is_proposal_complete env s >>= λ complete.
          ok (if complete then enter_prevote env s.height s.round s else s))
      else ok s

  unfoldable pub prevote_transition : ℤ → Option VoteSet → S env → Run (S env)
  unfolding current_prevotes enter_new_round
  prevote_transition r v s =
      if ltb_ℤ s.round r && any_two_thirds v
      then enter_new_round env s.height r s
      else if s.round ==ℤ r && leb (step_number prevoted) (step_number s.step)
      then current_prevotes r v s
      else prevote_if_complete r s.proposal s

  abbrev pub apply_polka : ℤ → Option BlockId → S env → Run (S env)
  apply_polka r none s = ok s
  apply_polka r (some b) s = unlock_recent r b s >>= λ u. ok (update_valid r b u)

  unfoldable pub after_prevote : ℤ → S env → Run (S env)
  unfolding unlock_recent update_valid prevote_transition
  after_prevote r s = do
    v ← prevotes r s
    t ← apply_polka r (majority v) s
    prevote_transition r v t

  abbrev pub all_voted : Option VoteSet → Bool
  all_voted none = false
  all_voted (some c) = has_all c

  -- The commit of a block, and the next height's round if all precommits are there.
  unfoldable pub commit_block : ℤ → ℤ → Option VoteSet → S env → Run (S env)
  unfolding enter_commit enter_new_round
  commit_block h r v s = do
    t ← enter_commit env h r s
    if env.skip_timeout_commit && all_voted v then enter_new_round env t.height (pos 0) t else ok t

  -- A majority of precommits, also of a later round, for a block or for nil.
  abbrev pub precommits_decided : ℤ → Option VoteSet → Option BlockId → S env → Run (S env)
  precommits_decided r v none s =
      if not (ltb_ℤ r s.round) && any_two_thirds v
      then (enter_new_round env s.height r s >>= enter_precommit_wait env s.height r)
      else ok s
  precommits_decided r v (some b) s = do
    t ← enter_new_round env s.height r s
    u ← enter_precommit env s.height r t
    if length b.hash == 0
        then enter_precommit_wait env s.height r u
        else commit_block s.height r v u

  unfoldable pub after_precommit : ℤ → S env → Run (S env)
  unfolding commit_block enter_new_round enter_precommit enter_precommit_wait
  after_precommit r s = precommits r s >>= λ v. precommits_decided r v (majority v) s

  unfoldable pub vote_transition : Vote → S env → Run (S env)
  unfolding after_prevote after_precommit
  vote_transition vote s = elim vote.kind [
    | prevote ↦ after_prevote vote.round s
    | precommit ↦ after_precommit vote.round s
    | _ ↦ panic
  ]

  module _ (crypto : Crypto) where
    -- A precommit of the last height, which is added to its vote set.
    unfoldable pub add_to_last :
        Vote → VoteSet → S env → Run (S env × Bool × Option HeightVoteError)
    unfolding enter_new_round
    add_to_last vote c s = do
      (c', added, err) ← VoteSets.add_vote crypto (some vote) c
      let t = record s { last_commit = some c' }
      let e : Option HeightVoteError = elim err [ none ↦ none | some x ↦ some (rejected x) ]
      if added && env.skip_timeout_commit && has_all c'
          then (enter_new_round env t.height (pos 0) t >>= λ u. ok (u, added, e))
          else ok (t, added, e)

    abbrev pub add_last_precommit :
        Vote → Option VoteSet → S env → Run (S env × Bool × Option HeightVoteError)
    add_last_precommit vote none s = panic
    add_last_precommit vote (some c) s = add_to_last vote c s

    abbrev pub is_precommit : SignedMsgType → Bool
    is_precommit precommit = true
    is_precommit _ = false

    unfoldable pub add_vote : Vote → Bytes → S env → Run (S env × Bool × Option HeightVoteError)
    unfolding ◌+ℤ◌ add_to_last vote_transition
    add_vote vote peer s =
        if vote.height +ℤ pos 1 ==ℤ s.height && is_precommit vote.kind
        then (if step_number s.step == step_number new_height
            then add_last_precommit vote s.last_commit s
            else ok (s, false, none))
        else if not (vote.height ==ℤ s.height)
        then ok (s, false, none)
        else (do
          (h, added, err) ← HeightVoteSets.add_vote crypto vote peer s.votes
          let t = record s { votes = h }
          if added then (vote_transition vote t >>= λ u. ok (u, true, err)) else ok (t, false, err))

    -- What becomes of two conflicting votes; a node without a key dereferences nil.
    unfoldable pub report_conflict : VoteError → Vote → S env → Run (S env)
    report_conflict e vote s = elim s.signer [
      | none ↦ panic
      | some key ↦ elim (env.address key) [
        | none ↦ ok s
        | some a ↦
            if bytes_equal vote.validator_address a
            then ok s
            else ok (record s { evidence = s.evidence ++ e ∷ [] })
      ]
    ]

    -- The two votes are reported, if that is the error.
    abbrev pub report : Option HeightVoteError → Vote → S env → Run (S env)
    report (some (rejected (conflicting_votes a b))) vote s =
        report_conflict (conflicting_votes a b) vote s
    report _ vote s = ok s

    -- `tryAddVote`; its error is only logged.
    unfoldable pub try_add_vote : Vote → Bytes → S env → Run (S env)
    unfolding add_vote report_conflict
    try_add_vote vote peer s = do (t, added, err) ← add_vote vote peer s; report err vote t
