-- ===== src/Consensus/Enter.antt =====
-- The functions that enter the steps of a round.
use tendermintx.Common.{
  ℤ, pos, negsuc, ◌==ℤ◌, ltb_ℤ, Bool, true, false, not, ◌&&◌, ◌||◌, Option, none, some, [], length,
  ◌==◌, if◌then◌else◌, Run, ok, panic, ◌>>=◌,
}
use tendermintx.Types.BlockId.{BlockId}
use tendermintx.Types.Vote.{precommit}
use tendermintx.VoteSet.Defs.{is_some}
use tendermintx.HeightVoteSet.Defs.{safe_sub_int32, set_round, pol_info}
use tendermintx.PartSet.{has_header, new_part_set_from_header}
use tendermintx.Consensus.State.{
  Env, new_height, new_round, propose, prevote_wait, precommitted, precommit_wait, step_number,
  late, update_round_step, schedule_timeout, prevotes, precommits, majority, any_two_thirds,
  hashes_to, zero_header, safe_add_int32,
}
use tendermintx.Consensus.Sign.{S, sign_add_vote, enter_prevote, propose_turn}

module _ {Block Chain Vals Signer : Type 0} (env : Env Block Chain Vals Signer) where
  unfoldable pub is_proposal_complete : S env → Run Bool
  is_proposal_complete s = elim s.proposal [
    | none ↦ ok false
    | some p ↦ elim s.proposal_block [
      | none ↦ ok false
      | some _ ↦
          if ltb_ℤ p.pol_round (pos 0)
          then ok true
          else prevotes p.pol_round s >>= λ v. ok (is_some (majority v))
    ]
  ]

  unfoldable pub enter_propose : ℤ → ℤ → S env → Run (S env)
  unfolding propose_turn is_proposal_complete enter_prevote
  enter_propose h r s = if late h r propose s then ok s else (do
    let t = update_round_step r propose (propose_turn env h r (schedule_timeout h r propose s))
    complete ← is_proposal_complete t
    ok (if complete then enter_prevote env h t.round t else t))

  -- The state of a new round, with the validators that are given.
  abbrev pub start_round : ℤ → Vals → S env → S env
  start_round r vals s =
      let t = record s { round = r; step = new_round; validators = vals } in
      if r ==ℤ pos 0
      then t
      else record t { proposal = none; proposal_block = none; proposal_block_parts = none }

  -- the validators of the round, with their priorities incremented by the rounds in between
  unfoldable pub round_validators : ℤ → S env → Run Vals
  round_validators r s =
      if ltb_ℤ s.round r
      then (safe_sub_int32 r s.round >>= λ n. ok (env.increment_priority n s.validators))
      else ok s.validators

  unfoldable pub enter_new_round : ℤ → ℤ → S env → Run (S env)
  unfolding round_validators safe_add_int32 enter_propose
  enter_new_round h r s =
      if not (s.height ==ℤ h)
        || ltb_ℤ r s.round
        || (s.round ==ℤ r && not (step_number s.step == step_number new_height))
      then ok s
      else (do
        vals ← round_validators r s
        next ← safe_add_int32 r (pos 1)
        votes ← set_round next s.votes
        let t = record (start_round r vals s) { votes = votes; triggered_timeout_precommit = false }
        if env.wait_for_txs && r ==ℤ pos 0 && ltb_ℤ (pos 1) h
            then ok (
                if ltb_ℤ (pos 0) env.create_empty_blocks_interval
                then schedule_timeout h r new_round t
                else t)
            else enter_propose h r t)

  unfoldable pub enter_prevote_wait : ℤ → ℤ → S env → Run (S env)
  enter_prevote_wait h r s =
      if late h r prevote_wait s
      then ok s
      else prevotes r s >>= λ v.
          if any_two_thirds v
          then ok (update_round_step r prevote_wait (schedule_timeout h r prevote_wait s))
          else panic

  abbrev pub unlock : S env → S env
  unlock s = record s { locked_round = negsuc 0; locked_block = none; locked_block_parts = none }

  abbrev pub lock : ℤ → S env → S env
  lock r s = record s {
    locked_round = r;
    locked_block = s.proposal_block;
    locked_block_parts = s.proposal_block_parts;
  }

  -- The block of the header is to be fetched, if the parts are of another one.
  abbrev pub fetch : BlockId → S env → S env
  fetch b s = if has_header s.proposal_block_parts b.parts then s else record s {
    proposal_block = none;
    proposal_block_parts = some (new_part_set_from_header b.parts);
  }

  abbrev pub precommit_nil : S env → S env
  precommit_nil s = sign_add_vote env precommit [] zero_header s

  -- the round of `POLInfo`
  abbrev pub pol_round : S env → ℤ
  pol_round s = elim (pol_info s.votes) [ none ↦ negsuc 0 | some (r, _) ↦ pos r ]

  -- A lock that there is goes.
  abbrev pub release : Option Block → S env → S env
  release none s = s
  release (some _) s = unlock s

  -- `enterPrecommit` where the prevotes of the round have a majority for a block or for nil
  unfoldable pub precommit_majority : ℤ → BlockId → S env → Run (S env)
  unfolding sign_add_vote hashes_to
  precommit_majority r b s =
      if ltb_ℤ (pol_round s) r
      then panic
      else if length b.hash == 0
      then ok (precommit_nil (release s.locked_block s))
      else if hashes_to env s.locked_block b.hash
      then ok (sign_add_vote env precommit b.hash b.parts (record s { locked_round = r }))
      else if hashes_to env s.proposal_block b.hash
      then elim s.proposal_block [
        | none ↦ panic
        | some block ↦
            if env.validate_block s.chain block
            then ok (sign_add_vote env precommit b.hash b.parts (lock r s))
            else panic
      ]
      else ok (precommit_nil (fetch b (unlock s)))

  -- The precommit for what the majority of prevotes is, if there is one.
  abbrev pub precommit_for : ℤ → Option BlockId → S env → Run (S env)
  precommit_for r none s = ok (precommit_nil s)
  precommit_for r (some b) s = precommit_majority r b s

  unfoldable pub enter_precommit : ℤ → ℤ → S env → Run (S env)
  unfolding precommit_majority
  enter_precommit h r s = if late h r precommitted s then ok s else (do
    v ← prevotes r s
    t ← precommit_for r (majority v) s
    ok (update_round_step r precommitted t))

  unfoldable pub enter_precommit_wait : ℤ → ℤ → S env → Run (S env)
  enter_precommit_wait h r s =
      if not (s.height ==ℤ h) || ltb_ℤ r s.round || (s.round ==ℤ r && s.triggered_timeout_precommit)
      then ok s
      else precommits r s >>= λ v.
          if any_two_thirds v
          then ok (record (schedule_timeout h r precommit_wait s) {
            triggered_timeout_precommit = true;
          })
          else panic
