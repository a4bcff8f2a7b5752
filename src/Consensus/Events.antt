-- ===== src/Consensus/Events.antt =====
-- The messages, the timeouts and the loop that handles them.
use tendermintx.Common.{
  ℤ, pos, negsuc, ◌+ℤ◌, ◌==ℤ◌, ltb_ℤ, Bytes, Bool, true, false, not, ◌&&◌, ◌||◌, Option, none, some,
  List, [], ◌∷◌, leb, ◌==◌, if◌then◌else◌, Run, ok, panic, ◌>>=◌,
}
use tendermintx.Types.BlockId.{BlockId, PartSetHeader, is_zero}
use tendermintx.Types.Vote.{Proposal}
use tendermintx.VoteSet.Defs.{Crypto, is_some}
use tendermintx.HeightVoteSet.Defs.{wrap_int32}
use tendermintx.Merkle.Tree.{Hash}
use tendermintx.PartSet.{Part, PartSet, new_part_set_from_header, add_part, is_complete, read_all}
use tendermintx.Consensus.State.{
  Env, RoundStep, new_height, new_round, propose, prevote_wait, precommit_wait, commit, step_number,
  prevotes, majority, hashes_to, Message, proposal_message, block_part_message, vote_message,
  Timeout,
}
use tendermintx.Consensus.Sign.{S, enter_prevote}
use tendermintx.Consensus.Enter.{
  is_proposal_complete, enter_propose, enter_new_round, enter_precommit,
}
use tendermintx.Consensus.Commit.{try_finalize_commit}
use tendermintx.Consensus.Handle.{set_valid, try_add_vote}

pub data ProposalError : Type 0 where
  invalid_pol_round invalid_proposal_signature : ProposalError

pub data Event : Type 0 where
  message : Bytes → Message → Event
  tick : Timeout → Event
  txs_available : Event

module _ {Block Chain Vals Signer : Type 0} (env : Env Block Chain Vals Signer) where
  -- The parts of the proposal are expected, if no others are.
  abbrev pub expected_parts : Option PartSet → PartSetHeader → Option PartSet
  expected_parts none h = some (new_part_set_from_header h)
  expected_parts (some ps) h = some ps

  -- `defaultSetProposal`
  unfoldable pub set_proposal : Proposal → S env → S env × Option ProposalError
  set_proposal p s =
      if is_some s.proposal || not (p.height ==ℤ s.height) || not (p.round ==ℤ s.round)
      then (s, none)
      else if ltb_ℤ p.pol_round (negsuc 0)
          || (not (ltb_ℤ p.pol_round (pos 0)) && not (ltb_ℤ p.pol_round p.round))
      then (s, some invalid_pol_round)
      else if not (env.verify_proposal s.validators (env.chain_id s.chain) p)
      then (s, some invalid_proposal_signature)
      else (
        record s {
          proposal = some p;
          proposal_block_parts = expected_parts s.proposal_block_parts p.block_id.parts;
        },
        none,
      )

  -- The proposal block becomes the valid one, if the round has a majority of prevotes for it; whether
  -- there is a majority is returned.
  abbrev pub valid_from : Option BlockId → Block → S env → S env × Bool
  valid_from none b s = (s, false)
  valid_from (some id) b s = (
    if not (is_zero id) && ltb_ℤ s.valid_round s.round && hashes_to env (some b) id.hash
        then set_valid env s.round s
        else s,
    true,
  )

  -- `addProposalBlockPart` from the complete block on.
  unfoldable pub complete_proposal : ℤ → Block → S env → Run (S env)
  unfolding is_zero is_proposal_complete enter_prevote enter_precommit try_finalize_commit
  complete_proposal h b s = do
    v ← prevotes s.round s
    let (t, polka) = valid_from (majority v) b (record s { proposal_block = some b })
    if leb (step_number t.step) (step_number propose)
        then (do
          complete ← is_proposal_complete env t
          if not complete
              then ok t
              else (let u = enter_prevote env h t.round t in
                  if polka then enter_precommit env h u.round u else ok u))
        else if step_number t.step == step_number commit
        then try_finalize_commit env h t
        else ok t

  -- The block of the parts, once they are all there.
  abbrev pub decoded : ℤ → Option Block → S env → Run (S env × Bool)
  decoded h none s = ok (s, true)
  decoded h (some b) s =
      if env.check_block b then (complete_proposal h b s >>= λ u. ok (u, true)) else ok (s, false)

  -- `addProposalBlockPart` where a part set waits for parts
  unfoldable pub add_to_parts : Hash → ℤ → Part → PartSet → S env → Run (S env × Bool)
  unfolding complete_proposal
  add_to_parts hash h part ps s = do
    (ps', added, err) ← add_part hash part ps
    let t = record s { proposal_block_parts = some ps' }
    if added && is_complete ps'
        then (read_all ps' >>= λ bytes. decoded h (env.decode_block bytes) t)
        else ok (t, added)

  -- A nil part is dereferenced where parts are expected.
  abbrev pub add_if_expected : Hash → ℤ → Option Part → Option PartSet → S env → Run (S env × Bool)
  add_if_expected hash h part none s = ok (s, false)
  add_if_expected hash h none (some ps) s = panic
  add_if_expected hash h (some part) (some ps) s = add_to_parts hash h part ps s

  -- The round of the message is for the log only.
  unfoldable pub add_proposal_block_part : Hash → ℤ → Option Part → S env → Run (S env × Bool)
  unfolding add_to_parts
  add_proposal_block_part hash h part s =
      if not (s.height ==ℤ h)
      then ok (s, false)
      else add_if_expected hash h part s.proposal_block_parts s

  module _ (crypto : Crypto) (hash : Hash) where
    unfoldable pub handle_msg : Bytes → Message → S env → Run (S env)
    unfolding set_proposal add_proposal_block_part try_add_vote
    handle_msg peer (proposal_message p) s = ok (set_proposal p s).0
    handle_msg peer (block_part_message h r part) s =
        add_proposal_block_part hash h part s >>= λ (t, added). ok t
    handle_msg peer (vote_message v) s = try_add_vote env crypto v peer s

    -- What a timeout of a step does; it is never set for the other steps.
    abbrev pub timed_out : RoundStep → ℤ → ℤ → S env → Run (S env)
    timed_out new_height h r s = enter_new_round env h (pos 0) s
    timed_out new_round h r s = enter_propose env h (pos 0) s
    timed_out propose h r s = ok (enter_prevote env h r s)
    timed_out prevote_wait h r s = enter_precommit env h r s
    timed_out precommit_wait h r s =
        enter_precommit env h r s >>= enter_new_round env h (wrap_int32 (r +ℤ pos 1))
    timed_out _ h r s = panic

    unfoldable pub handle_timeout : Timeout → S env → Run (S env)
    unfolding ◌+ℤ◌ wrap_int32 enter_new_round enter_propose enter_prevote enter_precommit
    handle_timeout ti s =
        if not (ti.height ==ℤ s.height)
          || ltb_ℤ ti.round s.round
          || (ti.round ==ℤ s.round && not (leb (step_number s.step) (step_number ti.step)))
        then ok s
        else timed_out ti.step ti.height ti.round s

    unfoldable pub handle_txs_available : S env → Run (S env)
    unfolding enter_propose
    handle_txs_available s =
        if not (s.round ==ℤ pos 0)
        then ok s
        else if step_number s.step == step_number new_round
        then enter_propose env s.height (pos 0) s
        else ok s

    -- A turn of `receiveRoutine`, at the time that is read in it.
    unfoldable pub handle : ℤ × Event → S env → Run (S env)
    unfolding handle_msg handle_timeout handle_txs_available
    handle (now, message peer m) s = handle_msg peer m (record s { now = now })
    handle (now, tick ti) s = handle_timeout ti (record s { now = now })
    handle (now, txs_available) s = handle_txs_available (record s { now = now })

    unfoldable pub receive : List (ℤ × Event) → S env → Run (S env)
    unfolding handle
    receive [] s = ok s
    receive (e ∷ events) s = handle e s >>= receive events
