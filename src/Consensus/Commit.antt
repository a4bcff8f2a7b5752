-- ===== src/Consensus/Commit.antt =====
-- Committing a block, and the update to the state after it.
use tendermintx.Common.{
  ℤ, pos, negsuc, ◌+ℤ◌, ◌==ℤ◌, ltb_ℤ, false, not, ◌&&◌, ◌||◌, Option, none, some, [], ◌∷◌, ◌++◌,
  length, leb, ◌==◌, if◌then◌else◌, Run, ok, panic, ◌>>=◌,
}
use tendermintx.Types.BlockId.{BlockId}
use tendermintx.VoteSet.Defs.{VoteSet, is_some}
use tendermintx.HeightVoteSet.Defs.{reset}
use tendermintx.PartSet.{has_header, header}
use tendermintx.Consensus.State.{
  Env, new_height, commit, step_number, update_round_step, schedule_timeout, precommits, majority,
  hashes_to,
}
use tendermintx.Consensus.Sign.{S}
use tendermintx.Consensus.Enter.{fetch}

module _ {Block Chain Vals Signer : Type 0} (env : Env Block Chain Vals Signer) where
  -- the commit that the next height starts from
  unfoldable pub next_last_commit : Chain → S env → Run (Option VoteSet)
  next_last_commit chain s =
      if env.last_block_height chain ==ℤ pos 0
      then ok none
      else if ltb_ℤ (negsuc 0) s.commit_round
      then (precommits s.commit_round s >>= λ v. if is_some (majority v) then ok v else panic)
      else elim s.last_commit [ none ↦ panic | some c ↦ ok (some c) ]

  -- `updateToState`, after the start of the node, when there are votes.
  unfoldable pub update_to_state : Chain → S env → Run (S env)
  unfolding ◌+ℤ◌ next_last_commit
  update_to_state chain s =
      if ltb_ℤ (negsuc 0) s.commit_round
        && ltb_ℤ (pos 0) s.height
        && not (s.height ==ℤ env.last_block_height chain)
      then panic
      else if not (env.is_empty s.chain)
          && not (env.last_block_height s.chain +ℤ pos 1 ==ℤ s.height)
      then panic
      else if not (env.is_empty s.chain)
          && not (ltb_ℤ (env.last_block_height s.chain) (env.last_block_height chain))
      then ok s
      else (do
        last ← next_last_commit chain s
        let h = env.last_block_height chain +ℤ pos 1
        let vals = env.next_validators chain
        votes ← reset (env.chain_id chain) h (env.members vals)
        ok (record s {
          height = h;
          round = pos 0;
          step = new_height;
          validators = vals;
          proposal = none;
          proposal_block = none;
          proposal_block_parts = none;
          locked_round = negsuc 0;
          locked_block = none;
          locked_block_parts = none;
          valid_round = negsuc 0;
          valid_block = none;
          valid_block_parts = none;
          votes = votes;
          commit_round = negsuc 0;
          last_commit = last;
          last_validators = env.last_validators chain;
          triggered_timeout_precommit = false;
          chain = chain;
        }))

  -- `SaveBlock`, if the store has not got the block yet
  abbrev pub save_block : Block → Option VoteSet → S env → S env
  save_block b v s =
      if ltb_ℤ s.store_height (env.block_height b)
      then record s {
        store_height = env.block_height b;
        saved = s.saved ++ (b, s.proposal_block_parts, v) ∷ [];
      }
      else s

  -- What `finalizeCommit` does after its tests; an error of the executor leaves the state.
  unfoldable pub apply_commit : ℤ → Block → Option VoteSet → S env → Run (S env)
  unfolding update_to_state header
  apply_commit h b v s =
      let t = save_block b v s in
      if not (env.write_end_height h)
      then panic
      else elim (env.apply_block t.chain
          (record { hash = env.block_hash b; parts = header t.proposal_block_parts }) b) [
            | none ↦ ok t
            | some chain ↦
                update_to_state chain t >>= λ u. ok (schedule_timeout u.height (pos 0) new_height u)
          ]

  unfoldable pub finalize_commit : ℤ → S env → Run (S env)
  unfolding apply_commit hashes_to has_header
  finalize_commit h s =
      if not (s.height ==ℤ h) || not (step_number s.step == step_number commit)
      then ok s
      else precommits s.commit_round s >>= λ v. elim (majority v) [
        | none ↦ panic
        | some id ↦ elim s.proposal_block [
          | none ↦ panic
          | some b ↦
              if not (has_header s.proposal_block_parts id.parts)
              then panic
              else if not (hashes_to env (some b) id.hash)
              then panic
              else if not (env.validate_block s.chain b)
              then panic
              else apply_commit h b v s
        ]
      ]

  unfoldable pub try_finalize_commit : ℤ → S env → Run (S env)
  unfolding finalize_commit
  try_finalize_commit h s =
      if not (s.height ==ℤ h)
      then panic
      else precommits s.commit_round s >>= λ v. elim (majority v) [
        | none ↦ ok s
        | some id ↦
            if length id.hash == 0 || not (hashes_to env s.proposal_block id.hash)
            then ok s
            else finalize_commit h s
      ]

  -- The locked block becomes the proposal block, if it is the committed one.
  abbrev pub use_locked : BlockId → S env → S env
  use_locked id s =
      if hashes_to env s.locked_block id.hash
      then record s { proposal_block = s.locked_block; proposal_block_parts = s.locked_block_parts }
      else s

  unfoldable pub enter_commit : ℤ → ℤ → S env → Run (S env)
  unfolding try_finalize_commit
  enter_commit h r s =
      if not (s.height ==ℤ h) || leb (step_number commit) (step_number s.step)
      then ok s
      else precommits r s >>= λ v. elim (majority v) [
        | none ↦ panic
        | some id ↦
            let t = use_locked id s in
            let u = if hashes_to env t.proposal_block id.hash then t else fetch env id t in
            try_finalize_commit h (record (update_round_step u.round commit u) { commit_round = r })
      ]
