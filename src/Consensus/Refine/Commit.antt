-- ===== src/Consensus/Refine/Commit.antt =====
-- The commit of a block, and the next height.
use tendermintx.Common.{
  ℤ, pos, negsuc, ◌+ℤ◌, ◌<ℤ◌, ltb_ℤ, ◌==ℤ◌, +ℤ_parts, not, ◌&&◌, ◌||◌, true, false, Option, some,
  ◌≡◌, ◌⊎◌, inl, inr, refl, sym, ap, subst, ◌∙◌, arith, leb, ◌==◌, length, if◌then◌else◌,
  Option-cases, Bool-cases, ok, ◌>>=◌, Ends, Ends-ok, Ends-panic, Ends-if, Ends-bind, Ends-self,
}
use tendermintx.Types.BlockId.{BlockId}
use tendermintx.VoteSet.Defs.{VoteSet}
use tendermintx.HeightVoteSet.Defs.{reset}
use tendermintx.PartSet.{header}
use tendermintx.Consensus.State.{
  Env, new_height, commit, step_number, update_round_step, schedule_timeout, precommits, majority,
  hashes_to,
}
use tendermintx.Consensus.Sign.{S}
use tendermintx.Consensus.Enter.{fetch}
use tendermintx.Consensus.Commit.{
  next_last_commit, update_to_state, save_block, apply_commit, finalize_commit, try_finalize_commit,
  use_locked, enter_commit,
}
use tendermintx.Consensus.Rules.{
  core, Moves, Certified, advance, save, next_height, one, Follows, Follows-same, Follows-trans,
}
use tendermintx.Consensus.Refine.Precommit.{hashes_to-some, fetch-core}

module _ {Block Chain Vals Signer : Type 0} (env : Env Block Chain Vals Signer) where
  -- The tests of `updateToState` leave a later height.
  later_height :
      (chain : Chain) (s : S env)
      → not (env.is_empty s.chain) && not (env.last_block_height s.chain +ℤ pos 1 ==ℤ s.height)
        ≡ false
      → not (env.is_empty s.chain)
          && not (ltb_ℤ (env.last_block_height s.chain) (env.last_block_height chain))
        ≡ false
      → (env.is_empty s.chain ≡ true) ⊎ (s.height <ℤ env.last_block_height chain +ℤ pos 1)
  later_height chain s a b = elim (Bool-cases (env.is_empty s.chain)) [
    | inl e ↦ inl e
    | inr e ↦ inr (
        ground (
          arith,
          a,
          b,
          e,
          +ℤ_parts (env.last_block_height s.chain) (pos 1),
          +ℤ_parts (env.last_block_height chain) (pos 1),
        ))
  ]

  update_to_state-Follows :
      (chain : Chain) (s : S env) (b : Block) (v : Option VoteSet) (id : BlockId)
      → Certified env (core env s) b v
      → env.apply_block s.chain id b ≡ some chain
      → Ends (Follows env s) (update_to_state env chain s)
  unfolding update_to_state
  update_to_state-Follows chain s b v id certified applied =
      Ends-if
        (ltb_ℤ (negsuc 0) s.commit_round
          && ltb_ℤ (pos 0) s.height
          && not (s.height ==ℤ env.last_block_height chain))
        _ _ (λ _. Ends-panic)
        (λ _.
          Ends-if
            (not (env.is_empty s.chain)
              && not (env.last_block_height s.chain +ℤ pos 1 ==ℤ s.height))
            _ _ (λ _. Ends-panic)
            (λ right.
              Ends-if
                (not (env.is_empty s.chain)
                  && not (ltb_ℤ (env.last_block_height s.chain) (env.last_block_height chain)))
                _ _ (λ _. Ends-ok (Follows-same env refl))
                (λ further. Ends-bind _ _ (Ends-self (next_last_commit env chain s)) (λ last _.
                  Ends-bind _ _
                    (Ends-self (
                      reset (env.chain_id chain) (env.last_block_height chain +ℤ pos 1)
                        (env.members (env.next_validators chain))))
                    (λ votes fresh. Ends-ok (record {
                      moves = one env (
                          next_height (core env s) b v id chain votes certified applied
                            (later_height chain s right further) fresh);
                    }))))))

  save_block-Follows :
      (b : Block) (v : Option VoteSet) (s : S env)
      → Certified env (core env s) b v
      → Follows env s (save_block env b v s)
        × Certified env (core env (save_block env b v s)) b v
        × ((save_block env b v s).chain ≡ s.chain)
  save_block-Follows b v s c = elim (Bool-cases (ltb_ℤ s.store_height (env.block_height b))) [
    | inl e ↦ rw e (
      record { moves = one env (save (core env s) b s.proposal_block_parts v c) },
      record {
        at_round = c.at_round;
        id = c.id;
        votes_there = c.votes_there;
        decided = c.decided;
        same_hash = c.same_hash;
        is_valid = c.is_valid;
      },
      refl,
    )
    | inr e ↦ rw e (Follows-same env refl, c, refl)
  ]

  apply_commit-Follows :
      (h : ℤ) (b : Block) (v : Option VoteSet) (s : S env)
      → Certified env (core env s) b v
      → Ends (Follows env s) (apply_commit env h b v s)
  unfolding apply_commit
  apply_commit-Follows h b v s c =
      let t = save_block env b v s in
      let (saved, c', same) = save_block-Follows b v s c in
      let id : BlockId = record {
        hash = env.block_hash b;
        parts = header t.proposal_block_parts;
      } in
      Ends-if (not (env.write_end_height h)) _ _ (λ _. Ends-panic)
        (λ _. record {
          at = λ u run. elim (Option-cases (env.apply_block t.chain id b)) [
            | inl failed ↦
                let stays : t ≡ u = ground (arith, run, failed) in subst (Follows env s) stays saved
            | inr (chain, applied) ↦
                let done : Ends (Follows env s) (
                    update_to_state env chain t >>= λ u.
                    ok (schedule_timeout u.height (pos 0) new_height u)) =
                  Ends-bind _ _ (update_to_state-Follows chain t b v id c' applied)
                    (λ w f. Ends-ok (record { moves = (Follows-trans env saved f).moves })) in
                done.at u (ground (arith, run, applied))
          ];
        })

  finalize_commit-Follows : (h : ℤ) (s : S env) → Ends (Follows env s) (finalize_commit env h s)
  unfolding finalize_commit
  finalize_commit-Follows h s =
      Ends-if (not (s.height ==ℤ h) || not (step_number s.step == step_number commit)) _ _
        (λ _. Ends-ok (Follows-same env refl))
        (λ _. Ends-bind _ _ (Ends-self (precommits s.commit_round s)) (λ v found. record {
          at = λ u run. elim (Option-cases (majority v)) [
            | inl none_yet ↦ absurd (ground (arith, run, none_yet))
            | inr (id, decided) ↦ elim (Option-cases s.proposal_block) [
              | inl missing ↦ absurd (ground (arith, run, decided, missing))
              | inr (b, block) ↦ elim (Bool-cases (hashes_to env (some b) id.hash)) [
                | inr other ↦ absurd (ground (arith, run, decided, block, other))
                | inl hashes ↦
                    let (b', same, same_hash) = hashes_to-some env (some b) id.hash hashes in
                    let b_is : b ≡ b' = cc in
                    let valid : env.validate_block s.chain b ≡ true =
                      ground (arith, run, decided, block, hashes) in
                    let ran : apply_commit env h b v s ≡ ok u =
                      ground (arith, run, decided, block, hashes, valid) in
                    (apply_commit-Follows h b v s (record {
                      at_round = s.commit_round;
                      id = id;
                      votes_there = found;
                      decided = decided;
                      same_hash = ap env.block_hash b_is ∙ same_hash;
                      is_valid = valid;
                    })).at
                      u ran
              ]
            ]
          ];
        }))

  pub try_finalize_commit-Follows :
      (h : ℤ) (s : S env) → Ends (Follows env s) (try_finalize_commit env h s)
  unfolding try_finalize_commit
  try_finalize_commit-Follows h s =
      Ends-if (not (s.height ==ℤ h)) _ _ (λ _. Ends-panic)
        (λ _. Ends-bind _ _ (Ends-self (precommits s.commit_round s)) (λ v found. record {
          at = λ u run. elim (Option-cases (majority v)) [
            | inl none_yet ↦
                let stays : s ≡ u = ground (arith, run, none_yet) in
                subst (Follows env s) stays (Follows-same env refl)
            | inr (id, decided) ↦
                elim (Bool-cases
                  (length id.hash == 0 || not (hashes_to env s.proposal_block id.hash))) [
                    | inl waits ↦
                        let stays : s ≡ u = ground (arith, run, decided, waits) in
                        subst (Follows env s) stays (Follows-same env refl)
                    | inr ready ↦
                        (finalize_commit-Follows h s).at u (ground (arith, run, decided, ready))
                  ]
          ];
        }))

  use_locked-core : (id : BlockId) (s : S env) → core env (use_locked env id s) ≡ core env s
  use_locked-core id s = elim (Bool-cases (hashes_to env s.locked_block id.hash)) [
    | inl e ↦ rw e refl
    | inr e ↦ rw e refl
  ]

  -- The state with the block that is to be committed, or waiting for it.
  abbrev awaiting : BlockId → S env → S env
  awaiting id s =
      let t = use_locked env id s in
      if hashes_to env t.proposal_block id.hash then t else fetch env id t

  awaiting-core : (id : BlockId) (s : S env) → core env (awaiting id s) ≡ core env s
  awaiting-core id s =
      elim (Bool-cases (hashes_to env (use_locked env id s).proposal_block id.hash)) [
        | inl e ↦ rw e (use_locked-core id s)
        | inr e ↦ rw e (fetch-core env id (use_locked env id s) ∙ use_locked-core id s)
      ]

  pub enter_commit-Follows : (h r : ℤ) (s : S env) → Ends (Follows env s) (enter_commit env h r s)
  unfolding enter_commit
  enter_commit-Follows h r s =
      Ends-if (not (s.height ==ℤ h) || leb (step_number commit) (step_number s.step)) _ _
        (λ _. Ends-ok (Follows-same env refl))
        (λ e. Ends-bind _ _ (Ends-self (precommits r s)) (λ v found. record {
          at = λ u run. elim (Option-cases (majority v)) [
            | inl none_yet ↦ absurd (ground (arith, run, none_yet))
            | inr (id, decided) ↦
                let t = awaiting id s in
                let w = record (update_round_step t.round commit t) { commit_round = r } in
                let moved : Follows env s w = record {
                  moves =
                      subst (λ c. Moves env (core env s) (record c { step = commit }))
                        (sym (awaiting-core id s))
                        (one env (
                          advance (core env s) s.round commit (inr (refl, ground (arith, e)))
                            (λ x. cc) (λ x. cc)));
                } in
                let ran : try_finalize_commit env h w ≡ ok u = ground (arith, run, decided) in
                Follows-trans env moved ((try_finalize_commit-Follows h w).at u ran)
          ];
        }))
