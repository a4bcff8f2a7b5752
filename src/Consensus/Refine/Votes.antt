-- ===== src/Consensus/Refine/Votes.antt =====
-- Votes that are added, and the precommits' transitions.
use tendermintx.Common.{
  ℤ, pos, ◌+ℤ◌, ltb_ℤ, ◌==ℤ◌, not, ◌&&◌, Bytes, Option, none, some, [], ◌∷◌, ◌++◌, ◌≡◌, inl, inr,
  refl, ap, arith, ◌==◌, length, Option-cases, Bool-cases, Run, Ends, Ends-ok, Ends-panic, Ends-if,
  Ends-bind, Ends-self,
}
use tendermintx.Types.BlockId.{BlockId}
use tendermintx.Types.Vote.{Vote, SignedMsgType, prevote, precommit}
use tendermintx.VoteSet.Defs as VoteSets
use tendermintx.VoteSet.Defs.{Crypto, VoteSet, VoteError, conflicting_votes, bytes_equal, has_all}
use tendermintx.HeightVoteSet.Defs.{HeightVoteError, rejected}
use tendermintx.HeightVoteSet.Stays.{add_vote-Grows}
use tendermintx.Consensus.State.{Env, new_height, step_number, precommits, majority, any_two_thirds}
use tendermintx.Consensus.Sign.{S}
use tendermintx.Consensus.Handle.{
  all_voted, commit_block, precommits_decided, after_precommit, vote_transition, add_last_precommit,
  is_precommit, add_vote, add_to_last, report_conflict, report, try_add_vote,
}
use tendermintx.Consensus.Rules as Rules
use tendermintx.Consensus.Rules.{Core, core, one, Follows, Follows-same, Follows-trans}
use tendermintx.Consensus.Refine.Enter.{enter_new_round-Follows, enter_precommit_wait-Follows}
use tendermintx.Consensus.Refine.Precommit.{enter_precommit-Follows}
use tendermintx.Consensus.Refine.Commit.{enter_commit-Follows}
use tendermintx.Consensus.Refine.Prevote.{after_prevote-Follows}

module _ {Block Chain Vals Signer : Type 0} (env : Env Block Chain Vals Signer) where
  -- A call after another one.
  pub after-Follows :
      {s t : S env} {m : Run (S env)}
      → Follows env s t
      → Ends (Follows env t) m
      → Ends (Follows env s) m
  after-Follows moved e = record { at = λ u run. Follows-trans env moved (e.at u run) }

  commit_block-Follows :
      (h r : ℤ) (v : Option VoteSet) (s : S env) → Ends (Follows env s) (commit_block env h r v s)
  unfolding commit_block
  commit_block-Follows h r v s = Ends-bind _ _ (enter_commit-Follows env h r s) (λ t moved.
      Ends-if (env.skip_timeout_commit && all_voted env v) _ _
        (λ _. after-Follows moved (enter_new_round-Follows env t.height (pos 0) t))
        (λ _. Ends-ok moved))

  precommits_decided-Follows :
      (r : ℤ) (v : Option VoteSet) (o : Option BlockId) (s : S env)
      → Ends (Follows env s) (precommits_decided env r v o s)
  precommits_decided-Follows r v none s =
      Ends-if (not (ltb_ℤ r s.round) && any_two_thirds v) _ _
        (λ _.
          Ends-bind _ _ (enter_new_round-Follows env s.height r s)
            (λ t moved. after-Follows moved (enter_precommit_wait-Follows env s.height r t)))
        (λ _. Ends-ok (Follows-same env refl))
  precommits_decided-Follows r v (some b) s =
      Ends-bind _ _ (enter_new_round-Follows env s.height r s) (λ t moved.
        Ends-bind _ _ (after-Follows moved (enter_precommit-Follows env s.height r t)) (λ u moved'.
          Ends-if (length b.hash == 0) _ _
            (λ _. after-Follows moved' (enter_precommit_wait-Follows env s.height r u))
            (λ _. after-Follows moved' (commit_block-Follows s.height r v u))))

  after_precommit-Follows : (r : ℤ) (s : S env) → Ends (Follows env s) (after_precommit env r s)
  unfolding after_precommit
  after_precommit-Follows r s =
      Ends-bind _ _ (Ends-self (precommits r s))
        (λ v _. precommits_decided-Follows r v (majority v) s)

  transition_for :
      (kind : SignedMsgType) (vote : Vote) (s : S env)
      → vote.kind ≡ kind
      → Ends (Follows env s) (vote_transition env vote s)
  unfolding vote_transition
  transition_for prevote vote s e = rw (vote_transition, e) (after_prevote-Follows env vote.round s)
  transition_for precommit vote s e = rw (vote_transition, e) (after_precommit-Follows vote.round s)
  transition_for _ vote s e = record { at = λ u run. absurd (ground (arith, run, e)) }

  vote_transition-Follows :
      (vote : Vote) (s : S env) → Ends (Follows env s) (vote_transition env vote s)
  vote_transition-Follows vote s = transition_for vote.kind vote s refl

  module _ (crypto : Crypto) where
    add_to_last-Follows :
        (vote : Vote) (c : VoteSet) (s : S env)
        → Ends (λ r. Follows env s r.0) (add_to_last env crypto vote c s)
    unfolding add_to_last
    add_to_last-Follows vote c s =
        Ends-bind _ _ (Ends-self (VoteSets.add_vote crypto (some vote) c)) (λ (c', added, err) _.
          let t = record s { last_commit = some c' } in
          Ends-if (added && env.skip_timeout_commit && has_all c') _ _
            (λ _.
              Ends-bind _ _
                (after-Follows (Follows-same env refl)
                  (enter_new_round-Follows env t.height (pos 0) t))
                (λ u f. Ends-ok f))
            (λ _. Ends-ok (Follows-same env refl)))

    add_last_precommit-Follows :
        (vote : Vote) (o : Option VoteSet) (s : S env)
        → Ends (λ r. Follows env s r.0) (add_last_precommit env crypto vote o s)
    add_last_precommit-Follows vote none s = Ends-panic
    add_last_precommit-Follows vote (some c) s = add_to_last-Follows vote c s

    add_vote-Follows :
        (vote : Vote) (peer : Bytes) (s : S env)
        → Ends (λ r. Follows env s r.0) (add_vote env crypto vote peer s)
    unfolding add_vote
    add_vote-Follows vote peer s =
        Ends-if (vote.height +ℤ pos 1 ==ℤ s.height && is_precommit env crypto vote.kind) _ _
          (λ _.
            Ends-if (step_number s.step == step_number new_height) _ _
              (λ _. add_last_precommit-Follows vote s.last_commit s)
              (λ _. Ends-ok (Follows-same env refl)))
          (λ _.
            Ends-if (not (vote.height ==ℤ s.height)) _ _ (λ _. Ends-ok (Follows-same env refl))
              (λ _. Ends-bind _ _ (add_vote-Grows crypto vote peer s.votes) (λ (h, added, err) g.
                let t = record s { votes = h } in
                let moved : Follows env s t = record {
                  moves = one env (Rules.count (core env s) h g);
                } in
                Ends-if added _ _
                  (λ _.
                    Ends-bind _ _ (after-Follows moved (vote_transition-Follows vote t))
                      (λ u f. Ends-ok f))
                  (λ _. Ends-ok moved))))

    report_conflict-core :
        (e : VoteError) (vote : Vote) (s : S env)
        → Ends (λ t. core env s ≡ core env t) (report_conflict env crypto e vote s)
    unfolding report_conflict
    report_conflict-core e vote s = record {
      at = λ u run. elim (Option-cases s.signer) [
        | inl missing ↦ absurd (ground (arith, run, missing))
        | inr (key, found) ↦ elim (Option-cases (env.address key)) [
          | inl missing ↦
              let stays : s ≡ u = ground (arith, run, found, missing) in ap (core env) stays
          | inr (a, known) ↦ elim (Bool-cases (bytes_equal vote.validator_address a)) [
            | inl own ↦
                let stays : s ≡ u = ground (arith, run, found, known, own) in ap (core env) stays
            | inr other ↦
                let kept : record s { evidence = s.evidence ++ e ∷ [] } ≡ u =
                  ground (arith, run, found, known, other) in
                ap (core env) kept
          ]
        ]
      ];
    }

    report-Follows :
        (err : Option HeightVoteError) (vote : Vote) (s : S env)
        → Ends (Follows env s) (report env crypto err vote s)
    report-Follows (some (rejected (conflicting_votes a b))) vote s = record {
      at = λ u run.
          Follows-same env ((report_conflict-core (conflicting_votes a b) vote s).at u run);
    }
    report-Follows _ vote s = Ends-ok (Follows-same env refl)

    pub try_add_vote-Follows :
        (vote : Vote) (peer : Bytes) (s : S env)
        → Ends (Follows env s) (try_add_vote env crypto vote peer s)
    unfolding try_add_vote
    try_add_vote-Follows vote peer s =
        Ends-bind _ _ (add_vote-Follows vote peer s)
          (λ (t, added, err) moved. after-Follows moved (report-Follows err vote t))
