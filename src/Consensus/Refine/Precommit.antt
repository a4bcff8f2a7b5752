-- ===== src/Consensus/Refine/Precommit.antt =====
-- `enterPrecommit`: locking, unlocking and the precommit.
use tendermintx.Common.{
  ℤ, negsuc, ap, List, ltb_ℤ, ℤ-discrete, Bytes, ◌≢◌, Bytes-discrete, true, false, Option, none,
  some, [], ◌∷◌, ◌≡◌, inl, inr, refl, sym, subst, ◌∙◌, arith, ◌==◌, length, holds, find,
  Option-cases, Bool-cases, ok, Ends, Ends-ok, Ends-panic, Ends-if, Ends-bind, Ends-self,
}
use tendermintx.Types.BlockId.{BlockId, PartSetHeader}
use tendermintx.Types.Vote.{Vote, prevote, precommit}
use tendermintx.VoteSet.Defs.{VoteSet, bytes_equal, two_thirds_majority}
use tendermintx.HeightVoteSet.Defs.{HeightVoteSet, get_vote_set}
use tendermintx.HeightVoteSet.Stays.{Polka}
use tendermintx.PartSet.{has_header}
use tendermintx.Consensus.State.{
  Env, precommitted, late, prevotes, majority, hashes_to, zero_header,
}
use tendermintx.Consensus.Sign.{S, sign_add_vote}
use tendermintx.Consensus.Enter.{
  unlock, lock, fetch, precommit_nil, pol_round, precommit_majority, precommit_for, release,
  enter_precommit,
}
use tendermintx.Consensus.Rules as Rules
use tendermintx.Consensus.Rules.{
  Core, core, votes_of, Moves, Choice, no_majority, unlocked, relock, Casts, one, Follows,
  Follows-same,
}
use tendermintx.Consensus.Refine.Sign.{Signed-Voted, sign_add_vote-Signed, late-Later}

-- The majority that the vote set of a round returns.
pub majority-Polka :
    (r : ℤ) (h : HeightVoteSet) (v : Option VoteSet) (b : BlockId)
    → get_vote_set r prevote h ≡ ok v
    → majority v ≡ some b
    → Polka r b h
unfolding get_vote_set two_thirds_majority
majority-Polka r h v b e m = elim (Option-cases (find ℤ-discrete r h.round_vote_sets)) [
  | inl missing ↦ absurd (ground (arith, e, m, missing))
  | inr (x, found) ↦ (x, found, ground (arith, e, m, found))
]

-- The vote set of a round without a majority.
majority-none :
    (r : ℤ) (h : HeightVoteSet) (v : Option VoteSet)
    → get_vote_set r prevote h ≡ ok v
    → majority v ≡ none
    → (b : BlockId) → ¬ (Polka r b h)
unfolding get_vote_set two_thirds_majority
majority-none r h v e m b (x, found, polka) = ground (arith, e, m, found, polka)

empty_lem : (b : Bytes) → (length b == 0) ≡ true → b ≡ []
empty_lem [] e = refl
empty_lem (x ∷ b) e = absurd (ground (arith, e))

full_lem : (b : Bytes) → (length b == 0) ≡ false → b ≢ []
full_lem b e empty = ground (arith, e, empty)

module _ {Block Chain Vals Signer : Type 0} (env : Env Block Chain Vals Signer) where
  pub hashes_to-some :
      (o : Option Block) (h : Bytes)
      → hashes_to env o h ≡ true
      → (b : Block) × (o ≡ some b) × (env.block_hash b ≡ h)
  unfolding hashes_to
  hashes_to-some none h e = absurd (ground (arith, e))
  hashes_to-some (some b) h e = elim (Bytes-discrete (env.block_hash b) h) [
    | yes same ↦ (b, refl, same)
    | no differ ↦ absurd (ground (arith, e, differ))
  ]

  pub not-hashes_to :
      (o : Option Block) (h : Bytes)
      → hashes_to env o h ≡ false
      → (b : Block) → o ≡ some b
      → ¬ ((env.block_hash b ≡ h) × (¬ (h ≡ [])))
  unfolding hashes_to
  not-hashes_to o h e b found (same, full) = elim (Bool-cases (length h == 0)) [
    | inl empty ↦ full (empty_lem h empty)
    | inr some_hash ↦
        let equal : bytes_equal (env.block_hash b) h ≡ true =
          elim (Bytes-discrete (env.block_hash b) h) as (λ d. holds d ≡ true) [
            | yes _ ↦ refl
            | no differ ↦ absurd (differ same)
          ] in
        absurd (ground (arith, e, found, some_hash, equal))
  ]

  -- What `enterPrecommit` has done when it changes the step.
  record Chosen (r : ℤ) (s t : S env) : Type 0 where
    locked_round : ℤ
    locked_block : Option Block
    hash : Bytes
    sent : List Vote
    choice : Choice env (core env s) r locked_round locked_block hash
    casts : Casts env precommit s.height s.round (λ voted. voted ≡ hash) (votes_of s.queue) sent
    same : core env t ≡ record (core env s) {
      locked_round = locked_round;
      locked_block = locked_block;
      sent = sent;
    }

  -- The precommit, after a change of the lock.
  chosen :
      (r locked_round : ℤ) (locked_block : Option Block) (hash : Bytes) (parts : PartSetHeader)
      (s u : S env)
      → Choice env (core env s) r locked_round locked_block hash
      → core env u
        ≡ record (core env s) { locked_round = locked_round; locked_block = locked_block }
      → Chosen r s (sign_add_vote env precommit hash parts u)
  chosen r locked_round locked_block hash parts s u choice e =
      let done =
        Signed-Voted env precommit hash parts (λ voted. voted ≡ hash) u _ refl
          (sign_add_vote-Signed env precommit hash parts u) in
      record {
        locked_round = locked_round;
        locked_block = locked_block;
        hash = hash;
        sent = done.sent;
        choice = choice;
        casts =
            subst
              (λ (c : Core Block Chain).
                Casts env precommit c.height c.round (λ voted. voted ≡ hash) c.sent done.sent)
              e done.casts;
        same = done.same ∙ ap (λ (c : Core Block Chain). record c { sent = done.sent }) e;
      }

  pub fetch-core : (id : BlockId) (s : S env) → core env (fetch env id s) ≡ core env s
  fetch-core id s = elim (Bool-cases (has_header s.proposal_block_parts id.parts)) [
    | inl e ↦ rw e refl
    | inr e ↦ rw e refl
  ]

  -- A majority for nil: a lock that there is goes.
  release-Chosen :
      (o : Option Block) (r : ℤ) (b : BlockId) (s : S env)
      → s.locked_block ≡ o
      → Polka r b s.votes
      → b.hash ≡ []
      → Chosen r s (precommit_nil env (release env o s))
  release-Chosen none r b s e polka empty =
      chosen r s.locked_round s.locked_block [] zero_header s s (unlocked b polka empty e) refl
  release-Chosen (some x) r b s e polka empty =
      chosen r (negsuc 0) none [] zero_header s (unlock env s)
        (Rules.release b polka (λ c found (same, full). full empty)) refl

  relock-Chosen :
      (r : ℤ) (b : BlockId) (s : S env)
      → Polka r b s.votes
      → b.hash ≢ []
      → hashes_to env s.locked_block b.hash ≡ true
      → Chosen r s (sign_add_vote env precommit b.hash b.parts (record s { locked_round = r }))
  relock-Chosen r b s polka full same =
      let (block, locked, same_hash) = hashes_to-some s.locked_block b.hash same in
      chosen r r s.locked_block b.hash b.parts s (record s { locked_round = r })
        (relock b block polka locked (same_hash, full)) refl

  lock-Chosen :
      (r : ℤ) (b : BlockId) (s : S env) (block : Block)
      → Polka r b s.votes
      → b.hash ≢ []
      → s.proposal_block ≡ some block
      → env.block_hash block ≡ b.hash
      → env.validate_block s.chain block ≡ true
      → Chosen r s (sign_add_vote env precommit b.hash b.parts (lock env r s))
  lock-Chosen r b s block polka full found same_hash valid =
      chosen r r (some block) b.hash b.parts s (lock env r s)
        (Rules.lock b block polka (same_hash, full) valid)
        (ap (λ o. record (core env s) { locked_round = r; locked_block = o }) found)

  precommit_majority-Chosen :
      (r : ℤ) (b : BlockId) (s : S env)
      → Polka r b s.votes
      → Ends (Chosen r s) (precommit_majority env r b s)
  unfolding precommit_majority
  precommit_majority-Chosen r b s polka =
      Ends-if (ltb_ℤ (pol_round env s) r) _ _ (λ _. Ends-panic)
        (λ _.
          Ends-if (length b.hash == 0) _ _
            (λ empty.
              Ends-ok (release-Chosen s.locked_block r b s refl polka (empty_lem b.hash empty)))
            (λ full.
              Ends-if (hashes_to env s.locked_block b.hash) _ _
                (λ same. Ends-ok (relock-Chosen r b s polka (full_lem b.hash full) same))
                (λ differ.
                  Ends-if (hashes_to env s.proposal_block b.hash) _ _
                    (λ same.
                      let (block, found, same_hash) = hashes_to-some s.proposal_block b.hash same in
                      record {
                        at = λ u run. elim (Bool-cases (env.validate_block s.chain block)) [
                          | inr bad ↦ absurd (ground (arith, run, found, bad))
                          | inl valid ↦
                              let ran : sign_add_vote env precommit b.hash b.parts (lock env r s)
                                  ≡ u =
                                ground (arith, run, found, valid) in
                              subst (Chosen r s) ran (
                                lock-Chosen r b s block polka (full_lem b.hash full) found same_hash
                                  valid)
                        ];
                      })
                    (λ unknown. Ends-ok (
                      chosen r (negsuc 0) none [] zero_header s (fetch env b (unlock env s))
                        (Rules.release b polka (not-hashes_to s.locked_block b.hash differ))
                        (fetch-core b (unlock env s)))))))

  precommit_for-Chosen :
      (r : ℤ) (v : Option VoteSet) (s : S env)
      → get_vote_set r prevote s.votes ≡ ok v
      → Ends (Chosen r s) (precommit_for env r (majority v) s)
  precommit_for-Chosen r v s found = elim (Option-cases (majority v)) [
    | inl missing ↦
        subst (λ o. Ends (Chosen r s) (precommit_for env r o s)) (sym missing)
          (Ends-ok (
            chosen r s.locked_round s.locked_block [] zero_header s s
              (no_majority (majority-none r s.votes v found missing)) refl))
    | inr (b, decided) ↦
        subst (λ o. Ends (Chosen r s) (precommit_for env r o s)) (sym decided)
          (precommit_majority-Chosen r b s (majority-Polka r s.votes v b found decided))
  ]

  pub enter_precommit-Follows :
      (h r : ℤ) (s : S env) → Ends (Follows env s) (enter_precommit env h r s)
  unfolding enter_precommit
  enter_precommit-Follows h r s =
      Ends-if (late h r precommitted s) _ _ (λ _. Ends-ok (Follows-same env refl))
        (λ e. Ends-bind _ _ (Ends-self (prevotes r s)) (λ v found.
          Ends-bind _ _ (precommit_for-Chosen r v s found) (λ t done. Ends-ok (record {
            moves =
                subst
                  (λ (c : Core Block Chain).
                    Moves env (core env s) (record c { round = r; step = precommitted }))
                  (sym done.same)
                  (one env (
                    Rules.enter_precommit (core env s) r done.locked_round done.locked_block
                      done.hash done.sent (late-Later env h r precommitted s e).1 done.choice
                      done.casts));
          }))))
