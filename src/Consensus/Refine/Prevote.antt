-- ===== src/Consensus/Refine/Prevote.antt =====
-- What a majority of prevotes changes: the lock and the valid block.
use tendermintx.Common.{
  Bool, if◌then◌else◌, ok, ◌>>=◌, ℤ, pos, ◌<ℤ◌, ltb_ℤ, ◌==ℤ◌, not, ◌&&◌, true, false, Option, none,
  some, [], ◌∷◌, ◌++◌, ◌≡◌, inl, inr, refl, sym, ap, subst, arith, leb, ◌==◌, length, Option-cases,
  Bool-cases, eq_of_parts, Ends, Ends-ok, Ends-if, Ends-bind, Ends-self,
}
use tendermintx.Types.BlockId.{BlockId}
use tendermintx.Types.Vote.{Proposal}
use tendermintx.VoteSet.Defs.{VoteSet, is_some}
use tendermintx.HeightVoteSet.Stays.{Polka}
use tendermintx.PartSet.{has_header}
use tendermintx.Consensus.State.{
  Env, prevoted, step_number, prevotes, majority, any_two_thirds, hashes_to,
}
use tendermintx.Consensus.Sign.{S}
use tendermintx.Consensus.Enter.{is_proposal_complete, unlock}
use tendermintx.Consensus.Handle.{
  save_polc, unlocks, unlock_recent, set_valid, revalue, expect_parts, update_valid,
  current_prevotes, prevote_transition, after_prevote, decides, prevote_if_complete, apply_polka,
}
use tendermintx.Consensus.Rules as Rules
use tendermintx.Consensus.Rules.{Core, core, Moves, one, Follows, Follows-same, Follows-trans}
use tendermintx.Consensus.Refine.Sign.{enter_prevote-Follows}
use tendermintx.Consensus.Refine.Enter.{
  if-Follows, when-Follows, enter_new_round-Follows, enter_prevote_wait-Follows,
}
use tendermintx.Consensus.Refine.Precommit.{
  majority-Polka, hashes_to-some, not-hashes_to, enter_precommit-Follows,
}

module _ {Block Chain Vals Signer : Type 0} (env : Env Block Chain Vals Signer) where
  is_some-some : (o : Option Block) → is_some o ≡ true → (x : Block) × (o ≡ some x)
  is_some-some none e = absurd (cc)
  is_some-some (some x) e = (x, refl)

  -- What holds of a state with the same core and votes.
  pub record Alike (s t : S env) : Type 0 where
    pub same_core : core env s ≡ core env t

  saved-Alike :
      (c : Bool) (r : ℤ) (b : BlockId) (s : S env)
      → Alike s (if c then record s { polcs = s.polcs ++ (r, b) ∷ [] } else s)
  saved-Alike true r b s = record { same_core = refl }
  saved-Alike false r b s = record { same_core = refl }

  save_polc-Alike : (r : ℤ) (b : BlockId) (s : S env) → Ends (Alike s) (save_polc env r b s)
  unfolding save_polc
  save_polc-Alike r b s =
      Ends-if (r ==ℤ pos 0) _ _ (λ _. Ends-ok (record { same_core = refl }))
        (λ _. record {
          at = λ u run. elim (Option-cases s.signer) [
            | inl missing ↦ absurd (ground (arith, run, missing))
            | inr (key, found) ↦ elim (Option-cases (env.address key)) [
              | inl missing ↦
                  let stays : s ≡ u = ground (arith, run, found, missing) in
                  subst (Alike s) stays (record { same_core = refl })
              | inr (a, known) ↦
                  let saves : Ends (Alike s) (
                      prevotes r s >>= λ v. ok (
                        if env.save_polc v a b
                        then record s { polcs = s.polcs ++ (r, b) ∷ [] }
                        else s)) =
                    Ends-bind _ _ (Ends-self (prevotes r s))
                      (λ v _. Ends-ok (saved-Alike (env.save_polc v a b) r b s)) in
                  saves.at u (ground (arith, run, found, known))
            ]
          ];
        })

  -- The votes are as they were, so that the majority is still there.
  unlock_recent-Kept :
      (r : ℤ) (b : BlockId) (s : S env)
      → Polka r b s.votes
      → Ends (λ t. Follows env s t × (t.votes ≡ s.votes)) (unlock_recent env r b s)
  unfolding unlock_recent
  unlock_recent-Kept r b s polka =
      Ends-if (unlocks env r b s) _ _
        (λ recent.
          let differ : hashes_to env s.locked_block b.hash ≡ false = ground (arith, recent) in
          let (block, locked) : (x : Block) × (s.locked_block ≡ some x) =
            is_some-some s.locked_block (ground (arith, recent)) in
          let moved : Follows env s (unlock env s) = record {
            moves = one env (
                Rules.unlock (core env s) r b block polka locked
                  (not-hashes_to env s.locked_block b.hash differ block locked)
                  (ground (arith, recent)) (λ (late : s.round <ℤ r). ground (arith, recent, late)));
          } in
          record {
            at = λ u run.
                let same = ((save_polc-Alike r b (unlock env s)).at u run).same_core in
                (
                  Follows-trans env moved (Follows-same env same),
                  ap (λ (c : Core Block Chain). c.votes) (sym same),
                );
          })
        (λ _. Ends-ok (Follows-same env refl, refl))

  pub set_valid-Follows :
      (r : ℤ) (b : BlockId) (s : S env)
      → Polka r b s.votes
      → hashes_to env s.proposal_block b.hash ≡ true
      → s.valid_round <ℤ r
      → r ≡ s.round
      → Follows env s (set_valid env r s)
  set_valid-Follows r b s polka hashes below at =
      let (block, found, same_hash) = hashes_to-some env s.proposal_block b.hash hashes in
      let polka' : Polka s.round b s.votes = subst (λ q. Polka q b s.votes) at polka in
      let below' : s.valid_round <ℤ s.round = subst (λ q. s.valid_round <ℤ q) at below in
      record {
        moves =
            subst
              (λ q.
                Moves env (core env s)
                  (record (core env s) { valid_round = q; valid_block = s.proposal_block }))
              (sym at)
              (subst
                (λ o.
                  Moves env (core env s)
                    (record (core env s) { valid_round = s.round; valid_block = o }))
                (sym found) (one env (Rules.revalue (core env s) b block polka' same_hash below')));
      }

  expect_parts-core : (b : BlockId) (s : S env) → core env (expect_parts env b s) ≡ core env s
  expect_parts-core b s = elim (Bool-cases (has_header s.proposal_block_parts b.parts)) [
    | inl e ↦ rw e refl
    | inr e ↦ rw e refl
  ]

  update_valid-Follows :
      (r : ℤ) (b : BlockId) (s : S env) → Polka r b s.votes → Follows env s (update_valid env r b s)
  unfolding update_valid
  update_valid-Follows r b s polka =
      when-Follows env (not (length b.hash == 0) && ltb_ℤ s.valid_round r && r ==ℤ s.round)
        (λ e.
          Follows-trans env
            (when-Follows env (hashes_to env s.proposal_block b.hash)
              (λ hashes.
                set_valid-Follows r b s polka hashes (ground (arith, e))
                  (ground (arith, e, eq_of_parts r s.round)))
              (λ _. Follows-same env refl))
            (Follows-same env (sym (expect_parts-core b (revalue env r b s)))))
        (λ _. Follows-same env refl)

  current_prevotes-Follows :
      (r : ℤ) (v : Option VoteSet) (s : S env) → Ends (Follows env s) (current_prevotes env r v s)
  unfolding current_prevotes
  current_prevotes-Follows r v s =
      Ends-bind _ _ (Ends-self (is_proposal_complete env s)) (λ complete _.
        Ends-if (decides env complete (majority v)) _ _
          (λ _. enter_precommit-Follows env s.height r s)
          (λ _.
            Ends-if (any_two_thirds v) _ _ (λ _. enter_prevote_wait-Follows env s.height r s)
              (λ _. Ends-ok (Follows-same env refl))))

  prevote_if_complete-Follows :
      (r : ℤ) (o : Option Proposal) (s : S env)
      → Ends (Follows env s) (prevote_if_complete env r o s)
  prevote_if_complete-Follows r none s = Ends-ok (Follows-same env refl)
  prevote_if_complete-Follows r (some p) s =
      Ends-if (not (ltb_ℤ p.pol_round (pos 0)) && p.pol_round ==ℤ r) _ _
        (λ _. Ends-bind _ _ (Ends-self (is_proposal_complete env s)) (λ complete _. Ends-ok (
          if-Follows env complete (enter_prevote-Follows env s.height s.round s)
            (Follows-same env refl))))
        (λ _. Ends-ok (Follows-same env refl))

  prevote_transition-Follows :
      (r : ℤ) (v : Option VoteSet) (s : S env) → Ends (Follows env s) (prevote_transition env r v s)
  unfolding prevote_transition
  prevote_transition-Follows r v s =
      Ends-if (ltb_ℤ s.round r && any_two_thirds v) _ _
        (λ _. enter_new_round-Follows env s.height r s)
        (λ _.
          Ends-if (s.round ==ℤ r && leb (step_number prevoted) (step_number s.step)) _ _
            (λ _. current_prevotes-Follows r v s) (λ _. prevote_if_complete-Follows r s.proposal s))

  apply_polka-Follows :
      (r : ℤ) (o : Option BlockId) (s : S env)
      → ((b : BlockId) → o ≡ some b → Polka r b s.votes)
      → Ends (Follows env s) (apply_polka env r o s)
  apply_polka-Follows r none s polka = Ends-ok (Follows-same env refl)
  apply_polka-Follows r (some b) s polka =
      Ends-bind _ _ (unlock_recent-Kept r b s (polka b refl)) (λ u (moved, same). Ends-ok (
        Follows-trans env moved
          (update_valid-Follows r b u (subst (Polka r b) (sym same) (polka b refl)))))

  pub after_prevote-Follows : (r : ℤ) (s : S env) → Ends (Follows env s) (after_prevote env r s)
  unfolding after_prevote
  after_prevote-Follows r s = Ends-bind _ _ (Ends-self (prevotes r s)) (λ v found.
      Ends-bind _ _ (apply_polka-Follows r (majority v) s (λ b. majority-Polka r s.votes v b found))
        (λ t moved. record {
          at = λ u run. Follows-trans env moved ((prevote_transition-Follows r v t).at u run);
        }))
