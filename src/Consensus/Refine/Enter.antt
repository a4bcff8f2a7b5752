-- ===== src/Consensus/Refine/Enter.antt =====
-- The functions that enter the steps of a round.
use tendermintx.Common.{
  ℤ, pos, ltb_ℤ, ◌==ℤ◌, not, ◌&&◌, ◌||◌, Bool, true, false, ◌≡◌, inl, inr, refl, sym, subst, arith,
  ◌==◌, if◌then◌else◌, Bool-cases, eq_of_parts, Ends, Ends-ok, Ends-panic, Ends-if, Ends-bind,
  Ends-self,
}
use tendermintx.HeightVoteSet.Stays.{set_round-Grows}
use tendermintx.Consensus.State.{
  Env, new_height, new_round, propose, prevote_wait, step_number, late, update_round_step,
  schedule_timeout, prevotes, precommits, any_two_thirds, safe_add_int32,
}
use tendermintx.Consensus.Sign.{S, propose_turn}
use tendermintx.Consensus.Enter.{
  is_proposal_complete, enter_propose, start_round, round_validators, enter_new_round,
  enter_prevote_wait, enter_precommit_wait,
}
use tendermintx.Consensus.Rules.{
  core, Later, Moves, advance, count, one, Moves-trans, Follows, Follows-same, Follows-trans,
}
use tendermintx.Consensus.Refine.Sign.{enter_prevote-Follows, late-Later}
use tendermintx.Consensus.Refine.Propose.{propose_turn-core}

module _ {Block Chain Vals Signer : Type 0} (env : Env Block Chain Vals Signer) where
  pub if-Follows :
      (c : Bool) {s t u : S env}
      → Follows env s t
      → Follows env s u
      → Follows env s (if c then t else u)
  if-Follows true p q = p
  if-Follows false p q = q

  pub when-Follows :
      (c : Bool) {s t u : S env}
      → (c ≡ true → Follows env s t)
      → (c ≡ false → Follows env s u)
      → Follows env s (if c then t else u)
  when-Follows true p q = p refl
  when-Follows false p q = q refl

  pub enter_propose-Follows : (h r : ℤ) (s : S env) → Ends (Follows env s) (enter_propose env h r s)
  unfolding enter_propose
  enter_propose-Follows h r s =
      Ends-if (late h r propose s) _ _ (λ _. Ends-ok (Follows-same env refl))
        (λ e.
          let u = propose_turn env h r (schedule_timeout h r propose s) in
          let t = update_round_step r propose u in
          let moved : Follows env s t = record {
            moves =
                subst (λ c. Moves env (core env s) (record c { round = r; step = propose }))
                  (sym (propose_turn-core env h r (schedule_timeout h r propose s)))
                  (one env (
                    advance (core env s) r propose (late-Later env h r propose s e).1 (λ x. cc)
                      (λ x. cc)));
          } in
          Ends-bind _ _ (Ends-self (is_proposal_complete env t)) (λ complete _. Ends-ok (
            if-Follows complete (Follows-trans env moved (enter_prevote-Follows env h t.round t))
              moved)))

  start_round-core :
      (r : ℤ) (vals : Vals) (s : S env)
      → core env (start_round env r vals s) ≡ record (core env s) { round = r; step = new_round }
  start_round-core r vals s = elim (Bool-cases (r ==ℤ pos 0)) [
    | inl e ↦ ground (arith, e)
    | inr e ↦ ground (arith, e)
  ]

  -- A round that is entered is later, or it is the first one of the height.
  round-Later :
      (h r : ℤ) (s : S env)
      → not (s.height ==ℤ h)
          || ltb_ℤ r s.round
          || (s.round ==ℤ r && not (step_number s.step == step_number new_height))
        ≡ false
      → Later env s.round s.step r new_round
  round-Later h r s e = elim (Bool-cases (ltb_ℤ s.round r)) [
    | inl below ↦ inl (ground (arith, below))
    | inr above ↦ inr (ground (arith, e, above, eq_of_parts s.round r), ground (arith, e, above))
  ]

  pub enter_new_round-Follows :
      (h r : ℤ) (s : S env) → Ends (Follows env s) (enter_new_round env h r s)
  unfolding enter_new_round
  enter_new_round-Follows h r s =
      Ends-if
        (not (s.height ==ℤ h)
          || ltb_ℤ r s.round
          || (s.round ==ℤ r && not (step_number s.step == step_number new_height)))
        _ _ (λ _. Ends-ok (Follows-same env refl))
        (λ e. Ends-bind _ _ (Ends-self (round_validators env r s)) (λ vals _.
          Ends-bind _ _ (Ends-self (safe_add_int32 r (pos 1))) (λ next _.
            Ends-bind _ _ (set_round-Grows next s.votes) (λ votes g.
              let t = record (start_round env r vals s) {
                votes = votes;
                triggered_timeout_precommit = false;
              } in
              let moved : Follows env s t = record {
                moves =
                    Moves-trans env
                      (one env (
                        advance (core env s) r new_round (round-Later h r s e) (λ x. cc) (λ x. cc)))
                      (subst
                        (λ c.
                          Moves env (record (core env s) { round = r; step = new_round })
                            (record c { votes = votes }))
                        (sym (start_round-core r vals s)) (one env (count _ votes g)));
              } in
              let scheduled : Follows env s (schedule_timeout h r new_round t) = record {
                moves = moved.moves;
              } in
              Ends-if (env.wait_for_txs && r ==ℤ pos 0 && ltb_ℤ (pos 1) h) _ _
                (λ _.
                  Ends-ok
                    (if-Follows (ltb_ℤ (pos 0) env.create_empty_blocks_interval) scheduled moved))
                (λ _. record {
                  at = λ u run. Follows-trans env moved ((enter_propose-Follows h r t).at u run);
                })))))

  pub enter_prevote_wait-Follows :
      (h r : ℤ) (s : S env) → Ends (Follows env s) (enter_prevote_wait env h r s)
  unfolding enter_prevote_wait
  enter_prevote_wait-Follows h r s =
      Ends-if (late h r prevote_wait s) _ _ (λ _. Ends-ok (Follows-same env refl))
        (λ e. Ends-bind _ _ (Ends-self (prevotes r s)) (λ v _.
          Ends-if (any_two_thirds v) _ _
            (λ _. Ends-ok (record {
              moves = one env (
                  advance (core env s) r prevote_wait (late-Later env h r prevote_wait s e).1
                    (λ x. cc) (λ x. cc));
            }))
            (λ _. Ends-panic)))

  pub enter_precommit_wait-Follows :
      (h r : ℤ) (s : S env) → Ends (Follows env s) (enter_precommit_wait env h r s)
  unfolding enter_precommit_wait
  enter_precommit_wait-Follows h r s =
      Ends-if
        (not (s.height ==ℤ h)
          || ltb_ℤ r s.round
          || (s.round ==ℤ r && s.triggered_timeout_precommit))
        _ _ (λ _. Ends-ok (Follows-same env refl))
        (λ e. Ends-bind _ _ (Ends-self (precommits r s)) (λ v _.
          Ends-if (any_two_thirds v) _ _ (λ _. Ends-ok (Follows-same env refl)) (λ _. Ends-panic)))
