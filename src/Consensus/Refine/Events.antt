-- ===== src/Consensus/Refine/Events.antt =====
-- The messages and timeouts, and the loop that handles them.
use tendermintx.Common.{
  ℤ, pos, negsuc, ◌+ℤ◌, ltb_ℤ, ◌==ℤ◌, not, ◌&&◌, ◌||◌, Bytes, Bool, true, false, Option, none, some,
  List, [], ◌∷◌, ◌≡◌, refl, sym, subst, arith, leb, ◌==◌, if◌then◌else◌, ok, Ends, Ends-ok,
  Ends-panic, Ends-if, Ends-bind, Ends-self,
}
use tendermintx.Types.BlockId.{BlockId, is_zero}
use tendermintx.Types.Vote.{Proposal}
use tendermintx.VoteSet.Defs.{Crypto, is_some}
use tendermintx.HeightVoteSet.Defs.{wrap_int32}
use tendermintx.HeightVoteSet.Stays.{Polka}
use tendermintx.Merkle.Tree.{Hash}
use tendermintx.PartSet.{Part, PartSet, add_part, is_complete, read_all}
use tendermintx.Consensus.State.{
  Env, RoundStep, new_height, new_round, propose, prevote_wait, precommit_wait, commit, step_number,
  prevotes, majority, hashes_to, Message, proposal_message, block_part_message, vote_message,
  Timeout,
}
use tendermintx.Consensus.Sign.{S, enter_prevote}
use tendermintx.Consensus.Enter.{is_proposal_complete}
use tendermintx.Consensus.Events.{
  Event, ProposalError, message, tick, txs_available, set_proposal, valid_from, complete_proposal,
  decoded, add_to_parts, add_if_expected, add_proposal_block_part, handle_msg, timed_out,
  handle_timeout, handle_txs_available, handle, receive,
}
use tendermintx.Consensus.Rules.{core, Moves, Follows, Follows-same, Follows-trans}
use tendermintx.Consensus.Refine.Sign.{enter_prevote-Follows}
use tendermintx.Consensus.Refine.Enter.{
  when-Follows, enter_propose-Follows, enter_new_round-Follows,
}
use tendermintx.Consensus.Refine.Precommit.{majority-Polka, enter_precommit-Follows}
use tendermintx.Consensus.Refine.Commit.{try_finalize_commit-Follows}
use tendermintx.Consensus.Refine.Prevote.{set_valid-Follows}
use tendermintx.Consensus.Refine.Votes.{after-Follows, try_add_vote-Follows}

module _ {Block Chain Vals Signer : Type 0} (env : Env Block Chain Vals Signer) where
  first-Follows :
      (c : Bool) {s : S env} (x y : S env × Option ProposalError)
      → Follows env s x.0
      → Follows env s y.0
      → Follows env s (if c then x else y).0
  first-Follows true x y p q = p
  first-Follows false x y p q = q

  set_proposal-Follows : (p : Proposal) (s : S env) → Follows env s (set_proposal env p s).0
  unfolding set_proposal
  set_proposal-Follows p s =
      first-Follows (is_some s.proposal || not (p.height ==ℤ s.height) || not (p.round ==ℤ s.round))
        _ _ (Follows-same env refl)
        (first-Follows
          (ltb_ℤ p.pol_round (negsuc 0)
            || (not (ltb_ℤ p.pol_round (pos 0)) && not (ltb_ℤ p.pol_round p.round)))
          _ _ (Follows-same env refl)
          (first-Follows (not (env.verify_proposal s.validators (env.chain_id s.chain) p)) _ _
            (Follows-same env refl) (Follows-same env refl)))

  valid_from-Follows :
      (o : Option BlockId) (b : Block) (s : S env)
      → ((id : BlockId) → o ≡ some id → Polka s.round id s.votes)
      → s.proposal_block ≡ some b
      → Follows env s (valid_from env o b s).0
  valid_from-Follows none b s polka found = Follows-same env refl
  valid_from-Follows (some id) b s polka found =
      when-Follows env
        (not (is_zero id) && ltb_ℤ s.valid_round s.round && hashes_to env (some b) id.hash)
        (λ e.
          let hashes : hashes_to env (some b) id.hash ≡ true = ground (arith, e) in
          set_valid-Follows env s.round id s (polka id refl)
            (subst (λ o. hashes_to env o id.hash ≡ true) (sym found) hashes) (ground (arith, e))
            refl)
        (λ _. Follows-same env refl)

  complete_proposal-Follows :
      (h : ℤ) (b : Block) (s : S env) → Ends (Follows env s) (complete_proposal env h b s)
  unfolding complete_proposal
  complete_proposal-Follows h b s = Ends-bind _ _ (Ends-self (prevotes s.round s)) (λ v found.
      let s' = record s { proposal_block = some b } in
      let r = valid_from env (majority v) b s' in
      let t = r.0 in
      let moved : Follows env s t = record {
        moves =
            (valid_from-Follows (majority v) b s' (λ id. majority-Polka s.round s.votes v id found)
              refl).moves;
      } in
      Ends-if (leb (step_number t.step) (step_number propose)) _ _
        (λ _. Ends-bind _ _ (Ends-self (is_proposal_complete env t)) (λ complete _.
          Ends-if (not complete) _ _ (λ _. Ends-ok moved)
            (λ _.
              let u = enter_prevote env h t.round t in
              let prevoted = Follows-trans env moved (enter_prevote-Follows env h t.round t) in
              Ends-if r.1 _ _
                (λ _. after-Follows env prevoted (enter_precommit-Follows env h u.round u))
                (λ _. Ends-ok prevoted))))
        (λ _.
          Ends-if (step_number t.step == step_number commit) _ _
            (λ _. after-Follows env moved (try_finalize_commit-Follows env h t))
            (λ _. Ends-ok moved)))

  decoded-Follows :
      (h : ℤ) (o : Option Block) (s : S env) → Ends (λ r. Follows env s r.0) (decoded env h o s)
  decoded-Follows h none s = Ends-ok (Follows-same env refl)
  decoded-Follows h (some b) s =
      Ends-if (env.check_block b) _ _
        (λ _. Ends-bind _ _ (complete_proposal-Follows h b s) (λ u f. Ends-ok f))
        (λ _. Ends-ok (Follows-same env refl))

  add_to_parts-Follows :
      (hash : Hash) (h : ℤ) (part : Part) (ps : PartSet) (s : S env)
      → Ends (λ r. Follows env s r.0) (add_to_parts env hash h part ps s)
  unfolding add_to_parts
  add_to_parts-Follows hash h part ps s =
      Ends-bind _ _ (Ends-self (add_part hash part ps)) (λ (ps', added, err) _.
        let t = record s { proposal_block_parts = some ps' } in
        Ends-if (added && is_complete ps') _ _
          (λ _. Ends-bind _ _ (Ends-self (read_all ps')) (λ bytes _. record {
            at = λ u run. record {
              moves = ((decoded-Follows h (env.decode_block bytes) t).at u run).moves;
            };
          }))
          (λ _. Ends-ok (Follows-same env refl)))

  add_if_expected-Follows :
      (hash : Hash) (h : ℤ) (part : Option Part) (o : Option PartSet) (s : S env)
      → Ends (λ r. Follows env s r.0) (add_if_expected env hash h part o s)
  add_if_expected-Follows hash h part none s = Ends-ok (Follows-same env refl)
  add_if_expected-Follows hash h none (some ps) s = Ends-panic
  add_if_expected-Follows hash h (some part) (some ps) s = add_to_parts-Follows hash h part ps s

  add_proposal_block_part-Follows :
      (hash : Hash) (h : ℤ) (part : Option Part) (s : S env)
      → Ends (λ r. Follows env s r.0) (add_proposal_block_part env hash h part s)
  unfolding add_proposal_block_part
  add_proposal_block_part-Follows hash h part s =
      Ends-if (not (s.height ==ℤ h)) _ _ (λ _. Ends-ok (Follows-same env refl))
        (λ _. add_if_expected-Follows hash h part s.proposal_block_parts s)

  module _ (crypto : Crypto) (hash : Hash) where
    handle_msg-Follows :
        (peer : Bytes) (m : Message) (s : S env)
        → Ends (Follows env s) (handle_msg env crypto hash peer m s)
    unfolding handle_msg
    handle_msg-Follows peer (proposal_message p) s = Ends-ok (set_proposal-Follows p s)
    handle_msg-Follows peer (block_part_message h r part) s =
        Ends-bind _ _ (add_proposal_block_part-Follows hash h part s) (λ (t, added) f. Ends-ok f)
    handle_msg-Follows peer (vote_message v) s = try_add_vote-Follows env crypto v peer s

    timed_out-Follows :
        (st : RoundStep) (h r : ℤ) (s : S env)
        → Ends (Follows env s) (timed_out env crypto hash st h r s)
    timed_out-Follows new_height h r s = enter_new_round-Follows env h (pos 0) s
    timed_out-Follows new_round h r s = enter_propose-Follows env h (pos 0) s
    timed_out-Follows propose h r s = Ends-ok (enter_prevote-Follows env h r s)
    timed_out-Follows prevote_wait h r s = enter_precommit-Follows env h r s
    timed_out-Follows precommit_wait h r s =
        Ends-bind _ _ (enter_precommit-Follows env h r s) (λ t moved.
          after-Follows env moved (enter_new_round-Follows env h (wrap_int32 (r +ℤ pos 1)) t))
    timed_out-Follows _ h r s = Ends-panic

    handle_timeout-Follows :
        (ti : Timeout) (s : S env) → Ends (Follows env s) (handle_timeout env crypto hash ti s)
    unfolding handle_timeout
    handle_timeout-Follows ti s =
        Ends-if
          (not (ti.height ==ℤ s.height)
            || ltb_ℤ ti.round s.round
            || (ti.round ==ℤ s.round && not (leb (step_number s.step) (step_number ti.step))))
          _ _ (λ _. Ends-ok (Follows-same env refl))
          (λ _. timed_out-Follows ti.step ti.height ti.round s)

    handle_txs_available-Follows :
        (s : S env) → Ends (Follows env s) (handle_txs_available env crypto hash s)
    unfolding handle_txs_available
    handle_txs_available-Follows s =
        Ends-if (not (s.round ==ℤ pos 0)) _ _ (λ _. Ends-ok (Follows-same env refl))
          (λ _.
            Ends-if (step_number s.step == step_number new_round) _ _
              (λ _. enter_propose-Follows env s.height (pos 0) s)
              (λ _. Ends-ok (Follows-same env refl)))

    handle-Follows : (e : ℤ × Event) (s : S env) → Ends (Follows env s) (handle env crypto hash e s)
    unfolding handle
    handle-Follows (now, message peer m) s =
        after-Follows env (Follows-same env refl)
          (handle_msg-Follows peer m (record s { now = now }))
    handle-Follows (now, tick ti) s =
        after-Follows env (Follows-same env refl)
          (handle_timeout-Follows ti (record s { now = now }))
    handle-Follows (now, txs_available) s =
        after-Follows env (Follows-same env refl)
          (handle_txs_available-Follows (record s { now = now }))

    receive-Follows :
        (events : List (ℤ × Event)) (s : S env)
        → Ends (Follows env s) (receive env crypto hash events s)
    unfolding receive
    receive-Follows [] s = Ends-ok (Follows-same env refl)
    receive-Follows (e ∷ events) s =
        Ends-bind _ _ (handle-Follows e s)
          (λ t moved. after-Follows env moved (receive-Follows events t))

    -- Whatever messages, timeouts and calls of the mempool are handled, in any order and at any
    -- times: if no panic ended it, the state has moved by the rules of the consensus algorithm only,
    -- which say when a node may lock, unlock, keep a valid block, save a block and start a height,
    -- and what it may prevote and precommit, once in a step.
    pub receive_refines :
        (events : List (ℤ × Event)) (s t : S env)
        → receive env crypto hash events s ≡ ok t
        → Moves env (core env s) (core env t)
    receive_refines events s t e = ((receive-Follows events s).at t e).moves
