-- ===== src/Consensus/Refine/Propose.antt =====
-- A proposal leaves the core of the state.
use tendermintx.Common.{
  ℤ, Bytes, Option, some, List, [], ◌∷◌, ◌≡◌, inl, inr, refl, sym, ap, ◌∙◌, arith, Option-cases,
  Bool-cases,
}
use tendermintx.Types.Vote.{Proposal}
use tendermintx.VoteSet.Defs.{bytes_equal}
use tendermintx.PartSet.{Part, PartSet, header}
use tendermintx.Consensus.State.{Env, proposal_message, block_part_message, send_internal}
use tendermintx.Consensus.Sign.{
  S, send_parts, parts_of, send_proposal, decide_proposal, create_proposal_block, propose_turn,
}
use tendermintx.Consensus.Rules.{core}
use tendermintx.Consensus.Refine.Sign.{votes_of-proposal, votes_of-part}

module _ {Block Chain Vals Signer : Type 0} (env : Env Block Chain Vals Signer) where
  send_parts-core :
      (parts : List (Option Part)) (s : S env) → core env (send_parts env parts s) ≡ core env s
  unfolding send_parts
  send_parts-core [] s = refl
  send_parts-core (p ∷ parts) s =
      send_parts-core parts (send_internal (block_part_message s.height s.round p) s)
      ∙ ap (λ vs. record (core env s) { sent = vs }) (votes_of-part s.queue s.height s.round p)

  send_proposal-core :
      (h r : ℤ) (b : Block) (parts : Option PartSet) (key : Signer) (s : S env)
      → core env (send_proposal env h r b parts key s) ≡ core env s
  unfolding send_proposal header
  send_proposal-core h r b parts key s =
      let p : Proposal = record {
        height = h;
        round = r;
        pol_round = s.valid_round;
        block_id = record { hash = env.block_hash b; parts = header parts };
        timestamp = s.now;
        signature = [];
      } in
      let made = env.sign_proposal (env.chain_id s.chain) p key in
      let t = record s { signer = some made.0 } in
      elim (Option-cases made.1) [
        | inl missing ↦
            let run : t ≡ send_proposal env h r b parts key s = ground (arith, missing) in
            ap (core env) (sym run)
        | inr (g, found) ↦
            let u = send_internal (proposal_message (record p { signature = g })) t in
            let run : send_parts env (parts_of env parts) u ≡ send_proposal env h r b parts key s =
              ground (arith, found) in
            ap (core env) (sym run)
            ∙ send_parts-core (parts_of env parts) u
            ∙ ap (λ vs. record (core env s) { sent = vs })
                (votes_of-proposal s.queue (record p { signature = g }))
      ]

  decide_proposal-core :
      (h r : ℤ) (key : Signer) (addr : Bytes) (s : S env)
      → core env (decide_proposal env h r key addr s) ≡ core env s
  unfolding decide_proposal
  decide_proposal-core h r key addr s = elim (Option-cases s.valid_block) [
    | inr (b, found) ↦
        let run : send_proposal env h r b s.valid_block_parts key s
            ≡ decide_proposal env h r key addr s =
          ground (arith, found) in
        ap (core env) (sym run) ∙ send_proposal-core h r b s.valid_block_parts key s
    | inl free ↦ elim (Option-cases (create_proposal_block env addr s)) [
      | inl missing ↦
          let run : s ≡ decide_proposal env h r key addr s = ground (arith, free, missing) in
          ap (core env) (sym run)
      | inr ((b, parts), found) ↦
          let run : send_proposal env h r b (some parts) key s
              ≡ decide_proposal env h r key addr s =
            ground (arith, free, found) in
          ap (core env) (sym run) ∙ send_proposal-core h r b (some parts) key s
    ]
  ]

  pub propose_turn-core : (h r : ℤ) (s : S env) → core env (propose_turn env h r s) ≡ core env s
  unfolding propose_turn
  propose_turn-core h r s = elim (Option-cases s.signer) [
    | inl e1 ↦ let run : s ≡ propose_turn env h r s = ground (arith, e1) in ap (core env) (sym run)
    | inr (key, e1) ↦ elim (Option-cases (env.address key)) [
      | inl e2 ↦
          let run : s ≡ propose_turn env h r s = ground (arith, e1, e2) in ap (core env) (sym run)
      | inr (addr, e2) ↦ elim (Option-cases (env.index_of s.validators addr)) [
        | inl e3 ↦
            let run : s ≡ propose_turn env h r s = ground (arith, e1, e2, e3) in
            ap (core env) (sym run)
        | inr (i, e3) ↦ elim (Bool-cases (bytes_equal (env.proposer_address s.validators) addr)) [
          | inl e4 ↦
              let run : decide_proposal env h r key addr s ≡ propose_turn env h r s =
                ground (arith, e1, e2, e3, e4) in
              ap (core env) (sym run) ∙ decide_proposal-core h r key addr s
          | inr e4 ↦
              let run : s ≡ propose_turn env h r s = ground (arith, e1, e2, e3, e4) in
              ap (core env) (sym run)
        ]
      ]
    ]
  ]
