-- ===== src/Consensus/Sign.antt =====
-- Signing and sending of votes and proposals, and the steps that no vote set is read for.
use tendermintx.Common.{
  ℤ, pos, ◌+ℤ◌, ltb_ℤ, ◌==ℤ◌, Bytes, Option, none, some, List, [], ◌∷◌, if◌then◌else◌,
}
use tendermintx.Types.BlockId.{PartSetHeader}
use tendermintx.Types.Vote.{Vote, Proposal, SignedMsgType, prevote}
use tendermintx.VoteSet.Defs.{bytes_equal, has_two_thirds_majority}
use tendermintx.PartSet.{PartSet, Part, header}
use tendermintx.Consensus.State.{
  Env, State, proposal_message, block_part_message, vote_message, prevoted, late, update_round_step,
  send_internal, zero_header,
}

module _ {Block Chain Vals Signer : Type 0} (env : Env Block Chain Vals Signer) where
  abbrev pub S : Type 0
  S = State Block Chain Vals Signer

  -- `voteTime`: not before the time of the block that the state is for, plus the chain's iota.
  unfoldable pub vote_time : S → ℤ
  unfolding ◌+ℤ◌
  vote_time s =
      let least : ℤ = elim s.locked_block [
        | some b ↦ env.block_time b +ℤ env.time_iota s.chain
        | none ↦ elim s.proposal_block [
          | some b ↦ env.block_time b +ℤ env.time_iota s.chain
          | none ↦ s.now
        ]
      ] in
      if ltb_ℤ least s.now then s.now else least

  -- `signVote` up to the signature
  unfoldable pub unsigned_vote : SignedMsgType → Bytes → PartSetHeader → Bytes → ℤ → S → Vote
  unfolding vote_time
  unsigned_vote kind hash parts addr i s = record {
    kind = kind;
    height = s.height;
    round = s.round;
    block_id = record { hash = hash; parts = parts };
    timestamp = vote_time s;
    validator_address = addr;
    validator_index = i;
    signature = [];
  }

  -- The vote is sent, if the signer has signed it.
  unfoldable pub send_vote : Vote → Signer → S → S
  send_vote vote key s =
      let (key', signed) = env.sign_vote (env.chain_id s.chain) vote key in
      let t = record s { signer = some key' } in
      elim signed [
        | none ↦ t
        | some g ↦ send_internal (vote_message (record vote { signature = g })) t
      ]

  unfoldable pub sign_add_vote : SignedMsgType → Bytes → PartSetHeader → S → S
  unfolding unsigned_vote send_vote
  sign_add_vote kind hash parts s = elim s.signer [
    | none ↦ s
    | some key ↦ elim (env.address key) [
      | none ↦ s
      | some addr ↦ elim (env.index_of s.validators addr) [
        | none ↦ s
        | some i ↦ send_vote (unsigned_vote kind hash parts addr i s) key s
      ]
    ]
  ]

  -- `defaultDoPrevote`
  unfoldable pub default_do_prevote : S → S
  unfolding sign_add_vote
  default_do_prevote s = elim s.locked_block [
    | some b ↦ sign_add_vote prevote (env.block_hash b) (header s.locked_block_parts) s
    | none ↦ elim s.proposal_block [
      | none ↦ sign_add_vote prevote [] zero_header s
      | some b ↦
          if env.validate_block s.chain b
          then sign_add_vote prevote (env.block_hash b) (header s.proposal_block_parts) s
          else sign_add_vote prevote [] zero_header s
    ]
  ]

  unfoldable pub enter_prevote : ℤ → ℤ → S → S
  unfolding default_do_prevote
  enter_prevote h r s =
      if late h r prevoted s then s else update_round_step r prevoted (default_do_prevote s)

  -- `createProposalBlock`; the commit of the first block is empty, and here none.
  unfoldable pub create_proposal_block : Bytes → S → Option (Block × PartSet)
  create_proposal_block proposer s =
      if s.height ==ℤ pos 1
      then env.create_block s.height s.chain none proposer
      else elim s.last_commit [
        | none ↦ none
        | some c ↦
            if has_two_thirds_majority c
            then env.create_block s.height s.chain (some c) proposer
            else none
      ]

  -- the parts that a loop to `Total` reads; a nil part set has none
  abbrev pub parts_of : Option PartSet → List (Option Part)
  parts_of none = []
  parts_of (some ps) = ps.parts

  -- The messages of the parts; one that is missing is sent as nil.
  unfoldable pub send_parts : List (Option Part) → S → S
  send_parts [] s = s
  send_parts (p ∷ parts) s =
      send_parts parts (send_internal (block_part_message s.height s.round p) s)

  -- The proposal of a block, and of its parts, if the signer signs it.
  unfoldable pub send_proposal : ℤ → ℤ → Block → Option PartSet → Signer → S → S
  unfolding send_parts header
  send_proposal h r b parts key s =
      let p : Proposal = record {
        height = h;
        round = r;
        pol_round = s.valid_round;
        block_id = record { hash = env.block_hash b; parts = header parts };
        timestamp = s.now;
        signature = [];
      } in
      let (key', signed) = env.sign_proposal (env.chain_id s.chain) p key in
      let t = record s { signer = some key' } in
      elim signed [
        | none ↦ t
        | some g ↦
            send_parts (parts_of parts)
              (send_internal (proposal_message (record p { signature = g })) t)
      ]

  -- `defaultDecideProposal`, whose caller has the key and its address
  unfoldable pub decide_proposal : ℤ → ℤ → Signer → Bytes → S → S
  unfolding create_proposal_block send_proposal
  decide_proposal h r key addr s = elim s.valid_block [
    | some b ↦ send_proposal h r b s.valid_block_parts key s
    | none ↦ elim (create_proposal_block addr s) [
      | none ↦ s
      | some (b, parts) ↦ send_proposal h r b (some parts) key s
    ]
  ]

  -- `enterPropose` after its guard, without what it defers
  unfoldable pub propose_turn : ℤ → ℤ → S → S
  unfolding decide_proposal
  propose_turn h r s = elim s.signer [
    | none ↦ s
    | some key ↦ elim (env.address key) [
      | none ↦ s
      | some addr ↦ elim (env.index_of s.validators addr) [
        | none ↦ s
        | some _ ↦
            if bytes_equal (env.proposer_address s.validators) addr
            then decide_proposal h r key addr s
            else s
      ]
    ]
  ]
