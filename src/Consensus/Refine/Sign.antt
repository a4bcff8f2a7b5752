-- ===== src/Consensus/Refine/Sign.antt =====
-- The functions that sign and send.
use tendermintx.Common.{
  ℤ, ltb_ℤ, Bytes, false, Option, none, some, List, [], ◌∷◌, ◌++◌, ◌≡◌, inl, inr, refl, sym, ap,
  subst, arith, Option-cases, Bool-cases, eq_of_parts,
}
use tendermintx.Types.BlockId.{BlockId, PartSetHeader}
use tendermintx.Types.Vote.{Vote, Proposal, SignedMsgType, prevote}
use tendermintx.PartSet.{Part, header}
use tendermintx.Consensus.State.{
  Env, Message, proposal_message, block_part_message, vote_message, RoundStep, prevoted, late,
  update_round_step, zero_header,
}
use tendermintx.Consensus.Sign.{
  S, unsigned_vote, send_vote, sign_add_vote, default_do_prevote, enter_prevote,
}
use tendermintx.Consensus.Rules as Rules
use tendermintx.Consensus.Rules.{
  core, votes_of, Later, MayPrevote, Casts, abstain, cast, Moves, one, Follows, Follows-same,
}

pub votes_of-sent :
    (queue : List Message) (v : Vote)
    → votes_of (queue ++ vote_message v ∷ []) ≡ votes_of queue ++ v ∷ []
unfolding votes_of
votes_of-sent [] v = refl
votes_of-sent (vote_message w ∷ queue) v = ap (λ vs. w ∷ vs) (votes_of-sent queue v)
votes_of-sent (proposal_message p ∷ queue) v = votes_of-sent queue v
votes_of-sent (block_part_message h r part ∷ queue) v = votes_of-sent queue v

pub votes_of-proposal :
    (queue : List Message) (p : Proposal)
    → votes_of (queue ++ proposal_message p ∷ []) ≡ votes_of queue
unfolding votes_of
votes_of-proposal [] p = refl
votes_of-proposal (vote_message w ∷ queue) p = ap (λ vs. w ∷ vs) (votes_of-proposal queue p)
votes_of-proposal (proposal_message q ∷ queue) p = votes_of-proposal queue p
votes_of-proposal (block_part_message h r part ∷ queue) p = votes_of-proposal queue p

pub votes_of-part :
    (queue : List Message) (h r : ℤ) (part : Option Part)
    → votes_of (queue ++ block_part_message h r part ∷ []) ≡ votes_of queue
unfolding votes_of
votes_of-part [] h r part = refl
votes_of-part (vote_message w ∷ queue) h r part = ap (λ vs. w ∷ vs) (votes_of-part queue h r part)
votes_of-part (proposal_message q ∷ queue) h r part = votes_of-part queue h r part
votes_of-part (block_part_message h' r' p ∷ queue) h r part = votes_of-part queue h r part

module _ {Block Chain Vals Signer : Type 0} (env : Env Block Chain Vals Signer) where
  -- What is left of a function that only sends: the state with another signer and queue.
  abbrev with_queue : Option Signer → List Message → S env → S env
  with_queue key queue s = record s { signer = key; queue = queue }

  -- Signing a vote sends nothing, or the vote with a signature.
  pub data Signed (kind : SignedMsgType) (hash : Bytes) (parts : PartSetHeader) (s : S env)
      : S env → Type 0 where
    silent : (key : Option Signer) → Signed kind hash parts s (with_queue key s.queue s)
    said :
        (key : Option Signer) (v : Vote)
        → v.kind ≡ kind
        → v.height ≡ s.height
        → v.round ≡ s.round
        → v.block_id ≡ record { hash = hash; parts = parts }
        → Signed kind hash parts s (with_queue key (s.queue ++ vote_message v ∷ []) s)

  send_vote-Signed :
      (kind : SignedMsgType) (hash : Bytes) (parts : PartSetHeader) (addr : Bytes) (i : ℤ)
      (key : Signer) (s : S env)
      → Signed kind hash parts s (send_vote env (unsigned_vote env kind hash parts addr i s) key s)
  unfolding send_vote unsigned_vote
  send_vote-Signed kind hash parts addr i key s =
      let v = unsigned_vote env kind hash parts addr i s in
      let made = env.sign_vote (env.chain_id s.chain) v key in
      elim (Option-cases made.1) [
        | inl missing ↦ rw (send_vote, missing) (silent (some made.0))
        | inr (g, found) ↦
            rw (send_vote, found)
              (said (some made.0) (record v { signature = g }) refl refl refl refl)
      ]

  pub sign_add_vote-Signed :
      (kind : SignedMsgType) (hash : Bytes) (parts : PartSetHeader) (s : S env)
      → Signed kind hash parts s (sign_add_vote env kind hash parts s)
  unfolding sign_add_vote
  sign_add_vote-Signed kind hash parts s = elim (Option-cases s.signer) [
    | inl missing ↦ rw (sign_add_vote, missing) (silent s.signer)
    | inr (key, found) ↦ elim (Option-cases (env.address key)) [
      | inl missing ↦ rw (sign_add_vote, found, missing) (silent s.signer)
      | inr (addr, known) ↦ elim (Option-cases (env.index_of s.validators addr)) [
        | inl missing ↦ rw (sign_add_vote, found, known, missing) (silent s.signer)
        | inr (i, member) ↦
            let sent : send_vote env (unsigned_vote env kind hash parts addr i s) key s
                ≡ sign_add_vote env kind hash parts s =
              ground (arith, found, known, member) in
            subst (Signed kind hash parts s) sent (send_vote-Signed kind hash parts addr i key s)
      ]
    ]
  ]

  -- A function that casts one vote at most and does nothing else.
  pub record Voted (kind : SignedMsgType) (Fits : Bytes → Type 0) (s t : S env) : Type 0 where
    pub sent : List Vote
    pub casts : Casts env kind s.height s.round Fits (votes_of s.queue) sent
    pub same : core env t ≡ record (core env s) { sent = sent }

  pub Signed-Voted :
      (kind : SignedMsgType) (hash : Bytes) (parts : PartSetHeader) (Fits : Bytes → Type 0)
      (s t : S env)
      → Fits hash
      → Signed kind hash parts s t
      → Voted kind Fits s t
  Signed-Voted kind hash parts Fits s t fits (silent key) = record {
    sent = votes_of s.queue;
    casts = abstain;
    same = refl;
  }
  Signed-Voted kind hash parts Fits s t fits (said key v kinds height round id) = record {
    sent = votes_of s.queue ++ v ∷ [];
    casts = cast v kinds height round (subst (λ (i : BlockId). Fits i.hash) (sym id) fits);
    same = ap (λ vs. record (core env s) { sent = vs }) (votes_of-sent s.queue v);
  }

  abbrev Prevoted : S env → S env → Type 0
  Prevoted s = Voted prevote (MayPrevote env s.locked_block s.chain) s

  prevote-Prevoted :
      (hash : Bytes) (parts : PartSetHeader) (s : S env)
      → MayPrevote env s.locked_block s.chain hash
      → Prevoted s (sign_add_vote env prevote hash parts s)
  prevote-Prevoted hash parts s may =
      Signed-Voted prevote hash parts (MayPrevote env s.locked_block s.chain) s _ may
        (sign_add_vote-Signed prevote hash parts s)

  default_do_prevote-Prevoted : (s : S env) → Prevoted s (default_do_prevote env s)
  unfolding default_do_prevote
  default_do_prevote-Prevoted s = elim (Option-cases s.locked_block) [
    | inr (b, locked) ↦
        let run : sign_add_vote env prevote (env.block_hash b) (header s.locked_block_parts) s
            ≡ default_do_prevote env s =
          ground (arith, locked) in
        subst (Prevoted s) run (
          prevote-Prevoted (env.block_hash b) _ s
            (subst (λ o. MayPrevote env o s.chain (env.block_hash b)) (sym locked) refl))
    | inl free ↦
        let may : (hash : Bytes)
            → MayPrevote env none s.chain hash
            → MayPrevote env s.locked_block s.chain hash =
          λ hash. subst (λ o. MayPrevote env o s.chain hash) (sym free) in
        let for_nil = prevote-Prevoted [] zero_header s (may [] (inl refl)) in
        elim (Option-cases s.proposal_block) [
          | inl missing ↦
              let run : sign_add_vote env prevote [] zero_header s ≡ default_do_prevote env s =
                ground (arith, free, missing) in
              subst (Prevoted s) run for_nil
          | inr (b, found) ↦ elim (Bool-cases (env.validate_block s.chain b)) [
            | inl valid ↦
                let run : sign_add_vote env prevote (env.block_hash b)
                      (header s.proposal_block_parts) s
                    ≡ default_do_prevote env s =
                  ground (arith, free, found, valid) in
                subst (Prevoted s) run (
                  prevote-Prevoted (env.block_hash b) (header s.proposal_block_parts) s
                    (may (env.block_hash b) (inr (b, valid, refl))))
            | inr bad ↦
                let run : sign_add_vote env prevote [] zero_header s ≡ default_do_prevote env s =
                  ground (arith, free, found, bad) in
                subst (Prevoted s) run for_nil
          ]
        ]
  ]

  -- A function that does not return early moves on.
  pub late-Later :
      (h r : ℤ) (step : RoundStep) (s : S env)
      → late h r step s ≡ false
      → (s.height ≡ h) × Later env s.round s.step r step
  late-Later h r step s e = elim (Bool-cases (ltb_ℤ s.round r)) [
    | inl below ↦ (ground (arith, e, eq_of_parts s.height h), inl (ground (arith, below)))
    | inr above ↦ (
      ground (arith, e, eq_of_parts s.height h),
      inr (ground (arith, e, above, eq_of_parts s.round r), ground (arith, e, above)),
    )
  ]

  pub enter_prevote-Follows : (h r : ℤ) (s : S env) → Follows env s (enter_prevote env h r s)
  unfolding enter_prevote
  enter_prevote-Follows h r s = elim (Bool-cases (late h r prevoted s)) [
    | inl e ↦
        let run : s ≡ enter_prevote env h r s = ground (arith, e) in
        subst (Follows env s) run (Follows-same env refl)
    | inr e ↦
        let run : update_round_step r prevoted (default_do_prevote env s)
            ≡ enter_prevote env h r s =
          ground (arith, e) in
        let done = default_do_prevote-Prevoted s in
        let moved : Follows env s (update_round_step r prevoted (default_do_prevote env s)) =
          record {
            moves =
                subst (λ c. Moves env (core env s) (record c { round = r; step = prevoted }))
                  (sym done.same)
                  (one env (
                    Rules.enter_prevote (core env s) r done.sent (late-Later h r prevoted s e).1
                      done.casts));
          } in
        subst (Follows env s) run moved
  ]
