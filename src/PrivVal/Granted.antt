-- ===== src/PrivVal/Granted.antt =====
-- A granted request: its canonical message and how the signature came about.
use tendermintx.Common.{ℕ, ℤ, Bytes, some, List, ◌≡◌, refl, ◌⊎◌, inl, inr, arith, sym, ◌∙◌}
use tendermintx.Types.Vote.{
  Vote, Proposal, CanonicalVote, CanonicalProposal, canonicalize_vote, canonicalize_proposal,
}
use tendermintx.PrivVal.Codec.{Wire, Timed, timed_vote, timed_proposal}
use tendermintx.PrivVal.Checks.{
  Call, returns, LastSignState, step_propose, step_prevote, step_precommit, vote_to_step,
}
use tendermintx.PrivVal.Sign.{Env, FilePv, load_file_pv, sign_canonical, sign_vote, sign_proposal}
use tendermintx.PrivVal.Cases.{
  Known, Outcome, reused, fresh, signed, sign_canonical_lem, sign_canonical-some, >>=-eq-returns,
}
use tendermintx.PrivVal.Log.{Released, step_of, vote_sign_bytes, proposal_sign_bytes}
use tendermintx.PrivVal.Safety.{Backs}
use tendermintx.PrivVal.Invariant.{Sound, load-Sound}

abbrev pub IsVoteStep : ℕ → Type 0
IsVoteStep s = (s ≡ step_prevote) ⊎ (s ≡ step_precommit)

abbrev pub IsProposalStep : ℕ → Type 0
IsProposalStep s = s ≡ step_propose

-- At the steps of one kind of message, the bytes of the last state encode such a message.
abbrev pub Encoded : {C : Type 0} → Wire C → (ℕ → Type 0) → LastSignState → Type 0
Encoded {C} wire Kind lss =
    (b : Bytes) → lss.sign_bytes ≡ some b → Kind lss.step → (c : C) × (wire.marshal c ≡ some b)

Encoded-Known :
    {C : Type 0} (wire : Wire C) (timed : Timed C) (Kind : ℕ → Type 0) (lss : LastSignState)
    (h r : ℤ) (s : ℕ)
    → Encoded wire Kind lss
    → Kind s
    → Known wire timed lss h r s
Encoded-Known wire timed Kind lss h r s known k b hb here = known b hb (rw here.2 k)

Encoded-Backs :
    {C : Type 0} (wire : Wire C) (Kind : ℕ → Type 0) (d l : LastSignState)
    → Backs d l
    → Encoded wire Kind l
    → Encoded wire Kind d
Encoded-Backs wire Kind d l (here, inl gone, _) known b hb k = cc
Encoded-Backs wire Kind d l (here, inr same, _) known b hb k =
    known b (sym same ∙ hb) (rw (← here.2) k)

module _ {C : Type 0} (wire : Wire C) (timed : Timed C) where
  -- A signature keeps the bytes of its own kind.
  pub Outcome-Encoded :
      {h r : ℤ} {s : ℕ} {c : C} {pv pv' : FilePv} {sig : Bytes} {time : ℤ} (Kind : ℕ → Type 0)
      → Outcome wire timed h r s c pv pv' sig time
      → Encoded wire Kind pv.last_sign_state
      → Encoded wire Kind pv'.last_sign_state
  Outcome-Encoded Kind (reused here same hb hs hm) known = rw same known
  Outcome-Encoded {c = c} {time = time} Kind (fresh later same hm) known =
      unfold signed in rw same (λ b' hb' k. (timed.with_time time c, hm ∙ hb'))

  -- ... and does not touch the other kind.
  pub Outcome-other :
      {h r : ℤ} {s : ℕ} {c : C} {pv pv' : FilePv} {sig : Bytes} {time : ℤ} {D : Type 0}
      (wire' : Wire D) (Kind : ℕ → Type 0)
      → ¬ Kind s
      → Outcome wire timed h r s c pv pv' sig time
      → Encoded wire' Kind pv.last_sign_state
      → Encoded wire' Kind pv'.last_sign_state
  Outcome-other wire' Kind no_kind (reused here same hb hs hm) known = rw same known
  Outcome-other wire' Kind no_kind (fresh later same hm) known =
      unfold signed in rw same (λ b' hb' k. absurd (no_kind k))

vote_to_step_cases :
    (v : Vote) {s : ℕ} → vote_to_step v.kind ≡ returns s → IsVoteStep s × (step_of v.kind ≡ s)
unfolding vote_to_step
vote_to_step_cases v h = ground arith

returns-injective {ℓ κ} :
    {A : Type ℓ} {B : Type κ} {a a' : A} {b b' : B}
    → ◌≡◌ {A = Call (A × B)} (returns (a, b)) (returns (a', b'))
    → (a ≡ a') × (b ≡ b')
returns-injective h = (cc, cc)

pub vote_time :
    (chain_id : Bytes) (v : Vote) (c : CanonicalVote)
    → canonicalize_vote chain_id v ≡ some c
    → c.timestamp ≡ v.timestamp
unfolding canonicalize_vote
vote_time chain_id v c h = ground arith

module _ (votes : Wire CanonicalVote) (proposals : Wire CanonicalProposal) where
  pub record Inv (s : FilePv × List Released) : Type 0 where
    pub sound : Sound s.0 s.1
    pub votes_known : Encoded votes IsVoteStep s.0.last_sign_state
    pub proposals_known : Encoded proposals IsProposalStep s.0.last_sign_state

  pub load-Inv : (pv : FilePv) (log : List Released) → Inv (pv, log) → Inv (load_file_pv pv, log)
  unfolding load_file_pv
  load-Inv pv log i = record {
    sound = unfold load_file_pv in load-Sound pv log i.sound;
    votes_known = Encoded-Backs votes IsVoteStep _ _ i.sound.backed i.votes_known;
    proposals_known = Encoded-Backs proposals IsProposalStep _ _ i.sound.backed i.proposals_known;
  }

  pub retimed_vote :
      (chain_id : Bytes) (v : Vote) (sig : Bytes) (time : ℤ) (c : CanonicalVote)
      → canonicalize_vote chain_id v ≡ some c
      → vote_sign_bytes votes proposals chain_id (record v { signature = sig; timestamp = time })
        ≡ votes.marshal (timed_vote.with_time time c)
  unfolding vote_sign_bytes canonicalize_vote
  retimed_vote chain_id v sig time c h = ground arith

  pub retimed_proposal :
      (chain_id : Bytes) (p : Proposal) (sig : Bytes) (time : ℤ) (c : CanonicalProposal)
      → canonicalize_proposal chain_id p ≡ some c
      → proposal_sign_bytes votes proposals chain_id
          (record p { signature = sig; timestamp = time })
        ≡ proposals.marshal (timed_proposal.with_time time c)
  unfolding proposal_sign_bytes canonicalize_proposal
  retimed_proposal chain_id p sig time c h = ground arith

  proposal_time :
      (chain_id : Bytes) (p : Proposal) (c : CanonicalProposal)
      → canonicalize_proposal chain_id p ≡ some c
      → c.timestamp ≡ p.timestamp
  unfolding canonicalize_proposal
  proposal_time chain_id p c h = ground arith

  pub vote-Outcome :
      (e : Env) (chain_id : Bytes) (v : Vote) (pv : FilePv) {pv' : FilePv} {v' : Vote}
      {log : List Released}
      → Inv (pv, log)
      → sign_vote votes e chain_id v pv ≡ returns (pv', v')
      → (c : CanonicalVote) × (sig : Bytes) × (time : ℤ) × (canonicalize_vote chain_id v ≡ some c)
        × (v' ≡ record v { signature = sig; timestamp = time })
        × Outcome votes timed_vote v.height v.round (step_of v.kind) c pv pv' sig time
        × IsVoteStep (step_of v.kind)
  unfolding sign_vote
  vote-Outcome e chain_id v pv {pv' = pv'} i h =
      let (s, hs, h1) = >>=-eq-returns (vote_to_step v.kind) _ h in
      let (kind, same) = vote_to_step_cases v hs in
      let ((pv1, sig, time), h2, h3) =
        >>=-eq-returns
          (sign_canonical votes timed_vote e v.height v.round s (canonicalize_vote chain_id v)
            v.timestamp pv)
          _ h1 in
      let (c, hc) = sign_canonical-some votes timed_vote e v.height v.round s _ v.timestamp pv h2 in
      let known =
        Encoded-Known votes timed_vote IsVoteStep pv.last_sign_state v.height v.round s
          i.votes_known kind in
      let out : Outcome votes timed_vote v.height v.round s c pv pv1 sig time =
        sign_canonical_lem votes timed_vote e v.height v.round s c pv known
          (rw (hc, ← vote_time chain_id v c hc) at h2) in
      let (same_pv, same_vote) = returns-injective h3 in
      (c, sig, time, hc, sym same_vote, rw (same, ← same_pv) out, rw same kind)

  pub proposal-Outcome :
      (e : Env) (chain_id : Bytes) (p : Proposal) (pv : FilePv) {pv' : FilePv} {p' : Proposal}
      {log : List Released}
      → Inv (pv, log)
      → sign_proposal proposals e chain_id p pv ≡ returns (pv', p')
      → (c : CanonicalProposal) × (sig : Bytes) × (time : ℤ) × (canonicalize_proposal chain_id p
          ≡ some c)
        × (p' ≡ record p { signature = sig; timestamp = time })
        × Outcome proposals timed_proposal p.height p.round step_propose c pv pv' sig time
  unfolding sign_proposal
  proposal-Outcome e chain_id p pv {pv' = pv'} i h =
      let ((pv1, sig, time), h2, h3) =
        >>=-eq-returns
          (sign_canonical proposals timed_proposal e p.height p.round step_propose
            (canonicalize_proposal chain_id p) p.timestamp pv)
          _ h in
      let (c, hc) =
        sign_canonical-some proposals timed_proposal e p.height p.round step_propose _ p.timestamp
          pv h2 in
      let known =
        Encoded-Known proposals timed_proposal IsProposalStep pv.last_sign_state p.height p.round
          step_propose i.proposals_known refl in
      let out : Outcome proposals timed_proposal p.height p.round step_propose c pv pv1 sig time =
        sign_canonical_lem proposals timed_proposal e p.height p.round step_propose c pv known
          (rw (hc, ← proposal_time chain_id p c hc) at h2) in
      let (same_pv, same_proposal) = returns-injective h3 in
      (c, sig, time, hc, sym same_proposal, rw (← same_pv) out)
