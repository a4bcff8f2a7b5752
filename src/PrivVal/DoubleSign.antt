-- ===== src/PrivVal/DoubleSign.antt =====
-- No double signing: every event keeps the invariant, so a log of released signatures never holds
-- two messages for one height, round and step.
use tendermintx.Common.{
  ℕ, Bytes, some, List, [], ◌∷◌, ◌≡◌, refl, All, arith, sym, zero, suc, get_elem?,
}
use tendermintx.Types.Vote.{Vote, Proposal, CanonicalVote, CanonicalProposal}
use tendermintx.PrivVal.Codec.{Wire, timed_vote, timed_proposal}
use tendermintx.PrivVal.Checks.{Call, returns, fails, panics}
use tendermintx.PrivVal.Sign.{Env, FilePv, sign_vote, sign_proposal, gen_file_pv}
use tendermintx.PrivVal.Log.{
  Released, Event, vote_request, proposal_request, restart, step, run, after_vote, after_proposal,
}
use tendermintx.PrivVal.Safety.{Consistent, SameHrs, SameMessage}
use tendermintx.PrivVal.Invariant.{Outcome-Sound}
use tendermintx.PrivVal.Granted.{
  IsVoteStep, IsProposalStep, Outcome-Encoded, Outcome-other, Inv, load-Inv, retimed_vote,
  retimed_proposal, vote-Outcome, proposal-Outcome,
}

All-get {ℓ κ} :
    {A : Type ℓ} (P : A → Type κ) (l : List A) (i : ℕ) {a : A}
    → All P l
    → get_elem? l i ≡ some a
    → P a
All-get P [] i h e = absurd (cc)
All-get P (x ∷ l) zero {a} h e = let same : x ≡ a = cc in rw (← same) h.0
All-get P (x ∷ l) (suc i) h e = All-get P l i h.1 e

Consistent-lookup :
    (log : List Released) (i j : ℕ) {a b : Released}
    → Consistent log
    → get_elem? log i ≡ some a
    → get_elem? log j ≡ some b
    → SameHrs a b
    → SameMessage a b
Consistent-lookup [] i j c ha hb s = absurd (cc)
Consistent-lookup (x ∷ log) zero zero c ha hb s = ground arith
Consistent-lookup (x ∷ log) zero (suc j) {a} {b} c ha hb s =
    let same : x ≡ a = cc in
    let agree = All-get (λ y. SameHrs x y → SameMessage x y) log j c.0 hb in
    rw (← same) (agree (rw same s))
Consistent-lookup (x ∷ log) (suc i) zero {a} {b} c ha hb s =
    let same : x ≡ b = cc in
    let agree = All-get (λ y. SameHrs x y → SameMessage x y) log i c.0 ha in
    let (m, g) = agree (ground arith) in rw (← same) (sym m, sym g)
Consistent-lookup (x ∷ log) (suc i) (suc j) c ha hb s = Consistent-lookup log i j c.1 ha hb s

module _ (votes : Wire CanonicalVote) (proposals : Wire CanonicalProposal) where
  vote-Inv :
      (e : Env) (chain_id : Bytes) (v : Vote) (pv : FilePv) (log : List Released)
      → Inv votes proposals (pv, log)
      → (r : Call (FilePv × Vote)) → sign_vote votes e chain_id v pv ≡ r
      → Inv votes proposals (after_vote votes proposals chain_id r (pv, log))
  unfolding after_vote
  vote-Inv e chain_id v pv log i panics h = load-Inv votes proposals pv log i
  vote-Inv e chain_id v pv log i (fails _) h = i
  vote-Inv e chain_id v pv log i (returns (pv', v')) h =
      let (c, sig, time, hc, hv, out, kind) = vote-Outcome votes proposals e chain_id v pv i h in
      rw hv (record {
        sound =
            Outcome-Sound votes timed_vote _ c time out
              (retimed_vote votes proposals chain_id v sig time c hc) i.sound;
        votes_known = Outcome-Encoded votes timed_vote IsVoteStep out i.votes_known;
        proposals_known =
            Outcome-other votes timed_vote proposals IsProposalStep (λ p. ground arith) out
              i.proposals_known;
      })

  proposal-Inv :
      (e : Env) (chain_id : Bytes) (p : Proposal) (pv : FilePv) (log : List Released)
      → Inv votes proposals (pv, log)
      → (r : Call (FilePv × Proposal)) → sign_proposal proposals e chain_id p pv ≡ r
      → Inv votes proposals (after_proposal votes proposals chain_id r (pv, log))
  unfolding after_proposal
  proposal-Inv e chain_id p pv log i panics h = load-Inv votes proposals pv log i
  proposal-Inv e chain_id p pv log i (fails _) h = i
  proposal-Inv e chain_id p pv log i (returns (pv', p')) h =
      let (c, sig, time, hc, hp, out) = proposal-Outcome votes proposals e chain_id p pv i h in
      rw hp (record {
        sound =
            Outcome-Sound proposals timed_proposal _ c time out
              (retimed_proposal votes proposals chain_id p sig time c hc) i.sound;
        votes_known =
            Outcome-other proposals timed_proposal votes IsVoteStep (λ k. ground arith) out
              i.votes_known;
        proposals_known =
            Outcome-Encoded proposals timed_proposal IsProposalStep out i.proposals_known;
      })

  step-Inv :
      (s : FilePv × List Released) (e : Event)
      → Inv votes proposals s
      → Inv votes proposals (step votes proposals s e)
  unfolding step
  step-Inv (pv, log) (vote_request e chain_id v) i = vote-Inv e chain_id v pv log i _ refl
  step-Inv (pv, log) (proposal_request e chain_id p) i = proposal-Inv e chain_id p pv log i _ refl
  step-Inv (pv, log) restart i = load-Inv votes proposals pv log i

  run-Inv :
      (s : FilePv × List Released) (es : List Event)
      → Inv votes proposals s
      → Inv votes proposals (run votes proposals s es)
  unfolding run
  run-Inv s [] i = i
  run-Inv s (e ∷ es) i = run-Inv (step votes proposals s e) es (step-Inv s e i)

  start-Inv : (path : Bytes) → Inv votes proposals (gen_file_pv path, [])
  unfolding gen_file_pv
  start-Inv path = record {
    sound = ground arith;
    votes_known = λ b h k. cc;
    proposals_known = λ b h k. cc;
  }

  -- Whatever requests a new validator meets, however often it restarts and whichever calls fail, any
  -- two signatures that it hands out for one height, round and step are equal, and are for equal
  -- sign bytes.
  pub no_double_sign :
      (path : Bytes) (es : List Event) (i j : ℕ) {a b : Released}
      → get_elem? (run votes proposals (gen_file_pv path, []) es).1 i ≡ some a
      → get_elem? (run votes proposals (gen_file_pv path, []) es).1 j ≡ some b
      → SameHrs a b
      → SameMessage a b
  no_double_sign path es i j =
      Consistent-lookup _ i j (run-Inv (gen_file_pv path, []) es (start-Inv path)).sound.consistent
