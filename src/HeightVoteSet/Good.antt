-- ===== src/HeightVoteSet/Good.antt =====
-- The invariant, and that adding rounds and replacing vote sets keep it.
use tendermintx.Common.{
  ◌≤◌, ℤ, pos, ◌==ℤ◌, ℤ-discrete, Bytes, false, none, [], ◌≡◌, inl, inr, refl, length, find, store,
  replicate, All, All-find, All-store, Option-cases, ok,
}
use tendermintx.Types.Vote.{SignedMsgType, prevote, precommit}
use tendermintx.VoteSet.Defs.{Crypto, ValidatorSet, VoteSet, new_vote_set, size}
use tendermintx.VoteSet.Power.{power_total}
use tendermintx.VoteSet.Invariant.{id_of}
use tendermintx.VoteSet.Majority.{Reach, created}
use tendermintx.HeightVoteSet.Defs.{
  RoundVoteSet, HeightVoteSet, add_round, reset, put_vote_set, with_kind,
}

-- A vote set that the methods of vote sets give, for the round, the type and the rest.
pub record Fits (crypto : Crypto) (chain_id : Bytes) (height : ℤ) (vals : ValidatorSet) (r : ℤ)
    (kind : SignedMsgType) (s : VoteSet) : Type 0 where
  pub reach : Reach crypto s
  pub same_id : id_of s ≡ (chain_id, height, r, kind)
  pub same_vals : s.val_set ≡ vals

abbrev pub RoundOk : Crypto → Bytes → ℤ → ValidatorSet → ℤ × RoundVoteSet → Type 0
RoundOk crypto chain_id height vals e =
    Fits crypto chain_id height vals e.0 prevote e.1.prevotes
    × Fits crypto chain_id height vals e.0 precommit e.1.precommits

-- The vote sets are for their rounds, and no peer has more than two catch-up rounds.
pub record Good (crypto : Crypto) (h : HeightVoteSet) : Type 0 where
  pub nonzero : (h.height ==ℤ pos 0) ≡ false
  pub total : h.val_set.total_voting_power ≡ power_total h.val_set.validators
  pub rounds : All (RoundOk crypto h.chain_id h.height h.val_set) h.round_vote_sets
  pub catchup : All (λ e. length e.1 ≤ 2) h.peer_catchup_rounds

module _ (crypto : Crypto) where
  new_vote_set-Fits :
      (chain_id : Bytes) (height r : ℤ) (kind : SignedMsgType) (vals : ValidatorSet)
      → (height ==ℤ pos 0) ≡ false
      → vals.total_voting_power ≡ power_total vals.validators
      → (s : VoteSet) × (new_vote_set chain_id height r kind vals ≡ ok s)
        × Fits crypto chain_id height vals r kind s
  new_vote_set-Fits chain_id height r kind vals nonzero total =
      let s : VoteSet = record {
        chain_id = chain_id;
        height = height;
        round = r;
        signed_msg_type = kind;
        val_set = vals;
        votes_bit_array = replicate (size vals) false;
        votes = replicate (size vals) none;
        sum = 0;
        maj23 = none;
        votes_by_block = [];
        peer_maj23s = [];
      } in
      let e : new_vote_set chain_id height r kind vals ≡ ok s =
        unfold new_vote_set in rw nonzero refl in
      (
        s,
        e,
        record {
          reach = created chain_id height r kind vals total e;
          same_id = refl;
          same_vals = refl;
        },
      )

  add_round-run :
      (r : ℤ) (h : HeightVoteSet) (p q : VoteSet)
      → find ℤ-discrete r h.round_vote_sets ≡ none
      → new_vote_set h.chain_id h.height r prevote h.val_set ≡ ok p
      → new_vote_set h.chain_id h.height r precommit h.val_set ≡ ok q
      → add_round r h
        ≡ ok (record h {
          round_vote_sets =
              store ℤ-discrete r (record { prevotes = p; precommits = q }) h.round_vote_sets;
        })
  unfolding add_round
  add_round-run r h p q missing ep eq = rw (add_round, missing, ep, eq)

  -- A round that is not there is added.
  pub add_round_lem :
      (r : ℤ) (h : HeightVoteSet)
      → Good crypto h
      → find ℤ-discrete r h.round_vote_sets ≡ none
      → (rvs : RoundVoteSet) × (add_round r h
          ≡ ok (record h { round_vote_sets = store ℤ-discrete r rvs h.round_vote_sets }))
        × RoundOk crypto h.chain_id h.height h.val_set (r, rvs)
        × Good crypto (record h { round_vote_sets = store ℤ-discrete r rvs h.round_vote_sets })
  add_round_lem r h good missing =
      let (p, ep, fp) =
        new_vote_set-Fits h.chain_id h.height r prevote h.val_set good.nonzero good.total in
      let (q, eq, fq) =
        new_vote_set-Fits h.chain_id h.height r precommit h.val_set good.nonzero good.total in
      (
        record { prevotes = p; precommits = q },
        add_round-run r h p q missing ep eq,
        (fp, fq),
        record {
          nonzero = good.nonzero;
          total = good.total;
          rounds =
              All-store ℤ-discrete (RoundOk crypto h.chain_id h.height h.val_set) r
                (record { prevotes = p; precommits = q }) h.round_vote_sets (fp, fq) good.rounds;
          catchup = good.catchup;
        },
      )

  pub reset-Good :
      (chain_id : Bytes) (height : ℤ) (vals : ValidatorSet)
      → (height ==ℤ pos 0) ≡ false
      → vals.total_voting_power ≡ power_total vals.validators
      → (h : HeightVoteSet) × (reset chain_id height vals ≡ ok h) × Good crypto h
  unfolding reset find
  reset-Good chain_id height vals nonzero total =
      let h : HeightVoteSet = record {
        chain_id = chain_id;
        height = height;
        val_set = vals;
        round = pos 0;
        round_vote_sets = [];
        peer_catchup_rounds = [];
      } in
      let good : Good crypto h = record {
        nonzero = nonzero;
        total = total;
        rounds = tt;
        catchup = tt;
      } in
      let (rvs, run, _, fine) = add_round_lem (pos 0) h good refl in (_, run, fine)

  with_kind-Ok :
      (chain_id : Bytes) (height : ℤ) (vals : ValidatorSet) (r : ℤ) (kind : SignedMsgType)
      (s : VoteSet) (rvs : RoundVoteSet)
      → Fits crypto chain_id height vals r kind s
      → RoundOk crypto chain_id height vals (r, rvs)
      → RoundOk crypto chain_id height vals (r, with_kind kind s rvs)
  with_kind-Ok chain_id height vals r prevote s rvs f fine = (f, fine.1)
  with_kind-Ok chain_id height vals r precommit s rvs f fine = (fine.0, f)
  with_kind-Ok chain_id height vals r _ s rvs f fine = fine

  -- A vote set of the map is replaced by one that fits.
  pub put_vote_set-Good :
      (r : ℤ) (kind : SignedMsgType) (s : VoteSet) (h : HeightVoteSet)
      → Good crypto h
      → Fits crypto h.chain_id h.height h.val_set r kind s
      → Good crypto (put_vote_set r kind s h)
  unfolding put_vote_set
  put_vote_set-Good r kind s h good f = elim (Option-cases (find ℤ-discrete r h.round_vote_sets)) [
    | inl missing ↦ rw (put_vote_set, missing) good
    | inr (rvs, found) ↦
        rw (put_vote_set, found)
          (record {
            nonzero = good.nonzero;
            total = good.total;
            rounds =
                All-store ℤ-discrete (RoundOk crypto h.chain_id h.height h.val_set) r
                  (with_kind kind s rvs) h.round_vote_sets
                  (with_kind-Ok h.chain_id h.height h.val_set r kind s rvs f (
                    All-find ℤ-discrete (RoundOk crypto h.chain_id h.height h.val_set) r
                      h.round_vote_sets good.rounds found))
                  good.rounds;
            catchup = good.catchup;
          })
  ]
