-- ===== src/HeightVoteSet/Claim.antt =====
-- `SetPeerMaj23` on every branch.
use tendermintx.Common.{
  ℤ, ℤ-discrete, Bytes, true, false, Option, none, some, ◌≡◌, ◌≢◌, ◌↔◌, inl, inr, refl, ◌∙◌, find,
  All-find, Option-cases, Bool-cases, ok,
}
use tendermintx.Types.BlockId.{BlockId}
use tendermintx.Types.Vote.{SignedMsgType, is_vote_type_valid}
use tendermintx.VoteSet.Defs
use tendermintx.VoteSet.Defs.{Crypto, VoteSet, VoteError}
use tendermintx.VoteSet.Claim.{set_peer_maj23_lem}
use tendermintx.VoteSet.Majority.{claimed, Reach-Inv}
use tendermintx.HeightVoteSet.Defs.{
  HeightVoteSet, HeightVoteError, invalid_vote_type, rejected, get_vote_set, put_vote_set,
  set_peer_maj23,
}
use tendermintx.HeightVoteSet.Good.{RoundOk, Good, put_vote_set-Good}
use tendermintx.HeightVoteSet.Add.{get_vote_set-Fits, get_vote_set-none}

module _ (crypto : Crypto) (r : ℤ) (kind : SignedMsgType) (peer : Bytes) (b : BlockId)
    (h : HeightVoteSet) where
  -- A claim for a vote set that fits.
  run_claim :
      (s t : VoteSet) {err : Option VoteError}
      → is_vote_type_valid kind ≡ true
      → get_vote_set r kind h ≡ ok (some s)
      → Defs.set_peer_maj23 crypto peer b s ≡ (t, err)
      → (e : Option HeightVoteError) × (set_peer_maj23 crypto r kind peer b h
          ≡ ok (put_vote_set r kind t h, e))
        × (e ≢ some invalid_vote_type)
  unfolding set_peer_maj23 put_vote_set
  run_claim s t {err} valid found run = elim (Option-cases err) [
    | inl q ↦ (none, rw (set_peer_maj23, valid, found, run, q), λ k. cc)
    | inr (w, q) ↦ (some (rejected w), rw (set_peer_maj23, valid, found, run, q), λ k. cc)
  ]

  run_missing :
      is_vote_type_valid kind ≡ true
      → get_vote_set r kind h ≡ ok none
      → set_peer_maj23 crypto r kind peer b h ≡ ok (h, none)
  unfolding set_peer_maj23 put_vote_set
  run_missing valid missing = rw (set_peer_maj23, valid, missing)

  run_invalid_claim :
      is_vote_type_valid kind ≡ false
      → set_peer_maj23 crypto r kind peer b h ≡ ok (h, some invalid_vote_type)
  unfolding set_peer_maj23
  run_invalid_claim bad = rw (set_peer_maj23, bad)

  -- In a good state, a peer's claim of a majority returns without a panic, and the state is good
  -- afterwards. The error is that of an invalid type exactly if the type is neither of the two.
  pub set_peer_maj23-Good :
      Good crypto h
      → (t : HeightVoteSet) × (err : Option HeightVoteError) × (set_peer_maj23 crypto r kind peer b
            h
          ≡ ok (t, err))
        × Good crypto t
        × (err ≡ some invalid_vote_type ↔ is_vote_type_valid kind ≡ false)
  set_peer_maj23-Good good = elim (Bool-cases (is_vote_type_valid kind)) [
    | inr bad ↦ (h, some invalid_vote_type, run_invalid_claim bad, good, (λ _. bad, λ _. refl))
    | inl valid ↦ elim (Option-cases (find ℤ-discrete r h.round_vote_sets)) [
      | inl missing ↦ (
        h,
        none,
        run_missing valid (get_vote_set-none crypto r kind h missing),
        good,
        (λ e. absurd (cc), λ e. absurd (cc)),
      )
      | inr (rvs, found) ↦
          let fine =
            All-find ℤ-discrete (RoundOk crypto h.chain_id h.height h.val_set) r h.round_vote_sets
              good.rounds found in
          let (s, e, f) = get_vote_set-Fits crypto r kind h valid fine found in
          let (t, _, run, kept) = set_peer_maj23_lem crypto s (Reach-Inv crypto f.reach) peer b in
          let (err, done, other) = run_claim s t valid e run in
          (
            put_vote_set r kind t h,
            err,
            done,
            put_vote_set-Good crypto r kind t h good (record {
              reach = claimed peer b f.reach run;
              same_id = kept.same_id ∙ f.same_id;
              same_vals = kept.same_vals ∙ f.same_vals;
            }),
            (λ k. absurd (other k), λ k. absurd (cc)),
          )
    ]
  ]
