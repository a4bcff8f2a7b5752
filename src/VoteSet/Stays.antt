-- ===== src/VoteSet/Stays.antt =====
-- A majority that was found stays, whatever votes are added, and so does the type of the votes.
use tendermintx.Common.{
  ℕ, Bytes, Bytes-discrete, Bool, true, false, Option, none, some, ◌≡◌, ◌⊎◌, inl, inr, find,
  Option-cases, ok, ◌>>=◌, Ends, Ends-ok, Ends-panic, Ends-bind, Ends-self, arith,
}
use tendermintx.Types.BlockId.{BlockId}
use tendermintx.Types.Vote.{Vote, SignedMsgType}
use tendermintx.VoteSet.Defs.{
  Crypto, Validator, VoteSet, VoteError, BlockVotes, record_vote, count_vote, add_verified_vote,
  add_new, add_vote, add_to_block, key, get_by_index, new_block_votes, size, added_result,
}

module _ (crypto : Crypto) (kind : SignedMsgType) (found_one : Bool) (b : BlockId) where
  -- The type of the votes, and the majority if one was found.
  abbrev pub Stays : VoteSet → Type 0
  Stays s = (s.signed_msg_type ≡ kind) × ((found_one ≡ false) ⊎ (s.maj23 ≡ some b))

  record_vote-Stays :
      (i : ℕ) (v : Vote) (k : Bytes) (p : ℕ) (s : VoteSet)
      → Stays s
      → Ends (λ r. Stays r.0) (record_vote crypto i v k p s)
  unfolding record_vote
  record_vote-Stays i v k p s h = record { at = λ r e. ground (arith, h) }

  count_vote-Stays :
      (i : ℕ) (v : Vote) (k : Bytes) (p : ℕ) (bv : BlockVotes) (s : VoteSet)
      → Stays s
      → Ends Stays (count_vote crypto i v k p bv s)
  unfolding count_vote
  count_vote-Stays i v k p bv s h =
      Ends-bind _ _ (Ends-self (add_to_block i v p bv)) (λ bv' e. Ends-ok (ground (arith, h)))

  add_verified_vote-Stays :
      (i : ℕ) (v : Vote) (k : Bytes) (p : ℕ) (s : VoteSet)
      → Stays s
      → Ends (λ r. Stays r.0) (add_verified_vote crypto i v k p s)
  unfolding add_verified_vote
  add_verified_vote-Stays i v k p s h = Ends-bind _ _ (record_vote-Stays i v k p s h) (λ r g.
      record {
        at = λ u e.
            let counted : (bv : BlockVotes)
                → Ends {A = VoteSet × Bool × Option Vote} (λ x. Stays x.0)
                    (count_vote crypto i v k p bv r.0 >>= λ t. ok (t, true, r.1)) =
              λ bv. Ends-bind _ _ (count_vote-Stays i v k p bv r.0 g) (λ t w. Ends-ok w) in
            elim (Option-cases (find Bytes-discrete k r.0.votes_by_block)) [
              | inl missing ↦
                  ground (arith, g, e, (counted (new_block_votes false (size r.0.val_set))).at u)
              | inr (bv, found) ↦ ground (arith, g, e, found, (counted bv).at u)
            ];
      })

  added_result-Stays :
      (v : Vote) (r : VoteSet × Bool × Option Vote)
      → Stays r.0
      → Ends (λ x. Stays x.0) (added_result crypto v r)
  unfolding added_result
  added_result-Stays v (t, added, some w) h = Ends-ok h
  added_result-Stays v (t, true, none) h = Ends-ok h
  added_result-Stays v (t, false, none) h = Ends-panic

  add_new-Stays :
      (i : ℕ) (val : Validator) (v : Vote) (s : VoteSet)
      → Stays s
      → Ends (λ r. Stays r.0) (add_new crypto i val v s)
  unfolding add_new
  add_new-Stays i val v s h =
      let added =
        Ends-bind {Q = λ (x : VoteSet × Bool × Option VoteError). Stays x.0} _
          (added_result crypto v)
          (add_verified_vote-Stays i v (key crypto v.block_id) val.voting_power s h)
          (added_result-Stays v) in
      record { at = λ u e. ground (arith, h, e, added.at u) }

  pub add_vote-Stays :
      (o : Option Vote) (s : VoteSet) → Stays s → Ends (λ r. Stays r.0) (add_vote crypto o s)
  unfolding add_vote
  add_vote-Stays none s h = Ends-ok h
  add_vote-Stays (some v) s h =
      elim (Option-cases (get_by_index crypto v.validator_index s.val_set)) [
        | inl missing ↦ record { at = λ u e. ground (arith, h, missing) }
        | inr ((i, val), found) ↦ record {
          at = λ u e. ground (arith, h, (add_new-Stays i val v s h).at u);
        }
      ]
