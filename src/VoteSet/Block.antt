-- ===== src/VoteSet/Block.antt =====
-- A vote is added to its block.
use tendermintx.Common.{
  ℕ, suc, ◌+◌, ◌≤◌, Bytes, true, Option, none, some, List, [], ◌∷◌, ◌≡◌, inl, inr, refl, ap, sym,
  ◌∙◌, arith, length, get_elem?, set, All, ok, Option-cases, get_elem?_both,
}
use tendermintx.Types.Vote.{Vote}
use tendermintx.VoteSet.Defs.{
  Validator, ValidatorSet, Crypto, BlockVotes, size, key, add_to_block, copy_votes,
}
use tendermintx.VoteSet.Power.{power_sum-set_new, map-set_vote}
use tendermintx.VoteSet.Covers.{Covered, AnyVote, AllVotes-set, Covered-set_left, Covered-copy}
use tendermintx.VoteSet.Invariant.{IsFor, BlockOk}

pub Covered-length :
    (Q : Vote → Type 0) (bs os : List (Option Vote)) → Covered Q bs os → length bs ≡ length os
Covered-length Q [] [] c = refl
Covered-length Q [] (o ∷ os) c = absurd c
Covered-length Q (b ∷ bs) [] c = absurd c
Covered-length Q (none ∷ bs) (o ∷ os) c = ap suc (Covered-length Q bs os c)
Covered-length Q (some b ∷ bs) (none ∷ os) c = absurd c
Covered-length Q (some b ∷ bs) (some o ∷ os) c = ap suc (Covered-length Q bs os c.1)

module _ (crypto : Crypto) (i : ℕ) (x : Vote) (val : Validator) where
  -- The vote is added to its block, whose sum grows at most by the validator's power.
  pub record Added (vals : ValidatorSet) (votes : List (Option Vote)) (bv bv' : BlockVotes)
      : Type 0 where
    pub fine : BlockOk crypto vals votes (key crypto x.block_id) bv'
    pub grows : bv.sum ≤ bv'.sum
    pub recovers :
        (k : Bytes)
        → k ≡ key crypto x.block_id
        → Covered (IsFor crypto k) bv.votes votes
        → (o : Vote) → get_elem? votes i ≡ some (some o)
        → IsFor crypto k o
        → Covered (IsFor crypto k) bv'.votes votes

  pub add_to_block_lem :
      (vals : ValidatorSet) (votes : List (Option Vote)) (bv : BlockVotes) {o : Vote}
      → length votes ≡ size vals
      → get_elem? vals.validators i ≡ some val
      → get_elem? votes i ≡ some (some o)
      → BlockOk crypto vals votes (key crypto x.block_id) bv
      → (bv' : BlockVotes) × (add_to_block i x val.voting_power bv ≡ ok bv')
        × Added vals votes bv bv'
  unfolding add_to_block
  add_to_block_lem vals votes bv {o} len member here fine =
      let (b, k) =
        get_elem?_both vals.validators bv.votes i
          (Covered-length AnyVote bv.votes votes fine.covered ∙ len) member in
      elim (Option-cases b) [
        | inl e ↦
            let k' = k ∙ ap some e in
            (
              record bv {
                bit_array = set bv.bit_array i true;
                votes = set bv.votes i (some x);
                sum = bv.sum + val.voting_power;
              },
              ground arith,
              record {
                fine = record {
                  bits = ap (λ l. set l i true) fine.bits ∙ sym (map-set_vote bv.votes i x);
                  summed = omega (
                    arith,
                    fine.summed,
                    power_sum-set_new vals.validators bv.votes i x member k',
                  );
                  own =
                      AllVotes-set (IsFor crypto (key crypto x.block_id)) bv.votes i x refl
                        fine.own;
                  covered = Covered-set_left AnyVote bv.votes votes i x o here tt fine.covered;
                };
                grows = omega arith;
                recovers = λ k same c o at q.
                    Covered-set_left (IsFor crypto k) bv.votes votes i x o at q c;
              },
            )
        | inr (v, e) ↦
            let k' = k ∙ ap some e in
            (
              bv,
              ground arith,
              record { fine = fine; grows = omega arith; recovers = λ k same c o at q. c },
            )
      ]

  pub BlockOk-copy :
      (vals : ValidatorSet) (votes bs : List (Option Vote)) (l : List (Bytes × BlockVotes))
      → All (λ e. BlockOk crypto vals votes e.0 e.1) l
      → All (λ e. BlockOk crypto vals (copy_votes bs votes) e.0 e.1) l
  BlockOk-copy vals votes bs [] h = tt
  BlockOk-copy vals votes bs ((b, bv) ∷ l) (h, hs) = (
    record {
      bits = h.bits;
      summed = h.summed;
      own = h.own;
      covered = Covered-copy bv.votes bs votes h.covered;
    },
    BlockOk-copy vals votes bs l hs,
  )
