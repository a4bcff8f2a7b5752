-- ===== src/VoteSet/Record.antt =====
-- Recording a verified vote among the canonical votes keeps the invariant.
use tendermintx.Common.{
  Option-cases, get_elem?-set, get_elem?_both, ℕ, ◌+◌, Bytes, Bytes-discrete, true, Option, none,
  some, List, [], ◌∷◌, ◌≡◌, inl, inr, refl, ap, sym, ◌∙◌, arith, length-set, get_elem?, set, All,
  ok,
}
use tendermintx.Types.BlockId
use tendermintx.Types.BlockId.{BlockId}
use tendermintx.Types.Vote.{Vote}
use tendermintx.VoteSet.Defs.{
  Validator, ValidatorSet, Crypto, BlockVotes, VoteSet, key, record_vote,
}
use tendermintx.VoteSet.Power.{power_sum-set_new, power_sum-set_old, map-set_vote}
use tendermintx.VoteSet.Covers.{AnyVote, Covered-set_new, Covered-set_right}
use tendermintx.VoteSet.Invariant.{id_of, IsFor, BlockOk, Major, Inv}

module _ (crypto : Crypto) (vals : ValidatorSet) (os : List (Option Vote)) (i : ℕ) (x : Vote) where
  -- What is known of the blocks survives a write over an empty place ...
  BlockOk-new :
      (l : List (Bytes × BlockVotes))
      → get_elem? os i ≡ some none
      → All (λ e. BlockOk crypto vals os e.0 e.1) l
      → All (λ e. BlockOk crypto vals (set os i (some x)) e.0 e.1) l
  BlockOk-new [] k h = tt
  BlockOk-new ((b, bv) ∷ l) k (h, hs) = (
    record {
      bits = h.bits;
      summed = h.summed;
      own = h.own;
      covered = Covered-set_new AnyVote bv.votes os i x k h.covered;
    },
    BlockOk-new l k hs,
  )

  -- ... and over another vote.
  BlockOk-old :
      (l : List (Bytes × BlockVotes))
      → All (λ e. BlockOk crypto vals os e.0 e.1) l
      → All (λ e. BlockOk crypto vals (set os i (some x)) e.0 e.1) l
  BlockOk-old [] h = tt
  BlockOk-old ((b, bv) ∷ l) (h, hs) = (
    record {
      bits = h.bits;
      summed = h.summed;
      own = h.own;
      covered = Covered-set_right AnyVote bv.votes os i x tt h.covered;
    },
    BlockOk-old l hs,
  )

  Major-new :
      (m : Option BlockId) (l : List (Bytes × BlockVotes))
      → get_elem? os i ≡ some none
      → Major crypto vals os m l
      → Major crypto vals (set os i (some x)) m l
  Major-new none l k h = h
  Major-new (some b) l k (bv, found, q, c) = (bv, found, q, Covered-set_new _ bv.votes os i x k c)

  Major-old :
      (b : BlockId) (l : List (Bytes × BlockVotes))
      → IsFor crypto (key crypto b) x
      → Major crypto vals os (some b) l
      → Major crypto vals (set os i (some x)) (some b) l
  Major-old b l f (bv, found, q, c) = (bv, found, q, Covered-set_right _ bv.votes os i x f c)

module _ (crypto : Crypto) (i : ℕ) (x : Vote) (val : Validator) where
  -- The validator has a canonical vote, which is for the majority block if the new vote is.
  pub record Recorded (s t : VoteSet) : Type 0 where
    pub inv : Inv crypto t
    pub here :
        (o : Vote) × (get_elem? t.votes i ≡ some (some o))
        × ((b : BlockId)
            → t.maj23 ≡ some b
            → key crypto b ≡ key crypto x.block_id
            → IsFor crypto (key crypto b) o)
    pub same_blocks : t.votes_by_block ≡ s.votes_by_block
    pub same_vals : t.val_set ≡ s.val_set
    pub same_id : id_of t ≡ id_of s
    pub same_maj23 : t.maj23 ≡ s.maj23

pub equals→eq : (a b : BlockId) → BlockId.equals a b ≡ true → a ≡ b
unfolding BlockId.equals
equals→eq a b h = ground arith

module _ (crypto : Crypto) (i : ℕ) (x : Vote) (val : Validator) (s : VoteSet) (inv : Inv crypto s)
    (member : get_elem? s.val_set.validators i ≡ some val) where
  abbrev pub Done : Type 0
  Done =
      (t : VoteSet) × (conflicting : Option Vote) × (record_vote crypto i x (key crypto x.block_id)
          val.voting_power s
        ≡ ok (t, conflicting))
      × Recorded crypto i x val s t

  record_fresh : get_elem? s.votes i ≡ some none → Done
  unfolding record_vote
  record_fresh k = (
    record s {
      votes = set s.votes i (some x);
      votes_bit_array = set s.votes_bit_array i true;
      sum = s.sum + val.voting_power;
    },
    none,
    ground arith,
    record {
      inv = record {
        sized = length-set s.votes i (some x) ∙ inv.sized;
        bits = ap (λ l. set l i true) inv.bits ∙ sym (map-set_vote s.votes i x);
        summed =
            omega (arith, inv.summed, power_sum-set_new s.val_set.validators s.votes i x member k);
        total = inv.total;
        blocks = BlockOk-new crypto s.val_set s.votes i x s.votes_by_block k inv.blocks;
        major = Major-new crypto s.val_set s.votes i x s.maj23 s.votes_by_block k inv.major;
      };
      here = (x, get_elem?-set s.votes i (some x) k, λ b m e. sym e);
      same_blocks = refl;
      same_vals = refl;
      same_id = refl;
      same_maj23 = refl;
    },
  )

  record_over :
      {v : Vote} (b : BlockId)
      → get_elem? s.votes i ≡ some (some v)
      → ¬ IsFor crypto (key crypto x.block_id) v
      → s.maj23 ≡ some b
      → key crypto b ≡ key crypto x.block_id
      → Done
  unfolding record_vote
  record_over {v} b k new m e = (
    record s { votes = set s.votes i (some x); votes_bit_array = set s.votes_bit_array i true },
    some v,
    ground (arith, equals→eq v.block_id x.block_id),
    record {
      inv = record {
        sized = length-set s.votes i (some x) ∙ inv.sized;
        bits = ap (λ l. set l i true) inv.bits ∙ sym (map-set_vote s.votes i x);
        summed = inv.summed ∙ sym (power_sum-set_old s.val_set.validators s.votes i x k);
        total = inv.total;
        blocks = BlockOk-old crypto s.val_set s.votes i x s.votes_by_block inv.blocks;
        major =
            rw m (
              Major-old crypto s.val_set s.votes i x b s.votes_by_block (sym e)
                (rw m at inv.major));
      };
      here = (x, get_elem?-set s.votes i (some x) k, λ b m e. sym e);
      same_blocks = refl;
      same_vals = refl;
      same_id = refl;
      same_maj23 = refl;
    },
  )

  record_kept :
      {v : Vote}
      → get_elem? s.votes i ≡ some (some v)
      → ¬ IsFor crypto (key crypto x.block_id) v
      → ((b : BlockId) → s.maj23 ≡ some b → ¬ (key crypto b ≡ key crypto x.block_id))
      → Done
  unfolding record_vote
  record_kept {v} k new m = (
    s,
    some v,
    elim (Option-cases s.maj23) [
      | inl none_yet ↦ ground (arith, equals→eq v.block_id x.block_id)
      | inr (b, e) ↦ ground (arith, equals→eq v.block_id x.block_id, m b e)
    ],
    record {
      inv = inv;
      here = (v, k, λ b mb e. absurd (m b mb e));
      same_blocks = refl;
      same_vals = refl;
      same_id = refl;
      same_maj23 = refl;
    },
  )

  -- A verified vote that is not known yet is recorded without a panic.
  pub record_vote_lem :
      ((v : Vote) → get_elem? s.votes i ≡ some (some v) → ¬ IsFor crypto (key crypto x.block_id) v)
      → Done
  record_vote_lem new =
      let (o, k) = get_elem?_both s.val_set.validators s.votes i inv.sized member in
      elim (Option-cases o) [
        | inl e ↦ record_fresh (k ∙ ap some e)
        | inr (v, e) ↦
            let k' = k ∙ ap some e in
            elim (Option-cases s.maj23) [
              | inl none_yet ↦ record_kept k' (new v k') (λ b m e. absurd (cc))
              | inr (b, m) ↦ elim (Bytes-discrete (key crypto b) (key crypto x.block_id)) [
                | yes p ↦ record_over b k' (new v k') m p
                | no n ↦
                    record_kept k' (new v k')
                      (λ b' m' p'. let same : b ≡ b' = cc in n (ap (key crypto) same ∙ p'))
              ]
            ]
      ]
