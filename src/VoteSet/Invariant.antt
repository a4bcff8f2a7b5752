-- ===== src/VoteSet/Invariant.antt =====
-- The invariant of a vote set.
use tendermintx.Common.{
  ◌≤◌, ◌<◌, ℤ, Bytes, Bytes-discrete, Bool, false, Option, none, some, List, [], ◌≡◌, sym, arith,
  length, length-replicate, replicate, map, find, All, ok,
}
use tendermintx.Types.BlockId.{BlockId}
use tendermintx.Types.Vote.{Vote, SignedMsgType}
use tendermintx.VoteSet.Defs.{
  ValidatorSet, Crypto, BlockVotes, VoteSet, size, quorum, key, is_some, new_vote_set,
  new_block_votes,
}
use tendermintx.VoteSet.Power.{power_sum, power_total, power_sum-none, map-replicate-none}
use tendermintx.VoteSet.Covers.{Covered, AllVotes, AnyVote, AllVotes-none, Covered-none}

-- What a vote set collects votes for.
abbrev pub id_of : VoteSet → Bytes × ℤ × ℤ × SignedMsgType
id_of s = (s.chain_id, s.height, s.round, s.signed_msg_type)

module _ (crypto : Crypto) where
  -- A vote for the block that a key stands for.
  abbrev pub IsFor : Bytes → Vote → Type 0
  IsFor k v = key crypto v.block_id ≡ k

  -- The votes that are kept for a block are for it, their sum and bits are right, and each of the
  -- validators has a canonical vote as well.
  pub record BlockOk (vals : ValidatorSet) (votes : List (Option Vote)) (k : Bytes)
      (bv : BlockVotes) : Type 0 where
    pub bits : bv.bit_array ≡ map is_some bv.votes
    pub summed : bv.sum ≡ power_sum vals.validators bv.votes
    pub own : AllVotes (IsFor k) bv.votes
    pub covered : Covered AnyVote bv.votes votes

  -- No block has a quorum, or the majority block has one, and the canonical votes of its voters are
  -- for it.
  abbrev pub Major :
      ValidatorSet → List (Option Vote) → Option BlockId → List (Bytes × BlockVotes) → Type 0
  Major vals votes none blocks = All (λ e. e.1.sum < quorum vals) blocks
  Major vals votes (some b) blocks =
      (bv : BlockVotes) × (find Bytes-discrete (key crypto b) blocks ≡ some bv)
      × (quorum vals ≤ bv.sum)
      × Covered (IsFor (key crypto b)) bv.votes votes

  pub record Inv (s : VoteSet) : Type 0 where
    pub sized : length s.votes ≡ size s.val_set
    pub bits : s.votes_bit_array ≡ map is_some s.votes
    pub summed : s.sum ≡ power_sum s.val_set.validators s.votes
    pub total : s.val_set.total_voting_power ≡ power_total s.val_set.validators
    pub blocks : All (λ e. BlockOk s.val_set s.votes e.0 e.1) s.votes_by_block
    pub major : Major s.val_set s.votes s.maj23 s.votes_by_block

  -- A new vote set satisfies the invariant.
  pub new_vote_set-Inv :
      (chain_id : Bytes) (height round : ℤ) (kind : SignedMsgType) (vals : ValidatorSet)
      {s : VoteSet}
      → vals.total_voting_power ≡ power_total vals.validators
      → new_vote_set chain_id height round kind vals ≡ ok s
      → Inv s
  unfolding new_vote_set
  new_vote_set-Inv chain_id height round kind vals {s} total e =
      let fresh : VoteSet = record {
        chain_id = chain_id;
        height = height;
        round = round;
        signed_msg_type = kind;
        val_set = vals;
        votes_bit_array = replicate (size vals) false;
        votes = replicate (size vals) none;
        sum = 0;
        maj23 = none;
        votes_by_block = [];
        peer_maj23s = [];
      } in
      let same : fresh ≡ s = ground arith in
      rw (← same) (record {
        sized = length-replicate (size vals) none;
        bits = sym (map-replicate-none (size vals));
        summed = sym (power_sum-none vals.validators (size vals));
        total = total;
        blocks = tt;
        major = tt;
      })

  pub new_block_votes-BlockOk :
      (peer : Bool) (vals : ValidatorSet) (votes : List (Option Vote)) (k : Bytes)
      → length votes ≡ size vals
      → BlockOk vals votes k (new_block_votes peer (size vals))
  unfolding new_block_votes
  new_block_votes-BlockOk peer vals votes k e = record {
    bits = sym (map-replicate-none (size vals));
    summed = sym (power_sum-none vals.validators (size vals));
    own = AllVotes-none (IsFor k) (size vals);
    covered = rw (← e) (Covered-none AnyVote votes);
  }
