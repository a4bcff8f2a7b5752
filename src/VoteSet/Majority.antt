-- ===== src/VoteSet/Majority.antt =====
-- Every vote set that the methods build, and the power behind its majority.
use tendermintx.Common.{
  ◌+◌, ◌*◌, ◌/◌, ◌≤◌, ◌<◌, ℤ, Bytes, Bytes-discrete, Bool, true, Option, some, ◌≡◌, subst, inl, inr,
  Option-cases, arith, ok, map, All-find,
}
use tendermintx.Types.BlockId.{BlockId}
use tendermintx.Types.Vote.{Vote, SignedMsgType}
use tendermintx.VoteSet.Defs.{
  ValidatorSet, Crypto, VoteError, VoteSet, quorum, key, is_some, new_vote_set, add_vote,
  set_peer_maj23, two_thirds_majority, has_two_thirds_majority, has_two_thirds_any,
}
use tendermintx.VoteSet.Power.{power_sum, power_total, power_sum-le}
use tendermintx.VoteSet.Covers.{power_sum-Covered}
use tendermintx.VoteSet.Invariant.{IsFor, BlockOk, Inv, new_vote_set-Inv}
use tendermintx.VoteSet.Support.{supporters, power_both, power_sum-supporters, power_both-overlap}
use tendermintx.VoteSet.Add.{Kept}
use tendermintx.VoteSet.Claim.{set_peer_maj23_lem}
use tendermintx.VoteSet.Correct.{Encodes, add_vote_correct}

-- The vote sets that the constructor and the methods give, for votes that can be encoded.
pub data Reach (crypto : Crypto) : VoteSet → Type 0 where
  created :
      (chain_id : Bytes) (height round : ℤ) (kind : SignedMsgType) (vals : ValidatorSet)
      {s : VoteSet}
      → vals.total_voting_power ≡ power_total vals.validators
      → new_vote_set chain_id height round kind vals ≡ ok s
      → Reach crypto s
  voted :
      (o : Option Vote) {s t : VoteSet} {added : Bool} {err : Option VoteError}
      → Reach crypto s
      → ((v : Vote) → o ≡ some v → Encodes crypto s.chain_id v)
      → add_vote crypto o s ≡ ok (t, added, err)
      → Reach crypto t
  claimed :
      (peer : Bytes) (b : BlockId) {s t : VoteSet} {err : Option VoteError}
      → Reach crypto s
      → set_peer_maj23 crypto peer b s ≡ (t, err)
      → Reach crypto t

module _ (crypto : Crypto) where
  -- A step that keeps what it must, when the state it leads to is known otherwise.
  voted-Kept :
      (o : Option Vote) {s t : VoteSet} {added : Bool} {err : Option VoteError}
      → Inv crypto s
      → ((v : Vote) → o ≡ some v → Encodes crypto s.chain_id v)
      → add_vote crypto o s ≡ ok (t, added, err)
      → Kept crypto s t
  voted-Kept o {s} {t} inv enc run =
      let (u, _, _, e, kept) = add_vote_correct crypto s inv o enc in
      let same : u ≡ t = cc in subst (Kept crypto s) same kept

  claimed-Kept :
      (peer : Bytes) (b : BlockId) {s t : VoteSet} {err : Option VoteError}
      → Inv crypto s
      → set_peer_maj23 crypto peer b s ≡ (t, err)
      → Kept crypto s t
  claimed-Kept peer b {s} {t} inv run =
      let (u, _, e, kept) = set_peer_maj23_lem crypto s inv peer b in
      let same : u ≡ t = cc in subst (Kept crypto s) same kept

  -- The invariant holds of every vote set that the methods give.
  pub Reach-Inv : {s : VoteSet} → Reach crypto s → Inv crypto s
  Reach-Inv (created chain_id height round kind vals total e) =
      new_vote_set-Inv crypto chain_id height round kind vals total e
  Reach-Inv (voted o r enc run) = (voted-Kept o (Reach-Inv r) enc run).inv
  Reach-Inv (claimed peer b r run) = (claimed-Kept peer b (Reach-Inv r) run).inv

  supported :
      {s : VoteSet} (b : BlockId)
      → Inv crypto s
      → two_thirds_majority s ≡ some b
      → quorum s.val_set ≤ power_sum s.val_set.validators (supporters crypto (key crypto b) s.votes)
  unfolding two_thirds_majority
  supported {s} b inv m =
      let (bv, found, q, c) = rw m at inv.major in
      let fine =
        All-find Bytes-discrete (λ e. BlockOk crypto s.val_set s.votes e.0 e.1) (key crypto b)
          s.votes_by_block inv.blocks found in
      omega (
        arith,
        q,
        fine.summed,
        power_sum-supporters crypto (key crypto b) s.val_set.validators bv.votes s.votes c,
      )

  -- In a vote set that the constructor, `AddVote` of votes that can be encoded and `SetPeerMaj23`
  -- give, over validators whose total power is cached rightly, the block that `TwoThirdsMajority`
  -- returns has canonical votes of more than two thirds of the total voting power.
  pub majority_power :
      {s : VoteSet} (b : BlockId)
      → Reach crypto s
      → two_thirds_majority s ≡ some b
      → 2 * power_total s.val_set.validators
        < 3 * power_sum s.val_set.validators (supporters crypto (key crypto b) s.votes)
  majority_power b r m =
      unfold quorum in omega (arith, supported b (Reach-Inv r) m, (Reach-Inv r).total)

  -- Two vote sets that the methods give, over the same validators, whose majorities are for the
  -- blocks `b` and `c`: validators with more than a third of the total power have a canonical vote
  -- for `b` in the one and for `c` in the other.
  pub majorities_overlap :
      {s t : VoteSet} (b c : BlockId)
      → Reach crypto s
      → Reach crypto t
      → t.val_set ≡ s.val_set
      → two_thirds_majority s ≡ some b
      → two_thirds_majority t ≡ some c
      → power_total s.val_set.validators
        < 3
          * power_both s.val_set.validators
              (supporters crypto (key crypto b) s.votes)
              (supporters crypto (key crypto c) t.votes)
  majorities_overlap {s} {t} b c r r' same m m' =
      let p = supported b (Reach-Inv r) m in
      let q = rw same at (supported c (Reach-Inv r') m') in
      unfold quorum in
      omega (
        arith,
        p,
        q,
        (Reach-Inv r).total,
        power_both-overlap s.val_set.validators (supporters crypto (key crypto b) s.votes)
            (supporters crypto (key crypto c) t.votes),
      )

  -- In a vote set that the methods give, the sum is the power of the validators that have a
  -- canonical vote, it is at most the total power, and the bits show who has one.
  pub sums_right :
      {s : VoteSet}
      → Reach crypto s
      → (s.sum ≡ power_sum s.val_set.validators s.votes)
        × (s.sum ≤ power_total s.val_set.validators)
        × (s.votes_bit_array ≡ map is_some s.votes)
  sums_right {s} r =
      let inv = Reach-Inv r in
      (inv.summed, omega (arith, inv.summed, power_sum-le s.val_set.validators s.votes), inv.bits)

  -- A vote set that the methods give and that has a majority for a block also has votes of more
  -- than two thirds of the power for anything.
  pub majority-any :
      {s : VoteSet}
      → Reach crypto s
      → has_two_thirds_majority s ≡ true
      → has_two_thirds_any s ≡ true
  unfolding has_two_thirds_majority has_two_thirds_any
  majority-any {s} r h = elim (Option-cases s.maj23) [
    | inl m ↦ absurd (ground arith)
    | inr (b, m) ↦
        let (bv, found, q, c) = rw m at (Reach-Inv r).major in
        let fine =
          All-find Bytes-discrete (λ e. BlockOk crypto s.val_set s.votes e.0 e.1) (key crypto b)
            s.votes_by_block (Reach-Inv r).blocks found in
        let enough : s.val_set.total_voting_power * 2 / 3 + 1 ≤ s.sum =
          unfold quorum in
          omega (
            arith,
            q,
            (Reach-Inv r).summed,
            fine.summed,
            power_sum-Covered s.val_set.validators (IsFor crypto (key crypto b)) bv.votes s.votes c,
          ) in
        ground arith
  ]
