-- ===== src/VoteSet/Claim.antt =====
-- `SetPeerMaj23`, the claims of the peers.
use tendermintx.Common.{
  inl, inr, ap, Bytes, Bytes-discrete, true, Option, none, some, ◌≡◌, ◌≢◌, ◌<◌, refl, sym, ◌∙◌,
  arith, find, store, All-find, All-store, find-store_self, find-store_ne, Option-cases, Bool-cases,
}
use tendermintx.Types.BlockId
use tendermintx.Types.BlockId.{BlockId}
use tendermintx.VoteSet.Defs.{
  Crypto, VoteError, BlockVotes, VoteSet, size, quorum, key, new_block_votes, set_peer_maj23,
  peer_maj23_conflict,
}
use tendermintx.VoteSet.Invariant.{BlockOk, Major, Inv, new_block_votes-BlockOk}
use tendermintx.VoteSet.Add.{Kept, same-Kept}

module _ (crypto : Crypto) (s : VoteSet) (inv : Inv crypto s) where
  marked_Ok :
      {k : Bytes} (bv : BlockVotes)
      → BlockOk crypto s.val_set s.votes k bv
      → BlockOk crypto s.val_set s.votes k (record bv { peer_maj23 = true })
  marked_Ok bv fine = record {
    bits = fine.bits;
    summed = fine.summed;
    own = fine.own;
    covered = fine.covered;
  }

  -- The votes of a block are replaced by ones with the same sum and votes.
  module _ (k : Bytes) (bv : BlockVotes) (fine : BlockOk crypto s.val_set s.votes k bv) where
    stored-Major-none :
        s.maj23 ≡ none
        → bv.sum < quorum s.val_set
        → Major crypto s.val_set s.votes s.maj23 (store Bytes-discrete k bv s.votes_by_block)
    stored-Major-none m low =
        rw m (All-store Bytes-discrete _ k bv s.votes_by_block low (rw m at inv.major))

    stored-Major-some :
        (b : BlockId)
        → s.maj23 ≡ some b
        → ((old : BlockVotes)
            → find Bytes-discrete k s.votes_by_block ≡ some old
            → (old.sum ≡ bv.sum) × (old.votes ≡ bv.votes))
        → (find Bytes-discrete k s.votes_by_block ≡ none → key crypto b ≢ k)
        → Major crypto s.val_set s.votes s.maj23 (store Bytes-discrete k bv s.votes_by_block)
    stored-Major-some b m same new =
        let (old, found, q, c) = rw m at inv.major in
        elim (Bytes-discrete (key crypto b) k) [
          | yes e ↦
              let (sums, votes) = same old (rw (← e) found) in
              rw m (
                bv,
                rw e (find-store_self Bytes-discrete k bv s.votes_by_block),
                omega (arith, q, sums),
                rw (← votes) c,
              )
          | no differ ↦ rw m (
            old,
            find-store_ne Bytes-discrete k (key crypto b) bv s.votes_by_block (λ e. differ (sym e))
                ∙ found,
            q,
            c,
          )
        ]

  module _ (peer : Bytes) (b : BlockId) where
    abbrev claimed : VoteSet
    claimed = record s { peer_maj23s = store Bytes-discrete peer b s.peer_maj23s }

    -- A claim leaves the votes; the blocks are the same, or the claimed one is stored.
    claimed-Kept : Kept crypto s claimed
    claimed-Kept = record {
      inv = record {
        sized = inv.sized;
        bits = inv.bits;
        summed = inv.summed;
        total = inv.total;
        blocks = inv.blocks;
        major = inv.major;
      };
      same_vals = refl;
      same_id = refl;
      keeps_maj23 = λ c m. m;
    }

    stored-Kept :
        (bv : BlockVotes)
        → BlockOk crypto s.val_set s.votes (key crypto b) bv
        → Major crypto s.val_set s.votes s.maj23
            (store Bytes-discrete (key crypto b) bv s.votes_by_block)
        → Kept crypto s (record claimed {
          votes_by_block = store Bytes-discrete (key crypto b) bv s.votes_by_block;
        })
    stored-Kept bv fine m = record {
      inv = record {
        sized = inv.sized;
        bits = inv.bits;
        summed = inv.summed;
        total = inv.total;
        blocks = All-store Bytes-discrete _ (key crypto b) bv s.votes_by_block fine inv.blocks;
        major = m;
      };
      same_vals = refl;
      same_id = refl;
      keeps_maj23 = λ c m'. m';
    }

    tracked-Kept :
        (bv : BlockVotes)
        → find Bytes-discrete (key crypto b) s.votes_by_block ≡ some bv
        → Kept crypto s (record claimed {
          votes_by_block =
              store Bytes-discrete
                (key crypto b)
                (record bv { peer_maj23 = true })
                s.votes_by_block;
        })
    tracked-Kept bv found =
        let fine =
          All-find Bytes-discrete (λ e. BlockOk crypto s.val_set s.votes e.0 e.1) (key crypto b)
            s.votes_by_block inv.blocks found in
        let marked = marked_Ok bv fine in
        stored-Kept (record bv { peer_maj23 = true }) marked
          (elim (Option-cases s.maj23) [
            | inl m ↦
                stored-Major-none (key crypto b) (record bv { peer_maj23 = true }) marked m
                  (All-find Bytes-discrete (λ e. e.1.sum < quorum s.val_set) (key crypto b)
                    s.votes_by_block (rw m at inv.major) found)
            | inr (c, m) ↦
                stored-Major-some (key crypto b) (record bv { peer_maj23 = true }) marked c m
                  (λ old e.
                    let same : old ≡ bv = cc in
                    (ap (λ (r : BlockVotes). r.sum) same, ap (λ (r : BlockVotes). r.votes) same))
                  (λ e. absurd (cc))
          ])

    new-Kept :
        find Bytes-discrete (key crypto b) s.votes_by_block ≡ none
        → Kept crypto s (record claimed {
          votes_by_block =
              store Bytes-discrete
                (key crypto b)
                (new_block_votes true (size s.val_set))
                s.votes_by_block;
        })
    new-Kept missing =
        let fine = new_block_votes-BlockOk crypto true s.val_set s.votes (key crypto b) inv.sized in
        stored-Kept (new_block_votes true (size s.val_set)) fine (elim (Option-cases s.maj23) [
          | inl m ↦
              stored-Major-none (key crypto b) (new_block_votes true (size s.val_set)) fine m
                (unfold new_block_votes quorum in omega arith)
          | inr (c, m) ↦
              stored-Major-some (key crypto b) (new_block_votes true (size s.val_set)) fine c m
                (λ old e. absurd (cc))
                (λ e same.
                  let (old, found, _, _) = rw m at inv.major in
                  absurd (ground (arith, ap (λ k. find Bytes-discrete k s.votes_by_block) same)))
        ])

    -- The claim of a peer keeps the invariant, the validator set and the majority.
    pub set_peer_maj23_lem :
        (t : VoteSet) × (err : Option VoteError) × (set_peer_maj23 crypto peer b s ≡ (t, err))
        × Kept crypto s t
    unfolding set_peer_maj23
    set_peer_maj23_lem = elim (Option-cases (find Bytes-discrete peer s.peer_maj23s)) [
      | inr (c, e) ↦ elim (Bool-cases (BlockId.equals c b)) [
        | inl same ↦ (s, none, ground arith, same-Kept crypto s inv)
        | inr differ ↦ (s, some peer_maj23_conflict, ground arith, same-Kept crypto s inv)
      ]
      | inl e ↦ elim (Option-cases (find Bytes-discrete (key crypto b) s.votes_by_block)) [
        | inl missing ↦ (_, none, ground arith, new-Kept missing)
        | inr (bv, found) ↦ elim (Bool-cases bv.peer_maj23) [
          | inl marked ↦ (claimed, none, ground arith, claimed-Kept)
          | inr unmarked ↦ (_, none, ground arith, tracked-Kept bv found)
        ]
      ]
    ]
