-- ===== src/VoteSet/Count.antt =====
-- Counting a recorded vote for its block keeps the invariant.
use tendermintx.Common.{
  ℕ, ◌≤◌, ◌<◌, Bytes, Bytes-discrete, none, some, List, ◌≡◌, ◌⊎◌, inl, inr, refl, ap, sym, ◌∙◌,
  arith, get_elem?, find, store, All, ok, All-store, All-find, find-store_self, find-store_ne,
  Option-cases, Bool-cases, ltb, leb, not, ◌&&◌, if◌then◌else◌,
}
use tendermintx.Types.BlockId.{BlockId}
use tendermintx.Types.Vote.{Vote}
use tendermintx.VoteSet.Defs.{
  Validator, Crypto, BlockVotes, VoteSet, quorum, key, is_some, add_to_block, count_vote,
  copy_votes,
}
use tendermintx.VoteSet.Covers.{power_sum-copy, AnyVote, Covered-copy_self, map-copy, length-copy}
use tendermintx.VoteSet.Invariant.{id_of, IsFor, BlockOk, Major, Inv}
use tendermintx.VoteSet.Block.{Added, add_to_block_lem, BlockOk-copy}

module _ (crypto : Crypto) (i : ℕ) (x : Vote) (val : Validator) where
  module _ (s : VoteSet) (inv : Inv crypto s) (bv bv' : BlockVotes)
      (added : Added crypto i x val s.val_set s.votes bv bv') where
    abbrev stored : List (Bytes × BlockVotes)
    stored = store Bytes-discrete (key crypto x.block_id) bv' s.votes_by_block

    stored-Ok : All (λ e. BlockOk crypto s.val_set s.votes e.0 e.1) stored
    stored-Ok =
        All-store Bytes-discrete _ (key crypto x.block_id) bv' s.votes_by_block added.fine
          inv.blocks

    -- The first quorum: the block becomes the majority block, and its votes become canonical.
    first_quorum-Inv :
        quorum s.val_set ≤ bv'.sum
        → Inv crypto (record s {
          votes_by_block = stored;
          maj23 = some x.block_id;
          votes = copy_votes bv'.votes s.votes;
        })
    first_quorum-Inv q = record {
      sized = length-copy bv'.votes s.votes ∙ inv.sized;
      bits = inv.bits ∙ sym (map-copy AnyVote bv'.votes s.votes added.fine.covered);
      summed =
          inv.summed
          ∙ sym (power_sum-copy s.val_set.validators AnyVote bv'.votes s.votes added.fine.covered);
      total = inv.total;
      blocks = BlockOk-copy crypto i x val s.val_set s.votes bv'.votes stored stored-Ok;
      major = (
        bv',
        find-store_self Bytes-discrete (key crypto x.block_id) bv' s.votes_by_block,
        q,
        Covered-copy_self (IsFor crypto (key crypto x.block_id)) AnyVote bv'.votes s.votes
            added.fine.own added.fine.covered,
      );
    }

    -- Otherwise the majority stays as it was.
    stored-Inv :
        Major crypto s.val_set s.votes s.maj23 stored
        → Inv crypto (record s { votes_by_block = stored })
    stored-Inv m = record {
      sized = inv.sized;
      bits = inv.bits;
      summed = inv.summed;
      total = inv.total;
      blocks = stored-Ok;
      major = m;
    }

    stored-Major-none :
        s.maj23 ≡ none → bv'.sum < quorum s.val_set → Major crypto s.val_set s.votes s.maj23 stored
    stored-Major-none m q = rw m (
        All-store Bytes-discrete _ (key crypto x.block_id) bv' s.votes_by_block q
          (rw m at inv.major))

    -- The block was tracked, or it is new.
    abbrev pub Tracked : Type 0
    Tracked =
        (find Bytes-discrete (key crypto x.block_id) s.votes_by_block ≡ some bv)
        ⊎ ((find Bytes-discrete (key crypto x.block_id) s.votes_by_block ≡ none) × (bv.sum ≡ 0))

    stored-Major-some :
        (b : BlockId) (o : Vote)
        → Tracked
        → s.maj23 ≡ some b
        → get_elem? s.votes i ≡ some (some o)
        → (key crypto b ≡ key crypto x.block_id → IsFor crypto (key crypto b) o)
        → Major crypto s.val_set s.votes s.maj23 stored
    stored-Major-some b o tracked m at for_b =
        let (old, found, q, c) = rw m at inv.major in
        elim (Bytes-discrete (key crypto b) (key crypto x.block_id)) [
          | yes same ↦
              let was : bv ≡ old =
                ground (arith, ap (λ k. find Bytes-discrete k s.votes_by_block) same) in
              rw m (
                bv',
                rw same
                    (find-store_self Bytes-discrete (key crypto x.block_id) bv' s.votes_by_block),
                omega (arith, added.grows, q, ap (λ (r : BlockVotes). r.sum) was),
                added.recovers (key crypto b) same (rw was c) o at (for_b same),
              )
          | no differ ↦ rw m (
            old,
            find-store_ne Bytes-discrete (key crypto x.block_id) (key crypto b) bv' s.votes_by_block
                  (λ e. differ (sym e))
                ∙ found,
            q,
            c,
          )
        ]

    below_quorum : Tracked → s.maj23 ≡ none → bv.sum < quorum s.val_set
    below_quorum (inl found) m =
        All-find Bytes-discrete (λ e. e.1.sum < quorum s.val_set) (key crypto x.block_id)
          s.votes_by_block (rw m at inv.major) found
    below_quorum (inr (_, zero_sum)) m = unfold quorum in omega arith

  -- Counting a vote returns, keeps the invariant, and never replaces a majority.
  pub record Counted (s t : VoteSet) : Type 0 where
    pub inv : Inv crypto t
    pub same_vals : t.val_set ≡ s.val_set
    pub same_id : id_of t ≡ id_of s
    pub keeps_maj23 : (b : BlockId) → s.maj23 ≡ some b → t.maj23 ≡ some b

  count_vote-run :
      (s : VoteSet) (bv bv' : BlockVotes)
      → add_to_block i x val.voting_power bv ≡ ok bv'
      → count_vote crypto i x (key crypto x.block_id) val.voting_power bv s
        ≡ ok (
            if ltb bv.sum (quorum s.val_set)
              && leb (quorum s.val_set) bv'.sum
              && not (is_some s.maj23)
            then record s {
              votes_by_block = store Bytes-discrete (key crypto x.block_id) bv' s.votes_by_block;
              maj23 = some x.block_id;
              votes = copy_votes bv'.votes s.votes;
            }
            else record s {
              votes_by_block = store Bytes-discrete (key crypto x.block_id) bv' s.votes_by_block;
            })
  unfolding count_vote
  count_vote-run s bv bv' e = rw e

  pub count_vote_lem :
      (s : VoteSet) (bv : BlockVotes)
      → Inv crypto s
      → get_elem? s.val_set.validators i ≡ some val
      → ((o : Vote) × (get_elem? s.votes i ≡ some (some o))
          × ((b : BlockId)
              → s.maj23 ≡ some b
              → key crypto b ≡ key crypto x.block_id
              → IsFor crypto (key crypto b) o))
      → BlockOk crypto s.val_set s.votes (key crypto x.block_id) bv
      → (find Bytes-discrete (key crypto x.block_id) s.votes_by_block ≡ some bv)
        ⊎ ((find Bytes-discrete (key crypto x.block_id) s.votes_by_block ≡ none) × (bv.sum ≡ 0))
      → (t : VoteSet) × (count_vote crypto i x (key crypto x.block_id) val.voting_power bv s ≡ ok t)
        × Counted s t
  count_vote_lem s bv inv member (o, at, for_b) fine tracked =
      let (bv', e, added) =
        add_to_block_lem crypto i x val s.val_set s.votes bv inv.sized member at fine in
      let run = count_vote-run s bv bv' e in
      elim (Option-cases s.maj23) [
        | inr (b, m) ↦ (
          record s {
            votes_by_block = store Bytes-discrete (key crypto x.block_id) bv' s.votes_by_block;
          },
          run ∙ ground arith,
          record {
            inv =
                stored-Inv s inv bv bv' added
                  (stored-Major-some s inv bv bv' added b o tracked m at (for_b b m));
            same_vals = refl;
            same_id = refl;
            keeps_maj23 = λ b' m'. m';
          },
        )
        | inl m ↦
            let low = below_quorum s inv bv bv' added tracked m in
            elim (Bool-cases (leb (quorum s.val_set) bv'.sum)) [
              | inl q ↦ (
                record s {
                  votes_by_block =
                      store Bytes-discrete (key crypto x.block_id) bv' s.votes_by_block;
                  maj23 = some x.block_id;
                  votes = copy_votes bv'.votes s.votes;
                },
                run ∙ ground arith,
                record {
                  inv = first_quorum-Inv s inv bv bv' added (ground arith);
                  same_vals = refl;
                  same_id = refl;
                  keeps_maj23 = λ b' m'. absurd (cc);
                },
              )
              | inr q ↦ (
                record s {
                  votes_by_block =
                      store Bytes-discrete (key crypto x.block_id) bv' s.votes_by_block;
                },
                run ∙ ground arith,
                record {
                  inv =
                      stored-Inv s inv bv bv' added
                        (stored-Major-none s inv bv bv' added m (ground arith));
                  same_vals = refl;
                  same_id = refl;
                  keeps_maj23 = λ b' m'. m';
                },
              )
            ]
      ]
