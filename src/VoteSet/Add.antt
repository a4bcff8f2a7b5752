-- ===== src/VoteSet/Add.antt =====
-- Adding a vote: no panic, the invariant is kept, and a majority is never replaced.
use tendermintx.Common.{
  ℕ, Bytes, Bytes-discrete, Bool, true, false, Option, none, some, ◌≡◌, inl, inr, refl, ap, ◌∙◌,
  arith, get_elem?, find, ok, All-find, Option-cases, Bool-cases, get_elem?_both, not, ◌&&◌,
}
use tendermintx.Types.BlockId.{BlockId}
use tendermintx.Types.Vote.{Vote}
use tendermintx.VoteSet.Defs.{
  Validator, ValidatorSet, Crypto, BlockVotes, VoteSet, size, key, is_some, block_vote, get_vote,
  new_block_votes, record_vote, count_vote, add_verified_vote,
}
use tendermintx.VoteSet.Covers.{AnyVote}
use tendermintx.VoteSet.Invariant.{id_of, IsFor, BlockOk, Inv, new_block_votes-BlockOk}
use tendermintx.VoteSet.Block.{Covered-length}
use tendermintx.VoteSet.Record.{Recorded, record_vote_lem}
use tendermintx.VoteSet.Count.{Counted, count_vote_lem}

-- What an addition leaves.
pub record Kept (crypto : Crypto) (s t : VoteSet) : Type 0 where
  pub inv : Inv crypto t
  pub same_vals : t.val_set ≡ s.val_set
  pub same_id : id_of t ≡ id_of s
  pub keeps_maj23 : (b : BlockId) → s.maj23 ≡ some b → t.maj23 ≡ some b

pub same-Kept : (crypto : Crypto) (s : VoteSet) → Inv crypto s → Kept crypto s s
same-Kept crypto s inv = record {
  inv = inv;
  same_vals = refl;
  same_id = refl;
  keeps_maj23 = λ b m. m;
}

module _ (crypto : Crypto) (i : ℕ) (x : Vote) (val : Validator) (s : VoteSet) (inv : Inv crypto s)
    (member : get_elem? s.val_set.validators i ≡ some val) where
  block_vote-ok : (k : Bytes) → (o : Option Vote) × (block_vote crypto k i s ≡ ok o)
  unfolding block_vote
  block_vote-ok k = elim (Option-cases (find Bytes-discrete k s.votes_by_block)) [
    | inl e ↦ (none, ground arith)
    | inr (bv, e) ↦
        let fine =
          All-find Bytes-discrete (λ e. BlockOk crypto s.val_set s.votes e.0 e.1) k s.votes_by_block
            inv.blocks e in
        let (o, at) =
          get_elem?_both s.val_set.validators bv.votes i
            (Covered-length AnyVote bv.votes s.votes fine.covered ∙ inv.sized) member in
        (o, ground arith)
  ]

  -- A vote that is not known differs from the canonical vote of its validator.
  pub get_vote_lem :
      (k : Bytes)
      → (o : Option Vote) × (get_vote crypto i k s ≡ ok o)
        × (o ≡ none → (v : Vote) → get_elem? s.votes i ≡ some (some v) → ¬ IsFor crypto k v)
  unfolding get_vote
  get_vote_lem k =
      let (o, at) = get_elem?_both s.val_set.validators s.votes i inv.sized member in
      let (p, e) = block_vote-ok k in
      elim (Option-cases o) [
        | inl none_here ↦ (p, ground arith, λ q v h. absurd (cc))
        | inr (v, some_here) ↦ elim (Bytes-discrete (key crypto v.block_id) k) [
          | yes same ↦ (some v, ground arith, λ q. absurd (cc))
          | no differ ↦ (
            p,
            ground arith,
            λ q w h f. let vw : v ≡ w = cc in differ (ap (λ u. key crypto u.block_id) vw ∙ f),
          )
        ]
      ]

  Recorded-Kept : (t : VoteSet) → Recorded crypto i x val s t → Kept crypto s t
  Recorded-Kept t r = record {
    inv = r.inv;
    same_vals = r.same_vals;
    same_id = r.same_id;
    keeps_maj23 = λ b m. r.same_maj23 ∙ m;
  }

  Counted-Kept :
      (t u : VoteSet) → Recorded crypto i x val s t → Counted crypto i x val t u → Kept crypto s u
  Counted-Kept t u r c = record {
    inv = c.inv;
    same_vals = c.same_vals ∙ r.same_vals;
    same_id = c.same_id ∙ r.same_id;
    keeps_maj23 = λ b m. c.keeps_maj23 b (r.same_maj23 ∙ m);
  }

  -- How `addVerifiedVote` runs, by what the map holds.
  module _ (k : Bytes) (power : ℕ) (t u : VoteSet) (conflicting : Option Vote)
      (run : record_vote crypto i x k power s ≡ ok (t, conflicting)) where
    run_untracked :
        find Bytes-discrete k t.votes_by_block ≡ none
        → conflicting ≡ none
        → count_vote crypto i x k power (new_block_votes false (size t.val_set)) t ≡ ok u
        → add_verified_vote crypto i x k power s ≡ ok (u, true, none)
    unfolding add_verified_vote
    run_untracked e q c = ground arith

    run_forgotten :
        {w : Vote}
        → find Bytes-discrete k t.votes_by_block ≡ none
        → conflicting ≡ some w
        → add_verified_vote crypto i x k power s ≡ ok (t, false, some w)
    unfolding add_verified_vote
    run_forgotten e q = ground arith

    run_refused :
        (bv : BlockVotes)
        → find Bytes-discrete k t.votes_by_block ≡ some bv
        → (is_some conflicting && not bv.peer_maj23) ≡ true
        → add_verified_vote crypto i x k power s ≡ ok (t, false, conflicting)
    unfolding add_verified_vote
    run_refused bv e q = ground arith

    run_counted :
        (bv : BlockVotes)
        → find Bytes-discrete k t.votes_by_block ≡ some bv
        → (is_some conflicting && not bv.peer_maj23) ≡ false
        → count_vote crypto i x k power bv t ≡ ok u
        → add_verified_vote crypto i x k power s ≡ ok (u, true, conflicting)
    unfolding add_verified_vote
    run_counted bv e q c = ground arith

  pub add_verified_vote_lem :
      ((v : Vote) → get_elem? s.votes i ≡ some (some v) → ¬ IsFor crypto (key crypto x.block_id) v)
      → (t : VoteSet) × (added : Bool) × (conflicting : Option Vote) × (add_verified_vote crypto i x
            (key crypto x.block_id)
            val.voting_power
            s
          ≡ ok (t, added, conflicting))
        × Kept crypto s t
        × (conflicting ≡ none → added ≡ true)
  add_verified_vote_lem new =
      let (t, conflicting, run, r) = record_vote_lem crypto i x val s inv member new in
      let k = key crypto x.block_id in
      elim (Option-cases (find Bytes-discrete k t.votes_by_block)) [
        | inl e ↦
            let bv = new_block_votes false (size t.val_set) in
            let (u, counted, c) =
              count_vote_lem crypto i x val t bv r.inv
                (ap (λ (w : ValidatorSet). get_elem? w.validators i) r.same_vals ∙ member) r.here
                (new_block_votes-BlockOk crypto false t.val_set t.votes k r.inv.sized)
                (inr (e, unfold new_block_votes in refl)) in
            elim (Option-cases conflicting) [
              | inl q ↦ (
                u,
                true,
                none,
                run_untracked k val.voting_power t u conflicting run e q counted,
                Counted-Kept t u r c,
                λ _. refl,
              )
              | inr (w, q) ↦ (
                t,
                false,
                some w,
                run_forgotten k val.voting_power t t conflicting run e q,
                Recorded-Kept t r,
                λ p. absurd (cc),
              )
            ]
        | inr (bv, e) ↦
            let fine =
              All-find Bytes-discrete (λ e. BlockOk crypto t.val_set t.votes e.0 e.1) k
                t.votes_by_block r.inv.blocks e in
            let (u, counted, c) =
              count_vote_lem crypto i x val t bv r.inv
                (ap (λ (w : ValidatorSet). get_elem? w.validators i) r.same_vals ∙ member) r.here
                fine (inl e) in
            elim (Bool-cases (is_some conflicting && not bv.peer_maj23)) [
              | inl q ↦ (
                t,
                false,
                conflicting,
                run_refused k val.voting_power t t conflicting run bv e q,
                Recorded-Kept t r,
                λ p. absurd (ground arith),
              )
              | inr q ↦ (
                u,
                true,
                conflicting,
                run_counted k val.voting_power t u conflicting run bv e q counted,
                Counted-Kept t u r c,
                λ _. refl,
              )
            ]
      ]
