-- ===== src/HeightVoteSet/Add.antt =====
-- `AddVote` on every branch.
use tendermintx.Common.{
  length-append, ◌≤◌, ℤ, ℤ-discrete, Bytes, Bytes-discrete, Bool, true, false, Option, none, some,
  [], ◌∷◌, ◌++◌, ◌≡◌, ◌≢◌, ◌↔◌, inl, inr, refl, sym, ap, ◌∙◌, subst, arith, length, ltb, find,
  store, All-find, All-store, find-store_self, Option-cases, Bool-cases, ok,
}
use tendermintx.Types.Vote.{Vote, SignedMsgType, prevote, precommit, is_vote_type_valid}
use tendermintx.VoteSet.Defs
use tendermintx.VoteSet.Defs.{Crypto, VoteSet, VoteError}
use tendermintx.VoteSet.Correct.{Encodes, add_vote_correct}
use tendermintx.VoteSet.Majority.{voted, Reach-Inv}
use tendermintx.HeightVoteSet.Defs.{
  RoundVoteSet, HeightVoteSet, HeightVoteError, unwanted_round, rejected, add_round, get_vote_set,
  put_vote_set, catchup_rounds, add_to_set, add_vote,
}
use tendermintx.HeightVoteSet.Good.{Fits, RoundOk, Good, add_round_lem, put_vote_set-Good}

module _ (crypto : Crypto) where
  abbrev pub IsValidKind : SignedMsgType → Type 0
  IsValidKind kind = is_vote_type_valid kind ≡ true

  -- A tracked round has the two vote sets.
  pub get_vote_set-Fits :
      (r : ℤ) (kind : SignedMsgType) (h : HeightVoteSet) {rvs : RoundVoteSet}
      → is_vote_type_valid kind ≡ true
      → RoundOk crypto h.chain_id h.height h.val_set (r, rvs)
      → find ℤ-discrete r h.round_vote_sets ≡ some rvs
      → (s : VoteSet) × (get_vote_set r kind h ≡ ok (some s))
        × Fits crypto h.chain_id h.height h.val_set r kind s
  unfolding get_vote_set is_vote_type_valid
  get_vote_set-Fits r prevote h {rvs} valid fine found = (rvs.prevotes, ground arith, fine.0)
  get_vote_set-Fits r precommit h {rvs} valid fine found = (rvs.precommits, ground arith, fine.1)
  get_vote_set-Fits r _ h valid fine found = absurd (cc)

  pub get_vote_set-none :
      (r : ℤ) (kind : SignedMsgType) (h : HeightVoteSet)
      → find ℤ-discrete r h.round_vote_sets ≡ none
      → get_vote_set r kind h ≡ ok none
  unfolding get_vote_set
  get_vote_set-none r kind h missing = rw (get_vote_set, missing)

  voted-Fits :
      (v : Vote) (h : HeightVoteSet) (s : VoteSet)
      → Fits crypto h.chain_id h.height h.val_set v.round v.kind s
      → Encodes crypto h.chain_id v
      → (t : VoteSet) × (added : Bool) × (err : Option VoteError) × (Defs.add_vote crypto (some v) s
          ≡ ok (t, added, err))
        × Fits crypto h.chain_id h.height h.val_set v.round v.kind t
  voted-Fits v h s f enc =
      let same_chain : s.chain_id ≡ h.chain_id = ap (λ p. p.0) f.same_id in
      let encodes : (w : Vote) → some v ≡ some w → Encodes crypto s.chain_id w = λ w e.
        let same : v ≡ w = cc in
        subst (λ c. Encodes crypto c w) (sym same_chain)
          (subst (Encodes crypto h.chain_id) same enc) in
      let (t, added, err, run, kept) =
        add_vote_correct crypto s (Reach-Inv crypto f.reach) (some v) encodes in
      (
        t,
        added,
        err,
        run,
        record {
          reach = voted (some v) f.reach encodes run;
          same_id = kept.same_id ∙ f.same_id;
          same_vals = kept.same_vals ∙ f.same_vals;
        },
      )

  -- Adding a vote to a vote set that fits returns, and the state is good.
  add_to_set_lem :
      (v : Vote) (s : VoteSet) (h : HeightVoteSet)
      → Good crypto h
      → Fits crypto h.chain_id h.height h.val_set v.round v.kind s
      → Encodes crypto h.chain_id v
      → (t : HeightVoteSet) × (added : Bool) × (err : Option HeightVoteError) × (add_to_set crypto v
            s h
          ≡ ok (t, added, err))
        × Good crypto t
        × (err ≢ some unwanted_round)
  unfolding add_to_set
  add_to_set_lem v s h good f enc =
      let (t, added, err, run, fits) = voted-Fits v h s f enc in
      let fine = put_vote_set-Good crypto v.round v.kind t h good fits in
      elim (Option-cases err) [
        | inl e ↦
            (put_vote_set v.round v.kind t h, added, none, rw (add_to_set, run, e), fine, λ e. cc)
        | inr (w, e) ↦ (
          put_vote_set v.round v.kind t h,
          added,
          some (rejected w),
          rw (add_to_set, run, e),
          fine,
          λ e. cc,
        )
      ]

  -- How `AddVote` runs.
  module _ (v : Vote) (peer : Bytes) (h : HeightVoteSet) where
    run_invalid : is_vote_type_valid v.kind ≡ false → add_vote crypto v peer h ≡ ok (h, false, none)
    unfolding add_vote
    run_invalid e = rw (add_vote, e)

    run_tracked :
        {s : VoteSet}
        → is_vote_type_valid v.kind ≡ true
        → get_vote_set v.round v.kind h ≡ ok (some s)
        → add_vote crypto v peer h ≡ add_to_set crypto v s h
    unfolding add_vote add_to_set
    run_tracked e found = rw (add_vote, e, found)

    run_refused :
        is_vote_type_valid v.kind ≡ true
        → get_vote_set v.round v.kind h ≡ ok none
        → ltb (length (catchup_rounds peer h)) 2 ≡ false
        → add_vote crypto v peer h ≡ ok (h, false, some unwanted_round)
    unfolding add_vote
    run_refused e missing many = rw (add_vote, e, missing, many)

    -- The state with a new round, which the peer is charged for.
    abbrev charged : HeightVoteSet → HeightVoteSet
    charged t = record t {
      peer_catchup_rounds =
          store Bytes-discrete peer (catchup_rounds peer h ++ v.round ∷ []) t.peer_catchup_rounds;
    }

    run_fresh :
        {s : VoteSet} (t : HeightVoteSet)
        → is_vote_type_valid v.kind ≡ true
        → get_vote_set v.round v.kind h ≡ ok none
        → ltb (length (catchup_rounds peer h)) 2 ≡ true
        → add_round v.round h ≡ ok t
        → get_vote_set v.round v.kind t ≡ ok (some s)
        → add_vote crypto v peer h ≡ add_to_set crypto v s (charged t)
    unfolding add_vote add_to_set
    run_fresh t e missing few added found = rw (add_vote, e, missing, few, added, found)

    charged-Good :
        (t : HeightVoteSet)
        → Good crypto t
        → ltb (length (catchup_rounds peer h)) 2 ≡ true
        → Good crypto (charged t)
    charged-Good t good few = record {
      nonzero = good.nonzero;
      total = good.total;
      rounds = good.rounds;
      catchup =
          All-store Bytes-discrete (λ e. length e.1 ≤ 2) peer
            (catchup_rounds peer h ++ v.round ∷ []) t.peer_catchup_rounds
            (ground (arith, length-append (catchup_rounds peer h) (v.round ∷ []))) good.catchup;
    }

    -- The vote is of a valid type, for a round that is not tracked, and the peer has used up its
    -- two catch-up rounds.
    abbrev pub IsUnwanted : Type 0
    IsUnwanted =
        (is_vote_type_valid v.kind ≡ true)
        × (find ℤ-discrete v.round h.round_vote_sets ≡ none)
        × (2 ≤ length (catchup_rounds peer h))

    -- In a good state, adding a vote that can be encoded returns without a panic, and the state is
    -- good afterwards. The error is that of an unwanted round exactly if the type is valid, the
    -- round is not tracked, and the peer has used up its two catch-up rounds.
    pub add_vote-Good :
        Good crypto h
        → Encodes crypto h.chain_id v
        → (t : HeightVoteSet) × (added : Bool) × (err : Option HeightVoteError) × (add_vote crypto v
              peer h
            ≡ ok (t, added, err))
          × Good crypto t
          × (err ≡ some unwanted_round ↔ IsUnwanted)
    add_vote-Good good enc = elim (Bool-cases (is_vote_type_valid v.kind)) [
      | inr bad ↦
          (h, false, none, run_invalid bad, good, (λ e. absurd (cc), λ (k, _, _). absurd (cc)))
      | inl valid ↦ elim (Option-cases (find ℤ-discrete v.round h.round_vote_sets)) [
        | inr (rvs, found) ↦
            let fine =
              All-find ℤ-discrete (RoundOk crypto h.chain_id h.height h.val_set) v.round
                h.round_vote_sets good.rounds found in
            let (s, e, f) = get_vote_set-Fits v.round v.kind h valid fine found in
            let (t, added, err, run, good', other) = add_to_set_lem v s h good f enc in
            (
              t,
              added,
              err,
              run_tracked valid e ∙ run,
              good',
              (λ e. absurd (other e), λ (_, k, _). absurd (cc)),
            )
        | inl missing ↦
            let none_yet = get_vote_set-none v.round v.kind h missing in
            elim (Bool-cases (ltb (length (catchup_rounds peer h)) 2)) [
              | inr many ↦ (
                h,
                false,
                some unwanted_round,
                run_refused valid none_yet many,
                good,
                (λ e. (valid, missing, ground arith), λ u. refl),
              )
              | inl few ↦
                  let (rvs, grown, fine, good1) = add_round_lem crypto v.round h good missing in
                  let u : HeightVoteSet = record h {
                    round_vote_sets = store ℤ-discrete v.round rvs h.round_vote_sets;
                  } in
                  let (s, e, f) =
                    get_vote_set-Fits v.round v.kind u valid fine
                      (find-store_self ℤ-discrete v.round rvs h.round_vote_sets) in
                  let (t, added, err, run, good', other) =
                    add_to_set_lem v s (charged u) (charged-Good u good1 few) f enc in
                  (
                    t,
                    added,
                    err,
                    run_fresh u valid none_yet few grown e ∙ run,
                    good',
                    (λ e. absurd (other e), λ (_, _, k). absurd (ground arith)),
                  )
            ]
      ]
    ]
