-- ===== src/HeightVoteSet/Stays.antt =====
-- A majority of prevotes that was found stays, whatever is added, and vote sets keep their types.
use tendermintx.Common.{
  ℕ, zero, suc, ℤ, pos, ◌+ℤ◌, ℤ-discrete, Bytes, Bool, Option, none, some, ◌∷◌, [], ◌++◌, length,
  ltb, ◌≡◌, ◌⊎◌, true, false, refl, sym, ap, subst, ◌∙◌, inl, inr, find, store, find-store_self,
  find-store_ne, Option-cases, Bool-cases, Run, ok, panic, ◌>>=◌, Bytes-discrete, arith, Ends,
  Ends-if, not, ◌&&◌, ltb_ℤ, ◌==ℤ◌, Ends-ok, Ends-panic, Ends-bind, Ends-self,
}
use tendermintx.Types.BlockId.{BlockId}
use tendermintx.Types.Vote.{Vote, SignedMsgType, prevote, precommit, is_vote_type_valid}
use tendermintx.VoteSet.Defs as VoteSets
use tendermintx.VoteSet.Defs.{
  Crypto, ValidatorSet, VoteSet, VoteError, two_thirds_majority, new_vote_set,
}
use tendermintx.VoteSet.Stays.{Stays, add_vote-Stays}
use tendermintx.HeightVoteSet.Defs.{
  RoundVoteSet, HeightVoteSet, HeightVoteError, add_round, add_rounds, set_round, get_vote_set,
  put_vote_set, reset, with_kind, add_to_set, add_vote, safe_sub_int32, turns, wrap_int32,
  catchup_rounds,
}

-- The prevotes of a round have a majority for a block.
abbrev pub Polka : ℤ → BlockId → HeightVoteSet → Type 0
Polka r b h =
    (rvs : RoundVoteSet) × (find ℤ-discrete r h.round_vote_sets ≡ some rvs)
    × (rvs.prevotes.maj23 ≡ some b)

-- The vote sets of a round are for prevotes and for precommits.
abbrev pub TypedRound : RoundVoteSet → Type 0
TypedRound x = (x.prevotes.signed_msg_type ≡ prevote) × (x.precommits.signed_msg_type ≡ precommit)

abbrev pub Typed : HeightVoteSet → Type 0
Typed h = (r : ℤ) (x : RoundVoteSet) → find ℤ-discrete r h.round_vote_sets ≡ some x → TypedRound x

pub record Grows (h t : HeightVoteSet) : Type 0 where
  pub keep : (r : ℤ) (b : BlockId) → Polka r b h → Polka r b t
  pub types : Typed h → Typed t

pub Grows-refl : (h : HeightVoteSet) → Grows h h
Grows-refl h = record { keep = λ r b p. p; types = λ y. y }

pub Grows-trans : {h t u : HeightVoteSet} → Grows h t → Grows t u → Grows h u
Grows-trans g k = record {
  keep = λ r b p. k.keep r b (g.keep r b p);
  types = λ y. k.types (g.types y);
}

-- Storing a round that is typed keeps all typed.
store-Typed :
    (r : ℤ) (x : RoundVoteSet) (h : HeightVoteSet)
    → TypedRound x
    → Typed h
    → Typed (record h { round_vote_sets = store ℤ-discrete r x h.round_vote_sets })
store-Typed r x h typed y j z e = elim (ℤ-discrete r j) [
  | yes same ↦
      let at_j =
        subst (λ i. find ℤ-discrete i (store ℤ-discrete r x h.round_vote_sets) ≡ some x) same
          (find-store_self ℤ-discrete r x h.round_vote_sets) in
      let same_x : x ≡ z = cc in subst TypedRound same_x typed
  | no differ ↦ y j z (sym (find-store_ne ℤ-discrete r j x h.round_vote_sets differ) ∙ e)
]

new_vote_set-type :
    (chain_id : Bytes) (height r : ℤ) (kind : SignedMsgType) (vals : ValidatorSet) (s : VoteSet)
    → new_vote_set chain_id height r kind vals ≡ ok s
    → s.signed_msg_type ≡ kind
unfolding new_vote_set
new_vote_set-type chain_id height r kind vals s e = ground (arith, e)

-- A round that was not there has no majority to lose.
stored-Grows :
    (r : ℤ) (x : RoundVoteSet) (h : HeightVoteSet)
    → TypedRound x
    → find ℤ-discrete r h.round_vote_sets ≡ none
    → Grows h (record h { round_vote_sets = store ℤ-discrete r x h.round_vote_sets })
stored-Grows r x h typed missing = record {
  types = store-Typed r x h typed;
  keep = λ j b (rvs, found, m). elim (ℤ-discrete r j) [
    | yes same ↦ absurd (let e = ap (λ i. find ℤ-discrete i h.round_vote_sets) same in cc)
    | no differ ↦ (rvs, find-store_ne ℤ-discrete r j x h.round_vote_sets differ ∙ found, m)
  ];
}

add_round-Grows : (r : ℤ) (h : HeightVoteSet) → Ends (Grows h) (add_round r h)
unfolding add_round
add_round-Grows r h = elim (Option-cases (find ℤ-discrete r h.round_vote_sets)) [
  | inr (rvs, found) ↦ record { at = λ t e. absurd (ground (arith, found)) }
  | inl missing ↦ record {
    at = λ t e.
        let many : Ends (Grows h) (
            new_vote_set h.chain_id h.height r prevote h.val_set >>= λ p.
            new_vote_set h.chain_id h.height r precommit h.val_set >>= λ q. ok (record h {
              round_vote_sets =
                  store ℤ-discrete r (record { prevotes = p; precommits = q }) h.round_vote_sets;
            })) =
          Ends-bind _ _ (Ends-self (new_vote_set h.chain_id h.height r prevote h.val_set)) (λ p ep.
            Ends-bind _ _ (Ends-self (new_vote_set h.chain_id h.height r precommit h.val_set))
              (λ q eq. Ends-ok (
                stored-Grows r (record { prevotes = p; precommits = q }) h
                  (
                    new_vote_set-type h.chain_id h.height r prevote h.val_set p ep,
                    new_vote_set-type h.chain_id h.height r precommit h.val_set q eq,
                  )
                  missing))) in
        many.at t (sym (rw (add_round, missing) refl) ∙ e);
  }
]

add_rounds-Grows : (n : ℕ) (last r : ℤ) (h : HeightVoteSet) → Ends (Grows h) (add_rounds n last r h)
unfolding add_rounds
add_rounds-Grows zero last r h = Ends-panic
add_rounds-Grows (suc n) last r h =
    let more = add_rounds-Grows n last (wrap_int32 (r +ℤ pos 1)) in
    let next : Ends (Grows h) (add_round r h >>= add_rounds n last (wrap_int32 (r +ℤ pos 1))) =
      Ends-bind _ _ (add_round-Grows r h)
        (λ t g. record { at = λ u e. Grows-trans g ((more t).at u e) }) in
    elim (Bool-cases (ltb_ℤ last r)) [
      | inl over ↦ rw (add_rounds, over) (Ends-ok (Grows-refl h))
      | inr goes_on ↦ elim (Option-cases (find ℤ-discrete r h.round_vote_sets)) [
        | inr (rvs, found) ↦ record {
          at = λ u e. (more h).at u (sym (rw (add_rounds, goes_on, found) refl) ∙ e);
        }
        | inl missing ↦ record {
          at = λ u e. next.at u (sym (rw (add_rounds, goes_on, missing) refl) ∙ e);
        }
      ]
    ]

pub set_round-Grows : (r : ℤ) (h : HeightVoteSet) → Ends (Grows h) (set_round r h)
unfolding set_round
set_round-Grows r h = Ends-bind _ _ (Ends-self (safe_sub_int32 h.round (pos 1))) (λ n _.
    Ends-if (not (h.round ==ℤ pos 0) && ltb_ℤ r n) _ _ (λ _. Ends-panic)
      (λ _.
        Ends-bind _ _ (add_rounds-Grows (suc (turns n r)) r n h)
          (λ t g. Ends-ok (record { keep = g.keep; types = g.types }))))

with_kind-stays :
    (r : ℤ) (kind : SignedMsgType) (s t : VoteSet) (h : HeightVoteSet) (x : RoundVoteSet)
    (b : BlockId)
    → get_vote_set r kind h ≡ ok (some s)
    → find ℤ-discrete r h.round_vote_sets ≡ some x
    → (s.maj23 ≡ some b → t.maj23 ≡ some b)
    → x.prevotes.maj23 ≡ some b
    → (with_kind kind t x).prevotes.maj23 ≡ some b
unfolding get_vote_set
with_kind-stays r prevote s t h x b e found stays m =
    let same : x.prevotes ≡ s = ground (arith, e, found) in
    stays (ap (λ (v : VoteSet). v.maj23) (sym same) ∙ m)
with_kind-stays r precommit s t h x b e found stays m = m
with_kind-stays r _ s t h x b e found stays m = m

with_kind-Typed :
    (r : ℤ) (kind : SignedMsgType) (s t : VoteSet) (h : HeightVoteSet) (x : RoundVoteSet)
    → get_vote_set r kind h ≡ ok (some s)
    → find ℤ-discrete r h.round_vote_sets ≡ some x
    → t.signed_msg_type ≡ s.signed_msg_type
    → TypedRound x
    → TypedRound (with_kind kind t x)
unfolding get_vote_set
with_kind-Typed r prevote s t h x e found same y =
    let here : x.prevotes ≡ s = ground (arith, e, found) in
    (same ∙ ap (λ (v : VoteSet). v.signed_msg_type) (sym here) ∙ y.0, y.1)
with_kind-Typed r precommit s t h x e found same y =
    let here : x.precommits ≡ s = ground (arith, e, found) in
    (y.0, same ∙ ap (λ (v : VoteSet). v.signed_msg_type) (sym here) ∙ y.1)
with_kind-Typed r _ s t h x e found same y = y

put_vote_set-Grows :
    (r : ℤ) (kind : SignedMsgType) (s t : VoteSet) (h : HeightVoteSet)
    → get_vote_set r kind h ≡ ok (some s)
    → t.signed_msg_type ≡ s.signed_msg_type
    → ((b : BlockId) → s.maj23 ≡ some b → t.maj23 ≡ some b)
    → Grows h (put_vote_set r kind t h)
unfolding put_vote_set
put_vote_set-Grows r kind s t h e same_type stays =
    elim (Option-cases (find ℤ-discrete r h.round_vote_sets)) [
      | inl missing ↦ rw (put_vote_set, missing) (Grows-refl h)
      | inr (x, found) ↦
          rw (put_vote_set, found)
            (record {
              types = λ y.
                  store-Typed r (with_kind kind t x) h
                    (with_kind-Typed r kind s t h x e found same_type (y r x found)) y;
              keep = λ j b (rvs, here, m). elim (ℤ-discrete r j) [
                | yes same ↦
                    let at_j =
                      subst
                        (λ i.
                          find ℤ-discrete i
                            (store ℤ-discrete r (with_kind kind t x) h.round_vote_sets)
                          ≡ some (with_kind kind t x))
                        same
                        (find-store_self ℤ-discrete r (with_kind kind t x) h.round_vote_sets) in
                    let found_j =
                      subst (λ i. find ℤ-discrete i h.round_vote_sets ≡ some x) same found in
                    let same_x : rvs ≡ x = cc in
                    (
                      with_kind kind t x,
                      at_j,
                      with_kind-stays r kind s t h x b e found (stays b)
                          (ap (λ (v : RoundVoteSet). v.prevotes.maj23) (sym same_x) ∙ m),
                    )
                | no differ ↦ (
                  rvs,
                  find-store_ne ℤ-discrete r j (with_kind kind t x) h.round_vote_sets differ ∙ here,
                  m,
                )
              ];
            })
    ]

-- Any block identifier.
abbrev zero_id : BlockId
zero_id = record { hash = []; parts = record { total = 0; hash = [] } }

module _ (crypto : Crypto) where
  add_to_set-Grows :
      (v : Vote) (s : VoteSet) (h : HeightVoteSet)
      → get_vote_set v.round v.kind h ≡ ok (some s)
      → Ends (λ x. Grows h x.0) (add_to_set crypto v s h)
  unfolding add_to_set
  add_to_set-Grows v s h e =
      Ends-bind _ _ (Ends-self (VoteSets.add_vote crypto (some v) s)) (λ (t, added, err) run.
        let kept : (some_found : Bool) (b : BlockId)
            → (some_found ≡ false) ⊎ (s.maj23 ≡ some b)
            → Stays crypto s.signed_msg_type some_found b t =
          λ some_found b m.
            (add_vote-Stays crypto s.signed_msg_type some_found b (some v) s (refl, m)).at
              (t, added, err) run in
        Ends-ok (
          put_vote_set-Grows v.round v.kind s t h e (kept false zero_id (inl refl)).0
            (λ b m. elim (kept true b (inr m)).1 [ inl off ↦ absurd (cc) | inr still ↦ still ])))

  -- What `AddVote` does for a peer's new round.
  abbrev in_new_round :
      Vote → Bytes → HeightVoteSet → Run (HeightVoteSet × Bool × Option HeightVoteError)
  in_new_round v peer h = do
    t ← add_round v.round h
    fresh ← get_vote_set v.round v.kind t
    let u = record t {
      peer_catchup_rounds =
          store Bytes-discrete peer (catchup_rounds peer h ++ v.round ∷ []) t.peer_catchup_rounds;
    }
    elim fresh [ none ↦ panic | some s ↦ add_to_set crypto v s u ]

  same_sets :
      (kind : SignedMsgType) (r : ℤ) (t u : HeightVoteSet)
      → u.round_vote_sets ≡ t.round_vote_sets
      → get_vote_set r kind u ≡ get_vote_set r kind t
  unfolding get_vote_set
  same_sets kind r t u e = rw (get_vote_set, e) refl

  in_new_round-Grows :
      (v : Vote) (peer : Bytes) (h : HeightVoteSet)
      → Ends (λ x. Grows h x.0) (in_new_round v peer h)
  in_new_round-Grows v peer h = Ends-bind _ _ (add_round-Grows v.round h) (λ t g.
      Ends-bind _ _ (Ends-self (get_vote_set v.round v.kind t)) (λ fresh e. record {
        at = λ x run. elim (Option-cases fresh) [
          | inl missing ↦ absurd (ground (arith, run, missing))
          | inr (s, found) ↦
              let u = record t {
                peer_catchup_rounds =
                    store Bytes-discrete peer (catchup_rounds peer h ++ v.round ∷ [])
                      t.peer_catchup_rounds;
              } in
              let here = same_sets v.kind v.round t u refl ∙ e ∙ ap ok found in
              let added : add_to_set crypto v s u ≡ ok x = ground (arith, run, found) in
              Grows-trans (record { keep = g.keep; types = g.types })
                ((add_to_set-Grows v s u here).at x added)
        ];
      }))

  -- Adding a vote keeps the majorities of all rounds, and the types.
  pub add_vote-Grows :
      (v : Vote) (peer : Bytes) (h : HeightVoteSet)
      → Ends (λ x. Grows h x.0) (add_vote crypto v peer h)
  unfolding add_vote
  add_vote-Grows v peer h =
      Ends-if (not (is_vote_type_valid v.kind)) _ _ (λ _. Ends-ok (Grows-refl h))
        (λ _. Ends-bind _ _ (Ends-self (get_vote_set v.round v.kind h)) (λ found e. record {
          at = λ x run. elim (Option-cases found) [
            | inr (s, here) ↦
                (add_to_set-Grows v s h (e ∙ ap ok here)).at x (ground (arith, run, here))
            | inl missing ↦ elim (Bool-cases (ltb (length (catchup_rounds peer h)) 2)) [
              | inl few ↦ (in_new_round-Grows v peer h).at x (ground (arith, run, missing, few))
              | inr many ↦
                  let same : h ≡ x.0 = ground (arith, run, missing, many) in
                  subst (Grows h) same (Grows-refl h)
            ]
          ];
        }))

-- A new height's vote sets are typed.
pub reset-Typed :
    (chain_id : Bytes) (height : ℤ) (vals : ValidatorSet) (h : HeightVoteSet)
    → reset chain_id height vals ≡ ok h
    → Typed h
unfolding reset find
reset-Typed chain_id height vals h e =
    ((add_round-Grows (pos 0) (record {
      chain_id = chain_id;
      height = height;
      val_set = vals;
      round = pos 0;
      round_vote_sets = [];
      peer_catchup_rounds = [];
    })).at
        h e).types
      (λ r x found. absurd (cc (found)))

pub precommits-Typed :
    (r : ℤ) (h : HeightVoteSet) (s : VoteSet)
    → Typed h
    → get_vote_set r precommit h ≡ ok (some s)
    → s.signed_msg_type ≡ precommit
unfolding get_vote_set
precommits-Typed r h s y e = elim (Option-cases (find ℤ-discrete r h.round_vote_sets)) [
  | inl missing ↦ absurd (ground (arith, e, missing))
  | inr (x, found) ↦
      let same : x.precommits ≡ s = ground (arith, e, found) in
      ap (λ (v : VoteSet). v.signed_msg_type) (sym same) ∙ (y r x found).1
]
