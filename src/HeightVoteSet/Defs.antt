-- ===== src/HeightVoteSet/Defs.antt =====
-- The data and the methods.
use tendermintx.Common.{
  ℕ, zero, suc, ◌-◌, ◌^◌, ℤ, pos, negsuc, ◌+ℤ◌, ◌-ℤ◌, ◌==ℤ◌, ltb_ℤ, ℤ-discrete, Bytes,
  Bytes-discrete, Bool, false, not, ◌&&◌, ◌||◌, Option, none, some, List, [], ◌∷◌, ◌++◌, ltb,
  length, if◌then◌else◌, find, store, Run, ok, panic, ◌>>=◌,
}
use tendermintx.Types.BlockId.{BlockId}
use tendermintx.Types.Vote.{Vote, SignedMsgType, prevote, precommit, is_vote_type_valid}
use tendermintx.VoteSet.Defs
use tendermintx.VoteSet.Defs.{
  Crypto, ValidatorSet, VoteSet, VoteError, new_vote_set, two_thirds_majority, is_some,
}

pub record RoundVoteSet : Type 0 where
  pub prevotes : VoteSet
  pub precommits : VoteSet

pub record HeightVoteSet : Type 0 where
  pub chain_id : Bytes
  pub height : ℤ
  pub val_set : ValidatorSet
  pub round : ℤ
  pub round_vote_sets : List (ℤ × RoundVoteSet)
  pub peer_catchup_rounds : List (Bytes × List ℤ)

pub data HeightVoteError : Type 0 where
  unwanted_round invalid_vote_type : HeightVoteError
  rejected : VoteError → HeightVoteError

unfoldable pub add_round : ℤ → HeightVoteSet → Run HeightVoteSet
add_round r h = elim (find ℤ-discrete r h.round_vote_sets) [
  | some _ ↦ panic
  | none ↦ do
    prevotes ← new_vote_set h.chain_id h.height r prevote h.val_set
    precommits ← new_vote_set h.chain_id h.height r precommit h.val_set
    ok (record h {
      round_vote_sets =
          store ℤ-discrete r (record { prevotes = prevotes; precommits = precommits })
            h.round_vote_sets;
    })
]

-- `NewHeightVoteSet`, and `Reset` of any vote set with the chain ID
unfoldable pub reset : Bytes → ℤ → ValidatorSet → Run HeightVoteSet
unfolding add_round
reset chain_id height vals = add_round (pos 0) (record {
  chain_id = chain_id;
  height = height;
  val_set = vals;
  round = pos 0;
  round_vote_sets = [];
  peer_catchup_rounds = [];
})

-- `math.MinInt32` and `math.MaxInt32`
abbrev pub min_int32 : ℤ
min_int32 = negsuc (2 ^ 31 - 1)

abbrev pub max_int32 : ℤ
max_int32 = pos (2 ^ 31 - 1)

unfoldable pub safe_sub_int32 : ℤ → ℤ → Run ℤ
unfolding ◌+ℤ◌ ◌-ℤ◌
safe_sub_int32 a b =
    if ltb_ℤ (pos 0) b && ltb_ℤ a (min_int32 +ℤ b) || ltb_ℤ b (pos 0) && ltb_ℤ (max_int32 +ℤ b) a
    then panic
    else ok (a -ℤ b)

-- An int32 after `++`, or a sum of an int32 and 1.
unfoldable pub wrap_int32 : ℤ → ℤ
unfolding ◌-ℤ◌
wrap_int32 x = if ltb_ℤ max_int32 x then x -ℤ pos (2 ^ 32) else x

-- The loop of `SetRound`, from a round to the last one, on fuel. A loop whose fuel is used up has
-- given no result, as after a panic.
unfoldable pub add_rounds : ℕ → ℤ → ℤ → HeightVoteSet → Run HeightVoteSet
unfolding ◌+ℤ◌ wrap_int32
add_rounds zero last r h = panic
add_rounds (suc n) last r h =
    if ltb_ℤ last r then ok h else elim (find ℤ-discrete r h.round_vote_sets) [
      | some _ ↦ add_rounds n last (wrap_int32 (r +ℤ pos 1)) h
      | none ↦ add_round r h >>= add_rounds n last (wrap_int32 (r +ℤ pos 1))
    ]

-- The number of turns of a loop from one round to another, both included; one more test ends it.
unfoldable pub turns : ℤ → ℤ → ℕ
unfolding ◌+ℤ◌ ◌-ℤ◌
turns first last = elim (last -ℤ first +ℤ pos 1) [ pos n ↦ n | negsuc _ ↦ 0 ]

unfoldable pub set_round : ℤ → HeightVoteSet → Run HeightVoteSet
unfolding safe_sub_int32 add_rounds turns
set_round round h = do
  new_round ← safe_sub_int32 h.round (pos 1)
  if not (h.round ==ℤ pos 0) && ltb_ℤ round new_round then panic else (do
    t ← add_rounds (suc (turns new_round round)) round new_round h
    ok (record t { round = round }))

unfoldable pub get_vote_set : ℤ → SignedMsgType → HeightVoteSet → Run (Option VoteSet)
get_vote_set round kind h = elim (find ℤ-discrete round h.round_vote_sets) [
  | none ↦ ok none
  | some rvs ↦ elim kind [
    | prevote ↦ ok (some rvs.prevotes)
    | precommit ↦ ok (some rvs.precommits)
    | _ ↦ panic
  ]
]

abbrev pub with_kind : SignedMsgType → VoteSet → RoundVoteSet → RoundVoteSet
with_kind prevote s rvs = record rvs { prevotes = s }
with_kind precommit s rvs = record rvs { precommits = s }
with_kind _ s rvs = rvs

-- The vote set that `get_vote_set` returned has changed.
unfoldable pub put_vote_set : ℤ → SignedMsgType → VoteSet → HeightVoteSet → HeightVoteSet
put_vote_set round kind s h = elim (find ℤ-discrete round h.round_vote_sets) [
  | none ↦ h
  | some rvs ↦ record h {
    round_vote_sets = store ℤ-discrete round (with_kind kind s rvs) h.round_vote_sets;
  }
]

-- a missing key of the map is the nil slice
unfoldable pub catchup_rounds : Bytes → HeightVoteSet → List ℤ
catchup_rounds peer h = elim (find Bytes-discrete peer h.peer_catchup_rounds) [
  | none ↦ []
  | some rounds ↦ rounds
]

module _ (crypto : Crypto) where
  -- The call of `VoteSet.AddVote` on a vote set of the map.
  unfoldable pub add_to_set :
      Vote → VoteSet → HeightVoteSet → Run (HeightVoteSet × Bool × Option HeightVoteError)
  unfolding put_vote_set
  add_to_set vote s h = do
    (t, added, err) ← Defs.add_vote crypto (some vote) s
    ok (
      put_vote_set vote.round vote.kind t h,
      added,
      elim err [ none ↦ none | some e ↦ some (rejected e) ],
    )

  unfoldable pub add_vote :
      Vote → Bytes → HeightVoteSet → Run (HeightVoteSet × Bool × Option HeightVoteError)
  unfolding get_vote_set add_to_set catchup_rounds add_round
  add_vote vote peer h =
      if not (is_vote_type_valid vote.kind)
      then ok (h, false, none)
      else get_vote_set vote.round vote.kind h >>= λ found. elim found [
        | some s ↦ add_to_set vote s h
        | none ↦
            if ltb (length (catchup_rounds peer h)) 2
            then (do
              t ← add_round vote.round h
              fresh ← get_vote_set vote.round vote.kind t
              let u = record t {
                peer_catchup_rounds =
                    store Bytes-discrete peer (catchup_rounds peer h ++ vote.round ∷ [])
                      t.peer_catchup_rounds;
              }
              elim fresh [ none ↦ panic | some s ↦ add_to_set vote s u ])
            else ok (h, false, some unwanted_round)
      ]

  unfoldable pub set_peer_maj23 :
      ℤ
      → SignedMsgType
      → Bytes
      → BlockId
      → HeightVoteSet
      → Run (HeightVoteSet × Option HeightVoteError)
  unfolding get_vote_set put_vote_set
  set_peer_maj23 round kind peer block_id h =
      if not (is_vote_type_valid kind)
      then ok (h, some invalid_vote_type)
      else get_vote_set round kind h >>= λ found. elim found [
        | none ↦ ok (h, none)
        | some s ↦
            let (t, err) = Defs.set_peer_maj23 crypto peer block_id s in
            ok (put_vote_set round kind t h, elim err [ none ↦ none | some e ↦ some (rejected e) ])
      ]

-- The prevotes' majority in a round; a nil `*VoteSet` has none.
unfoldable pub prevote_majority : ℕ → HeightVoteSet → Option BlockId
prevote_majority r h = elim (find ℤ-discrete (pos r) h.round_vote_sets) [
  | none ↦ none
  | some rvs ↦ two_thirds_majority rvs.prevotes
]

-- The loop of `POLInfo`, over the rounds below `n` from the last one down.
unfoldable pub pol_below : ℕ → HeightVoteSet → Option (ℕ × BlockId)
unfolding prevote_majority
pol_below zero h = none
pol_below (suc r) h =
    let rest = pol_below r h in elim (prevote_majority r h) [ none ↦ rest | some b ↦ some (r, b) ]

-- `POLInfo`; `none` is round -1
unfoldable pub pol_info : HeightVoteSet → Option (ℕ × BlockId)
unfolding pol_below
pol_info h = elim h.round [ negsuc _ ↦ none | pos r ↦ pol_below (suc r) h ]
