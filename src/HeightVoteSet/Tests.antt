-- ===== src/HeightVoteSet/Tests.antt =====
-- One validator prevotes in round 0, with a toy encoding.
use tendermintx.Common.{
  ℕ, pos, negsuc, ◌≤◌, ◌<◌, ◌*◌, Bytes-discrete, ℤ-discrete, find, store, Bool, true, false, Option,
  none, some, [], ◌∷◌, ◌≡◌, ◌↔◌, refl, sym, subst, ℕ_discrete, arith, Run, ok, panic,
}
use tendermintx.Types.BlockId
use tendermintx.Types.BlockId.{BlockId}
use tendermintx.Types.Vote.{
  Vote, prevote, precommit, SignedMsgType-discrete, canonicalize_vote, canonicalize_block_id,
  is_vote_type_valid,
}
use tendermintx.VoteSet.Defs
use tendermintx.VoteSet.Defs.{
  Crypto, ValidatorSet, new_vote_set, add_new, get_vote, block_vote, verify, key, get_by_index,
  added_result, add_verified_vote, record_vote, count_vote, add_to_block, new_block_votes,
  copy_votes, quorum, two_thirds_majority,
}
use tendermintx.VoteSet.Power.{power_total, power_sum}
use tendermintx.VoteSet.Support.{supporters}
use tendermintx.VoteSet.Correct.{Encodes}
use tendermintx.HeightVoteSet.Defs.{
  HeightVoteSet, RoundVoteSet, HeightVoteError, unwanted_round, invalid_vote_type, add_round, reset,
  set_round, get_vote_set, put_vote_set, catchup_rounds, add_to_set, add_vote, set_peer_maj23,
  prevote_majority, pol_below, pol_info,
}
use tendermintx.HeightVoteSet.Good.{Good, reset-Good}
use tendermintx.HeightVoteSet.Loop.{Extends}
use tendermintx.HeightVoteSet.Rounds.{set_round_correct, set_round-tracks_before_first}
use tendermintx.HeightVoteSet.Pol.{pol_info_correct, pol_info-none}
use tendermintx.HeightVoteSet.Add.{IsUnwanted, add_vote-Good}
use tendermintx.HeightVoteSet.Claim.{set_peer_maj23-Good}

plain_crypto : Crypto
plain_crypto = record {
  address_of = λ pk. pk;
  verify_bytes = λ pk b signature. true;
  marshal_vote = λ c. some [];
  marshal_parts = λ p. p.total ∷ p.hash;
}

abbrev lone_validator : ValidatorSet
lone_validator = record {
  validators = (record { address = 1 ∷ []; pub_key = 1 ∷ []; voting_power = 10 }) ∷ [];
  total_voting_power = 10;
}

abbrev no_block : BlockId
no_block = record { hash = []; parts = record { total = 0; hash = [] } }

abbrev first_vote : Vote
first_vote = record {
  kind = prevote;
  height = pos 1;
  round = pos 0;
  block_id = no_block;
  timestamp = pos 5;
  validator_address = 1 ∷ [];
  validator_index = pos 0;
  signature = 7 ∷ [];
}

abbrev blank : HeightVoteSet
blank = record {
  chain_id = [];
  height = pos 1;
  val_set = lone_validator;
  round = pos 0;
  round_vote_sets = [];
  peer_catchup_rounds = [];
}

abbrev state_of : Run HeightVoteSet → HeightVoteSet
state_of (ok h) = h
state_of panic = blank

abbrev begun : HeightVoteSet
begun = state_of (reset [] (pos 1) lone_validator)

abbrev outcome : Run (HeightVoteSet × Bool × Option HeightVoteError) → HeightVoteSet
outcome (ok (h, _, _)) = h
outcome panic = blank

abbrev prevoted : HeightVoteSet
prevoted = outcome (add_vote plain_crypto first_vote [] begun)

begun-run : reset [] (pos 1) lone_validator ≡ ok begun
unfolding reset find new_vote_set
begun-run = refl

begun-Good : Good plain_crypto begun
begun-Good =
    let (h, run, good) = reset-Good plain_crypto [] (pos 1) lone_validator refl refl in
    let same : h ≡ begun = ground (arith, run, begun-run) in subst (Good plain_crypto) same good

first_vote-Encodes : Encodes plain_crypto [] first_vote
unfolding plain_crypto canonicalize_vote canonicalize_block_id
first_vote-Encodes = (
  record {
    kind = prevote;
    height = pos 1;
    round = pos 0;
    block_id = none;
    timestamp = pos 5;
    chain_id = [];
  },
  [],
  refl,
  refl,
)

begun-chain : begun.chain_id ≡ []
unfolding reset find new_vote_set add_round
begun-chain = refl

begun-Encodes : Encodes plain_crypto begun.chain_id first_vote
begun-Encodes = subst (λ c. Encodes plain_crypto c first_vote) (sym begun-chain) first_vote-Encodes

prevoted-run : add_vote plain_crypto first_vote [] begun ≡ ok (prevoted, true, none)
unfolding add_vote add_to_set is_vote_type_valid reset add_round find store new_vote_set
    get_vote_set put_vote_set catchup_rounds ℤ-discrete ℕ_discrete Defs.add_vote
    SignedMsgType-discrete get_by_index Bytes-discrete add_new get_vote block_vote verify
    plain_crypto canonicalize_vote canonicalize_block_id BlockId.key add_to_block copy_votes
    new_block_votes quorum add_verified_vote added_result count_vote record_vote
prevoted-run = refl

prevoted-Good : Good plain_crypto prevoted
prevoted-Good =
    let (h, added, err, run, good, _) =
      add_vote-Good plain_crypto first_vote [] begun begun-Good begun-Encodes in
    let same : h ≡ prevoted = cc in subst (Good plain_crypto) same good

prevoted-round : prevoted.round ≡ pos 0
unfolding add_vote add_to_set is_vote_type_valid reset add_round find store new_vote_set
    get_vote_set put_vote_set catchup_rounds ℤ-discrete ℕ_discrete Defs.add_vote
    SignedMsgType-discrete get_by_index Bytes-discrete add_new get_vote block_vote verify
    plain_crypto canonicalize_vote canonicalize_block_id BlockId.key add_to_block copy_votes
    new_block_votes quorum add_verified_vote added_result count_vote record_vote
prevoted-round = refl

prevoted-pol : pol_info prevoted ≡ some (0, no_block)
unfolding add_vote add_to_set is_vote_type_valid reset add_round find store new_vote_set
    get_vote_set put_vote_set catchup_rounds ℤ-discrete ℕ_discrete Defs.add_vote
    SignedMsgType-discrete get_by_index Bytes-discrete add_new get_vote block_vote verify
    plain_crypto canonicalize_vote canonicalize_block_id BlockId.key add_to_block copy_votes
    new_block_votes quorum add_verified_vote added_result count_vote record_vote pol_info pol_below
    prevote_majority two_thirds_majority
prevoted-pol = refl

begun-pol : pol_info begun ≡ none
unfolding reset find new_vote_set pol_info pol_below prevote_majority two_thirds_majority ℤ-discrete
    add_round store
begun-pol = refl

begun-round : begun.round ≡ pos 0
unfolding reset find new_vote_set add_round
begun-round = refl

add_vote-Good_example :
    (t : HeightVoteSet) × (added : Bool) × (err : Option HeightVoteError) × (add_vote plain_crypto
        first_vote [] begun
      ≡ ok (t, added, err))
    × Good plain_crypto t
    × (err ≡ some unwanted_round ↔ IsUnwanted plain_crypto first_vote [] begun)
add_vote-Good_example = add_vote-Good plain_crypto first_vote [] begun begun-Good begun-Encodes

set_round_correct_example :
    (t : HeightVoteSet) × (set_round (pos 2) begun ≡ ok t)
    × Good plain_crypto t
    × (t.round ≡ pos 2)
    × Extends begun t
    × ((k : ℕ)
        → 0 ≤ k
        → k ≤ 2
        → (x : RoundVoteSet) × (find ℤ-discrete (pos k) t.round_vote_sets ≡ some x))
set_round_correct_example =
    set_round_correct plain_crypto begun 0 2 begun-Good begun-round (omega arith) (omega arith)

set_round-tracks_before_first_example :
    (t : HeightVoteSet) × (x : RoundVoteSet) × (set_round (pos 1) begun ≡ ok t)
    × (find ℤ-discrete (negsuc 0) t.round_vote_sets ≡ some x)
set_round-tracks_before_first_example =
    set_round-tracks_before_first plain_crypto begun 1 begun-Good begun-round (omega arith)

set_peer_maj23-Good_example :
    (t : HeightVoteSet) × (err : Option HeightVoteError) × (set_peer_maj23 plain_crypto
        (pos 0)
        precommit
        []
        no_block
        begun
      ≡ ok (t, err))
    × Good plain_crypto t
    × (err ≡ some invalid_vote_type ↔ is_vote_type_valid precommit ≡ false)
set_peer_maj23-Good_example =
    set_peer_maj23-Good plain_crypto (pos 0) precommit [] no_block begun begun-Good

pol_info_correct_example :
    (0 ≤ 0)
    × ((rvs : RoundVoteSet) × (find ℤ-discrete (pos 0) prevoted.round_vote_sets ≡ some rvs)
        × (2 * power_total prevoted.val_set.validators
            < 3
              * power_sum prevoted.val_set.validators
                  (supporters plain_crypto (key plain_crypto no_block) rvs.prevotes.votes)))
    × ((k : ℕ) → 0 < k → k ≤ 0 → prevote_majority k prevoted ≡ none)
pol_info_correct_example =
    pol_info_correct plain_crypto prevoted 0 prevoted-Good prevoted-round prevoted-pol

pol_info-none_example : prevote_majority 0 begun ≡ none
pol_info-none_example = pol_info-none begun 0 begun-round begun-pol 0 (omega arith)
