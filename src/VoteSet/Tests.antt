-- ===== src/VoteSet/Tests.antt =====
-- One validator votes for two blocks in two rounds, with a toy encoding.
use tendermintx.Common.{
  get_elem?, arith, List, ℕ, pos, Bytes-discrete, find, store, Bool, true, false, Option, none,
  some, [], ◌∷◌, ◌≡◌, refl, subst, Run, ok, panic, ◌<◌, ◌*◌, ◌≤◌, map,
}
use tendermintx.Types.BlockId
use tendermintx.Types.BlockId.{BlockId}
use tendermintx.Types.Vote.{
  Vote, CanonicalVote, SignedMsgType-discrete, precommit, canonicalize_vote, canonicalize_block_id,
}
use tendermintx.VoteSet.Defs.{
  Crypto, VoteError, VoteSet, ValidatorSet, new_vote_set, add_vote, add_new, get_vote, block_vote,
  verify, key, is_some, get_by_index, added_result, add_verified_vote, record_vote, count_vote,
  add_to_block, new_block_votes, copy_votes, quorum, two_thirds_majority, has_two_thirds_majority,
  has_two_thirds_any,
}
use tendermintx.VoteSet.Power.{power_total, power_sum}
use tendermintx.VoteSet.Support.{supporters, power_both}
use tendermintx.VoteSet.Add.{Kept}
use tendermintx.VoteSet.Correct.{Encodes, add_vote_correct}
use tendermintx.VoteSet.Read.{bit_array, vote_by_index, vote_by_index-bit_array}
use tendermintx.VoteSet.Majority.{
  Reach, created, voted, Reach-Inv, majority_power, majorities_overlap, sums_right, majority-any,
}

toy_crypto : Crypto
toy_crypto = record {
  address_of = λ pk. pk;
  verify_bytes = λ pk b signature. true;
  marshal_vote = λ c. some [];
  marshal_parts = λ p. p.total ∷ p.hash;
}

abbrev one_validator : ValidatorSet
one_validator = record {
  validators = (record { address = 1 ∷ []; pub_key = 1 ∷ []; voting_power = 10 }) ∷ [];
  total_voting_power = 10;
}

abbrev block : ℕ → BlockId
block total = record { hash = []; parts = record { total = total; hash = [] } }

abbrev vote_in : ℕ → Vote
vote_in round = record {
  kind = precommit;
  height = pos 1;
  round = pos round;
  block_id = block round;
  timestamp = pos 5;
  validator_address = 1 ∷ [];
  validator_index = pos 0;
  signature = 7 ∷ [];
}

abbrev empty : ℕ → VoteSet
empty round = record {
  chain_id = [];
  height = pos 1;
  round = pos round;
  signed_msg_type = precommit;
  val_set = one_validator;
  votes_bit_array = false ∷ [];
  votes = none ∷ [];
  sum = 0;
  maj23 = none;
  votes_by_block = [];
  peer_maj23s = [];
}

abbrev result : ℕ → Run (VoteSet × Bool × Option VoteError) → VoteSet
result round (ok (s, _, _)) = s
result round panic = empty round

abbrev voted_in : ℕ → VoteSet
voted_in round = result round (add_vote toy_crypto (some (vote_in round)) (empty round))

new_empty :
    (round : ℕ) → new_vote_set [] (pos 1) (pos round) precommit one_validator ≡ ok (empty round)
unfolding new_vote_set
new_empty round = refl

empty-Reach : (round : ℕ) → Reach toy_crypto (empty round)
empty-Reach round = created [] (pos 1) (pos round) precommit one_validator refl (new_empty round)

abbrev canonical_in : ℕ → Option BlockId → CanonicalVote
canonical_in round b = record {
  kind = precommit;
  height = pos 1;
  round = pos round;
  block_id = b;
  timestamp = pos 5;
  chain_id = [];
}

Encodes-vote_0 : Encodes toy_crypto [] (vote_in 0)
unfolding toy_crypto canonicalize_vote canonicalize_block_id
Encodes-vote_0 = (canonical_in 0 none, [], refl, refl)

Encodes-vote_1 : Encodes toy_crypto [] (vote_in 1)
unfolding toy_crypto canonicalize_vote canonicalize_block_id
Encodes-vote_1 = (canonical_in 1 (some (block 1)), [], refl, refl)

Encodes-any :
    (w : Vote) → Encodes toy_crypto [] w → (v : Vote) → some w ≡ some v → Encodes toy_crypto [] v
Encodes-any w enc v e = let same : w ≡ v = cc in subst (Encodes toy_crypto []) same enc

added_0 : add_vote toy_crypto (some (vote_in 0)) (empty 0) ≡ ok (voted_in 0, true, none)
unfolding add_vote add_new get_vote block_vote verify canonicalize_vote canonicalize_block_id
    SignedMsgType-discrete get_by_index Bytes-discrete find toy_crypto add_verified_vote record_vote
    count_vote add_to_block new_block_votes added_result quorum copy_votes BlockId.key store
added_0 = refl

added_1 : add_vote toy_crypto (some (vote_in 1)) (empty 1) ≡ ok (voted_in 1, true, none)
unfolding add_vote add_new get_vote block_vote verify canonicalize_vote canonicalize_block_id
    SignedMsgType-discrete get_by_index Bytes-discrete find toy_crypto add_verified_vote record_vote
    count_vote add_to_block new_block_votes added_result quorum copy_votes BlockId.key store
added_1 = refl

voted_0-Reach : Reach toy_crypto (voted_in 0)
voted_0-Reach =
    voted (some (vote_in 0)) (empty-Reach 0) (Encodes-any (vote_in 0) Encodes-vote_0) added_0

voted_1-Reach : Reach toy_crypto (voted_in 1)
voted_1-Reach =
    voted (some (vote_in 1)) (empty-Reach 1) (Encodes-any (vote_in 1) Encodes-vote_1) added_1

majority_0 : two_thirds_majority (voted_in 0) ≡ some (block 0)
unfolding two_thirds_majority add_vote add_new get_vote block_vote verify canonicalize_vote
    canonicalize_block_id SignedMsgType-discrete get_by_index Bytes-discrete find toy_crypto
    add_verified_vote record_vote count_vote add_to_block new_block_votes added_result quorum
    copy_votes BlockId.key store
majority_0 = refl

majority_1 : two_thirds_majority (voted_in 1) ≡ some (block 1)
unfolding two_thirds_majority add_vote add_new get_vote block_vote verify canonicalize_vote
    canonicalize_block_id SignedMsgType-discrete get_by_index Bytes-discrete find toy_crypto
    add_verified_vote record_vote count_vote add_to_block new_block_votes added_result quorum
    copy_votes BlockId.key store
majority_1 = refl

has_majority_0 : has_two_thirds_majority (voted_in 0) ≡ true
unfolding has_two_thirds_majority add_vote add_new get_vote block_vote verify canonicalize_vote
    canonicalize_block_id SignedMsgType-discrete get_by_index Bytes-discrete find toy_crypto
    add_verified_vote record_vote count_vote add_to_block new_block_votes added_result quorum
    copy_votes BlockId.key store
has_majority_0 = refl

same_vals : (voted_in 1).val_set ≡ (voted_in 0).val_set
unfolding add_vote add_new get_vote block_vote verify canonicalize_vote canonicalize_block_id
    SignedMsgType-discrete get_by_index Bytes-discrete find toy_crypto add_verified_vote record_vote
    count_vote add_to_block new_block_votes added_result quorum copy_votes BlockId.key store
same_vals = refl

add_vote_correct_example :
    (t : VoteSet) × (added : Bool) × (err : Option VoteError) × (add_vote toy_crypto
        (some (vote_in 0))
        (empty 0)
      ≡ ok (t, added, err))
    × Kept toy_crypto (empty 0) t
add_vote_correct_example =
    add_vote_correct toy_crypto (empty 0) (Reach-Inv toy_crypto (empty-Reach 0)) (some (vote_in 0))
      (Encodes-any (vote_in 0) Encodes-vote_0)

majority_power_example :
    2 * power_total (voted_in 0).val_set.validators
    < 3
      * power_sum
          (voted_in 0).val_set.validators
          (supporters toy_crypto (key toy_crypto (block 0)) (voted_in 0).votes)
majority_power_example = majority_power toy_crypto (block 0) voted_0-Reach majority_0

majorities_overlap_example :
    power_total (voted_in 0).val_set.validators
    < 3
      * power_both
          (voted_in 0).val_set.validators
          (supporters toy_crypto (key toy_crypto (block 0)) (voted_in 0).votes)
          (supporters toy_crypto (key toy_crypto (block 1)) (voted_in 1).votes)
majorities_overlap_example =
    majorities_overlap toy_crypto (block 0) (block 1) voted_0-Reach voted_1-Reach same_vals
      majority_0 majority_1

sums_right_example :
    ((voted_in 0).sum ≡ power_sum (voted_in 0).val_set.validators (voted_in 0).votes)
    × ((voted_in 0).sum ≤ power_total (voted_in 0).val_set.validators)
    × ((voted_in 0).votes_bit_array ≡ map is_some (voted_in 0).votes)
sums_right_example = sums_right toy_crypto voted_0-Reach

majority-any_example : has_two_thirds_any (voted_in 0) ≡ true
majority-any_example = majority-any toy_crypto voted_0-Reach has_majority_0

vote_by_index-bit_array_example :
    (o : Option Vote) × (bits : List Bool) × (vote_by_index (pos 0) (some (empty 0)) ≡ ok o)
    × (bit_array (some (empty 0)) ≡ some bits)
    × (get_elem? bits 0 ≡ some (is_some o))
vote_by_index-bit_array_example =
    vote_by_index-bit_array toy_crypto (empty 0) 0 (empty-Reach 0) (omega arith)
