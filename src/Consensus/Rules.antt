-- ===== src/Consensus/Rules.antt =====
-- The rules of the consensus algorithm: what a node may do with its round, its lock, its valid
-- block, its votes and the chain.
use tendermintx.Common.{
  subst, Bytes, ◌≢◌, ℤ, pos, negsuc, ◌+ℤ◌, ◌<ℤ◌, ◌<◌, true, Option, none, some, List, [], ◌∷◌, ◌++◌,
  ◌≡◌, ◌⊎◌, ok,
}
use tendermintx.Types.BlockId.{BlockId}
use tendermintx.Types.Vote.{Vote, SignedMsgType, prevote, precommit}
use tendermintx.VoteSet.Defs.{VoteSet}
use tendermintx.HeightVoteSet.Defs.{HeightVoteSet, get_vote_set, reset}
use tendermintx.HeightVoteSet.Stays.{Polka, Grows}
use tendermintx.PartSet.{PartSet}
use tendermintx.Consensus.State.{
  Env, State, Message, proposal_message, block_part_message, vote_message, RoundStep, new_height,
  prevoted, precommitted, step_number, majority,
}

-- The part of the state that the rules are about; `sent` are the node's own votes.
pub record Core (Block Chain : Type 0) : Type 0 where
  pub height : ℤ
  pub round : ℤ
  pub step : RoundStep
  pub locked_round : ℤ
  pub locked_block : Option Block
  pub valid_round : ℤ
  pub valid_block : Option Block
  pub votes : HeightVoteSet
  pub chain : Chain
  pub saved : List (Block × Option PartSet × Option VoteSet)
  pub sent : List Vote

unfoldable pub votes_of : List Message → List Vote
votes_of [] = []
votes_of (vote_message v ∷ queue) = v ∷ votes_of queue
votes_of (proposal_message p ∷ queue) = votes_of queue
votes_of (block_part_message h r part ∷ queue) = votes_of queue

module _ {Block Chain Vals Signer : Type 0} (env : Env Block Chain Vals Signer) where
  abbrev pub C : Type 0
  C = Core Block Chain

  abbrev pub core : State Block Chain Vals Signer → C
  core s = record {
    height = s.height;
    round = s.round;
    step = s.step;
    locked_round = s.locked_round;
    locked_block = s.locked_block;
    valid_round = s.valid_round;
    valid_block = s.valid_block;
    votes = s.votes;
    chain = s.chain;
    saved = s.saved;
    sent = votes_of s.queue;
  }

  -- A later round, or a later step of the round.
  abbrev pub Later : ℤ → RoundStep → ℤ → RoundStep → Type 0
  Later r st r' st' = (r <ℤ r') ⊎ ((r ≡ r') × (step_number st < step_number st'))

  -- A valid block for which a round's precommits have a majority.
  pub record Certified (c : C) (b : Block) (v : Option VoteSet) : Type 0 where
    pub at_round : ℤ
    pub id : BlockId
    pub votes_there : get_vote_set at_round precommit c.votes ≡ ok v
    pub decided : majority v ≡ some id
    pub same_hash : env.block_hash b ≡ id.hash
    pub is_valid : env.validate_block c.chain b ≡ true

  -- A block that a node may prevote: the locked one, and without a lock a valid one, or nil.
  abbrev pub MayPrevote : Option Block → Chain → Bytes → Type 0
  MayPrevote (some b) chain hash = hash ≡ env.block_hash b
  MayPrevote none chain hash =
      (hash ≡ []) ⊎ ((b : Block) × (env.validate_block chain b ≡ true) × (hash ≡ env.block_hash b))

  -- The block is that of the identifier, which is not nil.
  abbrev pub IsOf : BlockId → Block → Type 0
  IsOf id b = (env.block_hash b ≡ id.hash) × (id.hash ≢ [])

  -- What a node may do with its lock when it precommits for a round, and the hash that it
  -- precommits: without a majority of prevotes in the round, nothing and nil; with one, the lock is
  -- on its block, or there is none and the precommit is nil.
  pub data Choice (c : C) (r : ℤ) : ℤ → Option Block → Bytes → Type 0 where
    no_majority :
        ((id : BlockId) → ¬ (Polka r id c.votes)) → Choice c r c.locked_round c.locked_block []
    unlocked :
        (id : BlockId)
        → Polka r id c.votes
        → id.hash ≡ []
        → c.locked_block ≡ none
        → Choice c r c.locked_round c.locked_block []
    release :
        (id : BlockId)
        → Polka r id c.votes
        → ((b : Block) → c.locked_block ≡ some b → ¬ (IsOf id b))
        → Choice c r (negsuc 0) none []
    relock :
        (id : BlockId) (b : Block)
        → Polka r id c.votes
        → c.locked_block ≡ some b
        → IsOf id b
        → Choice c r r c.locked_block id.hash
    lock :
        (id : BlockId) (b : Block)
        → Polka r id c.votes
        → IsOf id b
        → env.validate_block c.chain b ≡ true
        → Choice c r r (some b) id.hash

  -- A step has one vote at most: the node's votes before and after it.
  pub data Casts (kind : SignedMsgType) (h r : ℤ) (Fits : Bytes → Type 0) (before : List Vote)
      : List Vote → Type 0 where
    abstain : Casts kind h r Fits before before
    cast :
        (v : Vote)
        → v.kind ≡ kind
        → v.height ≡ h
        → v.round ≡ r
        → Fits v.block_id.hash
        → Casts kind h r Fits before (before ++ v ∷ [])

  pub data Move : C → C → Type 0 where
    advance :
        (c : C) (r : ℤ) (st : RoundStep)
        → Later c.round c.step r st
        → st ≢ prevoted
        → st ≢ precommitted
        → Move c (record c { round = r; step = st })
    enter_prevote :
        (c : C) (r : ℤ) (sent : List Vote)
        → Later c.round c.step r prevoted
        → Casts prevote c.height c.round (MayPrevote c.locked_block c.chain) c.sent sent
        → Move c (record c { round = r; step = prevoted; sent = sent })
    enter_precommit :
        (c : C) (r locked_round : ℤ) (locked_block : Option Block) (hash : Bytes) (sent : List Vote)
        → Later c.round c.step r precommitted
        → Choice c r locked_round locked_block hash
        → Casts precommit c.height c.round (λ voted. voted ≡ hash) c.sent sent
        → Move c (record c {
          round = r;
          step = precommitted;
          locked_round = locked_round;
          locked_block = locked_block;
          sent = sent;
        })
    unlock :
        (c : C) (r : ℤ) (id : BlockId) (b : Block)
        → Polka r id c.votes
        → c.locked_block ≡ some b
        → ¬ (IsOf id b)
        → c.locked_round <ℤ r
        → ¬ (c.round <ℤ r)
        → Move c (record c { locked_round = negsuc 0; locked_block = none })
    revalue :
        (c : C) (id : BlockId) (b : Block)
        → Polka c.round id c.votes
        → env.block_hash b ≡ id.hash
        → c.valid_round <ℤ c.round
        → Move c (record c { valid_round = c.round; valid_block = some b })
    count :
        (c : C) (votes : HeightVoteSet) → Grows c.votes votes → Move c (record c { votes = votes })
    save :
        (c : C) (b : Block) (parts : Option PartSet) (v : Option VoteSet)
        → Certified c b v
        → Move c (record c { saved = c.saved ++ (b, parts, v) ∷ [] })
    next_height :
        (c : C) (b : Block) (v : Option VoteSet) (id : BlockId) (chain : Chain)
        (votes : HeightVoteSet)
        → Certified c b v
        → env.apply_block c.chain id b ≡ some chain
        → (env.is_empty c.chain ≡ true) ⊎ (c.height <ℤ env.last_block_height chain +ℤ pos 1)
        → reset
            (env.chain_id chain)
            (env.last_block_height chain +ℤ pos 1)
            (env.members (env.next_validators chain))
          ≡ ok votes
        → Move c (record c {
          height = env.last_block_height chain +ℤ pos 1;
          round = pos 0;
          step = new_height;
          locked_round = negsuc 0;
          locked_block = none;
          valid_round = negsuc 0;
          valid_block = none;
          votes = votes;
          chain = chain;
        })

  pub data Moves : C → C → Type 0 where
    done : (c : C) → Moves c c
    then_by : {c d e : C} → Moves c d → Move d e → Moves c e

  pub Moves-trans : {c d e : C} → Moves c d → Moves d e → Moves c e
  Moves-trans p (done _) = p
  Moves-trans p (then_by q m) = then_by (Moves-trans p q) m

  pub one : {c d : C} → Move c d → Moves c d
  one m = then_by (done _) m

  -- The rules lead from the core of a state to that of another.
  pub record Follows (s t : State Block Chain Vals Signer) : Type 0 where
    pub moves : Moves (core s) (core t)

  pub Follows-trans :
      {s t u : State Block Chain Vals Signer} → Follows s t → Follows t u → Follows s u
  Follows-trans p q = record { moves = Moves-trans p.moves q.moves }

  pub Follows-same : {s t : State Block Chain Vals Signer} → core s ≡ core t → Follows s t
  Follows-same {s} {t} e = record { moves = subst (Moves (core s)) e (done (core s)) }
