-- ===== src/Lib.antt =====
-- TendermintX: parts of the consensus engine and of the mempool.
--
-- Types: types/block.go, types/part_set.go, types/vote.go, types/proposal.go, types/canonical.go.
--   Block identifiers, votes, proposals, their validation and the canonical messages that are
--   signed.
-- PrivVal: privval/file.go. The validator key that signs votes and proposals, with its state file,
--   failing calls and restarts.
-- Tree: libs/tree. Keys and their order, and the left-leaning red-black tree behind the mempool,
--   with insertion and the search for the next entry.
-- VoteSet: types/vote_set.go. The votes of one height, round and type, with conflicting votes and
--   the blocks that peers claim a majority for.
-- HeightVoteSet: consensus/types/height_vote_set.go. The vote sets of all rounds of a height, with
--   the rounds that peers may open ahead of time.
-- FastSync: blockchain/v2/processor.go. The queue of received blocks, which are verified, saved and
--   applied in order; the block store, the verification and the executor are a parameter.
-- Merkle: crypto/merkle/tree.go, hash.go, proof.go. The Merkle root of a list of items, and inclusion
--   proofs; the hash function is a parameter.
-- PartSet: types/part_set.go. The parts of a block, each with a Merkle proof.
-- Consensus: consensus/state.go. The state machine of a height: its handlers of messages and timeouts,
--   the rules that they follow, and what the rules keep. The block executor, the block codec, the
--   proposer rotation and the key are an interface.
--
-- The consensus engine asks the signer for votes, and collects the votes of all validators in a
-- vote set of the height's vote sets, which tell it when a block has more than two thirds of the
-- power. All use the block identifiers and the canonical messages of Types.
--
-- Common holds what the parts share. A definition is named after the Go function, method or type
-- that it translates, in snake case. An int64 or an int32 is an integer, an unsigned number or a
-- voting power a natural number. Three sums wrap as in the source: the counter of `SetRound`, the
-- next round after a precommit timeout, and the number of parts and the offsets of a split; where a
-- bound matters elsewhere it is proved or the file says who guarantees it. A map is an association
-- list, a pointer that may be nil an Option, an error a value, and a panic or a nil dereference the
-- outcome `panic`. Every definition is structurally recursive. Fuel occurs in Merkle, where the
-- length of the list, or the number whose digits are counted, is shown to be enough, and in the loop
-- of `SetRound`, where one more than the number of rounds is enough below the largest int32; a loop
-- out of fuel is `panic` too. A mutex makes each method atomic.
--
-- Parameters stand for code outside the repository's sources or generated code: the protobuf
-- encodings, signatures, the clock and the file system, and for the Go interface of the fast-sync
-- processor's context. Not modelled: gossip, timers, sockets,
-- databases and printing.
mod Common
pub mod Types
pub mod PrivVal
pub mod Tree
pub mod VoteSet
pub mod HeightVoteSet
pub mod FastSync
pub mod Merkle
pub mod PartSet
pub mod Consensus
