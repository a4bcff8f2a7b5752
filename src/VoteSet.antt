-- ===== src/VoteSet.antt =====
-- types/vote_set.go: the votes of one height, round and type.
--
-- `*bits.BitArray` is the list of its bits (its words in libs/bits are not modelled), a map is an
-- association list, and a nil pointer is `none`. Voting powers and their sums are native numbers:
-- the validator set bounds their total by MaxInt64 / 8, so that twice a total is an `int64`. The
-- mutex makes every method atomic. Parameters: the address of a public key, signature verification,
-- and the generated protobuf encodings.
pub mod Defs
pub mod Power
pub mod Covers
pub mod Invariant
pub mod Record
pub mod Block
pub mod Count
pub mod Add
pub mod Claim
pub mod Correct
pub mod Support
pub mod Majority
pub mod Stays
pub mod Read
mod Tests
