-- ===== src/Merkle.antt =====
-- crypto/merkle: the Merkle tree over a list of byte slices, and inclusion proofs.
--
-- The hash function of crypto/tmhash is SHA-256 of Go's standard library: a parameter `sum`, whose
-- hashes have 32 bytes. A nil slice is the empty one, but for the results and the leaf hash of which
-- the source tests whether they are nil: these are options. The recursion on halves of a list takes
-- fuel, for which the length of the list is enough.
pub mod Split
pub mod Tree
pub mod Proof
pub mod Climb
pub mod Sound
pub mod Trails
pub mod Complete
pub mod Iterative
pub mod Padding
mod Tests
