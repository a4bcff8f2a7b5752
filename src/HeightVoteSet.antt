-- ===== src/HeightVoteSet.antt =====
-- consensus/types/height_vote_set.go: the vote sets of all rounds of one height.
--
-- The maps from rounds and from peers are association lists; a `*VoteSet` of the map is replaced
-- there when a method changes it. Rounds are integers, and the loop counter of `SetRound` wraps
-- as an int32. Printing and JSON are not modelled.
pub mod Defs
pub mod Good
pub mod Loop
pub mod Rounds
pub mod Stays
pub mod Pol
pub mod Add
pub mod Claim
mod Tests
