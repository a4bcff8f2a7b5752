-- ===== src/Consensus.antt =====
-- consensus/state.go and consensus/types/round_state.go: the state machine of a height.
--
-- Blocks, validators with their priorities, the state of the chain and the signer are types of an
-- interface, whose operations stand for the block executor, the block codec, the proposer rotation,
-- the key and the configuration. What the source hands to a queue or a store is a list of the state.
-- Each handler reads the time once. Durations, the events for subscribers, metrics and the log are
-- not modelled.
pub mod State
pub mod Sign
pub mod Enter
pub mod Commit
pub mod Handle
pub mod Events
pub mod Rules
pub mod Refine
pub mod Invariants
pub mod Returns
pub mod Example
mod Tests
