-- ===== src/FastSync.antt =====
-- blockchain/v2/processor.go: the processor of fast sync, which verifies, saves and applies the
-- blocks that peers sent, in the order of their heights.
--
-- The queue is an association list, and ranging over it is a filter. Parameters: the types of
-- blocks, commits and states, and `Context`, the Go interface `processorContext` with what the
-- processor reads of a block and a state. The calls of `saveBlock` are kept as a list, the latest
-- first.
pub mod Processor
pub mod Synced
pub mod Run
mod Tests
