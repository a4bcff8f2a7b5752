-- ===== src/Types.antt =====
-- types/: the data that the consensus engine passes around.
pub mod BlockId
pub mod Vote
pub mod Valid
mod Tests
