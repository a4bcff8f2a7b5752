-- ===== src/Consensus/Refine.antt =====
-- That the code moves by the rules only, function by function.
pub mod Sign
pub mod Propose
pub mod Enter
pub mod Precommit
pub mod Commit
pub mod Prevote
pub mod Votes
pub mod Events
