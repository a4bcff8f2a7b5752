-- ===== src/VoteSet/Defs.antt =====
-- The data and the methods.
pub mod Data
pub mod Methods
unfoldable pub use Data.*
unfoldable pub use Methods.*
