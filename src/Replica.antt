-- ===== src/Replica.antt =====
-- internal/replica: the parser of the replica command files.
pub mod Count
pub mod Json
pub mod Actions
pub mod Parser
mod Tests
