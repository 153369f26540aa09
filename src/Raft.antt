-- ===== src/Raft.antt =====
-- internal/raft.
pub mod Types
pub mod Membership
pub mod Node
pub mod Changes
pub mod Replicate
pub mod Election
pub mod Append
pub mod Snapshots
pub mod Driver
pub mod Create
pub mod Propose
pub mod Frame
pub mod Emits
pub mod Rises
pub mod Chunks
pub mod Commits
