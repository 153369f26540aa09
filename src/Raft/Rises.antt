-- ===== src/Raft/Rises.antt =====
-- internal/raft/node.go: how the term, the vote and the commit index of a node change.
pub mod Relation
pub mod Elections
pub mod Handlers
pub mod Calls
pub mod Steps
