-- ===== src/Raft/Emits.antt =====
-- internal/raft/node.go: what an update says of the durable state of the node.
pub mod Relation
pub mod Log
pub mod Handlers
