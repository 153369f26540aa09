-- ===== src/Db.antt =====
-- db/db.go: the database over a table in memory, a log and tables in files. A call holds the lock
-- throughout, so it is one step. File calls succeed, no crash is simulated within a call, and the
-- counters and times of flushes and compactions are left out.
pub mod Files
pub mod Engine
pub mod Calls
pub mod Lookups
pub mod Kept
pub mod Maintained
pub mod Flushed
pub mod Written
pub mod Batches
pub mod Replaced
pub mod Opening
pub mod Numbers
pub mod Replayed
pub mod Recovery
