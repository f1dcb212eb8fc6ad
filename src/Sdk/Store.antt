-- ===== src/Sdk/Store.antt =====
-- sdk/src/storage.rs: the store of a client, one SQLite file.
pub mod Db
pub mod Outcomes
pub mod Rows
pub mod Info
pub mod Replaced
pub mod InfoLaws
pub mod Shares
pub mod Reads
pub mod Valid
pub mod Constraints
pub mod Cascade
pub mod History
pub mod Sweep
pub mod Fresh
pub mod Keeps
pub mod KeepsCalls
pub mod Hostnames
