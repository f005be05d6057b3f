-- ===== src/Snapshots.antt =====
-- src/utils/snapshots.ts: the snapshots of a document in a shared map, with the local state of
-- the module that writes and reads them.
-- Meta: the metadata records and their two validators. Index: the list of snapshots.
-- Retain: the bound on their number. Save, Load: the operations.
-- Strict, Ids, Cap, Prune, Orphans, Listed, Cached, Readable and Written are about them.
pub mod Meta
pub mod Index
pub mod Retain
pub mod Save
pub mod Load
pub mod Strict
pub mod Orphans
pub mod Prune
pub mod Listed
pub mod Cached
pub mod Readable
pub mod Written
pub mod Ids
pub mod Cap
mod Tests
