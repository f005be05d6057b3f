-- ===== src/NativeTree.antt =====
-- src/utils/native-tree.ts: the flat-addressed tree that a page document is mirrored into.
-- Diff: classification of a local save; Diff/Laws: what it classifies.
-- Reconcile: the change of a child list on a shared array; Reconcile/Mirror and
-- Reconcile/Remote: what it keeps.
pub mod Diff
pub mod Events
pub mod Read
pub mod Reconcile
pub mod RoundTrip
pub mod Store
pub mod Write
