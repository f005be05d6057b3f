-- ===== src/Ir.antt =====
-- The page document: `PageIR` and `PageIRNode` of @anvilkit/core as the sources read them, JSON
-- values, and the traversals that the sources repeat (walkNodes and collectIds of
-- utils/native-tree.ts, collectNodes of utils/conflicts.ts).
--
-- A JSON number is the 64-bit pattern of its double. The fields of a node other than its children
-- are its `Own` part; a node without a `children` key is a `leaf`, one with a `children` array,
-- empty or not, a `branch`.
mod Data
mod Walk
pub mod Access
pub mod Walks
unfoldable pub use Data.*
unfoldable pub use Walk.*
