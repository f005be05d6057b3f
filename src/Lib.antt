-- ===== src/Lib.antt =====
-- The collaboration plugin keeps a page document (PageIR) in a shared Yjs document. A local
-- save goes through the debounced adapter to the snapshot module, which classifies it
-- (src/utils/native-tree.ts), stores a keyframe or a delta (src/utils/payload-chain.ts) and
-- mirrors it into the native tree; a remote change reaches the editor through the inbound
-- scheduler and is dispatched under the remote dispatch guard.
--
-- The files, and the code that each models:
-- - Base and its children: shared names, Boolean tests, lists, keys, and the containers Map
--   (Dict) and Set (IdSet) of the language.
-- - Ir: PageIR and PageIRNode of @anvilkit/core as the sources read them, JSON values, and
--   the traversals: walkNodes of src/utils/native-tree.ts (with its stack loop) and the
--   recursive visit of src/utils/payload-chain.ts. Access reads the fields of untrusted JSON
--   values.
-- - NativeTree/Diff: diffIRNodesForLocalSave of src/utils/native-tree.ts, in the order of its
--   two loops; the hash function and the cached hashes are arguments. Laws has its result by
--   id, Listed compares that with the plain difference of the documents.
-- - NativeTree/Reconcile: reconcileKeyedArray of src/utils/native-tree.ts on the list of a
--   Y.Array; Mirror relates the array to the mirror, Remote has the ids of other peers, Alone
--   (with Lists and Placing) the case without other peers.
-- - NativeTree/Store and Write: the maps of the native tree, and applyIRToNativeTree and
--   applyChangedNodesToNativeTree on them. Lookup, Skip, Merge and Full say what the loops
--   leave under an id or a prop name, Incremental relates the two writes, Deleted has a node
--   that a peer deleted.
-- - NativeTree/Read: readNativeTree, readSubtree and readNodeShallow with their guard;
--   Decoded has checkDecodedProp. Notes, Guarded and Bounds say what a read of any tree
--   returns.
-- - NativeTree/Events: deriveChangedNodeIds over the keys and paths of events; Described says
--   what a batch is classified as.
-- - NativeTree/RoundTrip: the specification of the tree, which forgets the order of props:
--   what a tree holds of a document, and which documents count as the same. Saved is about
--   writes, Props, Entered and Loaded about reads, and Sessions has the histories of saves of
--   one peer.
-- - PayloadChain: src/utils/payload-chain.ts over decoded records; Records has decodePayload
--   and its checks on parsed JSON. Total has termination, Chain what a walk along base
--   pointers returns, Rebuild and Replay what a delta gives on its base, Empty the case of an
--   empty children array.
-- - LiveIr: the cache of src/utils/live-ir.ts and its writes. Lockstep relates its two maps,
--   Local the incremental write of a save to the whole one, Hashes its hashes to the
--   contents; Materialize has materialize, with its fuel (Fuel) and its use on a cache that
--   holds a document (Linked); Dangling has a run with a child id whose node is missing.
-- - Snapshots: src/utils/snapshots.ts over a map of parsed texts. Meta and Index read the
--   metadata (Strict), Retain has the cap (Ids, Cap, Prune, Orphans), Save and Load the
--   operations (Listed, Cached, Readable, Written). A record that a save writes is decoded at
--   once: one that decodePayload refuses counts as absent, as it does for every reader.
-- - Guard: src/utils/remote-guard.ts. Depth has its invariant, Echo the reports of suppressed
--   echoes.
-- - InboundScheduler: src/utils/inbound-scheduler.ts. Burst has what a burst leaves in the
--   buffer, Wakeup the frames, Count the counters, Relink the use of a merged scope in
--   dispatchRemoteIR of src/plugin.ts.
-- - DebouncedAdapter: src/utils/debounced-adapter.ts. Promises follows the promises of save,
--   Latest what is written.
-- - Presence: src/utils/presence-schema.ts on JSON values. Doubles has the order of numbers,
--   Fields and Safe what a validated record satisfies.
-- - AwarenessBridge: the peer cache of onPeerChange in src/utils/awareness-bridge.ts, against
--   a validation of every peer (Cache).
-- - Conflicts: src/utils/conflicts.ts. Detect has computeConflict and Resolve
--   buildResolvedIR; Overlap and Leaves say what is reported, Drafts and Overrides what a
--   resolution writes, Window when a report is made.
-- - Metrics: the counters and windows of src/utils/metrics.ts; Windows says what the churn
--   window counts.
-- - ConnectionStatus: src/utils/connection-status.ts. Listeners follows the calls of
--   listeners and the attachment of the source.
-- - OfflineQueue: src/persistence/offline-queue.ts. Bounds has the bound of the buffer,
--   Lossless that no update is lost in it.
--
-- State of a closure is a record, a method is a function to the next record, and a history is
-- a list of calls and events. A reading of a clock is an argument. A thrown error is a value
-- of a result type. A number in a document is the bit pattern of its double, and equality of
-- JSON texts is equality of values; a document holds the values that a JSON text keeps, so no
-- undefined prop, -0, NaN or infinity. A callback of the host that may call back (flush of
-- the inbound scheduler) is an argument that says which updates it enqueues; a callback that
-- throws or destroys the scheduler is not modelled, nor a status listener that calls back.
--
-- Fuel: `build` has one round for each stored node and one more, `reconstruct` one for each
-- record and one more; both pass down the path that they have come, on which no id stands
-- twice, so the fuel is never used up, which PayloadChain/Total proves. The recursion of
-- readNode goes down the levels that maxDepth leaves, so it needs no fuel; checkDecodedProp
-- has one round for each value inside the value, which NativeTree/Read/Decoded/Bounds shows
-- to be enough; materialize has one round for each cached node and one more, and
-- LiveIr/Materialize/Fuel shows that more change nothing.
--
-- Not modelled: Yjs, the browser's storage, timers and websocket, and the parts of src that
-- the file list above does not name, among them the pattern of colours and the Studio plugin.
pub mod AwarenessBridge
pub mod Base
pub mod Conflicts
pub mod ConnectionStatus
pub mod DebouncedAdapter
pub mod Guard
pub mod InboundScheduler
pub mod Ir
pub mod LiveIr
pub mod Metrics
pub mod NativeTree
pub mod OfflineQueue
pub mod PayloadChain
pub mod Presence
pub mod Snapshots
