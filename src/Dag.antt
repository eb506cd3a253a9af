-- ===== src/Dag.antt =====
-- dag/: leaves, the builder, the traversal, labels and parent index of a Scionic Merkle DAG.
pub mod Types
pub mod Sorting
pub mod Leaf
pub mod Size
pub mod Builder
pub mod Root
pub mod Verified
pub mod Stats
pub mod Cbor
pub mod CborHead
pub mod SortedMap
pub mod Parents
pub mod Prune
pub mod LeastParent
pub mod Lowest
pub mod Children
pub mod Unseen
pub mod Iterate
pub mod Labels
pub mod Branch
pub mod Proofs
pub mod Partial
pub mod GetPartial
pub mod Clone
pub mod RootBuilt
pub mod RootVerified
