-- ===== src/Merkle.antt =====
-- merkletree/merkletree.go: the classic Merkle tree, its proofs and their verification.
pub mod Defs
pub mod Update
pub mod Total
pub mod Binding
pub mod Verified
pub mod Correct
pub mod Tree
pub mod Stage
pub mod Walk
pub mod Buffer
