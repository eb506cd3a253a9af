-- ===== src/Lib.antt =====
-- Scionic Merkle Tree: content-addressed directed acyclic graphs of leaves, in which every leaf
-- that has children holds the root of a classic Merkle tree over their hashes. This library models
-- the parts that compute, and proves what makes them correct.
--
-- The parts, and the files that model them. Paths are from the repository's root.
--   merkletree/merkletree.go: Merkle/Defs (hashes, generateProofs, Verify) and Merkle/Tree (New,
--     buildTree, Proof, GetIndexForKey). A data block is the result of its Serialize. Update,
--     Buffer, Walk, Stage, Correct and Verified follow one level of the tree after another; Total
--     is about when New succeeds and Binding about what a root fixes.
--   tree/tree.go: Tree (AddLeaf, Build, VerifyTree, VerifyRoot), which is how the leaves use the
--     Merkle tree. Tree/Sets, Tree/Links and Tree/Index are about the keys that the map of links
--     leaves.
--   dag/fastcdc.go, dag/fastcdc_gear.go: FastCdc/Gear (the table), FastCdc/Defs (fastCDCBoundary,
--     CutChunks and the process-wide mode of dag/types.go), FastCdc/Reader (streamFastCDCChunks
--     over any reader and callback). Boundary, Cut, Filled and Stream hold the proofs.
--   dag/types.go, dag/utils.go: Dag/Types, Dag/Sorting, Dag/Size.
--   dag/leaves.go: Dag/Leaf (builders, VerifyLeaf, VerifyChildrenAgainstMerkleRoot, GetBranch,
--     VerifyBranch), Dag/Root (VerifyRootLeaf), Dag/Clone (Clone, EstimateSize) and Clone/Same.
--     Verified, Children, Branch, RootBuilt and RootVerified put building and verifying together.
--   dag/dag.go: Dag/Builder (addLeafUnsafe, BuildRootLeaf, BuildDag), Dag/Stats, Dag/Parents
--     (minimumParentIndex, buildParentIndex), Dag/LeastParent, Dag/Lowest, Dag/Iterate (IterateDag,
--     IsPartial, verifyFullDag) with Iterate/Visited, Iterate/Sound and Iterate/Enough, Dag/Prune
--     (pruneIrrelevantLinks), Dag/Labels (CalculateLabels, ClearLabels, GetHashesByLabelRange,
--     GetLabel) with Labels/Met, Labels/Labelled and Labels/Ranges, on Iterate/Alike, which puts two walks side
--     by side. Common/Decimal is strconv.
--   dag/dag.go, partial DAGs: Dag/Partial (verifyWithProofs, Verify) with Partial/Sound,
--     Partial/Ends and Partial/Cycle; Dag/GetPartial (buildVerificationBranch, addBranchToPartial,
--     completeParentProofs, GetPartial), whose children Steps, Proved, Kept, Sound and Complete
--     follow the stored proofs.
--   dag/transmission.go: Dag/Proofs (proofForChild), Transmission (GetLeafSequence,
--     getPartialLeafSequence, VerifyTransmissionPacket, ApplyTransmissionPacket), with Sent, Copies
--     and Received for the sender and the receiver of a full DAG, Ordered for the order of packets
--     and Accepted for what a packet is accepted by. Batches: Transmission/Batches
--     (GetBatchedLeafSequence, finalizeBatch) with Bare, Sizes, Alike and Batched; BatchChecks
--     (VerifyBatchedTransmissionPacket, ApplyBatchedTransmissionPacket, GetRootLeaf) with
--     BatchAccepted and Unlinked.
--   dag/serialize.go: Serialize (ToSerializable and FromSerializable, in the three passes of the
--     code) with RoundTrip, Kept and Passes; Serialize/Wire (the appendCBOR methods, ToCBOR,
--     AppendCBOR) and Serialize/Batches.
--   dag/sortedmap.go: Dag/Cbor (heads, text strings, values, structs), Dag/SortedMap (maps with
--     their keys in order) and Dag/CborHead.
--   diff/diff.go: Diff (Diff, GetAddedLeaves, GetRemovedLeaves), Diff/Recorded and Diff/Exact.
--   Runs holds the theorems at concrete inputs, Common what all parts share.
--
-- How the code is read. Bytes and strings are lists of numbers. A Go map is the list of its entries
-- in the order of one iteration, with distinct keys; a nil slice or map is an option where the code
-- tells it from an empty one. Errors are values. The hash in FastCdc wraps at 2 ^ 64 and a proof's
-- path at 2 ^ 32, as in the code; an int that counts or measures is a natural number, since it is a
-- length or a sum of lengths that the memory holds. That holds of a leaf's CurrentLinkCount too, a
-- signed int that a peer sets: the models are of leaves in which it is not negative. A record is a
-- value: what a theorem says of memory that two Go values share is said where it matters. A node
-- that the Merkle tree reads outside its buffer is an error value, where the code panics; the
-- warnings of getPartialLeafSequence that slice twelve bytes of a hash are checked in
-- print_warnings, where a panic is none, and those of finalizeBatch are left out: a parent of several
-- children is taken to have a hash of at least twelve bytes there. The builder's parent may be a leaf
-- that the builder holds (ParentLeaf in Dag/Builder).
--
-- Code of other packages is a parameter: SHA-256, the CBOR encoder at the three structs that are
-- hashed or measured, the CID's sum, text and decoding (the record Codec of Dag/Types),
-- cbor.Marshal of the values that Serialize/Wire leaves to it, and the order that sort.Slice gives
-- to a leaf's links in IterateDag. What a theorem needs of it is a hypothesis of the theorem.
--
-- Fuel. CutChunks and the stream get one step for each byte, and a pass always takes a byte;
-- IterateDag gets one call more than there are leaves, and each call that is open has visited
-- another leaf. Both are proved to be enough. The traversals of the transmission, for packets and
-- for batches, get a round for each leaf, which is proved to empty their queue. The climbs from a
-- leaf to the root in verifyWithProofs and buildVerificationBranch have no bound in the code: their
-- fuel is an argument, and the first is proved to end where the links have no cycle. The depth loop
-- of the Merkle tree runs for the bits of a machine word.
--
-- Not modelled: worker pools of the Merkle tree, which divide the same loops; the creation of a DAG
-- from a file system, sequential and parallel; the decoders of CBOR and JSON, which are of other
-- packages; the content of a file put together from its chunks; ApplyToDAG and the other operations
-- of diff that build a DAG from a difference; the store; tools and tests.
pub mod Common
pub mod FastCdc
pub mod Merkle
pub mod Tree
pub mod Dag
pub mod Diff
pub mod Transmission
pub mod Serialize
pub mod Runs
