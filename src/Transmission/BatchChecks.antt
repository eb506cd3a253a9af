-- ===== src/Transmission/BatchChecks.antt =====
-- dag/transmission.go: the verification and the application of batches.
use scionic_merkle_tree_go.Common.{
  Bool, true, false, not, Option, some, none, List, [], ◌∷◌, Bytes, length, ltb, ◌==◌,
  if◌then◌else◌, bytes_eq, Result, ok, err, ◌>>=◌, GoMap, lookup, insert, is_some, has_string,
}
use scionic_merkle_tree_go.Dag.Types.{ClassicTreeBranch, DagLeaf, Dag, Codec}
use scionic_merkle_tree_go.Dag.Clone.{copy_map}
use scionic_merkle_tree_go.Dag.Leaf.{has_link, verify_leaf, verify_children_against_merkle_root}
use scionic_merkle_tree_go.Dag.Root.{verify_root_leaf}
use scionic_merkle_tree_go.Dag.Builder.{with_link}
use scionic_merkle_tree_go.Dag.GetPartial.{with_proofs}
use scionic_merkle_tree_go.Serialize.{dag_over}
use scionic_merkle_tree_go.Transmission.{
  PacketError, missing_proof, missing_relationship, parent_not_found, from_leaf, verify_stored,
  with_leafs,
}
use scionic_merkle_tree_go.Transmission.Batches.{BatchedTransmissionPacket, with_leaves}

-- `batchLeaves[leaf.Hash] = leaf` for each leaf
unfoldable pub batch_leaves : List DagLeaf → GoMap DagLeaf → GoMap DagLeaf
unfolding insert
batch_leaves [] held = held
batch_leaves (leaf ∷ leaves) held = batch_leaves leaves (insert leaf.hash leaf held)

-- The parent, and whether it is from the batch.
abbrev pub parent_from : Option DagLeaf → Option DagLeaf → Result PacketError (DagLeaf × Bool)
parent_from (some batch_parent) dag_parent = ok (batch_parent, true)
parent_from none (some dag_parent) = ok (dag_parent, false)
parent_from none none = err parent_not_found

module _ (codec : Codec) where
  -- `parentLeaf.VerifyBranch(proof)`; without a proof, a parent from the batch is let through.
  unfoldable pub verify_proof_in_batch :
      DagLeaf → Bool → Option (Option ClassicTreeBranch) → Result PacketError (Unit {0})
  unfolding verify_stored
  verify_proof_in_batch parent_leaf from_batch none =
      if from_batch then ok tt else err missing_proof
  verify_proof_in_batch parent_leaf from_batch (some proof) =
      verify_stored codec parent_leaf (some proof)

  -- The check of a child against its parent: the verified parents, with this one where its children
  -- have been checked.
  unfoldable pub verify_child :
      Bytes → Bytes → DagLeaf × Bool → List Bytes → Result PacketError (List Bytes)
  unfolding verify_proof_in_batch verify_children_against_merkle_root has_string lookup
  verify_child child_hash parent_hash (parent_leaf, from_batch) verified_parents =
      if not (ltb 1 (length parent_leaf.links))
      then ok verified_parents
      else if length parent_leaf.proofs == 0
      then (if has_string parent_hash verified_parents then ok verified_parents else (do
        checked ← from_leaf (verify_children_against_merkle_root codec parent_leaf)
        ok (parent_hash ∷ verified_parents)))
      else (do
        checked ←
            verify_proof_in_batch parent_leaf from_batch (lookup child_hash parent_leaf.proofs)
        ok verified_parents)

  -- A leaf that is not the root.
  unfoldable pub verify_batched_child :
      GoMap DagLeaf
      → GoMap DagLeaf
      → DagLeaf
      → Bytes
      → List Bytes
      → Result PacketError (DagLeaf × List Bytes)
  unfolding verify_leaf verify_child lookup
  verify_batched_child leafs batch child_leaf parent_hash verified_parents = do
    checked ← from_leaf (verify_leaf codec child_leaf)
    parent ← parent_from (lookup parent_hash batch) (lookup parent_hash leafs)
    verified ← verify_child child_leaf.hash parent_hash parent verified_parents
    ok (child_leaf, verified)

  -- The root leaf, in a DAG of its own, as it is left.
  unfoldable pub verify_batched_root :
      DagLeaf → List Bytes → Result PacketError (DagLeaf × List Bytes)
  unfolding verify_root_leaf
  verify_batched_root child_leaf verified_parents =
      let (leaf, verdict) =
        verify_root_leaf codec child_leaf
          (some (dag_over child_leaf.hash ((child_leaf.hash, child_leaf) ∷ []))) in
      do checked ← from_leaf verdict; ok (leaf, verified_parents)

  -- The body of the loop over the leaves.
  unfoldable pub verify_batched_leaf :
      GoMap DagLeaf
      → GoMap DagLeaf
      → DagLeaf
      → Option Bytes
      → List Bytes
      → Result PacketError (DagLeaf × List Bytes)
  unfolding verify_batched_root verify_batched_child
  verify_batched_leaf leafs batch child_leaf none verified_parents = err missing_relationship
  verify_batched_leaf leafs batch child_leaf (some parent_hash) verified_parents =
      if bytes_eq parent_hash []
      then verify_batched_root child_leaf verified_parents
      else verify_batched_child leafs batch child_leaf parent_hash verified_parents

  -- `for _, childLeaf := range packet.Leaves`: the leaves as they are left. A root leaf is left with
  -- an empty Merkle root for a nil one, which no check of its children tells apart: the batch's map of
  -- leaves keeps the leaf as it was.
  unfoldable pub verify_batched_leaves :
      GoMap DagLeaf
      → GoMap DagLeaf
      → GoMap Bytes
      → List DagLeaf
      → List Bytes
      → Result PacketError (List DagLeaf)
  unfolding verify_batched_leaf lookup
  verify_batched_leaves leafs batch relationships [] verified_parents = ok []
  verify_batched_leaves leafs batch relationships (child_leaf ∷ leaves) verified_parents = do
    next ←
        verify_batched_leaf leafs batch child_leaf (lookup child_leaf.hash relationships)
          verified_parents
    rest ← verify_batched_leaves leafs batch relationships leaves next.1
    ok (next.0 ∷ rest)

  -- `VerifyBatchedTransmissionPacket`: the packet as it is left where it is accepted.
  unfoldable pub verify_batched_transmission_packet :
      Dag → BatchedTransmissionPacket → Result PacketError BatchedTransmissionPacket
  unfolding verify_batched_leaves batch_leaves
  verify_batched_transmission_packet d packet = do
    leaves ←
        verify_batched_leaves d.leafs (batch_leaves packet.leaves []) packet.relationships
          packet.leaves []
    ok (with_leaves packet leaves)

-- `for _, v := range leaf.Links`
unfoldable pub merge_links : List Bytes → DagLeaf → DagLeaf
unfolding has_link with_link
merge_links [] existing = existing
merge_links (link ∷ links) existing =
    merge_links links (if has_link existing link then existing else with_link existing link)

abbrev pub take_tree : DagLeaf → DagLeaf → DagLeaf
take_tree leaf existing =
    if is_some leaf.merkle_tree
    then record existing {
      merkle_tree = leaf.merkle_tree;
      classic_merkle_root = leaf.classic_merkle_root;
    }
    else existing

-- The existing leaf, with the links, the proofs and the tree of the new one.
unfoldable pub merge_leaf : DagLeaf → DagLeaf → DagLeaf
unfolding merge_links copy_map with_proofs
merge_leaf leaf existing =
    let linked = merge_links leaf.links existing in
    take_tree leaf (with_proofs linked (copy_map (λ v. v) leaf.proofs linked.proofs))

unfoldable pub apply_leaf : DagLeaf → Option DagLeaf → GoMap DagLeaf → GoMap DagLeaf
unfolding merge_leaf insert
apply_leaf leaf none leafs = insert leaf.hash leaf leafs
apply_leaf leaf (some existing) leafs = insert leaf.hash (merge_leaf leaf existing) leafs

-- The link that a declared parent gets, where it is in the DAG.
unfoldable pub link_declared : Bytes → Bytes → Option DagLeaf → GoMap DagLeaf → GoMap DagLeaf
unfolding has_link with_link insert
link_declared hash parent_hash none leafs = leafs
link_declared hash parent_hash (some parent) leafs =
    if has_link parent hash then leafs else insert parent_hash (with_link parent hash) leafs

unfoldable pub update_parent : Bytes → Option Bytes → GoMap DagLeaf → GoMap DagLeaf
unfolding link_declared lookup
update_parent hash none leafs = leafs
update_parent hash (some parent_hash) leafs =
    if bytes_eq parent_hash []
    then leafs
    else link_declared hash parent_hash (lookup parent_hash leafs) leafs

unfoldable pub apply_leaves : GoMap Bytes → List DagLeaf → GoMap DagLeaf → GoMap DagLeaf
unfolding apply_leaf update_parent lookup
apply_leaves relationships [] leafs = leafs
apply_leaves relationships (leaf ∷ leaves) leafs = apply_leaves relationships leaves (
    update_parent leaf.hash (lookup leaf.hash relationships)
      (apply_leaf leaf (lookup leaf.hash leafs) leafs))

-- `ApplyBatchedTransmissionPacket`
unfoldable pub apply_batched_transmission_packet : Dag → BatchedTransmissionPacket → Dag
unfolding apply_leaves
apply_batched_transmission_packet d packet =
    with_leafs d (apply_leaves packet.relationships packet.leaves d.leafs)

-- `ApplyAndVerifyBatchedTransmissionPacket`
unfoldable pub apply_and_verify_batched_transmission_packet :
    Codec → Dag → BatchedTransmissionPacket → Result PacketError Dag
unfolding verify_batched_transmission_packet apply_batched_transmission_packet
apply_and_verify_batched_transmission_packet codec d packet = do
  verified ← verify_batched_transmission_packet codec d packet
  ok (apply_batched_transmission_packet d verified)

abbrev pub is_root_relation : Option Bytes → Bool
is_root_relation none = false
is_root_relation (some parent_hash) = bytes_eq parent_hash []

unfoldable pub find_root : GoMap Bytes → List DagLeaf → Option DagLeaf
unfolding lookup
find_root relationships [] = none
find_root relationships (leaf ∷ leaves) =
    let rest = find_root relationships leaves in
    if is_root_relation (lookup leaf.hash relationships) then some leaf else rest

abbrev pub or_first : Option DagLeaf → List DagLeaf → Option DagLeaf
or_first (some leaf) leaves = some leaf
or_first none [] = none
or_first none (leaf ∷ leaves) = some leaf

-- `GetRootLeaf`
unfoldable pub get_root_leaf : BatchedTransmissionPacket → Option DagLeaf
unfolding find_root
get_root_leaf packet = or_first (find_root packet.relationships packet.leaves) packet.leaves
