-- ===== src/Dag/Root.antt =====
-- dag/leaves.go: `VerifyRootLeaf`.
use scionic_merkle_tree_go.Common.{
  ℕ, ◌+◌, Bool, true, false, not, ◌&&◌, ◌||◌, Option, some, none, [], ◌∷◌, Bytes, length, ltb, ◌==◌,
  if◌then◌else◌, bytes_eq, ok, ◌>>=◌, ◌>>◌, guard, GoMap,
}
use scionic_merkle_tree_go.Dag.Types.{
  DagLeaf, Dag, RootData, leaf_failed_to_verify, content_size_mismatch, dag_size_mismatch, Checked,
  Codec,
}
use scionic_merkle_tree_go.Dag.Sorting.{or_empty}
use scionic_merkle_tree_go.Dag.Leaf.{leaf_data_of, sum_root, verify_content}
use scionic_merkle_tree_go.Dag.Size.{serialized_leaf_size, calculate_total_content_size}

-- `leaf.ClassicMerkleRoot = []byte{}` where it is nil or empty.
unfoldable pub with_root_bytes : DagLeaf → DagLeaf
with_root_bytes leaf = record {
  hash = leaf.hash;
  item_name = leaf.item_name;
  leaf_type = leaf.leaf_type;
  content_hash = leaf.content_hash;
  content = leaf.content;
  classic_merkle_root = some (or_empty leaf.classic_merkle_root);
  current_link_count = leaf.current_link_count;
  leaf_count = leaf.leaf_count;
  content_size = leaf.content_size;
  dag_size = leaf.dag_size;
  links = leaf.links;
  parent_hash = leaf.parent_hash;
  additional_data = leaf.additional_data;
  merkle_tree = leaf.merkle_tree;
  proofs = leaf.proofs;
}

unfoldable pub any_leaf : (DagLeaf → Bool) → GoMap DagLeaf → Bool
any_leaf p [] = false
any_leaf p ((k, leaf) ∷ leafs) = if p leaf then true else any_leaf p leafs

abbrev pub is_pruned : DagLeaf → Bool
is_pruned leaf = ltb (length leaf.links) leaf.current_link_count

-- A content hash of positive length and no content.
abbrev pub lacks_content : DagLeaf → Bool
lacks_content leaf = elim leaf.content [
  | some _ ↦ false
  | none ↦ elim leaf.content_hash [ none ↦ false | some h ↦ ltb 0 (length h) ]
]

-- `isFullDag && !hasContentMissing`
unfoldable pub can_check_sizes : DagLeaf → GoMap DagLeaf → Bool
unfolding any_leaf
can_check_sizes leaf leafs =
    (length leafs == leaf.leaf_count)
    && (not (leaf.content_size == 0) || not (leaf.dag_size == 0) || (leaf.leaf_count == 1))
    && not (any_leaf is_pruned leafs)
    && not (any_leaf lacks_content leafs)

unfoldable pub root_data_of : DagLeaf → ℕ → RootData
unfolding leaf_data_of
root_data_of leaf dag_size = record {
  base = leaf_data_of leaf;
  leaf_count = leaf.leaf_count;
  content_size = leaf.content_size;
  dag_size = dag_size;
}

module _ (codec : Codec) where
  -- `childrenDagSize`: the leaves whose hash is not the root's.
  unfoldable pub children_dag_size : Bytes → GoMap DagLeaf → Checked ℕ
  unfolding serialized_leaf_size
  children_dag_size root_hash [] = ok 0
  children_dag_size root_hash ((k, leaf) ∷ leafs) =
      let rest = children_dag_size root_hash leafs in
      if bytes_eq leaf.hash root_hash
      then rest
      else serialized_leaf_size codec (some leaf) >>= λ size. rest >>= λ more. ok (size + more)

  unfoldable pub verify_sizes : DagLeaf → GoMap DagLeaf → Checked (Unit {0})
  unfolding children_dag_size root_data_of calculate_total_content_size
  verify_sizes leaf leafs = do
    children ← children_dag_size leaf.hash leafs
    temp_serialized ← codec.marshal_root (root_data_of leaf 0)
    guard (leaf.content_size == calculate_total_content_size leafs) content_size_mismatch
    guard (leaf.dag_size == children + length temp_serialized) dag_size_mismatch

  unfoldable pub verify_sizes_if_full : DagLeaf → Option Dag → Checked (Unit {0})
  unfolding verify_sizes can_check_sizes
  verify_sizes_if_full leaf none = ok tt
  verify_sizes_if_full leaf (some dag) =
      if can_check_sizes leaf dag.leafs then verify_sizes leaf dag.leafs else ok tt

  -- `VerifyRootLeaf`: the leaf as it is left, and the verdict.
  unfoldable pub verify_root_leaf : DagLeaf → Option Dag → DagLeaf × Checked (Unit {0})
  unfolding with_root_bytes verify_sizes_if_full root_data_of sum_root verify_content
  verify_root_leaf leaf dag =
      let l = with_root_bytes leaf in
      (
        l,
        verify_sizes_if_full l dag >> (do
          c ← sum_root codec (root_data_of l l.dag_size)
          current_cid ← codec.cid_decode l.hash
          guard (bytes_eq c current_cid) leaf_failed_to_verify
          verify_content codec l.content l.content_hash),
      )
