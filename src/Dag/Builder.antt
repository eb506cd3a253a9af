-- ===== src/Dag/Builder.antt =====
-- dag/dag.go: the builder's `addLeafUnsafe`, `Stats` and `BuildDag`, and the leaf's `BuildRootLeaf`.
use scionic_merkle_tree_go.Common.{
  ℕ, Option, some, none, [], ◌∷◌, ◌++◌, Bytes, length, ltb, if◌then◌else◌, ok, err, ◌>>=◌, GoMap,
  lookup, insert, pos,
}
use scionic_merkle_tree_go.Dag.Types.{
  DagLeaf, Dag, DagStats, add_ℕ, DagBuilder, DagLeafBuilder, nil_leaf, nil_builder, Checked, Codec,
}
use scionic_merkle_tree_go.Merkle.Tree.{MerkleTree}
use scionic_merkle_tree_go.Tree.{build, add_links, create_tree}
use scionic_merkle_tree_go.Dag.Leaf.{has_link, build_root_leaf_with_stats}
use scionic_merkle_tree_go.Dag.Size.{serialized_leaf_size, content_length}

-- The parent of a leaf that is added, a pointer that may be nil: to a leaf that the builder does not
-- hold, or to the one that it holds under a hash and that changes there with it.
pub data ParentLeaf : Type 0 where
  not_held : Option DagLeaf → ParentLeaf
  held_under : Bytes → ParentLeaf

-- `CreateDagBuilder`
abbrev pub create_dag_builder : DagBuilder
create_dag_builder = record {
  leafs = [];
  stats = record { leaf_count = pos 0; content_size = pos 0; dag_size = pos 0 };
}

unfoldable pub with_link : DagLeaf → Bytes → DagLeaf
with_link leaf link = record {
  hash = leaf.hash;
  item_name = leaf.item_name;
  leaf_type = leaf.leaf_type;
  content_hash = leaf.content_hash;
  content = leaf.content;
  classic_merkle_root = leaf.classic_merkle_root;
  current_link_count = leaf.current_link_count;
  leaf_count = leaf.leaf_count;
  content_size = leaf.content_size;
  dag_size = leaf.dag_size;
  links = leaf.links ++ link ∷ [];
  parent_hash = leaf.parent_hash;
  additional_data = leaf.additional_data;
  merkle_tree = leaf.merkle_tree;
  proofs = leaf.proofs;
}

unfoldable pub with_tree : DagLeaf → MerkleTree → DagLeaf
with_tree leaf tree = record {
  hash = leaf.hash;
  item_name = leaf.item_name;
  leaf_type = leaf.leaf_type;
  content_hash = leaf.content_hash;
  content = leaf.content;
  classic_merkle_root = some tree.root;
  current_link_count = leaf.current_link_count;
  leaf_count = leaf.leaf_count;
  content_size = leaf.content_size;
  dag_size = leaf.dag_size;
  links = leaf.links;
  parent_hash = leaf.parent_hash;
  additional_data = leaf.additional_data;
  merkle_tree = some tree;
  proofs = leaf.proofs;
}

module _ (codec : Codec) where
  -- `if len(parentLeaf.Links) > 1`; a tree that cannot be built leaves the parent as it is.
  unfoldable pub rebuild : DagLeaf → DagLeaf
  unfolding with_tree build add_links
  rebuild parent =
      if ltb 1 (length parent.links)
      then elim (build codec.sha256 (add_links create_tree parent.links)) [
        | ok tree ↦ with_tree parent tree
        | err _ ↦ parent
      ]
      else parent

  -- `if parentLeaf != nil`
  unfoldable link_parent : DagLeaf → Option DagLeaf → Option DagLeaf
  unfolding has_link with_link rebuild
  link_parent leaf none = none
  link_parent leaf (some parent) =
      some (rebuild (if has_link parent leaf.hash then parent else with_link parent leaf.hash))

  unfoldable pub counted : DagStats → DagLeaf → ℕ → DagStats
  unfolding add_ℕ
  counted stats leaf size = record {
    leaf_count = add_ℕ stats.leaf_count 1;
    content_size = add_ℕ stats.content_size (content_length leaf);
    dag_size = add_ℕ stats.dag_size size;
  }

  -- The second half of `addLeafUnsafe`, where the leaf's hash is looked up: a leaf that is there
  -- already is not counted again.
  unfoldable pub store_leaf : Option DagLeaf → DagBuilder → DagLeaf → Checked DagBuilder
  unfolding counted serialized_leaf_size insert
  store_leaf (some old) b leaf = ok b
  store_leaf none b leaf = do
    size ← serialized_leaf_size codec (some leaf)
    ok (record { leafs = insert leaf.hash leaf b.leafs; stats = counted b.stats leaf size })

  -- `*parentLeaf`
  unfoldable pub read_parent : DagBuilder → ParentLeaf → Option DagLeaf
  unfolding lookup
  read_parent b (not_held parent) = parent
  read_parent b (held_under k) = lookup k b.leafs

  -- The changes of the parent, as the builder sees them.
  unfoldable pub put_parent : DagBuilder → ParentLeaf → Option DagLeaf → DagBuilder
  unfolding insert
  put_parent b (not_held parent) changed = b
  put_parent b (held_under k) none = b
  put_parent b (held_under k) (some changed) = record {
    leafs = insert k changed b.leafs;
    stats = b.stats;
  }

  -- `addLeafUnsafe`, which `AddLeaf` and `AddLeafSafe` call: the parent as it is left, and the
  -- builder. An error leaves the builder as it was but for the parent, if it holds it.
  unfoldable pub add_leaf :
      DagBuilder → Option DagLeaf → ParentLeaf → Option DagLeaf × Checked DagBuilder
  unfolding read_parent link_parent put_parent store_leaf lookup
  add_leaf b none parent = (read_parent b parent, err nil_leaf)
  add_leaf b (some leaf) parent =
      let changed = link_parent leaf (read_parent b parent) in
      let linked = put_parent b parent changed in
      (changed, store_leaf (lookup leaf.hash linked.leafs) linked leaf)

  -- `BuildRootLeaf`
  unfoldable pub build_root_leaf :
      DagLeafBuilder → Option DagBuilder → Option (GoMap Bytes) → Checked DagLeaf
  unfolding build_root_leaf_with_stats
  build_root_leaf b none additional_data = err nil_builder
  build_root_leaf b (some dag) additional_data =
      build_root_leaf_with_stats codec b dag.stats additional_data

-- `BuildDag`
abbrev pub build_dag : DagBuilder → Bytes → Dag
build_dag b root = record { root = root; leafs = b.leafs; labels = none }

-- `dag.Leafs[rootLeaf.Hash] = rootLeaf`, with which the creation of a DAG ends.
unfoldable pub put_root : DagBuilder → DagLeaf → DagBuilder
unfolding insert
put_root b root = record { leafs = insert root.hash root b.leafs; stats = b.stats }
