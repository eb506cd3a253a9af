-- ===== src/Dag/Size.antt =====
-- dag/utils.go: the sizes of leaves, and the totals of a DAG.
use scionic_merkle_tree_go.Common.{
  ℕ, ◌+◌, Option, some, none, [], ◌∷◌, Bytes, length, ltb, if◌then◌else◌, ok, err, ◌>>=◌, GoMap,
  sort_strings,
}
use scionic_merkle_tree_go.Dag.Types.{DagLeaf, SizedData, nil_leaf, Checked, Codec}
use scionic_merkle_tree_go.Dag.Sorting.{sort_map_by_keys}

-- `data` of `SerializedLeafSize`: the links are sorted, and a leaf without links has a nil slice.
unfoldable pub sized_data : DagLeaf → SizedData
unfolding sort_strings sort_map_by_keys
sized_data leaf = record {
  hash = leaf.hash;
  item_name = leaf.item_name;
  leaf_type = leaf.leaf_type;
  content_hash = leaf.content_hash;
  content = leaf.content;
  classic_merkle_root = leaf.classic_merkle_root;
  current_link_count = leaf.current_link_count;
  leaf_count = leaf.leaf_count;
  content_size = leaf.content_size;
  dag_size = leaf.dag_size;
  links = if ltb 0 (length leaf.links) then some (sort_strings leaf.links) else none;
  additional_data = sort_map_by_keys leaf.additional_data;
}

-- `SerializedLeafSize`
unfoldable pub serialized_leaf_size : Codec → Option DagLeaf → Checked ℕ
unfolding sized_data
serialized_leaf_size codec none = err nil_leaf
serialized_leaf_size codec (some leaf) = do
  serialized ← codec.marshal_sized (sized_data leaf)
  ok (length serialized)

abbrev pub length_or_zero : Option Bytes → ℕ
length_or_zero none = 0
length_or_zero (some content) = length content

-- `len(leaf.Content)`, where a nil slice has no bytes
abbrev pub content_length : DagLeaf → ℕ
content_length leaf = length_or_zero leaf.content

-- `CalculateTotalContentSize`
unfoldable pub calculate_total_content_size : GoMap DagLeaf → ℕ
calculate_total_content_size [] = 0
calculate_total_content_size ((k, leaf) ∷ leafs) =
    content_length leaf + calculate_total_content_size leafs

-- `CalculateTotalDagSize`
unfoldable pub calculate_total_dag_size : Codec → GoMap DagLeaf → Checked ℕ
unfolding serialized_leaf_size
calculate_total_dag_size codec [] = ok 0
calculate_total_dag_size codec ((k, leaf) ∷ leafs) = do
  size ← serialized_leaf_size codec (some leaf)
  rest ← calculate_total_dag_size codec leafs
  ok (size + rest)
