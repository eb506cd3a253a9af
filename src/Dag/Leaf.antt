-- ===== src/Dag/Leaf.antt =====
-- dag/leaves.go: building a leaf and a root leaf, and verifying them.
use scionic_merkle_tree_go.Common.{
  ℕ, ◌+◌, Bool, not, ◌||◌, Option, some, none, List, [], ◌∷◌, ◌++◌, Bytes, length, get_or,
  get_elem?, ltb, ◌==◌, if◌then◌else◌, bytes_eq, Result, ok, err, ◌>>=◌, ◌>>◌, guard, GoMap,
  sort_strings, has_string,
}
use scionic_merkle_tree_go.Merkle.Defs.{MerkleError, verify}
use scionic_merkle_tree_go.Merkle.Tree.{MerkleTree, get_index_for_key}
use scionic_merkle_tree_go.Tree.{build, add_links, create_leaf, create_tree}
use scionic_merkle_tree_go.Dag.Types.{
  LeafType, directory_leaf_type, ClassicTreeBranch, DagLeaf, DagStats, is_negative, to_ℕ,
  DagLeafBuilder, LeafData, RootData, leaf_without_type, negative_statistics, leaf_failed_to_verify,
  content_without_hash, content_hash_mismatch, merkle_tree_not_built, no_index_for_hash,
  missing_children, merkle_root_mismatch, merkle_error, Checked, Codec,
}
use scionic_merkle_tree_go.Dag.Sorting.{or_empty, sort_map_by_keys, sort_map_for_verification}

unfoldable pub create_dag_leaf_builder : Bytes → DagLeafBuilder
create_dag_leaf_builder name = record {
  item_name = name;
  leaf_type = [];
  leaf_bytes = none;
  links = [];
}

unfoldable pub set_type : LeafType → DagLeafBuilder → DagLeafBuilder
set_type t b = record {
  item_name = b.item_name;
  leaf_type = t;
  leaf_bytes = b.leaf_bytes;
  links = b.links;
}

unfoldable pub set_bytes : Option Bytes → DagLeafBuilder → DagLeafBuilder
set_bytes bytes b = record {
  item_name = b.item_name;
  leaf_type = b.leaf_type;
  leaf_bytes = bytes;
  links = b.links;
}

unfoldable pub add_link : Bytes → DagLeafBuilder → DagLeafBuilder
add_link link b = record {
  item_name = b.item_name;
  leaf_type = b.leaf_type;
  leaf_bytes = b.leaf_bytes;
  links = b.links ++ link ∷ [];
}

abbrev pub from_merkle {ℓ} : {A : Type ℓ} → Result MerkleError A → Checked A
from_merkle (ok a) = ok a
from_merkle (err e) = err (merkle_error e)

-- The Merkle root over a leaf's links, and the tree where there are several: none gives empty
-- bytes, one gives its own text.
unfoldable pub merkle_root_of : (Bytes → Bytes) → List Bytes → Checked (Bytes × Option MerkleTree)
unfolding build add_links
merkle_root_of sha256 [] = ok ([], none)
merkle_root_of sha256 (link ∷ []) = ok (link, none)
merkle_root_of sha256 (link ∷ next ∷ links) = do
  tree ← from_merkle (build sha256 (add_links create_tree (link ∷ next ∷ links)))
  ok (tree.root, some tree)

-- `cbor.Marshal` and then `pref.Sum`.
unfoldable pub sum_leaf : Codec → LeafData → Checked Bytes
sum_leaf codec leaf_struct = codec.marshal_leaf leaf_struct >>= codec.cid_sum

unfoldable pub sum_root : Codec → RootData → Checked Bytes
sum_root codec root_struct = codec.marshal_root root_struct >>= codec.cid_sum

-- Only the links of a directory are sorted: the chunks of a file keep their order.
unfoldable pub stored_links : LeafType → List Bytes → List Bytes
unfolding sort_strings
stored_links t links = if bytes_eq t directory_leaf_type then sort_strings links else links

-- `leafData` of `VerifyLeaf`, and what `VerifyRootLeaf` shares with it
unfoldable pub leaf_data_of : DagLeaf → LeafData
unfolding sort_map_for_verification sort_map_by_keys
leaf_data_of leaf = record {
  item_name = leaf.item_name;
  leaf_type = leaf.leaf_type;
  merkle_root = some (or_empty leaf.classic_merkle_root);
  current_link_count = leaf.current_link_count;
  content_hash = leaf.content_hash;
  additional_data = sort_map_for_verification (some (sort_map_by_keys leaf.additional_data));
}

module _ (codec : Codec) where
  -- `hash := sha256.Sum256(b.Data)` where the data is not nil
  abbrev pub hash_of_bytes : Option Bytes → Option Bytes
  hash_of_bytes none = none
  hash_of_bytes (some bytes) = some (codec.sha256 bytes)

  -- `leafData` of `BuildLeaf`
  unfoldable pub leaf_data : DagLeafBuilder → Bytes → Option (GoMap Bytes) → LeafData
  unfolding sort_map_for_verification
  leaf_data b merkle_root more = record {
    item_name = b.item_name;
    leaf_type = b.leaf_type;
    merkle_root = some merkle_root;
    current_link_count = length b.links;
    content_hash = hash_of_bytes b.leaf_bytes;
    additional_data = sort_map_for_verification more;
  }

  -- The leaf that `BuildLeaf` returns.
  unfoldable pub leaf_of :
      DagLeafBuilder → Option (GoMap Bytes) → Bytes × Option MerkleTree → Bytes → DagLeaf
  unfolding leaf_data sort_map_by_keys stored_links
  leaf_of b additional_data (merkle_root, tree) c = record {
    hash = codec.cid_string c;
    item_name = b.item_name;
    leaf_type = b.leaf_type;
    content_hash = hash_of_bytes b.leaf_bytes;
    content = b.leaf_bytes;
    classic_merkle_root = some merkle_root;
    current_link_count = length b.links;
    leaf_count = 0;
    content_size = 0;
    dag_size = 0;
    links = stored_links b.leaf_type b.links;
    parent_hash = [];
    additional_data = some (sort_map_by_keys additional_data);
    merkle_tree = tree;
    proofs = [];
  }

  -- `BuildLeaf`
  unfoldable pub build_leaf : DagLeafBuilder → Option (GoMap Bytes) → Checked DagLeaf
  unfolding merkle_root_of leaf_data sum_leaf leaf_of
  build_leaf b additional_data = do
    guard (not (bytes_eq b.leaf_type [])) leaf_without_type
    rooted ← merkle_root_of codec.sha256 b.links
    c ← sum_leaf codec (leaf_data b rooted.0 (some (sort_map_by_keys additional_data)))
    ok (leaf_of b additional_data rooted c)

  -- `if b.Data != nil { contentSize += int64(len(b.Data)) }`
  abbrev pub add_length : ℕ → Option Bytes → ℕ
  add_length n none = n
  add_length n (some bytes) = n + length bytes

  -- `contentSize` of `BuildRootLeafWithStats`
  abbrev pub root_content_size : DagLeafBuilder → DagStats → ℕ
  root_content_size b stats = add_length (to_ℕ stats.content_size) b.leaf_bytes

  -- `tempLeafData` and `leafData` of `BuildRootLeafWithStats`
  unfoldable pub root_data : DagLeafBuilder → DagStats → Bytes → ℕ → Option (GoMap Bytes) → RootData
  unfolding leaf_data
  root_data b stats merkle_root dag_size more = record {
    base = leaf_data b merkle_root more;
    leaf_count = to_ℕ stats.leaf_count + 1;
    content_size = root_content_size b stats;
    dag_size = dag_size;
  }

  -- The leaf that `BuildRootLeafWithStats` returns.
  unfoldable pub root_leaf_of :
      DagLeafBuilder
      → DagStats
      → Option (GoMap Bytes)
      → Bytes × Option MerkleTree
      → ℕ
      → Bytes
      → DagLeaf
  unfolding root_data sort_map_by_keys stored_links
  root_leaf_of b stats additional_data (merkle_root, tree) final_dag_size c = record {
    hash = codec.cid_string c;
    item_name = b.item_name;
    leaf_type = b.leaf_type;
    content_hash = hash_of_bytes b.leaf_bytes;
    content = b.leaf_bytes;
    classic_merkle_root = some merkle_root;
    current_link_count = length b.links;
    leaf_count = to_ℕ stats.leaf_count + 1;
    content_size = root_content_size b stats;
    dag_size = final_dag_size;
    links = stored_links b.leaf_type b.links;
    parent_hash = [];
    additional_data = some (sort_map_by_keys additional_data);
    merkle_tree = tree;
    proofs = [];
  }

  abbrev pub has_negative : DagStats → Bool
  has_negative stats =
      is_negative stats.leaf_count || is_negative stats.content_size || is_negative stats.dag_size

  -- `BuildRootLeafWithStats`
  unfoldable pub build_root_leaf_with_stats :
      DagLeafBuilder → DagStats → Option (GoMap Bytes) → Checked DagLeaf
  unfolding merkle_root_of root_data sum_root root_leaf_of
  build_root_leaf_with_stats b stats additional_data = do
    guard (not (bytes_eq b.leaf_type [])) leaf_without_type
    guard (not (has_negative stats)) negative_statistics
    rooted ← merkle_root_of codec.sha256 b.links
    temp_serialized ← codec.marshal_root (root_data b stats rooted.0 0 additional_data)
    let final_dag_size = to_ℕ stats.dag_size + length temp_serialized
    let sorted = some (sort_map_by_keys additional_data)
    c ← sum_root codec (root_data b stats rooted.0 final_dag_size sorted)
    ok (root_leaf_of b stats additional_data rooted final_dag_size c)

  -- `VerifyBranch`, for a branch that is not nil
  unfoldable pub verify_branch : DagLeaf → ClassicTreeBranch → Checked (Unit {0})
  unfolding verify
  verify_branch leaf branch = from_merkle (
      verify codec.sha256 (some (create_leaf branch.leaf)) branch.proof
        (or_empty leaf.classic_merkle_root) none)

  -- The root of the tree over all the links against the leaf's.
  unfoldable pub verify_rebuilt_root : DagLeaf → Checked (Unit {0})
  unfolding build add_links
  verify_rebuilt_root leaf = do
    tree ← from_merkle (build codec.sha256 (add_links create_tree leaf.links))
    guard (bytes_eq tree.root (or_empty leaf.classic_merkle_root)) merkle_root_mismatch

  -- `VerifyChildrenAgainstMerkleRoot`
  unfoldable pub verify_children_against_merkle_root : DagLeaf → Checked (Unit {0})
  unfolding verify_rebuilt_root
  verify_children_against_merkle_root leaf =
      if leaf.current_link_count == 0
      then ok tt
      else if not (length leaf.links == leaf.current_link_count)
      then err missing_children
      else if leaf.current_link_count == 1
      then guard (bytes_eq (or_empty leaf.classic_merkle_root) (get_or leaf.links 0 []))
          merkle_root_mismatch
      else verify_rebuilt_root leaf

  -- The content against the content hash, the last check of `VerifyLeaf` and `VerifyRootLeaf`.
  unfoldable pub verify_content : Option Bytes → Option Bytes → Checked (Unit {0})
  verify_content none content_hash = ok tt
  verify_content (some content) none = err content_without_hash
  verify_content (some content) (some content_hash) =
      guard (bytes_eq (codec.sha256 content) content_hash) content_hash_mismatch

  -- `VerifyLeaf`
  unfoldable pub verify_leaf : DagLeaf → Checked (Unit {0})
  unfolding leaf_data_of sum_leaf verify_content
  verify_leaf leaf = do
    c ← sum_leaf codec (leaf_data_of leaf)
    current_cid ← codec.cid_decode leaf.hash
    guard (bytes_eq c current_cid) leaf_failed_to_verify
    verify_content leaf.content leaf.content_hash

-- `GetIndexForKey`
unfoldable pub leaf_index_for_key : DagLeaf → Bytes → Option ℕ
unfolding get_index_for_key
leaf_index_for_key leaf key = elim leaf.merkle_tree [
  | none ↦ none
  | some tree ↦ get_index_for_key tree key
]

-- `GetBranch`; an index past the proofs, on which Go panics, gives a branch without a proof.
unfoldable pub get_branch : DagLeaf → Bytes → Checked (Option ClassicTreeBranch)
unfolding get_index_for_key
get_branch leaf key =
    if ltb 1 (length leaf.links)
    then elim leaf.merkle_tree [
      | none ↦ err merkle_tree_not_built
      | some tree ↦ elim (get_index_for_key tree key) [
        | none ↦ err no_index_for_hash
        | some i ↦ ok (some (record { leaf = key; proof = get_elem? tree.proofs i }))
      ]
    ]
    else ok none

-- `HasLink`
unfoldable pub has_link : DagLeaf → Bytes → Bool
unfolding has_string
has_link leaf link = has_string link leaf.links
