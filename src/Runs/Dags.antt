-- ===== src/Runs/Dags.antt =====
-- dag/dag.go, dag/sortedmap.go and diff/diff.go at DAGs of one file and its root.
use scionic_merkle_tree_go.Common.{
  ◌+◌, ◌≡◌, ◌≢◌, refl, Bool, true, false, ◌&&◌, some, none, List, [], ◌∷◌, ◌++◌, Bytes, bytes_eq,
  bytes_lt, ok, err, GoMap, lookup, sort_strings, arith, has_string,
}
use scionic_merkle_tree_go.Dag.Leaf.{verify_leaf}
use scionic_merkle_tree_go.Dag.Prune.{
  is_relevant, prune_irrelevant_links, prune_irrelevant_links-verify_leaf,
}
use scionic_merkle_tree_go.Dag.Types.{
  file_leaf_type, directory_leaf_type, DagLeaf, Dag, DagBuilder, DagLeafBuilder, Checked,
}
use scionic_merkle_tree_go.Runs.Trees.{checksum}
use scionic_merkle_tree_go.Runs.Leaves.{sample, leaf_in, built_leaf}
use scionic_merkle_tree_go.Dag.Leaf.{build_leaf}
use scionic_merkle_tree_go.Dag.Builder.{
  not_held, create_dag_builder, add_leaf, build_root_leaf, build_dag, put_root,
}
use scionic_merkle_tree_go.Dag.Root.{verify_root_leaf}
use scionic_merkle_tree_go.Dag.Stats.{IsExact, add_leaf-IsExact, create_dag_builder-IsExact}
use scionic_merkle_tree_go.Dag.RootVerified.{build_root_leaf-verify_root_leaf}
use scionic_merkle_tree_go.Dag.Iterate.{out_of_fuel, iterate_dag, verify_full_dag}
use scionic_merkle_tree_go.Dag.Iterate.Sound.{
  root_reachable, link_reachable, IsVerified, verify_full_dag-IsVerified,
}
use scionic_merkle_tree_go.Dag.Iterate.Enough.{iterate_dag-fuelled}
use scionic_merkle_tree_go.Dag.Parents.{minimum_parent_index}
use scionic_merkle_tree_go.Dag.Lowest.{
  is_parent, minimum_parent_index-lowest, minimum_parent_index-order,
}
use scionic_merkle_tree_go.Dag.Cbor.{append_cbor_text_string}
use scionic_merkle_tree_go.Dag.CborHead.{read_text, read_text-append_cbor_text_string}
use scionic_merkle_tree_go.Diff.{DagDiff, diff}
use scionic_merkle_tree_go.Diff.Exact.{IsCounted, expected, diff-expected}

abbrev file_builder : DagLeafBuilder
file_builder = record {
  item_name = 4 ∷ [];
  leaf_type = file_leaf_type;
  leaf_bytes = some (7 ∷ 7 ∷ 7 ∷ []);
  links = [];
}

file : DagLeaf
unfolding build_leaf checksum
file = leaf_in (build_leaf sample file_builder none)

abbrev builder_in : Checked DagBuilder → DagBuilder
builder_in (ok b) = b
builder_in (err e) = create_dag_builder

with_file : DagBuilder
unfolding file build_leaf checksum add_leaf
with_file = builder_in (add_leaf sample create_dag_builder (some file) (not_held none)).1

add_leaf-IsExact_example : IsExact sample with_file
unfolding with_file file build_leaf checksum add_leaf bytes_lt bytes_eq sort_strings
add_leaf-IsExact_example =
    add_leaf-IsExact sample create_dag_builder (some file) none with_file
      (create_dag_builder-IsExact sample) refl

with_file-IsExact : IsExact sample with_file
unfolding with_file file build_leaf checksum add_leaf bytes_lt bytes_eq sort_strings
with_file-IsExact =
    add_leaf-IsExact sample create_dag_builder (some file) none with_file
      (create_dag_builder-IsExact sample) refl

root_builder : DagLeafBuilder
unfolding file build_leaf checksum
root_builder = record {
  item_name = 3 ∷ [];
  leaf_type = directory_leaf_type;
  leaf_bytes = none;
  links = file.hash ∷ [];
}

root_leaf : DagLeaf
unfolding root_builder with_file file build_leaf checksum add_leaf build_root_leaf
root_leaf = leaf_in (build_root_leaf sample root_builder (some with_file) none)

small_dag : Dag
unfolding root_leaf put_root
small_dag = build_dag (put_root with_file root_leaf) root_leaf.hash

build_root_leaf-verify_root_leaf_example :
    verify_root_leaf sample root_leaf
      (some (build_dag (put_root with_file root_leaf) root_leaf.hash))
    ≡ (root_leaf, ok tt)
unfolding root_leaf root_builder with_file file build_leaf checksum add_leaf build_root_leaf
    bytes_lt bytes_eq sort_strings lookup
build_root_leaf-verify_root_leaf_example =
    build_root_leaf-verify_root_leaf sample root_builder with_file none root_leaf (λ c. refl)
      (λ d x e. (x, e, refl)) with_file-IsExact refl refl

verify_full_dag_example :
    (leaf : DagLeaf) × (lookup file.hash small_dag.leafs ≡ some leaf)
    × IsVerified sample small_dag leaf
unfolding small_dag put_root root_leaf root_builder with_file file build_leaf checksum add_leaf
    build_root_leaf bytes_lt bytes_eq sort_strings lookup verify_full_dag has_string
verify_full_dag_example =
    verify_full_dag-IsVerified sample (λ links. links) small_dag file.hash (λ links l h. h) refl
      (link_reachable root_leaf file.hash root_reachable refl refl)

-- A leaf that links itself.
abbrev loop_dag : Dag
loop_dag = record { root = 1 ∷ []; leafs = (1 ∷ [], built_leaf) ∷ []; labels = none }

iterate_dag-fuelled_example :
    iterate_dag (λ links. links) loop_dag (λ leaf parent s. ok (s + 1)) 0 ≢ err out_of_fuel
iterate_dag-fuelled_example =
    iterate_dag-fuelled (λ links. links) loop_dag (λ leaf parent s. ok (s + 1)) 0 (λ links l h. h)
      (λ leaf parent s e. absurd (cc e))

abbrev two_parents : GoMap (List Bytes)
two_parents = (3 ∷ [], (8 ∷ []) ∷ []) ∷ (2 ∷ [], (8 ∷ []) ∷ (9 ∷ []) ∷ []) ∷ []

abbrev parents_again : GoMap (List Bytes)
parents_again = (2 ∷ [], (8 ∷ []) ∷ (9 ∷ []) ∷ []) ∷ (3 ∷ [], (8 ∷ []) ∷ []) ∷ []

minimum_parent_index-lowest_example :
    (is_parent (2 ∷ []) (8 ∷ []) two_parents ≡ true)
    × ((q : Bytes) → is_parent q (8 ∷ []) two_parents ≡ true → bytes_lt q (2 ∷ []) ≡ false)
unfolding minimum_parent_index lookup bytes_lt bytes_eq
minimum_parent_index-lowest_example = minimum_parent_index-lowest two_parents (8 ∷ []) (2 ∷ []) refl

minimum_parent_index-order_example :
    lookup (8 ∷ []) (minimum_parent_index two_parents)
    ≡ lookup (8 ∷ []) (minimum_parent_index parents_again)
unfolding is_parent
minimum_parent_index-order_example =
    minimum_parent_index-order two_parents parents_again same (8 ∷ [])
  where
    same : (q child : Bytes) → is_parent q child two_parents ≡ is_parent q child parents_again
    same q child = ground arith

read_text_example :
    (encoded : Bytes) × (append_cbor_text_string (1 ∷ []) (b'h' ∷ b'i' ∷ []) ≡ 1 ∷ [] ++ encoded)
    × (read_text (encoded ++ 2 ∷ []) ≡ some (b'h' ∷ b'i' ∷ [], 2 ∷ []))
read_text_example =
    read_text-append_cbor_text_string (1 ∷ []) (b'h' ∷ b'i' ∷ []) (2 ∷ []) (omega arith)

abbrev old_dag : Dag
old_dag = record {
  root = 1 ∷ [];
  leafs = (1 ∷ [], built_leaf) ∷ (2 ∷ [], built_leaf) ∷ [];
  labels = none;
}

abbrev new_dag : Dag
new_dag = record {
  root = 3 ∷ [];
  leafs = (3 ∷ [], built_leaf) ∷ (2 ∷ [], built_leaf) ∷ [];
  labels = none;
}

diff-expected_example :
    (d : DagDiff) × (diff (some old_dag) (some new_dag) ≡ ok d)
    × ((k : Bytes)
        → lookup k d.diffs ≡ expected k (lookup k old_dag.leafs) (lookup k new_dag.leafs))
    × IsCounted d
unfolding has_string bytes_eq
diff-expected_example = diff-expected old_dag new_dag (refl, (refl, tt)) (refl, (refl, tt))

abbrev relevant_hashes : GoMap Bool
relevant_hashes = (5 ∷ [], true) ∷ (6 ∷ [], false) ∷ []

prune_irrelevant_links_example :
    (pruned : DagLeaf) × (lookup (2 ∷ []) (prune_irrelevant_links relevant_hashes old_dag.leafs)
      ≡ some pruned)
    × (verify_leaf sample pruned ≡ verify_leaf sample built_leaf)
    × ((l : Bytes)
        → has_string l pruned.links
          ≡ (has_string l built_leaf.links && is_relevant relevant_hashes l))
unfolding lookup bytes_eq
prune_irrelevant_links_example =
    prune_irrelevant_links-verify_leaf sample relevant_hashes old_dag.leafs (2 ∷ []) built_leaf refl
