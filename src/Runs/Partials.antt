-- ===== src/Runs/Partials.antt =====
-- dag/dag.go: partial DAGs of a root over two files.
use scionic_merkle_tree_go.Common.{
  ℕ, ◌<◌, ◌≡◌, ◌≢◌, refl, sym, subst, Bool, true, false, some, none, [], ◌∷◌, Bytes, if◌then◌else◌,
  bytes_eq, bytes_lt, ok, err, lookup, insert, has_key, sort_strings, arith, inl, inr,
  eq_of_bytes_eq, has_string, Entries,
}
use scionic_merkle_tree_go.Dag.Types.{
  file_leaf_type, directory_leaf_type, ClassicTreeBranch, DagLeaf, Dag, DagBuilder, DagLeafBuilder,
  Checked,
}
use scionic_merkle_tree_go.Merkle.Defs.{concat_func, hash_of}
use scionic_merkle_tree_go.Merkle.Tree.{get_index_for_key}
use scionic_merkle_tree_go.Tree.{build, add_links, create_tree}
use scionic_merkle_tree_go.Runs.Trees.{checksum, tree_of}
use scionic_merkle_tree_go.Runs.Leaves.{sample, leaf_in, built_leaf}
use scionic_merkle_tree_go.Dag.Leaf.{has_link, build_leaf, verify_leaf, verify_branch}
use scionic_merkle_tree_go.Dag.Root.{verify_root_leaf}
use scionic_merkle_tree_go.Dag.Builder.{
  not_held, create_dag_builder, add_leaf, build_root_leaf, build_dag, put_root,
}
use scionic_merkle_tree_go.Dag.Proofs.{HasRoot, proof_for_child, proof_for_child-verify_branch}
use scionic_merkle_tree_go.Dag.Iterate.{is_partial}
use scionic_merkle_tree_go.Dag.Partial.{still_climbing, verify_with_proofs, verify_dag}
use scionic_merkle_tree_go.Dag.Partial.Sound.{Holds, Climbs, verify_with_proofs-Climbs}
use scionic_merkle_tree_go.Dag.Partial.Ends.{verify_with_proofs_ends}
use scionic_merkle_tree_go.Dag.Partial.Cycle.{looping, verify_dag-still_climbing}
use scionic_merkle_tree_go.Dag.GetPartial.{Found, get_partial}
use scionic_merkle_tree_go.Dag.GetPartial.Proved.{IsWhole}
use scionic_merkle_tree_go.Dag.GetPartial.Sound.{get_partial-verify_branch}
use scionic_merkle_tree_go.Dag.GetPartial.Complete.{get_partial-HasProof}

abbrev file_named : ℕ → DagLeafBuilder
file_named n = record {
  item_name = n ∷ [];
  leaf_type = file_leaf_type;
  leaf_bytes = some (7 ∷ n ∷ []);
  links = [];
}

abbrev builder_in : Checked DagBuilder → DagBuilder
builder_in (ok b) = b
builder_in (err e) = create_dag_builder

unfoldable pub first_file : DagLeaf
unfolding build_leaf checksum
first_file = leaf_in (build_leaf sample (file_named 4) none)

unfoldable pub second_file : DagLeaf
unfolding build_leaf checksum
second_file = leaf_in (build_leaf sample (file_named 5) none)

unfoldable with_files : DagBuilder
unfolding first_file second_file add_leaf checksum bytes_eq lookup insert
with_files =
    builder_in
      (add_leaf sample
        (builder_in (add_leaf sample create_dag_builder (some first_file) (not_held none)).1)
        (some second_file) (not_held none)).1

unfoldable folder_builder : DagLeafBuilder
unfolding first_file second_file
folder_builder = record {
  item_name = 3 ∷ [];
  leaf_type = directory_leaf_type;
  leaf_bytes = none;
  links = first_file.hash ∷ second_file.hash ∷ [];
}

unfoldable pub folder : DagLeaf
unfolding folder_builder with_files build_root_leaf checksum bytes_eq bytes_lt sort_strings lookup
folder = leaf_in (build_root_leaf sample folder_builder (some with_files) none)

unfoldable pub full_dag : Dag
unfolding with_files folder put_root
full_dag = build_dag (put_root with_files folder) folder.hash

partial_in : Found Dag → Dag
partial_in (ok d) = d
partial_in (err e) = full_dag

unfoldable pub partial : Dag
unfolding hash_of get_index_for_key partial_in get_partial full_dag first_file checksum bytes_eq
    bytes_lt sort_strings lookup has_string
partial = partial_in (get_partial sample 3 full_dag (first_file.hash ∷ []) true)

leaf_at : Bytes → Dag → DagLeaf
leaf_at k d = elim (lookup k d.leafs) [ none ↦ built_leaf | some leaf ↦ leaf ]

pub folder-HasRoot : HasRoot sample folder
unfolding partial
folder-HasRoot = record {
  tree = tree_of (build checksum (add_links create_tree folder.links));
  built = refl;
  root = refl;
}

pub full_dag-IsWhole : Entries (IsWhole sample) full_dag.leafs
unfolding full_dag partial
full_dag-IsWhole = (
  record {
    named = refl;
    all_links = refl;
    few = omega arith;
    own_root = λ h. absurd (omega arith);
    proved = tt;
  },
  (
    record {
      named = refl;
      all_links = refl;
      few = omega arith;
      own_root = λ h. absurd (omega arith);
      proved = tt;
    },
    (
      record {
        named = refl;
        all_links = refl;
        few = omega arith;
        own_root = λ h. folder-HasRoot;
        proved = tt;
      },
      tt,
    ),
  ),
)

stored_branch : ClassicTreeBranch
unfolding partial leaf_at
stored_branch = elim (lookup first_file.hash (leaf_at folder.hash partial).proofs) [
  | some (some branch) ↦ branch
  | _ ↦ record { leaf = []; proof = none }
]

get_partial-verify_branch_example :
    (stored_branch.leaf ≡ first_file.hash)
    × (verify_branch sample (leaf_at folder.hash partial) stored_branch ≡ ok tt)
    × (full : DagLeaf) × (lookup folder.hash full_dag.leafs ≡ some full)
    × ((leaf_at folder.hash partial).classic_merkle_root ≡ full.classic_merkle_root)
unfolding partial stored_branch
get_partial-verify_branch_example =
    get_partial-verify_branch sample 3 full_dag partial (first_file.hash ∷ []) true folder.hash
      first_file.hash (leaf_at folder.hash partial) stored_branch full_dag-IsWhole refl refl refl

get_partial-HasProof_example : has_key first_file.hash (leaf_at folder.hash partial).proofs ≡ true
unfolding partial leaf_at
get_partial-HasProof_example =
    get_partial-HasProof sample 3 full_dag partial (first_file.hash ∷ []) true folder.hash
      (leaf_at folder.hash partial) folder first_file.hash refl refl refl (omega arith) refl refl

proof_for_child-verify_branch_example :
    (branch : ClassicTreeBranch) × (proof_for_child sample folder first_file.hash
      ≡ ok (some branch))
    × (branch.leaf ≡ first_file.hash)
    × (verify_branch sample folder branch ≡ ok tt)
unfolding partial
proof_for_child-verify_branch_example =
    proof_for_child-verify_branch sample folder first_file.hash folder-HasRoot (omega arith)
      (omega arith) refl

verify_with_proofs-Climbs_example :
    ((root : DagLeaf) × (lookup partial.root partial.leafs ≡ some root)
      × ((verify_root_leaf sample root (some partial)).1 ≡ ok tt))
    × ((leaf : DagLeaf)
        → Holds partial.leafs leaf
        → leaf.hash ≢ partial.root
        → (verify_leaf sample leaf ≡ ok tt) × Climbs sample partial leaf)
unfolding partial verify_with_proofs concat_func
verify_with_proofs-Climbs_example = verify_with_proofs-Climbs sample 2 partial refl

rank : Bytes → ℕ
unfolding partial
rank h = if bytes_eq h folder.hash then 0 else 1

rank_falls :
    (parent : DagLeaf) (child : Bytes)
    → Holds partial.leafs parent
    → has_link parent child ≡ true
    → rank parent.hash < rank child
unfolding partial rank has_link
rank_falls parent child held linked = elim held [
  | inl file ↦
      let linked_by_file : false ≡ true = subst (λ p. has_link p child ≡ true) (sym file) linked in
      absurd (cc linked_by_file)
  | inr others ↦ elim others [
    | inr none_left ↦ absurd none_left
    | inl top ↦
        let only : (if bytes_eq first_file.hash child then true else false) ≡ true =
          subst (λ p. has_link p child ≡ true) (sym top) linked in
        let is_file : first_file.hash ≡ child =
          eq_of_bytes_eq first_file.hash child (as_test (bytes_eq first_file.hash child) only) in
        subst (λ p. rank p.hash < rank child) top
          (subst (λ c. rank folder.hash < rank c) is_file (omega arith))
  ]
]
  where
    as_test : (t : Bool) → (if t then true else false) ≡ true → t ≡ true
    as_test true h = refl
    as_test false h = cc

verify_with_proofs_ends_example : verify_with_proofs sample 2 partial ≢ err still_climbing
unfolding partial rank
verify_with_proofs_ends_example =
    verify_with_proofs_ends sample partial rank rank_falls 2
      (λ leaf held. low (bytes_eq leaf.hash folder.hash))
  where
    low : (b : Bool) → ◌<◌ (if b then 0 else 1) 2
    low true = omega arith
    low false = omega arith

-- Two files that link each other, below a root that links neither.
unfoldable loop_root : DagLeaf
unfolding folder first_file second_file checksum
loop_root = record folder {
  hash = checksum (folder.dag_size ∷ folder.content_size ∷ 9 ∷ folder.item_name);
  leaf_count = 9;
  links = [];
}

unfoldable first_loop : DagLeaf
unfolding first_file second_file
first_loop = record first_file { links = second_file.hash ∷ [] }

unfoldable second_loop : DagLeaf
unfolding first_file second_file
second_loop = record second_file { links = first_file.hash ∷ [] }

verify_dag-still_climbing_example :
    verify_dag sample (λ links. links) 1000 (looping loop_root first_loop second_loop)
    ≡ err still_climbing
unfolding partial loop_root first_loop second_loop verify_leaf has_link is_partial verify_root_leaf
verify_dag-still_climbing_example =
    verify_dag-still_climbing sample (λ links. links) 1000 loop_root first_loop second_loop
      record {
        from_a = refl;
        from_b = refl;
        differ = refl;
        differ_back = refl;
        root_not_a = refl;
        root_not_b = refl;
      }
      record { inner = refl; verified = refl; no_children = refl }
      record { inner = refl; verified = refl; no_children = refl } refl refl refl
