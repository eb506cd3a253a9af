-- ===== src/Dag/GetPartial.antt =====
-- dag/dag.go: `buildVerificationBranch`, `addBranchToPartial`, `completeParentProofs` and
-- `GetPartial`. The way up to the root has no bound in the code; here it takes fuel. No two entries
-- of a map hold the same leaf, so that a change of one entry changes no other.
pub mod Steps
pub mod Proved
pub mod Kept
pub mod Sound
pub mod Complete
use scionic_merkle_tree_go.Common.{
  ℕ, zero, suc, Bool, true, not, ◌&&◌, Option, some, none, List, [], ◌∷◌, Bytes, length, ltb, leb,
  if◌then◌else◌, bytes_eq, Result, ok, err, ◌>>=◌, ◌>>◌, guard, GoMap, lookup, insert, has_key,
  has_string,
}
use scionic_merkle_tree_go.Dag.Types.{ClassicTreeBranch, DagLeaf, Dag, DagError, Checked, Codec}
use scionic_merkle_tree_go.Tree.{build, add_links, create_tree}
use scionic_merkle_tree_go.Dag.Leaf.{from_merkle, has_link}
use scionic_merkle_tree_go.Dag.Builder.{with_link}
use scionic_merkle_tree_go.Dag.Clone.{clone}
use scionic_merkle_tree_go.Dag.Parents.{build_parent_index}
use scionic_merkle_tree_go.Dag.Prune.{prune_irrelevant_links}
use scionic_merkle_tree_go.Dag.Proofs.{branch_of, proof_for_child}

pub data BranchError : Type 0 where
  -- The way up has not reached the root.
  still_climbing : BranchError
  -- Go panics.
  nil_root : BranchError
  no_leaf_hashes no_child_hash : BranchError
  leaf_not_found no_parent_for : Bytes → BranchError
  leaf_error : DagError → BranchError

abbrev pub Found {ℓ} : Type ℓ → Type ℓ
Found = Result BranchError

abbrev pub from_leaf {ℓ} : {A : Type ℓ} → Checked A → Found A
from_leaf (ok a) = ok a
from_leaf (err e) = err (leaf_error e)

abbrev pub or_error {ℓ} : {A : Type ℓ} → Option A → BranchError → Found A
or_error none problem = err problem
or_error (some a) problem = ok a

-- `MerkleProofs`, which no code sets, is left out.
pub record DagBranch : Type 0 where
  pub leaf : DagLeaf
  pub path : List DagLeaf

unfoldable pub with_proofs : DagLeaf → GoMap (Option ClassicTreeBranch) → DagLeaf
with_proofs leaf proofs = record leaf { proofs = proofs }

-- `leaf.Proofs[childHash] = proof`
unfoldable pub with_proof : DagLeaf → Bytes → ClassicTreeBranch → DagLeaf
unfolding with_proofs insert
with_proof leaf child_hash branch = with_proofs leaf (insert child_hash (some branch) leaf.proofs)

module _ (codec : Codec) where
  -- The clone of a parent, with a proof of the child if the parent has several children.
  unfoldable pub prove_child : DagLeaf → Bytes → Found DagLeaf
  unfolding clone with_proof has_string build add_links branch_of
  prove_child parent child_hash =
      if ltb 1 parent.current_link_count
      then (do
        guard (has_string child_hash parent.links && not (bytes_eq child_hash [])) no_child_hash
        tree ← from_leaf (from_merkle (build codec.sha256 (add_links create_tree parent.links)))
        branch ← from_leaf (branch_of tree child_hash)
        ok (with_proof (clone parent) child_hash branch))
      else ok (clone parent)

  -- `for current.Hash != d.Root`, with the nodes that it appends to the path.
  unfoldable pub path_up : ℕ → Dag → GoMap Bytes → DagLeaf → Found (List DagLeaf)
  unfolding prove_child lookup
  path_up zero d parent_of current =
      if bytes_eq current.hash d.root then ok [] else err still_climbing
  path_up (suc fuel) d parent_of current = if bytes_eq current.hash d.root then ok [] else (do
    parent_hash ← or_error (lookup current.hash parent_of) (no_parent_for current.hash)
    parent ← or_error (lookup parent_hash d.leafs) (no_parent_for current.hash)
    parent_clone ← prove_child parent current.hash
    above ← path_up fuel d parent_of parent
    ok (parent_clone ∷ above))

  -- `buildVerificationBranch`. A branch that begins with a nil root, on which its only caller panics,
  -- is an error here.
  unfoldable pub build_verification_branch : ℕ → Dag → DagLeaf → Found DagBranch
  unfolding path_up build_parent_index clone lookup
  build_verification_branch fuel d leaf = do
    above ← path_up fuel d (build_parent_index d) leaf
    root ← or_error (lookup d.root d.leafs) nil_root
    ok (record { leaf = clone leaf; path = clone root ∷ above })

-- `for k, v := range pathNode.Proofs { mergedNode.Proofs[k] = v }`
unfoldable pub merge_proofs :
    GoMap (Option ClassicTreeBranch)
    → GoMap (Option ClassicTreeBranch)
    → GoMap (Option ClassicTreeBranch)
unfolding insert
merge_proofs [] merged = merged
merge_proofs ((k, v) ∷ proofs) merged = merge_proofs proofs (insert k v merged)

unfoldable pub merge_node : DagLeaf → Option DagLeaf → DagLeaf
unfolding merge_proofs with_proofs clone
merge_node path_node none = path_node
merge_node path_node (some existing_node) =
    let merged_node = clone existing_node in
    with_proofs merged_node (merge_proofs path_node.proofs merged_node.proofs)

-- The loop over the path that adds and merges its nodes.
unfoldable pub add_path : List DagLeaf → GoMap DagLeaf → GoMap DagLeaf
unfolding merge_node insert lookup
add_path [] leafs = leafs
add_path (path_node ∷ path) leafs =
    add_path path (insert path_node.hash (merge_node path_node (lookup path_node.hash leafs)) leafs)

unfoldable pub with_missing_link : DagLeaf → Bytes → DagLeaf
unfolding has_link with_link
with_missing_link node hash = if has_link node hash then node else with_link node hash

-- `if current.HasLink(next.Hash)`, and what follows.
unfoldable pub link_in_partial : DagLeaf → Bytes → GoMap DagLeaf → GoMap DagLeaf
unfolding has_link with_missing_link insert lookup
link_in_partial current hash leafs =
    if has_link current hash
    then elim (lookup current.hash leafs) [
      | none ↦ leafs
      | some node ↦ insert current.hash (with_missing_link node hash) leafs
    ]
    else leafs

unfoldable pub link_last : List DagLeaf → Bytes → GoMap DagLeaf → GoMap DagLeaf
unfolding link_in_partial
link_last [] hash leafs = leafs
link_last (last ∷ []) hash leafs = link_in_partial last hash leafs
link_last (node ∷ next ∷ path) hash leafs = link_last (next ∷ path) hash leafs

unfoldable pub link_path : List DagLeaf → GoMap DagLeaf → GoMap DagLeaf
unfolding link_in_partial
link_path [] leafs = leafs
link_path (last ∷ []) leafs = leafs
link_path (node ∷ next ∷ path) leafs =
    link_path (next ∷ path) (link_in_partial node next.hash leafs)

-- `addBranchToPartial`, which has no error to report.
unfoldable pub add_branch_to_partial : DagBranch → GoMap DagLeaf → GoMap DagLeaf
unfolding add_path link_last link_path insert lookup
add_branch_to_partial branch leafs =
    let with_leaf =
      if has_key branch.leaf.hash leafs then leafs else insert branch.leaf.hash branch.leaf leafs in
    link_path branch.path (link_last branch.path branch.leaf.hash (add_path branch.path with_leaf))

-- `if proof != nil`
unfoldable pub store_proof : DagLeaf → Bytes → Option ClassicTreeBranch → DagLeaf
unfolding with_proof
store_proof parent child_hash none = parent
store_proof parent child_hash (some branch) = with_proof parent child_hash branch

unfoldable pub mark_path : List DagLeaf → GoMap Bool → GoMap Bool
unfolding insert
mark_path [] relevant = relevant
mark_path (path_node ∷ path) relevant = mark_path path (insert path_node.hash true relevant)

abbrev pub partial_dag : Dag → GoMap DagLeaf → Dag
partial_dag d leafs = record { root = d.root; leafs = leafs; labels = none }

module _ (codec : Codec) where
  -- The body of the loop over the links of the full parent.
  unfoldable pub complete_child : GoMap DagLeaf → DagLeaf → Bytes → DagLeaf → Checked DagLeaf
  unfolding store_proof proof_for_child lookup
  complete_child partial full_parent child_hash partial_parent =
      if has_key child_hash partial && not (has_key child_hash partial_parent.proofs)
      then (do
        proof ← proof_for_child codec full_parent child_hash
        ok (store_proof partial_parent child_hash proof))
      else ok partial_parent

  unfoldable pub complete_children :
      GoMap DagLeaf → DagLeaf → List Bytes → DagLeaf → Checked DagLeaf
  unfolding complete_child
  complete_children partial full_parent [] partial_parent = ok partial_parent
  complete_children partial full_parent (child_hash ∷ links) partial_parent = do
    next ← complete_child partial full_parent child_hash partial_parent
    complete_children partial full_parent links next

  unfoldable pub complete_parent : GoMap DagLeaf → Option DagLeaf → DagLeaf → Checked DagLeaf
  unfolding complete_children
  complete_parent partial none partial_parent = ok partial_parent
  complete_parent partial (some full_parent) partial_parent =
      if leb (length full_parent.links) 1
      then ok partial_parent
      else complete_children partial full_parent full_parent.links partial_parent

  -- `completeParentProofs`: the entries still to do, and the map that they are of.
  unfoldable pub complete_all : Dag → GoMap DagLeaf → GoMap DagLeaf → Checked (GoMap DagLeaf)
  unfolding complete_parent lookup
  complete_all d partial [] = ok []
  complete_all d partial ((parent_hash, partial_parent) ∷ leafs) = do
    completed ← complete_parent partial (lookup parent_hash d.leafs) partial_parent
    others ← complete_all d partial leafs
    ok ((parent_hash, completed) ∷ others)

  unfoldable pub complete_parent_proofs : Dag → GoMap DagLeaf → Checked (GoMap DagLeaf)
  unfolding complete_all
  complete_parent_proofs d partial = complete_all d partial partial

  -- The loop over the requested hashes: the leaves of the partial DAG and the relevant hashes.
  unfoldable pub add_requested :
      ℕ → Dag → List Bytes → GoMap DagLeaf × GoMap Bool → Found (GoMap DagLeaf × GoMap Bool)
  unfolding build_verification_branch add_branch_to_partial mark_path insert lookup
  add_requested fuel d [] st = ok st
  add_requested fuel d (requested_hash ∷ leaf_hashes) (leafs, relevant) = do
    target ← or_error (lookup requested_hash d.leafs) (leaf_not_found requested_hash)
    branch ← build_verification_branch codec fuel d target
    add_requested fuel d leaf_hashes (
      add_branch_to_partial branch leafs,
      mark_path branch.path (insert requested_hash true relevant),
    )

  -- `GetPartial`
  unfoldable pub get_partial : ℕ → Dag → List Bytes → Bool → Found Dag
  unfolding add_requested complete_parent_proofs prune_irrelevant_links
  get_partial fuel d leaf_hashes prune_links = do
    guard (ltb 0 (length leaf_hashes)) no_leaf_hashes
    added ← add_requested fuel d leaf_hashes ([], (d.root, true) ∷ [])
    completed ← from_leaf (complete_parent_proofs d added.0)
    ok (partial_dag d (if prune_links then prune_irrelevant_links added.1 completed else completed))
