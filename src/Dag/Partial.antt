-- ===== src/Dag/Partial.antt =====
-- dag/dag.go: `verifyWithProofs` and `Verify`. The climb from a leaf to the root has no bound in the
-- code; here it takes fuel.
pub mod Sound
pub mod Ends
pub mod Cycle
use scionic_merkle_tree_go.Common.{
  ℕ, zero, suc, Bool, true, ◌&&◌, Option, some, none, List, [], ◌∷◌, Bytes, length, get_or, ltb,
  ◌==◌, if◌then◌else◌, bytes_eq, bytes_lt, Result, ok, err, ◌>>=◌, ◌>>◌, guard, GoMap, lookup,
  has_key,
}
use scionic_merkle_tree_go.Dag.Types.{ClassicTreeBranch, DagLeaf, Dag, DagError, Codec}
use scionic_merkle_tree_go.Dag.Sorting.{or_empty}
use scionic_merkle_tree_go.Dag.Leaf.{
  has_link, verify_leaf, verify_branch, verify_children_against_merkle_root,
}
use scionic_merkle_tree_go.Dag.Root.{verify_root_leaf}
use scionic_merkle_tree_go.Dag.Iterate.{WalkError, is_partial, verify_full_dag}

pub data PartialError : Type 0 where
  -- The climb has not reached the root.
  still_climbing : PartialError
  -- Go panics.
  nil_pointer : PartialError
  single_child_mismatch broken_dag broken_path missing_proof : PartialError
  leaf_error : DagError → PartialError
  walk_error : WalkError → PartialError

abbrev pub from_leaf {ℓ} : {A : Type ℓ} → Result DagError A → Result PartialError A
from_leaf (ok a) = ok a
from_leaf (err e) = err (leaf_error e)

-- `childrenInDag`
unfoldable pub children_in_dag : GoMap DagLeaf → List Bytes → ℕ
unfolding lookup
children_in_dag leafs [] = 0
children_in_dag leafs (child_hash ∷ links) =
    let others = children_in_dag leafs links in
    if has_key child_hash leafs then suc others else others

abbrev lower_hash : DagLeaf → Option DagLeaf → Bool
lower_hash potential none = true
lower_hash potential (some parent) = bytes_lt potential.hash parent.hash

-- The loop that looks for the lowest parent, from the best one so far.
unfoldable pub find_parent : Bytes → GoMap DagLeaf → Option DagLeaf → Option DagLeaf
unfolding has_link
find_parent child_hash [] parent = parent
find_parent child_hash ((k, potential) ∷ leafs) parent = find_parent child_hash leafs (
    if has_link potential child_hash && lower_hash potential parent then some potential else parent)

-- `len(leaf.Links) == leaf.CurrentLinkCount && leaf.CurrentLinkCount > 0`
abbrev pub has_all_links : DagLeaf → Bool
has_all_links leaf = (length leaf.links == leaf.current_link_count) && ltb 0 leaf.current_link_count

abbrev pub parent_or_broken : Option DagLeaf → Result PartialError DagLeaf
parent_or_broken none = err broken_path
parent_or_broken (some parent) = ok parent

abbrev pub from_walk {ℓ} : {A : Type ℓ} → Result WalkError A → Result PartialError A
from_walk (ok a) = ok a
from_walk (err e) = err (walk_error e)

module _ (codec : Codec) where
  -- `ClassicMerkleRoot` against the only child.
  unfoldable pub verify_single_child : DagLeaf → Option DagLeaf → Result PartialError (Unit {0})
  verify_single_child root none = ok tt
  verify_single_child root (some child) =
      guard (bytes_eq (or_empty root.classic_merkle_root) (get_or root.links 0 []))
        single_child_mismatch

  -- The root's children, of which as many are in the DAG as the last argument says.
  unfoldable pub verify_root_children : Dag → DagLeaf → ℕ → Result PartialError (Unit {0})
  unfolding verify_single_child verify_children_against_merkle_root lookup
  verify_root_children d root in_dag =
      if in_dag == root.current_link_count
      then from_leaf (verify_children_against_merkle_root codec root)
      else if root.current_link_count == 1
      then (if ltb 0 in_dag
          then verify_single_child root (lookup (get_or root.links 0 []) d.leafs)
          else ok tt)
      else guard (ltb 0 (length root.proofs)) broken_dag

  -- The first part of `verifyWithProofs`.
  unfoldable pub verify_root : Dag → Option DagLeaf → Result PartialError (Unit {0})
  unfolding verify_root_leaf verify_root_children children_in_dag
  verify_root d none = err nil_pointer
  verify_root d (some root) =
      from_leaf (verify_root_leaf codec root (some d)).1
      >> (if has_all_links root
          then verify_root_children d root (children_in_dag d.leafs root.links)
          else ok tt)

  -- `VerifyBranch` on what the parent's map of proofs holds for the child.
  unfoldable pub verify_stored_proof :
      DagLeaf → Option (Option ClassicTreeBranch) → PartialError → Result PartialError (Unit {0})
  unfolding verify_branch
  verify_stored_proof parent none missing = err missing
  verify_stored_proof parent (some none) missing = err nil_pointer
  verify_stored_proof parent (some (some branch)) missing =
      from_leaf (verify_branch codec parent branch)

  -- One step of the climb: the parent's children, or its proof of this child.
  unfoldable pub verify_edge : Dag → DagLeaf → DagLeaf → Result PartialError (Unit {0})
  unfolding children_in_dag verify_stored_proof verify_children_against_merkle_root lookup
  verify_edge d parent current =
      if has_all_links parent
      then (if children_in_dag d.leafs parent.links == parent.current_link_count
          then from_leaf (verify_children_against_merkle_root codec parent)
          else verify_stored_proof parent (lookup current.hash parent.proofs) broken_dag)
      else if ltb 1 parent.current_link_count
      then verify_stored_proof parent (lookup current.hash parent.proofs) missing_proof
      else ok tt

  -- `parent.VerifyLeaf()`, which the root has behind it.
  unfoldable pub verify_parent_leaf : Dag → DagLeaf → Result PartialError (Unit {0})
  unfolding verify_leaf
  verify_parent_leaf d parent =
      if bytes_eq parent.hash d.root then ok tt else from_leaf (verify_leaf codec parent)

  -- `for current.Hash != d.Root`
  unfoldable pub climb : ℕ → Dag → DagLeaf → Result PartialError (Unit {0})
  unfolding find_parent verify_parent_leaf verify_edge
  climb zero d current = if bytes_eq current.hash d.root then ok tt else err still_climbing
  climb (suc fuel) d current = if bytes_eq current.hash d.root then ok tt else (do
    parent ← parent_or_broken (find_parent current.hash d.leafs none)
    verified ← verify_parent_leaf d parent
    edge ← verify_edge d parent current
    climb fuel d parent)

  -- `for _, leaf := range d.Leafs`
  unfoldable pub verify_each : ℕ → Dag → GoMap DagLeaf → Result PartialError (Unit {0})
  unfolding climb verify_leaf
  verify_each fuel d [] = ok tt
  verify_each fuel d ((k, leaf) ∷ leafs) =
      (if bytes_eq leaf.hash d.root
        then ok tt
        else (from_leaf (verify_leaf codec leaf) >> climb fuel d leaf))
      >> verify_each fuel d leafs

  -- `verifyWithProofs`
  unfoldable pub verify_with_proofs : ℕ → Dag → Result PartialError (Unit {0})
  unfolding verify_root verify_each lookup
  verify_with_proofs fuel d = verify_root d (lookup d.root d.leafs) >> verify_each fuel d d.leafs

  -- `Verify`
  unfoldable pub verify_dag : (List Bytes → List Bytes) → ℕ → Dag → Result PartialError (Unit {0})
  unfolding is_partial verify_with_proofs verify_full_dag
  verify_dag order fuel d =
      if is_partial d then verify_with_proofs fuel d else from_walk (verify_full_dag codec order d)
