-- ===== src/Dag/Iterate.antt =====
-- dag/dag.go: `IterateDag`, `IsPartial` and `verifyFullDag`. `order` is the order in which a leaf's
-- links are followed: `sort.Slice` by the number in front of a colon, which leaves equal ones, as
-- CIDs are, in an order that Go does not fix.
pub mod Visited
pub mod Sound
pub mod Enough
pub mod Alike
use scionic_merkle_tree_go.Common.{
  ℕ, zero, suc, Bool, true, ◌&&◌, Option, some, none, List, [], ◌∷◌, Bytes, length, ltb, ◌==◌,
  if◌then◌else◌, bytes_eq, Result, ok, err, ◌>>=◌, ◌>>◌, guard, GoMap, lookup, has_string,
}
use scionic_merkle_tree_go.Dag.Types.{DagLeaf, Dag, DagError, Codec}
use scionic_merkle_tree_go.Dag.Leaf.{has_link, verify_leaf, verify_children_against_merkle_root}
use scionic_merkle_tree_go.Dag.Root.{verify_root_leaf}

pub data WalkError : Type 0 where
  out_of_fuel : WalkError
  child_is_missing : Bytes → WalkError
  no_link_to_child : WalkError
  dag_error : DagError → WalkError

module _ {ℓ} {S : Type ℓ} where
  -- `for _, childHash := range childHashes`
  unfoldable pub iterate_children :
      (Bytes → List Bytes × S → Result WalkError (List Bytes × S))
      → List Bytes
      → List Bytes × S
      → Result WalkError (List Bytes × S)
  iterate_children visit [] st = ok st
  iterate_children visit (child ∷ children) st = do
    next ← visit child st
    iterate_children visit children next

  module _ (order : List Bytes → List Bytes) (leafs : GoMap DagLeaf)
      (process_leaf : DagLeaf → Option DagLeaf → S → Result WalkError S) where
    -- `parent = d.Leafs[*parentHash]`
    abbrev pub parent_of : Option Bytes → Option DagLeaf
    parent_of none = none
    parent_of (some parent_hash) = lookup parent_hash leafs

    -- `iterate`, on fuel: the visited hashes and the state that `processLeaf` keeps. `visit` is the
    -- call of itself.
    unfoldable pub iterate_leaf :
        (Bytes → Option Bytes → List Bytes × S → Result WalkError (List Bytes × S))
        → Option DagLeaf
        → Bytes
        → Option Bytes
        → List Bytes × S
        → Result WalkError (List Bytes × S)
    unfolding iterate_children has_string
    iterate_leaf visit none leaf_hash parent_hash (visited, s) = err (child_is_missing leaf_hash)
    iterate_leaf visit (some leaf) leaf_hash parent_hash (visited, s) =
        if has_string leaf_hash visited then ok (visited, s) else (do
          s' ← process_leaf leaf (parent_of parent_hash) s
          iterate_children (λ child st. visit child (some leaf.hash) st) (order leaf.links)
              (leaf_hash ∷ visited, s'))

    unfoldable pub iterate :
        ℕ → Bytes → Option Bytes → List Bytes × S → Result WalkError (List Bytes × S)
    unfolding iterate_leaf lookup
    iterate zero leaf_hash parent_hash st = err out_of_fuel
    iterate (suc fuel) leaf_hash parent_hash st =
        iterate_leaf (iterate fuel) (lookup leaf_hash leafs) leaf_hash parent_hash st

-- `IterateDag`: one call more than there are leaves can be open at once.
unfoldable pub iterate_dag {ℓ} :
    {S : Type ℓ}
    → (List Bytes → List Bytes)
    → Dag
    → (DagLeaf → Option DagLeaf → S → Result WalkError S)
    → S
    → Result WalkError (List Bytes × S)
unfolding iterate
iterate_dag order d process_leaf s =
    iterate order d.leafs process_leaf (suc (length d.leafs)) d.root none ([], s)

-- `IsPartial`
unfoldable pub is_partial : Dag → Bool
unfolding lookup
is_partial d = elim (lookup d.root d.leafs) [
  | none ↦ true
  | some root_leaf ↦ ltb (length d.leafs) root_leaf.leaf_count
]

abbrev pub from_dag {ℓ} : {A : Type ℓ} → Result DagError A → Result WalkError A
from_dag (ok a) = ok a
from_dag (err e) = err (dag_error e)

module _ (codec : Codec) where
  -- `if len(leaf.Links) == leaf.CurrentLinkCount && leaf.CurrentLinkCount > 0`
  unfoldable pub verify_children_if_all : DagLeaf → Result WalkError (Unit {0})
  unfolding verify_children_against_merkle_root
  verify_children_if_all leaf =
      if (length leaf.links == leaf.current_link_count) && ltb 0 leaf.current_link_count
      then from_dag (verify_children_against_merkle_root codec leaf)
      else ok tt

  -- The parent's part of the function that `verifyFullDag` gives to the walk; Go would panic on a
  -- leaf without a parent that does not have the root's hash.
  unfoldable pub verify_parent : DagLeaf → Option DagLeaf → Result WalkError (Unit {0})
  unfolding verify_children_if_all
  verify_parent leaf none = ok tt
  verify_parent leaf (some parent) = verify_children_if_all parent

  unfoldable pub check_link : DagLeaf → Option DagLeaf → Result WalkError (Unit {0})
  unfolding has_link
  check_link leaf none = err no_link_to_child
  check_link leaf (some parent) = guard (has_link parent leaf.hash) no_link_to_child

  -- The function that `verifyFullDag` gives to the walk. That `VerifyRootLeaf` replaces a nil root by
  -- an empty one is not seen by the later calls, which read both as no bytes.
  unfoldable pub verify_one :
      Dag → DagLeaf → Option DagLeaf → Unit {0} → Result WalkError (Unit {0})
  unfolding verify_parent check_link verify_children_if_all verify_leaf verify_root_leaf
  verify_one d leaf parent u =
      (if bytes_eq leaf.hash d.root
        then (from_dag (verify_root_leaf codec leaf (some d)).1 >> verify_children_if_all leaf)
        else (from_dag (verify_leaf codec leaf) >> check_link leaf parent))
      >> verify_parent leaf parent

  -- `verifyFullDag`
  unfoldable pub verify_full_dag : (List Bytes → List Bytes) → Dag → Result WalkError (Unit {0})
  unfolding iterate_dag verify_one
  verify_full_dag order d = do visited ← iterate_dag order d (verify_one d) tt; ok tt
