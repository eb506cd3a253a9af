-- ===== src/Dag/Partial/Ends.antt =====
-- dag/dag.go: when the climb of `verifyWithProofs` ends, and links on which it does not.
use scionic_merkle_tree_go.Common.{
  ℕ, zero, suc, ◌<◌, ◌≡◌, ◌≢◌, refl, Bool, true, false, Option, some, none, [], ◌∷◌, Bytes, length,
  get_or, ltb, ◌==◌, if◌then◌else◌, bytes_eq, Result, ok, err, ◌>>=◌, ◌>>◌, guard, GoMap, lookup,
  arith, inl, inr,
}
use scionic_merkle_tree_go.Dag.Types.{ClassicTreeBranch, DagLeaf, Dag, DagError, Codec}
use scionic_merkle_tree_go.Dag.Leaf.{
  has_link, verify_leaf, verify_branch, verify_children_against_merkle_root,
}
use scionic_merkle_tree_go.Dag.Root.{verify_root_leaf}
use scionic_merkle_tree_go.Dag.Partial.{
  PartialError, still_climbing, broken_dag, missing_proof, from_leaf, children_in_dag, find_parent,
  has_all_links, verify_stored_proof, verify_edge, verify_parent_leaf, parent_or_broken, climb,
  verify_each, verify_with_proofs, verify_root, verify_root_children, verify_single_child,
}
use scionic_merkle_tree_go.Dag.Partial.Sound.{Holds, find_parent-linked, parent_or_broken-ok}

bind_ends :
    {A B : Type 0} (m : Result PartialError A) (f : A → Result PartialError B)
    → m ≢ err still_climbing
    → ((a : A) → m ≡ ok a → f a ≢ err still_climbing)
    → (m >>= f) ≢ err still_climbing
bind_ends (ok a) f first next e = next a refl e
bind_ends (err x) f first next e = first (cc)

from_leaf_ends : {A : Type 0} (r : Result DagError A) → from_leaf r ≢ err still_climbing
from_leaf_ends (ok a) e = cc
from_leaf_ends (err x) e = cc

guard_ends :
    (holds : Bool) (x : PartialError) → x ≢ still_climbing → guard holds x ≢ err still_climbing
guard_ends true x other e = cc
guard_ends false x other e = other cc

if_ends :
    {A : Type 0} (b : Bool) (x y : Result PartialError A)
    → x ≢ err still_climbing
    → y ≢ err still_climbing
    → (if b then x else y) ≢ err still_climbing
if_ends true x y first second = first
if_ends false x y first second = second

verify_stored_proof_ends :
    (codec : Codec) (parent : DagLeaf) (stored : Option (Option ClassicTreeBranch))
    (missing : PartialError)
    → missing ≢ still_climbing
    → verify_stored_proof codec parent stored missing ≢ err still_climbing
unfolding verify_stored_proof
verify_stored_proof_ends codec parent none missing other e = other cc
verify_stored_proof_ends codec parent (some none) missing other e = cc
verify_stored_proof_ends codec parent (some (some branch)) missing other e =
    from_leaf_ends (verify_branch codec parent branch) e

verify_edge_ends :
    (codec : Codec) (d : Dag) (parent child : DagLeaf)
    → verify_edge codec d parent child ≢ err still_climbing
unfolding verify_edge
verify_edge_ends codec d parent child =
    let stored = lookup child.hash parent.proofs in
    if_ends _ _ _
      (if_ends _ _ _ (from_leaf_ends (verify_children_against_merkle_root codec parent))
        (verify_stored_proof_ends codec parent stored broken_dag (λ e. cc)))
      (if_ends _ _ (ok tt) (verify_stored_proof_ends codec parent stored missing_proof (λ e. cc))
        (λ e. cc))

verify_parent_leaf_ends :
    (codec : Codec) (d : Dag) (parent : DagLeaf)
    → verify_parent_leaf codec d parent ≢ err still_climbing
unfolding verify_parent_leaf
verify_parent_leaf_ends codec d parent =
    if_ends _ (ok tt) _ (λ e. cc) (from_leaf_ends (verify_leaf codec parent))

verify_single_child_ends :
    (codec : Codec) (root : DagLeaf) (child : Option DagLeaf)
    → verify_single_child codec root child ≢ err still_climbing
unfolding verify_single_child
verify_single_child_ends codec root none e = cc
verify_single_child_ends codec root (some child) e = guard_ends _ _ (λ e. cc) e

verify_root_children_ends :
    (codec : Codec) (d : Dag) (root : DagLeaf) (n : ℕ)
    → verify_root_children codec d root n ≢ err still_climbing
unfolding verify_root_children
verify_root_children_ends codec d root n =
    if_ends (n == root.current_link_count) _ _
      (from_leaf_ends (verify_children_against_merkle_root codec root))
      (if_ends _ _ _
        (if_ends (ltb 0 n) _ (ok tt)
          (verify_single_child_ends codec root (lookup (get_or root.links 0 []) d.leafs)) (λ e. cc))
        (guard_ends (ltb 0 (length root.proofs)) broken_dag (λ e. cc)))

verify_root_ends :
    (codec : Codec) (d : Dag) (found : Option DagLeaf)
    → verify_root codec d found ≢ err still_climbing
unfolding verify_root
verify_root_ends codec d none e = cc
verify_root_ends codec d (some root) e =
    bind_ends (from_leaf (verify_root_leaf codec root (some d)).1) _
      (from_leaf_ends (verify_root_leaf codec root (some d)).1)
      (λ a same.
        if_ends (has_all_links root) _ (ok tt)
          (verify_root_children_ends codec d root (children_in_dag d.leafs root.links)) (λ e. cc))
      e

module _ (codec : Codec) (d : Dag) (rank : Bytes → ℕ)
    (falls : (parent : DagLeaf) (child : Bytes)
      → Holds d.leafs parent
      → has_link parent child ≡ true
      → rank parent.hash < rank child) where
  climb_ends :
      (fuel : ℕ) (leaf : DagLeaf)
      → rank leaf.hash < fuel
      → climb codec fuel d leaf ≢ err still_climbing
  unfolding climb
  climb_ends zero leaf h = absurd (omega arith)
  climb_ends (suc fuel) leaf h =
      if_ends _ (ok tt) _ (λ e. cc)
        (bind_ends (parent_or_broken (find_parent leaf.hash d.leafs none)) _
          (broken_ends (find_parent leaf.hash d.leafs none))
          (λ parent found.
            bind_ends (verify_parent_leaf codec d parent) _ (verify_parent_leaf_ends codec d parent)
              (λ _ _.
                bind_ends (verify_edge codec d parent leaf) _ (verify_edge_ends codec d parent leaf)
                  (λ _ _. climb_ends fuel parent (lower parent found)))))
    where
      broken_ends : (o : Option DagLeaf) → parent_or_broken o ≢ err still_climbing
      broken_ends none e = cc
      broken_ends (some p) e = cc

      lower :
          (parent : DagLeaf)
          → parent_or_broken (find_parent leaf.hash d.leafs none) ≡ ok parent
          → rank parent.hash < fuel
      lower parent found =
          elim (find_parent-linked leaf.hash d.leafs none parent
            (parent_or_broken-ok (find_parent leaf.hash d.leafs none) parent found)) [
              | inl none_some ↦ absurd (cc none_some)
              | inr linked ↦ omega (arith, falls parent leaf.hash linked.0 linked.1)
            ]

  verify_each_ends :
      (fuel : ℕ) (leafs : GoMap DagLeaf)
      → ((leaf : DagLeaf) → Holds leafs leaf → rank leaf.hash < fuel)
      → verify_each codec fuel d leafs ≢ err still_climbing
  unfolding verify_each
  verify_each_ends fuel [] low e = cc
  verify_each_ends fuel ((k, leaf) ∷ leafs) low e =
      bind_ends _ (λ _. verify_each codec fuel d leafs)
        (if_ends (bytes_eq leaf.hash d.root) (ok tt)
          (from_leaf (verify_leaf codec leaf) >> climb codec fuel d leaf) (λ e. cc)
          (bind_ends (from_leaf (verify_leaf codec leaf)) (λ _. climb codec fuel d leaf)
            (from_leaf_ends (verify_leaf codec leaf))
            (λ _ _. climb_ends fuel leaf (low leaf (inl refl)))))
        (λ _ _. verify_each_ends fuel leafs (λ other held. low other (inr held))) e

  -- `verifyWithProofs` ends on a DAG without a cycle of links: where hashes have ranks such that every
  -- link leads to a higher one, as many steps from each leaf as the highest rank and one are enough.
  pub verify_with_proofs_ends :
      (fuel : ℕ)
      → ((leaf : DagLeaf) → Holds d.leafs leaf → rank leaf.hash < fuel)
      → verify_with_proofs codec fuel d ≢ err still_climbing
  unfolding verify_with_proofs
  verify_with_proofs_ends fuel low =
      bind_ends (verify_root codec d (lookup d.root d.leafs))
        (λ _. verify_each codec fuel d d.leafs) (verify_root_ends codec d (lookup d.root d.leafs))
        (λ _ _. verify_each_ends fuel d.leafs low)
