-- ===== src/Runs/Serialized.antt =====
-- dag/serialize.go, dag/sortedmap.go and the labels of dag/dag.go at a root over two files.
use scionic_merkle_tree_go.Common.{
  All, has_key, true, not, ℕ, ◌≡◌, refl, sym, ◌∙◌, false, some, none, List, [], ◌∷◌, Bytes, length,
  bytes_eq, Result, ok, err, lookup, inl, inr, arith, Bool-cases, eq_of_bytes_eq, bytes_eq_iff,
  has_string, Entries, itoa,
}
use scionic_merkle_tree_go.Dag.Iterate.{WalkError, iterate_dag}
use scionic_merkle_tree_go.Dag.Types.{DagLeaf, Dag}
use scionic_merkle_tree_go.Runs.Leaves.{sample}
use scionic_merkle_tree_go.Runs.Partials.{
  first_file, second_file, folder, full_dag, partial, folder-HasRoot,
}
use scionic_merkle_tree_go.Dag.Parents.{build_parent_index}
use scionic_merkle_tree_go.Serialize.{from_serializable, to_serializable}
use scionic_merkle_tree_go.Serialize.Kept.{HasOwnRoot}
use scionic_merkle_tree_go.Serialize.Passes.{IsBack, from_serializable-to_serializable}
use scionic_merkle_tree_go.Serialize.Wire.{append_cbor, append_cbor-order}
use scionic_merkle_tree_go.Dag.Labels.{calculate_labels, labels_of, get_hashes_by_label_range}
use scionic_merkle_tree_go.Dag.Labels.Labelled.{note_hash}
use scionic_merkle_tree_go.Tree.Sets.{IsDistinct}
use scionic_merkle_tree_go.Dag.Iterate.Sound.{root_reachable, link_reachable}
use scionic_merkle_tree_go.Dag.Labels.Ranges.{expected_range, calculate_labels-range}

full_dag-HasOwnRoot : Entries (HasOwnRoot sample) full_dag.leafs
unfolding partial
full_dag-HasOwnRoot =
    (λ h. absurd (omega arith), (λ h. absurd (omega arith), (λ h. folder-HasRoot, tt)))

from_serializable-to_serializable_example :
    (new : DagLeaf) × (lookup first_file.hash
        (from_serializable sample (to_serializable full_dag)).leafs
      ≡ some new)
    × IsBack sample full_dag.root first_file.hash first_file new
        (lookup first_file.hash (build_parent_index full_dag))
unfolding partial
from_serializable-to_serializable_example =
    from_serializable-to_serializable sample full_dag first_file.hash first_file
      (tt, (tt, (tt, tt))) (λ h. full_dag-HasOwnRoot) refl

swapped :
    (a b : Bytes) (x y : DagLeaf) (k : Bytes)
    → bytes_eq a b ≡ false
    → lookup k ((a, x) ∷ (b, y) ∷ []) ≡ lookup k ((b, y) ∷ (a, x) ∷ [])
unfolding lookup
swapped a b x y k differ = elim (Bool-cases (bytes_eq a k)) [
  | inr other ↦ rw other refl
  | inl same ↦ elim (Bool-cases (bytes_eq b k)) [
    | inr other ↦ rw (same, other) refl
    | inl both ↦ absurd (
        cc (
          sym differ
          ∙ (bytes_eq_iff a b).1 (eq_of_bytes_eq a k same ∙ sym (eq_of_bytes_eq b k both))))
  ]
]

append_cbor-order_example :
    append_cbor
      (λ s. ok (1 ∷ []))
      (9 ∷ [])
      record { root = []; leafs = (1 ∷ [], first_file) ∷ (2 ∷ [], second_file) ∷ []; labels = none }
    ≡ append_cbor
        (λ s. ok (1 ∷ []))
        (9 ∷ [])
        record {
          root = [];
          leafs = (2 ∷ [], second_file) ∷ (1 ∷ [], first_file) ∷ [];
          labels = none;
        }
unfolding has_string bytes_eq
append_cbor-order_example =
    append_cbor-order (λ s. ok (1 ∷ [])) (9 ∷ []) []
      ((1 ∷ [], first_file) ∷ (2 ∷ [], second_file) ∷ [])
      ((2 ∷ [], second_file) ∷ (1 ∷ [], first_file) ∷ []) none none (refl, (refl, tt))
      (refl, (refl, tt)) (λ k. swapped (1 ∷ []) (2 ∷ []) first_file second_file k refl)

dag_in : Result WalkError Dag → Dag
dag_in (ok d) = d
dag_in (err e) = full_dag

labelled_dag : Dag
labelled_dag = dag_in (calculate_labels (λ ks. ks) full_dag)

calculate_labels-range_example :
    (visited hs : List Bytes) × (iterate_dag (λ ks. ks) full_dag (note_hash full_dag.root) []
      ≡ ok (visited, hs))
    × IsDistinct hs
    × All (λ k. has_key k full_dag.leafs ≡ true) hs
    × (has_string first_file.hash hs ≡ not (bytes_eq first_file.hash full_dag.root))
    × (length (labels_of labelled_dag) ≡ length hs)
    × ((a b : ℕ) → get_hashes_by_label_range labelled_dag (itoa a) (itoa b) ≡ expected_range hs a b)
unfolding labelled_dag calculate_labels partial dag_in has_string
calculate_labels-range_example =
    calculate_labels-range (λ ks. ks) full_dag labelled_dag first_file.hash (λ links l h. h)
      (refl, (refl, (refl, tt))) refl
      (link_reachable folder first_file.hash root_reachable refl refl)
