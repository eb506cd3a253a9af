-- ===== src/Dag/Labels.antt =====
-- dag/dag.go: `CalculateLabels`, `ClearLabels`, `GetHashesByLabelRange` and `GetLabel`. What a walk that
-- fails leaves in the map of labels is not modelled.
pub mod Met
pub mod Labelled
pub mod Ranges
use scionic_merkle_tree_go.Common.{
  ℕ, zero, suc, ◌+◌, ◌-◌, ◌<◌, Bool, true, false, not, Option, some, none, List, [], ◌∷◌, ◌++◌,
  Bytes, length, ltb, if◌then◌else◌, bytes_eq, Result, ok, err, ◌>>=◌, ◌>>◌, guard, GoMap, lookup,
  insert, ℤ, pos, negsuc, itoa, atoi,
}
use scionic_merkle_tree_go.Dag.Types.{
  DagLeaf, Dag, to_ℕ, DagError, labels_not_calculated, invalid_label, bad_label_range,
  label_not_found, hash_not_found, Checked,
}
use scionic_merkle_tree_go.Dag.Iterate.{WalkError, iterate_dag}

-- The state of the walk: the label counter and the labels.
abbrev pub Labelling : Type 0
Labelling = ℕ × GoMap Bytes

-- The function that `CalculateLabels` gives to the walk.
unfoldable pub label_leaf :
    Bytes → DagLeaf → Option DagLeaf → Labelling → Result WalkError Labelling
unfolding insert itoa
label_leaf root leaf parent (counter, labels) =
    if bytes_eq leaf.hash root
    then ok (counter, labels)
    else ok (counter + 1, insert (itoa counter) leaf.hash labels)

abbrev pub with_labels : Dag → Option (GoMap Bytes) → Dag
with_labels d labels = record { root = d.root; leafs = d.leafs; labels = labels }

-- `CalculateLabels`
unfoldable pub calculate_labels : (List Bytes → List Bytes) → Dag → Result WalkError Dag
unfolding iterate_dag label_leaf
calculate_labels order d = do
  walked ← iterate_dag order d (label_leaf d.root) (1, [])
  ok (with_labels d (some walked.1.1))

abbrev pub empty_if_some : Option (GoMap Bytes) → Option (GoMap Bytes)
empty_if_some none = none
empty_if_some (some m) = some []

-- `ClearLabels`
unfoldable pub clear_labels : Dag → Dag
clear_labels d = with_labels d (empty_if_some d.labels)

abbrev pub labels_of : Dag → GoMap Bytes
labels_of d = elim d.labels [ none ↦ [] | some m ↦ m ]

-- `a < b`
abbrev pub lt_ℤ : ℤ → ℤ → Bool
lt_ℤ (pos a) (pos b) = ltb a b
lt_ℤ (pos a) (negsuc b) = false
lt_ℤ (negsuc a) (pos b) = true
lt_ℤ (negsuc a) (negsuc b) = ltb b a

abbrev pub or_invalid {ℓ} : {A : Type ℓ} → Option A → DagError → Checked A
or_invalid none problem = err problem
or_invalid (some a) problem = ok a

-- `for i := start; i <= end; i++`, by the number of rounds.
unfoldable pub collect_hashes : GoMap Bytes → ℕ → ℕ → Checked (List Bytes)
unfolding lookup itoa
collect_hashes labels zero i = ok []
collect_hashes labels (suc rounds) i = do
  hash ← or_invalid (lookup (itoa i) labels) label_not_found
  hashes ← collect_hashes labels rounds (i + 1)
  ok (hash ∷ hashes)

-- `GetHashesByLabelRange`
unfoldable pub get_hashes_by_label_range : Dag → Bytes → Bytes → Checked (List Bytes)
unfolding collect_hashes atoi
get_hashes_by_label_range d start_label end_label = do
  guard (ltb 0 (length (labels_of d))) labels_not_calculated
  start ← or_invalid (atoi start_label) invalid_label
  end ← or_invalid (atoi end_label) invalid_label
  guard (not (lt_ℤ start (pos 1))) bad_label_range
  guard (not (lt_ℤ end start)) bad_label_range
  guard (not (lt_ℤ (pos (length (labels_of d))) end)) bad_label_range
  collect_hashes (labels_of d) (to_ℕ end + 1 - to_ℕ start) (to_ℕ start)

unfoldable pub find_label : Bytes → GoMap Bytes → Checked Bytes
find_label hash [] = err hash_not_found
find_label hash ((label, label_hash) ∷ labels) =
    if bytes_eq label_hash hash then ok label else find_label hash labels

-- `GetLabel`
unfoldable pub get_label : Dag → Bytes → Checked Bytes
unfolding find_label
get_label d hash =
    if bytes_eq hash d.root
    then ok (b'0' ∷ [])
    else guard (ltb 0 (length (labels_of d))) labels_not_calculated >> find_label hash (labels_of d)
