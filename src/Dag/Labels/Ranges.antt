-- ===== src/Dag/Labels/Ranges.antt =====
-- dag/dag.go: the ranges that are read of the labels.
use scionic_merkle_tree_go.Common.{
  ℕ, zero, suc, ◌+◌, ◌-◌, ◌^◌, ◌≤◌, ◌<◌, ◌≡◌, refl, ap, ◌∙◌, subst, true, false, not, ◌&&◌, some,
  List, [], ◌∷◌, Bytes, length, get_elem?, take, drop, ltb, leb, ◌==◌, if◌then◌else◌, ok, err,
  ◌>>=◌, ◌>>◌, guard, All, has_key, has_string, Entries, bytes_eq, GoMap, pos, arith, inl, inr,
  Bool-cases, itoa, atoi-itoa, below, as_pos,
}
use scionic_merkle_tree_go.Dag.Types.{
  Dag, to_ℕ, labels_not_calculated, invalid_label, bad_label_range, Checked,
}
use scionic_merkle_tree_go.Dag.Types.{IsKeyed}
use scionic_merkle_tree_go.Tree.Sets.{IsDistinct}
use scionic_merkle_tree_go.Dag.Iterate.Sound.{Reachable}
use scionic_merkle_tree_go.Dag.Iterate.{iterate_dag}
use scionic_merkle_tree_go.Dag.Labels.Labelled.{IsLabelled, note_hash, calculate_labels-IsLabelled}
use scionic_merkle_tree_go.Dag.Labels.{
  calculate_labels, labels_of, lt_ℤ, or_invalid, collect_hashes, get_hashes_by_label_range,
}

drop_next :
    (hs : List Bytes) (i : ℕ)
    → i < length hs
    → (h : Bytes) × (get_elem? hs i ≡ some h) × (drop i hs ≡ h ∷ drop (i + 1) hs)
drop_next [] i few = absurd (omega arith)
drop_next (h ∷ hs) zero few = (h, refl, refl)
drop_next (h ∷ hs) (suc i) few =
    let shift : suc (i + 1) ≡ suc i + 1 = omega arith in
    let (g, here, next) = drop_next hs i (omega arith) in
    (g, here, next ∙ ap (λ n. g ∷ drop n (h ∷ hs)) shift)

collect_hashes-take :
    (hs : List Bytes) (labels : GoMap Bytes)
    → IsLabelled hs labels
    → (rounds i : ℕ) → i + rounds ≤ length hs
    → collect_hashes labels rounds (i + 1) ≡ ok (take rounds (drop i hs))
unfolding collect_hashes
collect_hashes-take hs labels labelled zero i within = refl
collect_hashes-take hs labels labelled (suc rounds) i within =
    let (h, here, next) = drop_next hs i (omega (arith, within)) in
    rw
      (
        labelled.at i,
        here,
        next,
        collect_hashes-take hs labels labelled rounds (i + 1) (omega (arith, within)),
      )
      refl

-- The range that two numbers ask of a list of hashes.
abbrev pub expected_range : List Bytes → ℕ → ℕ → Checked (List Bytes)
expected_range hs a b =
    if length hs == 0
    then err labels_not_calculated
    else if not (ltb a (2 ^ 63) && ltb b (2 ^ 63))
    then err invalid_label
    else if leb 1 a && leb a b && leb b (length hs)
    then ok (take (b + 1 - a) (drop (a - 1) hs))
    else err bad_label_range

collect_hashes-range :
    (hs : List Bytes) (labels : GoMap Bytes) (a b : ℕ)
    → IsLabelled hs labels
    → 1 ≤ a
    → a ≤ b
    → b ≤ length hs
    → collect_hashes labels (b + 1 - a) a ≡ ok (take (b + 1 - a) (drop (a - 1) hs))
collect_hashes-range hs labels a b labelled positive ordered within =
    let first : (a - 1) + 1 ≡ a = omega arith in
    let collected =
      collect_hashes-take hs labels labelled (b + 1 - a) (a - 1)
        (omega (arith, positive, ordered, within)) in
    subst (λ n. collect_hashes labels (b + 1 - a) n ≡ ok (take (b + 1 - a) (drop (a - 1) hs))) first
      collected

get_hashes_by_label_range-expected :
    (hs : List Bytes) (d : Dag) (a b : ℕ)
    → IsLabelled hs (labels_of d)
    → get_hashes_by_label_range d (itoa a) (itoa b) ≡ expected_range hs a b
unfolding get_hashes_by_label_range
get_hashes_by_label_range-expected hs d a b labelled =
    rw (labelled.size, atoi-itoa a, atoi-itoa b)
      (checks (length hs) (λ rounds start. collect_hashes (labels_of d) rounds start)
        (collect_hashes-range hs (labels_of d) a b labelled))
  where
    checks :
        (n : ℕ) (collect : ℕ → ℕ → Checked (List Bytes))
        → (1 ≤ a → a ≤ b → b ≤ n → collect (b + 1 - a) a ≡ ok (take (b + 1 - a) (drop (a - 1) hs)))
        → (do
          guard (ltb 0 n) labels_not_calculated
          start ← or_invalid (as_pos (below (2 ^ 63) (some a))) invalid_label
          end ← or_invalid (as_pos (below (2 ^ 63) (some b))) invalid_label
          guard (not (lt_ℤ start (pos 1))) bad_label_range
          guard (not (lt_ℤ end start)) bad_label_range
          guard (not (lt_ℤ (pos n) end)) bad_label_range
          collect (to_ℕ end + 1 - to_ℕ start) (to_ℕ start))
          ≡ (if n == 0
              then err labels_not_calculated
              else if not (ltb a (2 ^ 63) && ltb b (2 ^ 63))
              then err invalid_label
              else if leb 1 a && leb a b && leb b n
              then ok (take (b + 1 - a) (drop (a - 1) hs))
              else err bad_label_range)
    checks n collect collected = elim (Bool-cases (leb 1 a && leb a b && leb b n)) [
      | inr outside ↦ ground arith
      | inl within ↦
          let found = collected (ground arith) (ground arith) (ground arith) in
          let some_label : ltb 0 n ≡ true = ground arith in
          let not_empty : (n == 0) ≡ false = ground arith in
          let positive : ltb a 1 ≡ false = ground arith in
          let ordered : ltb b a ≡ false = ground arith in
          let covered : ltb n b ≡ false = ground arith in
          elim (Bool-cases (ltb a (2 ^ 63))) [
            | inr large ↦ rw (some_label, not_empty, large) refl
            | inl small ↦ elim (Bool-cases (ltb b (2 ^ 63))) [
              | inr large ↦ rw (some_label, not_empty, small, large) refl
              | inl fits ↦
                  rw (some_label, not_empty, within, small, fits, positive, ordered, covered) found
            ]
          ]
    ]

-- After `CalculateLabels` there is one label for each hash that a walk from the root meets but the
-- root's: each of them once, each that of a leaf of the DAG, and among them every other hash that the
-- root leads to over links. `GetHashesByLabelRange` on two written numbers answers in the order of
-- that walk: the hashes from the first position to the second, counted from 1, when 1 ≤ first ≤ second
-- ≤ their number; an error for every other range, for numbers past 64 bits and when no leaf has a
-- label. The leaves stand under their hashes, and the order of a leaf's links loses none.
pub calculate_labels-range :
    (order : List Bytes → List Bytes) (d labelled : Dag) (h : Bytes)
    → ((links : List Bytes) (l : Bytes)
        → has_string l links ≡ true
        → has_string l (order links) ≡ true)
    → Entries IsKeyed d.leafs
    → calculate_labels order d ≡ ok labelled
    → Reachable d h
    → (visited hs : List Bytes) × (iterate_dag order d (note_hash d.root) [] ≡ ok (visited, hs))
      × IsDistinct hs
      × All (λ k. has_key k d.leafs ≡ true) hs
      × (has_string h hs ≡ not (bytes_eq h d.root))
      × (length (labels_of labelled) ≡ length hs)
      × ((a b : ℕ) → get_hashes_by_label_range labelled (itoa a) (itoa b) ≡ expected_range hs a b)
calculate_labels-range order d labelled h keeps_order keyed e reachable =
    let (visited, hs, met, labels, all, there) =
      calculate_labels-IsLabelled order d labelled h keeps_order keyed e reachable in
    (
      visited,
      hs,
      met,
      all.distinct,
      all.held,
      all.met h ∙ rw there refl,
      labels.size,
      λ a b. get_hashes_by_label_range-expected hs labelled a b labels,
    )
