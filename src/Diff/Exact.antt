-- ===== src/Diff/Exact.antt =====
-- diff/diff.go: what `Diff` records of each hash, and what the summary counts.
use scionic_merkle_tree_go.Diff.{is_type}
use scionic_merkle_tree_go.Common.{
  ℕ, ◌+◌, ◌≡◌, refl, sym, ap, ◌∙◌, true, Option, some, none, [], ◌∷◌, Bytes, length, if◌then◌else◌,
  bytes_eq, ok, GoMap, keys, lookup, insert, arith, inl, inr, Bool-cases, Option-cases,
  bytes_eq_refl, eq_of_bytes_eq, insert_absent, has_string,
}
use scionic_merkle_tree_go.Dag.Types.{DagLeaf, Dag}
use scionic_merkle_tree_go.Tree.Sets.{IsDistinct}
use scionic_merkle_tree_go.Dag.Clone.Same.{copy_map_same}
use scionic_merkle_tree_go.Diff.{
  DiffType, diff_type_added, diff_type_removed, LeafDiff, DagDiff, record_leaf, find_changed,
  empty_diff, diff, count,
}
use scionic_merkle_tree_go.Diff.Recorded.{changed, after, after_other, lookup-find_changed}

-- How many entries are of one type.
unfoldable pub count_of : DiffType → GoMap LeafDiff → ℕ
count_of t [] = 0
count_of t ((k, d) ∷ diffs) = (if is_type d.diff_type t then 1 else 0) + count_of t diffs

count_of-insert :
    (t : DiffType) (k : Bytes) (d : LeafDiff) (diffs : GoMap LeafDiff)
    → lookup k diffs ≡ none
    → count_of t (insert k d diffs) ≡ (if is_type d.diff_type t then 1 else 0) + count_of t diffs
unfolding count_of insert lookup
count_of-insert t k d [] h = refl
count_of-insert t k d ((j, e) ∷ diffs) h = elim (Bool-cases (bytes_eq j k)) [
  | inl equal ↦ absurd (cc (rw equal at h))
  | inr differ ↦ rw differ (omega (arith, count_of-insert t k d diffs (rw differ at h)))
]

-- The summary counts the entries.
pub record IsCounted (d : DagDiff) : Type 0 where
  pub added : d.summary.added ≡ count_of diff_type_added d.diffs
  pub removed : d.summary.removed ≡ count_of diff_type_removed d.diffs
  pub total : d.summary.total ≡ length d.diffs

record_leaf-IsCounted :
    (t : DiffType) (k : Bytes) (leaf : DagLeaf) (d : DagDiff)
    → lookup k d.diffs ≡ none
    → IsCounted d
    → IsCounted (record_leaf t k leaf d)
unfolding record_leaf
record_leaf-IsCounted t k leaf d h counted =
    let e : LeafDiff = record { diff_type = t; hash = k; leaf = leaf } in
    go t (count_of-insert diff_type_added k e d.diffs h)
      (count_of-insert diff_type_removed k e d.diffs h)
  where
    go :
        (t : DiffType)
        → count_of diff_type_added
            (insert k (record { diff_type = t; hash = k; leaf = leaf }) d.diffs)
          ≡ (if is_type t diff_type_added then 1 else 0) + count_of diff_type_added d.diffs
        → count_of diff_type_removed
            (insert k (record { diff_type = t; hash = k; leaf = leaf }) d.diffs)
          ≡ (if is_type t diff_type_removed then 1 else 0) + count_of diff_type_removed d.diffs
        → IsCounted (record {
          diffs = insert k (record { diff_type = t; hash = k; leaf = leaf }) d.diffs;
          summary = count t d.summary;
        })
    go diff_type_added a r = record {
      added = omega (arith, a, counted.added);
      removed = omega (arith, r, counted.removed);
      total = omega (
        arith,
        counted.total,
        insert_absent k (record { diff_type = diff_type_added; hash = k; leaf = leaf }) d.diffs h,
      );
    }
    go diff_type_removed a r = record {
      added = omega (arith, a, counted.added);
      removed = omega (arith, r, counted.removed);
      total = omega (
        arith,
        counted.total,
        insert_absent k (record { diff_type = diff_type_removed; hash = k; leaf = leaf }) d.diffs h,
      );
    }

-- No hash that is about to be recorded has been.
abbrev Fresh : GoMap DagLeaf → GoMap DagLeaf → DagDiff → Type 0
Fresh leafs other d =
    (k : Bytes) → has_string k (keys leafs) ≡ true → lookup k other ≡ none → lookup k d.diffs ≡ none

after-IsCounted :
    (t : DiffType) (k : Bytes) (leaf : DagLeaf) (other : GoMap DagLeaf) (d : DagDiff)
    → (lookup k other ≡ none → lookup k d.diffs ≡ none)
    → IsCounted d
    → IsCounted (after t k leaf other d)
unfolding after
after-IsCounted t k leaf other d fresh counted = elim (Option-cases (lookup k other)) [
  | inl absent ↦ rw absent (record_leaf-IsCounted t k leaf d (fresh absent) counted)
  | inr (old, present) ↦ rw present counted
]

find_changed-IsCounted :
    (t : DiffType) (leafs other : GoMap DagLeaf) (d : DagDiff)
    → IsDistinct (keys leafs)
    → Fresh leafs other d
    → IsCounted d
    → IsCounted (find_changed t leafs other d)
unfolding find_changed after has_string
find_changed-IsCounted t [] other d h fresh counted = counted
find_changed-IsCounted t ((j, leaf) ∷ leafs) other d h fresh counted =
    find_changed-IsCounted t leafs other (after t j leaf other d) h.1 still
      (after-IsCounted t j leaf other d (fresh j (rw (bytes_eq_refl j) refl)) counted)
  where
    still : Fresh leafs other (after t j leaf other d)
    still k there absent = elim (Bool-cases (bytes_eq j k)) [
      | inl equal ↦ absurd (cc (sym h.0 ∙ rw (← eq_of_bytes_eq j k equal) at there))
      | inr differ ↦ after_other t j k leaf other d differ ∙ fresh k (rw differ there) absent
    ]

-- What `Diff` is to record of a hash that the first and the second DAG hold or not.
abbrev pub expected : Bytes → Option DagLeaf → Option DagLeaf → Option LeafDiff
expected k none none = none
expected k none (some new) = some (record { diff_type = diff_type_added; hash = k; leaf = new })
expected k (some old) none = some (record { diff_type = diff_type_removed; hash = k; leaf = old })
expected k (some old) (some new) = none

both_loops :
    (k : Bytes) (old new : Option DagLeaf)
    → changed diff_type_removed k old new (changed diff_type_added k new old none)
      ≡ expected k old new
both_loops k none none = refl
both_loops k none (some new) = refl
both_loops k (some old) none = refl
both_loops k (some old) (some new) = refl

-- `Diff` of two DAGs records every hash that is only in the second as added and every hash that is
-- only in the first as removed, each with its leaf, and nothing of the hashes that both or neither
-- hold; its summary counts what it records. The keys of a map are distinct.
pub diff-expected :
    (first second : Dag)
    → IsDistinct (keys first.leafs)
    → IsDistinct (keys second.leafs)
    → (d : DagDiff) × (diff (some first) (some second) ≡ ok d)
      × ((k : Bytes) → lookup k d.diffs ≡ expected k (lookup k first.leafs) (lookup k second.leafs))
      × IsCounted d
unfolding diff lookup count_of
diff-expected first second h1 h2 =
    rw
      (
        copy_map_same (λ v. v) (λ v. refl) first.leafs h1,
        copy_map_same (λ v. v) (λ v. refl) second.leafs h2,
      )
      (
        found,
        refl,
        recorded,
        find_changed-IsCounted diff_type_removed first.leafs second.leafs additions h1 fresh
            counted,
      )
  where
    additions : DagDiff
    additions = find_changed diff_type_added second.leafs first.leafs empty_diff

    found : DagDiff
    found = find_changed diff_type_removed first.leafs second.leafs additions

    recorded :
        (k : Bytes)
        → lookup k found.diffs ≡ expected k (lookup k first.leafs) (lookup k second.leafs)
    recorded k =
        lookup-find_changed diff_type_removed k first.leafs second.leafs additions h1
        ∙ ap (changed diff_type_removed k (lookup k first.leafs) (lookup k second.leafs))
            (lookup-find_changed diff_type_added k second.leafs first.leafs empty_diff h2)
        ∙ both_loops k (lookup k first.leafs) (lookup k second.leafs)

    fresh : Fresh first.leafs second.leafs additions
    fresh k there absent =
        lookup-find_changed diff_type_added k second.leafs first.leafs empty_diff h2
        ∙ rw absent refl

    counted : IsCounted additions
    counted =
        find_changed-IsCounted diff_type_added second.leafs first.leafs empty_diff h2
          (λ k there absent. refl) (record { added = refl; removed = refl; total = refl })
