-- ===== src/Diff.antt =====
-- diff/diff.go: the difference of two DAGs.
pub mod Recorded
pub mod Exact
use scionic_merkle_tree_go.Common.{
  ℕ, ◌+◌, Bool, true, false, Option, some, none, [], ◌∷◌, Bytes, if◌then◌else◌, Result, ok, err,
  GoMap, lookup, insert, has_key,
}
use scionic_merkle_tree_go.Dag.Types.{DagLeaf, Dag}
use scionic_merkle_tree_go.Dag.Clone.{copy_map}

pub data DiffType : Type 0 where
  diff_type_added diff_type_removed : DiffType

pub record LeafDiff : Type 0 where
  pub diff_type : DiffType
  pub hash : Bytes
  pub leaf : DagLeaf

pub record DiffSummary : Type 0 where
  pub added : ℕ
  pub removed : ℕ
  pub total : ℕ

pub record DagDiff : Type 0 where
  pub diffs : GoMap LeafDiff
  pub summary : DiffSummary

pub data DiffError : Type 0 where
  source_is_nil target_is_nil : DiffError

-- `diff.Summary.Added++` or `diff.Summary.Removed++`, and `diff.Summary.Total++`
abbrev pub count : DiffType → DiffSummary → DiffSummary
count diff_type_added s = record { added = s.added + 1; removed = s.removed; total = s.total + 1 }
count diff_type_removed s = record { added = s.added; removed = s.removed + 1; total = s.total + 1 }

unfoldable pub record_leaf : DiffType → Bytes → DagLeaf → DagDiff → DagDiff
unfolding insert
record_leaf t hash leaf d = record {
  diffs = insert hash (record { diff_type = t; hash = hash; leaf = leaf }) d.diffs;
  summary = count t d.summary;
}

-- The loops of `Diff`: every leaf of one map whose hash is not in the other is recorded.
unfoldable pub find_changed : DiffType → GoMap DagLeaf → GoMap DagLeaf → DagDiff → DagDiff
unfolding record_leaf lookup
find_changed t [] other d = d
find_changed t ((hash, leaf) ∷ leafs) other d =
    find_changed t leafs other (if has_key hash other then d else record_leaf t hash leaf d)

abbrev pub empty_diff : DagDiff
empty_diff = record { diffs = []; summary = record { added = 0; removed = 0; total = 0 } }

-- `Diff`
unfoldable pub diff : Option Dag → Option Dag → Result DiffError DagDiff
unfolding copy_map find_changed
diff none second = err source_is_nil
diff (some first) none = err target_is_nil
diff (some first) (some second) =
    let old_leafs = copy_map (λ v. v) first.leafs [] in
    let new_leafs = copy_map (λ v. v) second.leafs [] in
    ok (
      find_changed diff_type_removed old_leafs new_leafs
        (find_changed diff_type_added new_leafs old_leafs empty_diff))

abbrev pub is_type : DiffType → DiffType → Bool
is_type diff_type_added diff_type_added = true
is_type diff_type_removed diff_type_removed = true
is_type _ _ = false

-- The loops of `GetAddedLeaves` and `GetRemovedLeaves`.
unfoldable pub leaves_of_type : DiffType → GoMap LeafDiff → GoMap DagLeaf → GoMap DagLeaf
unfolding insert
leaves_of_type t [] leaves = leaves
leaves_of_type t ((hash, d) ∷ diffs) leaves =
    leaves_of_type t diffs (if is_type d.diff_type t then insert hash d.leaf leaves else leaves)

unfoldable pub get_added_leaves : DagDiff → GoMap DagLeaf
unfolding leaves_of_type
get_added_leaves d = leaves_of_type diff_type_added d.diffs []

unfoldable pub get_removed_leaves : DagDiff → GoMap DagLeaf
unfolding leaves_of_type
get_removed_leaves d = leaves_of_type diff_type_removed d.diffs []
