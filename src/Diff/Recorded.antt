-- ===== src/Diff/Recorded.antt =====
-- diff/diff.go: what the loops of `Diff` record of each hash.
use scionic_merkle_tree_go.Common.{
  ◌≡◌, refl, ◌∙◌, false, Option, some, none, [], ◌∷◌, Bytes, if◌then◌else◌, bytes_eq, GoMap, keys,
  lookup, has_key, arith, inl, inr, Bool-cases, Option-cases, bytes_eq_refl, eq_of_bytes_eq,
  lookup-insert, has_string,
}
use scionic_merkle_tree_go.Dag.Types.{DagLeaf}
use scionic_merkle_tree_go.Tree.Sets.{IsDistinct}
use scionic_merkle_tree_go.Diff.{DiffType, LeafDiff, DagDiff, record_leaf, find_changed}

-- What is known of a hash after the leaves of one map have been compared with another map.
abbrev pub changed :
    DiffType → Bytes → Option DagLeaf → Option DagLeaf → Option LeafDiff → Option LeafDiff
changed t k none other before = before
changed t k (some leaf) (some _) before = before
changed t k (some leaf) none before = some (record { diff_type = t; hash = k; leaf = leaf })

lookup_absent {ℓ} :
    {V : Type ℓ} (k : Bytes) (m : GoMap V) → has_string k (keys m) ≡ false → lookup k m ≡ none
unfolding lookup has_string
lookup_absent k [] h = refl
lookup_absent k ((j, v) ∷ m) h = ground (arith, lookup_absent k m)

unfoldable pub after : DiffType → Bytes → DagLeaf → GoMap DagLeaf → DagDiff → DagDiff
after t j leaf other d = if has_key j other then d else record_leaf t j leaf d

pub after_other :
    (t : DiffType) (j k : Bytes) (leaf : DagLeaf) (other : GoMap DagLeaf) (d : DagDiff)
    → bytes_eq j k ≡ false
    → lookup k (after t j leaf other d).diffs ≡ lookup k d.diffs
unfolding after record_leaf
after_other t j k leaf other d differ = elim (Option-cases (lookup j other)) [
  | inl absent ↦
      rw
        (
          absent,
          lookup-insert j k (record { diff_type = t; hash = j; leaf = leaf }) d.diffs,
          differ,
        )
        refl
  | inr (old, present) ↦ rw present refl
]

after_same :
    (t : DiffType) (k : Bytes) (leaf : DagLeaf) (other : GoMap DagLeaf) (d : DagDiff)
    → lookup k (after t k leaf other d).diffs
      ≡ changed t k (some leaf) (lookup k other) (lookup k d.diffs)
unfolding after record_leaf
after_same t k leaf other d = elim (Option-cases (lookup k other)) [
  | inl absent ↦
      rw
        (
          absent,
          lookup-insert k k (record { diff_type = t; hash = k; leaf = leaf }) d.diffs,
          bytes_eq_refl k,
        )
        refl
  | inr (old, present) ↦ rw present refl
]

pub lookup-find_changed :
    (t : DiffType) (k : Bytes) (leafs other : GoMap DagLeaf) (d : DagDiff)
    → IsDistinct (keys leafs)
    → lookup k (find_changed t leafs other d).diffs
      ≡ changed t k (lookup k leafs) (lookup k other) (lookup k d.diffs)
unfolding find_changed lookup after
lookup-find_changed t k [] other d h = refl
lookup-find_changed t k ((j, leaf) ∷ leafs) other d h =
    lookup-find_changed t k leafs other (after t j leaf other d) h.1
    ∙ elim (Bool-cases (bytes_eq j k)) [
      | inl equal ↦
          let same : j ≡ k = eq_of_bytes_eq j k equal in
          rw (equal, lookup_absent k leafs (rw same at h.0), same) (after_same t k leaf other d)
      | inr differ ↦ rw (differ, after_other t j k leaf other d differ) refl
    ]
