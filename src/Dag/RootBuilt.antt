-- ===== src/Dag/RootBuilt.antt =====
-- dag/leaves.go: what `BuildRootLeafWithStats` has done when it succeeds.
use scionic_merkle_tree_go.Common.{
  ℕ, ◌+◌, ◌≡◌, sym, not, Option, some, none, [], ◌∷◌, Bytes, length, bytes_eq, ok, ◌>>=◌, guard,
  GoMap, lookup, insert, inl, inr, Bool-cases, >>=-eq-ok, ok-injective, bytes_eq_refl,
}
use scionic_merkle_tree_go.Dag.Types.{
  DagLeaf, DagStats, to_ℕ, DagLeafBuilder, leaf_without_type, negative_statistics, Checked, Codec,
}
use scionic_merkle_tree_go.Dag.Sorting.{sort_map_by_keys}
use scionic_merkle_tree_go.Dag.Leaf.{
  build_root_leaf_with_stats, root_leaf_of, root_data, has_negative, merkle_root_of, sum_root,
}
use scionic_merkle_tree_go.Dag.Size.{serialized_leaf_size, calculate_total_dag_size}
use scionic_merkle_tree_go.Dag.Root.{children_dag_size}
use scionic_merkle_tree_go.Dag.Stats.{IsKeyed}
use scionic_merkle_tree_go.Merkle.Tree.{MerkleTree}

-- A root leaf that was built, and what it was built from.
pub record BuiltRoot (codec : Codec) (b : DagLeafBuilder) (stats : DagStats)
    (more : Option (GoMap Bytes)) (leaf : DagLeaf) : Type 0 where
  pub rooted : Bytes × Option MerkleTree
  pub temp : Bytes
  pub cid : Bytes
  pub measured : codec.marshal_root (root_data codec b stats rooted.0 0 more) ≡ ok temp
  pub summed :
      sum_root codec (
        root_data codec b stats rooted.0
          (to_ℕ stats.dag_size + length temp)
          (some (sort_map_by_keys more)))
      ≡ ok cid
  pub same : leaf ≡ root_leaf_of codec b stats more rooted (to_ℕ stats.dag_size + length temp) cid

pub build_root_leaf_with_stats-BuiltRoot :
    (codec : Codec) (b : DagLeafBuilder) (stats : DagStats) (more : Option (GoMap Bytes))
    (leaf : DagLeaf)
    → build_root_leaf_with_stats codec b stats more ≡ ok leaf
    → BuiltRoot codec b stats more leaf
unfolding build_root_leaf_with_stats
build_root_leaf_with_stats-BuiltRoot codec b stats more leaf e =
    let size : Bytes → ℕ = λ temp. to_ℕ stats.dag_size + length temp in
    let last : Bytes × Option MerkleTree → Bytes → Bytes → Checked DagLeaf =
      λ rooted temp c. ok (root_leaf_of codec b stats more rooted (size temp) c) in
    let sum : Bytes × Option MerkleTree → Bytes → Checked Bytes = λ rooted temp.
      sum_root codec
        (root_data codec b stats rooted.0 (size temp) (some (sort_map_by_keys more))) in
    let measure : Bytes × Option MerkleTree → Checked Bytes =
      λ rooted. codec.marshal_root (root_data codec b stats rooted.0 0 more) in
    let after_root : Bytes × Option MerkleTree → Checked DagLeaf =
      λ rooted. measure rooted >>= λ temp. sum rooted temp >>= last rooted temp in
    let roots = merkle_root_of codec.sha256 b.links in
    let (u, typed, e1) =
      >>=-eq-ok (guard (not (bytes_eq b.leaf_type [])) leaf_without_type)
        (λ _.
          guard (not (has_negative codec stats)) negative_statistics >>= λ _. roots >>= after_root)
        e in
    let (v, signs, e2) =
      >>=-eq-ok (guard (not (has_negative codec stats)) negative_statistics)
        (λ _. roots >>= after_root) e1 in
    let (rooted, made, e3) = >>=-eq-ok roots after_root e2 in
    let (temp, measured, e4) =
      >>=-eq-ok (measure rooted) (λ temp. sum rooted temp >>= last rooted temp) e3 in
    let (c, summed, e5) = >>=-eq-ok (sum rooted temp) (last rooted temp) e4 in
    record {
      rooted = rooted;
      temp = temp;
      cid = c;
      measured = measured;
      summed = summed;
      same = sym (ok-injective e5);
    }

-- The leaves of the builder are the children that the root's size counts.
pub children_dag_size-insert :
    (codec : Codec) (root : DagLeaf) (leafs : GoMap DagLeaf) (total : ℕ)
    → IsKeyed leafs
    → lookup root.hash leafs ≡ none
    → calculate_total_dag_size codec leafs ≡ ok total
    → children_dag_size codec root.hash (insert root.hash root leafs) ≡ ok total
unfolding children_dag_size insert lookup calculate_total_dag_size
children_dag_size-insert codec root [] total keyed absent t = rw (bytes_eq_refl root.hash) t
children_dag_size-insert codec root ((k, leaf) ∷ leafs) total keyed absent t =
    elim (Bool-cases (bytes_eq k root.hash)) [
      | inl equal ↦ absurd (cc (rw equal at absent))
      | inr other ↦
          let sum : ℕ → ℕ → Checked ℕ = λ first rest. ok (first + rest) in
          let (first, e1, t1) =
            >>=-eq-ok (serialized_leaf_size codec (some leaf))
              (λ first. calculate_total_dag_size codec leafs >>= sum first) t in
          let (rest, e2, t2) = >>=-eq-ok (calculate_total_dag_size codec leafs) (sum first) t1 in
          rw
            (
              other,
              rw keyed.0 at other,
              e1,
              children_dag_size-insert codec root leafs rest keyed.1 (rw other at absent) e2,
            )
            t2
    ]
