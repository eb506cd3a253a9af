-- ===== src/Dag/RootVerified.antt =====
-- dag/leaves.go and dag/dag.go: `BuildRootLeaf` over a builder, and `VerifyRootLeaf` of the result.
use scionic_merkle_tree_go.Dag.Leaf.{add_length}
use scionic_merkle_tree_go.Dag.Size.{length_or_zero}
use scionic_merkle_tree_go.Common.{
  ℕ, ◌+◌, ◌≡◌, refl, sym, ap, ◌∙◌, subst, Option, some, none, List, [], Bytes, length, ok, GoMap,
  lookup, sort_strings, arith, inl, inr, Bool-cases, bytes_eq_refl, ==_iff,
}
use scionic_merkle_tree_go.Dag.Types.{
  DagLeaf, Dag, DagStats, to_ℕ, DagBuilder, DagLeafBuilder, RootData, Codec,
}
use scionic_merkle_tree_go.Dag.Sorting.{
  sort_map_by_keys, sort_map_by_keys_again, sort_map_for_verification-sort_map_by_keys,
}
use scionic_merkle_tree_go.Dag.Leaf.{root_leaf_of, root_data, sum_root, verify_content}
use scionic_merkle_tree_go.Dag.Size.{calculate_total_content_size}
use scionic_merkle_tree_go.Dag.Builder.{build_root_leaf, put_root, build_dag}
use scionic_merkle_tree_go.Dag.Root.{
  verify_root_leaf, with_root_bytes, root_data_of, verify_sizes, verify_sizes_if_full,
  can_check_sizes, children_dag_size,
}
use scionic_merkle_tree_go.Dag.Stats.{IsExact, calculate_total_content_size-insert}
use scionic_merkle_tree_go.Dag.Verified.{verify_content_built}
use scionic_merkle_tree_go.Merkle.Tree.{MerkleTree}
use scionic_merkle_tree_go.Dag.RootBuilt.{
  build_root_leaf_with_stats-BuiltRoot, children_dag_size-insert,
}

-- The struct with other pairs in the place of the additional data.
abbrev pub with_pairs : Option (List (Bytes × Bytes)) → RootData → RootData
with_pairs pairs d = record {
  base = record {
    item_name = d.base.item_name;
    leaf_type = d.base.leaf_type;
    merkle_root = d.base.merkle_root;
    current_link_count = d.base.current_link_count;
    content_hash = d.base.content_hash;
    additional_data = pairs;
  };
  leaf_count = d.leaf_count;
  content_size = d.content_size;
  dag_size = d.dag_size;
}

module _ (codec : Codec) (b : DagLeafBuilder) (stats : DagStats) (more : Option (GoMap Bytes)) where
  root_data_of-root_leaf_of :
      (rooted : Bytes × Option MerkleTree) (size dag_size : ℕ) (c : Bytes)
      → root_data_of (root_leaf_of codec b stats more rooted size c) dag_size
        ≡ root_data codec b stats rooted.0 dag_size (some (sort_map_by_keys more))
  unfolding root_data_of root_leaf_of root_data
  root_data_of-root_leaf_of (root, tree) size dag_size c =
      rw (sort_map_by_keys_again more, sort_map_by_keys_again more) refl

  with_root_bytes-root_leaf_of :
      (rooted : Bytes × Option MerkleTree) (size : ℕ) (c : Bytes)
      → with_root_bytes (root_leaf_of codec b stats more rooted size c)
        ≡ root_leaf_of codec b stats more rooted size c
  unfolding with_root_bytes root_leaf_of
  with_root_bytes-root_leaf_of (root, tree) size c = refl

-- The struct that is measured before the additional data is sorted is as long as the sorted one.
measured_again :
    (codec : Codec) (b : DagLeafBuilder) (stats : DagStats) (more : Option (GoMap Bytes))
    (root temp : Bytes)
    → ((d : RootData) (x : Bytes)
        → codec.marshal_root (with_pairs none d) ≡ ok x
        → (y : Bytes) × (codec.marshal_root (with_pairs (some []) d) ≡ ok y)
          × (length y ≡ length x))
    → codec.marshal_root (root_data codec b stats root 0 more) ≡ ok temp
    → (y : Bytes) × (codec.marshal_root
          (root_data codec b stats root 0 (some (sort_map_by_keys more)))
        ≡ ok y)
      × (length y ≡ length temp)
unfolding root_data sort_strings sort_map_by_keys
measured_again codec b stats none root temp alike e =
    alike (root_data codec b stats root 0 none) temp e
measured_again codec b stats (some m) root temp alike e =
    (temp, rw (sort_map_for_verification-sort_map_by_keys m) e, refl)

verify_sizes_exact :
    (codec : Codec) (leaf : DagLeaf) (leafs : GoMap DagLeaf) (children : ℕ) (temp : Bytes)
    → children_dag_size codec leaf.hash leafs ≡ ok children
    → codec.marshal_root (root_data_of leaf 0) ≡ ok temp
    → leaf.content_size ≡ calculate_total_content_size leafs
    → leaf.dag_size ≡ children + length temp
    → verify_sizes codec leaf leafs ≡ ok tt
unfolding verify_sizes
verify_sizes_exact codec leaf leafs children temp e1 e2 e3 e4 =
    rw (e1, e2, (==_iff _ _).1 e3, (==_iff _ _).1 e4) refl

verify_sizes_if_full_exact :
    (codec : Codec) (leaf : DagLeaf) (dag : Dag)
    → verify_sizes codec leaf dag.leafs ≡ ok tt
    → verify_sizes_if_full codec leaf (some dag) ≡ ok tt
unfolding verify_sizes_if_full
verify_sizes_if_full_exact codec leaf dag h = elim (Bool-cases (can_check_sizes leaf dag.leafs)) [
  | inl full ↦ rw full h
  | inr partial ↦ rw partial refl
]

verify_root_leaf_exact :
    (codec : Codec) (leaf : DagLeaf) (dag : Dag) (c : Bytes)
    → with_root_bytes leaf ≡ leaf
    → verify_sizes codec leaf dag.leafs ≡ ok tt
    → sum_root codec (root_data_of leaf leaf.dag_size) ≡ ok c
    → codec.cid_decode leaf.hash ≡ ok c
    → verify_content codec leaf.content leaf.content_hash ≡ ok tt
    → verify_root_leaf codec leaf (some dag) ≡ (leaf, ok tt)
unfolding verify_root_leaf
verify_root_leaf_exact codec leaf dag c same sizes summed decoded fits =
    rw
      (
        same,
        verify_sizes_if_full_exact codec leaf dag sizes,
        summed,
        decoded,
        bytes_eq_refl c,
        fits,
      )
      refl

-- A root leaf that `BuildRootLeaf` makes from a builder with exact statistics passes
-- `VerifyRootLeaf` in the DAG that the builder gives once the root is in its map: the content size
-- and the DAG size that it holds are the ones that the verification computes from the leaves. The
-- root's hash is to be new, decoding a CID's text is to give the CID, and a nil slice is to be
-- encoded in as many bytes as an empty one.
pub build_root_leaf-verify_root_leaf :
    (codec : Codec) (b : DagLeafBuilder) (builder : DagBuilder)
    (additional_data : Option (GoMap Bytes)) (root : DagLeaf)
    → ((c : Bytes) → codec.cid_decode (codec.cid_string c) ≡ ok c)
    → ((d : RootData) (x : Bytes)
        → codec.marshal_root (with_pairs none d) ≡ ok x
        → (y : Bytes) × (codec.marshal_root (with_pairs (some []) d) ≡ ok y)
          × (length y ≡ length x))
    → IsExact codec builder
    → lookup root.hash builder.leafs ≡ none
    → build_root_leaf codec b (some builder) additional_data ≡ ok root
    → verify_root_leaf codec root (some (build_dag (put_root builder root) root.hash))
      ≡ (root, ok tt)
unfolding build_root_leaf put_root root_leaf_of
build_root_leaf-verify_root_leaf codec b builder more root decode alike exact absent e =
    let built = build_root_leaf_with_stats-BuiltRoot codec b builder.stats more root e in
    subst
      (λ (r : DagLeaf).
        lookup r.hash builder.leafs ≡ none
        → verify_root_leaf codec r (some (build_dag (put_root builder r) r.hash)) ≡ (r, ok tt))
      (sym built.same) (verified built.rooted built.temp built.cid built.measured built.summed)
      absent
  where
    size : Bytes → ℕ
    size temp = to_ℕ builder.stats.dag_size + length temp

    leaf : Bytes × Option MerkleTree → Bytes → Bytes → DagLeaf
    leaf rooted temp cid = root_leaf_of codec b builder.stats more rooted (size temp) cid

    grown : (n : ℕ) (bytes : Option Bytes) → add_length codec n bytes ≡ n + length_or_zero bytes
    grown n none = omega arith
    grown n (some bytes) = refl

    verified :
        (rooted : Bytes × Option MerkleTree) (temp cid : Bytes)
        → codec.marshal_root (root_data codec b builder.stats rooted.0 0 more) ≡ ok temp
        → sum_root codec
            (root_data codec b builder.stats rooted.0 (size temp) (some (sort_map_by_keys more)))
          ≡ ok cid
        → lookup (leaf rooted temp cid).hash builder.leafs ≡ none
        → verify_root_leaf codec
            (leaf rooted temp cid)
            (some (build_dag (put_root builder (leaf rooted temp cid)) (leaf rooted temp cid).hash))
          ≡ (leaf rooted temp cid, ok tt)
    verified (mr, tree) temp cid measured summed absent =
        let r = leaf (mr, tree) temp cid in
        let (again, made, long) =
          measured_again codec b builder.stats more mr temp alike measured in
        let hashed = root_data_of-root_leaf_of codec b builder.stats more (mr, tree) (size temp) in
        let dag = build_dag (put_root builder r) r.hash in
        let content = to_ℕ builder.stats.content_size in
        verify_root_leaf_exact codec r dag cid
          (with_root_bytes-root_leaf_of codec b builder.stats more (mr, tree) (size temp) cid)
          (verify_sizes_exact codec r dag.leafs exact.total again
            (children_dag_size-insert codec r builder.leafs exact.total exact.keyed absent
              exact.sizes)
            (ap codec.marshal_root (hashed 0 cid) ∙ made)
            (omega (
              arith,
              grown content b.leaf_bytes,
              ap to_ℕ exact.content_size,
              calculate_total_content_size-insert r.hash r builder.leafs absent,
            ))
            (omega (arith, ap to_ℕ exact.dag_size, long)))
          (ap (sum_root codec) (hashed (size temp) cid) ∙ summed) (decode cid)
          (verify_content_built codec b.leaf_bytes)
