-- ===== src/Dag/Branch.antt =====
-- dag/leaves.go: the branches of a built leaf, as `GetBranch` gives and `VerifyBranch` checks them.
use scionic_merkle_tree_go.Common.{
  ℕ, ◌^◌, ◌≤◌, ◌<◌, ◌≡◌, refl, sym, true, Option, some, none, List, [], ◌∷◌, Bytes, length,
  get_elem?, ok, GoMap, arith, >>=-eq-ok, ok-injective, lt→ltb, has_string,
}
use scionic_merkle_tree_go.Dag.Types.{ClassicTreeBranch, DagLeaf, DagLeafBuilder, Checked, Codec}
use scionic_merkle_tree_go.Merkle.Defs.{verify, Proof}
use scionic_merkle_tree_go.Merkle.Tree.{MerkleTree, get_index_for_key}
use scionic_merkle_tree_go.Tree.{build, add_links, create_tree}
use scionic_merkle_tree_go.Tree.Index.{build-verify}
use scionic_merkle_tree_go.Dag.Leaf.{
  build_leaf, leaf_of, merkle_root_of, from_merkle, get_branch, verify_branch,
}
use scionic_merkle_tree_go.Dag.Verified.{build_leaf-BuiltLeaf}
use scionic_merkle_tree_go.Dag.Children.{length-stored_links, from_merkle_ok}

-- What a leaf with several links holds: the tree over them and its root.
merkle_root_of_many :
    (sha256 : Bytes → Bytes) (links : List Bytes) (rooted : Bytes × Option MerkleTree)
    → 1 < length links
    → merkle_root_of sha256 links ≡ ok rooted
    → (t : MerkleTree) × (build sha256 (add_links create_tree links) ≡ ok t)
      × (rooted ≡ (t.root, some t))
unfolding merkle_root_of
merkle_root_of_many sha256 [] rooted many e = absurd (omega arith)
merkle_root_of_many sha256 (link ∷ []) rooted many e = absurd (omega arith)
merkle_root_of_many sha256 (link ∷ next ∷ links) rooted many e =
    let given = build sha256 (add_links create_tree (link ∷ next ∷ links)) in
    let keep : MerkleTree → Checked (Bytes × Option MerkleTree) =
      λ tree. ok (tree.root, some tree) in
    let (tree, built, last) = >>=-eq-ok (from_merkle given) keep e in
    (tree, from_merkle_ok given tree built, sym (ok-injective last))

branch_at :
    (leaf : DagLeaf) (t : MerkleTree) (link : Bytes) (i : ℕ) (p : Proof)
    → 1 < length leaf.links
    → leaf.merkle_tree ≡ some t
    → get_index_for_key t link ≡ some i
    → get_elem? t.proofs i ≡ some p
    → get_branch leaf link ≡ ok (some (record { leaf = link; proof = some p }))
unfolding get_branch
branch_at leaf t link i p many tree index stored =
    rw (lt→ltb 1 (length leaf.links) many, tree, index, stored) refl

pub verify_branch_ok :
    (codec : Codec) (leaf : DagLeaf) (link : Bytes) (p : Proof) (root : Bytes)
    → leaf.classic_merkle_root ≡ some root
    → verify codec.sha256 (some (ok link)) (some p) root none ≡ ok tt
    → verify_branch codec leaf (record { leaf = link; proof = some p }) ≡ ok tt
unfolding verify_branch
verify_branch_ok codec leaf link p root same verified = rw (same, verified) refl

-- A leaf that `BuildLeaf` makes over at least two links, and at most 2 ^ 32, gives for each of its
-- links a branch, and that branch passes its `VerifyBranch`.
pub build_leaf-get_branch :
    (codec : Codec) (b : DagLeafBuilder) (additional_data : Option (GoMap Bytes)) (leaf : DagLeaf)
    (link : Bytes)
    → build_leaf codec b additional_data ≡ ok leaf
    → 1 < length b.links
    → length b.links ≤ 2 ^ 32
    → has_string link b.links ≡ true
    → (branch : ClassicTreeBranch) × (get_branch leaf link ≡ ok (some branch))
      × (branch.leaf ≡ link)
      × (verify_branch codec leaf branch ≡ ok tt)
unfolding leaf_of
build_leaf-get_branch codec b more leaf link e many few there =
    let built = build_leaf-BuiltLeaf codec b more leaf e in
    let (t, made, rooted) = merkle_root_of_many codec.sha256 b.links built.rooted many built.made in
    let (i, p, index, stored, verified) = build-verify codec.sha256 b.links t link made few there in
    rw (built.same, rooted)
      (
        record { leaf = link; proof = some p },
        branch_at (leaf_of codec b more (t.root, some t) built.cid) t link i p
            (omega (arith, length-stored_links b.leaf_type b.links)) refl index stored,
        refl,
        verify_branch_ok codec (leaf_of codec b more (t.root, some t) built.cid) link p t.root refl
            verified,
      )
