-- ===== src/Dag/Children.antt =====
-- dag/leaves.go: a built leaf's Merkle root against its links, as `VerifyChildrenAgainstMerkleRoot`
-- checks it.
use scionic_merkle_tree_go.Merkle.Defs.{MerkleError}
use scionic_merkle_tree_go.Common.{
  ℕ, suc, ◌≡◌, refl, sym, ap, ◌∙◌, subst, false, Option, some, List, [], ◌∷◌, Bytes, length, ◌==◌,
  bytes_eq, Result, ok, err, GoMap, sort_strings, arith, inl, inr, Bool-cases, >>=-eq-ok,
  ok-injective, bytes_eq_refl, ==_iff, length-sort_strings,
}
use scionic_merkle_tree_go.Dag.Types.{
  LeafType, directory_leaf_type, DagLeaf, DagLeafBuilder, Checked, Codec,
}
use scionic_merkle_tree_go.Merkle.Tree.{MerkleTree}
use scionic_merkle_tree_go.Tree.{build, add_links, create_tree}
use scionic_merkle_tree_go.Tree.Sets.{SameStrings, has_string-sort_strings}
use scionic_merkle_tree_go.Tree.Links.{build-SameStrings}
use scionic_merkle_tree_go.Dag.Sorting.{or_empty}
use scionic_merkle_tree_go.Dag.Leaf.{
  build_leaf, leaf_of, merkle_root_of, from_merkle, stored_links,
  verify_children_against_merkle_root, verify_rebuilt_root,
}
use scionic_merkle_tree_go.Dag.Verified.{build_leaf-BuiltLeaf}

pub length-stored_links :
    (t : LeafType) (links : List Bytes) → length (stored_links t links) ≡ length links
unfolding stored_links
length-stored_links t links = elim (Bool-cases (bytes_eq t directory_leaf_type)) [
  | inl directory ↦ rw directory (length-sort_strings links)
  | inr file ↦ rw file refl
]

stored_links-SameStrings :
    (t : LeafType) (links : List Bytes) → SameStrings (stored_links t links) links
unfolding stored_links
stored_links-SameStrings t links k = elim (Bool-cases (bytes_eq t directory_leaf_type)) [
  | inl directory ↦ rw directory (has_string-sort_strings k links)
  | inr file ↦ rw file refl
]

stored_links_one : (t : LeafType) (link : Bytes) → stored_links t (link ∷ []) ≡ link ∷ []
unfolding stored_links sort_strings
stored_links_one t link = elim (Bool-cases (bytes_eq t directory_leaf_type)) [
  | inl directory ↦ rw directory refl
  | inr file ↦ rw file refl
]

verify_rebuilt_root_ok :
    (codec : Codec) (leaf : DagLeaf) (tree : MerkleTree)
    → build codec.sha256 (add_links create_tree leaf.links) ≡ ok tree
    → or_empty leaf.classic_merkle_root ≡ tree.root
    → verify_rebuilt_root codec leaf ≡ ok tt
unfolding verify_rebuilt_root
verify_rebuilt_root_ok codec leaf tree made same = rw (made, same, bytes_eq_refl tree.root) refl

verify_children_many :
    (codec : Codec) (leaf : DagLeaf) (n : ℕ)
    → leaf.current_link_count ≡ suc (suc n)
    → length leaf.links ≡ suc (suc n)
    → verify_children_against_merkle_root codec leaf ≡ verify_rebuilt_root codec leaf
unfolding verify_children_against_merkle_root
verify_children_many codec leaf n count size =
    let some_link : (suc (suc n) == 0) ≡ false = ground arith in
    let not_one : (suc (suc n) == 1) ≡ false = ground arith in
    rw (count, size, some_link, (==_iff (suc (suc n)) (suc (suc n))).1 refl, not_one) refl

pub from_merkle_ok :
    (m : Result MerkleError MerkleTree) (t : MerkleTree) → from_merkle m ≡ ok t → m ≡ ok t
from_merkle_ok (ok a) t h = ap ok (ok-injective h)
from_merkle_ok (err x) t h = absurd (cc h)

-- The links of a leaf as they are stored, with the root over the links that were given.
pub children_verified :
    (codec : Codec) (leaf : DagLeaf) (links : List Bytes) (rooted : Bytes × Option MerkleTree)
    → merkle_root_of codec.sha256 links ≡ ok rooted
    → leaf.links ≡ stored_links leaf.leaf_type links
    → leaf.current_link_count ≡ length links
    → or_empty leaf.classic_merkle_root ≡ rooted.0
    → verify_children_against_merkle_root codec leaf ≡ ok tt
unfolding verify_children_against_merkle_root merkle_root_of
children_verified codec leaf [] rooted made stored count root = rw count refl
children_verified codec leaf (link ∷ []) rooted made stored count root =
    rw
      (
        count,
        stored,
        stored_links_one leaf.leaf_type link,
        root,
        ← ok-injective made,
        bytes_eq_refl link,
      )
      refl
children_verified codec leaf (link ∷ next ∷ links) rooted made stored count root =
    let all = link ∷ next ∷ links in
    let given = build codec.sha256 (add_links create_tree all) in
    let keep : MerkleTree → Checked (Bytes × Option MerkleTree) =
      λ tree. ok (tree.root, some tree) in
    let (tree, built, e) = >>=-eq-ok (from_merkle given) keep made in
    let size : length leaf.links ≡ length all =
      ap length stored ∙ length-stored_links leaf.leaf_type all in
    let same =
      build-SameStrings codec.sha256 leaf.links all (
        subst (λ l. SameStrings l all) (sym stored)
          (stored_links-SameStrings leaf.leaf_type all)) in
    verify_children_many codec leaf (length links) count size
    ∙ verify_rebuilt_root_ok codec leaf tree (same ∙ from_merkle_ok given tree built)
        (root ∙ sym (ap (λ (r : Bytes × Option MerkleTree). r.0) (ok-injective e)))

-- Every leaf that `BuildLeaf` returns passes `VerifyChildrenAgainstMerkleRoot`: the root that it
-- stores is the one over the links that it stores, though a directory's links are sorted after the
-- root is computed.
pub build_leaf-verify_children_against_merkle_root :
    (codec : Codec) (b : DagLeafBuilder) (additional_data : Option (GoMap Bytes)) (leaf : DagLeaf)
    → build_leaf codec b additional_data ≡ ok leaf
    → verify_children_against_merkle_root codec leaf ≡ ok tt
unfolding leaf_of
build_leaf-verify_children_against_merkle_root codec b more leaf e =
    let built = build_leaf-BuiltLeaf codec b more leaf e in
    rw built.same (verified built.rooted built.cid built.made)
  where
    verified :
        (rooted : Bytes × Option MerkleTree) (cid : Bytes)
        → merkle_root_of codec.sha256 b.links ≡ ok rooted
        → verify_children_against_merkle_root codec (leaf_of codec b more rooted cid) ≡ ok tt
    verified (root, tree) cid made =
        children_verified codec (leaf_of codec b more (root, tree) cid) b.links (root, tree) made
          refl refl refl
