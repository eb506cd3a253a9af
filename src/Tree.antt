-- ===== src/Tree.antt =====
-- tree/tree.go: the tree over a leaf's links, and the verification of a list of blocks.
pub mod Sets
pub mod Links
pub mod Index
use scionic_merkle_tree_go.Common.{
  Bool, true, false, Option, some, none, List, [], ◌∷◌, map, Bytes, length, ◌==◌, if◌then◌else◌, ok,
  err, GoMap, insert,
}
use scionic_merkle_tree_go.Merkle.Defs.{Checked, DataBlock, Proof, verify}
use scionic_merkle_tree_go.Merkle.Tree.{MerkleTree, new, verify_block}

abbrev pub TreeContent : Type 0
TreeContent = GoMap DataBlock

abbrev pub create_tree : TreeContent
create_tree = []

-- A `Leaf`, whose `Serialize` gives the bytes of its text.
abbrev pub create_leaf : Bytes → DataBlock
create_leaf text = ok text

unfoldable pub add_leaf : TreeContent → Bytes → Bytes → TreeContent
unfolding insert
add_leaf tc key text = insert key (create_leaf text) tc

-- `for _, link := range links { builder.AddLeaf(link, link) }`
unfoldable pub add_links : TreeContent → List Bytes → TreeContent
unfolding add_leaf
add_links tc [] = tc
add_links tc (link ∷ links) = add_links (add_leaf tc link link) links

module _ (sha256 : Bytes → Bytes) where
  unfoldable pub build : TreeContent → Checked MerkleTree
  unfolding new
  build tc = new sha256 none tc

  unfoldable verify_all :
      List (Option DataBlock)
      → (Option DataBlock → Option Proof → Checked (Unit {0}))
      → List (Option Proof)
      → Bool
  verify_all [] check proofs = true
  verify_all (leaf ∷ leafs) check [] = false
  verify_all (leaf ∷ leafs) check (proof ∷ proofs) = elim (check leaf proof) [
    | ok _ ↦ verify_all leafs check proofs
    | err _ ↦ false
  ]

  -- `VerifyTree`
  unfoldable pub verify_tree : MerkleTree → List (Option DataBlock) → Bool
  unfolding verify_all
  verify_tree tree leafs =
      if length tree.proofs == length leafs
      then verify_all leafs (verify_block sha256 tree) (map some tree.proofs)
      else false

  -- `VerifyRoot`
  unfoldable pub verify_root : Bytes → List (Option Proof) → List (Option DataBlock) → Bool
  unfolding verify_all
  verify_root root proofs leafs =
      if length proofs == length leafs
      then verify_all leafs (λ leaf proof. verify sha256 leaf proof root none) proofs
      else false
