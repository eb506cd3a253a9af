-- ===== src/Dag/Proofs.antt =====
-- dag/transmission.go: `proofForChild`, the proof of a child against the parent that links it.
use scionic_merkle_tree_go.Common.{
  ℕ, ◌^◌, ◌≤◌, ◌<◌, ◌≡◌, refl, true, false, Option, some, none, Bytes, length, get_elem?, leb,
  if◌then◌else◌, ok, err, ◌>>=◌, arith, has_string,
}
use scionic_merkle_tree_go.Dag.Types.{ClassicTreeBranch, DagLeaf, no_index_for_hash, Checked, Codec}
use scionic_merkle_tree_go.Merkle.Defs.{Proof}
use scionic_merkle_tree_go.Merkle.Tree.{MerkleTree, get_index_for_key}
use scionic_merkle_tree_go.Tree.{build, add_links, create_tree}
use scionic_merkle_tree_go.Tree.Index.{build-verify}
use scionic_merkle_tree_go.Dag.Leaf.{from_merkle, verify_branch}
use scionic_merkle_tree_go.Dag.Branch.{verify_branch_ok}

-- `merkleTree.Proofs[index]`; an index past the proofs, on which Go panics, gives no proof.
unfoldable pub branch_at_index : MerkleTree → Bytes → Option ℕ → Checked ClassicTreeBranch
branch_at_index tree child_hash none = err no_index_for_hash
branch_at_index tree child_hash (some index) =
    ok (record { leaf = child_hash; proof = get_elem? tree.proofs index })

unfoldable pub branch_of : MerkleTree → Bytes → Checked ClassicTreeBranch
unfolding branch_at_index
branch_of tree child_hash = branch_at_index tree child_hash (get_index_for_key tree child_hash)

-- `proofForChild`, for a parent that is not nil; `none` where the parent has at most one link.
unfoldable pub proof_for_child : Codec → DagLeaf → Bytes → Checked (Option ClassicTreeBranch)
unfolding build add_links branch_of
proof_for_child codec parent child_hash = if leb (length parent.links) 1 then ok none else (do
  tree ← from_merkle (build codec.sha256 (add_links create_tree parent.links))
  branch ← branch_of tree child_hash
  ok (some branch))

-- The root of the Merkle tree over a leaf's links is the one that the leaf holds.
pub record HasRoot (codec : Codec) (parent : DagLeaf) : Type 0 where
  pub tree : MerkleTree
  pub built : build codec.sha256 (add_links create_tree parent.links) ≡ ok tree
  pub root : parent.classic_merkle_root ≡ some tree.root

pub branch_of_index :
    (tree : MerkleTree) (child_hash : Bytes) (i : ℕ) (p : Proof)
    → get_index_for_key tree child_hash ≡ some i
    → get_elem? tree.proofs i ≡ some p
    → branch_of tree child_hash ≡ ok (record { leaf = child_hash; proof = some p })
unfolding branch_of
branch_of_index tree child_hash i p index stored = rw (index, stored) refl

-- A parent with several links, at most 2 ^ 32, whose Merkle root is that of the tree over its links,
-- has a proof for each child that it links, and the parent's `VerifyBranch` accepts the proof.
pub proof_for_child-verify_branch :
    (codec : Codec) (parent : DagLeaf) (child_hash : Bytes)
    → HasRoot codec parent
    → 1 < length parent.links
    → length parent.links ≤ 2 ^ 32
    → has_string child_hash parent.links ≡ true
    → (branch : ClassicTreeBranch) × (proof_for_child codec parent child_hash ≡ ok (some branch))
      × (branch.leaf ≡ child_hash)
      × (verify_branch codec parent branch ≡ ok tt)
unfolding proof_for_child
proof_for_child-verify_branch codec parent child_hash own many few linked =
    let t = own.tree in
    let (i, p, index, stored, verified) =
      build-verify codec.sha256 parent.links t child_hash own.built few linked in
    (
      record { leaf = child_hash; proof = some p },
      rw (le→leb_false many, own.built, branch_of_index t child_hash i p index stored) refl,
      refl,
      verify_branch_ok codec parent child_hash p t.root own.root verified,
    )
  where
    le→leb_false : {n : ℕ} → 1 < n → leb n 1 ≡ false
    le→leb_false h = ground arith
