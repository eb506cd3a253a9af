-- ===== src/Dag/GetPartial/Proved.antt =====
-- dag/dag.go: the proofs that a partial DAG stores, one operation after another.
use scionic_merkle_tree_go.Common.{
  ◌^◌, ◌≤◌, ◌<◌, ◌≡◌, refl, sym, ap, ◌∙◌, subst, Bool, true, false, not, ◌&&◌, Option, some, none,
  List, [], ◌∷◌, Bytes, length, ltb, leb, bytes_eq, ok, ◌>>=◌, guard, GoMap, lookup, insert, arith,
  inl, inr, Bool-cases, >>=-eq-ok, guard-eq-ok, ok-injective, ltb→lt, leb→lt, has_string, Entries,
  Entries-insert,
}
use scionic_merkle_tree_go.Dag.Types.{ClassicTreeBranch, DagLeaf, Dag, DagError, Checked, Codec}
use scionic_merkle_tree_go.Merkle.Defs.{verify}
use scionic_merkle_tree_go.Merkle.Tree.{MerkleTree}
use scionic_merkle_tree_go.Tree.{build, add_links, create_tree, create_leaf}
use scionic_merkle_tree_go.Tree.Index.{build-verify}
use scionic_merkle_tree_go.Dag.Sorting.{or_empty}
use scionic_merkle_tree_go.Dag.Leaf.{from_merkle}
use scionic_merkle_tree_go.Dag.Children.{from_merkle_ok}
use scionic_merkle_tree_go.Dag.Clone.{clone, copy_map, clone_branch}
use scionic_merkle_tree_go.Dag.Clone.Same.{clone_bytes_same, clone_branch_same}
use scionic_merkle_tree_go.Dag.Proofs.{branch_of, branch_of_index, proof_for_child, HasRoot}
use scionic_merkle_tree_go.Dag.GetPartial.Steps.{from_leaf-ok}
use scionic_merkle_tree_go.Dag.GetPartial.{
  Found, from_leaf, no_child_hash, with_proof, prove_child, merge_proofs,
}

-- What a map of proofs holds for a child: no proof, or one of this child that the root accepts.
abbrev pub Accepted : Codec → Option Bytes → Bytes → Option ClassicTreeBranch → Type 0
Accepted codec root child none = Unit {0}
Accepted codec root child (some branch) =
    (verify codec.sha256 (some (create_leaf branch.leaf)) branch.proof (or_empty root) none ≡ ok tt)
    × (branch.leaf ≡ child)

abbrev pub Proved : Codec → Option Bytes → GoMap (Option ClassicTreeBranch) → Type 0
Proved codec root proofs = Entries (Accepted codec root) proofs

-- A leaf that holds all its links and the root of the tree over them.
pub record IsWhole (codec : Codec) (k : Bytes) (leaf : DagLeaf) : Type 0 where
  pub named : leaf.hash ≡ k
  pub all_links : leaf.current_link_count ≡ length leaf.links
  pub few : length leaf.links ≤ 2 ^ 32
  pub own_root : 1 < length leaf.links → HasRoot codec leaf
  pub proved : Proved codec leaf.classic_merkle_root leaf.proofs

-- A leaf of a partial DAG under a hash: it has the root of the leaf under that hash in the full one,
-- and its proofs are accepted.
pub record IsDrawn (codec : Codec) (d : Dag) (k : Bytes) (leaf : DagLeaf) : Type 0 where
  pub source : DagLeaf
  pub held : lookup k d.leafs ≡ some source
  pub named : leaf.hash ≡ k
  pub root : leaf.classic_merkle_root ≡ source.classic_merkle_root
  pub proved : Proved codec leaf.classic_merkle_root leaf.proofs

branch_of-Accepted :
    (codec : Codec) (links : List Bytes) (tree : MerkleTree) (child : Bytes)
    (branch : ClassicTreeBranch)
    → build codec.sha256 (add_links create_tree links) ≡ ok tree
    → length links ≤ 2 ^ 32
    → has_string child links ≡ true
    → branch_of tree child ≡ ok branch
    → Accepted codec (some tree.root) child (some branch)
branch_of-Accepted codec links tree child branch made few linked e =
    let (i, p, index, stored, verified) =
      build-verify codec.sha256 links tree child made few linked in
    let same : record { leaf = child; proof = some p } ≡ branch =
      ok-injective (sym (branch_of_index tree child i p index stored) ∙ e) in
    subst (λ b. Accepted codec (some tree.root) child (some b)) same (verified, refl)

copy_map-Proved :
    (codec : Codec) (root : Option Bytes) (proofs cloned : GoMap (Option ClassicTreeBranch))
    → Proved codec root proofs
    → Proved codec root cloned
    → Proved codec root (copy_map clone_branch proofs cloned)
unfolding copy_map
copy_map-Proved codec root [] cloned h k = k
copy_map-Proved codec root ((c, v) ∷ proofs) cloned h k =
    copy_map-Proved codec root proofs (insert c (clone_branch v) cloned) h.1 (
      Entries-insert (Accepted codec root) c (clone_branch v) cloned
        (subst (Accepted codec root c) (sym (clone_branch_same v)) h.0) k)

pub clone-Proved :
    (codec : Codec) (leaf : DagLeaf)
    → Proved codec leaf.classic_merkle_root leaf.proofs
    → Proved codec (clone leaf).classic_merkle_root (clone leaf).proofs
unfolding clone
clone-Proved codec leaf h =
    subst (λ r. Proved codec r (copy_map clone_branch leaf.proofs []))
      (sym (clone_bytes_same leaf.classic_merkle_root))
      (copy_map-Proved codec leaf.classic_merkle_root leaf.proofs [] h tt)

pub clone-root : (leaf : DagLeaf) → (clone leaf).classic_merkle_root ≡ leaf.classic_merkle_root
unfolding clone
clone-root leaf = clone_bytes_same leaf.classic_merkle_root

pub clone-hash : (leaf : DagLeaf) → (clone leaf).hash ≡ leaf.hash
unfolding clone
clone-hash leaf = refl

pub merge_proofs-Proved :
    (codec : Codec) (root : Option Bytes) (proofs merged : GoMap (Option ClassicTreeBranch))
    → Proved codec root proofs
    → Proved codec root merged
    → Proved codec root (merge_proofs proofs merged)
unfolding merge_proofs
merge_proofs-Proved codec root [] merged h k = k
merge_proofs-Proved codec root ((c, v) ∷ proofs) merged h k =
    merge_proofs-Proved codec root proofs (insert c v merged) h.1
      (Entries-insert (Accepted codec root) c v merged h.0 k)

with_proof-Proved :
    (codec : Codec) (leaf : DagLeaf) (child : Bytes) (branch : ClassicTreeBranch)
    → Accepted codec leaf.classic_merkle_root child (some branch)
    → Proved codec leaf.classic_merkle_root leaf.proofs
    → Proved codec leaf.classic_merkle_root (with_proof leaf child branch).proofs
unfolding with_proof
with_proof-Proved codec leaf child branch accepted h =
    Entries-insert (Accepted codec leaf.classic_merkle_root) child (some branch) leaf.proofs
      accepted h

pub with_proof-IsDrawn :
    (codec : Codec) (d : Dag) (k : Bytes) (leaf : DagLeaf) (child : Bytes)
    (branch : ClassicTreeBranch)
    → IsDrawn codec d k leaf
    → Accepted codec leaf.classic_merkle_root child (some branch)
    → IsDrawn codec d k (with_proof leaf child branch)
unfolding with_proof
with_proof-IsDrawn codec d k leaf child branch drawn accepted = record {
  source = drawn.source;
  held = drawn.held;
  named = drawn.named;
  root = drawn.root;
  proved = with_proof-Proved codec leaf child branch accepted drawn.proved;
}

pub clone-IsDrawn :
    (codec : Codec) (d : Dag) (k : Bytes) (leaf : DagLeaf)
    → IsDrawn codec d k leaf
    → IsDrawn codec d k (clone leaf)
clone-IsDrawn codec d k leaf drawn = record {
  source = drawn.source;
  held = drawn.held;
  named = clone-hash leaf ∙ drawn.named;
  root = clone-root leaf ∙ drawn.root;
  proved = clone-Proved codec leaf drawn.proved;
}

pub IsWhole-IsDrawn :
    (codec : Codec) (d : Dag) (k : Bytes) (leaf : DagLeaf)
    → lookup k d.leafs ≡ some leaf
    → IsWhole codec k leaf
    → IsDrawn codec d k leaf
IsWhole-IsDrawn codec d k leaf held whole = record {
  source = leaf;
  held = held;
  named = whole.named;
  root = refl;
  proved = whole.proved;
}

and_first : (a b : Bool) → (a && b) ≡ true → a ≡ true
and_first true b h = refl
and_first false b h = cc

pub prove_child-IsDrawn :
    (codec : Codec) (d : Dag) (k : Bytes) (parent : DagLeaf) (child : Bytes) (result : DagLeaf)
    → lookup k d.leafs ≡ some parent
    → IsWhole codec k parent
    → prove_child codec parent child ≡ ok result
    → IsDrawn codec d k result
unfolding prove_child
prove_child-IsDrawn codec d k parent child result held whole e =
    let drawn = clone-IsDrawn codec d k parent (IsWhole-IsDrawn codec d k parent held whole) in
    elim (Bool-cases (ltb 1 parent.current_link_count)) [
      | inr few ↦ subst (IsDrawn codec d k) (ok-injective (rw few at e)) drawn
      | inl several ↦
          let given = build codec.sha256 (add_links create_tree parent.links) in
          let last : ClassicTreeBranch → Found DagLeaf =
            λ branch. ok (with_proof (clone parent) child branch) in
          let middle : MerkleTree → Found DagLeaf =
            λ tree. from_leaf (branch_of tree child) >>= last in
          let (u, linked, rest) =
            >>=-eq-ok
              (guard (has_string child parent.links && not (bytes_eq child [])) no_child_hash)
              (λ _. from_leaf (from_merkle given) >>= middle) (rw several at e) in
          let (tree, made, more) = >>=-eq-ok (from_leaf (from_merkle given)) middle rest in
          let (branch, found, done) = >>=-eq-ok (from_leaf (branch_of tree child)) last more in
          let built : given ≡ ok tree =
            from_merkle_ok given tree (from_leaf-ok (from_merkle given) tree made) in
          let many : 1 < length parent.links =
            omega (arith, ltb→lt 1 parent.current_link_count several, whole.all_links) in
          let own = whole.own_root many in
          let same_tree : own.tree ≡ tree = ok-injective (sym own.built ∙ built) in
          let accepted =
            branch_of-Accepted codec parent.links tree child branch built whole.few
              (and_first (has_string child parent.links) _ (guard-eq-ok _ no_child_hash linked))
              (from_leaf-ok (branch_of tree child) branch found) in
          let root : (clone parent).classic_merkle_root ≡ some tree.root =
            clone-root parent ∙ own.root ∙ ap (λ t. some t.root) same_tree in
          subst (IsDrawn codec d k) (ok-injective done) (
            with_proof-IsDrawn codec d k (clone parent) child branch drawn
              (subst (λ r. Accepted codec r child (some branch)) (sym root) accepted))
    ]

-- `proofForChild` against a parent of the full DAG.
pub proof_for_child-Accepted :
    (codec : Codec) (k : Bytes) (parent : DagLeaf) (child : Bytes)
    (proof : Option ClassicTreeBranch)
    → IsWhole codec k parent
    → has_string child parent.links ≡ true
    → proof_for_child codec parent child ≡ ok proof
    → Accepted codec parent.classic_merkle_root child proof
unfolding proof_for_child
proof_for_child-Accepted codec k parent child proof whole linked e =
    elim (Bool-cases (leb (length parent.links) 1)) [
      | inl few ↦
          subst (Accepted codec parent.classic_merkle_root child)
            (ok-injective {Problem = DagError} (rw few at e)) tt
      | inr several ↦
          let given = build codec.sha256 (add_links create_tree parent.links) in
          let last : ClassicTreeBranch → Checked (Option ClassicTreeBranch) =
            λ branch. ok (some branch) in
          let middle : MerkleTree → Checked (Option ClassicTreeBranch) =
            λ tree. branch_of tree child >>= last in
          let (tree, made, more) = >>=-eq-ok (from_merkle given) middle (rw several at e) in
          let (branch, found, done) = >>=-eq-ok (branch_of tree child) last more in
          let built : given ≡ ok tree = from_merkle_ok given tree made in
          let own = whole.own_root (leb→lt (length parent.links) 1 several) in
          let same_tree : own.tree ≡ tree = ok-injective (sym own.built ∙ built) in
          let root : parent.classic_merkle_root ≡ some tree.root =
            own.root ∙ ap (λ t. some t.root) same_tree in
          subst (λ r. Accepted codec r child proof) (sym root)
            (subst (Accepted codec (some tree.root) child) (ok-injective done) (
              branch_of-Accepted codec parent.links tree child branch built whole.few linked found))
    ]
