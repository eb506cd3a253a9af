-- ===== src/Dag/Iterate/Sound.antt =====
-- dag/dag.go: what a walk that succeeds has visited, and what `verifyFullDag` has verified.
use scionic_merkle_tree_go.Common.{
  suc, ◌≡◌, ◌≢◌, sym, ap, ◌∙◌, subst, true, Option, some, none, List, [], Bytes, length, bytes_eq,
  Result, ok, err, ◌>>◌, lookup, inl, inr, Bool-cases, >>=-eq-ok, ok-injective, eq_of_bytes_eq,
  bytes_eq_iff, has_string,
}
use scionic_merkle_tree_go.Dag.Types.{DagLeaf, Dag, DagError, Codec}
use scionic_merkle_tree_go.Dag.Leaf.{verify_leaf}
use scionic_merkle_tree_go.Dag.Root.{verify_root_leaf}
use scionic_merkle_tree_go.Dag.Iterate.{
  WalkError, iterate_dag, from_dag, verify_one, verify_full_dag, verify_children_if_all,
  verify_parent, check_link,
}
use scionic_merkle_tree_go.Dag.Iterate.Visited.{Handled, Grown, Visits, iterate-Visits}

-- The hashes that the links lead to from the root.
pub data Reachable (d : Dag) : Bytes → Type 0 where
  root_reachable : Reachable d d.root
  link_reachable :
      {h : Bytes} (leaf : DagLeaf) (l : Bytes)
      → Reachable d h
      → lookup h d.leafs ≡ some leaf
      → has_string l leaf.links ≡ true
      → Reachable d l

-- What the verification of one leaf has shown.
pub record IsVerified (codec : Codec) (d : Dag) (leaf : DagLeaf) : Type 0 where
  pub is_root : leaf.hash ≡ d.root → (verify_root_leaf codec leaf (some d)).1 ≡ ok tt
  pub is_leaf : leaf.hash ≢ d.root → verify_leaf codec leaf ≡ ok tt

from_dag-ok : {A : Type 0} (r : Result DagError A) (a : A) → from_dag r ≡ ok a → r ≡ ok a
from_dag-ok (ok b) a e = ap ok (ok-injective e)
from_dag-ok (err x) a e = absurd (cc e)

verify_one-IsVerified :
    (codec : Codec) (d : Dag) (leaf : DagLeaf) (parent : Option DagLeaf)
    → verify_one codec d leaf parent tt ≡ ok tt
    → IsVerified codec d leaf
unfolding verify_one
verify_one-IsVerified codec d leaf parent e = elim (Bool-cases (bytes_eq leaf.hash d.root)) [
  | inl root ↦
      let (u, first, rest) =
        >>=-eq-ok
          (from_dag (verify_root_leaf codec leaf (some d)).1 >> verify_children_if_all codec leaf)
          (λ _. verify_parent codec leaf parent) (rw root at e) in
      let (v, verified, more) =
        >>=-eq-ok (from_dag (verify_root_leaf codec leaf (some d)).1)
          (λ _. verify_children_if_all codec leaf) first in
      record {
        is_root = λ same. from_dag-ok (verify_root_leaf codec leaf (some d)).1 tt verified;
        is_leaf = λ other. absurd (other (eq_of_bytes_eq leaf.hash d.root root));
      }
  | inr inner ↦
      let (u, first, rest) =
        >>=-eq-ok (from_dag (verify_leaf codec leaf) >> check_link codec leaf parent)
          (λ _. verify_parent codec leaf parent) (rw inner at e) in
      let (v, verified, more) =
        >>=-eq-ok (from_dag (verify_leaf codec leaf)) (λ _. check_link codec leaf parent) first in
      record {
        is_root = λ same. absurd (cc (sym inner ∙ (bytes_eq_iff leaf.hash d.root).1 same));
        is_leaf = λ other. from_dag-ok (verify_leaf codec leaf) tt verified;
      }
]

module _ {ℓ} {S : Type ℓ} (order : List Bytes → List Bytes) (d : Dag)
    (process_leaf : DagLeaf → Option DagLeaf → S → Result WalkError S) (w : List Bytes)
    (grown : Grown order d.leafs process_leaf [] w) where
  -- What a walk has visited, it has handled.
  pub Grown-Handled : (x : Bytes) → has_string x w ≡ true → Handled order d.leafs process_leaf x w
  unfolding has_string
  Grown-Handled x visited = elim (grown.handles x visited) [
    | inl none_old ↦ absurd (cc none_old)
    | inr yes_handled ↦ yes_handled
  ]

  -- What the root leads to, a walk that has visited the root has visited.
  pub Grown-Reachable :
      has_string d.root w ≡ true → {x : Bytes} → Reachable d x → has_string x w ≡ true
  Grown-Reachable root root_reachable = root
  Grown-Reachable root (link_reachable {h} leaf l above held linked) =
      let upper = Grown-Handled h (Grown-Reachable root above) in
      let same : leaf ≡ upper.leaf = cc (sym held ∙ upper.held) in
      upper.links_visited l (subst (λ (x : DagLeaf). has_string l x.links ≡ true) same linked)

-- When `verifyFullDag` accepts a DAG, every hash that its links lead to from the root has a leaf in
-- the map; the leaf passes `VerifyRootLeaf` if it has the root's hash and `VerifyLeaf` otherwise. The
-- order in which links are followed is to leave none out.
pub verify_full_dag-IsVerified :
    (codec : Codec) (order : List Bytes → List Bytes) (d : Dag) (h : Bytes)
    → ((links : List Bytes) (l : Bytes)
        → has_string l links ≡ true
        → has_string l (order links) ≡ true)
    → verify_full_dag codec order d ≡ ok tt
    → Reachable d h
    → (leaf : DagLeaf) × (lookup h d.leafs ≡ some leaf) × IsVerified codec d leaf
unfolding verify_full_dag iterate_dag has_string Visits
verify_full_dag-IsVerified codec order d h keeps_order e reachable =
    let (last, walked, done) =
      >>=-eq-ok (iterate_dag order d (verify_one codec d) tt) (λ _. ok tt) e in
    let (grown, root_visited) =
      iterate-Visits order d.leafs (verify_one codec d) keeps_order (suc (length d.leafs)) d.root
        none ([], tt) last walked in
    let found =
      Grown-Handled order d (verify_one codec d) last.0 grown h
        (Grown-Reachable order d (verify_one codec d) last.0 grown root_visited reachable) in
    (found.leaf, found.held, verify_one-IsVerified codec d found.leaf found.parent found.processed)
