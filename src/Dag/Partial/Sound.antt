-- ===== src/Dag/Partial/Sound.antt =====
-- dag/dag.go: what `verifyWithProofs` has shown of every leaf when it succeeds.
use scionic_merkle_tree_go.Common.{
  ℕ, zero, suc, ◌≤◌, ◌≡◌, ◌≢◌, refl, ap, Bool, true, false, ◌&&◌, Option, some, none, [], ◌∷◌,
  Bytes, length, ltb, ◌==◌, if◌then◌else◌, bytes_eq, Result, ok, err, ◌>>=◌, ◌>>◌, GoMap, lookup,
  arith, inl, inr, Bool-cases, >>=-eq-ok, ok-injective, eq_of_bytes_eq, ◌⊎◌, ltb→le,
}
use scionic_merkle_tree_go.Dag.Types.{ClassicTreeBranch, DagLeaf, Dag, DagError, Codec}
use scionic_merkle_tree_go.Dag.Leaf.{
  has_link, verify_leaf, verify_branch, verify_children_against_merkle_root,
}
use scionic_merkle_tree_go.Dag.Root.{verify_root_leaf}
use scionic_merkle_tree_go.Dag.Partial.{
  PartialError, broken_dag, missing_proof, from_leaf, children_in_dag, find_parent, lower_hash,
  has_all_links, verify_stored_proof, verify_edge, verify_parent_leaf, parent_or_broken, climb,
  verify_each, verify_with_proofs, verify_root, verify_root_children,
}

-- Some entry of the map is the leaf.
abbrev pub Holds : GoMap DagLeaf → DagLeaf → Type 0
Holds [] leaf = ⊥
Holds ((k, other) ∷ leafs) leaf = (other ≡ leaf) ⊎ Holds leafs leaf

-- How a parent vouches for a child.
pub data Vouches (codec : Codec) (d : Dag) (parent child : DagLeaf) : Type 0 where
  -- All its children are in the DAG, and the Merkle root is the one over them.
  all_children :
      children_in_dag d.leafs parent.links ≡ parent.current_link_count
      → length parent.links ≡ parent.current_link_count
      → verify_children_against_merkle_root codec parent ≡ ok tt
      → Vouches codec d parent child
  -- It stores for the child a proof that its Merkle root accepts.
  by_proof :
      (branch : ClassicTreeBranch)
      → lookup child.hash parent.proofs ≡ some (some branch)
      → verify_branch codec parent branch ≡ ok tt
      → Vouches codec d parent child
  -- It says that it has at most one child, and holds another number of links or none.
  unchecked :
      parent.current_link_count ≤ 1 → has_all_links parent ≡ false → Vouches codec d parent child

-- The way from a leaf up to one with the root's hash.
pub data Climbs (codec : Codec) (d : Dag) : DagLeaf → Type 0 where
  at_root : (leaf : DagLeaf) → leaf.hash ≡ d.root → Climbs codec d leaf
  up :
      (leaf parent : DagLeaf)
      → Holds d.leafs parent
      → has_link parent leaf.hash ≡ true
      → (parent.hash ≢ d.root → verify_leaf codec parent ≡ ok tt)
      → Vouches codec d parent leaf
      → Climbs codec d parent
      → Climbs codec d leaf

from_leaf-ok : {A : Type 0} (r : Result DagError A) (a : A) → from_leaf r ≡ ok a → r ≡ ok a
from_leaf-ok (ok b) a e = ap ok (ok-injective e)
from_leaf-ok (err x) a e = absurd (cc e)

-- The parent that the search finds is in the map and links the child, or it is the one it began with.
pub find_parent-linked :
    (child : Bytes) (leafs : GoMap DagLeaf) (best : Option DagLeaf) (p : DagLeaf)
    → find_parent child leafs best ≡ some p
    → (best ≡ some p) ⊎ (Holds leafs p × (has_link p child ≡ true))
unfolding find_parent
find_parent-linked child [] best p e = inl e
find_parent-linked child ((k, leaf) ∷ leafs) best p e =
    elim (Bool-cases (has_link leaf child && lower_hash leaf best)) [
      | inl taken ↦ elim (find_parent-linked child leafs (some leaf) p (rw taken at e)) [
        | inl here ↦
            let same : leaf ≡ p = cc here in
            inr (inl same, rw same at (first_true (has_link leaf child) _ taken))
        | inr later ↦ inr (inr later.0, later.1)
      ]
      | inr left ↦ elim (find_parent-linked child leafs best p (rw left at e)) [
        | inl kept ↦ inl kept
        | inr later ↦ inr (inr later.0, later.1)
      ]
    ]
  where
    first_true : (a b : Bool) → (a && b) ≡ true → a ≡ true
    first_true true b h = refl
    first_true false b h = cc

verify_stored_proof-Vouches :
    (codec : Codec) (d : Dag) (parent child : DagLeaf) (missing : PartialError)
    (stored : Option (Option ClassicTreeBranch))
    → lookup child.hash parent.proofs ≡ stored
    → verify_stored_proof codec parent stored missing ≡ ok tt
    → Vouches codec d parent child
unfolding verify_stored_proof
verify_stored_proof-Vouches codec d parent child missing none held e = absurd (cc e)
verify_stored_proof-Vouches codec d parent child missing (some none) held e = absurd (cc e)
verify_stored_proof-Vouches codec d parent child missing (some (some branch)) held e =
    by_proof branch held (from_leaf-ok (verify_branch codec parent branch) tt e)

verify_edge-Vouches :
    (codec : Codec) (d : Dag) (parent child : DagLeaf)
    → verify_edge codec d parent child ≡ ok tt
    → Vouches codec d parent child
unfolding verify_edge
verify_edge-Vouches codec d parent child e = elim (Bool-cases (has_all_links parent)) [
  | inl all ↦
      elim (Bool-cases (children_in_dag d.leafs parent.links == parent.current_link_count)) [
        | inl present ↦ all_children (ground arith) (ground arith) (
            from_leaf-ok (verify_children_against_merkle_root codec parent) tt
              (rw (all, present) at e))
        | inr absent ↦
            verify_stored_proof-Vouches codec d parent child broken_dag _ refl
              (rw (all, absent) at e)
      ]
  | inr other ↦ elim (Bool-cases (ltb 1 parent.current_link_count)) [
    | inl several ↦
        verify_stored_proof-Vouches codec d parent child missing_proof _ refl
          (rw (other, several) at e)
    | inr few ↦ unchecked (ltb→le 1 parent.current_link_count few) other
  ]
]

verify_parent_leaf-ok :
    (codec : Codec) (d : Dag) (parent : DagLeaf)
    → verify_parent_leaf codec d parent ≡ ok tt
    → parent.hash ≢ d.root
    → verify_leaf codec parent ≡ ok tt
unfolding verify_parent_leaf
verify_parent_leaf-ok codec d parent e other = elim (Bool-cases (bytes_eq parent.hash d.root)) [
  | inl root ↦ absurd (other (eq_of_bytes_eq parent.hash d.root root))
  | inr inner ↦ from_leaf-ok (verify_leaf codec parent) tt (rw inner at e)
]

pub parent_or_broken-ok :
    (found : Option DagLeaf) (parent : DagLeaf)
    → parent_or_broken found ≡ ok parent
    → found ≡ some parent
parent_or_broken-ok none parent e = absurd (cc e)
parent_or_broken-ok (some p) parent e = ap some (ok-injective e)

pub climb-Climbs :
    (codec : Codec) (d : Dag) (fuel : ℕ) (leaf : DagLeaf)
    → climb codec fuel d leaf ≡ ok tt
    → Climbs codec d leaf
unfolding climb
climb-Climbs codec d zero leaf e = elim (Bool-cases (bytes_eq leaf.hash d.root)) [
  | inl root ↦ at_root leaf (eq_of_bytes_eq leaf.hash d.root root)
  | inr inner ↦ absurd (cc (rw inner at e))
]
climb-Climbs codec d (suc fuel) leaf e = elim (Bool-cases (bytes_eq leaf.hash d.root)) [
  | inl root ↦ at_root leaf (eq_of_bytes_eq leaf.hash d.root root)
  | inr inner ↦
      let later : DagLeaf → Unit {0} → Result PartialError (Unit {0}) =
        λ parent verified. (do edge ← verify_edge codec d parent leaf; climb codec fuel d parent) in
      let (parent, found, rest) =
        >>=-eq-ok (parent_or_broken (find_parent leaf.hash d.leafs none))
          (λ parent. verify_parent_leaf codec d parent >>= later parent) (rw inner at e) in
      let (u, verified, more) = >>=-eq-ok (verify_parent_leaf codec d parent) (later parent) rest in
      let (v, edge, above) =
        >>=-eq-ok (verify_edge codec d parent leaf) (λ _. climb codec fuel d parent) more in
      elim (find_parent-linked leaf.hash d.leafs none parent
        (parent_or_broken-ok (find_parent leaf.hash d.leafs none) parent found)) [
          | inl none_some ↦ absurd (cc none_some)
          | inr linked ↦
              up leaf parent linked.0 linked.1 (verify_parent_leaf-ok codec d parent verified)
                (verify_edge-Vouches codec d parent leaf edge)
                (climb-Climbs codec d fuel parent above)
        ]
]

verify_each-Climbs :
    (codec : Codec) (fuel : ℕ) (d : Dag) (leafs : GoMap DagLeaf) (leaf : DagLeaf)
    → verify_each codec fuel d leafs ≡ ok tt
    → Holds leafs leaf
    → leaf.hash ≢ d.root
    → (verify_leaf codec leaf ≡ ok tt) × Climbs codec d leaf
unfolding verify_each
verify_each-Climbs codec fuel d [] leaf e held other = absurd held
verify_each-Climbs codec fuel d ((k, first) ∷ leafs) leaf e held other =
    let (u, head, rest) =
      >>=-eq-ok
        (if bytes_eq first.hash d.root
          then ok tt
          else (from_leaf (verify_leaf codec first) >> climb codec fuel d first))
        (λ _. verify_each codec fuel d leafs) e in
    elim held [
      | inr later ↦ verify_each-Climbs codec fuel d leafs leaf rest later other
      | inl same ↦ rw (← same) (elim (Bool-cases (bytes_eq first.hash d.root)) [
        | inl root ↦ absurd (other (rw same at (eq_of_bytes_eq first.hash d.root root)))
        | inr inner ↦
            let (v, verified, climbed) =
              >>=-eq-ok (from_leaf (verify_leaf codec first)) (λ _. climb codec fuel d first)
                (rw inner at head) in
            (
              from_leaf-ok (verify_leaf codec first) tt verified,
              climb-Climbs codec d fuel first climbed,
            )
      ])
    ]

verify_root-ok :
    (codec : Codec) (d : Dag) (found : Option DagLeaf)
    → verify_root codec d found ≡ ok tt
    → (root : DagLeaf) × (found ≡ some root) × ((verify_root_leaf codec root (some d)).1 ≡ ok tt)
unfolding verify_root
verify_root-ok codec d none e = absurd (cc e)
verify_root-ok codec d (some root) e =
    let (u, verified, rest) =
      >>=-eq-ok (from_leaf (verify_root_leaf codec root (some d)).1)
        (λ _.
          if has_all_links root
          then verify_root_children codec d root (children_in_dag d.leafs root.links)
          else ok tt)
        e in
    (root, refl, from_leaf-ok (verify_root_leaf codec root (some d)).1 tt verified)

-- When `verifyWithProofs` accepts a DAG, the root is there and passes `VerifyRootLeaf`, and each leaf
-- with another hash passes `VerifyLeaf` and has a way up to the root. On the way each parent is in
-- the DAG, links its child, passes `VerifyLeaf` unless it is the root, and vouches for the child: its
-- Merkle root is checked over children that are all present, or it stores a proof that its root
-- accepts, or it says that it has at most one child without holding exactly that many links.
pub verify_with_proofs-Climbs :
    (codec : Codec) (fuel : ℕ) (d : Dag)
    → verify_with_proofs codec fuel d ≡ ok tt
    → ((root : DagLeaf) × (lookup d.root d.leafs ≡ some root)
        × ((verify_root_leaf codec root (some d)).1 ≡ ok tt))
      × ((leaf : DagLeaf)
          → Holds d.leafs leaf
          → leaf.hash ≢ d.root
          → (verify_leaf codec leaf ≡ ok tt) × Climbs codec d leaf)
unfolding verify_with_proofs
verify_with_proofs-Climbs codec fuel d e =
    let (u, root_part, rest) =
      >>=-eq-ok (verify_root codec d (lookup d.root d.leafs))
        (λ _. verify_each codec fuel d d.leafs) e in
    (
      verify_root-ok codec d (lookup d.root d.leafs) root_part,
      λ leaf held other. verify_each-Climbs codec fuel d d.leafs leaf rest held other,
    )
