-- ===== src/Dag/Partial/Cycle.antt =====
-- dag/dag.go: leaves on which the climb of `verifyWithProofs` does not end.
use scionic_merkle_tree_go.Common.{
  ℕ, zero, suc, ◌≡◌, refl, ◌∙◌, Bool, true, false, some, none, List, [], ◌∷◌, Bytes, if◌then◌else◌,
  bytes_eq, ok, err, lookup, arith, bytes_eq_refl, has_string,
}
use scionic_merkle_tree_go.Dag.Types.{DagLeaf, Dag, Codec}
use scionic_merkle_tree_go.Dag.Leaf.{has_link, verify_leaf}
use scionic_merkle_tree_go.Dag.Root.{verify_root_leaf}
use scionic_merkle_tree_go.Dag.Iterate.{is_partial}
use scionic_merkle_tree_go.Dag.Partial.{
  still_climbing, find_parent, has_all_links, verify_edge, verify_parent_leaf, climb, verify_each,
  verify_with_proofs, verify_root, verify_dag,
}

-- A leaf that verifies, that is not the root and says that it has no children.
pub record IsChildless (codec : Codec) (d : Dag) (leaf : DagLeaf) : Type 0 where
  pub inner : bytes_eq leaf.hash d.root ≡ false
  pub verified : verify_leaf codec leaf ≡ ok tt
  pub no_children : leaf.current_link_count ≡ 0

module _ (codec : Codec) (d : Dag) (a b : DagLeaf) (good_a : IsChildless codec d a)
    (good_b : IsChildless codec d b) (to_a : find_parent b.hash d.leafs none ≡ some a)
    (to_b : find_parent a.hash d.leafs none ≡ some b) where
  parent_passes :
      (parent child : DagLeaf)
      → IsChildless codec d parent
      → (verify_parent_leaf codec d parent ≡ ok tt) × (verify_edge codec d parent child ≡ ok tt)
  unfolding verify_parent_leaf verify_edge
  parent_passes parent child good = (
    rw (good.inner, good.verified) refl,
    rw (no_links parent good.no_children, good.no_children) refl,
  )
    where
      no_links : (leaf : DagLeaf) → leaf.current_link_count ≡ 0 → has_all_links leaf ≡ false
      no_links leaf h = ground arith

  -- From either leaf the climb goes to the other, for ever.
  mutual
    unfolding climb

    climb_from_a : (fuel : ℕ) → climb codec fuel d a ≡ err still_climbing
    climb_from_a zero = rw good_a.inner refl
    climb_from_a (suc fuel) =
        let passes = parent_passes b a good_b in
        rw (good_a.inner, to_b, passes.0, passes.1) (climb_from_b fuel)

    climb_from_b : (fuel : ℕ) → climb codec fuel d b ≡ err still_climbing
    climb_from_b zero = rw good_b.inner refl
    climb_from_b (suc fuel) =
        let passes = parent_passes a b good_a in
        rw (good_b.inner, to_a, passes.0, passes.1) (climb_from_a fuel)

-- A root and two leaves that link each other.
abbrev pub looping : DagLeaf → DagLeaf → DagLeaf → Dag
looping root a b = record {
  root = root.hash;
  leafs = (root.hash, root) ∷ (a.hash, a) ∷ (b.hash, b) ∷ [];
  labels = none;
}

-- The links of the two, and a root that links neither.
pub record IsLoop (root a b : DagLeaf) : Type 0 where
  pub from_a : a.links ≡ b.hash ∷ []
  pub from_b : b.links ≡ a.hash ∷ []
  pub differ : bytes_eq a.hash b.hash ≡ false
  pub differ_back : bytes_eq b.hash a.hash ≡ false
  pub root_not_a : has_link root a.hash ≡ false
  pub root_not_b : has_link root b.hash ≡ false

only_link :
    (leaf : DagLeaf) (link asked : Bytes)
    → leaf.links ≡ link ∷ []
    → has_link leaf asked ≡ bytes_eq link asked
unfolding has_link has_string
only_link leaf link asked e = rw e (as_test (bytes_eq link asked))
  where
    as_test : (t : Bool) → (if t then true else false) ≡ t
    as_test true = refl
    as_test false = refl

find_other :
    (root a b : DagLeaf)
    → IsLoop root a b
    → (find_parent a.hash (looping root a b).leafs none ≡ some b)
      × (find_parent b.hash (looping root a b).leafs none ≡ some a)
unfolding find_parent
find_other root a b loop =
    let a_a : has_link a a.hash ≡ false =
      only_link a b.hash a.hash loop.from_a ∙ loop.differ_back in
    let b_a : has_link b a.hash ≡ true =
      only_link b a.hash a.hash loop.from_b ∙ bytes_eq_refl a.hash in
    let a_b : has_link a b.hash ≡ true =
      only_link a b.hash b.hash loop.from_a ∙ bytes_eq_refl b.hash in
    let b_b : has_link b b.hash ≡ false = only_link b a.hash b.hash loop.from_b ∙ loop.differ in
    (rw (loop.root_not_a, a_a, b_a) refl, rw (loop.root_not_b, a_b, b_b) refl)

-- `Verify` does not end on a partial DAG in which two leaves link each other, if both verify by
-- themselves and their hashed data say that they have no children, and if the root is one that
-- `VerifyRootLeaf` accepts, that links neither and does not hold all its links: whatever the number
-- of steps, the climb has not reached the root.
pub verify_dag-still_climbing :
    (codec : Codec) (order : List Bytes → List Bytes) (fuel : ℕ) (root a b : DagLeaf)
    → IsLoop root a b
    → IsChildless codec (looping root a b) a
    → IsChildless codec (looping root a b) b
    → is_partial (looping root a b) ≡ true
    → (verify_root_leaf codec root (some (looping root a b))).1 ≡ ok tt
    → has_all_links root ≡ false
    → verify_dag codec order fuel (looping root a b) ≡ err still_climbing
unfolding verify_dag verify_with_proofs verify_root verify_each lookup
verify_dag-still_climbing codec order fuel root a b loop good_a good_b partial root_verified
      pruned =
    let d = looping root a b in
    let others = find_other root a b loop in
    let climbing = climb_from_a codec d a b good_a good_b others.1 others.0 fuel in
    rw
      (
        partial,
        bytes_eq_refl root.hash,
        root_verified,
        pruned,
        good_a.inner,
        good_a.verified,
        climbing,
      )
      refl
