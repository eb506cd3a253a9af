-- ===== src/Dag/GetPartial/Kept.antt =====
-- dag/dag.go: every step of `GetPartial` keeps the proofs of the partial DAG accepted.
use scionic_merkle_tree_go.Common.{
  ℕ, zero, suc, ◌≡◌, refl, sym, ap, ◌∙◌, subst, Option, some, none, List, [], ◌∷◌, Bytes, bytes_eq,
  ok, ◌>>=◌, GoMap, lookup, insert, inl, inr, Bool-cases, Option-cases, >>=-eq-ok, ok-injective,
  All, Entries, Entries-insert, Entries-lookup,
}
use scionic_merkle_tree_go.Dag.Types.{DagLeaf, Dag, Codec}
use scionic_merkle_tree_go.Dag.Leaf.{has_link}
use scionic_merkle_tree_go.Dag.Builder.{with_link}
use scionic_merkle_tree_go.Dag.Clone.{clone}
use scionic_merkle_tree_go.Dag.Parents.{build_parent_index}
use scionic_merkle_tree_go.Dag.GetPartial.{
  Found, BranchError, no_parent_for, nil_root, DagBranch, or_error, prove_child, path_up,
  build_verification_branch, merge_node, add_path, with_missing_link, link_in_partial,
}
use scionic_merkle_tree_go.Dag.GetPartial.Proved.{
  Proved, IsWhole, IsDrawn, clone-IsDrawn, merge_proofs-Proved, IsWhole-IsDrawn,
  prove_child-IsDrawn,
}

pub or_error-ok :
    {A : Type 0} (o : Option A) (x : BranchError) (a : A) → or_error o x ≡ ok a → o ≡ some a
or_error-ok none x a e = absurd (cc e)
or_error-ok (some b) x a e = ap some (ok-injective e)

-- A node of a path, under its own hash.
abbrev pub DrawnNode : Codec → Dag → DagLeaf → Type 0
DrawnNode codec d node = IsDrawn codec d node.hash node

drawn_here :
    (codec : Codec) (d : Dag) (k : Bytes) (leaf : DagLeaf)
    → IsDrawn codec d k leaf
    → DrawnNode codec d leaf
drawn_here codec d k leaf drawn = subst (λ h. IsDrawn codec d h leaf) (sym drawn.named) drawn

module _ (codec : Codec) (d : Dag) (whole : Entries (IsWhole codec) d.leafs) where
  pub IsWhole-lookup :
      (k : Bytes) (leaf : DagLeaf) → lookup k d.leafs ≡ some leaf → IsWhole codec k leaf
  IsWhole-lookup k leaf held = Entries-lookup (IsWhole codec) k leaf d.leafs whole held

  path_up-DrawnNode :
      (fuel : ℕ) (parent_of : GoMap Bytes) (leaf : DagLeaf) (path : List DagLeaf)
      → path_up codec fuel d parent_of leaf ≡ ok path
      → All (DrawnNode codec d) path
  unfolding path_up
  path_up-DrawnNode zero parent_of leaf path e = elim (Bool-cases (bytes_eq leaf.hash d.root)) [
    | inl root ↦ subst (All (DrawnNode codec d)) (ok-injective (rw root at e)) tt
    | inr inner ↦ absurd (cc (rw inner at e))
  ]
  path_up-DrawnNode (suc fuel) parent_of leaf path e =
      elim (Bool-cases (bytes_eq leaf.hash d.root)) [
        | inl root ↦
            subst (All (DrawnNode codec d)) (ok-injective {Problem = BranchError} (rw root at e)) tt
        | inr inner ↦
            let none_for = no_parent_for leaf.hash in
            let last : DagLeaf → List DagLeaf → Found (List DagLeaf) =
              λ node above. ok (node ∷ above) in
            let prove : DagLeaf → Found (List DagLeaf) = λ parent. (do
              node ← prove_child codec parent leaf.hash
              above ← path_up codec fuel d parent_of parent
              last node above) in
            let find : Bytes → Found (List DagLeaf) =
              λ parent_hash. or_error (lookup parent_hash d.leafs) none_for >>= prove in
            let (parent_hash, _, e1) =
              >>=-eq-ok (or_error (lookup leaf.hash parent_of) none_for) find (rw inner at e) in
            let (parent, held, e2) =
              >>=-eq-ok (or_error (lookup parent_hash d.leafs) none_for) prove e1 in
            let (node, proved, e3) =
              >>=-eq-ok (prove_child codec parent leaf.hash)
                (λ node. path_up codec fuel d parent_of parent >>= last node) e2 in
            let (above, higher, e4) =
              >>=-eq-ok (path_up codec fuel d parent_of parent) (last node) e3 in
            let held_parent = or_error-ok (lookup parent_hash d.leafs) none_for parent held in
            let drawn =
              prove_child-IsDrawn codec d parent_hash parent leaf.hash node held_parent
                (IsWhole-lookup parent_hash parent held_parent) proved in
            subst (All (DrawnNode codec d)) (ok-injective e4) (
              drawn_here codec d parent_hash node drawn,
              path_up-DrawnNode fuel parent_of parent above higher,
            )
      ]

  whole_node :
      (k : Bytes) (leaf : DagLeaf) → lookup k d.leafs ≡ some leaf → DrawnNode codec d (clone leaf)
  whole_node k leaf held = drawn_here codec d k (clone leaf) (
      clone-IsDrawn codec d k leaf
        (IsWhole-IsDrawn codec d k leaf held (IsWhole-lookup k leaf held)))

  pub build_verification_branch-DrawnNode :
      (fuel : ℕ) (k : Bytes) (leaf : DagLeaf) (branch : DagBranch)
      → lookup k d.leafs ≡ some leaf
      → build_verification_branch codec fuel d leaf ≡ ok branch
      → DrawnNode codec d branch.leaf × All (DrawnNode codec d) branch.path
  unfolding build_verification_branch
  build_verification_branch-DrawnNode fuel k leaf branch held e =
      let last : List DagLeaf → DagLeaf → Found DagBranch =
        λ above root. ok (record { leaf = clone leaf; path = clone root ∷ above }) in
      let (above, climbed, e1) =
        >>=-eq-ok (path_up codec fuel d (build_parent_index d) leaf)
          (λ above. or_error (lookup d.root d.leafs) nil_root >>= last above) e in
      let (root, there, e2) =
        >>=-eq-ok (or_error (lookup d.root d.leafs) nil_root) (last above) e1 in
      subst (λ b. DrawnNode codec d b.leaf × All (DrawnNode codec d) b.path) (ok-injective e2)
        (
          whole_node k leaf held,
          (
            whole_node d.root root (or_error-ok (lookup d.root d.leafs) nil_root root there),
            path_up-DrawnNode fuel (build_parent_index d) leaf above climbed,
          ),
        )

some_same : {A : Type 0} (o : Option A) (a b : A) → o ≡ some a → o ≡ some b → a ≡ b
some_same o a b e f = cc

module _ (codec : Codec) (d : Dag) where
  abbrev pub AllDrawn : GoMap DagLeaf → Type 0
  AllDrawn leafs = Entries (IsDrawn codec d) leafs

  merge_node-IsDrawn :
      (k : Bytes) (node : DagLeaf) (found : Option DagLeaf)
      → IsDrawn codec d k node
      → ((existing : DagLeaf) → found ≡ some existing → IsDrawn codec d k existing)
      → IsDrawn codec d k (merge_node node found)
  unfolding merge_node
  merge_node-IsDrawn k node none drawn old = drawn
  merge_node-IsDrawn k node (some existing) drawn old =
      let was = clone-IsDrawn codec d k existing (old existing refl) in
      let same_source = some_same (lookup k d.leafs) was.source drawn.source was.held drawn.held in
      let same_root : node.classic_merkle_root ≡ (clone existing).classic_merkle_root =
        drawn.root ∙ sym (ap (λ s. s.classic_merkle_root) same_source) ∙ sym was.root in
      record {
        source = was.source;
        held = was.held;
        named = was.named;
        root = was.root;
        proved =
            merge_proofs-Proved codec (clone existing).classic_merkle_root node.proofs
              (clone existing).proofs
              (subst (λ r. Proved codec r node.proofs) same_root drawn.proved) was.proved;
      }

  pub add_path-AllDrawn :
      (path : List DagLeaf) (leafs : GoMap DagLeaf)
      → All (DrawnNode codec d) path
      → AllDrawn leafs
      → AllDrawn (add_path path leafs)
  unfolding add_path
  add_path-AllDrawn [] leafs h k = k
  add_path-AllDrawn (node ∷ path) leafs h k =
      let merged = merge_node node (lookup node.hash leafs) in
      add_path-AllDrawn path (insert node.hash merged leafs) h.1 (
        Entries-insert (IsDrawn codec d) node.hash merged leafs
          (merge_node-IsDrawn node.hash node (lookup node.hash leafs) h.0
            (λ existing e. Entries-lookup (IsDrawn codec d) node.hash existing leafs k e))
          k)

  with_missing_link-IsDrawn :
      (k : Bytes) (node : DagLeaf) (hash : Bytes)
      → IsDrawn codec d k node
      → IsDrawn codec d k (with_missing_link node hash)
  unfolding with_missing_link with_link
  with_missing_link-IsDrawn k node hash drawn = elim (Bool-cases (has_link node hash)) [
    | inl there ↦ rw there drawn
    | inr absent ↦ rw absent record {
      source = drawn.source;
      held = drawn.held;
      named = drawn.named;
      root = drawn.root;
      proved = drawn.proved;
    }
  ]

  pub link_in_partial-AllDrawn :
      (node : DagLeaf) (hash : Bytes) (leafs : GoMap DagLeaf)
      → AllDrawn leafs
      → AllDrawn (link_in_partial node hash leafs)
  unfolding link_in_partial
  link_in_partial-AllDrawn node hash leafs k = elim (Bool-cases (has_link node hash)) [
    | inr absent ↦ rw absent k
    | inl there ↦ rw there (elim (Option-cases (lookup node.hash leafs)) [
      | inl missing ↦ rw missing k
      | inr found ↦ rw found.1 (
          Entries-insert (IsDrawn codec d) node.hash (with_missing_link found.0 hash) leafs
            (with_missing_link-IsDrawn node.hash found.0 hash
              (Entries-lookup (IsDrawn codec d) node.hash found.0 leafs k found.1))
            k)
    ])
  ]
