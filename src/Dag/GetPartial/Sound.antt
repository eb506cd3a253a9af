-- ===== src/Dag/GetPartial/Sound.antt =====
-- dag/dag.go: what `GetPartial` stores.
use scionic_merkle_tree_go.Common.{
  ℕ, ◌≡◌, refl, sym, ap, ◌∙◌, subst, Bool, true, not, ◌&&◌, Option, some, none, List, [], ◌∷◌,
  Bytes, length, leb, if◌then◌else◌, ok, ◌>>=◌, GoMap, lookup, insert, has_key, inl, inr,
  Bool-cases, >>=-eq-ok, ok-injective, All, has_string, All-has_string, Entries, Entries-insert,
  Entries-lookup,
}
use scionic_merkle_tree_go.Dag.Types.{ClassicTreeBranch, DagLeaf, Dag, DagError, Checked, Codec}
use scionic_merkle_tree_go.Dag.Leaf.{verify_branch}
use scionic_merkle_tree_go.Dag.Prune.{prune_leaf, prune_irrelevant_links}
use scionic_merkle_tree_go.Dag.Proofs.{proof_for_child}
use scionic_merkle_tree_go.Dag.GetPartial.Steps.{get_partial-Steps, Steps_leafs}
use scionic_merkle_tree_go.Dag.GetPartial.{
  Found, leaf_not_found, DagBranch, or_error, build_verification_branch, add_path, link_in_partial,
  link_last, link_path, add_branch_to_partial, store_proof, complete_child, complete_children,
  complete_parent, complete_all, mark_path, add_requested, get_partial,
}
use scionic_merkle_tree_go.Dag.GetPartial.Proved.{
  Accepted, IsWhole, IsDrawn, with_proof-IsDrawn, proof_for_child-Accepted,
}
use scionic_merkle_tree_go.Dag.GetPartial.Kept.{
  or_error-ok, DrawnNode, AllDrawn, IsWhole-lookup, build_verification_branch-DrawnNode,
  add_path-AllDrawn, link_in_partial-AllDrawn,
}

module _ (codec : Codec) (d : Dag) where
  link_last-AllDrawn :
      (path : List DagLeaf) (hash : Bytes) (leafs : GoMap DagLeaf)
      → AllDrawn codec d leafs
      → AllDrawn codec d (link_last path hash leafs)
  unfolding link_last
  link_last-AllDrawn [] hash leafs k = k
  link_last-AllDrawn (last ∷ []) hash leafs k = link_in_partial-AllDrawn codec d last hash leafs k
  link_last-AllDrawn (node ∷ next ∷ path) hash leafs k =
      link_last-AllDrawn (next ∷ path) hash leafs k

  link_path-AllDrawn :
      (path : List DagLeaf) (leafs : GoMap DagLeaf)
      → AllDrawn codec d leafs
      → AllDrawn codec d (link_path path leafs)
  unfolding link_path
  link_path-AllDrawn [] leafs k = k
  link_path-AllDrawn (last ∷ []) leafs k = k
  link_path-AllDrawn (node ∷ next ∷ path) leafs k =
      link_path-AllDrawn (next ∷ path) (link_in_partial node next.hash leafs)
        (link_in_partial-AllDrawn codec d node next.hash leafs k)

  add_branch-AllDrawn :
      (branch : DagBranch) (leafs : GoMap DagLeaf)
      → DrawnNode codec d branch.leaf
      → All (DrawnNode codec d) branch.path
      → AllDrawn codec d leafs
      → AllDrawn codec d (add_branch_to_partial branch leafs)
  unfolding add_branch_to_partial
  add_branch-AllDrawn branch leafs leaf path k =
      let with_leaf =
        if has_key branch.leaf.hash leafs
        then leafs
        else insert branch.leaf.hash branch.leaf leafs in
      let added : AllDrawn codec d with_leaf = elim (Bool-cases (has_key branch.leaf.hash leafs)) [
        | inl there ↦ rw there k
        | inr absent ↦
            rw absent (Entries-insert (IsDrawn codec d) branch.leaf.hash branch.leaf leafs leaf k)
      ] in
      link_path-AllDrawn branch.path
        (link_last branch.path branch.leaf.hash (add_path branch.path with_leaf))
        (link_last-AllDrawn branch.path branch.leaf.hash (add_path branch.path with_leaf)
          (add_path-AllDrawn codec d branch.path with_leaf path added))

  store_proof-IsDrawn :
      (k : Bytes) (leaf : DagLeaf) (child : Bytes) (proof : Option ClassicTreeBranch)
      → IsDrawn codec d k leaf
      → Accepted codec leaf.classic_merkle_root child proof
      → IsDrawn codec d k (store_proof leaf child proof)
  unfolding store_proof
  store_proof-IsDrawn k leaf child none drawn accepted = drawn
  store_proof-IsDrawn k leaf child (some branch) drawn accepted =
      with_proof-IsDrawn codec d k leaf child branch drawn accepted

  prune-AllDrawn :
      (relevant : GoMap Bool) (leafs : GoMap DagLeaf)
      → AllDrawn codec d leafs
      → AllDrawn codec d (prune_irrelevant_links relevant leafs)
  unfolding prune_irrelevant_links prune_leaf
  prune-AllDrawn relevant [] h = tt
  prune-AllDrawn relevant ((k, leaf) ∷ leafs) h = (
    record {
      source = h.0.source;
      held = h.0.held;
      named = h.0.named;
      root = h.0.root;
      proved = h.0.proved;
    },
    prune-AllDrawn relevant leafs h.1,
  )

  module _ (whole : Entries (IsWhole codec) d.leafs) where
    complete_child-IsDrawn :
        (partial : GoMap DagLeaf) (k : Bytes) (full leaf result : DagLeaf) (child : Bytes)
        → lookup k d.leafs ≡ some full
        → has_string child full.links ≡ true
        → IsDrawn codec d k leaf
        → complete_child codec partial full child leaf ≡ ok result
        → IsDrawn codec d k result
    unfolding complete_child
    complete_child-IsDrawn partial k full leaf result child held linked drawn e =
        elim (Bool-cases (has_key child partial && not (has_key child leaf.proofs))) [
          | inr other ↦
              subst (IsDrawn codec d k) (ok-injective {Problem = DagError} (rw other at e)) drawn
          | inl new ↦
              let last : Option ClassicTreeBranch → Checked DagLeaf =
                λ proof. ok (store_proof leaf child proof) in
              let (proof, found, done) =
                >>=-eq-ok (proof_for_child codec full child) last (rw new at e) in
              let source : drawn.source ≡ full = cc (sym drawn.held ∙ held) in
              let root : full.classic_merkle_root ≡ leaf.classic_merkle_root =
                sym (ap (λ s. s.classic_merkle_root) source) ∙ sym drawn.root in
              subst (IsDrawn codec d k) (ok-injective done) (
                store_proof-IsDrawn k leaf child proof drawn (
                  subst (λ r. Accepted codec r child proof) root
                    (proof_for_child-Accepted codec k full child proof
                      (IsWhole-lookup codec d whole k full held) linked found)))
        ]

    complete_children-IsDrawn :
        (partial : GoMap DagLeaf) (k : Bytes) (full : DagLeaf) (links : List Bytes)
        (leaf result : DagLeaf)
        → lookup k d.leafs ≡ some full
        → All (λ child. has_string child full.links ≡ true) links
        → IsDrawn codec d k leaf
        → complete_children codec partial full links leaf ≡ ok result
        → IsDrawn codec d k result
    unfolding complete_children
    complete_children-IsDrawn partial k full [] leaf result held linked drawn e =
        subst (IsDrawn codec d k) (ok-injective e) drawn
    complete_children-IsDrawn partial k full (child ∷ links) leaf result held linked drawn e =
        let (next, one, rest) =
          >>=-eq-ok (complete_child codec partial full child leaf)
            (complete_children codec partial full links) e in
        complete_children-IsDrawn partial k full links next result held linked.1
          (complete_child-IsDrawn partial k full leaf next child held linked.0 drawn one) rest

    complete_parent-IsDrawn :
        (partial : GoMap DagLeaf) (k : Bytes) (found : Option DagLeaf) (leaf result : DagLeaf)
        → lookup k d.leafs ≡ found
        → IsDrawn codec d k leaf
        → complete_parent codec partial found leaf ≡ ok result
        → IsDrawn codec d k result
    unfolding complete_parent
    complete_parent-IsDrawn partial k none leaf result held drawn e =
        subst (IsDrawn codec d k) (ok-injective e) drawn
    complete_parent-IsDrawn partial k (some full) leaf result held drawn e =
        elim (Bool-cases (leb (length full.links) 1)) [
          | inl few ↦
              subst (IsDrawn codec d k) (ok-injective {Problem = DagError} (rw few at e)) drawn
          | inr several ↦
              complete_children-IsDrawn partial k full full.links leaf result held
                (All-has_string full.links) drawn (rw several at e)
        ]

    complete_all-AllDrawn :
        (partial leafs results : GoMap DagLeaf)
        → AllDrawn codec d leafs
        → complete_all codec d partial leafs ≡ ok results
        → AllDrawn codec d results
    unfolding complete_all
    complete_all-AllDrawn partial [] results h e = subst (AllDrawn codec d) (ok-injective e) tt
    complete_all-AllDrawn partial ((k, leaf) ∷ leafs) results h e =
        let last : DagLeaf → GoMap DagLeaf → Checked (GoMap DagLeaf) =
          λ completed others. ok ((k, completed) ∷ others) in
        let (completed, one, rest) =
          >>=-eq-ok (complete_parent codec partial (lookup k d.leafs) leaf)
            (λ completed. complete_all codec d partial leafs >>= last completed) e in
        let (others, more, done) =
          >>=-eq-ok (complete_all codec d partial leafs) (last completed) rest in
        subst (AllDrawn codec d) (ok-injective done) (
          complete_parent-IsDrawn partial k (lookup k d.leafs) leaf completed refl h.0 one,
          complete_all-AllDrawn partial leafs others h.1 more,
        )

    add_requested-AllDrawn :
        (fuel : ℕ) (hashes : List Bytes) (leafs : GoMap DagLeaf) (relevant : GoMap Bool)
        (result : GoMap DagLeaf × GoMap Bool)
        → AllDrawn codec d leafs
        → add_requested codec fuel d hashes (leafs, relevant) ≡ ok result
        → AllDrawn codec d result.0
    unfolding add_requested
    add_requested-AllDrawn fuel [] leafs relevant result h e =
        subst (λ r. AllDrawn codec d r.0) (ok-injective e) h
    add_requested-AllDrawn fuel (hash ∷ hashes) leafs relevant result h e =
        let last : DagBranch → Found (GoMap DagLeaf × GoMap Bool) = λ branch.
          add_requested codec fuel d hashes (
            add_branch_to_partial branch leafs,
            mark_path branch.path (insert hash true relevant),
          ) in
        let (target, there, rest) =
          >>=-eq-ok (or_error (lookup hash d.leafs) (leaf_not_found hash))
            (λ target. build_verification_branch codec fuel d target >>= last) e in
        let (branch, built, more) =
          >>=-eq-ok (build_verification_branch codec fuel d target) last rest in
        let held = or_error-ok (lookup hash d.leafs) (leaf_not_found hash) target there in
        let drawn =
          build_verification_branch-DrawnNode codec d whole fuel hash target branch held built in
        add_requested-AllDrawn fuel hashes (add_branch_to_partial branch leafs)
          (mark_path branch.path (insert hash true relevant)) result
          (add_branch-AllDrawn branch leafs drawn.0 drawn.1 h) more

pub get_partial-AllDrawn :
    (codec : Codec) (fuel : ℕ) (d partial : Dag) (leaf_hashes : List Bytes) (prune_links : Bool)
    → Entries (IsWhole codec) d.leafs
    → get_partial codec fuel d leaf_hashes prune_links ≡ ok partial
    → AllDrawn codec d partial.leafs
get_partial-AllDrawn codec fuel d partial leaf_hashes prune_links whole e =
    let steps = get_partial-Steps codec fuel d partial leaf_hashes prune_links e in
    Steps_leafs (AllDrawn codec d) codec fuel d partial leaf_hashes prune_links steps
      (complete_all-AllDrawn codec d whole steps.added.0 steps.added.0 steps.completed
        (add_requested-AllDrawn codec d whole fuel leaf_hashes [] ((d.root, true) ∷ []) steps.added
          tt steps.requested)
        steps.proved)
      (prune-AllDrawn codec d)

-- Every proof that a partial DAG from `GetPartial` stores for a child is a proof of that child, and
-- the leaf that stores it accepts it by `VerifyBranch`; that leaf has the Merkle root of the leaf
-- under the same hash in the full DAG. The full DAG is to have its leaves under their hashes, each
-- with all its links, at most 2 ^ 32, with the root over them where they are several, and with no
-- proofs but accepted ones.
pub get_partial-verify_branch :
    (codec : Codec) (fuel : ℕ) (d partial : Dag) (leaf_hashes : List Bytes) (prune_links : Bool)
    (k child : Bytes) (leaf : DagLeaf) (branch : ClassicTreeBranch)
    → Entries (IsWhole codec) d.leafs
    → get_partial codec fuel d leaf_hashes prune_links ≡ ok partial
    → lookup k partial.leafs ≡ some leaf
    → lookup child leaf.proofs ≡ some (some branch)
    → (branch.leaf ≡ child)
      × (verify_branch codec leaf branch ≡ ok tt)
      × (full : DagLeaf) × (lookup k d.leafs ≡ some full)
      × (leaf.classic_merkle_root ≡ full.classic_merkle_root)
unfolding verify_branch
get_partial-verify_branch codec fuel d partial leaf_hashes prune_links k child leaf branch whole e
      held stored =
    let drawn =
      Entries-lookup (IsDrawn codec d) k leaf partial.leafs
        (get_partial-AllDrawn codec fuel d partial leaf_hashes prune_links whole e) held in
    let accepted : Accepted codec leaf.classic_merkle_root child (some branch) =
      Entries-lookup (Accepted codec leaf.classic_merkle_root) child (some branch) leaf.proofs
        drawn.proved stored in
    (accepted.1, rw accepted.0 refl, drawn.source, drawn.held, drawn.root)
