-- ===== src/Dag/GetPartial/Complete.antt =====
-- dag/dag.go: `completeParentProofs` leaves no parent without a proof of a child that is there.
use scionic_merkle_tree_go.Common.{
  ℕ, ◌<◌, ◌≡◌, refl, sym, ap, ◌∙◌, subst, Bool, true, false, not, ◌&&◌, Option, some, List, [], ◌∷◌,
  Bytes, length, leb, if◌then◌else◌, bytes_eq, ok, ◌>>=◌, GoMap, lookup, has_key, arith, inl, inr,
  Bool-cases, >>=-eq-ok, ok-injective, bytes_eq_refl, eq_of_bytes_eq, has_key-insert, has_string,
}
use scionic_merkle_tree_go.Dag.Types.{ClassicTreeBranch, DagLeaf, Dag, DagError, Checked, Codec}
use scionic_merkle_tree_go.Merkle.Tree.{MerkleTree}
use scionic_merkle_tree_go.Tree.{build, add_links, create_tree}
use scionic_merkle_tree_go.Dag.Leaf.{from_merkle}
use scionic_merkle_tree_go.Dag.Prune.{prune_leaf, prune_irrelevant_links}
use scionic_merkle_tree_go.Dag.Proofs.{branch_of, proof_for_child}
use scionic_merkle_tree_go.Dag.GetPartial.{
  with_proof, store_proof, complete_child, complete_children, complete_parent, complete_all,
  get_partial,
}
use scionic_merkle_tree_go.Dag.GetPartial.Steps.{get_partial-Steps, Steps_leafs}

abbrev pub HasProof : DagLeaf → Bytes → Type 0
HasProof leaf child = has_key child leaf.proofs ≡ true

module _ (codec : Codec) where
  -- With several links there is a proof or an error.
  proof_for_child-some :
      (parent : DagLeaf) (child : Bytes) (proof : Option ClassicTreeBranch)
      → leb (length parent.links) 1 ≡ false
      → proof_for_child codec parent child ≡ ok proof
      → (branch : ClassicTreeBranch) × (proof ≡ some branch)
  unfolding proof_for_child
  proof_for_child-some parent child proof several e =
      let given = build codec.sha256 (add_links create_tree parent.links) in
      let last : ClassicTreeBranch → Checked (Option ClassicTreeBranch) =
        λ branch. ok (some branch) in
      let middle : MerkleTree → Checked (Option ClassicTreeBranch) =
        λ tree. branch_of tree child >>= last in
      let (tree, made, more) = >>=-eq-ok (from_merkle given) middle (rw several at e) in
      let (branch, found, done) = >>=-eq-ok (branch_of tree child) last more in
      (branch, sym (ok-injective done))

  with_proof-HasProof :
      (leaf : DagLeaf) (put asked : Bytes) (branch : ClassicTreeBranch)
      → has_key asked (with_proof leaf put branch).proofs
        ≡ (if bytes_eq put asked then true else has_key asked leaf.proofs)
  unfolding with_proof
  with_proof-HasProof leaf put asked branch = has_key-insert put asked (some branch) leaf.proofs

  -- One child: it has a proof afterwards if it is in the partial DAG, and no proof is lost.
  complete_child-HasProof :
      (partial : GoMap DagLeaf) (full leaf result : DagLeaf) (child : Bytes)
      → leb (length full.links) 1 ≡ false
      → complete_child codec partial full child leaf ≡ ok result
      → (has_key child partial ≡ true → HasProof result child)
        × ((other : Bytes) → HasProof leaf other → HasProof result other)
  unfolding complete_child
  complete_child-HasProof partial full leaf result child several e =
      elim (Bool-cases (has_key child partial && not (has_key child leaf.proofs))) [
        | inr done ↦
            let same : leaf ≡ result = ok-injective {Problem = DagError} (rw done at e) in
            (
              λ there.
                  subst (λ l. HasProof l child) same
                    (second_true (has_key child partial) (has_key child leaf.proofs) done there),
              λ other h. subst (λ l. HasProof l other) same h,
            )
        | inl new ↦
            let last : Option ClassicTreeBranch → Checked DagLeaf =
              λ proof. ok (store_proof leaf child proof) in
            let (proof, found, done) =
              >>=-eq-ok (proof_for_child codec full child) last (rw new at e) in
            let (branch, is_branch) = proof_for_child-some full child proof several found in
            let same : with_proof leaf child branch ≡ result = stored branch proof is_branch done in
            (
              λ there.
                  subst (λ l. HasProof l child) same
                    (with_proof-HasProof leaf child child branch ∙ rw (bytes_eq_refl child) refl),
              λ other h.
                  subst (λ l. HasProof l other) same
                    (with_proof-HasProof leaf child other branch ∙ either (bytes_eq child other) h),
            )
      ]
    where
      second_true : (a b : Bool) → (a && not b) ≡ false → a ≡ true → b ≡ true
      second_true true true h k = refl
      second_true true false h k = cc
      second_true false b h k = cc

      either : (t : Bool) {b : Bool} → b ≡ true → (if t then true else b) ≡ true
      either true h = refl
      either false h = h

      stored :
          (branch : ClassicTreeBranch) (proof : Option ClassicTreeBranch)
          → proof ≡ some branch
          → ◌≡◌ {A = Checked DagLeaf} (ok (store_proof leaf child proof)) (ok result)
          → with_proof leaf child branch ≡ result
      stored branch proof h k =
          let as_result : Option ClassicTreeBranch → Checked DagLeaf =
            λ p. ok (store_proof leaf child p) in
          ok-injective (ap as_result (sym h) ∙ k)

  complete_children-HasProof :
      (partial : GoMap DagLeaf) (full : DagLeaf) (links : List Bytes) (leaf result : DagLeaf)
      → leb (length full.links) 1 ≡ false
      → complete_children codec partial full links leaf ≡ ok result
      → ((child : Bytes)
          → has_string child links ≡ true
          → has_key child partial ≡ true
          → HasProof result child)
        × ((other : Bytes) → HasProof leaf other → HasProof result other)
  unfolding complete_children has_string
  complete_children-HasProof partial full [] leaf result several e =
      (λ child h there. absurd (cc h), λ other h. subst (λ l. HasProof l other) (ok-injective e) h)
  complete_children-HasProof partial full (first ∷ links) leaf result several e =
      let (next, one, rest) =
        >>=-eq-ok (complete_child codec partial full first leaf)
          (complete_children codec partial full links) e in
      let here = complete_child-HasProof partial full leaf next first several one in
      let later = complete_children-HasProof partial full links next result several rest in
      (
        λ child h there. elim (Bool-cases (bytes_eq first child)) [
          | inl same ↦
              let equal : first ≡ child = eq_of_bytes_eq first child same in
              later.1 child (
                subst (HasProof next) equal
                  (here.0 (subst (λ c. has_key c partial ≡ true) (sym equal) there)))
          | inr other ↦ later.0 child (rw other at h) there
        ],
        λ other h. later.1 other (here.1 other h),
      )

  complete_parent-HasProof :
      (partial : GoMap DagLeaf) (full leaf result : DagLeaf) (child : Bytes)
      → 1 < length full.links
      → complete_parent codec partial (some full) leaf ≡ ok result
      → has_string child full.links ≡ true
      → has_key child partial ≡ true
      → HasProof result child
  unfolding complete_parent
  complete_parent-HasProof partial full leaf result child many e linked there =
      let several : leb (length full.links) 1 ≡ false = ground arith in
      (complete_children-HasProof partial full full.links leaf result several (rw several at e)).0
        child linked there

  -- An entry after the completion comes from one before, and the same hashes have one.
  complete_all-lookup :
      (d : Dag) (partial leafs results : GoMap DagLeaf) (k : Bytes)
      → complete_all codec d partial leafs ≡ ok results
      → (has_key k results ≡ has_key k leafs)
        × ((result : DagLeaf)
            → lookup k results ≡ some result
            → (leaf : DagLeaf) × (complete_parent codec partial (lookup k d.leafs) leaf
                ≡ ok result))
  unfolding complete_all lookup
  complete_all-lookup d partial [] results k e =
      let same : [] ≡ results = ok-injective e in rw (← same) (refl, λ result h. absurd (cc h))
  complete_all-lookup d partial ((j, leaf) ∷ leafs) results k e =
      let last : DagLeaf → GoMap DagLeaf → Checked (GoMap DagLeaf) =
        λ completed others. ok ((j, completed) ∷ others) in
      let (completed, one, rest) =
        >>=-eq-ok (complete_parent codec partial (lookup j d.leafs) leaf)
          (λ completed. complete_all codec d partial leafs >>= last completed) e in
      let (others, more, done) =
        >>=-eq-ok (complete_all codec d partial leafs) (last completed) rest in
      let same : (j, completed) ∷ others ≡ results = ok-injective done in
      let later = complete_all-lookup d partial leafs others k more in
      rw (← same) (elim (Bool-cases (bytes_eq j k)) [
        | inl equal ↦ rw equal (
          refl,
          λ result h.
              let value : completed ≡ result = cc h in
              let key : j ≡ k = eq_of_bytes_eq j k equal in
              (
                leaf,
                ap (λ x. complete_parent codec partial (lookup x d.leafs) leaf) (sym key)
                    ∙ one
                    ∙ ap ok value,
              ),
        )
        | inr differ ↦ rw differ later
      ])

prune-lookup :
    (relevant : GoMap Bool) (leafs : GoMap DagLeaf) (k : Bytes)
    → (has_key k (prune_irrelevant_links relevant leafs) ≡ has_key k leafs)
      × ((pruned : DagLeaf)
          → lookup k (prune_irrelevant_links relevant leafs) ≡ some pruned
          → (leaf : DagLeaf) × (lookup k leafs ≡ some leaf) × (leaf.proofs ≡ pruned.proofs))
unfolding prune_irrelevant_links prune_leaf lookup
prune-lookup relevant [] k = (refl, λ pruned h. absurd (cc h))
prune-lookup relevant ((j, leaf) ∷ leafs) k = elim (Bool-cases (bytes_eq j k)) [
  | inl same ↦ rw same (
    refl,
    λ pruned h.
        let value : prune_leaf relevant leaf ≡ pruned = cc h in
        (leaf, refl, ap (λ l. l.proofs) value),
  )
  | inr other ↦ rw other (prune-lookup relevant leafs k)
]

-- What holds of every leaf of the partial DAG before pruning.
abbrev IsComplete : Dag → GoMap DagLeaf → Type 0
IsComplete d leafs =
    (k : Bytes) (leaf full : DagLeaf) (child : Bytes)
    → lookup k leafs ≡ some leaf
    → lookup k d.leafs ≡ some full
    → 1 < length full.links
    → has_string child full.links ≡ true
    → has_key child leafs ≡ true
    → HasProof leaf child

complete_all-IsComplete :
    (codec : Codec) (d : Dag) (partial completed : GoMap DagLeaf)
    → complete_all codec d partial partial ≡ ok completed
    → IsComplete d completed
complete_all-IsComplete codec d partial completed e k leaf full child held from many linked there =
    let at_k = complete_all-lookup codec d partial partial completed k e in
    let at_child = complete_all-lookup codec d partial partial completed child e in
    let (before, step) = at_k.1 leaf held in
    let found : complete_parent codec partial (some full) before ≡ ok leaf = rw from at step in
    complete_parent-HasProof codec partial full before leaf child many found linked
      (sym at_child.0 ∙ there)

prune-IsComplete :
    (d : Dag) (relevant : GoMap Bool) (leafs : GoMap DagLeaf)
    → IsComplete d leafs
    → IsComplete d (prune_irrelevant_links relevant leafs)
prune-IsComplete d relevant leafs complete k leaf full child held from many linked there =
    let (before, was, proofs) = (prune-lookup relevant leafs k).1 leaf held in
    let present = sym (prune-lookup relevant leafs child).0 ∙ there in
    subst (λ p. has_key child p ≡ true) proofs
      (complete k before full child was from many linked present)

-- In a partial DAG from `GetPartial`, pruned or not, each leaf that has several links in the full DAG
-- stores an entry in its proofs for each child among them that is in the partial DAG: also where the
-- child is linked by several parents.
pub get_partial-HasProof :
    (codec : Codec) (fuel : ℕ) (d partial : Dag) (leaf_hashes : List Bytes) (prune_links : Bool)
    (k : Bytes) (leaf full : DagLeaf) (child : Bytes)
    → get_partial codec fuel d leaf_hashes prune_links ≡ ok partial
    → lookup k partial.leafs ≡ some leaf
    → lookup k d.leafs ≡ some full
    → 1 < length full.links
    → has_string child full.links ≡ true
    → has_key child partial.leafs ≡ true
    → has_key child leaf.proofs ≡ true
get_partial-HasProof codec fuel d partial leaf_hashes prune_links k leaf full child e =
    let steps = get_partial-Steps codec fuel d partial leaf_hashes prune_links e in
    Steps_leafs (IsComplete d) codec fuel d partial leaf_hashes prune_links steps
      (complete_all-IsComplete codec d steps.added.0 steps.completed steps.proved)
      (prune-IsComplete d) k leaf full child
