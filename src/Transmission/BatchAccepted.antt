-- ===== src/Transmission/BatchAccepted.antt =====
-- dag/transmission.go: what a batch has been checked for when it is accepted.
use scionic_merkle_tree_go.Common.{
  ◌≡◌, refl, sym, ap, ◌∙◌, subst, Bool, true, false, Option, some, none, List, [], ◌∷◌, Bytes,
  length, ltb, ◌==◌, bytes_eq, Result, ok, ◌>>=◌, GoMap, lookup, inl, inr, Bool-cases, >>=-eq-ok,
  ok-injective, eq_of_bytes_eq, All, has_string,
}
use scionic_merkle_tree_go.Dag.Types.{ClassicTreeBranch, DagLeaf, Dag, Codec}
use scionic_merkle_tree_go.Dag.Leaf.{
  verify_leaf, verify_branch, verify_children_against_merkle_root,
}
use scionic_merkle_tree_go.Dag.Root.{verify_root_leaf}
use scionic_merkle_tree_go.Serialize.{dag_over}
use scionic_merkle_tree_go.Transmission.{PacketError, from_leaf}
use scionic_merkle_tree_go.Transmission.Accepted.{from_leaf-ok, verify_stored-ok}
use scionic_merkle_tree_go.Transmission.Batches.{BatchedTransmissionPacket, with_leaves}
use scionic_merkle_tree_go.Transmission.BatchChecks.{
  batch_leaves, parent_from, verify_proof_in_batch, verify_child, verify_batched_child,
  verify_batched_root, verify_batched_leaf, verify_batched_leaves,
  verify_batched_transmission_packet,
}

module _ (codec : Codec) where
  -- How a child stands to its parent.
  pub data IsHeld (child_hash : Bytes) (parent : DagLeaf) (from_batch : Bool) : Type 0 where
    few_links : ltb 1 (length parent.links) ≡ false → IsHeld child_hash parent from_batch
    all_children :
        (length parent.proofs == 0) ≡ true
        → verify_children_against_merkle_root codec parent ≡ ok tt
        → IsHeld child_hash parent from_batch
    left_out :
        from_batch ≡ true
        → (length parent.proofs == 0) ≡ false
        → lookup child_hash parent.proofs ≡ none
        → IsHeld child_hash parent from_batch
    proved :
        (branch : ClassicTreeBranch)
        → lookup child_hash parent.proofs ≡ some (some branch)
        → verify_branch codec parent branch ≡ ok tt
        → IsHeld child_hash parent from_batch

  module _ (leafs batch : GoMap DagLeaf) where
    -- A parent that the batch or the DAG has, with its children checked.
    abbrev HasChildren : Bytes → Type 0
    HasChildren parent_hash =
        (parent : DagLeaf × Bool) × (parent_from (lookup parent_hash batch)
            (lookup parent_hash leafs)
          ≡ ok parent)
        × (verify_children_against_merkle_root codec parent.0 ≡ ok tt)

    All-HasChildren :
        (k : Bytes) (ks : List Bytes) → All HasChildren ks → has_string k ks ≡ true → HasChildren k
    unfolding has_string
    All-HasChildren k [] all h = absurd (cc h)
    All-HasChildren k (j ∷ ks) all h = elim (Bool-cases (bytes_eq j k)) [
      | inl same ↦ subst HasChildren (eq_of_bytes_eq j k same) all.0
      | inr other ↦ All-HasChildren k ks all.1 (rw other at h)
    ]

    verify_proof_in_batch-IsHeld :
        (child : Bytes) (parent : DagLeaf) (from_batch : Bool)
        (found : Option (Option ClassicTreeBranch))
        → (length parent.proofs == 0) ≡ false
        → lookup child parent.proofs ≡ found
        → verify_proof_in_batch codec parent from_batch found ≡ ok tt
        → IsHeld child parent from_batch
    unfolding verify_proof_in_batch
    verify_proof_in_batch-IsHeld child parent true none others there e = left_out refl others there
    verify_proof_in_batch-IsHeld child parent false none others there e = absurd (cc e)
    verify_proof_in_batch-IsHeld child parent from_batch (some proof) others there e =
        let (branch, is, verified) = verify_stored-ok codec parent (some proof) e in
        proved branch (there ∙ is) verified

    verify_child-IsHeld :
        (child parent_hash : Bytes) (parent : DagLeaf) (from_batch : Bool)
        (verified_parents next : List Bytes)
        → parent_from (lookup parent_hash batch) (lookup parent_hash leafs)
          ≡ ok (parent, from_batch)
        → All HasChildren verified_parents
        → verify_child codec child parent_hash (parent, from_batch) verified_parents ≡ ok next
        → IsHeld child parent from_batch × All HasChildren next
    unfolding verify_child
    verify_child-IsHeld child parent_hash parent from_batch verified_parents next found all e =
        elim (Bool-cases (ltb 1 (length parent.links))) [
          | inr few ↦
              let same : verified_parents ≡ next =
                ok-injective {Problem = PacketError} (rw few at e) in
              (few_links few, subst (All HasChildren) same all)
          | inl many ↦ elim (Bool-cases (length parent.proofs == 0)) [
            | inr some_proof ↦
                let last : Unit {0} → Result PacketError (List Bytes) = λ u. ok verified_parents in
                let (u, ran, rest) =
                  >>=-eq-ok
                    (verify_proof_in_batch codec parent from_batch (lookup child parent.proofs))
                    last (rw (many, some_proof) at e) in
                let same : verified_parents ≡ next = ok-injective {Problem = PacketError} rest in
                (
                  verify_proof_in_batch-IsHeld child parent from_batch (lookup child parent.proofs)
                      some_proof refl ran,
                  subst (All HasChildren) same all,
                )
            | inl no_proof ↦ elim (Bool-cases (has_string parent_hash verified_parents)) [
              | inl before ↦
                  let same : verified_parents ≡ next =
                    ok-injective {Problem = PacketError} (rw (many, no_proof, before) at e) in
                  let (other, there, checked) =
                    All-HasChildren parent_hash verified_parents all before in
                  let known : (parent, from_batch) ≡ other =
                    ok-injective {Problem = PacketError} (sym found ∙ there) in
                  (
                    all_children no_proof (
                        subst (λ x. verify_children_against_merkle_root codec x.0 ≡ ok tt)
                          (sym known) checked),
                    subst (All HasChildren) same all,
                  )
              | inr first ↦
                  let last : Unit {0} → Result PacketError (List Bytes) =
                    λ u. ok (parent_hash ∷ verified_parents) in
                  let (u, ran, rest) =
                    >>=-eq-ok (from_leaf (verify_children_against_merkle_root codec parent)) last
                      (rw (many, no_proof, first) at e) in
                  let checked =
                    from_leaf-ok (verify_children_against_merkle_root codec parent) tt ran in
                  let same : (parent_hash ∷ verified_parents) ≡ next =
                    ok-injective {Problem = PacketError} rest in
                  (
                    all_children no_proof checked,
                    subst (All HasChildren) same (((parent, from_batch), found, checked), all),
                  )
            ]
          ]
        ]

    -- What a leaf of an accepted batch has been checked for, by its relationship.
    pub data IsChecked (relationships : GoMap Bytes) (leaf : DagLeaf) : Type 0 where
      root :
          lookup leaf.hash relationships ≡ some []
          → (verify_root_leaf codec leaf (some (dag_over leaf.hash ((leaf.hash, leaf) ∷ [])))).1
            ≡ ok tt
          → IsChecked relationships leaf
      child :
          (parent_hash : Bytes) (parent : DagLeaf) (from_batch : Bool)
          → lookup leaf.hash relationships ≡ some parent_hash
          → verify_leaf codec leaf ≡ ok tt
          → parent_from (lookup parent_hash batch) (lookup parent_hash leafs)
            ≡ ok (parent, from_batch)
          → IsHeld leaf.hash parent from_batch
          → IsChecked relationships leaf

    verify_batched_leaf-IsChecked :
        (relationships : GoMap Bytes) (leaf : DagLeaf) (declared : Option Bytes)
        (verified_parents : List Bytes) (next : DagLeaf × List Bytes)
        → lookup leaf.hash relationships ≡ declared
        → All HasChildren verified_parents
        → verify_batched_leaf codec leafs batch leaf declared verified_parents ≡ ok next
        → IsChecked relationships leaf × All HasChildren next.1
    unfolding verify_batched_leaf verify_batched_root verify_batched_child
    verify_batched_leaf-IsChecked relationships leaf none verified_parents next there all e =
        absurd (cc e)
    verify_batched_leaf-IsChecked relationships leaf (some parent_hash) verified_parents next there
          all e =
        elim (Bool-cases (bytes_eq parent_hash [])) [
          | inl top ↦
              let own = dag_over leaf.hash ((leaf.hash, leaf) ∷ []) in
              let verdict = verify_root_leaf codec leaf (some own) in
              let last : Unit {0} → Result PacketError (DagLeaf × List Bytes) =
                λ u. ok (verdict.0, verified_parents) in
              let (u, ran, rest) = >>=-eq-ok (from_leaf verdict.1) last (rw top at e) in
              let same : (verdict.0, verified_parents) ≡ next =
                ok-injective {Problem = PacketError} rest in
              (
                root (there ∙ ap some (eq_of_bytes_eq parent_hash [] top))
                    (from_leaf-ok verdict.1 tt ran),
                subst (λ x. All HasChildren x.1) same all,
              )
          | inr below ↦
              let given : Bytes → DagLeaf × Bool → Result PacketError (List Bytes) =
                λ h parent. verify_child codec leaf.hash h parent verified_parents in
              let last : List Bytes → Result PacketError (DagLeaf × List Bytes) =
                λ verified. ok (leaf, verified) in
              let found = parent_from (lookup parent_hash batch) (lookup parent_hash leafs) in
              let (u, ran, after) =
                >>=-eq-ok (from_leaf (verify_leaf codec leaf))
                  (λ u. found >>= λ parent. given parent_hash parent >>= last) (rw below at e) in
              let (parent, held, later) =
                >>=-eq-ok found (λ parent. given parent_hash parent >>= last) after in
              let (verified, checked, rest) = >>=-eq-ok (given parent_hash parent) last later in
              let same : (leaf, verified) ≡ next = ok-injective {Problem = PacketError} rest in
              let one =
                verify_child-IsHeld leaf.hash parent_hash parent.0 parent.1 verified_parents
                  verified held all checked in
              (
                child parent_hash parent.0 parent.1 there
                    (from_leaf-ok (verify_leaf codec leaf) tt ran) held one.0,
                subst (λ x. All HasChildren x.1) same one.1,
              )
        ]

    verify_batched_leaves-IsChecked :
        (relationships : GoMap Bytes) (leaves : List DagLeaf) (verified_parents : List Bytes)
        (left : List DagLeaf)
        → All HasChildren verified_parents
        → verify_batched_leaves codec leafs batch relationships leaves verified_parents ≡ ok left
        → All (IsChecked relationships) leaves
    unfolding verify_batched_leaves
    verify_batched_leaves-IsChecked relationships [] verified_parents left all e = tt
    verify_batched_leaves-IsChecked relationships (leaf ∷ leaves) verified_parents left all e =
        let declared = lookup leaf.hash relationships in
        let last : DagLeaf → List DagLeaf → Result PacketError (List DagLeaf) =
          λ l rest. ok (l ∷ rest) in
        let (next, ran, after) =
          >>=-eq-ok (verify_batched_leaf codec leafs batch leaf declared verified_parents)
            (λ next.
              verify_batched_leaves codec leafs batch relationships leaves next.1 >>= last next.0)
            e in
        let (rest, others, end) =
          >>=-eq-ok (verify_batched_leaves codec leafs batch relationships leaves next.1)
            (last next.0) after in
        let one =
          verify_batched_leaf-IsChecked relationships leaf declared verified_parents next refl all
            ran in
        (one.0, verify_batched_leaves-IsChecked relationships leaves next.1 rest one.1 others)

-- A batch is accepted only when every leaf of it has a relationship and verifies: one without a
-- parent by `VerifyRootLeaf` in a DAG of its own; any other by `VerifyLeaf`, with its parent in the
-- batch or else in the DAG. A parent with several links has a proof of the child that verifies, or has
-- no proofs and links that verify against its Merkle root, or is in the batch with proofs of others.
pub verify_batched_transmission_packet-IsChecked :
    (codec : Codec) (d : Dag) (packet left : BatchedTransmissionPacket)
    → verify_batched_transmission_packet codec d packet ≡ ok left
    → All
        (IsChecked codec d.leafs (batch_leaves packet.leaves []) packet.relationships)
        packet.leaves
unfolding verify_batched_transmission_packet
verify_batched_transmission_packet-IsChecked codec d packet left e =
    let batch = batch_leaves packet.leaves [] in
    let last : List DagLeaf → Result PacketError BatchedTransmissionPacket =
      λ leaves. ok (with_leaves packet leaves) in
    let (leaves, ran, rest) =
      >>=-eq-ok (verify_batched_leaves codec d.leafs batch packet.relationships packet.leaves [])
        last e in
    verify_batched_leaves-IsChecked codec d.leafs batch packet.relationships packet.leaves [] leaves
      tt ran
