-- ===== src/Transmission/Unlinked.antt =====
-- dag/transmission.go: a batch with a leaf that its declared parent does not link.
use scionic_merkle_tree_go.Common.{
  ◌+◌, ◌<◌, ◌≡◌, refl, sym, ap, ◌∙◌, true, false, some, [], ◌∷◌, ◌++◌, Bytes, length, length-append,
  ltb, bytes_eq, ok, err, GoMap, lookup, insert, arith, inl, inr, Bool-cases, bytes_eq_refl,
  eq_of_bytes_eq, bytes_eq_iff, lt→ltb, has_string,
}
use scionic_merkle_tree_go.Dag.Types.{DagLeaf, Dag, missing_children, Codec}
use scionic_merkle_tree_go.Dag.Leaf.{has_link, verify_leaf, verify_children_against_merkle_root}
use scionic_merkle_tree_go.Dag.Root.{verify_root_leaf, with_root_bytes}
use scionic_merkle_tree_go.Dag.Builder.{with_link}
use scionic_merkle_tree_go.Serialize.{dag_over}
use scionic_merkle_tree_go.Transmission.Batches.{BatchedTransmissionPacket, with_leaves}
use scionic_merkle_tree_go.Transmission.BatchChecks.{
  batch_leaves, verify_child, verify_batched_child, verify_batched_root, verify_batched_leaf,
  verify_batched_leaves, verify_batched_transmission_packet, apply_leaf, link_declared,
  update_parent, apply_leaves, apply_batched_transmission_packet,
}

-- A root and a leaf that names it as its parent.
abbrev pub two_leaves : DagLeaf → DagLeaf → BatchedTransmissionPacket
two_leaves p c = record {
  leaves = p ∷ c ∷ [];
  relationships = (p.hash, []) ∷ (c.hash, p.hash) ∷ [];
  packet_index = 0;
  total_packets = 1;
}

-- The leaf's own DAG, in which `VerifyRootLeaf` checks it.
abbrev pub alone : DagLeaf → Dag
alone p = dag_over p.hash ((p.hash, p) ∷ [])

other_order : (a b : Bytes) → bytes_eq a b ≡ false → bytes_eq b a ≡ false
other_order a b h = elim (Bool-cases (bytes_eq b a)) [
  | inr differ ↦ differ
  | inl same ↦ absurd (cc (sym h ∙ (bytes_eq_iff a b).1 (sym (eq_of_bytes_eq b a same))))
]

module _ (codec : Codec) (p c : DagLeaf) (differ : bytes_eq p.hash c.hash ≡ false) where
  lookup-batch_leaves : lookup p.hash (batch_leaves (p ∷ c ∷ []) []) ≡ some p
  unfolding batch_leaves insert lookup
  lookup-batch_leaves = rw (differ, bytes_eq_refl p.hash) refl

  root_left : (verify_root_leaf codec p (some (alone p))).0 ≡ with_root_bytes p
  unfolding verify_root_leaf
  root_left = refl

  verify_batched_root-left :
      (verify_root_leaf codec p (some (alone p))).1 ≡ ok tt
      → verify_batched_root codec p [] ≡ ok (with_root_bytes p, [])
  unfolding verify_batched_root
  verify_batched_root-left root_ok = rw root_ok (ap (λ l. ok (l, [])) root_left)

  verify_child-checked :
      1 < length p.links
      → p.proofs ≡ []
      → verify_children_against_merkle_root codec p ≡ ok tt
      → verify_child codec c.hash p.hash (p, true) [] ≡ ok (p.hash ∷ [])
  unfolding verify_child has_string
  verify_child-checked many no_proofs children =
      let several : ltb 1 (length p.links) ≡ true = lt→ltb 1 (length p.links) many in
      rw (several, no_proofs, children) refl

  verify_batched_leaves-two :
      (leafs : GoMap DagLeaf)
      → bytes_eq p.hash [] ≡ false
      → (verify_root_leaf codec p (some (alone p))).1 ≡ ok tt
      → verify_leaf codec c ≡ ok tt
      → 1 < length p.links
      → p.proofs ≡ []
      → verify_children_against_merkle_root codec p ≡ ok tt
      → verify_batched_leaves codec leafs
          (batch_leaves (p ∷ c ∷ []) [])
          ((p.hash, []) ∷ (c.hash, p.hash) ∷ [])
          (p ∷ c ∷ [])
          []
        ≡ ok (with_root_bytes p ∷ c ∷ [])
  unfolding verify_batched_leaves verify_batched_leaf verify_batched_child lookup bytes_eq
  verify_batched_leaves-two leafs named root_ok leaf_ok many no_proofs children =
      rw
        (
          bytes_eq_refl p.hash,
          verify_batched_root-left root_ok,
          differ,
          bytes_eq_refl c.hash,
          named,
          leaf_ok,
          lookup-batch_leaves,
          verify_child-checked many no_proofs children,
        )
        refl

  apply_leaves-two :
      bytes_eq p.hash [] ≡ false
      → has_link p c.hash ≡ false
      → lookup p.hash
          (apply_leaves ((p.hash, []) ∷ (c.hash, p.hash) ∷ []) (with_root_bytes p ∷ c ∷ []) [])
        ≡ some (with_link (with_root_bytes p) c.hash)
  unfolding apply_leaves apply_leaf update_parent link_declared with_root_bytes insert lookup
      has_link bytes_eq
  apply_leaves-two named unlinked =
      let no_link : has_link (with_root_bytes p) c.hash ≡ false = unlinked in
      rw (bytes_eq_refl p.hash, differ, bytes_eq_refl c.hash, named, differ, bytes_eq_refl p.hash)
        (rw (no_link, bytes_eq_refl p.hash) (rw (bytes_eq_refl p.hash) refl))

  children_missing :
      p.current_link_count ≡ length p.links
      → 1 < length p.links
      → verify_children_against_merkle_root codec (with_link (with_root_bytes p) c.hash)
        ≡ err missing_children
  unfolding verify_children_against_merkle_root with_link with_root_bytes
  children_missing full many =
      let more : length (p.links ++ c.hash ∷ []) ≡ length p.links + 1 =
        length-append {0} p.links (c.hash ∷ []) in
      rw (full, more) (ground arith)

-- A batch of a root and of a leaf that names it as its parent is accepted although the root does not
-- link the leaf: the root has several links and no proofs, its links are those that its Merkle root
-- stands for, and both leaves verify on their own. When a receiver that has no leaves applies the
-- batch, the root has one link too many, and its Merkle root verifies no longer.
pub verify_batched_transmission_packet-unlinked :
    (codec : Codec) (d : Dag) (p c : DagLeaf)
    → bytes_eq p.hash c.hash ≡ false
    → bytes_eq p.hash [] ≡ false
    → (verify_root_leaf codec p (some (alone p))).1 ≡ ok tt
    → verify_leaf codec c ≡ ok tt
    → 1 < length p.links
    → p.current_link_count ≡ length p.links
    → p.proofs ≡ []
    → verify_children_against_merkle_root codec p ≡ ok tt
    → has_link p c.hash ≡ false
    → (packet : BatchedTransmissionPacket) × (parent : DagLeaf)
      × (verify_batched_transmission_packet codec d (two_leaves p c) ≡ ok packet)
      × (lookup p.hash (apply_batched_transmission_packet (dag_over p.hash []) packet).leafs
          ≡ some parent)
      × (verify_children_against_merkle_root codec parent ≡ err missing_children)
unfolding verify_batched_transmission_packet apply_batched_transmission_packet
verify_batched_transmission_packet-unlinked codec d p c differ named root_ok leaf_ok many full
      no_proofs children unlinked =
    (
      with_leaves (two_leaves p c) (with_root_bytes p ∷ c ∷ []),
      with_link (with_root_bytes p) c.hash,
      rw
          (verify_batched_leaves-two codec p c differ d.leafs named root_ok leaf_ok many no_proofs
            children)
          refl,
      apply_leaves-two codec p c differ named unlinked,
      children_missing codec p c differ full many,
    )
