-- ===== src/Transmission/Received.antt =====
-- dag/transmission.go: the receiver of the packets of a full DAG.
use scionic_merkle_tree_go.Common.{
  ◌<◌, ◌≡◌, refl, sym, ap, ◌∙◌, subst, true, false, Option, some, none, List, [], ◌∷◌, Bytes,
  length, ltb, bytes_eq, ok, GoMap, lookup, insert, has_key, inl, inr, Bool-cases, eq_of_bytes_eq,
  All, ◌⊎◌, ltb→lt, has_string, Entries, Entries-insert, Entries-lookup, has_key-insert_old,
  has_key-insert_new,
}
use scionic_merkle_tree_go.Dag.Types.{DagLeaf, Dag, Codec}
use scionic_merkle_tree_go.Dag.Sorting.{or_empty}
use scionic_merkle_tree_go.Dag.Leaf.{has_link}
use scionic_merkle_tree_go.Dag.Root.{verify_root_leaf}
use scionic_merkle_tree_go.Dag.Clone.{clone}
use scionic_merkle_tree_go.Dag.Iterate.{is_partial}
use scionic_merkle_tree_go.Transmission.{
  TransmissionPacket, get_leaf_sequence, from_leaf, verify_stored, verify_with_parent,
  verify_transmission_packet, attach, attach_to, apply_transmission_packet, with_packet_leaf,
  apply_and_verify_transmission_packet, receive,
}
use scionic_merkle_tree_go.Transmission.Sent.{
  IsSendable, IsSentChild, IsSent, get_leaf_sequence-IsSent,
}
use scionic_merkle_tree_go.Transmission.Copies.{
  IsReceived, clone-IsReceived, with_root_bytes-IsReceived, put_proof-IsReceived, some_same,
  verify_branch-IsReceived,
}

module _ (codec : Codec) (d : Dag) where
  abbrev pub AllReceived : GoMap DagLeaf → Type 0
  AllReceived leafs = Entries (IsReceived d) leafs

  verify_with_parent-ok :
      (leafs : GoMap DagLeaf) (packet : TransmissionPacket) (found : Option DagLeaf)
      → AllReceived leafs
      → IsSentChild codec d packet
      → lookup packet.parent_hash leafs ≡ found
      → verify_with_parent codec found packet ≡ ok tt
  unfolding verify_with_parent verify_stored
  verify_with_parent-ok leafs packet none all child e = refl
  verify_with_parent-ok leafs packet (some parent) all child e =
      let received = Entries-lookup (IsReceived d) packet.parent_hash parent leafs all e in
      let same : received.source ≡ child.parent =
        some_same (lookup packet.parent_hash d.leafs) _ _ received.held child.parent_held in
      let links : parent.links ≡ child.parent.links = received.links ∙ ap (λ s. s.links) same in
      elim (Bool-cases (ltb 1 (length parent.links))) [
        | inr few ↦ rw few refl
        | inl many ↦
            let many_links : 1 < length child.parent.links =
              subst (λ l. 1 < length l) links (ltb→lt 1 (length parent.links) many) in
            let (branch, stored, accepted) = child.proved many_links in
            let root : or_empty parent.classic_merkle_root
                ≡ or_empty child.parent.classic_merkle_root =
              received.root ∙ ap (λ s. or_empty s.classic_merkle_root) same in
            rw
              (
                many,
                stored,
                verify_branch-IsReceived codec d packet.parent_hash child.parent parent branch root
                    accepted,
              )
              refl
      ]

  attach_to-AllReceived :
      (leafs : GoMap DagLeaf) (packet : TransmissionPacket) (found : Option DagLeaf)
      → AllReceived leafs
      → IsSentChild codec d packet
      → lookup packet.parent_hash leafs ≡ found
      → AllReceived (attach_to packet found leafs)
  unfolding attach_to attach
  attach_to-AllReceived leafs packet none all child e = all
  attach_to-AllReceived leafs packet (some parent) all child e =
      let received = Entries-lookup (IsReceived d) packet.parent_hash parent leafs all e in
      let same : received.source ≡ child.parent =
        some_same (lookup packet.parent_hash d.leafs) _ _ received.held child.parent_held in
      let links : parent.links ≡ child.parent.links = received.links ∙ ap (λ s. s.links) same in
      let linked : has_link parent packet.leaf.hash ≡ true =
        subst (λ l. has_string packet.leaf.hash l ≡ true) (sym links) child.linked in
      Entries-insert (IsReceived d) packet.parent_hash _ leafs
        (rw linked (
          put_proof-IsReceived d packet.parent_hash packet.leaf.hash
            (lookup packet.leaf.hash packet.proofs) parent received))
        all

  -- What a packet leaves of its leaf: only the root may have changed, from nil to empty.
  left_leaf-IsReceived :
      (r : Dag) (packet : TransmissionPacket)
      → IsSent codec d packet
      → IsReceived d packet.leaf.hash (verify_transmission_packet codec r packet).0
  unfolding verify_transmission_packet
  left_leaf-IsReceived r packet sent =
      let copied : IsReceived d packet.leaf.hash packet.leaf =
        subst (IsReceived d packet.leaf.hash) (sym sent.copy)
          (clone-IsReceived codec d packet.leaf.hash sent.source sent.held sent.sendable) in
      elim (Bool-cases (bytes_eq packet.parent_hash [])) [
        | inl root ↦ rw root (with_root_bytes-IsReceived d packet.leaf.hash packet.leaf copied)
        | inr child ↦ rw child copied
      ]

  module _
      (root_verified : (root : DagLeaf)
        → lookup d.root d.leafs ≡ some root
        → (verify_root_leaf codec (clone root) none).1 ≡ ok tt) where
    verify_transmission_packet-ok :
        (r : Dag) (packet : TransmissionPacket)
        → AllReceived r.leafs
        → IsSent codec d packet
        → (verify_transmission_packet codec r packet).1 ≡ ok tt
    unfolding verify_transmission_packet
    verify_transmission_packet-ok r packet all sent = elim sent.kind [
      | inl root ↦
          let held : lookup d.root d.leafs ≡ some sent.source =
            subst (λ h. lookup h d.leafs ≡ some sent.source)
              (eq_of_bytes_eq packet.leaf.hash d.root root.1) sent.held in
          let verified : (verify_root_leaf codec packet.leaf none).1 ≡ ok tt =
            ap (λ l. (verify_root_leaf codec l none).1) sent.copy
            ∙ root_verified sent.source held in
          rw root.0 (ap from_leaf verified)
      | inr child ↦
          rw
            (
              child.named,
              child.verified,
              verify_with_parent-ok r.leafs packet (lookup packet.parent_hash r.leafs) all child
                  refl,
            )
            refl
    ]

    -- One packet: it is accepted, its leaf is there afterwards, and no leaf is lost.
    record IsTaken (r : Dag) (packet : TransmissionPacket) : Type 0 where
      next : Dag
      taken : apply_and_verify_transmission_packet codec r packet ≡ ok next
      all : AllReceived next.leafs
      there : has_key packet.leaf.hash next.leafs ≡ true
      kept : (k : Bytes) → has_key k r.leafs ≡ true → has_key k next.leafs ≡ true

    apply_and_verify-ok :
        (r : Dag) (packet : TransmissionPacket) (left : DagLeaf)
        → (verify_transmission_packet codec r packet).0 ≡ left
        → (verify_transmission_packet codec r packet).1 ≡ ok tt
        → apply_and_verify_transmission_packet codec r packet
          ≡ ok (apply_transmission_packet r (with_packet_leaf packet left))
    unfolding apply_and_verify_transmission_packet
    apply_and_verify-ok r packet left is_left accepted = rw (is_left, accepted) refl

    has_key-attach_to :
        (k : Bytes) (packet : TransmissionPacket) (found : Option DagLeaf) (leafs : GoMap DagLeaf)
        → has_key k leafs ≡ true
        → has_key k (attach_to packet found leafs) ≡ true
    unfolding attach_to
    has_key-attach_to k packet none leafs h = h
    has_key-attach_to k packet (some parent) leafs h =
        has_key-insert_old packet.parent_hash k (attach packet parent) leafs h

    apply-AllReceived :
        (r : Dag) (packet : TransmissionPacket)
        → AllReceived r.leafs
        → IsReceived d packet.leaf.hash packet.leaf
        → (bytes_eq packet.parent_hash [] ≡ true) ⊎ IsSentChild codec d packet
        → AllReceived (apply_transmission_packet r packet).leafs
          × ((k : Bytes)
              → (k ≡ packet.leaf.hash) ⊎ (has_key k r.leafs ≡ true)
              → has_key k (apply_transmission_packet r packet).leafs ≡ true)
    unfolding apply_transmission_packet
    apply-AllReceived r packet all received kind =
        let leafs = insert packet.leaf.hash packet.leaf r.leafs in
        let all_leafs : AllReceived leafs =
          Entries-insert (IsReceived d) packet.leaf.hash packet.leaf r.leafs received all in
        let keys_leafs : (k : Bytes)
            → (k ≡ packet.leaf.hash) ⊎ (has_key k r.leafs ≡ true)
            → has_key k leafs ≡ true =
          λ k h. elim h [
            | inl same ↦
                subst (λ j. has_key j leafs ≡ true) (sym same)
                  (has_key-insert_new packet.leaf.hash packet.leaf r.leafs)
            | inr old ↦ has_key-insert_old packet.leaf.hash k packet.leaf r.leafs old
          ] in
        elim kind [
          | inl root ↦ rw root (all_leafs, keys_leafs)
          | inr child ↦ rw child.named (
            attach_to-AllReceived leafs packet (lookup packet.parent_hash leafs) all_leafs child
                refl,
            λ k h.
                has_key-attach_to k packet (lookup packet.parent_hash leafs) leafs (keys_leafs k h),
          )
        ]

    left_kind :
        (r : Dag) (packet : TransmissionPacket)
        → IsSent codec d packet
        → (bytes_eq packet.parent_hash [] ≡ true)
          ⊎ IsSentChild codec d
              (with_packet_leaf packet (verify_transmission_packet codec r packet).0)
    unfolding verify_transmission_packet
    left_kind r packet sent = elim sent.kind [
      | inl root ↦ inl root.0
      | inr child ↦ rw child.named (inr child)
    ]

    take_packet :
        (r : Dag) (packet : TransmissionPacket)
        → AllReceived r.leafs
        → IsSent codec d packet
        → IsTaken r packet
    take_packet r packet all sent =
        let left = (verify_transmission_packet codec r packet).0 in
        let received = left_leaf-IsReceived r packet sent in
        let after =
          apply-AllReceived r (with_packet_leaf packet left) all
            (subst (λ h. IsReceived d h left) (sym received.named) received)
            (left_kind r packet sent) in
        record {
          next = apply_transmission_packet r (with_packet_leaf packet left);
          taken =
              apply_and_verify-ok r packet left refl
                (verify_transmission_packet-ok r packet all sent);
          all = after.0;
          there = after.1 packet.leaf.hash (inl (sym received.named));
          kept = λ k h. after.1 k (inr h);
        }

    receive-AllReceived :
        (packets : List TransmissionPacket) (r : Dag)
        → AllReceived r.leafs
        → All (IsSent codec d) packets
        → (last : Dag) × (receive codec r packets ≡ ok last)
          × AllReceived last.leafs
          × All (λ packet. has_key packet.leaf.hash last.leafs ≡ true) packets
          × ((k : Bytes) → has_key k r.leafs ≡ true → has_key k last.leafs ≡ true)
    unfolding receive
    receive-AllReceived [] r all sent = (r, refl, all, tt, λ k h. h)
    receive-AllReceived (packet ∷ packets) r all sent =
        let one = take_packet r packet all sent.0 in
        let (last, done, all_last, there, kept) =
          receive-AllReceived packets one.next one.all sent.1 in
        (
          last,
          rw one.taken done,
          all_last,
          (kept packet.leaf.hash one.there, there),
          λ k h. kept k (one.kept k h),
        )

-- A receiver that begins with an empty DAG accepts all the packets of a full DAG, one after the
-- other. Each leaf that it then has is that of the sender under its hash: the same hashed data,
-- content, links and Merkle root (nil and empty not told apart), and it has the leaf of each packet.
-- The sender's leaves are under their hashes, none of them empty, with all their links, at most
-- 2 ^ 32, and the root over them where they are several; every proof that they store is of the child
-- that it stands under and is accepted by their root. No key is twice in their additional data or in
-- their proofs. They pass `VerifyLeaf`, the root by itself
-- `VerifyRootLeaf`.
pub get_leaf_sequence-receive :
    (codec : Codec) (d : Dag) (packets : List TransmissionPacket)
    → Entries (IsSendable codec d.root) d.leafs
    → ((root : DagLeaf)
        → lookup d.root d.leafs ≡ some root
        → (verify_root_leaf codec (clone root) none).1 ≡ ok tt)
    → is_partial d ≡ false
    → get_leaf_sequence codec d ≡ some packets
    → (last : Dag) × (receive codec record { root = d.root; leafs = []; labels = none } packets
        ≡ ok last)
      × Entries (IsReceived d) last.leafs
      × All (λ packet. has_key packet.leaf.hash last.leafs ≡ true) packets
get_leaf_sequence-receive codec d packets all root_verified full e =
    let (last, done, all_last, there, kept) =
      receive-AllReceived codec d root_verified packets
        record { root = d.root; leafs = []; labels = none } tt
        (get_leaf_sequence-IsSent codec d all packets full e) in
    (last, done, all_last, there)
