-- ===== src/Transmission/Accepted.antt =====
-- dag/transmission.go: when `VerifyTransmissionPacket` accepts a packet.
use scionic_merkle_tree_go.Common.{
  ◌<◌, ◌≡◌, refl, ap, false, Option, some, none, [], length, ltb, bytes_eq, ok, err, lookup, inl,
  inr, Bool-cases, >>=-eq-ok, ok-injective, ◌↔◌, ltb→lt, lt→ltb,
}
use scionic_merkle_tree_go.Dag.Types.{ClassicTreeBranch, DagLeaf, Dag, Checked, Codec}
use scionic_merkle_tree_go.Dag.Leaf.{verify_leaf, verify_branch}
use scionic_merkle_tree_go.Transmission.{
  TransmissionPacket, from_leaf, verify_stored, verify_with_parent, verify_transmission_packet,
}

pub from_leaf-ok : {A : Type 0} (r : Checked A) (a : A) → from_leaf r ≡ ok a → r ≡ ok a
from_leaf-ok (ok b) a e = ap ok (ok-injective e)
from_leaf-ok (err x) a e = absurd (cc e)

pub verify_stored-ok :
    (codec : Codec) (parent : DagLeaf) (stored : Option (Option ClassicTreeBranch))
    → verify_stored codec parent stored ≡ ok tt
    → (branch : ClassicTreeBranch) × (stored ≡ some (some branch))
      × (verify_branch codec parent branch ≡ ok tt)
unfolding verify_stored
verify_stored-ok codec parent none e = absurd (cc e)
verify_stored-ok codec parent (some none) e = absurd (cc e)
verify_stored-ok codec parent (some (some branch)) e =
    (branch, refl, from_leaf-ok (verify_branch codec parent branch) tt e)

-- What an accepted proof of a packet is.
abbrev IsProvedBy : Codec → TransmissionPacket → DagLeaf → Type 0
IsProvedBy codec packet parent =
    1 < length parent.links
    → (branch : ClassicTreeBranch) × (lookup packet.leaf.hash packet.proofs ≡ some (some branch))
      × (verify_branch codec parent branch ≡ ok tt)

verify_with_parent-ok :
    (codec : Codec) (packet : TransmissionPacket) (parent : DagLeaf)
    → verify_with_parent codec (some parent) packet ≡ ok tt
    → IsProvedBy codec packet parent
unfolding verify_with_parent
verify_with_parent-ok codec packet parent e many =
    verify_stored-ok codec parent (lookup packet.leaf.hash packet.proofs)
      (rw (lt→ltb 1 (length parent.links) many) at e)

verify_with_parent-IsProvedBy :
    (codec : Codec) (packet : TransmissionPacket) (found : Option DagLeaf)
    → ((parent : DagLeaf) → found ≡ some parent → IsProvedBy codec packet parent)
    → verify_with_parent codec found packet ≡ ok tt
unfolding verify_with_parent verify_stored
verify_with_parent-IsProvedBy codec packet none proved = refl
verify_with_parent-IsProvedBy codec packet (some parent) proved =
    elim (Bool-cases (ltb 1 (length parent.links))) [
      | inr few ↦ rw few refl
      | inl many ↦
          let (branch, stored, accepted) =
            proved parent refl (ltb→lt 1 (length parent.links) many) in
          rw (many, stored, accepted) refl
    ]

-- Exactly when a packet with a parent is accepted: its leaf passes `VerifyLeaf`, and if the DAG has
-- the declared parent with several links, the packet carries under the leaf's hash a proof that the
-- parent accepts.
pub verify_transmission_packet-ok_iff :
    (codec : Codec) (d : Dag) (packet : TransmissionPacket)
    → bytes_eq packet.parent_hash [] ≡ false
    → ((verify_transmission_packet codec d packet).1 ≡ ok tt) ↔ (
        (verify_leaf codec packet.leaf ≡ ok tt)
        × ((parent : DagLeaf)
            → lookup packet.parent_hash d.leafs ≡ some parent
            → 1 < length parent.links
            → (branch : ClassicTreeBranch) × (lookup packet.leaf.hash packet.proofs
                ≡ some (some branch))
              × (verify_branch codec parent branch ≡ ok tt)))
unfolding verify_transmission_packet
verify_transmission_packet-ok_iff codec d packet child = (
  λ e.
      let (u, verified, rest) =
        >>=-eq-ok (from_leaf (verify_leaf codec packet.leaf))
          (λ _. verify_with_parent codec (lookup packet.parent_hash d.leafs) packet)
          (rw child at e) in
      (
        from_leaf-ok (verify_leaf codec packet.leaf) tt verified,
        λ parent held. verify_with_parent-ok codec packet parent (rw held at rest),
      ),
  λ h.
      rw
        (
          child,
          h.0,
          verify_with_parent-IsProvedBy codec packet (lookup packet.parent_hash d.leafs) h.1,
        )
        refl,
)
