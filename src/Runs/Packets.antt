-- ===== src/Runs/Packets.antt =====
-- dag/transmission.go: the packets of a root over two files.
use scionic_merkle_tree_go.Common.{
  Bytes, ◌∷◌, arith, ◌<◌, ◌≡◌, refl, subst, true, Option, some, none, List, [], length, ok, lookup,
  has_key, All, ◌↔◌, Entries,
}
use scionic_merkle_tree_go.Dag.Types.{ClassicTreeBranch, DagLeaf, Dag}
use scionic_merkle_tree_go.Runs.Leaves.{sample}
use scionic_merkle_tree_go.Runs.Partials.{
  first_file, second_file, folder, full_dag, partial, full_dag-IsWhole,
}
use scionic_merkle_tree_go.Dag.Leaf.{verify_leaf, verify_branch}
use scionic_merkle_tree_go.Dag.Root.{verify_root_leaf}
use scionic_merkle_tree_go.Dag.Clone.{clone}
use scionic_merkle_tree_go.Dag.Iterate.{is_partial}
use scionic_merkle_tree_go.Dag.Proofs.{proof_for_child}
use scionic_merkle_tree_go.Transmission.{
  TransmissionPacket, get_leaf_sequence, verify_transmission_packet, receive,
}
use scionic_merkle_tree_go.Transmission.Sent.{IsSendable}
use scionic_merkle_tree_go.Transmission.Copies.{IsReceived}
use scionic_merkle_tree_go.Transmission.Received.{get_leaf_sequence-receive}
use scionic_merkle_tree_go.Transmission.Ordered.{ParentsFirst, get_leaf_sequence-ParentsFirst}
use scionic_merkle_tree_go.Transmission.Accepted.{verify_transmission_packet-ok_iff}

packets_in : Option (List TransmissionPacket) → List TransmissionPacket
packets_in none = []
packets_in (some packets) = packets

packets : List TransmissionPacket
unfolding packets_in get_leaf_sequence partial
packets = packets_in (get_leaf_sequence sample full_dag)

full_dag-IsSendable : Entries (IsSendable sample full_dag.root) full_dag.leafs
unfolding partial verify_leaf
full_dag-IsSendable = (
  record {
    whole = full_dag-IsWhole.0;
    some_hash = refl;
    distinct_data = tt;
    distinct_proofs = tt;
    verified = λ h. refl;
  },
  (
    record {
      whole = full_dag-IsWhole.1.0;
      some_hash = refl;
      distinct_data = tt;
      distinct_proofs = tt;
      verified = λ h. refl;
    },
    (
      record {
        whole = full_dag-IsWhole.1.1.0;
        some_hash = refl;
        distinct_data = tt;
        distinct_proofs = tt;
        verified = λ h. absurd (cc h);
      },
      tt,
    ),
  ),
)

get_leaf_sequence-receive_example :
    (last : Dag) × (receive sample
        record { root = full_dag.root; leafs = []; labels = none }
        packets
      ≡ ok last)
    × Entries (IsReceived full_dag) last.leafs
    × All (λ packet. has_key packet.leaf.hash last.leafs ≡ true) packets
unfolding partial packets is_partial verify_root_leaf
get_leaf_sequence-receive_example =
    get_leaf_sequence-receive sample full_dag packets full_dag-IsSendable root_verified refl refl
  where
    root_verified :
        (root : DagLeaf)
        → lookup full_dag.root full_dag.leafs ≡ some root
        → (verify_root_leaf sample (clone root) none).1 ≡ ok tt
    root_verified root held =
        let same : folder ≡ root = cc held in
        subst (λ r. (verify_root_leaf sample (clone r) none).1 ≡ ok tt) same refl

-- A partial DAG of the folder alone, under a hash of twelve bytes.
abbrev long_hash : Bytes
long_hash = 1 ∷ 2 ∷ 3 ∷ 4 ∷ 5 ∷ 6 ∷ 7 ∷ 8 ∷ 9 ∷ 10 ∷ 11 ∷ 12 ∷ []

unfoldable pruned : Dag
unfolding partial
pruned = record {
  root = long_hash;
  leafs = (long_hash, record folder { hash = long_hash; links = [] }) ∷ [];
  labels = none;
}

get_leaf_sequence-ParentsFirst_example :
    (sent : List TransmissionPacket) × (get_leaf_sequence sample pruned ≡ some sent)
    × ParentsFirst [] sent
unfolding partial pruned
get_leaf_sequence-ParentsFirst_example =
    get_leaf_sequence-ParentsFirst sample pruned (refl, tt) (λ h. (omega arith, tt))

-- The proof of the first file, in a packet of the second.
first_branch : ClassicTreeBranch
unfolding partial proof_for_child
first_branch = elim (proof_for_child sample folder first_file.hash) [
  | ok (some branch) ↦ branch
  | _ ↦ record { leaf = []; proof = none }
]

-- A packet of another leaf that carries a packet's proof under its own hash.
unfoldable moved : DagLeaf → Bytes → ClassicTreeBranch → TransmissionPacket
moved leaf parent_hash branch = record {
  leaf = leaf;
  parent_hash = parent_hash;
  proofs = (leaf.hash, some branch) ∷ [];
}

verify_transmission_packet-ok_iff_example :
    ((verify_transmission_packet sample full_dag (moved second_file folder.hash first_branch)).1
      ≡ ok tt)
    ↔ ((verify_leaf sample second_file ≡ ok tt)
        × ((parent : DagLeaf)
            → lookup folder.hash full_dag.leafs ≡ some parent
            → 1 < length parent.links
            → (branch : ClassicTreeBranch) × (lookup second_file.hash
                  (moved second_file folder.hash first_branch).proofs
                ≡ some (some branch))
              × (verify_branch sample parent branch ≡ ok tt)))
unfolding partial moved
verify_transmission_packet-ok_iff_example =
    verify_transmission_packet-ok_iff sample full_dag (moved second_file folder.hash first_branch)
      refl
