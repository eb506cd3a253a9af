-- ===== src/Runs/Batches.antt =====
-- dag/transmission.go: the batches of a root over two files.
use scionic_merkle_tree_go.Common.{
  ◌≡◌, refl, some, List, [], ◌∷◌, bytes_eq, bytes_lt, ok, err, lookup, pos, arith, All, has_string,
}
use scionic_merkle_tree_go.Dag.Types.{DagLeaf, missing_children}
use scionic_merkle_tree_go.Merkle.Defs.{concat_func, hash_of}
use scionic_merkle_tree_go.Runs.Trees.{checksum}
use scionic_merkle_tree_go.Runs.Leaves.{sample, built_leaf}
use scionic_merkle_tree_go.Runs.Partials.{first_file, second_file, folder, full_dag, partial}
use scionic_merkle_tree_go.Dag.Leaf.{verify_leaf, verify_children_against_merkle_root}
use scionic_merkle_tree_go.Dag.Root.{verify_root_leaf, with_root_bytes}
use scionic_merkle_tree_go.Serialize.{dag_over}
use scionic_merkle_tree_go.Transmission.{TransmissionPacket, get_partial_leaf_sequence}
use scionic_merkle_tree_go.Transmission.Batches.{
  with_leaves, BatchedTransmissionPacket, get_batched_leaf_sequence,
}
use scionic_merkle_tree_go.Transmission.BatchChecks.{
  batch_leaves, verify_batched_transmission_packet, apply_batched_transmission_packet,
}
use scionic_merkle_tree_go.Transmission.Batched.{IsBatching, get_batched_leaf_sequence-IsBatching}
use scionic_merkle_tree_go.Transmission.BatchAccepted.{
  IsChecked, verify_batched_transmission_packet-IsChecked,
}
use scionic_merkle_tree_go.Transmission.Unlinked.{
  two_leaves, verify_batched_transmission_packet-unlinked,
}

get_batched_leaf_sequence-IsBatching_example :
    (packets : List TransmissionPacket) × (batches : List BatchedTransmissionPacket)
    × (get_partial_leaf_sequence full_dag ≡ some packets)
    × (get_batched_leaf_sequence sample (pos 400) full_dag ≡ some batches)
    × IsBatching 400 packets batches
unfolding partial
get_batched_leaf_sequence-IsBatching_example =
    get_batched_leaf_sequence-IsBatching sample 400 full_dag (omega arith)
      (refl, (refl, (refl, tt)))

verify_batched_transmission_packet-unlinked_example :
    (packet : BatchedTransmissionPacket) × (parent : DagLeaf) × (verify_batched_transmission_packet
        sample full_dag
        (two_leaves folder built_leaf)
      ≡ ok packet)
    × (lookup folder.hash (apply_batched_transmission_packet (dag_over folder.hash []) packet).leafs
        ≡ some parent)
    × (verify_children_against_merkle_root sample parent ≡ err missing_children)
unfolding partial built_leaf verify_leaf verify_root_leaf verify_children_against_merkle_root
    hash_of checksum concat_func bytes_eq bytes_lt has_string
verify_batched_transmission_packet-unlinked_example =
    verify_batched_transmission_packet-unlinked sample full_dag folder built_leaf refl refl refl
      refl (omega arith) refl refl refl refl

abbrev whole_batch : BatchedTransmissionPacket
whole_batch = record {
  leaves = folder ∷ first_file ∷ second_file ∷ [];
  relationships =
      (folder.hash, []) ∷ (first_file.hash, folder.hash) ∷ (second_file.hash, folder.hash) ∷ [];
  packet_index = 0;
  total_packets = 1;
}

verify_batched_transmission_packet-IsChecked_example :
    All
      (IsChecked sample full_dag.leafs
        (batch_leaves whole_batch.leaves [])
        whole_batch.relationships)
      whole_batch.leaves
unfolding partial verify_batched_transmission_packet concat_func
verify_batched_transmission_packet-IsChecked_example =
    verify_batched_transmission_packet-IsChecked sample full_dag whole_batch
      (with_leaves whole_batch (with_root_bytes folder ∷ first_file ∷ second_file ∷ [])) refl
