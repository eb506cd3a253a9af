-- ===== src/Serialize/Batches.antt =====
-- dag/serialize.go: the serializable form of a batch, and the way back.
use scionic_merkle_tree_go.Common.{
  ℕ, ◌≡◌, refl, Option, some, List, [], ◌∷◌, map, Bytes, GoMap, keys, All,
}
use scionic_merkle_tree_go.Dag.Types.{DagLeaf}
use scionic_merkle_tree_go.Serialize.{
  SerializableDagLeaf, leaf_to_serializable, leaf_of_packet, copy_entries, copy_optional,
}
use scionic_merkle_tree_go.Tree.Sets.{IsDistinct}
use scionic_merkle_tree_go.Serialize.RoundTrip.{
  IsRestored, HasSizes, leaf_of_packet-IsRestored, leaf_of_packet-HasSizes, copied_twice,
}
use scionic_merkle_tree_go.Transmission.Batches.{BatchedTransmissionPacket}

pub record SerializableBatchedTransmissionPacket : Type 0 where
  pub leaves : List SerializableDagLeaf
  pub relationships : Option (GoMap Bytes)
  pub packet_index : ℕ
  pub total_packets : ℕ

-- `packet.ToSerializable`
unfoldable pub batch_to_serializable :
    BatchedTransmissionPacket → SerializableBatchedTransmissionPacket
unfolding leaf_to_serializable copy_entries
batch_to_serializable packet = record {
  leaves = map leaf_to_serializable packet.leaves;
  relationships = some (copy_entries packet.relationships);
  packet_index = packet.packet_index;
  total_packets = packet.total_packets;
}

-- `BatchedTransmissionPacketFromSerializable`
unfoldable pub batched_transmission_packet_from_serializable :
    SerializableBatchedTransmissionPacket → BatchedTransmissionPacket
unfolding leaf_of_packet copy_optional
batched_transmission_packet_from_serializable s = record {
  leaves = map leaf_of_packet s.leaves;
  relationships = copy_optional s.relationships;
  packet_index = s.packet_index;
  total_packets = s.total_packets;
}

-- The leaves of a batch, one by one as they were.
abbrev AreRestored : List DagLeaf → List DagLeaf → Type 0
AreRestored [] [] = Unit {0}
AreRestored (old ∷ olds) (new ∷ news) =
    IsRestored old new × HasSizes old new × AreRestored olds news
AreRestored [] (new ∷ news) = ⊥
AreRestored (old ∷ olds) [] = ⊥

map-AreRestored :
    (leaves : List DagLeaf)
    → All (λ leaf. IsDistinct (keys leaf.proofs)) leaves
    → AreRestored leaves (map leaf_of_packet (map leaf_to_serializable leaves))
map-AreRestored [] all = tt
map-AreRestored (leaf ∷ leaves) all = (
  leaf_of_packet-IsRestored leaf all.0,
  leaf_of_packet-HasSizes leaf,
  map-AreRestored leaves all.1,
)

-- A batch comes back from its serializable form with the same relationships and indices, and with
-- leaves that are hashed and verified as before and keep their sizes.
batched_transmission_packet_from_serializable-batch_to_serializable :
    (packet : BatchedTransmissionPacket)
    → IsDistinct (keys packet.relationships)
    → All (λ leaf. IsDistinct (keys leaf.proofs)) packet.leaves
    → (let back = batched_transmission_packet_from_serializable (batch_to_serializable packet) in
        AreRestored packet.leaves back.leaves
        × (back.relationships ≡ packet.relationships)
        × (back.packet_index ≡ packet.packet_index)
        × (back.total_packets ≡ packet.total_packets))
unfolding batched_transmission_packet_from_serializable batch_to_serializable
batched_transmission_packet_from_serializable-batch_to_serializable packet relationships proofs = (
  map-AreRestored packet.leaves proofs,
  copied_twice packet.relationships relationships,
  refl,
  refl,
)
