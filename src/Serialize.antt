-- ===== src/Serialize.antt =====
-- dag/serialize.go: the serializable forms of leaves, DAGs and packets, and the way back. The encoders
-- of CBOR and JSON that stand between are of other packages.
pub mod RoundTrip
pub mod Kept
pub mod Passes
pub mod Wire
pub mod Batches
use scionic_merkle_tree_go.Common.{
  ℕ, Bool, true, false, Option, some, none, List, [], ◌∷◌, Bytes, length, ltb, if◌then◌else◌,
  bytes_eq, GoMap, lookup,
}
use scionic_merkle_tree_go.Dag.Types.{LeafType, ClassicTreeBranch, DagLeaf, Dag, Codec}
use scionic_merkle_tree_go.Dag.Sorting.{or_empty, sort_map_by_keys}
use scionic_merkle_tree_go.Dag.Builder.{rebuild}
use scionic_merkle_tree_go.Dag.Clone.{copy_map}
use scionic_merkle_tree_go.Dag.Parents.{build_parent_index}
use scionic_merkle_tree_go.Transmission.{TransmissionPacket}

-- `none` is a nil map, which `omitempty` leaves behind when it is decoded.
pub record SerializableDagLeaf : Type 0 where
  pub hash : Bytes
  pub item_name : Bytes
  pub leaf_type : LeafType
  pub content_hash : Option Bytes
  pub content : Option Bytes
  pub classic_merkle_root : Option Bytes
  pub current_link_count : ℕ
  pub leaf_count : ℕ
  pub content_size : ℕ
  pub dag_size : ℕ
  pub links : List Bytes
  pub additional_data : Option (GoMap Bytes)
  pub stored_proofs : Option (GoMap (Option ClassicTreeBranch))

pub record SerializableDag : Type 0 where
  pub root : Bytes
  pub leafs : GoMap SerializableDagLeaf

-- `for k, v := range m { copied[k] = v }` into an empty map
unfoldable pub copy_entries {ℓ} : {V : Type ℓ} → GoMap V → GoMap V
unfolding copy_map
copy_entries m = copy_map (λ v. v) m []

-- The same where the map may be nil.
unfoldable pub copy_optional {ℓ} : {V : Type ℓ} → Option (GoMap V) → GoMap V
unfolding copy_entries
copy_optional none = []
copy_optional (some m) = copy_entries m

-- `leaf.ToSerializable`
unfoldable pub leaf_to_serializable : DagLeaf → SerializableDagLeaf
unfolding sort_map_by_keys copy_entries
leaf_to_serializable leaf = record {
  hash = leaf.hash;
  item_name = leaf.item_name;
  leaf_type = leaf.leaf_type;
  content_hash = leaf.content_hash;
  content = leaf.content;
  classic_merkle_root = leaf.classic_merkle_root;
  current_link_count = leaf.current_link_count;
  leaf_count = leaf.leaf_count;
  content_size = leaf.content_size;
  dag_size = leaf.dag_size;
  links = leaf.links;
  additional_data = some (sort_map_by_keys leaf.additional_data);
  stored_proofs = some (copy_entries leaf.proofs);
}

unfoldable pub leafs_to_serializable : GoMap DagLeaf → GoMap SerializableDagLeaf
unfolding leaf_to_serializable
leafs_to_serializable [] = []
leafs_to_serializable ((hash, leaf) ∷ leafs) =
    (hash, leaf_to_serializable leaf) ∷ leafs_to_serializable leafs

-- `dag.ToSerializable`; the new map is written in the order in which the old one is read.
unfoldable pub to_serializable : Dag → SerializableDag
unfolding leafs_to_serializable
to_serializable d = record { root = d.root; leafs = leafs_to_serializable d.leafs }

-- A leaf with the sizes of the serializable one, as in the packets.
unfoldable pub leaf_of_packet : SerializableDagLeaf → DagLeaf
unfolding sort_map_by_keys copy_optional
leaf_of_packet s = record {
  hash = s.hash;
  item_name = s.item_name;
  leaf_type = s.leaf_type;
  content_hash = s.content_hash;
  content = s.content;
  classic_merkle_root = s.classic_merkle_root;
  current_link_count = s.current_link_count;
  leaf_count = s.leaf_count;
  content_size = s.content_size;
  dag_size = s.dag_size;
  links = s.links;
  parent_hash = [];
  additional_data = some (sort_map_by_keys s.additional_data);
  merkle_tree = none;
  proofs = copy_optional s.stored_proofs;
}

unfoldable pub without_sizes : DagLeaf → DagLeaf
without_sizes leaf = record leaf { leaf_count = 0; content_size = 0; dag_size = 0 }

-- The first pass of `FromSerializable`: only the root keeps its sizes.
unfoldable pub leaf_of_dag : Bytes → Bytes → SerializableDagLeaf → DagLeaf
unfolding leaf_of_packet without_sizes
leaf_of_dag root hash s =
    if bytes_eq hash root then leaf_of_packet s else without_sizes (leaf_of_packet s)

unfoldable pub first_pass : Bytes → GoMap SerializableDagLeaf → GoMap DagLeaf
unfolding leaf_of_dag
first_pass root [] = []
first_pass root ((hash, s) ∷ leafs) = (hash, leaf_of_dag root hash s) ∷ first_pass root leafs

-- `isPartial`
unfoldable pub has_missing_links : GoMap DagLeaf → Bool
has_missing_links [] = false
has_missing_links ((hash, leaf) ∷ leafs) =
    if ltb (length leaf.links) leaf.current_link_count then true else has_missing_links leafs

-- The second pass: the Merkle trees of a full DAG.
unfoldable pub second_pass : Codec → GoMap DagLeaf → GoMap DagLeaf
unfolding rebuild
second_pass codec [] = []
second_pass codec ((hash, leaf) ∷ leafs) = (hash, rebuild codec leaf) ∷ second_pass codec leafs

unfoldable pub with_parent : DagLeaf → Option Bytes → DagLeaf
with_parent leaf none = leaf
with_parent leaf (some parent_hash) = record leaf { parent_hash = parent_hash }

-- The third pass: the parents.
unfoldable pub third_pass : GoMap Bytes → GoMap DagLeaf → GoMap DagLeaf
unfolding with_parent lookup
third_pass parent_of [] = []
third_pass parent_of ((hash, leaf) ∷ leafs) =
    (hash, with_parent leaf (lookup hash parent_of)) ∷ third_pass parent_of leafs

abbrev pub dag_over : Bytes → GoMap DagLeaf → Dag
dag_over root leafs = record { root = root; leafs = leafs; labels = none }

-- `FromSerializable`
unfoldable pub from_serializable : Codec → SerializableDag → Dag
unfolding first_pass has_missing_links second_pass third_pass build_parent_index
from_serializable codec s =
    let created = first_pass s.root s.leafs in
    let leafs = if has_missing_links created then created else second_pass codec created in
    dag_over s.root (third_pass (build_parent_index (dag_over s.root leafs)) leafs)

pub record SerializableTransmissionPacket : Type 0 where
  pub leaf : SerializableDagLeaf
  pub parent_hash : Bytes
  pub proofs : Option (GoMap (Option ClassicTreeBranch))

-- `packet.ToSerializable`
unfoldable pub packet_to_serializable : TransmissionPacket → SerializableTransmissionPacket
unfolding leaf_to_serializable copy_entries
packet_to_serializable packet = record {
  leaf = leaf_to_serializable packet.leaf;
  parent_hash = packet.parent_hash;
  proofs = some (copy_entries packet.proofs);
}

-- `TransmissionPacketFromSerializable`
unfoldable pub transmission_packet_from_serializable :
    SerializableTransmissionPacket → TransmissionPacket
unfolding leaf_of_packet copy_optional
transmission_packet_from_serializable s = record {
  leaf = leaf_of_packet s.leaf;
  parent_hash = s.parent_hash;
  proofs = copy_optional s.proofs;
}
