-- ===== src/Serialize/Wire.antt =====
-- dag/serialize.go: the leaves, DAGs and packets on the wire. The hints for the size of a buffer are
-- left out; `AppendCBOR` is `to_cbor` onto a slice that is not empty.
use Prim.Native.Char.{code}
use Prim.Native.String.{String}
use scionic_merkle_tree_go.Common.{
  ℕ, ◌≡◌, refl, sym, ap, ◌∙◌, subst, Bool, false, Option, some, none, List, [], ◌∷◌, Bytes, length,
  ltb, if◌then◌else◌, bytes_eq, GoMap, keys, lookup, is_some, inl, inr, Bool-cases,
}
use scionic_merkle_tree_go.Dag.Types.{LeafType, ClassicTreeBranch, DagLeaf, Dag, DagError, Checked}
use scionic_merkle_tree_go.Tree.Sets.{IsDistinct}
use scionic_merkle_tree_go.Dag.Cbor.{
  Value, text, byte_slice, cbor_appender, other_value, append_cbor_struct,
}
use scionic_merkle_tree_go.Dag.SortedMap.{append_sorted_map, append_entry, append_sorted_map-order}
use scionic_merkle_tree_go.Serialize.{
  SerializableDagLeaf, SerializableDag, SerializableTransmissionPacket, to_serializable,
  leafs_to_serializable, leaf_to_serializable, packet_to_serializable,
}
use scionic_merkle_tree_go.Transmission.{TransmissionPacket}

-- The bytes of a name in ASCII.
abbrev codes : String → Bytes
codes String.[] = []
codes (String.◌∷◌ c s) = code c ∷ codes s

-- The values that `cbor.Marshal` writes.
pub data Scalar : Type 0 where
  leaf_type_value : LeafType → Scalar
  int_value : ℕ → Scalar
  strings_value : List Bytes → Scalar
  branch_value : Option ClassicTreeBranch → Scalar

abbrev pub WireValue : Type 0
WireValue = Value DagError Scalar

-- `if len(m) > 0`
abbrev pub if_some {ℓ} : {A : Type ℓ} → Option (GoMap A) → Bool
if_some none = false
if_some (some m) = ltb 0 (length m)

module _ (marshal : Scalar → Checked Bytes) where
  abbrev pub strings_map : Option (GoMap Bytes) → WireValue
  strings_map m = cbor_appender (λ dst. append_sorted_map marshal (λ v. text v) dst m)

  abbrev pub branches_map : Option (GoMap (Option ClassicTreeBranch)) → WireValue
  branches_map m =
      cbor_appender (λ dst. append_sorted_map marshal (λ v. other_value (branch_value v)) dst m)

  -- The pairs of `SerializableDagLeaf.appendCBOR`
  unfoldable pub leaf_pairs : SerializableDagLeaf → List (Bytes × WireValue)
  unfolding append_sorted_map
  leaf_pairs leaf =
      (codes "Hash", text leaf.hash)
      ∷ (codes "ItemName", text leaf.item_name)
      ∷ (codes "Type", other_value (leaf_type_value leaf.leaf_type))
      ∷ (codes "ContentHash", byte_slice leaf.content_hash)
      ∷ (codes "Content", byte_slice leaf.content)
      ∷ (codes "ClassicMerkleRoot", byte_slice leaf.classic_merkle_root)
      ∷ (codes "CurrentLinkCount", other_value (int_value leaf.current_link_count))
      ∷ (codes "LeafCount", other_value (int_value leaf.leaf_count))
      ∷ (codes "ContentSize", other_value (int_value leaf.content_size))
      ∷ (codes "DagSize", other_value (int_value leaf.dag_size))
      ∷ (codes "Links", other_value (strings_value leaf.links))
      ∷ (codes "AdditionalData", strings_map leaf.additional_data)
      ∷ (if if_some leaf.stored_proofs
          then (codes "stored_proofs", branches_map leaf.stored_proofs) ∷ []
          else [])

  -- `SerializableDagLeaf.appendCBOR`, for a leaf that is not nil
  unfoldable pub append_leaf : Bytes → SerializableDagLeaf → Checked Bytes
  unfolding append_cbor_struct leaf_pairs
  append_leaf dst leaf = append_cbor_struct marshal dst (leaf_pairs leaf)

  abbrev pub leaf_value : SerializableDagLeaf → WireValue
  leaf_value leaf = cbor_appender (λ dst. append_leaf dst leaf)

  -- `SerializableTransmissionPacket.appendCBOR`
  unfoldable pub append_packet : Bytes → SerializableTransmissionPacket → Checked Bytes
  unfolding append_cbor_struct append_leaf append_sorted_map
  append_packet dst packet = append_cbor_struct marshal dst (
      (codes "Leaf", leaf_value packet.leaf)
      ∷ (codes "ParentHash", text packet.parent_hash)
      ∷ (if if_some packet.proofs then (codes "proofs", branches_map packet.proofs) ∷ [] else []))

  -- `TransmissionPacket.ToCBOR`: `cbor.Marshal` calls the packet's `MarshalCBOR`.
  unfoldable pub packet_to_cbor : TransmissionPacket → Checked Bytes
  unfolding append_packet packet_to_serializable
  packet_to_cbor packet = append_packet [] (packet_to_serializable packet)

  -- `SerializableDag.appendCBOR`
  unfoldable pub append_dag : Bytes → SerializableDag → Checked Bytes
  unfolding append_cbor_struct append_sorted_map append_leaf
  append_dag dst s = append_cbor_struct marshal dst (
      (codes "Root", text s.root)
      ∷ (
        codes "Leafs",
        cbor_appender (λ dst. append_sorted_map marshal leaf_value dst (some s.leafs)),
      )
      ∷ [])

  -- `dag.AppendCBOR`, and `dag.ToCBOR` where the slice is empty
  unfoldable pub append_cbor : Bytes → Dag → Checked Bytes
  unfolding append_dag to_serializable
  append_cbor dst d = append_dag dst (to_serializable d)

  unfoldable pub to_cbor : Dag → Checked Bytes
  unfolding append_cbor
  to_cbor d = append_cbor [] d

keys-leafs_to_serializable :
    (leafs : GoMap DagLeaf) → keys (leafs_to_serializable leafs) ≡ keys leafs
unfolding leafs_to_serializable
keys-leafs_to_serializable [] = refl
keys-leafs_to_serializable ((k, leaf) ∷ leafs) = ap (◌∷◌ k) (keys-leafs_to_serializable leafs)

-- `leaf.ToSerializable` where there is a leaf.
abbrev to_form : Option DagLeaf → Option SerializableDagLeaf
to_form none = none
to_form (some leaf) = some (leaf_to_serializable leaf)

lookup-leafs_to_serializable :
    (k : Bytes) (leafs : GoMap DagLeaf)
    → lookup k (leafs_to_serializable leafs) ≡ to_form (lookup k leafs)
unfolding leafs_to_serializable lookup
lookup-leafs_to_serializable k [] = refl
lookup-leafs_to_serializable k ((j, leaf) ∷ leafs) = elim (Bool-cases (bytes_eq j k)) [
  | inl same ↦ rw same refl
  | inr other ↦ rw other (lookup-leafs_to_serializable k leafs)
]

leafs_to_serializable-lookup :
    (xs ys : GoMap DagLeaf)
    → ((k : Bytes) → lookup k xs ≡ lookup k ys)
    → (k : Bytes) → lookup k (leafs_to_serializable xs) ≡ lookup k (leafs_to_serializable ys)
leafs_to_serializable-lookup xs ys same k =
    lookup-leafs_to_serializable k xs
    ∙ ap to_form (same k)
    ∙ sym (lookup-leafs_to_serializable k ys)

-- The bytes of a DAG do not depend on the order in which its map of leaves is iterated: two maps
-- with the same leaf under each hash, in whatever order, give the same bytes or the same error, for
-- `AppendCBOR` onto any slice and so for `ToCBOR`. The hashes of a map are distinct.
pub append_cbor-order :
    (marshal : Scalar → Checked Bytes) (dst root : Bytes) (xs ys : GoMap DagLeaf)
    (labels_x labels_y : Option (GoMap Bytes))
    → IsDistinct (keys xs)
    → IsDistinct (keys ys)
    → ((k : Bytes) → lookup k xs ≡ lookup k ys)
    → append_cbor marshal dst record { root = root; leafs = xs; labels = labels_x }
      ≡ append_cbor marshal dst record { root = root; leafs = ys; labels = labels_y }
unfolding append_cbor append_dag to_serializable
append_cbor-order marshal dst root xs ys labels_x labels_y distinct_x distinct_y same =
    let forms = leafs_to_serializable-lookup xs ys same in
    let one : (at : Bytes)
        → append_sorted_map marshal (leaf_value marshal) at (some (leafs_to_serializable xs))
          ≡ append_sorted_map marshal (leaf_value marshal) at (some (leafs_to_serializable ys)) =
      λ at.
        append_sorted_map-order marshal (leaf_value marshal) at (leafs_to_serializable xs)
          (leafs_to_serializable ys)
          (subst IsDistinct (sym (keys-leafs_to_serializable xs)) distinct_x)
          (subst IsDistinct (sym (keys-leafs_to_serializable ys)) distinct_y)
          (λ k. ap is_some (forms k))
          (λ k to. ap (append_entry marshal (leaf_value marshal) to) (forms k)) in
    λ i.
      append_cbor_struct marshal dst
        ((codes "Root", text root) ∷ (codes "Leafs", cbor_appender (λ at. one at i)) ∷ [])
