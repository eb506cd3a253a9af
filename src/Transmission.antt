-- ===== src/Transmission.antt =====
-- dag/transmission.go: packets of one leaf, the order in which they are sent, and their receiver.

pub mod Sent
pub mod Copies
pub mod Received
pub mod Ordered
pub mod Accepted
pub mod Batches
pub mod Bare
pub mod Sizes
pub mod Alike
pub mod BatchChecks
pub mod Unlinked
pub mod BatchAccepted
pub mod Batched
use scionic_merkle_tree_go.Common.{
  ℕ, zero, suc, ◌+◌, Bool, false, not, ◌&&◌, ◌||◌, leb, Option, some, none, List, [], ◌∷◌, ◌++◌,
  map, Bytes, length, ltb, if◌then◌else◌, bytes_eq, Result, ok, err, ◌>>=◌, ◌>>◌, GoMap, lookup,
  insert, sort_strings, has_string,
}
use scionic_merkle_tree_go.Dag.Types.{ClassicTreeBranch, DagLeaf, Dag, DagError, Checked, Codec}
use scionic_merkle_tree_go.Dag.Leaf.{has_link, verify_leaf, verify_branch}
use scionic_merkle_tree_go.Dag.Root.{verify_root_leaf}
use scionic_merkle_tree_go.Dag.Builder.{with_link}
use scionic_merkle_tree_go.Dag.Clone.{clone}
use scionic_merkle_tree_go.Dag.Iterate.{is_partial}
use scionic_merkle_tree_go.Dag.Proofs.{proof_for_child}
use scionic_merkle_tree_go.Dag.GetPartial.{with_proofs}
use mathlib.Core.Option

pub record TransmissionPacket : Type 0 where
  pub leaf : DagLeaf
  pub parent_hash : Bytes
  pub proofs : GoMap (Option ClassicTreeBranch)

-- The variables of the traversal: the packets so far, the visited hashes and the queue.
pub record Traversal : Type 0 where
  pub sequence : List TransmissionPacket
  pub visited : List Bytes
  pub queue : List Bytes

-- `packet.Proofs[childHash] = proof` where there is one.
abbrev pub proofs_of : Bytes → Option ClassicTreeBranch → GoMap (Option ClassicTreeBranch)
proofs_of child_hash none = []
proofs_of child_hash (some proof) = (child_hash, some proof) ∷ []

-- The proof that goes into the packet of a child of a leaf, or `none` where the child is skipped.
abbrev pub Prover : Type 0
Prover = DagLeaf → Bytes → Option (Option ClassicTreeBranch)

abbrev pub or_nil {ℓ} : {A : Type ℓ} → Option (Option A) → Option A
or_nil none = none
or_nil (some o) = o

-- `currentLeaf.Proofs[childHash]`
unfoldable pub stored_proof : Prover
unfolding lookup
stored_proof current_leaf child_hash = some (or_nil (lookup child_hash current_leaf.proofs))

abbrev pub or_skip {ℓ} : {A : Type ℓ} → Checked A → Option A
or_skip (ok a) = some a
or_skip (err e) = none

-- `proofForChild`; a child whose proof cannot be built is skipped.
unfoldable pub built_proof : Codec → Prover
unfolding proof_for_child
built_proof codec current_leaf child_hash = or_skip (proof_for_child codec current_leaf child_hash)

abbrev pub pop : List Bytes → Traversal → Traversal
pop queue t = record t { queue = queue }

module _ (leafs : GoMap DagLeaf) where
  -- A child that is in the DAG, with its proof.
  unfoldable pub send :
      Bytes → Bytes → Option DagLeaf → Option (Option ClassicTreeBranch) → Traversal → Traversal
  unfolding clone
  send current child_hash none proof t = t
  send current child_hash (some child_leaf) none t = t
  send current child_hash (some child_leaf) (some proof) t = record {
    sequence =
        t.sequence
        ++ record {
          leaf = clone child_leaf;
          parent_hash = current;
          proofs = proofs_of child_hash proof;
        }
          ∷ [];
    visited = child_hash ∷ t.visited;
    queue = t.queue ++ child_hash ∷ [];
  }

  -- `for _, childHash := range sortedLinks`
  unfoldable pub send_children : Prover → Bytes → DagLeaf → List Bytes → Traversal → Traversal
  unfolding send has_string lookup
  send_children prove current current_leaf [] t = t
  send_children prove current current_leaf (child_hash ∷ links) t =
      send_children prove current current_leaf links (
        if has_string child_hash t.visited
        then t
        else send current child_hash (lookup child_hash leafs) (prove current_leaf child_hash) t)

  -- The body of the loop over the queue. What is in the queue is in the DAG.
  unfoldable pub send_all : Prover → Bytes → Option DagLeaf → Traversal → Traversal
  unfolding send_children sort_strings
  send_all prove current none t = t
  send_all prove current (some current_leaf) t =
      send_children prove current current_leaf (sort_strings current_leaf.links) t

  -- `for len(queue) > 0`, on fuel; the queue of the state is passed along with it.
  unfoldable pub traverse : Prover → ℕ → List Bytes → Traversal → Option Traversal
  unfolding send_all lookup
  traverse prove zero [] t = some t
  traverse prove zero (current ∷ queue) t = none
  traverse prove (suc fuel) [] t = some t
  traverse prove (suc fuel) (current ∷ queue) t =
      let next = send_all prove current (lookup current leafs) (pop queue t) in
      traverse prove fuel next.queue next

-- The root's packet, and the state in which the traversal begins.
unfoldable pub begin : Bytes → DagLeaf → Traversal
unfolding clone
begin root root_leaf = record {
  sequence = record { leaf = clone root_leaf; parent_hash = []; proofs = [] } ∷ [];
  visited = root ∷ [];
  queue = root ∷ [];
}

-- As many rounds as there are leaves: `none` would mean that they are not enough.
unfoldable pub sequence_with : Prover → Dag → Option DagLeaf → Option (List TransmissionPacket)
unfolding traverse begin
sequence_with prove d none = some []
sequence_with prove d (some root_leaf) =
    Option.map (λ t. t.sequence)
      (traverse d.leafs prove (length d.leafs) (d.root ∷ []) (begin d.root root_leaf))

-- The traversal of `getPartialLeafSequence`. Its warnings are printed in `print_warnings`.
unfoldable pub get_partial_leaf_sequence : Dag → Option (List TransmissionPacket)
unfolding sequence_with stored_proof lookup
get_partial_leaf_sequence d = sequence_with stored_proof d (lookup d.root d.leafs)

-- `childHash[:12]` or `current[:12]` is in range.
abbrev pub prints : Bytes → Bool
prints hash = leb 12 (length hash)

-- `if len(currentLeaf.Links) > 1 && childProof == nil`
unfoldable pub is_unproved : DagLeaf → GoMap (Option ClassicTreeBranch) → Bool
is_unproved current_leaf [] = ltb 1 (length current_leaf.links)
is_unproved current_leaf (proof ∷ proofs) = false

-- The warning that a packet's proof is missing, on which Go panics where one of the hashes is short.
-- The child stands in the DAG under its hash.
unfoldable pub warning_panics : TransmissionPacket → Option DagLeaf → Bool
unfolding is_unproved
warning_panics packet none = false
warning_panics packet (some current_leaf) =
    is_unproved current_leaf packet.proofs
    && not (prints packet.leaf.hash && prints packet.parent_hash)

unfoldable pub some_panics : GoMap DagLeaf → List TransmissionPacket → Bool
unfolding warning_panics lookup
some_panics leafs [] = false
some_panics leafs (packet ∷ packets) =
    warning_panics packet (lookup packet.parent_hash leafs) || some_panics leafs packets

-- The warnings about all packets but the root's, the first one. `none` is a panic here.
unfoldable pub print_warnings :
    GoMap DagLeaf → Option (List TransmissionPacket) → Option (List TransmissionPacket)
unfolding some_panics
print_warnings leafs none = none
print_warnings leafs (some []) = some []
print_warnings leafs (some (root ∷ packets)) =
    if some_panics leafs packets then none else some (root ∷ packets)

-- `GetLeafSequence`
unfoldable pub get_leaf_sequence : Codec → Dag → Option (List TransmissionPacket)
unfolding is_partial print_warnings get_partial_leaf_sequence sequence_with built_proof lookup
get_leaf_sequence codec d =
    if is_partial d
    then print_warnings d.leafs (get_partial_leaf_sequence d)
    else sequence_with (built_proof codec) d (lookup d.root d.leafs)

pub data PacketError : Type 0 where
  missing_proof missing_relationship parent_not_found : PacketError
  -- Go panics.
  nil_pointer : PacketError
  leaf_error : DagError → PacketError

abbrev pub from_leaf {ℓ} : {A : Type ℓ} → Checked A → Result PacketError A
from_leaf (ok a) = ok a
from_leaf (err e) = err (leaf_error e)

module _ (codec : Codec) where
  -- `parent.VerifyBranch(proof)`
  unfoldable pub verify_stored :
      DagLeaf → Option (Option ClassicTreeBranch) → Result PacketError (Unit {0})
  unfolding verify_branch
  verify_stored parent none = err missing_proof
  verify_stored parent (some none) = err nil_pointer
  verify_stored parent (some (some proof)) = from_leaf (verify_branch codec parent proof)

  -- `if parent, exists := d.Leafs[packet.ParentHash]; exists && len(parent.Links) > 1`
  unfoldable pub verify_with_parent :
      Option DagLeaf → TransmissionPacket → Result PacketError (Unit {0})
  unfolding verify_stored lookup
  verify_with_parent none packet = ok tt
  verify_with_parent (some parent) packet =
      if ltb 1 (length parent.links)
      then verify_stored parent (lookup packet.leaf.hash packet.proofs)
      else ok tt

  -- `VerifyTransmissionPacket`: the packet's leaf as it is left, and the verdict.
  unfoldable pub verify_transmission_packet :
      Dag → TransmissionPacket → DagLeaf × Result PacketError (Unit {0})
  unfolding verify_root_leaf verify_leaf verify_with_parent lookup
  verify_transmission_packet d packet =
      if bytes_eq packet.parent_hash []
      then (let (leaf, verdict) = verify_root_leaf codec packet.leaf none in
          (leaf, from_leaf verdict))
      else (
        packet.leaf,
        from_leaf (verify_leaf codec packet.leaf)
            >> verify_with_parent (lookup packet.parent_hash d.leafs) packet,
      )

-- `parent.Proofs[packet.Leaf.Hash] = proof` where the packet has one.
unfoldable pub put_proof : Bytes → Option (Option ClassicTreeBranch) → DagLeaf → DagLeaf
unfolding with_proofs insert
put_proof hash none parent = parent
put_proof hash (some proof) parent = with_proofs parent (insert hash proof parent.proofs)

-- The parent that a packet declares: with a link to the leaf, and with the packet's proof of it.
unfoldable pub attach : TransmissionPacket → DagLeaf → DagLeaf
unfolding has_link with_link put_proof lookup
attach packet parent =
    put_proof packet.leaf.hash (lookup packet.leaf.hash packet.proofs)
      (if has_link parent packet.leaf.hash then parent else with_link parent packet.leaf.hash)

unfoldable pub attach_to : TransmissionPacket → Option DagLeaf → GoMap DagLeaf → GoMap DagLeaf
unfolding attach insert
attach_to packet none leafs = leafs
attach_to packet (some parent) leafs = insert packet.parent_hash (attach packet parent) leafs

abbrev pub with_leafs : Dag → GoMap DagLeaf → Dag
with_leafs d leafs = record { root = d.root; leafs = leafs; labels = d.labels }

-- `ApplyTransmissionPacket`
unfoldable pub apply_transmission_packet : Dag → TransmissionPacket → Dag
unfolding attach_to insert lookup
apply_transmission_packet d packet =
    let leafs = insert packet.leaf.hash packet.leaf d.leafs in
    with_leafs d (
      if bytes_eq packet.parent_hash []
      then leafs
      else attach_to packet (lookup packet.parent_hash leafs) leafs)

abbrev pub with_packet_leaf : TransmissionPacket → DagLeaf → TransmissionPacket
with_packet_leaf packet leaf = record packet { leaf = leaf }

-- `ApplyAndVerifyTransmissionPacket`
unfoldable pub apply_and_verify_transmission_packet :
    Codec → Dag → TransmissionPacket → Result PacketError Dag
unfolding verify_transmission_packet apply_transmission_packet
apply_and_verify_transmission_packet codec d packet =
    let (leaf, verdict) = verify_transmission_packet codec d packet in
    do verified ← verdict; ok (apply_transmission_packet d (with_packet_leaf packet leaf))

-- A receiver that takes one packet after the other.
unfoldable pub receive : Codec → Dag → List TransmissionPacket → Result PacketError Dag
unfolding apply_and_verify_transmission_packet
receive codec d [] = ok d
receive codec d (packet ∷ packets) = do
  next ← apply_and_verify_transmission_packet codec d packet
  receive codec next packets

-- `RemoveAllContent`
unfoldable pub without_content : DagLeaf → DagLeaf
without_content leaf = record leaf { content = none }

unfoldable pub remove_all_content : GoMap DagLeaf → GoMap DagLeaf
unfolding without_content
remove_all_content [] = []
remove_all_content ((k, leaf) ∷ leafs) = (k, without_content leaf) ∷ remove_all_content leafs
