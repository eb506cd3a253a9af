-- ===== src/Transmission/Batched.antt =====
-- dag/transmission.go: what the batches carry, against the packets of one leaf.
use scionic_merkle_tree_go.Common.{
  ℕ, suc, ◌+◌, ◌<◌, ◌≡◌, refl, sym, ap, ◌∙◌, subst, true, false, Option, some, none, List, [], ◌∷◌,
  ◌++◌, map, length, ltb, ◌==◌, lookup, pos, arith, inl, inr, Option-cases, All, lt→ltb, Entries,
}
use scionic_merkle_tree_go.Dag.Types.{DagLeaf, Dag, Codec}
use scionic_merkle_tree_go.Dag.Clone.{clone}
use mathlib.Core.List.{append-nil}
use scionic_merkle_tree_go.Transmission.{
  TransmissionPacket, Traversal, stored_proof, traverse, begin, sequence_with,
  get_partial_leaf_sequence,
}
use scionic_merkle_tree_go.Transmission.Ordered.{sequence_with-ParentsFirst}
use scionic_merkle_tree_go.Dag.Types.{IsKeyed}
use scionic_merkle_tree_go.Transmission.Bare.{bare, estimate_size-bare}
use scionic_merkle_tree_go.Transmission.Batches.{
  BatchedTransmissionPacket, Batching, close_batch, all_batches, number_batches, begin_batching,
  batched_leaves, get_batched_leaf_sequence,
}
use scionic_merkle_tree_go.Transmission.Sizes.{IsWithin, carried, sent_leaves}
use scionic_merkle_tree_go.Transmission.Alike.{
  IsAlike, IsOpen, close_batch-IsAlike, batch_queue-IsAlike,
}

-- The batches have the indices from the first one on, and the count.
abbrev pub IsNumbered : ℕ → ℕ → List BatchedTransmissionPacket → Type 0
IsNumbered i total [] = Unit {0}
IsNumbered i total (batch ∷ batches) =
    (batch.packet_index ≡ i) × (batch.total_packets ≡ total) × IsNumbered (i + 1) total batches

number_batches-IsNumbered :
    (i total : ℕ) (batches : List BatchedTransmissionPacket)
    → IsNumbered i total (number_batches i total batches)
unfolding number_batches
number_batches-IsNumbered i total [] = tt
number_batches-IsNumbered i total (batch ∷ batches) =
    (refl, refl, number_batches-IsNumbered (i + 1) total batches)

length-number_batches :
    (i total : ℕ) (batches : List BatchedTransmissionPacket)
    → length (number_batches i total batches) ≡ length batches
unfolding number_batches
length-number_batches i total [] = refl
length-number_batches i total (batch ∷ batches) =
    ap suc (length-number_batches (i + 1) total batches)

carried-number_batches :
    (i total : ℕ) (batches : List BatchedTransmissionPacket)
    → carried (number_batches i total batches) ≡ carried batches
unfolding number_batches
carried-number_batches i total [] = refl
carried-number_batches i total (batch ∷ batches) =
    ap (λ l. batch.leaves ++ l) (carried-number_batches (i + 1) total batches)

number_batches-IsWithin :
    (size i total : ℕ) (batches : List BatchedTransmissionPacket)
    → All (λ b. IsWithin size b.leaves) batches
    → All (λ b. IsWithin size b.leaves) (number_batches i total batches)
unfolding number_batches
number_batches-IsWithin size i total [] all = tt
number_batches-IsWithin size i total (batch ∷ batches) all =
    (all.0, number_batches-IsWithin size (i + 1) total batches all.1)

-- The batches of a DAG, against its packets of one leaf.
abbrev pub IsBatching : ℕ → List TransmissionPacket → List BatchedTransmissionPacket → Type 0
IsBatching size packets batches =
    (map bare (carried batches) ≡ map bare (map (λ packet. packet.leaf) packets))
    × All (λ b. IsWithin size b.leaves) batches
    × IsNumbered 0 (length batches) batches

numbered-IsBatching :
    (size : ℕ) (packets : List TransmissionPacket) (batches : List BatchedTransmissionPacket)
    → map bare (sent_leaves packets) ≡ map bare (carried batches)
    → All (λ b. IsWithin size b.leaves) batches
    → IsBatching size packets (number_batches 0 (length batches) batches)
numbered-IsBatching size packets batches same within =
    let total = length batches in
    let count : length (number_batches 0 total batches) ≡ total =
      length-number_batches 0 total batches in
    (
      ap (map bare) (carried-number_batches 0 total batches) ∙ sym same,
      number_batches-IsWithin size 0 total batches within,
      subst (λ n. IsNumbered 0 n (number_batches 0 total batches)) (sym count)
          (number_batches-IsNumbered 0 total batches),
    )

all_batches-IsBatching :
    (codec : Codec) (size : ℕ) (d : Dag) (t : Traversal) (s : Batching)
    → IsAlike codec size d t s
    → IsOpen codec size d s
    → (let batches = all_batches codec size d s in
        IsBatching size t.sequence (number_batches 0 (length batches) batches))
unfolding IsOpen all_batches close_batch
all_batches-IsBatching codec size d t s alike room =
    let closed = close_batch codec size d s in
    let done = close_batch-IsAlike codec size d t s alike room.0 in
    let some_leaf : ltb 0 (length s.current_batch.leaves) ≡ true =
      lt→ltb 0 (length s.current_batch.leaves) room.0.0 in
    rw some_leaf (
      numbered-IsBatching size t.sequence closed.batches
        (done.leaves ∙ ap (map bare) (append-nil (carried closed.batches))) done.closed)

begin_batching-IsAlike :
    (codec : Codec) (size : ℕ) (d : Dag) (leaf : DagLeaf)
    → IsAlike codec size d (begin d.root leaf) (begin_batching d.root leaf)
      × IsOpen codec size d (begin_batching d.root leaf)
unfolding begin begin_batching IsOpen
begin_batching-IsAlike codec size d leaf =
    let less = estimate_size-bare (clone leaf) in
    (
      record {
        visited = refl;
        queue = refl;
        leaves = refl;
        closed = tt;
        sized = omega (arith, less);
      },
      ((omega arith, inl refl), inl refl),
    )

batched_leaves-IsBatching :
    (codec : Codec) (size : ℕ) (d : Dag) (found : Option DagLeaf)
    (packets : List TransmissionPacket)
    → sequence_with stored_proof d found ≡ some packets
    → (batches : List BatchedTransmissionPacket) × (batched_leaves codec size d found
        ≡ some batches)
      × IsBatching size packets batches
unfolding sequence_with batched_leaves
batched_leaves-IsBatching codec size d none packets e =
    let nothing : [] ≡ packets = cc e in
    ([], refl, subst (λ x. IsBatching size x []) nothing (refl, tt, tt))
batched_leaves-IsBatching codec size d (some leaf) packets e =
    elim (Option-cases
      (traverse d.leafs stored_proof (length d.leafs) (d.root ∷ []) (begin d.root leaf))) [
        | inl stuck ↦ absurd (cc (rw stuck at e))
        | inr (last, ran) ↦
            let sent : last.sequence ≡ packets = cc (rw ran at e) in
            let start = begin_batching-IsAlike codec size d leaf in
            let (final, done, alike, room) =
              batch_queue-IsAlike codec size d (length d.leafs) (d.root ∷ []) (begin d.root leaf)
                last (begin_batching d.root leaf) ran start.0 start.1 in
            let batches = all_batches codec size d final in
            (
              number_batches 0 (length batches) batches,
              rw done refl,
              subst (λ x. IsBatching size x (number_batches 0 (length batches) batches)) sent
                  (all_batches-IsBatching codec size d last final alike room),
            )
      ]

-- `GetBatchedLeafSequence` with a batch size above 0 ends, and its batches hold the leaves of
-- `getPartialLeafSequence` in the same order, up to the proofs in a leaf. No batch is empty; the
-- leaves of a batch with several, counted without their proofs, are within the batch size; the
-- batches are numbered in order, with their count. The leaves stand under their hashes.
pub get_batched_leaf_sequence-IsBatching :
    (codec : Codec) (size : ℕ) (d : Dag)
    → 0 < size
    → Entries IsKeyed d.leafs
    → (packets : List TransmissionPacket) × (batches : List BatchedTransmissionPacket)
      × (get_partial_leaf_sequence d ≡ some packets)
      × (get_batched_leaf_sequence codec (pos size) d ≡ some batches)
      × IsBatching size packets batches
unfolding get_batched_leaf_sequence get_partial_leaf_sequence
get_batched_leaf_sequence-IsBatching codec size d enabled keyed =
    let (packets, sent, ordered, held) =
      sequence_with-ParentsFirst d.leafs keyed stored_proof d.root d.labels (lookup d.root d.leafs)
        refl in
    let (batches, done, batching) =
      batched_leaves-IsBatching codec size d (lookup d.root d.leafs) packets sent in
    let on : (size == 0) ≡ false = ground arith in (packets, batches, sent, rw on done, batching)
