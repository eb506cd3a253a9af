-- ===== src/Transmission/Sizes.antt =====
-- dag/transmission.go: the leaves of batches, in order and by size.
use scionic_merkle_tree_go.Common.{
  ℕ, ◌+◌, ◌≤◌, ◌<◌, ◌≡◌, sym, ap, ◌∙◌, some, List, [], ◌∷◌, ◌++◌, map, length, arith, All, ◌⊎◌,
}
use scionic_merkle_tree_go.Dag.Types.{DagLeaf}
use scionic_merkle_tree_go.Dag.Clone.{estimate_size}
use mathlib.Core.List.{map-append, append_assoc, append-nil}
use scionic_merkle_tree_go.Transmission.{TransmissionPacket}
use scionic_merkle_tree_go.Transmission.Bare.{bare, total_size}
use scionic_merkle_tree_go.Transmission.Batches.{BatchedTransmissionPacket}

-- A batch within the batch size, or of one leaf; none is empty.
abbrev pub IsWithin : ℕ → List DagLeaf → Type 0
IsWithin batch_size leaves =
    (0 < length leaves) × ((length leaves ≡ 1) ⊎ (total_size leaves ≤ batch_size))

-- The leaves of some batches, in order.
abbrev pub carried : List BatchedTransmissionPacket → List DagLeaf
carried [] = []
carried (batch ∷ batches) = batch.leaves ++ carried batches

abbrev pub sent_leaves : List TransmissionPacket → List DagLeaf
sent_leaves packets = map (λ packet. packet.leaf) packets

pub append_one :
    (packets : List TransmissionPacket) (p : TransmissionPacket) (done cur : List DagLeaf)
    → map bare (sent_leaves packets) ≡ map bare (done ++ cur)
    → map bare (sent_leaves (packets ++ p ∷ [])) ≡ map bare (done ++ (cur ++ p.leaf ∷ []))
append_one packets p done cur same =
    ap (map bare) (map-append (λ packet. packet.leaf) packets (p ∷ []))
    ∙ map-append bare (sent_leaves packets) (p.leaf ∷ [])
    ∙ ap (λ l. l ++ bare p.leaf ∷ []) same
    ∙ sym (map-append bare (done ++ cur) (p.leaf ∷ []))
    ∙ ap (map bare) (append_assoc done cur (p.leaf ∷ []))

pub close_one :
    (batches : List BatchedTransmissionPacket) (b : BatchedTransmissionPacket) (cur : List DagLeaf)
    → map bare b.leaves ≡ map bare cur
    → map bare (carried (batches ++ b ∷ [])) ≡ map bare (carried batches ++ cur)
close_one [] b cur same = ap (map bare) (append-nil b.leaves) ∙ same
close_one (x ∷ batches) b cur same =
    map-append bare x.leaves (carried (batches ++ b ∷ []))
    ∙ ap (λ l. map bare x.leaves ++ l) (close_one batches b cur same)
    ∙ sym (map-append bare x.leaves (carried batches ++ cur))
    ∙ ap (map bare) (sym (append_assoc x.leaves (carried batches) cur))

pub total_size-append :
    (xs : List DagLeaf) (x : DagLeaf)
    → total_size (xs ++ x ∷ []) ≡ total_size xs + estimate_size (some (bare x))
total_size-append [] x = omega arith
total_size-append (y ∷ xs) x = omega (arith, total_size-append xs x)

pub All-append_batch :
    (size : ℕ) (batches : List BatchedTransmissionPacket) (b : BatchedTransmissionPacket)
    → All (λ x. IsWithin size x.leaves) batches
    → IsWithin size b.leaves
    → All (λ x. IsWithin size x.leaves) (batches ++ b ∷ [])
All-append_batch size [] b all new = (new, tt)
All-append_batch size (x ∷ batches) b all new = (all.0, All-append_batch size batches b all.1 new)
