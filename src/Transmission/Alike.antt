-- ===== src/Transmission/Alike.antt =====
-- dag/transmission.go: the batches are filled in the order of the packets of one leaf.
use scionic_merkle_tree_go.Common.{
  ℕ, zero, suc, ◌+◌, ◌≤◌, ◌<◌, ◌≡◌, refl, sym, ap, ◌∙◌, subst, false, ◌&&◌, Option, some, none,
  List, [], ◌∷◌, ◌++◌, map, Bytes, length, length-append, ltb, lookup, sort_strings, arith, inl,
  inr, Bool-cases, All, ◌⊎◌, has_string,
}
use scionic_merkle_tree_go.Dag.Types.{DagLeaf, Dag, Codec}
use scionic_merkle_tree_go.Dag.Clone.{clone, estimate_size}
use mathlib.Core.List.{append-nil}
use scionic_merkle_tree_go.Transmission.{
  TransmissionPacket, Traversal, proofs_of, or_nil, stored_proof, send, send_children, send_all,
  pop, traverse,
}
use scionic_merkle_tree_go.Transmission.Bare.{
  bare, total_size, bare-finalize_parents, estimate_size-bare, total_size-map, length-map-bare,
}
use scionic_merkle_tree_go.Transmission.Batches.{
  finalize_batch, Batching, put_child, pop_batching, close_batch, exceeds, batch_child,
  batch_children, batch_all, batch_queue,
}
use scionic_merkle_tree_go.Transmission.Sizes.{
  IsWithin, carried, sent_leaves, append_one, close_one, total_size-append, All-append_batch,
}

module _ (codec : Codec) (size : ℕ) (d : Dag) where
  -- The same hashes are visited and waiting, and the batches hold the leaves of the packets.
  pub record IsAlike (t : Traversal) (s : Batching) : Type 0 where
    pub visited : t.visited ≡ s.visited
    pub queue : t.queue ≡ s.queue
    pub leaves :
        map bare (sent_leaves t.sequence) ≡ map bare (carried s.batches ++ s.current_batch.leaves)
    pub closed : All (λ b. IsWithin size b.leaves) s.batches
    pub sized : total_size s.current_batch.leaves ≤ s.current_batch_size

  unfoldable pub IsOpen : Batching → Type 0
  IsOpen s =
      IsWithin size s.current_batch.leaves
      × ((length s.current_batch.leaves ≡ 1) ⊎ (s.current_batch_size ≤ size))

  HasRoom : DagLeaf → Batching → Type 0
  HasRoom leaf s =
      (length s.current_batch.leaves ≡ 0)
      ⊎ (s.current_batch_size + estimate_size (some leaf) ≤ size)

  pub close_batch-IsAlike :
      (t : Traversal) (s : Batching)
      → IsAlike t s
      → IsWithin size s.current_batch.leaves
      → IsAlike t (close_batch codec size d s)
  unfolding close_batch finalize_batch
  close_batch-IsAlike t s alike within =
      let cur = s.current_batch.leaves in
      let final = finalize_batch codec d s.current_batch s.parents_in_batch in
      let same : map bare final.leaves ≡ map bare cur =
        bare-finalize_parents codec d s.current_batch.relationships s.parents_in_batch cur in
      let count : length final.leaves ≡ length cur = length-map-bare final.leaves cur same in
      let total : total_size final.leaves ≡ total_size cur = total_size-map final.leaves cur same in
      record {
        visited = alike.visited;
        queue = alike.queue;
        leaves =
            alike.leaves
            ∙ sym (close_one s.batches final cur same)
            ∙ ap (map bare) (sym (append-nil (carried (s.batches ++ final ∷ []))));
        closed = All-append_batch size s.batches final alike.closed (
          omega (arith, count, within.0),
          elim within.1 [
            | inl one ↦ inl (count ∙ one)
            | inr small ↦ inr (omega (arith, total, small))
          ],
        );
        sized = omega arith;
      }

  put_child-IsAlike :
      (current child : Bytes) (leaf : DagLeaf) (packet : TransmissionPacket) (t : Traversal)
      (s : Batching)
      → packet.leaf ≡ leaf
      → HasRoom leaf s
      → IsAlike t s
      → IsAlike
          record {
            sequence = t.sequence ++ packet ∷ [];
            visited = child ∷ t.visited;
            queue = t.queue ++ child ∷ [];
          }
          (put_child current child leaf s)
        × IsOpen (put_child current child leaf s)
  unfolding put_child IsOpen HasRoom
  put_child-IsAlike current child leaf packet t s held room alike =
      let cur = s.current_batch.leaves in
      let more : length (cur ++ leaf ∷ []) ≡ length cur + 1 = length-append {0} cur (leaf ∷ []) in
      let total = total_size-append cur leaf in
      let less = estimate_size-bare leaf in
      (
        record {
          visited = ap (◌∷◌ child) alike.visited;
          queue = ap (λ q. q ++ child ∷ []) alike.queue;
          leaves =
              append_one t.sequence packet (carried s.batches) cur alike.leaves
              ∙ ap (λ l. map bare (carried s.batches ++ (cur ++ l ∷ []))) held;
          closed = alike.closed;
          sized = omega (arith, total, less, alike.sized);
        },
        (
          (
            omega (arith, more),
            elim room [
              | inl empty ↦ inl (omega (arith, more, empty))
              | inr fits ↦ inr (omega (arith, total, less, alike.sized, fits))
            ],
          ),
          elim room [ inl empty ↦ inl (omega (arith, more, empty)) | inr fits ↦ inr fits ],
        ),
      )

  batch_child-IsAlike :
      (current child : Bytes) (current_leaf : DagLeaf) (found : Option DagLeaf) (t : Traversal)
      (s : Batching)
      → IsAlike t s
      → IsOpen s
      → IsAlike
          (send d.leafs current child found (stored_proof current_leaf child) t)
          (batch_child codec size d current child found s)
        × IsOpen (batch_child codec size d current child found s)
  unfolding send batch_child stored_proof IsOpen HasRoom
  batch_child-IsAlike current child current_leaf none t s alike room = (alike, room)
  batch_child-IsAlike current child current_leaf (some leaf) t s alike room =
      let copy = clone leaf in
      let packet : TransmissionPacket = record {
        leaf = copy;
        parent_hash = current;
        proofs = proofs_of child (or_nil (lookup child current_leaf.proofs));
      } in
      elim (Bool-cases (exceeds codec size d copy s)) [
        | inl large ↦ rw large (
            put_child-IsAlike current child copy packet t (close_batch codec size d s) refl
              (inl refl) (close_batch-IsAlike t s alike room.0))
        | inr fits ↦ rw fits (
            put_child-IsAlike current child copy packet t s refl
              (inr (
                not_exceeding s.current_batch_size (estimate_size (some copy))
                  (length s.current_batch.leaves) fits room.0.0))
              alike)
      ]
    where
      not_exceeding : (a b n : ℕ) → (ltb size (a + b) && ltb 0 n) ≡ false → 0 < n → a + b ≤ size
      not_exceeding a b n h many = ground arith

  batch_children-IsAlike :
      (current : Bytes) (current_leaf : DagLeaf) (links : List Bytes) (t : Traversal) (s : Batching)
      → IsAlike t s
      → IsOpen s
      → IsAlike
          (send_children d.leafs stored_proof current current_leaf links t)
          (batch_children codec size d current links s)
        × IsOpen (batch_children codec size d current links s)
  unfolding send_children batch_children
  batch_children-IsAlike current current_leaf [] t s alike room = (alike, room)
  batch_children-IsAlike current current_leaf (child ∷ links) t s alike room =
      let seen : has_string child t.visited ≡ has_string child s.visited =
        ap (has_string child) alike.visited in
      elim (Bool-cases (has_string child s.visited)) [
        | inl old ↦
            rw (seen, old) (batch_children-IsAlike current current_leaf links t s alike room)
        | inr new ↦
            let one =
              batch_child-IsAlike current child current_leaf (lookup child d.leafs) t s alike
                room in
            rw (seen, new)
              (batch_children-IsAlike current current_leaf links
                (send d.leafs current child (lookup child d.leafs) (stored_proof current_leaf child)
                  t)
                (batch_child codec size d current child (lookup child d.leafs) s) one.0 one.1)
      ]

  batch_all-IsAlike :
      (current : Bytes) (found : Option DagLeaf) (t : Traversal) (s : Batching)
      → IsAlike t s
      → IsOpen s
      → IsAlike
          (send_all d.leafs stored_proof current found t)
          (batch_all codec size d current found s)
        × IsOpen (batch_all codec size d current found s)
  unfolding send_all batch_all
  batch_all-IsAlike current none t s alike room = (alike, room)
  batch_all-IsAlike current (some leaf) t s alike room =
      batch_children-IsAlike current leaf (sort_strings leaf.links) t s alike room

  pub batch_queue-IsAlike :
      (fuel : ℕ) (queue : List Bytes) (t last : Traversal) (s : Batching)
      → traverse d.leafs stored_proof fuel queue t ≡ some last
      → IsAlike t s
      → IsOpen s
      → (final : Batching) × (batch_queue codec size d fuel queue s ≡ some final)
        × IsAlike last final
        × IsOpen final
  unfolding traverse batch_queue IsOpen
  batch_queue-IsAlike zero [] t last s e alike room =
      let same : t ≡ last = cc e in (s, refl, subst (λ x. IsAlike x s) same alike, room)
  batch_queue-IsAlike zero (current ∷ queue) t last s e alike room = absurd (cc e)
  batch_queue-IsAlike (suc fuel) [] t last s e alike room =
      let same : t ≡ last = cc e in (s, refl, subst (λ x. IsAlike x s) same alike, room)
  batch_queue-IsAlike (suc fuel) (current ∷ queue) t last s e alike room =
      let popped : IsAlike (pop queue t) (pop_batching queue s) = record {
        visited = alike.visited;
        queue = refl;
        leaves = alike.leaves;
        closed = alike.closed;
        sized = alike.sized;
      } in
      let next = send_all d.leafs stored_proof current (lookup current d.leafs) (pop queue t) in
      let next_s = batch_all codec size d current (lookup current d.leafs) (pop_batching queue s) in
      let one =
        batch_all-IsAlike current (lookup current d.leafs) (pop queue t) (pop_batching queue s)
          popped room in
      subst
        (λ q.
          (final : Batching) × (batch_queue codec size d fuel q next_s ≡ some final)
          × IsAlike last final
          × IsOpen final)
        one.0.queue (batch_queue-IsAlike fuel next.queue next last next_s e one.0 one.1)
