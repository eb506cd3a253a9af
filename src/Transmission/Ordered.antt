-- ===== src/Transmission/Ordered.antt =====
-- dag/transmission.go: the order of the packets, and that the traversal ends.
use scionic_merkle_tree_go.Common.{
  false, ℕ, zero, suc, ◌+◌, ◌≤◌, ◌<◌, ◌≡◌, refl, sym, ap, ◌∙◌, subst, true, false, Option, some,
  none, List, [], ◌∷◌, ◌++◌, Bytes, length, length-append, GoMap, keys, lookup, sort_strings, arith,
  inl, inr, Bool-cases, bytes_eq_refl, All, ◌⊎◌, has_string, Entries, Entries-lookup,
}
use scionic_merkle_tree_go.Dag.Types.{ClassicTreeBranch, DagLeaf, Dag, Codec}
use scionic_merkle_tree_go.Dag.Clone.{clone}
use scionic_merkle_tree_go.Dag.Iterate.{is_partial}
use scionic_merkle_tree_go.Dag.Types.{IsKeyed}
use scionic_merkle_tree_go.Dag.Unseen.{
  unseen, unseen-visit, has_string-keys, unseen-le, length-keys,
}
use scionic_merkle_tree_go.Dag.GetPartial.Proved.{clone-hash}
use scionic_merkle_tree_go.Transmission.{
  TransmissionPacket, Traversal, proofs_of, Prover, built_proof, stored_proof, send, send_children,
  send_all, pop, traverse, begin, sequence_with, warning_panics, some_panics, print_warnings,
  get_leaf_sequence, get_partial_leaf_sequence,
}

-- The hashes that have been sent after some packets, the last one first.
abbrev pub sent_after : List Bytes → List TransmissionPacket → List Bytes
sent_after sent [] = sent
sent_after sent (packet ∷ packets) = sent_after (packet.leaf.hash ∷ sent) packets

-- Each packet holds a leaf that has not been sent, and names no parent or one that has.
abbrev pub ParentsFirst : List Bytes → List TransmissionPacket → Type 0
ParentsFirst sent [] = Unit {0}
ParentsFirst sent (packet ∷ packets) =
    ((packet.parent_hash ≡ []) ⊎ (has_string packet.parent_hash sent ≡ true))
    × (has_string packet.leaf.hash sent ≡ false)
    × ParentsFirst (packet.leaf.hash ∷ sent) packets

sent_after-append :
    (sent : List Bytes) (packets : List TransmissionPacket) (p : TransmissionPacket)
    → sent_after sent (packets ++ p ∷ []) ≡ p.leaf.hash ∷ sent_after sent packets
sent_after-append sent [] p = refl
sent_after-append sent (packet ∷ packets) p = sent_after-append (packet.leaf.hash ∷ sent) packets p

ParentsFirst-append :
    (sent : List Bytes) (packets : List TransmissionPacket) (p : TransmissionPacket)
    → ParentsFirst sent packets
    → has_string p.parent_hash (sent_after sent packets) ≡ true
    → has_string p.leaf.hash (sent_after sent packets) ≡ false
    → ParentsFirst sent (packets ++ p ∷ [])
ParentsFirst-append sent [] p h parent new = (inr parent, new, tt)
ParentsFirst-append sent (packet ∷ packets) p h parent new =
    (h.0, h.1, ParentsFirst-append (packet.leaf.hash ∷ sent) packets p h.2 parent new)

has_string_more :
    (k j : Bytes) (v : List Bytes) → has_string k v ≡ true → has_string k (j ∷ v) ≡ true
unfolding has_string
has_string_more k j v h = ground arith

-- The packet's leaf is in the DAG.
abbrev pub IsOf : GoMap DagLeaf → TransmissionPacket → Type 0
IsOf leafs packet = (leaf : DagLeaf) × (lookup packet.leaf.hash leafs ≡ some leaf)

All-append :
    (leafs : GoMap DagLeaf) (packets : List TransmissionPacket) (p : TransmissionPacket)
    → All (IsOf leafs) packets
    → IsOf leafs p
    → All (IsOf leafs) (packets ++ p ∷ [])
All-append leafs [] p all one = (one, tt)
All-append leafs (packet ∷ packets) p all one = (all.0, All-append leafs packets p all.1 one)

module _ (leafs : GoMap DagLeaf) (keyed : Entries IsKeyed leafs) (prove : Prover) where
  -- The invariant: the visited hashes are those that have been sent, in order, and with the queue the
  -- hashes that are left fit into the bound.
  record IsInOrder (bound : ℕ) (t : Traversal) : Type 0 where
    ordered : ParentsFirst [] t.sequence
    same : sent_after [] t.sequence ≡ t.visited
    queued : All (λ k. has_string k t.visited ≡ true) t.queue
    fits : unseen (keys leafs) t.visited + length t.queue ≤ bound
    held : All (IsOf leafs) t.sequence

  All-has_string_more :
      (ks v : List Bytes) (k : Bytes)
      → All (λ j. has_string j v ≡ true) ks
      → All (λ j. has_string j (k ∷ v) ≡ true) (ks ++ k ∷ [])
  unfolding has_string
  All-has_string_more [] v k h = (rw (bytes_eq_refl k) refl, tt)
  All-has_string_more (j ∷ ks) v k h = (ground arith, All-has_string_more ks v k h.1)

  send-IsInOrder :
      (bound : ℕ) (current child : Bytes) (found : Option DagLeaf)
      (proof : Option (Option ClassicTreeBranch)) (t : Traversal)
      → lookup child leafs ≡ found
      → has_string current t.visited ≡ true
      → has_string child t.visited ≡ false
      → IsInOrder bound t
      → IsInOrder bound (send leafs current child found proof t)
        × (has_string current (send leafs current child found proof t).visited ≡ true)
  unfolding send
  send-IsInOrder bound current child none proof t there parent new good = (good, parent)
  send-IsInOrder bound current child (some leaf) none t there parent new good = (good, parent)
  send-IsInOrder bound current child (some leaf) (some proof) t there parent new good =
      let named : (clone leaf).hash ≡ child =
        clone-hash leaf ∙ Entries-lookup IsKeyed child leaf leafs keyed there in
      let packet : TransmissionPacket = record {
        leaf = clone leaf;
        parent_hash = current;
        proofs = proofs_of child proof;
      } in
      (
        record {
          ordered =
              ParentsFirst-append [] t.sequence packet good.ordered
                (ap (has_string current) good.same ∙ parent)
                (subst (λ h. has_string h (sent_after [] t.sequence) ≡ false) (sym named)
                  (ap (has_string child) good.same ∙ new));
          same =
              sent_after-append [] t.sequence packet
              ∙ ap (λ h. h ∷ sent_after [] t.sequence) named
              ∙ ap (λ v. child ∷ v) good.same;
          queued = All-has_string_more t.queue t.visited child good.queued;
          fits = omega (
            arith,
            good.fits,
            unseen-visit child (keys leafs) t.visited (has_string-keys child leafs leaf there) new,
            length-append {0} t.queue (child ∷ []),
          );
          held =
              All-append leafs t.sequence packet good.held
                (leaf, ap (λ h. lookup h leafs) named ∙ there);
        },
        has_string_more current child t.visited parent,
      )

  send_children-IsInOrder :
      (bound : ℕ) (current : Bytes) (current_leaf : DagLeaf) (links : List Bytes) (t : Traversal)
      → has_string current t.visited ≡ true
      → IsInOrder bound t
      → IsInOrder bound (send_children leafs prove current current_leaf links t)
  unfolding send_children
  send_children-IsInOrder bound current current_leaf [] t parent good = good
  send_children-IsInOrder bound current current_leaf (child ∷ links) t parent good =
      elim (Bool-cases (has_string child t.visited)) [
        | inl old ↦ rw old (send_children-IsInOrder bound current current_leaf links t parent good)
        | inr new ↦
            let next = send leafs current child (lookup child leafs) (prove current_leaf child) t in
            let one =
              send-IsInOrder bound current child (lookup child leafs) (prove current_leaf child) t
                refl parent new good in
            rw new (send_children-IsInOrder bound current current_leaf links next one.1 one.0)
      ]

  send_all-IsInOrder :
      (bound : ℕ) (current : Bytes) (found : Option DagLeaf) (t : Traversal)
      → has_string current t.visited ≡ true
      → IsInOrder bound t
      → IsInOrder bound (send_all leafs prove current found t)
  unfolding send_all
  send_all-IsInOrder bound current none t parent good = good
  send_all-IsInOrder bound current (some leaf) t parent good =
      send_children-IsInOrder bound current leaf (sort_strings leaf.links) t parent good

  traverse-IsInOrder :
      (fuel : ℕ) (queue : List Bytes) (t : Traversal)
      → t.queue ≡ queue
      → IsInOrder fuel t
      → (last : Traversal) × (traverse leafs prove fuel queue t ≡ some last)
        × ParentsFirst [] last.sequence
        × All (IsOf leafs) last.sequence
  unfolding traverse
  traverse-IsInOrder zero [] t q good = (t, refl, good.ordered, good.held)
  traverse-IsInOrder zero (current ∷ queue) t q good =
      absurd (omega (arith, good.fits, ap length q))
  traverse-IsInOrder (suc fuel) [] t q good = (t, refl, good.ordered, good.held)
  traverse-IsInOrder (suc fuel) (current ∷ queue) t q good =
      let queued : All (λ k. has_string k t.visited ≡ true) (current ∷ queue) =
        subst (All (λ k. has_string k t.visited ≡ true)) q good.queued in
      let next = send_all leafs prove current (lookup current leafs) (pop queue t) in
      traverse-IsInOrder fuel next.queue next refl (
        send_all-IsInOrder fuel current (lookup current leafs) (pop queue t) queued.0 record {
          ordered = good.ordered;
          same = good.same;
          queued = queued.1;
          fits = omega (arith, good.fits, ap length q);
          held = good.held;
        })

  pub sequence_with-ParentsFirst :
      (root : Bytes) (labels : Option (GoMap Bytes)) (found : Option DagLeaf)
      → lookup root leafs ≡ found
      → (packets : List TransmissionPacket) × (sequence_with prove
            record { root = root; leafs = leafs; labels = labels }
            found
          ≡ some packets)
        × ParentsFirst [] packets
        × All (IsOf leafs) packets
  unfolding sequence_with begin has_string
  sequence_with-ParentsFirst root labels none there = ([], refl, tt, tt)
  sequence_with-ParentsFirst root labels (some leaf) there =
      let named : (clone leaf).hash ≡ root =
        clone-hash leaf ∙ Entries-lookup IsKeyed root leaf leafs keyed there in
      let fits : unseen (keys leafs) (root ∷ []) < unseen (keys leafs) [] =
        unseen-visit root (keys leafs) [] (has_string-keys root leafs leaf there) refl in
      let (last, done, ordered, held) =
        traverse-IsInOrder (length leafs) (root ∷ []) (begin root leaf) refl record {
          ordered = (inl refl, refl, tt);
          same = ap (λ h. h ∷ []) named;
          queued = (rw (bytes_eq_refl root) refl, tt);
          fits = omega (arith, fits, unseen-le (keys leafs) [], length-keys {0} leafs);
          held = ((leaf, ap (λ h. lookup h leafs) named ∙ there), tt);
        } in
      (last.sequence, rw done refl, ordered, held)

-- A hash has the twelve bytes that a warning prints.
abbrev pub IsPrinted : Bytes → DagLeaf → Type 0
IsPrinted k leaf = 12 ≤ length k

warning_panics-never :
    (leafs : GoMap DagLeaf) (packet : TransmissionPacket) (found : Option DagLeaf)
    → Entries IsPrinted leafs
    → IsOf leafs packet
    → lookup packet.parent_hash leafs ≡ found
    → warning_panics packet found ≡ false
unfolding warning_panics
warning_panics-never leafs packet none long of there = refl
warning_panics-never leafs packet (some parent) long of there = ground (
  arith,
  Entries-lookup IsPrinted packet.leaf.hash of.0 leafs long of.1,
  Entries-lookup IsPrinted packet.parent_hash parent leafs long there,
)

some_panics-never :
    (leafs : GoMap DagLeaf) (packets : List TransmissionPacket)
    → Entries IsPrinted leafs
    → All (IsOf leafs) packets
    → some_panics leafs packets ≡ false
unfolding some_panics
some_panics-never leafs [] long all = refl
some_panics-never leafs (packet ∷ packets) long all =
    rw
      (
        warning_panics-never leafs packet (lookup packet.parent_hash leafs) long all.0 refl,
        some_panics-never leafs packets long all.1,
      )
      refl

print_warnings-ok :
    (leafs : GoMap DagLeaf) (packets : List TransmissionPacket)
    → Entries IsPrinted leafs
    → All (IsOf leafs) packets
    → print_warnings leafs (some packets) ≡ some packets
unfolding print_warnings
print_warnings-ok leafs [] long all = refl
print_warnings-ok leafs (root ∷ packets) long all =
    rw (some_panics-never leafs packets long all.1) refl

-- `GetLeafSequence` ends without a panic, on full and on partial DAGs, whatever their links: as many
-- rounds as there are leaves empty the queue. No leaf is in two packets, and each packet names a
-- parent whose packet comes before it, or no parent. The leaves stand under their hashes, which in a
-- partial DAG have at least twelve bytes, as the warning about a missing proof prints.
pub get_leaf_sequence-ParentsFirst :
    (codec : Codec) (d : Dag)
    → Entries IsKeyed d.leafs
    → (is_partial d ≡ true → Entries IsPrinted d.leafs)
    → (packets : List TransmissionPacket) × (get_leaf_sequence codec d ≡ some packets)
      × ParentsFirst [] packets
unfolding get_leaf_sequence get_partial_leaf_sequence
get_leaf_sequence-ParentsFirst codec d keyed long = elim (Bool-cases (is_partial d)) [
  | inl partial ↦
      let (packets, sent, ordered, held) =
        sequence_with-ParentsFirst d.leafs keyed stored_proof d.root d.labels
          (lookup d.root d.leafs) refl in
      (packets, rw (partial, sent) (print_warnings-ok d.leafs packets (long partial) held), ordered)
  | inr full ↦
      let (packets, sent, ordered, held) =
        sequence_with-ParentsFirst d.leafs keyed (built_proof codec) d.root d.labels
          (lookup d.root d.leafs) refl in
      (packets, rw full sent, ordered)
]
