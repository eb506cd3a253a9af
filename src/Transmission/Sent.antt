-- ===== src/Transmission/Sent.antt =====
-- dag/transmission.go: what holds of every packet that the traversal of a full DAG sends.
use scionic_merkle_tree_go.Common.{
  ℕ, zero, suc, ◌<◌, ◌≡◌, refl, sym, ap, ◌∙◌, subst, true, false, Option, some, none, List, [], ◌∷◌,
  ◌++◌, Bytes, length, bytes_eq, ok, keys, lookup, sort_strings, inl, inr, Bool-cases, Option-cases,
  bytes_eq_refl, eq_of_bytes_eq, bytes_eq_iff, All, ◌⊎◌, has_string, All-has_string,
  All-sort_strings, Entries, Entries-lookup,
}
use scionic_merkle_tree_go.Dag.Types.{ClassicTreeBranch, DagLeaf, Dag, Codec}
use scionic_merkle_tree_go.Tree.Sets.{IsDistinct}
use scionic_merkle_tree_go.Dag.Leaf.{verify_leaf, verify_branch}
use scionic_merkle_tree_go.Dag.Clone.{clone, entries}
use scionic_merkle_tree_go.Dag.Clone.Same.{clone-verify_leaf}
use scionic_merkle_tree_go.Dag.Iterate.{is_partial}
use scionic_merkle_tree_go.Dag.Proofs.{proof_for_child-verify_branch}
use scionic_merkle_tree_go.Dag.GetPartial.Proved.{IsWhole, clone-hash}
use scionic_merkle_tree_go.Transmission.{
  TransmissionPacket, Traversal, proofs_of, built_proof, send, send_children, send_all, pop,
  traverse, begin, sequence_with, get_leaf_sequence,
}

-- A leaf of a full DAG that can be sent: under its hash, which is not empty, with all its links and
-- the Merkle root over them, and verifying by itself unless it is the root.
pub record IsSendable (codec : Codec) (root : Bytes) (k : Bytes) (leaf : DagLeaf) : Type 0 where
  pub whole : IsWhole codec k leaf
  pub some_hash : bytes_eq k [] ≡ false
  pub distinct_data : IsDistinct (keys (entries leaf.additional_data))
  pub distinct_proofs : IsDistinct (keys leaf.proofs)
  pub verified : bytes_eq k root ≡ false → verify_leaf codec leaf ≡ ok tt

-- The packet of a child: it holds a clone of a leaf that verifies, and names a parent that links it
-- and, if it has several links, accepts the packet's proof.
pub record IsSentChild (codec : Codec) (d : Dag) (packet : TransmissionPacket) : Type 0 where
  pub parent : DagLeaf
  pub parent_held : lookup packet.parent_hash d.leafs ≡ some parent
  pub named : bytes_eq packet.parent_hash [] ≡ false
  pub linked : has_string packet.leaf.hash parent.links ≡ true
  pub verified : verify_leaf codec packet.leaf ≡ ok tt
  pub proved :
      1 < length parent.links
      → (branch : ClassicTreeBranch) × (lookup packet.leaf.hash packet.proofs ≡ some (some branch))
        × (verify_branch codec parent branch ≡ ok tt)

pub record IsSent (codec : Codec) (d : Dag) (packet : TransmissionPacket) : Type 0 where
  pub source : DagLeaf
  pub held : lookup packet.leaf.hash d.leafs ≡ some source
  pub copy : packet.leaf ≡ clone source
  pub sendable : IsSendable codec d.root packet.leaf.hash source
  pub kind :
      ((bytes_eq packet.parent_hash [] ≡ true) × (bytes_eq packet.leaf.hash d.root ≡ true))
      ⊎ IsSentChild codec d packet

module _ (codec : Codec) (d : Dag) (all : Entries (IsSendable codec d.root) d.leafs) where
  IsSendable-lookup :
      (k : Bytes) (leaf : DagLeaf) → lookup k d.leafs ≡ some leaf → IsSendable codec d.root k leaf
  IsSendable-lookup k leaf held = Entries-lookup (IsSendable codec d.root) k leaf d.leafs all held

  -- The proof that the traversal of a full DAG puts into a packet.
  built_proof-some :
      (k : Bytes) (parent : DagLeaf) (child : Bytes) (proof : Option ClassicTreeBranch)
      → lookup k d.leafs ≡ some parent
      → has_string child parent.links ≡ true
      → built_proof codec parent child ≡ some proof
      → 1 < length parent.links
      → (branch : ClassicTreeBranch) × (lookup child (proofs_of child proof) ≡ some (some branch))
        × (verify_branch codec parent branch ≡ ok tt)
  unfolding built_proof lookup
  built_proof-some k parent child proof held linked e many =
      let whole = (IsSendable-lookup k parent held).whole in
      let (branch, found, _, accepted) =
        proof_for_child-verify_branch codec parent child (whole.own_root many) many whole.few
          linked in
      let same : some branch ≡ proof = cc (rw found at e) in
      (branch, rw (← same, bytes_eq_refl child) refl, accepted)

  packet-IsSent :
      (current : Bytes) (current_leaf : DagLeaf) (child : Bytes) (leaf : DagLeaf)
      (proof : Option ClassicTreeBranch)
      → lookup current d.leafs ≡ some current_leaf
      → has_string child current_leaf.links ≡ true
      → lookup child d.leafs ≡ some leaf
      → bytes_eq child d.root ≡ false
      → built_proof codec current_leaf child ≡ some proof
      → IsSent codec d
          record { leaf = clone leaf; parent_hash = current; proofs = proofs_of child proof }
  packet-IsSent current current_leaf child leaf proof held linked there inner e =
      let sendable = IsSendable-lookup child leaf there in
      let named : (clone leaf).hash ≡ child = clone-hash leaf ∙ sendable.whole.named in
      record {
        source = leaf;
        held = rw named there;
        copy = refl;
        sendable = rw named sendable;
        kind = inr record {
          parent = current_leaf;
          parent_held = held;
          named = (IsSendable-lookup current current_leaf held).some_hash;
          linked = rw named linked;
          verified =
              (clone-verify_leaf codec leaf sendable.distinct_data sendable.distinct_proofs).0
              ∙ sendable.verified inner;
          proved = λ many.
              rw named (built_proof-some current current_leaf child proof held linked e many);
        };
      }

  -- The invariant of the traversal.
  record IsGood (t : Traversal) : Type 0 where
    pub sent : All (IsSent codec d) t.sequence
    pub root_visited : has_string d.root t.visited ≡ true

  All-append_one :
      (P : TransmissionPacket → Type 0) (packets : List TransmissionPacket) (p : TransmissionPacket)
      → All P packets
      → P p
      → All P (packets ++ p ∷ [])
  All-append_one P [] p h new = (new, tt)
  All-append_one P (first ∷ packets) p h new = (h.0, All-append_one P packets p h.1 new)

  send-IsGood :
      (current : Bytes) (current_leaf : DagLeaf) (child : Bytes) (found : Option DagLeaf)
      (proof : Option (Option ClassicTreeBranch)) (t : Traversal)
      → lookup current d.leafs ≡ some current_leaf
      → has_string child current_leaf.links ≡ true
      → lookup child d.leafs ≡ found
      → built_proof codec current_leaf child ≡ proof
      → has_string child t.visited ≡ false
      → IsGood t
      → IsGood (send d.leafs current child found proof t)
  unfolding send has_string
  send-IsGood current current_leaf child none proof t held linked there e new good = good
  send-IsGood current current_leaf child (some leaf) none t held linked there e new good = good
  send-IsGood current current_leaf child (some leaf) (some proof) t held linked there e new good =
      let inner : bytes_eq child d.root ≡ false = elim (Bool-cases (bytes_eq child d.root)) [
        | inr inner ↦ inner
        | inl root ↦
            let visited : has_string child t.visited ≡ true =
              ap (λ h. has_string h t.visited) (eq_of_bytes_eq child d.root root)
              ∙ good.root_visited in
            absurd (cc (sym new ∙ visited))
      ] in
      record {
        sent =
            All-append_one (IsSent codec d) t.sequence _ good.sent
              (packet-IsSent current current_leaf child leaf proof held linked there inner e);
        root_visited = rw (inner, good.root_visited) refl;
      }

  send_children-IsGood :
      (current : Bytes) (current_leaf : DagLeaf) (links : List Bytes) (t : Traversal)
      → lookup current d.leafs ≡ some current_leaf
      → All (λ child. has_string child current_leaf.links ≡ true) links
      → IsGood t
      → IsGood (send_children d.leafs (built_proof codec) current current_leaf links t)
  unfolding send_children
  send_children-IsGood current current_leaf [] t held linked good = good
  send_children-IsGood current current_leaf (child ∷ links) t held linked good =
      elim (Bool-cases (has_string child t.visited)) [
        | inl old ↦ rw old (send_children-IsGood current current_leaf links t held linked.1 good)
        | inr new ↦ rw new (
            send_children-IsGood current current_leaf links
              (send d.leafs current child (lookup child d.leafs)
                (built_proof codec current_leaf child) t)
              held linked.1
              (send-IsGood current current_leaf child (lookup child d.leafs)
                (built_proof codec current_leaf child) t held linked.0 refl refl new good))
      ]

  send_all-IsGood :
      (current : Bytes) (found : Option DagLeaf) (t : Traversal)
      → lookup current d.leafs ≡ found
      → IsGood t
      → IsGood (send_all d.leafs (built_proof codec) current found t)
  unfolding send_all
  send_all-IsGood current none t held good = good
  send_all-IsGood current (some current_leaf) t held good =
      send_children-IsGood current current_leaf (sort_strings current_leaf.links) t held
        (All-sort_strings (λ child. has_string child current_leaf.links ≡ true) current_leaf.links
          (All-has_string current_leaf.links))
        good

  traverse-IsGood :
      (fuel : ℕ) (queue : List Bytes) (t last : Traversal)
      → traverse d.leafs (built_proof codec) fuel queue t ≡ some last
      → IsGood t
      → IsGood last
  unfolding traverse
  traverse-IsGood zero [] t last e good = subst IsGood (cc e) good
  traverse-IsGood zero (current ∷ queue) t last e good = absurd (cc e)
  traverse-IsGood (suc fuel) [] t last e good = subst IsGood (cc e) good
  traverse-IsGood (suc fuel) (current ∷ queue) t last e good =
      let next =
        send_all d.leafs (built_proof codec) current (lookup current d.leafs) (pop queue t) in
      traverse-IsGood fuel next.queue next last e (
        send_all-IsGood current (lookup current d.leafs) (pop queue t) refl
          record { sent = good.sent; root_visited = good.root_visited })

  sequence_with-IsSent :
      (found : Option DagLeaf) (packets : List TransmissionPacket)
      → lookup d.root d.leafs ≡ found
      → sequence_with (built_proof codec) d found ≡ some packets
      → All (IsSent codec d) packets
  unfolding sequence_with begin has_string
  sequence_with-IsSent none packets held e =
      let same : [] ≡ packets = cc e in subst (All (IsSent codec d)) same tt
  sequence_with-IsSent (some root) packets held e =
      let sendable = IsSendable-lookup d.root root held in
      let named : (clone root).hash ≡ d.root = clone-hash root ∙ sendable.whole.named in
      let start = begin d.root root in
      let good : IsGood start = record {
        sent = (
          record {
            source = root;
            held = subst (λ h. lookup h d.leafs ≡ some root) (sym named) held;
            copy = refl;
            sendable = subst (λ h. IsSendable codec d.root h root) (sym named) sendable;
            kind = inl (bytes_eq_refl [], (bytes_eq_iff (clone root).hash d.root).1 named);
          },
          tt,
        );
        root_visited = rw (bytes_eq_refl d.root) refl;
      } in
      let run = traverse d.leafs (built_proof codec) (length d.leafs) (d.root ∷ []) start in
      elim (Option-cases run) [
        | inl none_left ↦ absurd (cc (rw none_left at e))
        | inr found ↦
            let last : Traversal = found.0 in
            let same : last.sequence ≡ packets = cc (rw found.1 at e) in
            subst (All (IsSent codec d)) same
              (traverse-IsGood (length d.leafs) (d.root ∷ []) start last found.1 good).sent
      ]

  -- Every packet that a full DAG sends.
  pub get_leaf_sequence-IsSent :
      (packets : List TransmissionPacket)
      → is_partial d ≡ false
      → get_leaf_sequence codec d ≡ some packets
      → All (IsSent codec d) packets
  unfolding get_leaf_sequence
  get_leaf_sequence-IsSent packets full e =
      sequence_with-IsSent (lookup d.root d.leafs) packets refl (rw full at e)
