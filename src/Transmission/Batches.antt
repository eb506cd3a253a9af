-- ===== src/Transmission/Batches.antt =====
-- dag/transmission.go: batches of leaves. The hashes of parents are taken to have the twelve bytes that
-- the warnings print, and the warnings are left out.
use scionic_merkle_tree_go.Common.{
  ℕ, zero, suc, ◌+◌, Bool, false, not, ◌&&◌, ◌||◌, Option, some, none, List, [], ◌∷◌, ◌++◌, map,
  Bytes, length, get_elem?, ltb, leb, ◌==◌, if◌then◌else◌, bytes_eq, Result, ok, err, GoMap, lookup,
  insert, sort_strings, ℤ, has_string,
}
use scionic_merkle_tree_go.Dag.Types.{ClassicTreeBranch, DagLeaf, Dag, to_ℕ, Codec}
use scionic_merkle_tree_go.Merkle.Tree.{MerkleTree, get_index_for_key}
use scionic_merkle_tree_go.Tree.{build, add_links, create_tree}
use scionic_merkle_tree_go.Dag.Clone.{clone, copy_map, estimate_size}
use scionic_merkle_tree_go.Dag.Iterate.{is_partial}
use scionic_merkle_tree_go.Dag.GetPartial.{with_proofs}
use scionic_merkle_tree_go.Transmission.{TransmissionPacket, get_leaf_sequence}
use mathlib.Core.Option

pub record BatchedTransmissionPacket : Type 0 where
  pub leaves : List DagLeaf
  -- From the hash of a leaf to that of its parent.
  pub relationships : GoMap Bytes
  pub packet_index : ℕ
  pub total_packets : ℕ

-- `createNewBatch`
abbrev pub create_new_batch : BatchedTransmissionPacket
create_new_batch = record { leaves = []; relationships = []; packet_index = 0; total_packets = 0 }

-- `len(childrenInThisBatch)`: a parent without a name is none.
unfoldable pub count_children : Bytes → GoMap Bytes → ℕ
count_children parent_hash [] = 0
count_children parent_hash ((child_hash, declared) ∷ relationships) =
    (if not (bytes_eq declared []) && bytes_eq declared parent_hash then 1 else 0)
    + count_children parent_hash relationships

-- The tree's proof of a link, where it has one.
abbrev pub branch_within : MerkleTree → Bytes → Option ℕ → Option ClassicTreeBranch
branch_within tree link_hash none = none
branch_within tree link_hash (some index) =
    Option.map (λ p. record { leaf = link_hash; proof = some p }) (get_elem? tree.proofs index)

abbrev pub put_branch :
    Bytes
    → Option ClassicTreeBranch
    → GoMap (Option ClassicTreeBranch)
    → GoMap (Option ClassicTreeBranch)
put_branch link_hash none proofs = proofs
put_branch link_hash (some branch) proofs = insert link_hash (some branch) proofs

-- `for _, linkHash := range sortedLinks`
unfoldable pub prove_links :
    MerkleTree → List Bytes → GoMap (Option ClassicTreeBranch) → GoMap (Option ClassicTreeBranch)
unfolding get_index_for_key insert
prove_links tree [] proofs = proofs
prove_links tree (link_hash ∷ links) proofs =
    prove_links tree links (
      put_branch link_hash (branch_within tree link_hash (get_index_for_key tree link_hash)) proofs)

abbrev pub prove_with : {E : Type 0} → List Bytes → DagLeaf → Result E MerkleTree → DagLeaf
prove_with sorted_links leaf (err e) = leaf
prove_with sorted_links leaf (ok tree) =
    with_proofs leaf (prove_links tree sorted_links leaf.proofs)

-- The body of the last loop of `finalizeBatch`, for the leaf that stands in the batch. Its two
-- warnings, of a partial parent without proofs and of a tree that is not built, print
-- `parentHash[:12]`: this models the runs in which the hash of a parent of several children has
-- twelve bytes, as a CID has, for otherwise a warning panics.
unfoldable pub finalize_parent : Codec → Bool → ℕ → Option DagLeaf → DagLeaf → DagLeaf
unfolding copy_map build add_links sort_strings prove_links with_proofs
finalize_parent codec partial children none leaf = leaf
finalize_parent codec partial children (some original) leaf =
    if leb original.current_link_count 1
    then leaf
    else if children == original.current_link_count
    then with_proofs leaf []
    else if partial
    then with_proofs leaf (copy_map (λ v. v) original.proofs leaf.proofs)
    else (let sorted_links = sort_strings original.links in
        prove_with sorted_links leaf (build codec.sha256 (add_links create_tree sorted_links)))

abbrev pub has_leaf : Bytes → List DagLeaf → Bool
has_leaf hash [] = false
has_leaf hash (leaf ∷ leaves) = bytes_eq leaf.hash hash || has_leaf hash leaves

-- The leaf that `batchLeaves` holds under a hash is the last one that has it.
unfoldable pub change_last : Bytes → (DagLeaf → DagLeaf) → List DagLeaf → List DagLeaf
change_last hash change [] = []
change_last hash change (leaf ∷ leaves) =
    let rest = change_last hash change leaves in
    if has_leaf hash leaves
    then leaf ∷ rest
    else if bytes_eq leaf.hash hash
    then change leaf ∷ leaves
    else leaf ∷ rest

-- `for parentHash := range parentsInBatch`
unfoldable pub finalize_parents :
    Codec → Dag → GoMap Bytes → List Bytes → List DagLeaf → List DagLeaf
unfolding finalize_parent change_last count_children lookup is_partial
finalize_parents codec d relationships [] leaves = leaves
finalize_parents codec d relationships (parent_hash ∷ parents) leaves =
    finalize_parents codec d relationships parents (
      change_last parent_hash
        (finalize_parent codec (is_partial d) (count_children parent_hash relationships)
          (lookup parent_hash d.leafs))
        leaves)

abbrev pub with_leaves : BatchedTransmissionPacket → List DagLeaf → BatchedTransmissionPacket
with_leaves batch leaves = record batch { leaves = leaves }

-- `finalizeBatch`
unfoldable pub finalize_batch :
    Codec → Dag → BatchedTransmissionPacket → List Bytes → BatchedTransmissionPacket
unfolding finalize_parents
finalize_batch codec d batch parents_in_batch =
    with_leaves batch (finalize_parents codec d batch.relationships parents_in_batch batch.leaves)

-- The variables of `GetBatchedLeafSequence`.
pub record Batching : Type 0 where
  pub batches : List BatchedTransmissionPacket
  pub current_batch : BatchedTransmissionPacket
  pub current_batch_size : ℕ
  pub parents_in_batch : List Bytes
  pub visited : List Bytes
  pub queue : List Bytes

-- `currentBatch.Leaves = append(…)` and the rest of what adds a child.
unfoldable pub put_child : Bytes → Bytes → DagLeaf → Batching → Batching
unfolding insert estimate_size
put_child current child_hash child_clone s = record {
  batches = s.batches;
  current_batch = record s.current_batch {
    leaves = s.current_batch.leaves ++ child_clone ∷ [];
    relationships = insert child_clone.hash current s.current_batch.relationships;
  };
  current_batch_size = s.current_batch_size + estimate_size (some child_clone);
  parents_in_batch = child_hash ∷ s.parents_in_batch;
  visited = child_hash ∷ s.visited;
  queue = s.queue ++ child_hash ∷ [];
}

abbrev pub pop_batching : List Bytes → Batching → Batching
pop_batching queue s = record s { queue = queue }

module _ (codec : Codec) (batch_size : ℕ) (d : Dag) where
  unfoldable pub close_batch : Batching → Batching
  unfolding finalize_batch
  close_batch s = record {
    batches = s.batches ++ finalize_batch codec d s.current_batch s.parents_in_batch ∷ [];
    current_batch = create_new_batch;
    current_batch_size = 0;
    parents_in_batch = [];
    visited = s.visited;
    queue = s.queue;
  }

  abbrev pub exceeds : DagLeaf → Batching → Bool
  exceeds child_clone s =
      ltb batch_size (s.current_batch_size + estimate_size (some child_clone))
      && ltb 0 (length s.current_batch.leaves)

  -- A child that has not been visited.
  unfoldable pub batch_child : Bytes → Bytes → Option DagLeaf → Batching → Batching
  unfolding close_batch put_child clone estimate_size
  batch_child current child_hash none s = s
  batch_child current child_hash (some child_leaf) s =
      let child_clone = clone child_leaf in
      put_child current child_hash child_clone (if exceeds child_clone s then close_batch s else s)

  -- `for _, childHash := range sortedChildren`
  unfoldable pub batch_children : Bytes → List Bytes → Batching → Batching
  unfolding batch_child has_string lookup
  batch_children current [] s = s
  batch_children current (child_hash ∷ links) s = batch_children current links (
      if has_string child_hash s.visited
      then s
      else batch_child current child_hash (lookup child_hash d.leafs) s)

  unfoldable pub batch_all : Bytes → Option DagLeaf → Batching → Batching
  unfolding batch_children sort_strings
  batch_all current none s = s
  batch_all current (some current_leaf) s =
      batch_children current (sort_strings current_leaf.links) s

  -- `for len(queue) > 0`, on fuel; the queue of the state is passed along with it.
  unfoldable pub batch_queue : ℕ → List Bytes → Batching → Option Batching
  unfolding batch_all lookup
  batch_queue zero [] s = some s
  batch_queue zero (current ∷ queue) s = none
  batch_queue (suc fuel) [] s = some s
  batch_queue (suc fuel) (current ∷ queue) s =
      let next = batch_all current (lookup current d.leafs) (pop_batching queue s) in
      batch_queue fuel next.queue next

  -- The last batch is never empty: each is closed only for a child that follows.
  unfoldable pub all_batches : Batching → List BatchedTransmissionPacket
  unfolding close_batch
  all_batches s =
      if ltb 0 (length s.current_batch.leaves) then (close_batch s).batches else s.batches

abbrev pub with_index : ℕ → ℕ → BatchedTransmissionPacket → BatchedTransmissionPacket
with_index i total batch = record batch { packet_index = i; total_packets = total }

-- The indices, from the first one, and the count.
unfoldable pub number_batches :
    ℕ → ℕ → List BatchedTransmissionPacket → List BatchedTransmissionPacket
number_batches i total [] = []
number_batches i total (batch ∷ batches) =
    with_index i total batch ∷ number_batches (i + 1) total batches

-- The root in the first batch.
unfoldable pub begin_batching : Bytes → DagLeaf → Batching
unfolding clone insert estimate_size
begin_batching root root_leaf = record {
  batches = [];
  current_batch = record create_new_batch {
    leaves = clone root_leaf ∷ [];
    relationships = ((clone root_leaf).hash, []) ∷ [];
  };
  current_batch_size = estimate_size (some (clone root_leaf));
  parents_in_batch = root ∷ [];
  visited = root ∷ [];
  queue = root ∷ [];
}

-- As many rounds as there are leaves: `none` would mean that they are not enough.
unfoldable pub batched_leaves :
    Codec → ℕ → Dag → Option DagLeaf → Option (List BatchedTransmissionPacket)
unfolding batch_queue all_batches begin_batching number_batches
batched_leaves codec batch_size d none = some []
batched_leaves codec batch_size d (some root_leaf) =
    Option.map
      (λ s.
        (let batches = all_batches codec batch_size d s in
          number_batches 0 (length batches) batches))
      (batch_queue codec batch_size d (length d.leafs) (d.root ∷ [])
        (begin_batching d.root root_leaf))

abbrev pub single : TransmissionPacket → BatchedTransmissionPacket
single packet = record {
  leaves = packet.leaf ∷ [];
  relationships = (packet.leaf.hash, packet.parent_hash) ∷ [];
  packet_index = 0;
  total_packets = 0;
}

-- `GetBatchedLeafSequence`: a batch size of 0 or less is one that is disabled.
unfoldable pub get_batched_leaf_sequence : Codec → ℤ → Dag → Option (List BatchedTransmissionPacket)
unfolding get_leaf_sequence batched_leaves number_batches lookup
get_batched_leaf_sequence codec batch_size d =
    if to_ℕ batch_size == 0
    then Option.map (λ packets. number_batches 0 (length packets) (map single packets))
        (get_leaf_sequence codec d)
    else batched_leaves codec (to_ℕ batch_size) d (lookup d.root d.leafs)
