-- ===== src/Transmission/Copies.antt =====
-- dag/transmission.go: what the leaves of a receiver have of the ones that were sent.
use scionic_merkle_tree_go.Common.{◌≡◌, refl, sym, subst, Option, some, none, Bytes, ok, lookup}
use scionic_merkle_tree_go.Dag.Types.{ClassicTreeBranch, DagLeaf, Dag, Codec}
use scionic_merkle_tree_go.Dag.Sorting.{or_empty}
use scionic_merkle_tree_go.Dag.Leaf.{verify_branch, leaf_data_of}
use scionic_merkle_tree_go.Dag.Root.{with_root_bytes}
use scionic_merkle_tree_go.Dag.Clone.{clone}
use scionic_merkle_tree_go.Dag.Clone.Same.{plain, clone-plain, leaf_data_of-plain}
use scionic_merkle_tree_go.Transmission.{put_proof}
use scionic_merkle_tree_go.Transmission.Sent.{IsSendable}

-- A received leaf: it has the hash, the hashed data, the content and the links of its source, and
-- the same Merkle root up to the difference between nil and empty.
pub record IsReceived (d : Dag) (k : Bytes) (leaf : DagLeaf) : Type 0 where
  pub source : DagLeaf
  pub held : lookup k d.leafs ≡ some source
  pub named : leaf.hash ≡ k
  pub hashed : leaf_data_of leaf ≡ leaf_data_of source
  pub content : leaf.content ≡ source.content
  pub links : leaf.links ≡ source.links
  pub root : or_empty leaf.classic_merkle_root ≡ or_empty source.classic_merkle_root

pub clone-IsReceived :
    (codec : Codec) (d : Dag) (k : Bytes) (source : DagLeaf)
    → lookup k d.leafs ≡ some source
    → IsSendable codec d.root k source
    → IsReceived d k (clone source)
unfolding plain
clone-IsReceived codec d k source held sendable =
    subst (IsReceived d k)
      (sym (clone-plain source sendable.distinct_data sendable.distinct_proofs))
      record {
        source = source;
        held = held;
        named = sendable.whole.named;
        hashed = leaf_data_of-plain source;
        content = refl;
        links = refl;
        root = refl;
      }

pub with_root_bytes-IsReceived :
    (d : Dag) (k : Bytes) (leaf : DagLeaf)
    → IsReceived d k leaf
    → IsReceived d k (with_root_bytes leaf)
unfolding with_root_bytes leaf_data_of
with_root_bytes-IsReceived d k leaf received = record {
  source = received.source;
  held = received.held;
  named = received.named;
  hashed = received.hashed;
  content = received.content;
  links = received.links;
  root = received.root;
}

pub put_proof-IsReceived :
    (d : Dag) (k hash : Bytes) (proof : Option (Option ClassicTreeBranch)) (parent : DagLeaf)
    → IsReceived d k parent
    → IsReceived d k (put_proof hash proof parent)
unfolding put_proof leaf_data_of
put_proof-IsReceived d k hash none parent received = received
put_proof-IsReceived d k hash (some proof) parent received = record {
  source = received.source;
  held = received.held;
  named = received.named;
  hashed = received.hashed;
  content = received.content;
  links = received.links;
  root = received.root;
}

pub some_same : {A : Type 0} (o : Option A) (a b : A) → o ≡ some a → o ≡ some b → a ≡ b
some_same o a b e f = cc

-- The proof of a child is accepted by the received parent as by the sender's.
pub verify_branch-IsReceived :
    (codec : Codec) (d : Dag) (k : Bytes) (parent received : DagLeaf) (branch : ClassicTreeBranch)
    → or_empty received.classic_merkle_root ≡ or_empty parent.classic_merkle_root
    → verify_branch codec parent branch ≡ ok tt
    → verify_branch codec received branch ≡ ok tt
unfolding verify_branch
verify_branch-IsReceived codec d k parent received branch root accepted = rw root accepted
