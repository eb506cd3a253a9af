-- ===== src/Serialize/Passes.antt =====
-- dag/serialize.go: the passes of `FromSerializable` over the leaves of a serialized DAG.
use scionic_merkle_tree_go.Common.{
  ◌≡◌, refl, sym, ap, ◌∙◌, true, false, Option, some, none, [], Bytes, if◌then◌else◌, bytes_eq,
  lookup, inl, inr, Bool-cases, Entries,
}
use scionic_merkle_tree_go.Dag.Types.{DagLeaf, Dag, Codec}
use scionic_merkle_tree_go.Dag.Sorting.{or_empty}
use scionic_merkle_tree_go.Dag.Leaf.{verify_leaf, leaf_data_of}
use scionic_merkle_tree_go.Dag.Root.{verify_root_leaf, with_root_bytes, root_data_of}
use scionic_merkle_tree_go.Dag.Parents.{children_of, minimum_parent_index, build_parent_index}
use scionic_merkle_tree_go.Serialize.{
  leafs_to_serializable, to_serializable, first_pass, has_missing_links, second_pass, with_parent,
  from_serializable,
}
use scionic_merkle_tree_go.Serialize.RoundTrip.{IsRestored, HasSizes}
use scionic_merkle_tree_go.Serialize.Kept.{
  AllKept, lookup-AllKept, has_missing_links-AllKept, children_of-AllKept, HasDistinctProofs,
  first_pass-AllKept, HasOwnRoot, second_pass-AllKept, lookup-third_pass,
}

-- The leaf that the last pass leaves, of which only the parent is new.
pub record IsBack (codec : Codec) (root k : Bytes) (old new : DagLeaf) (parent : Option Bytes)
    : Type 0 where
  pub restored : IsRestored old new
  pub sizes : bytes_eq k root ≡ true → HasSizes old new
  pub parent_hash : new.parent_hash ≡ or_empty parent
  pub as_leaf : verify_leaf codec new ≡ verify_leaf codec old
  pub as_root :
      bytes_eq k root ≡ true
      → (verify_root_leaf codec new none).1 ≡ (verify_root_leaf codec old none).1

with_parent-IsKept :
    (old new : DagLeaf) (parent : Option Bytes)
    → new.parent_hash ≡ []
    → IsRestored old new
    → IsRestored old (with_parent new parent)
      × HasSizes new (with_parent new parent)
      × ((with_parent new parent).parent_hash ≡ or_empty parent)
unfolding with_parent leaf_data_of
with_parent-IsKept old new none no_parent kept = (kept, (refl, refl, refl), no_parent)
with_parent-IsKept old new (some parent) no_parent kept = (
  record {
    hash = kept.hash;
    hashed = kept.hashed;
    content_hash = kept.content_hash;
    content = kept.content;
    link_count = kept.link_count;
    links = kept.links;
    proofs = kept.proofs;
    root = kept.root;
  },
  (refl, refl, refl),
  refl,
)

verify_leaf-IsRestored :
    (codec : Codec) (old new : DagLeaf)
    → IsRestored old new
    → verify_leaf codec new ≡ verify_leaf codec old
unfolding verify_leaf
verify_leaf-IsRestored codec old new kept =
    rw (kept.hashed, kept.hash, kept.content, kept.content_hash) refl

with_root : (leaf : DagLeaf) → leaf_data_of (with_root_bytes leaf) ≡ leaf_data_of leaf
unfolding leaf_data_of with_root_bytes
with_root leaf = refl

root_data_of-IsRestored :
    (old new : DagLeaf)
    → IsRestored old new
    → HasSizes old new
    → root_data_of (with_root_bytes new) new.dag_size
      ≡ root_data_of (with_root_bytes old) old.dag_size
unfolding root_data_of with_root_bytes
root_data_of-IsRestored old new kept sizes =
    let same : leaf_data_of (with_root_bytes new) ≡ leaf_data_of (with_root_bytes old) =
      with_root new ∙ kept.hashed ∙ sym (with_root old) in
    λ i. record {
      base = same i;
      leaf_count = sizes.0 i;
      content_size = sizes.1 i;
      dag_size = sizes.2 i;
    }

verify_root_leaf-IsRestored :
    (codec : Codec) (old new : DagLeaf)
    → IsRestored old new
    → HasSizes old new
    → (verify_root_leaf codec new none).1 ≡ (verify_root_leaf codec old none).1
unfolding verify_root_leaf
verify_root_leaf-IsRestored codec old new kept sizes =
    rw (root_data_of-IsRestored old new kept sizes, kept.hash, kept.content, kept.content_hash) refl

-- A DAG that goes through its serializable form and back has under each hash a leaf with the same
-- hash, hashed data, content, links, proofs and Merkle root; `VerifyLeaf` passes or fails as before,
-- and so does `VerifyRootLeaf` without a DAG at the root, which keeps its sizes. Of the sizes of the
-- other leaves, on which `VerifyRootLeaf` in the DAG depends too, nothing is said. The parent of a
-- leaf is the one that `buildParentIndex` gives for the original DAG. Where no leaf misses links, those with several are to
-- have the Merkle root over them; no leaf has two proofs under one hash.
pub from_serializable-to_serializable :
    (codec : Codec) (d : Dag) (k : Bytes) (old : DagLeaf)
    → Entries HasDistinctProofs d.leafs
    → (has_missing_links d.leafs ≡ false → Entries (HasOwnRoot codec) d.leafs)
    → lookup k d.leafs ≡ some old
    → (new : DagLeaf) × (lookup k (from_serializable codec (to_serializable d)).leafs ≡ some new)
      × IsBack codec d.root k old new (lookup k (build_parent_index d))
unfolding from_serializable to_serializable build_parent_index
from_serializable-to_serializable codec d k old distinct own held =
    let created = first_pass d.root (leafs_to_serializable d.leafs) in
    let kept = first_pass-AllKept d.root d.leafs distinct in
    let missing = has_missing_links-AllKept d.root d.leafs created kept in
    let leafs = if has_missing_links created then created else second_pass codec created in
    let all : AllKept d.root d.leafs leafs = elim (Bool-cases (has_missing_links d.leafs)) [
      | inl partial ↦ rw (missing, partial) kept
      | inr full ↦
          rw (missing, full) (second_pass-AllKept codec d.root d.leafs created (own full) kept)
    ] in
    let index : minimum_parent_index (children_of leafs [])
        ≡ minimum_parent_index (children_of d.leafs []) =
      ap minimum_parent_index (children_of-AllKept d.root d.leafs leafs [] all) in
    let (before, there, was) = lookup-AllKept d.root k d.leafs leafs old all held in
    let parent = lookup k (minimum_parent_index (children_of d.leafs [])) in
    let last = with_parent-IsKept old before parent was.no_parent was.restored in
    let sizes : bytes_eq k d.root ≡ true → HasSizes old (with_parent before parent) = λ e.
      let first = was.sizes e in (last.1.0 ∙ first.0, last.1.1 ∙ first.1, last.1.2 ∙ first.2) in
    (
      with_parent before parent,
      lookup-third_pass (minimum_parent_index (children_of leafs [])) leafs k before there
          ∙ ap (λ m. some (with_parent before (lookup k m))) index,
      record {
        restored = last.0;
        sizes = sizes;
        parent_hash = last.2;
        as_leaf = verify_leaf-IsRestored codec old (with_parent before parent) last.0;
        as_root =
            λ e. verify_root_leaf-IsRestored codec old (with_parent before parent) last.0 (sizes e);
      },
    )
