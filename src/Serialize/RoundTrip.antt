-- ===== src/Serialize/RoundTrip.antt =====
-- dag/serialize.go: a DAG that goes through its serializable form.
use scionic_merkle_tree_go.Common.{
  ◌<◌, ◌≡◌, refl, sym, ap, ◌∙◌, subst, true, Option, some, Bytes, length, ltb, bytes_eq, ok, GoMap,
  keys, inl, inr, Bool-cases, ltb→lt,
}
use scionic_merkle_tree_go.Dag.Types.{DagLeaf, LeafData, Codec}
use scionic_merkle_tree_go.Merkle.Tree.{MerkleTree}
use scionic_merkle_tree_go.Tree.{build, add_links, create_tree}
use scionic_merkle_tree_go.Tree.Sets.{IsDistinct}
use scionic_merkle_tree_go.Dag.Sorting.{or_empty, sort_map_by_keys, sort_map_by_keys_again}
use scionic_merkle_tree_go.Dag.Leaf.{leaf_data_of}
use scionic_merkle_tree_go.Dag.Builder.{rebuild, with_tree}
use scionic_merkle_tree_go.Dag.Clone.Same.{copy_map_same}
use scionic_merkle_tree_go.Dag.Proofs.{HasRoot}
use scionic_merkle_tree_go.Serialize.{
  copy_entries, copy_optional, leaf_to_serializable, leaf_of_packet, without_sizes, leaf_of_dag,
}

-- What a leaf keeps: its hash, the data under it, its content, links, proofs and Merkle root.
pub record IsRestored (old new : DagLeaf) : Type 0 where
  pub hash : new.hash ≡ old.hash
  pub hashed : leaf_data_of new ≡ leaf_data_of old
  pub content_hash : new.content_hash ≡ old.content_hash
  pub content : new.content ≡ old.content
  pub link_count : new.current_link_count ≡ old.current_link_count
  pub links : new.links ≡ old.links
  pub proofs : new.proofs ≡ old.proofs
  pub root : new.classic_merkle_root ≡ old.classic_merkle_root

copy_entries_same : {A : Type 0} (m : GoMap A) → IsDistinct (keys m) → copy_entries m ≡ m
unfolding copy_entries
copy_entries_same m h = copy_map_same (λ v. v) (λ v. refl) m h

pub copied_twice :
    {A : Type 0} (m : GoMap A) → IsDistinct (keys m) → copy_optional (some (copy_entries m)) ≡ m
unfolding copy_optional
copied_twice m h = ap copy_entries (copy_entries_same m h) ∙ copy_entries_same m h

sorted_thrice :
    (m : Option (GoMap Bytes))
    → sort_map_by_keys (some (sort_map_by_keys (some (sort_map_by_keys m)))) ≡ sort_map_by_keys m
sorted_thrice m = sort_map_by_keys_again (some (sort_map_by_keys m)) ∙ sort_map_by_keys_again m

pub leaf_of_packet-IsRestored :
    (leaf : DagLeaf)
    → IsDistinct (keys leaf.proofs)
    → IsRestored leaf (leaf_of_packet (leaf_to_serializable leaf))
unfolding leaf_of_packet leaf_to_serializable leaf_data_of
leaf_of_packet-IsRestored leaf h = record {
  hash = refl;
  hashed = rw (sorted_thrice leaf.additional_data) refl;
  content_hash = refl;
  content = refl;
  link_count = refl;
  links = refl;
  proofs = copied_twice leaf.proofs h;
  root = refl;
}

without_sizes-IsRestored :
    (old new : DagLeaf) → IsRestored old new → IsRestored old (without_sizes new)
unfolding without_sizes leaf_data_of
without_sizes-IsRestored old new kept = record {
  hash = kept.hash;
  hashed = kept.hashed;
  content_hash = kept.content_hash;
  content = kept.content;
  link_count = kept.link_count;
  links = kept.links;
  proofs = kept.proofs;
  root = kept.root;
}

-- The sizes that only a root keeps.
abbrev pub HasSizes : DagLeaf → DagLeaf → Type 0
HasSizes old new =
    (new.leaf_count ≡ old.leaf_count)
    × (new.content_size ≡ old.content_size)
    × (new.dag_size ≡ old.dag_size)

pub leaf_of_packet-HasSizes :
    (leaf : DagLeaf) → HasSizes leaf (leaf_of_packet (leaf_to_serializable leaf))
unfolding leaf_of_packet leaf_to_serializable
leaf_of_packet-HasSizes leaf = (refl, refl, refl)

pub leaf_of_dag-IsRestored :
    (root k : Bytes) (leaf : DagLeaf)
    → IsDistinct (keys leaf.proofs)
    → IsRestored leaf (leaf_of_dag root k (leaf_to_serializable leaf))
      × (bytes_eq k root ≡ true → HasSizes leaf (leaf_of_dag root k (leaf_to_serializable leaf)))
unfolding leaf_of_dag
leaf_of_dag-IsRestored root k leaf h =
    let kept = leaf_of_packet-IsRestored leaf h in
    elim (Bool-cases (bytes_eq k root)) [
      | inl is_root ↦ rw is_root (kept, λ _. leaf_of_packet-HasSizes leaf)
      | inr inner ↦ rw inner (
        without_sizes-IsRestored leaf (leaf_of_packet (leaf_to_serializable leaf)) kept,
        λ e. absurd (cc e),
      )
    ]

-- A rebuilt Merkle tree leaves the root as it was, where the leaf had the root of its links.
pub rebuild-IsRestored :
    (codec : Codec) (old new : DagLeaf)
    → (1 < length old.links → HasRoot codec old)
    → IsRestored old new
    → IsRestored old (rebuild codec new) × HasSizes new (rebuild codec new)
unfolding rebuild with_tree leaf_data_of
rebuild-IsRestored codec old new own kept = elim (Bool-cases (ltb 1 (length new.links))) [
  | inr few ↦ rw few (kept, (refl, refl, refl))
  | inl many ↦
      let root = own (subst (λ l. 1 < length l) kept.links (ltb→lt 1 (length new.links) many)) in
      let built : build codec.sha256 (add_links create_tree new.links) ≡ ok root.tree =
        ap (λ l. build codec.sha256 (add_links create_tree l)) kept.links ∙ root.built in
      rw (many, built)
        (
          record {
            hash = kept.hash;
            hashed = rebuilt_hashed root.tree root.root;
            content_hash = kept.content_hash;
            content = kept.content;
            link_count = kept.link_count;
            links = kept.links;
            proofs = kept.proofs;
            root = sym root.root;
          },
          (refl, refl, refl),
        )
]
  where
    rebuilt_hashed :
        (tree : MerkleTree)
        → old.classic_merkle_root ≡ some tree.root
        → leaf_data_of (with_tree new tree) ≡ leaf_data_of old
    rebuilt_hashed tree e =
        ap (λ (x : LeafData). record x { merkle_root = some tree.root }) kept.hashed
        ∙ ap (λ (r : Option Bytes). record (leaf_data_of old) { merkle_root = some (or_empty r) })
            (sym e)
