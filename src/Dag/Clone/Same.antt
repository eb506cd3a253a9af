-- ===== src/Dag/Clone/Same.antt =====
-- dag/leaves.go: a clone holds what its original holds.
use mathlib.Core.List.{append-nil}
use scionic_merkle_tree_go.Dag.Size.{sized_data, serialized_leaf_size}
use scionic_merkle_tree_go.Common.{
  ◌≡◌, refl, sym, ap, ◌∙◌, true, false, Option, some, none, List, [], ◌∷◌, ◌++◌, Bytes,
  if◌then◌else◌, bytes_eq, GoMap, keys, insert, sort_strings, arith, inl, inr, Bool-cases,
  bytes_eq_iff, has_string,
}
use scionic_merkle_tree_go.Dag.Types.{ClassicTreeBranch, DagLeaf, Codec}
use scionic_merkle_tree_go.Tree.Sets.{IsDistinct}
use scionic_merkle_tree_go.Merkle.Defs.{Proof}
use scionic_merkle_tree_go.Dag.Leaf.{
  verify_rebuilt_root, verify_children_against_merkle_root, verify_leaf, leaf_data_of,
}
use scionic_merkle_tree_go.Dag.Sorting.{sort_map_by_keys}
use scionic_merkle_tree_go.Dag.Clone.{
  copied, clone_bytes, clone_siblings, clone_proof, clone_branch, copy_map, entries, clone,
}

copied_same : (src : Bytes) → copied src ≡ src
unfolding copied
copied_same [] = refl
copied_same (x ∷ xs) = ap (◌∷◌ x) (copied_same xs)

pub clone_bytes_same : (src : Option Bytes) → clone_bytes src ≡ src
unfolding clone_bytes
clone_bytes_same none = refl
clone_bytes_same (some src) = ap some (copied_same src)

clone_siblings_same : (siblings : List Bytes) → clone_siblings siblings ≡ siblings
unfolding clone_siblings
clone_siblings_same [] = refl
clone_siblings_same (s ∷ ss) = rw (copied_same s, clone_siblings_same ss) refl

pub clone_branch_same : (branch : Option ClassicTreeBranch) → clone_branch branch ≡ branch
unfolding clone_branch clone_proof
clone_branch_same none = refl
clone_branch_same (some branch) =
    ap (λ (p : Option Proof). some (record { leaf = branch.leaf; proof = p })) (same branch.proof)
  where
    same : (p : Option Proof) → clone_proof p ≡ p
    same none = refl
    same (some p) =
        ap (λ (s : List Bytes). some (record { siblings = s; path = p.path }))
          (clone_siblings_same p.siblings)

-- No key of the second map is in the first.
abbrev Apart {ℓ} : {V : Type ℓ} → GoMap V → GoMap V → Type 0
Apart acc [] = Unit {0}
Apart acc ((k, v) ∷ m) = (has_string k (keys acc) ≡ false) × Apart acc m

module _ {ℓ} {V : Type ℓ} where
  insert_new :
      (k : Bytes) (v : V) (m : GoMap V)
      → has_string k (keys m) ≡ false
      → insert k v m ≡ m ++ (k, v) ∷ []
  unfolding insert has_string
  insert_new k v [] h = refl
  insert_new k v ((j, w) ∷ m) h = elim (Bool-cases (bytes_eq j k)) [
    | inl equal ↦ absurd (cc (rw equal at h))
    | inr other ↦ rw (other, insert_new k v m (rw other at h)) refl
  ]

  has_string-append :
      (j k : Bytes) (v : V) (acc : GoMap V)
      → has_string j (keys (acc ++ (k, v) ∷ []))
        ≡ (if has_string j (keys acc) then true else bytes_eq k j)
  unfolding has_string
  has_string-append j k v [] = ground arith
  has_string-append j k v ((i, w) ∷ acc) = ground (arith, has_string-append j k v acc)

  Apart-append :
      (k : Bytes) (v : V) (acc m : GoMap V)
      → has_string k (keys m) ≡ false
      → Apart acc m
      → Apart (acc ++ (k, v) ∷ []) m
  unfolding has_string
  Apart-append k v acc [] h apart = tt
  Apart-append k v acc ((j, w) ∷ m) h apart = (
    ground (arith, has_string-append j k v acc, bytes_eq_iff j k, bytes_eq_iff k j, h, apart.0),
    Apart-append k v acc m (ground arith) apart.1,
  )

  append_one : (xs : GoMap V) (x : Bytes × V) (ys : GoMap V) → (xs ++ x ∷ []) ++ ys ≡ xs ++ x ∷ ys
  append_one [] x ys = refl
  append_one (y ∷ xs) x ys = ap (◌∷◌ y) (append_one xs x ys)

  copy_map_onto :
      (f : V → V)
      → ((v : V) → f v ≡ v)
      → (m acc : GoMap V) → IsDistinct (keys m)
      → Apart acc m
      → copy_map f m acc ≡ acc ++ m
  unfolding copy_map
  copy_map_onto f same [] acc h apart = sym (append-nil acc)
  copy_map_onto f same ((k, v) ∷ m) acc h apart =
      rw (same v, insert_new k v acc apart.0)
        (copy_map_onto f same m (acc ++ (k, v) ∷ []) h.1 (Apart-append k v acc m h.0 apart.1)
          ∙ append_one acc (k, v) m)

  Apart-nil : (m : GoMap V) → Apart [] m
  unfolding has_string
  Apart-nil [] = tt
  Apart-nil ((k, v) ∷ m) = (refl, Apart-nil m)

  pub copy_map_same :
      (f : V → V) → ((v : V) → f v ≡ v) → (m : GoMap V) → IsDistinct (keys m) → copy_map f m [] ≡ m
  copy_map_same f same m h = copy_map_onto f same m [] h (Apart-nil m)

unfoldable pub plain : DagLeaf → DagLeaf
plain leaf = record {
  hash = leaf.hash;
  item_name = leaf.item_name;
  leaf_type = leaf.leaf_type;
  content_hash = leaf.content_hash;
  content = leaf.content;
  classic_merkle_root = leaf.classic_merkle_root;
  current_link_count = leaf.current_link_count;
  leaf_count = leaf.leaf_count;
  content_size = leaf.content_size;
  dag_size = leaf.dag_size;
  links = leaf.links;
  parent_hash = leaf.parent_hash;
  additional_data = some (entries leaf.additional_data);
  merkle_tree = none;
  proofs = leaf.proofs;
}

pub clone-plain :
    (leaf : DagLeaf)
    → IsDistinct (keys (entries leaf.additional_data))
    → IsDistinct (keys leaf.proofs)
    → clone leaf ≡ plain leaf
unfolding clone plain
clone-plain leaf h k =
    rw
      (
        clone_bytes_same leaf.content_hash,
        clone_bytes_same leaf.classic_merkle_root,
        copy_map_same (λ v. v) (λ v. refl) (entries leaf.additional_data) h,
        copy_map_same clone_branch clone_branch_same leaf.proofs k,
      )
      refl

sort_map_by_keys-entries :
    (m : Option (GoMap Bytes)) → sort_map_by_keys (some (entries m)) ≡ sort_map_by_keys m
unfolding sort_map_by_keys sort_strings
sort_map_by_keys-entries none = refl
sort_map_by_keys-entries (some m) = refl

pub leaf_data_of-plain : (leaf : DagLeaf) → leaf_data_of (plain leaf) ≡ leaf_data_of leaf
unfolding leaf_data_of plain
leaf_data_of-plain leaf = rw (sort_map_by_keys-entries leaf.additional_data) refl

sized_data-plain : (leaf : DagLeaf) → sized_data (plain leaf) ≡ sized_data leaf
unfolding sized_data plain
sized_data-plain leaf = rw (sort_map_by_keys-entries leaf.additional_data) refl

-- A clone passes or fails `VerifyLeaf` and `VerifyChildrenAgainstMerkleRoot` as its original does,
-- has the same serialized size, and holds the same proofs. The keys of a map are distinct.
pub clone-verify_leaf :
    (codec : Codec) (leaf : DagLeaf)
    → IsDistinct (keys (entries leaf.additional_data))
    → IsDistinct (keys leaf.proofs)
    → (verify_leaf codec (clone leaf) ≡ verify_leaf codec leaf)
      × (verify_children_against_merkle_root codec (clone leaf)
          ≡ verify_children_against_merkle_root codec leaf)
      × (serialized_leaf_size codec (some (clone leaf)) ≡ serialized_leaf_size codec (some leaf))
      × ((clone leaf).proofs ≡ leaf.proofs)
unfolding plain verify_leaf verify_children_against_merkle_root verify_rebuilt_root
    serialized_leaf_size
clone-verify_leaf codec leaf h k =
    rw (clone-plain leaf h k) (same_leaf, same_children, same_size, refl)
  where
    same_leaf : verify_leaf codec (plain leaf) ≡ verify_leaf codec leaf
    same_leaf = rw (leaf_data_of-plain leaf) refl

    same_children :
        verify_children_against_merkle_root codec (plain leaf)
        ≡ verify_children_against_merkle_root codec leaf
    same_children = refl

    same_size :
        serialized_leaf_size codec (some (plain leaf)) ≡ serialized_leaf_size codec (some leaf)
    same_size = rw (sized_data-plain leaf) refl
