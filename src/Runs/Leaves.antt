-- ===== src/Runs/Leaves.antt =====
-- dag/leaves.go, dag/dag.go and dag/utils.go at a small leaf: the encoders keep a few of the fields
-- that they are given, and a CID is a checksum that is its own text.
use scionic_merkle_tree_go.Common.{
  ℕ, zero, suc, ◌≡◌, refl, sym, ◌∙◌, Option, some, none, List, [], ◌∷◌, ◌++◌, Bytes, if◌then◌else◌,
  bytes_eq, bytes_lt, ok, err, GoMap, sort_strings, arith, inl, inr, Bool-cases, ok-injective,
  eq_of_bytes_eq, ◌⊎◌, has_string,
}
use scionic_merkle_tree_go.Merkle.Defs.{hash_of}
use scionic_merkle_tree_go.Dag.Types.{
  LeafType, file_leaf_type, directory_leaf_type, ClassicTreeBranch, DagLeaf, DagLeafBuilder,
  LeafData, RootData, marshal_failed, Checked, Codec,
}
use scionic_merkle_tree_go.Runs.Trees.{checksum, two_links}
use scionic_merkle_tree_go.Dag.Leaf.{
  build_leaf, verify_leaf, verify_children_against_merkle_root, get_branch, verify_branch,
  leaf_data_of,
}
use scionic_merkle_tree_go.Dag.Size.{serialized_leaf_size}
use scionic_merkle_tree_go.Dag.Verified.{
  Collision, build_leaf-verify_leaf, verify_leaf-leaf_data_of,
}
use scionic_merkle_tree_go.Dag.Children.{build_leaf-verify_children_against_merkle_root}
use scionic_merkle_tree_go.Dag.Branch.{build_leaf-get_branch}
use scionic_merkle_tree_go.Dag.Clone.{clone}
use scionic_merkle_tree_go.Dag.Clone.Same.{clone-verify_leaf}

-- The encoder of leaves takes only files without links, content and additional data, and writes
-- their names: it gives different bytes for different structs.
file_name :
    LeafType
    → Option Bytes
    → ℕ
    → Option Bytes
    → Option (List (Bytes × Bytes))
    → Bytes
    → Checked Bytes
file_name t (some []) zero none (some []) name =
    if bytes_eq t file_leaf_type then ok name else err marshal_failed
file_name t root count content_hash pairs name = err marshal_failed

abbrev names_only : LeafData → Checked Bytes
names_only d =
    file_name d.leaf_type d.merkle_root d.current_link_count d.content_hash d.additional_data
      d.item_name

abbrev write_root : RootData → Checked Bytes
write_root d = ok (d.dag_size ∷ d.content_size ∷ d.leaf_count ∷ d.base.item_name)

abbrev codec_with : (LeafData → Checked Bytes) → Codec
codec_with marshal = record {
  marshal_leaf = marshal;
  marshal_root = write_root;
  marshal_sized = λ d. ok (d.item_name ++ d.hash);
  cid_sum = λ b. ok (checksum b);
  cid_string = λ c. c;
  cid_decode = λ s. ok s;
  sha256 = checksum;
}

abbrev pub sample : Codec
sample = codec_with (λ d. ok (d.item_name ++ d.leaf_type))

abbrev two_bytes : Bytes
two_bytes = 1 ∷ 2 ∷ []

abbrev pub builder : DagLeafBuilder
builder = record {
  item_name = 9 ∷ [];
  leaf_type = directory_leaf_type;
  leaf_bytes = some two_bytes;
  links = two_links;
}

abbrev pub more_data : Option (GoMap Bytes)
more_data = some ((8 ∷ [], 80 ∷ []) ∷ (6 ∷ [], 60 ∷ []) ∷ [])

abbrev empty_leaf : DagLeaf
empty_leaf = record {
  hash = [];
  item_name = [];
  leaf_type = [];
  content_hash = none;
  content = none;
  classic_merkle_root = none;
  current_link_count = 0;
  leaf_count = 0;
  content_size = 0;
  dag_size = 0;
  links = [];
  parent_hash = [];
  additional_data = none;
  merkle_tree = none;
  proofs = [];
}

abbrev pub leaf_in : Checked DagLeaf → DagLeaf
leaf_in (ok leaf) = leaf
leaf_in (err e) = empty_leaf

unfoldable pub built_leaf : DagLeaf
unfolding build_leaf checksum
built_leaf = leaf_in (build_leaf sample builder more_data)

build_leaf-verify_leaf_example : verify_leaf sample built_leaf ≡ ok tt
unfolding built_leaf build_leaf checksum bytes_lt bytes_eq hash_of
build_leaf-verify_leaf_example =
    build_leaf-verify_leaf sample builder more_data built_leaf (λ c. refl) refl

build_leaf-children_example : verify_children_against_merkle_root sample built_leaf ≡ ok tt
unfolding built_leaf build_leaf checksum bytes_lt bytes_eq hash_of
build_leaf-children_example =
    build_leaf-verify_children_against_merkle_root sample builder more_data built_leaf refl

build_leaf-get_branch_example :
    (branch : ClassicTreeBranch) × (get_branch built_leaf (5 ∷ []) ≡ ok (some branch))
    × (branch.leaf ≡ 5 ∷ [])
    × (verify_branch sample built_leaf branch ≡ ok tt)
unfolding built_leaf build_leaf checksum bytes_lt bytes_eq hash_of has_string
build_leaf-get_branch_example =
    build_leaf-get_branch sample builder more_data built_leaf (5 ∷ []) refl (omega arith)
      (omega arith) refl

clone-verify_leaf_example :
    (verify_leaf sample (clone built_leaf) ≡ verify_leaf sample built_leaf)
    × (verify_children_against_merkle_root sample (clone built_leaf)
        ≡ verify_children_against_merkle_root sample built_leaf)
    × (serialized_leaf_size sample (some (clone built_leaf))
        ≡ serialized_leaf_size sample (some built_leaf))
    × ((clone built_leaf).proofs ≡ built_leaf.proofs)
unfolding built_leaf build_leaf checksum bytes_lt bytes_eq hash_of has_string
clone-verify_leaf_example = clone-verify_leaf sample built_leaf (refl, (refl, tt)) tt

named : Bytes → DagLeaf
named name = record {
  hash = checksum name;
  item_name = name;
  leaf_type = file_leaf_type;
  content_hash = none;
  content = none;
  classic_merkle_root = some [];
  current_link_count = 0;
  leaf_count = 0;
  content_size = 0;
  dag_size = 0;
  links = [];
  parent_hash = [];
  additional_data = some [];
  merkle_tree = none;
  proofs = [];
}

-- What the encoder takes and gives for a name.
abbrev file_struct : Bytes → LeafData
file_struct name = record {
  item_name = name;
  leaf_type = file_leaf_type;
  merkle_root = some [];
  current_link_count = 0;
  content_hash = none;
  additional_data = some [];
}

file_name-struct :
    (t : LeafType) (root : Option Bytes) (count : ℕ) (content_hash : Option Bytes)
    (pairs : Option (List (Bytes × Bytes))) (name bytes : Bytes)
    → file_name t root count content_hash pairs name ≡ ok bytes
    → ◌≡◌ {A = LeafData}
        (record {
          item_name = name;
          leaf_type = t;
          merkle_root = root;
          current_link_count = count;
          content_hash = content_hash;
          additional_data = pairs;
        })
        (file_struct bytes)
unfolding file_name
file_name-struct t none count h pairs name bytes e = absurd (cc e)
file_name-struct t (some (x ∷ xs)) count h pairs name bytes e = absurd (cc e)
file_name-struct t (some []) (suc n) h pairs name bytes e = absurd (cc e)
file_name-struct t (some []) zero (some h) pairs name bytes e = absurd (cc e)
file_name-struct t (some []) zero none none name bytes e = absurd (cc e)
file_name-struct t (some []) zero none (some (p ∷ ps)) name bytes e = absurd (cc e)
file_name-struct t (some []) zero none (some []) name bytes e =
    elim (Bool-cases (bytes_eq t file_leaf_type)) [
      | inl file ↦ rw (eq_of_bytes_eq t file_leaf_type file, ok-injective (rw file at e)) refl
      | inr other ↦ absurd (cc (rw other at e))
    ]

names_only_injective :
    (d e : LeafData) (bytes : Bytes) → names_only d ≡ ok bytes → names_only e ≡ ok bytes → d ≡ e
names_only_injective d e bytes hd he =
    file_name-struct d.leaf_type d.merkle_root d.current_link_count d.content_hash d.additional_data
      d.item_name bytes hd
    ∙ sym (
        file_name-struct e.leaf_type e.merkle_root e.current_link_count e.content_hash
          e.additional_data e.item_name bytes he)

verify_leaf-leaf_data_of_example :
    (leaf_data_of (named (9 ∷ [])) ≡ leaf_data_of (named (9 ∷ [])))
    ⊎ Collision (λ b. ok (checksum b))
unfolding named verify_leaf file_name checksum bytes_lt bytes_eq sort_strings
verify_leaf-leaf_data_of_example =
    verify_leaf-leaf_data_of (codec_with names_only) (named (9 ∷ [])) (named (9 ∷ []))
      names_only_injective refl refl refl
