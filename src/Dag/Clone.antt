-- ===== src/Dag/Clone.antt =====
-- dag/leaves.go: `Clone` and what it calls, and `EstimateSize`. Values are copied in this model, so
-- it says which fields a clone keeps, and not which memory it shares.
pub mod Same
use mathlib.Core.List.{append-nil}
use scionic_merkle_tree_go.Dag.Size.{sized_data, serialized_leaf_size}
use scionic_merkle_tree_go.Common.{
  ℕ, ◌+◌, ◌*◌, ◌≡◌, refl, sym, ap, ◌∙◌, Bool, true, false, Option, some, none, List, [], ◌∷◌, ◌++◌,
  Bytes, length, if◌then◌else◌, bytes_eq, GoMap, keys, insert, sort_strings, arith, inl, inr,
  Bool-cases, bytes_eq_iff, has_string,
}
use scionic_merkle_tree_go.Dag.Types.{ClassicTreeBranch, DagLeaf, Codec}
use scionic_merkle_tree_go.Tree.Sets.{IsDistinct}
use scionic_merkle_tree_go.Merkle.Defs.{Proof}
use scionic_merkle_tree_go.Dag.Leaf.{
  verify_rebuilt_root, verify_children_against_merkle_root, verify_leaf, leaf_data_of,
}
use scionic_merkle_tree_go.Dag.Sorting.{sort_map_by_keys}

-- `copy(out, src)` into a slice of the same length
unfoldable copied : Bytes → Bytes
copied [] = []
copied (x ∷ xs) = x ∷ copied xs

unfoldable pub clone_bytes : Option Bytes → Option Bytes
unfolding copied
clone_bytes none = none
clone_bytes (some src) = some (copied src)

-- The loop over the siblings, none of which is nil.
unfoldable clone_siblings : List Bytes → List Bytes
unfolding copied
clone_siblings [] = []
clone_siblings (sibling ∷ siblings) = copied sibling ∷ clone_siblings siblings

unfoldable clone_proof : Option Proof → Option Proof
unfolding clone_siblings
clone_proof none = none
clone_proof (some p) = some (record { siblings = clone_siblings p.siblings; path = p.path })

unfoldable pub clone_branch : Option ClassicTreeBranch → Option ClassicTreeBranch
unfolding clone_proof
clone_branch none = none
clone_branch (some src) = some (record { leaf = src.leaf; proof = clone_proof src.proof })

-- `for k, v := range m { cloned[k] = f(v) }`
unfoldable pub copy_map {ℓ} : {V : Type ℓ} → (V → V) → GoMap V → GoMap V → GoMap V
unfolding insert
copy_map f [] cloned = cloned
copy_map f ((k, v) ∷ m) cloned = copy_map f m (insert k (f v) cloned)

abbrev pub entries : Option (GoMap Bytes) → GoMap Bytes
entries none = []
entries (some m) = m

-- `Clone`
unfoldable pub clone : DagLeaf → DagLeaf
unfolding clone_bytes clone_branch copy_map
clone leaf = record {
  hash = leaf.hash;
  item_name = leaf.item_name;
  leaf_type = leaf.leaf_type;
  content_hash = clone_bytes leaf.content_hash;
  content = leaf.content;
  classic_merkle_root = clone_bytes leaf.classic_merkle_root;
  current_link_count = leaf.current_link_count;
  leaf_count = leaf.leaf_count;
  content_size = leaf.content_size;
  dag_size = leaf.dag_size;
  links = leaf.links;
  parent_hash = leaf.parent_hash;
  additional_data = some (copy_map (λ v. v) (entries leaf.additional_data) []);
  merkle_tree = none;
  proofs = copy_map clone_branch leaf.proofs [];
}

abbrev optional_length : Option Bytes → ℕ
optional_length none = 0
optional_length (some bytes) = length bytes

unfoldable data_lengths : GoMap Bytes → ℕ
data_lengths [] = 0
data_lengths ((k, v) ∷ m) = length k + length v + data_lengths m

abbrev has_proof : Option ClassicTreeBranch → Bool
has_proof none = false
has_proof (some branch) = elim branch.proof [ none ↦ false | some _ ↦ true ]

unfoldable proof_lengths : GoMap (Option ClassicTreeBranch) → ℕ
proof_lengths [] = 0
proof_lengths ((k, branch) ∷ m) = (if has_proof branch then 10 * 32 else 0) + proof_lengths m

-- `EstimateSize`
unfoldable pub estimate_size : Option DagLeaf → ℕ
unfolding data_lengths proof_lengths
estimate_size none = 0
estimate_size (some leaf) =
    length leaf.hash
    + length leaf.item_name
    + length leaf.leaf_type
    + optional_length leaf.content
    + optional_length leaf.content_hash
    + optional_length leaf.classic_merkle_root
    + length leaf.links * 64
    + data_lengths (entries leaf.additional_data)
    + proof_lengths leaf.proofs
    + 32
    + 100
