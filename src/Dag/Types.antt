-- ===== src/Dag/Types.antt =====
-- dag/types.go, and what the package uses of other code: the CBOR encoder, CIDs and SHA-256.
-- A Go `int` that counts or measures is a natural number; the statistics, whose sign is tested,
-- are integers. A slice or map that may be nil is an `Option`.
use scionic_merkle_tree_go.Common.{
  ℕ, ◌+◌, ◌-◌, Bool, true, false, Option, List, [], ◌∷◌, Bytes, GoMap, ℤ, pos, negsuc, ltb,
  if◌then◌else◌, Result, ◌≡◌,
}
use scionic_merkle_tree_go.Merkle.Defs.{MerkleError, Proof}
use scionic_merkle_tree_go.Merkle.Tree.{MerkleTree}

abbrev pub LeafType : Type 0
LeafType = Bytes

abbrev pub file_leaf_type : LeafType
file_leaf_type = b'f' ∷ b'i' ∷ b'l' ∷ b'e' ∷ []

abbrev pub chunk_leaf_type : LeafType
chunk_leaf_type = b'c' ∷ b'h' ∷ b'u' ∷ b'n' ∷ b'k' ∷ []

abbrev pub directory_leaf_type : LeafType
directory_leaf_type = b'd' ∷ b'i' ∷ b'r' ∷ b'e' ∷ b'c' ∷ b't' ∷ b'o' ∷ b'r' ∷ b'y' ∷ []

pub record ClassicTreeBranch : Type 0 where
  pub leaf : Bytes
  pub proof : Option Proof

-- `CurrentLinkCount` and the sizes are signed in Go: this models the leaves whose counts and sizes are
-- not negative, whoever sets them.
pub record DagLeaf : Type 0 where
  pub hash : Bytes
  pub item_name : Bytes
  pub leaf_type : LeafType
  pub content_hash : Option Bytes
  pub content : Option Bytes
  pub classic_merkle_root : Option Bytes
  pub current_link_count : ℕ
  pub leaf_count : ℕ
  pub content_size : ℕ
  pub dag_size : ℕ
  pub links : List Bytes
  pub parent_hash : Bytes
  pub additional_data : Option (GoMap Bytes)
  pub merkle_tree : Option MerkleTree
  pub proofs : GoMap (Option ClassicTreeBranch)

pub record Dag : Type 0 where
  pub root : Bytes
  pub leafs : GoMap DagLeaf
  pub labels : Option (GoMap Bytes)

pub record DagStats : Type 0 where
  pub leaf_count : ℤ
  pub content_size : ℤ
  pub dag_size : ℤ

-- `a + n`
unfoldable pub add_ℕ : ℤ → ℕ → ℤ
add_ℕ (pos a) n = pos (a + n)
add_ℕ (negsuc a) n = if ltb a n then pos (n - a - 1) else negsuc (a - n)

abbrev pub is_negative : ℤ → Bool
is_negative (pos n) = false
is_negative (negsuc n) = true

abbrev pub to_ℕ : ℤ → ℕ
to_ℕ (pos n) = n
to_ℕ (negsuc n) = 0

pub record DagBuilder : Type 0 where
  pub leafs : GoMap DagLeaf
  pub stats : DagStats

pub record DagLeafBuilder : Type 0 where
  pub item_name : Bytes
  pub leaf_type : LeafType
  pub leaf_bytes : Option Bytes
  pub links : List Bytes

-- The struct that a leaf's CID is the hash of. `none` is a nil slice.
pub record LeafData : Type 0 where
  pub item_name : Bytes
  pub leaf_type : LeafType
  pub merkle_root : Option Bytes
  pub current_link_count : ℕ
  pub content_hash : Option Bytes
  pub additional_data : Option (List (Bytes × Bytes))

-- The struct that a root leaf's CID is the hash of.
pub record RootData : Type 0 where
  pub base : LeafData
  pub leaf_count : ℕ
  pub content_size : ℕ
  pub dag_size : ℕ

-- The struct whose encoded length is a leaf's share of the root's DagSize.
pub record SizedData : Type 0 where
  pub hash : Bytes
  pub item_name : Bytes
  pub leaf_type : LeafType
  pub content_hash : Option Bytes
  pub content : Option Bytes
  pub classic_merkle_root : Option Bytes
  pub current_link_count : ℕ
  pub leaf_count : ℕ
  pub content_size : ℕ
  pub dag_size : ℕ
  pub links : Option (List Bytes)
  pub additional_data : GoMap Bytes

pub data DagError : Type 0 where
  leaf_without_type negative_statistics nil_leaf nil_builder : DagError
  marshal_failed cid_failed cid_decode_failed : DagError
  leaf_failed_to_verify content_without_hash content_hash_mismatch : DagError
  content_size_mismatch dag_size_mismatch : DagError
  merkle_tree_not_built no_index_for_hash missing_children merkle_root_mismatch : DagError
  merkle_error : MerkleError → DagError
  missing_child : Bytes → DagError
  callback_failed : DagError
  labels_not_calculated invalid_label bad_label_range label_not_found hash_not_found : DagError

abbrev pub Checked {ℓ} : Type ℓ → Type ℓ
Checked = Result DagError

-- Code of other packages: `cbor.Marshal` at the three structs, `cid.Prefix.Sum`, `Cid.String`,
-- `cid.Decode`, and SHA-256 of the Go library.
pub record Codec : Type 0 where
  pub marshal_leaf : LeafData → Checked Bytes
  pub marshal_root : RootData → Checked Bytes
  pub marshal_sized : SizedData → Checked Bytes
  pub cid_sum : Bytes → Checked Bytes
  pub cid_string : Bytes → Bytes
  pub cid_decode : Bytes → Checked Bytes
  pub sha256 : Bytes → Bytes

-- Every leaf stands under its hash.
abbrev pub IsKeyed : Bytes → DagLeaf → Type 0
IsKeyed k leaf = leaf.hash ≡ k
