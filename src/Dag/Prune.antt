-- ===== src/Dag/Prune.antt =====
-- dag/dag.go: `pruneIrrelevantLinks`.
use scionic_merkle_tree_go.Common.{
  ◌≡◌, refl, ap, Bool, true, false, ◌&&◌, Option, some, none, List, [], ◌∷◌, Bytes, if◌then◌else◌,
  bytes_eq, GoMap, lookup, inl, inr, Bool-cases, eq_of_bytes_eq, has_string,
}
use scionic_merkle_tree_go.Dag.Types.{DagLeaf, Codec}
use scionic_merkle_tree_go.Dag.Leaf.{verify_leaf, leaf_data_of}

abbrev or_false : Option Bool → Bool
or_false none = false
or_false (some b) = b

-- `relevantHashes[hash]`, which is false where the map has no entry.
unfoldable pub is_relevant : GoMap Bool → Bytes → Bool
unfolding lookup
is_relevant relevant hash = or_false (lookup hash relevant)

unfoldable pub kept_links : GoMap Bool → List Bytes → List Bytes
unfolding is_relevant
kept_links relevant [] = []
kept_links relevant (hash ∷ links) =
    if is_relevant relevant hash
    then hash ∷ kept_links relevant links
    else kept_links relevant links

unfoldable pub prune_leaf : GoMap Bool → DagLeaf → DagLeaf
unfolding kept_links
prune_leaf relevant leaf = record {
  hash = leaf.hash;
  item_name = leaf.item_name;
  leaf_type = leaf.leaf_type;
  content_hash = leaf.content_hash;
  content = leaf.content;
  classic_merkle_root = leaf.classic_merkle_root;
  current_link_count = leaf.current_link_count;
  leaf_count = leaf.leaf_count;
  content_size = leaf.content_size;
  dag_size = leaf.dag_size;
  links = kept_links relevant leaf.links;
  parent_hash = leaf.parent_hash;
  additional_data = leaf.additional_data;
  merkle_tree = leaf.merkle_tree;
  proofs = leaf.proofs;
}

-- `pruneIrrelevantLinks`
unfoldable pub prune_irrelevant_links : GoMap Bool → GoMap DagLeaf → GoMap DagLeaf
unfolding prune_leaf
prune_irrelevant_links relevant [] = []
prune_irrelevant_links relevant ((k, leaf) ∷ leafs) =
    (k, prune_leaf relevant leaf) ∷ prune_irrelevant_links relevant leafs

has_string-kept_links :
    (relevant : GoMap Bool) (links : List Bytes) (l : Bytes)
    → has_string l (kept_links relevant links) ≡ (has_string l links && is_relevant relevant l)
unfolding has_string kept_links
has_string-kept_links relevant [] l = refl
has_string-kept_links relevant (hash ∷ links) l = elim (Bool-cases (bytes_eq hash l)) [
  | inl equal ↦
      let same : hash ≡ l = eq_of_bytes_eq hash l equal in
      elim (Bool-cases (is_relevant relevant hash)) [
        | inl keep ↦
            let keep_l : is_relevant relevant l ≡ true = rw same at keep in
            rw (keep, equal, keep_l) refl
        | inr skip ↦
            let skip_l : is_relevant relevant l ≡ false = rw same at skip in
            rw (skip, equal, has_string-kept_links relevant links l, skip_l)
              (no_more (has_string l links))
      ]
  | inr differ ↦ elim (Bool-cases (is_relevant relevant hash)) [
    | inl keep ↦ rw (keep, differ, has_string-kept_links relevant links l) refl
    | inr skip ↦ rw (skip, differ, has_string-kept_links relevant links l) refl
  ]
]
  where
    no_more : (b : Bool) → (b && false) ≡ false
    no_more true = refl
    no_more false = refl

verify_leaf-prune_leaf :
    (codec : Codec) (relevant : GoMap Bool) (leaf : DagLeaf)
    → verify_leaf codec (prune_leaf relevant leaf) ≡ verify_leaf codec leaf
unfolding verify_leaf prune_leaf leaf_data_of
verify_leaf-prune_leaf codec relevant leaf = refl

lookup-prune_irrelevant_links :
    (relevant : GoMap Bool) (leafs : GoMap DagLeaf) (k : Bytes) (leaf : DagLeaf)
    → lookup k leafs ≡ some leaf
    → lookup k (prune_irrelevant_links relevant leafs) ≡ some (prune_leaf relevant leaf)
unfolding lookup prune_irrelevant_links
lookup-prune_irrelevant_links relevant [] k leaf e = absurd (cc e)
lookup-prune_irrelevant_links relevant ((j, other) ∷ leafs) k leaf e =
    elim (Bool-cases (bytes_eq j k)) [
      | inl equal ↦ rw equal (
          ap
            (λ (o : Option DagLeaf). elim o as (λ _. Option DagLeaf) [
              | none ↦ none
              | some x ↦ some (prune_leaf relevant x)
            ])
            (rw equal at e))
      | inr differ ↦
          rw differ (lookup-prune_irrelevant_links relevant leafs k leaf (rw differ at e))
    ]

-- Pruning keeps every leaf under its hash, passing or failing `VerifyLeaf` as before, and leaves it
-- exactly those of its links that are relevant.
pub prune_irrelevant_links-verify_leaf :
    (codec : Codec) (relevant : GoMap Bool) (leafs : GoMap DagLeaf) (k : Bytes) (leaf : DagLeaf)
    → lookup k leafs ≡ some leaf
    → (pruned : DagLeaf) × (lookup k (prune_irrelevant_links relevant leafs) ≡ some pruned)
      × (verify_leaf codec pruned ≡ verify_leaf codec leaf)
      × ((l : Bytes)
          → has_string l pruned.links ≡ (has_string l leaf.links && is_relevant relevant l))
unfolding prune_leaf
prune_irrelevant_links-verify_leaf codec relevant leafs k leaf e = (
  prune_leaf relevant leaf,
  lookup-prune_irrelevant_links relevant leafs k leaf e,
  verify_leaf-prune_leaf codec relevant leaf,
  has_string-kept_links relevant leaf.links,
)
