-- ===== src/Runs/Trees.antt =====
-- merkletree/merkletree.go and tree/tree.go at small inputs; the hash of bytes is a checksum.
use scionic_merkle_tree_go.Common.{
  ◌+◌, ◌*◌, ◌%◌, ◌≡◌, refl, some, none, List, [], ◌∷◌, ◌++◌, Bytes, length, get_or, get_elem?,
  bytes_eq, bytes_lt, Result, ok, err, GoMap, lookup, arith, ◌⊎◌, has_string,
}
use scionic_merkle_tree_go.Merkle.Binding.{Collides, verify-binding}
use scionic_merkle_tree_go.Merkle.Defs.{
  MerkleError, DataBlock, concat_func, hash_of, zero_config, Proof, verify,
}
use scionic_merkle_tree_go.Merkle.Tree.{MerkleTree, new, get_index_for_key, verify_block}
use scionic_merkle_tree_go.Merkle.Verified.{new-verify}
use scionic_merkle_tree_go.Merkle.Total.{new-Succeeds, Succeeds}
use scionic_merkle_tree_go.Tree.{build, add_links, create_tree}
use scionic_merkle_tree_go.Tree.Links.{build-SameStrings}

unfoldable pub checksum : Bytes → Bytes
checksum [] = 7 ∷ []
checksum (b ∷ bs) = (b * 3 + get_or (checksum bs) 0 0) % 251 ∷ []

abbrev three_blocks : GoMap DataBlock
three_blocks = (2 ∷ [], ok (20 ∷ [])) ∷ (1 ∷ [], ok (10 ∷ 11 ∷ [])) ∷ (3 ∷ [], ok []) ∷ []

abbrev no_tree : MerkleTree
no_tree = record {
  config = zero_config;
  leaf_map = [];
  nodes = [];
  root = [];
  leaves = [];
  proofs = [];
  depth = 0;
  num_leaves = 0;
  keys = [];
}

abbrev pub tree_of : Result MerkleError MerkleTree → MerkleTree
tree_of (ok t) = t
tree_of (err e) = no_tree

three_tree : MerkleTree
unfolding new checksum
three_tree = tree_of (new checksum none three_blocks)

new-verify_example :
    (p : Proof) × (get_elem? three_tree.proofs 1 ≡ some p)
    × (verify_block checksum three_tree (some (ok (20 ∷ []))) (some p) ≡ ok tt)
unfolding three_tree new checksum get_index_for_key lookup bytes_lt bytes_eq hash_of
new-verify_example =
    new-verify checksum none three_blocks three_tree (2 ∷ []) 1 (ok (20 ∷ [])) refl (omega arith)
      refl refl refl

new-Succeeds_example : Succeeds (new checksum none three_blocks)
unfolding hash_of
new-Succeeds_example =
    new-Succeeds checksum none three_blocks refl (λ b. (checksum b, refl))
      ((_, refl), ((_, refl), ((_, refl), tt))) (omega arith)

abbrev pub two_links : List Bytes
two_links = (5 ∷ []) ∷ (4 ∷ 1 ∷ []) ∷ []

abbrev other_links : List Bytes
other_links = (4 ∷ 1 ∷ []) ∷ (5 ∷ []) ∷ (4 ∷ 1 ∷ []) ∷ []

build-SameStrings_example :
    build checksum (add_links create_tree two_links)
    ≡ build checksum (add_links create_tree other_links)
unfolding has_string
build-SameStrings_example = build-SameStrings checksum two_links other_links same
  where
    same : (k : Bytes) → has_string k two_links ≡ has_string k other_links
    same k = ground arith

pub links_tree : MerkleTree
unfolding build checksum
links_tree = tree_of (build checksum (add_links create_tree two_links))

abbrev one_sibling : Proof
one_sibling = record { siblings = (1 ∷ []) ∷ []; path = 1 }

-- The checksum has a collision, so two blocks verify against one root.
verify-binding_example : (◌≡◌ {A = Bytes} (20 ∷ []) (20 ∷ 0 ∷ [])) ⊎ Collides checksum
unfolding verify checksum hash_of concat_func bytes_eq
verify-binding_example =
    verify-binding checksum 1 one_byte (20 ∷ []) (20 ∷ 0 ∷ [])
      (checksum (checksum (20 ∷ []) ++ 1 ∷ [])) one_sibling one_sibling refl refl refl refl
  where
    one_byte : (b : Bytes) → length (checksum b) ≡ 1
    one_byte [] = refl
    one_byte (x ∷ xs) = refl
