-- ===== src/Tree/Index.antt =====
-- merkletree/merkletree.go and tree/tree.go: the binary search for a key, and the tree over links.
use scionic_merkle_tree_go.Common.{
  ℕ, ◌+◌, ◌^◌, ◌≤◌, ◌≡◌, refl, sym, ap, ◌∙◌, subst, true, false, Option, some, none, List, [], ◌∷◌,
  Bytes, length, get_elem?, if◌then◌else◌, bytes_eq, bytes_lt, ok, keys, insert, arith, inl, inr,
  Bool-cases, eq_of_bytes_eq, bytes_eq_iff, All, has_string, bytes_lt_irrefl,
}
use scionic_merkle_tree_go.Merkle.Defs.{verify, Proof}
use scionic_merkle_tree_go.Merkle.Tree.{MerkleTree, search_strings, get_index_for_key, verify_block}
use scionic_merkle_tree_go.Merkle.Verified.{new-verify, new-config, new-keys}
use scionic_merkle_tree_go.Tree.{add_leaf, add_links, build, create_tree, TreeContent}
use scionic_merkle_tree_go.Tree.Sets.{IsStrict, sort_strings-IsStrict, has_string-sort_strings}
use scionic_merkle_tree_go.Tree.Links.{
  add_links-IsDistinct, add_links-IsOwn, lookup-IsOwn, has_string-add_links,
}

-- In a strictly increasing list the search ends at the string, if it is there.
get_elem?-search_strings :
    (ks : List Bytes) (key : Bytes)
    → IsStrict ks
    → has_string key ks ≡ true
    → get_elem? ks (search_strings ks key) ≡ some key
unfolding search_strings has_string
get_elem?-search_strings [] key strict h = absurd (cc h)
get_elem?-search_strings (k ∷ ks) key strict h = elim (Bool-cases (bytes_lt k key)) [
  | inl below ↦ rw below (get_elem?-search_strings ks key strict.1 (later (not_equal below)))
  | inr above ↦ rw above (elim (Bool-cases (bytes_eq k key)) [
    | inl equal ↦ ap some (eq_of_bytes_eq k key equal)
    | inr differ ↦ absurd (cc (sym above ∙ All-at key ks strict.0 (later differ)))
  ])
]
  where
    later : bytes_eq k key ≡ false → has_string key ks ≡ true
    later differ = rw differ at h

    not_equal : bytes_lt k key ≡ true → bytes_eq k key ≡ false
    not_equal below = elim (Bool-cases (bytes_eq k key)) [
      | inl equal ↦
          absurd (cc (sym (rw (eq_of_bytes_eq k key equal) at below) ∙ bytes_lt_irrefl key))
      | inr differ ↦ differ
    ]

    All-at :
        (j : Bytes) (js : List Bytes)
        → All (λ i. bytes_lt k i ≡ true) js
        → has_string j js ≡ true
        → bytes_lt k j ≡ true
    All-at j [] all there = absurd (cc there)
    All-at j (i ∷ js) all there = elim (Bool-cases (bytes_eq i j)) [
      | inl equal ↦ rw (eq_of_bytes_eq i j equal) at all.0
      | inr differ ↦ All-at j js all.1 (rw differ at there)
    ]

index_found :
    (key : Bytes) (i : ℕ) (o : Option Bytes)
    → o ≡ some key
    → elim o as (λ _. Option ℕ) [ none ↦ none | some k ↦ if bytes_eq k key then some i else none ]
      ≡ some i
index_found key i none e = absurd (cc e)
index_found key i (some k) e = ground (arith, bytes_eq_iff k key)

-- Every key of a tree with strictly increasing keys has an index.
pub get_index_for_key-some :
    (t : MerkleTree) (key : Bytes)
    → IsStrict t.keys
    → has_string key t.keys ≡ true
    → get_index_for_key t key ≡ some (search_strings t.keys key)
unfolding get_index_for_key
get_index_for_key-some t key strict h =
    index_found key (search_strings t.keys key) (get_elem? t.keys (search_strings t.keys key))
      (get_elem?-search_strings t.keys key strict h)

length-add_leaf : (tc : TreeContent) (k : Bytes) → length (add_leaf tc k k) ≤ length tc + 1
unfolding add_leaf insert
length-add_leaf [] k = omega arith
length-add_leaf ((j, b) ∷ tc) k = ground (arith, length-add_leaf tc k)

length-add_links :
    (links : List Bytes) (tc : TreeContent) → length (add_links tc links) ≤ length tc + length links
unfolding add_links
length-add_links [] tc = omega arith
length-add_links (link ∷ links) tc =
    omega (arith, length-add_links links (add_leaf tc link link), length-add_leaf tc link)

-- In the tree over at most 2 ^ 32 links every link has an index, and the proof at that index verifies
-- the link against the root.
pub build-verify :
    (sha256 : Bytes → Bytes) (links : List Bytes) (t : MerkleTree) (link : Bytes)
    → build sha256 (add_links create_tree links) ≡ ok t
    → length links ≤ 2 ^ 32
    → has_string link links ≡ true
    → (i : ℕ) × (p : Proof) × (get_index_for_key t link ≡ some i)
      × (get_elem? t.proofs i ≡ some p)
      × (verify sha256 (some (ok link)) (some p) t.root none ≡ ok tt)
unfolding build verify_block verify has_string
build-verify sha256 links t link e few there =
    let tc = add_links create_tree links in
    let same_keys = new-keys sha256 none tc t refl e in
    let present : has_string link (keys tc) ≡ true =
      has_string-add_links link links create_tree ∙ there in
    let strict =
      subst IsStrict (sym same_keys)
        (sort_strings-IsStrict (keys tc) (add_links-IsDistinct links create_tree tt)) in
    let sorted : has_string link t.keys ≡ true =
      rw same_keys (has_string-sort_strings link (keys tc) ∙ present) in
    let index = get_index_for_key-some t link strict sorted in
    let own = lookup-IsOwn link tc (add_links-IsOwn links create_tree tt) present in
    let (p, stored, verified) =
      new-verify sha256 none tc t link (search_strings t.keys link) (ok link) refl
        (omega (arith, length-add_links links create_tree)) e index own in
    (
      search_strings t.keys link,
      p,
      index,
      stored,
      rw (new-config sha256 none tc t refl e) at verified,
    )
