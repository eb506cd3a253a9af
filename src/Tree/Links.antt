-- ===== src/Tree/Links.antt =====
-- tree/tree.go: the tree over a list of links depends on which strings the list holds only.
use scionic_merkle_tree_go.Common.{
  ◌≡◌, refl, sym, ap, ◌∙◌, true, false, some, none, List, [], ◌∷◌, map, Bytes, if◌then◌else◌,
  bytes_eq, ok, keys, lookup, insert, sort_strings, arith, inl, inr, Bool-cases, eq_of_bytes_eq,
  bytes_eq_iff, All, has_string, All-has_string, All-sort_strings,
}
use scionic_merkle_tree_go.Merkle.Tree.{new, blocks_of}
use scionic_merkle_tree_go.Tree.{add_leaf, add_links, build, create_tree, TreeContent}
use scionic_merkle_tree_go.Tree.Sets.{
  IsDistinct, IsStrict, SameStrings, IsStrict-unique, sort_strings-IsStrict,
  has_string-sort_strings,
}

-- Each block is the text of its own key.
abbrev pub IsOwn : TreeContent → Type 0
IsOwn [] = Unit {0}
IsOwn ((k, block) ∷ tc) = (block ≡ ok k) × IsOwn tc

has_string-add_leaf :
    (j k : Bytes) (tc : TreeContent)
    → has_string j (keys (add_leaf tc k k))
      ≡ (if bytes_eq k j then true else has_string j (keys tc))
unfolding add_leaf has_string insert
has_string-add_leaf j k [] = refl
has_string-add_leaf j k ((i, b) ∷ tc) =
    ground (arith, bytes_eq_iff i k, bytes_eq_iff i j, bytes_eq_iff k j, has_string-add_leaf j k tc)

add_leaf-IsDistinct :
    (k : Bytes) (tc : TreeContent) → IsDistinct (keys tc) → IsDistinct (keys (add_leaf tc k k))
unfolding add_leaf insert has_string
add_leaf-IsDistinct k [] h = (refl, tt)
add_leaf-IsDistinct k ((i, b) ∷ tc) h = elim (Bool-cases (bytes_eq i k)) [
  | inl equal ↦ rw equal h
  | inr other ↦ rw other (new_key other, add_leaf-IsDistinct k tc h.1)
]
  where
    new_key : bytes_eq i k ≡ false → has_string i (keys (add_leaf tc k k)) ≡ false
    new_key other =
        ground (arith, bytes_eq_iff i k, bytes_eq_iff k i, has_string-add_leaf i k tc, h.0)

add_leaf-IsOwn : (k : Bytes) (tc : TreeContent) → IsOwn tc → IsOwn (add_leaf tc k k)
unfolding add_leaf insert
add_leaf-IsOwn k [] h = (refl, tt)
add_leaf-IsOwn k ((i, b) ∷ tc) h = elim (Bool-cases (bytes_eq i k)) [
  | inl equal ↦ rw equal (rw (eq_of_bytes_eq i k equal) refl, h.1)
  | inr other ↦ rw other (h.0, add_leaf-IsOwn k tc h.1)
]

pub has_string-add_links :
    (j : Bytes) (links : List Bytes) (tc : TreeContent)
    → has_string j (keys (add_links tc links))
      ≡ (if has_string j (keys tc) then true else has_string j links)
unfolding add_links has_string
has_string-add_links j [] tc = ground arith
has_string-add_links j (link ∷ links) tc =
    ground
      (arith, has_string-add_links j links (add_leaf tc link link), has_string-add_leaf j link tc)

pub add_links-IsDistinct :
    (links : List Bytes) (tc : TreeContent)
    → IsDistinct (keys tc)
    → IsDistinct (keys (add_links tc links))
unfolding add_links
add_links-IsDistinct [] tc h = h
add_links-IsDistinct (link ∷ links) tc h =
    add_links-IsDistinct links (add_leaf tc link link) (add_leaf-IsDistinct link tc h)

pub add_links-IsOwn :
    (links : List Bytes) (tc : TreeContent) → IsOwn tc → IsOwn (add_links tc links)
unfolding add_links
add_links-IsOwn [] tc h = h
add_links-IsOwn (link ∷ links) tc h =
    add_links-IsOwn links (add_leaf tc link link) (add_leaf-IsOwn link tc h)

pub lookup-IsOwn :
    (k : Bytes) (tc : TreeContent)
    → IsOwn tc
    → has_string k (keys tc) ≡ true
    → lookup k tc ≡ some (ok k)
unfolding lookup has_string
lookup-IsOwn k [] own h = absurd (cc h)
lookup-IsOwn k ((j, b) ∷ tc) own h = elim (Bool-cases (bytes_eq j k)) [
  | inl equal ↦ rw (equal, own.0, eq_of_bytes_eq j k equal) refl
  | inr other ↦ rw other (lookup-IsOwn k tc own.1 (rw other at h))
]

blocks_of-IsOwn :
    (ks : List Bytes) (tc : TreeContent)
    → IsOwn tc
    → All (λ k. has_string k (keys tc) ≡ true) ks
    → blocks_of ks tc ≡ map ok ks
unfolding blocks_of
blocks_of-IsOwn [] tc own all = refl
blocks_of-IsOwn (k ∷ ks) tc own all =
    rw (lookup-IsOwn k tc own all.0, blocks_of-IsOwn ks tc own all.1) refl

new-cong :
    (sha256 : Bytes → Bytes) (xs ys : TreeContent)
    → sort_strings (keys xs) ≡ sort_strings (keys ys)
    → blocks_of (sort_strings (keys xs)) xs ≡ blocks_of (sort_strings (keys ys)) ys
    → new sha256 none xs ≡ new sha256 none ys
unfolding new
new-cong sha256 xs ys same_keys same_blocks = rw (same_blocks, same_keys) refl

-- The tree over a list of links, and with it the Merkle root, depends only on which strings the
-- list holds: neither their order nor a repetition matters.
pub build-SameStrings :
    (sha256 : Bytes → Bytes) (xs ys : List Bytes)
    → SameStrings xs ys
    → build sha256 (add_links create_tree xs) ≡ build sha256 (add_links create_tree ys)
unfolding build has_string
build-SameStrings sha256 xs ys same =
    new-cong sha256 (tree xs) (tree ys) same_keys
      (blocks xs ∙ ap (map ok) same_keys ∙ sym (blocks ys))
  where
    tree : List Bytes → TreeContent
    tree links = add_links create_tree links

    sorted : List Bytes → List Bytes
    sorted links = sort_strings (keys (tree links))

    has : (k : Bytes) (links : List Bytes) → has_string k (sorted links) ≡ has_string k links
    has k links =
        has_string-sort_strings k (keys (tree links)) ∙ has_string-add_links k links create_tree

    strict : (links : List Bytes) → IsStrict (sorted links)
    strict links =
        sort_strings-IsStrict (keys (tree links)) (add_links-IsDistinct links create_tree tt)

    same_keys : sorted xs ≡ sorted ys
    same_keys =
        IsStrict-unique (sorted xs) (sorted ys) (strict xs) (strict ys)
          (λ k. has k xs ∙ same k ∙ sym (has k ys))

    blocks : (links : List Bytes) → blocks_of (sorted links) (tree links) ≡ map ok (sorted links)
    blocks links =
        blocks_of-IsOwn (sorted links) (tree links) (add_links-IsOwn links create_tree tt) (
          All-sort_strings (λ k. has_string k (keys (tree links)) ≡ true) (keys (tree links))
            (All-has_string (keys (tree links))))
