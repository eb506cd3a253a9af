-- ===== src/Transmission/Bare.antt =====
-- dag/transmission.go: `finalizeBatch` sets the proofs of leaves and nothing else.
use scionic_merkle_tree_go.Common.{
  ℕ, suc, ◌+◌, ◌≤◌, ◌≡◌, refl, ap, ◌∙◌, Bool, Option, some, none, List, [], ◌∷◌, map, Bytes, length,
  leb, ◌==◌, bytes_eq, Result, ok, err, GoMap, lookup, sort_strings, arith, inl, inr, Bool-cases,
}
use scionic_merkle_tree_go.Dag.Types.{DagLeaf, Dag, Codec}
use scionic_merkle_tree_go.Dag.Clone.{estimate_size}
use scionic_merkle_tree_go.Dag.GetPartial.{with_proofs}
use scionic_merkle_tree_go.Merkle.Tree.{MerkleTree}
use scionic_merkle_tree_go.Tree.{build, add_links, create_tree}
use scionic_merkle_tree_go.Dag.Iterate.{is_partial}
use scionic_merkle_tree_go.Transmission.Batches.{
  prove_with, finalize_parent, has_leaf, change_last, finalize_parents, count_children,
}

-- A leaf without the proofs that `finalizeBatch` may set.
abbrev pub bare : DagLeaf → DagLeaf
bare leaf = record leaf { proofs = [] }

bare-prove_with :
    {E : Type 0} (links : List Bytes) (leaf : DagLeaf) (tree : Result E MerkleTree)
    → bare (prove_with links leaf tree) ≡ bare leaf
unfolding with_proofs
bare-prove_with links leaf (err e) = refl
bare-prove_with links leaf (ok tree) = refl

bare-finalize_parent :
    (codec : Codec) (partial : Bool) (n : ℕ) (original : Option DagLeaf) (leaf : DagLeaf)
    → bare (finalize_parent codec partial n original leaf) ≡ bare leaf
unfolding finalize_parent with_proofs
bare-finalize_parent codec partial n none leaf = refl
bare-finalize_parent codec partial n (some original) leaf =
    elim (Bool-cases (leb original.current_link_count 1)) [
      | inl few ↦ rw few refl
      | inr many ↦ elim (Bool-cases (n == original.current_link_count)) [
        | inl all ↦ rw (many, all) refl
        | inr missing ↦ elim (Bool-cases partial) [
          | inl pruned ↦ rw (many, missing, pruned) refl
          | inr full ↦
              let links = sort_strings original.links in
              rw (many, missing, full)
                (bare-prove_with links leaf (build codec.sha256 (add_links create_tree links)))
        ]
      ]
    ]

bare-change_last :
    (hash : Bytes) (change : DagLeaf → DagLeaf) (leaves : List DagLeaf)
    → ((leaf : DagLeaf) → bare (change leaf) ≡ bare leaf)
    → map bare (change_last hash change leaves) ≡ map bare leaves
unfolding change_last
bare-change_last hash change [] same = refl
bare-change_last hash change (leaf ∷ leaves) same =
    let rest = bare-change_last hash change leaves same in
    elim (Bool-cases (has_leaf hash leaves)) [
      | inl later ↦ rw later (ap (◌∷◌ (bare leaf)) rest)
      | inr last ↦ elim (Bool-cases (bytes_eq leaf.hash hash)) [
        | inl here ↦ rw (last, here) (ap (λ l. l ∷ map bare leaves) (same leaf))
        | inr other ↦ rw (last, other) (ap (◌∷◌ (bare leaf)) rest)
      ]
    ]

pub bare-finalize_parents :
    (codec : Codec) (d : Dag) (relationships : GoMap Bytes) (parents : List Bytes)
    (leaves : List DagLeaf)
    → map bare (finalize_parents codec d relationships parents leaves) ≡ map bare leaves
unfolding finalize_parents
bare-finalize_parents codec d relationships [] leaves = refl
bare-finalize_parents codec d relationships (parent ∷ parents) leaves =
    let change =
      finalize_parent codec (is_partial d) (count_children parent relationships)
        (lookup parent d.leafs) in
    bare-finalize_parents codec d relationships parents (change_last parent change leaves)
    ∙ bare-change_last parent change leaves (
        bare-finalize_parent codec (is_partial d) (count_children parent relationships)
          (lookup parent d.leafs))

-- What a list of leaves counts for without their proofs.
abbrev pub total_size : List DagLeaf → ℕ
total_size [] = 0
total_size (leaf ∷ leaves) = estimate_size (some (bare leaf)) + total_size leaves

pub estimate_size-bare :
    (leaf : DagLeaf) → estimate_size (some (bare leaf)) ≤ estimate_size (some leaf)
unfolding estimate_size
estimate_size-bare leaf = omega arith

pub total_size-map :
    (xs ys : List DagLeaf) → map bare xs ≡ map bare ys → total_size xs ≡ total_size ys
total_size-map [] [] e = refl
total_size-map [] (y ∷ ys) e = absurd (cc e)
total_size-map (x ∷ xs) [] e = absurd (cc e)
total_size-map (x ∷ xs) (y ∷ ys) e =
    let head : bare x ≡ bare y = cc e in
    let tail : map bare xs ≡ map bare ys = cc e in
    rw (total_size-map xs ys tail) (ap (λ l. estimate_size (some l) + total_size ys) head)

pub length-map-bare : (xs ys : List DagLeaf) → map bare xs ≡ map bare ys → length xs ≡ length ys
length-map-bare [] [] e = refl
length-map-bare [] (y ∷ ys) e = absurd (cc e)
length-map-bare (x ∷ xs) [] e = absurd (cc e)
length-map-bare (x ∷ xs) (y ∷ ys) e =
    let tail : map bare xs ≡ map bare ys = cc e in ap suc (length-map-bare xs ys tail)
