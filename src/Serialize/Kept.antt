-- ===== src/Serialize/Kept.antt =====
-- dag/serialize.go: what each pass of `FromSerializable` keeps of the leaves.
use scionic_merkle_tree_go.Common.{
  ◌<◌, ◌≡◌, refl, sym, ap, ◌∙◌, subst, true, false, some, List, [], ◌∷◌, Bytes, length, ltb,
  if◌then◌else◌, bytes_eq, Result, ok, err, GoMap, keys, lookup, insert, inl, inr, Bool-cases,
  eq_of_bytes_eq, ◌⊎◌, Entries,
}
use scionic_merkle_tree_go.Dag.Types.{DagLeaf, Codec}
use scionic_merkle_tree_go.Tree.Sets.{IsDistinct}
use scionic_merkle_tree_go.Tree.{build, add_links, create_tree}
use scionic_merkle_tree_go.Dag.Builder.{rebuild, with_tree}
use scionic_merkle_tree_go.Dag.Parents.{children_of}
use scionic_merkle_tree_go.Dag.Proofs.{HasRoot}
use scionic_merkle_tree_go.Serialize.{
  SerializableDagLeaf, leaf_to_serializable, leafs_to_serializable, leaf_of_packet, leaf_of_dag,
  without_sizes, first_pass, has_missing_links, second_pass, with_parent, third_pass,
}
use scionic_merkle_tree_go.Serialize.RoundTrip.{
  IsRestored, HasSizes, leaf_of_dag-IsRestored, rebuild-IsRestored,
}

-- Before the last pass a leaf is restored, the root with its sizes, and has no parent.
pub record IsKept (root k : Bytes) (old new : DagLeaf) : Type 0 where
  pub restored : IsRestored old new
  pub sizes : bytes_eq k root ≡ true → HasSizes old new
  pub no_parent : new.parent_hash ≡ []

-- Two maps with the same keys in the same order, whose leaves correspond.
abbrev pub AllKept : Bytes → GoMap DagLeaf → GoMap DagLeaf → Type 0
AllKept root [] [] = Unit {0}
AllKept root [] (e ∷ news) = ⊥
AllKept root (e ∷ olds) [] = ⊥
AllKept root ((k, old) ∷ olds) ((j, new) ∷ news) =
    (k ≡ j) × IsKept root k old new × AllKept root olds news

pub lookup-AllKept :
    (root k : Bytes) (olds news : GoMap DagLeaf) (old : DagLeaf)
    → AllKept root olds news
    → lookup k olds ≡ some old
    → (new : DagLeaf) × (lookup k news ≡ some new) × IsKept root k old new
unfolding lookup
lookup-AllKept root k [] news old h e = absurd (cc e)
lookup-AllKept root k (first ∷ olds) [] old h e = absurd h
lookup-AllKept root k ((i, a) ∷ olds) ((j, b) ∷ news) old h e = elim (Bool-cases (bytes_eq i k)) [
  | inl same ↦
      let value : a ≡ old = cc (rw same at e) in
      let key : i ≡ k = eq_of_bytes_eq i k same in
      let there : bytes_eq j k ≡ true = ap (λ x. bytes_eq x k) (sym h.0) ∙ same in
      rw there
        (b, refl, subst (λ x. IsKept root x old b) key (subst (λ x. IsKept root i x b) value h.1))
  | inr differ ↦
      let other : bytes_eq j k ≡ false = ap (λ x. bytes_eq x k) (sym h.0) ∙ differ in
      rw other (lookup-AllKept root k olds news old h.2 (rw differ at e))
]

pub has_missing_links-AllKept :
    (root : Bytes) (olds news : GoMap DagLeaf)
    → AllKept root olds news
    → has_missing_links news ≡ has_missing_links olds
unfolding has_missing_links
has_missing_links-AllKept root [] [] h = refl
has_missing_links-AllKept root [] (e ∷ news) h = absurd h
has_missing_links-AllKept root (e ∷ olds) [] h = absurd h
has_missing_links-AllKept root ((k, old) ∷ olds) ((j, new) ∷ news) h =
    rw
      (
        ap length h.1.restored.links,
        h.1.restored.link_count,
        has_missing_links-AllKept root olds news h.2,
      )
      refl

pub children_of-AllKept :
    (root : Bytes) (olds news : GoMap DagLeaf) (children : GoMap (List Bytes))
    → AllKept root olds news
    → children_of news children ≡ children_of olds children
unfolding children_of
children_of-AllKept root [] [] children h = refl
children_of-AllKept root [] (e ∷ news) children h = absurd h
children_of-AllKept root (e ∷ olds) [] children h = absurd h
children_of-AllKept root ((k, old) ∷ olds) ((j, new) ∷ news) children h =
    rw (h.1.restored.hash, h.1.restored.links)
      (children_of-AllKept root olds news
        (if ltb 0 (length old.links) then insert old.hash old.links children else children) h.2)

leaf_of_dag-no_parent :
    (root k : Bytes) (s : SerializableDagLeaf) → (leaf_of_dag root k s).parent_hash ≡ []
unfolding leaf_of_dag leaf_of_packet without_sizes
leaf_of_dag-no_parent root k s = elim (Bool-cases (bytes_eq k root)) [
  | inl same ↦ rw same refl
  | inr other ↦ rw other refl
]

-- No leaf has two proofs under one hash.
abbrev pub HasDistinctProofs : Bytes → DagLeaf → Type 0
HasDistinctProofs k leaf = IsDistinct (keys leaf.proofs)

pub first_pass-AllKept :
    (root : Bytes) (leafs : GoMap DagLeaf)
    → Entries HasDistinctProofs leafs
    → AllKept root leafs (first_pass root (leafs_to_serializable leafs))
unfolding first_pass leafs_to_serializable
first_pass-AllKept root [] h = tt
first_pass-AllKept root ((k, leaf) ∷ leafs) h =
    let kept = leaf_of_dag-IsRestored root k leaf h.0 in
    (
      refl,
      record {
        restored = kept.0;
        sizes = kept.1;
        no_parent = leaf_of_dag-no_parent root k (leaf_to_serializable leaf);
      },
      first_pass-AllKept root leafs h.1,
    )

Result-cases : {E A : Type 0} (r : Result E A) → ((e : E) × (r ≡ err e)) ⊎ ((a : A) × (r ≡ ok a))
Result-cases (err e) = inl (e, refl)
Result-cases (ok a) = inr (a, refl)

rebuild-no_parent :
    (codec : Codec) (leaf : DagLeaf) → (rebuild codec leaf).parent_hash ≡ leaf.parent_hash
unfolding rebuild with_tree
rebuild-no_parent codec leaf = elim (Bool-cases (ltb 1 (length leaf.links))) [
  | inr few ↦ rw few refl
  | inl many ↦
      rw many (elim (Result-cases (build codec.sha256 (add_links create_tree leaf.links))) [
        | inl failed ↦ rw failed.1 refl
        | inr built ↦ rw built.1 refl
      ])
]

-- A leaf with several links has the Merkle root over them.
abbrev pub HasOwnRoot : Codec → Bytes → DagLeaf → Type 0
HasOwnRoot codec k leaf = 1 < length leaf.links → HasRoot codec leaf

pub second_pass-AllKept :
    (codec : Codec) (root : Bytes) (olds news : GoMap DagLeaf)
    → Entries (HasOwnRoot codec) olds
    → AllKept root olds news
    → AllKept root olds (second_pass codec news)
unfolding second_pass
second_pass-AllKept codec root [] [] own h = tt
second_pass-AllKept codec root [] (e ∷ news) own h = absurd h
second_pass-AllKept codec root (e ∷ olds) [] own h = absurd h
second_pass-AllKept codec root ((k, old) ∷ olds) ((j, new) ∷ news) own h =
    let built = rebuild-IsRestored codec old new own.0 h.1.restored in
    (
      h.0,
      record {
        restored = built.0;
        sizes =
            λ e. let was = h.1.sizes e in (built.1.0 ∙ was.0, built.1.1 ∙ was.1, built.1.2 ∙ was.2);
        no_parent = rebuild-no_parent codec new ∙ h.1.no_parent;
      },
      second_pass-AllKept codec root olds news own.1 h.2,
    )

pub lookup-third_pass :
    (parent_of : GoMap Bytes) (leafs : GoMap DagLeaf) (k : Bytes) (leaf : DagLeaf)
    → lookup k leafs ≡ some leaf
    → lookup k (third_pass parent_of leafs) ≡ some (with_parent leaf (lookup k parent_of))
unfolding third_pass lookup
lookup-third_pass parent_of [] k leaf e = absurd (cc e)
lookup-third_pass parent_of ((j, other) ∷ leafs) k leaf e = elim (Bool-cases (bytes_eq j k)) [
  | inl same ↦
      let value : other ≡ leaf = cc (rw same at e) in rw (same, eq_of_bytes_eq j k same, value) refl
  | inr differ ↦ rw differ (lookup-third_pass parent_of leafs k leaf (rw differ at e))
]
