-- ===== src/Dag/Stats.antt =====
-- dag/dag.go: the statistics of the builder against the leaves that it holds.
use scionic_merkle_tree_go.Common.{
  ℕ, ◌+◌, ◌≡◌, refl, ap, ◌∙◌, subst, Option, some, none, [], ◌∷◌, Bytes, length, bytes_eq, ok,
  ◌>>=◌, GoMap, lookup, insert, pos, arith, inl, inr, Bool-cases, >>=-eq-ok, ok-injective,
  eq_of_bytes_eq, insert_absent,
}
use scionic_merkle_tree_go.Dag.Types.{DagLeaf, add_ℕ, DagBuilder, Checked, Codec}
use scionic_merkle_tree_go.Dag.Size.{
  serialized_leaf_size, content_length, calculate_total_content_size, calculate_total_dag_size,
}
use scionic_merkle_tree_go.Dag.Builder.{
  not_held, add_leaf, put_parent, store_leaf, counted, create_dag_builder,
}

-- Each leaf stands under its own hash.
abbrev pub IsKeyed : GoMap DagLeaf → Type 0
IsKeyed [] = Unit {0}
IsKeyed ((k, leaf) ∷ leafs) = (k ≡ leaf.hash) × IsKeyed leafs

-- The statistics are the totals over the leaves that are held, each of which is under its hash.
pub record IsExact (codec : Codec) (b : DagBuilder) : Type 0 where
  pub total : ℕ
  pub keyed : IsKeyed b.leafs
  pub leaf_count : b.stats.leaf_count ≡ pos (length b.leafs)
  pub content_size : b.stats.content_size ≡ pos (calculate_total_content_size b.leafs)
  pub sizes : calculate_total_dag_size codec b.leafs ≡ ok total
  pub dag_size : b.stats.dag_size ≡ pos total

pub IsKeyed-insert :
    (k : Bytes) (leaf : DagLeaf) (leafs : GoMap DagLeaf)
    → k ≡ leaf.hash
    → IsKeyed leafs
    → IsKeyed (insert k leaf leafs)
unfolding insert
IsKeyed-insert k leaf [] same keyed = (same, tt)
IsKeyed-insert k leaf ((j, l) ∷ leafs) same keyed = elim (Bool-cases (bytes_eq j k)) [
  | inl equal ↦ rw equal (eq_of_bytes_eq j k equal ∙ same, keyed.1)
  | inr other ↦ rw other (keyed.0, IsKeyed-insert k leaf leafs same keyed.1)
]

pub calculate_total_content_size-insert :
    (k : Bytes) (leaf : DagLeaf) (leafs : GoMap DagLeaf)
    → lookup k leafs ≡ none
    → calculate_total_content_size (insert k leaf leafs)
      ≡ calculate_total_content_size leafs + content_length leaf
unfolding calculate_total_content_size insert lookup
calculate_total_content_size-insert k leaf [] h = omega arith
calculate_total_content_size-insert k leaf ((j, l) ∷ leafs) h = elim (Bool-cases (bytes_eq j k)) [
  | inl equal ↦ absurd (cc (rw equal at h))
  | inr other ↦
      rw other (omega (arith, calculate_total_content_size-insert k leaf leafs (rw other at h)))
]

calculate_total_dag_size-insert :
    (codec : Codec) (k : Bytes) (leaf : DagLeaf) (leafs : GoMap DagLeaf) (total size : ℕ)
    → lookup k leafs ≡ none
    → calculate_total_dag_size codec leafs ≡ ok total
    → serialized_leaf_size codec (some leaf) ≡ ok size
    → calculate_total_dag_size codec (insert k leaf leafs) ≡ ok (total + size)
unfolding calculate_total_dag_size insert lookup
calculate_total_dag_size-insert codec k leaf [] total size h t e =
    rw e (ap ok (omega (arith, ok-injective t)))
calculate_total_dag_size-insert codec k leaf ((j, l) ∷ leafs) total size h t e =
    elim (Bool-cases (bytes_eq j k)) [
      | inl equal ↦ absurd (cc (rw equal at h))
      | inr other ↦
          let sum : ℕ → ℕ → Checked ℕ = λ first rest. ok (first + rest) in
          let (first, e1, t1) =
            >>=-eq-ok (serialized_leaf_size codec (some l))
              (λ first. calculate_total_dag_size codec leafs >>= sum first) t in
          let (rest, e2, t2) = >>=-eq-ok (calculate_total_dag_size codec leafs) (sum first) t1 in
          rw
            (
              other,
              e1,
              calculate_total_dag_size-insert codec k leaf leafs rest size (rw other at h) e2 e,
            )
            (ap ok (omega (arith, ok-injective t2)))
    ]

-- A new builder's statistics are exact.
pub create_dag_builder-IsExact : (codec : Codec) → IsExact codec create_dag_builder
unfolding calculate_total_content_size calculate_total_dag_size
create_dag_builder-IsExact codec = record {
  total = 0;
  keyed = tt;
  leaf_count = refl;
  content_size = refl;
  sizes = refl;
  dag_size = refl;
}

counted-IsExact :
    (codec : Codec) (b : DagBuilder) (leaf : DagLeaf) (size : ℕ)
    → lookup leaf.hash b.leafs ≡ none
    → serialized_leaf_size codec (some leaf) ≡ ok size
    → IsExact codec b
    → IsExact codec
        (record { leafs = insert leaf.hash leaf b.leafs; stats = counted codec b.stats leaf size })
unfolding counted add_ℕ
counted-IsExact codec b leaf size absent sized exact = record {
  total = exact.total + size;
  keyed = IsKeyed-insert leaf.hash leaf b.leafs refl exact.keyed;
  leaf_count = rw (exact.leaf_count, insert_absent leaf.hash leaf b.leafs absent) refl;
  content_size =
      rw (exact.content_size, calculate_total_content_size-insert leaf.hash leaf b.leafs absent)
        refl;
  sizes =
      calculate_total_dag_size-insert codec leaf.hash leaf b.leafs exact.total size absent
        exact.sizes sized;
  dag_size = rw exact.dag_size refl;
}

store_leaf-IsExact :
    (codec : Codec) (b : DagBuilder) (leaf : DagLeaf) (b' : DagBuilder) (found : Option DagLeaf)
    → lookup leaf.hash b.leafs ≡ found
    → IsExact codec b
    → store_leaf codec found b leaf ≡ ok b'
    → IsExact codec b'
unfolding store_leaf
store_leaf-IsExact codec b leaf b' (some old) present exact e =
    subst (IsExact codec) (ok-injective e) exact
store_leaf-IsExact codec b leaf b' none absent exact e =
    let put : ℕ → Checked DagBuilder = λ size.
      ok (record {
        leafs = insert leaf.hash leaf b.leafs;
        stats = counted codec b.stats leaf size;
      }) in
    let (size, sized, e1) = >>=-eq-ok (serialized_leaf_size codec (some leaf)) put e in
    subst (IsExact codec) (ok-injective e1) (counted-IsExact codec b leaf size absent sized exact)

-- `AddLeaf`, where it succeeds, keeps each leaf under its hash and the statistics exact: they are the
-- number of the leaves that the builder holds,
-- the sum of their content lengths and the sum of their serialized sizes, whether the leaf is new or
-- is there already, for no parent and for a parent that the builder does not hold. (The size of a
-- parent that it holds changes with the parent's links, and the statistics do not.)
pub add_leaf-IsExact :
    (codec : Codec) (b : DagBuilder) (leaf parent : Option DagLeaf) (b' : DagBuilder)
    → IsExact codec b
    → (add_leaf codec b leaf (not_held parent)).1 ≡ ok b'
    → IsExact codec b'
unfolding add_leaf put_parent
add_leaf-IsExact codec b none parent b' exact e = absurd (cc e)
add_leaf-IsExact codec b (some leaf) parent b' exact e =
    store_leaf-IsExact codec b leaf b' (lookup leaf.hash b.leafs) refl exact e
