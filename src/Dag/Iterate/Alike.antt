-- ===== src/Dag/Iterate/Alike.antt =====
-- dag/dag.go: two walks of one DAG whose states stay in a relation.
use scionic_merkle_tree_go.Common.{
  ℕ, zero, suc, ◌≡◌, refl, ap, ◌∙◌, subst, Option, some, none, List, [], ◌∷◌, Bytes, length, Result,
  ok, GoMap, lookup, inl, inr, false, Bool-cases, >>=-eq-ok, ok-injective, has_string,
}
use scionic_merkle_tree_go.Dag.Types.{DagLeaf, Dag}
use scionic_merkle_tree_go.Dag.Iterate.{
  WalkError, iterate_children, parent_of, iterate_leaf, iterate, iterate_dag,
}

module _ {ℓ κ} {S T : Type ℓ} (R : List Bytes → S → T → Type κ) where
  -- Where the first walk has ended well, the second has, with the same visited hashes.
  abbrev EndsAlike : List Bytes × S → Result WalkError (List Bytes × T) → Type (ℓ ⊔ κ)
  EndsAlike last other = (t : T) × (other ≡ ok (last.0, t)) × R last.0 last.1 t

  iterate_children_alike :
      (visit_s : Bytes → List Bytes × S → Result WalkError (List Bytes × S))
      (visit_t : Bytes → List Bytes × T → Result WalkError (List Bytes × T)) (cs v : List Bytes)
      (s : S) (t : T) (last : List Bytes × S)
      → ((c : Bytes) (v : List Bytes) (s : S) (t : T) (last : List Bytes × S)
          → visit_s c (v, s) ≡ ok last
          → R v s t
          → EndsAlike last (visit_t c (v, t)))
      → iterate_children visit_s cs (v, s) ≡ ok last
      → R v s t
      → EndsAlike last (iterate_children visit_t cs (v, t))
  unfolding iterate_children
  iterate_children_alike visit_s visit_t [] v s t last step e h =
      let same : (v, s) ≡ last = ok-injective {Problem = WalkError} e in
      subst (λ x. EndsAlike x (ok (v, t))) same (t, refl, h)
  iterate_children_alike visit_s visit_t (c ∷ cs) v s t last step e h =
      let (next, one, rest) = >>=-eq-ok (visit_s c (v, s)) (iterate_children visit_s cs) e in
      let (t', other, alike) = step c v s t next one h in
      rw other (iterate_children_alike visit_s visit_t cs next.0 next.1 t' last step rest alike)

  module _ (order : List Bytes → List Bytes) (leafs : GoMap DagLeaf)
      (process_s : DagLeaf → Option DagLeaf → S → Result WalkError S)
      (process_t : DagLeaf → Option DagLeaf → T → Result WalkError T)
      (process : (hash : Bytes) (v : List Bytes) (leaf : DagLeaf) (parent : Option DagLeaf)
          (s next : S) (t : T)
        → lookup hash leafs ≡ some leaf
        → has_string hash v ≡ false
        → process_s leaf parent s ≡ ok next
        → R v s t
        → (t' : T) × (process_t leaf parent t ≡ ok t') × R (hash ∷ v) next t') where
    iterate_leaf_alike :
        (visit_s : Bytes → Option Bytes → List Bytes × S → Result WalkError (List Bytes × S))
        (visit_t : Bytes → Option Bytes → List Bytes × T → Result WalkError (List Bytes × T))
        (found : Option DagLeaf) (hash : Bytes) (parent : Option Bytes) (v : List Bytes) (s : S)
        (t : T) (last : List Bytes × S)
        → ((c : Bytes) (p : Option Bytes) (v : List Bytes) (s : S) (t : T) (last : List Bytes × S)
            → visit_s c p (v, s) ≡ ok last
            → R v s t
            → EndsAlike last (visit_t c p (v, t)))
        → lookup hash leafs ≡ found
        → iterate_leaf order leafs process_s visit_s found hash parent (v, s) ≡ ok last
        → R v s t
        → EndsAlike last (iterate_leaf order leafs process_t visit_t found hash parent (v, t))
    unfolding iterate_leaf
    iterate_leaf_alike visit_s visit_t none hash parent v s t last step held e h = absurd (cc e)
    iterate_leaf_alike visit_s visit_t (some leaf) hash parent v s t last step held e h =
        elim (Bool-cases (has_string hash v)) [
          | inl old ↦
              let same : (v, s) ≡ last = ok-injective {Problem = WalkError} (rw old at e) in
              rw old (subst (λ x. EndsAlike x (ok (v, t))) same (t, refl, h))
          | inr new ↦
              let child_s : Bytes → List Bytes × S → Result WalkError (List Bytes × S) =
                λ child st. visit_s child (some leaf.hash) st in
              let child_t : Bytes → List Bytes × T → Result WalkError (List Bytes × T) =
                λ child st. visit_t child (some leaf.hash) st in
              let go : S → Result WalkError (List Bytes × S) =
                λ s'. iterate_children child_s (order leaf.links) (hash ∷ v, s') in
              let (s', processed, rest) =
                >>=-eq-ok (process_s leaf (parent_of order leafs process_s parent) s) go
                  (rw new at e) in
              let (t', other, alike) =
                process hash v leaf (parent_of order leafs process_s parent) s s' t held new
                  processed h in
              let known : process_t leaf (parent_of order leafs process_t parent) t ≡ ok t' =
                ap (λ p. process_t leaf p t) (same_parent parent) ∙ other in
              rw (new, known)
                (iterate_children_alike child_s child_t (order leaf.links) (hash ∷ v) s' t' last
                  (λ c v s t last. step c (some leaf.hash) v s t last) rest alike)
        ]
      where
        same_parent :
            (p : Option Bytes)
            → parent_of order leafs process_t p ≡ parent_of order leafs process_s p
        same_parent none = refl
        same_parent (some hash) = refl

    iterate_alike :
        (fuel : ℕ) (hash : Bytes) (parent : Option Bytes) (v : List Bytes) (s : S) (t : T)
        (last : List Bytes × S)
        → iterate order leafs process_s fuel hash parent (v, s) ≡ ok last
        → R v s t
        → EndsAlike last (iterate order leafs process_t fuel hash parent (v, t))
    unfolding iterate
    iterate_alike zero hash parent v s t last e h = absurd (cc e)
    iterate_alike (suc fuel) hash parent v s t last e h =
        iterate_leaf_alike (iterate order leafs process_s fuel) (iterate order leafs process_t fuel)
          (lookup hash leafs) hash parent v s t last (iterate_alike fuel) refl e h

  -- Two walks, of which each call of the first function has a call of the second that answers to it.
  pub iterate_dag_alike :
      (order : List Bytes → List Bytes) (d : Dag)
      (process_s : DagLeaf → Option DagLeaf → S → Result WalkError S)
      (process_t : DagLeaf → Option DagLeaf → T → Result WalkError T) (s : S) (t : T)
      (last : List Bytes × S)
      → ((hash : Bytes) (v : List Bytes) (leaf : DagLeaf) (parent : Option DagLeaf) (s next : S)
            (t : T)
          → lookup hash d.leafs ≡ some leaf
          → has_string hash v ≡ false
          → process_s leaf parent s ≡ ok next
          → R v s t
          → (t' : T) × (process_t leaf parent t ≡ ok t') × R (hash ∷ v) next t')
      → iterate_dag order d process_s s ≡ ok last
      → R [] s t
      → EndsAlike last (iterate_dag order d process_t t)
  unfolding iterate_dag
  iterate_dag_alike order d process_s process_t s t last process e h =
      iterate_alike order d.leafs process_s process_t process (suc (length d.leafs)) d.root none []
        s t last e h
