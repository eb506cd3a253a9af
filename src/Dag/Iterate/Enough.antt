-- ===== src/Dag/Iterate/Enough.antt =====
-- dag/dag.go: the walk ends; the fuel that the model gives it is enough.
use scionic_merkle_tree_go.Common.{
  ℕ, zero, suc, ◌<◌, ◌≡◌, ◌≢◌, refl, ap, true, Option, some, none, List, [], ◌∷◌, Bytes, length,
  Result, ok, err, ◌>>=◌, GoMap, keys, lookup, arith, inl, inr, Bool-cases, has_string,
}
use scionic_merkle_tree_go.Dag.Types.{DagLeaf, Dag}
use scionic_merkle_tree_go.Dag.Iterate.{
  WalkError, out_of_fuel, iterate_children, iterate_leaf, iterate, iterate_dag, parent_of,
}
use scionic_merkle_tree_go.Dag.Unseen.{unseen, unseen_less, unseen-visit, has_string-keys}
use scionic_merkle_tree_go.Dag.Iterate.Visited.{Visits, iterate-Visits}

bind_fuelled {ℓ κ} :
    {A : Type ℓ} {B : Type κ} (m : Result WalkError A) (f : A → Result WalkError B)
    → m ≢ err out_of_fuel
    → ((a : A) → m ≡ ok a → f a ≢ err out_of_fuel)
    → (m >>= f) ≢ err out_of_fuel
bind_fuelled (ok a) f h k = k a refl
bind_fuelled (err e) f h k = λ same. h (cc same)

length-keys_eq : {V : Type 0} (m : GoMap V) → length (keys m) ≡ length m
length-keys_eq [] = refl
length-keys_eq ((k, v) ∷ m) = ap suc (length-keys_eq m)

unseen_all : (ks : List Bytes) → unseen ks [] ≡ length ks
unfolding unseen
unseen_all [] = refl
unseen_all (k ∷ ks) = omega (arith, unseen_all ks)

module _ {ℓ} {S : Type ℓ} (order : List Bytes → List Bytes) (leafs : GoMap DagLeaf)
    (process_leaf : DagLeaf → Option DagLeaf → S → Result WalkError S)
    (keeps_order : (links : List Bytes) (l : Bytes)
      → has_string l links ≡ true
      → has_string l (order links) ≡ true)
    (own_errors : (leaf : DagLeaf) (parent : Option DagLeaf) (s : S)
      → process_leaf leaf parent s ≢ err out_of_fuel) where
  iterate_children-fuelled :
      (fuel : ℕ) (p : Option Bytes) (cs : List Bytes) (st : List Bytes × S)
      → ((c : Bytes) (st : List Bytes × S)
          → unseen (keys leafs) st.0 < fuel
          → iterate order leafs process_leaf fuel c p st ≢ err out_of_fuel)
      → unseen (keys leafs) st.0 < fuel
      → iterate_children (λ c st. iterate order leafs process_leaf fuel c p st) cs st
        ≢ err out_of_fuel
  unfolding iterate_children Visits
  iterate_children-fuelled fuel p [] st spec enough = λ e. absurd (cc e)
  iterate_children-fuelled fuel p (c ∷ cs) st spec enough =
      bind_fuelled (iterate order leafs process_leaf fuel c p st)
        (iterate_children (λ c st. iterate order leafs process_leaf fuel c p st) cs)
        (spec c st enough)
        (λ next e.
          let visits = iterate-Visits order leafs process_leaf keeps_order fuel c p st next e in
          iterate_children-fuelled fuel p cs next spec
            (omega (arith, unseen_less (keys leafs) st.0 next.0 visits.0.keeps, enough)))

  abbrev Fuelled : ℕ → Type ℓ
  Fuelled fuel =
      (h : Bytes) (p : Option Bytes) (st : List Bytes × S)
      → unseen (keys leafs) st.0 < fuel
      → iterate order leafs process_leaf fuel h p st ≢ err out_of_fuel

  iterate_leaf-Fuelled :
      (fuel : ℕ) (found : Option DagLeaf) (h : Bytes) (p : Option Bytes) (st : List Bytes × S)
      → Fuelled fuel
      → lookup h leafs ≡ found
      → unseen (keys leafs) st.0 < suc fuel
      → iterate_leaf order leafs process_leaf (iterate order leafs process_leaf fuel) found h p st
        ≢ err out_of_fuel
  unfolding iterate_leaf
  iterate_leaf-Fuelled fuel none h p st inner held enough = λ e. absurd (cc e)
  iterate_leaf-Fuelled fuel (some leaf) h p st inner held enough =
      elim (Bool-cases (has_string h st.0)) [
        | inl seen ↦ rw seen (λ e. absurd (cc e))
        | inr new ↦ rw new (
            bind_fuelled (process_leaf leaf (parent_of order leafs process_leaf p) st.1) visit
              (own_errors leaf (parent_of order leafs process_leaf p) st.1)
              (λ s' e.
                iterate_children-fuelled fuel (some leaf.hash) (order leaf.links) (h ∷ st.0, s')
                  (λ c st. inner c (some leaf.hash) st)
                  (omega (
                    arith,
                    unseen-visit h (keys leafs) st.0 (has_string-keys h leafs leaf held) new,
                    enough,
                  ))))
      ]
    where
      visit : S → Result WalkError (List Bytes × S)
      visit s' =
          iterate_children
            (λ child st. iterate order leafs process_leaf fuel child (some leaf.hash) st)
            (order leaf.links) (h ∷ st.0, s')

  iterate-Fuelled : (fuel : ℕ) → Fuelled fuel
  unfolding iterate
  iterate-Fuelled zero h p st enough = absurd (omega arith)
  iterate-Fuelled (suc fuel) h p st enough =
      iterate_leaf-Fuelled fuel (lookup h leafs) h p st (iterate-Fuelled fuel) refl enough

-- `IterateDag` ends: whatever the links, cycles included, the walk never needs more calls within
-- calls than one more than the number of leaves, if `processLeaf` reports only errors of its own and
-- the order in which links are followed leaves none out.
pub iterate_dag-fuelled {ℓ} :
    {S : Type ℓ} (order : List Bytes → List Bytes) (d : Dag)
    (process_leaf : DagLeaf → Option DagLeaf → S → Result WalkError S) (s : S)
    → ((links : List Bytes) (l : Bytes)
        → has_string l links ≡ true
        → has_string l (order links) ≡ true)
    → ((leaf : DagLeaf) (parent : Option DagLeaf) (s : S)
        → process_leaf leaf parent s ≢ err out_of_fuel)
    → iterate_dag order d process_leaf s ≢ err out_of_fuel
unfolding iterate_dag
iterate_dag-fuelled order d process_leaf s keeps_order own_errors =
    iterate-Fuelled order d.leafs process_leaf keeps_order own_errors (suc (length d.leafs)) d.root
      none ([], s) (omega (arith, unseen_all (keys d.leafs), length-keys_eq d.leafs))
