-- ===== src/Dag/Iterate/Visited.antt =====
-- dag/dag.go: what a walk that succeeds has visited and handled.
use scionic_merkle_tree_go.Common.{
  ℕ, zero, suc, ◌≡◌, refl, ap, subst, true, Option, some, none, List, [], ◌∷◌, Bytes, bytes_eq,
  Result, ok, GoMap, lookup, arith, inl, inr, Bool-cases, >>=-eq-ok, ok-injective, bytes_eq_refl,
  eq_of_bytes_eq, ◌⊎◌, has_string,
}
use scionic_merkle_tree_go.Dag.Types.{DagLeaf}
use scionic_merkle_tree_go.Dag.Iterate.{
  WalkError, iterate_children, iterate_leaf, iterate, parent_of,
}

module _ {ℓ} {S : Type ℓ} (order : List Bytes → List Bytes) (leafs : GoMap DagLeaf)
    (process_leaf : DagLeaf → Option DagLeaf → S → Result WalkError S) where
  -- A leaf that is in the map, that `processLeaf` accepted, and whose links are visited.
  pub record Handled (h : Bytes) (visited : List Bytes) : Type ℓ where
    pub leaf : DagLeaf
    pub held : lookup h leafs ≡ some leaf
    pub parent : Option DagLeaf
    pub before : S
    pub later : S
    pub processed : process_leaf leaf parent before ≡ ok later
    pub links_visited : (l : Bytes) → has_string l leaf.links ≡ true → has_string l visited ≡ true

  -- From one set of visited hashes to another.
  pub record Grown (old new : List Bytes) : Type ℓ where
    pub keeps : (x : Bytes) → has_string x old ≡ true → has_string x new ≡ true
    pub handles : (x : Bytes) → has_string x new ≡ true → (has_string x old ≡ true) ⊎ Handled x new

  Handled-Grown : (x : Bytes) (v w : List Bytes) → Grown v w → Handled x v → Handled x w
  Handled-Grown x v w g h = record {
    leaf = h.leaf;
    held = h.held;
    parent = h.parent;
    before = h.before;
    later = h.later;
    processed = h.processed;
    links_visited = λ l e. g.keeps l (h.links_visited l e);
  }

  Grown-refl : (v : List Bytes) → Grown v v
  Grown-refl v = record { keeps = λ x h. h; handles = λ x h. inl h }

  Grown-trans : (u v w : List Bytes) → Grown u v → Grown v w → Grown u w
  Grown-trans u v w g h = record {
    keeps = λ x e. h.keeps x (g.keeps x e);
    handles = λ x e. elim (h.handles x e) [
      | inr new ↦ inr new
      | inl mid ↦ elim (g.handles x mid) [
        | inl old ↦ inl old
        | inr handled ↦ inr (Handled-Grown x v w h handled)
      ]
    ];
  }

  -- A visit leaves a hash visited and everything new handled.
  unfoldable pub Visits : Bytes → List Bytes → List Bytes → Type ℓ
  Visits h old new = Grown old new × (has_string h new ≡ true)

  iterate_children-Grown :
      (visit : Bytes → List Bytes × S → Result WalkError (List Bytes × S))
      → ((c : Bytes) (st st' : List Bytes × S) → visit c st ≡ ok st' → Visits c st.0 st'.0)
      → (cs : List Bytes) (st st' : List Bytes × S) → iterate_children visit cs st ≡ ok st'
      → Grown st.0 st'.0 × ((c : Bytes) → has_string c cs ≡ true → has_string c st'.0 ≡ true)
  unfolding iterate_children has_string Visits
  iterate_children-Grown visit spec [] st st' e =
      let same : st.0 ≡ st'.0 = ap (λ (r : List Bytes × S). r.0) (ok-injective e) in
      (subst (Grown st.0) same (Grown-refl st.0), λ c h. absurd (cc h))
  iterate_children-Grown visit spec (child ∷ cs) st st' e =
      let (next, first, rest) = >>=-eq-ok (visit child st) (iterate_children visit cs) e in
      let (grown, visited) = spec child st next first in
      let (more, others) = iterate_children-Grown visit spec cs next st' rest in
      (
        Grown-trans st.0 next.0 st'.0 grown more,
        λ c h. elim (Bool-cases (bytes_eq child c)) [
          | inl equal ↦ more.keeps c (
              subst (λ (t : Bytes). has_string t next.0 ≡ true) (eq_of_bytes_eq child c equal)
                visited)
          | inr differ ↦ others c (rw differ at h)
        ],
      )

  module _
      (keeps_order : (links : List Bytes) (l : Bytes)
        → has_string l links ≡ true
        → has_string l (order links) ≡ true) where
    first_visit :
        (visit : Bytes → Option Bytes → List Bytes × S → Result WalkError (List Bytes × S))
        → ((c : Bytes) (p : Option Bytes) (st st' : List Bytes × S)
            → visit c p st ≡ ok st'
            → Visits c st.0 st'.0)
        → (leaf : DagLeaf) (h : Bytes) (p : Option Bytes) (v : List Bytes) (s s' : S)
          (st' : List Bytes × S)
        → lookup h leafs ≡ some leaf
        → process_leaf leaf (parent_of order leafs process_leaf p) s ≡ ok s'
        → iterate_children
            (λ child st. visit child (some leaf.hash) st)
            (order leaf.links)
            (h ∷ v, s')
          ≡ ok st'
        → Visits h v st'.0
    unfolding has_string Visits
    first_visit visit spec leaf h p v s s' st' held processed e =
        let (grown, others) =
          iterate_children-Grown (λ child st. visit child (some leaf.hash) st)
            (λ c st st'. spec c (some leaf.hash) st st') (order leaf.links) (h ∷ v, s') st' e in
        let handled : Handled h st'.0 = record {
          leaf = leaf;
          held = held;
          parent = parent_of order leafs process_leaf p;
          before = s;
          later = s';
          processed = processed;
          links_visited = λ l there. others l (keeps_order leaf.links l there);
        } in
        let here : has_string h st'.0 ≡ true = grown.keeps h (rw (bytes_eq_refl h) refl) in
        (
          record {
            keeps = λ x old. grown.keeps x (ground arith);
            handles = λ x new. elim (grown.handles x new) [
              | inr done ↦ inr done
              | inl old ↦ elim (Bool-cases (bytes_eq h x)) [
                | inl equal ↦
                    inr (subst (λ (t : Bytes). Handled t st'.0) (eq_of_bytes_eq h x equal) handled)
                | inr differ ↦ inl (rw differ at old)
              ]
            ];
          },
          here,
        )

    iterate_leaf-Visits :
        (visit : Bytes → Option Bytes → List Bytes × S → Result WalkError (List Bytes × S))
        → ((c : Bytes) (p : Option Bytes) (st st' : List Bytes × S)
            → visit c p st ≡ ok st'
            → Visits c st.0 st'.0)
        → (found : Option DagLeaf) (h : Bytes) (p : Option Bytes) (st st' : List Bytes × S)
        → lookup h leafs ≡ found
        → iterate_leaf order leafs process_leaf visit found h p st ≡ ok st'
        → Visits h st.0 st'.0
    unfolding iterate_leaf Visits
    iterate_leaf-Visits visit spec none h p (v, s) st' held e = absurd (cc e)
    iterate_leaf-Visits visit spec (some leaf) h p (v, s) st' held e =
        elim (Bool-cases (has_string h v)) [
          | inl seen ↦
              let same : v ≡ st'.0 =
                ap (λ (r : List Bytes × S). r.0) (ok-injective (rw seen at e)) in
              subst (λ (w : List Bytes). Visits h v w) same (Grown-refl v, seen)
          | inr new ↦
              let rest : S → Result WalkError (List Bytes × S) = λ s'.
                iterate_children (λ child st. visit child (some leaf.hash) st) (order leaf.links)
                  (h ∷ v, s') in
              let (s', processed, more) =
                >>=-eq-ok (process_leaf leaf (parent_of order leafs process_leaf p) s) rest
                  (rw new at e) in
              first_visit visit spec leaf h p v s s' st' held processed more
        ]

    pub iterate-Visits :
        (fuel : ℕ) (h : Bytes) (p : Option Bytes) (st st' : List Bytes × S)
        → iterate order leafs process_leaf fuel h p st ≡ ok st'
        → Visits h st.0 st'.0
    unfolding iterate
    iterate-Visits zero h p st st' e = absurd (cc e)
    iterate-Visits (suc fuel) h p st st' e =
        iterate_leaf-Visits (iterate order leafs process_leaf fuel) (iterate-Visits fuel)
          (lookup h leafs) h p st st' refl e
