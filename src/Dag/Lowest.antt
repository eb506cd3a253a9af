-- ===== src/Dag/Lowest.antt =====
-- dag/dag.go: the parent that `minimumParentIndex` gives a child is the lowest one.
use scionic_merkle_tree_go.Common.{
  ◌≡◌, ◌≢◌, refl, sym, ap, ◌∙◌, subst, Bool, true, false, ◌&&◌, Option, some, none, List, [], ◌∷◌,
  Bytes, if◌then◌else◌, bytes_eq, bytes_lt, GoMap, lookup, arith, inl, inr, Bool-cases,
  Option-cases, bytes_eq_refl, eq_of_bytes_eq, ◌⊎◌, has_string, bytes_lt_irrefl, bytes_lt_trans,
  bytes_lt_asymm, bytes_lt_total,
}
use scionic_merkle_tree_go.Dag.Parents.{minimum_parent_index}
use scionic_merkle_tree_go.Dag.LeastParent.{least, least_parent, lookup-offer_all}

-- `q` is a parent whose list of links holds the child.
unfoldable pub is_parent : Bytes → Bytes → GoMap (List Bytes) → Bool
unfolding has_string
is_parent q child [] = false
is_parent q child ((parent, links) ∷ children) =
    if bytes_eq parent q && has_string child links then true else is_parent q child children

-- No `q` of the kind is below `p`.
not_below_trans :
    (a b c : Bytes) → bytes_lt b a ≡ false → bytes_lt c b ≡ false → bytes_lt c a ≡ false
not_below_trans a b c h k = elim (Bool-cases (bytes_lt c a)) [
  | inr above ↦ above
  | inl below ↦ elim (Bool-cases (bytes_lt b c)) [
    | inl less ↦ absurd (cc (sym h ∙ bytes_lt_trans b c a less below))
    | inr not_less ↦ absurd (cc (sym h ∙ rw (bytes_lt_total c b k not_less) at below))
  ]
]

least-from : (best : Option Bytes) (x p : Bytes) → least best x ≡ some p → (best ≡ some p) ⊎ (x ≡ p)
least-from none x p e = inr (cc e)
least-from (some q) x p e = elim (Bool-cases (bytes_lt x q)) [
  | inl below ↦ inr (cc (rw below at e))
  | inr above ↦ inl (rw above at e)
]

-- `least` is not above either.
least-bounds :
    (best : Option Bytes) (x : Bytes)
    → (l : Bytes) × (least best x ≡ some l)
      × (bytes_lt x l ≡ false)
      × ((b : Bytes) → best ≡ some b → bytes_lt b l ≡ false)
least-bounds none x = (x, refl, bytes_lt_irrefl x, λ b e. absurd (cc e))
least-bounds (some q) x = elim (Bool-cases (bytes_lt x q)) [
  | inl below ↦ (
    x,
    rw below refl,
    bytes_lt_irrefl x,
    λ b e. bytes_lt_asymm x b (subst (λ (t : Bytes). bytes_lt x t ≡ true) (cc e) below),
  )
  | inr above ↦
      (q, rw above refl, above, λ b e. ap (λ (t : Bytes). bytes_lt t q) (cc e) ∙ bytes_lt_irrefl q)
]

-- `p` is the outcome of a search that began with `best`.
record Lowest (child : Bytes) (children : GoMap (List Bytes)) (best : Option Bytes) (p : Bytes)
    : Type 0 where
  from : (best ≡ some p) ⊎ (is_parent p child children ≡ true)
  below_best : (b : Bytes) → best ≡ some b → bytes_lt b p ≡ false
  below : (q : Bytes) → is_parent q child children ≡ true → bytes_lt q p ≡ false

is_parent_skip :
    (q parent child : Bytes) (links : List Bytes) (children : GoMap (List Bytes))
    → has_string child links ≡ false
    → is_parent q child ((parent, links) ∷ children) ≡ is_parent q child children
unfolding is_parent
is_parent_skip q parent child links children h = ground arith

is_parent_here :
    (q parent child : Bytes) (links : List Bytes) (children : GoMap (List Bytes))
    → has_string child links ≡ true
    → is_parent q child ((parent, links) ∷ children)
      ≡ (if bytes_eq parent q then true else is_parent q child children)
unfolding is_parent
is_parent_here q parent child links children h = ground arith

either_way : (b : Bool) → (if b then true else true) ≡ true
either_way true = refl
either_way false = refl

least_parent-Lowest :
    (child : Bytes) (children : GoMap (List Bytes)) (best : Option Bytes) (p : Bytes)
    → least_parent child children best ≡ some p
    → Lowest child children best p
unfolding least_parent is_parent
least_parent-Lowest child [] best p e = record {
  from = inl e;
  below_best = λ b eb. ap (λ (t : Bytes). bytes_lt t p) (cc (sym eb ∙ e)) ∙ bytes_lt_irrefl p;
  below = λ q h. absurd (cc h);
}
least_parent-Lowest child ((parent, links) ∷ children) best p e =
    elim (Bool-cases (has_string child links)) [
      | inr other ↦ skipped other (least_parent-Lowest child children best p (rw other at e))
      | inl linked ↦
          taken linked (least_parent-Lowest child children (least best parent) p (rw linked at e))
    ]
  where
    skipped :
        has_string child links ≡ false
        → Lowest child children best p
        → Lowest child ((parent, links) ∷ children) best p
    skipped other rest = record {
      from = elim rest.from [
        | inl b ↦ inl b
        | inr found ↦ inr (is_parent_skip p parent child links children other ∙ found)
      ];
      below_best = rest.below_best;
      below = λ q h. rest.below q (sym (is_parent_skip q parent child links children other) ∙ h);
    }

    found_here :
        has_string child links ≡ true
        → (best ≡ some p) ⊎ (parent ≡ p)
        → (best ≡ some p) ⊎ (is_parent p child ((parent, links) ∷ children) ≡ true)
    found_here linked (inl b) = inl b
    found_here linked (inr same) =
        inr (is_parent_here p parent child links children linked ∙ rw (same, bytes_eq_refl p) refl)

    taken :
        has_string child links ≡ true
        → Lowest child children (least best parent) p
        → Lowest child ((parent, links) ∷ children) best p
    taken linked rest =
        let (l, chosen, under_parent, under_best) = least-bounds best parent in
        let under : bytes_lt l p ≡ false = rest.below_best l chosen in
        record {
          from = elim rest.from [
            | inl b ↦ found_here linked (least-from best parent p b)
            | inr found ↦ inr (
                is_parent_here p parent child links children linked
                ∙ rw found (either_way (bytes_eq parent p)))
          ];
          below_best = λ b eb. not_below_trans p l b under (under_best b eb);
          below = λ q h. elim (Bool-cases (bytes_eq parent q)) [
            | inl equal ↦ not_below_trans p l q under (
                subst (λ (t : Bytes). bytes_lt t l ≡ false) (eq_of_bytes_eq parent q equal)
                  under_parent)
            | inr differ ↦
                rest.below q
                  (rw differ at (sym (is_parent_here q parent child links children linked) ∙ h))
          ];
        }

least_parent_some :
    (child q : Bytes) (children : GoMap (List Bytes)) (best : Option Bytes)
    → (best ≢ none) ⊎ (is_parent q child children ≡ true)
    → least_parent child children best ≢ none
unfolding least_parent is_parent
least_parent_some child q [] best (inl h) = h
least_parent_some child q [] best (inr h) = absurd (cc h)
least_parent_some child q ((parent, links) ∷ children) best h =
    elim (Bool-cases (has_string child links)) [
      | inl linked ↦
          let (l, chosen, under_parent, under_best) = least-bounds best parent in
          rw linked (
            least_parent_some child q children (least best parent)
              (inl (λ e. absurd (cc (sym chosen ∙ e)))))
      | inr other ↦ rw other (
          least_parent_some child q children best (elim h [
            | inl b ↦ inl b
            | inr found ↦ inr (sym (is_parent_skip q parent child links children other) ∙ found)
          ]))
    ]

-- The parent that `minimumParentIndex` gives a child is one that links it, and no parent that links
-- it is lower.
pub minimum_parent_index-lowest :
    (children : GoMap (List Bytes)) (child p : Bytes)
    → lookup child (minimum_parent_index children) ≡ some p
    → (is_parent p child children ≡ true)
      × ((q : Bytes) → is_parent q child children ≡ true → bytes_lt q p ≡ false)
unfolding minimum_parent_index lookup
minimum_parent_index-lowest children child p e =
    let found =
      least_parent-Lowest child children none p (sym (lookup-offer_all child children []) ∙ e) in
    (linked found.from, found.below)
  where
    linked :
        (none ≡ some p) ⊎ (is_parent p child children ≡ true) → is_parent p child children ≡ true
    linked (inl no_such) = absurd (cc no_such)
    linked (inr yes_such) = yes_such

-- A child that some parent links has a parent in the index.
pub minimum_parent_index_some :
    (children : GoMap (List Bytes)) (child q : Bytes)
    → is_parent q child children ≡ true
    → lookup child (minimum_parent_index children) ≢ none
unfolding minimum_parent_index lookup
minimum_parent_index_some children child q h e =
    least_parent_some child q children none (inr h) (sym (lookup-offer_all child children []) ∙ e)

-- The index does not depend on the order of the map: two maps in which the same parents link the
-- same children, in whatever order, give each child the same parent, or none in both.
pub minimum_parent_index-order :
    (xs ys : GoMap (List Bytes))
    → ((q child : Bytes) → is_parent q child xs ≡ is_parent q child ys)
    → (child : Bytes)
    → lookup child (minimum_parent_index xs) ≡ lookup child (minimum_parent_index ys)
minimum_parent_index-order xs ys same child =
    elim (Option-cases (lookup child (minimum_parent_index xs))) [
      | inl none_x ↦ elim (Option-cases (lookup child (minimum_parent_index ys))) [
        | inl none_y ↦ none_x ∙ sym none_y
        | inr (q, some_y) ↦ absurd (
            minimum_parent_index_some xs child q
              (same q child ∙ (minimum_parent_index-lowest ys child q some_y).0) none_x)
      ]
      | inr (p, some_x) ↦
          let (link_x, low_x) = minimum_parent_index-lowest xs child p some_x in
          elim (Option-cases (lookup child (minimum_parent_index ys))) [
            | inl none_y ↦
                absurd (minimum_parent_index_some ys child p (sym (same p child) ∙ link_x) none_y)
            | inr (q, some_y) ↦
                let (link_y, low_y) = minimum_parent_index-lowest ys child q some_y in
                some_x
                ∙ ap some (
                    bytes_lt_total p q (low_y p (sym (same p child) ∙ link_x))
                      (low_x q (same q child ∙ link_y)))
                ∙ sym some_y
          ]
    ]
