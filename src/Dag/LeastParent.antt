-- ===== src/Dag/LeastParent.antt =====
-- dag/dag.go: `minimumParentIndex` as a search for the least parent of one child.
use scionic_merkle_tree_go.Common.{
  ◌≡◌, refl, ap, ◌∙◌, Option, some, none, List, [], ◌∷◌, Bytes, if◌then◌else◌, bytes_eq, bytes_lt,
  GoMap, lookup, insert, inl, inr, Bool-cases, eq_of_bytes_eq, lookup-insert, has_string,
  bytes_lt_irrefl,
}
use scionic_merkle_tree_go.Dag.Parents.{takes_over, offer, offer_all}

-- The lesser of two parents, where there are two.
abbrev pub least : Option Bytes → Bytes → Option Bytes
least none p = some p
least (some q) p = if bytes_lt p q then some p else some q

least_twice : (best : Option Bytes) (p : Bytes) → least (least best p) p ≡ least best p
least_twice none p = rw (bytes_lt_irrefl p) refl
least_twice (some q) p = elim (Bool-cases (bytes_lt p q)) [
  | inl below ↦ rw (below, bytes_lt_irrefl p) refl
  | inr above ↦ rw (above, above) refl
]

offer_one : Bytes → Bytes → GoMap Bytes → Option Bytes → GoMap Bytes
offer_one parent child m found = if takes_over parent found then insert child parent m else m

lookup-offer_one :
    (parent child k : Bytes) (m : GoMap Bytes) (found : Option Bytes)
    → lookup child m ≡ found
    → lookup k (offer_one parent child m found)
      ≡ (if bytes_eq child k then least (lookup k m) parent else lookup k m)
unfolding offer_one
lookup-offer_one parent child k m none e = elim (Bool-cases (bytes_eq child k)) [
  | inl equal ↦
      rw (lookup-insert child k parent m, equal, rw (eq_of_bytes_eq child k equal) at e) refl
  | inr differ ↦ rw (lookup-insert child k parent m, differ) refl
]
lookup-offer_one parent child k m (some q) e = elim (Bool-cases (bytes_eq child k)) [
  | inl equal ↦
      let here : lookup k m ≡ some q = rw (eq_of_bytes_eq child k equal) at e in
      elim (Bool-cases (bytes_lt parent q)) [
        | inl below ↦ rw (below, lookup-insert child k parent m, equal, here, below) refl
        | inr above ↦ rw (above, equal, here, above) refl
      ]
  | inr differ ↦ elim (Bool-cases (bytes_lt parent q)) [
    | inl below ↦ rw (below, lookup-insert child k parent m, differ) refl
    | inr above ↦ rw (above, differ) refl
  ]
]

lookup-offer :
    (parent k : Bytes) (links : List Bytes) (m : GoMap Bytes)
    → lookup k (offer parent links m)
      ≡ (if has_string k links then least (lookup k m) parent else lookup k m)
unfolding offer has_string offer_one
lookup-offer parent k [] m = refl
lookup-offer parent k (child ∷ links) m =
    let step = lookup-offer_one parent child k m (lookup child m) refl in
    lookup-offer parent k links (offer_one parent child m (lookup child m))
    ∙ elim (Bool-cases (bytes_eq child k)) [
      | inl equal ↦ elim (Bool-cases (has_string k links)) [
        | inl more ↦ rw (more, step, equal, least_twice (lookup k m) parent) refl
        | inr last ↦ rw (last, step, equal) refl
      ]
      | inr differ ↦ rw (step, differ) refl
    ]

-- The least of all the parents whose list holds the child, and of `best`.
unfoldable pub least_parent : Bytes → GoMap (List Bytes) → Option Bytes → Option Bytes
unfolding has_string
least_parent child [] best = best
least_parent child ((parent, links) ∷ children) best =
    least_parent child children (if has_string child links then least best parent else best)

pub lookup-offer_all :
    (child : Bytes) (children : GoMap (List Bytes)) (m : GoMap Bytes)
    → lookup child (offer_all children m) ≡ least_parent child children (lookup child m)
unfolding offer_all least_parent
lookup-offer_all child [] m = refl
lookup-offer_all child ((parent, links) ∷ children) m =
    lookup-offer_all child children (offer parent links m)
    ∙ ap (least_parent child children) (lookup-offer parent child links m)
