-- ===== src/Dag/Parents.antt =====
-- dag/dag.go: `minimumParentIndex` and `buildParentIndex`.
use scionic_merkle_tree_go.Common.{
  Bool, true, Option, some, none, List, [], ◌∷◌, Bytes, length, ltb, if◌then◌else◌, bytes_lt, GoMap,
  lookup, insert,
}
use scionic_merkle_tree_go.Dag.Types.{DagLeaf, Dag}

-- `if existing, ok := parentOf[childHash]; !ok || parentHash < existing`
abbrev pub takes_over : Bytes → Option Bytes → Bool
takes_over parent none = true
takes_over parent (some existing) = bytes_lt parent existing

unfoldable pub offer : Bytes → List Bytes → GoMap Bytes → GoMap Bytes
unfolding insert lookup
offer parent [] parent_of = parent_of
offer parent (child ∷ children) parent_of = offer parent children (
    if takes_over parent (lookup child parent_of) then insert child parent parent_of else parent_of)

unfoldable pub offer_all : GoMap (List Bytes) → GoMap Bytes → GoMap Bytes
unfolding offer
offer_all [] parent_of = parent_of
offer_all ((parent, links) ∷ children) parent_of = offer_all children (offer parent links parent_of)

-- `minimumParentIndex`
unfoldable pub minimum_parent_index : GoMap (List Bytes) → GoMap Bytes
unfolding offer_all
minimum_parent_index children = offer_all children []

-- `children` of `buildParentIndex`
unfoldable pub children_of : GoMap DagLeaf → GoMap (List Bytes) → GoMap (List Bytes)
unfolding insert
children_of [] children = children
children_of ((k, leaf) ∷ leafs) children =
    children_of leafs
      (if ltb 0 (length leaf.links) then insert leaf.hash leaf.links children else children)

-- `buildParentIndex`
unfoldable pub build_parent_index : Dag → GoMap Bytes
unfolding children_of minimum_parent_index
build_parent_index d = minimum_parent_index (children_of d.leafs [])
