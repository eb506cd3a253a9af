-- ===== src/Dag/Labels/Met.antt =====
-- dag/dag.go: the hashes that a walk meets, against those that it has visited.
use scionic_merkle_tree_go.Common.{
  ◌≡◌, refl, ◌∙◌, subst, Bool, true, false, not, ◌&&◌, ◌||◌, List, [], ◌∷◌, ◌++◌, Bytes, bytes_eq,
  GoMap, has_key, All, has_string, arith, inl, inr, Bool-cases, eq_of_bytes_eq, bytes_eq_iff,
}
use scionic_merkle_tree_go.Dag.Types.{DagLeaf}
use scionic_merkle_tree_go.Tree.Sets.{IsDistinct}

has_string-append_one :
    (k : Bytes) (hs : List Bytes) (h : Bytes)
    → has_string k (hs ++ h ∷ []) ≡ (has_string k hs || bytes_eq h k)
unfolding has_string
has_string-append_one k [] h = ground arith
has_string-append_one k (g ∷ hs) h = ground (arith, has_string-append_one k hs h)

or_false : (b : Bool) → (b || false) ≡ b
or_false true = refl
or_false false = refl

append_one-IsDistinct :
    (hs : List Bytes) (h : Bytes)
    → IsDistinct hs
    → has_string h hs ≡ false
    → IsDistinct (hs ++ h ∷ [])
unfolding has_string
append_one-IsDistinct [] h distinct new = (refl, tt)
append_one-IsDistinct (g ∷ hs) h distinct new = (
  has_string-append_one g hs h ∙ ground (arith, distinct.0, bytes_eq_iff g h, bytes_eq_iff h g),
  append_one-IsDistinct hs h distinct.1 (ground arith),
)

All-append_one :
    (P : Bytes → Type 0) (hs : List Bytes) (h : Bytes) → All P hs → P h → All P (hs ++ h ∷ [])
All-append_one P [] h all new = (new, tt)
All-append_one P (g ∷ hs) h all new = (all.0, All-append_one P hs h all.1 new)

-- The hashes of a list are those visited without the root, each once, and the map has their leaves.
pub record IsMet (leafs : GoMap DagLeaf) (root : Bytes) (visited hs : List Bytes) : Type 0 where
  pub met : (k : Bytes) → has_string k hs ≡ (has_string k visited && not (bytes_eq k root))
  pub distinct : IsDistinct hs
  pub held : All (λ k. has_key k leafs ≡ true) hs

pub IsMet-root :
    (leafs : GoMap DagLeaf) (root : Bytes) (visited hs : List Bytes) (h : Bytes)
    → bytes_eq h root ≡ true
    → IsMet leafs root visited hs
    → IsMet leafs root (h ∷ visited) hs
unfolding has_string
IsMet-root leafs root visited hs h same m = record {
  met = λ k. m.met k ∙ elim (Bool-cases (bytes_eq h k)) [
    | inr other ↦ rw other refl
    | inl equal ↦
        let at_root : bytes_eq k root ≡ true =
          subst (λ x. bytes_eq x root ≡ true) (eq_of_bytes_eq h k equal) same in
        rw (equal, at_root) (ground arith)
  ];
  distinct = m.distinct;
  held = m.held;
}

pub IsMet-inner :
    (leafs : GoMap DagLeaf) (root : Bytes) (visited hs : List Bytes) (h : Bytes)
    → bytes_eq h root ≡ false
    → has_string h visited ≡ false
    → has_key h leafs ≡ true
    → IsMet leafs root visited hs
    → IsMet leafs root (h ∷ visited) (hs ++ h ∷ [])
unfolding has_string
IsMet-inner leafs root visited hs h inner new there m = record {
  met = λ k.
      has_string-append_one k hs h
      ∙ rw (m.met k) (elim (Bool-cases (bytes_eq h k)) [
        | inr other ↦ rw other (or_false (has_string k visited && not (bytes_eq k root)))
        | inl equal ↦
            let below : bytes_eq k root ≡ false =
              subst (λ x. bytes_eq x root ≡ false) (eq_of_bytes_eq h k equal) inner in
            rw (equal, below) (ground arith)
      ]);
  distinct = append_one-IsDistinct hs h m.distinct (m.met h ∙ rw new refl);
  held = All-append_one (λ k. has_key k leafs ≡ true) hs h m.held there;
}
