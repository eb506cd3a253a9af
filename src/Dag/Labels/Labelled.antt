-- ===== src/Dag/Labels/Labelled.antt =====
-- dag/dag.go: the labels that `CalculateLabels` assigns.
use scionic_merkle_tree_go.Common.{
  ℕ, zero, suc, ◌+◌, ◌≡◌, refl, sym, ap, ◌∙◌, subst, Option, some, none, List, [], ◌∷◌, ◌++◌, Bytes,
  length, get_elem?, length-append, ◌==◌, if◌then◌else◌, bytes_eq, Result, ok, GoMap, lookup,
  insert, arith, inl, inr, Bool-cases, >>=-eq-ok, ok-injective, eq_of_bytes_eq, bytes_eq_iff,
  ==_iff, true, false, has_string, Entries, Entries-lookup, lookup-insert, insert_absent, itoa,
  itoa-injective,
}
use scionic_merkle_tree_go.Dag.Types.{DagLeaf, Dag}
use scionic_merkle_tree_go.Dag.Iterate.{WalkError, iterate_dag}
use scionic_merkle_tree_go.Dag.Iterate.Alike.{iterate_dag_alike}
use scionic_merkle_tree_go.Dag.Iterate.Visited.{Visits, iterate-Visits}
use scionic_merkle_tree_go.Dag.Iterate.Sound.{Reachable, Grown-Reachable}
use scionic_merkle_tree_go.Dag.Types.{IsKeyed}
use scionic_merkle_tree_go.Dag.Labels.Met.{IsMet, IsMet-root, IsMet-inner}
use scionic_merkle_tree_go.Dag.Labels.{
  Labelling, label_leaf, with_labels, calculate_labels, labels_of,
}

get_elem?-append_one :
    (hs : List Bytes) (h : Bytes) (i : ℕ)
    → get_elem? (hs ++ h ∷ []) i ≡ (if length hs == i then some h else get_elem? hs i)
get_elem?-append_one [] h zero = refl
get_elem?-append_one [] h (suc i) = ground arith
get_elem?-append_one (g ∷ hs) h zero = ground arith
get_elem?-append_one (g ∷ hs) h (suc i) = get_elem?-append_one hs h i ∙ ground arith

get_elem?-length : (hs : List Bytes) → get_elem? hs (length hs) ≡ none
get_elem?-length [] = refl
get_elem?-length (h ∷ hs) = get_elem?-length hs

-- The labels 1, 2, … stand for the hashes of a list.
pub record IsLabelled (hs : List Bytes) (labels : GoMap Bytes) : Type 0 where
  pub size : length labels ≡ length hs
  pub at : (i : ℕ) → lookup (itoa (i + 1)) labels ≡ get_elem? hs i

-- The state of the walk, against the hashes that it has met.
IsLabelling : GoMap DagLeaf → Bytes → List Bytes → Labelling → List Bytes → Type 0
IsLabelling leafs root visited (counter, labels) hs =
    (counter ≡ length hs + 1) × IsLabelled hs labels × IsMet leafs root visited hs

-- A walk that collects the hashes that it meets, without the root's.
abbrev pub note_hash : Bytes → DagLeaf → Option DagLeaf → List Bytes → Result WalkError (List Bytes)
note_hash root leaf parent hs = ok (if bytes_eq leaf.hash root then hs else hs ++ leaf.hash ∷ [])

same_label : (m n : ℕ) → bytes_eq (itoa m) (itoa n) ≡ (m == n)
same_label m n = elim (Bool-cases (bytes_eq (itoa m) (itoa n))) [
  | inl same ↦
      same ∙ sym ((==_iff m n).1 (itoa-injective m n (eq_of_bytes_eq (itoa m) (itoa n) same)))
  | inr differ ↦ elim (Bool-cases (m == n)) [
    | inr other ↦ differ ∙ sym other
    | inl equal ↦
        let number : m ≡ n = (==_iff m n).0 equal in
        absurd (cc (sym differ ∙ (bytes_eq_iff (itoa m) (itoa n)).1 (ap itoa number)))
  ]
]

label_next :
    (hs : List Bytes) (labels : GoMap Bytes) (h : Bytes)
    → IsLabelled hs labels
    → IsLabelled (hs ++ h ∷ []) (insert (itoa (length hs + 1)) h labels)
label_next hs labels h labelled =
    let new : lookup (itoa (length hs + 1)) labels ≡ none =
      labelled.at (length hs) ∙ get_elem?-length hs in
    record {
      size =
          insert_absent (itoa (length hs + 1)) h labels new
          ∙ omega (arith, labelled.size, length-append {0} hs (h ∷ []));
      at = λ i.
          lookup-insert (itoa (length hs + 1)) (itoa (i + 1)) h labels
          ∙ rw (same_label (length hs + 1) (i + 1), labelled.at i)
              (shift (length hs) i (get_elem? hs i))
          ∙ sym (get_elem?-append_one hs h i);
    }
  where
    shift :
        (n i : ℕ) (o : Option Bytes)
        → (if (n + 1) == (i + 1) then some h else o) ≡ (if n == i then some h else o)
    shift n i o = ground arith

label_leaf-IsLabelling :
    (leafs : GoMap DagLeaf) (root hash : Bytes) (visited : List Bytes) (leaf : DagLeaf)
    (parent : Option DagLeaf) (s next : Labelling) (hs : List Bytes)
    → leaf.hash ≡ hash
    → lookup hash leafs ≡ some leaf
    → has_string hash visited ≡ false
    → label_leaf root leaf parent s ≡ ok next
    → IsLabelling leafs root visited s hs
    → (more : List Bytes) × (note_hash root leaf parent hs ≡ ok more)
      × IsLabelling leafs root (hash ∷ visited) next more
unfolding label_leaf IsLabelling
label_leaf-IsLabelling leafs root hash visited leaf parent (counter, labels) next hs named there new
      e (count, labelled, met) =
    elim (Bool-cases (bytes_eq leaf.hash root)) [
      | inl same ↦
          let kept : (counter, labels) ≡ next = ok-injective {Problem = WalkError} (rw same at e) in
          let at_root = subst (λ h. bytes_eq h root ≡ true) named same in
          (
            hs,
            rw same refl,
            subst (λ x. IsLabelling leafs root (hash ∷ visited) x hs) kept
                (count, labelled, IsMet-root leafs root visited hs hash at_root met),
          )
      | inr inner ↦
          let more = hs ++ leaf.hash ∷ [] in
          let put : (counter + 1, insert (itoa counter) leaf.hash labels) ≡ next =
            ok-injective {Problem = WalkError} (rw inner at e) in
          let below = subst (λ h. bytes_eq h root ≡ false) named inner in
          let grown : IsMet leafs root (hash ∷ visited) more =
            subst (λ h. IsMet leafs root (hash ∷ visited) (hs ++ h ∷ [])) (sym named)
              (IsMet-inner leafs root visited hs hash below new (rw there refl) met) in
          (
            more,
            rw inner refl,
            subst (λ x. IsLabelling leafs root (hash ∷ visited) x more) put
                (
                  omega (arith, count, length-append {0} hs (leaf.hash ∷ [])),
                  subst (λ n. IsLabelled more (insert (itoa n) leaf.hash labels)) (sym count)
                      (label_next hs labels leaf.hash labelled),
                  grown,
                ),
          )
    ]

-- What `CalculateLabels` leaves.
pub calculate_labels-IsLabelled :
    (order : List Bytes → List Bytes) (d labelled : Dag) (h : Bytes)
    → ((links : List Bytes) (l : Bytes)
        → has_string l links ≡ true
        → has_string l (order links) ≡ true)
    → Entries IsKeyed d.leafs
    → calculate_labels order d ≡ ok labelled
    → Reachable d h
    → (visited hs : List Bytes) × (iterate_dag order d (note_hash d.root) [] ≡ ok (visited, hs))
      × IsLabelled hs (labels_of labelled)
      × IsMet d.leafs d.root visited hs
      × (has_string h visited ≡ true)
unfolding calculate_labels IsLabelling iterate_dag Visits
calculate_labels-IsLabelled order d labelled h keeps_order keyed e reachable =
    let last : List Bytes × Labelling → Result WalkError Dag =
      λ walked. ok (with_labels d (some walked.1.1)) in
    let (walked, done, rest) = >>=-eq-ok (iterate_dag order d (label_leaf d.root) (1, [])) last e in
    let (hs, met, kept) =
      iterate_dag_alike (IsLabelling d.leafs d.root) order d (label_leaf d.root) (note_hash d.root)
        (1, []) [] walked
        (λ hash v leaf parent s next t there new.
          label_leaf-IsLabelling d.leafs d.root hash v leaf parent s next t
            (Entries-lookup IsKeyed hash leaf d.leafs keyed there) there new)
        done
        (
          refl,
          record { size = refl; at = λ i. refl },
          record { met = λ k. refl; distinct = tt; held = tt },
        ) in
    let (grown, root_visited) =
      iterate-Visits order d.leafs (label_leaf d.root) keeps_order (suc (length d.leafs)) d.root
        none ([], (1, [])) walked done in
    let put : with_labels d (some walked.1.1) ≡ labelled =
      ok-injective {Problem = WalkError} rest in
    (
      walked.0,
      hs,
      met,
      subst (λ x. IsLabelled hs (labels_of x)) put kept.1,
      kept.2,
      Grown-Reachable order d (label_leaf d.root) walked.0 grown root_visited reachable,
    )
