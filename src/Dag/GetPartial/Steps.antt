-- ===== src/Dag/GetPartial/Steps.antt =====
-- dag/dag.go: the steps of a `GetPartial` that succeeds.
use scionic_merkle_tree_go.Common.{
  ℕ, ◌≡◌, ap, subst, Bool, true, false, List, [], ◌∷◌, Bytes, length, ltb, if◌then◌else◌, ok, err,
  ◌>>=◌, guard, GoMap, >>=-eq-ok, ok-injective,
}
use scionic_merkle_tree_go.Dag.Types.{DagLeaf, Dag, Checked, Codec}
use scionic_merkle_tree_go.Dag.Prune.{prune_irrelevant_links}
use scionic_merkle_tree_go.Dag.GetPartial.{
  Found, no_leaf_hashes, from_leaf, complete_all, complete_parent_proofs, add_requested,
  partial_dag, get_partial,
}

pub from_leaf-ok : {A : Type 0} (r : Checked A) (a : A) → from_leaf r ≡ ok a → r ≡ ok a
from_leaf-ok (ok b) a e = ap ok (ok-injective e)
from_leaf-ok (err x) a e = absurd (cc e)

-- The leaves and relevant hashes that the requests lead to, and the leaves with completed proofs.
pub record Steps (codec : Codec) (fuel : ℕ) (d : Dag) (leaf_hashes : List Bytes)
    (prune_links : Bool) (partial : Dag) : Type 0 where
  pub added : GoMap DagLeaf × GoMap Bool
  pub completed : GoMap DagLeaf
  pub requested : add_requested codec fuel d leaf_hashes ([], (d.root, true) ∷ []) ≡ ok added
  pub proved : complete_all codec d added.0 added.0 ≡ ok completed
  pub same :
      partial_dag d (if prune_links then prune_irrelevant_links added.1 completed else completed)
      ≡ partial

pub get_partial-Steps :
    (codec : Codec) (fuel : ℕ) (d partial : Dag) (leaf_hashes : List Bytes) (prune_links : Bool)
    → get_partial codec fuel d leaf_hashes prune_links ≡ ok partial
    → Steps codec fuel d leaf_hashes prune_links partial
unfolding get_partial complete_parent_proofs
get_partial-Steps codec fuel d partial leaf_hashes prune_links e =
    let last : GoMap DagLeaf × GoMap Bool → GoMap DagLeaf → Found Dag = λ added completed. ok (
      partial_dag d
        (if prune_links then prune_irrelevant_links added.1 completed else completed)) in
    let complete : GoMap DagLeaf × GoMap Bool → Found Dag =
      λ added. from_leaf (complete_all codec d added.0 added.0) >>= last added in
    let start : GoMap DagLeaf × GoMap Bool = ([], (d.root, true) ∷ []) in
    let (u, some_hash, e1) =
      >>=-eq-ok (guard (ltb 0 (length leaf_hashes)) no_leaf_hashes)
        (λ _. add_requested codec fuel d leaf_hashes start >>= complete) e in
    let (added, requested, e2) =
      >>=-eq-ok (add_requested codec fuel d leaf_hashes start) complete e1 in
    let (completed, all, e3) =
      >>=-eq-ok (from_leaf (complete_all codec d added.0 added.0)) (last added) e2 in
    record {
      added = added;
      completed = completed;
      requested = requested;
      proved = from_leaf-ok (complete_all codec d added.0 added.0) completed all;
      same = ok-injective e3;
    }

-- What both the completed leaves and the pruned ones have, the leaves of the partial DAG have.
pub Steps_leafs {κ} :
    (P : GoMap DagLeaf → Type κ) (codec : Codec) (fuel : ℕ) (d partial : Dag)
    (leaf_hashes : List Bytes) (prune_links : Bool)
    (steps : Steps codec fuel d leaf_hashes prune_links partial)
    → P steps.completed
    → ((relevant : GoMap Bool) (leafs : GoMap DagLeaf)
        → P leafs
        → P (prune_irrelevant_links relevant leafs))
    → P partial.leafs
Steps_leafs P codec fuel d partial leaf_hashes prune_links steps h keep =
    subst (λ p. P p.leafs) steps.same (either prune_links)
  where
    either :
        (b : Bool)
        → P (if b then prune_irrelevant_links steps.added.1 steps.completed else steps.completed)
    either true = keep steps.added.1 steps.completed h
    either false = h
