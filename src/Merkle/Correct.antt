-- ===== src/Merkle/Correct.antt =====
-- merkletree/merkletree.go: the proofs that `New` stores verify against the root that it stores.
use scionic_merkle_tree_go.Common.{
  ℕ, zero, suc, ◌+◌, ◌-◌, ◌/◌, ◌^◌, ◌≤◌, ◌<◌, ◌≡◌, ap, ◌∙◌, List, Bytes, length, arith, ok, ◌>>=◌,
  >>=-eq-ok, ok-injective,
}
use scionic_merkle_tree_go.Merkle.Defs.{
  TypeHashFunc, Proof, fix_odd_length, update_proofs, proof_steps, init_proofs, bits_len,
  bits_len_loop, generate_proofs, hash_pair,
}
use scionic_merkle_tree_go.Merkle.Buffer.{hash_pair-pair_hash, fix_odd_length-IsPadded}
use scionic_merkle_tree_go.Merkle.Walk.{pow_two_suc}
use scionic_merkle_tree_go.Merkle.Stage.{Entry, Stage-first, proof_steps-Stage, Entry-at_top}

lt-bits_len_loop : (fuel n : ℕ) → n ≤ fuel → n < 2 ^ bits_len_loop fuel n
unfolding bits_len_loop
lt-bits_len_loop zero zero h = omega arith
lt-bits_len_loop zero (suc n) h = elim h [ ]
lt-bits_len_loop (suc fuel) zero h = omega arith
lt-bits_len_loop (suc fuel) (suc n) h = omega (
  arith,
  pow_two_suc (bits_len_loop fuel (suc n / 2)),
  lt-bits_len_loop fuel (suc n / 2) (omega arith),
)

bits_len_loop-le : (fuel n k : ℕ) → n < 2 ^ k → bits_len_loop fuel n ≤ k
unfolding bits_len_loop
bits_len_loop-le zero n k h = omega arith
bits_len_loop-le (suc fuel) zero k h = omega arith
bits_len_loop-le (suc fuel) (suc n) zero h = absurd (omega arith)
bits_len_loop-le (suc fuel) (suc n) (suc k) h =
    omega (arith, bits_len_loop-le fuel (suc n / 2) k (omega (arith, pow_two_suc k)))

-- A number lies below the power of its bit length, and has at most `k` bits below `2 ^ k`.
pub bits_len_bounds : (n k : ℕ) → n < 2 ^ k → (n < 2 ^ bits_len n) × (bits_len n ≤ k)
unfolding bits_len
bits_len_bounds n k h = (lt-bits_len_loop n n (omega arith), bits_len_loop-le n n k h)

sub-one-suc : (n : ℕ) → suc n - 1 ≡ n
sub-one-suc n = omega arith

module _ (hash : TypeHashFunc) (concat : Bytes → Bytes → Bytes) (leaves : List Bytes) where
  pub generate_proofs-Entry :
      (depth : ℕ) (root : Bytes) (proofs : List Proof)
      → depth < 32
      → 0 < length leaves
      → length leaves ≤ 2 ^ suc depth
      → generate_proofs hash concat (suc depth) leaves ≡ ok (root, proofs)
      → (i : ℕ) → i < length leaves
      → Entry hash concat leaves proofs (suc depth) i (ok root)
  unfolding generate_proofs
  generate_proofs-Entry depth root proofs small some_leaf top e i inside =
      let n = length leaves in
      let fixed = (fix_odd_length leaves n).0 in
      let m = (fix_odd_length leaves n).1 in
      let first = update_proofs fixed n 0 (init_proofs n) in
      let finish = λ (t : List Bytes × List Proof).
        let (buffer, ps) = t in hash_pair hash concat buffer 0 >>= λ r. ok (r, ps) in
      let (t, ran, rest) =
        >>=-eq-ok (proof_steps hash concat depth 1 fixed m first) finish
          (rw (sub-one-suc depth) at e) in
      let (r, paired, done) = >>=-eq-ok (hash_pair hash concat t.0 0) (λ r. ok (r, t.1)) rest in
      let hashed = hash_pair-pair_hash hash concat t.0 0 r paired in
      let same = ok-injective done in
      let is_root : r ≡ root = ap (λ (u : Bytes × List Proof). u.0) same in
      let is_proofs : t.1 ≡ proofs = ap (λ (u : Bytes × List Proof). u.1) same in
      let padded = fix_odd_length-IsPadded leaves n (omega arith) in
      let start = Stage-first hash concat leaves some_leaf padded in
      let (m', st) =
        proof_steps-Stage hash concat leaves depth 0 fixed m first t.0 t.1 (omega arith) start
          ran in
      let steps : 0 + depth ≡ depth = omega arith in
      rw (hashed ∙ ap ok is_root) at
        (rw is_proofs at (Entry-at_top hash concat leaves (rw steps at st) top i inside))
