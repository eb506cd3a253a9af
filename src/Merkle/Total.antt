-- ===== src/Merkle/Total.antt =====
-- merkletree/merkletree.go: `New` succeeds on two blocks or more, unless a block or the hash fails.
use scionic_merkle_tree_go.Common.{
  ℕ, zero, suc, ◌+◌, ◌-◌, ◌*◌, ◌/◌, ◌%◌, ◌≤◌, ◌<◌, ◌≡◌, ◌∙◌, refl, Bool, true, false, List, [], ◌∷◌,
  Bytes, Option, some, length, ltb, lt→ltb, ltb→lt, arith, ok, ◌>>=◌, GoMap, keys, lookup,
  sort_strings, length-sort_strings, All, All-sort_strings, if◌then◌else◌, bytes_eq, bytes_eq_refl,
  Bool-cases, inl, inr,
}
use scionic_merkle_tree_go.Merkle.Defs.{
  TypeHashFunc, Checked, Proof, bits_len, generate_proofs, halve_loop, proof_steps, fix_odd_length,
  update_proofs, init_proofs, set, Config, DataBlock, mode_proof_gen, hash_of, concat_func,
  generate_leaves, data_block_to_leaf, node_at, hash_pair,
}
use scionic_merkle_tree_go.Merkle.Buffer.{length-set, fix_odd_length-IsPadded}
use scionic_merkle_tree_go.Merkle.Tree.{new, run_mode, blocks_of, config_or_zero}
use scionic_merkle_tree_go.Merkle.Verified.{length-keys, length-blocks_of, generate_leaves_at}

-- The result is a value.
abbrev pub Succeeds {ℓ} : {A : Type ℓ} → Checked A → Type ℓ
Succeeds {A = A} r = (a : A) × (r ≡ ok a)

bind-Succeeds {ℓ κ} :
    {A : Type ℓ} {B : Type κ} (m : Checked A) (f : A → Checked B)
    → Succeeds m
    → ((a : A) → Succeeds (f a))
    → Succeeds (m >>= f)
bind-Succeeds m f (a, e) h = let (b, d) = h a in (b, rw e d)

module _ (hash : TypeHashFunc) (concat : Bytes → Bytes → Bytes)
    (total : (b : Bytes) → Succeeds (hash b)) where
  node_at-Succeeds : (buffer : List Bytes) (i : ℕ) → i < length buffer → Succeeds (node_at buffer i)
  unfolding node_at
  node_at-Succeeds [] i h = absurd (omega arith)
  node_at-Succeeds (x ∷ buffer) zero h = (x, refl)
  node_at-Succeeds (x ∷ buffer) (suc i) h = node_at-Succeeds buffer i (omega arith)

  hash_pair-Succeeds :
      (buffer : List Bytes) (i : ℕ)
      → i + 1 < length buffer
      → Succeeds (hash_pair hash concat buffer i)
  unfolding hash_pair
  hash_pair-Succeeds buffer i h =
      bind-Succeeds (node_at buffer i) _ (node_at-Succeeds buffer i (omega arith)) (λ left.
        bind-Succeeds (node_at buffer (i + 1)) _ (node_at-Succeeds buffer (i + 1) h)
          (λ right. total (concat left right)))

  -- A level within the buffer is hashed without an index out of range.
  halve_loop-Succeeds :
      (rounds j : ℕ) (buffer : List Bytes)
      → 2 * (j + rounds) ≤ length buffer
      → (out : List Bytes) × (halve_loop hash concat rounds j buffer ≡ ok out)
        × (length out ≡ length buffer)
  unfolding halve_loop
  halve_loop-Succeeds zero j buffer room = (buffer, refl, refl)
  halve_loop-Succeeds (suc rounds) j buffer room =
      let (node, hashed) = hash_pair-Succeeds buffer (2 * j) (omega arith) in
      let size = length-set buffer j node in
      let (out, ran, kept) = halve_loop-Succeeds rounds (j + 1) (set buffer j node) (omega arith) in
      (out, rw hashed ran, kept ∙ size)

  proof_steps-Succeeds :
      (rounds step : ℕ) (buffer : List Bytes) (n : ℕ) (proofs : List Proof)
      → n % 2 ≡ 0
      → 2 ≤ n
      → n ≤ length buffer
      → (out : List Bytes × List Proof) × (proof_steps hash concat rounds step buffer n proofs
          ≡ ok out)
        × (2 ≤ length out.0)
  unfolding proof_steps
  proof_steps-Succeeds zero step buffer n proofs even pair room =
      ((buffer, proofs), refl, omega (arith, pair, room))
  proof_steps-Succeeds (suc rounds) step buffer n proofs even pair room =
      let (halved, ran, size) =
        halve_loop-Succeeds ((n + 1) / 2) 0 buffer (omega (arith, even, room)) in
      let padded = fix_odd_length-IsPadded halved (n / 2) (omega (arith, size, room)) in
      let fixed = (fix_odd_length halved (n / 2)).0 in
      let m = (fix_odd_length halved (n / 2)).1 in
      let (out, done, left) =
        proof_steps-Succeeds rounds (step + 1) fixed m (update_proofs fixed m step proofs)
          padded.even (omega (arith, padded.low, padded.even, pair)) padded.room in
      (out, rw ran done, left)

  generate_proofs-Succeeds :
      (depth : ℕ) (leaves : List Bytes)
      → 2 ≤ length leaves
      → Succeeds (generate_proofs hash concat depth leaves)
  unfolding generate_proofs
  generate_proofs-Succeeds depth leaves pair =
      let n = length leaves in
      let fixed = (fix_odd_length leaves n).0 in
      let m = (fix_odd_length leaves n).1 in
      let padded = fix_odd_length-IsPadded leaves n (omega arith) in
      let first = update_proofs fixed n 0 (init_proofs n) in
      let (out, ran, left) =
        proof_steps-Succeeds (depth - 1) 1 fixed m first padded.even
          (omega (arith, padded.low, pair)) padded.room in
      let (root, hashed) = hash_pair-Succeeds out.0 0 (omega (arith, left)) in
      ((root, out.1), rw (ran, hashed) refl)

-- Every block of the map gives its bytes.
abbrev pub AllSerialize : GoMap DataBlock → Type 0
AllSerialize [] = Unit {0}
AllSerialize ((k, b) ∷ blocks) = Succeeds b × AllSerialize blocks

-- The key leads to a block that gives its bytes.
abbrev Found : GoMap DataBlock → Bytes → Type 0
Found blocks k = (b : DataBlock) × (lookup k blocks ≡ some b) × Succeeds b

Found-cons :
    (j : Bytes) (b : DataBlock) (blocks : GoMap DataBlock) (k : Bytes)
    → Succeeds b
    → Found blocks k
    → Found ((j, b) ∷ blocks) k
unfolding lookup
Found-cons j b blocks k h (d, e, hd) = elim (Bool-cases (bytes_eq j k)) [
  | inl here ↦ (b, rw here refl, h)
  | inr there ↦ (d, rw there e, hd)
]

All-Found-cons :
    (j : Bytes) (b : DataBlock) (blocks : GoMap DataBlock) (ks : List Bytes)
    → Succeeds b
    → All (Found blocks) ks
    → All (Found ((j, b) ∷ blocks)) ks
All-Found-cons j b blocks [] h all = tt
All-Found-cons j b blocks (k ∷ ks) h (first, rest) =
    (Found-cons j b blocks k h first, All-Found-cons j b blocks ks h rest)

All-Found-keys : (blocks : GoMap DataBlock) → AllSerialize blocks → All (Found blocks) (keys blocks)
unfolding lookup
All-Found-keys [] all = tt
All-Found-keys ((k, b) ∷ blocks) (h, rest) = (
  (b, rw (bytes_eq_refl k) refl, h),
  All-Found-cons k b blocks (keys blocks) h (All-Found-keys blocks rest),
)

module _ (sha256 : Bytes → Bytes) (c : Config)
    (total : (b : Bytes) → Succeeds (hash_of sha256 c b)) where
  data_block_to_leaf-Succeeds :
      (b : DataBlock) → Succeeds b → Succeeds (data_block_to_leaf sha256 b c)
  unfolding data_block_to_leaf
  data_block_to_leaf-Succeeds b h =
      bind-Succeeds b _ h (λ bytes. by_option c.disable_leaf_hashing bytes)
    where
      by_option :
          (raw : Bool) (bytes : Bytes) → Succeeds (if raw then ok bytes else hash_of sha256 c bytes)
      by_option true bytes = (bytes, refl)
      by_option false bytes = total bytes

  generate_leaves-Succeeds :
      (ks : List Bytes) (blocks : GoMap DataBlock)
      → All (Found blocks) ks
      → Succeeds (generate_leaves sha256 c (blocks_of ks blocks))
  unfolding generate_leaves blocks_of
  generate_leaves-Succeeds [] blocks all = ([], refl)
  generate_leaves-Succeeds (k ∷ ks) blocks ((b, e, h), rest) = rw e (
      bind-Succeeds (data_block_to_leaf sha256 b c) _ (data_block_to_leaf-Succeeds b h) (λ leaf.
        bind-Succeeds (generate_leaves sha256 c (blocks_of ks blocks)) _
          (generate_leaves-Succeeds ks blocks rest) (λ leaves. (leaf ∷ leaves, refl))))

-- With a hash function that never fails, `New` in the mode that generates proofs returns a tree
-- whenever there are at least two blocks and each gives its bytes. No level hashes a node outside
-- the buffer, which would be a failure here, as it is a panic in the code.
pub new-Succeeds :
    (sha256 : Bytes → Bytes) (config : Option Config) (blocks : GoMap DataBlock)
    → (config_or_zero config).mode ≡ mode_proof_gen
    → ((b : Bytes) → Succeeds (hash_of sha256 (config_or_zero config) b))
    → AllSerialize blocks
    → 1 < length blocks
    → Succeeds (new sha256 config blocks)
unfolding new run_mode
new-Succeeds sha256 config blocks mode total all many =
    let c = config_or_zero config in
    let ks = sort_strings (keys blocks) in
    let sorted = blocks_of ks blocks in
    let enough : ltb 1 (length sorted) ≡ true = lt→ltb 1 (length sorted) (
      omega (
        arith,
        length-blocks_of ks blocks,
        length-sort_strings (keys blocks),
        length-keys blocks,
      )) in
    let (leaves, made) =
      generate_leaves-Succeeds sha256 c total ks blocks
        (All-sort_strings (Found blocks) (keys blocks) (All-Found-keys blocks all)) in
    let pair : 2 ≤ length leaves = omega (
      arith,
      ltb→lt 1 (length sorted) enough,
      (generate_leaves_at sha256 c sorted leaves made).0,
    ) in
    let (p, proved) =
      generate_proofs-Succeeds (hash_of sha256 c) (concat_func c) total
        (bits_len (length sorted - 1)) leaves pair in
    rw (enough, mode, made, proved) (_, refl)
