-- ===== src/Merkle/Verified.antt =====
-- merkletree/merkletree.go: `New` and `Verify` together.
use scionic_merkle_tree_go.Common.{
  ℕ, zero, suc, ◌-◌, ◌^◌, ◌≤◌, ◌<◌, ◌≡◌, refl, sym, ap, ◌∙◌, List, [], ◌∷◌, Bytes, Option, none,
  some, length, get_or, get_elem?, ltb, arith, ok, err, ◌>>=◌, guard, guard-eq-ok, >>=-eq-ok,
  ok-injective, ltb→lt, ltb→le, GoMap, keys, lookup, sort_strings, length-sort_strings, bytes_eq,
  bytes_eq_refl, bytes_eq_iff, Bool-cases, inl, inr, if◌then◌else◌,
}
use scionic_merkle_tree_go.Merkle.Defs.{
  Checked, Proof, walk, bits_len, generate_proofs, Config, DataBlock, mode_proof_gen, hash_of,
  concat_func, generate_leaves, data_block_to_leaf, invalid_num_of_data_blocks,
}
use scionic_merkle_tree_go.Merkle.Update.{lt-length_of_get_elem?}
use scionic_merkle_tree_go.Merkle.Correct.{bits_len_bounds, generate_proofs-Entry}
use scionic_merkle_tree_go.Merkle.Tree.{
  MerkleTree, new, run_mode, verify_block, blocks_of, config_or_zero, get_index_for_key,
  search_strings,
}

pub length-keys : {V : Type 0} (m : GoMap V) → length (keys m) ≡ length m
length-keys [] = refl
length-keys ((k, v) ∷ m) = ap suc (length-keys m)

pub length-blocks_of :
    (ks : List Bytes) (blocks : GoMap DataBlock) → length (blocks_of ks blocks) ≡ length ks
unfolding blocks_of
length-blocks_of [] blocks = refl
length-blocks_of (k ∷ ks) blocks = ap suc (length-blocks_of ks blocks)

blocks_of_at :
    (ks : List Bytes) (blocks : GoMap DataBlock) (i : ℕ) (k : Bytes) (b : DataBlock)
    → get_elem? ks i ≡ some k
    → lookup k blocks ≡ some b
    → get_elem? (blocks_of ks blocks) i ≡ some b
unfolding blocks_of
blocks_of_at [] blocks i k b e found = absurd (cc e)
blocks_of_at (j ∷ ks) blocks zero k b e found = ground arith
blocks_of_at (j ∷ ks) blocks (suc i) k b e found = blocks_of_at ks blocks i k b e found

module _ (sha256 : Bytes → Bytes) (c : Config) where
  leaf_cons_at :
      (b : DataBlock) (bs : List DataBlock) (leaf : Bytes) (more : List Bytes)
      → data_block_to_leaf sha256 b c ≡ ok leaf
      → ((i : ℕ) (d : DataBlock)
          → get_elem? bs i ≡ some d
          → data_block_to_leaf sha256 d c ≡ ok (get_or more i []))
      → (i : ℕ) (d : DataBlock) → get_elem? (b ∷ bs) i ≡ some d
      → data_block_to_leaf sha256 d c ≡ ok (get_or (leaf ∷ more) i [])
  leaf_cons_at b bs leaf more first at zero d e = rw (sym (same e)) first
    where
      same : some b ≡ some d → b ≡ d
      same e = cc
  leaf_cons_at b bs leaf more first at (suc i) d e = at i d e

  pub generate_leaves_at :
      (bs : List DataBlock) (leaves : List Bytes)
      → generate_leaves sha256 c bs ≡ ok leaves
      → (length leaves ≡ length bs)
        × ((i : ℕ) (b : DataBlock)
            → get_elem? bs i ≡ some b
            → data_block_to_leaf sha256 b c ≡ ok (get_or leaves i []))
  unfolding generate_leaves
  generate_leaves_at [] leaves e = (ap length (sym (ok-injective e)), λ i b h. absurd (cc h))
  generate_leaves_at (b ∷ bs) leaves e =
      let (leaf, first, rest) =
        >>=-eq-ok (data_block_to_leaf sha256 b c)
          (λ leaf. generate_leaves sha256 c bs >>= λ more. ok (leaf ∷ more)) e in
      let (more, others, done) =
        >>=-eq-ok (generate_leaves sha256 c bs) (λ more. ok (leaf ∷ more)) rest in
      let (len, at) = generate_leaves_at bs more others in
      let whole : leaves ≡ leaf ∷ more = sym (ok-injective done) in
      rw whole (ap suc len, leaf_cons_at b bs leaf more first at)

index-key :
    (ks : List Bytes) (key : Bytes) (i : ℕ)
    → (o : Option Bytes) → o ≡ get_elem? ks i
    → (j : ℕ)
    → elim o as (λ _. Option ℕ) [ none ↦ none | some k ↦ if bytes_eq k key then some i else none ]
      ≡ some j
    → get_elem? ks j ≡ some key
index-key ks key i none e j h = absurd (cc h)
index-key ks key i (some k) e j h = ground (arith, bytes_eq_iff k key)

pub get_index_for_key-key :
    (t : MerkleTree) (key : Bytes) (i : ℕ)
    → get_index_for_key t key ≡ some i
    → get_elem? t.keys i ≡ some key
unfolding get_index_for_key
get_index_for_key-key t key i h = index-key t.keys key (search_strings t.keys key) _ refl i h

-- What `New` has done when it succeeds in the mode that generates proofs.
record Built (sha256 : Bytes → Bytes) (c : Config) (blocks : GoMap DataBlock) (t : MerkleTree)
    : Type 0 where
  config_same : t.config ≡ c
  keys_same : t.keys ≡ sort_strings (keys blocks)
  enough : 1 < length blocks
  leaves_made :
      generate_leaves sha256 c (blocks_of (sort_strings (keys blocks)) blocks) ≡ ok t.leaves
  proofs_made :
      generate_proofs (hash_of sha256 c) (concat_func c) (bits_len (length blocks - 1)) t.leaves
      ≡ ok (t.root, t.proofs)

run_mode-proof_gen :
    (sha256 : Bytes → Bytes) (c : Config) (ks leaves : List Bytes) (depth : ℕ) (t : MerkleTree)
    → run_mode sha256 mode_proof_gen c ks leaves depth ≡ ok t
    → (t.config ≡ c)
      × (t.keys ≡ ks)
      × (t.leaves ≡ leaves)
      × (generate_proofs (hash_of sha256 c) (concat_func c) depth leaves ≡ ok (t.root, t.proofs))
unfolding run_mode
run_mode-proof_gen sha256 c ks leaves depth t e =
    by_result (generate_proofs (hash_of sha256 c) (concat_func c) depth leaves) e
  where
    by_result :
        (r : Checked (Bytes × List Proof))
        → (r >>= λ p. ok (record {
          config = c;
          leaf_map = [];
          nodes = [];
          root = p.0;
          leaves = leaves;
          proofs = p.1;
          depth = depth;
          num_leaves = length leaves;
          keys = ks;
        }))
          ≡ ok t
        → (t.config ≡ c) × (t.keys ≡ ks) × (t.leaves ≡ leaves) × (r ≡ ok (t.root, t.proofs))
    by_result (ok p) h =
        let same = sym (ok-injective h) in
        (
          ap (λ (u : MerkleTree). u.config) same,
          ap (λ (u : MerkleTree). u.keys) same,
          ap (λ (u : MerkleTree). u.leaves) same,
          ap (λ (u : MerkleTree). ok (u.root, u.proofs)) (sym same),
        )
    by_result (err x) h = absurd (cc h)

new-Built :
    (sha256 : Bytes → Bytes) (config : Option Config) (blocks : GoMap DataBlock) (t : MerkleTree)
    → (config_or_zero config).mode ≡ mode_proof_gen
    → new sha256 config blocks ≡ ok t
    → Built sha256 (config_or_zero config) blocks t
unfolding new
new-Built sha256 config blocks t mode e =
    let c = config_or_zero config in
    let ks = sort_strings (keys blocks) in
    let sorted = blocks_of ks blocks in
    let depth = bits_len (length sorted - 1) in
    let finish = λ (leaves : List Bytes). run_mode sha256 c.mode c ks leaves depth in
    let (done, checked, more) =
      >>=-eq-ok (guard (ltb 1 (length sorted)) invalid_num_of_data_blocks)
        (λ _. generate_leaves sha256 c sorted >>= finish) e in
    let (leaves, made, ran) = >>=-eq-ok (generate_leaves sha256 c sorted) finish more in
    let (same_config, same_keys, same_leaves, proofs) =
      run_mode-proof_gen sha256 c ks leaves depth t (rw mode at ran) in
    let many = ltb→lt 1 (length sorted) (guard-eq-ok (ltb 1 (length sorted)) _ checked) in
    let size : length sorted ≡ length blocks =
      length-blocks_of ks blocks ∙ length-sort_strings (keys blocks) ∙ length-keys blocks in
    record {
      config_same = same_config;
      keys_same = same_keys;
      enough = omega arith;
      leaves_made = rw same_leaves made;
      proofs_made = rw (← size, same_leaves) proofs;
    }

verify_ok :
    (sha256 : Bytes → Bytes) (t : MerkleTree) (c : Config) (block : DataBlock) (p : Proof)
    (leaf : Bytes)
    → t.config ≡ c
    → data_block_to_leaf sha256 block c ≡ ok leaf
    → walk (hash_of sha256 c) (concat_func c) leaf p.siblings p.path ≡ ok t.root
    → verify_block sha256 t (some block) (some p) ≡ ok tt
unfolding verify_block
verify_ok sha256 t c block p leaf same made walked =
    rw (same, made, walked, bytes_eq_refl t.root) refl

-- Every tree that `New` returns in the mode that generates proofs, of at most 2 ^ 32 blocks, holds
-- at the index of each key a proof with which the block of that key verifies against the root,
-- for every hash function and both ways to concatenate siblings.
pub new-verify :
    (sha256 : Bytes → Bytes) (config : Option Config) (blocks : GoMap DataBlock) (t : MerkleTree)
    (key : Bytes) (i : ℕ) (block : DataBlock)
    → (config_or_zero config).mode ≡ mode_proof_gen
    → length blocks ≤ 2 ^ 32
    → new sha256 config blocks ≡ ok t
    → get_index_for_key t key ≡ some i
    → lookup key blocks ≡ some block
    → (p : Proof) × (get_elem? t.proofs i ≡ some p)
      × (verify_block sha256 t (some block) (some p) ≡ ok tt)
new-verify sha256 config blocks t key i block mode few e index found =
    let c = config_or_zero config in
    let built = new-Built sha256 config blocks t mode e in
    let ks = sort_strings (keys blocks) in
    let at_key = rw built.keys_same at (get_index_for_key-key t key i index) in
    let at_block = blocks_of_at ks blocks i key block at_key found in
    let (len, leaf_at) =
      generate_leaves_at sha256 c (blocks_of ks blocks) t.leaves built.leaves_made in
    let size =
      length-blocks_of ks blocks ∙ length-sort_strings (keys blocks) ∙ length-keys blocks in
    let inside : i < length t.leaves =
      omega (arith, len, lt-length_of_get_elem? (blocks_of ks blocks) i at_block) in
    let n = length blocks in
    let (above, small) = bits_len_bounds (n - 1) 32 (omega (arith, built.enough)) in
    let depth = bits_len (n - 1) in
    let positive : depth ≡ suc (depth - 1) = deep n built.enough above in
    let (p, stored, leads) =
      generate_proofs-Entry (hash_of sha256 c) (concat_func c) t.leaves (depth - 1) t.root t.proofs
        (omega arith) (omega arith) (rw (← positive) (omega (arith, len, size)))
        (rw positive at built.proofs_made) i inside in
    (
      p,
      stored,
      verify_ok sha256 t c block p (get_or t.leaves i []) built.config_same
          (leaf_at i block at_block) leads.walked,
    )
  where
    deep :
        (n : ℕ)
        → 1 < n
        → n - 1 < 2 ^ bits_len (n - 1)
        → bits_len (n - 1) ≡ suc (bits_len (n - 1) - 1)
    deep n many above = elim (Bool-cases (ltb 0 (bits_len (n - 1)))) [
      | inl some_bit ↦ omega (arith, ltb→lt 0 (bits_len (n - 1)) some_bit)
      | inr no_bit ↦
          let none_at_all : bits_len (n - 1) ≡ 0 =
            omega (arith, ltb→le 0 (bits_len (n - 1)) no_bit) in
          absurd (omega (arith, rw none_at_all at above))
    ]

pub new-config :
    (sha256 : Bytes → Bytes) (config : Option Config) (blocks : GoMap DataBlock) (t : MerkleTree)
    → (config_or_zero config).mode ≡ mode_proof_gen
    → new sha256 config blocks ≡ ok t
    → t.config ≡ config_or_zero config
new-config sha256 config blocks t mode e = (new-Built sha256 config blocks t mode e).config_same

pub new-keys :
    (sha256 : Bytes → Bytes) (config : Option Config) (blocks : GoMap DataBlock) (t : MerkleTree)
    → (config_or_zero config).mode ≡ mode_proof_gen
    → new sha256 config blocks ≡ ok t
    → t.keys ≡ sort_strings (keys blocks)
new-keys sha256 config blocks t mode e = (new-Built sha256 config blocks t mode e).keys_same
