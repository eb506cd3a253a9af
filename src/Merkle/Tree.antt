-- ===== src/Merkle/Tree.antt =====
-- merkletree/merkletree.go: `New`, `buildTree`, `Proof`, `GetIndexForKey`, and the methods' state.
-- Worker pools are not modelled: `RunInParallel` is false, as in every call of the repository.
use scionic_merkle_tree_go.Common.{◌++◌}
use scionic_merkle_tree_go.Common.{
  ℕ, zero, suc, ◌+◌, ◌-◌, ◌/◌, ◌%◌, ◌^◌, Bool, true, false, Option, some, none, List, [], ◌∷◌,
  Bytes, length, get_or, get_elem?, ltb, ◌==◌, if◌then◌else◌, bytes_eq, bytes_lt, ok, err, ◌>>=◌,
  guard, ◌>>◌, GoMap, keys, lookup, insert, sort_strings,
}
use scionic_merkle_tree_go.Merkle.Defs.{
  invalid_num_of_data_blocks, invalid_config_mode, proof_invalid_mode_tree_not_built,
  proof_invalid_data_block, serialize_failed, index_out_of_range, hash_pair, Checked,
  TypeConfigMode, mode_proof_gen, mode_tree_build, mode_proof_gen_and_tree_build, other_mode,
  TypeHashFunc, DataBlock, Config, zero_config, Proof, concat_func, hash_of, data_block_to_leaf,
  generate_leaves, fix_odd_length, bits_len, update_proofs, init_proofs, generate_proofs, verify,
}

pub record MerkleTree : Type 0 where
  pub config : Config
  pub leaf_map : GoMap ℕ
  pub nodes : List (List Bytes)
  pub root : Bytes
  pub leaves : List Bytes
  pub proofs : List Proof
  pub depth : ℕ
  pub num_leaves : ℕ
  pub keys : List Bytes

module _ (hash : TypeHashFunc) (concat : Bytes → Bytes → Bytes) where
  -- `m.nodes[i+1][j>>1] = hash(concat(m.nodes[i][j], m.nodes[i][j+1]))` into a new slice, for a
  -- level of even length.
  unfoldable pub hash_pairs : List Bytes → Checked (List Bytes)
  hash_pairs [] = ok []
  hash_pairs (x ∷ []) = err index_out_of_range
  hash_pairs (x ∷ y ∷ level) = do
    node ← hash (concat x y)
    rest ← hash_pairs level
    ok (node ∷ rest)

  -- `for i := 0; i < m.Depth-1; i++`: the levels from `level` on.
  unfoldable pub build_levels : ℕ → List Bytes → Checked (List (List Bytes))
  unfolding hash_pairs fix_odd_length
  build_levels zero level = ok (level ∷ [])
  build_levels (suc rounds) level = do
    next ← hash_pairs level
    rest ← build_levels rounds (fix_odd_length next (length next)).0
    ok (level ∷ rest)

  unfoldable pub last_level : List (List Bytes) → List Bytes
  last_level [] = []
  last_level (level ∷ []) = level
  last_level (level ∷ next ∷ rest) = last_level (next ∷ rest)

  -- `buildTree`: the levels and the root.
  unfoldable pub build_tree : ℕ → List Bytes → Checked (List (List Bytes) × Bytes)
  unfolding build_levels last_level fix_odd_length hash_pair
  build_tree depth leaves = do
    nodes ← build_levels (depth - 1) (fix_odd_length leaves (length leaves)).0
    root ← hash_pair hash concat (last_level nodes) 0
    ok (nodes, root)

-- `m.leafMap[string(m.Leaves[i])] = i`: of equal leaves the last index stays.
unfoldable pub fill_leaf_map : ℕ → List Bytes → GoMap ℕ → GoMap ℕ
fill_leaf_map i [] m = m
fill_leaf_map i (leaf ∷ leaves) m = fill_leaf_map (i + 1) leaves (insert leaf i m)

-- `for i := 0; i < len(m.nodes); i++ { m.updateProofs(m.nodes[i], len(m.nodes[i]), i) }`
unfoldable pub update_levels : ℕ → List (List Bytes) → List Proof → List Proof
unfolding update_proofs
update_levels step [] proofs = proofs
update_levels step (level ∷ levels) proofs =
    update_levels (step + 1) levels (update_proofs level (length level) step proofs)

-- `sortedBlocks = append(sortedBlocks, blocks[k])`
unfoldable pub blocks_of : List Bytes → GoMap DataBlock → List DataBlock
unfolding lookup
blocks_of [] blocks = []
blocks_of (k ∷ ks) blocks =
    elim (lookup k blocks) [ some b ↦ b | none ↦ err serialize_failed ] ∷ blocks_of ks blocks

-- `if config == nil { config = new(Config) }`
abbrev pub config_or_zero : Option Config → Config
config_or_zero none = zero_config
config_or_zero (some c) = c

module _ (sha256 : Bytes → Bytes) where
  -- The three modes, and the error of any other.
  unfoldable pub run_mode :
      TypeConfigMode → Config → List Bytes → List Bytes → ℕ → Checked MerkleTree
  unfolding generate_proofs build_tree fill_leaf_map update_levels init_proofs
  run_mode mode_proof_gen c ks leaves depth = do
    (root, proofs) ← generate_proofs (hash_of sha256 c) (concat_func c) depth leaves
    ok (record {
      config = c;
      leaf_map = [];
      nodes = [];
      root = root;
      leaves = leaves;
      proofs = proofs;
      depth = depth;
      num_leaves = length leaves;
      keys = ks;
    })
  run_mode mode_tree_build c ks leaves depth = do
    (nodes, root) ← build_tree (hash_of sha256 c) (concat_func c) depth leaves
    ok (record {
      config = c;
      leaf_map = fill_leaf_map 0 leaves [];
      nodes = nodes;
      root = root;
      leaves = leaves;
      proofs = [];
      depth = depth;
      num_leaves = length leaves;
      keys = ks;
    })
  run_mode mode_proof_gen_and_tree_build c ks leaves depth = do
    (nodes, root) ← build_tree (hash_of sha256 c) (concat_func c) depth leaves
    ok (record {
      config = c;
      leaf_map = fill_leaf_map 0 leaves [];
      nodes = nodes;
      root = root;
      leaves = leaves;
      proofs = update_levels 0 nodes (init_proofs (length leaves));
      depth = depth;
      num_leaves = length leaves;
      keys = ks;
    })
  run_mode other_mode c ks leaves depth = err invalid_config_mode

  -- `New(config, blocks)`
  unfoldable pub new : Option Config → GoMap DataBlock → Checked MerkleTree
  unfolding run_mode blocks_of generate_leaves sort_strings bits_len
  new config blocks = do
    let ks = sort_strings (keys blocks)
    let sorted = blocks_of ks blocks
    guard (ltb 1 (length sorted)) invalid_num_of_data_blocks
    let c = config_or_zero config
    leaves ← generate_leaves sha256 c sorted
    run_mode c.mode c ks leaves (bits_len (length sorted - 1))

  -- `m.Verify(dataBlock, proof)`
  unfoldable pub verify_block : MerkleTree → Option DataBlock → Option Proof → Checked (Unit {0})
  unfolding verify
  verify_block m block proof = verify sha256 block proof m.root (some m.config)

-- The loop of `Proof`: the siblings from level `i` on, and the path.
unfoldable pub proof_loop : ℕ → List (List Bytes) → ℕ → List Bytes → ℕ → Proof
proof_loop i [] idx siblings path = record { siblings = siblings; path = path }
proof_loop i (level ∷ levels) idx siblings path =
    let odd = idx % 2 == 1 in
    let sibling = if odd then get_or level (idx - 1) [] else get_or level (idx + 1) [] in
    proof_loop (i + 1) levels (idx / 2) (siblings ++ sibling ∷ [])
      (if odd then path else (path + 2 ^ i % 2 ^ 32) % 2 ^ 32)

-- `sort.SearchStrings`: the first index whose string is not below the key.
unfoldable pub search_strings : List Bytes → Bytes → ℕ
search_strings [] key = 0
search_strings (k ∷ ks) key = if bytes_lt k key then suc (search_strings ks key) else 0

-- `none` is Go's `-1, false`.
unfoldable pub get_index_for_key : MerkleTree → Bytes → Option ℕ
unfolding search_strings
get_index_for_key t key =
    let i = search_strings t.keys key in
    elim (get_elem? t.keys i) [ none ↦ none | some k ↦ if bytes_eq k key then some i else none ]

abbrev is_built : TypeConfigMode → Bool
is_built mode_tree_build = true
is_built mode_proof_gen_and_tree_build = true
is_built _ = false

-- `Proof(dataBlock)`
unfoldable pub proof_of : (Bytes → Bytes) → MerkleTree → DataBlock → Checked Proof
unfolding proof_loop data_block_to_leaf lookup
proof_of sha256 m block = do
  guard (is_built m.config.mode) proof_invalid_mode_tree_not_built
  leaf ← data_block_to_leaf sha256 block m.config
  elim (lookup leaf m.leaf_map) [
    | none ↦ err proof_invalid_data_block
    | some idx ↦ ok (proof_loop 0 m.nodes idx [] 0)
  ]
