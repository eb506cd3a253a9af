-- ===== src/Merkle/Defs.antt =====
-- merkletree/merkletree.go: data, construction without parallel workers, proofs, verification.
-- `sha256` of the Go library is a parameter. A `DataBlock` is the result of its `Serialize`.
use scionic_merkle_tree_go.Common.{
  ℕ, zero, suc, ◌+◌, ◌-◌, ◌*◌, ◌/◌, ◌%◌, ◌^◌, Bool, false, ◌&&◌, Option, some, none, List, [], ◌∷◌,
  ◌++◌, Bytes, length, get_or, ltb, leb, ◌==◌, if◌then◌else◌, bytes_eq, bytes_lt, Result, ok, err,
  ◌>>=◌, guard, min, replicate,
}

pub data MerkleError : Type 0 where
  invalid_num_of_data_blocks invalid_config_mode proof_is_nil data_block_is_nil : MerkleError
  proof_invalid_mode_tree_not_built proof_invalid_data_block verification_failed : MerkleError
  hash_failed serialize_failed : MerkleError
  -- Go panics.
  index_out_of_range : MerkleError

abbrev pub Checked {ℓ} : Type ℓ → Type ℓ
Checked = Result MerkleError

pub data TypeConfigMode : Type 0 where
  mode_proof_gen mode_tree_build mode_proof_gen_and_tree_build : TypeConfigMode
  other_mode : TypeConfigMode

abbrev pub TypeHashFunc : Type 0
TypeHashFunc = Bytes → Checked Bytes

abbrev pub DataBlock : Type 0
DataBlock = Checked Bytes

pub record Config : Type 0 where
  pub hash_func : Option TypeHashFunc
  pub mode : TypeConfigMode
  pub sort_sibling_pairs : Bool
  pub disable_leaf_hashing : Bool

-- `new(Config)`
abbrev pub zero_config : Config
zero_config = record {
  hash_func = none;
  mode = mode_proof_gen;
  sort_sibling_pairs = false;
  disable_leaf_hashing = false;
}

pub record Proof : Type 0 where
  pub siblings : List Bytes
  pub path : ℕ

-- `concatHash`
abbrev pub concat_hash : Bytes → Bytes → Bytes
concat_hash b1 b2 = b1 ++ b2

-- `bytes.Compare(b1, b2) < 0` is the order on strings.
unfoldable pub concat_sort_hash : Bytes → Bytes → Bytes
concat_sort_hash b1 b2 = if bytes_lt b1 b2 then concat_hash b1 b2 else concat_hash b2 b1

unfoldable pub concat_func : Config → Bytes → Bytes → Bytes
unfolding concat_sort_hash
concat_func c b1 b2 = if c.sort_sibling_pairs then concat_sort_hash b1 b2 else concat_hash b1 b2

-- `config.HashFunc`, where nil stands for SHA-256.
unfoldable pub hash_of : (Bytes → Bytes) → Config → TypeHashFunc
hash_of sha256 c = elim c.hash_func [ none ↦ (λ b. ok (sha256 b)) | some h ↦ h ]

unfoldable pub data_block_to_leaf : (Bytes → Bytes) → DataBlock → Config → Checked Bytes
data_block_to_leaf sha256 block c = do
  bytes ← block
  if c.disable_leaf_hashing then ok bytes else hash_of sha256 c bytes

unfoldable pub generate_leaves : (Bytes → Bytes) → Config → List DataBlock → Checked (List Bytes)
unfolding data_block_to_leaf
generate_leaves sha256 c [] = ok []
generate_leaves sha256 c (b ∷ bs) = do
  leaf ← data_block_to_leaf sha256 b c
  leaves ← generate_leaves sha256 c bs
  ok (leaf ∷ leaves)

module _ {ℓ} {A : Type ℓ} where
  -- `xs[i] = v`, for an `i` within the slice.
  abbrev pub set : List A → ℕ → A → List A
  set [] i v = []
  set (x ∷ xs) zero v = v ∷ xs
  set (x ∷ xs) (suc i) v = x ∷ set xs i v

-- `fixOddLength`: the last node is there twice, in a new cell or in the next one of the buffer.
unfoldable pub fix_odd_length : List Bytes → ℕ → List Bytes × ℕ
fix_odd_length buffer n =
    if n % 2 == 0
    then (buffer, n)
    else let node = get_or buffer (n - 1) [] in
      if ltb (length buffer) (n + 1)
      then (buffer ++ node ∷ [], n + 1)
      else (set buffer n node, n + 1)

-- `bits.Len`
unfoldable pub bits_len_loop : ℕ → ℕ → ℕ
bits_len_loop zero n = 0
bits_len_loop (suc fuel) zero = 0
bits_len_loop (suc fuel) (suc n) = suc (bits_len_loop fuel (suc n / 2))

unfoldable pub bits_len : ℕ → ℕ
unfolding bits_len_loop
bits_len n = bits_len_loop n n

-- `for i := start; i < end; i++ { … m.Proofs[i] … }`; the list starts at index `i`.
unfoldable pub update_range : ℕ → ℕ → ℕ → (Proof → Proof) → List Proof → List Proof
update_range start end i f [] = []
update_range start end i f (p ∷ ps) =
    (if leb start i && ltb i end then f p else p) ∷ update_range start end (i + 1) f ps

-- `m.Proofs[i].Path += 1 << step` on a uint32, and the sibling appended.
unfoldable pub add_right : ℕ → Bytes → Proof → Proof
add_right step sibling p = record {
  siblings = p.siblings ++ sibling ∷ [];
  path = (p.path + 2 ^ step % 2 ^ 32) % 2 ^ 32;
}

unfoldable pub add_left : Bytes → Proof → Proof
add_left sibling p = record { siblings = p.siblings ++ sibling ∷ []; path = p.path }

-- A sibling beyond the buffer, on which Go panics, would be empty here; the buffer is even where this
-- is called.
unfoldable pub update_proof_pairs : List Bytes → ℕ → ℕ → ℕ → List Proof → List Proof
unfolding update_range add_right add_left
update_proof_pairs buffer idx batch step proofs =
    let start = idx * batch in
    let first =
      update_range start (min (start + batch) (length proofs)) 0
        (add_right step (get_or buffer (idx + 1) [])) proofs in
    update_range (start + batch) (min (start + batch + batch) (length proofs)) 0
      (add_left (get_or buffer idx [])) first

-- `for i := 0; i < bufferLength; i += 2`: `rounds` rounds from `idx` on.
unfoldable pub update_proofs_loop : ℕ → ℕ → List Bytes → ℕ → List Proof → List Proof
unfolding update_proof_pairs
update_proofs_loop zero idx buffer step proofs = proofs
update_proofs_loop (suc rounds) idx buffer step proofs =
    update_proofs_loop rounds (idx + 2) buffer step
      (update_proof_pairs buffer idx (2 ^ step) step proofs)

unfoldable pub update_proofs : List Bytes → ℕ → ℕ → List Proof → List Proof
unfolding update_proofs_loop
update_proofs buffer buffer_length step proofs =
    update_proofs_loop ((buffer_length + 1) / 2) 0 buffer step proofs

unfoldable pub init_proofs : ℕ → List Proof
init_proofs n = replicate n (record { siblings = []; path = 0 })

-- `buffer[i]`
unfoldable pub node_at : List Bytes → ℕ → Checked Bytes
node_at [] i = err index_out_of_range
node_at (node ∷ buffer) zero = ok node
node_at (node ∷ buffer) (suc i) = node_at buffer i

module _ (hash : TypeHashFunc) (concat : Bytes → Bytes → Bytes) where
  -- `hash(concat(buffer[i], buffer[i+1]))`
  unfoldable pub hash_pair : List Bytes → ℕ → Checked Bytes
  unfolding node_at
  hash_pair buffer i = do
    left ← node_at buffer i
    right ← node_at buffer (i + 1)
    hash (concat left right)

  -- `buffer[idx>>1] = hash(concat(buffer[idx], buffer[idx+1]))`, in place; `j` is `idx / 2`.
  unfoldable pub halve_loop : ℕ → ℕ → List Bytes → Checked (List Bytes)
  unfolding hash_pair
  halve_loop zero j buffer = ok buffer
  halve_loop (suc rounds) j buffer = do
    node ← hash_pair buffer (2 * j)
    halve_loop rounds (j + 1) (set buffer j node)

  -- `for step := 1; step < m.Depth; step++`, with `rounds` steps to go.
  unfoldable pub proof_steps :
      ℕ → ℕ → List Bytes → ℕ → List Proof → Checked (List Bytes × List Proof)
  unfolding halve_loop fix_odd_length update_proofs
  proof_steps zero step buffer n proofs = ok (buffer, proofs)
  proof_steps (suc rounds) step buffer n proofs = do
    halved ← halve_loop ((n + 1) / 2) 0 buffer
    let (fixed, m) = fix_odd_length halved (n / 2)
    proof_steps rounds (step + 1) fixed m (update_proofs fixed m step proofs)

  -- `generateProofs`: the root and the proofs.
  unfoldable pub generate_proofs : ℕ → List Bytes → Checked (Bytes × List Proof)
  unfolding proof_steps fix_odd_length update_proofs init_proofs hash_pair
  generate_proofs depth leaves = do
    let n = length leaves
    let (fixed, m) = fix_odd_length leaves n
    (buffer, proofs) ← proof_steps (depth - 1) 1 fixed m (update_proofs fixed n 0 (init_proofs n))
    root ← hash_pair buffer 0
    ok (root, proofs)

  -- The walk of `Verify` over the siblings: bit 0 of the path says on which side the node is.
  unfoldable pub walk : Bytes → List Bytes → ℕ → Checked Bytes
  walk result [] path = ok result
  walk result (sib ∷ sibs) path = do
    next ← hash (if path % 2 == 1 then concat result sib else concat sib result)
    walk next sibs (path / 2)

-- `Verify(dataBlock, proof, root, config)`; the options are Go's nil pointers.
unfoldable pub verify :
    (Bytes → Bytes) → Option DataBlock → Option Proof → Bytes → Option Config → Checked (Unit {0})
unfolding walk data_block_to_leaf
verify sha256 none proof root config = err data_block_is_nil
verify sha256 (some block) none root config = err proof_is_nil
verify sha256 (some block) (some proof) root config = do
  let c : Config = elim config [ none ↦ zero_config | some c ↦ c ]
  leaf ← data_block_to_leaf sha256 block c
  result ← walk (hash_of sha256 c) (concat_func c) leaf proof.siblings proof.path
  guard (bytes_eq result root) verification_failed
