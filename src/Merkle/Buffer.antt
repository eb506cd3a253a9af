-- ===== src/Merkle/Buffer.antt =====
-- merkletree/merkletree.go: what one level of `generateProofs` leaves in the buffer.
use scionic_merkle_tree_go.Common.{
  ℕ, zero, suc, ◌+◌, ◌-◌, ◌*◌, ◌%◌, ◌≤◌, ◌<◌, ◌≡◌, refl, sym, ap, ◌∙◌, List, [], ◌∷◌, ◌++◌, Bytes,
  length, get_or, ltb, ◌==◌, if◌then◌else◌, arith, Bool-cases, inl, inr, length-append, ok, ◌>>=◌,
  >>=-eq-ok, ok-injective, ltb→le,
}
use scionic_merkle_tree_go.Merkle.Defs.{
  TypeHashFunc, Checked, set, fix_odd_length, halve_loop, node_at, hash_pair,
}

module _ {ℓ} {A : Type ℓ} where
  pub length-set : (xs : List A) (i : ℕ) (v : A) → length (set xs i v) ≡ length xs
  length-set [] i v = refl
  length-set (x ∷ xs) zero v = refl
  length-set (x ∷ xs) (suc i) v = ap suc (length-set xs i v)

  pub get_or-set :
      (xs : List A) (i j : ℕ) (v d : A)
      → i < length xs
      → get_or (set xs i v) j d ≡ (if i == j then v else get_or xs j d)
  get_or-set [] i j v d h = elim h [ ]
  get_or-set (x ∷ xs) zero zero v d h = refl
  get_or-set (x ∷ xs) zero (suc j) v d h = ground arith
  get_or-set (x ∷ xs) (suc i) zero v d h = ground arith
  get_or-set (x ∷ xs) (suc i) (suc j) v d h = ground (arith, get_or-set xs i j v d)

  pub get_or-append_left :
      (xs ys : List A) (j : ℕ) (d : A) → j < length xs → get_or (xs ++ ys) j d ≡ get_or xs j d
  get_or-append_left [] ys j d h = elim h [ ]
  get_or-append_left (x ∷ xs) ys zero d h = refl
  get_or-append_left (x ∷ xs) ys (suc j) d h = get_or-append_left xs ys j d (omega arith)

-- `fixed[:m]` is an even number of nodes that begins with `buffer[:n]`.
pub record IsPadded (buffer : List Bytes) (n : ℕ) (fixed : List Bytes) (m : ℕ) : Type 0 where
  pub even : m % 2 ≡ 0
  pub low : n ≤ m
  pub high : m ≤ n + 1
  pub room : m ≤ length fixed
  pub same : (q : ℕ) → q < n → get_or fixed q [] ≡ get_or buffer q []

pub fix_odd_length-IsPadded :
    (buffer : List Bytes) (n : ℕ)
    → n ≤ length buffer
    → IsPadded buffer n (fix_odd_length buffer n).0 (fix_odd_length buffer n).1
unfolding fix_odd_length
fix_odd_length-IsPadded buffer n h = elim (Bool-cases (n % 2 == 0)) [
  | inl even ↦ rw even (record {
    even = ground arith;
    low = omega arith;
    high = omega arith;
    room = h;
    same = λ q _. refl;
  })
  | inr odd ↦ elim (Bool-cases (ltb (length buffer) (n + 1))) [
    | inl grow ↦
        rw (odd, grow)
          (record {
            even = ground arith;
            low = omega arith;
            high = omega arith;
            room = omega (arith, length-append buffer (get_or buffer (n - 1) [] ∷ []));
            same = λ q below. get_or-append_left buffer _ q [] (omega arith);
          })
    | inr keep ↦
        rw (odd, keep)
          (record {
            even = ground arith;
            low = omega arith;
            high = omega arith;
            room = omega (
              arith,
              length-set buffer n (get_or buffer (n - 1) []),
              ltb→le (length buffer) (n + 1) keep,
            );
            same = λ q below. ground (
              arith,
              get_or-set buffer n q (get_or buffer (n - 1) []) [],
              ltb→le (length buffer) (n + 1) keep,
            );
          })
  ]
]

module _ (hash : TypeHashFunc) (concat : Bytes → Bytes → Bytes) where
  -- The hash of the pair of nodes that stands at `2 q`.
  abbrev pub pair_hash : List Bytes → ℕ → Checked Bytes
  pair_hash buffer q = hash (concat (get_or buffer (2 * q) []) (get_or buffer (2 * q + 1) []))

  node_at-get_or :
      (buffer : List Bytes) (i : ℕ) (node : Bytes)
      → node_at buffer i ≡ ok node
      → get_or buffer i [] ≡ node
  unfolding node_at
  node_at-get_or [] i node e = absurd (cc e)
  node_at-get_or (x ∷ buffer) zero node e = ok-injective e
  node_at-get_or (x ∷ buffer) (suc i) node e = node_at-get_or buffer i node e

  -- A pair that has been hashed is the pair that stands there.
  pub hash_pair-pair_hash :
      (buffer : List Bytes) (q : ℕ) (node : Bytes)
      → hash_pair hash concat buffer (2 * q) ≡ ok node
      → pair_hash buffer q ≡ ok node
  unfolding hash_pair
  hash_pair-pair_hash buffer q node e =
      let last : Bytes → Bytes → Checked Bytes = λ l r. hash (concat l r) in
      let (l, left, rest) =
        >>=-eq-ok (node_at buffer (2 * q)) (λ l. node_at buffer (2 * q + 1) >>= last l) e in
      let (r, right, hashed) = >>=-eq-ok (node_at buffer (2 * q + 1)) (last l) rest in
      rw (node_at-get_or buffer (2 * q) l left, node_at-get_or buffer (2 * q + 1) r right) hashed

  pub halve_loop_keeps :
      (rounds j : ℕ) (buffer out : List Bytes)
      → 2 * (j + rounds) ≤ length buffer
      → halve_loop hash concat rounds j buffer ≡ ok out
      → (length out ≡ length buffer)
        × ((q : ℕ) → q < j → get_or out q [] ≡ get_or buffer q [])
        × ((q : ℕ) → j ≤ q → q < j + rounds → pair_hash buffer q ≡ ok (get_or out q []))
  unfolding halve_loop
  halve_loop_keeps zero j buffer out room e = (
    ap length (sym (ok-injective e)),
    λ q _. ap (λ t. get_or t q []) (sym (ok-injective e)),
    λ q low high. absurd (omega arith),
  )
  halve_loop_keeps (suc rounds) j buffer out room e =
      let (node, paired, more) =
        >>=-eq-ok (hash_pair hash concat buffer (2 * j))
          (λ node. halve_loop hash concat rounds (j + 1) (set buffer j node)) e in
      let hashed = hash_pair-pair_hash buffer j node paired in
      let buffer' = set buffer j node in
      let size = length-set buffer j node in
      let (len, before, after) = halve_loop_keeps rounds (j + 1) buffer' out (omega arith) more in
      let kept = λ (q : ℕ). get_or-set buffer j q node [] (omega arith) in
      (
        len ∙ size,
        λ q below. ground (arith, before q, kept q),
        λ q low high. elim (Bool-cases (j == q)) [
          | inl now ↦
              let same : j ≡ q = ground arith in
              let value : get_or out q [] ≡ node = ground (arith, before q, kept q) in
              rw (value, ← same) hashed
          | inr later ↦
              let first : get_or buffer' (2 * q) [] ≡ get_or buffer (2 * q) [] =
                ground (arith, kept (2 * q)) in
              let second : get_or buffer' (2 * q + 1) [] ≡ get_or buffer (2 * q + 1) [] =
                ground (arith, kept (2 * q + 1)) in
              rw (← first, ← second) (after q (ground arith) (omega arith))
        ],
      )
