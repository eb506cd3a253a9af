-- ===== src/Merkle/Binding.antt =====
-- merkletree/merkletree.go: a root is bound to the blocks that verify against it.
use scionic_merkle_tree_go.Common.{
  ℕ, ◌/◌, ◌%◌, ◌≡◌, ◌≢◌, refl, sym, ap, ◌∙◌, subst, Bool, true, false, some, none, List, [], ◌∷◌,
  ◌++◌, Bytes, length, length-append, ◌==◌, bytes_eq, Result, ok, guard, arith, inl, inr,
  Bool-cases, >>=-eq-ok, guard-eq-ok, ok-injective, bytes_eq_refl, eq_of_bytes_eq, ◌⊎◌,
}
use scionic_merkle_tree_go.Merkle.Defs.{
  MerkleError, Proof, walk, verify, hash_of, concat_func, concat_hash, verification_failed,
}

-- Two different byte strings with one hash.
abbrev pub Collides : (Bytes → Bytes) → Type 0
Collides sha256 = (x y : Bytes) × (x ≢ y) × (sha256 x ≡ sha256 y)

same_prefix : (xs ys us vs : Bytes) → length xs ≡ length ys → xs ++ us ≡ ys ++ vs → xs ≡ ys
same_prefix [] [] us vs len e = refl
same_prefix [] (y ∷ ys) us vs len e = absurd (omega arith)
same_prefix (x ∷ xs) [] us vs len e = absurd (omega arith)
same_prefix (x ∷ xs) (y ∷ ys) us vs len e =
    let first : x ≡ y = cc e in
    let rest : xs ++ us ≡ ys ++ vs = cc e in
    rw (first, same_prefix xs ys us vs (omega arith) rest) refl

same_suffix : (xs ys us vs : Bytes) → length us ≡ length vs → xs ++ us ≡ ys ++ vs → us ≡ vs
same_suffix [] [] us vs len e = e
same_suffix [] (y ∷ ys) us vs len e = absurd (omega (arith, ap length e, length-append (y ∷ ys) vs))
same_suffix (x ∷ xs) [] us vs len e = absurd (omega (arith, ap length e, length-append (x ∷ xs) us))
same_suffix (x ∷ xs) (y ∷ ys) us vs len e =
    let rest : xs ++ us ≡ ys ++ vs = cc e in same_suffix xs ys us vs len rest

module _ (sha256 : Bytes → Bytes) (n : ℕ) (fixed : (b : Bytes) → length (sha256 b) ≡ n) where
  equal_or_Collides : (x y : Bytes) → sha256 x ≡ sha256 y → (x ≡ y) ⊎ Collides sha256
  equal_or_Collides x y e = elim (Bool-cases (bytes_eq x y)) [
    | inl equal ↦ inl (eq_of_bytes_eq x y equal)
    | inr other ↦ inr (x, y, apart x y other, e)
  ]
    where
      apart : (x y : Bytes) → bytes_eq x y ≡ false → x ≢ y
      apart x y other same =
          let equal : bytes_eq x y ≡ true = rw same (bytes_eq_refl y) in
          absurd (cc (sym other ∙ equal))

  plain_hash : Bytes → Result MerkleError Bytes
  plain_hash b = ok (sha256 b)

  join : Bool → Bytes → Bytes → Bytes
  join true result sib = concat_hash result sib
  join false result sib = concat_hash sib result

  join-injective :
      (side : Bool) (r s p q : Bytes) → length r ≡ length s → join side r p ≡ join side s q → r ≡ s
  unfolding join
  join-injective true r s p q len e = same_prefix r s p q len e
  join-injective false r s p q len e = same_suffix p q r s len e

  walk_step :
      (r p : Bytes) (ps : List Bytes) (path : ℕ) (root : Bytes)
      → walk plain_hash concat_hash r (p ∷ ps) path ≡ ok root
      → walk plain_hash concat_hash (sha256 (join (path % 2 == 1) r p)) ps (path / 2) ≡ ok root
  unfolding walk join plain_hash
  walk_step r p ps path root e = elim (Bool-cases (path % 2 == 1)) [
    | inl odd ↦ rw odd (rw odd at e)
    | inr even ↦ rw even (rw even at e)
  ]

  walk-binding :
      (ps qs : List Bytes) (r s : Bytes) (path : ℕ) (root : Bytes)
      → length r ≡ length s
      → length ps ≡ length qs
      → walk plain_hash concat_hash r ps path ≡ ok root
      → walk plain_hash concat_hash s qs path ≡ ok root
      → (r ≡ s) ⊎ Collides sha256
  unfolding walk
  walk-binding [] [] r s path root len count e f = inl (ok-injective (e ∙ sym f))
  walk-binding [] (q ∷ qs) r s path root len count e f = absurd (omega arith)
  walk-binding (p ∷ ps) [] r s path root len count e f = absurd (omega arith)
  walk-binding (p ∷ ps) (q ∷ qs) r s path root len count e f =
      let side = path % 2 == 1 in
      let x = join side r p in
      let y = join side s q in
      elim (walk-binding ps qs (sha256 x) (sha256 y) (path / 2) root (fixed x ∙ sym (fixed y))
        (omega arith) (walk_step r p ps path root e) (walk_step s q qs path root f)) [
          | inr collision ↦ inr collision
          | inl hashes ↦ elim (equal_or_Collides x y hashes) [
            | inr collision ↦ inr collision
            | inl joined ↦ inl (join-injective side r s p q len joined)
          ]
        ]

  verified_walk :
      (a root : Bytes) (p : Proof)
      → verify sha256 (some (ok a)) (some p) root none ≡ ok tt
      → walk plain_hash concat_hash (sha256 a) p.siblings p.path ≡ ok root
  unfolding verify hash_of concat_func plain_hash
  verified_walk a root p e =
      let check : Bytes → Result MerkleError (Unit {0}) =
        λ result. guard (bytes_eq result root) verification_failed in
      let (result, walked, checked) =
        >>=-eq-ok (walk plain_hash concat_hash (sha256 a) p.siblings p.path) check e in
      walked
      ∙ ap ok (
          eq_of_bytes_eq result root
            (guard-eq-ok (bytes_eq result root) verification_failed checked))

  -- A root is bound to what verifies against it: two blocks that pass `Verify` against one root, with
  -- proofs of one path and one number of siblings, are equal, or SHA-256 has a collision. The hashes
  -- are to have one length, and the configuration is the default one.
  pub verify-binding :
      (a b root : Bytes) (p q : Proof)
      → p.path ≡ q.path
      → length p.siblings ≡ length q.siblings
      → verify sha256 (some (ok a)) (some p) root none ≡ ok tt
      → verify sha256 (some (ok b)) (some q) root none ≡ ok tt
      → (a ≡ b) ⊎ Collides sha256
  verify-binding a b root p q path count e f =
      let wa = verified_walk a root p e in
      let wb =
        subst (λ (t : ℕ). walk plain_hash concat_hash (sha256 b) q.siblings t ≡ ok root) (sym path)
          (verified_walk b root q f) in
      elim (walk-binding p.siblings q.siblings (sha256 a) (sha256 b) p.path root
        (fixed a ∙ sym (fixed b)) count wa wb) [
          | inr collision ↦ inr collision
          | inl hashes ↦ equal_or_Collides a b hashes
        ]
