-- ===== src/Merkle/Update.antt =====
-- merkletree/merkletree.go: `updateProofs` at a level gives each proof the sibling of its node.
use scionic_merkle_tree_go.Common.{
  ℕ, zero, suc, ◌+◌, ◌-◌, ◌*◌, ◌/◌, ◌%◌, ◌^◌, ◌≤◌, ◌<◌, ◌≡◌, refl, ap, ◌∙◌, true, false, ◌&&◌, some,
  List, [], ◌∷◌, Bytes, length, get_or, get_elem?, ltb, leb, ◌==◌, if◌then◌else◌, min, arith,
  Bool-cases, ltb→lt, ltb→le, inl, inr, ◌⊎◌,
}
use scionic_merkle_tree_go.Merkle.Defs.{
  Proof, update_range, add_right, add_left, update_proof_pairs, update_proofs_loop, update_proofs,
}

length-update_range :
    (start end i : ℕ) (f : Proof → Proof) (ps : List Proof)
    → length (update_range start end i f ps) ≡ length ps
unfolding update_range
length-update_range start end i f [] = refl
length-update_range start end i f (p ∷ ps) = ap suc (length-update_range start end (i + 1) f ps)

-- The element at `j` stands at index `i + j`; it is changed just if that lies in the range.
update_range_hit :
    (start end i : ℕ) (f : Proof → Proof) (ps : List Proof) (j : ℕ) (p : Proof)
    → get_elem? ps j ≡ some p
    → start ≤ i + j
    → i + j < end
    → get_elem? (update_range start end i f ps) j ≡ some (f p)
unfolding update_range
update_range_hit start end i f [] j p e low high = absurd (cc e)
update_range_hit start end i f (x ∷ ps) zero p e low high =
    let inside : (leb start i && ltb i end) ≡ true = ground arith in rw inside (first e)
  where
    first : some x ≡ some p → some (f x) ≡ some (f p)
    first e = cc
update_range_hit start end i f (x ∷ ps) (suc j) p e low high =
    update_range_hit start end (i + 1) f ps j p e (omega arith) (omega arith)

update_range_miss :
    (start end i : ℕ) (f : Proof → Proof) (ps : List Proof) (j : ℕ)
    → (i + j < start) ⊎ (end ≤ i + j)
    → get_elem? (update_range start end i f ps) j ≡ get_elem? ps j
unfolding update_range
update_range_miss start end i f [] j out = refl
update_range_miss start end i f (x ∷ ps) zero out =
    let outside : (leb start i && ltb i end) ≡ false = ground arith in rw outside
update_range_miss start end i f (x ∷ ps) (suc j) out =
    update_range_miss start end (i + 1) f ps j (shift out)
  where
    shift : (i + suc j < start) ⊎ (end ≤ i + suc j) → (i + 1 + j < start) ⊎ (end ≤ i + 1 + j)
    shift (inl a) = inl (omega arith)
    shift (inr a) = inr (omega arith)

pub lt-length_of_get_elem? :
    {A : Type 0} (xs : List A) (i : ℕ) {x : A} → get_elem? xs i ≡ some x → i < length xs
lt-length_of_get_elem? [] i e = absurd (cc e)
lt-length_of_get_elem? (x ∷ xs) zero e = omega arith
lt-length_of_get_elem? (x ∷ xs) (suc i) e = omega (arith, lt-length_of_get_elem? xs i e)

-- What one level appends to the proof whose node is `q`.
unfoldable pub extend : List Bytes → ℕ → ℕ → Proof → Proof
extend buffer step q p =
    if q % 2 == 0
    then add_right step (get_or buffer (q + 1) []) p
    else add_left (get_or buffer (q - 1) []) p

mul_mono : (a b c : ℕ) → a ≤ b → a * c ≤ b * c
mul_mono a b c h = grind arith

module _ (buffer : List Bytes) (step batch : ℕ) (q r : ℕ) (within : r < batch) where
  pairs_outside :
      (idx : ℕ) (ps : List Proof)
      → (q < idx) ⊎ (idx + 1 < q)
      → get_elem? (update_proof_pairs buffer idx batch step ps) (q * batch + r)
        ≡ get_elem? ps (q * batch + r)
  unfolding update_proof_pairs
  pairs_outside idx ps out =
      update_range_miss _ _ 0 _ _ (q * batch + r) (second out)
      ∙ update_range_miss _ _ 0 _ ps (q * batch + r) (first out)
    where
      first :
          (q < idx) ⊎ (idx + 1 < q)
          → (0 + (q * batch + r) < idx * batch)
            ⊎ (min (idx * batch + batch) (length ps) ≤ 0 + (q * batch + r))
      first (inl a) = inl (omega (arith, mul_mono (suc q) idx batch a))
      first (inr a) = inr (omega (arith, mul_mono (idx + 2) q batch (omega arith)))

      second :
          (q < idx) ⊎ (idx + 1 < q)
          → (0 + (q * batch + r) < idx * batch + batch)
            ⊎ (min (idx * batch + batch + batch) (length ps) ≤ 0 + (q * batch + r))
      second (inl a) = inl (omega (arith, mul_mono (suc q) idx batch a))
      second (inr a) = inr (omega (arith, mul_mono (idx + 2) q batch (omega arith)))

  pairs_left :
      (ps : List Proof) (p : Proof)
      → q % 2 ≡ 0
      → get_elem? ps (q * batch + r) ≡ some p
      → get_elem? (update_proof_pairs buffer q batch step ps) (q * batch + r)
        ≡ some (extend buffer step q p)
  unfolding update_proof_pairs extend
  pairs_left ps p even e =
      update_range_miss _ _ 0 _ _ (q * batch + r) (inl (omega arith))
      ∙ update_range_hit _ _ 0 _ ps (q * batch + r) p e (omega arith)
          (omega (arith, lt-length_of_get_elem? ps (q * batch + r) e))
      ∙ rw even refl

  pairs_right :
      (idx : ℕ) (ps : List Proof) (p : Proof)
      → idx + 1 ≡ q
      → q % 2 ≡ 1
      → get_elem? ps (q * batch + r) ≡ some p
      → get_elem? (update_proof_pairs buffer idx batch step ps) (q * batch + r)
        ≡ some (extend buffer step q p)
  unfolding update_proof_pairs extend
  pairs_right idx ps p next odd e =
      let here : idx * batch + batch ≡ q * batch = rw (← next) (omega arith) in
      let before : q - 1 ≡ idx = omega arith in
      update_range_hit _ _ 0 _ _ (q * batch + r) p
        (update_range_miss _ _ 0 _ ps (q * batch + r) (inr (omega arith)) ∙ e) (omega arith)
        (omega (arith, lt-length_of_get_elem? ps (q * batch + r) e))
      ∙ rw (odd, before) refl

module _ (buffer : List Bytes) (step : ℕ) (q r : ℕ) (within : r < 2 ^ step) where
  loop_before :
      (rounds idx : ℕ) (ps : List Proof)
      → q < idx
      → get_elem? (update_proofs_loop rounds idx buffer step ps) (q * 2 ^ step + r)
        ≡ get_elem? ps (q * 2 ^ step + r)
  unfolding update_proofs_loop
  loop_before zero idx ps before = refl
  loop_before (suc rounds) idx ps before =
      loop_before rounds (idx + 2) (update_proof_pairs buffer idx (2 ^ step) step ps) (omega arith)
      ∙ pairs_outside buffer step (2 ^ step) q r within idx ps (inl before)

  loop_at :
      (rounds idx : ℕ) (ps : List Proof) (p : Proof)
      → idx % 2 ≡ 0
      → idx ≤ q
      → q < idx + 2 * rounds
      → get_elem? ps (q * 2 ^ step + r) ≡ some p
      → get_elem? (update_proofs_loop rounds idx buffer step ps) (q * 2 ^ step + r)
        ≡ some (extend buffer step q p)
  unfolding update_proofs_loop
  loop_at zero idx ps p even low high e = absurd (omega arith)
  loop_at (suc rounds) idx ps p even low high e = elim (Bool-cases (ltb (idx + 1) q)) [
    | inl later ↦
        loop_at rounds (idx + 2) next p (omega arith) (omega (arith, ltb→lt (idx + 1) q later))
          (omega arith)
          (pairs_outside buffer step (2 ^ step) q r within idx ps (inr (ltb→lt (idx + 1) q later))
            ∙ e)
    | inr now ↦
        loop_before rounds (idx + 2) next (omega (arith, ltb→le (idx + 1) q now))
        ∙ elim (Bool-cases (ltb idx q)) [
          | inl right ↦
              pairs_right buffer step (2 ^ step) q r within idx ps p
                (omega (arith, ltb→le (idx + 1) q now, ltb→lt idx q right))
                (omega (arith, ltb→le (idx + 1) q now, ltb→lt idx q right)) e
          | inr left ↦
              let same : idx ≡ q = omega (arith, ltb→le idx q left) in
              rw same (pairs_left buffer step (2 ^ step) q r within ps p (rw same at even) e)
        ]
  ]
    where
      next : List Proof
      next = update_proof_pairs buffer idx (2 ^ step) step ps

  -- At level `step` the proof of every leaf whose node is within the buffer is extended once.
  pub update_proofs_at :
      (n : ℕ) (ps : List Proof) (p : Proof)
      → q < n
      → get_elem? ps (q * 2 ^ step + r) ≡ some p
      → get_elem? (update_proofs buffer n step ps) (q * 2 ^ step + r)
        ≡ some (extend buffer step q p)
  unfolding update_proofs
  update_proofs_at n ps p h e =
      loop_at ((n + 1) / 2) 0 ps p (omega arith) (omega arith) (omega arith) e

length-update_proofs_loop :
    (rounds idx : ℕ) (buffer : List Bytes) (step : ℕ) (ps : List Proof)
    → length (update_proofs_loop rounds idx buffer step ps) ≡ length ps
unfolding update_proofs_loop update_proof_pairs
length-update_proofs_loop zero idx buffer step ps = refl
length-update_proofs_loop (suc rounds) idx buffer step ps =
    length-update_proofs_loop rounds (idx + 2) buffer step _
    ∙ length-update_range _ _ 0 _ _
    ∙ length-update_range _ _ 0 _ ps

pub length-update_proofs :
    (buffer : List Bytes) (n step : ℕ) (ps : List Proof)
    → length (update_proofs buffer n step ps) ≡ length ps
unfolding update_proofs
length-update_proofs buffer n step ps = length-update_proofs_loop ((n + 1) / 2) 0 buffer step ps
