-- ===== src/Merkle/Stage.antt =====
-- merkletree/merkletree.go: the invariant of the loop of `generateProofs`.
use native.Mathlib.Nat.{mod-lt}
use scionic_merkle_tree_go.Common.{
  ℕ, zero, suc, ◌+◌, ◌-◌, ◌*◌, ◌/◌, ◌%◌, ◌^◌, ◌≤◌, ◌<◌, ◌≡◌, refl, sym, ap, ◌∙◌, List, [], Bytes,
  some, length, get_or, get_elem?, ltb, arith, Bool-cases, inl, inr, ok, >>=-eq-ok, ok-injective,
  ltb→lt, ltb→le,
}
use scionic_merkle_tree_go.Merkle.Defs.{
  TypeHashFunc, Checked, Proof, walk, halve_loop, fix_odd_length, update_proofs, proof_steps,
  init_proofs,
}
use scionic_merkle_tree_go.Merkle.Update.{extend, update_proofs_at, length-update_proofs}
use scionic_merkle_tree_go.Merkle.Buffer.{
  pair_hash, halve_loop_keeps, IsPadded, fix_odd_length-IsPadded,
}
use scionic_merkle_tree_go.Merkle.Walk.{Leads, extend-Leads, pow_two_suc, pow_two_pos}

pub mul_mono : (a b c : ℕ) → a ≤ b → a * c ≤ b * c
mul_mono a b c h = grind arith

module _ (hash : TypeHashFunc) (concat : Bytes → Bytes → Bytes) (leaves : List Bytes) where
  -- The proof of the leaf at `i` leads to the outcome `target`.
  abbrev pub Entry : List Proof → ℕ → ℕ → Checked Bytes → Type 0
  Entry proofs step i target =
      (p : Proof) × (get_elem? proofs i ≡ some p)
      × Leads hash concat (get_or leaves i []) step target p

  -- After the proofs are extended at level `step`, where `buffer[:n]` are the nodes.
  pub record Stage (step : ℕ) (buffer : List Bytes) (n : ℕ) (proofs : List Proof) : Type 0 where
    pub even : n % 2 ≡ 0
    pub node : 0 < n
    pub room : n ≤ length buffer
    pub cover : length leaves ≤ n * 2 ^ step
    pub count : length proofs ≡ length leaves
    pub each :
        (q r : ℕ)
        → r < 2 ^ step
        → q * 2 ^ step + r < length leaves
        → Entry proofs (suc step) (q * 2 ^ step + r) (pair_hash hash concat buffer (q / 2))

  -- The entry of the leaf below node `q` of the next level.
  Entry-below :
      {step : ℕ} {buffer : List Bytes} {n : ℕ} {proofs : List Proof}
      → Stage step buffer n proofs
      → (q r : ℕ) → r < 2 ^ suc step
      → q * 2 ^ suc step + r < length leaves
      → Entry proofs (suc step) (q * 2 ^ suc step + r) (pair_hash hash concat buffer q)
  Entry-below {step} {buffer} {n} {proofs} st q r small inside =
      elim (Bool-cases (ltb r (2 ^ step))) [
        | inl left ↦
            let i : 2 * q * 2 ^ step + r ≡ q * 2 ^ suc step + r = omega (arith, double) in
            let half : 2 * q / 2 ≡ q = omega arith in
            rw half at (rw i at (st.each (2 * q) r (ltb→lt r (2 ^ step) left) (omega arith)))
        | inr right ↦
            let i : (2 * q + 1) * 2 ^ step + (r - 2 ^ step) ≡ q * 2 ^ suc step + r =
              omega (arith, double, ltb→le r (2 ^ step) right) in
            let half : (2 * q + 1) / 2 ≡ q = omega arith in
            rw half at (
              rw i at (
                st.each (2 * q + 1) (r - 2 ^ step)
                  (omega (arith, pow_two_suc step, ltb→le r (2 ^ step) right)) (omega arith)))
      ]
    where
      double : q * 2 ^ suc step ≡ 2 * q * 2 ^ step
      double = ap (λ (t : ℕ). q * t) (pow_two_suc step) ∙ omega arith

  -- Once an entry leads to the node `q` of the padded buffer, `updateProofs` takes it to the pair.
  Entry-extended :
      {step n m : ℕ} {buffer halved fixed : List Bytes} {proofs : List Proof}
      → suc step < 32
      → Stage step buffer n proofs
      → ((q : ℕ) → q < n / 2 → pair_hash hash concat buffer q ≡ ok (get_or halved q []))
      → IsPadded halved (n / 2) fixed m
      → (q r : ℕ) → r < 2 ^ suc step
      → q * 2 ^ suc step + r < length leaves
      → Entry
          (update_proofs fixed m (suc step) proofs)
          (suc (suc step))
          (q * 2 ^ suc step + r)
          (pair_hash hash concat fixed (q / 2))
  Entry-extended {step} {n} {m} {buffer} {halved} {fixed} {proofs} small st hashes padded q r below
        inside =
      let (p, found, leads) = Entry-below st q r below inside in
      (
        extend fixed (suc step) q p,
        update_proofs_at fixed (suc step) q r below m proofs p (omega (arith, within, padded.low))
            found,
        extend-Leads hash concat (get_or leaves (q * 2 ^ suc step + r) []) (suc step) q fixed p
            small (rw (hashes q within ∙ ap ok (sym (padded.same q within))) at leads),
      )
    where
      double : q * 2 ^ suc step ≡ 2 * q * 2 ^ step
      double = ap (λ (t : ℕ). q * t) (pow_two_suc step) ∙ omega arith

      within : q < n / 2
      within = elim (Bool-cases (ltb (2 * q) n)) [
        | inl yes_lt ↦ omega (arith, ltb→lt (2 * q) n yes_lt, st.even)
        | inr no_lt ↦ absurd (
            omega (arith, double, st.cover, mul_mono n (2 * q) (2 ^ step) (ltb→le (2 * q) n no_lt)))
      ]

  Stage-padded :
      {step n m : ℕ} {buffer halved fixed : List Bytes} {proofs : List Proof}
      → suc step < 32
      → Stage step buffer n proofs
      → ((q : ℕ) → q < n / 2 → pair_hash hash concat buffer q ≡ ok (get_or halved q []))
      → IsPadded halved (n / 2) fixed m
      → Stage (suc step) fixed m (update_proofs fixed m (suc step) proofs)
  Stage-padded {step} {n} {m} {fixed = fixed} {proofs = proofs} small st hashes padded = record {
    even = padded.even;
    node = omega (arith, padded.low, st.node, st.even);
    room = padded.room;
    cover = covered;
    count = length-update_proofs fixed m (suc step) proofs ∙ st.count;
    each = Entry-extended small st hashes padded;
  }
    where
      covered : length leaves ≤ m * 2 ^ suc step
      covered = omega (
        arith,
        st.cover,
        ap (λ (t : ℕ). m * t) (pow_two_suc step),
        mul_mono n (2 * m) (2 ^ step) (omega (arith, padded.low, st.even)),
      )

  Stage-next :
      {step n : ℕ} {buffer : List Bytes} {proofs : List Proof} (halved : List Bytes)
      → suc step < 32
      → Stage step buffer n proofs
      → halve_loop hash concat ((n + 1) / 2) 0 buffer ≡ ok halved
      → Stage (suc step) (fix_odd_length halved (n / 2)).0 (fix_odd_length halved (n / 2)).1 (
          update_proofs
            (fix_odd_length halved (n / 2)).0
            (fix_odd_length halved (n / 2)).1
            (suc step)
            proofs)
  Stage-next {step} {n} {buffer} halved small st e =
      let (size, before, hashes) =
        halve_loop_keeps hash concat ((n + 1) / 2) 0 buffer halved (omega (arith, st.room, st.even))
          e in
      Stage-padded small st (λ q below. hashes q (omega arith) (omega arith))
        (fix_odd_length-IsPadded halved (n / 2) (omega (arith, st.room)))

  pub proof_steps-Stage :
      (rounds step : ℕ) (buffer : List Bytes) (n : ℕ) (proofs : List Proof) (out : List Bytes)
      (final : List Proof)
      → step + rounds < 32
      → Stage step buffer n proofs
      → proof_steps hash concat rounds (suc step) buffer n proofs ≡ ok (out, final)
      → (m : ℕ) × Stage (step + rounds) out m final
  unfolding proof_steps
  proof_steps-Stage zero step buffer n proofs out final small st e =
      let same = ok-injective e in
      let start : step + 0 ≡ step = omega arith in
      let nodes : out ≡ buffer = sym (ap (λ (t : List Bytes × List Proof). t.0) same) in
      let kept : final ≡ proofs = sym (ap (λ (t : List Bytes × List Proof). t.1) same) in
      (n, rw (start, nodes, kept) st)
  proof_steps-Stage (suc rounds) step buffer n proofs out final small st e =
      let next = λ (halved : List Bytes).
        let (fixed, m) = fix_odd_length halved (n / 2) in
        proof_steps hash concat rounds (suc step + 1) fixed m
          (update_proofs fixed m (suc step) proofs) in
      let (halved, ran, more) = >>=-eq-ok (halve_loop hash concat ((n + 1) / 2) 0 buffer) next e in
      let up : suc step + 1 ≡ suc (suc step) = omega arith in
      let end : step + suc rounds ≡ suc step + rounds = omega arith in
      rw end (
        proof_steps-Stage rounds (suc step) _ _ _ out final (omega arith)
          (Stage-next halved (omega arith) st ran) (rw up at more))

  -- Before the loop: the leaves, padded, and the first sibling of every proof.
  init_proofs_at :
      (n i : ℕ) → i < n → get_elem? (init_proofs n) i ≡ some (record { siblings = []; path = 0 })
  unfolding init_proofs
  init_proofs_at zero i h = elim h [ ]
  init_proofs_at (suc n) zero h = refl
  init_proofs_at (suc n) (suc i) h = init_proofs_at n i (omega arith)

  length-init_proofs : (n : ℕ) → length (init_proofs n) ≡ n
  unfolding init_proofs
  length-init_proofs zero = refl
  length-init_proofs (suc n) = ap suc (length-init_proofs n)

  abbrev no_siblings : Proof
  no_siblings = record { siblings = []; path = 0 }

  no_siblings-Leads :
      (leaf node : Bytes) → leaf ≡ node → Leads hash concat leaf 0 (ok node) no_siblings
  unfolding walk
  no_siblings-Leads leaf node e = record { size = refl; bounded = omega arith; walked = ap ok e }

  pub Stage-first :
      {fixed : List Bytes} {m : ℕ}
      → 0 < length leaves
      → IsPadded leaves (length leaves) fixed m
      → Stage 0 fixed m (update_proofs fixed (length leaves) 0 (init_proofs (length leaves)))
  Stage-first {fixed} {m} some_leaf padded = record {
    even = padded.even;
    node = omega (arith, padded.low);
    room = padded.room;
    cover = omega (arith, padded.low);
    count =
        length-update_proofs fixed (length leaves) 0 (init_proofs (length leaves))
        ∙ length-init_proofs (length leaves);
    each = λ q r below inside.
        let at_q : q * 2 ^ 0 + r ≡ q = omega arith in
        (
          extend fixed 0 q no_siblings,
          update_proofs_at fixed 0 q r below (length leaves) (init_proofs (length leaves))
              no_siblings (omega arith) (init_proofs_at (length leaves) (q * 2 ^ 0 + r) inside),
          extend-Leads hash concat (get_or leaves (q * 2 ^ 0 + r) []) 0 q fixed no_siblings
              (omega arith)
              (no_siblings-Leads (get_or leaves (q * 2 ^ 0 + r) []) (get_or fixed q [])
                (ap (λ t. get_or leaves t []) at_q ∙ sym (padded.same q (omega arith)))),
        );
  }

  -- The entry of the leaf at `i`, below the pair of nodes that the root is the hash of.
  pub Entry-at_top :
      {step n : ℕ} {buffer : List Bytes} {proofs : List Proof}
      → Stage step buffer n proofs
      → length leaves ≤ 2 ^ suc step
      → (i : ℕ) → i < length leaves
      → Entry proofs (suc step) i (pair_hash hash concat buffer 0)
  Entry-at_top {step} {n} {buffer} {proofs} st top i inside =
      let positive = pow_two_pos step in
      let split : i / 2 ^ step * 2 ^ step + i % 2 ^ step ≡ i = omega arith in
      let below : i % 2 ^ step < 2 ^ step = mod-lt i positive in
      let first : i / 2 ^ step / 2 ≡ 0 = small_quotient in
      rw first at (rw split at (st.each (i / 2 ^ step) (i % 2 ^ step) below (rw split inside)))
    where
      small_quotient : i / 2 ^ step / 2 ≡ 0
      small_quotient = elim (Bool-cases (ltb (i / 2 ^ step) 2)) [
        | inl few ↦ omega (arith, ltb→lt (i / 2 ^ step) 2 few)
        | inr many ↦ absurd (
            omega (
              arith,
              pow_two_suc step,
              mul_mono 2 (i / 2 ^ step) (2 ^ step) (ltb→le (i / 2 ^ step) 2 many),
            ))
      ]
