-- ===== src/Merkle/Walk.antt =====
-- merkletree/merkletree.go: one more sibling on a proof is one more hash of the walk of `Verify`.
use native.Mathlib.Nat.{pow-suc}
use scionic_merkle_tree_go.Common.{
  ℕ, zero, suc, ◌+◌, ◌-◌, ◌*◌, ◌/◌, ◌%◌, ◌^◌, ◌≤◌, ◌<◌, ◌≡◌, refl, ap, ◌∙◌, List, [], ◌∷◌, ◌++◌,
  Bytes, length, get_or, ◌==◌, if◌then◌else◌, arith, Bool-cases, inl, inr, length-append, ok, err,
  ◌>>=◌,
}
use scionic_merkle_tree_go.Merkle.Defs.{TypeHashFunc, Checked, Proof, walk, add_right, add_left}
use scionic_merkle_tree_go.Merkle.Update.{extend}
use scionic_merkle_tree_go.Merkle.Buffer.{pair_hash}

pub pow_two_suc : (k : ℕ) → 2 ^ suc k ≡ 2 * 2 ^ k
pow_two_suc k = omega (arith, pow-suc 2 k)

pub pow_two_pos : (k : ℕ) → 0 < 2 ^ k
pow_two_pos zero = omega arith
pow_two_pos (suc k) = omega (arith, pow_two_suc k, pow_two_pos k)

pub pow_two_mono : (a b : ℕ) → a ≤ b → 2 ^ a ≤ 2 ^ b
pow_two_mono zero b h = omega (arith, pow_two_pos b)
pow_two_mono (suc a) zero h = elim h [ ]
pow_two_mono (suc a) (suc b) h =
    omega (arith, pow_two_suc a, pow_two_suc b, pow_two_mono a b (omega arith))

bind_assoc :
    (m : Checked Bytes) (k f g : Bytes → Checked Bytes)
    → ((r : Bytes) → k r ≡ (f r >>= g))
    → (m >>= k) ≡ ((m >>= f) >>= g)
bind_assoc (ok r) k f g h = h r
bind_assoc (err e) k f g h = refl

module _ (hash : TypeHashFunc) (concat : Bytes → Bytes → Bytes) where
  -- The hash of a node and its sibling, the node first if the bit is 1.
  abbrev join : ℕ → Bytes → Bytes → Checked Bytes
  join bit sib r = hash (if bit == 1 then concat r sib else concat sib r)

  walk-append :
      (sibs : List Bytes) (s acc : Bytes) (path bit : ℕ)
      → path < 2 ^ length sibs
      → bit < 2
      → walk hash concat acc (sibs ++ s ∷ []) (path + bit * 2 ^ length sibs)
        ≡ (walk hash concat acc sibs path >>= join bit s)
  unfolding walk
  walk-append [] s acc path bit fits small =
      let low : (path + bit * 1) % 2 ≡ bit = omega arith in rw low (bind_ok (join bit s acc))
    where
      bind_ok : (m : Checked Bytes) → (m >>= λ next. ok next) ≡ m
      bind_ok (ok r) = refl
      bind_ok (err e) = refl
  walk-append (x ∷ sibs) s acc path bit fits small =
      let shifted = ap (λ (t : ℕ). bit * t) (pow_two_suc (length sibs)) in
      let low : (path + bit * 2 ^ suc (length sibs)) % 2 ≡ path % 2 = omega arith in
      let rest : (path + bit * 2 ^ suc (length sibs)) / 2 ≡ path / 2 + bit * 2 ^ length sibs =
        omega arith in
      let below : path / 2 < 2 ^ length sibs = omega (arith, pow_two_suc (length sibs)) in
      rw (low, rest)
        (bind_assoc (hash (if path % 2 == 1 then concat acc x else concat x acc))
          (λ next. walk hash concat next (sibs ++ s ∷ []) (path / 2 + bit * 2 ^ length sibs))
          (λ next. walk hash concat next sibs (path / 2)) (join bit s)
          (λ next. walk-append sibs s next (path / 2) bit below small))

  -- A proof of `step` siblings that leads from a leaf to the outcome `target`.
  pub record Leads (leaf : Bytes) (step : ℕ) (target : Checked Bytes) (p : Proof) : Type 0 where
    pub size : length p.siblings ≡ step
    pub bounded : p.path < 2 ^ step
    pub walked : walk hash concat leaf p.siblings p.path ≡ target

  walk_extended :
      (leaf : Bytes) (step bit : ℕ) (node sib : Bytes) (p : Proof)
      → bit < 2
      → Leads leaf step (ok node) p
      → walk hash concat leaf (p.siblings ++ sib ∷ []) (p.path + bit * 2 ^ step) ≡ join bit sib node
  walk_extended leaf step bit node sib p small h = rw (← h.size) (
      walk-append p.siblings sib leaf p.path bit (rw h.size h.bounded) small
      ∙ ap (λ m. m >>= join bit sib) h.walked)

  -- The next level adds the sibling of the node, and leads to the hash of their pair.
  pub extend-Leads :
      (leaf : Bytes) (step q : ℕ) (buffer : List Bytes) (p : Proof)
      → step < 32
      → Leads leaf step (ok (get_or buffer q [])) p
      → Leads leaf (suc step) (pair_hash hash concat buffer (q / 2)) (extend buffer step q p)
  unfolding extend add_right add_left
  extend-Leads leaf step q buffer p small h = elim (Bool-cases (q % 2 == 0)) [
    | inl even ↦
        let top = pow_two_mono (suc step) 32 small in
        let double = pow_two_suc step in
        let path : (p.path + 2 ^ step % 2 ^ 32) % 2 ^ 32 ≡ p.path + 1 * 2 ^ step =
          omega (arith, h.bounded, pow_two_pos step) in
        let first : 2 * (q / 2) ≡ q = ground arith in
        rw (even, path, first)
          (record {
            size = omega (arith, length-append p.siblings (get_or buffer (q + 1) [] ∷ []), h.size);
            bounded = omega (arith, h.bounded);
            walked =
                walk_extended leaf step 1 (get_or buffer q []) (get_or buffer (q + 1) []) p
                  (omega arith) h;
          })
    | inr odd ↦
        let path : p.path ≡ p.path + 0 * 2 ^ step = omega arith in
        let first : 2 * (q / 2) ≡ q - 1 = ground arith in
        let second : q - 1 + 1 ≡ q = ground arith in
        rw (odd, first, second)
          (record {
            size = omega (arith, length-append p.siblings (get_or buffer (q - 1) [] ∷ []), h.size);
            bounded = omega (arith, h.bounded, pow_two_suc step);
            walked =
                ap (walk hash concat leaf (p.siblings ++ get_or buffer (q - 1) [] ∷ [])) path
                ∙ walk_extended leaf step 0 (get_or buffer q []) (get_or buffer (q - 1) []) p
                    (omega arith) h;
          })
  ]
