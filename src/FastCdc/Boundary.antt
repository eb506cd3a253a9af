-- ===== src/FastCdc/Boundary.antt =====
-- dag/fastcdc.go: where `fastCDCBoundary` may cut, and what its decision depends on.
use scionic_merkle_tree_go.Common.{
  ℕ, zero, suc, ◌+◌, ◌-◌, ◌≤◌, ◌<◌, ◌≡◌, refl, sym, ap, ◌∙◌, [], ◌∷◌, ◌++◌, Bytes, length, drop,
  leb, ◌==◌, arith, length-append, length-drop, drop-append_le, inl, inr, Bool-cases, leb→lt,
  leb→le,
}
use scionic_merkle_tree_go.FastCdc.Defs.{
  Params, IsOrdered, roll, Scan, cut, carry, scan, after_loose, after_strict, limit_of, normal_of,
  boundary,
}
use Prim.Native.Nat.{bit_and}

-- A match lies after the start and within the rounds; otherwise the rounds' bytes are used up.
abbrev ScanFits : ℕ → ℕ → Bytes → Scan → Type 0
ScanFits rounds i rest (cut c) = (i < c) × (c ≤ i + rounds)
ScanFits rounds i rest (carry h more) = length more + rounds ≡ length rest

scan-ScanFits :
    (mask rounds i h : ℕ) (rest : Bytes)
    → rounds ≤ length rest
    → ScanFits rounds i rest (scan mask rounds i h rest)
unfolding scan
scan-ScanFits mask zero i h rest fits = omega arith
scan-ScanFits mask (suc rounds) i h [] fits = elim fits [ ]
scan-ScanFits mask (suc rounds) i h (b ∷ bs) fits =
    elim (Bool-cases (bit_and (roll h b) mask == 0)) [
      | inl hit ↦ rw hit (omega arith)
      | inr miss ↦ rw miss (
          widen (scan mask rounds (i + 1) (roll h b) bs)
            (scan-ScanFits mask rounds (i + 1) (roll h b) bs (omega arith)))
    ]
  where
    widen : (s : Scan) → ScanFits rounds (i + 1) bs s → ScanFits (suc rounds) i (b ∷ bs) s
    widen (cut c) f = omega arith
    widen (carry h' more) f = omega arith

append_scan : Scan → Bytes → Scan
append_scan (cut c) ys = cut c
append_scan (carry h rest) ys = carry h (rest ++ ys)

scan-append :
    (mask rounds i h : ℕ) (rest ys : Bytes)
    → rounds ≤ length rest
    → scan mask rounds i h (rest ++ ys) ≡ append_scan (scan mask rounds i h rest) ys
unfolding scan append_scan
scan-append mask zero i h rest ys fits = refl
scan-append mask (suc rounds) i h [] ys fits = elim fits [ ]
scan-append mask (suc rounds) i h (b ∷ bs) ys fits =
    elim (Bool-cases (bit_and (roll h b) mask == 0)) [
      | inl hit ↦ rw hit refl
      | inr miss ↦ rw miss (scan-append mask rounds (i + 1) (roll h b) bs ys (omega arith))
    ]

boundary_short :
    (p : Params) (bytes : Bytes) → length bytes ≤ p.min_size → boundary p bytes ≡ length bytes
unfolding boundary
boundary_short p bytes short = ground arith

module _ (p : Params) (ordered : IsOrdered p) where
  after_strict_bounds :
      (n : ℕ) (rest : Bytes) (s : Scan)
      → p.min_size < n
      → ScanFits (normal_of p (limit_of p n) - p.min_size) p.min_size rest s
      → length rest + p.min_size ≡ n
      → (p.min_size < after_strict p (normal_of p (limit_of p n)) (limit_of p n) s)
        × (after_strict p (normal_of p (limit_of p n)) (limit_of p n) s ≤ limit_of p n)
  unfolding after_strict
  after_strict_bounds n rest (cut c) above fits size = ground arith
  after_strict_bounds n rest (carry h more) above fits size =
      loose
        (scan p.loose_mask (limit_of p n - normal_of p (limit_of p n)) (normal_of p (limit_of p n))
          h more)
        (scan-ScanFits p.loose_mask (limit_of p n - normal_of p (limit_of p n))
          (normal_of p (limit_of p n)) h more (ground arith))
    where
      loose :
          (s : Scan)
          → ScanFits (limit_of p n - normal_of p (limit_of p n)) (normal_of p (limit_of p n)) more s
          → (p.min_size < after_loose (limit_of p n) s)
            × (after_loose (limit_of p n) s ≤ limit_of p n)
      loose (cut c) f = ground arith
      loose (carry _ _) f = ground arith

  boundary_long :
      (bytes : Bytes)
      → p.min_size < length bytes
      → boundary p bytes
        ≡ after_strict p (normal_of p (limit_of p (length bytes))) (limit_of p (length bytes)) (
            scan p.strict_mask
              (normal_of p (limit_of p (length bytes)) - p.min_size)
              p.min_size
              0
              (drop p.min_size bytes))
  unfolding boundary
  boundary_long bytes above = ground arith

  boundary_above_min :
      (bytes : Bytes)
      → p.min_size < length bytes
      → (p.min_size < boundary p bytes) × (boundary p bytes ≤ limit_of p (length bytes))
  boundary_above_min bytes above =
      let normal = normal_of p (limit_of p (length bytes)) in
      let rest = drop p.min_size bytes in
      rw (boundary_long bytes above) (
        after_strict_bounds (length bytes) rest
          (scan p.strict_mask (normal - p.min_size) p.min_size 0 rest) above
          (scan-ScanFits p.strict_mask (normal - p.min_size) p.min_size 0 rest
            (ground (arith, length-drop p.min_size bytes)))
          (omega (arith, length-drop p.min_size bytes)))

  -- A non-empty input is cut after at least one byte, inside the input and at most at the maximum.
  -- An input up to the minimum is one chunk, and a longer one is cut above the minimum.
  pub boundary_bounds :
      (bytes : Bytes)
      → 0 < length bytes
      → (0 < boundary p bytes)
        × (boundary p bytes ≤ length bytes)
        × (boundary p bytes ≤ p.max_size)
        × ((length bytes ≤ p.min_size → boundary p bytes ≡ length bytes))
        × ((p.min_size < length bytes → p.min_size < boundary p bytes))
  boundary_bounds bytes more = elim (Bool-cases (leb (length bytes) p.min_size)) [
    | inl short ↦
        let whole = boundary_short p bytes (leb→le _ _ short) in
        (
          rw whole more,
          rw whole (omega arith),
          rw whole (omega (arith, leb→le _ _ short)),
          λ _. whole,
          λ above. absurd (omega (arith, leb→le _ _ short)),
        )
    | inr long ↦
        let above = leb→lt (length bytes) p.min_size long in
        let (low, high) = boundary_above_min bytes above in
        (omega arith, ground arith, ground arith, λ small. absurd (omega arith), λ _. low)
  ]

  boundary_full :
      (bytes : Bytes)
      → p.max_size ≤ length bytes
      → boundary p bytes
        ≡ after_strict p p.target_size p.max_size
            (scan p.strict_mask (p.target_size - p.min_size) p.min_size 0 (drop p.min_size bytes))
  boundary_full bytes full =
      let limit : limit_of p (length bytes) ≡ p.max_size = ground arith in
      let normal : normal_of p p.max_size ≡ p.target_size = ground arith in
      rw (boundary_long bytes (omega arith), limit, normal) refl

  after_strict-append :
      (s : Scan) (rest more : Bytes)
      → ScanFits (p.target_size - p.min_size) p.min_size rest s
      → p.max_size ≤ length rest + p.min_size
      → after_strict p p.target_size p.max_size (append_scan s more)
        ≡ after_strict p p.target_size p.max_size s
  unfolding after_strict append_scan
  after_strict-append (cut c) rest more fits full = refl
  after_strict-append (carry h left) rest more fits full =
      ap (after_loose p.max_size) (
        scan-append p.loose_mask (p.max_size - p.target_size) p.target_size h left more
          (omega arith))
      ∙ after_loose-append (scan p.loose_mask (p.max_size - p.target_size) p.target_size h left)
          more
    where
      after_loose-append :
          (s : Scan) (ys : Bytes)
          → after_loose p.max_size (append_scan s ys) ≡ after_loose p.max_size s
      after_loose-append (cut c) ys = refl
      after_loose-append (carry _ _) ys = refl

  -- Once the input holds the maximum, bytes behind it do not change the cut.
  pub boundary-append :
      (bytes more : Bytes)
      → p.max_size ≤ length bytes
      → boundary p (bytes ++ more) ≡ boundary p bytes
  boundary-append bytes more full =
      let rest = drop p.min_size bytes in
      let enough : p.target_size - p.min_size ≤ length rest =
        omega (arith, length-drop p.min_size bytes) in
      boundary_full (bytes ++ more) (omega (arith, length-append bytes more))
      ∙ rw
          (
            drop-append_le p.min_size bytes more (omega arith),
            scan-append p.strict_mask (p.target_size - p.min_size) p.min_size 0 rest more enough,
          )
          (after_strict-append _ rest more
            (scan-ScanFits p.strict_mask (p.target_size - p.min_size) p.min_size 0 rest enough)
            (omega (arith, length-drop p.min_size bytes)))
      ∙ sym (boundary_full bytes full)
