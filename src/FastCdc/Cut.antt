-- ===== src/FastCdc/Cut.antt =====
-- dag/fastcdc.go: `CutChunks` loses nothing, and bounds its chunks, in every mode.
use scionic_merkle_tree_go.Common.{
  ℕ, zero, suc, ◌≤◌, ◌<◌, ◌≡◌, refl, ap, true, List, [], ◌∷◌, Bytes, length, take, drop, leb, arith,
  length-drop, length-take, take-append-drop, All, List-cases, ◌⊎◌, inl, inr, Bool-cases, ℤ, pos,
  negsuc, leb→le, leb→lt,
}
use scionic_merkle_tree_go.FastCdc.Defs.{
  Params, IsOrdered, boundary, cut_loop, slice_loop, Mode, cut_fixed, cut_chunks,
}
use scionic_merkle_tree_go.FastCdc.Boundary.{boundary_bounds}
use mathlib.Core.List.{flatten, append-nil}

-- Every chunk but the last satisfies `P`.
abbrev pub AllButLast {κ} : (Bytes → Type κ) → List Bytes → Type κ
AllButLast P [] = Unit {κ}
AllButLast P (c ∷ []) = Unit {κ}
AllButLast P (c ∷ d ∷ cs) = P c × AllButLast P (d ∷ cs)

AllButLast-cons {κ} :
    (P : Bytes → Type κ) (c : Bytes) (cs : List Bytes)
    → (cs ≡ []) ⊎ P c
    → AllButLast P cs
    → AllButLast P (c ∷ cs)
AllButLast-cons P c [] h rest = tt
AllButLast-cons P c (d ∷ cs) (inl empty) rest = absurd (cc empty)
AllButLast-cons P c (d ∷ cs) (inr holds) rest = (holds, rest)

cut_loop-nil : (p : Params) (fuel : ℕ) → cut_loop p fuel [] ≡ []
unfolding cut_loop
cut_loop-nil p zero = refl
cut_loop-nil p (suc fuel) = refl

module _ (p : Params) (ordered : IsOrdered p) where
  shrinks : (rest : Bytes) → 0 < length rest → length (drop (boundary p rest) rest) < length rest
  shrinks rest more =
      omega (arith, length-drop (boundary p rest) rest, (boundary_bounds p ordered rest more).0)

  flatten-cut_loop :
      (fuel : ℕ) (rest : Bytes) → length rest ≤ fuel → flatten (cut_loop p fuel rest) ≡ rest
  unfolding cut_loop flatten
  flatten-cut_loop zero [] h = refl
  flatten-cut_loop zero (b ∷ bs) h = elim h [ ]
  flatten-cut_loop (suc fuel) [] h = refl
  flatten-cut_loop (suc fuel) (b ∷ bs) h =
      let rest : Bytes = b ∷ bs in
      rw
        (flatten-cut_loop fuel (drop (boundary p rest) rest)
          (omega (arith, shrinks rest (omega arith))))
        (take-append-drop (boundary p rest) rest)

  -- More fuel than there are bytes changes nothing.
  pub cut_loop_fuel :
      (fuel gas : ℕ) (rest : Bytes)
      → length rest ≤ fuel
      → length rest ≤ gas
      → cut_loop p fuel rest ≡ cut_loop p gas rest
  unfolding cut_loop
  cut_loop_fuel zero zero [] h k = refl
  cut_loop_fuel zero (suc gas) [] h k = refl
  cut_loop_fuel (suc fuel) zero [] h k = refl
  cut_loop_fuel (suc fuel) (suc gas) [] h k = refl
  cut_loop_fuel zero gas (b ∷ bs) h k = elim h [ ]
  cut_loop_fuel (suc fuel) zero (b ∷ bs) h k = elim k [ ]
  cut_loop_fuel (suc fuel) (suc gas) (b ∷ bs) h k =
      let rest : Bytes = b ∷ bs in
      let smaller = shrinks rest (omega arith) in
      ap (◌∷◌ (take (boundary p rest) rest))
        (cut_loop_fuel fuel gas (drop (boundary p rest) rest) (omega arith) (omega arith))

  -- One round of the loop.
  pub cut_loop_step :
      (rest : Bytes)
      → 0 < length rest
      → cut_loop p (length rest) rest
        ≡ take (boundary p rest) rest
          ∷ cut_loop p (length (drop (boundary p rest) rest)) (drop (boundary p rest) rest)
  unfolding cut_loop
  cut_loop_step [] h = elim h [ ]
  cut_loop_step (b ∷ bs) h =
      let rest : Bytes = b ∷ bs in
      ap (◌∷◌ (take (boundary p rest) rest)) (
        cut_loop_fuel (length bs) _ (drop (boundary p rest) rest) (omega (arith, shrinks rest h))
          (omega arith))

  last_or_above :
      (fuel : ℕ) (rest : Bytes)
      → 0 < length rest
      → (cut_loop p fuel (drop (boundary p rest) rest) ≡ [])
        ⊎ (p.min_size < length (take (boundary p rest) rest))
  last_or_above fuel rest more = elim (List-cases (drop (boundary p rest) rest)) [
    | inl last ↦ inl (rw last (cut_loop-nil p fuel))
    | inr (b, left, e) ↦
        let (_, within, _, short, above) = boundary_bounds p ordered rest more in
        inr (elim (Bool-cases (leb (length rest) p.min_size)) [
          | inl small ↦ absurd (
              omega
                (arith, ap length e, length-drop (boundary p rest) rest, short (leb→le _ _ small)))
          | inr big ↦ omega (arith, length-take (boundary p rest) rest, above (leb→lt _ _ big))
        ])
  ]

  cut_loop_sizes :
      (fuel : ℕ) (rest : Bytes)
      → All (λ c. (0 < length c) × (length c ≤ p.max_size)) (cut_loop p fuel rest)
        × AllButLast (λ c. p.min_size < length c) (cut_loop p fuel rest)
  unfolding cut_loop
  cut_loop_sizes zero rest = (tt, tt)
  cut_loop_sizes (suc fuel) [] = (tt, tt)
  cut_loop_sizes (suc fuel) (b ∷ bs) =
      let rest : Bytes = b ∷ bs in
      let (fits, above) = cut_loop_sizes fuel (drop (boundary p rest) rest) in
      let bounds = boundary_bounds p ordered rest (omega arith) in
      (
        (omega (arith, length-take (boundary p rest) rest, bounds), fits),
        AllButLast-cons _ _ _ (last_or_above fuel rest (omega arith)) above,
      )

  -- Under fastcdc-v1 every chunk holds at least one byte and at most the maximum, and every chunk
  -- but the last holds more than the minimum.
  pub cut_chunks_sizes :
      (m : Mode) (bytes : Bytes)
      → m.fast_cdc ≡ true
      → All (λ c. (0 < length c) × (length c ≤ p.max_size)) (cut_chunks p m bytes)
        × AllButLast (λ c. p.min_size < length c) (cut_chunks p m bytes)
  unfolding cut_chunks
  cut_chunks_sizes m [] on = (tt, tt)
  cut_chunks_sizes m (b ∷ bs) on = rw on (cut_loop_sizes (suc (length bs)) (b ∷ bs))

flatten-slice_loop :
    (size fuel : ℕ) (rest : Bytes)
    → 0 < size
    → length rest ≤ fuel
    → flatten (slice_loop size fuel rest) ≡ rest
unfolding slice_loop flatten
flatten-slice_loop size zero [] pos_size h = refl
flatten-slice_loop size zero (b ∷ bs) pos_size h = elim h [ ]
flatten-slice_loop size (suc fuel) [] pos_size h = refl
flatten-slice_loop size (suc fuel) (b ∷ bs) pos_size h =
    let rest : Bytes = b ∷ bs in
    rw
      (flatten-slice_loop size fuel (drop size rest) pos_size
        (omega (arith, length-drop size rest)))
      (take-append-drop size rest)

flatten-cut_fixed : (size : ℤ) (bytes : Bytes) → flatten (cut_fixed size bytes) ≡ bytes
unfolding cut_fixed flatten
flatten-cut_fixed (negsuc n) bytes = append-nil bytes
flatten-cut_fixed (pos zero) bytes = append-nil bytes
flatten-cut_fixed (pos (suc k)) bytes = elim (Bool-cases (leb (length bytes) (suc k))) [
  | inl one ↦ rw one (append-nil bytes)
  | inr many ↦ rw many (flatten-slice_loop (suc k) (length bytes) bytes (omega arith) (omega arith))
]

-- In every chunking mode, with every chunk size, the chunks put together are the input.
pub flatten-cut_chunks :
    (p : Params) (m : Mode) (bytes : Bytes) → IsOrdered p → flatten (cut_chunks p m bytes) ≡ bytes
unfolding cut_chunks flatten
flatten-cut_chunks p m [] ordered = refl
flatten-cut_chunks p m (b ∷ bs) ordered = elim (Bool-cases m.fast_cdc) [
  | inl on ↦ rw on (flatten-cut_loop p ordered (suc (length bs)) (b ∷ bs) (omega arith))
  | inr off ↦ rw off (flatten-cut_fixed m.chunk_size (b ∷ bs))
]
