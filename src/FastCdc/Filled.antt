-- ===== src/FastCdc/Filled.antt =====
-- dag/fastcdc.go: what the window holds after it is filled, and what a reader gives in all.
use mathlib.Core.Option
use mathlib.Core.List.{append-nil, append_assoc}
use scionic_merkle_tree_go.Common.{
  ℕ, ◌+◌, ◌-◌, ◌≤◌, ◌<◌, ◌≡◌, refl, sym, ap, ◌∙◌, true, false, Option, some, none, List, [], ◌∷◌,
  ◌++◌, Bytes, length, take, drop, ltb, leb, arith, length-append, length-take, take-append-drop,
  inl, inr, Bool-cases, leb→le, leb→lt, ltb→le,
}
use scionic_merkle_tree_go.FastCdc.Reader.{
  Piece, some_bytes, last_bytes, broken, Fill, full, read_error, fill, Step, going, stopped,
  Outcome, done, callback_error,
}

-- All that a reader gives before EOF, if no other error comes first.
abbrev pub content : List Piece → Option Bytes
content [] = some []
content (some_bytes xs ∷ ps) = Option.map (λ rest. xs ++ rest) (content ps)
content (last_bytes xs ∷ ps) = some xs
content (broken xs ∷ ps) = none

-- The callback over a list of chunks, the first of which has the given index.
unfoldable pub feed {ℓ} : {S : Type ℓ} → (Bytes → ℕ → S → Step S) → List Bytes → ℕ → S → Outcome S
feed callback [] index s = done s
feed callback (c ∷ cs) index s = elim (callback c index s) [
  | stopped s' ↦ callback_error s'
  | going s' ↦ feed callback cs (index + 1) s'
]

-- What `fill` leaves of the bytes `whole`: all of them at EOF, or a full window before.
abbrev pub FillFits : ℕ → Bytes → Fill → Type 0
FillFits cap whole (full w true ps) = (w ≡ whole) × (length w ≤ cap)
FillFits cap whole (full w false ps) =
    (length w ≡ cap) × ((rest : Bytes) × (content ps ≡ some rest) × (w ++ rest ≡ whole))
FillFits cap whole read_error = ⊥

some_bytes-content :
    (xs : Bytes) (ps : List Piece) (bytes : Bytes)
    → content (some_bytes xs ∷ ps) ≡ some bytes
    → (rest : Bytes) × (content ps ≡ some rest) × (xs ++ rest ≡ bytes)
some_bytes-content xs ps bytes h = from (content ps) h
  where
    from :
        (o : Option Bytes)
        → Option.map (λ rest. xs ++ rest) o ≡ some bytes
        → (rest : Bytes) × (o ≡ some rest) × (xs ++ rest ≡ bytes)
    from none e = absurd (cc e)
    from (some rest) e = (rest, refl, cc e)

module _ (cap : ℕ) where
  -- A piece that does not fit fills the window.
  split_fits :
      (filled xs rest : Bytes)
      → length filled ≤ cap
      → cap - length filled < length xs
      → (length (filled ++ take (cap - length filled) xs) ≡ cap)
        × ((filled ++ take (cap - length filled) xs) ++ (drop (cap - length filled) xs ++ rest)
            ≡ filled ++ (xs ++ rest))
  split_fits filled xs rest room big = (
    omega (
      arith,
      length-append filled (take (cap - length filled) xs),
      length-take (cap - length filled) xs,
    ),
    append_assoc filled (take (cap - length filled) xs) (drop (cap - length filled) xs ++ rest)
        ∙ ap (λ t. filled ++ t)
            (sym (append_assoc (take (cap - length filled) xs) (drop (cap - length filled) xs) rest)
              ∙ ap (λ t. t ++ rest) (take-append-drop (cap - length filled) xs)),
  )

  pub fill-FillFits :
      (pieces : List Piece) (filled bytes : Bytes)
      → length filled ≤ cap
      → content pieces ≡ some bytes
      → FillFits cap (filled ++ bytes) (fill cap filled pieces)
  unfolding fill
  fill-FillFits [] filled bytes room h = elim (Bool-cases (ltb (length filled) cap)) [
    | inl space ↦ rw space (sym (append-nil filled) ∙ ap (λ t. filled ++ t) (nothing h), room)
    | inr none_left ↦
        rw none_left (omega (arith, ltb→le (length filled) cap none_left), (bytes, h, refl))
  ]
    where
      nothing : some [] ≡ some bytes → [] ≡ bytes
      nothing e = cc
  fill-FillFits (some_bytes xs ∷ ps) filled bytes room h =
      elim (Bool-cases (ltb (length filled) cap)) [
        | inr none_left ↦
            rw none_left (omega (arith, ltb→le (length filled) cap none_left), (bytes, h, refl))
        | inl space ↦ elim (Bool-cases (leb (length xs) (cap - length filled))) [
          | inl small ↦
              let (rest, left, e) = some_bytes-content xs ps bytes h in
              rw (space, small, ← e, ← append_assoc filled xs rest)
                (fill-FillFits ps (filled ++ xs) rest
                  (omega (
                    arith,
                    length-append filled xs,
                    leb→le (length xs) (cap - length filled) small,
                  ))
                  left)
          | inr big ↦
              let (rest, left, e) = some_bytes-content xs ps bytes h in
              let (size, same) =
                split_fits filled xs rest room (leb→lt (length xs) (cap - length filled) big) in
              rw (space, big)
                (
                  size,
                  (
                    drop (cap - length filled) xs ++ rest,
                    ap (Option.map (λ t. drop (cap - length filled) xs ++ t)) left,
                    same ∙ ap (λ t. filled ++ t) e,
                  ),
                )
        ]
      ]
  fill-FillFits (last_bytes xs ∷ ps) filled bytes room h =
      elim (Bool-cases (ltb (length filled) cap)) [
        | inr none_left ↦
            rw none_left (omega (arith, ltb→le (length filled) cap none_left), (bytes, h, refl))
        | inl space ↦ elim (Bool-cases (leb (length xs) (cap - length filled))) [
          | inl small ↦
              rw (space, small)
                (
                  ap (λ t. filled ++ t) (same_bytes h),
                  omega (
                    arith,
                    length-append filled xs,
                    leb→le (length xs) (cap - length filled) small,
                  ),
                )
          | inr big ↦
              let (size, same) =
                split_fits filled xs [] room (leb→lt (length xs) (cap - length filled) big) in
              rw (space, big)
                (
                  size,
                  (
                    drop (cap - length filled) xs,
                    refl,
                    ap (λ t. (filled ++ take (cap - length filled) xs) ++ t)
                          (sym (append-nil (drop (cap - length filled) xs)))
                        ∙ same
                        ∙ ap (λ t. filled ++ t) (append-nil xs ∙ same_bytes h),
                  ),
                )
        ]
      ]
    where
      same_bytes : some xs ≡ some bytes → xs ≡ bytes
      same_bytes e = cc
  fill-FillFits (broken xs ∷ ps) filled bytes room h = absurd (cc h)
