-- ===== src/FastCdc/Reader.antt =====
-- dag/fastcdc.go: `streamFastCDCChunks`, over any `io.Reader` and any callback.
use scionic_merkle_tree_go.Common.{
  ℕ, zero, suc, ◌+◌, ◌-◌, Bool, true, false, not, ◌&&◌, ◌||◌, List, [], ◌∷◌, ◌++◌, Bytes, length,
  take, drop, ltb, leb, ◌==◌, if◌then◌else◌,
}
use scionic_merkle_tree_go.FastCdc.Defs.{Params, boundary}

-- What a reader has to give, in order: bytes, bytes that come with `io.EOF`, or bytes that come with
-- another error. A `Read` returns the next piece, or as much of it as fits the space that it is
-- given; after the last piece it returns no bytes and `io.EOF`.
pub data Piece : Type 0 where
  some_bytes : Bytes → Piece
  last_bytes : Bytes → Piece
  broken : Bytes → Piece

-- The window holds `max_size` bytes; `filled` is `window[:filled]`, the part that is ever read.
pub data Fill : Type 0 where
  full : Bytes → Bool → List Piece → Fill
  read_error : Fill

-- `for filled < len(window) && !eof`, for `eof` false at the start.
unfoldable pub fill : ℕ → Bytes → List Piece → Fill
fill cap filled [] = if ltb (length filled) cap then full filled true [] else full filled false []
fill cap filled (some_bytes xs ∷ ps) =
    let rest = fill cap (filled ++ xs) ps in
    let space = cap - length filled in
    if not (ltb (length filled) cap)
    then full filled false (some_bytes xs ∷ ps)
    else if leb (length xs) space
    then rest
    else full (filled ++ take space xs) false (some_bytes (drop space xs) ∷ ps)
fill cap filled (last_bytes xs ∷ ps) =
    let space = cap - length filled in
    if not (ltb (length filled) cap)
    then full filled false (last_bytes xs ∷ ps)
    else if leb (length xs) space
    then full (filled ++ xs) true ps
    else full (filled ++ take space xs) false (last_bytes (drop space xs) ∷ ps)
fill cap filled (broken xs ∷ ps) =
    let space = cap - length filled in
    if not (ltb (length filled) cap)
    then full filled false (broken xs ∷ ps)
    else if leb (length xs) space
    then read_error
    else full (filled ++ take space xs) false (broken (drop space xs) ∷ ps)

-- The callback's state after the call; a failing callback stops the stream.
pub data Step {ℓ} (S : Type ℓ) : Type ℓ where
  going : S → Step S
  stopped : S → Step S

-- How the stream ends: with nil, with the callback's error, or with the reader's. `stuck` is no Go
-- value: the fuel of the model ran out.
pub data Outcome {ℓ} (S : Type ℓ) : Type ℓ where
  done : S → Outcome S
  callback_error : S → Outcome S
  reader_error : S → Outcome S
  stuck : Outcome S

-- What one pass of the inner loop leaves: the rest of the window, the next index and the state.
pub data Emitted {ℓ} (S : Type ℓ) : Type ℓ where
  emitted : Bytes → ℕ → S → Emitted S
  refused : S → Emitted S
  spent : Emitted S

module _ {ℓ} {S : Type ℓ} where
  -- After the callback: its error ends the loop, and the loop breaks after one chunk before EOF.
  unfoldable pub after_call : Bool → Bytes → ℕ → (Bytes → ℕ → S → Emitted S) → Step S → Emitted S
  after_call eof rest index again (stopped s) = refused s
  after_call true rest index again (going s) = again rest (index + 1) s
  after_call false rest index again (going s) = emitted rest (index + 1) s

  -- After the inner loop: `return nil` at EOF with an empty window, else round again.
  unfoldable pub next_round : Bool → (Bytes → ℕ → S → Outcome S) → Emitted S → Outcome S
  next_round eof again spent = stuck
  next_round eof again (refused s) = callback_error s
  next_round true again (emitted [] index s) = done s
  next_round true again (emitted (b ∷ w) index s) = stuck
  next_round false again (emitted w index s) = again w index s

  module _ (p : Params) (callback : Bytes → ℕ → S → Step S) where
    -- `for filled == len(window) || (eof && filled > 0)`.
    unfoldable pub emit : ℕ → Bool → Bytes → ℕ → S → Emitted S
    unfolding after_call
    emit zero eof filled index s = spent
    emit (suc fuel) eof filled index s =
        let cut = boundary p filled in
        let round =
          after_call eof (drop cut filled) index (emit fuel eof)
            (callback (take cut filled) index s) in
        if (length filled == p.max_size) || (eof && ltb 0 (length filled))
        then round
        else emitted filled index s

    -- After the window is filled: `filled == 0` returns nil.
    unfoldable pub after_fill : (Bytes → List Piece → ℕ → S → Outcome S) → Fill → ℕ → S → Outcome S
    unfolding next_round emit
    after_fill again read_error index s = reader_error s
    after_fill again (full [] eof ps) index s = done s
    after_fill again (full (b ∷ w) eof ps) index s =
        next_round eof (λ rest. again rest ps) (emit (suc (length (b ∷ w))) eof (b ∷ w) index s)

    -- The outer loop. A pass at EOF empties the window, so only passes before EOF go round again.
    unfoldable pub stream_loop : ℕ → Bytes → List Piece → ℕ → S → Outcome S
    unfolding after_fill fill
    stream_loop zero filled pieces index s = stuck
    stream_loop (suc fuel) filled pieces index s =
        after_fill (stream_loop fuel) (fill p.max_size filled pieces) index s

    unfoldable pub stream_fast_cdc_chunks : ℕ → List Piece → S → Outcome S
    unfolding stream_loop
    stream_fast_cdc_chunks fuel pieces s = stream_loop fuel [] pieces 0 s
