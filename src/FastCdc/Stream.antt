-- ===== src/FastCdc/Stream.antt =====
-- dag/fastcdc.go: streaming equals cutting the whole input, whatever pieces the reader gives.
use scionic_merkle_tree_go.Common.{
  ℕ, zero, suc, ◌+◌, ◌≤◌, ◌<◌, ◌≡◌, refl, true, false, ◌||◌, some, List, [], ◌∷◌, ◌++◌, Bytes,
  length, take, drop, ltb, ◌==◌, arith, length-append, length-drop, take-append_le, drop-append_le,
}
use scionic_merkle_tree_go.FastCdc.Defs.{Params, IsOrdered, boundary, cut_loop}
use scionic_merkle_tree_go.FastCdc.Boundary.{boundary_bounds, boundary-append}
use scionic_merkle_tree_go.FastCdc.Cut.{cut_loop_step}
use scionic_merkle_tree_go.FastCdc.Reader.{
  Piece, Fill, full, read_error, fill, Step, going, stopped, Outcome, callback_error, Emitted,
  after_call, next_round, emit, after_fill, stream_loop, stream_fast_cdc_chunks,
}
use scionic_merkle_tree_go.FastCdc.Filled.{content, feed, FillFits, fill-FillFits}

module _ {ℓ} {S : Type ℓ} (p : Params) (ordered : IsOrdered p)
    (callback : Bytes → ℕ → S → Step S) where
  -- The chunks of `bytes`, fed to the callback.
  abbrev feed_cut : Bytes → ℕ → S → Outcome S
  feed_cut bytes = feed callback (cut_loop p (length bytes) bytes)

  feed_next : Bytes → ℕ → Step S → Outcome S
  feed_next rest index (stopped s) = callback_error s
  feed_next rest index (going s) = feed_cut rest (index + 1) s

  feed_cut_step :
      (bytes : Bytes) (index : ℕ) (s : S)
      → 0 < length bytes
      → feed_cut bytes index s
        ≡ feed_next
            (drop (boundary p bytes) bytes)
            index
            (callback (take (boundary p bytes) bytes) index s)
  unfolding feed feed_next
  feed_cut_step bytes index s more =
      rw (cut_loop_step p ordered bytes more)
        (by_call (callback (take (boundary p bytes) bytes) index s))
    where
      by_call :
          (c : Step S)
          → elim c [
            | stopped s' ↦ callback_error s'
            | going s' ↦ feed_cut (drop (boundary p bytes) bytes) (index + 1) s'
          ]
            ≡ feed_next (drop (boundary p bytes) bytes) index c
      by_call (stopped s) = refl
      by_call (going s) = refl

  after_call_eof :
      (again : Bytes → ℕ → S → Outcome S) (more : Bytes → ℕ → S → Emitted S) (rest : Bytes)
      (index : ℕ) (c : Step S)
      → ((s' : S) → next_round true again (more rest (index + 1) s') ≡ feed_cut rest (index + 1) s')
      → next_round true again (after_call true rest index more c) ≡ feed_next rest index c
  unfolding after_call next_round feed_next
  after_call_eof again more rest index (stopped s) h = refl
  after_call_eof again more rest index (going s) h = h s

  -- At EOF the inner loop feeds all that is left in the window.
  emit_eof :
      (again : Bytes → ℕ → S → Outcome S) (fuel : ℕ) (w : Bytes) (index : ℕ) (s : S)
      → length w < fuel
      → length w ≤ p.max_size
      → next_round true again (emit p callback fuel true w index s) ≡ feed_cut w index s
  unfolding emit
  emit_eof again zero w index s h fits = elim h [ ]
  emit_eof again (suc fuel) [] index s h fits =
      let test : ((0 == p.max_size) || false) ≡ false = ground arith in
      rw test (unfold next_round feed cut_loop in refl)
  emit_eof again (suc fuel) (b ∷ bs) index s h fits =
      let w : Bytes = b ∷ bs in
      let cut = boundary p w in
      let test : ((length w == p.max_size) || ltb 0 (length w)) ≡ true = ground arith in
      rw (test, feed_cut_step w index s (omega arith))
        (after_call_eof again (emit p callback fuel true) (drop cut w) index
          (callback (take cut w) index s)
          (λ s'.
            emit_eof again fuel (drop cut w) (index + 1) s'
              (omega (arith, length-drop cut w, (boundary_bounds p ordered w (omega arith)).0))
              (omega (arith, length-drop cut w))))

  emit_full_call :
      (again : Bytes → ℕ → S → Outcome S) (more : Bytes → ℕ → S → Emitted S) (rest left : Bytes)
      (index : ℕ) (c : Step S)
      → ((s' : S) → again rest (index + 1) s' ≡ feed_cut left (index + 1) s')
      → next_round false again (after_call false rest index more c) ≡ feed_next left index c
  unfolding after_call next_round feed_next
  emit_full_call again more rest left index (stopped s) h = refl
  emit_full_call again more rest left index (going s) h = h s

  drop_shorter :
      (w rest : Bytes) → 0 < length w → length (drop (boundary p w) w ++ rest) < length (w ++ rest)
  drop_shorter w rest more = omega (
    arith,
    length-append (drop (boundary p w) w) rest,
    length-append w rest,
    length-drop (boundary p w) w,
    (boundary_bounds p ordered w more).0,
  )

  -- Before EOF the inner loop cuts one chunk off a full window, where the whole input would be cut.
  emit_full :
      (again : Bytes → ℕ → S → Outcome S) (fuel : ℕ) (w rest : Bytes) (index : ℕ) (s : S)
      → length w ≡ p.max_size
      → ((s' : S)
          → again (drop (boundary p w) w) (index + 1) s'
            ≡ feed_cut (drop (boundary p w) w ++ rest) (index + 1) s')
      → next_round false again (emit p callback (suc fuel) false w index s)
        ≡ feed_cut (w ++ rest) index s
  unfolding emit
  emit_full again fuel w rest index s size h =
      let cut = boundary p w in
      let test : ((length w == p.max_size) || false) ≡ true = ground arith in
      let whole : 0 < length w = omega arith in
      let bounds = boundary_bounds p ordered w whole in
      let same = boundary-append p ordered w rest (omega arith) in
      rw
        (
          test,
          feed_cut_step (w ++ rest) index s (omega (arith, length-append w rest)),
          same,
          take-append_le cut w rest bounds.1,
          drop-append_le cut w rest bounds.1,
        )
        (emit_full_call again (emit p callback fuel false) (drop cut w) (drop cut w ++ rest) index
          (callback (take cut w) index s) h)

  after_fill_fits :
      (again : Bytes → List Piece → ℕ → S → Outcome S) (whole : Bytes) (f : Fill) (index : ℕ)
      (s : S)
      → FillFits p.max_size whole f
      → ((rest : Bytes) (ps : List Piece) (bytes : Bytes) (s' : S)
          → length rest ≤ p.max_size
          → content ps ≡ some bytes
          → length (rest ++ bytes) < length whole
          → again rest ps (index + 1) s' ≡ feed_cut (rest ++ bytes) (index + 1) s')
      → after_fill p callback again f index s ≡ feed_cut whole index s
  unfolding after_fill
  after_fill_fits again whole (full [] true ps) index s fits h =
      rw (← fits.0) (unfold feed cut_loop in refl)
  after_fill_fits again whole (full (b ∷ w) true ps) index s fits h =
      rw (← fits.0) (
        emit_eof (λ rest. again rest ps) (suc (length (b ∷ w))) (b ∷ w) index s (omega arith)
          fits.1)
  after_fill_fits again whole (full [] false ps) index s fits h = absurd (omega arith)
  after_fill_fits again whole (full (b ∷ w) false ps) index s fits h =
      let (rest, left, e) = fits.1 in
      let w : Bytes = b ∷ w in
      rw (← e) (
        emit_full (λ t. again t ps) (length w) w rest index s fits.0
          (λ s'.
            h (drop (boundary p w) w) ps rest s' (omega (arith, length-drop (boundary p w) w)) left
              (rw (← e) (drop_shorter w rest (omega arith)))))
  after_fill_fits again whole read_error index s fits h = absurd fits

  stream_loop-feed :
      (fuel : ℕ) (filled : Bytes) (pieces : List Piece) (bytes : Bytes) (index : ℕ) (s : S)
      → length (filled ++ bytes) < fuel
      → length filled ≤ p.max_size
      → content pieces ≡ some bytes
      → stream_loop p callback fuel filled pieces index s ≡ feed_cut (filled ++ bytes) index s
  unfolding stream_loop
  stream_loop-feed zero filled pieces bytes index s h room given = elim h [ ]
  stream_loop-feed (suc fuel) filled pieces bytes index s h room given =
      after_fill_fits (stream_loop p callback fuel) (filled ++ bytes)
        (fill p.max_size filled pieces) index s
        (fill-FillFits p.max_size pieces filled bytes room given)
        (λ rest ps left s' fits more shorter.
          stream_loop-feed fuel rest ps left (index + 1) s' (omega arith) fits more)

-- Streaming gives the callback exactly the chunks that cutting the whole input gives, with their
-- indices and in order, however the reader splits its bytes over its reads, and it stops at the
-- callback's first error. One pass more than there are bytes is enough.
pub stream-feed {ℓ} :
    {S : Type ℓ} (p : Params) (callback : Bytes → ℕ → S → Step S) (pieces : List Piece)
    (bytes : Bytes) (fuel : ℕ) (s : S)
    → IsOrdered p
    → content pieces ≡ some bytes
    → length bytes < fuel
    → stream_fast_cdc_chunks p callback fuel pieces s
      ≡ feed callback (cut_loop p (length bytes) bytes) 0 s
unfolding stream_fast_cdc_chunks
stream-feed p callback pieces bytes fuel s ordered given enough =
    stream_loop-feed p ordered callback fuel [] pieces bytes 0 s enough (omega arith) given
