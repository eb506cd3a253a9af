-- ===== src/Runs/Chunks.antt =====
-- dag/fastcdc.go with small sizes: at least two bytes, four on average, eight at most.
use scionic_merkle_tree_go.Common.{
  ℕ, ◌*◌, ◌^◌, ◌≤◌, ◌<◌, ◌≡◌, refl, true, List, [], ◌∷◌, ◌++◌, Bytes, length, pos, arith, All,
}
use mathlib.Core.List.{flatten}
use scionic_merkle_tree_go.FastCdc.Defs.{Params, IsOrdered, Mode, boundary, cut_loop, cut_chunks}
use scionic_merkle_tree_go.FastCdc.Boundary.{boundary_bounds, boundary-append}
use scionic_merkle_tree_go.FastCdc.Cut.{AllButLast, cut_chunks_sizes, flatten-cut_chunks}
use scionic_merkle_tree_go.FastCdc.Reader.{
  Piece, some_bytes, last_bytes, Step, going, stream_fast_cdc_chunks,
}
use scionic_merkle_tree_go.FastCdc.Filled.{feed}
use scionic_merkle_tree_go.FastCdc.Stream.{stream-feed}

abbrev small : Params
small = record {
  min_size = 2;
  target_size = 4;
  max_size = 8;
  strict_mask = 3 * 2 ^ 62;
  loose_mask = 2 ^ 63;
}

abbrev fast_mode : Mode
fast_mode = record { fast_cdc = true; chunk_size = pos 3 }

abbrev ten_bytes : Bytes
ten_bytes = 1 ∷ 2 ∷ 3 ∷ 4 ∷ 5 ∷ 6 ∷ 7 ∷ 8 ∷ 9 ∷ 10 ∷ []

small-IsOrdered : IsOrdered small
small-IsOrdered = (omega arith, omega arith)

boundary_bounds_example :
    (0 < boundary small ten_bytes)
    × (boundary small ten_bytes ≤ length ten_bytes)
    × (boundary small ten_bytes ≤ 8)
    × ((length ten_bytes ≤ 2 → boundary small ten_bytes ≡ length ten_bytes))
    × ((2 < length ten_bytes → 2 < boundary small ten_bytes))
boundary_bounds_example = boundary_bounds small small-IsOrdered ten_bytes (omega arith)

boundary-append_example : boundary small (ten_bytes ++ 11 ∷ []) ≡ boundary small ten_bytes
boundary-append_example = boundary-append small small-IsOrdered ten_bytes (11 ∷ []) (omega arith)

cut_chunks_sizes_example :
    All (λ c. (0 < length c) × (length c ≤ 8)) (cut_chunks small fast_mode ten_bytes)
    × AllButLast (λ c. 2 < length c) (cut_chunks small fast_mode ten_bytes)
cut_chunks_sizes_example = cut_chunks_sizes small small-IsOrdered fast_mode ten_bytes refl

flatten-cut_chunks_example : flatten (cut_chunks small fast_mode ten_bytes) ≡ ten_bytes
flatten-cut_chunks_example = flatten-cut_chunks small fast_mode ten_bytes small-IsOrdered

abbrev collect : Bytes → ℕ → List Bytes → Step (List Bytes)
collect c index s = going (s ++ c ∷ [])

abbrev two_reads : List Piece
two_reads = some_bytes (1 ∷ 2 ∷ 3 ∷ 4 ∷ []) ∷ last_bytes (5 ∷ 6 ∷ 7 ∷ 8 ∷ 9 ∷ 10 ∷ []) ∷ []

stream-feed_example :
    stream_fast_cdc_chunks small collect 11 two_reads []
    ≡ feed collect (cut_loop small (length ten_bytes) ten_bytes) 0 []
stream-feed_example =
    stream-feed small collect two_reads ten_bytes 11 [] small-IsOrdered refl (omega arith)
