-- ===== src/FastCdc/Defs.antt =====
-- dag/fastcdc.go: the chunk boundary and the in-memory cutter.
use Prim.Native.Nat.{bit_and}
use scionic_merkle_tree_go.Common.{
  ℕ, zero, suc, ◌+◌, ◌-◌, ◌*◌, ◌%◌, ◌^◌, ◌<◌, Bool, true, false, List, [], ◌∷◌, Bytes, length, take,
  drop, get_or, ltb, leb, ◌==◌, if◌then◌else◌, ℤ, pos, negsuc,
}
use scionic_merkle_tree_go.FastCdc.Gear.{fast_cdc_gear}

-- The sizes and masks that fastcdc-v1 fixes.
pub record Params : Type 0 where
  pub min_size : ℕ
  pub target_size : ℕ
  pub max_size : ℕ
  pub strict_mask : ℕ
  pub loose_mask : ℕ

abbrev pub fast_cdc_v1 : Params
fast_cdc_v1 = record {
  min_size = 512 * 1024;
  target_size = 2048 * 1024;
  max_size = 8192 * 1024;
  strict_mask = 0xFFFFFE0000000000;
  loose_mask = 0xFFFFE00000000000;
}

abbrev pub IsOrdered : Params → Type 0
IsOrdered p = (p.min_size < p.target_size) × (p.target_size < p.max_size)

-- `(h << 1) + fastCDCGear[b]` in wrapping uint64 arithmetic.
unfoldable pub roll : ℕ → ℕ → ℕ
roll h b = (h * 2 % 2 ^ 64 + get_or fast_cdc_gear b 0) % 2 ^ 64

-- How a loop over positions ends: by a match at index `i`, which cuts at `i + 1`, or at its limit
-- with the hash and the bytes that are left.
pub data Scan : Type 0 where
  cut : ℕ → Scan
  carry : ℕ → Bytes → Scan

-- `rounds` positions from index `i` on. The caller's limit is within the data, so the loop never
-- meets the end of the list before its limit.
unfoldable pub scan : ℕ → ℕ → ℕ → ℕ → Bytes → Scan
scan mask zero i h rest = carry h rest
scan mask (suc rounds) i h [] = carry h []
scan mask (suc rounds) i h (b ∷ bs) =
    let h' = roll h b in
    let more = scan mask rounds (i + 1) h' bs in if bit_and h' mask == 0 then cut (i + 1) else more

-- The second loop ends by a match or at the limit, where the cut is forced.
unfoldable pub after_loose : ℕ → Scan → ℕ
after_loose limit (cut c) = c
after_loose limit (carry h rest) = limit

-- What follows the first loop: the second, with the loose mask and the hash carried on.
unfoldable pub after_strict : Params → ℕ → ℕ → Scan → ℕ
unfolding after_loose
after_strict p normal limit (cut c) = c
after_strict p normal limit (carry h rest) =
    after_loose limit (scan p.loose_mask (limit - normal) normal h rest)

abbrev pub limit_of : Params → ℕ → ℕ
limit_of p n = if ltb p.max_size n then p.max_size else n

abbrev pub normal_of : Params → ℕ → ℕ
normal_of p limit = if ltb limit p.target_size then limit else p.target_size

unfoldable pub boundary : Params → Bytes → ℕ
boundary p bytes =
    let n = length bytes in
    let limit = limit_of p n in
    let normal = normal_of p limit in
    if leb n p.min_size
    then n
    else after_strict p normal limit
        (scan p.strict_mask (normal - p.min_size) p.min_size 0 (drop p.min_size bytes))

-- The loop of CutChunks; `fuel` is at least the number of bytes left.
unfoldable pub cut_loop : Params → ℕ → Bytes → List Bytes
cut_loop p zero rest = []
cut_loop p (suc fuel) [] = []
cut_loop p (suc fuel) (b ∷ bs) =
    let rest : Bytes = b ∷ bs in
    take (boundary p rest) rest ∷ cut_loop p fuel (drop (boundary p rest) rest)

-- The fixed-size loop, with `size` above 0.
unfoldable pub slice_loop : ℕ → ℕ → Bytes → List Bytes
slice_loop size zero rest = []
slice_loop size (suc fuel) [] = []
slice_loop size (suc fuel) (b ∷ bs) =
    let rest : Bytes = b ∷ bs in take size rest ∷ slice_loop size fuel (drop size rest)

-- The process-wide producer settings `chunkingFastCDC` and `ChunkSize`.
pub record Mode : Type 0 where
  pub fast_cdc : Bool
  pub chunk_size : ℤ

abbrev pub default_chunk_size : ℕ
default_chunk_size = 2048 * 1024

unfoldable pub set_chunk_size : ℤ → Mode → Mode
set_chunk_size size m = record { fast_cdc = false; chunk_size = size }

unfoldable pub disable_chunking : Mode → Mode
unfolding set_chunk_size
disable_chunking m = set_chunk_size (negsuc 0) m

unfoldable pub set_default_chunk_size : Mode → Mode
set_default_chunk_size m = record { fast_cdc = true; chunk_size = pos default_chunk_size }

unfoldable pub cut_fixed : ℤ → Bytes → List Bytes
unfolding slice_loop
cut_fixed (negsuc n) bytes = bytes ∷ []
cut_fixed (pos zero) bytes = bytes ∷ []
cut_fixed (pos (suc k)) bytes =
    if leb (length bytes) (suc k) then bytes ∷ [] else slice_loop (suc k) (length bytes) bytes

unfoldable pub cut_chunks : Params → Mode → Bytes → List Bytes
unfolding cut_fixed cut_loop
cut_chunks p m [] = []
cut_chunks p m (b ∷ bs) =
    let bytes : Bytes = b ∷ bs in
    if m.fast_cdc then cut_loop p (length bytes) bytes else cut_fixed m.chunk_size bytes
