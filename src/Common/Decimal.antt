-- ===== src/Common/Decimal.antt =====
-- `strconv.Itoa` for numbers that are not negative, and `strconv.Atoi` for 64-bit integers.
use scionic_merkle_tree_go.Common.Text.{Bytes}
use scionic_merkle_tree_go.Common.Int.{ℤ, pos, negsuc}
use scionic_merkle_tree_go.Common.Lists.{length, length-append}
use scionic_merkle_tree_go.Common.Tests.{ltb, leb, ◌==◌, if◌then◌else◌, Bool-cases}
use Prim.Native.Nat.{ℕ, zero, suc, ◌+◌, ◌-◌, ◌*◌, ◌/◌, ◌%◌, ◌^◌, ◌≤◌, ◌<◌}
use mathlib.Core.Path.{◌≡◌, refl, sym, ap, ◌∙◌}
use mathlib.Core.Logic.{inl, inr}
use mathlib.Core.Bool.{false, ◌&&◌}
use mathlib.Core.Option.{Option, none, some}
use mathlib.Core.List.{[], ◌∷◌, ◌++◌}
use native.Mathlib.Omega.{arith}

-- The decimal digits, on fuel: a number above zero has fewer digits than it counts.
unfoldable pub digits : ℕ → ℕ → Bytes
digits zero n = []
digits (suc fuel) n =
    let front = digits fuel (n / 10) in
    if ltb n 10 then (48 + n) ∷ [] else front ++ (48 + n % 10) ∷ []

unfoldable pub itoa : ℕ → Bytes
unfolding digits
itoa n = digits (suc n) n

-- The number that digits are read as, from the value of those before.
unfoldable pub read_digits : ℕ → Bytes → Option ℕ
read_digits value [] = some value
read_digits value (c ∷ cs) =
    let rest = read_digits (value * 10 + (c - 48)) cs in if leb 48 c && leb c 57 then rest else none

abbrev pub below : ℕ → Option ℕ → Option ℕ
below bound none = none
below bound (some n) = if ltb n bound then some n else none

abbrev pub as_pos : Option ℕ → Option ℤ
as_pos none = none
as_pos (some n) = some (pos n)

abbrev pub as_neg : Option ℕ → Option ℤ
as_neg none = none
as_neg (some zero) = some (pos 0)
as_neg (some (suc n)) = some (negsuc n)

abbrev pub some_digits : Bytes → Option ℕ → Option ℕ
some_digits [] n = none
some_digits (c ∷ cs) n = n

unfoldable pub atoi : Bytes → Option ℤ
unfolding read_digits
atoi [] = none
atoi (c ∷ cs) =
    if c == b'-'
    then as_neg (below (2 ^ 63 + 1) (some_digits cs (read_digits 0 cs)))
    else if c == b'+'
    then as_pos (below (2 ^ 63) (some_digits cs (read_digits 0 cs)))
    else as_pos (below (2 ^ 63) (read_digits 0 (c ∷ cs)))

read_digits-append :
    (value n : ℕ) (cs : Bytes) (d : ℕ)
    → read_digits value cs ≡ some n
    → d < 10
    → read_digits value (cs ++ (48 + d) ∷ []) ≡ some (n * 10 + d)
unfolding read_digits
read_digits-append value n [] d e h = ground arith
read_digits-append value n (c ∷ cs) d e h = elim (Bool-cases (leb 48 c && leb c 57)) [
  | inl digit ↦ rw digit (read_digits-append (value * 10 + (c - 48)) n cs d (rw digit at e) h)
  | inr other ↦ absurd (cc (rw other at e))
]

read_one : (n : ℕ) → n < 10 → read_digits 0 ((48 + n) ∷ []) ≡ some n
unfolding read_digits
read_one n h = ground arith

read_digits-digits : (fuel n : ℕ) → n < fuel → read_digits 0 (digits fuel n) ≡ some n
unfolding digits
read_digits-digits zero n h = absurd (omega arith)
read_digits-digits (suc fuel) n h = elim (Bool-cases (ltb n 10)) [
  | inl small ↦ rw small (read_one n (ground arith))
  | inr large ↦
      let front = read_digits-digits fuel (n / 10) (ground arith) in
      rw large (
        read_digits-append 0 (n / 10) (digits fuel (n / 10)) (n % 10) front (omega arith)
        ∙ ap some (omega arith))
]

read_digits-itoa : (n : ℕ) → read_digits 0 (itoa n) ≡ some n
unfolding itoa
read_digits-itoa n = read_digits-digits (suc n) n (omega arith)

starts_with_digit : (n c : ℕ) (cs : Bytes) → read_digits 0 (c ∷ cs) ≡ some n → (48 ≤ c) × (c ≤ 57)
unfolding read_digits
starts_with_digit n c cs e = elim (Bool-cases (leb 48 c && leb c 57)) [
  | inl digit ↦ ground arith
  | inr other ↦ absurd (cc (rw other at e))
]

atoi_digits :
    (n : ℕ) (s : Bytes)
    → read_digits 0 s ≡ some n
    → 0 < length s
    → atoi s ≡ as_pos (below (2 ^ 63) (some n))
unfolding atoi
atoi_digits n [] e some_char = absurd (omega arith)
atoi_digits n (c ∷ cs) e some_char =
    let first = starts_with_digit n c cs e in
    let no_minus : (c == b'-') ≡ false = ground arith in
    let no_plus : (c == b'+') ≡ false = ground arith in rw (no_minus, no_plus, e) refl

length-itoa : (n : ℕ) → 0 < length (itoa n)
unfolding itoa digits
length-itoa n = elim (Bool-cases (ltb n 10)) [
  | inl small ↦ rw small (omega arith)
  | inr large ↦ rw large (omega (arith, length-append {0} (digits n (n / 10)) ((48 + n % 10) ∷ [])))
]

-- What `Itoa` writes, `Atoi` reads when it fits.
pub atoi-itoa : (n : ℕ) → atoi (itoa n) ≡ as_pos (below (2 ^ 63) (some n))
atoi-itoa n = atoi_digits n (itoa n) (read_digits-itoa n) (length-itoa n)

pub itoa-injective : (m n : ℕ) → itoa m ≡ itoa n → m ≡ n
itoa-injective m n e =
    let same : some m ≡ some n =
      sym (read_digits-itoa m) ∙ ap (read_digits 0) e ∙ read_digits-itoa n in
    cc same
