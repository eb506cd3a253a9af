-- ===== src/Common/Masks.antt =====
-- Masks on one byte, as arithmetic: tables of a few entries, compared by evaluation.
use Prim.Native.Nat.{ℕ, zero, suc, ◌+◌, ◌<◌, bit_or}
use mathlib.Core.Path.{◌≡◌, refl}
use mathlib.Core.Bool.{Bool, true, false}
use native.Mathlib.Omega.{arith}
use scionic_merkle_tree_go.Common.Tests.{◌==◌, if◌then◌else◌}

module _ (f g : ℕ → ℕ) where
  same_below : ℕ → Bool
  same_below zero = true
  same_below (suc n) = if f n == g n then same_below n else false

  same_below→eq : (n : ℕ) → same_below n ≡ true → (i : ℕ) → i < n → f i ≡ g i
  unfolding same_below
  same_below→eq zero e i h = absurd (omega arith)
  same_below→eq (suc n) e i h = ground (arith, same_below→eq n (ground arith) i)

pub or-0x40 : (n : ℕ) → n < 28 → bit_or 0x40 n ≡ 0x40 + n
unfolding same_below
or-0x40 = same_below→eq _ _ 28 refl

pub or-0x60 : (n : ℕ) → n < 28 → bit_or 0x60 n ≡ 0x60 + n
unfolding same_below
or-0x60 = same_below→eq _ _ 28 refl

pub or-0xa0 : (n : ℕ) → n < 28 → bit_or 0xa0 n ≡ 0xa0 + n
unfolding same_below
or-0xa0 = same_below→eq _ _ 28 refl
