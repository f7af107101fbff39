-- ===== src/Base/Bits.antt =====
-- Bits of a byte, and the C idioms that set, clear and test one.
use Prim.Native.Nat.{ℕ, ◌-◌, ◌/◌, ◌%◌, ◌^◌, ◌<◌, bit_and, bit_or}
use mathlib.Core.Path.{◌≡◌, refl}
use mathlib.Core.Bool.{Bool, true, false, not, ◌&&◌, ◌||◌}
use native.Mathlib.Omega.{arith}
use mathlib.Core.Logic.{inl, inr}
use mathlib.Core.Option.{none, some}
use hexa_os_alpha_build.Base.Arrays.{scan, scan_cases}
use hexa_os_alpha_build.Base.Tests.{◌==◌, ltb}

-- (b >> k) & 1
unfoldable pub test_bit : ℕ → ℕ → Bool
test_bit b k = (b / 2 ^ k) % 2 == 1

-- b |= 1 << k, on a byte
unfoldable pub set_bit : ℕ → ℕ → ℕ
set_bit b k = bit_or b (2 ^ k)

-- b &= ~(1 << k), on a byte
pub clear_bit : ℕ → ℕ → ℕ
clear_bit b k = bit_and b (255 - 2 ^ k)

-- Whether the search for a number below `n` that fails the test finds none.
holds_below : ℕ → (ℕ → Bool) → Bool
holds_below n p = elim (scan n 0 (λ k. not (p k))) [ none ↦ true | some _ ↦ false ]

holds_below-hit : {n : ℕ} (p : ℕ → Bool) → holds_below n p ≡ true → (k : ℕ) → k < n → p k ≡ true
unfolding holds_below
holds_below-hit {n} p e k l = elim (scan_cases n 0 (λ k. not (p k)) {j = n} (omega arith)) [
  | inl (_, none_of) ↦ ground (arith, none_of k (omega arith) l)
  | inr (m, found, _) ↦ ground (arith, found)
]

infix 50 ◌=ᵇ◌
abbrev ◌=ᵇ◌ : Bool → Bool → Bool
true =ᵇ b = b
false =ᵇ b = not b

eq_of_=ᵇ : (a b : Bool) → (a =ᵇ b) ≡ true → a ≡ b
eq_of_=ᵇ a b h = ground arith

-- What one write does to one bit, checked on every byte and every pair of positions.
abbrev set_row : ℕ → ℕ → ℕ → Bool
set_row b k j = (test_bit (set_bit b k) j =ᵇ (k == j || test_bit b j)) && ltb (set_bit b k) 256

abbrev clear_row : ℕ → ℕ → ℕ → Bool
clear_row b k j =
    (test_bit (clear_bit b k) j =ᵇ (not (k == j) && test_bit b j)) && ltb (clear_bit b k) 256

abbrev table : (ℕ → ℕ → ℕ → Bool) → Bool
table row = holds_below 256 (λ b. holds_below 8 (λ k. holds_below 8 (λ j. row b k j)))

set_table : table set_row ≡ true
unfolding holds_below scan test_bit set_bit
set_table = refl

clear_table : table clear_row ≡ true
unfolding holds_below scan test_bit clear_bit
clear_table = refl

table_sound :
    (row : ℕ → ℕ → ℕ → Bool) (b k j : ℕ)
    → table row ≡ true
    → b < 256
    → k < 8
    → j < 8
    → row b k j ≡ true
table_sound row b k j e hb hk hj =
    holds_below-hit {n = 8} _ (holds_below-hit {n = 8} _ (holds_below-hit {n = 256} _ e b hb) k hk)
      j hj

module _ (b k j : ℕ) (hb : b < 256) (hk : k < 8) (hj : j < 8) where
  pub test_bit-set_bit : test_bit (set_bit b k) j ≡ (k == j || test_bit b j)
  test_bit-set_bit = eq_of_=ᵇ _ _ (ground (arith, table_sound set_row b k j set_table hb hk hj))

  pub test_bit-clear_bit : test_bit (clear_bit b k) j ≡ (not (k == j) && test_bit b j)
  test_bit-clear_bit =
      eq_of_=ᵇ _ _ (ground (arith, table_sound clear_row b k j clear_table hb hk hj))

  set_bit-lt_at : set_bit b k < 256
  set_bit-lt_at = ground (arith, table_sound set_row b k j set_table hb hk hj)

  clear_bit-lt_at : clear_bit b k < 256
  clear_bit-lt_at = ground (arith, table_sound clear_row b k j clear_table hb hk hj)

pub set_bit-lt : (b k : ℕ) → b < 256 → k < 8 → set_bit b k < 256
set_bit-lt b k hb hk = set_bit-lt_at b k k hb hk hk

pub clear_bit-lt : (b k : ℕ) → b < 256 → k < 8 → clear_bit b k < 256
clear_bit-lt b k hb hk = clear_bit-lt_at b k k hb hk hk

-- A byte of ones.
pub test_bit-ones : (k : ℕ) → k < 8 → test_bit 0xFF k ≡ true
unfolding test_bit holds_below scan
test_bit-ones k l = holds_below-hit {n = 8} (test_bit 0xFF) refl k l

-- A byte of zeros.
pub test_bit-zeros : (k : ℕ) → k < 8 → test_bit 0 k ≡ false
unfolding test_bit holds_below scan
test_bit-zeros k l = ground (arith, holds_below-hit {n = 8} (λ j. not (test_bit 0 j)) refl k l)
