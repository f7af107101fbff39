-- ===== src/Bitmap.antt =====
-- A bitmap in an array of bytes: bit `i % 8` of byte `i / 8`. The page allocator and the block
-- allocator both keep one.
use native.Mathlib.Decide.{ℕ_discrete}
use hexa_os_alpha_build.Base.{
  ℕ, ◌+◌, ◌/◌, ◌%◌, ◌<◌, ◌≡◌, ◌≢◌, Bool, false, not, ◌&&◌, ◌||◌, arith, update, ◌==◌, update_self,
  update_ne, ap, update-all, zero, suc, ◌∙◌, ltb, leb,
}
use hexa_os_alpha_build.Base.Bits.{
  test_bit, set_bit, clear_bit, test_bit-set_bit, test_bit-clear_bit, set_bit-lt, clear_bit-lt,
}

abbrev pub bit_at : (ℕ → ℕ) → ℕ → Bool
bit_at bm i = test_bit (bm (i / 8)) (i % 8)

abbrev pub set_at : (ℕ → ℕ) → ℕ → ℕ → ℕ
set_at bm i = update bm (i / 8) (set_bit (bm (i / 8)) (i % 8))

abbrev pub clear_at : (ℕ → ℕ) → ℕ → ℕ → ℕ
clear_at bm i = update bm (i / 8) (clear_bit (bm (i / 8)) (i % 8))

abbrev pub IsBytes : (ℕ → ℕ) → Type 0
IsBytes bm = (j : ℕ) → bm j < 256

pub set_at-IsBytes : (bm : ℕ → ℕ) (i : ℕ) → IsBytes bm → IsBytes (set_at bm i)
set_at-IsBytes bm i v =
    update-all (λ b. b < 256) bm (i / 8) _
      (set_bit-lt (bm (i / 8)) (i % 8) (v (i / 8)) (omega arith)) v

pub clear_at-IsBytes : (bm : ℕ → ℕ) (i : ℕ) → IsBytes bm → IsBytes (clear_at bm i)
clear_at-IsBytes bm i v =
    update-all (λ b. b < 256) bm (i / 8) _
      (clear_bit-lt (bm (i / 8)) (i % 8) (v (i / 8)) (omega arith)) v

-- A bit of the byte that is written, or of another one.
same_byte : (i j : ℕ) → i / 8 ≡ j / 8 → (i == j) ≡ (i % 8 == j % 8)
same_byte i j e = ground arith

other_byte : (i j : ℕ) → i / 8 ≢ j / 8 → (i == j) ≡ false
other_byte i j ne = ground arith

pub bit_at-set_at :
    (bm : ℕ → ℕ) (i j : ℕ) → IsBytes bm → bit_at (set_at bm i) j ≡ (i == j || bit_at bm j)
bit_at-set_at bm i j v = elim (ℕ_discrete (i / 8) (j / 8)) [
  | yes e ↦
      rw (same_byte i j e, ← e)
        (ap (λ b. test_bit b (j % 8)) (update_self bm (i / 8) _)
          ∙ test_bit-set_bit (bm (i / 8)) (i % 8) (j % 8) (v (i / 8)) (omega arith) (omega arith))
  | no ne ↦
      rw (other_byte i j ne) (ap (λ b. test_bit b (j % 8)) (update_ne bm (i / 8) _ (j / 8) ne))
]

pub bit_at-clear_at :
    (bm : ℕ → ℕ) (i j : ℕ) → IsBytes bm → bit_at (clear_at bm i) j ≡ (not (i == j) && bit_at bm j)
bit_at-clear_at bm i j v = elim (ℕ_discrete (i / 8) (j / 8)) [
  | yes e ↦
      rw (same_byte i j e, ← e)
        (ap (λ b. test_bit b (j % 8)) (update_self bm (i / 8) _)
          ∙ test_bit-clear_bit (bm (i / 8)) (i % 8) (j % 8) (v (i / 8)) (omega arith) (omega arith))
  | no ne ↦
      rw (other_byte i j ne) (ap (λ b. test_bit b (j % 8)) (update_ne bm (i / 8) _ (j / 8) ne))
]

-- `set_at` and `clear_at` over a range of `n` indices from `i` on.
pub set_range : ℕ → ℕ → (ℕ → ℕ) → ℕ → ℕ
set_range zero i bm = bm
set_range (suc n) i bm = set_range n (i + 1) (set_at bm i)

pub clear_range : ℕ → ℕ → (ℕ → ℕ) → ℕ → ℕ
clear_range zero i bm = bm
clear_range (suc n) i bm = clear_range n (i + 1) (clear_at bm i)

abbrev pub within : ℕ → ℕ → ℕ → Bool
within i j k = leb i k && ltb k j

pub set_range-IsBytes : (n i : ℕ) (bm : ℕ → ℕ) → IsBytes bm → IsBytes (set_range n i bm)
unfolding set_range
set_range-IsBytes zero i bm v = v
set_range-IsBytes (suc n) i bm v = set_range-IsBytes n (i + 1) (set_at bm i) (set_at-IsBytes bm i v)

pub clear_range-IsBytes : (n i : ℕ) (bm : ℕ → ℕ) → IsBytes bm → IsBytes (clear_range n i bm)
unfolding clear_range
clear_range-IsBytes zero i bm v = v
clear_range-IsBytes (suc n) i bm v =
    clear_range-IsBytes n (i + 1) (clear_at bm i) (clear_at-IsBytes bm i v)

pub bit_at-set_range :
    (n i : ℕ) (bm : ℕ → ℕ) (j : ℕ)
    → IsBytes bm
    → bit_at (set_range n i bm) j ≡ (within i (i + n) j || bit_at bm j)
unfolding set_range
bit_at-set_range zero i bm j v = ground arith
bit_at-set_range (suc n) i bm j v =
    bit_at-set_range n (i + 1) (set_at bm i) j (set_at-IsBytes bm i v)
    ∙ rw (bit_at-set_at bm i j v) (ground arith)

pub bit_at-clear_range :
    (n i : ℕ) (bm : ℕ → ℕ) (j : ℕ)
    → IsBytes bm
    → bit_at (clear_range n i bm) j ≡ (not (within i (i + n) j) && bit_at bm j)
unfolding clear_range
bit_at-clear_range zero i bm j v = ground arith
bit_at-clear_range (suc n) i bm j v =
    bit_at-clear_range n (i + 1) (clear_at bm i) j (clear_at-IsBytes bm i v)
    ∙ rw (bit_at-clear_at bm i j v) (ground arith)
