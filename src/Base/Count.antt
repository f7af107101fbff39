-- ===== src/Base/Count.antt =====
-- How many indices below a bound satisfy a test.
use Prim.Native.Nat.{ℕ, zero, suc, ◌+◌, ◌≤◌, ◌<◌}
use mathlib.Core.Path.{◌≡◌, refl, ap₂, ap}
use mathlib.Core.Logic.{◌≢◌}
use mathlib.Core.Bool.{Bool, true, false}
use native.Mathlib.Decide.{ℕ_discrete}
use native.Mathlib.Omega.{arith}
use hexa_os_alpha_build.Base.Arrays.{NoneOf}

abbrev pub bit : Bool → ℕ
bit true = 1
bit false = 0

unfoldable pub count : ℕ → (ℕ → Bool) → ℕ
count zero p = 0
count (suc n) p = count n p + bit (p n)

pub count-le : (n : ℕ) (p : ℕ → Bool) → count n p ≤ n
unfolding count
count-le zero p = omega arith
count-le (suc n) p = ground (arith, count-le n p)

pub count-ext : (n : ℕ) (p q : ℕ → Bool) → ((j : ℕ) → j < n → p j ≡ q j) → count n p ≡ count n q
unfolding count
count-ext zero p q h = refl
count-ext (suc n) p q h =
    ap₂ ◌+◌ (count-ext n p q (λ j l. h j (omega arith))) (ap bit (h n (omega arith)))

-- Two tests that differ at one index below the bound.
pub count_change :
    (n : ℕ) (p q : ℕ → Bool) (i : ℕ)
    → i < n
    → ((j : ℕ) → j < n → i ≢ j → p j ≡ q j)
    → count n p + bit (q i) ≡ count n q + bit (p i)
unfolding count
count_change zero p q i l h = absurd (omega arith)
count_change (suc n) p q i l h = elim (ℕ_discrete i n) [
  | yes e ↦
      let below : count n p ≡ count n q =
        count-ext n p q (λ j l'. h j (omega arith) (omega arith)) in
      rw (below, e) (omega arith)
  | no ne ↦
      let last : p n ≡ q n = h n (omega arith) ne in
      rw last
        (omega (arith, count_change n p q i (omega arith) (λ j l' ne'. h j (omega arith) ne')))
]

pub count-pos : (n : ℕ) (p : ℕ → Bool) (i : ℕ) → i < n → p i ≡ true → 0 < count n p
unfolding count
count-pos zero p i l h = absurd (omega arith)
count-pos (suc n) p i l h = elim (ℕ_discrete i n) [
  | yes e ↦ let last : p n ≡ true = rw (← e) h in rw last (omega arith)
  | no ne ↦ omega (arith, count-pos n p i (omega arith) h)
]

pub count_none : (n : ℕ) (p : ℕ → Bool) → NoneOf p 0 n → count n p ≡ 0
unfolding count
count_none zero p h = refl
count_none (suc n) p h =
    rw (count_none n p (λ k l l'. h k l (omega arith)), h n (omega arith) (omega arith))
      (omega arith)

pub count_all : (n : ℕ) (p : ℕ → Bool) → ((j : ℕ) → j < n → p j ≡ true) → count n p ≡ n
unfolding count
count_all zero p h = refl
count_all (suc n) p h =
    rw (count_all n p (λ j l. h j (omega arith)), h n (omega arith)) (omega arith)

pub count-lt : (n : ℕ) (p : ℕ → Bool) (i : ℕ) → i < n → p i ≡ false → count n p < n
unfolding count
count-lt zero p i l h = absurd (omega arith)
count-lt (suc n) p i l h = elim (ℕ_discrete i n) [
  | yes e ↦ let last : p n ≡ false = rw (← e) h in rw last (omega (arith, count-le n p))
  | no ne ↦ ground (arith, count-lt n p i (omega arith) h)
]
