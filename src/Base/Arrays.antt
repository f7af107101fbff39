-- ===== src/Base/Arrays.antt =====
-- C arrays as functions from the index, and the first-match loop over a range of indices.
-- That every index stays within the array is stated by the components' invariants.
use Prim.Native.Nat.{ℕ, zero, suc, ◌+◌, ◌≤◌, ◌<◌}
use mathlib.Core.Path.{◌≡◌, refl, subst, ap, ◌∙◌}
use mathlib.Core.Logic.{◌≢◌, ◌⊎◌, inl, inr}
use mathlib.Core.Bool.{Bool, true, false}
use mathlib.Core.Option.{Option, none, some}
use native.Mathlib.Decide.{ℕ_discrete, dec_lt}
use native.Mathlib.Omega.{arith}
use hexa_os_alpha_build.Base.Tests.{◌==◌, if◌then◌else◌, Bool-cases}

-- a[i] = v
abbrev pub update {ℓ} : {A : Type ℓ} → (ℕ → A) → ℕ → A → ℕ → A
update a i v j = if i == j then v else a j

module _ {ℓ} {A : Type ℓ} where
  pub update_self : (a : ℕ → A) (i : ℕ) (v : A) → update a i v i ≡ v
  update_self a i v = ground arith

  pub update_ne : (a : ℕ → A) (i : ℕ) (v : A) (j : ℕ) → i ≢ j → update a i v j ≡ a j
  update_ne a i v j ne = ground arith

  -- A write of a good value keeps all values good.
  pub update-all {κ} :
      (P : A → Type κ) (a : ℕ → A) (i : ℕ) (v : A)
      → P v
      → ((j : ℕ) → P (a j))
      → (j : ℕ) → P (update a i v j)
  update-all P a i v pv pa j = elim (i == j) as (λ b. P (if b then v else a j)) [
    | true ↦ pv
    | false ↦ pa j
  ]

-- A write that keeps a part of the value keeps that part of every element.
pub ap-update {ℓ κ} :
    {A : Type ℓ} {B : Type κ} (f : A → B) (a : ℕ → A) (i : ℕ) (v : A)
    → f v ≡ f (a i)
    → (j : ℕ) → f (update a i v j) ≡ f (a j)
ap-update f a i v e j = elim (ℕ_discrete i j) [
  | yes q ↦ rw (← q) (ap f (update_self a i v) ∙ e)
  | no ne ↦ ap f (update_ne a i v j ne)
]

-- for (k = i; k < i + n; k++) if (p k) return k;
unfoldable pub scan : ℕ → ℕ → (ℕ → Bool) → Option ℕ
scan zero i p = none
scan (suc n) i p = elim (p i) [ true ↦ some i | false ↦ scan n (i + 1) p ]

-- No index of the range satisfies the test.
abbrev pub NoneOf : (ℕ → Bool) → ℕ → ℕ → Type 0
NoneOf p i j = (k : ℕ) → i ≤ k → k < j → p k ≡ false

-- The index is the first of the range that satisfies the test.
pub record IsFirst (p : ℕ → Bool) (i j k : ℕ) : Type 0 where
  pub from : i ≤ k
  pub before : k < j
  pub hit : p k ≡ true
  pub first : NoneOf p i k

NoneOf-cons : (p : ℕ → Bool) (i j : ℕ) → p i ≡ false → NoneOf p (i + 1) j → NoneOf p i j
NoneOf-cons p i j e rest k h h' = elim (ℕ_discrete i k) [
  | yes q ↦ subst (λ m. p m ≡ false) q e
  | no q ↦ rest k (omega arith) h'
]

-- The loop finds the first match, and finds nothing only where nothing matches.
pub scan_cases :
    (n i : ℕ) (p : ℕ → Bool) {j : ℕ}
    → i + n ≡ j
    → ((scan n i p ≡ none) × NoneOf p i j) ⊎ ((k : ℕ) × (scan n i p ≡ some k) × IsFirst p i j k)
unfolding scan
scan_cases zero i p e = inl (refl, λ k h h'. absurd (omega arith))
scan_cases (suc n) i p {j} e = elim (Bool-cases (p i)) [
  | inl hit ↦ inr (
    i,
    ground arith,
    record {
      from = omega arith;
      before = omega arith;
      hit = hit;
      first = λ k h h'. absurd (omega arith);
    },
  )
  | inr miss ↦ elim (scan_cases n (i + 1) p {j = j} (omega arith)) [
    | inl (e', none_of) ↦ inl (ground (arith, e'), NoneOf-cons p i j miss none_of)
    | inr (k, e', f) ↦ inr (
      k,
      ground (arith, e'),
      record {
        from = omega (arith, f.from);
        before = f.before;
        hit = f.hit;
        first = NoneOf-cons p i k miss f.first;
      },
    )
  ]
]

-- A match within the range is not missed.
pub scan-ne-none :
    (n i : ℕ) (p : ℕ → Bool) (k : ℕ)
    → i ≤ k
    → k < i + n
    → p k ≡ true
    → (m : ℕ) × (scan n i p ≡ some m) × IsFirst p i (i + n) m
scan-ne-none n i p k h h' e = elim (scan_cases n i p refl) [
  | inl (_, none_of) ↦ cc (none_of k h h')
  | inr found ↦ found
]

pub IsFirst-unique : (p : ℕ → Bool) (i j k m : ℕ) → IsFirst p i j k → IsFirst p i j m → k ≡ m
IsFirst-unique p i j k m f g = elim (dec_lt k m) [
  | yes lt ↦ cc (f.hit, g.first k f.from lt)
  | no ge ↦ elim (dec_lt m k) [ yes gt ↦ cc (g.hit, f.first m g.from gt) | no le ↦ omega arith ]
]

-- A first match is what the loop finds.
pub scan_first :
    (n i : ℕ) (p : ℕ → Bool) {j : ℕ} (k : ℕ) → i + n ≡ j → IsFirst p i j k → scan n i p ≡ some k
scan_first n i p {j} k e f = elim (scan_cases n i p e) [
  | inl (_, none_of) ↦ cc (f.hit, none_of k f.from f.before)
  | inr (m, e', g) ↦ e' ∙ ap some (IsFirst-unique p i j m k g f)
]

-- The first match depends on the test's values alone.
pub IsFirst-ext :
    {p q : ℕ → Bool} {i j k : ℕ} → ((m : ℕ) → p m ≡ q m) → IsFirst p i j k → IsFirst q i j k
IsFirst-ext e f = record {
  from = f.from;
  before = f.before;
  hit = rw (← e) f.hit;
  first = λ m l l'. rw (← e) (f.first m l l');
}

-- Where nothing matches the loop finds nothing.
pub scan_nothing : (n i : ℕ) (p : ℕ → Bool) {j : ℕ} → i + n ≡ j → NoneOf p i j → scan n i p ≡ none
scan_nothing n i p e h = elim (scan_cases n i p e) [
  | inl (e', _) ↦ e'
  | inr (k, _, f) ↦ cc (f.hit, h k f.from f.before)
]
