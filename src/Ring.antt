-- ===== src/Ring.antt =====
-- Rings with a head, a tail and one free slot, in an array that wraps at `size`. The pipes, the typed
-- pipes, the event queues, the log and the loopback device all keep their data this way.
pub mod Overwrite
use native.Mathlib.Nat.{mod-add-mod, mod-eq_of_lt, mod-eq-sub-mod}
use native.Mathlib.Decide.{dec_lt, ℕ_discrete}
use hexa_os_alpha_build.Base.{
  ℕ, zero, suc, ◌+◌, ◌-◌, ◌%◌, ◌<◌, ◌≡◌, refl, ap, ◌≢◌, List, [], ◌∷◌, ◌++◌, arith, update, ◌==◌,
  if◌then◌else◌, sym, ltb, ap₂, ◌∙◌,
}
use hexa_os_alpha_build.Base.Lists.{length, drop, is_empty}

-- (i + 1) % size
abbrev pub next : ℕ → ℕ → ℕ
next size i = (i + 1) % size

pub record InRange (size head tail : ℕ) : Type 0 where
  pub head_in : head < size
  pub tail_in : tail < size

-- How many slots lie from the tail up to the head, going round.
pub used : ℕ → ℕ → ℕ → ℕ
used size head tail = (head + size - tail) % size

module _ {ℓ} {A : Type ℓ} where
  -- The `n` elements from index `i` on, going round at `size`.
  abbrev pub window : (ℕ → A) → ℕ → ℕ → ℕ → List A
  window buf size i zero = []
  window buf size i (suc n) = buf i ∷ window buf size (next size i) n

  -- What the ring holds, oldest first.
  pub contents : (ℕ → A) → ℕ → ℕ → ℕ → List A
  contents buf size head tail = window buf size tail (used size head tail)

  length-window : (buf : ℕ → A) (size i n : ℕ) → length (window buf size i n) ≡ n
  length-window buf size i zero = refl
  length-window buf size i (suc n) = ap suc (length-window buf size (next size i) n)

-- Both moduli, as the comparisons that they make.
next_lem : (size i : ℕ) → i < size → next size i ≡ (if i + 1 == size then 0 else i + 1)
next_lem size i h = elim (dec_lt (i + 1) size) [
  | yes p ↦ ground (arith, mod-eq_of_lt p)
  | no p ↦ ground (arith, mod-eq-sub-mod {n = i + 1} {m = size} (omega arith))
]

used_lem :
    (size head tail : ℕ)
    → InRange size head tail
    → used size head tail ≡ (if ltb head tail then head + size - tail else head - tail)
unfolding used
used_lem size head tail r = elim (dec_lt head tail) [
  | yes p ↦ ground (arith, mod-eq_of_lt {n = head + size - tail} {m = size} (omega arith))
  | no p ↦ ground (
    arith,
    mod-eq-sub-mod {n = head + size - tail} {m = size} (omega arith),
    mod-eq_of_lt {n = head - tail} {m = size} (omega arith),
  )
]

pub next-lt : (size i : ℕ) → i < size → next size i < size
next-lt size i h = ground (arith, next_lem size i h)

pub used-lt : (size head tail : ℕ) → InRange size head tail → used size head tail < size
used-lt size head tail r = ground (arith, used_lem size head tail r)

pub used-next_head :
    (size head tail : ℕ)
    → InRange size head tail
    → next size head ≢ tail
    → used size (next size head) tail ≡ suc (used size head tail)
used-next_head size head tail r ne =
    let r' : InRange size (next size head) tail = omega (arith, next-lt size head r.head_in) in
    ground (arith, used_lem size head tail r, used_lem size _ tail r', next_lem size head r.head_in)

used-next_tail :
    (size head tail : ℕ)
    → InRange size head tail
    → head ≢ tail
    → used size head tail ≡ suc (used size head (next size tail))
used-next_tail size head tail r ne =
    let r' : InRange size head (next size tail) = omega (arith, next-lt size tail r.tail_in) in
    ground (arith, used_lem size head tail r, used_lem size head _ r', next_lem size tail r.tail_in)

-- A ring whose next put would run into the tail holds one element fewer than it has slots.
pub used_full :
    (size head tail : ℕ)
    → InRange size head tail
    → next size head ≡ tail
    → used size head tail + 1 ≡ size
used_full size head tail r e =
    ground (arith, used_lem size head tail r, next_lem size head r.head_in)

used_self : (size i : ℕ) → i < size → used size i i ≡ 0
used_self size i h = ground (arith, used_lem size i i (omega arith))

-- `k` steps on from `i`, going round.
step-next : (size i k : ℕ) → i < size → (i + suc k) % size ≡ (next size i + k) % size
step-next size i k h = rw mod-add-mod (ap (λ m. m % size) (omega arith))

tail-used :
    (size head tail : ℕ) → InRange size head tail → (tail + used size head tail) % size ≡ head
tail-used size head tail r = elim (dec_lt head tail) [
  | yes p ↦ ground (
    arith,
    used_lem size head tail r,
    mod-eq-sub-mod {n = head + size} {m = size} (omega arith),
    mod-eq_of_lt r.head_in,
  )
  | no p ↦ ground (arith, used_lem size head tail r, mod-eq_of_lt r.head_in)
]

-- Fewer than `size` steps do not come back to where they began.
step-ne : (size i k : ℕ) → i < size → suc k < size → (i + suc k) % size ≢ i
step-ne size i k h h' = elim (dec_lt (i + suc k) size) [
  | yes p ↦ omega (arith, mod-eq_of_lt p)
  | no p ↦ omega (
    arith,
    mod-eq-sub-mod {n = i + suc k} {m = size} (omega arith),
    mod-eq_of_lt {n = i + suc k - size} {m = size} (omega arith),
  )
]

module _ {ℓ} {A : Type ℓ} where
  -- A write just past a window extends it.
  window-update :
      (buf : ℕ → A) (size i n j : ℕ) (x : A)
      → i < size
      → n < size
      → j ≡ (i + n) % size
      → window (update buf j x) size i (suc n) ≡ window buf size i n ++ x ∷ []
  window-update buf size i zero j x h h' e =
      let e' : j ≡ i = omega (arith, mod-eq_of_lt {n = i + 0} {m = size} (omega arith)) in
      ground arith
  window-update buf size i (suc n) j x h h' e = ap₂ ◌∷◌ (ground (arith, step-ne size i n h)) (
      window-update buf size (next size i) n j x (next-lt size i h) (omega arith)
        (e ∙ step-next size i n h))

  pub length-contents :
      (buf : ℕ → A) (size head tail : ℕ)
      → length (contents buf size head tail) ≡ used size head tail
  unfolding contents
  length-contents buf size head tail = length-window buf size tail (used size head tail)

  pub contents_empty : (buf : ℕ → A) (size i : ℕ) → i < size → contents buf size i i ≡ []
  unfolding contents
  contents_empty buf size i h = rw (used_self size i h)

  module _ (buf : ℕ → A) (size head tail : ℕ) (r : InRange size head tail) where
    -- A put at the head, where it does not run into the tail, adds the element at the end.
    pub contents_put :
        (x : A)
        → next size head ≢ tail
        → contents (update buf head x) size (next size head) tail
          ≡ contents buf size head tail ++ x ∷ []
    unfolding contents
    contents_put x ne = rw (used-next_head size head tail r ne) (
        window-update buf size tail (used size head tail) head x r.tail_in
          (used-lt size head tail r) (sym (tail-used size head tail r)))

    -- A get at the tail of a ring that is not empty takes the oldest element.
    pub contents_get :
        head ≢ tail
        → contents buf size head tail ≡ buf tail ∷ contents buf size head (next size tail)
    unfolding contents
    contents_get ne = rw (used-next_tail size head tail r ne)

  -- A ring is empty exactly when its indices meet.
  pub is_empty-contents :
      (buf : ℕ → A) (size head tail : ℕ)
      → InRange size head tail
      → is_empty (contents buf size head tail) ≡ (tail == head)
  is_empty-contents buf size head tail r = elim (ℕ_discrete head tail) [
    | yes e ↦ ground (arith, contents_empty buf size tail r.tail_in)
    | no ne ↦ ground (arith, contents_get buf size head tail r ne)
  ]

  -- A put that runs into the tail, which then moves on, drops the oldest element.
  pub contents_overwrite :
      (buf : ℕ → A) (size head tail : ℕ) (x : A)
      → InRange size head tail
      → 1 < size
      → next size head ≡ tail
      → contents (update buf head x) size (next size head) (next size tail)
        ≡ drop 1 (contents buf size head tail) ++ x ∷ []
  contents_overwrite buf size head tail x r h e =
      rw (contents_get buf size head tail r (ground (arith, next_lem size head r.head_in))) (
        contents_put buf size head (next size tail)
          (omega (arith, r.head_in, next-lt size tail r.tail_in)) x
          (ground (arith, next_lem size tail r.tail_in)))
