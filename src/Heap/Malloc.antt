-- ===== src/Heap/Malloc.antt =====
-- What `kmalloc` does to the blocks in use.
use native.Mathlib.Decide.{dec_lt}
use hexa_os_alpha_build.Base.{
  ℕ, ◌+◌, ◌-◌, ◌*◌, ◌/◌, ◌%◌, ◌^◌, ◌<◌, ◌≤◌, ◌≡◌, refl, Bool, true, false, ◌&&◌, List, [], ◌∷◌,
  ◌++◌, Option, none, some, arith, leb, Bool-cases, inl, inr, ap, lt→ltb, le→ltb, ne→beq,
}
use hexa_os_alpha_build.Heap.{Block, round_up, take_block, first_fit, kmalloc}
use hexa_os_alpha_build.Heap.Tiling.{IsTiled, IsMerged, IsMerged-false, IsTiled-le, taken}

-- No free block has `size` bytes.
abbrev pub NoFit : ℕ → List Block → Type 0
NoFit size [] = true ≡ true
NoFit size (b ∷ bs) = ((b.free && leb size b.size) ≡ false) × NoFit size bs

-- The block at `a`, of `n` bytes, is in use after and not before, and no other block in use changes.
pub record IsTaken (a n : ℕ) (h h' : List Block) : Type 0 where
  pub before : List (ℕ × ℕ)
  pub after : List (ℕ × ℕ)
  pub was : taken h ≡ before ++ after
  pub is : taken h' ≡ before ++ ((a, n) ∷ after)

-- How the search ends on a list that tiles the addresses from `s` up to `e`, where `f` says whether
-- the block in front of it is free.
pub data Finds (size s e : ℕ) (f : Bool) (h : List Block) : Option (ℕ × List Block) → Type 0 where
  missing : NoFit size h → Finds size s e f h none
  found :
      {h' : List Block} (a n : ℕ)
      → IsTaken a n h h'
      → size ≤ n
      → n ≤ size + 16
      → s ≤ a
      → a + 12 + n ≤ e
      → IsTiled s e h'
      → IsMerged f h'
      → Finds size s e f h (some (a + 12, h'))

take_block_lem :
    (size s e : ℕ) (f : Bool) (b : Block) (bs : List Block)
    → IsTiled s e (b ∷ bs)
    → IsMerged f (b ∷ bs)
    → e < 2 ^ 31
    → b.free ≡ true
    → size ≤ b.size
    → Finds size s e f (b ∷ bs) (some (b.addr + 12, take_block size b bs))
unfolding take_block
take_block_lem size s e f b bs t m big free fits =
    let le = IsTiled-le bs (s + 12 + b.size) e t.1 in
    elim (dec_lt (size + 16) b.size) [
      | yes lt ↦
          let w : (size + 16) % 2 ^ 32 ≡ size + 16 = omega arith in
          let w' : (b.addr + 12 + size) % 2 ^ 32 ≡ b.addr + 12 + size = omega arith in
          let left : (b.size + 2 ^ 33 - (size + 12)) % 2 ^ 32 ≡ b.size - size - 12 = omega arith in
          let same_end : s + 12 + size + 12 + (b.size - size - 12) ≡ s + 12 + b.size =
            omega arith in
          rw (w, w', left, lt→ltb (size + 16) b.size lt)
            (found b.addr size
              (record { before = []; after = taken bs; was = rw free refl; is = refl })
              (omega arith) (omega arith) (omega arith) (omega arith)
              (t.0, (omega arith, rw same_end t.1))
              (λ x. refl, (λ x. absurd (ground arith), rw (← free) m.1)))
      | no ge ↦
          let w : (size + 16) % 2 ^ 32 ≡ size + 16 = omega arith in
          rw (w, le→ltb (size + 16) b.size (omega arith))
            (found b.addr b.size
              (record { before = []; after = taken bs; was = rw free refl; is = refl }) fits
              (omega arith) (omega arith) (omega arith) t (λ x. refl, IsMerged-false b.free bs m.1))
    ]

round_up-le : (size : ℕ) → size < 2 ^ 32 - 3 → size ≤ round_up size
unfolding round_up
round_up-le size h = omega arith

round_up-ge : (size : ℕ) → size < 2 ^ 32 - 3 → round_up size ≤ size + 3
unfolding round_up
round_up-ge size h = omega arith

IsTaken-cons :
    (b : Block) (a n : ℕ) (h h' : List Block) → IsTaken a n h h' → IsTaken a n (b ∷ h) (b ∷ h')
IsTaken-cons b a n h h' k = elim (Bool-cases b.free) [
  | inl f ↦ record { before = k.before; after = k.after; was = rw f k.was; is = rw f k.is }
  | inr f ↦ record {
    before = (b.addr, b.size) ∷ k.before;
    after = k.after;
    was = rw f (ap (λ ys. (b.addr, b.size) ∷ ys) k.was);
    is = rw f (ap (λ ys. (b.addr, b.size) ∷ ys) k.is);
  }
]

-- A list found behind a block that is kept.
behind :
    {size s e : ℕ} {f : Bool} {b : Block} {bs : List Block} {r : Option (ℕ × List Block)}
    → IsTiled s e (b ∷ bs)
    → IsMerged f (b ∷ bs)
    → (b.free && leb size b.size) ≡ false
    → Finds size (s + 12 + b.size) e b.free bs r
    → Finds size s e f (b ∷ bs) (elim r [ none ↦ none | some (p, bs') ↦ some (p, b ∷ bs') ])
behind t m x (missing y) = missing (x, y)
behind {b = b} {bs = bs} t m x (found {h'} a n k l l' low high t' m') =
    found a n (IsTaken-cons b a n bs h' k) l l' (omega arith) high (t.0, t') (m.0, m')

first_fit-Finds :
    (h : List Block) (size s e : ℕ) (f : Bool)
    → IsTiled s e h
    → IsMerged f h
    → e < 2 ^ 31
    → Finds size s e f h (first_fit size h)
unfolding first_fit
first_fit-Finds [] size s e f t m big = missing refl
first_fit-Finds (b ∷ bs) size s e f t m big = elim (Bool-cases (b.free && leb size b.size)) [
  | inl y ↦ rw y (take_block_lem size s e f b bs t m big (ground arith) (ground arith))
  | inr x ↦ rw x (behind t m x (first_fit-Finds bs size (s + 12 + b.size) e b.free t.1 m.1 big))
]

-- How `kmalloc` ends: with 0 and no change, where no free block has `size` bytes rounded up to a
-- multiple of 4; or with the address behind the header of a block that was not in use and has at least
-- `size` bytes and at most 19 more.
pub data Mallocs (size s e : ℕ) (h : List Block) : ℕ × List Block → Type 0 where
  exhausted : NoFit (round_up size) h → Mallocs size s e h (0, h)
  block :
      {h' : List Block} (a n : ℕ)
      → IsTaken a n h h'
      → size ≤ n
      → n ≤ size + 19
      → s ≤ a
      → a + 12 + n ≤ e
      → IsTiled s e h'
      → IsMerged false h'
      → Mallocs size s e h (a + 12, h')

from_Finds :
    {size s e : ℕ} {h : List Block} {r : Option (ℕ × List Block)}
    → size ≤ round_up size
    → round_up size ≤ size + 3
    → Finds (round_up size) s e false h r
    → Mallocs size s e h (elim r [ none ↦ (0, h) | some r ↦ r ])
from_Finds l l' (missing y) = exhausted y
from_Finds l l' (found {h'} a n k u u' low high t m) =
    block a n k (omega arith) (omega arith) low high t m

-- `kmalloc` of a size above 0 and below 2^32 - 3, on a heap whose blocks tile the addresses from `s`
-- to `e` with no two free blocks side by side, fails only where no free block fits. Otherwise it hands
-- out a block within those addresses that was not in use, leaves all other blocks in use as they are,
-- and keeps the heap tiled and merged.
pub kmalloc_lem :
    (h : List Block) (size s e : ℕ)
    → IsTiled s e h
    → IsMerged false h
    → e < 2 ^ 31
    → 0 < size
    → size < 2 ^ 32 - 3
    → Mallocs size s e h (kmalloc h size)
unfolding kmalloc
kmalloc_lem h size s e t m big pos small = rw (ne→beq size 0 (omega arith)) (
    from_Finds (round_up-le size small) (round_up-ge size small)
      (first_fit-Finds h (round_up size) s e false t m big))

-- The largest three sizes are rounded up to 0: `kmalloc` then hands out the first free block, cut to
-- no bytes at all where it has more than 16.
pub kmalloc_wraps :
    (b : Block) (bs : List Block) (size : ℕ)
    → 2 ^ 32 - 3 ≤ size
    → size < 2 ^ 32
    → b.free ≡ true
    → 16 < b.size
    → ((kmalloc (b ∷ bs) size).0 ≡ b.addr + 12)
      × (taken (kmalloc (b ∷ bs) size).1 ≡ (b.addr, 0) ∷ taken bs)
unfolding kmalloc first_fit take_block round_up
kmalloc_wraps b bs size l l' f big =
    let z : (size + 3) % 2 ^ 32 / 4 * 4 ≡ 0 = omega arith in
    let fits : leb 0 b.size ≡ true = ground arith in
    rw (ne→beq size 0 (omega arith), z, f) (rw (fits, lt→ltb 16 b.size big) (refl, refl))
