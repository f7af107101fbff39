-- ===== src/Heap/Tiling.antt =====
-- The invariants of the heap's list.
use hexa_os_alpha_build.Base.{
  ℕ, ◌+◌, ◌-◌, ◌<◌, ◌≤◌, ◌≡◌, refl, Bool, true, false, List, [], ◌∷◌, arith, if◌then◌else◌,
  Bool-cases, inl, inr, ap, subst,
}
use hexa_os_alpha_build.Heap.{Block}

-- The blocks, each with its header of 12 bytes, tile the addresses from `s` up to `e`.
abbrev pub IsTiled : ℕ → ℕ → List Block → Type 0
IsTiled s e [] = s ≡ e
IsTiled s e (b ∷ bs) = (b.addr ≡ s) × IsTiled (s + 12 + b.size) e bs

-- No free block follows a free block; `f` says whether the one before the list is free.
abbrev pub IsMerged : Bool → List Block → Type 0
IsMerged f [] = true ≡ true
IsMerged f (b ∷ bs) = (f ≡ true → b.free ≡ false) × IsMerged b.free bs

-- The address and the size of each block in use, in order.
abbrev pub taken : List Block → List (ℕ × ℕ)
taken [] = []
taken (b ∷ bs) = let rest = taken bs in if b.free then rest else (b.addr, b.size) ∷ rest

pub IsTiled-le : (h : List Block) (s e : ℕ) → IsTiled s e h → s ≤ e
IsTiled-le [] s e t = omega arith
IsTiled-le (b ∷ bs) s e t = omega (arith, IsTiled-le bs (s + 12 + b.size) e t.1)

-- A list that follows a block that is not free.
pub IsMerged-false : (f : Bool) (h : List Block) → IsMerged f h → IsMerged false h
IsMerged-false f [] m = refl
IsMerged-false f (b ∷ bs) m = (λ e. ground arith, m.1)

pub block_ext : {b c : Block} → b.addr ≡ c.addr → b.size ≡ c.size → b.free ≡ c.free → b ≡ c
block_ext p q r = λ i. record { addr = p i; size = q i; free = r i }

no_block_after :
    (b : Block) (h : List Block) → b.free ≡ true → IsMerged b.free h → taken h ≡ [] → h ≡ []
no_block_after b [] f m e = refl
no_block_after b (c ∷ bs) f m e = absurd (ground (arith, m.0 f))

-- A heap that is tiled and merged and has no block in use is one free block.
pub all_free :
    (h : List Block) (s e : ℕ)
    → IsTiled s e h
    → IsMerged false h
    → taken h ≡ []
    → s < e
    → h ≡ record { addr = s; size = e - s - 12; free = true } ∷ []
all_free [] s e t m n l = absurd (omega arith)
all_free (b ∷ bs) s e t m n l = elim (Bool-cases b.free) [
  | inl f ↦
      let rest = no_block_after b bs f m.1 (ground arith) in
      let e' : s + 12 + b.size ≡ e = subst (λ ys. IsTiled (s + 12 + b.size) e ys) rest t.1 in
      rw rest (ap (λ c. c ∷ []) (block_ext t.0 (omega arith) f))
  | inr f ↦ absurd (ground arith)
]
