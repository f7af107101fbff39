-- ===== src/Heap/Merge.antt =====
-- Where a block to free stands in the list, and its merge with its successor.
use hexa_os_alpha_build.Base.{
  ℕ, ◌+◌, ◌%◌, ◌^◌, ◌<◌, ◌≤◌, ◌≡◌, refl, true, false, List, [], ◌∷◌, ◌++◌, arith, Bool-cases, inl,
  inr, ap, ne→beq,
}
use hexa_os_alpha_build.Heap.{Block, merge_next, merge_previous}
use hexa_os_alpha_build.Heap.Tiling.{IsTiled, IsMerged, IsTiled-le, taken}

-- The block at `s`, set free and merged with its successor, and what follows it.
pub record Merged (s e : ℕ) (bs : List Block) (h : List Block) : Type 0 where
  pub first : Block
  pub rest : List Block
  pub shape : h ≡ first ∷ rest
  pub at_start : first.addr ≡ s
  pub is_free : first.free ≡ true
  pub tiled : IsTiled (s + 12 + first.size) e rest
  pub merged : IsMerged true rest
  pub same : taken rest ≡ taken bs

pub merge_next-Merged :
    (b : Block) (bs : List Block) (s e : ℕ)
    → IsTiled s e (b ∷ bs)
    → IsMerged false bs
    → e < 2 ^ 31
    → Merged s e bs (merge_next (record b { free = true }) bs)
unfolding merge_next
merge_next-Merged b [] s e t m big = record {
  first = record b { free = true };
  rest = [];
  shape = refl;
  at_start = t.0;
  is_free = refl;
  tiled = t.1;
  merged = refl;
  same = refl;
}
merge_next-Merged b (d ∷ ds) s e t m big = elim (Bool-cases d.free) [
  | inl f ↦
      let end : s + 12 + (b.size + (12 + d.size)) ≡ s + 12 + b.size + 12 + d.size = omega arith in
      let le = IsTiled-le ds (s + 12 + b.size + 12 + d.size) e t.1.1 in
      let fits : (b.size + (12 + d.size)) % 2 ^ 32 ≡ b.size + (12 + d.size) = omega arith in
      record {
        first = record b { size = b.size + (12 + d.size); free = true };
        rest = ds;
        shape = rw (f, fits) refl;
        at_start = t.0;
        is_free = refl;
        tiled = rw end t.1.1;
        merged = rw (← f) m.1;
        same = rw f refl;
      }
  | inr f ↦ record {
    first = record b { free = true };
    rest = d ∷ ds;
    shape = rw f refl;
    at_start = t.0;
    is_free = refl;
    tiled = t.1;
    merged = (λ _. f, m.1);
    same = refl;
  }
]

-- An entry of a list that begins with `x` is `x` or stands behind it.
pub data Splits (x : ℕ × ℕ) (zs xs : List (ℕ × ℕ)) (a n : ℕ) (ys : List (ℕ × ℕ)) : Type 0 where
  at_head : xs ≡ [] → x.0 ≡ a → x.1 ≡ n → zs ≡ ys → Splits x zs xs a n ys
  later : (ws : List (ℕ × ℕ)) → xs ≡ x ∷ ws → zs ≡ ws ++ ((a, n) ∷ ys) → Splits x zs xs a n ys

pub splits :
    (x : ℕ × ℕ) (zs xs : List (ℕ × ℕ)) (a n : ℕ) (ys : List (ℕ × ℕ))
    → x ∷ zs ≡ xs ++ ((a, n) ∷ ys)
    → Splits x zs xs a n ys
splits x zs [] a n ys k = at_head refl (ground arith) (ground arith) (ground arith)
splits x zs (w ∷ xs) a n ys k = later xs (ground arith) (ground arith)

-- A block in use lies within the addresses that its list tiles.
pub taken-ge :
    (h : List Block) (xs ys : List (ℕ × ℕ)) (a n s e : ℕ)
    → IsTiled s e h
    → taken h ≡ xs ++ ((a, n) ∷ ys)
    → s ≤ a
taken-ge [] [] ys a n s e t k = absurd (ground arith)
taken-ge [] (x ∷ xs) ys a n s e t k = absurd (ground arith)
taken-ge (b ∷ bs) xs ys a n s e t k = elim (Bool-cases b.free) [
  | inl f ↦ omega (arith, taken-ge bs xs ys a n (s + 12 + b.size) e t.1 (ground arith))
  | inr f ↦ elim (splits (b.addr, b.size) (taken bs) xs a n ys (ground arith)) [
    | at_head _ e' _ _ ↦ omega arith
    | later ws _ k' ↦ omega (arith, taken-ge bs ws ys a n (s + 12 + b.size) e t.1 k')
  ]
]

pub taken-lt :
    (h : List Block) (xs ys : List (ℕ × ℕ)) (a n s e : ℕ)
    → IsTiled s e h
    → taken h ≡ xs ++ ((a, n) ∷ ys)
    → a < e
taken-lt [] [] ys a n s e t k = absurd (ground arith)
taken-lt [] (x ∷ xs) ys a n s e t k = absurd (ground arith)
taken-lt (b ∷ bs) xs ys a n s e t k = elim (Bool-cases b.free) [
  | inl f ↦ taken-lt bs xs ys a n (s + 12 + b.size) e t.1 (ground arith)
  | inr f ↦ elim (splits (b.addr, b.size) (taken bs) xs a n ys (ground arith)) [
    | at_head _ e' _ _ ↦ omega (arith, IsTiled-le bs (s + 12 + b.size) e t.1)
    | later ws _ k' ↦ taken-lt bs ws ys a n (s + 12 + b.size) e t.1 k'
  ]
]

-- No block behind the address `a` is looked at twice.
pub merge_previous-behind :
    (bs : List Block) (p : Block) (a s e : ℕ)
    → IsTiled s e bs
    → a < s
    → merge_previous a (p ∷ bs) ≡ p ∷ bs
unfolding merge_previous
merge_previous-behind [] p a s e t l = refl
merge_previous-behind (b ∷ bs) p a s e t l =
    rw (ne→beq b.addr a (omega arith))
      (ap (λ h. p ∷ h) (merge_previous-behind bs b a (s + 12 + b.size) e t.1 (omega arith)))

pub taken-cons : (p : Block) (h : List Block) → taken (p ∷ h) ≡ taken (p ∷ []) ++ taken h
taken-cons p h = ground arith
