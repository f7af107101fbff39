-- ===== src/Heap/Free.antt =====
-- What `kfree` does to the blocks in use.
use hexa_os_alpha_build.Base.{
  ℕ, ◌+◌, ◌-◌, ◌%◌, ◌^◌, ◌<◌, ◌≤◌, ◌≡◌, refl, ◌≢◌, Bool, true, false, List, [], ◌∷◌, ◌++◌, some,
  arith, Bool-cases, inl, inr, ap, subst, sym, ◌∙◌, ne→beq, eq→beq,
}
use hexa_os_alpha_build.Heap.{Block, merge_next, release, merge_previous, free_at, kfree, kmalloc}
use hexa_os_alpha_build.Heap.Tiling.{IsTiled, IsMerged, IsMerged-false, IsTiled-le, taken, all_free}
use hexa_os_alpha_build.Heap.Malloc.{Mallocs, exhausted, block, kmalloc_lem}
use hexa_os_alpha_build.Heap.Merge.{
  merge_next-Merged, at_head, later, splits, taken-ge, taken-lt, merge_previous-behind, taken-cons,
}

-- What `kfree` makes of the list `p ∷ h`, where the block to free is in `h`.
record Frees (a s e : ℕ) (f : Bool) (p : Block) (h : List Block) (ws : List (ℕ × ℕ)) : Type 0 where
  released : List Block
  found : release a h ≡ some released
  tiled : IsTiled s e (merge_previous a (p ∷ released))
  merged : IsMerged f (merge_previous a (p ∷ released))
  left : taken (merge_previous a (p ∷ released)) ≡ taken (p ∷ []) ++ ws

-- The block to free follows `p`.
Frees-here :
    (p b : Block) (bs : List Block) (a s e : ℕ) (f : Bool)
    → IsTiled s e (p ∷ b ∷ bs)
    → IsMerged f (p ∷ b ∷ bs)
    → e < 2 ^ 31
    → b.free ≡ false
    → b.addr ≡ a
    → Frees a s e f p (b ∷ bs) (taken bs)
unfolding release merge_previous
Frees-here p b bs a s e f t m big u e' =
    let k = merge_next-Merged b bs (s + 12 + p.size) e t.1 (IsMerged-false b.free bs m.1.1) big in
    let c = k.first in
    let hit : c.addr ≡ a = omega (arith, k.at_start, t.1.0) in
    elim (Bool-cases p.free) [
      | inl y ↦
          let le = IsTiled-le k.rest (s + 12 + p.size + 12 + c.size) e k.tiled in
          let fits : (p.size + (12 + c.size)) % 2 ^ 32 ≡ p.size + (12 + c.size) = omega arith in
          let end : s + 12 + (p.size + (12 + c.size)) ≡ s + 12 + p.size + 12 + c.size =
            omega arith in
          record {
            released = merge_next (record b { free = true }) bs;
            found = rw (eq→beq b.addr a e') refl;
            tiled = rw (k.shape, eq→beq c.addr a hit, y, fits) (t.0, rw end k.tiled);
            merged = rw (k.shape, eq→beq c.addr a hit, y) (λ g. absurd (cc (m.0 g, y)), k.merged);
            left = rw (k.shape, eq→beq c.addr a hit, y) k.same;
          }
      | inr y ↦ record {
        released = merge_next (record b { free = true }) bs;
        found = rw (eq→beq b.addr a e') refl;
        tiled = rw (k.shape, eq→beq c.addr a hit, y) (t.0, (k.at_start, k.tiled));
        merged =
            rw (k.shape, eq→beq c.addr a hit, y)
              (λ g. refl, (λ g. absurd (ground arith), rw k.is_free k.merged));
        left =
            rw (k.shape, eq→beq c.addr a hit, y)
              (rw k.is_free (ap (λ zs. (p.addr, p.size) ∷ zs) k.same));
      }
    ]

-- The block to free stands further on.
Frees-later :
    (p b : Block) (bs : List Block) (ws : List (ℕ × ℕ)) (a s e : ℕ) (f : Bool)
    → IsTiled s e (p ∷ b ∷ bs)
    → IsMerged f (p ∷ b ∷ bs)
    → b.addr ≢ a
    → Frees a (s + 12 + p.size) e p.free b bs ws
    → Frees a s e f p (b ∷ bs) (taken (b ∷ []) ++ ws)
unfolding release merge_previous
Frees-later p b bs ws a s e f t m ne k = record {
  released = b ∷ k.released;
  found = rw (ne→beq b.addr a ne, k.found) refl;
  tiled = rw (ne→beq b.addr a ne) (t.0, k.tiled);
  merged = rw (ne→beq b.addr a ne) (m.0, k.merged);
  left =
      rw (ne→beq b.addr a ne)
        (taken-cons p (merge_previous a (b ∷ k.released)) ∙ ap (λ zs. taken (p ∷ []) ++ zs) k.left);
}

frees :
    (h : List Block) (p : Block) (xs ys : List (ℕ × ℕ)) (a n s e : ℕ) (f : Bool)
    → IsTiled s e (p ∷ h)
    → IsMerged f (p ∷ h)
    → e < 2 ^ 31
    → taken h ≡ xs ++ ((a, n) ∷ ys)
    → Frees a s e f p h (xs ++ ys)
frees [] p [] ys a n s e f t m big k = absurd (ground arith)
frees [] p (x ∷ xs) ys a n s e f t m big k = absurd (ground arith)
frees (b ∷ bs) p xs ys a n s e f t m big k =
    let q = s + 12 + p.size in
    elim (Bool-cases b.free) [
      | inl y ↦
          let k' : taken bs ≡ xs ++ ((a, n) ∷ ys) = ground arith in
          let far = taken-ge bs xs ys a n (q + 12 + b.size) e t.1.1 k' in
          subst (Frees a s e f p (b ∷ bs)) (ground arith) (
            Frees-later p b bs (xs ++ ys) a s e f t m (omega arith)
              (frees bs b xs ys a n q e p.free t.1 m.1 big k'))
      | inr y ↦ elim (splits (b.addr, b.size) (taken bs) xs a n ys (ground arith)) [
        | at_head e' e'' _ e3 ↦
            subst (Frees a s e f p (b ∷ bs)) (rw (e', e3) refl)
              (Frees-here p b bs a s e f t m big y e'')
        | later ws e' k' ↦
            let far = taken-ge bs ws ys a n (q + 12 + b.size) e t.1.1 k' in
            subst (Frees a s e f p (b ∷ bs)) (ground arith) (
              Frees-later p b bs (ws ++ ys) a s e f t m (omega arith)
                (frees bs b ws ys a n q e p.free t.1 m.1 big k'))
      ]
    ]

-- The heap after `kfree`: tiled, merged, and without the entry.
pub record Freed (s e : ℕ) (ws : List (ℕ × ℕ)) (h : List Block) : Type 0 where
  pub tiled : IsTiled s e h
  pub merged : IsMerged false h
  pub left : taken h ≡ ws

-- Both halves, for the block at `a`.
abbrev Both : ℕ → ℕ → ℕ → List Block → List (ℕ × ℕ) → Type 0
Both a s e h ws =
    (released : List Block) × (release a h ≡ some released)
    × Freed s e ws (merge_previous a released)

Both-here :
    (b : Block) (bs : List Block) (a s e : ℕ)
    → IsTiled s e (b ∷ bs)
    → IsMerged false (b ∷ bs)
    → e < 2 ^ 31
    → b.free ≡ false
    → b.addr ≡ a
    → Both a s e (b ∷ bs) (taken bs)
unfolding release
Both-here b bs a s e t m big y e' =
    let k = merge_next-Merged b bs s e t (IsMerged-false b.free bs m.1) big in
    let c = k.first in
    let kept : merge_previous a (merge_next (record b { free = true }) bs) ≡ c ∷ k.rest =
      rw k.shape (merge_previous-behind k.rest c a (s + 12 + c.size) e k.tiled (omega arith)) in
    (
      merge_next (record b { free = true }) bs,
      rw (eq→beq b.addr a e') refl,
      rw kept (record {
        tiled = (k.at_start, k.tiled);
        merged = (λ g. absurd (ground arith), rw k.is_free k.merged);
        left = rw k.is_free k.same;
      }),
    )

Both-later :
    (b : Block) (bs : List Block) (ws vs : List (ℕ × ℕ)) (a s e : ℕ)
    → IsTiled s e (b ∷ bs)
    → s + 12 + b.size ≤ a
    → taken (b ∷ []) ++ ws ≡ vs
    → Frees a s e false b bs ws
    → Both a s e (b ∷ bs) vs
unfolding release
Both-later b bs ws vs a s e t far e' k = (
  b ∷ k.released,
  rw (ne→beq b.addr a (omega arith), k.found) refl,
  record { tiled = k.tiled; merged = k.merged; left = k.left ∙ e' },
)

both :
    (h : List Block) (xs ys : List (ℕ × ℕ)) (a n s e : ℕ)
    → IsTiled s e h
    → IsMerged false h
    → e < 2 ^ 31
    → taken h ≡ xs ++ ((a, n) ∷ ys)
    → Both a s e h (xs ++ ys)
unfolding release
both [] [] ys a n s e t m big k = absurd (ground arith)
both [] (x ∷ xs) ys a n s e t m big k = absurd (ground arith)
both (b ∷ bs) xs ys a n s e t m big k = elim (Bool-cases b.free) [
  | inl y ↦
      let k' : taken bs ≡ xs ++ ((a, n) ∷ ys) = ground arith in
      Both-later b bs (xs ++ ys) (xs ++ ys) a s e t
        (omega (arith, taken-ge bs xs ys a n (s + 12 + b.size) e t.1 k')) (ground arith)
        (frees bs b xs ys a n s e false t m big k')
  | inr y ↦ elim (splits (b.addr, b.size) (taken bs) xs a n ys (ground arith)) [
    | at_head e' e'' _ e3 ↦ rw (e', ← e3) (Both-here b bs a s e t m big y e'')
    | later ws e' k' ↦
        Both-later b bs (ws ++ ys) (xs ++ ys) a s e t
          (omega (arith, taken-ge bs ws ys a n (s + 12 + b.size) e t.1 k')) (ground arith)
          (frees bs b ws ys a n s e false t m big k')
  ]
]

-- `kfree` of the address behind the header of a block in use, on a tiled and merged heap, finds that
-- block and takes it, and no other, from the blocks in use; the heap stays tiled and merged.
pub kfree_lem :
    (h : List Block) (xs ys : List (ℕ × ℕ)) (a n s e : ℕ)
    → IsTiled s e h
    → IsMerged false h
    → e < 2 ^ 31
    → taken h ≡ xs ++ ((a, n) ∷ ys)
    → (u : List Block) × (kfree h (a + 12) ≡ some u) × Freed s e (xs ++ ys) u
unfolding kfree free_at
kfree_lem h xs ys a n s e t m big k =
    let (released, found, freed) = both h xs ys a n s e t m big k in
    let back : (a + 12 + 2 ^ 32 - 12) % 2 ^ 32 ≡ a = omega (arith, taken-lt h xs ys a n s e t k) in
    (
      merge_previous a released,
      rw (ne→beq (a + 12) 0 (omega arith), back) (rw (found, free_at) refl),
      freed,
    )

-- `kfree` of the only block in use makes the heap one free block again, of all its bytes: whatever
-- was allocated and freed before, nothing of the heap is lost.
pub kfree_last :
    (h : List Block) (a n s e : ℕ)
    → IsTiled s e h
    → IsMerged false h
    → e < 2 ^ 31
    → taken h ≡ (a, n) ∷ []
    → kfree h (a + 12) ≡ some (record { addr = s; size = e - s - 12; free = true } ∷ [])
kfree_last h a n s e t m big k =
    let (u, found, freed) = kfree_lem h [] [] a n s e t m big k in
    let lt = taken-lt h [] [] a n s e t k in
    let ge = taken-ge h [] [] a n s e t k in
    found ∙ ap some (all_free u s e freed.tiled freed.merged freed.left (omega arith))

give_back :
    (h : List Block) (size s e : ℕ) {r : ℕ × List Block}
    → e < 2 ^ 31
    → r.0 ≢ 0
    → Mallocs size s e h r
    → (u : List Block) × (kfree r.1 r.0 ≡ some u) × Freed s e (taken h) u
give_back h size s e big got (exhausted _) = absurd (got refl)
give_back h size s e big got (block {h'} a n k _ _ _ _ t m) =
    let (u, found, freed) = kfree_lem h' k.before k.after a n s e t m big k.is in
    (u, found, record { tiled = freed.tiled; merged = freed.merged; left = freed.left ∙ sym k.was })

-- `kfree` of what `kmalloc` has handed out gives back the blocks in use, each with its address and
-- size, and the invariants hold again.
pub kfree-kmalloc :
    (h : List Block) (size s e : ℕ)
    → IsTiled s e h
    → IsMerged false h
    → e < 2 ^ 31
    → 0 < size
    → size < 2 ^ 32 - 3
    → (kmalloc h size).0 ≢ 0
    → (u : List Block) × (kfree (kmalloc h size).1 (kmalloc h size).0 ≡ some u)
      × Freed s e (taken h) u
kfree-kmalloc h size s e t m big pos small got =
    give_back h size s e big got (kmalloc_lem h size s e t m big pos small)
