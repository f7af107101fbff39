-- ===== src/Blocks/Alloc.antt =====
-- What `hexafs_alloc_block` and `hexafs_free_block` do to the set of free blocks.
use native.Mathlib.Decide.{dec_lt}
use hexa_os_alpha_build.Base.{
  ℕ, ◌-◌, ◌%◌, ◌≤◌, ◌<◌, ◌≡◌, refl, true, not, ◌&&◌, ◌||◌, none, some, arith, ◌⊎◌, inl, inr,
  scan_cases, NoneOf, ◌==◌, ltb, leb, Bool-cases,
}
use hexa_os_alpha_build.Base.Bits.{test_bit-zeros}
use hexa_os_alpha_build.Bitmap.{
  IsBytes, set_at-IsBytes, clear_at-IsBytes, set_range-IsBytes, bit_at-set_at, bit_at-clear_at,
  bit_at-set_range,
}
use hexa_os_alpha_build.Disk.{Ata, IsDriver, Cache, cache_read}
use hexa_os_alpha_build.Disk.Coherence.{IsCoherent, IsDistinct, cache_write_lem}
use hexa_os_alpha_build.Blocks.{
  Blocks, is_free_block, bitmap_init, claim_block, find_block, zero_sector, give_block,
  hexafs_alloc_block, hexafs_free_block,
}

-- The bitmap holds bytes, and the hint lies in the object store or just behind it.
pub record IsValid (b : Blocks) : Type 0 where
  pub bytes : IsBytes b.alloc_bitmap
  pub low : 109 ≤ b.hint
  pub high : b.hint ≤ 4096

find_block_cases :
    (b : Blocks)
    → IsValid b
    → ((find_block b ≡ none) × NoneOf (is_free_block b) 109 4096)
      ⊎ ((i : ℕ) × (find_block b ≡ some i) × (109 ≤ i) × (i < 4096) × (is_free_block b i ≡ true))
unfolding find_block
find_block_cases b v =
    elim (scan_cases (4096 - b.hint) b.hint (is_free_block b) {j = 4096} (omega (arith, v.high))) [
      | inr (i, e, f) ↦
          inr (i, rw (e, find_block) refl, omega (arith, v.low, f.from), f.before, f.hit)
      | inl (e, none_of) ↦
          elim (scan_cases (b.hint - 109) 109 (is_free_block b) {j = b.hint}
            (omega (arith, v.low))) [
              | inr (i, e', f) ↦ inr (
                i,
                rw (e, find_block) (rw e' refl),
                f.from,
                omega (arith, v.high, f.before),
                f.hit,
              )
              | inl (e', none_of') ↦ inl (
                rw (e, find_block) (rw e' refl),
                λ k l l'. elim (dec_lt k b.hint) [
                  | yes lt ↦ none_of' k l lt
                  | no ge ↦ none_of k (omega arith) l'
                ],
              )
            ]
    ]

claim_block-free :
    (b : Blocks) (i j : ℕ)
    → IsBytes b.alloc_bitmap
    → is_free_block (claim_block b i) j ≡ (not (i == j) && is_free_block b j)
unfolding claim_block
claim_block-free b i j v = rw (bit_at-set_at b.alloc_bitmap i j v) (ground arith)

claim_block-IsValid :
    (b : Blocks) (i : ℕ) → IsValid b → 109 ≤ i → i < 4096 → IsValid (claim_block b i)
unfolding claim_block
claim_block-IsValid b i v l l' = record {
  bytes = set_at-IsBytes b.alloc_bitmap i v.bytes;
  low = omega arith;
  high = omega arith;
}

module _ (ata : Ata) where
  -- How `hexafs_alloc_block` ends: with 0 and no change, where no block of the object store is free; or
  -- with a block of the store that was free and now is not, and reads as zeros.
  pub data Gives (b : Blocks) (c : Cache) (d : ata.Disk)
      : ℕ × Blocks × Cache × ata.Disk → Type 0 where
    exhausted : NoneOf (is_free_block b) 109 4096 → Gives b c d (0, b, c, d)
    block :
        {u : Blocks} {c' : Cache} {d' : ata.Disk} (i : ℕ)
        → 109 ≤ i
        → i < 4096
        → is_free_block b i ≡ true
        → ((j : ℕ) → is_free_block u j ≡ (not (i == j) && is_free_block b j))
        → (cache_read ata c' d' i).0 ≡ some zero_sector
        → IsValid u
        → IsCoherent ata c' d'
        → IsDistinct c'
        → Gives b c d (i, u, c', d')

  -- `hexafs_alloc_block`, over a driver whose writes succeed, returns 0 only where no block of the object
  -- store is free. Otherwise it hands out one that was free, marks it and no other, and leaves it
  -- reading as zeros through a cache that still agrees with the disk.
  pub hexafs_alloc_block_lem :
      (b : Blocks) (c : Cache) (d : ata.Disk)
      → IsDriver ata
      → ((i : ℕ) → (ata.write d i zero_sector).0 ≡ true)
      → IsValid b
      → IsCoherent ata c d
      → IsDistinct c
      → Gives b c d (hexafs_alloc_block ata b c d)
  unfolding hexafs_alloc_block give_block
  hexafs_alloc_block_lem b c d drv ok v coh dis = elim (find_block_cases b v) [
    | inl (e, none_of) ↦ rw e (exhausted none_of)
    | inr (i, e, l, l', f) ↦
        let w = cache_write_lem ata c d i zero_sector drv (omega arith) (ok i) coh dis in
        rw e (
          block i l l' f (λ j. claim_block-free b i j v.bytes) w.3 (claim_block-IsValid b i v l l')
            w.1 w.2)
  ]

-- `hexafs_free_block` frees a block of the object store and no other; a number outside the store
-- changes nothing. The allocator stays well formed.
pub hexafs_free_block_lem :
    (b : Blocks) (lba : ℕ)
    → IsValid b
    → ((j : ℕ)
        → is_free_block (hexafs_free_block b lba) j
          ≡ (((lba == j && leb 109 lba) && ltb lba 4096) || is_free_block b j))
      × IsValid (hexafs_free_block b lba)
unfolding hexafs_free_block
hexafs_free_block_lem b lba v = elim (Bool-cases (ltb lba 109 || leb 4096 lba)) [
  | inl out ↦ rw out (λ j. ground arith, v)
  | inr within ↦ rw within (
    λ j. rw (bit_at-clear_at b.alloc_bitmap lba j v.bytes) (ground arith),
    record {
      bytes = clear_at-IsBytes b.alloc_bitmap lba v.bytes;
      low = ground (arith, v.low);
      high = ground (arith, v.high);
    },
  )
]

-- After `bitmap_init` exactly the blocks from the object store on are free, up to the end of the
-- bitmap.
pub bitmap_init_lem : (b : Blocks) (j : ℕ) → is_free_block (bitmap_init b) j ≡ leb 109 j
unfolding bitmap_init
bitmap_init_lem b j =
    let zeros : IsBytes (λ _. 0) = λ _. omega arith in
    rw
      (
        bit_at-set_range 2 101 _ j (set_range-IsBytes 109 0 _ zeros),
        bit_at-set_range 109 0 _ j zeros,
        test_bit-zeros (j % 8) (omega arith),
      )
      (ground arith)
