-- ===== src/Blocks.antt =====
-- The block allocator of hexafs_disk.c: a bitmap in 1024 bytes, a search hint, and blocks that are
-- cleared when they are handed out. Block numbers stay below 4096, so the test against the size of the
-- bitmap never applies.
pub mod Alloc
mod Tests
use hexa_os_alpha_build.Base.{
  ℕ, ◌+◌, ◌-◌, ◌≡◌, Bool, true, false, not, ◌||◌, Option, none, some, ltb, leb, if◌then◌else◌, scan,
}
use hexa_os_alpha_build.Bitmap.{bit_at, set_at, clear_at, set_range}
use hexa_os_alpha_build.Disk.{Ata, Sector, Cache, cache_write}

abbrev pub hexafs_disk_blocks : ℕ
hexafs_disk_blocks = 4096

abbrev pub hexafs_object_lba : ℕ
hexafs_object_lba = 109

abbrev pub hexafs_alloc_lba : ℕ
hexafs_alloc_lba = 101

-- `alloc_bitmap`, `alloc_bitmap_dirty` and `next_alloc_hint`
pub record Blocks : Type 0 where
  pub alloc_bitmap : ℕ → ℕ
  pub bitmap_dirty : Bool
  pub hint : ℕ

-- !bitmap_test(i)
abbrev pub is_free_block : Blocks → ℕ → Bool
is_free_block b i = not (bit_at b.alloc_bitmap i)

-- `bitmap_init`
pub bitmap_init : Blocks → Blocks
bitmap_init b = record b {
  alloc_bitmap = set_range 2 hexafs_alloc_lba (set_range hexafs_object_lba 0 (λ _. 0));
  bitmap_dirty = true;
}

-- Block `i` is marked, and the hint moves behind it.
pub claim_block : Blocks → ℕ → Blocks
claim_block b i = record {
  alloc_bitmap = set_at b.alloc_bitmap i;
  bitmap_dirty = true;
  hint = i + 1;
}

-- Both loops of `hexafs_alloc_block`: the block that they find.
pub find_block : Blocks → Option ℕ
find_block b = elim (scan (hexafs_disk_blocks - b.hint) b.hint (is_free_block b)) [
  | some i ↦ some i
  | none ↦ scan (b.hint - hexafs_object_lba) hexafs_object_lba (is_free_block b)
]

abbrev pub zero_sector : Sector
zero_sector = λ _. 0

module _ (ata : Ata) where
  -- What the loops do with the block that they find; the result of the write is ignored.
  pub give_block : Blocks → Cache → ata.Disk → Option ℕ → ℕ × Blocks × Cache × ata.Disk
  give_block b c d none = (0, b, c, d)
  give_block b c d (some i) =
      let (_, c', d') = cache_write ata c d i zero_sector in (i, claim_block b i, c', d')

  -- `hexafs_alloc_block`: the block, or 0.
  pub hexafs_alloc_block : Blocks → Cache → ata.Disk → ℕ × Blocks × Cache × ata.Disk
  hexafs_alloc_block b c d = give_block b c d (find_block b)

pub hexafs_free_block : Blocks → ℕ → Blocks
hexafs_free_block b lba =
    if ltb lba hexafs_object_lba || leb hexafs_disk_blocks lba then b else record {
      alloc_bitmap = clear_at b.alloc_bitmap lba;
      bitmap_dirty = true;
      hint = if ltb lba b.hint then lba else b.hint;
    }
