-- ===== src/Disk.antt =====
-- The block cache of hexafs_disk.c over the disk driver. A sector is a function from the index of a
-- byte.
pub mod Coherence
pub mod Samples
mod Tests
use hexa_os_alpha_build.Base.{
  ℕ, ◌≡◌, ◌≢◌, Bool, true, false, not, ◌&&◌, Option, none, some, update, ◌==◌, scan, if◌then◌else◌,
  suc, zero, ◌+◌,
}

abbrev pub Sector : Type 0
Sector = ℕ → ℕ

-- The driver, `ata_read_sector` and `ata_write_sector`, over some state of the disk: a read fails or
-- gives a sector, and a write says whether it succeeded.
pub record Ata : Type 1 where
  pub Disk : Type 0
  pub read : Disk → ℕ → Option Sector
  pub write : Disk → ℕ → Sector → Bool × Disk

-- What the cache relies on: a write that succeeds can be read back, and no write touches any other
-- sector.
pub record IsDriver (ata : Ata) : Type 0 where
  pub back :
      (d : ata.Disk) (lba : ℕ) (s : Sector)
      → (ata.write d lba s).0 ≡ true
      → ata.read (ata.write d lba s).1 lba ≡ some s
  pub others :
      (d : ata.Disk) (lba : ℕ) (s : Sector) (m : ℕ)
      → lba ≢ m
      → ata.read (ata.write d lba s).1 m ≡ ata.read d m

-- HEXAFS_CACHE_SLOTS
abbrev pub cache_slots : ℕ
cache_slots = 16

-- `hexafs_cache_slot_t`
pub record Slot : Type 0 where
  pub lba : ℕ
  pub dirty : Bool
  pub data_bytes : Sector

-- `block_cache`
abbrev pub Cache : Type 0
Cache = ℕ → Slot

abbrev pub blank_slot : Slot
blank_slot = record { lba = 0; dirty = false; data_bytes = λ _. 0 }

-- `cache_find`: the slot, or `none` for -1.
pub cache_find : Cache → ℕ → Option ℕ
cache_find c lba = scan cache_slots 0 (λ i. (c i).lba == lba)

-- `cache_evict`: the first slot that is not in use, or slot 0.
pub cache_evict : Cache → ℕ
cache_evict c = elim (scan cache_slots 0 (λ i. (c i).lba == 0)) [ none ↦ 0 | some i ↦ i ]

module _ (ata : Ata) where
  -- `cache_read` behind a miss.
  pub cache_fill : Cache → ℕ → Option Sector → Option Sector × Cache
  cache_fill c lba none = (none, c)
  cache_fill c lba (some s) =
      (some s, update c (cache_evict c) (record { lba = lba; dirty = false; data_bytes = s }))

  -- `cache_read`: the block, or `none` for 0, and the cache.
  pub cache_read : Cache → ata.Disk → ℕ → Option Sector × Cache
  cache_read c d lba = elim (cache_find c lba) [
    | some i ↦ (some (c i).data_bytes, c)
    | none ↦ cache_fill c lba (ata.read d lba)
  ]

  -- The slot that `cache_write` uses.
  pub write_slot : Cache → ℕ → ℕ
  write_slot c lba = elim (cache_find c lba) [ some i ↦ i | none ↦ cache_evict c ]

  -- `cache_write`: what the driver returns, the cache and the disk.
  pub cache_write : Cache → ata.Disk → ℕ → Sector → Bool × Cache × ata.Disk
  cache_write c d lba s =
      let (ok, d') = ata.write d lba s in
      (ok, update c (write_slot c lba) (record { lba = lba; dirty = true; data_bytes = s }), d')

  -- The loop of `cache_flush_dirty`, with `n` slots left, from slot `i` on; it ignores failures.
  pub flush_from : ℕ → ℕ → Cache → ata.Disk → Cache × ata.Disk
  flush_from zero i c d = (c, d)
  flush_from (suc n) i c d =
      let clean = flush_from n (i + 1) c d in
      let written =
        flush_from n (i + 1) (update c i (record (c i) { dirty = false }))
          (ata.write d (c i).lba (c i).data_bytes).1 in
      if not ((c i).lba == 0) && (c i).dirty then written else clean

  pub cache_flush_dirty : Cache → ata.Disk → Cache × ata.Disk
  cache_flush_dirty c d = flush_from cache_slots 0 c d
