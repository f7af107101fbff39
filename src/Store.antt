-- ===== src/Store.antt =====
-- The state of the form store, hexafs_disk.c and hexafs.c: the superblock, the bitmap, the cache over
-- the disk and the transaction; its mounting and formatting, and the transactions.
pub mod Snapshots
pub mod Commit
pub mod Objects
mod Tests
use hexa_os_alpha_build.Base.{
  ℕ, zero, suc, ◌+◌, ◌-◌, ◌*◌, ◌%◌, ◌^◌, Bool, true, false, not, ◌&&◌, Option, none, some, ◌==◌,
  ltb, if◌then◌else◌,
}
use hexa_os_alpha_build.Disk.{Ata, Sector, Cache, blank_slot, cache_read, cache_write}
use hexa_os_alpha_build.Blocks.{
  Blocks, hexafs_alloc_lba, bitmap_init, hexafs_alloc_block, hexafs_free_block,
}
use hexa_os_alpha_build.Struct.{read32, write32}
use hexa_os_alpha_build.Superblock.{
  Super, super_magic, store_bytes, root_snap_at, timestamp_at, format_gen_at,
  hexafs_write_superblock, hexafs_read_superblock,
}

-- `hexafs_tx_t`, with the counter `tx_gen`
pub record Tx : Type 0 where
  pub active : Bool
  pub tid : ℕ
  pub parent_snap_block : ℕ
  pub new_root_block : ℕ
  pub snap_block : ℕ
  pub dirty : Bool
  pub gen : ℕ

pub record Store (ata : Ata) : Type 0 where
  pub super : Super
  pub blocks : Blocks
  pub cache : Cache
  pub disk : ata.Disk
  pub mounted : Bool
  pub tx : Tx

-- The part of the bitmap that a block holds.
bitmap_part : ℕ → Blocks → Sector
bitmap_part i b j = if ltb j 512 then b.alloc_bitmap (i * 512 + j) else 0

-- A block of the bitmap that was read.
load_part : ℕ → Sector → Blocks → Blocks
load_part i s b = record b {
  alloc_bitmap = λ k.
      if not (ltb k (i * 512)) && ltb k (i * 512 + 512) then s (k - i * 512) else b.alloc_bitmap k;
}

-- The superblock in memory that a format starts from.
pub new_super : Sector
new_super =
    let s0 = store_bytes (λ _. 0) 0 super_magic in
    let s1 = write32 (write32 (write32 s0 8 1) 12 4096) 16 101 in
    write32 (write32 (write32 s1 20 2) 24 109) format_gen_at 1

module _ {ata : Ata} where
  -- `hexafs_block_read` and `hexafs_block_write`
  pub block_read : ℕ → Store ata → Option Sector × Store ata
  block_read lba st =
      let (r, c) = cache_read ata st.cache st.disk lba in (r, record st { cache = c })

  pub block_write : ℕ → Sector → Store ata → Bool × Store ata
  block_write lba s st =
      let (ok, c, d) = cache_write ata st.cache st.disk lba s in
      (ok, record st { cache = c; disk = d })

  pub alloc_block : Store ata → ℕ × Store ata
  alloc_block st =
      let (i, b, c, d) = hexafs_alloc_block ata st.blocks st.cache st.disk in
      (i, record st { blocks = b; cache = c; disk = d })

  pub free_block : ℕ → Store ata → Store ata
  free_block lba st = record st { blocks = hexafs_free_block st.blocks lba }

  pub write_super : Store ata → Bool × Store ata
  write_super st =
      let (ok, u, c, d) = hexafs_write_superblock ata st.super st.cache st.disk in
      (ok, record st { super = u; cache = c; disk = d })

  -- The loop of `hexafs_save_bitmap`, with `n` blocks left.
  save_parts : ℕ → ℕ → Store ata → Bool × Store ata
  save_parts zero i st = (true, record st { blocks = record st.blocks { bitmap_dirty = false } })
  save_parts (suc n) i st =
      let (ok, st') = block_write (hexafs_alloc_lba + i) (bitmap_part i st.blocks) st in
      let rest = save_parts n (i + 1) st' in if not ok then (false, st') else rest

  pub hexafs_save_bitmap : Store ata → Bool × Store ata
  hexafs_save_bitmap st = if not st.blocks.bitmap_dirty then (true, st) else save_parts 2 0 st

  load_rest : Option Sector → Store ata → (Sector → Bool × Store ata) → Bool × Store ata
  load_rest none st' k = (false, st')
  load_rest (some s) st' k = k s

  -- The loop of `bitmap_load`, with `n` blocks left.
  load_parts : ℕ → ℕ → Store ata → Bool × Store ata
  load_parts zero i st = (true, record st { blocks = record st.blocks { bitmap_dirty = false } })
  load_parts (suc n) i st =
      let (r, st') = block_read (hexafs_alloc_lba + i) st in
      load_rest r st' (λ s. load_parts n (i + 1) (record st' { blocks = load_part i s st'.blocks }))

  pub bitmap_load : Store ata → Bool × Store ata
  bitmap_load st = load_parts 2 0 st

  pub hexafs_format : Store ata → Bool × Store ata
  hexafs_format st =
      let st0 = record st {
        super = record st.super { sb = new_super };
        cache = λ _. blank_slot;
        blocks = bitmap_init st.blocks;
      } in
      let (ok, st1) = write_super st0 in
      let (ok', st2) = hexafs_save_bitmap st1 in
      if not ok
      then (false, st1)
      else if not ok'
      then (false, st2)
      else (true, record st2 { mounted = true })

  pub hexafs_mount_disk : Store ata → Bool × Store ata
  hexafs_mount_disk st =
      let (ok, u, c) = hexafs_read_superblock ata st.super (λ _. blank_slot) st.disk in
      let st1 = record st { super = u; cache = c } in
      let (ok', st2) = bitmap_load st1 in
      if not ok
      then (false, st1)
      else if not ok'
      then (false, st2)
      else (true, record st2 { mounted = true })

  pub hexafs_tx_begin : Store ata → Bool × Store ata
  hexafs_tx_begin st = if st.tx.active then (false, st) else (
    true,
    record st {
      tx = record {
        active = true;
        tid = (st.tx.gen + 1) % 2 ^ 32;
        parent_snap_block = read32 st.super.sb root_snap_at;
        new_root_block = 0;
        snap_block = 0;
        dirty = false;
        gen = (st.tx.gen + 1) % 2 ^ 32;
      };
    },
  )

  abbrev end_tx : Store ata → Store ata
  end_tx st = record st { tx = record st.tx { active = false } }

  -- A commit that fails leaves the transaction active.
  pub hexafs_tx_commit : Store ata → Bool × Store ata
  hexafs_tx_commit st =
      let (ok, st1) = hexafs_save_bitmap st in
      let (ok', st2) = write_super st1 in
      if not st.tx.active
      then (false, st)
      else if not st.tx.dirty
      then (true, end_tx st)
      else if not ok
      then (false, st1)
      else if not ok'
      then (false, st2)
      else (true, end_tx st2)

  -- An abort only ends the transaction: what it wrote stays.
  pub hexafs_tx_abort : Store ata → Bool × Store ata
  hexafs_tx_abort st = if not st.tx.active then (false, st) else (true, end_tx st)
