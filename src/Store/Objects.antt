-- ===== src/Store/Objects.antt =====
-- The objects of hexafs_disk.c: `hexafs_object_alloc`, `hexafs_object_write_data` and
-- `hexafs_object_read_data`. An object's header is the packed sector itself, and names up to four
-- blocks of content.
pub mod Fresh
pub mod RoundTrip
use hexa_os_alpha_build.Base.{
  ℕ, zero, suc, ◌+◌, ◌-◌, ◌*◌, ◌/◌, ◌%◌, ◌^◌, Bool, true, false, not, ◌&&◌, ◌||◌, Option, none,
  some, ◌==◌, ltb, leb, if◌then◌else◌, min, update,
}
use hexa_os_alpha_build.Disk.{Ata, Sector}
use hexa_os_alpha_build.Text.{Buffer}
use hexa_os_alpha_build.Struct.{read32, write32, hexafs_content_hash, checksum_of}
use hexa_os_alpha_build.Superblock.{timestamp_at}
use hexa_os_alpha_build.Store.{Store, block_read, block_write, alloc_block, free_block}

abbrev pub block_size : ℕ
block_size = 512

abbrev pub obj_magic_base : ℕ
obj_magic_base = 0x4f424a00

abbrev pub content_size_at : ℕ
content_size_at = 12

-- `content_block` and the three of `content_blocks_extra` after it
abbrev pub content_block_at : ℕ → ℕ
content_block_at i = 16 + 4 * i

abbrev pub content_hash_at : ℕ
content_hash_at = 32

abbrev pub obj_timestamp_at : ℕ
obj_timestamp_at = 56

abbrev pub obj_checksum_at : ℕ
obj_checksum_at = 60

-- obj.checksum = obj_checksum(&obj)
abbrev pub seal_object : Sector → Sector
seal_object s = write32 s obj_checksum_at (checksum_of s obj_checksum_at)

-- The header of a new object of a type, which is a byte.
pub new_object : ℕ → ℕ → Sector
new_object type time =
    let s1 = write32 (λ _. 0) 0 (obj_magic_base + type % 256) in
    let s2 = λ (k : ℕ). if k == 4 then type % 256 else s1 k in
    seal_object (write32 s2 obj_timestamp_at time)

-- (obj.magic & 0xFFFFFF00) == HEXAFS_OBJ_MAGIC_BASE
abbrev pub is_object : Sector → Bool
is_object s = read32 s 0 / 256 == obj_magic_base / 256

-- The bytes of the block `i` of the data, with zeros after its end.
pub data_block : Buffer → ℕ → ℕ → Sector
data_block buf i size k =
    if ltb k block_size && ltb (i * block_size + k) size then buf (i * block_size + k) else 0

-- The number of blocks for a size, at most four.
pub blocks_for : ℕ → ℕ
blocks_for size = min ((size + 511) % 2 ^ 32 / block_size) 4

-- The blocks from `i` on that the data does not need, `n` of them.
pub clear_blocks : ℕ → ℕ → Sector → Sector
clear_blocks zero i s = s
clear_blocks (suc n) i s = clear_blocks n (i + 1) (write32 s (content_block_at i) 0)

-- The header with its new size, hash and checksum.
pub finish_object : Buffer → ℕ → Sector → Sector
finish_object buf size obj =
    let n = blocks_for size in
    let s = clear_blocks (4 - n) n obj in
    seal_object
      (write32 (write32 s content_size_at size) content_hash_at (hexafs_content_hash buf size))

-- What a read gives: the size, the type and the buffer.
pub record Contents : Type 0 where
  pub size : ℕ
  pub type : ℕ
  pub bytes : Buffer

module _ {ata : Ata} where
  object_written : ℕ → Bool × Store ata → ℕ × Store ata
  object_written i (false, st) = (0, free_block i st)
  object_written i (true, st) = (i, st)

  object_allocated : ℕ → ℕ × Store ata → ℕ × Store ata
  object_allocated type (i, st) =
      if i == 0
      then (0, st)
      else object_written i (block_write i (new_object type (read32 st.super.sb timestamp_at)) st)

  -- `hexafs_object_alloc`: the block, or 0.
  pub hexafs_object_alloc : ℕ → Store ata → ℕ × Store ata
  hexafs_object_alloc type st = object_allocated type (alloc_block st)

  -- The block that the header names, or a new one.
  block_of : ℕ → Store ata → ℕ × Store ata
  block_of db st = if db == 0 then alloc_block st else (db, st)

  -- The outcome of a write of a block: a later block that was new is freed on failure.
  abbrev block_failed : ℕ → ℕ → ℕ → Store ata → Store ata
  block_failed i named db st = if not (i == 0) && not (db == named) then free_block db st else st

  -- The loop over the blocks of the data, with `n` of them left: the header, or `none` for 0.
  pub write_blocks : ℕ → ℕ → Buffer → ℕ → Sector → Store ata → Option Sector × Store ata
  write_blocks zero i buf size obj st = (some obj, st)
  write_blocks (suc n) i buf size obj st =
      let named = read32 obj (content_block_at i) in
      let (db, st1) = block_of named st in
      let (ok, st2) = block_write db (data_block buf i size) st1 in
      let rest = write_blocks n (i + 1) buf size (write32 obj (content_block_at i) db) st2 in
      if db == 0 then (none, st1) else if not ok then (none, block_failed i named db st2) else rest

  pub write_header : ℕ → Buffer → ℕ → Option Sector × Store ata → Bool × Store ata
  write_header lba buf size (none, st) = (false, st)
  write_header lba buf size (some obj, st) = block_write lba (finish_object buf size obj) st

  -- A wrong checksum of the header is only reported.
  write_found : ℕ → Buffer → ℕ → Option Sector → Store ata → Bool × Store ata
  write_found lba buf size none st = (false, st)
  write_found lba buf size (some obj) st =
      if not (is_object obj)
      then (false, st)
      else write_header lba buf size (write_blocks (blocks_for size) 0 buf size obj st)

  -- `hexafs_object_write_data`
  pub hexafs_object_write_data : ℕ → Buffer → ℕ → Store ata → Bool × Store ata
  hexafs_object_write_data lba buf size st =
      let (r, st') = block_read lba st in write_found lba buf size r st'

  -- The loop that reads the blocks, with `n` of them left: the buffer, or `none` for 0.
  pub read_blocks : ℕ → ℕ → Sector → Buffer → Store ata → Option Buffer × Store ata
  read_blocks zero i obj buf st = (some buf, st)
  read_blocks (suc n) i obj buf st =
      let size = read32 obj content_size_at in
      let db = read32 obj (content_block_at i) in
      let (r, st') = block_read db st in
      let further = λ (s : Sector).
        read_blocks n (i + 1) obj
          (λ k.
            if not (ltb k (i * block_size)) && (ltb k (i * block_size + block_size) && ltb k size)
            then s (k - i * block_size)
            else buf k)
          st' in
      if leb size (i * block_size) || db == 0
      then (some buf, st)
      else elim r [ none ↦ (none, st') | some s ↦ further s ]

  contents_of : Sector → Option Buffer × Store ata → Option Contents × Store ata
  contents_of obj (none, st) = (none, st)
  contents_of obj (some buf, st) =
      (some (record { size = read32 obj content_size_at; type = obj 4; bytes = buf }), st)

  read_found : Buffer → Option Sector → Store ata → Option Contents × Store ata
  read_found buf none st = (none, st)
  read_found buf (some obj) st =
      let empty = read32 obj (content_block_at 0) == 0 || read32 obj content_size_at == 0 in
      if not (is_object obj)
      then (none, st)
      else if empty
      then contents_of obj (some buf, st)
      else contents_of obj (read_blocks 4 0 obj buf st)

  -- `hexafs_object_read_data` into a buffer: `none` for 0. As many bytes as the object has are
  -- written, whatever the caller's size.
  pub hexafs_object_read_data : ℕ → Buffer → Store ata → Option Contents × Store ata
  hexafs_object_read_data lba buf st = let (r, st') = block_read lba st in read_found buf r st'
