-- ===== src/Store/Snapshots.antt =====
-- The snapshots of hexafs_disk.c: `hexafs_snap_create` and `hexafs_snap_find`. A snapshot is the packed
-- sector itself.
pub mod Found
use hexa_os_alpha_build.Base.{
  ℕ, zero, suc, ◌+◌, ◌-◌, ◌*◌, ◌%◌, ◌^◌, Bool, true, false, not, ◌&&◌, ◌||◌, Option, none, some,
  List, [], ◌∷◌, ◌==◌, ltb, if◌then◌else◌,
}
use hexa_os_alpha_build.Disk.{Ata, Sector}
use hexa_os_alpha_build.Struct.{read32, write32, hexafs_content_hash}
use hexa_os_alpha_build.Superblock.{root_snap_at, timestamp_at}
use hexa_os_alpha_build.Store.{Store, Tx, block_read, block_write, alloc_block, free_block}

abbrev pub snap_magic : ℕ
snap_magic = 0x534e4150

abbrev pub parent_at : ℕ
parent_at = 4

abbrev pub root_object_at : ℕ
root_object_at = 8

abbrev pub name_at : ℕ
name_at = 16

-- The loop that copies at most `n` characters of the name; the rest of the field is 0 already.
pub put_name : ℕ → ℕ → List ℕ → Sector → Sector
put_name zero i name s = s
put_name (suc n) i [] s = s
put_name (suc n) i (c ∷ cs) s = put_name n (i + 1) cs (λ k. if k == i then c else s k)

-- The snapshot that `hexafs_snap_create` builds.
pub build_snap : ℕ → ℕ → ℕ → List ℕ → Sector
build_snap parent time root name =
    let s1 = write32 (λ _. 0) 0 snap_magic in
    let s2 = write32 (write32 s1 parent_at parent) 12 time in
    let s3 = put_name 31 name_at name (write32 s2 root_object_at root) in
    write32 s3 48 (hexafs_content_hash s3 512)

-- The bytes of a name against those of a field, with `n` of them left.
pub same_name : ℕ → ℕ → List ℕ → Sector → Bool
same_name zero i name s = true
same_name (suc n) i [] s = s i == 0
same_name (suc n) i (c ∷ cs) s = s i == c && same_name n (i + 1) cs s

is_given : List ℕ → Bool
is_given [] = false
is_given (c ∷ cs) = true

module _ {ata : Ata} where
  -- The rest of the call, with the outcome of the write.
  snap_written : ℕ → Bool × Store ata → ℕ × Store ata
  snap_written i (false, st) = (0, free_block i st)
  snap_written i (true, st) = (
    i,
    record st {
      tx = record st.tx { snap_block = i };
      super = record st.super { sb = write32 st.super.sb root_snap_at i };
    },
  )

  snap_allocated : List ℕ → ℕ × Store ata → ℕ × Store ata
  snap_allocated name (i, st) =
      let sb = st.super.sb in
      let s =
        build_snap (read32 sb root_snap_at) (read32 sb timestamp_at) st.tx.new_root_block name in
      if i == 0 then (0, st) else snap_written i (block_write i s st)

  -- `hexafs_snap_create`: the block, or 0.
  pub hexafs_snap_create : List ℕ → Store ata → ℕ × Store ata
  hexafs_snap_create name st =
      if not st.tx.active || not st.tx.dirty then (0, st) else snap_allocated name (alloc_block st)

  -- What the search does with a block that was read, and the rest of the search from its parent on.
  visit : List ℕ → ℕ → Option Sector → Store ata → (ℕ → Option ℕ × Store ata) → Option ℕ × Store ata
  visit name i none st further = (some 0, st)
  visit name i (some s) st further =
      if not (read32 s 0 == snap_magic)
      then (some 0, st)
      else if is_given name && same_name 32 name_at name s
      then (some i, st)
      else further (read32 s parent_at)

  -- The loop of `hexafs_snap_find`, with `fuel` blocks to look at: `none` where more of the chain is
  -- left.
  pub find_snap : ℕ → List ℕ → ℕ → Store ata → Option ℕ × Store ata
  find_snap zero name i st = ((if i == 0 then some 0 else none), st)
  find_snap (suc fuel) name i st =
      let (r, st') = block_read i st in
      let rest = visit name i r st' (λ parent. find_snap fuel name parent st') in
      if i == 0 then (some 0, st) else rest

  -- A chain without a cycle has no more blocks than the disk.
  pub hexafs_snap_find : List ℕ → Store ata → Option ℕ × Store ata
  hexafs_snap_find name st = find_snap 4096 name (read32 st.super.sb root_snap_at) st
