-- ===== src/Superblock.antt =====
-- The superblock of hexafs_disk.c. It is the packed sector itself; the offsets are those of the fields
-- of `hexafs_superblock_t`.
pub mod RoundTrip
use hexa_os_alpha_build.Base.{
  ℕ, zero, suc, ◌+◌, ◌%◌, ◌^◌, Bool, true, false, not, ◌&&◌, Option, none, some, List, [], ◌∷◌,
  ◌==◌, if◌then◌else◌,
}
use hexa_os_alpha_build.Disk.{Ata, Sector, Cache, cache_read, cache_write}
use hexa_os_alpha_build.Struct.{read32, write32, checksum_of}

-- "HEXAFS0", with the null that ends it
abbrev pub super_magic : List ℕ
super_magic = 72 ∷ 69 ∷ 88 ∷ 65 ∷ 70 ∷ 83 ∷ 48 ∷ 0 ∷ []

-- The bytes of a list at an offset, and the comparison of bytes with a list.
pub store_bytes : Sector → ℕ → List ℕ → Sector
store_bytes s off [] = s
store_bytes s off (b ∷ bs) = store_bytes (λ i. if i == off then b else s i) (off + 1) bs

pub same_bytes : Sector → ℕ → List ℕ → Bool
same_bytes s off [] = true
same_bytes s off (b ∷ bs) = s off == b && same_bytes s (off + 1) bs

abbrev pub root_snap_at : ℕ
root_snap_at = 28

abbrev pub checksum_at : ℕ
checksum_at = 32

abbrev pub timestamp_at : ℕ
timestamp_at = 36

abbrev pub format_gen_at : ℕ
format_gen_at = 40

-- `sb_cache` and `sb_valid`
pub record Super : Type 0 where
  pub sb : Sector
  pub sb_valid : Bool

-- What `hexafs_write_superblock` fills in, all but the checksum.
pub fill_superblock : Sector → Sector
fill_superblock old =
    let s0 = store_bytes (λ _. 0) 0 super_magic in
    let s1 = write32 (write32 (write32 s0 8 1) 12 4096) 16 101 in
    let s2 = write32 (write32 s1 20 2) 24 109 in
    let s3 =
      write32 (write32 s2 root_snap_at (read32 old root_snap_at)) timestamp_at
        (read32 old timestamp_at) in
    write32 s3 format_gen_at ((read32 old format_gen_at + 1) % 2 ^ 32)

abbrev pub seal : Sector → Sector
seal s = write32 s checksum_at (checksum_of s checksum_at)

module _ (ata : Ata) where
  -- `hexafs_write_superblock`
  unfoldable pub hexafs_write_superblock :
      Super → Cache → ata.Disk → Bool × Super × Cache × ata.Disk
  hexafs_write_superblock u c d =
      let s = seal (fill_superblock u.sb) in
      let (ok, c', d') = cache_write ata c d 100 s in
      (ok, record { sb = s; sb_valid = true }, c', d')

  -- `hexafs_read_superblock` behind the read.
  pub accept_superblock : Super → Option Sector → Bool × Super
  accept_superblock u none = (false, u)
  accept_superblock u (some s) =
      if not (same_bytes s 0 super_magic)
      then (false, u)
      else if not (checksum_of s checksum_at == read32 s checksum_at)
      then (false, u)
      else (true, record { sb = s; sb_valid = true })

  unfoldable pub hexafs_read_superblock : Super → Cache → ata.Disk → Bool × Super × Cache
  hexafs_read_superblock u c d =
      let (r, c') = cache_read ata c d 100 in let (ok, u') = accept_superblock u r in (ok, u', c')
