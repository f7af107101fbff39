-- ===== src/Superblock/RoundTrip.antt =====
-- A superblock that was written is read back.
use hexa_os_alpha_build.Base.{
  ℕ, ◌+◌, ◌%◌, ◌^◌, ◌<◌, ◌≡◌, refl, Bool, true, false, ◌&&◌, some, arith, ◌==◌, if◌then◌else◌, ap,
  ◌∙◌, eq→beq, inl, inr,
}
use hexa_os_alpha_build.Disk.{Ata, IsDriver, Sector, Cache}
use hexa_os_alpha_build.Disk.Coherence.{IsCoherent, IsDistinct, cache_write_lem}
use hexa_os_alpha_build.Struct.{
  read32, write32, checksum_of, checksum_of-write32, read32-write32, read32-write32_other,
  read32-lt,
}
use hexa_os_alpha_build.Superblock.{
  Super, super_magic, store_bytes, same_bytes, root_snap_at, checksum_at, timestamp_at,
  format_gen_at, fill_superblock, seal, hexafs_write_superblock, accept_superblock,
  hexafs_read_superblock,
}

-- The first eight bytes of what is written.
magic_kept : (old : Sector) → same_bytes (seal (fill_superblock old)) 0 super_magic ≡ true
unfolding same_bytes fill_superblock store_bytes write32
magic_kept old = refl

accepts :
    (ata : Ata) (u : Super) (old : Sector)
    → let s = seal (fill_superblock old) in
      accept_superblock ata u (some s) ≡ (true, record { sb = s; sb_valid = true })
unfolding accept_superblock
accepts ata u old =
    let s = seal (fill_superblock old) in
    rw
      (
        magic_kept old,
        eq→beq (checksum_of s checksum_at) (read32 s checksum_at)
            (checksum_of-write32 (fill_superblock old) checksum_at),
      )
      refl

-- The fields that a new superblock takes from the old one.
fields_kept :
    (old : Sector)
    → ((i : ℕ) → old i < 256)
    → let s = seal (fill_superblock old) in
      (read32 s root_snap_at ≡ read32 old root_snap_at)
      × (read32 s format_gen_at ≡ (read32 old format_gen_at + 1) % 2 ^ 32)
unfolding fill_superblock
fields_kept old b = (
  read32-write32_other _ checksum_at _ root_snap_at (inr (omega arith))
      ∙ read32-write32_other _ format_gen_at _ root_snap_at (inr (omega arith))
      ∙ read32-write32_other _ timestamp_at _ root_snap_at (inr (omega arith))
      ∙ read32-write32 _ root_snap_at (read32 old root_snap_at) (read32-lt old root_snap_at b),
  read32-write32_other _ checksum_at _ format_gen_at (inl (omega arith))
      ∙ read32-write32 _ format_gen_at ((read32 old format_gen_at + 1) % 2 ^ 32) (omega arith),
)

-- After `hexafs_write_superblock` through a cache that agrees with the disk, where the driver's write
-- succeeds, `hexafs_read_superblock` accepts what it finds and reads the same superblock, whatever was
-- in memory before; it names the same root snapshot as the superblock before the write, and its
-- generation is one more.
pub read-write_superblock :
    (ata : Ata) (u u' : Super) (c : Cache) (d : ata.Disk)
    → IsDriver ata
    → (ata.write d 100 (seal (fill_superblock u.sb))).0 ≡ true
    → IsCoherent ata c d
    → IsDistinct c
    → ((i : ℕ) → u.sb i < 256)
    → let (_, w, c', d') = hexafs_write_superblock ata u c d in
      let (ok, r, _) = hexafs_read_superblock ata u' c' d' in
      (ok ≡ true)
      × (r.sb ≡ w.sb)
      × (read32 r.sb root_snap_at ≡ read32 u.sb root_snap_at)
      × (read32 r.sb format_gen_at ≡ (read32 u.sb format_gen_at + 1) % 2 ^ 32)
unfolding hexafs_write_superblock hexafs_read_superblock
read-write_superblock ata u u' c d drv ok coh dis b =
    let s = seal (fill_superblock u.sb) in
    let w = cache_write_lem ata c d 100 s drv (omega arith) ok coh dis in
    let e = ap (accept_superblock ata u') w.3 ∙ accepts ata u' u.sb in
    let same = ap (λ (r : Bool × Super). r.1.sb) e in
    let kept = fields_kept u.sb b in
    (
      ap (λ (r : Bool × Super). r.0) e,
      same,
      ap (λ t. read32 t root_snap_at) same ∙ kept.0,
      ap (λ t. read32 t format_gen_at) same ∙ kept.1,
    )

-- `hexafs_read_superblock` accepts a block exactly where its magic and its checksum are right, and
-- otherwise leaves what is in memory.
pub accept_superblock_lem :
    (ata : Ata) (u : Super) (s : Sector)
    → accept_superblock ata u (some s) ≡ (
        if same_bytes s 0 super_magic && checksum_of s checksum_at == read32 s checksum_at
        then (true, record { sb = s; sb_valid = true })
        else (false, u))
unfolding accept_superblock
accept_superblock_lem ata u s = ground arith
