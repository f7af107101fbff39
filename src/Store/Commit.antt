-- ===== src/Store/Commit.antt =====
-- A transaction that commits is on the disk.
use hexa_os_alpha_build.Base.{
  ℕ, zero, suc, ◌+◌, ◌<◌, ◌≡◌, refl, ap, ◌∙◌, arith, inl, inr, true, false, not, Bool-cases,
}
use hexa_os_alpha_build.Disk.{Ata, IsDriver, Sector, Cache, blank_slot, cache_write}
use hexa_os_alpha_build.Disk.Coherence.{IsCoherent, IsDistinct, cache_read_lem, cache_write_lem}
use hexa_os_alpha_build.Blocks.{hexafs_alloc_lba}
use hexa_os_alpha_build.Struct.{read32}
use hexa_os_alpha_build.Superblock.{
  Super, root_snap_at, fill_superblock, seal, hexafs_write_superblock, hexafs_read_superblock,
}
use hexa_os_alpha_build.Superblock.RoundTrip.{read-write_superblock}
use hexa_os_alpha_build.Store.{
  Store, block_write, bitmap_part, save_parts, hexafs_save_bitmap, write_super, hexafs_tx_commit,
}

module _ {ata : Ata} (drv : IsDriver ata)
    (never_fails : (d : ata.Disk) (i : ℕ) (s : Sector) → (ata.write d i s).0 ≡ true) where
  -- What saving the bitmap leaves: the superblock in memory, the transaction, and an agreeing cache.
  record Saved (st st' : Store ata) : Type 0 where
    super : st'.super ≡ st.super
    tx : st'.tx ≡ st.tx
    coherent : IsCoherent ata st'.cache st'.disk
    distinct : IsDistinct st'.cache

  save_parts-Saved :
      (n i : ℕ) (st : Store ata)
      → IsCoherent ata st.cache st.disk
      → IsDistinct st.cache
      → ((save_parts n i st).0 ≡ true) × Saved st (save_parts n i st).1
  unfolding save_parts block_write
  save_parts-Saved zero i st coh dis =
      (refl, record { super = refl; tx = refl; coherent = coh; distinct = dis })
  save_parts-Saved (suc n) i st coh dis =
      let lba = hexafs_alloc_lba + i in
      let part = bitmap_part i st.blocks in
      let w =
        cache_write_lem ata st.cache st.disk lba part drv (omega arith)
          (never_fails st.disk lba part) coh dis in
      let st' : Store ata = record st {
        cache = (cache_write ata st.cache st.disk lba part).1;
        disk = (cache_write ata st.cache st.disk lba part).2;
      } in
      let (ok, v) = save_parts-Saved n (i + 1) st' w.1 w.2 in
      rw w.0
        (ok, record { super = v.super; tx = v.tx; coherent = v.coherent; distinct = v.distinct })

  save_bitmap-Saved :
      (st : Store ata)
      → IsCoherent ata st.cache st.disk
      → IsDistinct st.cache
      → ((hexafs_save_bitmap st).0 ≡ true) × Saved st (hexafs_save_bitmap st).1
  unfolding hexafs_save_bitmap
  save_bitmap-Saved st coh dis = elim (Bool-cases st.blocks.bitmap_dirty) [
    | inl e ↦
        let go : not st.blocks.bitmap_dirty ≡ false = rw e refl in
        rw go (save_parts-Saved 2 0 st coh dis)
    | inr e ↦
        let stop : not st.blocks.bitmap_dirty ≡ true = rw e refl in
        rw stop (refl, record { super = refl; tx = refl; coherent = coh; distinct = dis })
  ]

  -- A superblock is read alike through any cache that agrees with the disk.
  read_superblock_alike :
      (u : Super) (c c' : Cache) (d : ata.Disk)
      → IsCoherent ata c d
      → IsDistinct c
      → IsCoherent ata c' d
      → IsDistinct c'
      → ((hexafs_read_superblock ata u c d).0 ≡ (hexafs_read_superblock ata u c' d).0)
        × ((hexafs_read_superblock ata u c d).1 ≡ (hexafs_read_superblock ata u c' d).1)
  unfolding hexafs_read_superblock
  read_superblock_alike u c c' d coh dis coh' dis' =
      let e = (cache_read_lem ata c d 100 (omega arith) coh dis).0 in
      let e' = (cache_read_lem ata c' d 100 (omega arith) coh' dis').0 in rw (e, e') (refl, refl)

  -- What the superblock write leaves can be read through an empty cache.
  write_super-read :
      (st : Store ata) (u : Super)
      → IsCoherent ata st.cache st.disk
      → IsDistinct st.cache
      → ((i : ℕ) → st.super.sb i < 256)
      → let (ok, st') = write_super st in
        let (ok', r, _) = hexafs_read_superblock ata u (λ _. blank_slot) st'.disk in
        (ok ≡ true) × (ok' ≡ true) × (read32 r.sb root_snap_at ≡ read32 st.super.sb root_snap_at)
  unfolding write_super hexafs_write_superblock
  write_super-read st u coh dis b =
      let s = seal (fill_superblock st.super.sb) in
      let w =
        cache_write_lem ata st.cache st.disk 100 s drv (omega arith) (never_fails st.disk 100 s) coh
          dis in
      let r =
        read-write_superblock ata st.super u st.cache st.disk drv (never_fails st.disk 100 s) coh
          dis b in
      let (same, same') =
        read_superblock_alike u (λ _. blank_slot) (cache_write ata st.cache st.disk 100 s).1
          (cache_write ata st.cache st.disk 100 s).2 (λ i l ne. absurd (ne refl))
          (λ i j l l' ne e. absurd (ne refl)) w.1 w.2 in
      (w.0, same ∙ r.0, ap (λ (v : Super). read32 v.sb root_snap_at) same' ∙ r.2)

  -- A transaction that has changed something commits: it ends, and after a restart the superblock
  -- that is read from the disk, with nothing in the cache, is accepted and names the newest snapshot of
  -- the memory before the commit. The cache agrees with the disk, and writes do not fail.
  pub commit-durable :
      (st : Store ata) (u : Super)
      → IsCoherent ata st.cache st.disk
      → IsDistinct st.cache
      → ((i : ℕ) → st.super.sb i < 256)
      → st.tx.active ≡ true
      → st.tx.dirty ≡ true
      → let (ok, st') = hexafs_tx_commit st in
        let (ok', r, _) = hexafs_read_superblock ata u (λ _. blank_slot) st'.disk in
        (ok ≡ true)
        × (st'.tx.active ≡ false)
        × (ok' ≡ true)
        × (read32 r.sb root_snap_at ≡ read32 st.super.sb root_snap_at)
  unfolding hexafs_tx_commit
  commit-durable st u coh dis b active dirty =
      let (ok, v) = save_bitmap-Saved st coh dis in
      let st1 = (hexafs_save_bitmap st).1 in
      let bytes : (i : ℕ) → st1.super.sb i < 256 = λ i. rw v.super (b i) in
      let r = write_super-read st1 u v.coherent v.distinct bytes in
      let a : not st.tx.active ≡ false = rw active refl in
      let d : not st.tx.dirty ≡ false = rw dirty refl in
      rw (a, d, ok, r.0)
        (refl, refl, r.1, r.2 ∙ ap (λ (w : Super). read32 w.sb root_snap_at) v.super)
