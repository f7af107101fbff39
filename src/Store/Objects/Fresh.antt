-- ===== src/Store/Objects/Fresh.antt =====
-- A new object is empty and has its type.
use hexa_os_alpha_build.Base.{
  ℕ, ◌+◌, ◌%◌, ◌≤◌, ◌<◌, ◌≡◌, refl, ◌∙◌, arith, inl, inr, true, some, ◌==◌, if◌then◌else◌, ne→beq,
}
use hexa_os_alpha_build.Disk.{Ata, IsDriver, Sector, Cache}
use hexa_os_alpha_build.Disk.Coherence.{cache_write_lem}
use hexa_os_alpha_build.Blocks.{Blocks, is_free_block, zero_sector}
use hexa_os_alpha_build.Blocks.Alloc.{Gives, exhausted, block, hexafs_alloc_block_lem}
use hexa_os_alpha_build.Text.{Buffer}
use hexa_os_alpha_build.Struct.{
  read32, write32, read32-write32, read32-write32_other, read32-eq, read32_zero,
}
use hexa_os_alpha_build.Superblock.{timestamp_at}
use hexa_os_alpha_build.Store.{Store, block_read, block_write, alloc_block}
use hexa_os_alpha_build.Store.Snapshots.Found.{IsSound}
use hexa_os_alpha_build.Store.Objects.{
  obj_magic_base, content_size_at, content_block_at, obj_timestamp_at, obj_checksum_at, new_object,
  is_object, object_written, object_allocated, hexafs_object_alloc, contents_of, read_found,
  hexafs_object_read_data,
}

module _ (type time : ℕ) where
  abbrev header : Sector
  header = new_object type time

  abbrev first_part : Sector
  first_part = write32 (λ _. 0) 0 (obj_magic_base + type % 256)

  -- A field behind the type that is not set.
  pub header_blank : (at : ℕ) → 5 ≤ at → at + 4 ≤ obj_timestamp_at → read32 header at ≡ 0
  unfolding new_object
  header_blank at h h' =
      read32-write32_other _ obj_checksum_at _ at (inr (omega arith))
      ∙ read32-write32_other _ obj_timestamp_at _ at (inr h')
      ∙ read32-eq (λ k. if k == 4 then type % 256 else first_part k) first_part at
          (λ k l l'. rw (ne→beq k 4 (omega arith)) refl)
      ∙ read32-write32_other (λ _. 0) 0 (obj_magic_base + type % 256) at (inl (omega arith))
      ∙ read32_zero at

  header_magic : read32 header 0 ≡ obj_magic_base + type % 256
  unfolding new_object
  header_magic =
      read32-write32_other _ obj_checksum_at _ 0 (inr (omega arith))
      ∙ read32-write32_other _ obj_timestamp_at _ 0 (inr (omega arith))
      ∙ read32-eq (λ k. if k == 4 then type % 256 else first_part k) first_part 0
          (λ k l l'. rw (ne→beq k 4 (omega arith)) refl)
      ∙ read32-write32 (λ _. 0) 0 (obj_magic_base + type % 256) (omega arith)

  header_type : header 4 ≡ type % 256
  unfolding new_object write32
  header_type = refl

  pub header-lt : (k : ℕ) → header k < 256
  unfolding new_object write32
  header-lt k = ground arith

  pub header-is_object : is_object header ≡ true
  header-is_object = rw header_magic (ground arith)

  -- What a read makes of the header of a new object.
  read_found-header :
      {ata : Ata} (buf : Buffer) (st : Store ata)
      → (read_found buf (some header) st).0
        ≡ some (record { size = 0; type = type % 256; bytes = buf })
  unfolding read_found contents_of
  read_found-header buf st =
      rw (header-is_object, header_blank content_size_at (omega arith) (omega arith))
        (rw (header_blank (content_block_at 0) (omega arith) (omega arith)) (rw header_type refl))

module _ {ata : Ata} (drv : IsDriver ata)
    (never_fails : (d : ata.Disk) (i : ℕ) (s : Sector) → (ata.write d i s).0 ≡ true) where
  object_allocated-read :
      (type : ℕ) (buf : Buffer) (st : Store ata) (k : ℕ) {r : ℕ × Blocks × Cache × ata.Disk}
      → Gives ata st.blocks st.cache st.disk r
      → 109 ≤ k
      → k < 4096
      → is_free_block st.blocks k ≡ true
      → let given = record st { blocks = r.1; cache = r.2; disk = r.3 } in
        let (b, st') = object_allocated type (r.0, given) in
        (109 ≤ b)
        × (is_free_block st.blocks b ≡ true)
        × ((hexafs_object_read_data b buf st').0
            ≡ some (record { size = 0; type = type % 256; bytes = buf }))
  unfolding object_allocated object_written block_write block_read hexafs_object_read_data
  object_allocated-read type buf st k (exhausted none_of) l l' free = cc (free, none_of k l l')
  object_allocated-read type buf st k (block {u} {c'} {d'} i l l' was now zeroed val coh dis) lk lk'
        free =
      let time = read32 st.super.sb timestamp_at in
      let s = new_object type time in
      let w = cache_write_lem ata c' d' i s drv (omega arith) (never_fails d' i s) coh dis in
      rw (ne→beq i 0 (omega arith), w.0) (l, was, rw w.3 (read_found-header type time buf _))

  -- With a block of the store free, a new object takes a free block, and reading it gives the size 0,
  -- the low byte of the type it was made with and the buffer as it was. The cache agrees with the
  -- disk, and writes do not fail.
  pub read-object_alloc :
      (type : ℕ) (buf : Buffer) (st : Store ata) (k : ℕ)
      → IsSound st
      → 109 ≤ k
      → k < 4096
      → is_free_block st.blocks k ≡ true
      → let (b, st') = hexafs_object_alloc type st in
        (109 ≤ b)
        × (is_free_block st.blocks b ≡ true)
        × ((hexafs_object_read_data b buf st').0
            ≡ some (record { size = 0; type = type % 256; bytes = buf }))
  unfolding hexafs_object_alloc alloc_block
  read-object_alloc type buf st k v l l' free =
      object_allocated-read type buf st k
        (hexafs_alloc_block_lem ata st.blocks st.cache st.disk drv
          (λ i. never_fails st.disk i zero_sector) v.bitmap v.coherent v.distinct)
        l l' free
