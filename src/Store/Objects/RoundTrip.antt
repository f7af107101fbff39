-- ===== src/Store/Objects/RoundTrip.antt =====
-- What is written to an object of one block is read back.
use native.Mathlib.Decide.{ℕ_discrete}
use hexa_os_alpha_build.Base.{
  ℕ, ◌+◌, ◌-◌, ◌*◌, ◌/◌, ◌%◌, ◌^◌, ◌≤◌, ◌<◌, ◌≡◌, ◌≢◌, refl, sym, ap, ◌∙◌, arith, inl, inr, Bool,
  true, false, not, ◌&&◌, ◌||◌, Option, none, some, ◌==◌, ltb, leb, if◌then◌else◌, ne→beq, eq→beq,
  fun_ext,
}
use hexa_os_alpha_build.Disk.{Ata, IsDriver, Sector, Cache}
use hexa_os_alpha_build.Disk.Coherence.{cache_read_lem, cache_write_lem}
use hexa_os_alpha_build.Blocks.{Blocks, is_free_block, zero_sector}
use hexa_os_alpha_build.Blocks.Alloc.{Gives, exhausted, block, hexafs_alloc_block_lem}
use hexa_os_alpha_build.Text.{Buffer}
use hexa_os_alpha_build.Struct.{
  read32, write32, read32-write32, read32-write32_other, read32-lt, checksum_of,
  hexafs_content_hash,
}
use hexa_os_alpha_build.Store.{Store, block_read, block_write, alloc_block}
use hexa_os_alpha_build.Store.Snapshots.Found.{IsSound}
use hexa_os_alpha_build.Store.Objects.{
  block_size, content_size_at, content_block_at, content_hash_at, obj_checksum_at, is_object,
  data_block, blocks_for, clear_blocks, finish_object, block_of, write_blocks, write_header,
  write_found, hexafs_object_write_data, read_blocks, contents_of, read_found,
  hexafs_object_read_data,
}

-- The header of an object whose data fits in the block `db`.
module _ (obj : Sector) (buf : Buffer) (size db : ℕ) (l : 1 ≤ size) (l' : size ≤ 512) where
  one_block : blocks_for size ≡ 1
  unfolding blocks_for
  one_block = let e : (size + 511) % 2 ^ 32 / 512 ≡ 1 = omega arith in rw e refl

  abbrev finished : Sector
  finished = finish_object buf size (write32 obj (content_block_at 0) db)

  abbrev cleared : Sector
  cleared =
      write32 (write32 (write32 (write32 obj 16 db) (content_block_at 1) 0) (content_block_at 2) 0)
        (content_block_at 3) 0

  abbrev filled : Sector
  filled =
      write32 (write32 cleared content_size_at size) content_hash_at (hexafs_content_hash buf size)

  finished-filled : finished ≡ write32 filled obj_checksum_at (checksum_of filled obj_checksum_at)
  unfolding finish_object clear_blocks
  finished-filled = rw one_block refl

  finished-read32 :
      (at : ℕ)
      → at + 4 ≤ content_hash_at
      → read32 finished at ≡ read32 (write32 cleared content_size_at size) at
  finished-read32 at h =
      ap (λ s. read32 s at) finished-filled
      ∙ read32-write32_other filled obj_checksum_at _ at (inr (omega arith))
      ∙ read32-write32_other _ content_hash_at _ at (inr h)

  cleared-read32 :
      (at : ℕ) → at + 4 ≤ content_block_at 1 → read32 cleared at ≡ read32 (write32 obj 16 db) at
  cleared-read32 at h =
      read32-write32_other _ (content_block_at 3) 0 at (inr (omega arith))
      ∙ read32-write32_other _ (content_block_at 2) 0 at (inr (omega arith))
      ∙ read32-write32_other _ (content_block_at 1) 0 at (inr h)

  finished-magic : read32 finished 0 ≡ read32 obj 0
  finished-magic =
      finished-read32 0 (omega arith)
      ∙ read32-write32_other _ content_size_at size 0 (inr (omega arith))
      ∙ cleared-read32 0 (omega arith)
      ∙ read32-write32_other obj 16 db 0 (inr (omega arith))

  finished-size : read32 finished content_size_at ≡ size
  finished-size =
      finished-read32 content_size_at (omega arith)
      ∙ read32-write32 cleared content_size_at size (omega arith)

  finished-block : db < 2 ^ 32 → read32 finished (content_block_at 0) ≡ db
  finished-block h =
      finished-read32 16 (omega arith)
      ∙ read32-write32_other _ content_size_at size 16 (inl (omega arith))
      ∙ cleared-read32 16 (omega arith)
      ∙ read32-write32 obj 16 db h

  finished-type : finished 4 ≡ obj 4
  unfolding write32
  finished-type = ap (λ s. s 4) finished-filled ∙ refl

-- What the copy of the one block leaves in the caller's buffer.
data_block-copied :
    (buf old : Buffer) (size k : ℕ)
    → size ≤ 512
    → (if not (ltb k (0 * block_size)) && (ltb k (0 * block_size + block_size) && ltb k size)
        then data_block buf 0 size (k - 0 * block_size)
        else old k)
      ≡ (if ltb k size then buf k else old k)
unfolding data_block
data_block-copied buf old size k h = ground arith

-- The blocks of the store on a disk that never fails.
module _ {ata : Ata} (drv : IsDriver ata)
    (never_fails : (d : ata.Disk) (i : ℕ) (s : Sector) → (ata.write d i s).0 ≡ true) where
  block_write_lem :
      (i : ℕ) (s : Sector) (st : Store ata)
      → IsSound st
      → i ≢ 0
      → let (ok, st') = block_write i s st in
        (ok ≡ true)
        × IsSound st'
        × (ata.read st'.disk i ≡ some s)
        × ((j : ℕ) → i ≢ j → ata.read st'.disk j ≡ ata.read st.disk j)
  unfolding block_write
  block_write_lem i s st v ne =
      let w =
        cache_write_lem ata st.cache st.disk i s drv ne (never_fails st.disk i s) v.coherent
          v.distinct in
      let e = w.4 in
      (
        w.0,
        record { coherent = w.1; distinct = w.2; bitmap = v.bitmap },
        rw e (drv.back st.disk i s (never_fails st.disk i s)),
        λ j q. rw e (drv.others st.disk i s j q),
      )

  block_read_lem :
      (i : ℕ) (st : Store ata)
      → IsSound st
      → i ≢ 0
      → let (r, st') = block_read i st in
        (r ≡ ata.read st.disk i) × IsSound st' × (st'.disk ≡ st.disk) × (st'.blocks ≡ st.blocks)
  unfolding block_read
  block_read_lem i st v ne =
      let w = cache_read_lem ata st.cache st.disk i ne v.coherent v.distinct in
      (w.0, record { coherent = w.1; distinct = w.2; bitmap = v.bitmap }, refl, refl)

  -- The block that data goes to, apart from the object's own block.
  IsFor : ℕ → ℕ × Store ata → Type 0
  IsFor lba (db, st) = (db ≢ 0) × (db ≢ lba) × (db < 2 ^ 32) × IsSound st

  given-IsFor :
      (lba k : ℕ) (st : Store ata) {r : ℕ × Blocks × Cache × ata.Disk}
      → Gives ata st.blocks st.cache st.disk r
      → is_free_block st.blocks lba ≡ false
      → 109 ≤ k
      → k < 4096
      → is_free_block st.blocks k ≡ true
      → IsFor lba (r.0, record st { blocks = r.1; cache = r.2; disk = r.3 })
  unfolding IsFor
  given-IsFor lba k st (exhausted none_of) used l l' free = cc (free, none_of k l l')
  given-IsFor lba k st (block i m m' was now zeroed val coh dis) used l l' free =
      (omega arith, λ q. cc, omega arith, record { coherent = coh; distinct = dis; bitmap = val })

  block_of-IsFor :
      (named lba k : ℕ) (st : Store ata)
      → IsSound st
      → named ≢ lba
      → named < 2 ^ 32
      → is_free_block st.blocks lba ≡ false
      → 109 ≤ k
      → k < 4096
      → is_free_block st.blocks k ≡ true
      → IsFor lba (block_of named st)
  unfolding block_of alloc_block IsFor
  block_of-IsFor named lba k st v ne h used l l' free = elim (ℕ_discrete named 0) [
    | yes e ↦ rw (eq→beq named 0 e) (
        given-IsFor lba k st
          (hexafs_alloc_block_lem ata st.blocks st.cache st.disk drv
            (λ i. never_fails st.disk i zero_sector) v.bitmap v.coherent v.distinct)
          used l l' free)
    | no p ↦ rw (ne→beq named 0 p) (p, ne, h, v)
  ]

  -- An object of one block, as a write leaves it: its header on disk, and behind it the data.
  IsStored : ℕ → Sector → Buffer → ℕ → Bool × Store ata → Type 0
  IsStored lba obj buf size (ok, st) =
      (ok ≡ true)
      × IsSound st
      × ((db : ℕ) × (db ≢ 0)
          × (db < 2 ^ 32)
          × (ata.read st.disk lba
              ≡ some (finish_object buf size (write32 obj (content_block_at 0) db)))
          × (ata.read st.disk db ≡ some (data_block buf 0 size)))

  write_blocks-IsStored :
      (lba : ℕ) (obj : Sector) (buf : Buffer) (size : ℕ) (st : Store ata)
      → lba ≢ 0
      → IsFor lba (block_of (read32 obj (content_block_at 0)) st)
      → IsStored lba obj buf size (write_header lba buf size (write_blocks 1 0 buf size obj st))
  unfolding IsFor IsStored write_header write_blocks
  write_blocks-IsStored lba obj buf size st ne (nz, apart, lt, v) =
      let r = block_of (read32 obj (content_block_at 0)) st in
      let s = data_block buf 0 size in
      let w = block_write_lem r.0 s r.1 v nz in
      let header = finish_object buf size (write32 obj (content_block_at 0) r.0) in
      let w' = block_write_lem lba header (block_write r.0 s r.1).1 w.1 ne in
      rw (ne→beq r.0 0 nz, w.0)
        (w'.0, w'.1, (r.0, nz, lt, w'.2, w'.3 r.0 (λ q. apart (sym q)) ∙ w.2))

  contents_of-some :
      (obj : Sector) (r : Option Buffer × Store ata) (buf : Buffer)
      → r.0 ≡ some buf
      → (contents_of obj r).0
        ≡ some (record { size = read32 obj content_size_at; type = obj 4; bytes = buf })
  unfolding contents_of
  contents_of-some obj (none, st) buf e = cc
  contents_of-some obj (some b, st) buf e = cc

  read_blocks_one :
      (fin : Sector) (buf old : Buffer) (size db : ℕ) (st : Store ata)
      → 1 ≤ size
      → size ≤ 512
      → db ≢ 0
      → read32 fin content_size_at ≡ size
      → read32 fin (content_block_at 0) ≡ db
      → (block_read db st).0 ≡ some (data_block buf 0 size)
      → (read_blocks 4 0 fin old st).0 ≡ some (λ k. if ltb k size then buf k else old k)
  unfolding read_blocks data_block
  read_blocks_one fin buf old size db st l l' nz sized named e =
      let more : leb (read32 fin content_size_at) (0 * block_size) ≡ false =
        rw sized (ground arith) in
      let last : leb (read32 fin content_size_at) ((0 + 1) * block_size) ≡ true =
        rw sized (ground arith) in
      let there : (read32 fin (content_block_at 0) == 0) ≡ false = rw named (ne→beq db 0 nz) in
      let found : (block_read (read32 fin (content_block_at 0)) st).0
          ≡ some (data_block buf 0 size) =
        rw named e in
      rw (more, there, found)
        (rw last (ap some (fun_ext (λ k. rw sized (data_block-copied buf old size k l')))))

  read_found_one :
      (obj : Sector) (buf old : Buffer) (size db : ℕ) (st : Store ata)
      → 1 ≤ size
      → size ≤ 512
      → is_object obj ≡ true
      → db ≢ 0
      → db < 2 ^ 32
      → (block_read db st).0 ≡ some (data_block buf 0 size)
      → let fin = finish_object buf size (write32 obj (content_block_at 0) db) in
        (read_found old (some fin) st).0
        ≡ some
            (record { size = size; type = obj 4; bytes = λ k. if ltb k size then buf k else old k })
  unfolding read_found
  read_found_one obj buf old size db st l l' is nz lt e =
      let fin = finish_object buf size (write32 obj (content_block_at 0) db) in
      let sized = finished-size obj buf size db l l' in
      let named = finished-block obj buf size db l l' lt in
      let object : is_object fin ≡ true = rw (finished-magic obj buf size db l l') is in
      let full : (read32 fin (content_block_at 0) == 0 || read32 fin content_size_at == 0) ≡ false =
        rw (named, sized) (ground arith) in
      rw (object, full)
        (contents_of-some fin _ _ (read_blocks_one fin buf old size db st l l' nz sized named e)
          ∙ rw (sized, finished-type obj buf size db l l') refl)

  IsStored-read :
      (lba : ℕ) (obj : Sector) (buf old : Buffer) (size : ℕ) (r : Bool × Store ata)
      → lba ≢ 0
      → 1 ≤ size
      → size ≤ 512
      → is_object obj ≡ true
      → IsStored lba obj buf size r
      → (r.0 ≡ true)
        × ((hexafs_object_read_data lba old r.1).0
            ≡ some (record {
              size = size;
              type = obj 4;
              bytes = λ k. if ltb k size then buf k else old k;
            }))
  unfolding IsStored hexafs_object_read_data
  IsStored-read lba obj buf old size (ok, st) ne l l' is (e, v, (db, nz, lt, at_header, at_data)) =
      let w = block_read_lem lba st v ne in
      let w' = block_read_lem db (block_read lba st).1 w.1 nz in
      (
        e,
        rw (w.0, at_header)
            (read_found_one obj buf old size db (block_read lba st).1 l l' is nz lt
              (w'.0 ∙ ap (λ d. ata.read d db) w.2 ∙ at_data)),
      )

  -- Data of 1 to 512 bytes that is written to an object is accepted and read back: the read gives the
  -- size, the object's type and the data, and leaves the buffer as it was behind it. The object's block
  -- is not 0 and is marked, its header is a sector of bytes that does not name itself as its content,
  -- and a block of the store is free. The cache agrees with the disk, and writes do not fail.
  pub read-write_data :
      (lba k size : ℕ) (obj : Sector) (buf old : Buffer) (st : Store ata)
      → IsSound st
      → lba ≢ 0
      → ata.read st.disk lba ≡ some obj
      → is_object obj ≡ true
      → ((i : ℕ) → obj i < 256)
      → read32 obj (content_block_at 0) ≢ lba
      → is_free_block st.blocks lba ≡ false
      → 109 ≤ k
      → k < 4096
      → is_free_block st.blocks k ≡ true
      → 1 ≤ size
      → size ≤ 512
      → let (ok, st') = hexafs_object_write_data lba buf size st in
        (ok ≡ true)
        × ((hexafs_object_read_data lba old st').0
            ≡ some (record {
              size = size;
              type = obj 4;
              bytes = λ j. if ltb j size then buf j else old j;
            }))
  unfolding hexafs_object_write_data write_found
  read-write_data lba k size obj buf old st v ne at is bytes apart used m m' free l l' =
      let w = block_read_lem lba st v ne in
      let st0 = (block_read lba st).1 in
      let for_ =
        block_of-IsFor (read32 obj (content_block_at 0)) lba k st0 w.1 apart
          (read32-lt obj (content_block_at 0) bytes) (rw w.3 used) m m' (rw w.3 free) in
      rw (w.0, at)
        (rw (is, one_block obj buf size 0 l l')
          (IsStored-read lba obj buf old size _ ne l l' is
            (write_blocks-IsStored lba obj buf size st0 ne for_)))
