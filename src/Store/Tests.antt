-- ===== src/Store/Tests.antt =====
-- The theorems on the store, at a small store on a disk that never fails.
use hexa_os_alpha_build.Base.{
  ℕ, ◌≤◌, ◌≡◌, ◌≢◌, refl, arith, true, false, some, List, [], ◌∷◌, ◌==◌, ltb, ◌+◌, if◌then◌else◌,
}
use hexa_os_alpha_build.Base.Bits.{test_bit}
use hexa_os_alpha_build.Disk.{Sector, blank_slot}
use hexa_os_alpha_build.Disk.Samples.{memory_disk, memory_disk-IsDriver, numbered, blank_cache}
use hexa_os_alpha_build.Disk.Coherence.{IsCoherent, IsDistinct}
use hexa_os_alpha_build.Blocks.{Blocks, is_free_block}
use hexa_os_alpha_build.Blocks.Alloc.{IsValid}
use hexa_os_alpha_build.Struct.{read32, read32-lt}
use hexa_os_alpha_build.Superblock.{root_snap_at, hexafs_read_superblock}
use hexa_os_alpha_build.Store.{Store, block_read, hexafs_tx_commit}
use hexa_os_alpha_build.Store.Snapshots.{hexafs_snap_create, hexafs_snap_find}
use hexa_os_alpha_build.Store.Snapshots.Found.{IsSound, IsSnapshot, find-create}
use hexa_os_alpha_build.Store.Commit.{commit-durable}
use hexa_os_alpha_build.Text.{Buffer}
use hexa_os_alpha_build.Store.Objects.{
  content_block_at, new_object, hexafs_object_alloc, hexafs_object_read_data,
  hexafs_object_write_data,
}
use hexa_os_alpha_build.Store.Objects.Fresh.{
  header_blank, header-lt, header-is_object, read-object_alloc,
}
use hexa_os_alpha_build.Store.Objects.RoundTrip.{read-write_data}

abbrev half_free : Blocks
half_free = record { alloc_bitmap = λ _. 0x0F; bitmap_dirty = true; hint = 200 }

half_free-IsValid : IsValid half_free
half_free-IsValid = record { bytes = λ j. omega arith; low = omega arith; high = omega arith }

-- In a transaction whose root object is block 300.
abbrev busy_store : Store memory_disk
busy_store = record {
  super = record { sb = λ _. 5; sb_valid = true };
  blocks = half_free;
  cache = blank_cache;
  disk = numbered;
  mounted = true;
  tx = record {
    active = true;
    tid = 1;
    parent_snap_block = 0;
    new_root_block = 300;
    snap_block = 0;
    dirty = true;
    gen = 1;
  };
}

coherent : IsCoherent memory_disk blank_cache numbered
coherent i l ne = absurd (ne refl)

distinct : IsDistinct blank_cache
distinct i j l l' ne e = absurd (ne refl)

busy_store-IsSound : IsSound busy_store
busy_store-IsSound = record { coherent = coherent; distinct = distinct; bitmap = half_free-IsValid }

abbrev live : List ℕ
live = b'l' ∷ b'i' ∷ b'v' ∷ b'e' ∷ []

free_204 : is_free_block half_free 204 ≡ true
unfolding test_bit
free_204 = refl

find-create_example :
    let (b, st') = hexafs_snap_create live busy_store in
    (109 ≤ b)
    × (is_free_block half_free b ≡ true)
    × ((hexafs_snap_find live st').0 ≡ some b)
    × ((s : Sector) × ((block_read b st').0 ≡ some s)
        × IsSnapshot (read32 busy_store.super.sb root_snap_at) 300 live s)
find-create_example =
    find-create memory_disk-IsDriver (λ d i s. refl) b'l' (b'i' ∷ b'v' ∷ b'e' ∷ []) busy_store 204
      busy_store-IsSound refl refl (omega arith) (omega arith) free_204 (omega arith)
      (read32-lt (λ _. 5) root_snap_at (λ i. omega arith)) (omega arith)

commit-durable_example :
    let (ok, st') = hexafs_tx_commit busy_store in
    let (ok', r, _) =
      hexafs_read_superblock memory_disk
        (record { sb = λ _. 0; sb_valid = false })
        (λ _. blank_slot)
        st'.disk in
    (ok ≡ true)
    × (st'.tx.active ≡ false)
    × (ok' ≡ true)
    × (read32 r.sb root_snap_at ≡ read32 busy_store.super.sb root_snap_at)
commit-durable_example =
    commit-durable memory_disk-IsDriver (λ d i s. refl) busy_store
      (record { sb = λ _. 0; sb_valid = false }) coherent distinct (λ i. omega arith) refl refl

read-object_alloc_example :
    let (b, st') = hexafs_object_alloc 258 busy_store in
    (109 ≤ b)
    × (is_free_block half_free b ≡ true)
    × ((hexafs_object_read_data b (λ _. 9) st').0
        ≡ some (record { size = 0; type = 2; bytes = λ _. 9 }))
read-object_alloc_example =
    read-object_alloc memory_disk-IsDriver (λ d i s. refl) 258 (λ _. 9) busy_store 204
      busy_store-IsSound (omega arith) (omega arith) free_204

-- With an empty object of type 3 in block 200.
abbrev object_store : Store memory_disk
object_store = record busy_store { disk = λ n. if n == 200 then new_object 3 0 else numbered n }

object_store-IsSound : IsSound object_store
object_store-IsSound = record {
  coherent = λ i l ne. absurd (ne refl);
  distinct = distinct;
  bitmap = half_free-IsValid;
}

used_200 : is_free_block half_free 200 ≡ false
unfolding test_bit
used_200 = refl

abbrev three_bytes : Buffer
three_bytes = λ k. 65 + k

blank_200 : read32 (new_object 3 0) (content_block_at 0) ≢ 200
blank_200 = rw (header_blank 3 0 (content_block_at 0) (omega arith) (omega arith)) (omega arith)

read-write_data_example :
    let (ok, st') = hexafs_object_write_data 200 three_bytes 3 object_store in
    (ok ≡ true)
    × ((hexafs_object_read_data 200 (λ _. 0) st').0
        ≡ some (record {
          size = 3;
          type = new_object 3 0 4;
          bytes = λ j. if ltb j 3 then three_bytes j else 0;
        }))
read-write_data_example =
    read-write_data memory_disk-IsDriver (λ d i s. refl) 200 204 3 (new_object 3 0) three_bytes
      (λ _. 0) object_store object_store-IsSound (omega arith) refl (header-is_object 3 0)
      (header-lt 3 0) blank_200 used_200 (omega arith) (omega arith) free_204 (omega arith)
      (omega arith)
