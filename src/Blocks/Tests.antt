-- ===== src/Blocks/Tests.antt =====
-- The block allocator of a fresh disk.
use hexa_os_alpha_build.Base.{refl, arith, false}
use hexa_os_alpha_build.Disk.Samples.{memory_disk, memory_disk-IsDriver, numbered, blank_cache}
use hexa_os_alpha_build.Disk.Coherence.{IsCoherent, IsDistinct}
use hexa_os_alpha_build.Blocks.{Blocks, hexafs_alloc_block}
use hexa_os_alpha_build.Blocks.Alloc.{IsValid, Gives, hexafs_alloc_block_lem}

abbrev some_blocks : Blocks
some_blocks = record { alloc_bitmap = λ _. 0x0F; bitmap_dirty = false; hint = 200 }

some_blocks-IsValid : IsValid some_blocks
some_blocks-IsValid = record { bytes = λ j. omega arith; low = omega arith; high = omega arith }

blank-IsCoherent : IsCoherent memory_disk blank_cache numbered
blank-IsCoherent i l ne = absurd (ne refl)

blank-IsDistinct : IsDistinct blank_cache
blank-IsDistinct i j l l' ne e = absurd (ne refl)

hexafs_alloc_block_lem_example :
    Gives memory_disk some_blocks blank_cache numbered
      (hexafs_alloc_block memory_disk some_blocks blank_cache numbered)
hexafs_alloc_block_lem_example =
    hexafs_alloc_block_lem memory_disk some_blocks blank_cache numbered memory_disk-IsDriver
      (λ i. refl) some_blocks-IsValid blank-IsCoherent blank-IsDistinct
