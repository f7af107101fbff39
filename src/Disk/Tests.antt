-- ===== src/Disk/Tests.antt =====
-- The cache over a driver that never fails.
use hexa_os_alpha_build.Base.{◌≡◌, refl, arith, true, some}
use hexa_os_alpha_build.Disk.{Sector, cache_read, cache_write}
use hexa_os_alpha_build.Disk.Samples.{memory_disk, memory_disk-IsDriver, numbered, blank_cache}
use hexa_os_alpha_build.Disk.Coherence.{IsCoherent, IsDistinct, cache_write_lem}

blank-IsCoherent : IsCoherent memory_disk blank_cache numbered
blank-IsCoherent i l ne = absurd (ne refl)

blank-IsDistinct : IsDistinct blank_cache
blank-IsDistinct i j l l' ne e = absurd (ne refl)

abbrev nines : Sector
nines = λ _. 9

cache_write_lem_example :
    let (ok, c', d') = cache_write memory_disk blank_cache numbered 7 nines in
    (ok ≡ true)
    × IsCoherent memory_disk c' d'
    × IsDistinct c'
    × ((cache_read memory_disk c' d' 7).0 ≡ some nines)
    × (d' ≡ (memory_disk.write numbered 7 nines).1)
cache_write_lem_example =
    cache_write_lem memory_disk blank_cache numbered 7 nines memory_disk-IsDriver (omega arith) refl
      blank-IsCoherent blank-IsDistinct
