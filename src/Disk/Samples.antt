-- ===== src/Disk/Samples.antt =====
-- A driver that never fails, for the tests.
use hexa_os_alpha_build.Base.{ℕ, ap, true, some, update, update_self, update_ne}
use hexa_os_alpha_build.Disk.{Ata, IsDriver, Sector, Cache, blank_slot}

abbrev pub memory_disk : Ata
memory_disk = record {
  Disk = ℕ → Sector;
  read = λ d lba. some (d lba);
  write = λ d lba s. (true, update d lba s);
}

pub memory_disk-IsDriver : IsDriver memory_disk
memory_disk-IsDriver = record {
  back = λ d lba s ok. ap some (update_self d lba s);
  others = λ d lba s m ne. ap some (update_ne d lba s m ne);
}

-- Sector `n` holds the byte `n` everywhere.
abbrev pub numbered : ℕ → Sector
numbered n = λ _. n

abbrev pub blank_cache : Cache
blank_cache = λ _. blank_slot
