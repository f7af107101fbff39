-- ===== src/Pmm.antt =====
-- The physical page allocator of paging.c. Addresses and page numbers are `uint32_t`; a page number
-- stays below 8192, so `i * PAGE_SIZE` does not wrap.
pub mod Alloc
pub mod Init
pub mod Held
mod Tests
use hexa_os_alpha_build.Base.{
  ℕ, zero, suc, ◌+◌, ◌-◌, ◌*◌, ◌/◌, ◌%◌, Bool, true, false, not, Option, none, some, update, ◌==◌,
  ltb, leb, if◌then◌else◌, scan,
}
use hexa_os_alpha_build.Base.Count.{count}
use hexa_os_alpha_build.Bitmap.{bit_at, set_at, clear_at, set_range, clear_range}

abbrev pub page_size : ℕ
page_size = 4096

-- PMM_MAX_MEM, 32 MiB
abbrev pub pmm_max_mem : ℕ
pmm_max_mem = 33554432

abbrev pub pmm_page_cnt : ℕ
pmm_page_cnt = 8192

pub record Pmm : Type 0 where
  pub bitmap : ℕ → ℕ
  pub max_page : ℕ
  pub last_alloc : ℕ

-- The test of both loops of `pmm_alloc`.
abbrev pub is_free : Pmm → ℕ → Bool
is_free m i = not (bit_at m.bitmap i)

-- The number of kernel pages, rounded up and cut at the end of memory.
pub kernel_pages_of : ℕ → ℕ → ℕ
kernel_pages_of top kernel_end =
    let pages = kernel_end / page_size + (if kernel_end % page_size == 0 then 0 else 1) in
    if ltb (top / page_size) pages then top / page_size else pages

-- `pmm_init`
pub pmm_init : ℕ → ℕ → Pmm
pmm_init mem_size kernel_end =
    let top = if ltb pmm_max_mem mem_size then pmm_max_mem else mem_size in
    let max_page = top / page_size in
    let kernel_pages = kernel_pages_of top kernel_end in
    let cleared = clear_range (max_page - kernel_pages) kernel_pages (λ _. 0xFF) in
    record {
      bitmap = set_range 0x60 0xA0 (set_at cleared 0);
      max_page = max_page;
      last_alloc = kernel_pages;
    }

-- The body of both loops, at the page that they find.
pub take_page : Pmm → ℕ → ℕ × Pmm
take_page m i = (i * page_size, record m { bitmap = set_at m.bitmap i; last_alloc = i + 1 })

-- `pmm_alloc`: the address, or 0 where it finds no page.
pub pmm_alloc : Pmm → ℕ × Pmm
pmm_alloc m = elim (scan (m.max_page - m.last_alloc) m.last_alloc (is_free m)) [
  | some i ↦ take_page m i
  | none ↦ elim (scan (m.last_alloc - 1) 1 (is_free m)) [ some i ↦ take_page m i | none ↦ (0, m) ]
]

pub pmm_free : Pmm → ℕ → Pmm
pmm_free m addr =
    let page = addr / page_size in
    if ltb page m.max_page
    then record m {
      bitmap = clear_at m.bitmap page;
      last_alloc = if ltb page m.last_alloc then page else m.last_alloc;
    }
    else m

-- `pmm_count_free`: the loop starts at page 1.
pub pmm_count_free : Pmm → ℕ
pmm_count_free m = count (m.max_page - 1) (λ i. is_free m (i + 1))
