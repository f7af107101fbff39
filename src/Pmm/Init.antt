-- ===== src/Pmm/Init.antt =====
-- The state that `pmm_init` leaves.
use hexa_os_alpha_build.Base.{
  ℕ, ◌+◌, ◌-◌, ◌/◌, ◌%◌, ◌≤◌, ◌≡◌, not, ◌&&◌, ◌||◌, arith, ◌==◌, ltb, leb, if◌then◌else◌, ◌∙◌,
}
use hexa_os_alpha_build.Base.Bits.{test_bit-ones}
use hexa_os_alpha_build.Bitmap.{
  bit_at, set_at, IsBytes, within, set_range, clear_range, set_at-IsBytes, set_range-IsBytes,
  clear_range-IsBytes, bit_at-set_at, bit_at-set_range, bit_at-clear_range,
}
use hexa_os_alpha_build.Pmm.{pmm_max_mem, page_size, is_free, kernel_pages_of, pmm_init}
use hexa_os_alpha_build.Pmm.Alloc.{IsValid}

ones-IsBytes : IsBytes (λ _. 0xFF)
ones-IsBytes j = omega arith

-- The bitmap that `pmm_init` builds, for any bounds of the range that it clears.
cleared_then_set :
    (n k j : ℕ)
    → bit_at (set_range 0x60 0xA0 (set_at (clear_range n k (λ _. 0xFF)) 0)) j
      ≡ (within 0xA0 0x100 j || (j == 0 || not (within k (k + n) j)))
cleared_then_set n k j =
    bit_at-set_range 0x60 0xA0 _ j (set_at-IsBytes _ 0 (clear_range-IsBytes n k _ ones-IsBytes))
    ∙ rw
        (
          bit_at-set_at (clear_range n k (λ _. 0xFF)) 0 j (clear_range-IsBytes n k _ ones-IsBytes),
          bit_at-clear_range n k (λ _. 0xFF) j ones-IsBytes,
          test_bit-ones (j % 8) (omega arith),
        )
        (ground arith)

kernel_pages-le : (top kernel_end : ℕ) → kernel_pages_of top kernel_end ≤ top / page_size
unfolding kernel_pages_of
kernel_pages-le top kernel_end = ground arith

free_after_init :
    (top kernel_end j : ℕ)
    → not (
        within 0xA0 0x100 j
        || (j == 0
            || not (
                within
                  (kernel_pages_of top kernel_end)
                  (kernel_pages_of top kernel_end
                    + (top / page_size - kernel_pages_of top kernel_end))
                  j)))
      ≡ (((leb ((kernel_end + 4095) / 4096) j && ltb j (top / page_size)) && not (j == 0))
          && not (within 0xA0 0x100 j))
unfolding kernel_pages_of
free_after_init top kernel_end j = ground arith

-- After `pmm_init` on `mem_size` bytes, a page is free exactly where it lies between the kernel's last
-- page, rounded up, and the end of the memory, cut at 32 MiB, and is neither page 0 nor one of the
-- pages from 0xA0 up to 0xFF. The allocator is well formed, and its first search begins behind the
-- kernel.
pub pmm_init_lem :
    (mem_size kernel_end : ℕ)
    → ((j : ℕ)
        → is_free (pmm_init mem_size kernel_end) j ≡ (
            ((leb ((kernel_end + 4095) / 4096) j && ltb j (pmm_init mem_size kernel_end).max_page)
              && not (j == 0))
            && not (within 0xA0 0x100 j)))
      × IsValid (pmm_init mem_size kernel_end)
unfolding pmm_init
pmm_init_lem mem_size kernel_end =
    let top = if ltb pmm_max_mem mem_size then pmm_max_mem else mem_size in
    let k = kernel_pages_of top kernel_end in
    let n = top / page_size - k in
    let le = kernel_pages-le top kernel_end in
    let small : top ≤ pmm_max_mem = ground arith in
    (
      λ j. rw (cleared_then_set n k j) (free_after_init top kernel_end j),
      record {
        bytes =
            set_range-IsBytes 0x60 0xA0 _
              (set_at-IsBytes _ 0 (clear_range-IsBytes n k _ ones-IsBytes));
        pages = omega arith;
        hint = le;
        reserved = rw (cleared_then_set n k 0) (ground arith);
      },
    )
