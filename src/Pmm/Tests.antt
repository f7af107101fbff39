-- ===== src/Pmm/Tests.antt =====
-- The page allocator on a small memory.
use hexa_os_alpha_build.Base.{◌*◌, ◌/◌, ◌≡◌, ◌≢◌, refl, arith, true, false, scan, update}
use hexa_os_alpha_build.Base.Bits.{test_bit}
use hexa_os_alpha_build.Pmm.{Pmm, is_free, take_page, pmm_init, pmm_alloc}
use hexa_os_alpha_build.Pmm.Alloc.{IsValid}
use hexa_os_alpha_build.Pmm.Init.{pmm_init_lem}
use hexa_os_alpha_build.Pmm.Held.{World, start, then_step, allocates, IsHeld, alloc-exclusive}

-- 64 pages, 8 of them the kernel's.
abbrev small : Pmm
small = pmm_init 262144 32768

small-IsValid : IsValid small
small-IsValid = (pmm_init_lem 262144 32768).1

-- The first allocation takes page 8.
abbrev tiny : Pmm
tiny = record { bitmap = λ _. 0x01; max_page = 8; last_alloc = 1 }

tiny-IsValid : IsValid tiny
unfolding test_bit
tiny-IsValid = record {
  bytes = λ j. omega arith;
  pages = omega arith;
  hint = omega arith;
  reserved = refl;
}

tiny_first : (pmm_alloc tiny).0 ≡ 4096
unfolding pmm_alloc take_page scan test_bit
tiny_first = refl

tiny_nonzero : (pmm_alloc tiny).0 ≢ 0
tiny_nonzero = omega (arith, tiny_first)

abbrev before : World
before = record { pmm = tiny; held = λ _. false }

before-IsHeld : IsHeld before
before-IsHeld = record { valid = tiny-IsValid; apart = λ j e. absurd (ground arith) }

abbrev after : World
after = record {
  pmm = (pmm_alloc tiny).1;
  held = update (λ _. false) ((pmm_alloc tiny).0 / 4096) true;
}

holds_one : after.held 1 ≡ true
unfolding pmm_alloc take_page scan test_bit
holds_one = refl

alloc-exclusive_example :
    (is_free (pmm_alloc tiny).1 1 ≡ false) × ((pmm_alloc (pmm_alloc tiny).1).0 ≢ 1 * 4096)
alloc-exclusive_example =
    alloc-exclusive {w = before} {v = after} 1 (then_step start (allocates before tiny_nonzero))
      before-IsHeld holds_one
