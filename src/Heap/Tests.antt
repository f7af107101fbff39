-- ===== src/Heap/Tests.antt =====
-- The heap that `kheap_init` makes, and one with a block in use.
use hexa_os_alpha_build.Base.{◌+◌, ◌≡◌, refl, arith, true, false, List, [], ◌∷◌, some}
use hexa_os_alpha_build.Heap.{Block, kheap_init, kmalloc, kfree, round_up, first_fit}
use hexa_os_alpha_build.Heap.Tiling.{IsTiled, IsMerged}
use hexa_os_alpha_build.Heap.Malloc.{Mallocs, kmalloc_lem}
use hexa_os_alpha_build.Heap.Free.{Freed, kfree_lem, kfree-kmalloc}

-- The heap's addresses: 0x800000 up to 0x900000.
init-IsTiled : IsTiled 8388608 9437184 kheap_init
init-IsTiled = (refl, refl)

init-IsMerged : IsMerged false kheap_init
init-IsMerged = (λ e. absurd (ground arith), refl)

kmalloc_lem_example : Mallocs 10 8388608 9437184 kheap_init (kmalloc kheap_init 10)
kmalloc_lem_example =
    kmalloc_lem kheap_init 10 8388608 9437184 init-IsTiled init-IsMerged (omega arith) (omega arith)
      (omega arith)

kmalloc_ten : (kmalloc kheap_init 10).0 ≡ 8388620
unfolding kmalloc first_fit round_up
kmalloc_ten = refl

kfree-kmalloc_example :
    (u : List Block) × (kfree (kmalloc kheap_init 10).1 (kmalloc kheap_init 10).0 ≡ some u)
    × Freed 8388608 9437184 [] u
kfree-kmalloc_example =
    kfree-kmalloc kheap_init 10 8388608 9437184 init-IsTiled init-IsMerged (omega arith)
      (omega arith) (omega arith) (omega (arith, kmalloc_ten))

-- Free, in use, free: 100, 200 and 36 bytes from 1000 on.
abbrev mixed : List Block
mixed =
    record { addr = 1000; size = 100; free = true }
    ∷ record { addr = 1112; size = 200; free = false }
    ∷ record { addr = 1324; size = 36; free = true }
    ∷ []

mixed-IsTiled : IsTiled 1000 1372 mixed
mixed-IsTiled = (refl, (refl, (refl, refl)))

mixed-IsMerged : IsMerged false mixed
mixed-IsMerged = (λ e. absurd (ground arith), (λ e. refl, (λ e. absurd (ground arith), refl)))

kfree_lem_example : (u : List Block) × (kfree mixed (1112 + 12) ≡ some u) × Freed 1000 1372 [] u
kfree_lem_example =
    kfree_lem mixed [] [] 1112 200 1000 1372 mixed-IsTiled mixed-IsMerged (omega arith) refl
