-- ===== src/Heap.antt =====
-- The kernel heap of paging.c: `kheap_init`, `kmalloc` and `kfree`. The headers are kept as the list
-- that `heap_first` and the `next` fields make, each with the address it stands at. The page tables
-- behind the heap are not modelled.
pub mod Tiling
pub mod Malloc
pub mod Merge
pub mod Free
mod Tests
use hexa_os_alpha_build.Base.{
  ℕ, ◌+◌, ◌-◌, ◌*◌, ◌/◌, ◌%◌, ◌^◌, Bool, true, false, ◌&&◌, List, [], ◌∷◌, Option, none, some, ltb,
  leb, ◌==◌, if◌then◌else◌,
}

-- `heap_block_t`, of 12 bytes
pub record Block : Type 0 where
  pub addr : ℕ
  pub size : ℕ
  pub free : Bool

abbrev pub heap_start : ℕ
heap_start = 0x800000

abbrev pub heap_init_size : ℕ
heap_init_size = 1048576

-- The list that `kheap_init` makes.
abbrev pub kheap_init : List Block
kheap_init = record { addr = heap_start; size = heap_init_size - 12; free = true } ∷ []

-- (size + 3) & ~3, on 32 bits
pub round_up : ℕ → ℕ
round_up size = (size + 3) % 2 ^ 32 / 4 * 4

-- What becomes of the block that the search finds: it is cut where more than a header and four bytes
-- remain.
pub take_block : ℕ → Block → List Block → List Block
take_block size b bs =
    if ltb ((size + 16) % 2 ^ 32) b.size
    then record b { size = size; free = false }
      ∷ record {
        addr = (b.addr + 12 + size) % 2 ^ 32;
        size = (b.size + 2 ^ 33 - (size + 12)) % 2 ^ 32;
        free = true;
      }
      ∷ bs
    else record b { free = false } ∷ bs

-- The loop of `kmalloc`: the pointer, and the list.
pub first_fit : ℕ → List Block → Option (ℕ × List Block)
first_fit size [] = none
first_fit size (b ∷ bs) =
    let rest = first_fit size bs in
    if b.free && leb size b.size
    then some (b.addr + 12, take_block size b bs)
    else elim rest [ none ↦ none | some (p, bs') ↦ some (p, b ∷ bs') ]

-- `kmalloc`: the pointer, or 0.
pub kmalloc : List Block → ℕ → ℕ × List Block
kmalloc h size =
    if size == 0 then (0, h) else elim (first_fit (round_up size) h) [ none ↦ (0, h) | some r ↦ r ]

-- The merge of a block with its successor, where that is free.
pub merge_next : Block → List Block → List Block
merge_next b [] = b ∷ []
merge_next b (c ∷ bs) =
    if c.free then record b { size = (b.size + (12 + c.size)) % 2 ^ 32 } ∷ bs else b ∷ c ∷ bs

-- The first half of `kfree` for the block at `a`; `none` where there is no block.
pub release : ℕ → List Block → Option (List Block)
release a [] = none
release a (b ∷ bs) =
    let rest = release a bs in
    if b.addr == a
    then some (merge_next (record b { free = true }) bs)
    else elim rest [ none ↦ none | some bs' ↦ some (b ∷ bs') ]

-- The second half: the predecessor of the block at `a` takes it in, where that is free.
pub merge_previous : ℕ → List Block → List Block
merge_previous a [] = []
merge_previous a (p ∷ []) = p ∷ []
merge_previous a (p ∷ b ∷ bs) =
    let rest = merge_previous a (b ∷ bs) in
    if b.addr == a
    then (if p.free then record p { size = (p.size + (12 + b.size)) % 2 ^ 32 } ∷ bs else p ∷ b ∷ bs)
    else p ∷ rest

-- Both halves, for the block at `a`.
pub free_at : ℕ → List Block → Option (List Block)
free_at a h = elim (release a h) [ none ↦ none | some h' ↦ some (merge_previous a h') ]

-- `kfree`; `none` where no block stands in front of the pointer, and the code would write outside
-- the list.
pub kfree : List Block → ℕ → Option (List Block)
kfree h ptr = if ptr == 0 then some h else free_at ((ptr + 2 ^ 32 - 12) % 2 ^ 32) h
