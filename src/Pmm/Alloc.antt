-- ===== src/Pmm/Alloc.antt =====
-- What `pmm_alloc` and `pmm_free` do to the set of free pages.
use native.Mathlib.Decide.{ℕ_discrete, dec_lt}
use hexa_os_alpha_build.Base.{
  ℕ, ◌+◌, ◌-◌, ◌*◌, ◌/◌, ◌≤◌, ◌<◌, ◌≡◌, refl, ◌≢◌, true, false, not, ◌&&◌, ◌||◌, arith, inl, inr,
  scan_cases, NoneOf, ltb, ◌==◌, ◌∙◌, ne→beq, lt→ltb, le→ltb, subst,
}
use hexa_os_alpha_build.Base.Count.{count_change}
use hexa_os_alpha_build.Bitmap.{
  bit_at, set_at, clear_at, IsBytes, set_at-IsBytes, clear_at-IsBytes, bit_at-set_at,
  bit_at-clear_at,
}
use hexa_os_alpha_build.Pmm.{
  Pmm, pmm_page_cnt, is_free, take_page, pmm_alloc, pmm_free, pmm_count_free,
}

-- The bitmap holds bytes, the hint lies within the pages, and page 0 is in use.
pub record IsValid (m : Pmm) : Type 0 where
  pub bytes : IsBytes m.bitmap
  pub pages : m.max_page ≤ pmm_page_cnt
  pub hint : m.last_alloc ≤ m.max_page
  pub reserved : is_free m 0 ≡ false

-- How `pmm_alloc` ends: with 0, where no page but perhaps page 0 is free; or with the address of a
-- page that was free and now is not, and no other page has changed.
pub data Allocates (m : Pmm) : ℕ × Pmm → Type 0 where
  exhausted : NoneOf (is_free m) 1 m.max_page → Allocates m (0, m)
  page :
      {u : Pmm} (i : ℕ)
      → 0 < i
      → i < m.max_page
      → is_free m i ≡ true
      → ((j : ℕ) → is_free u j ≡ (not (i == j) && is_free m j))
      → u.max_page ≡ m.max_page
      → Allocates m (i * 4096, u)

is_free-set :
    (m : Pmm) (i j : ℕ)
    → IsBytes m.bitmap
    → not (bit_at (set_at m.bitmap i) j) ≡ (not (i == j) && is_free m j)
is_free-set m i j v = rw (bit_at-set_at m.bitmap i j v) (ground arith)

pub is_free-clear :
    (m : Pmm) (i j : ℕ)
    → IsBytes m.bitmap
    → not (bit_at (clear_at m.bitmap i) j) ≡ (i == j || is_free m j)
is_free-clear m i j v = rw (bit_at-clear_at m.bitmap i j v) (ground arith)

free-pos : (m : Pmm) (i : ℕ) → IsValid m → is_free m i ≡ true → 0 < i
free-pos m i v f = elim (ℕ_discrete i 0) [
  | yes e ↦ cc (v.reserved, subst (λ j. is_free m j ≡ true) e f)
  | no ne ↦ omega arith
]

take_page-Allocates :
    (m : Pmm) (i : ℕ)
    → IsValid m
    → i < m.max_page
    → is_free m i ≡ true
    → Allocates m (take_page m i) × IsValid (take_page m i).1
unfolding take_page
take_page-Allocates m i v l f = (
  page i (free-pos m i v f) l f (λ j. is_free-set m i j v.bytes) refl,
  record {
    bytes = set_at-IsBytes m.bitmap i v.bytes;
    pages = v.pages;
    hint = omega arith;
    reserved = is_free-set m i 0 v.bytes ∙ rw v.reserved (ground arith);
  },
)

-- `pmm_alloc` returns 0 only where every page from 1 on is in use. Otherwise it returns the address of
-- a page that was free, marks that page and no other, and keeps the allocator well formed.
pub pmm_alloc_lem : (m : Pmm) → IsValid m → Allocates m (pmm_alloc m) × IsValid (pmm_alloc m).1
unfolding pmm_alloc
pmm_alloc_lem m v =
    elim (scan_cases (m.max_page - m.last_alloc) m.last_alloc (is_free m) {j = m.max_page}
      (omega (arith, v.hint))) [
        | inr (i, e, f) ↦ rw (e, pmm_alloc) (take_page-Allocates m i v f.before f.hit)
        | inl (e, none_of) ↦ elim (scan_cases (m.last_alloc - 1) 1 (is_free m) refl) [
          | inr (i, e', f) ↦
              rw (e, pmm_alloc)
                (rw e' (take_page-Allocates m i v (omega (arith, v.hint, f.before, f.from)) f.hit))
          | inl (e', none_of') ↦
              rw (e, pmm_alloc)
                (rw e' (
                  exhausted (λ k l l'. elim (dec_lt k m.last_alloc) [
                    | yes lt ↦ none_of' k l (omega arith)
                    | no ge ↦ none_of k (omega arith) l'
                  ]),
                  v,
                ))
        ]
      ]

-- `pmm_free` of an address behind page 0 frees its page, where that exists, and no other, and keeps
-- the allocator well formed.
pub pmm_free_lem :
    (m : Pmm) (addr : ℕ)
    → IsValid m
    → 4096 ≤ addr
    → ((j : ℕ)
        → is_free (pmm_free m addr) j ≡ ((addr / 4096 == j && ltb j m.max_page) || is_free m j))
      × IsValid (pmm_free m addr)
unfolding pmm_free
pmm_free_lem m addr v h = elim (dec_lt (addr / 4096) m.max_page) [
  | yes lt ↦
      let page = addr / 4096 in
      rw (lt→ltb page m.max_page lt) (
        λ j. is_free-clear m page j v.bytes ∙ ground arith,
        record {
          bytes = clear_at-IsBytes m.bitmap page v.bytes;
          pages = v.pages;
          hint = ground (arith, v.hint);
          reserved = is_free-clear m page 0 v.bytes ∙ ground (arith, v.reserved);
        },
      )
  | no ge ↦ rw (le→ltb (addr / 4096) m.max_page (omega arith)) (λ j. ground arith, v)
]

-- One allocation takes one page from `pmm_count_free`.
pub count_free-Allocates :
    (m : Pmm) {r : ℕ × Pmm} → Allocates m r → r.0 ≢ 0 → pmm_count_free r.1 + 1 ≡ pmm_count_free m
unfolding pmm_count_free
count_free-Allocates m (exhausted _) ne = absurd (ne refl)
count_free-Allocates m (page {u} i pos l f all same) ne =
    let p = λ (x : ℕ). is_free u (x + 1) in
    let q = λ (x : ℕ). is_free m (x + 1) in
    let e : i - 1 + 1 ≡ i = omega arith in
    let after : p (i - 1) ≡ false = rw (e, all i) (ground arith) in
    let before : q (i - 1) ≡ true = rw e f in
    let c =
      count_change (m.max_page - 1) p q (i - 1) (omega arith)
        (λ j _ ne'. rw (all (j + 1), ne→beq i (j + 1) (omega arith)) refl) in
    rw same (ground (arith, c, after, before))
