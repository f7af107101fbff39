-- ===== src/Pmm/Held.antt =====
-- Any sequence of `pmm_alloc` and `pmm_free`, with the pages that are handed out.
use native.Mathlib.Decide.{ℕ_discrete}
use hexa_os_alpha_build.Base.{
  ℕ, ◌-◌, ◌*◌, ◌/◌, ◌<◌, ◌≡◌, refl, ◌≢◌, Bool, true, false, arith, update, update_self, update_ne,
  ◌∙◌, sym, ne→beq, eq→beq, ap, scan_first, lt→ltb,
}
use hexa_os_alpha_build.Pmm.{Pmm, is_free, take_page, pmm_alloc, pmm_free}
use hexa_os_alpha_build.Pmm.Alloc.{
  IsValid, Allocates, exhausted, page, pmm_alloc_lem, pmm_free_lem, is_free-clear,
}

-- The allocator, and the pages that callers hold.
pub record World : Type 0 where
  pub pmm : Pmm
  pub held : ℕ → Bool

pub data Step : World → World → Type 0 where
  fails : (w : World) → (pmm_alloc w.pmm).0 ≡ 0 → Step w (record w { pmm = (pmm_alloc w.pmm).1 })
  allocates :
      (w : World)
      → (pmm_alloc w.pmm).0 ≢ 0
      → Step w (record {
        pmm = (pmm_alloc w.pmm).1;
        held = update w.held ((pmm_alloc w.pmm).0 / 4096) true;
      })
  frees :
      (w : World) (addr : ℕ)
      → w.held (addr / 4096) ≡ true
      → Step w (record { pmm = pmm_free w.pmm addr; held = update w.held (addr / 4096) false })

pub data Reach (w : World) : World → Type 0 where
  start : Reach w w
  then_step : {u v : World} → Reach w u → Step u v → Reach w v

-- A page that is held is not page 0, and is not free.
pub record IsHeld (w : World) : Type 0 where
  pub valid : IsValid w.pmm
  pub apart : (j : ℕ) → w.held j ≡ true → (is_free w.pmm j ≡ false) × (0 < j)

-- An allocation does not return the address of a held page.
Allocates-fresh :
    (w : World) (j : ℕ) {r : ℕ × Pmm}
    → Allocates w.pmm r
    → IsHeld w
    → w.held j ≡ true
    → r.0 ≢ j * 4096
Allocates-fresh w j (exhausted _) h g e = omega (arith, (h.apart j g).1)
Allocates-fresh w j (page i pos l f all same) h g e =
    let same_page : i ≡ j = omega arith in
    absurd (cc ((h.apart j g).0, ap (is_free w.pmm) same_page, f))

allocates-IsHeld :
    (w : World) {r : ℕ × Pmm}
    → Allocates w.pmm r
    → IsValid r.1
    → IsHeld w
    → r.0 ≢ 0
    → IsHeld (record { pmm = r.1; held = update w.held (r.0 / 4096) true })
allocates-IsHeld w (exhausted _) v h ne = absurd (ne refl)
allocates-IsHeld w (page {u} i pos l f all same) v h ne =
    let e : i * 4096 / 4096 ≡ i = omega arith in
    record {
      valid = v;
      apart = λ j g. elim (ℕ_discrete i j) [
        | yes e' ↦ (all j ∙ rw (eq→beq i j e') refl, omega arith)
        | no ne' ↦
            let was = h.apart j (sym (update_ne w.held (i * 4096 / 4096) true j (rw e ne')) ∙ g) in
            (all j ∙ rw was.0 (ground arith), was.1)
      ];
    }

fails-IsHeld :
    (w : World) {r : ℕ × Pmm}
    → Allocates w.pmm r
    → IsHeld w
    → r.0 ≡ 0
    → IsHeld (record w { pmm = r.1 })
fails-IsHeld w (exhausted _) h e = h
fails-IsHeld w (page i pos l f all same) h e = absurd (omega arith)

frees-IsHeld :
    (w : World) (addr : ℕ)
    → IsHeld w
    → w.held (addr / 4096) ≡ true
    → IsHeld (record { pmm = pmm_free w.pmm addr; held = update w.held (addr / 4096) false })
frees-IsHeld w addr h g =
    let pos = (h.apart (addr / 4096) g).1 in
    let freed = pmm_free_lem w.pmm addr h.valid (omega arith) in
    record {
      valid = freed.1;
      apart = λ j g'. elim (ℕ_discrete (addr / 4096) j) [
        | yes e ↦
            let off : update w.held (addr / 4096) false j ≡ false =
              rw (← e) (update_self w.held (addr / 4096) false) in
            cc (off, g')
        | no ne ↦
            let was = h.apart j (sym (update_ne w.held (addr / 4096) false j ne) ∙ g') in
            (freed.0 j ∙ rw (was.0, ne→beq (addr / 4096) j ne) refl, was.1)
      ];
    }

Step-IsHeld : {w v : World} → Step w v → IsHeld w → IsHeld v
Step-IsHeld (fails w e) h = fails-IsHeld w (pmm_alloc_lem w.pmm h.valid).0 h e
Step-IsHeld (allocates w ne) h =
    let r = pmm_alloc_lem w.pmm h.valid in allocates-IsHeld w r.0 r.1 h ne
Step-IsHeld (frees w addr g) h = frees-IsHeld w addr h g

Reach-IsHeld : {w v : World} → Reach w v → IsHeld w → IsHeld v
Reach-IsHeld start h = h
Reach-IsHeld (then_step r s) h = Step-IsHeld s (Reach-IsHeld r h)

-- After any sequence of allocations and of frees of held pages, from a state in which no held page is
-- free: no held page is free, and `pmm_alloc` returns no address of a held page.
pub alloc-exclusive :
    {w v : World} (j : ℕ)
    → Reach w v
    → IsHeld w
    → v.held j ≡ true
    → (is_free v.pmm j ≡ false) × ((pmm_alloc v.pmm).0 ≢ j * 4096)
alloc-exclusive {w} {v} j r h e =
    let g = Reach-IsHeld r h in
    ((g.apart j e).0, Allocates-fresh v j (pmm_alloc_lem v.pmm g.valid).0 g e)

free_page_zero :
    (m : Pmm) (addr : ℕ)
    → IsValid m
    → addr < 4096
    → 0 < m.max_page
    → ((pmm_free m addr).last_alloc ≡ 0)
      × ((pmm_free m addr).max_page ≡ m.max_page)
      × (is_free (pmm_free m addr) 0 ≡ true)
unfolding pmm_free
free_page_zero m addr v l pos =
    let e : addr / 4096 ≡ 0 = omega arith in
    rw (e, lt→ltb 0 m.max_page pos) (ground arith, refl, is_free-clear m 0 0 v.bytes)

-- `pmm_free` of an address in page 0 makes that page free, and the next `pmm_alloc` takes it and
-- returns address 0, whatever other pages are free.
pub pmm_free_page_zero :
    (m : Pmm) (addr : ℕ)
    → IsValid m
    → addr < 4096
    → 0 < m.max_page
    → ((pmm_alloc (pmm_free m addr)).0 ≡ 0) × (is_free (pmm_free m addr) 0 ≡ true)
unfolding pmm_alloc take_page
pmm_free_page_zero m addr v l pos =
    let u = pmm_free m addr in
    let f = free_page_zero m addr v l pos in
    let found =
      scan_first (u.max_page - u.last_alloc) u.last_alloc (is_free u) {j = u.max_page} 0
        (omega (arith, f))
        (record {
          from = omega (arith, f);
          before = omega (arith, f);
          hit = f.2;
          first = λ k h h'. absurd (omega arith);
        }) in
    (rw (found, pmm_alloc) refl, f.2)
