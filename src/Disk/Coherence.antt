-- ===== src/Disk/Coherence.antt =====
-- Through the cache, a client sees the disk.
use native.Mathlib.Decide.{ℕ_discrete}
use hexa_os_alpha_build.Base.{
  ℕ, ◌<◌, ◌≡◌, refl, ◌≢◌, true, false, Option, none, some, arith, update, update_self, update_ne,
  ap, sym, ◌∙◌, ◌⊎◌, inl, inr, scan_cases, ◌==◌, subst,
}
use hexa_os_alpha_build.Disk.{
  Ata, IsDriver, Sector, Slot, Cache, cache_find, cache_evict, cache_fill, cache_read, write_slot,
  cache_write,
}

-- No sector but 0 is in two slots.
abbrev pub IsDistinct : Cache → Type 0
IsDistinct c = (i j : ℕ) → i < 16 → j < 16 → (c i).lba ≢ 0 → (c i).lba ≡ (c j).lba → i ≡ j

evict-lt : (c : Cache) → cache_evict c < 16
unfolding cache_evict
evict-lt c = elim (scan_cases 16 0 (λ i. (c i).lba == 0) refl) [
  | inl (e, _) ↦ rw (e, cache_evict) (omega arith)
  | inr (i, e, f) ↦ rw (e, cache_evict) f.before
]

find_cases :
    (c : Cache) (lba : ℕ)
    → ((cache_find c lba ≡ none) × ((i : ℕ) → i < 16 → (c i).lba ≢ lba))
      ⊎ ((i : ℕ) × (cache_find c lba ≡ some i) × (i < 16) × ((c i).lba ≡ lba))
unfolding cache_find
find_cases c lba = elim (scan_cases 16 0 (λ i. (c i).lba == lba) refl) [
  | inl (e, none_of) ↦ inl (rw (e, cache_find), λ i l q. ground (arith, none_of i (omega arith) l))
  | inr (i, e, f) ↦ inr (i, rw (e, cache_find), f.before, ground (arith, f.hit))
]

-- A sector written into a slot that held it, or into any slot where none held it.
update-IsDistinct :
    (c : Cache) (k : ℕ) (s : Slot)
    → k < 16
    → ((i : ℕ) → i < 16 → (c i).lba ≡ s.lba → i ≡ k)
    → IsDistinct c
    → IsDistinct (update c k s)
update-IsDistinct c k s l only d i j li lj ne e = elim (ℕ_discrete k i) [
  | yes p ↦ elim (ℕ_discrete k j) [
    | yes q ↦ sym p ∙ q
    | no q ↦
        let at : update c k s i ≡ s = rw (← p) (update_self c k s) in
        sym p
        ∙ sym (
            only j lj (
              ap (λ (t : Slot). t.lba) (sym (update_ne c k s j q))
              ∙ sym e
              ∙ ap (λ (t : Slot). t.lba) at))
  ]
  | no p ↦ elim (ℕ_discrete k j) [
    | yes q ↦
        let at : update c k s j ≡ s = rw (← q) (update_self c k s) in
        only i li
          (ap (λ (t : Slot). t.lba) (sym (update_ne c k s i p)) ∙ e ∙ ap (λ (t : Slot). t.lba) at)
        ∙ q
    | no q ↦
        let a = ap (λ (t : Slot). t.lba) (update_ne c k s i p) in
        let b = ap (λ (t : Slot). t.lba) (update_ne c k s j q) in
        d i j li lj (λ z. ne (a ∙ z)) (sym a ∙ e ∙ b)
  ]
]

module _ (ata : Ata) where
  -- Every slot in use holds what the disk holds.
  abbrev pub IsCoherent : Cache → ata.Disk → Type 0
  IsCoherent c d = (i : ℕ) → i < 16 → (c i).lba ≢ 0 → ata.read d (c i).lba ≡ some (c i).data_bytes

  cache_fill_lem :
      (c : Cache) (d : ata.Disk) (lba : ℕ) (r : Option Sector)
      → ((i : ℕ) → i < 16 → (c i).lba ≢ lba)
      → ata.read d lba ≡ r
      → IsCoherent c d
      → IsDistinct c
      → ((cache_fill ata c lba r).0 ≡ ata.read d lba)
        × IsCoherent (cache_fill ata c lba r).1 d
        × IsDistinct (cache_fill ata c lba r).1
  unfolding cache_fill
  cache_fill_lem c d lba none miss e coh dis = (sym e, coh, dis)
  cache_fill_lem c d lba (some s) miss e coh dis =
      let k = cache_evict c in
      let t : Slot = record { lba = lba; dirty = false; data_bytes = s } in
      (
        sym e,
        λ i l ne. elim (ℕ_discrete k i) [
          | yes p ↦
              let at : update c k t i ≡ t = rw (← p) (update_self c k t) in
              ap (λ (u : Slot). ata.read d u.lba) at
              ∙ e
              ∙ ap (λ (u : Slot). some u.data_bytes) (sym at)
          | no p ↦
              let at = update_ne c k t i p in
              ap (λ (u : Slot). ata.read d u.lba) at
              ∙ coh i l (λ z. ne (ap (λ (u : Slot). u.lba) at ∙ z))
              ∙ ap (λ (u : Slot). some u.data_bytes) (sym at)
        ],
        update-IsDistinct c k t (evict-lt c) (λ i l q. absurd (miss i l q)) dis,
      )

  -- `cache_read` of a sector but 0 gives what the driver would give, from a slot or from the disk, and
  -- every slot in use still holds what the disk holds.
  pub cache_read_lem :
      (c : Cache) (d : ata.Disk) (lba : ℕ)
      → lba ≢ 0
      → IsCoherent c d
      → IsDistinct c
      → ((cache_read ata c d lba).0 ≡ ata.read d lba)
        × IsCoherent (cache_read ata c d lba).1 d
        × IsDistinct (cache_read ata c d lba).1
  unfolding cache_read
  cache_read_lem c d lba ne coh dis = elim (find_cases c lba) [
    | inl (e, miss) ↦ rw (e, cache_read) (cache_fill_lem c d lba (ata.read d lba) miss refl coh dis)
    | inr (i, e, l, hit) ↦
        rw (e, cache_read)
          (
            sym (
                subst (λ m. ata.read d m ≡ some (c i).data_bytes) hit
                  (coh i l (λ z. ne (sym hit ∙ z)))),
            coh,
            dis,
          )
  ]

  write_slot_lem :
      (c : Cache) (lba : ℕ)
      → lba ≢ 0
      → IsDistinct c
      → (write_slot ata c lba < 16)
        × ((i : ℕ) → i < 16 → (c i).lba ≡ lba → i ≡ write_slot ata c lba)
  unfolding write_slot
  write_slot_lem c lba ne dis = elim (find_cases c lba) [
    | inl (e, miss) ↦ rw (e, write_slot) (evict-lt c, λ i l q. absurd (miss i l q))
    | inr (i, e, l, hit) ↦
        rw (e, write_slot) (l, λ j l' q. dis j i l' l (λ z. ne (sym q ∙ z)) (q ∙ sym hit))
  ]

  -- `cache_write` of a sector but 0 that the driver takes succeeds and leaves the disk as the driver
  -- leaves it. No sector is in two slots, and every slot in use holds what the disk then holds: what is
  -- read next is what was written.
  pub cache_write_lem :
      (c : Cache) (d : ata.Disk) (lba : ℕ) (s : Sector)
      → IsDriver ata
      → lba ≢ 0
      → (ata.write d lba s).0 ≡ true
      → IsCoherent c d
      → IsDistinct c
      → let (ok, c', d') = cache_write ata c d lba s in
        (ok ≡ true)
        × IsCoherent c' d'
        × IsDistinct c'
        × ((cache_read ata c' d' lba).0 ≡ some s)
        × (d' ≡ (ata.write d lba s).1)
  unfolding cache_write
  cache_write_lem c d lba s drv ne ok coh dis =
      let k = write_slot ata c lba in
      let w = write_slot_lem c lba ne dis in
      let t : Slot = record { lba = lba; dirty = true; data_bytes = s } in
      let d' = (ata.write d lba s).1 in
      let dis' = update-IsDistinct c k t w.0 w.1 dis in
      let coh' : IsCoherent (update c k t) d' = λ i l z. elim (ℕ_discrete k i) [
        | yes p ↦
            let at : update c k t i ≡ t = rw (← p) (update_self c k t) in
            ap (λ (u : Slot). ata.read d' u.lba) at
            ∙ drv.back d lba s ok
            ∙ ap (λ (u : Slot). some u.data_bytes) (sym at)
        | no p ↦
            let at = update_ne c k t i p in
            ap (λ (u : Slot). ata.read d' u.lba) at
            ∙ drv.others d lba s (c i).lba (λ q. p (sym (w.1 i l (sym q))))
            ∙ coh i l (λ q. z (ap (λ (u : Slot). u.lba) at ∙ q))
            ∙ ap (λ (u : Slot). some u.data_bytes) (sym at)
      ] in
      (
        ok,
        coh',
        dis',
        (cache_read_lem (update c k t) d' lba ne coh' dis').0 ∙ drv.back d lba s ok,
        refl,
      )
