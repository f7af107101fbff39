-- ===== src/Store/Snapshots/Found.antt =====
-- A snapshot that was created is found by its name, before every older one.
use hexa_os_alpha_build.Base.{
  ℕ, zero, suc, ◌+◌, ◌^◌, ◌≤◌, ◌<◌, ◌≡◌, ◌≢◌, refl, ◌∙◌, arith, inr, true, false, not, ◌||◌, some,
  List, [], ◌∷◌, ◌==◌, if◌then◌else◌, ne→beq, eq→beq,
}
use hexa_os_alpha_build.Base.Lists.{length}
use hexa_os_alpha_build.Disk.{Ata, IsDriver, Sector, Cache}
use hexa_os_alpha_build.Disk.Coherence.{IsCoherent, IsDistinct, cache_write_lem}
use hexa_os_alpha_build.Blocks.{Blocks, is_free_block, zero_sector}
use hexa_os_alpha_build.Blocks.Alloc.{IsValid, Gives, exhausted, block, hexafs_alloc_block_lem}
use hexa_os_alpha_build.Struct.{
  read32, write32, write32_outside, read32-write32, read32-write32_other, read32-eq,
}
use hexa_os_alpha_build.Superblock.{root_snap_at, timestamp_at}
use hexa_os_alpha_build.Store.{Store, block_read, block_write, alloc_block}
use hexa_os_alpha_build.Store.Snapshots.{
  snap_magic, parent_at, root_object_at, name_at, put_name, build_snap, same_name, snap_written,
  snap_allocated, hexafs_snap_create, visit, find_snap, hexafs_snap_find, is_given,
}

put_name_before :
    (n i : ℕ) (name : List ℕ) (s : Sector) (k : ℕ) → k < i → put_name n i name s k ≡ s k
unfolding put_name
put_name_before zero i name s k h = refl
put_name_before (suc n) i [] s k h = refl
put_name_before (suc n) i (c ∷ cs) s k h =
    put_name_before n (i + 1) cs (λ j. if j == i then c else s j) k (omega arith)
    ∙ rw (ne→beq k i (omega arith)) refl

-- A field that holds a name, as the sector `t` has it.
same-put_name :
    (n i : ℕ) (name : List ℕ) (s t : Sector)
    → length name ≤ n
    → ((k : ℕ) → i ≤ k → s k ≡ 0)
    → ((k : ℕ) → i ≤ k → k < i + suc n → t k ≡ put_name n i name s k)
    → same_name (suc n) i name t ≡ true
unfolding same_name put_name
same-put_name zero i [] s t h blank same =
    eq→beq (t i) 0 (same i (omega arith) (omega arith) ∙ blank i (omega arith))
same-put_name (suc n) i [] s t h blank same =
    eq→beq (t i) 0 (same i (omega arith) (omega arith) ∙ blank i (omega arith))
same-put_name zero i (c ∷ cs) s t h blank same = absurd (omega arith)
same-put_name (suc n) i (c ∷ cs) s t h blank same =
    let s' = λ (j : ℕ). if j == i then c else s j in
    let first : t i ≡ c =
      same i (omega arith) (omega arith)
      ∙ put_name_before n (i + 1) cs s' i (omega arith)
      ∙ rw (eq→beq i i refl) refl in
    let rest =
      same-put_name n (i + 1) cs s' t (omega arith)
        (λ k l. rw (ne→beq k i (omega arith)) (blank k (omega arith)))
        (λ k l l'. same k (omega arith) (omega arith)) in
    rw (eq→beq (t i) c first) rest

read32-put_name :
    (n i : ℕ) (name : List ℕ) (s : Sector) (at : ℕ)
    → at + 4 ≤ i
    → read32 (put_name n i name s) at ≡ read32 s at
read32-put_name n i name s at h =
    read32-eq (put_name n i name s) s at (λ k _ l. put_name_before n i name s k (omega arith))

-- What a sector says as a snapshot: its parent, its root object and its name.
pub record IsSnapshot (parent root : ℕ) (name : List ℕ) (s : Sector) : Type 0 where
  pub magic : read32 s 0 ≡ snap_magic
  pub parent_snap : read32 s parent_at ≡ parent
  pub root_object : read32 s root_object_at ≡ root
  pub named : same_name 32 name_at name s ≡ true

-- What a reader sees of a new snapshot.
module _ (parent time root : ℕ) (name : List ℕ) where
  build_snap-magic : read32 (build_snap parent time root name) 0 ≡ snap_magic
  unfolding build_snap
  build_snap-magic =
      read32-write32_other _ 48 _ 0 (inr (omega arith))
      ∙ read32-put_name 31 name_at name _ 0 (omega arith)
      ∙ read32-write32_other _ root_object_at _ 0 (inr (omega arith))
      ∙ read32-write32_other _ 12 _ 0 (inr (omega arith))
      ∙ read32-write32_other _ parent_at _ 0 (inr (omega arith))
      ∙ read32-write32 _ 0 snap_magic (omega arith)

  build_snap-parent : parent < 2 ^ 32 → read32 (build_snap parent time root name) parent_at ≡ parent
  unfolding build_snap
  build_snap-parent h =
      read32-write32_other _ 48 _ parent_at (inr (omega arith))
      ∙ read32-put_name 31 name_at name _ parent_at (omega arith)
      ∙ read32-write32_other _ root_object_at _ parent_at (inr (omega arith))
      ∙ read32-write32_other _ 12 _ parent_at (inr (omega arith))
      ∙ read32-write32 _ parent_at parent h

  build_snap-root : root < 2 ^ 32 → read32 (build_snap parent time root name) root_object_at ≡ root
  unfolding build_snap
  build_snap-root h =
      read32-write32_other _ 48 _ root_object_at (inr (omega arith))
      ∙ read32-put_name 31 name_at name _ root_object_at (omega arith)
      ∙ read32-write32 _ root_object_at root h

  build_snap-name :
      length name ≤ 31 → same_name 32 name_at name (build_snap parent time root name) ≡ true
  unfolding build_snap write32
  build_snap-name h =
      let s1 = write32 (λ _. 0) 0 snap_magic in
      let s2 = write32 (write32 s1 parent_at parent) 12 time in
      let base = write32 s2 root_object_at root in
      same-put_name 31 name_at name base (build_snap parent time root name) h (λ k l. ground arith)
        (λ k l l'. write32_outside (put_name 31 name_at name base) 48 _ k (omega arith))

  -- A snapshot that names its parent and its root object and carries the name.
  build_snap-IsSnapshot :
      parent < 2 ^ 32
      → root < 2 ^ 32
      → length name ≤ 31
      → IsSnapshot parent root name (build_snap parent time root name)
  build_snap-IsSnapshot p r h = record {
    magic = build_snap-magic;
    parent_snap = build_snap-parent p;
    root_object = build_snap-root r;
    named = build_snap-name h;
  }

-- A store whose cache agrees with its disk and whose bitmap is well formed.
pub record IsSound {ata : Ata} (st : Store ata) : Type 0 where
  pub coherent : IsCoherent ata st.cache st.disk
  pub distinct : IsDistinct st.cache
  pub bitmap : IsValid st.blocks

module _ {ata : Ata} (drv : IsDriver ata)
    (never_fails : (d : ata.Disk) (i : ℕ) (s : Sector) → (ata.write d i s).0 ≡ true) where
  -- A block that was written is read.
  block_write-read :
      (i : ℕ) (s : Sector) (st : Store ata)
      → IsSound st
      → i ≢ 0
      → ((block_write i s st).0 ≡ true) × ((block_read i (block_write i s st).1).0 ≡ some s)
  unfolding block_write block_read
  block_write-read i s st v ne =
      let w =
        cache_write_lem ata st.cache st.disk i s drv ne (never_fails st.disk i s) v.coherent
          v.distinct in
      (w.0, w.3)

  -- The search stops at the first block, where that is a snapshot of the name.
  find_snap-here :
      (fuel : ℕ) (c : ℕ) (cs : List ℕ) (i : ℕ) (s : Sector) (st : Store ata)
      → i ≢ 0
      → (block_read i st).0 ≡ some s
      → read32 s 0 ≡ snap_magic
      → same_name 32 name_at (c ∷ cs) s ≡ true
      → (find_snap (suc fuel) (c ∷ cs) i st).0 ≡ some i
  unfolding find_snap visit is_given
  find_snap-here fuel c cs i s st ne e m named = rw (ne→beq i 0 ne, e) (rw (m, named) refl)

  -- With the block that the allocator gave.
  snap_allocated-found :
      (c : ℕ) (cs : List ℕ) (st : Store ata) (k : ℕ) {r : ℕ × Blocks × Cache × ata.Disk}
      → Gives ata st.blocks st.cache st.disk r
      → 109 ≤ k
      → k < 4096
      → is_free_block st.blocks k ≡ true
      → length (c ∷ cs) ≤ 31
      → read32 st.super.sb root_snap_at < 2 ^ 32
      → st.tx.new_root_block < 2 ^ 32
      → let given = record st { blocks = r.1; cache = r.2; disk = r.3 } in
        let (b, st') = snap_allocated (c ∷ cs) (r.0, given) in
        (109 ≤ b)
        × (is_free_block st.blocks b ≡ true)
        × ((hexafs_snap_find (c ∷ cs) st').0 ≡ some b)
        × ((s : Sector) × ((block_read b st').0 ≡ some s)
            × IsSnapshot (read32 st.super.sb root_snap_at) st.tx.new_root_block (c ∷ cs) s)
  unfolding snap_allocated snap_written block_write block_read hexafs_snap_find
  snap_allocated-found c cs st k (exhausted none_of) l l' free h p r = cc (free, none_of k l l')
  snap_allocated-found c cs st k (block {u} {c'} {d'} i l l' was now zeroed val coh dis) lk lk' free
        h p r =
      let root = read32 st.super.sb root_snap_at in
      let time = read32 st.super.sb timestamp_at in
      let s = build_snap root time st.tx.new_root_block (c ∷ cs) in
      let w = cache_write_lem ata c' d' i s drv (omega arith) (never_fails d' i s) coh dis in
      let at_root = read32-write32 st.super.sb root_snap_at i (omega arith) in
      let here = λ (st' : Store ata) (e : (block_read i st').0 ≡ some s).
        find_snap-here 4095 c cs i s st' (omega arith) e
          (build_snap-magic root time st.tx.new_root_block (c ∷ cs))
          (build_snap-name root time st.tx.new_root_block (c ∷ cs) h) in
      rw (ne→beq i 0 (omega arith), w.0)
        (rw at_root (
          l,
          was,
          here _ w.3,
          (s, w.3, build_snap-IsSnapshot root time st.tx.new_root_block (c ∷ cs) p r h),
        ))

  -- In a transaction that has changed something, and with a block of the store free, a new snapshot
  -- takes a free block, and a search for its name, of 1 to 31 characters, finds that block, whatever
  -- older snapshots have the name; what the block holds is a snapshot of that name whose root object is
  -- the transaction's and whose parent is the snapshot that was the newest. These two are 32-bit
  -- numbers, the cache agrees with the disk, and writes do not fail.
  pub find-create :
      (c : ℕ) (cs : List ℕ) (st : Store ata) (k : ℕ)
      → IsSound st
      → st.tx.active ≡ true
      → st.tx.dirty ≡ true
      → 109 ≤ k
      → k < 4096
      → is_free_block st.blocks k ≡ true
      → length (c ∷ cs) ≤ 31
      → read32 st.super.sb root_snap_at < 2 ^ 32
      → st.tx.new_root_block < 2 ^ 32
      → let (b, st') = hexafs_snap_create (c ∷ cs) st in
        (109 ≤ b)
        × (is_free_block st.blocks b ≡ true)
        × ((hexafs_snap_find (c ∷ cs) st').0 ≡ some b)
        × ((s : Sector) × ((block_read b st').0 ≡ some s)
            × IsSnapshot (read32 st.super.sb root_snap_at) st.tx.new_root_block (c ∷ cs) s)
  unfolding hexafs_snap_create alloc_block
  find-create c cs st k v active dirty l l' free h p r =
      let open_ : (not st.tx.active || not st.tx.dirty) ≡ false = rw (active, dirty) refl in
      rw open_ (
        snap_allocated-found c cs st k
          (hexafs_alloc_block_lem ata st.blocks st.cache st.disk drv
            (λ i. never_fails st.disk i zero_sector) v.bitmap v.coherent v.distinct)
          l l' free h p r)
