-- ===== src/Vfs/Descriptors.antt =====
-- What `vfs_open`, `vfs_dup` and `vfs_close` do to the table of descriptors.
use hexa_os_alpha_build.Base.{
  ℕ, ◌≤◌, ◌<◌, ◌≡◌, ◌≢◌, refl, ap, fun_ext, arith, true, false, not, some, List, ◌==◌,
  if◌then◌else◌, scan-ne-none, IsFirst, update, update_self, update_ne, bit_and, subst, ne→beq,
  beq→eq, lt→ltb,
}
use hexa_os_alpha_build.Forms.{Kmalloc, find_form, check_perm}
use hexa_os_alpha_build.Vfs.{
  Fd, Vfs, vfs_max_fds, vfs_is_free, set_fd, form_write, form_append, vfs_fd_alloc, open_form,
  vfs_open, vfs_dup, vfs_close,
}

-- The first free descriptor from 3 on.
abbrev pub FirstFree : Vfs → ℕ → Type 0
FirstFree v fd = IsFirst (vfs_is_free v) 3 128 fd

pub vfs_fd_alloc_lem :
    (pid : ℕ) (v : Vfs) (k : ℕ)
    → 3 ≤ k
    → k < vfs_max_fds
    → (v.vfs_fds k).kind ≡ 0
    → (fd : ℕ) × FirstFree v fd
      × (vfs_fd_alloc pid v
          ≡ some
              (fd, set_fd v fd (record (v.vfs_fds fd) { pid = pid; kind = 1; pos = 0; flags = 0 })))
unfolding vfs_fd_alloc
vfs_fd_alloc_lem pid v k h h' e =
    let (fd, q, f) = scan-ne-none 125 3 (vfs_is_free v) k h h' (rw e refl) in
    (fd, f, rw (q, vfs_fd_alloc) refl)

-- The descriptor that an open of a form leaves.
abbrev pub opened : ℕ → ℕ → ℕ → Fd
opened pid idx flags = record {
  pid = pid;
  kind = 1;
  ref = idx;
  pos = if bit_and flags form_append == 0 then 0 else 0x7fffffff;
  flags = flags;
}

update-update :
    {A : Type 0} (t : ℕ → A) (i : ℕ) (a b : A) → update (update t i a) i b ≡ update t i b
update-update t i a b = fun_ext (λ j. ground arith)

-- An open of a form that is there, and that the user may read, or write where the flags say so,
-- takes the first free descriptor from 3 on and leaves every other descriptor and the forms.
pub vfs_open_lem :
    (kmalloc : Kmalloc) (u_cur current_task : ℕ) (path : List ℕ) (flags : ℕ) (v : Vfs) (idx k : ℕ)
    → find_form v.forms path ≡ some idx
    → check_perm u_cur v.forms idx (not (bit_and flags form_write == 0)) ≡ false
    → 3 ≤ k
    → k < vfs_max_fds
    → (v.vfs_fds k).kind ≡ 0
    → (fd : ℕ) × FirstFree v fd
      × (vfs_open kmalloc u_cur current_task path flags v
          ≡ (some fd, set_fd v fd (opened current_task idx flags)))
unfolding vfs_open open_form
vfs_open_lem kmalloc u_cur current_task path flags v idx k found allowed h h' e =
    let (fd, f, q) = vfs_fd_alloc_lem current_task v k h h' e in
    let first : Fd = record (v.vfs_fds fd) { pid = current_task; kind = 1; pos = 0; flags = 0 } in
    (
      fd,
      f,
      rw (found, vfs_open)
          (rw (allowed, q, open_form)
            (rw (update_self v.vfs_fds fd first) (
              ap (λ t. (some fd, record v { vfs_fds = t }))
                (update-update v.vfs_fds fd first (opened current_task idx flags))))),
    )

-- A duplicate of a descriptor is the first free one, other than the descriptor, and equal to it in
-- all fields; nothing else changes. Closing it gives back the table as it was, but for what the
-- closed descriptor keeps.
pub vfs_dup_lem :
    (current_task old_fd : ℕ) (v : Vfs) (k : ℕ)
    → old_fd < vfs_max_fds
    → (v.vfs_fds old_fd).kind ≢ 0
    → 3 ≤ k
    → k < vfs_max_fds
    → (v.vfs_fds k).kind ≡ 0
    → (fd : ℕ) × FirstFree v fd
      × (fd ≢ old_fd)
      × (vfs_dup current_task old_fd v ≡ (some fd, set_fd v fd (v.vfs_fds old_fd)))
      × (vfs_close fd (set_fd v fd (v.vfs_fds old_fd))
          ≡ (true, set_fd v fd (record (v.vfs_fds old_fd) { kind = 0 })))
unfolding vfs_dup vfs_close
vfs_dup_lem current_task old_fd v k l used h h' e =
    let (fd, f, q) = vfs_fd_alloc_lem current_task v k h h' e in
    let first : Fd = record (v.vfs_fds fd) { pid = current_task; kind = 1; pos = 0; flags = 0 } in
    let ne : fd ≢ old_fd =
      λ same. used (subst (λ j. (v.vfs_fds j).kind ≡ 0) same (beq→eq _ 0 f.hit)) in
    let busy : (vfs_is_free v old_fd) ≡ false = ne→beq (v.vfs_fds old_fd).kind 0 used in
    let back = update_self v.vfs_fds fd (v.vfs_fds old_fd) in
    (
      fd,
      f,
      ne,
      rw (lt→ltb old_fd vfs_max_fds l, busy)
          (rw (q, vfs_dup)
            (rw (update_ne v.vfs_fds fd first old_fd ne) (
              ap (λ t. (some fd, record v { vfs_fds = t }))
                (update-update v.vfs_fds fd first (v.vfs_fds old_fd))))),
      rw (lt→ltb fd vfs_max_fds f.before, back, busy)
          (ap (λ t. (true, record v { vfs_fds = t }))
            (update-update v.vfs_fds fd (v.vfs_fds old_fd)
              (record (v.vfs_fds old_fd) { kind = 0 }))),
    )
