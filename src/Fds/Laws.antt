-- ===== src/Fds/Laws.antt =====
-- Descriptors that are allocated can be looked up until they are freed.
use hexa_os_alpha_build.Base.{
  ℕ, ◌≤◌, ◌<◌, ◌≡◌, refl, ◌≢◌, true, not, ◌&&◌, Option, none, some, arith, inl, inr, update,
  scan_cases, scan_first, IsFirst, NoneOf, if◌then◌else◌, ◌==◌, update_ne, update_self, ap, ◌∙◌,
  ne→beq, subst, ap-update, IsFirst-ext, scan_nothing,
}
use hexa_os_alpha_build.Process.{Kernel, Task, FdEntry, max_tasks, minus_one}
use hexa_os_alpha_build.Fds.{
  in_table, has_pid, has_pid_or_any, proc_get_fd_entry, free_fd, proc_alloc_fd, proc_free_fd,
}

-- How `proc_alloc_fd` ends: there is no such task; its descriptors 3 to 15 are all in use; or the
-- first free one of them is taken, and nothing else changes.
pub data Allocates (k : Kernel) (pid type ref : ℕ) : Option ℕ × Kernel → Type 0 where
  unknown : NoneOf (has_pid k pid) 0 max_tasks → Allocates k pid type ref (none, k)
  full :
      (i : ℕ)
      → IsFirst (has_pid k pid) 0 max_tasks i
      → NoneOf (free_fd (k.tasks i)) 3 16
      → Allocates k pid type ref (none, k)
  taken :
      {u : Kernel} (i f : ℕ)
      → IsFirst (has_pid k pid) 0 max_tasks i
      → IsFirst (free_fd (k.tasks i)) 3 16 f
      → (u.tasks i).fds f ≡ record { type = type; ref = ref; pos = 0; flags = 0 }
      → ((g : ℕ) → f ≢ g → (u.tasks i).fds g ≡ (k.tasks i).fds g)
      → ((j : ℕ) → (u.tasks j).pid ≡ (k.tasks j).pid)
      → ((j : ℕ) → i ≢ j → u.tasks j ≡ k.tasks j)
      → Allocates k pid type ref (some f, u)

-- `proc_alloc_fd` fails, and changes nothing, where no task has the identifier or the descriptors 3 to
-- 15 of the first that has it are in use. Otherwise it fills the first free one and returns it; no
-- other descriptor, identifier or task changes.
pub proc_alloc_fd_lem :
    (k : Kernel) (pid type ref : ℕ) → Allocates k pid type ref (proc_alloc_fd k pid type ref)
unfolding proc_alloc_fd
proc_alloc_fd_lem k pid type ref = elim (scan_cases max_tasks 0 (has_pid k pid) refl) [
  | inl (e, none_of) ↦ rw (e, proc_alloc_fd) (unknown none_of)
  | inr (i, e, f) ↦ elim (scan_cases 13 3 (free_fd (k.tasks i)) refl) [
    | inl (e', none_of) ↦ rw (e, proc_alloc_fd) (rw e' (full i f none_of))
    | inr (g, e', h) ↦
        let entry : FdEntry = record { type = type; ref = ref; pos = 0; flags = 0 } in
        let t : Task = record (k.tasks i) { fds = update (k.tasks i).fds g entry } in
        let at = update_self k.tasks i t in
        rw (e, proc_alloc_fd)
          (rw e' (
            taken i g f h (ap (λ (u : Task). u.fds g) at ∙ update_self (k.tasks i).fds g entry)
              (λ m ne. ap (λ (u : Task). u.fds m) at ∙ update_ne (k.tasks i).fds g entry m ne)
              (ap-update (λ (u : Task). u.pid) k.tasks i t refl) (update_ne k.tasks i t)))
  ]
]

-- For an identifier that no task has there is no descriptor.
pub alloc_unknown :
    (k : Kernel) (pid type ref : ℕ)
    → NoneOf (has_pid k pid) 0 max_tasks
    → proc_alloc_fd k pid type ref ≡ (none, k)
unfolding proc_alloc_fd
alloc_unknown k pid type ref h = rw (scan_nothing max_tasks 0 (has_pid k pid) refl h, proc_alloc_fd)

any_is_pid :
    (k : Kernel) (pid : ℕ) → pid ≢ minus_one → (j : ℕ) → has_pid k pid j ≡ has_pid_or_any k pid j
any_is_pid k pid ne j = rw (ne→beq pid minus_one ne) (ground arith)

same_pid :
    (k u : Kernel) (pid : ℕ)
    → ((j : ℕ) → (u.tasks j).pid ≡ (k.tasks j).pid)
    → (j : ℕ) → has_pid k pid j ≡ has_pid u pid j
same_pid k u pid e j = rw e

-- A look-up is decided by the descriptor's entry in the task that has the identifier.
pub get_fd_of :
    (k : Kernel) (pid fd i : ℕ)
    → pid ≢ minus_one
    → IsFirst (has_pid k pid) 0 max_tasks i
    → proc_get_fd_entry k pid fd
      ≡ (if in_table fd && not (((k.tasks i).fds fd).type == 0) then some i else none)
unfolding proc_get_fd_entry
get_fd_of k pid fd i ne f = rw (
  scan_first max_tasks 0 (has_pid_or_any k pid) i refl (IsFirst-ext (any_is_pid k pid ne) f),
  proc_get_fd_entry,
)

-- What `proc_free_fd` does to the entry of the task that has the identifier.
pub free_fd_of :
    (k : Kernel) (pid fd i : ℕ)
    → in_table fd ≡ true
    → IsFirst (has_pid k pid) 0 max_tasks i
    → ((((proc_free_fd k pid fd).tasks i).fds fd).type ≡ 0)
      × ((j : ℕ) → ((proc_free_fd k pid fd).tasks j).pid ≡ (k.tasks j).pid)
unfolding proc_free_fd
free_fd_of k pid fd i good f =
    let e : FdEntry = record ((k.tasks i).fds fd) { type = 0; ref = minus_one } in
    let t : Task = record (k.tasks i) { fds = update (k.tasks i).fds fd e } in
    rw (scan_first max_tasks 0 (has_pid k pid) i refl f, proc_free_fd)
      (rw good (
        ap (λ (u : Task). (u.fds fd).type) (update_self k.tasks i t)
            ∙ ap (λ (g : FdEntry). g.type) (update_self (k.tasks i).fds fd e),
        ap-update (λ (u : Task). u.pid) k.tasks i t refl,
      ))

-- What a client may rely on for the descriptor `f` that it got, in the state `u` that it got it in.
pub record IsUsable (k u : Kernel) (pid type ref f : ℕ) : Type 0 where
  pub slot : ℕ
  pub owner : IsFirst (has_pid k pid) 0 max_tasks slot
  pub low : 3 ≤ f
  pub high : f < 16
  pub found : proc_get_fd_entry u pid f ≡ some slot
  pub entry : (u.tasks slot).fds f ≡ record { type = type; ref = ref; pos = 0; flags = 0 }
  pub freed : proc_get_fd_entry (proc_free_fd u pid f) pid f ≡ none

Allocates-IsUsable :
    (k : Kernel) (pid type ref : ℕ) {r : Option ℕ × Kernel} (f : ℕ)
    → pid ≢ minus_one
    → type ≢ 0
    → Allocates k pid type ref r
    → r.0 ≡ some f
    → IsUsable k r.1 pid type ref f
Allocates-IsUsable k pid type ref f ne ty (unknown _) e = cc
Allocates-IsUsable k pid type ref f ne ty (full _ _ _) e = cc
Allocates-IsUsable k pid type ref f ne ty (taken {u} i g owner free eq _ pids _) e =
    let owner' = IsFirst-ext (same_pid k u pid pids) owner in
    let good : in_table g ≡ true = ground (arith, free.before) in
    let gone = free_fd_of u pid g i good owner' in
    let owner'' = IsFirst-ext (same_pid u (proc_free_fd u pid g) pid gone.1) owner' in
    let same : g ≡ f = cc in
    subst (IsUsable k u pid type ref) same (record {
      slot = i;
      owner = owner;
      low = free.from;
      high = free.before;
      found = rw (get_fd_of u pid g i ne owner', eq) (ground arith);
      entry = eq;
      freed = rw (get_fd_of (proc_free_fd u pid g) pid g i ne owner'', gone.0) (ground arith);
    })

-- A descriptor that `proc_alloc_fd` returns lies between 3 and 15; `proc_get_fd_entry` then finds its
-- entry in the first task that has the identifier, and no longer does after `proc_free_fd`.
pub proc_alloc_fd-IsUsable :
    (k : Kernel) (pid type ref f : ℕ)
    → pid ≢ minus_one
    → type ≢ 0
    → (proc_alloc_fd k pid type ref).0 ≡ some f
    → IsUsable k (proc_alloc_fd k pid type ref).1 pid type ref f
proc_alloc_fd-IsUsable k pid type ref f ne ty =
    Allocates-IsUsable k pid type ref f ne ty (proc_alloc_fd_lem k pid type ref)
