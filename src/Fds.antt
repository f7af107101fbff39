-- ===== src/Fds.antt =====
-- The tasks' descriptor tables of process.c: `proc_get_fd_entry`, `proc_alloc_fd`, `proc_free_fd`.
pub mod Laws
use hexa_os_alpha_build.Base.{
  ℕ, zero, suc, ◌+◌, Bool, true, false, not, ◌&&◌, ◌||◌, Option, none, some, update, ◌==◌, ltb, leb,
  if◌then◌else◌, is_neg, scan,
}
use hexa_os_alpha_build.Process.{Kernel, Task, FdEntry, max_tasks, max_fds, minus_one, set_task}

-- fd >= 0 && fd < MAX_FDS
abbrev pub in_table : ℕ → Bool
in_table fd = not (is_neg fd) && ltb fd max_fds

-- tasks[i].pid == pid
abbrev pub has_pid : Kernel → ℕ → ℕ → Bool
has_pid k pid i = (k.tasks i).pid == pid

-- The loop of `proc_get_fd_entry` stops at the first task for the identifier -1.
abbrev pub has_pid_or_any : Kernel → ℕ → ℕ → Bool
has_pid_or_any k pid i = (k.tasks i).pid == pid || pid == minus_one

-- `proc_get_fd_entry`: the slot of the entry that `*fde` points to, or `none` for -1.
pub proc_get_fd_entry : Kernel → ℕ → ℕ → Option ℕ
proc_get_fd_entry k pid fd = elim (scan max_tasks 0 (has_pid_or_any k pid)) [
  | none ↦ none
  | some i ↦ if in_table fd && not (((k.tasks i).fds fd).type == 0) then some i else none
]

abbrev pub free_fd : Task → ℕ → Bool
free_fd t f = (t.fds f).type == 0

-- `proc_alloc_fd`: the descriptor, or `none` for -1.
pub proc_alloc_fd : Kernel → ℕ → ℕ → ℕ → Option ℕ × Kernel
proc_alloc_fd k pid type ref = elim (scan max_tasks 0 (has_pid k pid)) [
  | none ↦ (none, k)
  | some i ↦
      let t = k.tasks i in
      elim (scan 13 3 (free_fd t)) [
        | none ↦ (none, k)
        | some f ↦
            let e : FdEntry = record { type = type; ref = ref; pos = 0; flags = 0 } in
            (some f, set_task k i (record t { fds = update t.fds f e }))
      ]
]

pub proc_free_fd : Kernel → ℕ → ℕ → Kernel
proc_free_fd k pid fd = elim (scan max_tasks 0 (has_pid k pid)) [
  | none ↦ k
  | some i ↦
      let t = k.tasks i in
      if in_table fd
      then set_task k i
          (record t { fds = update t.fds fd (record (t.fds fd) { type = 0; ref = minus_one }) })
      else k
]
