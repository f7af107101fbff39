-- ===== src/Process/Count.antt =====
-- `num_tasks` counts the tasks that are ready, running or blocked.
use native.Mathlib.Decide.{ℕ_discrete}
use hexa_os_alpha_build.Base.{
  ℕ, ◌+◌, ◌≤◌, ◌<◌, ◌≡◌, refl, ◌≢◌, Bool, true, false, none, some, List, arith, ◌⊎◌, inl, inr,
  update, scan_cases, IsFirst, update_ne, update_self, ap, Bool-cases, ◌∙◌, NoneOf, ◌%◌, ◌^◌,
}
use hexa_os_alpha_build.Base.Count.{count, count-le, count-lt, count-ext, count_change, bit}
use hexa_os_alpha_build.Process.{
  Kernel, Task, State, ready, running, blocked, zombie, dead, max_tasks, is_dead, proc_init,
  init_task, alloc_pid, proc_create, fill_slot, is_full, new_task, current_pid,
}

abbrev pub is_live : State → Bool
is_live ready = true
is_live running = true
is_live blocked = true
is_live _ = false

abbrev pub live : (ℕ → Task) → ℕ → Bool
live tasks i = is_live (tasks i).state

pub record IsCounted (k : Kernel) : Type 0 where
  pub current : k.current_task < max_tasks
  pub counted : k.num_tasks ≡ count max_tasks (live k.tasks)

-- What one write to the table does to the count.
pub count-update :
    (tasks : ℕ → Task) (i : ℕ) (t : Task)
    → i < max_tasks
    → count max_tasks (live (update tasks i t)) + bit (is_live (tasks i).state)
      ≡ count max_tasks (live tasks) + bit (is_live t.state)
count-update tasks i t l = rw (← ap (λ (u : Task). bit (is_live u.state)) (update_self tasks i t)) (
    count_change max_tasks (live (update tasks i t)) (live tasks) i l
      (λ j _ ne. ap (λ (u : Task). is_live u.state) (update_ne tasks i t j ne)))

-- After `proc_init`, whatever the table held, the current task is a slot of the table and the count of
-- live tasks is right.
pub proc_init-IsCounted : (k : Kernel) → IsCounted (proc_init k)
unfolding proc_init init_task count
proc_init-IsCounted k = ground arith

abbrev pub dead_at : Kernel → ℕ → Bool
dead_at k i = is_dead (k.tasks i).state

dead-not-live : (s : State) → is_dead s ≡ true → is_live s ≡ false
dead-not-live dead h = refl
dead-not-live zombie h = refl
dead-not-live ready h = cc
dead-not-live running h = cc
dead-not-live blocked h = cc

-- A table that counts its tasks is full only if no slot is dead.
full-NoneOf : (k : Kernel) → IsCounted k → is_full k ≡ true → NoneOf (dead_at k) 0 max_tasks
full-NoneOf k c h i l l' = elim (Bool-cases (dead_at k i)) [
  | inl e ↦ absurd (
      ground (
        arith,
        count-lt max_tasks (live k.tasks) i l' (dead-not-live (k.tasks i).state e),
        c.counted,
        h,
      ))
  | inr e ↦ e
]

-- What `alloc_pid` changes where it finds a slot: only that slot's process identifier.
pub record IsAllocated (k : Kernel) (i : ℕ) (k' : Kernel) : Type 0 where
  pub slot : IsFirst (dead_at k) 0 max_tasks i
  pub pid : (k'.tasks i).pid ≡ k.next_pid
  pub state : (k'.tasks i).state ≡ (k.tasks i).state
  pub others : (j : ℕ) → i ≢ j → k'.tasks j ≡ k.tasks j
  pub current : k'.current_task ≡ k.current_task
  pub number : k'.num_tasks ≡ k.num_tasks
  pub next : k'.next_pid ≡ (k.next_pid + 1) % 2 ^ 32

pub alloc_pid_lem :
    (k : Kernel)
    → ((alloc_pid k ≡ (none, k)) × NoneOf (dead_at k) 0 max_tasks)
      ⊎ ((i : ℕ) × (k' : Kernel) × (alloc_pid k ≡ (some i, k')) × IsAllocated k i k')
unfolding alloc_pid
alloc_pid_lem k = elim (scan_cases max_tasks 0 (dead_at k) refl) [
  | inl (e, none_of) ↦ inl (rw (e, alloc_pid), none_of)
  | inr (i, e, f) ↦
      let t : Task = record (k.tasks i) { pid = k.next_pid } in
      inr (
        i,
        record k { tasks = update k.tasks i t; next_pid = (k.next_pid + 1) % 2 ^ 32 },
        rw (e, alloc_pid),
        record {
          slot = f;
          pid = ground (arith, update_self k.tasks i t);
          state = ground (arith, update_self k.tasks i t);
          others = update_ne k.tasks i t;
          current = refl;
          number = refl;
          next = refl;
        },
      )
]

IsAllocated-count :
    (k : Kernel) (i : ℕ) (k' : Kernel)
    → IsAllocated k i k'
    → count max_tasks (live k'.tasks) ≡ count max_tasks (live k.tasks)
IsAllocated-count k i k' a = count-ext max_tasks (live k'.tasks) (live k.tasks) λ j _.
    elim (ℕ_discrete i j) [
      | yes e ↦ rw (← e) (ap is_live a.state)
      | no ne ↦ ap (λ (t : Task). is_live t.state) (a.others j ne)
    ]

-- Writing a live task into a dead slot adds one to the count.
count-revive :
    (tasks : ℕ → Task) (i : ℕ) (t : Task)
    → i < max_tasks
    → is_dead (tasks i).state ≡ true
    → is_live t.state ≡ true
    → count max_tasks (live (update tasks i t)) ≡ count max_tasks (live tasks) + 1
count-revive tasks i t l h h' =
    ground (arith, count-update tasks i t l, dead-not-live (tasks i).state h)

module _ (stack_base : ℕ → ℕ) (kernel_page_dir : ℕ) where
  -- `proc_create` keeps the count, and fails exactly when no slot is dead.
  pub proc_create_lem :
      (k : Kernel) (entry : ℕ) (name : List ℕ) (priority : ℕ)
      → IsCounted k
      → let (r, k') = proc_create stack_base kernel_page_dir k entry name priority in
        IsCounted k'
        × (((r ≡ none) × (k' ≡ k) × NoneOf (dead_at k) 0 max_tasks)
            ⊎ ((i : ℕ) × (r ≡ some k.next_pid)
                × IsFirst (dead_at k) 0 max_tasks i
                × ((k'.tasks i).state ≡ ready)
                × ((k'.tasks i).pid ≡ k.next_pid)
                × (k'.num_tasks ≡ k.num_tasks + 1)
                × ((j : ℕ) → i ≢ j → k'.tasks j ≡ k.tasks j)))
  unfolding proc_create fill_slot new_task
  proc_create_lem k entry name priority c = elim (Bool-cases (is_full k)) [
    | inl full ↦ rw full (c, inl (refl, refl, full-NoneOf k c full))
    | inr room ↦ elim (alloc_pid_lem k) [
      | inl (e, none_of) ↦ rw (room, e) (c, inl (refl, refl, none_of))
      | inr (i, k', e, a) ↦
          let t =
            new_task (stack_base i) entry name priority (current_pid k') kernel_page_dir
              (k'.tasks i) in
          let few : k.num_tasks ≤ max_tasks =
            omega (arith, c.counted, count-le max_tasks (live k.tasks)) in
          let counts = count-revive k'.tasks i t a.slot.before (rw a.state a.slot.hit) refl in
          rw (room, e)
            (
              record {
                current = omega (arith, c.current, a.current);
                counted =
                    omega (arith, few, counts, c.counted, a.number, IsAllocated-count k i k' a);
              },
              inr (
                i,
                ap some a.pid,
                a.slot,
                ap (λ (u : Task). u.state) (update_self k'.tasks i t),
                ap (λ (u : Task). u.pid) (update_self k'.tasks i t) ∙ a.pid,
                omega (arith, few, a.number),
                λ j ne. update_ne k'.tasks i t j ne ∙ a.others j ne,
              ),
            )
    ]
  ]
