-- ===== src/Process.antt =====
-- process.c and process.h: the task table and the life of a task. A `pid_t` or `int` is a bit
-- pattern, so -1 is `minus_one`. The addresses that the linker gives to the tasks' stacks are the
-- parameter `stack_base`; a stack holds 2048 words, indexed from its lowest address.
pub mod Count
pub mod Lifetime
pub mod Reaping
pub mod Frame
pub mod Samples
mod Tests
use hexa_os_alpha_build.Base.{
  ℕ, zero, suc, ◌+◌, ◌-◌, ◌*◌, ◌%◌, ◌/◌, ◌^◌, Bool, true, false, not, ◌&&◌, ◌||◌, Option, none,
  some, List, [], ◌∷◌, update, ◌==◌, ltb, leb, if◌then◌else◌, is_neg, scan,
}
use hexa_os_alpha_build.Base.Lists.{take}

abbrev pub max_tasks : ℕ
max_tasks = 16

abbrev pub max_fds : ℕ
max_fds = 16

abbrev pub stack_words : ℕ
stack_words = 2048

abbrev pub proc_name_len : ℕ
proc_name_len = 24

abbrev pub minus_one : ℕ
minus_one = 2 ^ 32 - 1

-- TASK_READY to TASK_DEAD
pub data State : Type 0 where
  ready running blocked zombie dead : State

-- `struct fd_entry`
pub record FdEntry : Type 0 where
  pub type : ℕ
  pub ref : ℕ
  pub pos : ℕ
  pub flags : ℕ

-- `hexaos_event_t`
pub record Event : Type 0 where
  pub event_type : ℕ
  pub sender_pid : ℕ
  pub sender_snap : ℕ
  pub payload_hash : ℕ
  pub timestamp : ℕ

-- `struct task`
pub record Task : Type 0 where
  pub pid : ℕ
  pub state : State
  pub exit_code : ℕ
  pub parent_pid : ℕ
  pub priority : ℕ
  pub esp : ℕ
  pub ebp : ℕ
  pub page_dir : ℕ
  pub heap_brk : ℕ
  pub kernel_esp : ℕ
  pub stack : ℕ → ℕ
  pub name : List ℕ
  pub fds : ℕ → FdEntry
  pub event_queue : ℕ → Event
  pub event_head : ℕ
  pub event_tail : ℕ
  pub event_pending : Bool

-- The static variables of process.c, the page directory in CR3, and `system_ticks`.
pub record Kernel : Type 0 where
  pub tasks : ℕ → Task
  pub current_task : ℕ
  pub num_tasks : ℕ
  pub next_pid : ℕ
  pub tss_esp0 : ℕ
  pub cr3 : ℕ
  pub system_ticks : ℕ

abbrev pub is_dead : State → Bool
is_dead dead = true
is_dead _ = false

abbrev pub is_zombie : State → Bool
is_zombie zombie = true
is_zombie _ = false

-- state == TASK_READY || state == TASK_RUNNING
abbrev pub is_runnable : State → Bool
is_runnable ready = true
is_runnable running = true
is_runnable _ = false

abbrev pub set_task : Kernel → ℕ → Task → Kernel
set_task k i t = record k { tasks = update k.tasks i t }

-- `num_tasks--`
abbrev pub decrement : ℕ → ℕ
decrement n = (n + 2 ^ 32 - 1) % 2 ^ 32

pub init_fd : ℕ → FdEntry → FdEntry
init_fd f e =
    if ltb f 3 then record e { type = 3; ref = 0 } else record e { type = 0; ref = minus_one }

pub init_task : Task → Task
init_task t = record t {
  pid = minus_one;
  state = dead;
  esp = 0;
  parent_pid = minus_one;
  priority = 1;
  page_dir = 0;
  heap_brk = 0;
  name = [];
  event_head = 0;
  event_tail = 0;
  event_pending = false;
  fds = λ f. init_fd f (t.fds f);
  event_queue = λ e. record (t.event_queue e) {
    event_type = 0;
    sender_pid = 0;
    payload_hash = 0;
    timestamp = 0;
  };
}

-- `proc_init`: the loop runs over the whole table, and the task state segment is cleared.
pub proc_init : Kernel → Kernel
proc_init k = record k {
  tasks = λ i. init_task (k.tasks i);
  current_task = 0;
  num_tasks = 0;
  tss_esp0 = 0;
}

-- `alloc_pid`: the slot, or `none` for -1.
pub alloc_pid : Kernel → Option ℕ × Kernel
alloc_pid k = elim (scan max_tasks 0 (λ i. is_dead (k.tasks i).state)) [
  | none ↦ (none, k)
  | some i ↦ (
    some i,
    record k {
      tasks = update k.tasks i (record (k.tasks i) { pid = k.next_pid });
      next_pid = (k.next_pid + 1) % 2 ^ 32;
    },
  )
]

-- `*--sp = v` for each value in turn, from the word index `sp` down.
pub push_all : ℕ → List ℕ → (ℕ → ℕ) → ℕ → ℕ
push_all sp [] stack = stack
push_all sp (v ∷ vs) stack = push_all (sp - 1) vs (update stack (sp - 1) v)

-- The frame that `proc_create` builds, in the order of its pushes.
pub kernel_frame : ℕ → ℕ → List ℕ
kernel_frame top entry =
    0x10 ∷ top ∷ 0x202 ∷ 0x08 ∷ entry ∷ 0 ∷ 0 ∷ 0 ∷ 0 ∷ 0 ∷ 0 ∷ 0 ∷ 0 ∷ 0 ∷ 0 ∷ 0x10 ∷ 0x10 ∷ 0x10
    ∷ 0x10 ∷ []

-- `current_task >= 0 && current_task < MAX_TASKS ? tasks[current_task].pid : -1`
abbrev pub current_pid : Kernel → ℕ
current_pid k = if ltb k.current_task max_tasks then (k.tasks k.current_task).pid else minus_one

-- num_tasks >= MAX_TASKS, on a signed number
abbrev pub is_full : Kernel → Bool
is_full k = not (is_neg k.num_tasks) && leb max_tasks k.num_tasks

-- What `proc_create` makes of the task in its slot, whose process identifier is already set.
pub new_task : ℕ → ℕ → List ℕ → ℕ → ℕ → ℕ → Task → Task
new_task stack_base entry name priority parent page_dir t =
    let top = stack_base + 4 * stack_words in
    record t {
      state = ready;
      priority = if is_neg priority || priority == 0 then 1 else priority;
      name = take (proc_name_len - 1) name;
      parent_pid = parent;
      page_dir = page_dir;
      stack = push_all stack_words (kernel_frame top entry) t.stack;
      esp = top - 76;
      ebp = 0;
      kernel_esp = top;
      heap_brk = 0;
    }

module _ (stack_base : ℕ → ℕ) (kernel_page_dir : ℕ) where
  -- `proc_create` behind the search for a slot.
  pub fill_slot : ℕ → List ℕ → ℕ → Option ℕ × Kernel → Option ℕ × Kernel
  fill_slot entry name priority (none, k) = (none, k)
  fill_slot entry name priority (some i, k) =
      let t =
        new_task (stack_base i) entry name priority (current_pid k) kernel_page_dir (k.tasks i) in
      (some t.pid, record k { tasks = update k.tasks i t; num_tasks = (k.num_tasks + 1) % 2 ^ 32 })

  -- `proc_create`: the new process identifier, or `none` for -1. `name` is the string's characters.
  pub proc_create : Kernel → ℕ → List ℕ → ℕ → Option ℕ × Kernel
  proc_create k entry name priority =
      if is_full k then (none, k) else fill_slot entry name priority (alloc_pid k)

-- The loop of `proc_exit` over the children: it compares with `t->pid`, which is -1 by then.
pub reparent : ℕ → Task → Task
reparent pid t =
    if not (is_dead t.state) && t.parent_pid == pid then record t { parent_pid = minus_one } else t

-- How a function that may switch tasks ends: in another task, or halted for ever.
pub data Switch : Type 0 where
  switched halted : Switch

-- The loop of `proc_exit` that looks for a task to run.
pub run_next : Kernel → Switch × Kernel
run_next k =
    let slot = λ (i : ℕ). (k.current_task + 1 + i) % max_tasks in
    elim (scan (max_tasks * 2) 0 (λ i. is_runnable (k.tasks (slot i)).state)) [
      | none ↦ (halted, k)
      | some i ↦
          let next = slot i in
          let t = k.tasks next in
          (
            switched,
            record k {
              tasks = update k.tasks next (record t { state = running });
              current_task = next;
              tss_esp0 = t.kernel_esp;
            },
          )
    ]

-- `proc_exit` up to the search for another task.
pub end_current : Kernel → ℕ → Kernel
end_current k code =
    let t = record (k.tasks k.current_task) { exit_code = code; state = zombie; pid = minus_one } in
    let tasks = update k.tasks k.current_task t in
    record k { tasks = λ i. reparent t.pid (tasks i); num_tasks = decrement k.num_tasks }

pub proc_exit : Kernel → ℕ → Switch × Kernel
proc_exit k code = run_next (end_current k code)

-- `proc_wait`: what it returns, what it stores through `status`, and the new state.
pub proc_wait : Kernel → ℕ × Option ℕ × Kernel
proc_wait k =
    let me = (k.tasks k.current_task).pid in
    elim (scan max_tasks 0 (λ i. (k.tasks i).parent_pid == me && is_zombie (k.tasks i).state)) [
      | none ↦ (minus_one, none, k)
      | some i ↦
          let t = k.tasks i in (t.pid, some t.exit_code, set_task k i (record t { state = dead }))
    ]

-- `proc_kill` ends in the caller with a result, or through `proc_exit` in another task.
pub data Kill : Type 0 where
  returns : ℕ → Kill
  exits : Switch → Kill

pub proc_kill : Kernel → ℕ → Kill × Kernel
proc_kill k pid =
    if is_neg pid || pid == 0
    then (returns minus_one, k)
    else elim (scan max_tasks 0 (λ i. (k.tasks i).pid == pid && not (is_dead (k.tasks i).state))) [
      | none ↦ (returns minus_one, k)
      | some i ↦
          let (s, k') = proc_exit k minus_one in
          if i == k.current_task then (exits s, k') else (
            returns 0,
            record k {
              tasks =
                  update k.tasks i (record (k.tasks i) { state = zombie; exit_code = minus_one });
              num_tasks = decrement k.num_tasks;
            },
          )
    ]

-- `proc_reap_zombies`
pub proc_reap_zombies : Kernel → Kernel
proc_reap_zombies k = record k {
  tasks = λ i. let t = k.tasks i in if is_zombie t.state then record t { state = dead } else t;
}
