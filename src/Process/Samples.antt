-- ===== src/Process/Samples.antt =====
-- Small kernels for the tests.
use hexa_os_alpha_build.Base.{ℕ, false, [], refl, arith, ◌==◌, if◌then◌else◌}
use hexa_os_alpha_build.Base.Count.{count}
use hexa_os_alpha_build.Process.{
  Kernel, Task, Event, State, ready, running, blocked, zombie, dead, minus_one,
}
use hexa_os_alpha_build.Process.Count.{IsCounted}

abbrev pub no_event : Event
no_event = record {
  event_type = 0;
  sender_pid = 0;
  sender_snap = 0;
  payload_hash = 0;
  timestamp = 0;
}

-- A task with no descriptors in use and an empty event queue.
abbrev pub task_of : ℕ → State → ℕ → ℕ → Task
task_of pid state parent priority = record {
  pid = pid;
  state = state;
  exit_code = 0;
  parent_pid = parent;
  priority = priority;
  esp = 0;
  ebp = 0;
  page_dir = 0;
  heap_brk = 0;
  kernel_esp = 0;
  stack = λ _. 0;
  name = [];
  fds = λ _. record { type = 0; ref = 0; pos = 0; flags = 0 };
  event_queue = λ _. no_event;
  event_head = 0;
  event_tail = 0;
  event_pending = false;
}

-- Three tasks: 1 is the parent of 2 and 3.
abbrev pub family : State → State → State → ℕ → Task
family s t u i =
    if i == 0
    then task_of 1 s minus_one 1
    else if i == 1
    then task_of 2 t 1 2
    else if i == 2
    then task_of 3 u 1 1
    else task_of minus_one dead minus_one 1

abbrev pub kernel_of : State → State → State → ℕ → ℕ → Kernel
kernel_of s t u current number = record {
  tasks = family s t u;
  current_task = current;
  num_tasks = number;
  next_pid = 4;
  tss_esp0 = 0;
  cr3 = 0;
  system_ticks = 0;
}

-- Task 1 runs, 2 is ready and 3 is blocked.
abbrev pub three : Kernel
three = kernel_of running ready blocked 0 3

pub three-IsCounted : IsCounted three
unfolding count
three-IsCounted = record { current = omega arith; counted = refl }

-- Task 1 runs, and its child 2 is a zombie.
abbrev pub with_zombie : Kernel
with_zombie = kernel_of running zombie blocked 0 2

pub with_zombie-IsCounted : IsCounted with_zombie
unfolding count
with_zombie-IsCounted = record { current = omega arith; counted = refl }
