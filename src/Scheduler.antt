-- ===== src/Scheduler.antt =====
-- `schedule` of process.c, which the timer interrupt calls.
pub mod Choice
mod Tests
use hexa_os_alpha_build.Base.{
  ℕ, zero, suc, ◌+◌, ◌%◌, ◌^◌, Bool, true, false, not, ◌&&◌, ◌||◌, Option, none, some, update, ◌==◌,
  ltb, if◌then◌else◌, scan,
}
use hexa_os_alpha_build.Process.{
  Kernel, Task, State, ready, running, max_tasks, is_runnable, set_task,
}

-- A C `int`, shifted so that the order of the numbers is that of the integers.
abbrev pub rank : ℕ → ℕ
rank x = (x + 2 ^ 31) % 2 ^ 32

abbrev pub int_lt : ℕ → ℕ → Bool
int_lt a b = ltb (rank a) (rank b)

-- if (state == TASK_RUNNING) state = TASK_READY;
abbrev pub preempt : State → State
preempt running = ready
preempt s = s

abbrev pub candidate : Kernel → ℕ → ℕ
candidate k i = (k.current_task + i) % max_tasks

abbrev pub runnable : Kernel → ℕ → Bool
runnable k i = is_runnable (k.tasks i).state

abbrev pub priority_of : Kernel → ℕ → ℕ
priority_of k i = (k.tasks i).priority

-- Whether pass 0 moves on from `next` to the candidate `c`.
pub prefers : Kernel → ℕ → ℕ → Bool
prefers k next c =
    runnable k c
    && (not (int_lt (priority_of k c) (priority_of k next))
        && (next == k.current_task || int_lt (priority_of k next) (priority_of k c)))

-- Pass 0 of the search, with the rounds left, the loop's `i`, and the task chosen so far.
pub pass_zero : Kernel → ℕ → ℕ → ℕ → ℕ
pass_zero k zero i next = next
pass_zero k (suc n) i next =
    pass_zero k n (i + 1) (if prefers k next (candidate k i) then candidate k i else next)

-- Pass 1: the first candidate that can run.
pub pass_one : Kernel → ℕ
pass_one k = elim (scan 15 1 (λ i. runnable k (candidate k i))) [
  | none ↦ k.current_task
  | some i ↦ candidate k i
]

-- Both passes. Pass 1 runs only if pass 0 has found nothing.
pub choose : Kernel → ℕ
choose k =
    let next = pass_zero k 15 1 k.current_task in
    if next == k.current_task then pass_one k else next

-- The state that `schedule` saves of the interrupted task; `r` is the address of its registers.
pub save : Kernel → ℕ → Kernel
save k r =
    let t = k.tasks k.current_task in
    set_task k k.current_task (record t { esp = r; state = preempt t.state })

-- The end of `schedule`, for the choice that the search has made: `none` where it returns to the
-- interrupted task, and the chosen slot where it switches.
pub switch_to : Kernel → ℕ → Option ℕ × Kernel
switch_to s next =
    let t = s.tasks next in
    if next == s.current_task then (none, s) else (
      some next,
      record s {
        tasks = update s.tasks next (record t { state = running });
        current_task = next;
        tss_esp0 = t.kernel_esp;
        cr3 = if t.page_dir == 0 then s.cr3 else t.page_dir;
      },
    )

pub schedule : Kernel → ℕ → Option ℕ × Kernel
schedule k r =
    let s = save k r in if not (int_lt 1 k.num_tasks) then (none, k) else switch_to s (choose s)
