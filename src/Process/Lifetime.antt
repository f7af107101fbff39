-- ===== src/Process/Lifetime.antt =====
-- The end of a task: `proc_exit`, `proc_wait`, `proc_kill` and `proc_reap_zombies`.
use native.Mathlib.Decide.{ℕ_discrete}
use hexa_os_alpha_build.Base.{
  ℕ, ◌+◌, ◌-◌, ◌%◌, ◌<◌, ◌≡◌, refl, ◌≢◌, Bool, true, false, arith, inl, inr, update, scan,
  scan_cases, if◌then◌else◌, ltb, update_ne, update_self, ap, sym, ◌∙◌, NoneOf, subst, fun_ext,
  Option-cases, ap-update, ◌*◌,
}
use hexa_os_alpha_build.Base.Count.{count, count-le, count-ext}
use hexa_os_alpha_build.Process.{
  Kernel, Task, State, ready, running, blocked, zombie, dead, max_tasks, reparent, run_next,
  end_current, proc_exit, decrement, is_runnable, minus_one, Switch, switched, halted,
}
use hexa_os_alpha_build.Process.Count.{is_live, live, IsCounted, count-update}

-- The comparison of `proc_exit` with `t->pid` happens after that is set to -1, so it changes no task.
reparent-minus_one : (t : Task) → reparent minus_one t ≡ t
unfolding reparent
reparent-minus_one t = ground arith

-- One live task fewer.
pub count-retire :
    (tasks : ℕ → Task) (i : ℕ) (t : Task)
    → i < max_tasks
    → is_live (tasks i).state ≡ true
    → is_live t.state ≡ false
    → count max_tasks (live (update tasks i t)) + 1 ≡ count max_tasks (live tasks)
count-retire tasks i t l h h' = ground (arith, count-update tasks i t l)

abbrev pub ended : Kernel → ℕ → Task
ended k code = record (k.tasks k.current_task) { exit_code = code; state = zombie; pid = minus_one }

-- Up to the search for another task, `proc_exit` changes its own task and the count.
pub end_current_lem :
    (k : Kernel) (code : ℕ)
    → end_current k code ≡ record k {
      tasks = update k.tasks k.current_task (ended k code);
      num_tasks = decrement k.num_tasks;
    }
unfolding end_current
end_current_lem k code =
    ap (λ (ts : ℕ → Task). record k { tasks = ts; num_tasks = decrement k.num_tasks })
      (fun_ext λ i. reparent-minus_one (update k.tasks k.current_task (ended k code) i))

end_current-IsCounted :
    (k : Kernel) (code : ℕ)
    → IsCounted k
    → is_live (k.tasks k.current_task).state ≡ true
    → IsCounted (end_current k code)
end_current-IsCounted k code c h = rw end_current_lem (record {
  current = c.current;
  counted = omega (
    arith,
    c.counted,
    count-retire k.tasks k.current_task (ended k code) c.current h refl,
    count-le max_tasks (live k.tasks),
  );
})

abbrev runnable_at : Kernel → ℕ → Bool
runnable_at k i = is_runnable (k.tasks i).state

-- How the search for another task ends: in a runnable task, which then runs, or with none.
pub data Runs (k : Kernel) : Switch × Kernel → Type 0 where
  found :
      {k' : Kernel} (next : ℕ)
      → next < max_tasks
      → runnable_at k next ≡ true
      → k'.current_task ≡ next
      → (k'.tasks next).state ≡ running
      → ((j : ℕ) → next ≢ j → k'.tasks j ≡ k.tasks j)
      → k'.num_tasks ≡ k.num_tasks
      → k'.tss_esp0 ≡ (k.tasks next).kernel_esp
      → Runs k (switched, k')
  nobody : NoneOf (runnable_at k) 0 max_tasks → Runs k (halted, k)

runnable-live : (s : State) → is_runnable s ≡ true → is_live s ≡ true
runnable-live ready h = refl
runnable-live running h = refl
runnable-live blocked h = refl
runnable-live zombie h = cc
runnable-live dead h = cc

-- Every slot is met by the rotation.
rotation : ℕ → ℕ → ℕ
rotation cur i = if ltb cur i then i - cur - 1 else i + 15 - cur

rotation_lem :
    (cur i : ℕ) → cur < 16 → i < 16 → (rotation cur i < 32) × ((cur + 1 + rotation cur i) % 16 ≡ i)
unfolding rotation
rotation_lem cur i l l' = ground arith

run_next_lem : (k : Kernel) → k.current_task < max_tasks → Runs k (run_next k)
unfolding run_next
run_next_lem k l =
    let slot = λ (i : ℕ). (k.current_task + 1 + i) % max_tasks in
    elim (scan_cases 32 0 (λ i. runnable_at k (slot i)) refl) [
      | inl (e, none_of) ↦
          rw (e, run_next)
            (nobody λ i _ l'.
              let r = rotation_lem k.current_task i l l' in
              subst (λ j. runnable_at k j ≡ false) r.1
                (none_of (rotation k.current_task i) (omega arith) r.0))
      | inr (i, e, f) ↦
          rw (e, run_next)
            (found (slot i) (omega arith) f.hit refl
              (ap (λ (t : Task). t.state)
                (update_self k.tasks (slot i) (record (k.tasks (slot i)) { state = running })))
              (update_ne k.tasks (slot i) _) refl refl)
    ]

Runs-IsCounted : (k : Kernel) {r : Switch × Kernel} → Runs k r → IsCounted k → IsCounted r.1
Runs-IsCounted k (nobody h) c = c
Runs-IsCounted k (found {k'} next l h e run others number esp0) c = record {
  current = rw e l;
  counted = number ∙ c.counted ∙ sym (count-ext max_tasks (live k'.tasks) (live k.tasks) same);
}
  where
    same : (j : ℕ) → j < max_tasks → live k'.tasks j ≡ live k.tasks j
    same j _ = elim (ℕ_discrete next j) [
      | yes q ↦ rw (← q) (ap is_live run ∙ sym (runnable-live (k.tasks next).state h))
      | no ne ↦ ap (λ (t : Task). is_live t.state) (others j ne)
    ]

-- `proc_exit` of a live task keeps the count of live tasks. The task becomes a zombie with its exit
-- code and the process identifier -1, no other slot changes before the search for a task to run, and
-- the search ends in a runnable task or, when there is none, halts. As no other slot changes, the
-- children of the task keep it as their parent: they are not handed over to init, which a comment in
-- the code announces.
pub proc_exit_lem :
    (k : Kernel) (code : ℕ)
    → IsCounted k
    → is_live (k.tasks k.current_task).state ≡ true
    → (e : Kernel) × ((e.tasks k.current_task).state ≡ zombie)
      × ((e.tasks k.current_task).exit_code ≡ code)
      × ((e.tasks k.current_task).pid ≡ minus_one)
      × ((j : ℕ) → k.current_task ≢ j → e.tasks j ≡ k.tasks j)
      × Runs e (proc_exit k code)
      × IsCounted (proc_exit k code).1
unfolding proc_exit
proc_exit_lem k code c h =
    let e = end_current k code in
    let ce = end_current-IsCounted k code c h in
    let r = run_next_lem e ce.current in
    let at = update_self k.tasks k.current_task (ended k code) in
    (
      e,
      rw end_current_lem (ap (λ (t : Task). t.state) at),
      rw end_current_lem (ap (λ (t : Task). t.exit_code) at),
      rw end_current_lem (ap (λ (t : Task). t.pid) at),
      rw end_current_lem (update_ne k.tasks k.current_task (ended k code)),
      r,
      Runs-IsCounted e r ce,
    )

run_next-parent_pid :
    (k : Kernel) (j : ℕ) → ((run_next k).1.tasks j).parent_pid ≡ (k.tasks j).parent_pid
unfolding run_next
run_next-parent_pid k j =
    let slot = λ (i : ℕ). (k.current_task + 1 + i) % max_tasks in
    elim (Option-cases (scan (max_tasks * 2) 0 (λ i. runnable_at k (slot i)))) [
      | inl e ↦ rw (e, run_next)
      | inr (i, e) ↦
          rw (e, run_next)
            (ap-update (λ (t : Task). t.parent_pid) k.tasks (slot i)
              (record (k.tasks (slot i)) { state = running }) refl j)
    ]

-- No child of a task that exits is handed over: every task keeps its parent, whatever it was.
pub proc_exit-parent_pid :
    (k : Kernel) (code j : ℕ) → ((proc_exit k code).1.tasks j).parent_pid ≡ (k.tasks j).parent_pid
unfolding proc_exit
proc_exit-parent_pid k code j =
    run_next-parent_pid (end_current k code) j
    ∙ rw end_current_lem
        (ap-update (λ (t : Task). t.parent_pid) k.tasks k.current_task (ended k code) refl j)
