-- ===== src/Process/Reaping.antt =====
-- What a parent learns: `proc_wait`, `proc_kill` and `proc_reap_zombies`.
use native.Mathlib.Decide.{ℕ_discrete}
use hexa_os_alpha_build.Base.{
  ℕ, ◌+◌, ◌<◌, ◌≡◌, refl, ◌≢◌, Bool, true, false, not, ◌&&◌, ◌||◌, Option, none, some, arith, ◌⊎◌,
  inl, inr, update, scan_cases, IsFirst, if◌then◌else◌, ◌==◌, update_ne, update_self, is_neg, ap,
  Bool-cases, sym, ◌∙◌, NoneOf, eq→beq, ne→beq, scan_first, subst, ap-update,
}
use hexa_os_alpha_build.Base.Count.{count, count-le, count-ext}
use hexa_os_alpha_build.Process.{
  Kernel, Task, State, ready, running, blocked, zombie, dead, max_tasks, is_dead, is_zombie,
  proc_exit, end_current, proc_wait, proc_kill, proc_reap_zombies, decrement, set_task, minus_one,
  Kill, returns, exits,
}
use hexa_os_alpha_build.Process.Count.{is_live, live, IsCounted}
use hexa_os_alpha_build.Process.Lifetime.{proc_exit_lem, count-retire, ended, end_current_lem}

-- The zombie children of the running task.
abbrev pub zombie_child : Kernel → ℕ → Bool
zombie_child k i =
    (k.tasks i).parent_pid == (k.tasks k.current_task).pid && is_zombie (k.tasks i).state

-- How `proc_wait` ends: it frees the slot of the first zombie child, hands over its exit code and
-- returns its process identifier, or there is no zombie child and it returns -1.
pub data Waits (k : Kernel) : ℕ × Option ℕ × Kernel → Type 0 where
  reaped :
      (i : ℕ)
      → IsFirst (zombie_child k) 0 max_tasks i
      → Waits k (
        (k.tasks i).pid,
        some (k.tasks i).exit_code,
        set_task k i (record (k.tasks i) { state = dead }),
      )
  childless : NoneOf (zombie_child k) 0 max_tasks → Waits k (minus_one, none, k)

-- `proc_wait` frees the slot of the first zombie child, hands over its exit code and returns its
-- process identifier; where there is no zombie child it returns -1 and changes nothing.
pub proc_wait_lem : (k : Kernel) → Waits k (proc_wait k)
unfolding proc_wait
proc_wait_lem k = elim (scan_cases max_tasks 0 (zombie_child k) refl) [
  | inl (e, none_of) ↦ rw (e, proc_wait) (childless none_of)
  | inr (i, e, f) ↦ rw (e, proc_wait) (reaped i f)
]

zombie-not-live : (s : State) → is_zombie s ≡ true → is_live s ≡ false
zombie-not-live zombie h = refl
zombie-not-live dead h = cc
zombie-not-live ready h = cc
zombie-not-live running h = cc
zombie-not-live blocked h = cc

zombie_child-state :
    (k : Kernel) (i : ℕ) → zombie_child k i ≡ true → is_zombie (k.tasks i).state ≡ true
zombie_child-state k i h = ground arith

Waits-IsCounted : (k : Kernel) {r : ℕ × Option ℕ × Kernel} → Waits k r → IsCounted k → IsCounted r.2
Waits-IsCounted k (childless h) c = c
Waits-IsCounted k (reaped i f) c = record {
  current = c.current;
  counted =
      c.counted
      ∙ sym (
          count-ext max_tasks _ _ λ j _.
            ap-update (λ (t : Task). is_live t.state) k.tasks i
              (record (k.tasks i) { state = dead })
              (sym (zombie-not-live (k.tasks i).state (zombie_child-state k i f.hit))) j);
}

-- A task that another one can find by its process identifier.
abbrev pub named : Kernel → ℕ → ℕ → Bool
named k pid i = (k.tasks i).pid == pid && not (is_dead (k.tasks i).state)

abbrev pub killed : Kernel → ℕ → Kernel
killed k i = record k {
  tasks = update k.tasks i (record (k.tasks i) { state = zombie; exit_code = minus_one });
  num_tasks = decrement k.num_tasks;
}

-- How `proc_kill` ends: it refuses, runs `proc_exit` for the caller's own identifier, or makes a
-- zombie of the first task that is not dead and has the identifier.
pub data Kills (k : Kernel) (pid : ℕ) : Kill × Kernel → Type 0 where
  refused :
      (is_neg pid ≡ true) ⊎ ((pid ≡ 0) ⊎ NoneOf (named k pid) 0 max_tasks)
      → Kills k pid (returns minus_one, k)
  suicide :
      named k pid k.current_task ≡ true
      → Kills k pid (exits (proc_exit k minus_one).0, (proc_exit k minus_one).1)
  other :
      (i : ℕ)
      → IsFirst (named k pid) 0 max_tasks i
      → i ≢ k.current_task
      → Kills k pid (returns 0, killed k i)

-- `proc_kill` refuses identifiers that are not positive or that no task has; for the caller it runs
-- `proc_exit`; otherwise it makes a zombie of the first task that is not dead and has the identifier,
-- and takes one from the count.
pub proc_kill_lem : (k : Kernel) (pid : ℕ) → Kills k pid (proc_kill k pid)
unfolding proc_kill
proc_kill_lem k pid = elim (Bool-cases (is_neg pid || pid == 0)) [
  | inl bad ↦ rw bad (refused (ground arith))
  | inr good ↦ elim (scan_cases max_tasks 0 (named k pid) refl) [
    | inl (e, none_of) ↦ rw (good, e) (refused (inr (inr none_of)))
    | inr (i, e, f) ↦ elim (ℕ_discrete i k.current_task) [
      | yes me ↦
          rw (good, e)
            (rw (eq→beq i k.current_task me) (suicide (subst (λ j. named k pid j ≡ true) me f.hit)))
      | no ne ↦ rw (good, e) (rw (ne→beq i k.current_task ne) (other i f ne))
    ]
  ]
]

-- `proc_kill` keeps the count of live tasks, provided that the task that it finds is live.
pub proc_kill-IsCounted :
    (k : Kernel) (pid : ℕ)
    → IsCounted k
    → is_live (k.tasks k.current_task).state ≡ true
    → ((i : ℕ) → IsFirst (named k pid) 0 max_tasks i → is_live (k.tasks i).state ≡ true)
    → IsCounted (proc_kill k pid).1
proc_kill-IsCounted k pid c h all = go (proc_kill_lem k pid)
  where
    go : {r : Kill × Kernel} → Kills k pid r → IsCounted r.1
    go (refused _) = c
    go (suicide _) = (proc_exit_lem k minus_one c h).6
    go (other i f ne) = record {
      current = c.current;
      counted = omega (
        arith,
        c.counted,
        count-retire k.tasks i (record (k.tasks i) { state = zombie; exit_code = minus_one })
            f.before (all i f) refl,
        count-le max_tasks (live k.tasks),
      );
    }

-- Killing a task that is a zombie already returns 0 and takes one more from `num_tasks`, which then
-- falls short of the live tasks.
pub proc_kill_zombie :
    (k : Kernel) (pid i : ℕ)
    → IsCounted k
    → is_neg pid ≡ false
    → IsFirst (named k pid) 0 max_tasks i
    → i ≢ k.current_task
    → (k.tasks i).state ≡ zombie
    → 0 < pid
    → 0 < k.num_tasks
    → ((proc_kill k pid).0 ≡ returns 0)
      × ((proc_kill k pid).1.num_tasks + 1 ≡ count max_tasks (live (proc_kill k pid).1.tasks))
unfolding proc_kill
proc_kill_zombie k pid i c pos f ne z h h' =
    let bad : (is_neg pid || pid == 0) ≡ false = ground arith in
    let t : Task = record (k.tasks i) { state = zombie; exit_code = minus_one } in
    let same : count max_tasks (live (update k.tasks i t)) ≡ count max_tasks (live k.tasks) =
      count-ext max_tasks _ _
        λ j _. ap-update (λ (u : Task). is_live u.state) k.tasks i t (ap is_live (sym z)) j in
    rw (bad, scan_first max_tasks 0 (named k pid) i refl f, ne→beq i k.current_task ne, proc_kill)
      (refl, omega (arith, c.counted, same, count-le max_tasks (live k.tasks)))

-- When the running task exits and its parent, in slot `q`, then waits with no other zombie child, the
-- wait frees the slot and hands over the exit code, but it returns -1, as if there were no child.
pub wait_after_exit :
    (k : Kernel) (code q : ℕ)
    → k.current_task < max_tasks
    → k.current_task ≢ q
    → (k.tasks k.current_task).parent_pid ≡ (k.tasks q).pid
    → ((j : ℕ) → k.current_task ≢ j → zombie_child (record k { current_task = q }) j ≡ false)
    → let (r, status, k') = proc_wait (record (end_current k code) { current_task = q }) in
      (r ≡ minus_one) × (status ≡ some code) × ((k'.tasks k.current_task).state ≡ dead)
unfolding proc_wait
wait_after_exit k code q l ne parent alone =
    let c = k.current_task in
    let t = ended k code in
    let e : Kernel = record k {
      tasks = update k.tasks c t;
      num_tasks = decrement k.num_tasks;
      current_task = q;
    } in
    let at : e.tasks c ≡ t = update_self k.tasks c t in
    let mine : e.tasks q ≡ k.tasks q = update_ne k.tasks c t q ne in
    let first : IsFirst (zombie_child e) 0 max_tasks c = record {
      from = omega arith;
      before = l;
      hit = rw (at, mine) (ground arith);
      first = λ j _ lt. rw (update_ne k.tasks c t j (omega arith), mine) (alone j (omega arith));
    } in
    rw end_current_lem (
      rw (scan_first max_tasks 0 (zombie_child e) c refl first, proc_wait)
        (
          ap (λ (u : Task). u.pid) at,
          ap (λ (u : Task). some u.exit_code) at,
          ap (λ (u : Task). u.state) (update_self e.tasks c (record (e.tasks c) { state = dead })),
        ))

reaped_state :
    (t : Task)
    → let u : Task = if is_zombie t.state then record t { state = dead } else t in
      (is_live u.state ≡ is_live t.state) × (is_zombie u.state ≡ false) × (u.pid ≡ t.pid)
reaped_state t = elim (Bool-cases (is_zombie t.state)) [
  | inl z ↦ rw z (sym (zombie-not-live t.state z), refl, refl)
  | inr n ↦ rw n (refl, n, refl)
]

-- `proc_reap_zombies` leaves no zombie, keeps which tasks are live, and so their count, and every
-- process identifier.
pub proc_reap_zombies_lem :
    (k : Kernel)
    → IsCounted k
    → IsCounted (proc_reap_zombies k)
      × ((i : ℕ)
          → (is_zombie ((proc_reap_zombies k).tasks i).state ≡ false)
            × (((proc_reap_zombies k).tasks i).pid ≡ (k.tasks i).pid))
unfolding proc_reap_zombies
proc_reap_zombies_lem k c = (
  record {
    current = c.current;
    counted =
        c.counted
        ∙ sym (
            count-ext max_tasks (live (proc_reap_zombies k).tasks) (live k.tasks)
              (λ j _. (reaped_state (k.tasks j)).0));
  },
  λ i. ((reaped_state (k.tasks i)).1, (reaped_state (k.tasks i)).2),
)
