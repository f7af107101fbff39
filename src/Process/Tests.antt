-- ===== src/Process/Tests.antt =====
-- The theorems on the task table, at small tables.
use hexa_os_alpha_build.Base.{
  ℕ, ◌+◌, ◌*◌, ◌≡◌, refl, ◌≢◌, true, false, List, [], ◌∷◌, Option, none, some, arith, IsFirst,
  NoneOf, ◌⊎◌,
}
use hexa_os_alpha_build.Process.{
  Kernel, ready, running, blocked, zombie, dead, minus_one, max_tasks, proc_create, proc_exit,
  end_current, proc_wait,
}
use hexa_os_alpha_build.Process.Samples.{kernel_of, three, three-IsCounted, with_zombie}
use hexa_os_alpha_build.Process.Count.{IsCounted, dead_at, live, proc_create_lem}
use hexa_os_alpha_build.Process.Lifetime.{Runs, proc_exit_lem}
use hexa_os_alpha_build.Process.Reaping.{named, zombie_child, wait_after_exit}

abbrev init_name : List ℕ
init_name = 105 ∷ 110 ∷ 105 ∷ 116 ∷ []

abbrev created : Option ℕ × Kernel
created = proc_create (λ i. 4096 * i) 0 three 256 init_name 1

proc_create_lem_example :
    IsCounted created.1
    × (((created.0 ≡ none) × (created.1 ≡ three) × NoneOf (dead_at three) 0 max_tasks)
        ⊎ ((i : ℕ) × (created.0 ≡ some 4)
            × IsFirst (dead_at three) 0 max_tasks i
            × ((created.1.tasks i).state ≡ ready)
            × ((created.1.tasks i).pid ≡ 4)
            × (created.1.num_tasks ≡ 3 + 1)
            × ((j : ℕ) → i ≢ j → created.1.tasks j ≡ three.tasks j)))
proc_create_lem_example = proc_create_lem (λ i. 4096 * i) 0 three 256 init_name 1 three-IsCounted

proc_exit_lem_example :
    (e : Kernel) × ((e.tasks 0).state ≡ zombie)
    × ((e.tasks 0).exit_code ≡ 7)
    × ((e.tasks 0).pid ≡ minus_one)
    × ((j : ℕ) → 0 ≢ j → e.tasks j ≡ three.tasks j)
    × Runs e (proc_exit three 7)
    × IsCounted (proc_exit three 7).1
proc_exit_lem_example = proc_exit_lem three 7 three-IsCounted refl

named_two : (i : ℕ) → IsFirst (named three 2) 0 max_tasks i → live three.tasks i ≡ true
named_two i f = ground (arith, f.hit)

IsFirst-two : IsFirst (named with_zombie 2) 0 max_tasks 1
IsFirst-two = record {
  from = omega arith;
  before = omega arith;
  hit = refl;
  first = λ k l l'. ground arith;
}

-- Task 2 runs; its parent, task 1, is in slot 0.
abbrev child_runs : Kernel
child_runs = kernel_of ready running blocked 1 3

no_other_zombie : (j : ℕ) → 1 ≢ j → zombie_child (record child_runs { current_task = 0 }) j ≡ false
no_other_zombie j ne = ground arith

wait_after_exit_example :
    let (r, status, k') = proc_wait (record (end_current child_runs 7) { current_task = 0 }) in
    (r ≡ minus_one) × (status ≡ some 7) × ((k'.tasks 1).state ≡ dead)
wait_after_exit_example =
    wait_after_exit child_runs 7 0 (omega arith) (omega arith) refl no_other_zombie
