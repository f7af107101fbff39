-- ===== src/Scheduler/Choice.antt =====
-- Which task `schedule` picks.
use native.Mathlib.Decide.{ℕ_discrete}
use hexa_os_alpha_build.Base.{
  ℕ, zero, suc, ◌+◌, ◌-◌, ◌%◌, ◌≤◌, ◌<◌, ◌≡◌, refl, ◌≢◌, true, false, Option, none, some, arith,
  inl, inr, scan_cases, IsFirst, if◌then◌else◌, ltb, ◌==◌, update_ne, update_self, ap, Bool-cases,
  sym, eq→beq, ne→beq, subst,
}
use hexa_os_alpha_build.Process.{Kernel, Task, running, max_tasks}
use hexa_os_alpha_build.Scheduler.{
  rank, int_lt, candidate, runnable, priority_of, prefers, pass_zero, pass_one, choose, save,
  schedule, switch_to,
}

-- The rank of a slot's priority.
abbrev pub rank_of : Kernel → ℕ → ℕ
rank_of k i = rank (priority_of k i)

-- What pass 0 knows of a choice when it has seen the candidates with index below `i`: the choice is
-- still the current task and each candidate that can run ranks below it, or it is another task that
-- can run and ranks no lower than any of them, nor than the current task.
pub data Chosen (k : Kernel) (i next : ℕ) : Type 0 where
  current :
      next ≡ k.current_task
      → ((j : ℕ)
          → 0 < j
          → j < i
          → runnable k (candidate k j) ≡ true
          → rank_of k (candidate k j) < rank_of k k.current_task)
      → Chosen k i next
  best :
      (m : ℕ)
      → 0 < m
      → m < i
      → next ≡ candidate k m
      → runnable k next ≡ true
      → rank_of k k.current_task ≤ rank_of k next
      → ((j : ℕ)
          → 0 < j
          → j < i
          → runnable k (candidate k j) ≡ true
          → rank_of k (candidate k j) ≤ rank_of k next)
      → Chosen k i next

-- The bound for one more candidate.
extend :
    (k : Kernel) (P : ℕ → Type 0) (i : ℕ)
    → ((j : ℕ) → 0 < j → j < i → runnable k (candidate k j) ≡ true → P (candidate k j))
    → (runnable k (candidate k i) ≡ true → P (candidate k i))
    → (j : ℕ) → 0 < j
    → j < i + 1
    → runnable k (candidate k j) ≡ true
    → P (candidate k j)
extend k P i old new j p l r = elim (ℕ_discrete j i) [
  | yes e ↦
      subst (λ m. P (candidate k m)) (sym e)
        (new (subst (λ m. runnable k (candidate k m) ≡ true) e r))
  | no ne ↦ old j p (omega arith) r
]

candidate-ne :
    (k : Kernel) (i : ℕ) → k.current_task < 16 → 0 < i → i < 16 → candidate k i ≢ k.current_task
candidate-ne k i l p l' = omega arith

-- What a preference says, read off the test.
prefers-true :
    (k : Kernel) (next c : ℕ)
    → prefers k next c ≡ true
    → (runnable k c ≡ true) × (rank_of k next ≤ rank_of k c)
unfolding prefers
prefers-true k next c e = ground arith

prefers-false :
    (k : Kernel) (next c : ℕ)
    → prefers k next c ≡ false
    → runnable k c ≡ true
    → (rank_of k c ≤ rank_of k next) × (next ≡ k.current_task → rank_of k c < rank_of k next)
unfolding prefers
prefers-false k next c e r = (ground arith, ground arith)

module _ (k : Kernel) (i next : ℕ) (l : k.current_task < max_tasks) (p : 0 < i) (l' : i < 16) where
  takes : prefers k next (candidate k i) ≡ true → Chosen k i next → Chosen k (i + 1) (candidate k i)
  takes e (current q all) =
      let (r, le) = prefers-true k next (candidate k i) e in
      let low : rank_of k k.current_task ≤ rank_of k (candidate k i) =
        subst (λ n. rank_of k n ≤ rank_of k (candidate k i)) q le in
      best i p (omega arith) refl r low (
        extend k (λ c. rank_of k c ≤ rank_of k (candidate k i)) i
          (λ j p' l'' r'. let h = all j p' l'' r' in omega (arith, h, low)) (λ _. omega arith))
  takes e (best m _ _ _ _ low all) =
      let (r, le) = prefers-true k next (candidate k i) e in
      best i p (omega arith) refl r (omega (arith, low, le)) (
        extend k (λ c. rank_of k c ≤ rank_of k (candidate k i)) i
          (λ j p' l'' r'. let h = all j p' l'' r' in omega (arith, h, le)) (λ _. omega arith))

  keeps : prefers k next (candidate k i) ≡ false → Chosen k i next → Chosen k (i + 1) next
  keeps e (current q all) = current q (
      extend k (λ c. rank_of k c < rank_of k k.current_task) i all
        λ r.
          subst (λ n. rank_of k (candidate k i) < rank_of k n) q
            ((prefers-false k next (candidate k i) e r).1 q))
  keeps e (best m pm lm q r low all) = best m pm (omega arith) q r low (
      extend k (λ c. rank_of k c ≤ rank_of k next) i all
        λ r'. (prefers-false k next (candidate k i) e r').0)

  step-Chosen :
      Chosen k i next
      → Chosen k (i + 1) (if prefers k next (candidate k i) then candidate k i else next)
  step-Chosen c = elim (Bool-cases (prefers k next (candidate k i))) [
    | inl e ↦ rw e (takes e c)
    | inr e ↦ rw e (keeps e c)
  ]

pass_zero-Chosen :
    (k : Kernel) (n i next : ℕ)
    → k.current_task < max_tasks
    → 0 < i
    → i + n ≡ 16
    → Chosen k i next
    → Chosen k 16 (pass_zero k n i next)
unfolding pass_zero
pass_zero-Chosen k zero i next l p e c = subst (λ m. Chosen k m next) (omega arith) c
pass_zero-Chosen k (suc n) i next l p e c =
    pass_zero-Chosen k n (i + 1) _ l (omega arith) (omega arith)
      (step-Chosen k i next l p (omega arith) c)

-- Every other slot is a candidate.
turn : ℕ → ℕ → ℕ
turn cur i = if ltb cur i then i - cur else i + 16 - cur

turn_lem :
    (cur i : ℕ)
    → cur < 16
    → i < 16
    → i ≢ cur
    → (0 < turn cur i) × (turn cur i < 16) × ((cur + turn cur i) % 16 ≡ i)
unfolding turn
turn_lem cur i l l' ne = ground arith

-- The choice of `schedule`, over the slots other than the current one: none that can run; or one of
-- the highest priority, where that is at least the current task's; or, where all that can run have
-- less, the first of them in the rotation.
pub data Choice (k : Kernel) (next : ℕ) : Type 0 where
  nobody :
      next ≡ k.current_task
      → ((i : ℕ) → i < max_tasks → i ≢ k.current_task → runnable k i ≡ false)
      → Choice k next
  highest :
      next < max_tasks
      → next ≢ k.current_task
      → runnable k next ≡ true
      → rank_of k k.current_task ≤ rank_of k next
      → ((i : ℕ)
          → i < max_tasks
          → i ≢ k.current_task
          → runnable k i ≡ true
          → rank_of k i ≤ rank_of k next)
      → Choice k next
  lower :
      (m : ℕ)
      → next ≡ candidate k m
      → IsFirst (λ i. runnable k (candidate k i)) 1 16 m
      → ((i : ℕ)
          → i < max_tasks
          → i ≢ k.current_task
          → runnable k i ≡ true
          → rank_of k i < rank_of k k.current_task)
      → Choice k next

-- What holds of every candidate holds of every other slot.
all_slots :
    (k : Kernel) (P : ℕ → Type 0)
    → k.current_task < max_tasks
    → ((j : ℕ) → 0 < j → j < 16 → P (candidate k j))
    → (i : ℕ) → i < max_tasks
    → i ≢ k.current_task
    → P i
all_slots k P l all i l' ne =
    let t = turn_lem k.current_task i l l' ne in subst P t.2 (all (turn k.current_task i) t.0 t.1)

module _ (k : Kernel) (l : k.current_task < max_tasks) where
  pass_one-Choice :
      ((j : ℕ)
        → 0 < j
        → j < 16
        → runnable k (candidate k j) ≡ true
        → rank_of k (candidate k j) < rank_of k k.current_task)
      → Choice k (pass_one k)
  unfolding pass_one
  pass_one-Choice all = elim (scan_cases 15 1 (λ i. runnable k (candidate k i)) refl) [
    | inl (e, none_of) ↦
        rw (e, pass_one) (nobody refl (all_slots k (λ i. runnable k i ≡ false) l none_of))
    | inr (m, e, f) ↦
        rw (e, pass_one)
          (lower m refl f
            (all_slots k (λ i. runnable k i ≡ true → rank_of k i < rank_of k k.current_task) l all))
  ]

  finish :
      (next : ℕ) → Chosen k 16 next → Choice k (if next == k.current_task then pass_one k else next)
  finish next (current q all) = rw (eq→beq next k.current_task q) (pass_one-Choice all)
  finish next (best m p l' q r low all) =
      let ne : next ≢ k.current_task = omega arith in
      rw (ne→beq next k.current_task ne) (
        highest (omega arith) ne r low
          (all_slots k (λ i. runnable k i ≡ true → rank_of k i ≤ rank_of k next) l all))

  -- The search always makes this choice.
  pub choose-Choice : Choice k (choose k)
  unfolding choose
  choose-Choice = finish (pass_zero k 15 1 k.current_task) (
      pass_zero-Chosen k 15 1 k.current_task l (omega arith) refl
        (current refl (λ j p l' r. absurd (omega arith))))

current_task-save : (k : Kernel) (r : ℕ) → (save k r).current_task ≡ k.current_task
unfolding save
current_task-save k r = refl

-- How `schedule` ends, in terms of the state `s` with the interrupted task saved: it leaves the kernel
-- alone where at most one task is left, it returns to the interrupted task where no other can run, and
-- otherwise it switches to the choice, which then runs.
pub data Schedules (k s : Kernel) : Option ℕ × Kernel → Type 0 where
  alone : int_lt 1 k.num_tasks ≡ false → Schedules k s (none, k)
  returns :
      ((i : ℕ) → i < max_tasks → i ≢ k.current_task → runnable s i ≡ false)
      → Schedules k s (none, s)
  switches :
      {t : Kernel} (next : ℕ)
      → int_lt 1 k.num_tasks ≡ true
      → Choice s next
      → next < max_tasks
      → next ≢ k.current_task
      → runnable s next ≡ true
      → t.current_task ≡ next
      → (t.tasks next).state ≡ running
      → t.tss_esp0 ≡ (s.tasks next).kernel_esp
      → ((i : ℕ) → next ≢ i → t.tasks i ≡ s.tasks i)
      → Schedules k s (some next, t)

switched :
    (k s : Kernel) (next : ℕ)
    → s.current_task ≡ k.current_task
    → int_lt 1 k.num_tasks ≡ true
    → Choice s next
    → next < max_tasks
    → next ≢ s.current_task
    → runnable s next ≡ true
    → Schedules k s (switch_to s next)
unfolding switch_to
switched k s next q e c l ne r = rw (ne→beq next s.current_task ne) (
    switches next e c l (rw (← q) ne) r refl
      (ap (λ (t : Task). t.state)
        (update_self s.tasks next (record (s.tasks next) { state = running })))
      refl (update_ne s.tasks next (record (s.tasks next) { state = running })))

switch_to-Schedules :
    (k s : Kernel) (next : ℕ)
    → k.current_task < max_tasks
    → s.current_task ≡ k.current_task
    → int_lt 1 k.num_tasks ≡ true
    → Choice s next
    → Schedules k s (switch_to s next)
unfolding switch_to
switch_to-Schedules k s next l q e (nobody here none_of) =
    rw (eq→beq next s.current_task here)
      (returns (subst (λ c. (i : ℕ) → i < max_tasks → i ≢ c → runnable s i ≡ false) q none_of))
switch_to-Schedules k s next l q e (highest l' ne r low all) =
    switched k s next q e (highest l' ne r low all) l' ne r
switch_to-Schedules k s next l q e (lower m here f all) =
    let ne = candidate-ne s m (rw q l) f.from f.before in
    switched k s next q e (lower m here f all) (omega (arith, here)) (rw here ne) (rw here f.hit)

-- `schedule` switches exactly when more than one task is left and another one can run. The choice has
-- the highest priority of the others where that is at least the current task's; otherwise it is the
-- first in the rotation that can run.
pub schedule-Schedules :
    (k : Kernel) (r : ℕ) → k.current_task < max_tasks → Schedules k (save k r) (schedule k r)
unfolding schedule
schedule-Schedules k r l = elim (Bool-cases (int_lt 1 k.num_tasks)) [
  | inl e ↦ rw e (
      switch_to-Schedules k (save k r) (choose (save k r)) l (current_task-save k r) e
        (choose-Choice (save k r) (rw current_task-save l)))
  | inr e ↦ rw e (alone e)
]
