-- ===== src/Sync/Semaphore.antt =====
-- Any number of tasks that wait on and signal one semaphore.
use hexa_os_alpha_build.Base.{
  ℕ, ◌+◌, ◌^◌, ◌<◌, ◌≤◌, ◌≡◌, arith, ltb, if◌then◌else◌, Bool-cases, inl, inr,
}
use hexa_os_alpha_build.Sync.{SemaphoreState, sem_init, is_positive, wait_round, sem_signal}

-- The semaphore, how many waits have gone on, and how many signals there were.
pub record World : Type 0 where
  pub sem : SemaphoreState
  pub passed : ℕ
  pub signals : ℕ

pub data Step : World → World → Type 0 where
  waits :
      (w : World)
      → Step w (record w {
        sem = (wait_round w.sem).1;
        passed = if (wait_round w.sem).0 then w.passed + 1 else w.passed;
      })
  signals : (w : World) → Step w (record w { sem = sem_signal w.sem; signals = w.signals + 1 })

pub data Reach (w : World) : World → Type 0 where
  start : Reach w w
  then_step : {u v : World} → Reach w u → Step u v → Reach w v

-- With `n` to begin with, the value is what was there and was signalled, less what has passed.
abbrev pub IsBalanced : ℕ → World → Type 0
IsBalanced n w = w.sem.val + w.passed ≡ n + w.signals

Step-IsBalanced :
    {w v : World} (n : ℕ) → Step w v → n + v.signals < 2 ^ 31 → IsBalanced n w → IsBalanced n v
unfolding wait_round sem_signal
Step-IsBalanced n (waits w) l b = elim (Bool-cases (is_positive w.sem.val)) [
  | inl y ↦ rw y (ground arith)
  | inr x ↦ rw x b
]
Step-IsBalanced n (signals w) l b = omega arith

Step-signals : {w v : World} → Step w v → w.signals ≤ v.signals
Step-signals (waits w) = omega arith
Step-signals (signals w) = omega arith

Reach-IsBalanced :
    {w v : World} (n : ℕ) → Reach w v → n + v.signals < 2 ^ 31 → IsBalanced n w → IsBalanced n v
Reach-IsBalanced n start l b = b
Reach-IsBalanced n (then_step r s) l b =
    Step-IsBalanced n s l (Reach-IsBalanced n r (omega (arith, Step-signals s)) b)

-- After any sequence of rounds of `sem_wait` and of `sem_signal` on a semaphore that began with `n`,
-- while that and the signals stay below 2^31: the value and the waits that went on add up to `n` and
-- the signals, so no more waits go on than that; and the next wait goes on exactly when fewer have.
pub sem_wait_lem :
    {v : World} (n : ℕ)
    → Reach (record { sem = sem_init n; passed = 0; signals = 0 }) v
    → n + v.signals < 2 ^ 31
    → (v.sem.val + v.passed ≡ n + v.signals) × ((wait_round v.sem).0 ≡ ltb v.passed (n + v.signals))
unfolding wait_round sem_init
sem_wait_lem {v} n r l =
    let b : v.sem.val + v.passed ≡ n + v.signals = Reach-IsBalanced n r l (omega arith) in
    (b, ground arith)
