-- ===== src/Sync.antt =====
-- The mutexes and semaphores of sync.c. A test-and-set is one atomic step, and so is what stands
-- between cli and sti; a task that spins takes the step again.
pub mod Mutex
pub mod Semaphore
mod Tests
use hexa_os_alpha_build.Base.{
  ℕ, ◌+◌, ◌-◌, ◌%◌, ◌^◌, Bool, true, false, not, ◌&&◌, ◌==◌, if◌then◌else◌, is_neg,
}

-- `mutex_t`
pub record MutexState : Type 0 where
  pub locked : Bool
  pub owner : ℕ

abbrev pub no_owner : ℕ
no_owner = 0xFFFFFFFF

-- `mutex_init`, whatever was there.
abbrev pub mutex_init : MutexState
mutex_init = record { locked = false; owner = no_owner }

-- __sync_lock_test_and_set(&m->locked, 1): what was there, and the mutex after.
pub test_and_set : MutexState → Bool × MutexState
test_and_set m = (m.locked, record m { locked = true })

-- Where a task stands: outside; in `mutex_lock` behind the test-and-set that found the mutex free; in
-- the section that the mutex protects; in `mutex_unlock` behind the write to `owner`.
pub data Place : Type 0 where
  outside acquired inside releasing : Place

-- One round of `mutex_lock` of a task: where the task stands then.
pub lock_round : MutexState → Place × MutexState
lock_round m = let (old, m') = test_and_set m in (if old then outside else acquired, m')

-- The end of `mutex_lock`.
pub lock_end : MutexState → MutexState
lock_end m = record m { owner = 1 }

-- `mutex_trylock`: whether it returns 1.
pub mutex_trylock : MutexState → Bool × MutexState
mutex_trylock m = let (old, m') = test_and_set m in (not old, m')

-- The two writes of `mutex_unlock`.
pub unlock_owner : MutexState → MutexState
unlock_owner m = record m { owner = no_owner }

pub unlock_release : MutexState → MutexState
unlock_release m = record m { locked = false }

-- `semaphore_t`
pub record SemaphoreState : Type 0 where
  pub val : ℕ
  pub waiters : ℕ

pub sem_init : ℕ → SemaphoreState
sem_init val = record { val = val; waiters = 0 }

-- s->val > 0, on a signed number
abbrev pub is_positive : ℕ → Bool
is_positive val = not (is_neg val) && not (val == 0)

-- One round of `sem_wait`: whether the task goes on.
pub wait_round : SemaphoreState → Bool × SemaphoreState
wait_round s =
    if is_positive s.val
    then (true, record s { val = (s.val + 2 ^ 32 - 1) % 2 ^ 32 })
    else (false, record s { waiters = (s.waiters + 1) % 2 ^ 32 })

pub sem_signal : SemaphoreState → SemaphoreState
sem_signal s = record { val = (s.val + 1) % 2 ^ 32; waiters = 0 }
