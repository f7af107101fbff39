-- ===== src/Sync/Tests.antt =====
-- One task that locks a mutex, and one wait on a semaphore.
use hexa_os_alpha_build.Base.{ℕ, ◌+◌, ◌≡◌, refl, update}
use hexa_os_alpha_build.Sync.{
  outside, acquired, inside, mutex_init, lock_round, lock_end, test_and_set, sem_init, sem_signal,
}
use hexa_os_alpha_build.Sync.Mutex.{IsExclusive, free, locks, enters, mutual_exclusion}
use hexa_os_alpha_build.Sync.Mutex as M
use hexa_os_alpha_build.Sync.Semaphore as S
use hexa_os_alpha_build.Sync.Semaphore.{sem_wait_lem}

abbrev unlocked : M.World
unlocked = record { mutex = mutex_init; place = λ _. outside }

-- Task 3 has taken the mutex, and is in the section.
abbrev got : M.World
got = record {
  mutex = (lock_round mutex_init).1;
  place = update (λ _. outside) 3 (lock_round mutex_init).0;
}

abbrev entered : M.World
entered = record { mutex = lock_end got.mutex; place = update got.place 3 inside }

unlocked-IsExclusive : IsExclusive unlocked
unlocked-IsExclusive = free refl (λ t. refl)

acquires : got.place 3 ≡ acquired
unfolding lock_round test_and_set
acquires = refl

abbrev locked : M.Reach unlocked entered
locked = M.then_step (M.then_step M.start (locks unlocked 3 refl)) (enters got 3 acquires)

locked-AllOwn : M.AllOwn locked
unfolding M.AllOwn M.IsOwn
locked-AllOwn = (tt, (tt, tt))

abbrev task_three : ℕ
task_three = 3

mutual_exclusion_example : task_three ≡ task_three
mutual_exclusion_example =
    mutual_exclusion {w = unlocked} {v = entered} 3 3 locked locked-AllOwn unlocked-IsExclusive refl
      refl

abbrev signalled : S.World
signalled = record { sem = sem_signal (sem_init 0); passed = 0; signals = 0 + 1 }
