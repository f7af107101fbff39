-- ===== src/Scheduler/Tests.antt =====
-- The scheduler on a small table.
use hexa_os_alpha_build.Base.{◌≡◌, refl, arith}
use hexa_os_alpha_build.Process.Samples.{three}
use hexa_os_alpha_build.Scheduler.{save, schedule, choose, pass_zero, prefers}
use hexa_os_alpha_build.Scheduler.Choice.{Schedules, schedule-Schedules}

-- Task 1 is interrupted, and task 2 has the higher priority.
choose-three : choose three ≡ 1
unfolding choose pass_zero prefers
choose-three = refl

schedule-Schedules_example : Schedules three (save three 4096) (schedule three 4096)
schedule-Schedules_example = schedule-Schedules three 4096 (omega arith)
