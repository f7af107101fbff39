-- ===== src/Process/Frame.antt =====
-- The first dispatch of a task that `proc_create` made.
use hexa_os_alpha_build.Base.{ℕ, ◌+◌, ◌-◌, ◌*◌, ◌/◌, ◌≡◌, List, arith}
use hexa_os_alpha_build.Process.{Task, stack_words, push_all, kernel_frame, new_task}

-- The registers that the code which resumes a task sets from the task's stack.
pub record Registers : Type 0 where
  pub eip : ℕ
  pub cs : ℕ
  pub eflags : ℕ
  pub esp : ℕ

-- The word of a task's stack at an address.
abbrev word_at : ℕ → Task → ℕ → ℕ
word_at base t addr = t.stack ((addr - base) / 4)

-- `mov esp; add $16, %esp; popa; add $8, %esp; iret`: four segment registers, eight general
-- registers, and the interrupt's number and error code lie below what `iret` takes. The code segment
-- stays in ring 0, so `iret` takes three words.
pub resume : ℕ → Task → Registers
resume base t =
    let at = t.esp + 16 + 32 + 8 in
    record {
      eip = word_at base t at;
      cs = word_at base t (at + 4);
      eflags = word_at base t (at + 8);
      esp = at + 12;
    }

-- A task that `proc_create` made starts at its entry in the kernel's code segment with interrupts
-- enabled, and its stack pointer lies 8 bytes below the top of its stack, wherever that stack lies.
pub resume-new_task :
    (base entry : ℕ) (name : List ℕ) (priority parent page_dir : ℕ) (t : Task)
    → resume base (new_task base entry name priority parent page_dir t)
      ≡ record { eip = entry; cs = 8; eflags = 0x202; esp = base + 8184 }
unfolding resume new_task push_all kernel_frame
resume-new_task base entry name priority parent page_dir t =
    let at = base + 4 * stack_words - 76 + 16 + 32 + 8 in
    let i : (at - base) / 4 ≡ 2043 = omega arith in
    let j : (at + 4 - base) / 4 ≡ 2044 = omega arith in
    let l : (at + 8 - base) / 4 ≡ 2045 = omega arith in
    let e : at + 12 ≡ base + 8184 = omega arith in rw (i, j, l, e)
