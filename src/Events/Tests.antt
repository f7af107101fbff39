-- ===== src/Events/Tests.antt =====
-- The event queues of a small table.
use hexa_os_alpha_build.Base.{ℕ, ◌≡◌, ◌≢◌, arith, [], not, ap, sym, ◌==◌, Bool-cases, inl, inr}
use hexa_os_alpha_build.Base.Lists.{is_empty}
use hexa_os_alpha_build.Ring.{contents, contents_empty}
use hexa_os_alpha_build.Process.{State, running, ready, blocked, dead, minus_one}
use hexa_os_alpha_build.Process.Samples.{three, no_event, task_of}
use hexa_os_alpha_build.Events.{outgoing, process_event_send, process_event_poll}
use hexa_os_alpha_build.Events.Queue.{
  IsQueue, IsQueued, Sends, Polls, process_event_send_lem, process_event_poll_lem,
}

no_events : contents (λ _. no_event) 16 0 0 ≡ []
no_events = contents_empty (λ _. no_event) 16 0 (omega arith)

task_of-IsQueue :
    (pid : ℕ) (state : State) (parent priority : ℕ) → IsQueue (task_of pid state parent priority)
task_of-IsQueue pid state parent priority = record {
  range = omega arith;
  pending = ap (λ es. not (is_empty es)) (sym no_events);
}

three-IsQueued : IsQueued three
three-IsQueued i = elim (Bool-cases (i == 0)) [
  | inl a ↦ rw a (task_of-IsQueue 1 running minus_one 1)
  | inr a ↦ elim (Bool-cases (i == 1)) [
    | inl b ↦ rw (a, b) (task_of-IsQueue 2 ready 1 2)
    | inr b ↦ elim (Bool-cases (i == 2)) [
      | inl c ↦ rw (a, b, c) (task_of-IsQueue 3 blocked 1 1)
      | inr c ↦ rw (a, b, c) (task_of-IsQueue minus_one dead minus_one 1)
    ]
  ]
]

process_event_send_lem_example :
    Sends three 2 (outgoing three 5 9) (process_event_send three 2 5 9)
    × IsQueued (process_event_send three 2 5 9).1
process_event_send_lem_example = process_event_send_lem three 2 5 9 three-IsQueued

process_event_poll_lem_example :
    let (ev, u) = process_event_poll three 1 in
    Polls 1 (three.tasks 0) (ev, u.tasks 0)
    × ((j : ℕ) → 0 ≢ j → u.tasks j ≡ three.tasks j)
    × IsQueued u
process_event_poll_lem_example = process_event_poll_lem three 1 three-IsQueued
