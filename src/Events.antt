-- ===== src/Events.antt =====
-- The event queues of process.c: `process_event_send` and `process_event_poll`.
pub mod Queue
mod Tests
use hexa_os_alpha_build.Base.{
  ℕ, ◌+◌, ◌%◌, Bool, true, false, not, ◌&&◌, ◌||◌, Option, none, some, update, ◌==◌, if◌then◌else◌,
  is_neg, scan, bit_and,
}
use hexa_os_alpha_build.Process.{Kernel, Task, Event, max_tasks, is_dead, set_task}

abbrev pub event_queue_size : ℕ
event_queue_size = 16

-- The critical section of `process_event_send` on the target: `none` where the queue is full.
pub enqueue : Task → Event → Option Task
enqueue t ev =
    let next = (t.event_head + 1) % event_queue_size in
    if next == t.event_tail
    then none
    else some (record t {
      event_queue = update t.event_queue t.event_head ev;
      event_head = next;
      event_pending = true;
    })

-- A task that `process_event_send` can find.
abbrev pub reachable : Kernel → ℕ → ℕ → Bool
reachable k pid i = (k.tasks i).pid == pid && not (is_dead (k.tasks i).state)

-- The event that the running task sends.
abbrev pub outgoing : Kernel → ℕ → ℕ → Event
outgoing k event_type payload_hash = record {
  event_type = event_type;
  sender_pid = if is_neg k.current_task then 0 else (k.tasks k.current_task).pid;
  sender_snap = 0;
  payload_hash = payload_hash;
  timestamp = k.system_ticks;
}

-- `process_event_send`: whether it returns 0; otherwise it returns -1.
pub process_event_send : Kernel → ℕ → ℕ → ℕ → Bool × Kernel
process_event_send k target_pid event_type payload_hash =
    elim (scan max_tasks 0 (reachable k target_pid)) [
      | none ↦ (false, k)
      | some i ↦ elim (enqueue (k.tasks i) (outgoing k event_type payload_hash)) [
        | none ↦ (false, k)
        | some t ↦ (true, set_task k i t)
      ]
    ]

-- event_type_mask && !(ev->event_type & event_type_mask)
abbrev pub masked : ℕ → Event → Bool
masked mask ev = not (mask == 0) && bit_and ev.event_type mask == 0

-- `process_event_poll` on the running task: the event that it hands over, or `none` for -1.
pub dequeue : ℕ → Task → Option Event × Task
dequeue mask t =
    let ev = t.event_queue t.event_tail in
    let tail = (t.event_tail + 1) % event_queue_size in
    if t.event_tail == t.event_head
    then (none, record t { event_pending = false })
    else if masked mask ev
    then (none, t)
    else (
      some ev,
      record t {
        event_tail = tail;
        event_pending = if tail == t.event_head then false else t.event_pending;
      },
    )

pub process_event_poll : Kernel → ℕ → Option Event × Kernel
process_event_poll k mask =
    let (ev, t) = dequeue mask (k.tasks k.current_task) in (ev, set_task k k.current_task t)
