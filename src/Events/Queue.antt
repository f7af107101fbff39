-- ===== src/Events/Queue.antt =====
-- A task's events form a FIFO of at most 15, and `event_pending` says whether it is empty.
use native.Mathlib.Decide.{ℕ_discrete}
use hexa_os_alpha_build.Base.{
  ℕ, ◌+◌, ◌%◌, ◌<◌, ◌≡◌, refl, ◌≢◌, Bool, true, false, not, Option, none, some, List, [], ◌∷◌, ◌++◌,
  arith, ltb, update, inl, inr, ◌⊎◌, Bool-cases, ap, eq→beq, ne→beq, update_self, update_ne,
  scan_cases, NoneOf, IsFirst, sym, ◌∙◌, update-all, subst,
}
use hexa_os_alpha_build.Base.Lists.{length, length-append, is_empty}
use hexa_os_alpha_build.Ring.{
  InRange, used-lt, contents, length-contents, contents_put, contents_get, contents_empty,
  used_full, is_empty-contents,
}
use hexa_os_alpha_build.Process.{Kernel, Task, Event, max_tasks}
use hexa_os_alpha_build.Events.{
  event_queue_size, enqueue, reachable, outgoing, process_event_send, masked, dequeue,
  process_event_poll,
}

abbrev pub events : Task → List Event
events t = contents t.event_queue event_queue_size t.event_head t.event_tail

pub record IsQueue (t : Task) : Type 0 where
  pub range : InRange event_queue_size t.event_head t.event_tail
  pub pending : t.event_pending ≡ not (is_empty (events t))

length-events : (t : Task) → IsQueue t → length (events t) < 16
length-events t v = omega (
  arith,
  length-contents t.event_queue 16 t.event_head t.event_tail,
  used-lt 16 t.event_head t.event_tail v.range,
)

-- A send puts the event at the end, or finds 15 events there.
pub enqueue_lem :
    (t : Task) (ev : Event)
    → IsQueue t
    → ((length (events t) ≡ 15) × (enqueue t ev ≡ none))
      ⊎ ((u : Task) × (ltb (length (events t)) 15 ≡ true)
          × (enqueue t ev ≡ some u)
          × (events u ≡ events t ++ ev ∷ [])
          × IsQueue u)
unfolding enqueue
enqueue_lem t ev v = elim (ℕ_discrete ((t.event_head + 1) % 16) t.event_tail) [
  | yes e ↦ inl (
    omega (
      arith,
      length-contents t.event_queue 16 t.event_head t.event_tail,
      used_full 16 t.event_head t.event_tail v.range e,
    ),
    ground arith,
  )
  | no ne ↦
      let u : Task = record t {
        event_queue = update t.event_queue t.event_head ev;
        event_head = (t.event_head + 1) % 16;
        event_pending = true;
      } in
      let eq : events u ≡ events t ++ ev ∷ [] =
        contents_put t.event_queue 16 t.event_head t.event_tail v.range ev ne in
      let range : InRange 16 u.event_head u.event_tail = omega (arith, v.range) in
      let room : length (events t) < 15 = omega (
        arith,
        ap length eq,
        length-append (events t) (ev ∷ []),
        length-contents u.event_queue 16 u.event_head u.event_tail,
        used-lt 16 u.event_head u.event_tail range,
      ) in
      inr (
        u,
        ground arith,
        ground arith,
        eq,
        record {
          range = range;
          pending =
              ground (arith, is_empty-contents u.event_queue 16 u.event_head u.event_tail range);
        },
      )
]

-- What a poll does to a queue: nothing from an empty queue, nothing where the mask rejects the oldest
-- event, and otherwise it takes the oldest event.
pub data Polls (mask : ℕ) (t : Task) : Option Event × Task → Type 0 where
  empty : {u : Task} → events t ≡ [] → events u ≡ [] → Polls mask t (none, u)
  rejected :
      (ev : Event) (es : List Event)
      → events t ≡ ev ∷ es
      → masked mask ev ≡ true
      → Polls mask t (none, t)
  taken :
      {u : Task} (ev : Event)
      → events t ≡ ev ∷ events u
      → masked mask ev ≡ false
      → Polls mask t (some ev, u)

pub dequeue_lem :
    (mask : ℕ) (t : Task) → IsQueue t → Polls mask t (dequeue mask t) × IsQueue (dequeue mask t).1
unfolding dequeue
dequeue_lem mask t v = elim (ℕ_discrete t.event_tail t.event_head) [
  | yes e ↦
      let none_yet : events t ≡ [] =
        ground (arith, contents_empty t.event_queue 16 t.event_tail v.range.tail_in) in
      rw (eq→beq t.event_tail t.event_head e) (
        empty none_yet none_yet,
        record { range = v.range; pending = ap (λ es. not (is_empty es)) (sym none_yet) },
      )
  | no ne ↦
      let u : Task = record t { event_tail = (t.event_tail + 1) % 16 } in
      let ev = t.event_queue t.event_tail in
      let eq : events t ≡ ev ∷ events u =
        contents_get t.event_queue 16 t.event_head t.event_tail v.range (λ e. ne (sym e)) in
      let range : InRange 16 u.event_head u.event_tail = omega (arith, v.range) in
      elim (Bool-cases (masked mask ev)) [
        | inl bad ↦ rw (ne→beq t.event_tail t.event_head ne, bad) (rejected ev (events u) eq bad, v)
        | inr good ↦
            rw (ne→beq t.event_tail t.event_head ne, good)
              (
                taken ev eq good,
                record {
                  range = range;
                  pending = ground (
                    arith,
                    v.pending,
                    eq,
                    is_empty-contents t.event_queue 16 t.event_head u.event_tail range,
                  );
                },
              )
      ]
]

-- Every task's queue is well formed.
abbrev pub IsQueued : Kernel → Type 0
IsQueued k = (i : ℕ) → IsQueue (k.tasks i)

-- How `process_event_send` ends: there is no such task, its queue holds 15 events, or the event stands
-- at the end of its queue and no other task has changed.
pub data Sends (k : Kernel) (pid : ℕ) (ev : Event) : Bool × Kernel → Type 0 where
  unknown : NoneOf (reachable k pid) 0 max_tasks → Sends k pid ev (false, k)
  full :
      (i : ℕ)
      → IsFirst (reachable k pid) 0 max_tasks i
      → length (events (k.tasks i)) ≡ 15
      → Sends k pid ev (false, k)
  sent :
      {u : Kernel} (i : ℕ)
      → IsFirst (reachable k pid) 0 max_tasks i
      → length (events (k.tasks i)) < 15
      → events (u.tasks i) ≡ events (k.tasks i) ++ ev ∷ []
      → ((j : ℕ) → i ≢ j → u.tasks j ≡ k.tasks j)
      → Sends k pid ev (true, u)

-- `process_event_send` appends the event to the queue of the first task that is not dead and has the
-- identifier, if that holds fewer than 15 events, and otherwise fails and changes nothing. It keeps
-- every queue well formed.
pub process_event_send_lem :
    (k : Kernel) (pid event_type payload_hash : ℕ)
    → IsQueued k
    → Sends k pid
        (outgoing k event_type payload_hash)
        (process_event_send k pid event_type payload_hash)
      × IsQueued (process_event_send k pid event_type payload_hash).1
unfolding process_event_send
process_event_send_lem k pid event_type payload_hash v =
    let ev = outgoing k event_type payload_hash in
    elim (scan_cases max_tasks 0 (reachable k pid) refl) [
      | inl (e, none_of) ↦ rw (e, process_event_send) (unknown none_of, v)
      | inr (i, e, f) ↦ elim (enqueue_lem (k.tasks i) ev (v i)) [
        | inl (l, e') ↦ rw (e, process_event_send) (rw e' (full i f l, v))
        | inr (t, room, e', eq, q) ↦
            rw (e, process_event_send)
              (rw e' (
                sent i f (ground arith) (ap events (update_self k.tasks i t) ∙ eq)
                    (update_ne k.tasks i t),
                update-all IsQueue k.tasks i t q v,
              ))
      ]
    ]

-- `process_event_poll` takes the oldest event of the running task, unless there is none or the mask
-- rejects it; the events that stay keep their order, no other task changes, and every queue stays well
-- formed.
pub process_event_poll_lem :
    (k : Kernel) (mask : ℕ)
    → IsQueued k
    → let (ev, u) = process_event_poll k mask in
      Polls mask (k.tasks k.current_task) (ev, u.tasks k.current_task)
      × ((j : ℕ) → k.current_task ≢ j → u.tasks j ≡ k.tasks j)
      × IsQueued u
unfolding process_event_poll
process_event_poll_lem k mask v =
    let c = k.current_task in
    let r = dequeue mask (k.tasks c) in
    let (p, q) = dequeue_lem mask (k.tasks c) (v c) in
    (
      subst (λ t. Polls mask (k.tasks c) (r.0, t)) (sym (update_self k.tasks c r.1)) p,
      update_ne k.tasks c r.1,
      update-all IsQueue k.tasks c r.1 q v,
    )
