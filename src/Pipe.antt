-- ===== src/Pipe.antt =====
-- pipe.c: the byte pipes and the typed pipes. The static tables are functions from the slot; a
-- function that the C code runs on `&pipes[id]` takes the pipe and returns it.
--
-- The loops of `pipe_read` and `pipe_write` disable interrupts for one byte at a time. Where a loop
-- can only wait for another task, the model stops there with the status `spinning`; `read_step` and
-- `write_step` are the critical sections that other tasks interleave with.
pub mod Stream
pub mod Interleave
pub mod Typed
pub mod Create
mod Tests
use hexa_os_alpha_build.Base.{
  ℕ, zero, suc, ◌+◌, ◌-◌, ◌%◌, ◌^◌, Bool, true, false, not, ◌&&◌, ◌||◌, Option, none, some, List,
  [], ◌∷◌, update, ◌==◌, ltb, leb, if◌then◌else◌, is_neg, scan,
}
use hexa_os_alpha_build.Process.{Kernel}
use hexa_os_alpha_build.Fds.{proc_alloc_fd}

abbrev pub max_pipes : ℕ
max_pipes = 16

abbrev pub pipe_buf_size : ℕ
pipe_buf_size = 4096

abbrev pub pipe_typed_capacity : ℕ
pipe_typed_capacity = 16

-- `pipe_t`; `readers` and `writers` are bit patterns.
pub record Pipe : Type 0 where
  pub buf : ℕ → ℕ
  pub head : ℕ
  pub tail : ℕ
  pub readers : ℕ
  pub writers : ℕ
  pub closed : ℕ

pub data Status : Type 0 where
  done spinning : Status

-- The critical section of `pipe_read`: one byte, or nothing where the ring is empty.
pub read_step : Pipe → Option (ℕ × Pipe)
read_step p =
    if p.head == p.tail
    then none
    else some (p.buf p.tail, record p { tail = (p.tail + 1) % pipe_buf_size })

-- The loop of `pipe_read`, with `n` bytes left to read: the bytes, and how the loop ends.
pub read_loop : ℕ → Pipe → List ℕ × Status × Pipe
read_loop zero p = ([], done, p)
read_loop (suc n) p = elim (read_step p) [
  | none ↦ ([], (if p.writers == 0 then done else spinning), p)
  | some (b, p') ↦ let (bs, st, q) = read_loop n p' in (b ∷ bs, st, q)
]

-- The critical section of `pipe_write`: one byte, or nothing where the ring is full.
pub write_step : Pipe → ℕ → Option Pipe
write_step p b =
    let next = (p.head + 1) % pipe_buf_size in
    if next == p.tail then none else some (record p { buf = update p.buf p.head b; head = next })

-- The loop of `pipe_write`, with the bytes left to write: their number, and how the loop ends.
pub write_loop : List ℕ → Pipe → ℕ × Status × Pipe
write_loop [] p = (0, done, p)
write_loop (b ∷ bs) p = elim (write_step p b) [
  | none ↦ (0, (if p.readers == 0 then done else spinning), p)
  | some p' ↦ let (n, st, q) = write_loop bs p' in (suc n, st, q)
]

-- `typed_pipe_form_t`
pub record Form : Type 0 where
  pub schema_hash : ℕ
  pub data_hash : ℕ
  pub data_size : ℕ
  pub payload : List ℕ

-- `typed_pipe_t`
pub record TypedPipe : Type 0 where
  pub schema_hash : ℕ
  pub producer_pid : ℕ
  pub consumer_pid : ℕ
  pub cap_token : ℕ
  pub ring : ℕ → Form
  pub head : ℕ
  pub tail : ℕ
  pub active : Bool

-- The static variables of pipe.c.
pub record Pipes : Type 0 where
  pub pipes : ℕ → Pipe
  pub pipe_allocated : ℕ → Bool
  pub typed_pipes : ℕ → TypedPipe
  pub typed_pipe_count : ℕ

-- `pipe_read` for an identifier that is not negative; a negative `len` reads nothing.
pub pipe_read : Pipes → ℕ → ℕ → List ℕ × Status × Pipes
pipe_read s pipe_id len =
    let id = pipe_id % max_pipes in
    let (bs, st, p) = read_loop (if is_neg len then 0 else len) (s.pipes id) in
    (bs, st, record s { pipes = update s.pipes id p })

-- `pipe_write` of the bytes of `buf`.
pub pipe_write : Pipes → ℕ → List ℕ → ℕ × Status × Pipes
pipe_write s pipe_id buf =
    let id = pipe_id % max_pipes in
    let (n, st, p) = write_loop buf (s.pipes id) in
    (n, st, record s { pipes = update s.pipes id p })

-- What `pipe_create` leaves: whether it returns 0, the two descriptors (`none` for -1), and the state.
pub record Created : Type 0 where
  pub ok : Bool
  pub read_fd : Option ℕ
  pub write_fd : Option ℕ
  pub pipes : Pipes
  pub kernel : Kernel

-- The pipe in the slot that `pipe_create` takes; its buffer keeps what it held.
pub open_pipe : Pipe → Pipe
open_pipe p = record p { head = 0; tail = 0; readers = 1; writers = 1; closed = 0 }

-- `proc_alloc_fd` is asked for the process identifier `current_task`, as the code has it.
pub pipe_create : Pipes → Kernel → Created
pipe_create s k = elim (scan max_pipes 0 (λ i. not (s.pipe_allocated i))) [
  | none ↦ record { ok = false; read_fd = none; write_fd = none; pipes = s; kernel = k }
  | some id ↦
      let (r, k') = proc_alloc_fd k k.current_task 2 id in
      let (w, k'') = proc_alloc_fd k' k.current_task 2 (id + max_pipes) in
      record {
        ok = true;
        read_fd = r;
        write_fd = w;
        pipes = record s {
          pipes = update s.pipes id (open_pipe (s.pipes id));
          pipe_allocated = update s.pipe_allocated id true;
        };
        kernel = k'';
      }
]

-- x - 1 on a C `int`
abbrev pub decrement : ℕ → ℕ
decrement x = (x + 2 ^ 32 - 1) % 2 ^ 32

-- One reader or writer fewer.
pub close_end : Bool → Pipe → Pipe
close_end true p = record p { writers = decrement p.writers }
close_end false p = record p { readers = decrement p.readers }

-- Both counters are 0: the slot can be used again.
abbrev pub is_abandoned : Pipe → Bool
is_abandoned p = p.readers == 0 && p.writers == 0

pub pipe_close : Pipes → ℕ → Bool → Pipes
pipe_close s pipe_id is_writer =
    let id = pipe_id % max_pipes in
    let q = close_end is_writer (s.pipes id) in
    record s {
      pipes = update s.pipes id q;
      pipe_allocated =
          if is_abandoned q then update s.pipe_allocated id false else s.pipe_allocated;
    }

abbrev pub blank_form : Form
blank_form = record { schema_hash = 0; data_hash = 0; data_size = 0; payload = [] }

-- `pipe_create_typed`: the identifier, or `none` for -1.
pub pipe_create_typed : Pipes → ℕ → ℕ → ℕ → ℕ → Option ℕ × Pipes
pipe_create_typed s schema_hash producer_pid consumer_pid cap_token =
    let id = s.typed_pipe_count in
    if leb max_pipes id then (none, s) else (
      some id,
      record s {
        typed_pipes = update s.typed_pipes id (record {
          schema_hash = schema_hash;
          producer_pid = producer_pid;
          consumer_pid = consumer_pid;
          cap_token = cap_token;
          ring = λ _. blank_form;
          head = 0;
          tail = 0;
          active = true;
        });
        typed_pipe_count = id + 1;
      },
    )

-- The part of `pipe_typed_write` behind the check of the identifier, on one typed pipe.
pub typed_put : TypedPipe → Form → Option (ℕ × TypedPipe)
typed_put tp form =
    let next = (tp.head + 1) % pipe_typed_capacity in
    if not tp.active
    then none
    else if not (form.schema_hash == tp.schema_hash)
    then none
    else if next == tp.tail
    then none
    else some (form.data_size, record tp { ring = update tp.ring tp.head form; head = next })

-- The part of `pipe_typed_read` behind the check of the identifier.
pub typed_get : TypedPipe → Option (ℕ × Form × TypedPipe)
typed_get tp =
    let form = tp.ring tp.tail in
    if not tp.active
    then none
    else if tp.head == tp.tail
    then none
    else some (form.data_size, form, record tp { tail = (tp.tail + 1) % pipe_typed_capacity })

-- tp_id < 0 || tp_id >= typed_pipe_count
abbrev pub bad_typed_id : Pipes → ℕ → Bool
bad_typed_id s tp_id = is_neg tp_id || leb s.typed_pipe_count tp_id

-- `pipe_typed_write`: `none` for -1.
pub pipe_typed_write : Pipes → ℕ → Form → Option ℕ × Pipes
pipe_typed_write s tp_id form =
    if bad_typed_id s tp_id then (none, s) else elim (typed_put (s.typed_pipes tp_id) form) [
      | none ↦ (none, s)
      | some (n, tp) ↦ (some n, record s { typed_pipes = update s.typed_pipes tp_id tp })
    ]

-- `pipe_typed_read`: `none` for -1.
pub pipe_typed_read : Pipes → ℕ → Option (ℕ × Form) × Pipes
pipe_typed_read s tp_id =
    if bad_typed_id s tp_id then (none, s) else elim (typed_get (s.typed_pipes tp_id)) [
      | none ↦ (none, s)
      | some (n, form, tp) ↦
          (some (n, form), record s { typed_pipes = update s.typed_pipes tp_id tp })
    ]
