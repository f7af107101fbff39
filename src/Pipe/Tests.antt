-- ===== src/Pipe/Tests.antt =====
-- The theorems on pipes, at small pipes.
use hexa_os_alpha_build.Base.{
  ℕ, ◌-◌, ◌<◌, ◌≤◌, ◌≡◌, refl, true, false, [], ◌∷◌, ◌++◌, some, arith, IsFirst, min, update,
  if◌then◌else◌, leb, ◌==◌, ◌||◌, sym,
}
use hexa_os_alpha_build.Base.Lists.{length, take, drop}
use hexa_os_alpha_build.Ring.{contents_empty}
use hexa_os_alpha_build.Process.Samples.{three}
use hexa_os_alpha_build.Pipe.{
  Pipe, Pipes, TypedPipe, Form, read_loop, write_loop, write_step, done, spinning, blank_form,
  pipe_typed_write, pipe_typed_read,
}
use hexa_os_alpha_build.Pipe.Stream.{IsValid, bytes, read_loop_lem, write_loop_lem}
use hexa_os_alpha_build.Pipe.Interleave.{World, writes, here, next, IsFifo, Reach-fifo}
use hexa_os_alpha_build.Pipe.Typed.{
  forms, IsTable, Reads, Writes, pipe_typed_write_lem, pipe_typed_read_lem,
}
use hexa_os_alpha_build.Pipe.Create.{free_slot}

-- A pipe that holds 7 and 8, at the end of its buffer.
abbrev wrapped : Pipe
wrapped = record {
  buf = λ i. if i == 4095 then 7 else 8;
  head = 1;
  tail = 4095;
  readers = 1;
  writers = 1;
  closed = 0;
}

wrapped-IsValid : IsValid wrapped
wrapped-IsValid = omega arith

read_loop_lem_example :
    let (bs, st, q) = read_loop 3 wrapped in
    (bs ≡ take 3 (bytes wrapped))
    × (bytes q ≡ drop 3 (bytes wrapped))
    × IsValid q
    × (st ≡ (if leb 3 (length (bytes wrapped)) || wrapped.writers == 0 then done else spinning))
read_loop_lem_example = read_loop_lem 3 wrapped wrapped-IsValid

write_loop_lem_example :
    let (n, st, q) = write_loop (1 ∷ 2 ∷ []) wrapped in
    (n ≡ min 2 (4095 - length (bytes wrapped)))
    × (bytes q ≡ bytes wrapped ++ take n (1 ∷ 2 ∷ []))
    × IsValid q
    × (st ≡ (if n == 2 || wrapped.readers == 0 then done else spinning))
write_loop_lem_example = write_loop_lem (1 ∷ 2 ∷ []) wrapped wrapped-IsValid

-- An empty pipe, and the same after one write.
abbrev empty_pipe : Pipe
empty_pipe = record { buf = λ _. 0; head = 0; tail = 0; readers = 1; writers = 1; closed = 0 }

abbrev one_byte : Pipe
one_byte = record empty_pipe { buf = update (λ _. 0) 0 5; head = 1 }

abbrev before : World
before = record { pipe = empty_pipe; sent = []; received = [] }

abbrev after : World
after = record { pipe = one_byte; sent = 5 ∷ []; received = [] }

before-IsFifo : IsFifo before
before-IsFifo = record {
  valid = omega arith;
  order = sym (contents_empty (λ _. 0) 4096 0 (omega arith));
}

one_write : write_step empty_pipe 5 ≡ some one_byte
unfolding write_step
one_write = refl

Reach-fifo_example : (5 ∷ [] ≡ [] ++ bytes one_byte) × (length (bytes one_byte) < 4096)
Reach-fifo_example =
    Reach-fifo {w = before} {v = after} (next here (writes before 5 one_byte one_write))
      before-IsFifo

abbrev typed : TypedPipe
typed = record {
  schema_hash = 9;
  producer_pid = 1;
  consumer_pid = 2;
  cap_token = 0;
  ring = λ _. blank_form;
  head = 0;
  tail = 0;
  active = true;
}

-- One slot is in use, and one typed pipe.
abbrev table : Pipes
table = record {
  pipes = λ _. wrapped;
  pipe_allocated = λ i. i == 0;
  typed_pipes = λ _. typed;
  typed_pipe_count = 1;
}

no_forms : forms typed ≡ []
no_forms = contents_empty (λ _. blank_form) 16 0 (omega arith)

table-IsTable : IsTable table
table-IsTable = record {
  few = omega arith;
  each = λ i. record { range = omega arith; schemas = rw no_forms tt };
}

abbrev form : Form
form = record { schema_hash = 9; data_hash = 4; data_size = 3; payload = 1 ∷ [] }

pipe_typed_write_lem_example :
    Writes table 0 form (pipe_typed_write table 0 form) × IsTable (pipe_typed_write table 0 form).1
pipe_typed_write_lem_example = pipe_typed_write_lem table 0 form table-IsTable

pipe_typed_read_lem_example :
    Reads table 0 (pipe_typed_read table 0) × IsTable (pipe_typed_read table 0).1
pipe_typed_read_lem_example = pipe_typed_read_lem table 0 table-IsTable

slot_one : IsFirst (free_slot table) 0 16 1
slot_one = record {
  from = omega arith;
  before = omega arith;
  hit = refl;
  first = λ k l l'. ground arith;
}

nobody_zero : (i : ℕ) → 0 ≤ i → i < 16 → ((three.tasks i).pid == 0) ≡ false
nobody_zero i l l' = ground arith
