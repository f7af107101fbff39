-- ===== src/Pipe/Create.antt =====
-- Slots of byte pipes: `pipe_create` and `pipe_close`.
use hexa_os_alpha_build.Base.{
  ℕ, ◌+◌, ◌%◌, ◌≡◌, refl, ◌≢◌, Bool, true, false, not, ◌&&◌, Option, none, [], arith, inl, inr,
  update, scan_cases, scan_first, IsFirst, NoneOf, ◌==◌, if◌then◌else◌, update_ne, update_self, ap,
  sym, ◌∙◌, subst,
}
use hexa_os_alpha_build.Ring.{contents_empty}
use hexa_os_alpha_build.Process.{Kernel}
use hexa_os_alpha_build.Fds.{has_pid}
use hexa_os_alpha_build.Fds.Laws.{alloc_unknown}
use hexa_os_alpha_build.Pipe.{
  Pipe, Pipes, max_pipes, pipe_buf_size, Created, open_pipe, pipe_create, pipe_close, decrement,
  close_end, is_abandoned,
}
use hexa_os_alpha_build.Pipe.Stream.{IsValid, bytes}

abbrev pub free_slot : Pipes → ℕ → Bool
free_slot s i = not (s.pipe_allocated i)

-- How `pipe_create` ends: with -1 and nothing changed where all 16 slots are in use; or with the first
-- free slot taken by an empty pipe that has one reader and one writer, and all other slots unchanged.
pub data Creates (s : Pipes) (k : Kernel) : Created → Type 0 where
  exhausted :
      NoneOf (free_slot s) 0 max_pipes
      → Creates s k (record { ok = false; read_fd = none; write_fd = none; pipes = s; kernel = k })
  opened :
      {r w : Option ℕ} {t : Pipes} {u : Kernel} (id : ℕ)
      → IsFirst (free_slot s) 0 max_pipes id
      → bytes (t.pipes id) ≡ []
      → IsValid (t.pipes id)
      → ((t.pipes id).readers ≡ 1) × ((t.pipes id).writers ≡ 1)
      → t.pipe_allocated id ≡ true
      → ((j : ℕ) → id ≢ j → (t.pipes j ≡ s.pipes j) × (t.pipe_allocated j ≡ s.pipe_allocated j))
      → Creates s k (record { ok = true; read_fd = r; write_fd = w; pipes = t; kernel = u })

-- `pipe_create` returns -1 and changes nothing where all 16 slots are in use. Otherwise it opens an
-- empty pipe with one reader and one writer in the first free slot and leaves all other slots alone.
pub pipe_create_lem : (s : Pipes) (k : Kernel) → Creates s k (pipe_create s k)
unfolding pipe_create open_pipe
pipe_create_lem s k = elim (scan_cases max_pipes 0 (free_slot s) refl) [
  | inl (e, none_of) ↦ rw (e, pipe_create) (exhausted none_of)
  | inr (id, e, f) ↦
      let p = open_pipe (s.pipes id) in
      let at = update_self s.pipes id p in
      rw (e, pipe_create)
        (opened id f (ap bytes at ∙ contents_empty p.buf pipe_buf_size 0 (omega arith))
          (subst IsValid (sym at) (omega arith))
          (ap (λ (q : Pipe). q.readers) at, ap (λ (q : Pipe). q.writers) at)
          (update_self s.pipe_allocated id true)
          (λ j ne. (update_ne s.pipes id p j ne, update_ne s.pipe_allocated id true j ne)))
]

-- `pipe_create` gives the descriptors to the task whose process identifier is the index of the running
-- task. Where no task has that identifier, and a slot is free, it returns 0 with two descriptors -1,
-- and the pipe is open all the same.
pub pipe_create_no_owner :
    (s : Pipes) (k : Kernel) (id : ℕ)
    → IsFirst (free_slot s) 0 max_pipes id
    → NoneOf (has_pid k k.current_task) 0 16
    → let c = pipe_create s k in
      (c.ok ≡ true) × (c.read_fd ≡ none) × (c.write_fd ≡ none) × (c.pipes.pipe_allocated id ≡ true)
unfolding pipe_create
pipe_create_no_owner s k id f nobody =
    rw
      (
        scan_first max_pipes 0 (free_slot s) id refl f,
        alloc_unknown k k.current_task 2 id nobody,
        alloc_unknown k k.current_task 2 (id + max_pipes) nobody,
        pipe_create,
      )
      (refl, refl, refl, update_self s.pipe_allocated id true)

allocated_lem :
    (a : ℕ → Bool) (id : ℕ) (free : Bool)
    → ((if free then update a id false else a) id ≡ (if free then false else a id))
      × ((j : ℕ) → id ≢ j → (if free then update a id false else a) j ≡ a j)
allocated_lem a id true = (update_self a id false, update_ne a id false)
allocated_lem a id false = (refl, λ j ne. refl)

close_end_lem :
    (is_writer : Bool) (p : Pipe)
    → let q = close_end is_writer p in
      (q.readers ≡ (if is_writer then p.readers else decrement p.readers))
      × (q.writers ≡ (if is_writer then decrement p.writers else p.writers))
      × (bytes q ≡ bytes p)
unfolding close_end
close_end_lem true p = (refl, refl, refl)
close_end_lem false p = (refl, refl, refl)

-- `pipe_close` takes one from the readers or the writers, and frees the slot exactly when both are
-- then 0. The bytes in the pipe and all other slots stay as they are.
pub pipe_close_lem :
    (s : Pipes) (pipe_id : ℕ) (is_writer : Bool)
    → let id = pipe_id % 16 in
      let p = s.pipes id in
      let t = pipe_close s pipe_id is_writer in
      let q = t.pipes id in
      (q.readers ≡ (if is_writer then p.readers else decrement p.readers))
      × (q.writers ≡ (if is_writer then decrement p.writers else p.writers))
      × (bytes q ≡ bytes p)
      × (t.pipe_allocated id
          ≡ (if q.readers == 0 && q.writers == 0 then false else s.pipe_allocated id))
      × ((j : ℕ) → id ≢ j → (t.pipes j ≡ s.pipes j) × (t.pipe_allocated j ≡ s.pipe_allocated j))
unfolding pipe_close
pipe_close_lem s pipe_id is_writer =
    let id = pipe_id % 16 in
    let q = close_end is_writer (s.pipes id) in
    let c = close_end_lem is_writer (s.pipes id) in
    let at : update s.pipes id q id ≡ q = update_self s.pipes id q in
    (
      ap (λ (r : Pipe). r.readers) at ∙ c.0,
      ap (λ (r : Pipe). r.writers) at ∙ c.1,
      ap bytes at ∙ c.2,
      rw at (allocated_lem s.pipe_allocated id (is_abandoned q)).0,
      λ j ne. (
        update_ne s.pipes id q j ne,
        (allocated_lem s.pipe_allocated id (is_abandoned q)).1 j ne,
      ),
    )
