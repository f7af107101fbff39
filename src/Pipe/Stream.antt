-- ===== src/Pipe/Stream.antt =====
-- One byte pipe is a bounded FIFO: what the loops of `pipe_read` and `pipe_write` move, and how they
-- end.
use mathlib.Core.List.{append-nil, append_assoc}
use native.Mathlib.Decide.{ℕ_discrete}
use hexa_os_alpha_build.Base.{
  ℕ, zero, suc, ◌+◌, ◌-◌, ◌<◌, ◌≡◌, refl, min, none, some, List, [], ◌∷◌, ◌++◌, arith, ◌==◌,
  if◌then◌else◌, ◌||◌, leb, ◌⊎◌, inl, inr, sym, ◌%◌, update,
}
use hexa_os_alpha_build.Base.Lists.{length, length-append, take, drop}
use hexa_os_alpha_build.Ring.{
  InRange, used-lt, contents, length-contents, contents_put, contents_get, contents_empty,
  used_full,
}
use hexa_os_alpha_build.Pipe.{
  Pipe, done, spinning, pipe_buf_size, read_step, read_loop, write_step, write_loop,
}

-- The indices stay in the buffer.
abbrev pub IsValid : Pipe → Type 0
IsValid p = InRange pipe_buf_size p.head p.tail

-- The bytes in the pipe, oldest first.
abbrev pub bytes : Pipe → List ℕ
bytes p = contents p.buf pipe_buf_size p.head p.tail

pub length-bytes-lt : (p : Pipe) → IsValid p → length (bytes p) < 4096
length-bytes-lt p v = omega (
  arith,
  length-contents p.buf pipe_buf_size p.head p.tail,
  used-lt pipe_buf_size p.head p.tail v,
)

-- One step of the reader takes the oldest byte, and takes none only from an empty pipe.
pub read_step_lem :
    (p : Pipe)
    → IsValid p
    → ((read_step p ≡ none) × (bytes p ≡ []))
      ⊎ ((b : ℕ) × (q : Pipe) × (read_step p ≡ some (b, q))
          × (bytes p ≡ b ∷ bytes q)
          × IsValid q
          × (q.writers ≡ p.writers)
          × (q.readers ≡ p.readers))
unfolding read_step
read_step_lem p v = elim (ℕ_discrete p.head p.tail) [
  | yes e ↦ inl (ground arith, ground (arith, contents_empty p.buf pipe_buf_size p.tail v.tail_in))
  | no ne ↦ inr (
    p.buf p.tail,
    record p { tail = (p.tail + 1) % pipe_buf_size },
    ground arith,
    contents_get p.buf pipe_buf_size p.head p.tail v ne,
    omega (arith, v),
    refl,
    refl,
  )
]

pub write_step_lem :
    (p : Pipe) (b : ℕ)
    → IsValid p
    → ((write_step p b ≡ none) × (length (bytes p) ≡ 4095))
      ⊎ ((q : Pipe) × (write_step p b ≡ some q)
          × (bytes q ≡ bytes p ++ b ∷ [])
          × IsValid q
          × (q.writers ≡ p.writers)
          × (q.readers ≡ p.readers))
unfolding write_step
write_step_lem p b v = elim (ℕ_discrete ((p.head + 1) % pipe_buf_size) p.tail) [
  | yes e ↦ inl (
    ground arith,
    omega (
      arith,
      length-contents p.buf pipe_buf_size p.head p.tail,
      used_full pipe_buf_size p.head p.tail v e,
    ),
  )
  | no ne ↦ inr (
    record p { buf = update p.buf p.head b; head = (p.head + 1) % pipe_buf_size },
    ground arith,
    contents_put p.buf pipe_buf_size p.head p.tail v b ne,
    omega (arith, v),
    refl,
    refl,
  )
]

-- `pipe_read` of `n` bytes takes the `n` oldest bytes, or all there are. It ends by itself when it
-- has `n` bytes or no writer is left, and otherwise waits on the empty pipe.
pub read_loop_lem :
    (n : ℕ) (p : Pipe)
    → IsValid p
    → let (bs, st, q) = read_loop n p in
      (bs ≡ take n (bytes p))
      × (bytes q ≡ drop n (bytes p))
      × IsValid q
      × (st ≡ (if leb n (length (bytes p)) || p.writers == 0 then done else spinning))
unfolding read_loop
read_loop_lem zero p v = (refl, refl, v, ground arith)
read_loop_lem (suc n) p v = elim (read_step_lem p v) [
  | inl (e, e') ↦ ground arith
  | inr (b, q, e, e', v', w, r) ↦ ground (arith, read_loop_lem n q v')
]

-- `pipe_write` appends as many bytes as the pipe has room for, in order, and returns their number.
-- It ends by itself when all are written or no reader is left, and otherwise waits on the full pipe.
pub write_loop_lem :
    (src : List ℕ) (p : Pipe)
    → IsValid p
    → let (n, st, q) = write_loop src p in
      (n ≡ min (length src) (4095 - length (bytes p)))
      × (bytes q ≡ bytes p ++ take n src)
      × IsValid q
      × (st ≡ (if n == length src || p.readers == 0 then done else spinning))
unfolding write_loop
write_loop_lem [] p v = (omega arith, sym (append-nil (bytes p)), v, ground arith)
write_loop_lem (b ∷ src) p v = elim (write_step_lem p b v) [
  | inl (e, e') ↦ ground (arith, append-nil (bytes p))
  | inr (q, e, e', v', w, r) ↦ ground (
    arith,
    write_loop_lem src q v',
    length-bytes-lt q v',
    length-append (bytes p) (b ∷ []),
    append_assoc (bytes p) (b ∷ []) (take (write_loop src q).0 src),
  )
]
