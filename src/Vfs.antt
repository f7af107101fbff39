-- ===== src/Vfs.antt =====
-- vfs.c: descriptors for forms. An `int` is its bit pattern and the result -1 is `none`. The keys that
-- are typed are a list, as is what is printed.
pub mod Descriptors
pub mod RoundTrip
pub mod Append
pub mod Reading
mod Tests
use hexa_os_alpha_build.Base.{
  ℕ, zero, suc, ◌+◌, ◌-◌, ◌%◌, ◌^◌, Bool, true, false, not, ◌&&◌, ◌||◌, Option, none, some, List,
  [], ◌∷◌, ◌++◌, ltb, leb, ◌==◌, if◌then◌else◌, scan, update, bit_and, is_neg,
}
use hexa_os_alpha_build.Base.Lists.{length}
use hexa_os_alpha_build.Text.{Buffer, strlen}
use hexa_os_alpha_build.Forms.{
  Form, Forms, Kmalloc, find_form, check_perm, form_ensure_cap, cmd_mkform, int_le,
}
use hexa_os_alpha_build.Pipe.{Pipes, Status, done, spinning, pipe_read, pipe_write}

abbrev pub vfs_max_fds : ℕ
vfs_max_fds = 128

abbrev pub form_write : ℕ
form_write = 1

abbrev pub form_creat : ℕ
form_creat = 4

abbrev pub form_append : ℕ
form_append = 16

-- The kinds are 0 for a free descriptor, 1 for a form, 2 for a pipe and 3 for the console.
pub record Fd : Type 0 where
  pub pid : ℕ
  pub kind : ℕ
  pub ref : ℕ
  pub pos : ℕ
  pub flags : ℕ

pub record Vfs : Type 0 where
  pub vfs_fds : ℕ → Fd
  pub forms : Forms
  pub pipes : Pipes
  pub keys : List ℕ
  pub printed : List ℕ

abbrev pub set_fd : Vfs → ℕ → Fd → Vfs
set_fd v i f = record v { vfs_fds = update v.vfs_fds i f }

abbrev pub vfs_is_free : Vfs → ℕ → Bool
vfs_is_free v i = (v.vfs_fds i).kind == 0

pub vfs_fd_alloc : ℕ → Vfs → Option (ℕ × Vfs)
vfs_fd_alloc pid v = elim (scan 125 3 (vfs_is_free v)) [
  | none ↦ none
  | some i ↦ some (i, set_fd v i (record (v.vfs_fds i) { pid = pid; kind = 1; pos = 0; flags = 0 }))
]

pub vfs_init : Vfs → Vfs
vfs_init v = record v {
  vfs_fds = λ i. if ltb i vfs_max_fds then record (v.vfs_fds i) { kind = 0 } else v.vfs_fds i;
}

-- The part of `vfs_open` from the permission check on.
pub open_form : ℕ → ℕ → ℕ → ℕ → Vfs → Option ℕ × Vfs
open_form u_cur current_task idx flags v =
    if check_perm u_cur v.forms idx (not (bit_and flags form_write == 0))
    then (none, v)
    else elim (vfs_fd_alloc current_task v) [
      | none ↦ (none, v)
      | some (fd, v') ↦
          let pos = if bit_and flags form_append == 0 then 0 else 0x7fffffff in
          (
            some fd,
            set_fd v' fd (record (v'.vfs_fds fd) { kind = 1; ref = idx; pos = pos; flags = flags }),
          )
    ]

-- With what the second `find_form` returned.
pub open_made : ℕ → ℕ → ℕ → Vfs → Option ℕ → Option ℕ × Vfs
open_made u_cur current_task flags v none = (none, v)
open_made u_cur current_task flags v (some idx) = open_form u_cur current_task idx flags v

pub vfs_open : Kmalloc → ℕ → ℕ → List ℕ → ℕ → Vfs → Option ℕ × Vfs
vfs_open kmalloc u_cur current_task path flags v = elim (find_form v.forms path) [
  | some idx ↦ open_form u_cur current_task idx flags v
  | none ↦
      if bit_and flags form_creat == 0
      then (none, v)
      else (let v' = record v { forms = (cmd_mkform kmalloc u_cur path v.forms).1 } in
          open_made u_cur current_task flags v' (find_form v'.forms path))
]

abbrev pub bad_fd : ℕ → Vfs → Bool
bad_fd fd v = not (ltb fd vfs_max_fds) || vfs_is_free v fd

pub vfs_close : ℕ → Vfs → Bool × Vfs
vfs_close fd v =
    if bad_fd fd v then (false, v) else (true, set_fd v fd (record (v.vfs_fds fd) { kind = 0 }))

-- The loop that reads a form, with `n` bytes still asked for.
pub read_form : ℕ → ℕ → Form → List ℕ
read_form zero pos f = []
read_form (suc n) pos f =
    if int_le f.size pos then [] else f.content pos ∷ read_form n ((pos + 1) % 2 ^ 32) f

-- The loop that reads the console, which waits for keys: `none` where it still waits.
pub read_keys : ℕ → List ℕ → Option (List ℕ) × List ℕ
read_keys zero ks = (some [], ks)
read_keys (suc n) [] = (none, [])
read_keys (suc n) (k ∷ ks) =
    let (r, rest) = read_keys n ks in
    if k == b'\n'
    then (some (k ∷ []), ks)
    else (elim r [ none ↦ none | some bs ↦ some (k ∷ bs) ], rest)

-- What a read comes to: -1, the bytes that it stored, or a wait.
pub data Reads : Type 0 where
  fails : Reads
  gets : List ℕ → Reads
  waits : Reads

pipe_gets : List ℕ × Status × Pipes → Vfs → Reads × Vfs
pipe_gets (bs, done, p) v = (gets bs, record v { pipes = p })
pipe_gets (bs, spinning, p) v = (waits, record v { pipes = p })

console_gets : Option (List ℕ) × List ℕ → Vfs → Reads × Vfs
console_gets (none, ks) v = (waits, record v { keys = ks })
console_gets (some bs, ks) v = (gets bs, record v { keys = ks })

pub vfs_read : ℕ → ℕ → Vfs → Reads × Vfs
vfs_read fd count v =
    let e = v.vfs_fds fd in
    let n = if is_neg count then 0 else count in
    let bs = read_form n e.pos (v.forms.form_table e.ref) in
    if bad_fd fd v
    then (fails, v)
    else if e.kind == 2
    then pipe_gets (pipe_read v.pipes e.ref count) v
    else if e.kind == 3
    then console_gets (read_keys n v.keys) v
    else if not (e.kind == 1) || not (ltb e.ref v.forms.form_count)
    then (fails, v)
    else (gets bs, set_fd v fd (record e { pos = (e.pos + length bs) % 2 ^ 32 }))

-- The loop that writes a form: the content, and the place after the last byte.
pub write_bytes : List ℕ → ℕ → Buffer → Buffer × ℕ
write_bytes [] pos content = (content, pos)
write_bytes (b ∷ bs) pos content =
    if int_le 65528 pos
    then (content, pos)
    else write_bytes bs ((pos + 1) % 2 ^ 32) (update content pos b)

-- The form with the bytes and the null after them, and the number of bytes.
pub write_at : List ℕ → ℕ → Form → Form
write_at bs pos f =
    let (content, end) = write_bytes bs pos f.content in
    record f { content = update content end 0; size = if int_le end f.size then f.size else end }

-- What a write comes to: -1, the number of bytes, or a wait.
pub data Writes : Type 0 where
  refuses : Writes
  puts : ℕ → Writes
  blocks : Writes

pipe_puts : ℕ × Status × Pipes → Vfs → Writes × Vfs
pipe_puts (n, done, p) v = (puts n, record v { pipes = p })
pipe_puts (n, spinning, p) v = (blocks, record v { pipes = p })

set_vform : Vfs → ℕ → Form → Vfs
set_vform v i f = record v { forms = record v.forms { form_table = update v.forms.form_table i f } }

-- The part of `vfs_write` behind `form_ensure_cap`.
pub write_grown : ℕ → List ℕ → Vfs → Bool × Form → Writes × Vfs
write_grown fd buf v (false, f) = (refuses, set_vform v (v.vfs_fds fd).ref f)
write_grown fd buf v (true, f) =
    let e = v.vfs_fds fd in
    let end = (write_bytes buf e.pos f.content).1 in
    let v' = set_vform v e.ref (write_at buf e.pos f) in
    (puts ((end + 2 ^ 32 - e.pos) % 2 ^ 32), set_fd v' fd (record e { pos = end }))

pub vfs_write : Kmalloc → ℕ → List ℕ → Vfs → Writes × Vfs
vfs_write kmalloc fd buf v =
    let e = v.vfs_fds fd in
    let needed = (e.pos + length buf + 1) % 2 ^ 32 in
    if bad_fd fd v
    then (refuses, v)
    else if e.kind == 2
    then pipe_puts (pipe_write v.pipes e.ref buf) v
    else if e.kind == 3
    then (puts (length buf), record v { printed = v.printed ++ buf })
    else if not (e.kind == 1) || not (ltb e.ref v.forms.form_count)
    then (refuses, v)
    else write_grown fd buf v (form_ensure_cap kmalloc (v.forms.form_table e.ref) needed)

-- 0 is SEEK_SET and 1 is SEEK_CUR; SEEK_END is treated as any other value.
pub seek_to : ℕ → ℕ → ℕ → ℕ
seek_to pos offset whence =
    let to = if whence == 0 then offset else if whence == 1 then (pos + offset) % 2 ^ 32 else 0 in
    if is_neg to then 0 else to

pub vfs_lseek : ℕ → ℕ → ℕ → Vfs → Option ℕ × Vfs
vfs_lseek fd offset whence v =
    let e = v.vfs_fds fd in
    let to = seek_to e.pos offset whence in
    if not (ltb fd vfs_max_fds) || not (e.kind == 1)
    then (none, v)
    else (some to, set_fd v fd (record e { pos = to }))

-- `vfs_node`
pub record Node : Type 0 where
  pub name : List ℕ
  pub dim : Bool
  pub size : ℕ
  pub owner : ℕ
  pub mode : ℕ
  pub ref_count : ℕ

-- A name that ends in '/' is a dim's.
ends_in_slash : List ℕ → Bool
ends_in_slash [] = false
ends_in_slash (c ∷ []) = c == b'/'
ends_in_slash (c ∷ d ∷ s) = ends_in_slash (d ∷ s)

pub node_of : Form → Node
node_of f = record {
  name = f.name;
  dim = ends_in_slash f.name;
  size = f.size;
  owner = f.owner;
  mode = f.mode;
  ref_count = 1;
}

pub vfs_stat : List ℕ → Forms → Option Node
vfs_stat path s = elim (find_form s path) [ none ↦ none | some i ↦ some (node_of (s.form_table i)) ]

pub vfs_dup : ℕ → ℕ → Vfs → Option ℕ × Vfs
vfs_dup current_task old_fd v =
    if bad_fd old_fd v then (none, v) else elim (vfs_fd_alloc current_task v) [
      | none ↦ (none, v)
      | some (fd, v') ↦ (some fd, set_fd v' fd (v'.vfs_fds old_fd))
    ]
