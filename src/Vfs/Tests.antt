-- ===== src/Vfs/Tests.antt =====
-- The theorems on descriptors, at a table with one open form.
use hexa_os_alpha_build.Base.{
  ℕ, ◌+◌, ◌^◌, ◌-◌, min, ◌≢◌, ◌≡◌, refl, arith, true, false, none, some, [], ◌∷◌, ◌==◌,
  if◌then◌else◌, leb, scan,
}
use hexa_os_alpha_build.Text.{strcmp}
use hexa_os_alpha_build.Forms.{Form, Kmalloc, find_form, check_perm, form_ensure_cap}
use hexa_os_alpha_build.Forms.Fitting.{Fits, IsBounded, form_ensure_cap_enough}
use hexa_os_alpha_build.Pipe.{Pipes, blank_form}
use hexa_os_alpha_build.Vfs.{Vfs, vfs_write, vfs_lseek, vfs_read, vfs_open, puts, gets}
use hexa_os_alpha_build.Vfs.RoundTrip.{IsOpen, read-write}
use hexa_os_alpha_build.Vfs.Append.{vfs_write_append}
use hexa_os_alpha_build.Vfs.Descriptors.{FirstFree}
use hexa_os_alpha_build.Vfs.Reading.{bytes_from, read-vfs_open}

abbrev small_form : Form
small_form = record {
  name = b'a' ∷ [];
  has_content = true;
  content = λ i. i + 65;
  size = 5;
  capacity = 8;
  owner = 1;
  mode = 0x1a4;
}

abbrev no_pipes : Pipes
no_pipes = record {
  pipes = λ _. record { buf = λ _. 0; head = 0; tail = 0; readers = 0; writers = 0; closed = 0 };
  pipe_allocated = λ _. false;
  typed_pipes = λ _. record {
    schema_hash = 0;
    producer_pid = 0;
    consumer_pid = 0;
    cap_token = 0;
    ring = λ _. blank_form;
    head = 0;
    tail = 0;
    active = false;
  };
  typed_pipe_count = 0;
}

-- Descriptor 3 is open for the one form, at a place.
abbrev one_open : ℕ → Vfs
one_open at = record {
  vfs_fds = λ i. record { pid = 0; kind = if i == 3 then 1 else 0; ref = 0; pos = at; flags = 0 };
  forms = record { form_table = λ _. small_form; form_count = 1 };
  pipes = no_pipes;
  keys = [];
  printed = [];
}

abbrev plenty : Kmalloc
plenty n = if leb (2 ^ 30) n then none else some (λ _. 7)

plenty-IsBounded : IsBounded plenty
plenty-IsBounded n h = ground arith

small_form-Fits : Fits small_form
small_form-Fits = record { has = refl; room = omega arith; limit = omega arith }

one_open-IsOpen : (at : ℕ) → IsOpen 3 (one_open at)
one_open-IsOpen at = record { fd_lt = omega arith; kind = refl; ref_lt = omega arith }

enough_room : (form_ensure_cap plenty small_form 3).0 ≡ true
enough_room = rw (form_ensure_cap_enough plenty small_form 3 refl) refl

read-write_example :
    let (w, v1) = vfs_write plenty 3 (5 ∷ 6 ∷ []) (one_open 0) in
    let (p, v2) = vfs_lseek 3 0 0 v1 in
    (w ≡ puts 2) × (p ≡ some 0) × ((vfs_read 3 2 v2).0 ≡ gets (5 ∷ 6 ∷ []))
read-write_example =
    read-write plenty 3 (5 ∷ 6 ∷ []) (one_open 0) plenty-IsBounded (one_open-IsOpen 0)
      small_form-Fits (omega arith) enough_room

vfs_write_append_example :
    let (w, v1) = vfs_write plenty 3 (5 ∷ 6 ∷ []) (one_open 0x7fffffff) in
    (w ≡ puts 0)
    × ((v1.forms.form_table 0).size ≡ 0x7fffffff)
    × ((v1.forms.form_table 0).capacity ≡ 8)
vfs_write_append_example =
    vfs_write_append plenty 3 (5 ∷ 6 ∷ []) (one_open 0x7fffffff) (one_open-IsOpen 0x7fffffff) refl
      small_form-Fits (omega arith)

a-there : find_form (one_open 0).forms (b'a' ∷ []) ≡ some 0
unfolding find_form scan strcmp
a-there = refl

a-open : check_perm 0 (one_open 0).forms 0 false ≡ false
unfolding check_perm
a-open = refl

read-vfs_open_example :
    (fd : ℕ) × FirstFree (one_open 0) fd
    × (let first = min 2 small_form.size in
        let (r, v1) = vfs_open plenty 0 0 (b'a' ∷ []) 0 (one_open 0) in
        let (a, v2) = vfs_read fd 2 v1 in
        let (b, v3) = vfs_read fd 9 v2 in
        (r ≡ some fd)
        × (a ≡ gets (bytes_from first 0 small_form.content))
        × (b ≡ gets (bytes_from (min 9 (small_form.size - first)) first small_form.content))
        × (v3.forms ≡ (one_open 0).forms)
        × ((j : ℕ) → fd ≢ j → v3.vfs_fds j ≡ (one_open 0).vfs_fds j))
read-vfs_open_example =
    read-vfs_open plenty 0 0 (b'a' ∷ []) 0 (one_open 0) 0 4 2 9 a-there a-open refl refl
      (omega arith) (omega arith) refl (omega arith) (omega arith) (omega arith)
