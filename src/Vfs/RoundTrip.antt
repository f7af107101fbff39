-- ===== src/Vfs/RoundTrip.antt =====
-- What is written through a descriptor is read back at the same place.
use hexa_os_alpha_build.Base.{
  ℕ, ◌+◌, ◌-◌, ◌%◌, ◌^◌, ◌≤◌, ◌<◌, ◌≡◌, refl, arith, ap, ◌∙◌, Bool, true, false, List, [], ◌∷◌,
  some, is_neg, update, update_self, update_ne, lt→ltb,
}
use hexa_os_alpha_build.Base.Lists.{length}
use hexa_os_alpha_build.Text.{Buffer}
use hexa_os_alpha_build.Forms.{Form, Kmalloc, int_le, form_ensure_cap}
use hexa_os_alpha_build.Forms.Fitting.{
  Fits, IsBounded, Ensured, grown, refused, form_ensure_cap_cases,
}
use hexa_os_alpha_build.Vfs.{
  Fd, Vfs, vfs_max_fds, set_fd, bad_fd, read_form, gets, vfs_read, write_bytes, write_at, puts,
  write_grown, vfs_write, vfs_lseek, seek_to, set_vform,
}

abbrev content_limit : ℕ
content_limit = 65528

write_bytes_end :
    (bs : List ℕ) (pos : ℕ) (c : Buffer)
    → pos + length bs ≤ content_limit
    → (write_bytes bs pos c).1 ≡ pos + length bs
unfolding write_bytes
write_bytes_end [] pos c h = omega arith
write_bytes_end (b ∷ bs) pos c h =
    let room : int_le content_limit pos ≡ false = ground arith in
    let w : (pos + 1) % 2 ^ 32 ≡ pos + 1 = omega arith in
    rw (room, w) (omega (arith, write_bytes_end bs (pos + 1) (update c pos b)))

write_bytes_before :
    (bs : List ℕ) (pos : ℕ) (c : Buffer) (k : ℕ)
    → pos + length bs ≤ content_limit
    → k < pos
    → (write_bytes bs pos c).0 k ≡ c k
unfolding write_bytes
write_bytes_before [] pos c k h l = refl
write_bytes_before (b ∷ bs) pos c k h l =
    let room : int_le content_limit pos ≡ false = ground arith in
    let w : (pos + 1) % 2 ^ 32 ≡ pos + 1 = omega arith in
    rw (room, w)
      (write_bytes_before bs (pos + 1) (update c pos b) k (omega arith) (omega arith)
        ∙ update_ne c pos b k (omega arith))

read_form-write_bytes :
    (bs : List ℕ) (pos : ℕ) (c : Buffer) (f : Form)
    → pos + length bs ≤ content_limit
    → pos + length bs ≤ f.size
    → f.size < 2 ^ 31
    → ((k : ℕ) → k < pos + length bs → f.content k ≡ (write_bytes bs pos c).0 k)
    → read_form (length bs) pos f ≡ bs
unfolding read_form write_bytes
read_form-write_bytes [] pos c f h hs lim same = refl
read_form-write_bytes (b ∷ bs) pos c f h hs lim same =
    let room : int_le content_limit pos ≡ false = ground arith in
    let within : int_le f.size pos ≡ false = ground arith in
    let w : (pos + 1) % 2 ^ 32 ≡ pos + 1 = omega arith in
    let step : write_bytes (b ∷ bs) pos c ≡ write_bytes bs (pos + 1) (update c pos b) =
      rw (room, w) refl in
    let first : f.content pos ≡ b =
      same pos (omega arith)
      ∙ ap (λ (r : Buffer × ℕ). r.0 pos) step
      ∙ write_bytes_before bs (pos + 1) (update c pos b) pos (omega arith) (omega arith)
      ∙ update_self c pos b in
    let rest =
      read_form-write_bytes bs (pos + 1) (update c pos b) f (omega arith) (omega arith) lim
        (λ k l. same k (omega arith) ∙ ap (λ (r : Buffer × ℕ). r.0 k) step) in
    rw (within, w, first, rest) refl

-- The size covers what was written, and all of it is there.
read_form-write_at :
    (bs : List ℕ) (pos : ℕ) (f : Form)
    → pos + length bs ≤ content_limit
    → f.size < 2 ^ 31
    → read_form (length bs) pos (write_at bs pos f) ≡ bs
unfolding write_at
read_form-write_at bs pos f h lim =
    let end = (write_bytes bs pos f.content).1 in
    let e : end ≡ pos + length bs = write_bytes_end bs pos f.content h in
    read_form-write_bytes bs pos f.content (write_at bs pos f) h (ground arith) (ground arith)
      (λ k l. update_ne (write_bytes bs pos f.content).0 end 0 k (omega arith))

-- A descriptor that is open for a form of the table.
pub record IsOpen (fd : ℕ) (v : Vfs) : Type 0 where
  pub fd_lt : fd < vfs_max_fds
  pub kind : (v.vfs_fds fd).kind ≡ 1
  pub ref_lt : (v.vfs_fds fd).ref < v.forms.form_count

pub IsOpen-good : (fd : ℕ) (v : Vfs) → IsOpen fd v → bad_fd fd v ≡ false
IsOpen-good fd v o = rw (lt→ltb fd vfs_max_fds o.fd_lt, o.kind) refl

vfs_read_open :
    (fd n : ℕ) (v : Vfs)
    → IsOpen fd v
    → n < 2 ^ 31
    → (vfs_read fd n v).0
      ≡ gets (read_form n (v.vfs_fds fd).pos (v.forms.form_table (v.vfs_fds fd).ref))
unfolding vfs_read
vfs_read_open fd n v o h =
    let nonneg : is_neg n ≡ false = ground arith in
    rw (IsOpen-good fd v o, nonneg)
      (rw (o.kind, lt→ltb (v.vfs_fds fd).ref v.forms.form_count o.ref_lt) refl)

vfs_lseek_open :
    (fd pos : ℕ) (v : Vfs)
    → IsOpen fd v
    → pos < 2 ^ 31
    → vfs_lseek fd pos 0 v ≡ (some pos, set_fd v fd (record (v.vfs_fds fd) { pos = pos }))
unfolding vfs_lseek seek_to
vfs_lseek_open fd pos v o h =
    let nonneg : is_neg pos ≡ false = ground arith in
    rw (lt→ltb fd vfs_max_fds o.fd_lt, o.kind, nonneg) refl

pub vfs_write_open :
    (kmalloc : Kmalloc) (fd : ℕ) (bs : List ℕ) (v : Vfs)
    → IsOpen fd v
    → vfs_write kmalloc fd bs v
      ≡ write_grown fd bs v (
          form_ensure_cap kmalloc
            (v.forms.form_table (v.vfs_fds fd).ref)
            (((v.vfs_fds fd).pos + length bs + 1) % 2 ^ 32))
unfolding vfs_write
vfs_write_open kmalloc fd bs v o =
    rw (IsOpen-good fd v o)
      (rw (o.kind, lt→ltb (v.vfs_fds fd).ref v.forms.form_count o.ref_lt) refl)

module _ (fd : ℕ) (bs : List ℕ) (v : Vfs) (o : IsOpen fd v)
    (h : (v.vfs_fds fd).pos + length bs ≤ content_limit) where
  write_grown-read :
      {needed : ℕ} {r : Bool × Form}
      → Ensured (v.forms.form_table (v.vfs_fds fd).ref) needed r
      → r.0 ≡ true
      → (v.forms.form_table (v.vfs_fds fd).ref).size < 2 ^ 30
      → let (w, v1) = write_grown fd bs v r in
        let (p, v2) = vfs_lseek fd (v.vfs_fds fd).pos 0 v1 in
        (w ≡ puts (length bs))
        × (p ≡ some (v.vfs_fds fd).pos)
        × ((vfs_read fd (length bs) v2).0 ≡ gets bs)
  unfolding write_grown set_vform
  write_grown-read (grown f g) ok lim =
      let e = v.vfs_fds fd in
      let end = (write_bytes bs e.pos f.content).1 in
      let at_end : end ≡ e.pos + length bs = write_bytes_end bs e.pos f.content h in
      let f' = write_at bs e.pos f in
      let e1 : Fd = record e { pos = end } in
      let v1 : Vfs = set_fd (set_vform v e.ref f') fd e1 in
      let now = update_self v.vfs_fds fd e1 in
      let o1 : IsOpen fd v1 = record {
        fd_lt = o.fd_lt;
        kind = rw now o.kind;
        ref_lt = rw now o.ref_lt;
      } in
      let count : (end + 2 ^ 32 - e.pos) % 2 ^ 32 ≡ length bs = omega arith in
      let seek = vfs_lseek_open fd e.pos v1 o1 (omega arith) in
      let e2 : Fd = record (v1.vfs_fds fd) { pos = e.pos } in
      let v2 : Vfs = set_fd v1 fd e2 in
      let then_ = update_self v1.vfs_fds fd e2 in
      let o2 : IsOpen fd v2 = record {
        fd_lt = o.fd_lt;
        kind = rw then_ o1.kind;
        ref_lt = rw then_ o1.ref_lt;
      } in
      let back : (vfs_read fd (length bs) v2).0 ≡ gets bs =
        vfs_read_open fd (length bs) v2 o2 (omega arith)
        ∙ rw (then_, now, update_self v.forms.form_table e.ref f')
            (ap gets (read_form-write_at bs e.pos f h (omega (arith, g.size)))) in
      rw (count, seek) (refl, refl, back)
  write_grown-read refused ok lim = cc

-- Bytes that are written through the open descriptor of a form, where the file has room for them and
-- the memory is given, are all written, and are the bytes that a read of as many gets after a seek
-- back to where the write began.
pub read-write :
    (kmalloc : Kmalloc) (fd : ℕ) (bs : List ℕ) (v : Vfs)
    → IsBounded kmalloc
    → IsOpen fd v
    → Fits (v.forms.form_table (v.vfs_fds fd).ref)
    → (v.vfs_fds fd).pos + length bs ≤ content_limit
    → (form_ensure_cap kmalloc
        (v.forms.form_table (v.vfs_fds fd).ref)
        (((v.vfs_fds fd).pos + length bs + 1) % 2 ^ 32)).0
      ≡ true
    → let (w, v1) = vfs_write kmalloc fd bs v in
      let (p, v2) = vfs_lseek fd (v.vfs_fds fd).pos 0 v1 in
      (w ≡ puts (length bs))
      × (p ≡ some (v.vfs_fds fd).pos)
      × ((vfs_read fd (length bs) v2).0 ≡ gets bs)
read-write kmalloc fd bs v b o f h ok =
    let size : (v.forms.form_table (v.vfs_fds fd).ref).size < 2 ^ 30 =
      omega (arith, f.room, f.limit) in
    rw (vfs_write_open kmalloc fd bs v o) (
      write_grown-read fd bs v o h
        (form_ensure_cap_cases kmalloc (v.forms.form_table (v.vfs_fds fd).ref)
          (((v.vfs_fds fd).pos + length bs + 1) % 2 ^ 32) b f (omega arith))
        ok size)
