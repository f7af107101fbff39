-- ===== src/Vfs/Append.antt =====
-- What becomes of a write through a descriptor that was opened to append.
use hexa_os_alpha_build.Base.{
  ℕ, ◌+◌, ◌%◌, ◌^◌, ◌<◌, ◌≡◌, refl, arith, true, false, List, [], ◌∷◌, update_self,
}
use hexa_os_alpha_build.Base.Lists.{length}
use hexa_os_alpha_build.Text.{Buffer}
use hexa_os_alpha_build.Forms.{Form, Kmalloc, int_le}
use hexa_os_alpha_build.Forms.Fitting.{Fits, form_ensure_cap_enough}
use hexa_os_alpha_build.Vfs.{Vfs, write_bytes, write_at, puts, write_grown, vfs_write, set_vform}
use hexa_os_alpha_build.Vfs.RoundTrip.{IsOpen, vfs_write_open}

past_end : (bs : List ℕ) (c : Buffer) → write_bytes bs 0x7fffffff c ≡ (c, 0x7fffffff)
unfolding write_bytes
past_end [] c = refl
past_end (b ∷ bs) c = refl

write_grown_past :
    (fd : ℕ) (bs : List ℕ) (v : Vfs) (f : Form)
    → (v.vfs_fds fd).pos ≡ 0x7fffffff
    → f.size < 2 ^ 30
    → let (w, v1) = write_grown fd bs v (true, f) in
      let f1 = v1.forms.form_table (v.vfs_fds fd).ref in
      (w ≡ puts 0) × (f1.size ≡ 0x7fffffff) × (f1.capacity ≡ f.capacity)
unfolding write_grown write_at set_vform
write_grown_past fd bs v f e h =
    let larger : int_le 0x7fffffff f.size ≡ false = ground arith in
    rw (e, past_end bs f.content)
      (rw (update_self v.forms.form_table (v.vfs_fds fd).ref _, larger) (refl, refl, refl))

-- Through the open descriptor of a form that fits its memory, at the place where an open to append
-- puts it, a write takes no byte: it reports 0 bytes written, asks for no memory, and leaves the
-- largest `int` as the size of the form, past its memory.
pub vfs_write_append :
    (kmalloc : Kmalloc) (fd : ℕ) (bs : List ℕ) (v : Vfs)
    → IsOpen fd v
    → (v.vfs_fds fd).pos ≡ 0x7fffffff
    → Fits (v.forms.form_table (v.vfs_fds fd).ref)
    → length bs < 2 ^ 31
    → let (w, v1) = vfs_write kmalloc fd bs v in
      let f1 = v1.forms.form_table (v.vfs_fds fd).ref in
      (w ≡ puts 0)
      × (f1.size ≡ 0x7fffffff)
      × (f1.capacity ≡ (v.forms.form_table (v.vfs_fds fd).ref).capacity)
vfs_write_append kmalloc fd bs v o e f h =
    let g = v.forms.form_table (v.vfs_fds fd).ref in
    let needed = ((v.vfs_fds fd).pos + length bs + 1) % 2 ^ 32 in
    let negative : int_le needed g.capacity ≡ true = ground (arith, f.limit) in
    rw (vfs_write_open kmalloc fd bs v o, form_ensure_cap_enough kmalloc g needed negative)
      (write_grown_past fd bs v g e (omega (arith, f.room, f.limit)))
