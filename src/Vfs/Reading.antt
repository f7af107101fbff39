-- ===== src/Vfs/Reading.antt =====
-- A form that is opened for reading is read piece by piece from its start.
use hexa_os_alpha_build.Base.{
  ℕ, zero, suc, ◌+◌, ◌-◌, ◌%◌, ◌^◌, ◌≤◌, ◌<◌, ◌≡◌, refl, ap, ◌∙◌, subst, arith, Bool, true, false,
  ltb, some, List, [], ◌∷◌, is_neg, min, update_self, update_ne, lt→ltb, inl, inr, Bool-cases,
  bit_and, ◌==◌, ◌≢◌, not,
}
use hexa_os_alpha_build.Base.Lists.{length}
use hexa_os_alpha_build.Text.{Buffer}
use hexa_os_alpha_build.Forms.{Form, Forms, Kmalloc, int_le, find_form, check_perm}
use hexa_os_alpha_build.Vfs.{
  Fd, Vfs, vfs_max_fds, set_fd, form_write, form_append, read_form, gets, vfs_read, vfs_open,
}
use hexa_os_alpha_build.Vfs.Descriptors.{FirstFree, opened, vfs_open_lem}
use hexa_os_alpha_build.Vfs.RoundTrip.{IsOpen, IsOpen-good}

-- `n` bytes of a content, from the place `pos` on.
pub bytes_from : ℕ → ℕ → Buffer → List ℕ
bytes_from zero pos c = []
bytes_from (suc n) pos c = c pos ∷ bytes_from n (pos + 1) c

length-bytes_from : (n pos : ℕ) (c : Buffer) → length (bytes_from n pos c) ≡ n
unfolding bytes_from
length-bytes_from zero pos c = refl
length-bytes_from (suc n) pos c = omega (arith, length-bytes_from n (pos + 1) c)

read_form_lem :
    (n pos : ℕ) (f : Form)
    → f.size < 2 ^ 31
    → pos ≤ f.size
    → read_form n pos f ≡ bytes_from (min n (f.size - pos)) pos f.content
unfolding read_form bytes_from
read_form_lem zero pos f h l = let e : min 0 (f.size - pos) ≡ 0 = omega arith in rw e refl
read_form_lem (suc n) pos f h l = elim (Bool-cases (int_le f.size pos)) [
  | inl e ↦ let none_left : min (suc n) (f.size - pos) ≡ 0 = ground arith in rw (e, none_left) refl
  | inr e ↦
      let more : min (suc n) (f.size - pos) ≡ suc (min n (f.size - (pos + 1))) = ground arith in
      let w : (pos + 1) % 2 ^ 32 ≡ pos + 1 = omega arith in
      rw (e, more, w) (ap (λ t. f.content pos ∷ t) (read_form_lem n (pos + 1) f h (ground arith)))
]

-- A read of an open form gives the next bytes and moves the descriptor on.
vfs_read_step :
    (fd n : ℕ) (v : Vfs)
    → IsOpen fd v
    → n < 2 ^ 31
    → let e = v.vfs_fds fd in
      let f = v.forms.form_table e.ref in
      let m = min n (f.size - e.pos) in
      f.size < 2 ^ 31
      → e.pos ≤ f.size
      → vfs_read fd n v
        ≡ (gets (bytes_from m e.pos f.content), set_fd v fd (record e { pos = e.pos + m }))
unfolding vfs_read
vfs_read_step fd n v o h size within =
    let e = v.vfs_fds fd in
    let f = v.forms.form_table e.ref in
    let m = min n (f.size - e.pos) in
    let nonneg : is_neg n ≡ false = ground arith in
    let w : (e.pos + m) % 2 ^ 32 ≡ e.pos + m = ground arith in
    rw (IsOpen-good fd v o, nonneg)
      (rw (o.kind, lt→ltb e.ref v.forms.form_count o.ref_lt)
        (rw (read_form_lem n e.pos f size within)
          (rw (length-bytes_from m e.pos f.content, w) refl)))

-- A descriptor stands at the place `p` of a form of the forms `s`.
record At (fd idx p : ℕ) (s : Forms) (v : Vfs) : Type 0 where
  fd_lt : fd < vfs_max_fds
  kind : (v.vfs_fds fd).kind ≡ 1
  ref : (v.vfs_fds fd).ref ≡ idx
  pos : (v.vfs_fds fd).pos ≡ p
  forms : v.forms ≡ s

At-read :
    (fd idx p n : ℕ) (s : Forms) (v : Vfs)
    → At fd idx p s v
    → idx < s.form_count
    → (s.form_table idx).size < 2 ^ 31
    → p ≤ (s.form_table idx).size
    → n < 2 ^ 31
    → let m = min n ((s.form_table idx).size - p) in
      let (a, v') = vfs_read fd n v in
      (a ≡ gets (bytes_from m p (s.form_table idx).content))
      × At fd idx (p + m) s v'
      × ((j : ℕ) → fd ≢ j → v'.vfs_fds j ≡ v.vfs_fds j)
At-read fd idx p n s v h l size within hn =
    let o : IsOpen fd v = record {
      fd_lt = h.fd_lt;
      kind = h.kind;
      ref_lt = rw (h.ref, h.forms) l;
    } in
    let step =
      vfs_read_step fd n v o hn (rw (h.ref, h.forms) size) (rw (h.ref, h.forms, h.pos) within) in
    rw step (
      rw (h.ref, h.forms, h.pos) refl,
      record {
        fd_lt = h.fd_lt;
        kind = rw (update_self v.vfs_fds fd _) h.kind;
        ref = rw (update_self v.vfs_fds fd _) h.ref;
        pos = rw (update_self v.vfs_fds fd _) (rw (h.ref, h.forms, h.pos) refl);
        forms = h.forms;
      },
      λ j ne. update_ne v.vfs_fds fd _ j ne,
    )

-- Whoever has a permission has it on a form of the table.
check_perm-lt :
    (u_cur : ℕ) (s : Forms) (i : ℕ) (w : Bool) → check_perm u_cur s i w ≡ false → i < s.form_count
unfolding check_perm
check_perm-lt u_cur s i w e = elim (Bool-cases (ltb i s.form_count)) [
  | inl l ↦ ground arith
  | inr l ↦ let q : check_perm u_cur s i w ≡ true = rw l refl in absurd (cc (e, q))
]

-- After a form that the user may read was opened for reading under its name, with a descriptor free, two
-- reads through the new descriptor, which is the first free one from 3 on, give the first bytes of the
-- form and the ones after them: as many as are asked for, or as are left where that is less. The forms
-- and all other descriptors are as before the open.
pub read-vfs_open :
    (kmalloc : Kmalloc) (u_cur current_task : ℕ) (path : List ℕ) (flags : ℕ) (v : Vfs)
    (idx k n m : ℕ)
    → find_form v.forms path ≡ some idx
    → check_perm u_cur v.forms idx false ≡ false
    → bit_and flags form_write ≡ 0
    → bit_and flags form_append ≡ 0
    → 3 ≤ k
    → k < vfs_max_fds
    → (v.vfs_fds k).kind ≡ 0
    → (v.forms.form_table idx).size < 2 ^ 31
    → n < 2 ^ 31
    → m < 2 ^ 31
    → (fd : ℕ) × FirstFree v fd
      × (let g = v.forms.form_table idx in
          let first = min n g.size in
          let (r, v1) = vfs_open kmalloc u_cur current_task path flags v in
          let (a, v2) = vfs_read fd n v1 in
          let (b, v3) = vfs_read fd m v2 in
          (r ≡ some fd)
          × (a ≡ gets (bytes_from first 0 g.content))
          × (b ≡ gets (bytes_from (min m (g.size - first)) first g.content))
          × (v3.forms ≡ v.forms)
          × ((j : ℕ) → fd ≢ j → v3.vfs_fds j ≡ v.vfs_fds j))
read-vfs_open kmalloc u_cur current_task path flags v idx k n m found may rd start l l' free size hn
      hm =
    let allowed : check_perm u_cur v.forms idx (not (bit_and flags form_write == 0)) ≡ false =
      rw rd may in
    let (fd, f, q) =
      vfs_open_lem kmalloc u_cur current_task path flags v idx k found allowed l l' free in
    let g = v.forms.form_table idx in
    let first = min n g.size in
    let e1 : Fd = opened current_task idx flags in
    let v1 = set_fd v fd e1 in
    let now = update_self v.vfs_fds fd e1 in
    let lt = check_perm-lt u_cur v.forms idx false may in
    let h1 : At fd idx 0 v.forms v1 = record {
      fd_lt = f.before;
      kind = rw now refl;
      ref = rw now refl;
      pos = rw (now, start) refl;
      forms = refl;
    } in
    let r1 = At-read fd idx 0 n v.forms v1 h1 lt size (omega arith) hn in
    let all : min n (g.size - 0) ≡ first = ground arith in
    let next : 0 + min n (g.size - 0) ≡ first = ground arith in
    let h2 = subst (λ x. At fd idx x v.forms (vfs_read fd n v1).1) next r1.1 in
    let r2 = At-read fd idx first m v.forms (vfs_read fd n v1).1 h2 lt size (ground arith) hm in
    (
      fd,
      f,
      rw q (
        refl,
        r1.0 ∙ rw all refl,
        r2.0,
        r2.1.forms,
        λ j ne. r2.2 j ne ∙ r1.2 j ne ∙ update_ne v.vfs_fds fd e1 j ne,
      ),
    )
