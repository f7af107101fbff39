-- ===== src/Forms/Viewing.antt =====
-- What a user writes into a form is what the form then shows.
use hexa_os_alpha_build.Base.{
  ℕ, zero, suc, ◌+◌, ◌≤◌, ◌<◌, ◌≡◌, ◌≢◌, refl, arith, Bool, true, false, some, List, [], ◌∷◌, ◌++◌,
  ◌==◌, update_self, ap-update, ap, fun_ext, ne→beq, scan,
}
use hexa_os_alpha_build.Base.Lists.{length}
use hexa_os_alpha_build.Text.{IsText, strlen, strlen-length, strcmp, strcpy, string_at-strcpy}
use hexa_os_alpha_build.Forms.{
  Form, Forms, Kmalloc, Message, find_form, check_perm, form_ensure_cap,
}
use hexa_os_alpha_build.Forms.Commands
use hexa_os_alpha_build.Forms.Commands.{View, shown}
use hexa_os_alpha_build.Forms.Fitting.{
  Fits, IsBounded, Ensured, refused, grown, form_ensure_cap_cases,
}

-- A name that an argument line can hold.
abbrev pub IsWord : List ℕ → Type 0
IsWord [] = Unit
IsWord (c ∷ s) = (c ≢ b' ') × IsWord s

abbrev pub NoSpaceFirst : List ℕ → Type 0
NoSpaceFirst [] = Unit
NoSpaceFirst (c ∷ s) = c ≢ b' '

take_word_lem :
    (n : ℕ) (w t : List ℕ)
    → length w ≤ n
    → IsWord w
    → Commands.take_word n (w ++ b' ' ∷ t) ≡ (w, b' ' ∷ t)
unfolding Commands.take_word
take_word_lem zero [] t h k = refl
take_word_lem (suc n) [] t h k = refl
take_word_lem zero (c ∷ w) t h k = absurd (omega arith)
take_word_lem (suc n) (c ∷ w) t h k =
    rw (take_word_lem n w t (omega arith) k.1, ne→beq c b' ' k.0) refl

take_rest_lem : (n : ℕ) (t : List ℕ) → length t ≤ n → Commands.take_rest n t ≡ t
unfolding Commands.take_rest
take_rest_lem zero [] h = refl
take_rest_lem (suc n) [] h = refl
take_rest_lem zero (c ∷ t) h = absurd (omega arith)
take_rest_lem (suc n) (c ∷ t) h = ap (λ r. c ∷ r) (take_rest_lem n t (omega arith))

skip_spaces_lem : (t : List ℕ) → NoSpaceFirst t → Commands.skip_spaces t ≡ t
unfolding Commands.skip_spaces
skip_spaces_lem [] h = refl
skip_spaces_lem (c ∷ t) h = rw (ne→beq c b' ' h) refl

-- A line made of a word and a text is split into them.
pub split_args_lem :
    (n m : ℕ) (w t : List ℕ)
    → length w ≤ n
    → IsWord w
    → length t ≤ m
    → NoSpaceFirst t
    → Commands.split_args n m (w ++ b' ' ∷ t) ≡ (w, t)
unfolding Commands.split_args
split_args_lem n m w t h k h' k' =
    rw (take_word_lem n w t h k)
      (unfold Commands.skip_spaces in rw (skip_spaces_lem t k', take_rest_lem m t h') refl)

-- A write that keeps the name keeps what every lookup finds.
pub find_form-set_form :
    (s : Forms) (i : ℕ) (f : Form) (name : List ℕ)
    → f.name ≡ (s.form_table i).name
    → find_form (Commands.set_form s i f) name ≡ find_form s name
unfolding find_form
find_form-set_form s i f name e = ap (scan s.form_count 0) (
    fun_ext (λ j.
      ap (λ (n : List ℕ). strcmp n name == 0)
        (ap-update (λ (g : Form). g.name) s.form_table i f e j)))

check_perm-set_form :
    (u_cur : ℕ) (s : Forms) (i : ℕ) (f : Form) (w : Bool)
    → f.owner ≡ (s.form_table i).owner
    → f.mode ≡ (s.form_table i).mode
    → check_perm u_cur (Commands.set_form s i f) i w ≡ check_perm u_cur s i w
unfolding check_perm
check_perm-set_form u_cur s i f w e e' = rw (update_self s.form_table i f, e, e') refl

module _ (u_cur : ℕ) (s : Forms) (name text : List ℕ) (i : ℕ) (t : IsText text)
    (found : find_form s name ≡ some i) (may_write : check_perm u_cur s i true ≡ false)
    (may_read : check_perm u_cur s i false ≡ false) where
  write_text-shown :
      {needed : ℕ} {r : Bool × Form}
      → Ensured (s.form_table i) needed r
      → r.0 ≡ true
      → length text < needed
      → Commands.cmd_view u_cur name
          (Commands.stored Message.written i s (Commands.write_text text r)).1
        ≡ shown text
  unfolding Commands.cmd_view Commands.stored Commands.write_text
  write_text-shown (grown f' g) ok h =
      let f'' = record f' { content = strcpy f'.content 0 text; size = strlen text } in
      rw (find_form-set_form s i f'' name g.name, found)
        (unfold Commands.view_found in
          rw
            (
              check_perm-set_form u_cur s i f'' false g.owner g.mode,
              may_read,
              update_self s.form_table i f'',
            )
            (ap shown (string_at-strcpy f'.capacity f'.content 0 text t (omega (arith, g.room)))))
  write_text-shown refused ok h = cc

  write_found-shown :
      (kmalloc : Kmalloc)
      → IsBounded kmalloc
      → Fits (s.form_table i)
      → length text ≤ 2047
      → (form_ensure_cap kmalloc (s.form_table i) (strlen text + 1)).0 ≡ true
      → Commands.cmd_view u_cur name (Commands.write_found kmalloc u_cur text s (some i)).1
        ≡ shown text
  unfolding Commands.write_found
  write_found-shown kmalloc b v h ok =
      let e = strlen-length text in
      rw (may_write) (
        write_text-shown
          (form_ensure_cap_cases kmalloc (s.form_table i) (strlen text + 1) b v (omega arith)) ok
          (omega arith))

-- A text that a user writes into a form by a line of the form's name, a space and the text is what
-- the command that views the form then shows: where the user may write and read the form, the name
-- has 1 to 31 characters and no space, the text has at most 2047 and starts with none, and the
-- memory that the text needs is given.
pub view-write :
    (kmalloc : Kmalloc) (u_cur : ℕ) (s : Forms) (c : ℕ) (cs text : List ℕ) (i : ℕ)
    → IsBounded kmalloc
    → find_form s (c ∷ cs) ≡ some i
    → Fits (s.form_table i)
    → check_perm u_cur s i true ≡ false
    → check_perm u_cur s i false ≡ false
    → length (c ∷ cs) ≤ 31
    → IsWord (c ∷ cs)
    → IsText text
    → length text ≤ 2047
    → NoSpaceFirst text
    → (form_ensure_cap kmalloc (s.form_table i) (strlen text + 1)).0 ≡ true
    → Commands.cmd_view u_cur
        (c ∷ cs)
        (Commands.cmd_write kmalloc u_cur ((c ∷ cs) ++ b' ' ∷ text) s).1
      ≡ shown text
unfolding Commands.cmd_write Commands.write_form
view-write kmalloc u_cur s c cs text i b found v may_write may_read ln w t lt nsp ok =
    rw (split_args_lem 31 2047 (c ∷ cs) text ln w lt nsp, found)
      (write_found-shown u_cur s (c ∷ cs) text i t found may_write may_read kmalloc b v lt ok)
