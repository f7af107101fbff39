-- ===== src/Forms/Tests.antt =====
-- The theorems on forms, at a table of two forms.
use hexa_os_alpha_build.Base.{
  ℕ, ◌+◌, ◌≡◌, ◌^◌, refl, arith, Bool, true, false, none, some, List, [], ◌∷◌, ◌++◌, ◌==◌,
  if◌then◌else◌, leb, scan,
}
use hexa_os_alpha_build.Text.{strlen, strcmp}
use hexa_os_alpha_build.Forms.{Form, Forms, Kmalloc, find_form, check_perm, form_ensure_cap, grow}
use hexa_os_alpha_build.Forms.Commands.{cmd_view, cmd_write, shown}
use hexa_os_alpha_build.Forms.Dispatch.{Command, edit}
use hexa_os_alpha_build.Forms.Editing.{done_line}
use hexa_os_alpha_build.Forms.Fitting.{Fits, IsBounded}
use hexa_os_alpha_build.Forms.Viewing.{view-write}

-- "a" and "b"
abbrev text_a : List ℕ
text_a = b'a' ∷ []

abbrev text_b : List ℕ
text_b = b'b' ∷ []

-- A form of user 1, who lets others read.
abbrev form_of : List ℕ → Form
form_of name = record {
  name = name;
  has_content = true;
  content = λ _. 0;
  size = 0;
  capacity = 16;
  owner = 1;
  mode = 0x1a4;
}

abbrev two_forms : Forms
two_forms = record { form_table = λ i. form_of (if i == 0 then text_a else text_b); form_count = 2 }

-- All of the memory below a gigabyte can be had.
abbrev some_memory : Kmalloc
some_memory n = if leb (2 ^ 30) n then none else some (λ _. 7)

some_memory-IsBounded : IsBounded some_memory
some_memory-IsBounded n h = ground arith

form_of-Fits : (name : List ℕ) → Fits (form_of name)
form_of-Fits name = record { has = refl; room = omega arith; limit = omega arith }

abbrev user_name : ℕ → List ℕ
user_name i = text_a

-- The lines "hi" and ".done"
abbrev two_lines : List (List ℕ)
two_lines = (b'h' ∷ b'i' ∷ []) ∷ done_line ∷ []

abbrev edit_a : Command
edit_a = edit text_a two_lines

a-there : find_form two_forms text_a ≡ some 0
unfolding find_form scan strcmp
a-there = refl

a-open : (w : Bool) → check_perm 1 two_forms 0 w ≡ false
unfolding check_perm
a-open true = refl
a-open false = refl

a-room :
    (form_ensure_cap some_memory (two_forms.form_table 0) (strlen (b'h' ∷ b'i' ∷ []) + 1)).0 ≡ true
unfolding form_ensure_cap grow strlen
a-room = refl

view-write_example :
    cmd_view 1 text_a (cmd_write some_memory 1 (text_a ++ b' ' ∷ b'h' ∷ b'i' ∷ []) two_forms).1
    ≡ shown (b'h' ∷ b'i' ∷ [])
view-write_example =
    view-write some_memory 1 two_forms b'a' [] (b'h' ∷ b'i' ∷ []) 0 some_memory-IsBounded a-there
      (form_of-Fits text_a) (a-open true) (a-open false) (omega arith)
      (λ e. absurd (omega arith), tt) (omega arith) (omega arith) (λ e. absurd (omega arith)) a-room
