-- ===== src/Forms/Editing.antt =====
-- `cmd_edit` of hexa.c, on the lines that are typed.
use hexa_os_alpha_build.Base.{
  ℕ, ◌+◌, ◌≤◌, ◌<◌, ◌≡◌, ◌≢◌, refl, arith, true, Option, none, some, List, [], ◌∷◌, leb, ◌==◌,
  if◌then◌else◌, update, inl, inr, Bool-cases,
}
use hexa_os_alpha_build.Text.{strlen, strcmp, strcpy}
use hexa_os_alpha_build.Forms.{Form, Forms, Message, find_form, check_perm}
use hexa_os_alpha_build.Forms.Commands.{set_form}

abbrev content_max : ℕ
content_max = 65528

-- ".done"
abbrev pub done_line : List ℕ
done_line = 46 ∷ 100 ∷ 111 ∷ 110 ∷ 101 ∷ []

-- A line and the end of line after it, at the place `total`.
add_line : Form → ℕ → List ℕ → Form
add_line f total line = record f {
  content = update (strcpy f.content total line) (total + strlen line) b'\n';
  size = total + strlen line + 1;
}

-- The loop, on the lines to come. Where they end, the command still waits.
pub edit_lines : List (List ℕ) → ℕ → Form → Form
edit_lines [] total f = f
edit_lines (line ∷ rest) total f =
    let more = edit_lines rest (total + strlen line + 1) (add_line f total line) in
    if strcmp line done_line == 0
    then f
    else if leb content_max (total + strlen line + 2)
    then f
    else more

unfoldable pub edit_found : ℕ → List (List ℕ) → Forms → Option ℕ → Message × Forms
edit_found u_cur lines s none = (Message.not_found, s)
edit_found u_cur lines s (some i) =
    let f = s.form_table i in
    if check_perm u_cur s i true then (Message.denied, s) else (
      Message.saved,
      set_form s i (edit_lines lines 0 (record f { content = update f.content 0 0; size = 0 })),
    )

unfoldable pub cmd_edit : ℕ → List ℕ → List (List ℕ) → Forms → Message × Forms
cmd_edit u_cur name lines s = edit_found u_cur lines s (find_form s name)

-- The command never asks for memory.
pub edit_lines-capacity :
    (lines : List (List ℕ)) (total : ℕ) (f : Form)
    → (edit_lines lines total f).capacity ≡ f.capacity
unfolding edit_lines add_line
edit_lines-capacity [] total f = refl
edit_lines-capacity (line ∷ rest) total f =
    ground (arith, edit_lines-capacity rest (total + strlen line + 1) (add_line f total line))

-- The bytes of lines that are typed, each with its end of line.
unfoldable pub typed_length : List (List ℕ) → ℕ
typed_length [] = 0
typed_length (line ∷ rest) = strlen line + 1 + typed_length rest

-- Only the content and the size of a form change.
pub edit_lines-fields :
    (lines : List (List ℕ)) (total : ℕ) (f : Form)
    → ((edit_lines lines total f).has_content ≡ f.has_content)
      × ((edit_lines lines total f).name ≡ f.name)
unfolding edit_lines add_line
edit_lines-fields [] total f = (refl, refl)
edit_lines-fields (line ∷ rest) total f =
    let ih = edit_lines-fields rest (total + strlen line + 1) (add_line f total line) in
    elim (Bool-cases (strcmp line done_line == 0)) [
      | inl e ↦ rw e (refl, refl)
      | inr e ↦ rw e (elim (Bool-cases (leb content_max (total + strlen line + 2))) [
        | inl e' ↦ rw e' (refl, refl)
        | inr e' ↦ rw e' ih
      ])
    ]

-- The size is at most what was typed.
pub edit_lines-size-le :
    (lines : List (List ℕ)) (total : ℕ) (f : Form)
    → f.size ≤ total
    → (edit_lines lines total f).size ≤ total + typed_length lines
unfolding edit_lines add_line typed_length
edit_lines-size-le [] total f h = omega arith
edit_lines-size-le (line ∷ rest) total f h =
    let ih =
      edit_lines-size-le rest (total + strlen line + 1) (add_line f total line) (omega arith) in
    elim (Bool-cases (strcmp line done_line == 0)) [
      | inl e ↦ rw e (omega arith)
      | inr e ↦ rw e (elim (Bool-cases (leb content_max (total + strlen line + 2))) [
        | inl e' ↦ rw e' (omega arith)
        | inr e' ↦ rw e' (omega (arith, ih))
      ])
    ]

edit_lines-size :
    (lines : List (List ℕ)) (total : ℕ) (f : Form)
    → total ≤ f.size
    → total ≤ (edit_lines lines total f).size
unfolding edit_lines add_line
edit_lines-size [] total f h = h
edit_lines-size (line ∷ rest) total f h =
    ground (arith, edit_lines-size rest (total + strlen line + 1) (add_line f total line))

-- Whatever follows a first line that is neither ".done" nor too long for a form, the size counts the
-- line, and the capacity is the old one.
pub edit_lines_first :
    (line : List ℕ) (rest : List (List ℕ)) (f : Form)
    → strcmp line done_line ≢ 0
    → strlen line + 2 < content_max
    → (strlen line < (edit_lines (line ∷ rest) 0 f).size)
      × ((edit_lines (line ∷ rest) 0 f).capacity ≡ f.capacity)
unfolding edit_lines add_line
edit_lines_first line rest f ne h = (
  ground (arith, edit_lines-size rest (0 + strlen line + 1) (add_line f 0 line)),
  ground (arith, edit_lines-capacity rest (0 + strlen line + 1) (add_line f 0 line)),
)
