-- ===== src/Forms/Commands.antt =====
-- The commands of hexa.c that change a form: write, append, setmode and setowner, with the splitting
-- of their argument lines.
use hexa_os_alpha_build.Base.{
  ℕ, zero, suc, ◌+◌, ◌%◌, ◌^◌, Bool, true, false, not, ◌&&◌, Option, none, some, List, [], ◌∷◌,
  ◌==◌, if◌then◌else◌, scan, update,
}
use hexa_os_alpha_build.Text.{strlen, strcmp, strcpy, string_at}
use hexa_os_alpha_build.Text.Numbers.{atoi}
use hexa_os_alpha_build.Forms.{
  Form, Forms, Kmalloc, Message, find_form, check_perm, form_ensure_cap,
}

-- while (args[i] && args[i] != ' ' && j < n) word[j++] = args[i++];
unfoldable pub take_word : ℕ → List ℕ → List ℕ × List ℕ
take_word zero s = ([], s)
take_word (suc n) [] = ([], [])
take_word (suc n) (c ∷ s) =
    let (w, rest) = take_word n s in if c == b' ' then ([], c ∷ s) else (c ∷ w, rest)

-- while (args[i] == ' ') i++;
unfoldable pub skip_spaces : List ℕ → List ℕ
skip_spaces [] = []
skip_spaces (c ∷ s) = if c == b' ' then skip_spaces s else c ∷ s

-- while (args[i] && j < n) word[j++] = args[i++];
unfoldable pub take_rest : ℕ → List ℕ → List ℕ
take_rest zero s = []
take_rest (suc n) [] = []
take_rest (suc n) (c ∷ s) = c ∷ take_rest n s

-- The two parts of a line, the first of at most `n` characters and the second of at most `m`.
unfoldable pub split_args : ℕ → ℕ → List ℕ → List ℕ × List ℕ
split_args n m args = let (word, rest) = take_word n args in (word, take_rest m (skip_spaces rest))

abbrev pub set_form : Forms → ℕ → Form → Forms
set_form s i f = record s { form_table = update s.form_table i f }

-- The rest of `cmd_write` and of `cmd_append`, with the outcome of `form_ensure_cap`.
unfoldable pub write_text : List ℕ → Bool × Form → Bool × Form
write_text text (false, f) = (false, f)
write_text text (true, f) =
    (true, record f { content = strcpy f.content 0 text; size = strlen text })

unfoldable pub append_text : List ℕ → Bool × Form → Bool × Form
append_text text (false, f) = (false, f)
append_text text (true, f) = (
  true,
  record f { content = strcpy f.content f.size text; size = (f.size + strlen text) % 2 ^ 32 },
)

unfoldable pub stored : Message → ℕ → Forms → Bool × Form → Message × Forms
stored done i s (false, f) = (Message.no_memory, set_form s i f)
stored done i s (true, f) = (done, set_form s i f)

unfoldable pub write_found : Kmalloc → ℕ → List ℕ → Forms → Option ℕ → Message × Forms
write_found kmalloc u_cur text s none = (Message.not_found, s)
write_found kmalloc u_cur text s (some i) =
    if check_perm u_cur s i true
    then (Message.denied, s)
    else stored Message.written i s
        (write_text text (form_ensure_cap kmalloc (s.form_table i) (strlen text + 1)))

unfoldable pub write_form : Kmalloc → ℕ → List ℕ × List ℕ → Forms → Message × Forms
write_form kmalloc u_cur ([], text) s = (Message.usage, s)
write_form kmalloc u_cur (c ∷ cs, text) s = write_found kmalloc u_cur text s (find_form s (c ∷ cs))

unfoldable pub cmd_write : Kmalloc → ℕ → List ℕ → Forms → Message × Forms
cmd_write kmalloc u_cur args s = write_form kmalloc u_cur (split_args 31 2047 args) s

unfoldable pub append_found : Kmalloc → ℕ → List ℕ → Forms → Option ℕ → Message × Forms
append_found kmalloc u_cur text s none = (Message.not_found, s)
append_found kmalloc u_cur text s (some i) =
    let needed = ((s.form_table i).size + strlen text + 1) % 2 ^ 32 in
    if check_perm u_cur s i true
    then (Message.denied, s)
    else stored Message.appended i s
        (append_text text (form_ensure_cap kmalloc (s.form_table i) needed))

unfoldable pub append_form : Kmalloc → ℕ → List ℕ × List ℕ → Forms → Message × Forms
append_form kmalloc u_cur ([], text) s = (Message.usage, s)
append_form kmalloc u_cur (c ∷ cs, text) s =
    append_found kmalloc u_cur text s (find_form s (c ∷ cs))

unfoldable pub cmd_append : Kmalloc → ℕ → List ℕ → Forms → Message × Forms
cmd_append kmalloc u_cur args s = append_form kmalloc u_cur (split_args 31 2047 args) s

abbrev pub both : List ℕ × List ℕ → Bool
both ([], b) = false
both (c ∷ a, []) = false
both (c ∷ a, d ∷ b) = true

-- `cmd_setmode`: the mode is kept in 16 bits.
unfoldable pub mode_found : ℕ → List ℕ → Forms → Option ℕ → Message × Forms
mode_found u_cur mode_str s none = (Message.not_found, s)
mode_found u_cur mode_str s (some i) =
    let f = s.form_table i in
    if not (u_cur == 0) && not (f.owner == u_cur)
    then (Message.denied, s)
    else (Message.mode_changed, set_form s i (record f { mode = atoi mode_str % 2 ^ 16 }))

unfoldable pub change_mode : ℕ → List ℕ × List ℕ → Forms → Message × Forms
change_mode u_cur (mode_str, fname) s =
    if not (both (mode_str, fname))
    then (Message.usage, s)
    else mode_found u_cur mode_str s (find_form s fname)

unfoldable pub cmd_setmode : ℕ → List ℕ → Forms → Message × Forms
cmd_setmode u_cur args s = change_mode u_cur (split_args 15 31 args) s

-- `cmd_setowner`, over the users' names.
unfoldable pub owner_found : ℕ → Forms → Option ℕ → Message × Forms
owner_found nu s none = (Message.not_found, s)
owner_found nu s (some i) =
    (Message.owner_changed, set_form s i (record (s.form_table i) { owner = nu }))

unfoldable pub give_form : List ℕ → Forms → Option ℕ → Message × Forms
give_form fname s none = (Message.no_user, s)
give_form fname s (some nu) = owner_found nu s (find_form s fname)

unfoldable pub change_owner : (ℕ → List ℕ) → ℕ → ℕ → List ℕ × List ℕ → Forms → Message × Forms
change_owner u_name u_count u_cur (owner_str, fname) s =
    if not (both (owner_str, fname))
    then (Message.usage, s)
    else if not (u_cur == 0)
    then (Message.only_root, s)
    else give_form fname s (scan u_count 0 (λ k. strcmp (u_name k) owner_str == 0))

unfoldable pub cmd_setowner : (ℕ → List ℕ) → ℕ → ℕ → List ℕ → Forms → Message × Forms
cmd_setowner u_name u_count u_cur args s =
    change_owner u_name u_count u_cur (split_args 15 31 args) s

-- `cmd_view`: the text of the form, up to its null.
pub data View : Type 0 where
  shown : List ℕ → View
  refused : Message → View

unfoldable pub view_found : ℕ → Forms → Option ℕ → View
view_found u_cur s none = refused Message.not_found
view_found u_cur s (some i) =
    if check_perm u_cur s i false
    then refused Message.denied
    else shown (string_at (s.form_table i).capacity (s.form_table i).content 0)

unfoldable pub cmd_view : ℕ → List ℕ → Forms → View
cmd_view u_cur name s = view_found u_cur s (find_form s name)
