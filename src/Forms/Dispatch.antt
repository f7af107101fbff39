-- ===== src/Forms/Dispatch.antt =====
-- The commands of the shell that change one form, with the dispatch of hexa.c. `copy` and `makedim` are
-- not among them: they write through the content pointer of the slot behind the last form, which after
-- a delete is still the pointer of the last form itself, and forms are values here. That the dispatch
-- saves the forms after a command is not part of it.
use hexa_os_alpha_build.Base.{ℕ, ◌<◌, true, not, Option, none, some, List, if◌then◌else◌}
use hexa_os_alpha_build.Base.Lists.{length}
use hexa_os_alpha_build.Forms.{
  Forms, Kmalloc, Message, find_form, check_perm, cmd_mkform, cmd_delete,
}
use hexa_os_alpha_build.Forms.Commands.{
  split_args, set_form, both, cmd_write, cmd_append, cmd_setmode, cmd_setowner,
}
use hexa_os_alpha_build.Forms.Editing.{cmd_edit, typed_length}

-- `move` of `execute_cmd`
unfoldable pub move_found : ℕ → List ℕ → Forms → Option ℕ → Message × Forms
move_found u_cur dst s none = (Message.not_found, s)
move_found u_cur dst s (some i) =
    if check_perm u_cur s i true
    then (Message.denied, s)
    else (Message.renamed, set_form s i (record (s.form_table i) { name = dst }))

unfoldable pub move_form : ℕ → List ℕ × List ℕ → Forms → Message × Forms
move_form u_cur (src, dst) s =
    if not (both (src, dst)) then (Message.usage, s) else move_found u_cur dst s (find_form s src)

unfoldable pub cmd_move : ℕ → List ℕ → Forms → Message × Forms
cmd_move u_cur args s = move_form u_cur (split_args 31 31 args) s

-- Each command with its argument line, and `edit` with the lines that are typed.
pub data Command : Type 0 where
  mkform delete write append move setmode setowner : List ℕ → Command
  edit : List ℕ → List (List ℕ) → Command

-- The name given to `mkform` fits its field of 32 bytes with the null. The other commands cut the names
-- that they copy.
unfoldable pub NameFits : Command → Type 0
NameFits (mkform args) = length args < 32
NameFits _ = Unit {0}

-- The lines typed into `edit` fit the block of every form, with the null that the block ends in.
unfoldable pub RoomFor : Command → Forms → Type 0
RoomFor (edit name lines) s =
    (i : ℕ) → i < s.form_count → typed_length lines < (s.form_table i).capacity
RoomFor _ s = Unit {0}

module _ (kmalloc : Kmalloc) (u_name : ℕ → List ℕ) (u_count u_cur : ℕ) where
  unfoldable pub run : Command → Forms → Message × Forms
  run (mkform args) s = cmd_mkform kmalloc u_cur args s
  run (delete args) s = cmd_delete u_cur args s
  run (write args) s = cmd_write kmalloc u_cur args s
  run (append args) s = cmd_append kmalloc u_cur args s
  run (edit name lines) s = cmd_edit u_cur name lines s
  run (move args) s = cmd_move u_cur args s
  run (setmode args) s = cmd_setmode u_cur args s
  run (setowner args) s = cmd_setowner u_name u_count u_cur args s
