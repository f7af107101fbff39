-- ===== src/Forms/Access.antt =====
-- Whom the commands let change a form.
use hexa_os_alpha_build.Base.{ℕ, ◌<◌, ◌≡◌, ◌≢◌, bit_and}
use hexa_os_alpha_build.Forms.{Form, Forms, perm_oth_w}
use hexa_os_alpha_build.Forms.Commands
use hexa_os_alpha_build.Forms.Dispatch

-- The form stands in the new table too, with all its fields, at its place or at another.
pub record Kept (f : Form) (s : Forms) : Type 0 where
  pub place : ℕ
  pub within : place < s.form_count
  pub same : s.form_table place ≡ f

-- The form is another user's, who lets nobody else write, and the user is not root.
pub record IsForeign (u_cur : ℕ) (f : Form) : Type 0 where
  pub not_root : u_cur ≢ 0
  pub not_owner : f.owner ≢ u_cur
  pub closed : bit_and f.mode perm_oth_w ≡ 0
