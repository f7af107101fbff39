-- ===== src/Users.antt =====
-- The users of hexa.c: the table, the commands that change it, and its form on disk.
-- Passwords are what `get_line` returned; `salt` is `ticks & 0xFFFF` at the time of the call.
pub mod Stored
pub mod Login
mod Tests
use hexa_os_alpha_build.Base.{
  ℕ, zero, suc, ◌+◌, ◌*◌, ◌-◌, ◌/◌, ◌%◌, Bool, true, false, not, ◌&&◌, Option, none, some, List, [],
  ◌∷◌, ltb, leb, ◌==◌, if◌then◌else◌, scan, update,
}
use hexa_os_alpha_build.Text.{Buffer, strcmp, strcpy, string_at}
use hexa_os_alpha_build.Text.Password.{name_max, encode_pwd, check_pwd}

abbrev pub max_users : ℕ
max_users = 12

-- A row of `u_table`
pub record User : Type 0 where
  pub name : Buffer
  pub pass_hash : Buffer
  pub is_root : ℕ

pub record Users : Type 0 where
  pub u_table : ℕ → User
  pub u_count : ℕ
  pub u_cur : ℕ

pub data Outcome : Type 0 where
  usage only_root max_users_reached user_exists user_created : Outcome
  wrong_password password_changed user_not_found logged_in : Outcome

abbrev pub name_of : User → List ℕ
name_of u = string_at name_max u.name 0

abbrev root : List ℕ
root = b'r' ∷ b'o' ∷ b'o' ∷ b't' ∷ []

pub init_users : Users → Users
init_users u =
    let old = u.u_table 0 in
    let row : User = record {
      name = strcpy old.name 0 root;
      pass_hash = encode_pwd old.pass_hash root 0xa5;
      is_root = 1;
    } in
    record { u_table = update u.u_table 0 row; u_count = 1; u_cur = 0 }

abbrev pub has_name : Users → List ℕ → ℕ → Bool
has_name u name i = strcmp (name_of (u.u_table i)) name == 0

pub find_user : Users → List ℕ → Option ℕ
find_user u name = scan u.u_count 0 (has_name u name)

-- The row that `cmd_useradd` and the login screen add.
pub add_user : Users → List ℕ → List ℕ → ℕ → Users
add_user u name pass salt =
    let old = u.u_table u.u_count in
    let row : User = record {
      name = strcpy old.name 0 name;
      pass_hash = encode_pwd old.pass_hash pass salt;
      is_root = 0;
    } in
    record u { u_table = update u.u_table u.u_count row; u_count = u.u_count + 1 }

pub useradd_found : Users → List ℕ → List ℕ → ℕ → Option ℕ → Outcome × Users
useradd_found u name pass salt (some i) = (Outcome.user_exists, u)
useradd_found u name pass salt none = (Outcome.user_created, add_user u name pass salt)

pub cmd_useradd : List ℕ → List ℕ → ℕ → Users → Outcome × Users
cmd_useradd [] pass salt u = (Outcome.usage, u)
cmd_useradd (c ∷ cs) pass salt u =
    if not (u.u_cur == 0)
    then (Outcome.only_root, u)
    else if leb max_users u.u_count
    then (Outcome.max_users_reached, u)
    else useradd_found u (c ∷ cs) pass salt (find_user u (c ∷ cs))

abbrev set_hash : Users → ℕ → List ℕ → ℕ → Users
set_hash u i pass salt =
    let row = u.u_table i in
    record u {
      u_table = update u.u_table i (record row { pass_hash = encode_pwd row.pass_hash pass salt });
    }

pub cmd_passwd : List ℕ → List ℕ → ℕ → Users → Outcome × Users
cmd_passwd old new salt u =
    if not (check_pwd old (u.u_table u.u_cur).pass_hash)
    then (Outcome.wrong_password, u)
    else (Outcome.password_changed, set_hash u u.u_cur new salt)

-- `cmd_login` with a name: an old hash is replaced by a new one after the login.
pub login_found : Users → List ℕ → ℕ → Option ℕ → Outcome × Users
login_found u pass salt none = (Outcome.user_not_found, u)
login_found u pass salt (some i) =
    let hash = (u.u_table i).pass_hash in
    let u' = record u { u_cur = i } in
    if check_pwd pass hash
    then (Outcome.logged_in, if hash 2 == b' ' then set_hash u' i pass salt else u')
    else (Outcome.wrong_password, u)

pub cmd_login : List ℕ → List ℕ → ℕ → Users → Outcome × Users
cmd_login name pass salt u = login_found u pass salt (find_user u name)

-- A round of `do_login` for a name that is not "new": the first row with the name and the password.
pub accepts : Users → List ℕ → List ℕ → ℕ → Bool
accepts u name pass i = has_name u name i && check_pwd pass (u.u_table i).pass_hash

pub login_round : List ℕ → List ℕ → Users → Option Users
login_round name pass u = elim (scan u.u_count 0 (accepts u name pass)) [
  | none ↦ none
  | some i ↦ some (record u { u_cur = i })
]

-- A round for the name "new": whether a user was made. Everyone may make one here.
pub new_user_found : Users → List ℕ → List ℕ → ℕ → Option ℕ → Outcome × Users
new_user_found u name pass salt (some i) = (Outcome.user_exists, u)
new_user_found u name pass salt none = (Outcome.user_created, add_user u name pass salt)

pub login_new : List ℕ → List ℕ → ℕ → Users → Outcome × Users
login_new [] pass salt u =
    if leb max_users u.u_count then (Outcome.max_users_reached, u) else (Outcome.usage, u)
login_new (c ∷ cs) pass salt u =
    if leb max_users u.u_count
    then (Outcome.max_users_reached, u)
    else new_user_found u (c ∷ cs) pass salt (find_user u (c ∷ cs))
