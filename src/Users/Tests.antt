-- ===== src/Users/Tests.antt =====
-- The theorems on users, at a table of one.
use hexa_os_alpha_build.Base.{
  ℕ, ◌≡◌, ◌%◌, refl, arith, none, some, List, [], ◌∷◌, ◌==◌, if◌then◌else◌, scan,
}
use hexa_os_alpha_build.Text.{strcmp, string_at}
use hexa_os_alpha_build.Text.Password.{pwd_hash}
use hexa_os_alpha_build.Users.{User, Users, Outcome, find_user, cmd_useradd, cmd_login}
use hexa_os_alpha_build.Users.Stored.{save_users, load_users, load-save_users}
use hexa_os_alpha_build.Users.Login.{login-useradd}

-- A user named "r".
abbrev root_user : User
root_user = record { name = λ i. if i == 0 then b'r' else 0; pass_hash = λ i. i; is_root = 1 }

abbrev only_root_user : Users
only_root_user = record { u_table = λ _. root_user; u_count = 1; u_cur = 0 }

load-save_users_example :
    let w = load_users (some (save_users only_root_user (λ _. 9))) only_root_user in
    (w.u_count ≡ 1)
    × (w.u_cur ≡ 0)
    × ((w.u_table 0).name 0 ≡ b'r' % 256)
    × ((w.u_table 0).pass_hash 0 ≡ 0 % 256)
    × ((w.u_table 0).is_root ≡ 1 % 256)
load-save_users_example =
    load-save_users only_root_user only_root_user (λ _. 9) 0 0 (omega arith) (omega arith)
      (omega arith) (omega arith)

-- "bo" and "pw"
abbrev bo : List ℕ
bo = b'b' ∷ b'o' ∷ []

abbrev pw : List ℕ
pw = b'p' ∷ b'w' ∷ []

bo-absent : find_user only_root_user bo ≡ none
unfolding find_user scan strcmp string_at
bo-absent = refl

login-useradd_example :
    let (m, u') = cmd_useradd bo pw 77 only_root_user in
    let (m', u'') = cmd_login bo pw 78 u' in
    let ok = pwd_hash pw 77 5 == pwd_hash pw 77 5 in
    (m ≡ Outcome.user_created)
    × (m' ≡ (if ok then Outcome.logged_in else Outcome.wrong_password))
    × (u''.u_cur ≡ (if ok then 1 else 0))
login-useradd_example =
    login-useradd only_root_user b'b' (b'o' ∷ []) pw pw 77 78 refl (omega arith) bo-absent
      (omega arith) (omega arith) (omega arith)
