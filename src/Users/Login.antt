-- ===== src/Users/Login.antt =====
-- A user that is added can log in.
use hexa_os_alpha_build.Base.{
  ℕ, ◌+◌, ◌^◌, ◌<◌, ◌≡◌, refl, arith, Bool, true, false, none, some, List, ◌∷◌, leb, ◌==◌,
  if◌then◌else◌, inl, inr, Bool-cases, update_self, update_ne, eq→beq, scan_cases, scan_first,
  NoneOf,
}
use hexa_os_alpha_build.Base.Lists.{length}
use hexa_os_alpha_build.Text.{IsText, strcmp, strcmp_refl, strcpy, string_at-strcpy}
use hexa_os_alpha_build.Text.Password.{pwd_hash, encode_pwd, check_pwd, check-encode_pwd}
use hexa_os_alpha_build.Users.{
  User, Users, Outcome, max_users, has_name, find_user, add_user, useradd_found, cmd_useradd,
  login_found, cmd_login,
}

find_user-NoneOf :
    (u : Users) (name : List ℕ) → find_user u name ≡ none → NoneOf (has_name u name) 0 u.u_count
unfolding find_user
find_user-NoneOf u name e =
    elim (scan_cases u.u_count 0 (has_name u name) {j = u.u_count} (omega arith)) [
      | inl (_, none_of) ↦ none_of
      | inr (k, e', _) ↦ cc (e, e')
    ]

find_user-add_user :
    (u : Users) (name pass : List ℕ) (salt : ℕ)
    → IsText name
    → length name < 32
    → find_user u name ≡ none
    → find_user (add_user u name pass salt) name ≡ some u.u_count
unfolding find_user add_user
find_user-add_user u name pass salt t h e =
    let old = u.u_table u.u_count in
    let row : User = record {
      name = strcpy old.name 0 name;
      pass_hash = encode_pwd old.pass_hash pass salt;
      is_root = 0;
    } in
    let named = string_at-strcpy 32 old.name 0 name t h in
    scan_first (u.u_count + 1) 0 (has_name (add_user u name pass salt) name) {j = u.u_count + 1}
      u.u_count (omega arith)
      (record {
        from = omega arith;
        before = omega arith;
        hit =
            rw (update_self u.u_table u.u_count row, named)
              (eq→beq (strcmp name name) 0 (strcmp_refl name));
        first = λ k hk l.
            rw (update_ne u.u_table u.u_count row k (omega arith))
              (find_user-NoneOf u name e k hk l);
      })

login_found_cases :
    (u : Users) (i : ℕ) (entered : List ℕ) (salt : ℕ) (ok : Bool)
    → check_pwd entered (u.u_table i).pass_hash ≡ ok
    → let r = login_found u entered salt (some i) in
      (r.0 ≡ (if ok then Outcome.logged_in else Outcome.wrong_password))
      × (r.1.u_cur ≡ (if ok then i else u.u_cur))
unfolding login_found
login_found_cases u i entered salt true e = elim (Bool-cases ((u.u_table i).pass_hash 2 == b' ')) [
  | inl old ↦ rw (e, old) (refl, refl)
  | inr new ↦ rw (e, new) (refl, refl)
]
login_found_cases u i entered salt false e = rw e (refl, refl)

-- When root adds a user, a login by the name succeeds and makes the new user the current one exactly
-- for the entered passwords that have the hash of the given one under the salt, in particular for the
-- given one; for another password it says so and root stays the current user. The name is text of 1
-- to 31 bytes that no user has, and the table has room.
pub login-useradd :
    (u : Users) (c : ℕ) (cs pass entered : List ℕ) (salt salt' : ℕ)
    → u.u_cur ≡ 0
    → u.u_count < max_users
    → find_user u (c ∷ cs) ≡ none
    → IsText (c ∷ cs)
    → length (c ∷ cs) < 32
    → salt < 2 ^ 16
    → let (m, u') = cmd_useradd (c ∷ cs) pass salt u in
      let (m', u'') = cmd_login (c ∷ cs) entered salt' u' in
      let ok = pwd_hash entered salt 5 == pwd_hash pass salt 5 in
      (m ≡ Outcome.user_created)
      × (m' ≡ (if ok then Outcome.logged_in else Outcome.wrong_password))
      × (u''.u_cur ≡ (if ok then u.u_count else u.u_cur))
unfolding cmd_useradd cmd_login useradd_found add_user
login-useradd u c cs pass entered salt salt' root room absent t h hs =
    let full : leb max_users u.u_count ≡ false = ground arith in
    let ok = pwd_hash entered salt 5 == pwd_hash pass salt 5 in
    let u' = add_user u (c ∷ cs) pass salt in
    let e : check_pwd entered (u'.u_table u.u_count).pass_hash ≡ ok =
      unfold add_user in
      rw (update_self u.u_table u.u_count _)
        (check-encode_pwd (u.u_table u.u_count).pass_hash pass entered salt hs) in
    let r = login_found_cases u' u.u_count entered salt' ok e in
    rw (eq→beq u.u_cur 0 root, full, absent, find_user-add_user u (c ∷ cs) pass salt t h absent)
      (refl, r.0, r.1)
