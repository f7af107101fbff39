-- ===== src/Rules.antt =====
-- The rules of hexafs.c that say which capabilities a user may take: `pimp_check`, `pimp_rule_add` and
-- `pimp_rule_remove`.
pub mod Check
pub mod Add
pub mod Remove
mod Tests
use hexa_os_alpha_build.Base.{
  ℕ, zero, suc, ◌+◌, ◌-◌, Bool, true, false, not, ◌&&◌, ◌||◌, Option, none, some, List, ◌==◌, leb,
  scan, update, bit_and, if◌then◌else◌,
}
use hexa_os_alpha_build.Text.{Buffer, strcmp, strcpy, string_at}

abbrev pub pimp_rule_max : ℕ
pimp_rule_max = 32

abbrev pub pimp_name_max : ℕ
pimp_name_max = 32

-- `pimp_rule_t`
pub record Rule : Type 0 where
  pub user : Buffer
  pub allowed_caps : ℕ
  pub no_pass : ℕ
  pub session_only : ℕ

pub record Rules : Type 0 where
  pub pimp_rules : ℕ → Rule
  pub pimp_count : ℕ

abbrev pub rule_user : Rules → ℕ → List ℕ
rule_user p i = string_at pimp_name_max (p.pimp_rules i).user 0

abbrev pub is_rule_of : Rules → List ℕ → ℕ → Bool
is_rule_of p username i = strcmp (rule_user p i) username == 0

abbrev pub allows : ℕ → ℕ → Bool
allows caps cap_type = caps == 0xFFFFFFFF || not (bit_and caps cap_type == 0)

pub pimp_check : List ℕ → ℕ → Rules → Bool
pimp_check username cap_type p =
    elim (scan p.pimp_count 0
      (λ i. is_rule_of p username i && allows (p.pimp_rules i).allowed_caps cap_type)) [
        | none ↦ false
        | some _ ↦ true
      ]

-- The rule of a user that the loops of `pimp_rule_add` and `pimp_rule_remove` look for.
pub find_rule : List ℕ → Rules → Option ℕ
find_rule username p = scan p.pimp_count 0 (is_rule_of p username)

pub change_rule : ℕ → ℕ → ℕ → ℕ → Rules → Rules
change_rule i caps no_pass session_only p = record p {
  pimp_rules = update p.pimp_rules i (record (p.pimp_rules i) {
    allowed_caps = caps;
    no_pass = no_pass;
    session_only = session_only;
  });
}

pub append_rule : List ℕ → ℕ → ℕ → ℕ → Rules → Rules
append_rule username caps no_pass session_only p =
    let row : Rule = record {
      user = strcpy (p.pimp_rules p.pimp_count).user 0 username;
      allowed_caps = caps;
      no_pass = no_pass;
      session_only = session_only;
    } in
    record { pimp_rules = update p.pimp_rules p.pimp_count row; pimp_count = p.pimp_count + 1 }

pub pimp_rule_add : List ℕ → ℕ → ℕ → ℕ → Rules → Bool × Rules
pimp_rule_add username caps no_pass session_only p =
    if leb pimp_rule_max p.pimp_count then (false, p) else elim (find_rule username p) [
      | some i ↦ (true, change_rule i caps no_pass session_only p)
      | none ↦ (true, append_rule username caps no_pass session_only p)
    ]

-- The loop that moves the rules behind a removed one, with `n` of them left.
pub move_rules : ℕ → ℕ → (ℕ → Rule) → ℕ → Rule
move_rules zero j rules = rules
move_rules (suc n) j rules = move_rules n (j + 1) (update rules j (rules (j + 1)))

pub remove_rule : ℕ → Rules → Rules
remove_rule i p = record {
  pimp_rules = move_rules (p.pimp_count - 1 - i) i p.pimp_rules;
  pimp_count = p.pimp_count - 1;
}

pub pimp_rule_remove : List ℕ → Rules → Bool × Rules
pimp_rule_remove username p = elim (find_rule username p) [
  | none ↦ (false, p)
  | some i ↦ (true, remove_rule i p)
]
