-- ===== src/Rules/Tests.antt =====
-- The theorems on the rules, with one rule, of the user `a`.
use hexa_os_alpha_build.Base.{
  ℕ, ◌<◌, ◌≡◌, refl, arith, true, false, none, some, [], ◌∷◌, ◌==◌, if◌then◌else◌,
}
use hexa_os_alpha_build.Text.{IsText, strcmp, string_at}
use hexa_os_alpha_build.Rules.{
  Rules, rule_user, pimp_check, find_rule, pimp_rule_add, pimp_rule_remove,
}
use hexa_os_alpha_build.Rules.Check.{IsValid}
use hexa_os_alpha_build.Rules.Add.{after_add, check-rule_add}
use hexa_os_alpha_build.Rules.Remove.{check-rule_remove}

abbrev one_rule : Rules
one_rule = record {
  pimp_rules = λ i. record {
    user = λ k. if k == 0 then b'a' else 0;
    allowed_caps = 5;
    no_pass = 0;
    session_only = 0;
  };
  pimp_count = 1;
}

one_rule-user : (i : ℕ) → rule_user one_rule i ≡ b'a' ∷ []
unfolding string_at
one_rule-user i = refl

name-IsText : (c : ℕ) → 0 < c → c < 256 → IsText (c ∷ [])
name-IsText c l l' = (l, l', tt)

one_rule-IsValid : IsValid one_rule
one_rule-IsValid = record {
  few = omega arith;
  text = λ i l. rw (one_rule-user i) (name-IsText b'a' (omega arith) (omega arith));
  distinct = λ i j l l' e. omega arith;
}

check-rule_add_example :
    let (ok, p') = pimp_rule_add (b'b' ∷ []) 2 0 1 one_rule in
    (ok ≡ true)
    × IsValid p'
    × (pimp_check (b'a' ∷ []) 4 p' ≡ after_add (b'b' ∷ []) 2 (b'a' ∷ []) 4 one_rule)
check-rule_add_example =
    check-rule_add (b'b' ∷ []) 2 0 1 one_rule one_rule-IsValid
      (name-IsText b'b' (omega arith) (omega arith)) (b'a' ∷ []) 4 (omega arith) (omega arith)
      (name-IsText b'a' (omega arith) (omega arith))

check-rule_remove_example :
    let (ok, p') = pimp_rule_remove (b'a' ∷ []) one_rule in
    (ok ≡ elim (find_rule (b'a' ∷ []) one_rule) [ none ↦ false | some _ ↦ true ])
    × IsValid p'
    × (pimp_check (b'b' ∷ []) 4 p' ≡ (
        if strcmp (b'a' ∷ []) (b'b' ∷ []) == 0 then false else pimp_check (b'b' ∷ []) 4 one_rule))
check-rule_remove_example =
    check-rule_remove (b'a' ∷ []) (b'b' ∷ []) 4 one_rule one_rule-IsValid
      (name-IsText b'a' (omega arith) (omega arith)) (name-IsText b'b' (omega arith) (omega arith))
