-- ===== src/Rules/Check.antt =====
-- What a user is allowed by well-formed rules: what the one rule of that user says.
use hexa_os_alpha_build.Base.{
  ℕ, ◌≤◌, ◌<◌, ◌≡◌, refl, sym, ap, ◌∙◌, arith, Bool, true, false, ◌&&◌, Option, none, some, List,
  inl, inr, Bool-cases, scan_cases, ◌⊎◌, scan_first, scan_nothing, NoneOf, eq→beq, beq→eq,
}
use hexa_os_alpha_build.Text.{IsText, strcmp, strcmp_refl, strcmp-eq}
use hexa_os_alpha_build.Rules.{Rules, rule_user, is_rule_of, allows, pimp_check, find_rule}

-- At most 32 rules, the users of which are text, no two the same.
pub record IsValid (p : Rules) : Type 0 where
  pub few : p.pimp_count ≤ 32
  pub text : (i : ℕ) → i < p.pimp_count → IsText (rule_user p i)
  pub distinct :
      (i j : ℕ) → i < p.pimp_count → j < p.pimp_count → rule_user p i ≡ rule_user p j → i ≡ j

-- What the rule found says.
allowed_by : ℕ → Rules → Option ℕ → Bool
allowed_by cap_type p none = false
allowed_by cap_type p (some i) = allows (p.pimp_rules i).allowed_caps cap_type

only_rule :
    (who : List ℕ) (p : Rules)
    → IsValid p
    → IsText who
    → (i j : ℕ) → i < p.pimp_count
    → j < p.pimp_count
    → is_rule_of p who i ≡ true
    → is_rule_of p who j ≡ true
    → i ≡ j
only_rule who p v t i j l l' h h' = v.distinct i j l l' (
    strcmp-eq (rule_user p i) who (v.text i l) t (beq→eq _ 0 h)
    ∙ sym (strcmp-eq (rule_user p j) who (v.text j l') t (beq→eq _ 0 h')))

pimp_check_lem :
    (who : List ℕ) (cap_type : ℕ) (p : Rules)
    → IsValid p
    → IsText who
    → pimp_check who cap_type p ≡ allowed_by cap_type p (find_rule who p)
unfolding pimp_check find_rule allowed_by
pimp_check_lem who cap_type p v t =
    let mine = λ (i : ℕ). is_rule_of p who i in
    let gives = λ (i : ℕ). mine i && allows (p.pimp_rules i).allowed_caps cap_type in
    elim (scan_cases p.pimp_count 0 mine {j = p.pimp_count} (omega arith)) [
      | inl (e, none_of) ↦
          let e' =
            scan_nothing p.pimp_count 0 gives {j = p.pimp_count} (omega arith)
              (λ i l l'. rw (none_of i l l') refl) in
          rw (e, e', pimp_check) refl
      | inr (i, e, f) ↦ elim (Bool-cases (allows (p.pimp_rules i).allowed_caps cap_type)) [
        | inl yes_ ↦
            let e' = scan_first p.pimp_count 0 gives {j = p.pimp_count} i (omega arith) (record {
              from = f.from;
              before = f.before;
              hit = rw (f.hit, yes_) refl;
              first = λ k l l'. rw (f.first k l l') refl;
            }) in
            rw (e, e', pimp_check) (sym yes_)
        | inr no_ ↦
            let e' = scan_nothing p.pimp_count 0 gives {j = p.pimp_count} (omega arith) (λ k l l'.
              elim (Bool-cases (mine k)) [
                | inl hit ↦
                    let same = only_rule who p v t k i l' f.before hit f.hit in
                    rw (same, no_) (rw f.hit refl)
                | inr miss ↦ rw miss refl
              ]) in
            rw (e, e', pimp_check) (sym no_)
      ]
    ]

pub is_rule_of-eq :
    (who : List ℕ) (p : Rules)
    → IsValid p
    → IsText who
    → (k : ℕ) → k < p.pimp_count
    → is_rule_of p who k ≡ true
    → rule_user p k ≡ who
is_rule_of-eq who p v t k l h = strcmp-eq (rule_user p k) who (v.text k l) t (beq→eq _ 0 h)

find_rule-at :
    (who : List ℕ) (p : Rules) (k : ℕ)
    → k < p.pimp_count
    → is_rule_of p who k ≡ true
    → (m : ℕ) × (find_rule who p ≡ some m) × (m < p.pimp_count) × (is_rule_of p who m ≡ true)
unfolding find_rule
find_rule-at who p k l hit =
    elim (scan_cases p.pimp_count 0 (is_rule_of p who) {j = p.pimp_count} (omega arith)) [
      | inl (_, none_of) ↦ cc (none_of k (omega arith) l, hit)
      | inr (m, e, f) ↦ (m, e, f.before, f.hit)
    ]

-- A user's rule decides.
pub check-at :
    (who : List ℕ) (cap_type : ℕ) (p : Rules)
    → IsValid p
    → IsText who
    → (k : ℕ) → k < p.pimp_count
    → rule_user p k ≡ who
    → pimp_check who cap_type p ≡ allows (p.pimp_rules k).allowed_caps cap_type
unfolding allowed_by
check-at who cap_type p v t k l e =
    let hit : is_rule_of p who k ≡ true = rw e (eq→beq (strcmp who who) 0 (strcmp_refl who)) in
    let at = find_rule-at who p k l hit in
    let same = only_rule who p v t at.0 k at.2 l at.3 hit in
    pimp_check_lem who cap_type p v t ∙ rw at.1 (rw same refl)

pub check-none :
    (who : List ℕ) (cap_type : ℕ) (p : Rules)
    → IsValid p
    → IsText who
    → NoneOf (is_rule_of p who) 0 p.pimp_count
    → pimp_check who cap_type p ≡ false
unfolding find_rule allowed_by
check-none who cap_type p v t none_of =
    pimp_check_lem who cap_type p v t
    ∙ ap (allowed_by cap_type p)
        (scan_nothing p.pimp_count 0 (is_rule_of p who) (omega arith) none_of)

-- Whether a user has a rule.
pub rule_cases :
    (who : List ℕ) (p : Rules)
    → IsValid p
    → IsText who
    → ((find_rule who p ≡ none) × NoneOf (is_rule_of p who) 0 p.pimp_count)
      ⊎ ((k : ℕ) × (find_rule who p ≡ some k) × (k < p.pimp_count) × (rule_user p k ≡ who))
unfolding find_rule
rule_cases who p v t =
    elim (scan_cases p.pimp_count 0 (is_rule_of p who) {j = p.pimp_count} (omega arith)) [
      | inl r ↦ inl r
      | inr (k, e, f) ↦ inr (k, e, f.before, is_rule_of-eq who p v t k f.before f.hit)
    ]
