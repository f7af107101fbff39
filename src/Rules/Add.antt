-- ===== src/Rules/Add.antt =====
-- What a user is allowed after `pimp_rule_add`.
use native.Mathlib.Decide.{ℕ_discrete}
use hexa_os_alpha_build.Base.{
  ℕ, ◌+◌, ◌<◌, ◌≡◌, ◌≢◌, refl, sym, ap, ◌∙◌, arith, Bool, true, false, List, ◌==◌, leb, inl, inr,
  ◌⊎◌, Bool-cases, NoneOf, update_self, update_ne, if◌then◌else◌, eq→beq, ne→beq, beq→eq,
}
use hexa_os_alpha_build.Base.Lists.{length}
use hexa_os_alpha_build.Text.{IsText, strcmp, strcmp_refl, strcmp-eq, string_at-strcpy}
use hexa_os_alpha_build.Rules.{
  Rule, Rules, pimp_rule_max, rule_user, is_rule_of, allows, pimp_check, change_rule, append_rule,
  pimp_rule_add,
}
use hexa_os_alpha_build.Rules.Check.{IsValid, check-at, check-none, rule_cases}

-- What is allowed to `who` after the rule of `username` became `caps`.
abbrev pub after_add : List ℕ → ℕ → List ℕ → ℕ → Rules → Bool
after_add username caps who cap_type p =
    if strcmp username who == 0 then allows caps cap_type else pimp_check who cap_type p

pub same-name : (a b : List ℕ) → a ≡ b → (strcmp a b == 0) ≡ true
same-name a b e = eq→beq (strcmp a b) 0 (rw e (strcmp_refl b))

pub other-name : (a b : List ℕ) → IsText a → IsText b → a ≢ b → (strcmp a b == 0) ≡ false
other-name a b t t' ne = ne→beq (strcmp a b) 0 (λ q. ne (strcmp-eq a b t t' q))

module _ (username : List ℕ) (caps no_pass session_only : ℕ) (p : Rules) (v : IsValid p)
    (tu : IsText username) where
  module _ (i : ℕ) (l : i < p.pimp_count) (named : rule_user p i ≡ username) where
    abbrev changed : Rules
    changed = change_rule i caps no_pass session_only p

    changed-user : (k : ℕ) → rule_user changed k ≡ rule_user p k
    unfolding change_rule
    changed-user k = elim (ℕ_discrete i k) [
      | yes e ↦ rw (← e) (rw (update_self p.pimp_rules i _) refl)
      | no ne ↦ rw (update_ne p.pimp_rules i _ k ne) refl
    ]

    changed-count : changed.pimp_count ≡ p.pimp_count
    unfolding change_rule
    changed-count = refl

    changed-IsValid : IsValid changed
    changed-IsValid = record {
      few = rw changed-count v.few;
      text = λ k h. rw (changed-user k) (v.text k (rw (← changed-count) h));
      distinct = λ j k h h' e.
          v.distinct j k (rw (← changed-count) h) (rw (← changed-count) h')
            (sym (changed-user j) ∙ e ∙ changed-user k);
    }

    changed-caps :
        (k cap_type : ℕ)
        → allows (changed.pimp_rules k).allowed_caps cap_type
          ≡ (if i == k then allows caps cap_type else allows (p.pimp_rules k).allowed_caps cap_type)
    unfolding change_rule
    changed-caps k cap_type = elim (ℕ_discrete i k) [
      | yes e ↦ rw (eq→beq i k e) refl
      | no ne ↦ rw (ne→beq i k ne) refl
    ]

    check-changed :
        (who : List ℕ) (cap_type : ℕ)
        → IsText who
        → pimp_check who cap_type changed ≡ after_add username caps who cap_type p
    check-changed who cap_type t = elim (rule_cases who p v t) [
      | inl (_, none_of) ↦
          let apart : (strcmp username who == 0) ≡ false =
            rw (← named) (none_of i (omega arith) l) in
          rw apart (
            check-none who cap_type changed changed-IsValid t
              (λ k m m'. rw (changed-user k) (none_of k m (rw (← changed-count) m')))
            ∙ sym (check-none who cap_type p v t none_of))
      | inr (k, _, l', e) ↦
          let at =
            check-at who cap_type changed changed-IsValid t k (rw changed-count l')
              (changed-user k ∙ e) in
          elim (ℕ_discrete i k) [
            | yes q ↦
                let same = same-name username who (sym named ∙ ap (rule_user p) q ∙ e) in
                at ∙ changed-caps k cap_type ∙ rw (eq→beq i k q, same) refl
            | no ne ↦
                let apart =
                  other-name username who tu t
                    (λ q. ne (v.distinct i k l l' (named ∙ q ∙ sym e))) in
                at
                ∙ changed-caps k cap_type
                ∙ rw (ne→beq i k ne, apart) (sym (check-at who cap_type p v t k l' e))
          ]
    ]

  -- A user without a rule.
  module _ (short : length username < 32) (room : p.pimp_count < 32)
      (none_of : NoneOf (is_rule_of p username) 0 p.pimp_count) where
    abbrev appended : Rules
    appended = append_rule username caps no_pass session_only p

    appended-count : appended.pimp_count ≡ p.pimp_count + 1
    unfolding append_rule
    appended-count = refl

    appended-last : rule_user appended p.pimp_count ≡ username
    unfolding append_rule
    appended-last =
        rw (update_self p.pimp_rules p.pimp_count _)
          (string_at-strcpy 32 (p.pimp_rules p.pimp_count).user 0 username tu short)

    appended-caps :
        (cap_type : ℕ)
        → allows (appended.pimp_rules p.pimp_count).allowed_caps cap_type ≡ allows caps cap_type
    unfolding append_rule
    appended-caps cap_type = rw (update_self p.pimp_rules p.pimp_count _) refl

    appended_before : (k : ℕ) → k < p.pimp_count → appended.pimp_rules k ≡ p.pimp_rules k
    unfolding append_rule
    appended_before k l = update_ne p.pimp_rules p.pimp_count _ k (omega arith)

    appended_user_before : (k : ℕ) → k < p.pimp_count → rule_user appended k ≡ rule_user p k
    appended_user_before k l = rw (appended_before k l) refl

    new-name : (k : ℕ) → k < p.pimp_count → rule_user p k ≢ username
    new-name k l e = cc (same-name (rule_user p k) username e, none_of k (omega arith) l)

    row_cases :
        (k : ℕ)
        → k < appended.pimp_count
        → ((k < p.pimp_count) × (rule_user appended k ≡ rule_user p k))
          ⊎ ((k ≡ p.pimp_count) × (rule_user appended k ≡ username))
    row_cases k l = elim (ℕ_discrete k p.pimp_count) [
      | yes e ↦ inr (e, rw e appended-last)
      | no ne ↦
          let l' : k < p.pimp_count = omega (arith, appended-count) in
          inl (l', appended_user_before k l')
    ]

    appended-IsValid : IsValid appended
    appended-IsValid = record {
      few = rw appended-count (omega arith);
      text = λ k h. elim (row_cases k h) [ inl (l, e) ↦ rw e (v.text k l) | inr (_, e) ↦ rw e tu ];
      distinct = λ j k h h' q. elim (row_cases j h) [
        | inl (l, e) ↦ elim (row_cases k h') [
          | inl (l', e') ↦ v.distinct j k l l' (sym e ∙ q ∙ e')
          | inr (_, e') ↦ absurd (new-name j l (sym e ∙ q ∙ e'))
        ]
        | inr (z, e) ↦ elim (row_cases k h') [
          | inl (l', e') ↦ absurd (new-name k l' (sym e' ∙ sym q ∙ e))
          | inr (z', _) ↦ z ∙ sym z'
        ]
      ];
    }

    check-appended :
        (who : List ℕ) (cap_type : ℕ)
        → IsText who
        → pimp_check who cap_type appended ≡ after_add username caps who cap_type p
    check-appended who cap_type t = elim (rule_cases who p v t) [
      | inl (_, absent) ↦ elim (Bool-cases (strcmp username who == 0)) [
        | inl same ↦
            let e = strcmp-eq username who tu t (beq→eq _ 0 same) in
            check-at who cap_type appended appended-IsValid t p.pimp_count
              (rw appended-count (omega arith)) (appended-last ∙ e)
            ∙ appended-caps cap_type
            ∙ rw same refl
        | inr apart ↦ rw apart (
            check-none who cap_type appended appended-IsValid t (λ k m m'. elim (row_cases k m') [
              | inl (l, e) ↦ rw e (absent k m l)
              | inr (_, e) ↦ rw e apart
            ])
            ∙ sym (check-none who cap_type p v t absent))
      ]
      | inr (k, _, l, e) ↦
          let apart = other-name username who tu t (λ q. new-name k l (e ∙ sym q)) in
          rw apart (
            check-at who cap_type appended appended-IsValid t k (rw appended-count (omega arith))
              (appended_user_before k l ∙ e)
            ∙ ap (λ (r : Rule). allows r.allowed_caps cap_type) (appended_before k l)
            ∙ sym (check-at who cap_type p v t k l e))
    ]

  -- While there are fewer than 32 rules, adding one succeeds, also where the user has one already, and
  -- the rules stay well formed. From then on the named user has exactly the capabilities given, and
  -- every other user those they had before. The name is text of fewer than 32 bytes.
  pub check-rule_add :
      (who : List ℕ) (cap_type : ℕ)
      → length username < 32
      → p.pimp_count < 32
      → IsText who
      → let (ok, p') = pimp_rule_add username caps no_pass session_only p in
        (ok ≡ true)
        × IsValid p'
        × (pimp_check who cap_type p' ≡ after_add username caps who cap_type p)
  unfolding pimp_rule_add
  check-rule_add who cap_type short room t =
      let open_ : leb pimp_rule_max p.pimp_count ≡ false = ground arith in
      elim (rule_cases username p v tu) [
        | inl (e, none_of) ↦
            rw (open_, e)
              (
                refl,
                appended-IsValid short room none_of,
                check-appended short room none_of who cap_type t,
              )
        | inr (i, e, l, named) ↦
            rw (open_, e) (refl, changed-IsValid i l named, check-changed i l named who cap_type t)
      ]
