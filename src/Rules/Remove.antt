-- ===== src/Rules/Remove.antt =====
-- What a user is allowed after `pimp_rule_remove`.
use native.Mathlib.Decide.{ℕ_discrete}
use hexa_os_alpha_build.Base.{
  ℕ, zero, suc, ◌+◌, ◌-◌, ◌≤◌, ◌<◌, ◌≡◌, ◌≢◌, refl, sym, ap, ◌∙◌, arith, true, false, none, some,
  List, ◌==◌, ltb, inl, inr, Bool-cases, update, update_self, update_ne, if◌then◌else◌, beq→eq,
}
use hexa_os_alpha_build.Text.{IsText, strcmp, strcmp-eq, string_at}
use hexa_os_alpha_build.Rules.{
  Rule, Rules, rule_user, allows, pimp_check, find_rule, move_rules, remove_rule, pimp_rule_remove,
}
use hexa_os_alpha_build.Rules.Check.{IsValid, check-at, check-none, rule_cases}
use hexa_os_alpha_build.Rules.Add.{same-name, other-name}

move_rules_before : (n j : ℕ) (rules : ℕ → Rule) (k : ℕ) → k < j → move_rules n j rules k ≡ rules k
unfolding move_rules
move_rules_before zero j rules k h = refl
move_rules_before (suc n) j rules k h =
    move_rules_before n (j + 1) (update rules j (rules (j + 1))) k (omega arith)
    ∙ update_ne rules j _ k (omega arith)

move_rules_from :
    (n j : ℕ) (rules : ℕ → Rule) (k : ℕ)
    → j ≤ k
    → k < j + n
    → move_rules n j rules k ≡ rules (k + 1)
unfolding move_rules
move_rules_from zero j rules k l l' = absurd (omega arith)
move_rules_from (suc n) j rules k l l' =
    let rest = update rules j (rules (j + 1)) in
    elim (ℕ_discrete j k) [
      | yes e ↦
          rw (← e)
            (move_rules_before n (j + 1) rest j (omega arith) ∙ update_self rules j (rules (j + 1)))
      | no ne ↦
          move_rules_from n (j + 1) rest k (omega arith) (omega arith)
          ∙ update_ne rules j _ (k + 1) (omega arith)
    ]

-- Where the rule `k` was before the rule `i` was taken out.
origin : ℕ → ℕ → ℕ
origin i k = if ltb k i then k else k + 1

module _ (username : List ℕ) (p : Rules) (v : IsValid p) (tu : IsText username) (i : ℕ)
    (l : i < p.pimp_count) (named : rule_user p i ≡ username) where
  abbrev removed : Rules
  removed = remove_rule i p

  removed-count : removed.pimp_count + 1 ≡ p.pimp_count
  unfolding remove_rule
  removed-count = omega arith

  removed-rule : (k : ℕ) → k < removed.pimp_count → removed.pimp_rules k ≡ p.pimp_rules (origin i k)
  unfolding remove_rule origin
  removed-rule k h = elim (Bool-cases (ltb k i)) [
    | inl below ↦
        rw below (move_rules_before (p.pimp_count - 1 - i) i p.pimp_rules k (ground arith))
    | inr above ↦
        rw above
          (move_rules_from (p.pimp_count - 1 - i) i p.pimp_rules k (ground arith) (ground arith))
  ]

  origin-lt : (k : ℕ) → k < removed.pimp_count → origin i k < p.pimp_count
  unfolding origin
  origin-lt k h = ground (arith, removed-count)

  origin_ne : (k : ℕ) → origin i k ≢ i
  unfolding origin
  origin_ne k e = ground arith

  removed-user : (k : ℕ) → k < removed.pimp_count → rule_user removed k ≡ rule_user p (origin i k)
  removed-user k h = ap (λ (r : Rule). string_at 32 r.user 0) (removed-rule k h)

  -- Every rule but the one taken out is kept.
  kept : (m : ℕ) → m < p.pimp_count → m ≢ i → (k : ℕ) × (k < removed.pimp_count) × (origin i k ≡ m)
  unfolding origin
  kept m h ne = elim (Bool-cases (ltb m i)) [
    | inl below ↦ (m, ground (arith, removed-count), rw below refl)
    | inr above ↦ (m - 1, ground (arith, removed-count), ground arith)
  ]

  removed-IsValid : IsValid removed
  unfolding origin
  removed-IsValid = record {
    few = omega (arith, removed-count, v.few);
    text = λ k h. rw (removed-user k h) (v.text (origin i k) (origin-lt k h));
    distinct = λ j k h h' q.
        let e =
          v.distinct (origin i j) (origin i k) (origin-lt j h) (origin-lt k h')
            (sym (removed-user j h) ∙ q ∙ removed-user k h') in
        ground arith;
  }

  check-removed :
      (who : List ℕ) (cap_type : ℕ)
      → IsText who
      → pimp_check who cap_type removed
        ≡ (if strcmp username who == 0 then false else pimp_check who cap_type p)
  check-removed who cap_type t = elim (rule_cases who p v t) [
    | inl (_, none_of) ↦
        let apart : (strcmp username who == 0) ≡ false = rw (← named) (none_of i (omega arith) l) in
        rw apart (
          check-none who cap_type removed removed-IsValid t
            (λ k m h. rw (removed-user k h) (none_of (origin i k) (omega arith) (origin-lt k h)))
          ∙ sym (check-none who cap_type p v t none_of))
    | inr (m, _, l', e) ↦ elim (ℕ_discrete m i) [
      | yes q ↦
          let same = same-name username who (sym named ∙ ap (rule_user p) (sym q) ∙ e) in
          rw same (
            check-none who cap_type removed removed-IsValid t (λ k z h. rw (removed-user k h) (
              other-name (rule_user p (origin i k)) who (v.text (origin i k) (origin-lt k h)) t
                (λ z'.
                  origin_ne k (v.distinct (origin i k) m (origin-lt k h) l' (z' ∙ sym e) ∙ q)))))
      | no ne ↦
          let apart =
            other-name username who tu t (λ z. ne (v.distinct m i l' l (e ∙ sym z ∙ sym named))) in
          let (k, h, o) = kept m l' ne in
          let row = removed-rule k h ∙ ap p.pimp_rules o in
          rw apart (
            check-at who cap_type removed removed-IsValid t k h
              (removed-user k h ∙ ap (rule_user p) o ∙ e)
            ∙ ap (λ (r : Rule). allows r.allowed_caps cap_type) row
            ∙ sym (check-at who cap_type p v t m l' e))
    ]
  ]

-- Removing the rule of a user succeeds exactly if the user has one, and the rules stay well formed.
-- From then on the named user has no capability, and every other user those they had before.
pub check-rule_remove :
    (username who : List ℕ) (cap_type : ℕ) (p : Rules)
    → IsValid p
    → IsText username
    → IsText who
    → let (ok, p') = pimp_rule_remove username p in
      (ok ≡ elim (find_rule username p) [ none ↦ false | some _ ↦ true ])
      × IsValid p'
      × (pimp_check who cap_type p'
          ≡ (if strcmp username who == 0 then false else pimp_check who cap_type p))
unfolding pimp_rule_remove
check-rule_remove username who cap_type p v tu t = elim (rule_cases username p v tu) [
  | inl (e, none_of) ↦
      let absent : pimp_check who cap_type p
          ≡ (if strcmp username who == 0 then false else pimp_check who cap_type p) =
        elim (Bool-cases (strcmp username who == 0)) [
          | inl same ↦
              let q = strcmp-eq username who tu t (beq→eq _ 0 same) in
              rw (same, ← q) (check-none username cap_type p v tu none_of)
          | inr apart ↦ rw apart refl
        ] in
      rw (e, pimp_rule_remove) (refl, v, absent)
  | inr (i, e, l, named) ↦
      rw (e, pimp_rule_remove)
        (
          refl,
          removed-IsValid username p v tu i l named,
          check-removed username p v tu i l named who cap_type t,
        )
]
