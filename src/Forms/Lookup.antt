-- ===== src/Forms/Lookup.antt =====
-- Looking a form up by its name.
use hexa_os_alpha_build.Base.{
  ℕ, zero, suc, ◌+◌, ◌≤◌, ◌<◌, ◌≡◌, refl, arith, Bool, Bool-cases, true, false, Option, none, some,
  List, ◌∷◌, inl, inr, scan_cases, scan_first, NoneOf, ◌==◌, ltb, leb, ◌&&◌, if◌then◌else◌, update,
  update_self, update_ne, eq→beq, lt→ltb,
}
use hexa_os_alpha_build.Forms.{
  Form, Forms, is_named, find_form, shift_down, cmd_mkform, place_form, fresh_form, check_perm,
  max_forms, Kmalloc, Message,
}
use hexa_os_alpha_build.Text.{Buffer, strcmp, strcmp_refl}

-- The first form of the name, or none where no form has it.
pub data Found (s : Forms) (name : List ℕ) : Option ℕ → Type 0 where
  absent : NoneOf (is_named s name) 0 s.form_count → Found s name none
  at :
      (i : ℕ)
      → i < s.form_count
      → is_named s name i ≡ true
      → NoneOf (is_named s name) 0 i
      → Found s name (some i)

pub find_form_cases : (s : Forms) (name : List ℕ) → Found s name (find_form s name)
unfolding find_form
find_form_cases s name =
    elim (scan_cases s.form_count 0 (is_named s name) {j = s.form_count} (omega arith)) [
      | inl (e, none_of) ↦ rw e (absent none_of)
      | inr (i, e, f) ↦ rw e (at i f.before f.hit f.first)
    ]

-- What stands where after the later forms have moved down.
pub shift_down_lem :
    (n i : ℕ) (t : ℕ → Form) (j : ℕ)
    → shift_down n i t j ≡ (if leb i j && ltb j (i + n) then t (j + 1) else t j)
unfolding shift_down
shift_down_lem zero i t j = ground arith
shift_down_lem (suc n) i t j = ground (arith, shift_down_lem n (i + 1) (update t i (t (i + 1))) j)

pub shift_down_before : (n i : ℕ) (t : ℕ → Form) (j : ℕ) → j < i → shift_down n i t j ≡ t j
shift_down_before n i t j h = ground (arith, shift_down_lem n i t j)

pub shift_down_moved :
    (n i : ℕ) (t : ℕ → Form) (j : ℕ) → i ≤ j → j < i + n → shift_down n i t j ≡ t (j + 1)
shift_down_moved n i t j h h' = ground (arith, shift_down_lem n i t j)

absent-NoneOf :
    (s : Forms) (name : List ℕ) → find_form s name ≡ none → NoneOf (is_named s name) 0 s.form_count
absent-NoneOf s name e = named (find_form_cases s name) e
  where
    named : {o : Option ℕ} → Found s name o → o ≡ none → NoneOf (is_named s name) 0 s.form_count
    named (absent h) e = h
    named (at i l h f) e = cc

abbrev snoc : Forms → Form → Forms
snoc s f = record { form_table = update s.form_table s.form_count f; form_count = s.form_count + 1 }

-- A new form at the end is the first of its name, where no form had it.
find_form-snoc :
    (s : Forms) (f : Form)
    → find_form s f.name ≡ none
    → find_form (snoc s f) f.name ≡ some s.form_count
unfolding find_form
find_form-snoc s f e =
    scan_first (s.form_count + 1) 0 (is_named (snoc s f) f.name) {j = s.form_count + 1} s.form_count
      (omega arith)
      (record {
        from = omega arith;
        before = omega arith;
        hit =
            rw (update_self s.form_table s.form_count f)
              (eq→beq (strcmp f.name f.name) 0 (strcmp_refl f.name));
        first = λ k h l.
            rw (update_ne s.form_table s.form_count f k (omega arith))
              (absent-NoneOf s f.name e k h l);
      })

fresh_form-may :
    (s : Forms) (name : List ℕ) (block : Buffer) (u_cur : ℕ) (w : Bool)
    → check_perm u_cur (snoc s (fresh_form name block u_cur)) s.form_count w ≡ false
unfolding check_perm fresh_form
fresh_form-may s name block u_cur w =
    let f = fresh_form name block u_cur in
    rw
      (
        update_self s.form_table s.form_count f,
        lt→ltb s.form_count (s.form_count + 1) (omega arith),
        eq→beq u_cur u_cur refl,
      )
      (elim (Bool-cases (u_cur == 0)) [
        | inl e ↦ rw e refl
        | inr e ↦
            rw e
              (elim w as (λ w. (if w then false else false) ≡ false) [ true ↦ refl | false ↦ refl ])
      ])

-- A form that is made is found by its name, and its maker may read it and write it: where the name is
-- not empty and not in use, the table has room, and the one byte of content is given.
pub find_form-mkform :
    (kmalloc : Kmalloc) (u_cur c : ℕ) (cs : List ℕ) (block : Buffer) (s : Forms) (w : Bool)
    → find_form s (c ∷ cs) ≡ none
    → s.form_count < max_forms
    → kmalloc 1 ≡ some block
    → let (m, s') = cmd_mkform kmalloc u_cur (c ∷ cs) s in
      (m ≡ Message.created)
      × (find_form s' (c ∷ cs) ≡ some s.form_count)
      × (check_perm u_cur s' s.form_count w ≡ false)
unfolding cmd_mkform place_form fresh_form
find_form-mkform kmalloc u_cur c cs block s w e room given =
    let full : leb max_forms s.form_count ≡ false = ground arith in
    rw (full, e, given)
      (
        refl,
        find_form-snoc s (fresh_form (c ∷ cs) block u_cur) e,
        fresh_form-may s (c ∷ cs) block u_cur w,
      )
