-- ===== src/Forms/Validity.antt =====
-- The well-formed tables of forms, and the steps of the commands that keep them so.
use hexa_os_alpha_build.Base.{
  ℕ, ◌+◌, ◌-◌, ◌%◌, ◌^◌, ◌≤◌, ◌<◌, ◌≡◌, refl, arith, Bool, true, not, ◌&&◌, Option, none, some,
  List, [], ◌∷◌, leb, ◌==◌, update, ◌∙◌, update_self, update_ne, inl, inr, Bool-cases, Option-cases,
}
use native.Mathlib.Decide.{ℕ_discrete, dec_lt}
use hexa_os_alpha_build.Base.Lists.{length}
use hexa_os_alpha_build.Text.{Buffer, strlen}
use hexa_os_alpha_build.Text.Numbers.{atoi}
use hexa_os_alpha_build.Forms.{
  Form, Forms, Kmalloc, Message, max_forms, fresh_form, place_form, find_form, check_perm,
  cmd_mkform, remove_at, delete_found,
}
use hexa_os_alpha_build.Forms.Commands
use hexa_os_alpha_build.Forms.Editing.{
  edit_lines, edit_found, typed_length, edit_lines-capacity, edit_lines-fields, edit_lines-size-le,
}
use hexa_os_alpha_build.Forms.Dispatch
use hexa_os_alpha_build.Forms.Dispatch.{
  Command, NameFits, RoomFor, mkform, delete, write, append, edit, move, setmode, setowner,
}
use hexa_os_alpha_build.Forms.Lookup.{Found, absent, at, shift_down_before, shift_down_moved}
use hexa_os_alpha_build.Forms.Fitting.{
  Fits, IsBounded, Ensured, grown, refused, form_ensure_cap_cases,
}

pub record IsValid (s : Forms) : Type 0 where
  pub count : s.form_count ≤ max_forms
  pub fits : (i : ℕ) → i < s.form_count → Fits (s.form_table i)
  pub names : (i : ℕ) → i < s.form_count → length (s.form_table i).name < 32

set_form-IsValid :
    (s : Forms) (i : ℕ) (f : Form)
    → IsValid s
    → Fits f
    → length f.name < 32
    → IsValid (Commands.set_form s i f)
set_form-IsValid s i f v h n = record {
  count = v.count;
  fits = λ j l. elim (ℕ_discrete i j) [
    | yes e ↦ rw (← e, update_self s.form_table i f) h
    | no ne ↦ rw (update_ne s.form_table i f j ne) (v.fits j l)
  ];
  names = λ j l. elim (ℕ_discrete i j) [
    | yes e ↦ rw (← e, update_self s.form_table i f) n
    | no ne ↦ rw (update_ne s.form_table i f j ne) (v.names j l)
  ];
}

write_text-IsValid :
    (s : Forms) (i : ℕ) (text : List ℕ) (r : Bool × Form)
    → IsValid s
    → Fits (s.form_table i)
    → length (s.form_table i).name < 32
    → Ensured (s.form_table i) (strlen text + 1) r
    → IsValid (Commands.stored Message.written i s (Commands.write_text text r)).1
unfolding Commands.stored Commands.write_text
write_text-IsValid s i text r v w n (grown f' g) =
    set_form-IsValid s i _ v (record { has = g.has; room = omega (arith, g.room); limit = g.limit })
      (rw g.name n)
write_text-IsValid s i text r v w n refused = set_form-IsValid s i _ v w n

append_text-IsValid :
    (s : Forms) (i : ℕ) (text : List ℕ) (needed : ℕ) (r : Bool × Form)
    → needed ≡ (s.form_table i).size + strlen text + 1
    → IsValid s
    → Fits (s.form_table i)
    → length (s.form_table i).name < 32
    → Ensured (s.form_table i) needed r
    → IsValid (Commands.stored Message.appended i s (Commands.append_text text r)).1
unfolding Commands.stored Commands.append_text
append_text-IsValid s i text needed r e v w n (grown f' g) =
    set_form-IsValid s i _ v
      (record { has = g.has; room = omega (arith, g.room, g.size, g.limit, e); limit = g.limit })
      (rw g.name n)
append_text-IsValid s i text needed r e v w n refused = set_form-IsValid s i _ v w n

place_form-IsValid :
    (r : Option Buffer) (u_cur : ℕ) (name : List ℕ) (s : Forms)
    → s.form_count < max_forms
    → length name < 32
    → IsValid s
    → IsValid (place_form r u_cur name s).1
unfolding place_form fresh_form
place_form-IsValid none u_cur name s h n v = record {
  count = v.count;
  fits = λ j l. rw (update_ne s.form_table s.form_count _ j (omega arith)) (v.fits j l);
  names = λ j l. rw (update_ne s.form_table s.form_count _ j (omega arith)) (v.names j l);
}
place_form-IsValid (some b) u_cur name s h n v = record {
  count = omega arith;
  fits = λ j l. elim (ℕ_discrete s.form_count j) [
    | yes e ↦
        rw (← e, update_self s.form_table s.form_count (fresh_form name b u_cur))
          (record { has = refl; room = omega arith; limit = omega arith })
    | no ne ↦
        rw (update_ne s.form_table s.form_count (fresh_form name b u_cur) j ne)
          (v.fits j (omega arith))
  ];
  names = λ j l. elim (ℕ_discrete s.form_count j) [
    | yes e ↦ rw (← e, update_self s.form_table s.form_count (fresh_form name b u_cur)) n
    | no ne ↦
        rw (update_ne s.form_table s.form_count (fresh_form name b u_cur) j ne)
          (v.names j (omega arith))
  ];
}

pub mkform-IsValid :
    (kmalloc : Kmalloc) (u_cur : ℕ) (name : List ℕ) (s : Forms)
    → length name < 32
    → IsValid s
    → IsValid (cmd_mkform kmalloc u_cur name s).1
unfolding cmd_mkform
mkform-IsValid kmalloc u_cur [] s n v = v
mkform-IsValid kmalloc u_cur (c ∷ cs) s n v = elim (Bool-cases (leb max_forms s.form_count)) [
  | inl e ↦ rw e v
  | inr e ↦ rw e (elim (Option-cases (find_form s (c ∷ cs))) [
    | inr (i, f) ↦ rw f v
    | inl f ↦ rw f (place_form-IsValid (kmalloc 1) u_cur (c ∷ cs) s (ground arith) n v)
  ])
]

remove_at-IsValid : (i : ℕ) (s : Forms) → i < s.form_count → IsValid s → IsValid (remove_at i s)
unfolding remove_at
remove_at-IsValid i s h v =
    let n = s.form_count - 1 - i in
    record {
      count = omega (arith, v.count);
      fits = λ j l. elim (dec_lt j i) [
        | yes b ↦ rw (shift_down_before n i s.form_table j b) (v.fits j (omega arith))
        | no b ↦
            rw (shift_down_moved n i s.form_table j (omega arith) (omega arith))
              (v.fits (j + 1) (omega arith))
      ];
      names = λ j l. elim (dec_lt j i) [
        | yes b ↦ rw (shift_down_before n i s.form_table j b) (v.names j (omega arith))
        | no b ↦
            rw (shift_down_moved n i s.form_table j (omega arith) (omega arith))
              (v.names (j + 1) (omega arith))
      ];
    }

module _ {s : Forms} {name : List ℕ} (v : IsValid s) where
  pub delete_found-IsValid :
      {o : Option ℕ} (u_cur : ℕ) → Found s name o → IsValid (delete_found u_cur s o).1
  unfolding delete_found
  delete_found-IsValid u_cur (absent _) = v
  delete_found-IsValid u_cur (at i l _ _) = elim (Bool-cases (check_perm u_cur s i true)) [
    | inl e ↦ rw e v
    | inr e ↦ rw e (remove_at-IsValid i s l v)
  ]

  pub mode_found-IsValid :
      {o : Option ℕ} (u_cur : ℕ) (mode_str : List ℕ)
      → Found s name o
      → IsValid (Commands.mode_found u_cur mode_str s o).1
  unfolding Commands.mode_found
  mode_found-IsValid u_cur mode_str (absent _) = v
  mode_found-IsValid u_cur mode_str (at i l _ _) =
      let w = v.fits i l in
      let new =
        set_form-IsValid s i (record (s.form_table i) { mode = atoi mode_str % 2 ^ 16 }) v
          (record { has = w.has; room = w.room; limit = w.limit }) (v.names i l) in
      elim (Bool-cases (not (u_cur == 0) && not ((s.form_table i).owner == u_cur))) [
        | inl e ↦ rw e v
        | inr e ↦ rw e new
      ]

  pub owner_found-IsValid :
      {o : Option ℕ} (nu : ℕ) → Found s name o → IsValid (Commands.owner_found nu s o).1
  unfolding Commands.owner_found
  owner_found-IsValid nu (absent _) = v
  owner_found-IsValid nu (at i l _ _) =
      let w = v.fits i l in
      set_form-IsValid s i (record (s.form_table i) { owner = nu }) v
        (record { has = w.has; room = w.room; limit = w.limit }) (v.names i l)

  pub move_found-IsValid :
      {o : Option ℕ} (u_cur : ℕ) (dst : List ℕ)
      → length dst < 32
      → Found s name o
      → IsValid (Dispatch.move_found u_cur dst s o).1
  unfolding Dispatch.move_found
  move_found-IsValid u_cur dst n (absent _) = v
  move_found-IsValid u_cur dst n (at i l _ _) =
      let w = v.fits i l in
      let new =
        set_form-IsValid s i (record (s.form_table i) { name = dst }) v
          (record { has = w.has; room = w.room; limit = w.limit }) n in
      elim (Bool-cases (check_perm u_cur s i true)) [ inl e ↦ rw e v | inr e ↦ rw e new ]

  pub edit_found-IsValid :
      {o : Option ℕ} (u_cur : ℕ) (lines : List (List ℕ))
      → ((i : ℕ) → i < s.form_count → typed_length lines < (s.form_table i).capacity)
      → Found s name o
      → IsValid (edit_found u_cur lines s o).1
  unfolding edit_found
  edit_found-IsValid u_cur lines room (absent _) = v
  edit_found-IsValid u_cur lines room (at i l _ _) =
      let w = v.fits i l in
      let f = s.form_table i in
      let f0 : Form = record f { content = update f.content 0 0; size = 0 } in
      let kept = edit_lines-fields lines 0 f0 in
      let cap = edit_lines-capacity lines 0 f0 in
      let new =
        set_form-IsValid s i (edit_lines lines 0 f0) v
          (record {
            has = kept.0 ∙ w.has;
            room = rw cap (omega (arith, room i l, edit_lines-size-le lines 0 f0 (omega arith)));
            limit = rw cap w.limit;
          })
          (rw kept.1 (v.names i l)) in
      elim (Bool-cases (check_perm u_cur s i true)) [ inl e ↦ rw e v | inr e ↦ rw e new ]

  module _ (kmalloc : Kmalloc) (b : IsBounded kmalloc) (u_cur : ℕ) (text : List ℕ)
      (short : strlen text < 2048) where
    pub write_found-IsValid :
        {o : Option ℕ} → Found s name o → IsValid (Commands.write_found kmalloc u_cur text s o).1
    unfolding Commands.write_found
    write_found-IsValid (absent _) = v
    write_found-IsValid (at i l _ _) = elim (Bool-cases (check_perm u_cur s i true)) [
      | inl e ↦ rw e v
      | inr e ↦
          let w = v.fits i l in
          rw e (
            write_text-IsValid s i text _ v w (v.names i l)
              (form_ensure_cap_cases kmalloc (s.form_table i) (strlen text + 1) b w (omega arith)))
    ]

    pub append_found-IsValid :
        {o : Option ℕ} → Found s name o → IsValid (Commands.append_found kmalloc u_cur text s o).1
    unfolding Commands.append_found
    append_found-IsValid (absent _) = v
    append_found-IsValid (at i l _ _) = elim (Bool-cases (check_perm u_cur s i true)) [
      | inl e ↦ rw e v
      | inr e ↦
          let w = v.fits i l in
          let needed = ((s.form_table i).size + strlen text + 1) % 2 ^ 32 in
          rw e (
            append_text-IsValid s i text needed _ (omega (arith, w.room, w.limit)) v w (v.names i l)
              (form_ensure_cap_cases kmalloc (s.form_table i) needed b w
                (omega (arith, w.room, w.limit))))
    ]
