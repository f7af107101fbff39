-- ===== src/Intents/Compat.antt =====
-- The calls of intent.c that look like those on files. The position that they take is ignored by the
-- code. What stands in memory at an address, as text, is an argument: `intent_compat_write` takes a
-- number that is no handle for the address of a name.
use hexa_os_alpha_build.Base.{
  ℕ, ◌+◌, ◌^◌, ◌≤◌, ◌<◌, ◌≡◌, refl, ◌∙◌, Bool, false, not, ◌&&◌, Option, none, some, List, ◌==◌,
  min, if◌then◌else◌, bit_and, eq→beq,
}
use hexa_os_alpha_build.Forms.{Forms, Kmalloc, find_form, cmd_mkform}
use hexa_os_alpha_build.Intents.{
  Intent, Intents, max_intents, intent_consume, intent_produce, intent_observe, minus_one,
  find_intent, intent_create, fill_entry, lacks_cap,
}
use hexa_os_alpha_build.Intents.Handles.{IsTable, intent_create_lem}
use hexa_os_alpha_build.Intents.Fulfil.{Arg, Outcome, intent_fulfill}
use hexa_os_alpha_build.Intents.Fulfil.Transfer.{
  IsArg, copied, consume-loaded, load_form-ret, load_form-buffer,
}

-- The intent that an open makes: to produce once, or to consume a stream.
opened : ℕ → ℕ → Intent
opened idx flags = record {
  intent_type = if bit_and flags 1 == 0 then intent_consume else intent_produce;
  target_hash = idx;
  schema_hash = 0;
  filter_offset = 0;
  flags = if bit_and flags 1 == 0 then 1 else 2;
}

module _ (cap_check : ℕ → Bool) (kmalloc : Kmalloc) (u_cur pid : ℕ) where
  pub open_found : ℕ → Intents → Forms → Option ℕ → Option ℕ × Intents × Forms
  open_found flags s f none = (none, s, f)
  open_found flags s f (some idx) =
      let (r, s') = intent_create cap_check pid (opened idx flags) s in (r, s', f)

  -- `intent_compat_open`: the handle, or `none` for -1.
  pub intent_compat_open : List ℕ → ℕ → Intents → Forms → Option ℕ × Intents × Forms
  intent_compat_open path flags s f = elim (find_form f path) [
    | some idx ↦ open_found flags s f (some idx)
    | none ↦
        if bit_and flags 4 == 0
        then (none, s, f)
        else (let f' = (cmd_mkform kmalloc u_cur path f).1 in
            open_found flags s f' (find_form f' path))
  ]

  abbrev refuse : Arg → Intents → Forms → Outcome
  refuse a s f = record {
    ret = minus_one;
    buffer = a.bytes;
    from_entry = 0;
    past_form = 0;
    intents = s;
    forms = f;
  }

  read_found : ℕ → Arg → Intents → Forms → Option ℕ → Outcome
  read_found fd a s f none = refuse a s f
  read_found fd a s f (some i) =
      let kind = (s.intent_table i).intent.intent_type in
      if not (kind == intent_consume) && not (kind == intent_observe)
      then refuse a s f
      else intent_fulfill fd a s f

  pub intent_compat_read : ℕ → Arg → Intents → Forms → Outcome
  intent_compat_read fd a s f = read_found fd a s f (find_intent s fd)

  -- The write through a name: the intent that it makes stays active.
  write_made : Arg → Forms → Option ℕ × Intents → Outcome
  write_made a f (none, s) = refuse a s f
  write_made a f (some h, s) = intent_fulfill h a s f

  write_named : Arg → Intents → Forms → Option ℕ → Outcome
  write_named a s f none = refuse a s f
  write_named a s f (some idx) = write_made a f (intent_create cap_check pid (opened idx 1) s)

  write_found : (ℕ → List ℕ) → ℕ → Arg → Intents → Forms → Option ℕ → Outcome
  write_found text_at fd a s f none = write_named a s f (find_form f (text_at fd))
  write_found text_at fd a s f (some i) =
      if not ((s.intent_table i).intent.intent_type == intent_produce)
      then refuse a s f
      else intent_fulfill fd a s f

  pub intent_compat_write : (ℕ → List ℕ) → ℕ → Arg → Intents → Forms → Outcome
  intent_compat_write text_at fd a s f = write_found text_at fd a s f (find_intent s fd)

  -- A form that is opened for reading is read through the handle from its start. The read returns the
  -- length of the caller's buffer, which is any from 1 on, or the size of the form, whichever is less;
  -- so many places of the buffer get the bytes of the form, and every other place keeps what it held.
  -- Neither the open nor the read changes the forms. An entry is free and the handles have not run out.
  pub read-open :
      (path : List ℕ) (flags : ℕ) (s : Intents) (f : Forms) (b : Arg) (idx j k : ℕ)
      → IsTable s
      → s.next_handle + 1 < 2 ^ 32
      → j < max_intents
      → (s.intent_table j).active ≡ false
      → find_form f path ≡ some idx
      → bit_and flags 1 ≡ 0
      → idx < f.form_count
      → f.form_count ≤ 64
      → (f.form_table idx).size < 2 ^ 31
      → IsArg b
      → let g = f.form_table idx in
        let n = min b.len g.size in
        let (r, s', f') = intent_compat_open path flags s f in
        let o = intent_compat_read s.next_handle b s' f' in
        (r ≡ some s.next_handle)
        × (f' ≡ f)
        × (o.ret ≡ n)
        × (o.buffer k ≡ copied n g.content b.bytes k)
        × (o.forms ≡ f)
  unfolding intent_compat_open open_found intent_compat_read read_found opened
  read-open path flags s f b idx j k t room lj fj found rd l few size v =
      let it = opened idx flags in
      let kind : it.intent_type ≡ intent_consume = rw rd refl in
      let may : lacks_cap cap_check pid it ≡ false = unfold lacks_cap in rw rd refl in
      let (i, _, made) = intent_create_lem cap_check pid it s j s.next_handle t room may lj fj in
      let s' = (intent_create cap_check pid it s).1 in
      let entry = made.1 in
      let here : find_intent s' s.next_handle ≡ some i =
        made.3 ∙ rw (eq→beq s.next_handle s.next_handle refl) refl in
      let consumes : (s'.intent_table i).intent.intent_type ≡ intent_consume =
        rw entry (unfold fill_entry in kind) in
      let aims : (s'.intent_table i).intent.target_hash ≡ idx =
        rw entry (unfold fill_entry in refl) in
      let loaded = consume-loaded f idx l few s.next_handle b s' i here consumes aims v in
      let ret = load_form-ret idx b s' f v size in
      let buffer = load_form-buffer idx b s' f k v size in
      rw (found, intent_compat_open)
        (rw here (rw (consumes, loaded) (made.0, refl, ret, buffer, refl)))
