-- ===== src/Pipe/Typed.antt =====
-- A typed pipe is a bounded FIFO of forms that all carry the pipe's schema.
use native.Mathlib.Decide.{ℕ_discrete, dec_lt}
use hexa_os_alpha_build.Base.{
  ℕ, ◌+◌, ◌%◌, ◌<◌, ◌≤◌, ◌≡◌, refl, ◌≢◌, Bool, true, false, not, ◌&&◌, Option, none, some, List, [],
  ◌∷◌, ◌++◌, arith, ◌==◌, ltb, update, inl, inr, ◌⊎◌, Bool-cases, ap, ◌||◌, subst, update-all,
  update_ne, update_self, sym, ◌∙◌, leb,
}
use hexa_os_alpha_build.Base.Lists.{length, length-append}
use hexa_os_alpha_build.Ring.{
  InRange, used-lt, contents, length-contents, contents_put, contents_get, contents_empty,
  used_full,
}
use hexa_os_alpha_build.Pipe.{
  Form, TypedPipe, Pipes, max_pipes, pipe_typed_capacity, typed_put, typed_get, bad_typed_id,
  pipe_typed_write, pipe_typed_read, pipe_create_typed, blank_form,
}

abbrev pub forms : TypedPipe → List Form
forms tp = contents tp.ring pipe_typed_capacity tp.head tp.tail

abbrev AllSchema : ℕ → List Form → Type 0
AllSchema h [] = Unit {0}
AllSchema h (f ∷ fs) = (f.schema_hash ≡ h) × AllSchema h fs

AllSchema-append :
    (h : ℕ) (fs : List Form) (f : Form)
    → AllSchema h fs
    → f.schema_hash ≡ h
    → AllSchema h (fs ++ f ∷ [])
AllSchema-append h [] f a e = (e, tt)
AllSchema-append h (g ∷ fs) f a e = (a.0, AllSchema-append h fs f a.1 e)

-- The indices stay in the ring, and each form in it has the pipe's schema.
pub record IsTyped (tp : TypedPipe) : Type 0 where
  pub range : InRange pipe_typed_capacity tp.head tp.tail
  pub schemas : AllSchema tp.schema_hash (forms tp)

-- How two typed pipes agree but for the forms that wait in them.
pub record SameEnds (q p : TypedPipe) : Type 0 where
  pub schema : q.schema_hash ≡ p.schema_hash
  pub producer : q.producer_pid ≡ p.producer_pid
  pub consumer : q.consumer_pid ≡ p.consumer_pid
  pub token : q.cap_token ≡ p.cap_token
  pub open_ : q.active ≡ p.active

-- Whether a write is accepted: the pipe is active, the schemas agree, and fewer than 15 forms wait.
abbrev pub accepts : TypedPipe → Form → Bool
accepts tp form = tp.active && (form.schema_hash == tp.schema_hash && ltb (length (forms tp)) 15)

typed_full : (tp : TypedPipe) → IsTyped tp → (tp.head + 1) % 16 ≡ tp.tail → length (forms tp) ≡ 15
typed_full tp v e = omega (
  arith,
  length-contents tp.ring pipe_typed_capacity tp.head tp.tail,
  used_full pipe_typed_capacity tp.head tp.tail v.range e,
)

pub length-forms-lt : (tp : TypedPipe) → IsTyped tp → length (forms tp) < 16
length-forms-lt tp v = omega (
  arith,
  length-contents tp.ring pipe_typed_capacity tp.head tp.tail,
  used-lt pipe_typed_capacity tp.head tp.tail v.range,
)

pub typed_put_lem :
    (tp : TypedPipe) (form : Form)
    → IsTyped tp
    → ((accepts tp form ≡ false) × (typed_put tp form ≡ none))
      ⊎ ((q : TypedPipe) × (accepts tp form ≡ true)
          × (typed_put tp form ≡ some (form.data_size, q))
          × (forms q ≡ forms tp ++ form ∷ [])
          × IsTyped q
          × SameEnds q tp)
unfolding typed_put
typed_put_lem tp form v = elim (ℕ_discrete ((tp.head + 1) % 16) tp.tail) [
  | yes e ↦ inl (ground (arith, typed_full tp v e), ground arith)
  | no ne ↦ elim (Bool-cases (tp.active && form.schema_hash == tp.schema_hash)) [
    | inl good ↦
        let q : TypedPipe = record tp {
          ring = update tp.ring tp.head form;
          head = (tp.head + 1) % pipe_typed_capacity;
        } in
        let same : SameEnds q tp = record {
          schema = refl;
          producer = refl;
          consumer = refl;
          token = refl;
          open_ = refl;
        } in
        let eq : forms q ≡ forms tp ++ form ∷ [] =
          contents_put tp.ring 16 tp.head tp.tail v.range form ne in
        let room : length (forms tp) < 15 = omega (
          arith,
          ap length eq,
          length-append (forms tp) (form ∷ []),
          length-contents q.ring 16 q.head q.tail,
          used-lt 16 q.head q.tail (omega (arith, v.range)),
        ) in
        inr (
          q,
          ground arith,
          ground arith,
          eq,
          record {
            range = omega (arith, v.range);
            schemas =
                rw eq (AllSchema-append tp.schema_hash (forms tp) form v.schemas (ground arith));
          },
          same,
        )
    | inr bad ↦ inl (ground arith, ground arith)
  ]
]

pub typed_get_lem :
    (tp : TypedPipe)
    → IsTyped tp
    → (((tp.active && ltb 0 (length (forms tp))) ≡ false) × (typed_get tp ≡ none))
      ⊎ ((form : Form) × (q : TypedPipe) × (tp.active ≡ true)
          × (typed_get tp ≡ some (form.data_size, form, q))
          × (forms tp ≡ form ∷ forms q)
          × (form.schema_hash ≡ tp.schema_hash)
          × IsTyped q
          × SameEnds q tp)
unfolding typed_get
typed_get_lem tp v = elim (ℕ_discrete tp.head tp.tail) [
  | yes e ↦ inl (ground (arith, contents_empty tp.ring 16 tp.tail v.range.tail_in), ground arith)
  | no ne ↦ elim (Bool-cases tp.active) [
    | inl good ↦
        let q : TypedPipe = record tp { tail = (tp.tail + 1) % pipe_typed_capacity } in
        let same : SameEnds q tp = record {
          schema = refl;
          producer = refl;
          consumer = refl;
          token = refl;
          open_ = refl;
        } in
        let eq : forms tp ≡ tp.ring tp.tail ∷ forms q =
          contents_get tp.ring 16 tp.head tp.tail v.range ne in
        let all : AllSchema tp.schema_hash (tp.ring tp.tail ∷ forms q) =
          subst (AllSchema tp.schema_hash) eq v.schemas in
        inr (
          tp.ring tp.tail,
          q,
          good,
          ground arith,
          eq,
          all.0,
          record { range = omega (arith, v.range); schemas = all.1 },
          same,
        )
    | inr bad ↦ inl (ground arith, ground arith)
  ]
]

-- The table: at most 16 typed pipes, each of them well formed.
pub record IsTable (s : Pipes) : Type 0 where
  pub few : s.typed_pipe_count ≤ max_pipes
  pub each : (id : ℕ) → IsTyped (s.typed_pipes id)

IsTable-update :
    (s : Pipes) (id : ℕ) (tp : TypedPipe)
    → IsTable s
    → IsTyped tp
    → IsTable (record s { typed_pipes = update s.typed_pipes id tp })
IsTable-update s id tp t v = record {
  few = t.few;
  each = update-all IsTyped s.typed_pipes id tp v t.each;
}

-- Whether `pipe_typed_write` takes the form: the identifier names a pipe, and the pipe accepts.
abbrev pub takes : Pipes → ℕ → Form → Bool
takes s id form = not (bad_typed_id s id) && accepts (s.typed_pipes id) form

-- Nothing but the typed pipe of an identifier differs, and of that no more than the forms.
pub record OnlyForms (s : Pipes) (id : ℕ) (t : Pipes) : Type 0 where
  pub others : (j : ℕ) → id ≢ j → t.typed_pipes j ≡ s.typed_pipes j
  pub ends : SameEnds (t.typed_pipes id) (s.typed_pipes id)
  pub count : t.typed_pipe_count ≡ s.typed_pipe_count
  pub bytes : t.pipes ≡ s.pipes
  pub allocated : t.pipe_allocated ≡ s.pipe_allocated

OnlyForms-update :
    (s : Pipes) (id : ℕ) (q : TypedPipe)
    → SameEnds q (s.typed_pipes id)
    → OnlyForms s id (record s { typed_pipes = update s.typed_pipes id q })
OnlyForms-update s id q e = record {
  others = λ j ne. update_ne s.typed_pipes id q j ne;
  ends = rw (update_self s.typed_pipes id q) e;
  count = refl;
  bytes = refl;
  allocated = refl;
}

-- What `pipe_typed_write` does to a table.
pub data Writes (s : Pipes) (id : ℕ) (form : Form) : Option ℕ × Pipes → Type 0 where
  refused : takes s id form ≡ false → Writes s id form (none, s)
  appended :
      {t : Pipes}
      → takes s id form ≡ true
      → forms (t.typed_pipes id) ≡ forms (s.typed_pipes id) ++ form ∷ []
      → OnlyForms s id t
      → Writes s id form (some form.data_size, t)

-- `pipe_typed_write` appends the form to its pipe exactly when the identifier is in use, the pipe is
-- active, the schemas agree and fewer than 15 forms wait; it then returns the form's size. Otherwise
-- it returns -1 and changes nothing. Apart from the forms that wait in that pipe nothing changes, and
-- the table stays well formed.
pub pipe_typed_write_lem :
    (s : Pipes) (id : ℕ) (form : Form)
    → IsTable s
    → Writes s id form (pipe_typed_write s id form) × IsTable (pipe_typed_write s id form).1
unfolding pipe_typed_write
pipe_typed_write_lem s id form t = elim (Bool-cases (bad_typed_id s id)) [
  | inl bad ↦ rw bad (refused (rw bad refl), t)
  | inr good ↦ elim (typed_put_lem (s.typed_pipes id) form (t.each id)) [
    | inl (no_room, e) ↦ rw (good, e) (refused (rw (good, no_room) refl), t)
    | inr (q, room, e, eq, v, same) ↦
        rw (good, e)
          (
            appended (rw (good, room) refl) (ap forms (update_self s.typed_pipes id q) ∙ eq)
                (OnlyForms-update s id q same),
            IsTable-update s id q t v,
          )
  ]
]

-- What `pipe_typed_read` does to a table.
pub data Reads (s : Pipes) (id : ℕ) : Option (ℕ × Form) × Pipes → Type 0 where
  refused :
      bad_typed_id s id
          || (not (s.typed_pipes id).active || (length (forms (s.typed_pipes id)) == 0))
        ≡ true
      → Reads s id (none, s)
  taken :
      {t : Pipes} (form : Form)
      → bad_typed_id s id ≡ false
      → (s.typed_pipes id).active ≡ true
      → forms (s.typed_pipes id) ≡ form ∷ forms (t.typed_pipes id)
      → form.schema_hash ≡ (s.typed_pipes id).schema_hash
      → OnlyForms s id t
      → Reads s id (some (form.data_size, form), t)

-- `pipe_typed_read` takes the oldest form of an active pipe that has one, where the identifier is in
-- use, and that form carries the schema of the pipe; otherwise it returns -1 and changes nothing. Apart
-- from the forms that wait in that pipe nothing changes, and the table stays well formed.
pub pipe_typed_read_lem :
    (s : Pipes) (id : ℕ)
    → IsTable s
    → Reads s id (pipe_typed_read s id) × IsTable (pipe_typed_read s id).1
unfolding pipe_typed_read
pipe_typed_read_lem s id t = elim (Bool-cases (bad_typed_id s id)) [
  | inl bad ↦ rw bad (refused (ground arith), t)
  | inr good ↦ elim (typed_get_lem (s.typed_pipes id) (t.each id)) [
    | inl (no_form, e) ↦ rw (good, e) (refused (ground arith), t)
    | inr (form, q, on, e, eq, schema, v, same) ↦
        rw (good, e)
          (
            taken form good on
                (eq ∙ ap (λ tp. form ∷ forms tp) (sym (update_self s.typed_pipes id q))) schema
                (OnlyForms-update s id q same),
            IsTable-update s id q t v,
          )
  ]
]

-- How `pipe_create_typed` ends: with -1 and no change where 16 identifiers are in use, or with the next
-- identifier, which names an empty active pipe of the schema.
pub data CreatesTyped (s : Pipes) (schema : ℕ) : Option ℕ × Pipes → Type 0 where
  exhausted : s.typed_pipe_count ≡ 16 → CreatesTyped s schema (none, s)
  opened :
      {t : Pipes}
      → s.typed_pipe_count < 16
      → forms (t.typed_pipes s.typed_pipe_count) ≡ []
      → (t.typed_pipes s.typed_pipe_count).active ≡ true
      → (t.typed_pipes s.typed_pipe_count).schema_hash ≡ schema
      → bad_typed_id t s.typed_pipe_count ≡ false
      → CreatesTyped s schema (some s.typed_pipe_count, t)

-- `pipe_create_typed` opens an empty active pipe of the given schema under the next identifier, while
-- fewer than 16 are in use; otherwise it returns -1 and changes nothing. The table stays well formed.
pub pipe_create_typed_lem :
    (s : Pipes) (schema producer consumer token : ℕ)
    → IsTable s
    → CreatesTyped s schema (pipe_create_typed s schema producer consumer token)
      × IsTable (pipe_create_typed s schema producer consumer token).1
unfolding pipe_create_typed
pipe_create_typed_lem s schema producer consumer token t =
    let id = s.typed_pipe_count in
    elim (dec_lt id 16) [
      | yes lt ↦
          let fresh : TypedPipe = record {
            schema_hash = schema;
            producer_pid = producer;
            consumer_pid = consumer;
            cap_token = token;
            ring = λ _. blank_form;
            head = 0;
            tail = 0;
            active = true;
          } in
          let none_yet : forms fresh ≡ [] = contents_empty (λ _. blank_form) 16 0 (omega arith) in
          let small : leb 16 id ≡ false = ground arith in
          let at = update_self s.typed_pipes id fresh in
          rw small (
            opened lt (ap forms at ∙ none_yet) (ap (λ tp. tp.active) at)
                (ap (λ (tp : TypedPipe). tp.schema_hash) at) (ground arith),
            record {
              few = omega arith;
              each =
                  update-all IsTyped s.typed_pipes id fresh
                    (record { range = omega arith; schemas = rw none_yet tt }) t.each;
            },
          )
      | no ge ↦
          let full : leb 16 id ≡ true = ground arith in
          rw full (exhausted (omega (arith, t.few)), t)
    ]
