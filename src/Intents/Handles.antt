-- ===== src/Intents/Handles.antt =====
-- The table of intents as a map from handles to entries.
use hexa_os_alpha_build.Base.{
  ℕ, ◌+◌, ◌^◌, ◌<◌, ◌≡◌, ◌≢◌, refl, sym, ap, fun_ext, ◌∙◌, arith, Bool, true, false, not, ◌&&◌,
  Option, none, some, ◌==◌, if◌then◌else◌, scan, update_self, update_ne, inl, inr, Bool-cases,
  eq→beq, ne→beq, beq→eq, scan_first, IsFirst, scan_nothing, scan-ne-none, scan_cases,
}
use native.Mathlib.Decide.{ℕ_discrete}
use hexa_os_alpha_build.Intents.{
  Intent, Entry, Intents, max_intents, holds, find_intent, fill_entry, lacks_cap, create_at,
  intent_create, close_at, intent_close,
}

-- The handles in use were given before, and no two entries share one.
pub record IsTable (s : Intents) : Type 0 where
  pub past :
      (i : ℕ)
      → i < max_intents
      → (s.intent_table i).active ≡ true
      → (s.intent_table i).handle < s.next_handle
  pub distinct :
      (i j : ℕ)
      → i < max_intents
      → j < max_intents
      → (s.intent_table i).active ≡ true
      → (s.intent_table j).active ≡ true
      → (s.intent_table i).handle ≡ (s.intent_table j).handle
      → i ≡ j

and_split : (a b : Bool) → (a && b) ≡ true → (a ≡ true) × (b ≡ true)
and_split true b h = (refl, h)
and_split false b h = cc

-- The only entry of a handle is the one that the search finds.
find_intent_unique :
    (s : Intents) (h i : ℕ)
    → IsTable s
    → i < max_intents
    → (s.intent_table i).active ≡ true
    → (s.intent_table i).handle ≡ h
    → find_intent s h ≡ some i
unfolding find_intent
find_intent_unique s h i t l a e =
    scan_first max_intents 0 (holds s h) {j = max_intents} i (omega arith) (record {
      from = omega arith;
      before = l;
      hit = rw (a, e) (eq→beq h h refl);
      first = λ k _ lk. elim (Bool-cases (holds s h k)) [
        | inr miss ↦ miss
        | inl hit ↦
            let (ak, ek) =
              and_split (s.intent_table k).active ((s.intent_table k).handle == h) hit in
            let same =
              t.distinct k i (omega arith) l ak a (beq→eq (s.intent_table k).handle h ek ∙ sym e) in
            absurd (omega arith)
      ];
    })

not-active : (e : Entry) → not e.active ≡ true → e.active ≡ false
not-active e h = elim (Bool-cases e.active) [ inl a ↦ cc | inr a ↦ a ]

module _ (pid : ℕ) (intent : Intent) (s : Intents) (t : IsTable s)
    (room : s.next_handle + 1 < 2 ^ 32) (i : ℕ) (l : i < max_intents)
    (free : (s.intent_table i).active ≡ false) where
  abbrev entry : Entry
  entry = fill_entry pid intent s.next_handle

  abbrev after : Intents
  after = (create_at pid intent s (some i)).1

  next : after.next_handle ≡ s.next_handle + 1
  unfolding create_at
  next = omega arith

  at_new : after.intent_table i ≡ entry
  unfolding create_at
  at_new = update_self s.intent_table i entry

  at_old : (j : ℕ) → j ≢ i → after.intent_table j ≡ s.intent_table j
  unfolding create_at
  at_old j ne = update_ne s.intent_table i entry j (λ e. ne (sym e))

  old-ne-new :
      (j : ℕ)
      → j < max_intents
      → (s.intent_table j).active ≡ true
      → (s.intent_table j).handle ≢ s.next_handle
  old-ne-new j lj a e = let p = t.past j lj a in absurd (omega arith)

  after-distinct :
      (j k : ℕ)
      → j < max_intents
      → k < max_intents
      → (after.intent_table j).active ≡ true
      → (after.intent_table k).active ≡ true
      → (after.intent_table j).handle ≡ (after.intent_table k).handle
      → j ≡ k
  unfolding fill_entry
  after-distinct j k lj lk aj ak e = elim (ℕ_discrete j i) [
    | yes ej ↦ elim (ℕ_discrete k i) [
      | yes ek ↦ ej ∙ sym ek
      | no nk ↦
          absurd
            (old-ne-new k lk (rw (at_old k nk) at ak) (rw (at_old k nk, ej, at_new) at (sym e)))
    ]
    | no nj ↦ elim (ℕ_discrete k i) [
      | yes ek ↦
          absurd (old-ne-new j lj (rw (at_old j nj) at aj) (rw (at_old j nj, ek, at_new) at e))
      | no nk ↦
          t.distinct j k lj lk (rw (at_old j nj) at aj) (rw (at_old k nk) at ak)
            (rw (at_old j nj, at_old k nk) at e)
    ]
  ]

  after-IsTable : IsTable after
  unfolding fill_entry
  after-IsTable = record {
    past = λ j lj a. elim (ℕ_discrete j i) [
      | yes e ↦ rw (e, at_new, next) (omega arith)
      | no ne ↦ rw (at_old j ne, next) (let p = t.past j lj (rw (at_old j ne) at a) in omega arith)
    ];
    distinct = after-distinct;
  }

  -- The search for another handle does not see the new entry.
  find_other : (h : ℕ) → h ≢ s.next_handle → find_intent after h ≡ find_intent s h
  unfolding find_intent fill_entry
  find_other h ne = ap (scan max_intents 0) (
      fun_ext (λ j. elim (ℕ_discrete j i) [
        | yes e ↦ rw (e, at_new, free, ne→beq s.next_handle h (λ q. ne (sym q))) refl
        | no nj ↦ rw (at_old j nj) refl
      ]))

  find_new : find_intent after s.next_handle ≡ some i
  unfolding fill_entry
  find_new =
      find_intent_unique after s.next_handle i after-IsTable l (rw at_new refl) (rw at_new refl)

-- Whether an entry is free.
abbrev pub is_free_entry : Intents → ℕ → Bool
is_free_entry s j = not (s.intent_table j).active

-- A new intent takes the first free entry under a handle that no entry had, and no other entry changes.
-- The handle then leads to the entry, every other handle to where it led, and the table stays well
-- formed: where the task has the capability that the intent wants, an entry is free, and the handles
-- have not run out.
pub intent_create_lem :
    (cap_check : ℕ → Bool) (pid : ℕ) (intent : Intent) (s : Intents) (k h : ℕ)
    → IsTable s
    → s.next_handle + 1 < 2 ^ 32
    → lacks_cap cap_check pid intent ≡ false
    → k < max_intents
    → (s.intent_table k).active ≡ false
    → (i : ℕ) × IsFirst (is_free_entry s) 0 max_intents i
      × (let (r, s') = intent_create cap_check pid intent s in
          (r ≡ some s.next_handle)
          × ((s'.intent_table i) ≡ fill_entry pid intent s.next_handle)
          × ((j : ℕ) → j ≢ i → s'.intent_table j ≡ s.intent_table j)
          × (find_intent s' h ≡ (if h == s.next_handle then some i else find_intent s h))
          × IsTable s')
unfolding intent_create
intent_create_lem cap_check pid intent s k h t room may lk fk =
    let (i, e, f) = scan-ne-none max_intents 0 (is_free_entry s) k (omega arith) lk (rw fk refl) in
    let free = not-active (s.intent_table i) f.hit in
    (
      i,
      f,
      rw (may, e)
          (
            unfold create_at in refl,
            at_new pid intent s t room i f.before free,
            at_old pid intent s t room i f.before free,
            elim (ℕ_discrete h s.next_handle) [
              | yes q ↦
                  rw (q, eq→beq s.next_handle s.next_handle refl)
                    (find_new pid intent s t room i f.before free)
              | no ne ↦
                  rw (ne→beq h s.next_handle ne)
                    (find_other pid intent s t room i f.before free h ne)
            ],
            after-IsTable pid intent s t room i f.before free,
          ),
    )

module _ (s : Intents) (t : IsTable s) (i h : ℕ) (l : i < max_intents)
    (hit : holds s h i ≡ true) where
  abbrev closed : Intents
  closed = (close_at s (some i)).1

  at_closed : (closed.intent_table i).active ≡ false
  unfolding close_at
  at_closed = rw (update_self s.intent_table i _) refl

  at_open : (j : ℕ) → j ≢ i → closed.intent_table j ≡ s.intent_table j
  unfolding close_at
  at_open j ne = update_ne s.intent_table i _ j (λ e. ne (sym e))

  only_there : (j : ℕ) → (closed.intent_table j).active ≡ true → j ≢ i
  only_there j a e = cc (at_closed, rw e at a)

  closed-IsTable : IsTable closed
  closed-IsTable = record {
    past = λ j lj a.
        let ne = only_there j a in
        rw (at_open j ne) (unfold close_at in t.past j lj (rw (at_open j ne) at a));
    distinct = λ j k lj lk aj ak e.
        let nj = only_there j aj in
        let nk = only_there k ak in
        t.distinct j k lj lk (rw (at_open j nj) at aj) (rw (at_open k nk) at ak)
          (rw (at_open j nj, at_open k nk) at e);
  }

  find_closed : find_intent closed h ≡ none
  unfolding find_intent
  find_closed =
      scan_nothing max_intents 0 (holds closed h) {j = max_intents} (omega arith) (λ k _ lk.
        elim (ℕ_discrete k i) [
          | yes e ↦ rw (e, at_closed) refl
          | no ne ↦ rw (at_open k ne) (elim (Bool-cases (holds s h k)) [
            | inr miss ↦ miss
            | inl also ↦
                let (ai, ei) =
                  and_split (s.intent_table i).active ((s.intent_table i).handle == h) hit in
                let (ak, ek) =
                  and_split (s.intent_table k).active ((s.intent_table k).handle == h) also in
                absurd (
                  ne (
                    t.distinct k i lk l ak ai (
                      beq→eq (s.intent_table k).handle h ek
                      ∙ sym (beq→eq (s.intent_table i).handle h ei))))
          ])
        ])

  find_open : (h' : ℕ) → h' ≢ h → find_intent closed h' ≡ find_intent s h'
  unfolding find_intent
  find_open h' ne = ap (scan max_intents 0) (
      fun_ext (λ j. elim (ℕ_discrete j i) [
        | yes e ↦
            let (ai, ei) =
              and_split (s.intent_table i).active ((s.intent_table i).handle == h) hit in
            rw
              (
                e,
                at_closed,
                beq→eq (s.intent_table i).handle h ei,
                ai,
                ne→beq h h' (λ q. ne (sym q)),
              )
              refl
        | no nj ↦ rw (at_open j nj) refl
      ]))

-- Whether a search found something.
abbrev pub is_some : Option ℕ → Bool
is_some none = false
is_some (some i) = true

-- Closing a handle says whether it was in use. From then on it leads nowhere, every other handle leads
-- to where it led, and the table stays well formed.
pub intent_close_lem :
    (s : Intents) (h h' : ℕ)
    → IsTable s
    → let (ok, s') = intent_close h s in
      (ok ≡ is_some (find_intent s h))
      × (find_intent s' h' ≡ (if h' == h then none else find_intent s h'))
      × IsTable s'
unfolding intent_close
intent_close_lem s h h' t =
    elim (scan_cases max_intents 0 (holds s h) {j = max_intents} (omega arith)) [
      | inl (e, _) ↦
          let q : find_intent s h ≡ none = unfold find_intent in e in
          rw q (
            unfold close_at in
            (
              refl,
              elim (ℕ_discrete h' h) [
                | yes p ↦ rw (p, eq→beq h h refl) q
                | no ne ↦ rw (ne→beq h' h ne) refl
              ],
              t,
            ))
      | inr (i, e, f) ↦
          let q : find_intent s h ≡ some i = unfold find_intent in e in
          rw q (
            unfold close_at in refl,
            elim (ℕ_discrete h' h) [
              | yes p ↦ rw (p, eq→beq h h refl) (find_closed s t i h f.before f.hit)
              | no ne ↦ rw (ne→beq h' h ne) (find_open s t i h f.before f.hit h' ne)
            ],
            closed-IsTable s t i h f.before f.hit,
          )
    ]
