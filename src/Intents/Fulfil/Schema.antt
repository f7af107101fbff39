-- ===== src/Intents/Fulfil/Schema.antt =====
-- What an intent lets a task do to the forms.
use hexa_os_alpha_build.Base.{
  ℕ, ◌≡◌, refl, Bool, false, ◌&&◌, ◌||◌, some, ◌==◌, inl, inr, Bool-cases,
}
use hexa_os_alpha_build.Forms.{Forms}
use hexa_os_alpha_build.Intents.{
  Intent, Intents, intent_consume, intent_produce, intent_observe, intent_transform, find_intent,
}
use hexa_os_alpha_build.Intents.Fulfil.{
  Arg, has_bytes, is_form, matches_schema, produce, transform, consume, observe, fulfill_at,
  intent_fulfill,
}

-- An intent that may write, for content of the hash that it names.
abbrev pub may_store : Intent → Arg → Bool
may_store t a =
    (t.intent_type == intent_produce || t.intent_type == intent_transform) && matches_schema t a

module _ (a : Arg) (s : Intents) (f : Forms) (i : ℕ) where
  produce-forms : matches_schema (s.intent_table i).intent a ≡ false → (produce i a s f).forms ≡ f
  unfolding produce
  produce-forms e =
      elim (Bool-cases (has_bytes a && is_form f (s.intent_table i).intent.target_hash)) [
        | inl b ↦ rw (b, e) refl
        | inr b ↦ rw b refl
      ]

  transform-forms :
      matches_schema (s.intent_table i).intent a ≡ false → (transform i a s f).forms ≡ f
  unfolding transform
  transform-forms e =
      elim (Bool-cases (has_bytes a && is_form f (s.intent_table i).intent.target_hash)) [
        | inl b ↦ rw (b, e) refl
        | inr b ↦ rw b refl
      ]

  consume-forms : (consume i a s f).forms ≡ f
  unfolding consume
  consume-forms = elim (Bool-cases (has_bytes a)) [
    | inr b ↦ rw b refl
    | inl b ↦ rw b (elim (Bool-cases (is_form f (s.intent_table i).intent.target_hash)) [
      | inl d ↦ rw d refl
      | inr d ↦ rw d refl
    ])
  ]

  observe-forms : (observe i a s f).forms ≡ f
  unfolding observe
  observe-forms =
      elim (Bool-cases (has_bytes a && is_form f (s.intent_table i).intent.target_hash)) [
        | inl b ↦ rw b refl
        | inr b ↦ rw b refl
      ]

  fulfill_at-forms :
      may_store (s.intent_table i).intent a ≡ false → (fulfill_at a s f (some i)).forms ≡ f
  unfolding fulfill_at
  fulfill_at-forms e =
      let kind = (s.intent_table i).intent.intent_type in
      elim (Bool-cases (kind == intent_produce)) [
        | inl p ↦ rw p (produce-forms (rw p at e))
        | inr p ↦ rw p (elim (Bool-cases (kind == intent_consume)) [
          | inl q ↦ rw q consume-forms
          | inr q ↦ rw q (elim (Bool-cases (kind == intent_observe)) [
            | inl r ↦ rw r observe-forms
            | inr r ↦ rw r (elim (Bool-cases (kind == intent_transform)) [
              | inl t ↦ rw t (transform-forms (rw (p, t) at e))
              | inr t ↦ rw t refl
            ])
          ])
        ])
      ]

-- Through a handle whose intent does not write, or writes only content of another hash than the one
-- given, no form changes, whatever the buffer and the target.
pub fulfill-forms :
    (handle : ℕ) (a : Arg) (s : Intents) (f : Forms) (i : ℕ)
    → find_intent s handle ≡ some i
    → may_store (s.intent_table i).intent a ≡ false
    → (intent_fulfill handle a s f).forms ≡ f
unfolding intent_fulfill
fulfill-forms handle a s f i e h = rw e (fulfill_at-forms a s f i h)
