-- ===== src/Forms/Fitting.antt =====
-- Whether a form has the memory for its text, and what form_ensure_cap gives.
use hexa_os_alpha_build.Base.{
  ℕ, ◌+◌, ◌%◌, ◌^◌, ◌≤◌, ◌<◌, ◌≡◌, refl, arith, Bool, true, false, Option, none, some, ◌⊎◌, inl,
  inr, Bool-cases,
}
use native.Mathlib.Decide.{dec_lt}
use hexa_os_alpha_build.Text.{Buffer}
use hexa_os_alpha_build.Forms.{Form, Kmalloc, int_le, grow, form_ensure_cap}

-- The text of the form and the null after it have room.
pub record Fits (f : Form) : Type 0 where
  pub has : f.has_content ≡ true
  pub room : f.size < f.capacity
  pub limit : f.capacity < 2 ^ 30

-- No block of a gigabyte is ever given.
abbrev pub IsBounded : Kmalloc → Type 0
IsBounded kmalloc = (n : ℕ) → 2 ^ 30 ≤ n → kmalloc n ≡ none

-- What a call for room gives, when it gives it: the old form with at least that room.
pub record Grown (f f' : Form) (needed : ℕ) : Type 0 where
  pub has : f'.has_content ≡ true
  pub size : f'.size ≡ f.size
  pub name : f'.name ≡ f.name
  pub owner : f'.owner ≡ f.owner
  pub mode : f'.mode ≡ f.mode
  pub room : needed ≤ f'.capacity
  pub limit : f'.capacity < 2 ^ 30

pub data Ensured (f : Form) (needed : ℕ) : Bool × Form → Type 0 where
  grown : (f' : Form) → Grown f f' needed → Ensured f needed (true, f')
  refused : Ensured f needed (false, f)

grow_cases :
    (f : Form) (needed : ℕ) (r : Option Buffer)
    → needed + 1024 < 2 ^ 30 ⊎ (r ≡ none)
    → Ensured f needed (grow (needed + 1024) f r)
unfolding grow
grow_cases f needed none h = refused
grow_cases f needed (some b) (inl h) = grown _ (record {
  has = refl;
  size = refl;
  name = refl;
  owner = refl;
  mode = refl;
  room = omega arith;
  limit = h;
})
grow_cases f needed (some b) (inr e) = absurd (cc)

pub form_ensure_cap_cases :
    (kmalloc : Kmalloc) (f : Form) (needed : ℕ)
    → IsBounded kmalloc
    → Fits f
    → needed < 2 ^ 31
    → Ensured f needed (form_ensure_cap kmalloc f needed)
unfolding form_ensure_cap
form_ensure_cap_cases kmalloc f needed b v h = elim (Bool-cases (int_le needed f.capacity)) [
  | inl e ↦ rw e (
      grown f (record {
        has = v.has;
        size = refl;
        name = refl;
        owner = refl;
        mode = refl;
        room = ground (arith, v.limit);
        limit = v.limit;
      }))
  | inr e ↦
      let w : (needed + 1024) % 2 ^ 32 ≡ needed + 1024 = omega arith in
      rw (e, w)
        (grow_cases f needed (kmalloc (needed + 1024)) (elim (dec_lt (needed + 1024) (2 ^ 30)) [
          | yes l ↦ inl l
          | no l ↦ inr (b (needed + 1024) (omega arith))
        ]))
]

pub form_ensure_cap_enough :
    (kmalloc : Kmalloc) (f : Form) (needed : ℕ)
    → int_le needed f.capacity ≡ true
    → form_ensure_cap kmalloc f needed ≡ (true, f)
unfolding form_ensure_cap
form_ensure_cap_enough kmalloc f needed e = rw e refl
