-- ===== src/Intents.antt =====
-- intent.c: the table of intents, through which a task reads and writes forms. An `int` is its bit
-- pattern, and `minus_one` the result -1. What `hexafs_cap_check` answers is an argument.
pub mod Fulfil
pub mod Compat
pub mod Handles
mod Tests
use hexa_os_alpha_build.Base.{
  ℕ, zero, suc, ◌+◌, ◌-◌, ◌%◌, ◌^◌, Bool, true, false, not, ◌&&◌, ◌||◌, Option, none, some, List,
  [], ◌∷◌, ltb, leb, ◌==◌, if◌then◌else◌, scan, update, is_neg,
}

abbrev pub max_intents : ℕ
max_intents = 64

abbrev pub intent_consume : ℕ
intent_consume = 1

abbrev pub intent_produce : ℕ
intent_produce = 2

abbrev pub intent_observe : ℕ
intent_observe = 3

abbrev pub intent_transform : ℕ
intent_transform = 4

abbrev pub minus_one : ℕ
minus_one = 2 ^ 32 - 1

-- `hexaos_intent_t`
pub record Intent : Type 0 where
  pub intent_type : ℕ
  pub target_hash : ℕ
  pub schema_hash : ℕ
  pub filter_offset : ℕ
  pub flags : ℕ

-- `intent_entry_t`
pub record Entry : Type 0 where
  pub active : Bool
  pub pid : ℕ
  pub intent : Intent
  pub handle : ℕ
  pub buffer_block : ℕ
  pub buffer_len : ℕ

pub record Intents : Type 0 where
  pub intent_table : ℕ → Entry
  pub next_handle : ℕ

abbrev pub blank_intent : Intent
blank_intent = record {
  intent_type = 0;
  target_hash = 0;
  schema_hash = 0;
  filter_offset = 0;
  flags = 0;
}

abbrev pub blank_entry : Entry
blank_entry = record {
  active = false;
  pid = 0;
  intent = blank_intent;
  handle = 0;
  buffer_block = 0;
  buffer_len = 0;
}

pub intent_init : Intents
intent_init = record { intent_table = λ _. blank_entry; next_handle = 1 }

-- Whether the intent wants a capability that the task lacks.
pub lacks_cap : (ℕ → Bool) → ℕ → Intent → Bool
lacks_cap cap_check pid intent =
    (intent.intent_type == intent_produce || intent.intent_type == intent_transform)
    && (not (cap_check pid) && not (pid == 0))

-- The entry that `intent_create` fills in.
pub fill_entry : ℕ → Intent → ℕ → Entry
fill_entry pid intent handle = record {
  active = true;
  pid = pid;
  intent = intent;
  handle = handle;
  buffer_block = 0;
  buffer_len = 0;
}

pub create_at : ℕ → Intent → Intents → Option ℕ → Option ℕ × Intents
create_at pid intent s none = (none, s)
create_at pid intent s (some i) = (
  some s.next_handle,
  record {
    intent_table = update s.intent_table i (fill_entry pid intent s.next_handle);
    next_handle = (s.next_handle + 1) % 2 ^ 32;
  },
)

-- `intent_create`: the handle, or `none` for -1.
pub intent_create : (ℕ → Bool) → ℕ → Intent → Intents → Option ℕ × Intents
intent_create cap_check pid intent s =
    if lacks_cap cap_check pid intent
    then (none, s)
    else create_at pid intent s (scan max_intents 0 (λ i. not (s.intent_table i).active))

-- The search that every operation on a handle makes.
abbrev pub holds : Intents → ℕ → ℕ → Bool
holds s handle i = (s.intent_table i).active && (s.intent_table i).handle == handle

pub find_intent : Intents → ℕ → Option ℕ
find_intent s handle = scan max_intents 0 (holds s handle)

abbrev pub set_entry : Intents → ℕ → Entry → Intents
set_entry s i e = record s { intent_table = update s.intent_table i e }

pub close_at : Intents → Option ℕ → Bool × Intents
close_at s none = (false, s)
close_at s (some i) = (true, set_entry s i (record (s.intent_table i) { active = false }))

-- `intent_close`: whether it returns 0.
pub intent_close : ℕ → Intents → Bool × Intents
intent_close handle s = close_at s (find_intent s handle)

-- The loop of `intent_table_active_count`, with `n` entries left.
count_from : ℕ → ℕ → Intents → ℕ
count_from zero i s = 0
count_from (suc n) i s = (if (s.intent_table i).active then 1 else 0) + count_from n (i + 1) s

pub intent_table_active_count : Intents → ℕ
intent_table_active_count s = count_from max_intents 0 s
