-- ===== src/Intents/Fulfil.antt =====
-- `intent_fulfill` of intent.c.
pub mod Schema
pub mod Transfer
use hexa_os_alpha_build.Base.{
  ℕ, ◌+◌, ◌-◌, ◌%◌, ◌^◌, Bool, true, false, not, ◌&&◌, ◌||◌, Option, none, some, ltb, leb, ◌==◌,
  if◌then◌else◌, update, is_neg,
}
use hexa_os_alpha_build.Text.{Buffer, memcpy}
use hexa_os_alpha_build.Struct.{hexafs_content_hash}
use hexa_os_alpha_build.Forms.{Form, Forms, int_le}
use hexa_os_alpha_build.Intents.{
  Intent, Entry, Intents, intent_consume, intent_produce, intent_observe, intent_transform,
  minus_one, find_intent, set_entry,
}

-- The caller's buffer: whether there is one, its bytes, and `len`.
pub record Arg : Type 0 where
  pub given : Bool
  pub bytes : Buffer
  pub len : ℕ

-- What the call leaves: its result, the caller's buffer, and the state. Where a consumer's target is no
-- form, the code copies the memory of the entry itself: `from_entry` is how much of it. Nothing asks
-- whether a form's block has room for what is written: `past_form` is how many bytes go behind it.
pub record Outcome : Type 0 where
  pub ret : ℕ
  pub buffer : Buffer
  pub from_entry : ℕ
  pub past_form : ℕ
  pub intents : Intents
  pub forms : Forms

abbrev unchanged : ℕ → Arg → Intents → Forms → Outcome
unchanged ret a s f = record {
  ret = ret;
  buffer = a.bytes;
  from_entry = 0;
  past_form = 0;
  intents = s;
  forms = f;
}

-- min of two `int`s
abbrev pub int_min : ℕ → ℕ → ℕ
int_min a b = if int_le b a then b else a

-- buffer && len > 0
abbrev pub has_bytes : Arg → Bool
has_bytes a = a.given && not (int_le a.len 0)

-- idx >= 0 && idx < form_count
abbrev pub is_form : Forms → ℕ → Bool
is_form f idx = not (is_neg idx) && ltb idx f.form_count

-- The form with the first bytes of the buffer, which may only lengthen it.
pub fill_form : Form → Arg → Form
fill_form g a =
    let copy = int_min a.len 65528 in
    record g {
      content = update (memcpy copy 0 g.content a.bytes) copy 0;
      size = if int_le copy g.size then g.size else copy;
    }

-- The bytes of the buffer and the null after them that lie behind the block of the form.
pub bytes_past : Form → Arg → ℕ
bytes_past g a = int_min a.len 65528 + 1 - g.capacity

-- A write that passed the checks.
pub store_form : ℕ → Arg → Intents → Forms → Outcome
store_form i a s f =
    let e = s.intent_table i in
    let idx = e.intent.target_hash in
    let copy = int_min a.len 65528 in
    record {
      ret = copy;
      buffer = a.bytes;
      from_entry = 0;
      past_form = bytes_past (f.form_table idx) a;
      intents = set_entry s i (record e { buffer_len = copy });
      forms = record f { form_table = update f.form_table idx (fill_form (f.form_table idx) a) };
    }

-- The schema is a hash of the whole content; 0 asks for none.
abbrev pub matches_schema : Intent → Arg → Bool
matches_schema t a = t.schema_hash == 0 || hexafs_content_hash a.bytes a.len == t.schema_hash

abbrev write_checked : ℕ → Arg → Intents → Forms → Outcome
write_checked i a s f =
    if not (matches_schema (s.intent_table i).intent a)
    then unchanged minus_one a s f
    else store_form i a s f

pub produce : ℕ → Arg → Intents → Forms → Outcome
produce i a s f =
    let e = s.intent_table i in
    if has_bytes a && is_form f e.intent.target_hash then write_checked i a s f else record {
      ret = a.len;
      buffer = a.bytes;
      from_entry = 0;
      past_form = 0;
      intents = set_entry s i (record e { buffer_block = 0; buffer_len = a.len });
      forms = f;
    }

pub transform : ℕ → Arg → Intents → Forms → Outcome
transform i a s f =
    if has_bytes a && is_form f (s.intent_table i).intent.target_hash
    then write_checked i a s f
    else unchanged 0 a s f

abbrev pub load_form : ℕ → Arg → Intents → Forms → Outcome
load_form idx a s f =
    let g = f.form_table idx in
    let copy = int_min a.len g.size in
    record {
      ret = copy;
      buffer = memcpy copy 0 a.bytes g.content;
      from_entry = 0;
      past_form = 0;
      intents = s;
      forms = f;
    }

pub consume : ℕ → Arg → Intents → Forms → Outcome
consume i a s f =
    let e = s.intent_table i in
    let copy = int_min a.len e.buffer_len in
    if not (has_bytes a)
    then unchanged 0 a s f
    else if is_form f e.intent.target_hash
    then load_form e.intent.target_hash a s f
    else record {
      ret = copy;
      buffer = a.bytes;
      from_entry = if int_le copy 0 then 0 else copy;
      past_form = 0;
      intents = s;
      forms = f;
    }

pub observe : ℕ → Arg → Intents → Forms → Outcome
observe i a s f =
    let idx = (s.intent_table i).intent.target_hash in
    if has_bytes a && is_form f idx then load_form idx a s f else unchanged 0 a s f

pub fulfill_at : Arg → Intents → Forms → Option ℕ → Outcome
fulfill_at a s f none = unchanged minus_one a s f
fulfill_at a s f (some i) =
    let kind = (s.intent_table i).intent.intent_type in
    if kind == intent_produce
    then produce i a s f
    else if kind == intent_consume
    then consume i a s f
    else if kind == intent_observe
    then observe i a s f
    else if kind == intent_transform
    then transform i a s f
    else unchanged 0 a s f

pub intent_fulfill : ℕ → Arg → Intents → Forms → Outcome
intent_fulfill handle a s f = fulfill_at a s f (find_intent s handle)
