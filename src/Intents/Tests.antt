-- ===== src/Intents/Tests.antt =====
-- The theorems on intents, at a table with a producer and a consumer.
use hexa_os_alpha_build.Base.{
  ℕ, ◌+◌, ◌≡◌, refl, arith, Bool, true, false, none, some, [], ◌∷◌, ◌==◌, if◌then◌else◌, ltb, scan,
  IsFirst, min, ◌≢◌,
}
use hexa_os_alpha_build.Text.{strcmp}
use hexa_os_alpha_build.Forms.{Form, Forms, Kmalloc, find_form}
use hexa_os_alpha_build.Intents.{
  Intent, Intents, blank_entry, fill_entry, lacks_cap, find_intent, intent_create, intent_close,
}
use hexa_os_alpha_build.Intents.Handles.{
  IsTable, is_free_entry, is_some, intent_create_lem, intent_close_lem,
}
use hexa_os_alpha_build.Intents.Fulfil.{Arg, intent_fulfill}
use hexa_os_alpha_build.Intents.Fulfil.Schema.{fulfill-forms}
use hexa_os_alpha_build.Intents.Fulfil.Transfer.{
  IsArg, size_after, copied, overwritten, consume-produce,
}
use hexa_os_alpha_build.Intents.Compat.{intent_compat_open, intent_compat_read, read-open}

abbrev intent_of : ℕ → Intent
intent_of kind = record {
  intent_type = kind;
  target_hash = 0;
  schema_hash = 0;
  filter_offset = 0;
  flags = 1;
}

-- Handle 1 produces for form 0, and handle 2 consumes it.
abbrev two_intents : Intents
two_intents = record {
  intent_table = λ i. record blank_entry {
    active = ltb i 2;
    intent = intent_of (if i == 0 then 2 else 1);
    handle = i + 1;
  };
  next_handle = 3;
}

two_intents-IsTable : IsTable two_intents
two_intents-IsTable = record {
  past = λ i _ a. ground arith;
  distinct = λ i j _ _ _ _ e. omega arith;
}

abbrev anyone : ℕ → Bool
anyone pid = true

may_create : lacks_cap anyone 4 (intent_of 2) ≡ false
unfolding lacks_cap
may_create = refl

intent_create_lem_example :
    (i : ℕ) × IsFirst (is_free_entry two_intents) 0 64 i
    × (let (r, s') = intent_create anyone 4 (intent_of 2) two_intents in
        (r ≡ some 3)
        × ((s'.intent_table i) ≡ fill_entry 4 (intent_of 2) 3)
        × ((j : ℕ) → j ≢ i → s'.intent_table j ≡ two_intents.intent_table j)
        × (find_intent s' 1 ≡ (if 1 == 3 then some i else find_intent two_intents 1))
        × IsTable s')
intent_create_lem_example =
    intent_create_lem anyone 4 (intent_of 2) two_intents 5 1 two_intents-IsTable (omega arith)
      may_create (omega arith) refl

intent_close_lem_example :
    let (ok, s') = intent_close 2 two_intents in
    (ok ≡ is_some (find_intent two_intents 2))
    × (find_intent s' 2 ≡ (if 2 == 2 then none else find_intent two_intents 2))
    × IsTable s'
intent_close_lem_example = intent_close_lem two_intents 2 2 two_intents-IsTable

abbrev text_form : Form
text_form = record {
  name = b'a' ∷ [];
  has_content = true;
  content = λ i. i;
  size = 4;
  capacity = 8;
  owner = 1;
  mode = 0x1a4;
}

abbrev one_form : Forms
one_form = record { form_table = λ _. text_form; form_count = 1 }

abbrev three_bytes : Arg
three_bytes = record { given = true; bytes = λ i. i + 65; len = 3 }

three_bytes-IsArg : IsArg three_bytes
three_bytes-IsArg = record { given = refl; positive = omega arith; limit = omega arith }

first_handle : find_intent two_intents 1 ≡ some 0
unfolding find_intent scan
first_handle = refl

second_handle : find_intent two_intents 2 ≡ some 1
unfolding find_intent scan
second_handle = refl

fulfill-forms_example : (intent_fulfill 2 three_bytes two_intents one_form).forms ≡ one_form
fulfill-forms_example = fulfill-forms 2 three_bytes two_intents one_form 1 second_handle refl

consume-produce_example :
    let g = text_form in
    let n = min 3 (size_after g three_bytes) in
    let o = intent_fulfill 1 three_bytes two_intents one_form in
    let o' = intent_fulfill 2 three_bytes o.intents o.forms in
    (o.ret ≡ 3)
    × (o.past_form ≡ 0)
    × (o'.ret ≡ n)
    × (o'.buffer 2 ≡ copied n (overwritten g three_bytes) three_bytes.bytes 2)
consume-produce_example =
    consume-produce 1 2 three_bytes three_bytes two_intents one_form 0 1 2 first_handle refl
      second_handle refl refl (omega arith) (omega arith) (omega arith) three_bytes-IsArg
      three_bytes-IsArg (omega arith) (omega arith) refl

a-there : find_form one_form (b'a' ∷ []) ≡ some 0
unfolding find_form scan strcmp
a-there = refl

abbrev no_memory : Kmalloc
no_memory n = none

read-open_example :
    let (r, s', f') = intent_compat_open anyone no_memory 1 4 (b'a' ∷ []) 0 two_intents one_form in
    let o = intent_compat_read anyone no_memory 1 4 3 three_bytes s' f' in
    (r ≡ some 3)
    × (f' ≡ one_form)
    × (o.ret ≡ 3)
    × (o.buffer 2 ≡ copied 3 text_form.content three_bytes.bytes 2)
    × (o.forms ≡ one_form)
read-open_example =
    read-open anyone no_memory 1 4 (b'a' ∷ []) 0 two_intents one_form three_bytes 0 5 2
      two_intents-IsTable (omega arith) (omega arith) refl a-there refl (omega arith) (omega arith)
      (omega arith) three_bytes-IsArg
