-- ===== src/Intents/Fulfil/Transfer.antt =====
-- What a producer hands over a form is what a consumer of the form gets.
use hexa_os_alpha_build.Base.{
  ℕ, ◌^◌, ◌≤◌, ◌<◌, ◌≡◌, refl, ap, ap₂, fun_ext, arith, ◌∙◌, Bool, true, ◌&&◌, some, ◌==◌, ltb, min,
  if◌then◌else◌, update, update_self, ap-update, scan, eq→beq,
}
use hexa_os_alpha_build.Text.{Buffer, memcpy_lem}
use hexa_os_alpha_build.Forms.{Form, Forms}
use hexa_os_alpha_build.Intents.{
  Intent, Entry, Intents, intent_consume, intent_produce, find_intent, set_entry,
}
use hexa_os_alpha_build.Intents.Fulfil.{
  Arg, int_min, has_bytes, is_form, fill_form, bytes_past, store_form, matches_schema, load_form,
  produce, consume, fulfill_at, intent_fulfill,
}

-- A buffer that is given, of a length that is a positive `int`.
pub record IsArg (a : Arg) : Type 0 where
  pub given : a.given ≡ true
  pub positive : 0 < a.len
  pub limit : a.len < 2 ^ 31

has_bytes_lem : (a : Arg) → IsArg a → has_bytes a ≡ true
has_bytes_lem a v = let e = v.given in let p = v.positive in let l = v.limit in ground arith

is_form_lem : (f : Forms) (i : ℕ) → i < f.form_count → f.form_count ≤ 64 → is_form f i ≡ true
is_form_lem f i h l = ground arith

-- What a caller's buffer holds after the first `n` bytes of a content were copied into it.
abbrev pub copied : ℕ → Buffer → Buffer → Buffer
copied n content old k = if ltb k n then content k else old k

-- The content of a form after a write of a buffer from its start: the buffer, the null, and the rest
-- as it was.
abbrev pub overwritten : Form → Arg → Buffer
overwritten g a k = if ltb k a.len then a.bytes k else if k == a.len then 0 else g.content k

-- The size of a form after the write, which never shortens it.
abbrev pub size_after : Form → Arg → ℕ
size_after g a = if ltb g.size a.len then a.len else g.size

module _ (g : Form) (a : Arg) (v : IsArg a) (l : a.len ≤ 65528) where
  whole : int_min a.len 65528 ≡ a.len
  whole = ground arith

  fill_form-content : (k : ℕ) → (fill_form g a).content k ≡ overwritten g a k
  unfolding fill_form
  fill_form-content k = rw whole (ground (arith, memcpy_lem a.len 0 g.content a.bytes k))

  fill_form-size : g.size < 2 ^ 31 → (fill_form g a).size ≡ size_after g a
  unfolding fill_form
  fill_form-size h = rw whole (ground arith)

  no_overrun : a.len < g.capacity → bytes_past g a ≡ 0
  unfolding bytes_past
  no_overrun h = rw whole (omega arith)

module _ (f : Forms) (idx : ℕ) (l : idx < f.form_count) (few : f.form_count ≤ 64) where
  -- A produce that passes the checks stores.
  produce-stored :
      (p : ℕ) (a : Arg) (s : Intents) (i : ℕ)
      → find_intent s p ≡ some i
      → (s.intent_table i).intent.intent_type ≡ intent_produce
      → (s.intent_table i).intent.target_hash ≡ idx
      → IsArg a
      → matches_schema (s.intent_table i).intent a ≡ true
      → intent_fulfill p a s f ≡ store_form i a s f
  unfolding intent_fulfill fulfill_at produce
  produce-stored p a s i e kind target v m =
      let t : is_form f (s.intent_table i).intent.target_hash ≡ true =
        rw target (is_form_lem f idx l few) in
      rw e (
        rw
          (
            eq→beq (s.intent_table i).intent.intent_type intent_produce kind,
            has_bytes_lem a v,
            t,
            m,
          )
          refl)

  -- A consume loads the form.
  pub consume-loaded :
      (c : ℕ) (b : Arg) (s : Intents) (j : ℕ)
      → find_intent s c ≡ some j
      → (s.intent_table j).intent.intent_type ≡ intent_consume
      → (s.intent_table j).intent.target_hash ≡ idx
      → IsArg b
      → intent_fulfill c b s f ≡ load_form idx b s f
  unfolding intent_fulfill fulfill_at consume
  consume-loaded c b s j e kind target v =
      rw e (rw kind (rw (has_bytes_lem b v, target, is_form_lem f idx l few) refl))

-- How much a load copies, and what the buffer then holds.
pub load_form-ret :
    (idx : ℕ) (b : Arg) (s : Intents) (f : Forms)
    → IsArg b
    → (f.form_table idx).size < 2 ^ 31
    → (load_form idx b s f).ret ≡ min b.len (f.form_table idx).size
load_form-ret idx b s f v h = let l = v.limit in ground arith

pub load_form-buffer :
    (idx : ℕ) (b : Arg) (s : Intents) (f : Forms) (k : ℕ)
    → IsArg b
    → (f.form_table idx).size < 2 ^ 31
    → (load_form idx b s f).buffer k
      ≡ copied (min b.len (f.form_table idx).size) (f.form_table idx).content b.bytes k
load_form-buffer idx b s f k v h =
    let g = f.form_table idx in
    let n = load_form-ret idx b s f v h in
    rw n (ground (arith, memcpy_lem (min b.len g.size) 0 b.bytes g.content k))

-- A change of an entry that keeps whether and under which handle it is active.
find_intent-set_entry :
    (s : Intents) (i : ℕ) (e : Entry) (h : ℕ)
    → e.active ≡ (s.intent_table i).active
    → e.handle ≡ (s.intent_table i).handle
    → find_intent (set_entry s i e) h ≡ find_intent s h
unfolding find_intent
find_intent-set_entry s i e h q q' = ap (scan 64 0) (
    fun_ext (λ j.
      ap₂ (λ (x : Bool) (y : ℕ). x && y == h)
        (ap-update (λ (t : Entry). t.active) s.intent_table i e q j)
        (ap-update (λ (t : Entry). t.handle) s.intent_table i e q' j)))

-- A task fulfils a produce intent for a form with a buffer of 1 to 65528 bytes that is shorter than the
-- block of the form and of the hash that the intent names, or of any where it names none: the call
-- returns the number of bytes, and nothing goes behind the block. When a task then fulfils a consume
-- intent for the same form, with a buffer of any length from 1 on, the call returns that length or the
-- size of the form, whichever is less, where the size is the old one or the number of bytes produced,
-- whichever is more. So many places of the buffer hold what was produced, the null after it and the old
-- content behind that, and every other place what it held.
pub consume-produce :
    (p c : ℕ) (a b : Arg) (s : Intents) (f : Forms) (i j k : ℕ)
    → find_intent s p ≡ some i
    → (s.intent_table i).intent.intent_type ≡ intent_produce
    → find_intent s c ≡ some j
    → (s.intent_table j).intent.intent_type ≡ intent_consume
    → (s.intent_table j).intent.target_hash ≡ (s.intent_table i).intent.target_hash
    → (s.intent_table i).intent.target_hash < f.form_count
    → f.form_count ≤ 64
    → (f.form_table (s.intent_table i).intent.target_hash).size < 2 ^ 31
    → IsArg a
    → IsArg b
    → a.len ≤ 65528
    → a.len < (f.form_table (s.intent_table i).intent.target_hash).capacity
    → matches_schema (s.intent_table i).intent a ≡ true
    → let g = f.form_table (s.intent_table i).intent.target_hash in
      let n = min b.len (size_after g a) in
      let o = intent_fulfill p a s f in
      let o' = intent_fulfill c b o.intents o.forms in
      (o.ret ≡ a.len)
      × (o.past_form ≡ 0)
      × (o'.ret ≡ n)
      × (o'.buffer k ≡ copied n (overwritten g a) b.bytes k)
unfolding store_form
consume-produce p c a b s f i j k ep kp ec kc tc l few size va vb small room m =
    let idx = (s.intent_table i).intent.target_hash in
    let e : Entry = record (s.intent_table i) { buffer_len = int_min a.len 65528 } in
    let s' = set_entry s i e in
    let g = f.form_table idx in
    let g' = fill_form g a in
    let f' : Forms = record f { form_table = update f.form_table idx g' } in
    let now = update_self f.form_table idx g' in
    let sized = fill_form-size g a va small size in
    let less : (fill_form g a).size < 2 ^ 31 = rw sized (ground (arith, va.limit)) in
    let same = ap-update (λ (t : Entry). t.intent) s.intent_table i e refl j in
    let loaded : intent_fulfill c b s' f' ≡ load_form idx b s' f' =
      consume-loaded f' idx l few c b s' j (find_intent-set_entry s i e c refl refl ∙ ec)
        (ap (λ (t : Intent). t.intent_type) same ∙ kc)
        (ap (λ (t : Intent). t.target_hash) same ∙ tc) vb in
    let within : (f'.form_table idx).size < 2 ^ 31 = rw now less in
    let ret : (load_form idx b s' f').ret ≡ min b.len (size_after g a) =
      load_form-ret idx b s' f' vb within ∙ rw (now, sized) refl in
    let buffer : (load_form idx b s' f').buffer k
        ≡ copied (min b.len (size_after g a)) (overwritten g a) b.bytes k =
      load_form-buffer idx b s' f' k vb within
      ∙ rw (now, sized, fill_form-content g a va small k) refl in
    rw (produce-stored f idx l few p a s i ep kp refl va m)
      (rw loaded (whole g a va small, no_overrun g a va small room, ret, buffer))
