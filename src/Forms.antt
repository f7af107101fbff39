-- ===== src/Forms.antt =====
-- The form table of hexa.c: named pieces of text with an owner and a mode.
-- A name is its text: the field has 32 bytes, `cmd_mkform` copies a name of any length into it, and what
-- a name of 32 or more bytes does to the entry has no meaning here, so the theorems that such a name
-- could break ask for a shorter one. Content is memory that `kmalloc` gave, so `kmalloc` is an argument;
-- no two forms share it.
pub mod Commands
pub mod Editing
pub mod Dispatch
pub mod Fitting
pub mod Validity
pub mod Bounds
pub mod Access
pub mod Lookup
pub mod Viewing
mod Tests
use hexa_os_alpha_build.Base.{
  ℕ, zero, suc, ◌+◌, ◌-◌, ◌%◌, ◌^◌, Bool, true, false, not, ◌&&◌, ◌||◌, Option, none, some, List,
  [], ◌∷◌, ltb, leb, ◌==◌, if◌then◌else◌, scan, update, bit_and,
}
use hexa_os_alpha_build.Text.{Buffer, strcmp, memcpy}

abbrev pub max_forms : ℕ
max_forms = 64

abbrev pub perm_owner_r : ℕ
perm_owner_r = 0x100

abbrev pub perm_owner_w : ℕ
perm_owner_w = 0x080

abbrev pub perm_oth_r : ℕ
perm_oth_r = 0x004

abbrev pub perm_oth_w : ℕ
perm_oth_w = 0x002

-- owner rw-, group r--, others r--
abbrev pub perm_default : ℕ
perm_default = 0x1a4

-- `hexa_formentry`
pub record Form : Type 0 where
  pub name : List ℕ
  pub has_content : Bool
  pub content : Buffer
  pub size : ℕ
  pub capacity : ℕ
  pub owner : ℕ
  pub mode : ℕ

pub record Forms : Type 0 where
  pub form_table : ℕ → Form
  pub form_count : ℕ

-- What a command prints, where it says how it went.
pub data Message : Type 0 where
  usage store_full form_exists no_memory created not_found denied deleted written appended : Message
  mode_changed only_root no_user owner_changed saved renamed : Message

-- What `kmalloc` returns for a size: nothing, or a block as it was found.
abbrev pub Kmalloc : Type 0
Kmalloc = ℕ → Option Buffer

-- a <= b for two `int`s
abbrev pub int_le : ℕ → ℕ → Bool
int_le a b = leb ((a + 2 ^ 31) % 2 ^ 32) ((b + 2 ^ 31) % 2 ^ 32)

-- `form_ensure_cap`, on the form that the index names.
grow : ℕ → Form → Option Buffer → Bool × Form
grow newcap f none = (false, f)
grow newcap f (some block) = (
  true,
  record f {
    has_content = true;
    content = if f.has_content then memcpy f.size 0 block f.content else block;
    capacity = newcap;
  },
)

pub form_ensure_cap : Kmalloc → Form → ℕ → Bool × Form
form_ensure_cap kmalloc f needed =
    let newcap = (needed + 1024) % 2 ^ 32 in
    if int_le needed f.capacity then (true, f) else grow newcap f (kmalloc newcap)

abbrev pub is_named : Forms → List ℕ → ℕ → Bool
is_named s name i = strcmp (s.form_table i).name name == 0

unfoldable pub find_form : Forms → List ℕ → Option ℕ
find_form s name = scan s.form_count 0 (is_named s name)

-- The `i`th form stands for the outcome -1 of `find_form` when there is none.
unfoldable pub check_perm : ℕ → Forms → ℕ → Bool → Bool
check_perm u_cur s i want_write =
    let f = s.form_table i in
    let has = λ (bit : ℕ). not (bit_and f.mode bit == 0) in
    if not (ltb i s.form_count)
    then true
    else if u_cur == 0
    then false
    else if f.owner == u_cur
    then (if want_write then not (has perm_owner_w) else not (has perm_owner_r))
    else if not want_write && has perm_oth_r
    then false
    else not (want_write && has perm_oth_w)

-- `cmd_mkform`
fresh_form : List ℕ → Buffer → ℕ → Form
fresh_form name block u_cur = record {
  name = name;
  has_content = true;
  content = update block 0 0;
  size = 0;
  capacity = 1;
  owner = u_cur;
  mode = perm_default;
}

-- With the name already in its place, `kmalloc` may fail.
place_form : Option Buffer → ℕ → List ℕ → Forms → Message × Forms
place_form none u_cur name s =
    let f = record (s.form_table s.form_count) { name = name; has_content = false } in
    (Message.no_memory, record s { form_table = update s.form_table s.form_count f })
place_form (some block) u_cur name s = (
  Message.created,
  record {
    form_table = update s.form_table s.form_count (fresh_form name block u_cur);
    form_count = s.form_count + 1;
  },
)

pub cmd_mkform : Kmalloc → ℕ → List ℕ → Forms → Message × Forms
cmd_mkform kmalloc u_cur [] s = (Message.usage, s)
cmd_mkform kmalloc u_cur (c ∷ cs) s =
    if leb max_forms s.form_count then (Message.store_full, s) else elim (find_form s (c ∷ cs)) [
      | some i ↦ (Message.form_exists, s)
      | none ↦ place_form (kmalloc 1) u_cur (c ∷ cs) s
    ]

-- The loop of `cmd_delete` that moves the later forms down, with `n` rounds left.
pub shift_down : ℕ → ℕ → (ℕ → Form) → ℕ → Form
shift_down zero i t = t
shift_down (suc n) i t = shift_down n (i + 1) (update t i (t (i + 1)))

remove_at : ℕ → Forms → Forms
remove_at i s = record {
  form_table = shift_down (s.form_count - 1 - i) i s.form_table;
  form_count = s.form_count - 1;
}

-- `cmd_delete`, with what `find_form` returned.
pub delete_found : ℕ → Forms → Option ℕ → Message × Forms
delete_found u_cur s none = (Message.not_found, s)
delete_found u_cur s (some i) =
    if check_perm u_cur s i true then (Message.denied, s) else (Message.deleted, remove_at i s)

pub cmd_delete : ℕ → List ℕ → Forms → Message × Forms
cmd_delete u_cur name s = delete_found u_cur s (find_form s name)
