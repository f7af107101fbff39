-- ===== src/Text/Password.antt =====
-- The password hashes of hexa.c, which a table of users keeps as text.
use hexa_os_alpha_build.Base.{
  ℕ, zero, suc, ◌+◌, ◌-◌, ◌*◌, ◌/◌, ◌%◌, ◌^◌, ◌≤◌, ◌<◌, ◌≡◌, refl, arith, Bool, false, not, List,
  [], ◌∷◌, ◌==◌, if◌then◌else◌, min, update,
}
use hexa_os_alpha_build.Base.Lists.{length}
use hexa_os_alpha_build.Text.{
  Buffer, strlen, strlen-length, strcpy, strcpy_below, string_at, string_at-strcpy,
}
use hexa_os_alpha_build.Text.Numbers.{
  itoa, hex_val, hex_from, hex_from-itoa, itoa-IsText, length-itoa,
}

abbrev pub name_max : ℕ
name_max = 32

-- The loops of `pwd_hash`: over the characters, and of the further rounds.
hash_chars : List ℕ → ℕ → ℕ
hash_chars [] h = h
hash_chars (c ∷ s) h = hash_chars s ((h * 32 + h + c) % 2 ^ 32)

stir : ℕ → ℕ → ℕ
stir zero h = h
stir (suc n) h = stir n ((h * 32 + h + h / 2 ^ 16 + h % 256) % 2 ^ 32)

pub pwd_hash : List ℕ → ℕ → ℕ → ℕ
pwd_hash str salt iters = stir (iters - 1) (hash_chars str ((5381 + salt) % 2 ^ 32))

hash_chars-lt : (s : List ℕ) (h : ℕ) → h < 2 ^ 32 → hash_chars s h < 2 ^ 32
unfolding hash_chars
hash_chars-lt [] h l = l
hash_chars-lt (c ∷ s) h l = hash_chars-lt s _ (omega arith)

stir-lt : (n h : ℕ) → h < 2 ^ 32 → stir n h < 2 ^ 32
unfolding stir
stir-lt zero h l = l
stir-lt (suc n) h l = stir-lt n _ (omega arith)

pwd_hash-lt : (s : List ℕ) (salt iters : ℕ) → pwd_hash s salt iters < 2 ^ 32
unfolding pwd_hash
pwd_hash-lt s salt iters = stir-lt (iters - 1) _ (hash_chars-lt s _ (omega arith))

-- The character of a string at an index, 0 at its end.
byte_at : List ℕ → ℕ → ℕ
byte_at [] i = 0
byte_at (c ∷ s) zero = c
byte_at (c ∷ s) (suc i) = byte_at s i

-- The loop that copies the last digits of the salt, from the right, with `n` rounds left.
paste_salt : ℕ → ℕ → List ℕ → ℕ → Buffer → Buffer
paste_salt zero i tmp sl out = out
paste_salt (suc n) i tmp sl out =
    paste_salt n (i + 1) tmp sl (update out (3 - i) (byte_at tmp (sl - 1 - i)))

-- "SSSS+IHHHHHHHH": the salt, the number of rounds and the hash.
pub encode_pwd : Buffer → List ℕ → ℕ → Buffer
encode_pwd out pass salt =
    let h = pwd_hash pass salt 5 in
    let tmp = itoa salt 16 in
    let sl = strlen tmp in
    let zeros = update (update (update (update out 0 b'0') 1 b'0') 2 b'0') 3 b'0' in
    let salted = paste_salt (min sl 4) 0 tmp sl zeros in
    strcpy (update (update salted 4 b'+') 5 b'5') 6 (itoa h 16)

-- The hash is read up to the null, which is looked for within the 32 bytes of the field.
pub check_pwd : List ℕ → Buffer → Bool
check_pwd pass encoded =
    let sh = λ (from : ℕ). hex_from (string_at (name_max - from) encoded from) 0 in
    if encoded 4 == b'+'
    then pwd_hash pass (hex_from (encoded 0 ∷ encoded 1 ∷ encoded 2 ∷ encoded 3 ∷ []) 0)
        (hex_val (encoded 5))
      == sh 6
    else if not (encoded 2 == b' ')
    then false
    else pwd_hash pass (hex_from (encoded 0 ∷ encoded 1 ∷ []) 0) 1 == sh 3

abbrev zeros_of : Buffer → Buffer
zeros_of out = update (update (update (update out 0 b'0') 1 b'0') 2 b'0') 3 b'0'

abbrev salt_of : Buffer → ℕ
salt_of e = hex_from (e 0 ∷ e 1 ∷ e 2 ∷ e 3 ∷ []) 0

-- The padding keeps the number that the digits make.
paste_salt-hex :
    (out : Buffer) (tmp : List ℕ)
    → length tmp ≤ 4
    → salt_of (paste_salt (min (length tmp) 4) 0 tmp (length tmp) (zeros_of out)) ≡ hex_from tmp 0
unfolding paste_salt hex_from hex_val byte_at
paste_salt-hex out [] h = refl
paste_salt-hex out (a ∷ []) h = refl
paste_salt-hex out (a ∷ b ∷ []) h = refl
paste_salt-hex out (a ∷ b ∷ c ∷ []) h = refl
paste_salt-hex out (a ∷ b ∷ c ∷ d ∷ []) h = refl
paste_salt-hex out (a ∷ b ∷ c ∷ d ∷ e ∷ r) h = absurd (omega arith)

-- A password is accepted against the text made of another exactly when the two have the same hash
-- under the salt; in particular against the text made of itself.
pub check-encode_pwd :
    (out : Buffer) (pass entered : List ℕ) (salt : ℕ)
    → salt < 2 ^ 16
    → check_pwd entered (encode_pwd out pass salt)
      ≡ (pwd_hash entered salt 5 == pwd_hash pass salt 5)
unfolding check_pwd encode_pwd
check-encode_pwd out pass entered salt h =
    let tmp = itoa salt 16 in
    let text = itoa (pwd_hash pass salt 5) 16 in
    let small = pwd_hash-lt pass salt 5 in
    let salted = paste_salt (min (length tmp) 4) 0 tmp (length tmp) (zeros_of out) in
    let base = update (update salted 4 b'+') 5 b'5' in
    let same = λ (j : ℕ) (l : j < 6). strcpy_below base 6 text j l in
    let read : hex_from tmp 0 ≡ salt = hex_from-itoa salt (omega arith) in
    let short = length-itoa 3 salt (omega arith) in
    let hash_read =
      string_at-strcpy 26 base 6 text (itoa-IsText (pwd_hash pass salt 5))
        (omega (arith, length-itoa 7 (pwd_hash pass salt 5) (omega arith))) in
    rw
      (
        strlen-length tmp,
        same 0 (omega arith),
        same 1 (omega arith),
        same 2 (omega arith),
        same 3 (omega arith),
        same 4 (omega arith),
        same 5 (omega arith),
        hash_read,
        paste_salt-hex out tmp short,
        read,
        hex_from-itoa (pwd_hash pass salt 5) small,
      )
      (unfold hex_val in refl)
