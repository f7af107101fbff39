-- ===== src/Text.antt =====
-- The string library of hexa.c. A C string that is only read from its start is the list of its bytes
-- up to the null; a buffer that is written into is a function from the index.
pub mod Numbers
pub mod Password
mod Tests
use hexa_os_alpha_build.Base.{
  ℕ, zero, suc, ◌+◌, ◌-◌, ◌*◌, ◌/◌, ◌%◌, ◌^◌, ◌≤◌, ◌<◌, ◌≡◌, refl, arith, Bool, true, false, ◌&&◌,
  List, [], ◌∷◌, ◌++◌, ltb, leb, ◌==◌, is_neg, if◌then◌else◌, update, update_self, update_ne, ◌∙◌,
  ne→beq,
}
use hexa_os_alpha_build.Base.Lists.{length}

abbrev pub Buffer : Type 0
Buffer = ℕ → ℕ

-- The bytes of a C string, as opposed to those of memory: none is 0.
abbrev pub IsText : List ℕ → Type 0
IsText [] = Unit
IsText (c ∷ s) = (0 < c) × (c < 256) × IsText s

-- The loop of `strlen`, from index `len` on.
unfoldable pub strlen_from : List ℕ → ℕ → ℕ
strlen_from [] len = len
strlen_from (c ∷ s) len = strlen_from s (len + 1)

unfoldable pub strlen : List ℕ → ℕ
unfolding strlen_from
strlen s = strlen_from s 0

-- The difference of two bytes, as an `int`.
abbrev byte_diff : ℕ → ℕ → ℕ
byte_diff a b = (2 ^ 32 + a - b) % 2 ^ 32

unfoldable pub strcmp : List ℕ → List ℕ → ℕ
strcmp [] [] = byte_diff 0 0
strcmp [] (b ∷ t) = byte_diff 0 b
strcmp (a ∷ s) [] = byte_diff a 0
strcmp (a ∷ s) (b ∷ t) = if a == b then strcmp s t else byte_diff a b

-- The result is 0 for equal texts only.
pub strcmp-eq : (s t : List ℕ) → IsText s → IsText t → strcmp s t ≡ 0 → s ≡ t
unfolding strcmp
strcmp-eq [] [] hs ht e = refl
strcmp-eq [] (b ∷ t) hs ht e = absurd (omega arith)
strcmp-eq (a ∷ s) [] hs ht e = absurd (omega arith)
strcmp-eq (a ∷ s) (b ∷ t) hs ht e = ground (arith, strcmp-eq s t hs.2 ht.2)

pub strcmp_refl : (s : List ℕ) → strcmp s s ≡ 0
unfolding strcmp
strcmp_refl [] = refl
strcmp_refl (a ∷ s) = ground (arith, strcmp_refl s)

-- `memcmp`, on the first `n` bytes of two buffers, from byte `i` on.
memcmp_from : ℕ → ℕ → Buffer → Buffer → ℕ
memcmp_from zero i a b = 0
memcmp_from (suc n) i a b =
    let rest = memcmp_from n (i + 1) a b in if a i == b i then rest else byte_diff (a i) (b i)

pub memcmp : Buffer → Buffer → ℕ → ℕ
unfolding memcmp_from
memcmp a b n = memcmp_from n 0 a b

-- `strcpy` to the place `i` of a buffer.
pub strcpy : Buffer → ℕ → List ℕ → Buffer
strcpy dest i [] = update dest i 0
strcpy dest i (c ∷ s) = strcpy (update dest i c) (i + 1) s

-- `memcpy` and `memset`, from index `i` on, with `n` bytes left.
pub memcpy : ℕ → ℕ → Buffer → Buffer → Buffer
memcpy zero i dest src = dest
memcpy (suc n) i dest src = memcpy n (i + 1) (update dest i (src i)) src

pub memset : ℕ → ℕ → Buffer → ℕ → Buffer
memset zero i dest v = dest
memset (suc n) i dest v = memset n (i + 1) (update dest i (v % 256)) v

-- The string at an index, of which at most `n` bytes are read.
unfoldable pub string_at : ℕ → Buffer → ℕ → List ℕ
string_at zero b i = []
string_at (suc n) b i = let rest = string_at n b (i + 1) in if b i == 0 then [] else b i ∷ rest

-- `strcat`: the first string ends within the `n` bytes that are looked at.
pub strcat : ℕ → Buffer → ℕ → List ℕ → Buffer
strcat zero dest i src = strcpy dest i src
strcat (suc n) dest i src =
    let rest = strcat n dest (i + 1) src in if dest i == 0 then strcpy dest i src else rest

pub strcpy_below : (dest : Buffer) (i : ℕ) (s : List ℕ) (j : ℕ) → j < i → strcpy dest i s j ≡ dest j
unfolding strcpy
strcpy_below dest i [] j h = update_ne dest i 0 j (omega arith)
strcpy_below dest i (c ∷ s) j h =
    strcpy_below (update dest i c) (i + 1) s j (omega arith) ∙ update_ne dest i c j (omega arith)

strlen_from-length : (s : List ℕ) (len : ℕ) → strlen_from s len ≡ length s + len
unfolding strlen_from
strlen_from-length [] len = omega arith
strlen_from-length (c ∷ s) len = omega (arith, strlen_from-length s (len + 1))

pub strlen-length : (s : List ℕ) → strlen s ≡ length s
unfolding strlen
strlen-length s = omega (arith, strlen_from-length s 0)

-- What `strcpy` wrote is read back.
pub string_at-strcpy :
    (n : ℕ) (dest : Buffer) (i : ℕ) (s : List ℕ)
    → IsText s
    → length s < n
    → string_at n (strcpy dest i s) i ≡ s
unfolding string_at strcpy
string_at-strcpy zero dest i s t h = absurd (omega arith)
string_at-strcpy (suc n) dest i [] t h = rw (update_self dest i 0) refl
string_at-strcpy (suc n) dest i (c ∷ s) t h =
    let e = strcpy_below (update dest i c) (i + 1) s i (omega arith) ∙ update_self dest i c in
    let ih = string_at-strcpy n (update dest i c) (i + 1) s t.2 (omega arith) in
    rw (e, ne→beq c 0 (omega arith), ih) refl

-- What `memcpy` leaves, byte by byte.
pub memcpy_lem :
    (n i : ℕ) (dest src : Buffer) (k : ℕ)
    → memcpy n i dest src k ≡ (if leb i k && ltb k (i + n) then src k else dest k)
unfolding memcpy
memcpy_lem zero i dest src k = ground arith
memcpy_lem (suc n) i dest src k = ground (arith, memcpy_lem n (i + 1) (update dest i (src i)) src k)
