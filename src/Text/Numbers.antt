-- ===== src/Text/Numbers.antt =====
-- `atoi`, `itoa` and `hex_val` of hexa.c. An `int` is its bit pattern.
use mathlib.Core.List.{reverse, reverse-cons, reverse-append, append_assoc, append-nil}
use hexa_os_alpha_build.Base.{
  ℕ, zero, suc, ◌+◌, ◌-◌, ◌*◌, ◌/◌, ◌%◌, ◌^◌, ◌≤◌, ◌<◌, ◌≡◌, ◌≢◌, refl, arith, true, ◌&&◌, List, [],
  ◌∷◌, ◌++◌, ltb, leb, ◌==◌, is_neg, if◌then◌else◌, ap, ◌∙◌, ne→beq, inl, inr, Bool-cases,
}
use native.Mathlib.Decide.{ℕ_discrete}
use hexa_os_alpha_build.Base.Lists.{length, length-append}
use hexa_os_alpha_build.Text.{IsText}

-- The loop of `atoi`.
atoi_from : List ℕ → ℕ → ℕ
atoi_from [] res = res
atoi_from (c ∷ s) res =
    if leb b'0' c && leb c b'9' then atoi_from s ((res * 10 + c - b'0') % 2 ^ 32) else res

abbrev negate : ℕ → ℕ
negate x = (2 ^ 32 - x) % 2 ^ 32

pub atoi : List ℕ → ℕ
atoi [] = atoi_from [] 0
atoi (c ∷ s) = if c == b'-' then negate (atoi_from s 0) else atoi_from (c ∷ s) 0

abbrev digit_char : ℕ → ℕ
digit_char rem = if ltb 9 rem then (rem - 10) + b'A' else rem + b'0'

-- The loop of `itoa`, least digit first, for `fuel` rounds.
pub digits_from : ℕ → ℕ → ℕ → List ℕ
digits_from zero unum base = []
digits_from (suc fuel) unum base =
    let rest = digits_from fuel (unum / base) base in
    if unum == 0 then [] else digit_char (unum % base) ∷ rest

-- A word has at most 32 digits in any base from 2 on. The last loop of the code reverses the
-- characters in place.
pub itoa : ℕ → ℕ → List ℕ
itoa num base =
    let negative = base == 10 && is_neg num in
    let unum = if negative then negate num else num in
    let text = digits_from 32 unum base ++ (if negative then b'-' ∷ [] else []) in
    if num == 0 then b'0' ∷ [] else reverse text

unfoldable pub hex_val : ℕ → ℕ
hex_val c =
    if leb b'0' c && leb c b'9'
    then c - b'0'
    else if leb b'a' c && leb c b'f'
    then c - b'a' + 10
    else if leb b'A' c && leb c b'F'
    then c - b'A' + 10
    else 0

-- The loop that reads hexadecimal digits.
unfoldable pub hex_from : List ℕ → ℕ → ℕ
hex_from [] h = h
hex_from (c ∷ s) h = hex_from s ((h * 16 + hex_val c) % 2 ^ 32)

-- A digit written and then read.
module _ (read : List ℕ → ℕ → ℕ) (base : ℕ) (smaller : (u : ℕ) → u / base ≤ u / 2)
    (next : (u : ℕ) (s : List ℕ)
      → u < 2 ^ 32
      → read (digit_char (u % base) ∷ s) (u / base) ≡ read s u) where
  -- The reader makes the number of the digits, whatever follows them.
  read-digits_from :
      (fuel u : ℕ) (s : List ℕ)
      → u < 2 ^ fuel
      → u < 2 ^ 32
      → read (reverse (digits_from fuel u base) ++ s) 0 ≡ read s u
  unfolding digits_from
  read-digits_from zero u s h w = let e : u ≡ 0 = omega arith in rw e refl
  read-digits_from (suc fuel) u s h w = elim (ℕ_discrete u 0) [
    | yes e ↦ rw (e) refl
    | no ne ↦
        let c = digit_char (u % base) in
        let ds = digits_from fuel (u / base) base in
        rw (ne→beq u 0 ne, reverse-cons c ds, append_assoc (reverse ds) (c ∷ []) s)
          (read-digits_from fuel (u / base) (c ∷ s) (omega (arith, smaller u))
              (omega (arith, smaller u))
            ∙ next u s w)
  ]

hex_next :
    (u : ℕ) (s : List ℕ) → u < 2 ^ 32 → hex_from (digit_char (u % 16) ∷ s) (u / 16) ≡ hex_from s u
unfolding hex_from hex_val
hex_next u s h =
    let e : (u / 16 * 16 + hex_val (digit_char (u % 16))) % 2 ^ 32 ≡ u = ground arith in
    ap (hex_from s) e

atoi_next :
    (u : ℕ) (s : List ℕ) → u < 2 ^ 32 → atoi_from (digit_char (u % 10) ∷ s) (u / 10) ≡ atoi_from s u
unfolding atoi_from
atoi_next u s h =
    let d = digit_char (u % 10) in
    let e : (u / 10 * 10 + d - b'0') % 2 ^ 32 ≡ u = ground arith in
    let t : (leb b'0' d && leb d b'9') ≡ true = ground arith in rw (t, e) refl

-- A nonnegative number in base 16, written and read.
pub hex_from-itoa : (u : ℕ) → u < 2 ^ 32 → hex_from (itoa u 16) 0 ≡ u
unfolding itoa
hex_from-itoa u h = elim (ℕ_discrete u 0) [
  | yes e ↦ rw e (unfold hex_from hex_val in refl)
  | no ne ↦
      let ds = digits_from 32 u 16 in
      rw (ne→beq u 0 ne, append-nil ds, ← append-nil (reverse ds))
        (read-digits_from hex_from 16 (λ v. omega arith) hex_next 32 u [] h h
          ∙ unfold hex_from in refl)
]

-- No text that starts with a digit is taken for a negative number.
abbrev NoSign : List ℕ → Type 0
NoSign [] = Unit
NoSign (c ∷ s) = c ≢ b'-'

digits_from-NoSign :
    (fuel u : ℕ) (s : List ℕ) → NoSign s → NoSign (reverse (digits_from fuel u 10) ++ s)
unfolding digits_from
digits_from-NoSign zero u s h = h
digits_from-NoSign (suc fuel) u s h = elim (ℕ_discrete u 0) [
  | yes e ↦ rw e h
  | no ne ↦
      let c = digit_char (u % 10) in
      let ds = digits_from fuel (u / 10) 10 in
      rw (ne→beq u 0 ne, reverse-cons c ds, append_assoc (reverse ds) (c ∷ []) s)
        (digits_from-NoSign fuel (u / 10) (c ∷ s) (ground arith))
]

atoi_unsigned : (s : List ℕ) → NoSign s → atoi s ≡ atoi_from s 0
unfolding atoi
atoi_unsigned [] h = refl
atoi_unsigned (c ∷ s) h = rw (ne→beq c b'-' h) refl

atoi_from-digits_from : (u : ℕ) → u < 2 ^ 32 → atoi_from (reverse (digits_from 32 u 10)) 0 ≡ u
atoi_from-digits_from u h =
    let ds = digits_from 32 u 10 in
    rw (← append-nil (reverse ds)) (
      read-digits_from atoi_from 10 (λ v. omega arith) atoi_next 32 u [] h h
      ∙ unfold atoi_from in refl)

-- `atoi` reads back what `itoa` writes in base 10, for every `int`, the negative ones and the
-- smallest included.
pub atoi-itoa : (num : ℕ) → num < 2 ^ 32 → atoi (itoa num 10) ≡ num
unfolding itoa
atoi-itoa num h = elim (ℕ_discrete num 0) [
  | yes e ↦ rw e (unfold atoi atoi_from in refl)
  | no ne ↦ rw (ne→beq num 0 ne) (elim (Bool-cases (is_neg num)) [
    | inl neg ↦
        let u = negate num in
        let ds = digits_from 32 u 10 in
        rw (neg, reverse-append ds (b'-' ∷ []))
          (unfold atoi in rw (atoi_from-digits_from u (omega arith)) (ground arith))
    | inr nonneg ↦
        let ds = digits_from 32 num 10 in
        rw (nonneg, append-nil ds)
          (atoi_unsigned (reverse ds)
              (rw (← append-nil (reverse ds)) (digits_from-NoSign 32 num [] tt))
            ∙ atoi_from-digits_from num h)
  ])
]

digits_from-length : (fuel k u : ℕ) → u < 16 ^ k → length (digits_from fuel u 16) ≤ k
unfolding digits_from
digits_from-length zero k u h = omega arith
digits_from-length (suc fuel) zero u h = let e : u ≡ 0 = omega arith in rw e (omega arith)
digits_from-length (suc fuel) (suc k) u h = elim (ℕ_discrete u 0) [
  | yes e ↦ rw e (omega arith)
  | no ne ↦ rw (ne→beq u 0 ne) (omega (arith, digits_from-length fuel k (u / 16)))
]

digits_from-IsText :
    (fuel u : ℕ) (s : List ℕ) → IsText s → IsText (reverse (digits_from fuel u 16) ++ s)
unfolding digits_from
digits_from-IsText zero u s h = h
digits_from-IsText (suc fuel) u s h = elim (ℕ_discrete u 0) [
  | yes e ↦ rw e h
  | no ne ↦
      let c = digit_char (u % 16) in
      let ds = digits_from fuel (u / 16) 16 in
      rw (ne→beq u 0 ne, reverse-cons c ds, append_assoc (reverse ds) (c ∷ []) s)
        (digits_from-IsText fuel (u / 16) (c ∷ s) (ground arith, ground arith, h))
]

length-reverse : (s : List ℕ) → length (reverse s) ≡ length s
length-reverse [] = refl
length-reverse (c ∷ s) =
    rw (reverse-cons c s) (omega (arith, length-append (reverse s) (c ∷ []), length-reverse s))

-- What base 16 takes: text, and no more characters than the number has digits.
pub itoa-IsText : (u : ℕ) → IsText (itoa u 16)
unfolding itoa
itoa-IsText u = elim (ℕ_discrete u 0) [
  | yes e ↦ rw e (omega arith)
  | no ne ↦
      let ds = digits_from 32 u 16 in
      rw (ne→beq u 0 ne, append-nil ds, ← append-nil (reverse ds)) (digits_from-IsText 32 u [] tt)
]

pub length-itoa : (k u : ℕ) → u < 16 ^ suc k → length (itoa u 16) ≤ suc k
unfolding itoa
length-itoa k u h = elim (ℕ_discrete u 0) [
  | yes e ↦ rw e (omega arith)
  | no ne ↦
      let ds = digits_from 32 u 16 in
      rw (ne→beq u 0 ne, append-nil ds)
        (omega (arith, length-reverse ds, digits_from-length 32 (suc k) u h))
]

half_le : (u base : ℕ) → 2 ≤ base → u / base ≤ u / 2
half_le u base h = grind arith

digits_from_zero : (fuel base : ℕ) → digits_from fuel 0 base ≡ []
unfolding digits_from
digits_from_zero zero base = refl
digits_from_zero (suc fuel) base = refl

digits_from_more :
    (more base : ℕ)
    → 2 ≤ base
    → (n u : ℕ) → u < 2 ^ n
    → digits_from (n + more) u base ≡ digits_from n u base
unfolding digits_from
digits_from_more more base h zero u l =
    let e : u ≡ 0 = omega arith in rw e (digits_from_zero (0 + more) base)
digits_from_more more base h (suc n) u l =
    let e : suc n + more ≡ suc (n + more) = omega arith in
    rw e (elim (ℕ_discrete u 0) [
      | yes z ↦ rw z refl
      | no ne ↦ rw (ne→beq u 0 ne) (
          ap (λ ds. digit_char (u % base) ∷ ds)
            (digits_from_more more base h n (u / base) (omega (arith, half_le u base h))))
    ])

-- The loop of `itoa` ends by itself: for a word, in any base from 2 on, 32 rounds give the same digits
-- as any larger number of them.
pub digits_from_enough :
    (more num base : ℕ)
    → 2 ≤ base
    → num < 2 ^ 32
    → digits_from (32 + more) num base ≡ digits_from 32 num base
digits_from_enough more num base h w = digits_from_more more base h 32 num w
