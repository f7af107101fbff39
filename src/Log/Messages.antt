-- ===== src/Log/Messages.antt =====
-- What the log holds and what `log_get` returns.
use native.Mathlib.Decide.{ℕ_discrete}
use hexa_os_alpha_build.Base.{
  ℕ, zero, suc, ◌+◌, ◌-◌, ◌*◌, ◌/◌, ◌%◌, ◌^◌, ◌<◌, ◌≤◌, ◌≡◌, refl, ap, List, [], ◌∷◌, ◌++◌, arith,
  ltb, if◌then◌else◌, sym, ◌∙◌, eq→beq, ne→beq, min,
}
use hexa_os_alpha_build.Base.Lists.{length, take, latest, length-append, length-take}
use hexa_os_alpha_build.Ring.{contents, contents_empty, contents_get, next, next-lt}
use hexa_os_alpha_build.Ring.Overwrite.{Bytes, put_all, IsValid, held, put_all_lem}
use hexa_os_alpha_build.Log.{
  Log, log_ring_size, log_char, log_chars, log_write, hex_digit, hex_digits, read_from, log_get,
  log_get_count,
}

log_chars-ring : (l : Log) (cs : List ℕ) → (log_chars l cs).ring ≡ put_all log_ring_size l.ring cs
unfolding log_chars put_all log_char
log_chars-ring l [] = refl
log_chars-ring l (c ∷ cs) = log_chars-ring (log_char l c) cs

log_chars-count :
    (l : Log) (cs : List ℕ)
    → l.log_count ≤ 4096
    → (log_chars l cs).log_count ≡ min 4096 (l.log_count + length cs)
unfolding log_chars log_char
log_chars-count l [] h = ground arith
log_chars-count l (c ∷ cs) h = ground (arith, log_chars-count (log_char l c) cs)

-- `log_write` appends the first 120 characters of the message and a line feed, and the log keeps the
-- last 4095 characters of all; the count grows by the number of characters written, up to 4096.
pub log_write_lem :
    (l : Log) (msg : List ℕ)
    → IsValid 4096 l.ring
    → l.log_count ≤ 4096
    → (held 4096 (log_write l msg).ring
        ≡ latest 4095 (held 4096 l.ring ++ (take 120 msg ++ 10 ∷ [])))
      × IsValid 4096 (log_write l msg).ring
      × (log_get_count (log_write l msg) ≡ min 4096 (log_get_count l + min 120 (length msg) + 1))
unfolding log_write log_get_count
log_write_lem l msg v h =
    let cs = take 120 msg ++ 10 ∷ [] in
    let e = log_chars-ring l cs in
    let kept = put_all_lem 4096 l.ring cs v (omega arith) in
    (
      (rw e kept.0),
      rw e kept.1,
      log_chars-count l cs h
          ∙ omega (arith, length-append (take 120 msg) (10 ∷ []), length-take 120 msg),
    )

read_from_lem :
    (n : ℕ) (r : Bytes) (idx : ℕ)
    → r.head < 4096
    → idx < 4096
    → read_from n r idx ≡ take n (contents r.buf 4096 r.head idx)
unfolding read_from
read_from_lem zero r idx h h' = refl
read_from_lem (suc n) r idx h h' = elim (ℕ_discrete idx r.head) [
  | yes e ↦ rw (eq→beq idx r.head e) (
      sym (
        ap (λ i. take (suc n) (contents r.buf 4096 r.head i)) e
        ∙ rw (contents_empty r.buf 4096 r.head h) refl))
  | no ne ↦
      rw (ne→beq idx r.head ne, contents_get r.buf 4096 r.head idx (omega arith) (λ e. ne (sym e)))
        (ap (λ cs. r.buf idx ∷ cs) (read_from_lem n r (next 4096 idx) h (next-lt 4096 idx h')))
]

-- `log_get` returns the 63 oldest characters of the log, or all where there are fewer, and leaves them.
pub log_get_lem : (l : Log) → IsValid 4096 l.ring → log_get l ≡ take 63 (held 4096 l.ring)
unfolding log_get
log_get_lem l v = read_from_lem 63 l.ring l.ring.tail v.head_in v.tail_in

-- The number that a string of hexadecimal digits stands for, after those that gave `acc`.
pub hex_value : ℕ → List ℕ → ℕ
hex_value acc [] = acc
hex_value acc (c ∷ cs) = hex_value (acc * 16 + (if ltb c 58 then c - 48 else c - 55)) cs

digit_value :
    (d : ℕ) → d < 16 → (if ltb (hex_digit d) 58 then hex_digit d - 48 else hex_digit d - 55) ≡ d
unfolding hex_digit
digit_value d h = ground arith

nibbles :
    (val : ℕ)
    → val < 4294967296
    → ((((((((0 * 16 + val / 268435456 % 16) * 16 + val / 16777216 % 16) * 16 + val / 1048576 % 16)
                          * 16
                        + val / 65536 % 16)
                      * 16
                    + val / 4096 % 16)
                  * 16
                + val / 256 % 16)
              * 16
            + val / 16 % 16)
          * 16
        + val / 1 % 16)
      ≡ val
nibbles val h = omega arith

-- The eight digits that `log_write_hex` prints stand for the 32-bit number it is given.
pub hex_digits-value :
    (val : ℕ)
    → val < 2 ^ 32
    → (hex_value 0 (hex_digits 8 val) ≡ val) × (length (hex_digits 8 val) ≡ 8)
unfolding hex_digits hex_value
hex_digits-value val h = (
  rw
      (
        digit_value (val / 268435456 % 16) (omega arith),
        digit_value (val / 16777216 % 16) (omega arith),
        digit_value (val / 1048576 % 16) (omega arith),
        digit_value (val / 65536 % 16) (omega arith),
        digit_value (val / 4096 % 16) (omega arith),
        digit_value (val / 256 % 16) (omega arith),
        digit_value (val / 16 % 16) (omega arith),
        digit_value (val / 1 % 16) (omega arith),
      )
      (nibbles val h),
  refl,
)
