-- ===== src/Log.antt =====
-- The log of log.c: a ring of 4096 characters. A message is the list of its characters, without the
-- null that ends it. The copy of a message on the serial port is not modelled.
pub mod Messages
mod Tests
use hexa_os_alpha_build.Base.{
  ℕ, zero, suc, ◌+◌, ◌-◌, ◌*◌, ◌/◌, ◌%◌, ◌^◌, Bool, List, [], ◌∷◌, ◌++◌, ltb, ◌==◌, if◌then◌else◌,
}
use hexa_os_alpha_build.Base.Lists.{take}
use hexa_os_alpha_build.Ring.Overwrite.{Bytes, put}

abbrev pub log_ring_size : ℕ
log_ring_size = 4096

pub record Log : Type 0 where
  pub ring : Bytes
  pub log_count : ℕ

-- One round of the loop of `log_write`.
pub log_char : Log → ℕ → Log
log_char l c = record {
  ring = put log_ring_size l.ring c;
  log_count = if ltb l.log_count log_ring_size then l.log_count + 1 else l.log_count;
}

pub log_chars : Log → List ℕ → Log
log_chars l [] = l
log_chars l (c ∷ cs) = log_chars (log_char l c) cs

-- `log_write`: at most 120 characters, and a line feed.
pub log_write : Log → List ℕ → Log
log_write l msg = log_chars l (take 120 msg ++ 10 ∷ [])

-- "Log system initialized"
abbrev init_message : List ℕ
init_message =
    76 ∷ 111 ∷ 103 ∷ 32 ∷ 115 ∷ 121 ∷ 115 ∷ 116 ∷ 101 ∷ 109 ∷ 32 ∷ 105 ∷ 110 ∷ 105 ∷ 116 ∷ 105 ∷ 97
    ∷ 108 ∷ 105 ∷ 122 ∷ 101 ∷ 100 ∷ []

pub log_init : Log → Log
log_init l =
    log_write (record { ring = record l.ring { head = 0; tail = 0 }; log_count = 0 }) init_message

-- The character of a digit of `log_write_hex`.
pub hex_digit : ℕ → ℕ
hex_digit nib = if ltb nib 10 then 48 + nib else 65 + nib - 10

-- The loop of `log_write_hex`, with `n` digits left to write.
pub hex_digits : ℕ → ℕ → List ℕ
hex_digits zero val = []
hex_digits (suc n) val = hex_digit (val / 2 ^ (n * 4) % 16) ∷ hex_digits n val

-- `log_write_hex`, for a prefix that its buffer of 64 characters has room for.
pub log_write_hex : Log → List ℕ → ℕ → Log
log_write_hex l prefix val = log_write l (prefix ++ 48 ∷ 120 ∷ hex_digits 8 val)

-- The loop of `log_get`, with room for `n` characters more.
pub read_from : ℕ → Bytes → ℕ → List ℕ
read_from zero r idx = []
read_from (suc n) r idx =
    let rest = read_from n r ((idx + 1) % log_ring_size) in
    if idx == r.head then [] else r.buf idx ∷ rest

-- `log_get`: the characters up to the null.
pub log_get : Log → List ℕ
log_get l = read_from 63 l.ring l.ring.tail

pub log_get_count : Log → ℕ
log_get_count l = l.log_count
