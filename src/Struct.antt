-- ===== src/Struct.antt =====
-- Packed structures in a sector of bytes: 32-bit fields, least significant byte first, and the hash
-- that the store keeps of a block.
use hexa_os_alpha_build.Base.{
  ℕ, zero, suc, ◌+◌, ◌-◌, ◌*◌, ◌/◌, ◌%◌, ◌^◌, ◌≤◌, ◌<◌, ◌≡◌, refl, ◌&&◌, arith, ◌==◌, ltb, leb,
  if◌then◌else◌, fun_ext, ap, sym, ◌∙◌, ◌⊎◌, inl, inr,
}
use hexa_os_alpha_build.Disk.{Sector}

abbrev byte : ℕ → ℕ → ℕ
byte v k =
    if k == 0
    then v % 256
    else if k == 1
    then v / 256 % 256
    else if k == 2
    then v / 65536 % 256
    else v / 16777216 % 256

-- The field at the offset, and a write to it.
pub read32 : Sector → ℕ → ℕ
read32 s off = s off + 256 * s (off + 1) + 65536 * s (off + 2) + 16777216 * s (off + 3)

unfoldable pub write32 : Sector → ℕ → ℕ → Sector
write32 s off v i = if leb off i && ltb i (off + 4) then byte v (i - off) else s i

pub read32-write32 : (s : Sector) (off v : ℕ) → v < 2 ^ 32 → read32 (write32 s off v) off ≡ v
unfolding read32 write32
read32-write32 s off v h = ground arith

pub read32-write32_other :
    (s : Sector) (off v at : ℕ)
    → (off + 4 ≤ at) ⊎ (at + 4 ≤ off)
    → read32 (write32 s off v) at ≡ read32 s at
unfolding read32 write32
read32-write32_other s off v at (inl h) = ground arith
read32-write32_other s off v at (inr h) = ground arith

pub write32-write32 : (s : Sector) (off v w : ℕ) → write32 (write32 s off w) off v ≡ write32 s off v
unfolding write32
write32-write32 s off v w = fun_ext (λ i. ground arith)

-- A byte outside the field.
pub write32_outside : (s : Sector) (off v i : ℕ) → i < off → write32 s off v i ≡ s i
unfolding write32
write32_outside s off v i h = ground arith

-- The loop of `hexafs_content_hash`, with `n` bytes left, from byte `i` on.
pub hash_from : ℕ → ℕ → Sector → ℕ → ℕ
hash_from zero i s h = h
hash_from (suc n) i s h = hash_from n (i + 1) s ((h * 32 + h + s i) % 2 ^ 32)

pub hexafs_content_hash : Sector → ℕ → ℕ
hexafs_content_hash s size = hash_from size 0 s 5381

hash_from-lt : (n i : ℕ) (s : Sector) (h : ℕ) → h < 2 ^ 32 → hash_from n i s h < 2 ^ 32
unfolding hash_from
hash_from-lt zero i s h l = l
hash_from-lt (suc n) i s h l = hash_from-lt n (i + 1) s _ (omega arith)

pub hexafs_content_hash-lt : (s : Sector) (size : ℕ) → hexafs_content_hash s size < 2 ^ 32
unfolding hexafs_content_hash
hexafs_content_hash-lt s size = hash_from-lt size 0 s 5381 (omega arith)

-- The hash of a block of 512 bytes whose checksum field, at the offset, counts as 0.
pub checksum_of : Sector → ℕ → ℕ
checksum_of s off = hexafs_content_hash (write32 s off 0) 512

-- A block whose checksum field has been set to its checksum passes the test that readers make.
pub checksum_of-write32 :
    (s : Sector) (off : ℕ)
    → let sealed = write32 s off (checksum_of s off) in checksum_of sealed off ≡ read32 sealed off
unfolding checksum_of
checksum_of-write32 s off =
    let h = hexafs_content_hash (write32 s off 0) 512 in
    ap (λ t. hexafs_content_hash t 512) (write32-write32 s off 0 h)
    ∙ sym (read32-write32 s off h (hexafs_content_hash-lt (write32 s off 0) 512))

pub read32-lt : (s : Sector) (off : ℕ) → ((i : ℕ) → s i < 256) → read32 s off < 2 ^ 32
unfolding read32
read32-lt s off b = omega (arith, b off, b (off + 1), b (off + 2), b (off + 3))

-- A field depends on its four bytes alone.
pub read32-eq :
    (s t : Sector) (off : ℕ)
    → ((k : ℕ) → off ≤ k → k < off + 4 → s k ≡ t k)
    → read32 s off ≡ read32 t off
unfolding read32
read32-eq s t off e =
    rw
      (
        e off (omega arith) (omega arith),
        e (off + 1) (omega arith) (omega arith),
        e (off + 2) (omega arith) (omega arith),
        e (off + 3) (omega arith) (omega arith),
      )
      refl

pub read32_zero : (at : ℕ) → read32 (λ _. 0) at ≡ 0
unfolding read32
read32_zero at = refl
