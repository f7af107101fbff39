-- ===== src/Users/Stored.antt =====
-- The table of users as bytes: `save_data` and `load_users` of hexa.c.
use hexa_os_alpha_build.Base.{
  ℕ, zero, suc, ◌+◌, ◌*◌, ◌-◌, ◌/◌, ◌%◌, ◌^◌, ◌≤◌, ◌<◌, ◌≡◌, refl, arith, ◌∙◌, false, ◌&&◌, ◌||◌,
  Option, none, some, ltb, leb, if◌then◌else◌, update, lt→ltb,
}
use hexa_os_alpha_build.Text.{Buffer}
use hexa_os_alpha_build.Users.{User, Users}

-- for (j...) raw[off++] = src[j], with `n` rounds left.
put_field : ℕ → ℕ → Buffer → ℕ → Buffer → Buffer
put_field zero j raw off src = raw
put_field (suc n) j raw off src = put_field n (j + 1) (update raw off (src j % 256)) (off + 1) src

-- The 68 bytes of a row.
put_user : Buffer → ℕ → User → Buffer
put_user raw off u =
    let r1 = put_field 32 0 raw off u.name in
    let r2 = put_field 32 0 r1 (off + 32) u.pass_hash in
    let r3 = update r2 (off + 64) (u.is_root % 256) in
    update (update (update r3 (off + 65) 0) (off + 66) 0) (off + 67) 0

put_users : ℕ → ℕ → Buffer → ℕ → (ℕ → User) → Buffer × ℕ
put_users zero i raw off t = (raw, off)
put_users (suc n) i raw off t = put_users n (i + 1) (put_user raw off (t i)) (off + 68) t

-- What `save_data` hands to `hexafs_users_save`: the bytes and how many they are.
pub save_users : Users → Buffer → Buffer × ℕ
save_users u raw =
    let c = u.u_count in
    let r0 = update (update raw 0 (c % 256)) 1 (c / 2 ^ 8 % 256) in
    let r1 = update (update r0 2 (c / 2 ^ 16 % 256)) 3 (c / 2 ^ 24 % 256) in
    put_users c 0 r1 4 u.u_table

-- A row of 68 bytes. A field has 32 bytes; no other index of it means anything.
get_user : Buffer → ℕ → User
get_user raw off = record {
  name = λ j. raw (off + j);
  pass_hash = λ j. raw (off + 32 + j);
  is_root = raw (off + 64);
}

-- `load_users`, with what `hexafs_users_load` returned.
pub load_users : Option (Buffer × ℕ) → Users → Users
load_users none u = u
load_users (some (raw, raw_sz)) u =
    let count = raw 0 + 2 ^ 8 * raw 1 + 2 ^ 16 * raw 2 + 2 ^ 24 * raw 3 in
    if ltb raw_sz 4 || ltb count 1 || ltb 12 count || ltb raw_sz (4 + count * 68)
    then u
    else record {
      u_table = λ i. if ltb i count then get_user raw (4 + i * 68) else u.u_table i;
      u_count = count;
      u_cur = 0;
    }

put_field_lem :
    (n j : ℕ) (raw : Buffer) (off : ℕ) (src : Buffer) (k : ℕ)
    → put_field n j raw off src k
      ≡ (if leb off k && ltb k (off + n) then src (j + (k - off)) % 256 else raw k)
unfolding put_field
put_field_lem zero j raw off src k = ground arith
put_field_lem (suc n) j raw off src k =
    ground (arith, put_field_lem n (j + 1) (update raw off (src j % 256)) (off + 1) src k)

-- The bytes of a row, and the memory around it.
module _ (raw : Buffer) (off : ℕ) (u : User) where
  put_user_name : (j : ℕ) → j < 32 → put_user raw off u (off + j) ≡ u.name j % 256
  unfolding put_user
  put_user_name j h =
      let r1 = put_field 32 0 raw off u.name in
      ground (
        arith,
        put_field_lem 32 0 r1 (off + 32) u.pass_hash (off + j),
        put_field_lem 32 0 raw off u.name (off + j),
      )

  put_user_hash : (j : ℕ) → j < 32 → put_user raw off u (off + 32 + j) ≡ u.pass_hash j % 256
  unfolding put_user
  put_user_hash j h =
      let r1 = put_field 32 0 raw off u.name in
      ground (arith, put_field_lem 32 0 r1 (off + 32) u.pass_hash (off + 32 + j))

  put_user_root : put_user raw off u (off + 64) ≡ u.is_root % 256
  unfolding put_user
  put_user_root = ground arith

  put_user_before : (k : ℕ) → k < off → put_user raw off u k ≡ raw k
  unfolding put_user
  put_user_before k h =
      let r1 = put_field 32 0 raw off u.name in
      ground
        (arith, put_field_lem 32 0 r1 (off + 32) u.pass_hash k, put_field_lem 32 0 raw off u.name k)

put_users_before :
    (n i : ℕ) (raw : Buffer) (off : ℕ) (t : ℕ → User) (k : ℕ)
    → k < off
    → (put_users n i raw off t).0 k ≡ raw k
unfolding put_users
put_users_before zero i raw off t k h = refl
put_users_before (suc n) i raw off t k h =
    put_users_before n (i + 1) (put_user raw off (t i)) (off + 68) t k (omega arith)
    ∙ put_user_before raw off (t i) k h

put_users_size :
    (n i : ℕ) (raw : Buffer) (off : ℕ) (t : ℕ → User) → (put_users n i raw off t).1 ≡ off + n * 68
unfolding put_users
put_users_size zero i raw off t = omega arith
put_users_size (suc n) i raw off t =
    omega (arith, put_users_size n (i + 1) (put_user raw off (t i)) (off + 68) t)

-- The row of a user, from where it starts.
put_users_row :
    (n i : ℕ) (raw : Buffer) (off : ℕ) (t : ℕ → User) (m d : ℕ)
    → m < n
    → d < 68
    → (r : Buffer) × ((put_users n i raw off t).0 (off + m * 68 + d)
        ≡ put_user r (off + m * 68) (t (i + m)) (off + m * 68 + d))
unfolding put_users
put_users_row zero i raw off t m d h hd = absurd (omega arith)
put_users_row (suc n) i raw off t zero d h hd =
    let a : off + 0 ≡ off = omega arith in
    let b : i + 0 ≡ i = omega arith in
    (
      raw,
      rw (a, b)
          (put_users_before n (i + 1) (put_user raw off (t i)) (off + 68) t (off + d)
            (omega arith)),
    )
put_users_row (suc n) i raw off t (suc m) d h hd =
    let (r, e) =
      put_users_row n (i + 1) (put_user raw off (t i)) (off + 68) t m d (omega arith) hd in
    let a : off + suc m * 68 ≡ off + 68 + m * 68 = omega arith in
    let b : i + suc m ≡ i + 1 + m = omega arith in (r, rw (a, b) e)

module _ (n : ℕ) (raw : Buffer) (t : ℕ → User) (i : ℕ) (l : i < n) where
  saved_row :
      (d p : ℕ)
      → d < 68
      → 4 + i * 68 + d ≡ p
      → (r : Buffer) × ((put_users n 0 raw 4 t).0 p ≡ put_user r (4 + i * 68) (t i) p)
  saved_row d p h q =
      let (r, e) = put_users_row n 0 raw 4 t i d l h in
      let z : 0 + i ≡ i = omega arith in (r, rw (← q) (rw z at e))

  saved_name : (j : ℕ) → j < 32 → (put_users n 0 raw 4 t).0 (4 + i * 68 + j) ≡ (t i).name j % 256
  saved_name j h =
      let (r, e) = saved_row j (4 + i * 68 + j) (omega arith) refl in
      e ∙ put_user_name r (4 + i * 68) (t i) j h

  saved_hash :
      (j : ℕ) → j < 32 → (put_users n 0 raw 4 t).0 (4 + i * 68 + 32 + j) ≡ (t i).pass_hash j % 256
  saved_hash j h =
      let (r, e) = saved_row (32 + j) (4 + i * 68 + 32 + j) (omega arith) (omega arith) in
      e ∙ put_user_hash r (4 + i * 68) (t i) j h

  saved_root : (put_users n 0 raw 4 t).0 (4 + i * 68 + 64) ≡ (t i).is_root % 256
  saved_root =
      let (r, e) = saved_row 64 (4 + i * 68 + 64) (omega arith) refl in
      e ∙ put_user_root r (4 + i * 68) (t i)

-- The table that is loaded from the bytes that were saved: of 1 to 12 users, each has the same
-- name, password hash and mark of root, byte by byte, and the first is the current one.
pub load-save_users :
    (u v : Users) (raw : Buffer) (i j : ℕ)
    → 0 < u.u_count
    → u.u_count ≤ 12
    → i < u.u_count
    → j < 32
    → let w = load_users (some (save_users u raw)) v in
      (w.u_count ≡ u.u_count)
      × (w.u_cur ≡ 0)
      × ((w.u_table i).name j ≡ (u.u_table i).name j % 256)
      × ((w.u_table i).pass_hash j ≡ (u.u_table i).pass_hash j % 256)
      × ((w.u_table i).is_root ≡ (u.u_table i).is_root % 256)
unfolding load_users save_users get_user
load-save_users u v raw i j h h' l lj =
    let c = u.u_count in
    let r0 = update (update raw 0 (c % 256)) 1 (c / 2 ^ 8 % 256) in
    let r1 = update (update r0 2 (c / 2 ^ 16 % 256)) 3 (c / 2 ^ 24 % 256) in
    let b = put_users c 0 r1 4 u.u_table in
    let size = put_users_size c 0 r1 4 u.u_table in
    let e0 : b.0 0 ≡ c % 256 = put_users_before c 0 r1 4 u.u_table 0 (omega arith) in
    let e1 : b.0 1 ≡ c / 2 ^ 8 % 256 = put_users_before c 0 r1 4 u.u_table 1 (omega arith) in
    let e2 : b.0 2 ≡ c / 2 ^ 16 % 256 = put_users_before c 0 r1 4 u.u_table 2 (omega arith) in
    let e3 : b.0 3 ≡ c / 2 ^ 24 % 256 = put_users_before c 0 r1 4 u.u_table 3 (omega arith) in
    let count : b.0 0 + 2 ^ 8 * b.0 1 + 2 ^ 16 * b.0 2 + 2 ^ 24 * b.0 3 ≡ c = omega arith in
    let good : (ltb b.1 4 || ltb c 1 || ltb 12 c || ltb b.1 (4 + c * 68)) ≡ false = ground arith in
    rw (count, good, lt→ltb i c l)
      (
        refl,
        refl,
        saved_name c r1 u.u_table i l j lj,
        saved_hash c r1 u.u_table i l j lj,
        saved_root c r1 u.u_table i l,
      )
