-- ===== src/Ring/Overwrite.antt =====
-- A ring that drops its oldest element where a put finds it full.
use native.Mathlib.Decide.{ℕ_discrete}
use mathlib.Core.List.{append_assoc, append-nil}
use hexa_os_alpha_build.Base.{
  ℕ, suc, ◌+◌, ◌-◌, ◌%◌, ◌<◌, ◌≡◌, refl, ap, List, [], ◌∷◌, ◌++◌, arith, update, ◌==◌,
  if◌then◌else◌, sym, ◌∙◌, eq→beq, ne→beq,
}
use hexa_os_alpha_build.Base.Lists.{length, latest, latest-append, length-append, drop-snoc}
use hexa_os_alpha_build.Ring.{
  InRange, next, contents, next-lt, used-lt, used_full, length-contents, used-next_head,
  contents_put, contents_overwrite,
}

-- A byte ring of some size.
pub record Bytes : Type 0 where
  pub buf : ℕ → ℕ
  pub head : ℕ
  pub tail : ℕ

-- buf[head] = x; head = (head + 1) % size; if (head == tail) tail = (tail + 1) % size;
pub put : ℕ → Bytes → ℕ → Bytes
put size r x =
    let head = (r.head + 1) % size in
    record {
      buf = update r.buf r.head x;
      head = head;
      tail = if head == r.tail then (r.tail + 1) % size else r.tail;
    }

unfoldable pub put_all : ℕ → Bytes → List ℕ → Bytes
put_all size r [] = r
put_all size r (x ∷ xs) = put_all size (put size r x) xs

abbrev pub IsValid : ℕ → Bytes → Type 0
IsValid size r = InRange size r.head r.tail

-- What the ring holds, oldest first.
abbrev pub held : ℕ → Bytes → List ℕ
held size r = contents r.buf size r.head r.tail

-- A put keeps the last `size - 1` elements.
put_lem :
    (size : ℕ) (r : Bytes) (x : ℕ)
    → IsValid size r
    → 1 < size
    → (held size (put size r x) ≡ latest (size - 1) (held size r ++ x ∷ []))
      × IsValid size (put size r x)
unfolding put
put_lem size r x v h =
    let l = length-contents r.buf size r.head r.tail in
    let l' = length-append (held size r) (x ∷ []) in
    let u = used-lt size r.head r.tail v in
    elim (ℕ_discrete (next size r.head) r.tail) [
      | yes e ↦
          let full = used_full size r.head r.tail v e in
          let d : length (held size r ++ x ∷ []) - (size - 1) ≡ 1 = omega arith in
          rw (eq→beq (next size r.head) r.tail e, d)
            (
              contents_overwrite r.buf size r.head r.tail x v h e
                  ∙ sym (drop-snoc 1 (held size r) x (omega arith)),
              omega (arith, next-lt size r.head v.head_in, next-lt size r.tail v.tail_in, v),
            )
      | no ne ↦
          let room = used-next_head size r.head r.tail v ne in
          let fits =
            used-lt size (next size r.head) r.tail
              (omega (arith, next-lt size r.head v.head_in, v)) in
          let d : length (held size r ++ x ∷ []) - (size - 1) ≡ 0 = omega arith in
          rw (ne→beq (next size r.head) r.tail ne, d)
            (
              contents_put r.buf size r.head r.tail v x ne,
              omega (arith, next-lt size r.head v.head_in, v),
            )
    ]

latest_all : (n : ℕ) (xs : List ℕ) → length xs < suc n → latest n xs ≡ xs
latest_all n xs h = let e : length xs - n ≡ 0 = omega arith in rw e refl

-- Any sequence of puts keeps the last `size - 1` elements of what was there and what was put.
pub put_all_lem :
    (size : ℕ) (r : Bytes) (xs : List ℕ)
    → IsValid size r
    → 1 < size
    → (held size (put_all size r xs) ≡ latest (size - 1) (held size r ++ xs))
      × IsValid size (put_all size r xs)
unfolding put_all
put_all_lem size r [] v h =
    let l = length-contents r.buf size r.head r.tail in
    let u = used-lt size r.head r.tail v in
    (rw (append-nil (held size r)) (sym (latest_all (size - 1) (held size r) (omega arith))), v)
put_all_lem size r (x ∷ xs) v h =
    let one = put_lem size r x v h in
    let rest = put_all_lem size (put size r x) xs one.1 h in
    (
      rest.0
          ∙ ap (λ c. latest (size - 1) (c ++ xs)) one.0
          ∙ latest-append (size - 1) (held size r ++ x ∷ []) xs (omega arith)
          ∙ ap (latest (size - 1)) (append_assoc (held size r) (x ∷ []) xs),
      rest.1,
    )
