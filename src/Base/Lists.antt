-- ===== src/Base/Lists.antt =====
-- Lists measured by native numbers.
use Prim.Native.Nat.{ℕ, zero, suc, ◌+◌, ◌-◌, ◌<◌, ◌≤◌, min}
use mathlib.Core.Path.{◌≡◌, refl, ap, sym, ◌∙◌}
use native.Mathlib.Decide.{dec_lt}
use mathlib.Core.Bool.{Bool, true, false}
use mathlib.Core.List.{List, [], ◌∷◌, ◌++◌}
use mathlib.Core.List.{append_assoc, append-nil}
use native.Mathlib.Omega.{arith}

module _ {ℓ} {A : Type ℓ} where
  abbrev pub length : List A → ℕ
  length [] = 0
  length (x ∷ xs) = suc (length xs)

  abbrev pub take : ℕ → List A → List A
  take zero xs = []
  take (suc n) [] = []
  take (suc n) (x ∷ xs) = x ∷ take n xs

  abbrev pub drop : ℕ → List A → List A
  drop zero xs = xs
  drop (suc n) [] = []
  drop (suc n) (x ∷ xs) = drop n xs

  abbrev pub is_empty : List A → Bool
  is_empty [] = true
  is_empty (x ∷ xs) = false

  pub length-append : (xs ys : List A) → length (xs ++ ys) ≡ length xs + length ys
  length-append [] ys = omega arith
  length-append (x ∷ xs) ys = omega (arith, length-append xs ys)

  -- Dropping from the front of a list to which one more element is put.
  pub drop-snoc :
      (n : ℕ) (xs : List A) (x : A) → n ≤ length xs → drop n (xs ++ x ∷ []) ≡ drop n xs ++ x ∷ []
  drop-snoc zero xs x h = refl
  drop-snoc (suc n) [] x h = absurd (omega arith)
  drop-snoc (suc n) (y ∷ xs) x h = drop-snoc n xs x (omega arith)

  pub drop_one-drop : (n : ℕ) (xs : List A) → drop 1 (drop n xs) ≡ drop (suc n) xs
  drop_one-drop zero xs = refl
  drop_one-drop (suc n) [] = refl
  drop_one-drop (suc n) (x ∷ xs) = drop_one-drop n xs

  pub length-drop : (n : ℕ) (xs : List A) → length (drop n xs) ≡ length xs - n
  length-drop zero xs = omega arith
  length-drop (suc n) [] = omega arith
  length-drop (suc n) (x ∷ xs) = omega (arith, length-drop n xs)

  -- The last `n` elements.
  abbrev pub latest : ℕ → List A → List A
  latest n xs = drop (length xs - n) xs

  latest-latest : (n : ℕ) (xs : List A) → latest n (latest n xs) ≡ latest n xs
  latest-latest n xs =
      let e : length (drop (length xs - n) xs) - n ≡ 0 =
        omega (arith, length-drop (length xs - n) xs) in
      rw e refl

  -- Keeping the last `n` after each element, or only at the end.
  pub latest-snoc :
      (n : ℕ) (xs : List A) (x : A)
      → 0 < n
      → latest n (latest n xs ++ x ∷ []) ≡ latest n (xs ++ x ∷ [])
  latest-snoc n xs x h =
      let m = length xs - n in
      let l = length-append (drop m xs) (x ∷ []) in
      let l' = length-append xs (x ∷ []) in
      let d = length-drop m xs in
      elim (dec_lt n (length xs)) [
        | yes lt ↦
            let e : length (drop m xs ++ x ∷ []) - n ≡ 1 = omega arith in
            let e' : length (xs ++ x ∷ []) - n ≡ suc m = omega arith in
            rw (e, e')
              (drop-snoc 1 (drop m xs) x (omega arith)
                ∙ ap (λ ys. ys ++ x ∷ []) (drop_one-drop m xs)
                ∙ sym (drop-snoc (suc m) xs x (omega arith)))
        | no ge ↦ let e : m ≡ 0 = omega arith in rw e refl
      ]

  pub latest-append :
      (n : ℕ) (xs ys : List A) → 0 < n → latest n (latest n xs ++ ys) ≡ latest n (xs ++ ys)
  latest-append n xs [] h = rw (append-nil xs, append-nil (latest n xs)) (latest-latest n xs)
  latest-append n xs (y ∷ ys) h =
      rw (← append_assoc xs (y ∷ []) ys, ← append_assoc (latest n xs) (y ∷ []) ys)
        (sym (latest-append n (latest n xs ++ y ∷ []) ys h)
          ∙ ap (λ zs. latest n (zs ++ ys)) (latest-snoc n xs y h)
          ∙ latest-append n (xs ++ y ∷ []) ys h)

  pub length-take : (n : ℕ) (xs : List A) → length (take n xs) ≡ min n (length xs)
  length-take zero xs = omega arith
  length-take (suc n) [] = omega arith
  length-take (suc n) (x ∷ xs) = omega (arith, length-take n xs)
