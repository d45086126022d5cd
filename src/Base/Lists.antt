-- ===== src/Base/Lists.antt =====
-- Lists measured and cut by native numbers, under the library's names, and the array operations
-- of the source that the library has in another form: `some`, `find`, `slice`.
use Prim.Native.Nat.{ℕ, zero, suc, ◌+◌, ◌-◌, ◌≤◌, min}
use mathlib.Core.Path.{◌≡◌, refl, ap, sym, ◌∙◌}
use mathlib.Core.Bool.{Bool, true, false, ◌||◌, ◌&&◌}
use mathlib.Core.List.{List, [], ◌∷◌, ◌++◌}
use mathlib.Core.Option.{Option, none, some}
use native.Mathlib.Omega.{arith}

module _ {ℓ} {A : Type ℓ} where
  abbrev pub length : List A → ℕ
  length [] = 0
  length (x ∷ xs) = suc (length xs)

  abbrev pub get_elem? : List A → ℕ → Option A
  get_elem? [] i = none
  get_elem? (x ∷ xs) zero = some x
  get_elem? (x ∷ xs) (suc i) = get_elem? xs i

  abbrev pub take : ℕ → List A → List A
  take zero xs = []
  take (suc n) [] = []
  take (suc n) (x ∷ xs) = x ∷ take n xs

  abbrev pub drop : ℕ → List A → List A
  drop zero xs = xs
  drop (suc n) [] = []
  drop (suc n) (x ∷ xs) = drop n xs

  -- `xs.slice(-n)` for a positive `n`: the last `n` elements.
  abbrev pub take_last : ℕ → List A → List A
  take_last n xs = drop (length xs - n) xs

  -- `xs.slice(lo, end)` for `0 ≤ lo` and `0 ≤ end`.
  abbrev pub slice : ℕ → ℕ → List A → List A
  slice lo end xs = drop lo (take end xs)

  abbrev pub any : (A → Bool) → List A → Bool
  any p [] = false
  any p (x ∷ xs) = p x || any p xs

  abbrev pub all : (A → Bool) → List A → Bool
  all p [] = true
  all p (x ∷ xs) = p x && all p xs

  -- The library's `filter` wants a decision; the source filters by a Boolean.
  abbrev pub filter : (A → Bool) → List A → List A
  filter p [] = []
  filter p (x ∷ xs) = elim (p x) [ true ↦ x ∷ filter p xs | false ↦ filter p xs ]

  abbrev pub find : (A → Bool) → List A → Option A
  find p [] = none
  find p (x ∷ xs) = elim (p x) [ true ↦ some x | false ↦ find p xs ]

  pub append-cons : (xs : List A) (y : A) (ys : List A) → xs ++ y ∷ ys ≡ (xs ++ y ∷ []) ++ ys
  append-cons [] y ys = refl
  append-cons (x ∷ xs) y ys = ap (◌∷◌ x) (append-cons xs y ys)

  pub length-append : (xs ys : List A) → length (xs ++ ys) ≡ length xs + length ys
  length-append [] ys = omega arith
  length-append (x ∷ xs) ys = omega (arith, length-append xs ys)

  pub length-take : (n : ℕ) (xs : List A) → length (take n xs) ≡ min n (length xs)
  length-take zero xs = omega arith
  length-take (suc n) [] = omega arith
  length-take (suc n) (x ∷ xs) = omega (arith, length-take n xs)

  pub length-drop : (n : ℕ) (xs : List A) → length (drop n xs) ≡ length xs - n
  length-drop zero xs = omega arith
  length-drop (suc n) [] = omega arith
  length-drop (suc n) (x ∷ xs) = omega (arith, length-drop n xs)

  pub take_of_length_le : (n : ℕ) (xs : List A) → length xs ≤ n → take n xs ≡ xs
  take_of_length_le zero [] h = refl
  take_of_length_le zero (x ∷ xs) h = elim h [ ]
  take_of_length_le (suc n) [] h = refl
  take_of_length_le (suc n) (x ∷ xs) h = ap (◌∷◌ x) (take_of_length_le n xs (omega arith))

  pub take-cons-take : (n : ℕ) (x : A) (xs : List A) → take n (x ∷ take n xs) ≡ take n (x ∷ xs)
  take-cons-take zero x xs = refl
  take-cons-take (suc n) x xs = ap (◌∷◌ x) (take-take_suc n xs)
    where
      take-take_suc : (k : ℕ) (ys : List A) → take k (take (suc k) ys) ≡ take k ys
      take-take_suc zero ys = refl
      take-take_suc (suc k) [] = refl
      take-take_suc (suc k) (y ∷ ys) = ap (◌∷◌ y) (take-take_suc k ys)

  pub drop-append_le :
      (n : ℕ) (xs ys : List A) → n ≤ length xs → drop n (xs ++ ys) ≡ drop n xs ++ ys
  drop-append_le zero xs ys h = refl
  drop-append_le (suc n) [] ys h = elim h [ ]
  drop-append_le (suc n) (x ∷ xs) ys h = drop-append_le n xs ys (omega arith)

  drop-nil : (k : ℕ) → [] ≡ drop k []
  drop-nil zero = refl
  drop-nil (suc k) = refl

  pub drop-drop : (m n : ℕ) (xs : List A) → drop m (drop n xs) ≡ drop (n + m) xs
  drop-drop m zero xs = ap (λ k. drop k xs) (omega arith)
  drop-drop zero (suc n) [] = drop-nil (suc n + 0)
  drop-drop (suc m) (suc n) [] = drop-nil (suc n + suc m)
  drop-drop m (suc n) (x ∷ xs) =
      drop-drop m n xs ∙ ap (λ k. drop k (x ∷ xs)) {x = suc (n + m)} {y = suc n + m} (omega arith)

  pub take-nil : (n : ℕ) → take n [] ≡ []
  take-nil zero = refl
  take-nil (suc n) = refl

  pub take-take : (m n : ℕ) (xs : List A) → m ≤ n → take m (take n xs) ≡ take m xs
  take-take zero n xs h = refl
  take-take (suc m) zero xs h = elim h [ ]
  take-take (suc m) (suc n) [] h = refl
  take-take (suc m) (suc n) (x ∷ xs) h = ap (◌∷◌ x) (take-take m n xs (omega arith))

  pub take-drop : (n m : ℕ) (xs : List A) → take n (drop m xs) ≡ drop m (take (m + n) xs)
  take-drop n zero xs = ap (λ k. take k xs) (omega arith)
  take-drop n (suc m) [] =
      take-nil n ∙ (drop-nil (suc m) ∙ ap (drop (suc m)) (sym (take-nil (suc m + n))))
  take-drop n (suc m) (x ∷ xs) =
      take-drop n m xs
      ∙ ap (λ k. drop (suc m) (take k (x ∷ xs))) {x = suc (m + n)} {y = suc m + n} (omega arith)

  pub length-slice :
      (lo end : ℕ) (xs : List A) → length (slice lo end xs) ≡ min end (length xs) - lo
  length-slice lo end xs = omega (arith, length-drop lo (take end xs), length-take end xs)

  -- A slice of a slice, where the inner one ends within the outer.
  pub slice-slice :
      (lo end lo' end' : ℕ) (xs : List A)
      → lo + end' ≤ end
      → slice lo' end' (slice lo end xs) ≡ slice (lo + lo') (lo + end') xs
  slice-slice lo end lo' end' xs h =
      ap (drop lo') (take-drop end' lo (take end xs))
      ∙ (drop-drop lo' lo (take (lo + end') (take end xs))
          ∙ ap (drop (lo + lo')) (take-take (lo + end') end xs h))

  -- Keeping the last `n` after each push keeps the last `n` of all that was pushed.
  pub take_last-push :
      (n : ℕ) (xs : List A) (x : A)
      → take_last n (take_last n xs ++ x ∷ []) ≡ take_last n (xs ++ x ∷ [])
  take_last-push n xs x =
      ap (take_last n) (sym (drop-append_le (length xs - n) xs (x ∷ []) (omega arith)))
      ∙ drop-drop _ (length xs - n) (xs ++ x ∷ [])
      ∙ ap (λ k. drop k (xs ++ x ∷ []))
          (omega (arith, length-drop (length xs - n) (xs ++ x ∷ []), length-append xs (x ∷ [])))

module _ {ℓ κ} {A : Type ℓ} (P : A → Type κ) where
  abbrev pub All : List A → Type κ
  All [] = Unit
  All (x ∷ xs) = P x × All xs
