-- ===== src/Pipelines/RunForm/Order.antt =====
-- The order of two months' texts is the order of the months.
use openscale.Base.{
  ℕ, zero, suc, ◌+◌, ◌/◌, ◌%◌, ◌≤◌, ◌<◌, Text, codes, [], ◌∷◌, ◌++◌, true, ltb, ◌≡◌, ◌⊎◌, ◌↔◌, inl,
  inr, refl, ap, ap₂, arith, Bool-cases,
}
use native.Mathlib.Decide.{dec_lt}
use openscale.Base.Decimal.{show, show-four}
use openscale.Pipelines.RunForm.{month_value, text_lt}

-- A month's text, `YYYY-MM`.
abbrev pub month_key : ℕ → ℕ → Text
month_key y m = show y ++ codes "-" ++ month_value m

month_digits : (m : ℕ) → 1 ≤ m → m ≤ 12 → month_value m ≡ (48 + m / 10) ∷ (48 + m % 10) ∷ []
unfolding month_value show
month_digits zero h k = elim h [ ]
month_digits (suc zero) h k = refl
month_digits (suc (suc zero)) h k = refl
month_digits (suc (suc (suc zero))) h k = refl
month_digits (suc (suc (suc (suc zero)))) h k = refl
month_digits (suc (suc (suc (suc (suc zero))))) h k = refl
month_digits (suc (suc (suc (suc (suc (suc zero)))))) h k = refl
month_digits (suc (suc (suc (suc (suc (suc (suc zero))))))) h k = refl
month_digits (suc (suc (suc (suc (suc (suc (suc (suc zero)))))))) h k = refl
month_digits (suc (suc (suc (suc (suc (suc (suc (suc (suc zero))))))))) h k = refl
month_digits (suc (suc (suc (suc (suc (suc (suc (suc (suc (suc zero)))))))))) h k = refl
month_digits (suc (suc (suc (suc (suc (suc (suc (suc (suc (suc (suc zero))))))))))) h k = refl
month_digits (suc (suc (suc (suc (suc (suc (suc (suc (suc (suc (suc (suc zero)))))))))))) h k = refl
month_digits (suc (suc (suc (suc (suc (suc (suc (suc (suc (suc (suc (suc (suc m))))))))))))) h k =
    absurd (omega arith)

-- The six digits of a month's text, as numbers.
abbrev digit_key : ℕ → ℕ → Text
digit_key y m =
    (48 + y / 10 / 10 / 10)
    ∷ (48 + y / 10 / 10 % 10)
    ∷ (48 + y / 10 % 10)
    ∷ (48 + y % 10)
    ∷ 45
    ∷ (48 + m / 10)
    ∷ (48 + m % 10)
    ∷ []

month_key-digits : (y m : ℕ) → 1000 ≤ y → y < 10000 → 1 ≤ m → m ≤ 12 → month_key y m ≡ digit_key y m
month_key-digits y m a b c d =
    ap₂ (λ s t. s ++ codes "-" ++ t) (show-four y a b) (month_digits m c d)

-- Less in the first place, or a tie there and `X` for what follows.
abbrev Lex : ℕ → ℕ → Type 0 → Type 0
Lex a b X = (a < b) ⊎ ((a ≡ b) × X)

iff_trans : {X Y Z : Type 0} → X ↔ Y → Y ↔ Z → X ↔ Z
iff_trans f g = (λ x. g.0 (f.0 x), λ z. f.1 (g.1 z))

Lex-map : (a b : ℕ) {X Y : Type 0} → (X → Y) → Lex a b X → Lex a b Y
Lex-map a b f (inl less) = inl less
Lex-map a b f (inr (tie, x)) = inr (tie, f x)

Lex-iff : (a b : ℕ) {X Y : Type 0} → X ↔ Y → Lex a b X ↔ Lex a b Y
Lex-iff a b e = (Lex-map a b e.0, Lex-map a b e.1)

IsLt : Text → Text → Type 0
IsLt s t = text_lt s t ≡ true

lt-cons : (a b : ℕ) (s t : Text) → IsLt ((48 + a) ∷ s) ((48 + b) ∷ t) ↔ Lex a b (IsLt s t)
unfolding IsLt
lt-cons a b s t = (lt-cons_to, lt-cons_from)
  where
    lt-cons_to : text_lt ((48 + a) ∷ s) ((48 + b) ∷ t) ≡ true → Lex a b (text_lt s t ≡ true)
    lt-cons_to h = elim (Bool-cases (ltb a b)) [
      | inl less ↦ inl (ground arith)
      | inr not_less ↦ inr (ground arith, ground arith)
    ]

    lt-cons_from : Lex a b (text_lt s t ≡ true) → text_lt ((48 + a) ∷ s) ((48 + b) ∷ t) ≡ true
    lt-cons_from (inl less) = ground arith
    lt-cons_from (inr (tie, rest)) = ground arith

Lex-digit : (n n' : ℕ) {X : Type 0} → Lex (n / 10) (n' / 10) (Lex (n % 10) (n' % 10) X) ↔ Lex n n' X
Lex-digit n n' {X} = (to_number, from_number)
  where
    to_number : Lex (n / 10) (n' / 10) (Lex (n % 10) (n' % 10) X) → Lex n n' X
    to_number (inl less) = inl (omega arith)
    to_number (inr (tie, inl less)) = inl (omega arith)
    to_number (inr (tie, inr (also, x))) = inr (omega arith, x)

    from_number : Lex n n' X → Lex (n / 10) (n' / 10) (Lex (n % 10) (n' % 10) X)
    from_number (inl less) = elim (dec_lt (n / 10) (n' / 10)) [
      | yes high ↦ inl high
      | no tie ↦ inr (omega arith, inl (omega arith))
    ]
    from_number (inr (tie, x)) = inr (ap (λ k. k / 10) tie, inr (ap (λ k. k % 10) tie, x))

-- One more digit of both numbers.
next_digit :
    (n n' : ℕ) (s t : Text)
    → Lex (n / 10) (n' / 10) (IsLt ((48 + n % 10) ∷ s) ((48 + n' % 10) ∷ t)) ↔ Lex n n' (IsLt s t)
next_digit n n' s t =
    iff_trans (Lex-iff (n / 10) (n' / 10) (lt-cons (n % 10) (n' % 10) s t)) (Lex-digit n n')

lt-dash : (s t : Text) → IsLt (45 ∷ s) (45 ∷ t) ↔ IsLt s t
unfolding IsLt
lt-dash s t = (λ h. ground arith, λ h. ground arith)

lt-month :
    (m m' : ℕ)
    → IsLt ((48 + m / 10) ∷ (48 + m % 10) ∷ []) ((48 + m' / 10) ∷ (48 + m' % 10) ∷ []) ↔ (m < m')
unfolding IsLt
lt-month m m' =
    iff_trans (lt-cons (m / 10) (m' / 10) ((48 + m % 10) ∷ []) ((48 + m' % 10) ∷ []))
      (iff_trans (next_digit m m' [] []) (no_tie, λ h. inl h))
  where
    no_tie : Lex m m' (IsLt [] []) → m < m'
    no_tie (inl less) = less
    no_tie (inr (tie, rest)) = cc

digit_key-lt : (y m y' m' : ℕ) → IsLt (digit_key y m) (digit_key y' m') ↔ Lex y y' (m < m')
digit_key-lt y m y' m' =
    let month = (48 + m / 10) ∷ (48 + m % 10) ∷ [] in
    let month' = (48 + m' / 10) ∷ (48 + m' % 10) ∷ [] in
    let ones = (48 + y % 10) ∷ 45 ∷ month in
    let ones' = (48 + y' % 10) ∷ 45 ∷ month' in
    let tens = (48 + y / 10 % 10) ∷ ones in
    let tens' = (48 + y' / 10 % 10) ∷ ones' in
    iff_trans
      (lt-cons (y / 10 / 10 / 10) (y' / 10 / 10 / 10) ((48 + y / 10 / 10 % 10) ∷ tens)
        ((48 + y' / 10 / 10 % 10) ∷ tens'))
      (iff_trans (next_digit (y / 10 / 10) (y' / 10 / 10) tens tens') (
        iff_trans (next_digit (y / 10) (y' / 10) ones ones') (
          iff_trans (next_digit y y' (45 ∷ month) (45 ∷ month'))
            (Lex-iff y y' (iff_trans (lt-dash month month') (lt-month m m'))))))

-- A year of four digits and a month.
pub record IsMonth (y m : ℕ) : Type 0 where
  pub four_digits : (1000 ≤ y) × (y < 10000)
  pub in_year : (1 ≤ m) × (m ≤ 12)

-- The texts of two months of years with four digits compare as the months do: by year, and within
-- a year by month.
pub month_key-lt :
    (y m y' m' : ℕ)
    → IsMonth y m
    → IsMonth y' m'
    → (text_lt (month_key y m) (month_key y' m') ≡ true) ↔ ((y < y') ⊎ ((y ≡ y') × (m < m')))
unfolding IsLt
month_key-lt y m y' m' v v' =
    rw
      (
        month_key-digits y m v.four_digits.0 v.four_digits.1 v.in_year.0 v.in_year.1,
        month_key-digits y' m' v'.four_digits.0 v'.four_digits.1 v'.in_year.0 v'.in_year.1,
      )
      (digit_key-lt y m y' m')
