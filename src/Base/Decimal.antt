-- ===== src/Base/Decimal.antt =====
-- `String(n)` for a non-negative integer: its decimal digits as code units, and reading them back.
use Prim.Native.Nat.{ℕ, zero, suc, ◌+◌, ◌*◌, ◌/◌, ◌%◌, ◌<◌, ◌≤◌, ◌-◌}
use mathlib.Core.Path.{◌≡◌, refl, ap, sym, ◌∙◌}
use mathlib.Core.Logic.{inl, inr}
use mathlib.Core.List.{[], ◌∷◌, ◌++◌, append_assoc}
use mathlib.Core.Bool.{true, false}
use native.Mathlib.Omega.{arith}
use openscale.Base.Tests.{ltb, ltb→lt, if◌then◌else◌, Bool-cases}
use openscale.Base.Texts.{Text}

-- One fuel unit for each digit; `show` gives more than enough, see `value-show`.
digits : ℕ → ℕ → Text
digits zero n = []
digits (suc f) n =
    let rest = digits f (n / 10) ++ (48 + n % 10) ∷ [] in if ltb n 10 then (48 + n) ∷ [] else rest

unfoldable pub show : ℕ → Text
unfolding digits
show n = digits (suc n) n

value_from : ℕ → Text → ℕ
value_from acc [] = acc
value_from acc (c ∷ cs) = value_from (acc * 10 + (c - 48)) cs

-- The number that a row of decimal digits stands for.
unfoldable pub value : Text → ℕ
unfolding value_from
value s = value_from 0 s

value_from-append :
    (acc : ℕ) (s t : Text) → value_from acc (s ++ t) ≡ value_from (value_from acc s) t
unfolding value_from
value_from-append acc [] t = refl
value_from-append acc (c ∷ cs) t = value_from-append (acc * 10 + (c - 48)) cs t

value-digits : (f n : ℕ) → n < f → value_from 0 (digits f n) ≡ n
unfolding value_from digits
value-digits zero n h = elim h [ ]
value-digits (suc f) n h = elim (Bool-cases (ltb n 10)) [
  | inl small ↦ rw small (omega arith)
  | inr big ↦ rw big (
      value_from-append 0 (digits f (n / 10)) ((48 + n % 10) ∷ [])
      ∙ ground (arith, value-digits f (n / 10)))
]

pub value-show : (n : ℕ) → value (show n) ≡ n
unfolding value show
value-show n = value-digits (suc n) n (omega arith)

pub show-injective : (m n : ℕ) → show m ≡ show n → m ≡ n
show-injective m n e = sym (value-show m) ∙ (ap value e ∙ value-show n)

show_test : show 2024 ≡ 50 ∷ 48 ∷ 50 ∷ 52 ∷ []
unfolding show
show_test = refl

-- A reader that takes a digit into its number as `acc * 10 + d` reads a printed number whole.
module _ {ℓ} {A : Type ℓ} (scan : ℕ → Text → A)
    (step : (acc d : ℕ) (rest : Text)
      → d < 10
      → scan acc ((48 + d) ∷ rest) ≡ scan (acc * 10 + d) rest) where
  scan-digits : (f n : ℕ) (rest : Text) → n < f → scan 0 (digits f n ++ rest) ≡ scan n rest
  unfolding digits
  scan-digits zero n rest h = elim h [ ]
  scan-digits (suc f) n rest h = elim (Bool-cases (ltb n 10)) [
    | inl small ↦ rw small (step 0 n rest (ltb→lt n 10 small) ∙ ap (λ k. scan k rest) (omega arith))
    | inr big ↦ rw big (
        ap (scan 0) (append_assoc (digits f (n / 10)) ((48 + n % 10) ∷ []) rest)
        ∙ (scan-digits f (n / 10) ((48 + n % 10) ∷ rest) (ground arith)
            ∙ (step (n / 10) (n % 10) rest (omega arith) ∙ ap (λ k. scan k rest) (omega arith))))
  ]

  pub scan-show : (n : ℕ) (rest : Text) → scan 0 (show n ++ rest) ≡ scan n rest
  unfolding show
  scan-show n rest = scan-digits (suc n) n rest (omega arith)

-- Numbers of one and two digits, printed.
pub show-one : (n : ℕ) → n < 10 → show n ≡ (48 + n) ∷ []
unfolding show digits
show-one n h = let small : ltb n 10 ≡ true = ground arith in rw small refl

pub show-ten : (n : ℕ) → 10 ≤ n → n < 100 → show n ≡ (48 + n / 10) ∷ (48 + n % 10) ∷ []
unfolding show digits
show-ten zero h k = elim h [ ]
show-ten (suc m) h k =
    let a : ltb (suc m) 10 ≡ false = ground arith in
    let b : ltb (suc m / 10) 10 ≡ true = ground arith in rw (a, b) refl

-- A number of four digits, printed. The quotients are the number without its last digits.
pub show-four :
    (n : ℕ)
    → 1000 ≤ n
    → n < 10000
    → show n
      ≡ (48 + n / 10 / 10 / 10) ∷ (48 + n / 10 / 10 % 10) ∷ (48 + n / 10 % 10) ∷ (48 + n % 10) ∷ []
unfolding show digits
show-four zero h k = elim h [ ]
show-four (suc zero) h k = absurd (omega arith)
show-four (suc (suc zero)) h k = absurd (omega arith)
show-four (suc (suc (suc zero))) h k = absurd (omega arith)
show-four (suc (suc (suc (suc m)))) h k =
    let n = suc (suc (suc (suc m))) in
    let a : ltb n 10 ≡ false = ground arith in
    let b : ltb (n / 10) 10 ≡ false = ground arith in
    let c : ltb (n / 10 / 10) 10 ≡ false = ground arith in
    let d : ltb (n / 10 / 10 / 10) 10 ≡ true = ground arith in rw (a, b, c, d) refl
