-- ===== src/DataCatalog/Bytes/Laws.antt =====
-- The unit that a size is shown in, and how far the number shown is from the size.
use openscale.Base.{
  ℕ, zero, suc, ◌+◌, ◌*◌, ◌/◌, ◌≤◌, ◌<◌, ltb, ltb→lt, ◌≡◌, ◌⊎◌, inl, inr, refl, Bool-cases, arith,
}
use native.Mathlib.Nat.{div-mul-le_self, lt-div-mul-add}
use openscale.Charts.Axis.{round_div}
use openscale.DataCatalog.Bytes.{exponent, kib}

pub kib-pos : (e : ℕ) → 0 < kib e
unfolding kib
kib-pos zero = omega arith
kib-pos (suc e) = omega (arith, kib-pos e)

kib_zero_le : (bytes : ℕ) → 0 < bytes → kib 0 ≤ bytes
unfolding kib
kib_zero_le bytes p = omega arith

-- The unit is the largest of those up to `most` that the size reaches.
pub record IsUnit (most bytes e : ℕ) : Type 0 where
  pub le : e ≤ most
  pub reached : kib e ≤ bytes
  pub largest : (e ≡ most) ⊎ (bytes < kib (suc e))

kib_zero_lt : (bytes : ℕ) → bytes < 1024 → bytes < kib 1
unfolding kib
kib_zero_lt bytes h = omega arith

kib_step : (q bytes e : ℕ) → q ≡ bytes / 1024 → kib e ≤ q → kib (suc e) ≤ bytes
unfolding kib
kib_step q bytes e d h = omega arith

kib_step_lt : (q bytes e : ℕ) → q ≡ bytes / 1024 → q < kib e → bytes < kib (suc e)
unfolding kib
kib_step_lt q bytes e d h = omega arith

pub exponent-IsUnit : (most bytes : ℕ) → 0 < bytes → IsUnit most bytes (exponent most bytes)
unfolding exponent
exponent-IsUnit zero bytes p = record {
  le = omega arith;
  reached = kib_zero_le bytes p;
  largest = inl refl;
}
exponent-IsUnit (suc most) bytes p = elim (Bool-cases (ltb bytes 1024)) [
  | inl e ↦ rw e (record {
    le = omega arith;
    reached = kib_zero_le bytes p;
    largest = inr (kib_zero_lt bytes (ltb→lt bytes 1024 e));
  })
  | inr e ↦
      let ih = exponent-IsUnit most (bytes / 1024) (ground arith) in
      rw e (record {
        le = omega (arith, ih.le);
        reached = kib_step (bytes / 1024) bytes _ refl ih.reached;
        largest = elim ih.largest [
          | inl top ↦ inl (omega arith)
          | inr below ↦ inr (kib_step_lt (bytes / 1024) bytes _ refl below)
        ];
      })
]

-- `round_div` is off by at most half of the divisor.
pub round_div-close :
    (a b : ℕ)
    → 0 < b
    → (2 * (round_div a b * b) ≤ 2 * a + b) × (2 * a < 2 * (round_div a b * b) + b)
round_div-close a b p =
    let q = (2 * a + b) / (2 * b) in
    let le : q * (2 * b) ≤ 2 * a + b = div-mul-le_self (2 * a + b) (2 * b) in
    let lt : 2 * a + b < q * (2 * b) + 2 * b = lt-div-mul-add (omega arith) in
    (omega arith, omega arith)
