-- ===== src/Charts/Console/Scale.antt =====
-- The rounded ceiling of the chart's axis.
use openscale.Base.{
  ℕ, zero, suc, ◌*◌, ◌/◌, ◌≤◌, ◌<◌, ltb, leb, ◌≡◌, ◌⊎◌, inl, inr, refl, Bool-cases, arith,
}
use openscale.Charts.Console.{magnitude, nice_fraction, nice_ceiling}

pub data IsPowerOfTen : ℕ → Type 0 where
  unit : IsPowerOfTen 1
  times_ten : (m n : ℕ) → n ≡ 10 * m → IsPowerOfTen m → IsPowerOfTen n

record IsMagnitude (value m : ℕ) : Type 0 where
  power : IsPowerOfTen m
  below : m ≤ value
  above : value < 10 * m

-- As much fuel as the value is enough.
magnitude-IsMagnitude :
    (fuel value : ℕ) → 0 < value → value ≤ fuel → IsMagnitude value (magnitude fuel value)
unfolding magnitude
magnitude-IsMagnitude zero value p h = absurd (omega arith)
magnitude-IsMagnitude (suc fuel) value p h = elim (Bool-cases (ltb value 10)) [
  | inl small ↦ rw small (record { power = unit; below = omega arith; above = ground arith })
  | inr big ↦
      let ih = magnitude-IsMagnitude fuel (value / 10) (ground arith) (ground arith) in
      rw big (record {
        power = times_ten (magnitude fuel (value / 10)) _ refl ih.power;
        below = omega (arith, ih.below);
        above = omega (arith, ih.above);
      })
]

-- 1, 2, 5 or 10 times a power of ten.
pub record IsNice (value n : ℕ) : Type 0 where
  pub unit : ℕ
  pub power : IsPowerOfTen unit
  pub digit : (n ≡ unit) ⊎ (n ≡ 2 * unit) ⊎ (n ≡ 5 * unit) ⊎ (n ≡ 10 * unit)
  pub covers : value ≤ n
  pub close : 2 * n ≤ 5 * value

nice_fraction-IsNice :
    (value m : ℕ) → IsMagnitude value m → IsNice value (nice_fraction value m * m)
unfolding nice_fraction
nice_fraction-IsNice value m h = elim (Bool-cases (leb value m)) [
  | inl e ↦ rw e (record {
    unit = m;
    power = h.power;
    digit = inl (omega arith);
    covers = ground arith;
    close = ground (arith, h.below);
  })
  | inr e ↦ elim (Bool-cases (leb value (2 * m))) [
    | inl f ↦
        rw (e, f)
          (record {
            unit = m;
            power = h.power;
            digit = inr (inl refl);
            covers = ground arith;
            close = ground arith;
          })
    | inr f ↦ elim (Bool-cases (leb value (5 * m))) [
      | inl g ↦
          rw (e, f, g)
            (record {
              unit = m;
              power = h.power;
              digit = inr (inr (inl refl));
              covers = ground arith;
              close = ground arith;
            })
      | inr g ↦
          rw (e, f, g)
            (record {
              unit = m;
              power = h.power;
              digit = inr (inr (inr refl));
              covers = ground (arith, h.above);
              close = ground arith;
            })
    ]
  ]
]

-- The ceiling of a positive value is 1, 2, 5 or 10 times a power of ten, is at least the value, and
-- at most two and a half times as large.
pub nice_ceiling-IsNice : (value : ℕ) → 0 < value → IsNice value (nice_ceiling value)
unfolding nice_ceiling
nice_ceiling-IsNice zero p = elim p [ ]
nice_ceiling-IsNice (suc v) p =
    nice_fraction-IsNice (suc v) (magnitude (suc v) (suc v))
      (magnitude-IsMagnitude (suc v) (suc v) p (omega arith))
