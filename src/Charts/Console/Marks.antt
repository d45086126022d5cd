-- ===== src/Charts/Console/Marks.antt =====
-- The mark of one datum stays within the chart.
use openscale.Base.{
  ℕ, zero, suc, ◌+◌, ◌-◌, ◌*◌, ◌/◌, ◌≤◌, ◌<◌, List, [], ◌∷◌, length, Option, none, some, Bool, true,
  false, leb, ltb, ◌≡◌, ◌⊎◌, inl, inr, refl, ◌∙◌, ap, Bool-cases, arith,
}
use native.Mathlib.Nat.{div-mul-le_self, lt-div-mul-add}
use openscale.Charts.Console.{
  ConsoleBarDatum, Percent, pc, half_height, top_of, bot_of, or_one, Paint, primary, secondary,
  grid_color, cells_from, Plot, pair, stem, halves, cells, stacked, capped, column, plot, is_split,
}
use openscale.Charts.Axis.{round_div}
use openscale.Appearance.Settings.{
  ChartVariant, hatch, grid, paired, lollipop, area, block, split, ticks, capsule, ledger, ghost,
}

abbrev pub AtMostFull : Percent → Type 0
AtMostFull p = (0 < p.den) × (p.num ≤ 100 * p.den)

-- Two percentages that make up 100, the second the share of the second series.
pub record AreParts (d : ConsoleBarDatum) (t b : Percent) : Type 0 where
  pub same_den : t.den ≡ b.den
  pub whole : t.num + b.num ≡ 100 * t.den
  pub share : (b.num * (d.a + d.b) ≡ 100 * d.b * b.den) ⊎ (d.a + d.b ≡ 0)

abbrev pub in_color : Paint → ℕ
in_color grid_color = 0
in_color primary = 1
in_color secondary = 1

abbrev pub in_secondary : Paint → ℕ
in_secondary grid_color = 0
in_secondary primary = 0
in_secondary secondary = 1

-- How many cells count.
abbrev pub count_by : (Paint → ℕ) → List Paint → ℕ
count_by f [] = 0
count_by f (c ∷ cs) = f c + count_by f cs

-- Every height is at most 100%; the parts of a bar are the shares of the series; and of ten cells as
-- many are in color as the rounded tenths that the sum has of the ceiling, none cut off, and as many
-- in the second color as the second series has.
abbrev pub Fits : ℕ → ConsoleBarDatum → Plot → Type 0
Fits top d (pair p q) = AtMostFull p × AtMostFull q
Fits top d (stem p) = AtMostFull p
Fits top d (halves p q) = AtMostFull p × AtMostFull q
Fits top d (cells cs) =
    (length cs ≡ 10)
    × (count_by in_color cs ≡ round_div (10 * (d.a + d.b)) top)
    × (count_by in_secondary cs ≡ round_div (10 * d.b) top)
Fits top d (stacked p t b) = AtMostFull p × AreParts d t b
Fits top d (capped p) = AtMostFull p
Fits top d (column w p b) = AtMostFull p × AreParts d (top_of d) b

pub pc-AtMostFull :
    (grown : Bool) (v : ChartVariant) (top n : ℕ)
    → 0 < top
    → n ≤ top
    → AtMostFull (pc grown v top n)
unfolding pc
pc-AtMostFull false v top n p h = omega arith
pc-AtMostFull true v top n p h = elim (Bool-cases (is_split v)) [
  | inl e ↦ rw e (omega arith)
  | inr e ↦ rw e (omega arith)
]

half_height-AtMostFull : (grown : Bool) (top n : ℕ) → 0 < top → AtMostFull (half_height grown top n)
unfolding half_height
half_height-AtMostFull false top n p = omega arith
half_height-AtMostFull true top n p = elim (Bool-cases (leb (200 * n) (100 * top))) [
  | inl e ↦ rw e (p, ground arith)
  | inr e ↦ rw e (omega arith)
]

or_one_lem : (n : ℕ) → (0 < or_one n) × (n ≤ or_one n)
or_one_lem zero = omega arith
or_one_lem (suc n) = ground arith

or_one-cases : (n : ℕ) → (n ≡ 0) ⊎ (or_one n ≡ n)
or_one-cases zero = inl refl
or_one-cases (suc n) = inr (ground arith)

share_lem : (a b : ℕ) → (100 * (a + b) - 100 * a) * (a + b) ≡ 100 * b * (a + b)
share_lem a b = ap (λ k. k * (a + b)) {x = 100 * (a + b) - 100 * a} {y = 100 * b} (omega arith)

pub parts_of : (d : ConsoleBarDatum) → AreParts d (top_of d) (bot_of d)
unfolding top_of bot_of
parts_of d =
    let o = or_one_lem (d.a + d.b) in
    elim (or_one-cases (d.a + d.b)) [
      | inl empty ↦ record { same_den = refl; whole = omega (arith, o); share = inr empty }
      | inr e ↦ record {
        same_den = refl;
        whole = omega (arith, o);
        share = inl (rw e (share_lem d.a d.b));
      }
    ]

count-in_color :
    (n k bot on : ℕ) → bot ≤ on → on ≤ k + n → count_by in_color (cells_from n k bot on) ≡ on - k
unfolding cells_from
count-in_color zero k bot on h e = omega arith
count-in_color (suc n) k bot on h e =
    let rest = count-in_color n (suc k) bot on h (omega arith) in
    elim (Bool-cases (ltb k bot)) [
      | inl b ↦ rw b (ground (arith, rest))
      | inr b ↦ rw b (elim (Bool-cases (ltb k on)) [
        | inl c ↦ rw c (ground (arith, rest))
        | inr c ↦ rw c (ground (arith, rest))
      ])
    ]

count-in_secondary :
    (n k bot on : ℕ) → bot ≤ k + n → count_by in_secondary (cells_from n k bot on) ≡ bot - k
unfolding cells_from
count-in_secondary zero k bot on e = omega arith
count-in_secondary (suc n) k bot on e =
    let rest = count-in_secondary n (suc k) bot on (omega arith) in
    elim (Bool-cases (ltb k bot)) [
      | inl b ↦ rw b (ground (arith, rest))
      | inr b ↦ rw b (elim (Bool-cases (ltb k on)) [
        | inl c ↦ rw c (ground (arith, rest))
        | inr c ↦ rw c (ground (arith, rest))
      ])
    ]

length-cells_from : (n k bot on : ℕ) → length (cells_from n k bot on) ≡ n
unfolding cells_from
length-cells_from zero k bot on = omega arith
length-cells_from (suc n) k bot on = omega (arith, length-cells_from n (suc k) bot on)

-- A quotient is below `m` where the number is below `m` divisors.
quotient_lt : (q m g x : ℕ) → q * g ≤ x → x < m * g → q < m
quotient_lt q m g x h e = elim (Bool-cases (ltb q m)) [
  | inl c ↦ ground arith
  | inr c ↦
      let more : m ≤ q = ground arith in
      let over : m * g ≤ q * g = grind arith in absurd (omega arith)
]

round_div_mono : (x y g : ℕ) → 0 < g → x ≤ y → round_div x g ≤ round_div y g
round_div_mono x y g p h =
    let le = div-mul-le_self (2 * x + g) (2 * g) in
    let lt = lt-div-mul-add {a = 2 * y + g} {b = 2 * g} (omega arith) in
    let below =
      quotient_lt ((2 * x + g) / (2 * g)) ((2 * y + g) / (2 * g) + 1) (2 * g) (2 * x + g) le
        (omega (arith, lt)) in
    omega (arith, below)

round_div_tenths : (s top : ℕ) → 0 < top → s ≤ top → round_div (10 * s) top ≤ 10
round_div_tenths s top p h =
    let le = div-mul-le_self (2 * (10 * s) + top) (2 * top) in
    let below =
      quotient_lt ((2 * (10 * s) + top) / (2 * top)) 11 (2 * top) (2 * (10 * s) + top) le
        (omega arith) in
    omega (arith, below)

cells-Fits :
    (top : ℕ) (d : ConsoleBarDatum)
    → 0 < top
    → d.a + d.b ≤ top
    → Fits top d
        (cells (cells_from 10 0 (round_div (10 * d.b) top) (round_div (10 * (d.a + d.b)) top)))
cells-Fits top d p h =
    let bot = round_div (10 * d.b) top in
    let on = round_div (10 * (d.a + d.b)) top in
    let less : bot ≤ on = round_div_mono (10 * d.b) (10 * (d.a + d.b)) top p (omega arith) in
    let few : on ≤ 10 = round_div_tenths (d.a + d.b) top p h in
    (
      length-cells_from 10 0 bot on,
      count-in_color 10 0 bot on less few ∙ omega arith,
      count-in_secondary 10 0 bot on (omega arith) ∙ omega arith,
    )

abbrev pub FitsMark : ℕ → ConsoleBarDatum → Option Plot → Type 0
FitsMark top d none = Unit
FitsMark top d (some p) = Fits top d p

pub plot-Fits :
    (grown : Bool) (top : ℕ) (v : ChartVariant) (d : ConsoleBarDatum)
    → 0 < top
    → d.a + d.b ≤ top
    → FitsMark top d (plot grown top v d)
unfolding plot
plot-Fits grown top paired d p h = (
  pc-AtMostFull grown paired top d.a p (omega arith),
  pc-AtMostFull grown paired top d.b p (omega arith),
)
plot-Fits grown top lollipop d p h = pc-AtMostFull grown lollipop top (d.a + d.b) p h
plot-Fits grown top split d p h =
    (half_height-AtMostFull grown top d.a p, half_height-AtMostFull grown top d.b p)
plot-Fits grown top ticks d p h = cells-Fits top d p h
plot-Fits grown top capsule d p h = (pc-AtMostFull grown capsule top (d.a + d.b) p h, parts_of d)
plot-Fits grown top ghost d p h = pc-AtMostFull grown ghost top (d.a + d.b) p h
plot-Fits grown top hatch d p h = (pc-AtMostFull grown hatch top (d.a + d.b) p h, parts_of d)
plot-Fits grown top grid d p h = (pc-AtMostFull grown grid top (d.a + d.b) p h, parts_of d)
plot-Fits grown top block d p h = (pc-AtMostFull grown block top (d.a + d.b) p h, parts_of d)
plot-Fits grown top area d p h = tt
plot-Fits grown top ledger d p h = tt
