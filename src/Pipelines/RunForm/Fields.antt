-- ===== src/Pipelines/RunForm/Fields.antt =====
-- Whatever is picked, a field holds a month that has begun, or is not complete.
use openscale.Base.{
  ℕ, zero, suc, ◌≤◌, ◌<◌, Text, codes, text_eq, text_eq_iff, List, [], ◌∷◌, ◌++◌, some, true, ◌&&◌,
  ltb, leb, ◌≡◌, ◌≢◌, ◌⊎◌, inl, inr, refl, ap, ap₂, sym, ◌∙◌, arith, Bool-cases,
}
use native.Mathlib.Decide.{dec_lt}
use openscale.Base.Decimal.{show, value}
use openscale.Pipelines.RunForm.{
  Today, MonthYear, earliest_year, month_value, max_month, pick_month, pick_year, Values, set_value,
  value_at, compose_field, Pick, picks_month, picks_year, pick, picks,
}
use openscale.Pipelines.RunForm.Order.{month_key}

value-month_value : (m : ℕ) → 1 ≤ m → m ≤ 12 → value (month_value m) ≡ m
unfolding value month_value show
value-month_value zero h k = elim h [ ]
value-month_value (suc zero) h k = refl
value-month_value (suc (suc zero)) h k = refl
value-month_value (suc (suc (suc zero))) h k = refl
value-month_value (suc (suc (suc (suc zero)))) h k = refl
value-month_value (suc (suc (suc (suc (suc zero))))) h k = refl
value-month_value (suc (suc (suc (suc (suc (suc zero)))))) h k = refl
value-month_value (suc (suc (suc (suc (suc (suc (suc zero))))))) h k = refl
value-month_value (suc (suc (suc (suc (suc (suc (suc (suc zero)))))))) h k = refl
value-month_value (suc (suc (suc (suc (suc (suc (suc (suc (suc zero))))))))) h k = refl
value-month_value (suc (suc (suc (suc (suc (suc (suc (suc (suc (suc zero)))))))))) h k = refl
value-month_value (suc (suc (suc (suc (suc (suc (suc (suc (suc (suc (suc zero))))))))))) h k = refl
value-month_value (suc (suc (suc (suc (suc (suc (suc (suc (suc (suc (suc (suc zero)))))))))))) h k =
    refl
value-month_value (suc (suc (suc (suc (suc (suc (suc (suc (suc (suc (suc (suc (suc m))))))))))))) h
      k =
    absurd (omega arith)

-- A field's month and year are empty or options, the month one that its year has.
pub record IsField (today : Today) (v : MonthYear) : Type 0 where
  pub month_listed :
      (v.month ≡ [])
      ⊎ ((m : ℕ) × (1 ≤ m) × (m ≤ 12) × (m ≤ max_month today v.year) × (v.month ≡ month_value m))
  pub year_listed :
      (v.year ≡ []) ⊎ ((y : ℕ) × (earliest_year ≤ y) × (y ≤ today.year) × (v.year ≡ show y))

pick_month-IsField :
    (today : Today) (v : MonthYear) (m : ℕ)
    → 1 ≤ m
    → m ≤ 12
    → m ≤ max_month today v.year
    → IsField today v
    → IsField today (pick_month (month_value m) v)
unfolding pick_month
pick_month-IsField today v m a b c f = record {
  month_listed = inr (m, a, b, c, refl);
  year_listed = f.year_listed;
}

pick_year-IsField :
    (today : Today) (v : MonthYear) (y : ℕ)
    → earliest_year ≤ y
    → y ≤ today.year
    → IsField today v
    → IsField today (pick_year today (show y) v)
unfolding pick_year
pick_year-IsField today v y a b f = record {
  month_listed = elim (Bool-cases (ltb (max_month today (show y)) (value v.month))) [
    | inl beyond ↦ rw beyond (inl refl)
    | inr within ↦ rw within (elim f.month_listed [
      | inl blank ↦ inl blank
      | inr (m, low, high, old, same) ↦
          let number : value v.month ≡ m = ap value same ∙ value-month_value m low high in
          inr (m, low, high, ground arith, same)
    ])
  ];
  year_listed = inr (y, a, b, refl);
}

abbrev pub AllFields : Today → Values → Type 0
AllFields today values = (name : Text) → IsField today (value_at values name)

set_value-AllFields :
    (today : Today) (values : Values) (name : Text) (v : MonthYear)
    → IsField today v
    → AllFields today values
    → AllFields today (set_value name v values)
set_value-AllFields today values name v f all_fields k = elim (Bool-cases (text_eq k name)) [
  | inl same ↦ rw (same, value_at) f
  | inr other ↦ rw (other, value_at) (all_fields k)
]

pick-AllFields :
    (today : Today) (values : Values) (p : Pick)
    → AllFields today values
    → AllFields today (pick today values p)
unfolding pick
pick-AllFields today values (picks_month name m) f =
    let v = value_at values name in
    elim (Bool-cases (leb 1 m && (leb m 12 && leb m (max_month today v.year)))) [
      | inl listed ↦ rw listed (
          set_value-AllFields today values name (pick_month (month_value m) v)
            (pick_month-IsField today v m (ground arith) (ground arith) (ground arith) (f name)) f)
      | inr not_listed ↦ rw not_listed f
    ]
pick-AllFields today values (picks_year name y) f =
    let v = value_at values name in
    elim (Bool-cases (leb earliest_year y && leb y today.year)) [
      | inl listed ↦ rw listed (
          set_value-AllFields today values name (pick_year today (show y) v)
            (pick_year-IsField today v y (ground arith) (ground arith) (f name)) f)
      | inr not_listed ↦ rw not_listed f
    ]

pub picks-AllFields :
    (today : Today) (values : Values) (ps : List Pick)
    → AllFields today values
    → AllFields today (picks today values ps)
unfolding picks
picks-AllFields today values [] f = f
picks-AllFields today values (p ∷ ps) f =
    picks-AllFields today (pick today values p) ps (pick-AllFields today values p f)

-- A month that has begun, of a year with data.
pub record IsListed (today : Today) (y m : ℕ) : Type 0 where
  pub from_first : earliest_year ≤ y
  pub in_year : (1 ≤ m) × (m ≤ 12)
  pub begun : (y < today.year) ⊎ ((y ≡ today.year) × (m ≤ today.month))

begun_of :
    (today : Today) (y m : ℕ)
    → y ≤ today.year
    → m ≤ max_month today (show y)
    → (y < today.year) ⊎ ((y ≡ today.year) × (m ≤ today.month))
unfolding max_month
begun_of today y m h k = elim (dec_lt y today.year) [
  | yes earlier ↦ inl earlier
  | no now ↦
      let same : y ≡ today.year = omega arith in
      let texts : text_eq (show y) (show today.year) ≡ true =
        (text_eq_iff (show y) (show today.year)).1 (ap show same) in
      inr (same, ground arith)
]

given_both :
    (month year text : Text)
    → compose_field (some (record { month = month; year = year })) ≡ some text
    → (month ≢ []) × (year ≢ []) × (text ≡ year ++ codes "-" ++ month)
given_both [] year text h = cc
given_both (c ∷ cs) [] text h = cc
given_both (c ∷ cs) (d ∷ ds) text h =
    let same : (d ∷ ds) ++ codes "-" ++ c ∷ cs ≡ text = cc in (λ e. cc, λ e. cc, sym same)

pub compose_field-IsListed :
    (today : Today) (v : MonthYear) (text : Text)
    → IsField today v
    → compose_field (some v) ≡ some text
    → (y m : ℕ) × IsListed today y m × (text ≡ month_key y m)
compose_field-IsListed today v text f h =
    let (month_given, year_given, whole) = given_both v.month v.year text h in
    elim f.month_listed [
      | inl no_month ↦ absurd (month_given no_month)
      | inr (m, low, high, fits, month) ↦ elim f.year_listed [
        | inl no_year ↦ absurd (year_given no_year)
        | inr (y, first, last, year) ↦
            let fits_year = ap (max_month today) year in
            (
              y,
              m,
              record {
                from_first = first;
                in_year = (low, high);
                begun = begun_of today y m last (omega (arith, fits_year));
              },
              whole ∙ ap₂ (λ a b. a ++ codes "-" ++ b) year month,
            )
      ]
    ]
