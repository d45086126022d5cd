-- ===== src/Pipelines/RunForm.antt =====
-- frontend/src/domains/pipelines/ui/RunJobForm.tsx: the form for a range of months. A value of a
-- `select` is a text, empty while nothing is selected; `today` is the year and the month in which
-- the module was loaded.
mod Order
mod Fields
mod Submit
mod Tests
use openscale.Base.{
  ℕ, zero, suc, ◌+◌, ◌-◌, ◌≤◌, Text, codes, text_eq, List, [], ◌∷◌, ◌++◌, Option, none, some, Bool,
  true, false, not, ◌&&◌, ltb, leb, ◌==◌, if◌then◌else◌, all, length, is_some, ◌≡◌,
}
use openscale.Base.Decimal.{show, value}

abbrev pub earliest_year : ℕ
earliest_year = 2009

-- `CURRENT_YEAR` and `CURRENT_MONTH`
pub record Today : Type 0 where
  pub year : ℕ
  pub month : ℕ

-- The value of one month field.
pub record MonthYear : Type 0 where
  pub month : Text
  pub year : Text

abbrev pub zeros : ℕ → Text
zeros zero = []
zeros (suc n) = 48 ∷ zeros n

-- `String(n).padStart(2, '0')`
abbrev pub pad_two : Text → Text
pad_two s = zeros (2 - length s) ++ s

unfoldable pub month_value : ℕ → Text
month_value m = pad_two (show m)

-- `year === String(CURRENT_YEAR) ? CURRENT_MONTH : 12`
unfoldable pub max_month : Today → Text → ℕ
max_month today year = if text_eq year (show today.year) then today.month else 12

-- A choice of the month `select`; an option above `maxMonth` is disabled.
unfoldable pub pick_month : Text → MonthYear → MonthYear
pick_month month v = record v { month = month }

-- `Number(s)` of an option's value, which is empty or digits.
abbrev pub number_of : Text → ℕ
number_of s = value s

-- The handler of the year `select`: a month that the new year does not have yet is cleared.
unfoldable pub pick_year : Today → Text → MonthYear → MonthYear
pick_year today next_year v = record {
  month = if ltb (max_month today next_year) (number_of v.month) then [] else v.month;
  year = next_year;
}

-- `values`, by the name of the field.
abbrev pub Values : Type 0
Values = Text → Option MonthYear

abbrev pub set_value : Text → MonthYear → Values → Values
set_value name v values k = if text_eq k name then some v else values k

abbrev pub is_given : Text → Bool
is_given [] = false
is_given (c ∷ cs) = true

-- `v?.month && v?.year ? \`${v.year}-${v.month}\` : undefined`
abbrev pub compose_field : Option MonthYear → Option Text
compose_field none = none
compose_field (some v) =
    if is_given v.month && is_given v.year then some (v.year ++ codes "-" ++ v.month) else none

-- The loop over the fields: the parameters in the fields' order.
unfoldable pub composed : List Text → Values → List (Text × Text)
composed [] values = []
composed (name ∷ names) values =
    let rest = composed names values in
    elim (compose_field (values name)) [ none ↦ rest | some text ↦ (name, text) ∷ rest ]

-- `composed[name]`
unfoldable pub param : List (Text × Text) → Text → Option Text
param [] name = none
param ((key, text) ∷ ps) name = if text_eq key name then some text else param ps name

-- `s < t` on strings: the order of their code units.
abbrev pub text_lt : Text → Text → Bool
text_lt s [] = false
text_lt [] (d ∷ ds) = true
text_lt (c ∷ cs) (d ∷ ds) = if ltb c d then true else (c == d && text_lt cs ds)

-- `composed.start && composed.end && composed.start > composed.end`
abbrev pub is_reversed : Option Text → Option Text → Bool
is_reversed none end = false
is_reversed (some start) none = false
is_reversed (some start) (some end) = text_lt end start

unfoldable pub range_error : List (Text × Text) → Bool
range_error ps = is_reversed (param ps (codes "start")) (param ps (codes "end"))

unfoldable pub can_submit : List Text → Bool → List (Text × Text) → Bool
can_submit names pending ps =
    all (λ name. is_some (param ps name)) names && (not (range_error ps) && not pending)

-- The handler of `onSubmit`: what it passes on, if anything.
unfoldable pub submit : List Text → Bool → Values → Option (List (Text × Text))
submit names pending values =
    let ps = composed names values in if can_submit names pending ps then some ps else none

-- What a user may choose: a month or a year of one field.
pub data Pick : Type 0 where
  picks_month : Text → ℕ → Pick
  picks_year : Text → ℕ → Pick

-- `values[field.name]?.month ?? ''` and the like for the year.
abbrev pub value_at : Values → Text → MonthYear
value_at values name = elim (values name) [ none ↦ record { month = []; year = [] } | some v ↦ v ]

-- A choice among the options that are not disabled: the months up to `maxMonth`, and `YEARS`.
unfoldable pub pick : Today → Values → Pick → Values
unfolding pick_month pick_year
pick today values (picks_month name m) =
    let v = value_at values name in
    if leb 1 m && (leb m 12 && leb m (max_month today v.year))
    then set_value name (pick_month (month_value m) v) values
    else values
pick today values (picks_year name y) =
    if leb earliest_year y && leb y today.year
    then set_value name (pick_year today (show y) (value_at values name)) values
    else values

abbrev pub no_values : Values
no_values name = none

unfoldable pub picks : Today → Values → List Pick → Values
picks today values [] = values
picks today values (p ∷ ps) = picks today (pick today values p) ps
