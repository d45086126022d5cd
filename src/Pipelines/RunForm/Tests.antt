-- ===== src/Pipelines/RunForm/Tests.antt =====
-- The form in August 2026: half a year picked, and December of last year moved to this year.
use openscale.Base.{ℕ, Text, codes, List, [], ◌∷◌, some, false, ◌≡◌, refl, arith}
use openscale.Base.Decimal.{show, value}
use openscale.Pipelines.RunForm.{
  Today, Pick, picks_month, picks_year, pick, picks, no_values, submit, composed, can_submit, param,
  range_error, month_value, max_month, pick_month, pick_year,
}
use openscale.Pipelines.RunForm.Order.{IsMonth}
use openscale.Pipelines.RunForm.Submit.{IsToday, IsRange, submit-IsRange}

abbrev today : Today
today = record { year = 2026; month = 8 }

abbrev start : Text
start = codes "start"

abbrev end : Text
end = codes "end"

abbrev half_year : List Pick
half_year =
    picks_month start 7 ∷ picks_year start 2024 ∷ picks_year end 2024 ∷ picks_month end 12 ∷ []

abbrev names : List Text
names = start ∷ end ∷ []

abbrev range : List (Text × Text)
range = (start, codes "2024-07") ∷ (end, codes "2024-12") ∷ []

handed_on : submit names false (picks today no_values half_year) ≡ some range
unfolding submit composed can_submit param range_error picks pick month_value max_month pick_month
    pick_year show value
handed_on = refl

december_is_cleared :
    composed
      (end ∷ [])
      (picks today no_values (picks_month end 12 ∷ picks_year end 2025 ∷ picks_year end 2026 ∷ []))
    ≡ []
unfolding composed picks pick month_value max_month pick_month pick_year show value
december_is_cleared = refl

today-IsToday : IsToday today
today-IsToday = record { four_digits = omega arith; in_year = (omega arith, omega arith) }

submit-IsRange_example : (false ≡ false) × IsRange today range
submit-IsRange_example = submit-IsRange today half_year false range today-IsToday handed_on

july : IsMonth 2024 7
july = record { four_digits = (omega arith, omega arith); in_year = (omega arith, omega arith) }

january : IsMonth 2025 1
january = record { four_digits = (omega arith, omega arith); in_year = (omega arith, omega arith) }

abbrev first_year : ℕ
first_year = 2024
