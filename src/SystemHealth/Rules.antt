-- ===== src/SystemHealth/Rules.antt =====
-- frontend/src/domains/system-health/domain/entities.ts and rules.ts.
use openscale.Base.{ℕ, Text, List, [], ◌∷◌, Bool, true, false, Option, any, if◌then◌else◌, ltb}
use openscale.Pipelines.Runs.{Status, good, warn, crit, is_present}

pub record ServiceHealth : Type 0 where
  pub id : Text
  pub name : Text
  pub status : Status
  pub detail : Text
  pub console_url : Option Text
  pub running : Bool

pub record SystemHealthSummary : Type 0 where
  pub services : List ServiceHealth
  pub overall_status : Status

abbrev pub is_crit : ServiceHealth → Bool
is_crit s = elim s.status [ good ↦ false | warn ↦ false | crit ↦ true ]

abbrev pub is_warn : ServiceHealth → Bool
is_warn s = elim s.status [ good ↦ false | warn ↦ true | crit ↦ false ]

unfoldable pub derive_overall_status : List ServiceHealth → Status
derive_overall_status services =
    if any is_crit services then crit else if any is_warn services then warn else good

-- `Number(Boolean(s.consoleUrl))`
abbrev pub console_flag : ServiceHealth → ℕ
console_flag s = if is_present s.console_url then 1 else 0

-- `Array.prototype.sort` of the language: a stable sort, here by insertion. `later x y` says that
-- the comparison of `x` with `y` is positive, so that `x` has to stand behind `y`.
abbrev pub insert_sorted {ℓ} : {A : Type ℓ} → (A → A → Bool) → A → List A → List A
insert_sorted later x [] = x ∷ []
insert_sorted later x (y ∷ ys) =
    let behind = y ∷ insert_sorted later x ys in if later x y then behind else x ∷ y ∷ ys

abbrev pub sort {ℓ} : {A : Type ℓ} → (A → A → Bool) → List A → List A
sort later [] = []
sort later (x ∷ xs) = insert_sorted later x (sort later xs)

-- The comparison `flag(b) - flag(a)` is positive exactly if `flag(a) < flag(b)`.
unfoldable pub sort_services_for_display : List ServiceHealth → List ServiceHealth
sort_services_for_display services = sort (λ a b. ltb (console_flag a) (console_flag b)) services
