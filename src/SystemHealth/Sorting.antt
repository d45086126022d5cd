-- ===== src/SystemHealth/Sorting.antt =====
-- What the two rules promise: the worst status wins, and services with a console lead.
use openscale.Base.{
  ℕ, List, [], ◌∷◌, ◌++◌, Bool, true, false, not, any, ltb, ◌≤◌, ◌≡◌, ◌⊎◌, inl, inr, refl, ap, ◌∙◌,
  arith, All, Bool-cases, filter,
}
use openscale.Pipelines.Runs.{Status, good, warn, crit, is_present}
use openscale.SystemHealth.Rules.{
  ServiceHealth, is_crit, is_warn, derive_overall_status, console_flag, insert_sorted, sort,
  sort_services_for_display,
}

abbrev pub severity : Status → ℕ
severity good = 0
severity warn = 1
severity crit = 2

-- Some service has the status.
pub data Shown (status : Status) : List ServiceHealth → Type 0 where
  here : {s : ServiceHealth} {ss : List ServiceHealth} → s.status ≡ status → Shown status (s ∷ ss)
  there : {s : ServiceHealth} {ss : List ServiceHealth} → Shown status ss → Shown status (s ∷ ss)

-- The status is at least as bad as every service's, and some service has it unless it is `good`.
pub record IsWorst (services : List ServiceHealth) (overall : Status) : Type 0 where
  pub covers : All (λ s. severity s.status ≤ severity overall) services
  pub attained : (overall ≡ good) ⊎ Shown overall services

covers_crit : (services : List ServiceHealth) → All (λ s. severity s.status ≤ 2) services
covers_crit [] = tt
covers_crit (s ∷ ss) = (ground arith, covers_crit ss)

covers_warn :
    (services : List ServiceHealth)
    → any is_crit services ≡ false
    → All (λ s. severity s.status ≤ 1) services
covers_warn [] h = tt
covers_warn (s ∷ ss) h = (ground arith, covers_warn ss (ground arith))

covers_good :
    (services : List ServiceHealth)
    → any is_crit services ≡ false
    → any is_warn services ≡ false
    → All (λ s. severity s.status ≤ 0) services
covers_good [] h k = tt
covers_good (s ∷ ss) h k = (ground arith, covers_good ss (ground arith) (ground arith))

Shown-crit : (services : List ServiceHealth) → any is_crit services ≡ true → Shown crit services
Shown-crit [] h = cc
Shown-crit (s ∷ ss) h = elim (Bool-cases (is_crit s)) [
  | inl bad ↦ here (ground arith)
  | inr fine ↦ there (Shown-crit ss (ground arith))
]

Shown-warn : (services : List ServiceHealth) → any is_warn services ≡ true → Shown warn services
Shown-warn [] h = cc
Shown-warn (s ∷ ss) h = elim (Bool-cases (is_warn s)) [
  | inl bad ↦ here (ground arith)
  | inr fine ↦ there (Shown-warn ss (ground arith))
]

-- The overall status is the worst of the services': no service is worse, and it is the status of
-- some service, or `good`.
pub derive_overall_status-IsWorst :
    (services : List ServiceHealth) → IsWorst services (derive_overall_status services)
unfolding derive_overall_status
derive_overall_status-IsWorst services = elim (Bool-cases (any is_crit services)) [
  | inl bad ↦
      rw bad (record { covers = covers_crit services; attained = inr (Shown-crit services bad) })
  | inr fine ↦ elim (Bool-cases (any is_warn services)) [
    | inl poor ↦
        rw (fine, poor)
          (record { covers = covers_warn services fine; attained = inr (Shown-warn services poor) })
    | inr well ↦
        rw (fine, well) (record { covers = covers_good services fine well; attained = inl refl })
  ]
]

abbrev pub has_console : ServiceHealth → Bool
has_console s = is_present s.console_url

abbrev pub lacks_console : ServiceHealth → Bool
lacks_console s = not (is_present s.console_url)

abbrev later : ServiceHealth → ServiceHealth → Bool
later a b = ltb (console_flag a) (console_flag b)

-- A service with a console goes to the front.
insert-front :
    (s : ServiceHealth) (ss : List ServiceHealth)
    → has_console s ≡ true
    → insert_sorted later s ss ≡ s ∷ ss
insert-front s [] h = refl
insert-front s (x ∷ xs) h = ground arith

insert-lacking :
    (s : ServiceHealth) (ss : List ServiceHealth)
    → has_console s ≡ false
    → All (λ x. lacks_console x ≡ true) ss
    → insert_sorted later s ss ≡ s ∷ ss
insert-lacking s [] h all_lack = refl
insert-lacking s (x ∷ xs) h all_lack = ground (arith, all_lack.0)

-- A service without one passes those that have one, and stops.
insert-behind :
    (s : ServiceHealth) (front rest : List ServiceHealth)
    → has_console s ≡ false
    → All (λ x. has_console x ≡ true) front
    → insert_sorted later s (front ++ rest) ≡ front ++ insert_sorted later s rest
insert-behind s [] rest h all_have = refl
insert-behind s (x ∷ xs) rest h all_have =
    ground (arith, all_have.0, insert-behind s xs rest h all_have.1)

filter-All {ℓ} : {A : Type ℓ} (p : A → Bool) (xs : List A) → All (λ x. p x ≡ true) (filter p xs)
filter-All p [] = tt
filter-All p (x ∷ xs) = elim (Bool-cases (p x)) [
  | inl kept ↦ rw (kept, filter) (kept, filter-All p xs)
  | inr dropped ↦ rw (dropped, filter) (filter-All p xs)
]

abbrev console_first : List ServiceHealth → List ServiceHealth
console_first services = filter has_console services ++ filter lacks_console services

sort-console_first : (services : List ServiceHealth) → sort later services ≡ console_first services
sort-console_first [] = refl
sort-console_first (s ∷ ss) = elim (Bool-cases (has_console s)) [
  | inl has ↦
      ap (insert_sorted later s) (sort-console_first ss)
      ∙ (insert-front s (console_first ss) has ∙ ground arith)
  | inr lacks ↦
      ap (insert_sorted later s) (sort-console_first ss)
      ∙ (insert-behind s (filter has_console ss) (filter lacks_console ss) lacks
            (filter-All has_console ss)
          ∙ (ap (◌++◌ (filter has_console ss))
                (insert-lacking s (filter lacks_console ss) lacks (filter-All lacks_console ss))
              ∙ ground arith))
]

-- The displayed list is the services with a console and then the others, each part in the order of
-- the given list.
sort_services_for_display_lem :
    (services : List ServiceHealth)
    → sort_services_for_display services
      ≡ filter has_console services ++ filter lacks_console services
unfolding sort_services_for_display
sort_services_for_display_lem services = sort-console_first services
