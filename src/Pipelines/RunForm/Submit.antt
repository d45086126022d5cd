-- ===== src/Pipelines/RunForm/Submit.antt =====
-- What the form hands on.
use openscale.Base.{
  ℕ, ◌≤◌, ◌<◌, Text, codes, List, [], ◌∷◌, Option, none, some, Bool, true, false, if◌then◌else◌,
  ◌≡◌, ◌⊎◌, inl, inr, refl, ap, ap₂, sym, ◌∙◌, arith, Bool-cases, Option-cases,
}
use native.Mathlib.Decide.{dec_lt}
use openscale.Pipelines.RunForm.{
  Today, Values, value_at, compose_field, composed, param, text_lt, range_error, can_submit, submit,
  Pick, picks, no_values,
}
use openscale.Pipelines.RunForm.Order.{month_key, IsMonth, month_key-lt}
use openscale.Pipelines.RunForm.Fields.{
  AllFields, picks-AllFields, IsListed, compose_field-IsListed,
}

-- The date of the module's load.
pub record IsToday (today : Today) : Type 0 where
  pub four_digits : today.year < 10000
  pub in_year : (1 ≤ today.month) × (today.month ≤ 12)

-- A range of months that the worker can ingest.
pub record IsRange (today : Today) (ps : List (Text × Text)) : Type 0 where
  pub start_year : ℕ
  pub start_month : ℕ
  pub end_year : ℕ
  pub end_month : ℕ
  pub params :
      ps
      ≡ (codes "start", month_key start_year start_month)
        ∷ (codes "end", month_key end_year end_month)
        ∷ []
  pub start_listed : IsListed today start_year start_month
  pub end_listed : IsListed today end_year end_month
  pub in_order : (start_year < end_year) ⊎ ((start_year ≡ end_year) × (start_month ≤ end_month))

IsMonth-of : (today : Today) (y m : ℕ) → IsToday today → IsListed today y m → IsMonth y m
IsMonth-of today y m t l = record {
  four_digits = (
    omega (arith, l.from_first),
    elim l.begun [
      | inl earlier ↦ omega (arith, t.four_digits)
      | inr (same, begun) ↦ omega (arith, t.four_digits)
    ],
  );
  in_year = l.in_year;
}

abbrev range_names : List Text
range_names = codes "start" ∷ codes "end" ∷ []

compose_at :
    (values : Values) (name text : Text)
    → compose_field (values name) ≡ some text
    → compose_field (some (value_at values name)) ≡ some text
compose_at values name text h = elim (Option-cases (values name)) [
  | inl absent ↦ let never : none ≡ some text = ap compose_field (sym absent) ∙ h in cc
  | inr (v, here) ↦
      let composes : compose_field (some v) ≡ some text = ap compose_field (sym here) ∙ h in
      rw (here, value_at) composes
]

-- The parameters of the two fields.
abbrev params_of : Option Text → Option Text → List (Text × Text)
params_of none none = []
params_of none (some end) = (codes "end", end) ∷ []
params_of (some start) none = (codes "start", start) ∷ []
params_of (some start) (some end) = (codes "start", start) ∷ (codes "end", end) ∷ []

composed-params_of :
    (values : Values)
    → composed range_names values
      ≡ params_of (compose_field (values (codes "start"))) (compose_field (values (codes "end")))
unfolding composed
composed-params_of values = elim (Option-cases (compose_field (values (codes "start")))) [
  | inl no_start ↦ elim (Option-cases (compose_field (values (codes "end")))) [
    | inl no_end ↦ rw (no_start, composed) (rw (no_end, composed) refl)
    | inr (end, has_end) ↦ rw (no_start, composed) (rw (has_end, composed) refl)
  ]
  | inr (start, has_start) ↦ elim (Option-cases (compose_field (values (codes "end")))) [
    | inl no_end ↦ rw (has_start, composed) (rw (no_end, composed) refl)
    | inr (end, has_end) ↦ rw (has_start, composed) (rw (has_end, composed) refl)
  ]
]

-- What must hold of the two fields' texts for the form to hand `ps` on.
record Handed (pending : Bool) (ps : List (Text × Text)) (a b : Option Text) : Type 0 where
  idle : pending ≡ false
  start : Text
  end : Text
  has_start : a ≡ some start
  has_end : b ≡ some end
  in_order : text_lt end start ≡ false
  params : ps ≡ (codes "start", start) ∷ (codes "end", end) ∷ []

handed :
    (pending : Bool) (a b : Option Text) (ps : List (Text × Text))
    → (if can_submit range_names pending (params_of a b) then some (params_of a b) else none)
      ≡ some ps
    → Handed pending ps a b
unfolding can_submit param range_error
handed pending none none ps h = cc
handed pending none (some end) ps h = cc
handed pending (some start) none ps h = cc
handed true (some start) (some end) ps h = absurd (ground arith)
handed false (some start) (some end) ps h = elim (Bool-cases (text_lt end start)) [
  | inl reversed ↦ absurd (ground arith)
  | inr fine ↦ record {
    idle = refl;
    start = start;
    end = end;
    has_start = refl;
    has_end = refl;
    in_order = fine;
    params = ground arith;
  }
]

submit-Handed :
    (pending : Bool) (values : Values) (ps : List (Text × Text))
    → submit range_names pending values ≡ some ps
    → Handed pending ps
        (compose_field (values (codes "start")))
        (compose_field (values (codes "end")))
unfolding submit
submit-Handed pending values ps h =
    handed pending (compose_field (values (codes "start"))) (compose_field (values (codes "end")))
      ps
      (ap (λ l. if can_submit range_names pending l then some l else none)
          (sym (composed-params_of values))
        ∙ h)

no_values-AllFields : (today : Today) → AllFields today no_values
no_values-AllFields today name = record { month_listed = inl refl; year_listed = inl refl }

ordered :
    (sy sm ey em : ℕ)
    → IsMonth ey em
    → IsMonth sy sm
    → text_lt (month_key ey em) (month_key sy sm) ≡ false
    → (sy < ey) ⊎ ((sy ≡ ey) × (sm ≤ em))
ordered sy sm ey em v w h =
    let reversed = (month_key-lt ey em sy sm v w).1 in
    let never : (text_lt (month_key ey em) (month_key sy sm) ≡ true) → ⊥ = λ e. cc in
    elim (dec_lt sy ey) [
      | yes earlier ↦ inl earlier
      | no not_earlier ↦ elim (dec_lt ey sy) [
        | yes later ↦ absurd (never (reversed (inl later)))
        | no not_later ↦
            let tie : sy ≡ ey = omega arith in
            elim (dec_lt em sm) [
              | yes later ↦ absurd (never (reversed (inr (sym tie, later))))
              | no not_later ↦ inr (tie, omega arith)
            ]
      ]
    ]

-- Whatever months and years the user has picked: when the form hands parameters on, nothing is
-- pending, and they are a start and an end that are months with data that have begun, the start not
-- after the end.
pub submit-IsRange :
    (today : Today) (chosen : List Pick) (pending : Bool) (ps : List (Text × Text))
    → IsToday today
    → submit range_names pending (picks today no_values chosen) ≡ some ps
    → (pending ≡ false) × IsRange today ps
submit-IsRange today chosen pending ps t h =
    let values = picks today no_values chosen in
    let fields = picks-AllFields today no_values chosen (no_values-AllFields today) in
    let w = submit-Handed pending values ps h in
    let (sy, sm, s_listed, s_text) =
      compose_field-IsListed today (value_at values (codes "start")) w.start
        (fields (codes "start")) (compose_at values (codes "start") w.start w.has_start) in
    let (ey, em, e_listed, e_text) =
      compose_field-IsListed today (value_at values (codes "end")) w.end (fields (codes "end"))
        (compose_at values (codes "end") w.end w.has_end) in
    let texts : text_lt (month_key ey em) (month_key sy sm) ≡ text_lt w.end w.start =
      ap₂ text_lt (sym e_text) (sym s_text) in
    (
      w.idle,
      record {
        start_year = sy;
        start_month = sm;
        end_year = ey;
        end_month = em;
        params = w.params ∙ ap₂ (λ a b. (codes "start", a) ∷ (codes "end", b) ∷ []) s_text e_text;
        start_listed = s_listed;
        end_listed = e_listed;
        in_order =
            ordered sy sm ey em (IsMonth-of today ey em t e_listed)
              (IsMonth-of today sy sm t s_listed) (texts ∙ w.in_order);
      },
    )
