-- ===== src/Charts/Dashboard/Health.antt =====
-- `EtlHealthRow` of frontend/src/domains/dashboards/ui/DashboardsScreen.tsx: the outcomes of one job's
-- runs.
use openscale.Base.{
  ℕ, ◌+◌, ◌*◌, ◌<◌, ◌==◌, Text, codes, List, [], ◌∷◌, ◌++◌, ltb, ltb→lt, All, ◌≡◌, refl, ◌∙◌, inl,
  inr, Bool-cases, if◌then◌else◌, arith,
}
use openscale.Base.Decimal.{show}
use openscale.Charts.Console.{Percent}
use openscale.Charts.Labels.{format_duration_seconds}
use openscale.Charts.Dashboard.Entities.{JobTypeHealth}

-- A segment of a row of the pipeline's health: its share of the row, and its colour.
pub record Segment : Type 0 where
  pub width : Percent
  pub color : Text

abbrev pub segment : ℕ → ℕ → Text → List Segment
segment total count color =
    if ltb 0 count
    then record { width = record { num = 100 * count; den = total }; color = color } ∷ []
    else []

-- `a + b + c || 1`
abbrev pub total_of : JobTypeHealth → ℕ
total_of h =
    if (h.succeeded + h.partial + h.failed) == 0 then 1 else h.succeeded + h.partial + h.failed

unfoldable pub etl_segments : JobTypeHealth → List Segment
etl_segments h =
    segment (total_of h) h.succeeded (codes "var(--success)")
    ++ (segment (total_of h) h.partial (codes "var(--warning)")
        ++ segment (total_of h) h.failed (codes "var(--danger)"))

unfoldable pub etl_texts : JobTypeHealth → List Text
unfolding format_duration_seconds
etl_texts h =
    h.job_type
    ∷ (format_duration_seconds h.avg_duration_seconds ++ codes " avg")
    ∷ (show h.succeeded
        ++ (codes "✓ " ++ (show h.partial ++ (codes "~ " ++ (show h.failed ++ codes "✗")))))
    ∷ []

abbrev pub widths : List Segment → ℕ
widths [] = 0
widths (s ∷ ss) = s.width.num + widths ss

-- A segment that can be seen, as a share of `total`.
abbrev pub IsPart : ℕ → Segment → Type 0
IsPart total s = (0 < s.width.num) × (s.width.den ≡ total)

pub record FillsRow (h : JobTypeHealth) (segments : List Segment) : Type 0 where
  pub parts : All (IsPart (total_of h)) segments
  pub whole :
      widths segments ≡ (if (h.succeeded + h.partial + h.failed) == 0 then 0 else 100 * total_of h)

widths-append : (ss ts : List Segment) → widths (ss ++ ts) ≡ widths ss + widths ts
widths-append [] ts = omega arith
widths-append (s ∷ ss) ts = omega (arith, widths-append ss ts)

All-append :
    (total : ℕ) (ss ts : List Segment)
    → All (IsPart total) ss
    → All (IsPart total) ts
    → All (IsPart total) (ss ++ ts)
All-append total [] ts p q = q
All-append total (s ∷ ss) ts p q = (p.0, All-append total ss ts p.1 q)

widths-segment : (total count : ℕ) (color : Text) → widths (segment total count color) ≡ 100 * count
widths-segment total count color = elim (Bool-cases (ltb 0 count)) [
  | inl e ↦ rw e (omega arith)
  | inr e ↦ rw e (ground arith)
]

segment-IsPart : (total count : ℕ) (color : Text) → All (IsPart total) (segment total count color)
segment-IsPart total count color = elim (Bool-cases (ltb 0 count)) [
  | inl e ↦ let l = ltb→lt 0 count e in rw e ((omega arith, refl), tt)
  | inr e ↦ rw e tt
]

share : (n : ℕ) → 100 * n ≡ (if n == 0 then 0 else 100 * (if n == 0 then 1 else n))
share n = ground arith

-- The segments of a row are those of the outcomes that occurred, each with a share of the number of
-- runs, and together they fill the row, unless no run has completed.
etl_segments-FillsRow : (h : JobTypeHealth) → FillsRow h (etl_segments h)
unfolding etl_segments
etl_segments-FillsRow h =
    let t = total_of h in
    let a = segment t h.succeeded (codes "var(--success)") in
    let b = segment t h.partial (codes "var(--warning)") in
    let c = segment t h.failed (codes "var(--danger)") in
    let whole : widths (a ++ (b ++ c)) ≡ 100 * (h.succeeded + h.partial + h.failed) = omega (
      arith,
      widths-append a (b ++ c),
      widths-append b c,
      widths-segment t h.succeeded (codes "var(--success)"),
      widths-segment t h.partial (codes "var(--warning)"),
      widths-segment t h.failed (codes "var(--danger)"),
    ) in
    record {
      parts =
          All-append t a (b ++ c) (segment-IsPart t h.succeeded _)
            (All-append t b c (segment-IsPart t h.partial _) (segment-IsPart t h.failed _));
      whole = whole ∙ share (h.succeeded + h.partial + h.failed);
    }
