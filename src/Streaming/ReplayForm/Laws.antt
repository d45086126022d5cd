-- ===== src/Streaming/ReplayForm/Laws.antt =====
-- What the form hands on.
use openscale.Base.{
  ℕ, ◌*◌, ◌≤◌, ◌<◌, Text, Option, none, some, Bool, true, false, ◌||◌, ◌≡◌, ◌⊎◌, inl, inr, refl, ap,
  ltb, ltb→lt, ◌==◌, min, max, Bool-cases, arith,
}
use openscale.Streaming.ReplayForm.{
  Parsed, nan, minus, plus, or_default, clamp, FormState, ReplayParams, handle_submit, or_undefined,
}

-- `y` is the default where nothing or 0 was entered, and otherwise the nearest to `x` of the range.
pub data IsNearest (lo hi fallback : ℕ) : Parsed → ℕ → Type 0 where
  not_a_number : IsNearest lo hi fallback nan fallback
  entered_zero : (x : Parsed) → (x ≡ minus 0) ⊎ (x ≡ plus 0) → IsNearest lo hi fallback x fallback
  negative : (n : ℕ) → 0 < n → IsNearest lo hi fallback (minus n) lo
  too_small : (n : ℕ) → 0 < n → n < lo → IsNearest lo hi fallback (plus n) lo
  too_large : (n : ℕ) → hi < n → IsNearest lo hi fallback (plus n) hi
  inside : (n : ℕ) → lo ≤ n → n ≤ hi → IsNearest lo hi fallback (plus n) n

default_inside :
    (lo hi fallback : ℕ) → lo ≤ fallback → fallback ≤ hi → min (max lo fallback) hi ≡ fallback
default_inside lo hi fallback p q = omega arith

amount :
    (lo hi fallback n : ℕ) → 0 < n → lo ≤ hi → IsNearest lo hi fallback (plus n) (min (max lo n) hi)
amount lo hi fallback n pos h = elim (Bool-cases (ltb n lo)) [
  | inl small ↦
      let e : min (max lo n) hi ≡ lo = ground arith in rw e (too_small n pos (ltb→lt n lo small))
  | inr big ↦ elim (Bool-cases (ltb hi n)) [
    | inl large ↦
        let e : min (max lo n) hi ≡ hi = ground arith in rw e (too_large n (ltb→lt hi n large))
    | inr within ↦
        let e : min (max lo n) hi ≡ n = ground arith in
        rw e (inside n (ground arith) (ground arith))
  ]
]

clamp-or_default :
    (lo hi fallback : ℕ) (x : Parsed)
    → lo ≤ fallback
    → fallback ≤ hi
    → IsNearest lo hi fallback x (clamp lo hi (or_default fallback x))
clamp-or_default lo hi fallback nan q r = rw (default_inside lo hi fallback q r) not_a_number
clamp-or_default lo hi fallback (minus n) q r = elim (Bool-cases (n == 0)) [
  | inl zero' ↦
      let e : n ≡ 0 = ground arith in
      rw (zero', default_inside lo hi fallback q r) (entered_zero (minus n) (inl (ap minus e)))
  | inr other ↦ let e : min lo hi ≡ lo = omega arith in rw (other, e) (negative n (ground arith))
]
clamp-or_default lo hi fallback (plus n) q r = elim (Bool-cases (n == 0)) [
  | inl zero' ↦
      let e : n ≡ 0 = ground arith in
      rw (zero', default_inside lo hi fallback q r) (entered_zero (plus n) (inr (ap plus e)))
  | inr other ↦ rw other (amount lo hi fallback n (ground arith) (omega arith))
]

-- What the form may hand on.
pub data IsSubmission (tenth : ℕ) (number : Text → Parsed) (form : FormState)
    : Bool → Option ReplayParams → Type 0 where
  ignored : IsSubmission tenth number form true none
  submitted :
      (params : ReplayParams)
      → params.date ≡ or_undefined form.date
      → IsNearest
          (10 * tenth)
          (5000 * (10 * tenth))
          (500 * (10 * tenth))
          (number form.limit)
          params.limit
      → IsNearest tenth
          (100 * (10 * tenth))
          (10 * (10 * tenth))
          (number form.rate)
          params.messages_per_second
      → IsSubmission tenth number form false (some params)

-- What the form hands on: nothing while the start is pending or a replay is active; otherwise the
-- date if one was entered, a limit from 1 to 5000 and a rate from 0.1 to 100, each the number entered
-- or the nearest of its range, and 500 and 10 where nothing or 0 was entered.
pub handle_submit-IsSubmission :
    (tenth : ℕ) (number : Text → Parsed) (pending is_active : Bool) (form : FormState)
    → IsSubmission tenth number form
        (pending || is_active)
        (handle_submit tenth number pending is_active form)
unfolding handle_submit
handle_submit-IsSubmission tenth number true is_active form = ignored
handle_submit-IsSubmission tenth number false true form = ignored
handle_submit-IsSubmission tenth number false false form =
    submitted _ refl
      (clamp-or_default (10 * tenth) (5000 * (10 * tenth)) (500 * (10 * tenth)) (number form.limit)
        (omega arith) (omega arith))
      (clamp-or_default tenth (100 * (10 * tenth)) (10 * (10 * tenth)) (number form.rate)
        (omega arith) (omega arith))
