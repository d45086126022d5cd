-- ===== src/Home/Overview/Laws.antt =====
-- The revenue trend.
use openscale.Base.{
  ℕ, zero, suc, ◌+◌, ◌/◌, ◌≤◌, ◌<◌, codes, List, [], ◌∷◌, ◌++◌, map, Option, ltb, length, take,
  drop, length-take, length-drop, ◌≡◌, ◌⊎◌, inl, inr, refl, ap, sym, arith, Bool-cases,
}
use openscale.Home.Overview.{
  RevenueTrend, ApiHomeStats, Texts, sum, or_zero, first_half, second_half, is_rise,
  to_revenue_trend,
}

sum-take-drop : (n : ℕ) (xs : List ℕ) → sum (take n xs) + sum (drop n xs) ≡ sum xs
sum-take-drop zero xs = omega arith
sum-take-drop (suc n) [] = omega arith
sum-take-drop (suc n) (x ∷ xs) = omega (arith, sum-take-drop n xs)

length-map : (points : List (Option ℕ)) → length (map or_zero points) ≡ length points
length-map [] = refl
length-map (p ∷ ps) = ap suc (length-map ps)

-- The trend of at least two points: its values, and its two halves, neither empty, which add up to
-- the total; the arrow points down exactly if the second half is less than the first.
pub record IsTrend (texts : Texts) (values : List ℕ) (trend : RevenueTrend) : Type 0 where
  pub all_values : trend.values ≡ values
  pub first_given : 1 ≤ length (take (length values / 2) values)
  pub second_given : 1 ≤ length (drop (length values / 2) values)
  pub whole : first_half texts values + second_half texts values ≡ sum values
  pub total :
      trend.total_label ≡ texts.format_currency (first_half texts values + second_half texts values)
  pub change :
      let percent =
        codes " "
        ++ (texts.percent_between (first_half texts values) (second_half texts values)
            ++ codes "%") in
      ((first_half texts values ≤ second_half texts values)
        × (trend.change_label ≡ codes "▲" ++ percent))
      ⊎ ((second_half texts values < first_half texts values)
          × (trend.change_label ≡ codes "▼" ++ percent))

-- With fewer than two points the trend is the fallback. Otherwise it holds every point, a missing
-- amount as nothing, and compares two halves of it, neither empty, that add up to its total: the
-- arrow points up if the second half is at least the first, and down if it is less.
to_revenue_trend_lem :
    (texts : Texts) (stats : ApiHomeStats) (fallback : RevenueTrend)
    → let points = stats.revenue_trend_14d in
      let trend = to_revenue_trend texts stats fallback in
      ((length points < 2) × (trend ≡ fallback)) ⊎ IsTrend texts (map or_zero points) trend
unfolding to_revenue_trend
to_revenue_trend_lem texts stats fallback =
    let values = map or_zero stats.revenue_trend_14d in
    let size = length-map stats.revenue_trend_14d in
    elim (Bool-cases (ltb (length values) 2)) [
      | inl few ↦ inl (ground (arith, size), rw few refl)
      | inr enough ↦
          let two : 2 ≤ length values = ground arith in
          let whole = sum-take-drop (length values / 2) values in
          inr (
            rw enough (record {
              all_values = refl;
              first_given = omega (arith, length-take (length values / 2) values);
              second_given = omega (arith, length-drop (length values / 2) values);
              whole = whole;
              total = ap texts.format_currency (sym whole);
              change = elim (Bool-cases (is_rise texts values)) [
                | inl rise ↦ rw rise (inl (ground arith, refl))
                | inr fall ↦ rw fall (inr (ground arith, refl))
              ];
            }))
    ]
