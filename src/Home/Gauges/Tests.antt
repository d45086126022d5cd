-- ===== src/Home/Gauges/Tests.antt =====
-- A host of eight cores with a full memory.
use openscale.Base.{ℕ, codes, [], ◌∷◌, map, leb, ltb, ◌≡◌, refl}
use openscale.Base.Decimal.{show}
use openscale.Home.Gauges.{
  accent, crit, ResourceGauge, ResourceTotals, Numbers, color_for_percent, to_live_gauges,
}

abbrev naturals : Numbers ℕ
naturals = record {
  at_least = λ x n. leb n x;
  is_positive = λ x. ltb 0 x;
  gib = show;
  cores_busy = λ p n. show p;
  text_of = show;
}

abbrev full : ResourceTotals ℕ
full = record {
  cpu_percent = 12;
  mem_used_bytes = 15;
  mem_total_bytes = 16;
  mem_percent = 94;
  num_cpu = 8;
}

memory_is_critical :
    map (λ (g : ResourceGauge ℕ). g.color) (to_live_gauges naturals full) ≡ crit ∷ accent ∷ []
unfolding to_live_gauges color_for_percent
memory_is_critical = refl

memory_sublabel :
    map (λ (g : ResourceGauge ℕ). g.sublabel) (to_live_gauges naturals full)
    ≡ codes "15 / 16 GB" ∷ codes "12 / 8 cores" ∷ []
unfolding to_live_gauges show
memory_sublabel = refl
