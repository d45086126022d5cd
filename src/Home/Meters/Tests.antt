-- ===== src/Home/Meters/Tests.antt =====
-- The memory's meter in two styles.
use openscale.Base.{ℕ, ◌-◌, ◌/◌, min, codes, [], ◌∷◌, ◌≡◌, refl}
use openscale.Base.Decimal.{show}
use openscale.Home.Gauges.{crit, ResourceGauge}
use openscale.Home.Meters.{Percents, short_label, meter_of}
use openscale.Home.Meters.Laws.{texts, lit}
use openscale.Appearance.Settings.{ledger, ticks}

abbrev whole : Percents ℕ
whole = record {
  rounded = show;
  of_twenty = λ p. p / 5;
  clamped = λ p. min 100 p;
  from_hundred = λ p. 100 - p;
}

abbrev memory : ResourceGauge ℕ
memory = record {
  id = codes "container-memory";
  label = codes "Container Memory";
  sublabel = codes "15 / 16 GB";
  used_label = codes "15 GB";
  total_label = codes "16 GB";
  value_percent = 94;
  color = crit;
}

ledger_texts : texts (meter_of whole ledger memory) ≡ codes "Memory" ∷ codes "15 GB" ∷ []
unfolding meter_of short_label
ledger_texts = refl

eighteen_lit : lit (meter_of whole ticks memory) ≡ 18
unfolding meter_of
eighteen_lit = refl
