-- ===== src/Home/Meters/Laws.antt =====
-- What every style of the meters has in common.
use openscale.Base.{
  ℕ, zero, suc, ◌+◌, ◌-◌, min, Text, codes, List, [], ◌∷◌, ◌++◌, none, some, ltb, All, ◌≡◌, ◌⊎◌,
  inl, inr, refl, ◌∙◌, Bool-cases, arith,
}
use openscale.Home.Gauges.{ResourceGauge}
use openscale.Home.Meters.{
  color_var, short_label, Percents, Part, words, fill, track, dot, cap, tick, ring, Meter,
  tick_parts, meter_of, container_load_meters,
}
use openscale.Appearance.Settings.{
  ChartVariant, hatch, grid, paired, lollipop, area, block, split, ticks, capsule, ledger, ghost,
}

-- The text `t` is one of the texts.
abbrev pub Among : Text → List Text → Type 0
Among t [] = ⊥
Among t (u ∷ us) = (t ≡ u) ⊎ Among t us

module _ {Number : Type 0} where
  abbrev pub texts : List (Part Number) → List Text
  texts [] = []
  texts (words t ∷ ps) = t ∷ texts ps
  texts (p ∷ ps) = texts ps

  -- The number of lit segments.
  abbrev pub lit : List (Part Number) → ℕ
  lit [] = 0
  lit (tick (some color) ∷ ps) = suc (lit ps)
  lit (p ∷ ps) = lit ps

  -- A mark shows the gauge: it has the gauge's colour and its percentage, the ring after clamping.
  abbrev pub Draws : Percents Number → ResourceGauge Number → Part Number → Type 0
  Draws percents g (words t) = Unit
  Draws percents g track = Unit
  Draws percents g (fill w c) = (w ≡ g.value_percent) × (c ≡ color_var g.color)
  Draws percents g (dot w c) = (w ≡ g.value_percent) × (c ≡ color_var g.color)
  Draws percents g (cap w) = w ≡ g.value_percent
  Draws percents g (tick none) = Unit
  Draws percents g (tick (some c)) = c ≡ color_var g.color
  Draws percents g (ring p q c) =
      (p ≡ percents.clamped g.value_percent)
      × (q ≡ percents.from_hundred p)
      × (c ≡ color_var g.color)

  pub record IsMeterOf (percents : Percents Number) (g : ResourceGauge Number) (m : Meter Number)
      : Type 0 where
    pub key : m.key ≡ g.id
    pub draws : All (Draws percents g) m.parts
    pub label : Among g.label (texts m.parts) ⊎ Among (short_label g.label) (texts m.parts)
    pub amount :
        Among (percents.rounded g.value_percent ++ codes "%") (texts m.parts)
        ⊎ Among g.used_label (texts m.parts)

  module _ (percents : Percents Number) (g : ResourceGauge Number) where
    ticks-Draws :
        (n i on : ℕ) → All (Draws percents g) (tick_parts percents n i on (color_var g.color))
    unfolding tick_parts
    ticks-Draws zero i on = tt
    ticks-Draws (suc n) i on = elim (Bool-cases (ltb i on)) [
      | inl e ↦ rw e (refl, ticks-Draws n (suc i) on)
      | inr e ↦ rw e (tt, ticks-Draws n (suc i) on)
    ]

    lit-tick_parts :
        (n i on : ℕ)
        → lit (tick_parts percents n i on (color_var g.color)) ≡ min (i + n) on - min i on
    unfolding tick_parts
    lit-tick_parts zero i on = omega arith
    lit-tick_parts (suc n) i on = ground (arith, lit-tick_parts n (suc i) on)

    meter_of-IsMeterOf :
        (variant : ChartVariant)
        → IsMeterOf percents g (record { key = g.id; parts = meter_of percents variant g })
    unfolding meter_of
    meter_of-IsMeterOf hatch = record {
      key = refl;
      draws = (tt, (tt, (tt, ((refl, refl), (tt, (tt, tt))))));
      label = inl (inl refl);
      amount = inl (inr (inl refl));
    }
    meter_of-IsMeterOf grid = record {
      key = refl;
      draws = (tt, (tt, (tt, ((refl, refl), tt))));
      label = inl (inl refl);
      amount = inl (inr (inl refl));
    }
    meter_of-IsMeterOf paired = record {
      key = refl;
      draws = (tt, (tt, ((refl, refl), (tt, tt))));
      label = inl (inl refl);
      amount = inl (inr (inl refl));
    }
    meter_of-IsMeterOf lollipop = record {
      key = refl;
      draws = (tt, (tt, ((refl, refl), (tt, tt))));
      label = inr (inl refl);
      amount = inl (inr (inl refl));
    }
    meter_of-IsMeterOf area = record {
      key = refl;
      draws = (tt, (tt, (tt, ((refl, refl), (refl, tt)))));
      label = inl (inl refl);
      amount = inl (inr (inl refl));
    }
    meter_of-IsMeterOf block = record {
      key = refl;
      draws = (tt, (tt, ((refl, refl), (tt, tt))));
      label = inr (inl refl);
      amount = inl (inr (inl refl));
    }
    meter_of-IsMeterOf split = record {
      key = refl;
      draws = (tt, (tt, ((refl, refl), (tt, tt))));
      label = inr (inl refl);
      amount = inl (inr (inl refl));
    }
    meter_of-IsMeterOf ticks = record {
      key = refl;
      draws = (tt, (tt, ticks-Draws 20 0 (percents.of_twenty g.value_percent)));
      label = inl (inl refl);
      amount = inl (inr (inl refl));
    }
    meter_of-IsMeterOf capsule = record {
      key = refl;
      draws = (tt, (tt, (tt, ((refl, refl), (tt, (tt, tt))))));
      label = inl (inl refl);
      amount = inl (inr (inl refl));
    }
    meter_of-IsMeterOf ledger = record {
      key = refl;
      draws = (tt, (tt, ((refl, refl), (tt, tt))));
      label = inr (inl refl);
      amount = inr (inr (inl refl));
    }
    meter_of-IsMeterOf ghost = record {
      key = refl;
      draws = (tt, ((refl, refl, refl), (tt, (tt, tt))));
      label = inr (inr (inl refl));
      amount = inl (inl refl);
    }

    -- The meter of segments lights as many of its twenty as `Math.round` gives, and all of them above.
    pub lit-ticks : lit (meter_of percents ticks g) ≡ min 20 (percents.of_twenty g.value_percent)
    unfolding meter_of
    lit-ticks = lit-tick_parts 20 0 (percents.of_twenty g.value_percent) ∙ omega arith

  -- One meter for each gauge, in order.
  abbrev pub AreMeters :
      Percents Number → List (ResourceGauge Number) → List (Meter Number) → Type 0
  AreMeters percents [] [] = Unit
  AreMeters percents (g ∷ gs) (m ∷ ms) = IsMeterOf percents g m × AreMeters percents gs ms
  AreMeters percents [] (m ∷ ms) = ⊥
  AreMeters percents (g ∷ gs) [] = ⊥

  -- In every style there is one meter for each gauge, in order; it names the gauge, with or without
  -- the prefix of its label, and tells its rounded percentage or the amount used; every extent drawn
  -- is the gauge's percentage, clamped for the ring, and every mark is in the gauge's colour.
  container_load_meters-AreMeters :
      (percents : Percents Number) (variant : ChartVariant) (gauges : List (ResourceGauge Number))
      → AreMeters percents gauges (container_load_meters percents variant gauges)
  unfolding container_load_meters
  container_load_meters-AreMeters percents variant [] = tt
  container_load_meters-AreMeters percents variant (g ∷ gs) =
      (meter_of-IsMeterOf percents g variant, container_load_meters-AreMeters percents variant gs)
