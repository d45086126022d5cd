-- ===== src/Home/Gauges.antt =====
-- frontend/src/domains/home/domain/rules.ts: the two live gauges. Numbers are the host's, with the
-- texts and the comparisons that the rules use.
mod Tests
use openscale.Base.{ℕ, Text, codes, List, [], ◌∷◌, ◌++◌, Bool, true, false, if◌then◌else◌}

pub data GaugeColor : Type 0 where
  accent good warn crit : GaugeColor

pub record ResourceGauge (Number : Type 0) : Type 0 where
  pub id : Text
  pub label : Text
  pub sublabel : Text
  pub used_label : Text
  pub total_label : Text
  pub value_percent : Number
  pub color : GaugeColor

pub record ResourceTotals (Number : Type 0) : Type 0 where
  pub cpu_percent : Number
  pub mem_used_bytes : Number
  pub mem_total_bytes : Number
  pub mem_percent : Number
  pub num_cpu : Number

-- `at_least x n` is `x >= n`; `is_positive` is `x > 0`; `gib` is `(bytes / GIB).toFixed(1)`;
-- `cores_busy` is `((cpuPercent / 100) * numCpu).toFixed(1)`; `text_of` is the text of a number.
pub record Numbers (Number : Type 0) : Type 0 where
  pub at_least : Number → ℕ → Bool
  pub is_positive : Number → Bool
  pub gib : Number → Text
  pub cores_busy : Number → Number → Text
  pub text_of : Number → Text

module _ {Number : Type 0} (numbers : Numbers Number) where
  unfoldable pub color_for_percent : Number → GaugeColor
  color_for_percent percent =
      if numbers.at_least percent 85
      then crit
      else if numbers.at_least percent 60
      then warn
      else accent

  abbrev pub cores : Number → Text → Text
  cores num_cpu label = if numbers.is_positive num_cpu then label else codes "—"

  unfoldable pub to_live_gauges : ResourceTotals Number → List (ResourceGauge Number)
  unfolding color_for_percent
  to_live_gauges totals =
      let used = numbers.gib totals.mem_used_bytes in
      let all_of = numbers.gib totals.mem_total_bytes in
      let busy = numbers.cores_busy totals.cpu_percent totals.num_cpu in
      let total = numbers.text_of totals.num_cpu in
      record {
        id = codes "container-memory";
        label = codes "Container Memory";
        sublabel = used ++ (codes " / " ++ (all_of ++ codes " GB"));
        used_label = used ++ codes " GB";
        total_label = all_of ++ codes " GB";
        value_percent = totals.mem_percent;
        color = color_for_percent totals.mem_percent;
      }
      ∷ record {
        id = codes "container-cpu";
        label = codes "Container CPU";
        sublabel = cores totals.num_cpu (busy ++ (codes " / " ++ (total ++ codes " cores")));
        used_label = cores totals.num_cpu (busy ++ codes " cores");
        total_label = cores totals.num_cpu (total ++ codes " cores");
        value_percent = totals.cpu_percent;
        color = color_for_percent totals.cpu_percent;
      }
      ∷ []
