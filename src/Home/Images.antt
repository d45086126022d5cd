-- ===== src/Home/Images.antt =====
-- frontend/src/domains/home/ui/ContainerImageTable.tsx: the containers by the memory that they use.
-- Numbers of bytes are natural numbers, as the sort compares them.
mod Laws
mod Tests
use openscale.Base.{
  ℕ, Text, codes, List, [], ◌∷◌, ◌++◌, Option, none, some, Bool, true, false, ltb, map,
  if◌then◌else◌,
}

-- `cpu` is the host's number.
pub record ContainerResourceStat (Number : Type 0) : Type 0 where
  pub id : Text
  pub name : Text
  pub image : Text
  pub cpu_percent : Number
  pub mem_usage_bytes : ℕ
  pub mem_limit_bytes : ℕ
  pub mem_percent : Number

-- The texts of a row, `none` for a limit that is not set.
pub record Row : Type 0 where
  pub key : Text
  pub image : Text
  pub name : Text
  pub cpu : Text
  pub memory : Text
  pub limit : Option Text

-- `fixed_one` is `toFixed(1)`, `mib` is `formatMiB` and `gib` is `formatGiB`.
pub record Formats (Number : Type 0) : Type 0 where
  pub fixed_one : Number → Text
  pub mib : ℕ → Text
  pub gib : ℕ → Text

module _ {Number : Type 0} where
  -- `[...containers].sort((a, b) => b.memUsageBytes - a.memUsageBytes)`, which is stable: `c` goes
  -- before the first that uses no more than it does.
  unfoldable pub insert_by_memory :
      ContainerResourceStat Number
      → List (ContainerResourceStat Number)
      → List (ContainerResourceStat Number)
  insert_by_memory c [] = c ∷ []
  insert_by_memory c (d ∷ ds) =
      if ltb c.mem_usage_bytes d.mem_usage_bytes then d ∷ insert_by_memory c ds else c ∷ d ∷ ds

  unfoldable pub sort_by_memory :
      List (ContainerResourceStat Number) → List (ContainerResourceStat Number)
  unfolding insert_by_memory
  sort_by_memory [] = []
  sort_by_memory (c ∷ cs) = insert_by_memory c (sort_by_memory cs)

  module _ (formats : Formats Number) where
    abbrev pub row_of : ContainerResourceStat Number → Row
    row_of c = record {
      key = c.id;
      image = c.image;
      name = c.name;
      cpu = formats.fixed_one c.cpu_percent ++ codes "%";
      memory = formats.mib c.mem_usage_bytes ++ codes " MB";
      limit =
          if ltb 0 c.mem_limit_bytes
          then some (codes " / " ++ (formats.gib c.mem_limit_bytes ++ codes " GB"))
          else none;
    }

    -- The body of the table; no rows stand for the note `No running containers found.`
    unfoldable pub image_rows : List (ContainerResourceStat Number) → List Row
    unfolding sort_by_memory
    image_rows containers = map row_of (sort_by_memory containers)
