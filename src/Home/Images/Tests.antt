-- ===== src/Home/Images/Tests.antt =====
-- Three containers.
use openscale.Base.{ℕ, codes, List, [], ◌∷◌, map, ◌≡◌, refl}
use openscale.Base.Decimal.{show}
use openscale.Home.Images.{ContainerResourceStat, Row, Formats, sort_by_memory, image_rows}
use openscale.Home.Images.Laws.{IsByMemory, sort_by_memory-IsByMemory}

abbrev container : ℕ → ℕ → ContainerResourceStat ℕ
container id bytes = record {
  id = show id;
  name = codes "worker";
  image = codes "openscale/worker";
  cpu_percent = 3;
  mem_usage_bytes = bytes;
  mem_limit_bytes = 0;
  mem_percent = 1;
}

abbrev running : List (ContainerResourceStat ℕ)
running = container 1 512 ∷ container 2 2048 ∷ container 3 512 ∷ []

abbrev plain : Formats ℕ
plain = record { fixed_one = show; mib = show; gib = show }

largest_first :
    map (λ (r : Row). r.key) (image_rows plain running) ≡ codes "2" ∷ codes "1" ∷ codes "3" ∷ []
unfolding image_rows show
largest_first = refl

sort_by_memory-IsByMemory_example : IsByMemory running (sort_by_memory running)
sort_by_memory-IsByMemory_example = sort_by_memory-IsByMemory running
