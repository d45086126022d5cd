-- ===== src/Home/Images/Laws.antt =====
-- The rows are the containers, largest first, in the order given where they use as much.
use mathlib.Core.List.{Perm}
use mathlib.Core.List.Perm
use openscale.Base.{
  ℕ, ◌≤◌, List, [], ◌∷◌, false, ltb, ◌==◌, All, ◌≡◌, refl, ap, ◌∙◌, inl, inr, Bool-cases,
  if◌then◌else◌, arith,
}
use openscale.Home.Images.{ContainerResourceStat, insert_by_memory, sort_by_memory}

module _ {Number : Type 0} where
  -- No later container uses more.
  abbrev pub IsSorted : List (ContainerResourceStat Number) → Type 0
  IsSorted [] = Unit
  IsSorted (c ∷ cs) = All (λ d. d.mem_usage_bytes ≤ c.mem_usage_bytes) cs × IsSorted cs

  -- Those that use `n` bytes, in order.
  abbrev pub using : ℕ → List (ContainerResourceStat Number) → List (ContainerResourceStat Number)
  using n [] = []
  using n (c ∷ cs) = if c.mem_usage_bytes == n then c ∷ using n cs else using n cs

  All-le :
      (m n : ℕ) (cs : List (ContainerResourceStat Number))
      → m ≤ n
      → All (λ d. d.mem_usage_bytes ≤ m) cs
      → All (λ d. d.mem_usage_bytes ≤ n) cs
  All-le m n [] h a = tt
  All-le m n (c ∷ cs) h a = (omega arith, All-le m n cs h a.1)

  All-insert :
      (n : ℕ) (c : ContainerResourceStat Number) (cs : List (ContainerResourceStat Number))
      → c.mem_usage_bytes ≤ n
      → All (λ d. d.mem_usage_bytes ≤ n) cs
      → All (λ d. d.mem_usage_bytes ≤ n) (insert_by_memory c cs)
  unfolding insert_by_memory
  All-insert n c [] h a = (h, tt)
  All-insert n c (d ∷ ds) h a = elim (Bool-cases (ltb c.mem_usage_bytes d.mem_usage_bytes)) [
    | inl e ↦ rw e (a.0, All-insert n c ds h a.1)
    | inr e ↦ rw e (h, a)
  ]

  insert-IsSorted :
      (c : ContainerResourceStat Number) (cs : List (ContainerResourceStat Number))
      → IsSorted cs
      → IsSorted (insert_by_memory c cs)
  unfolding insert_by_memory
  insert-IsSorted c [] s = (tt, tt)
  insert-IsSorted c (d ∷ ds) s = elim (Bool-cases (ltb c.mem_usage_bytes d.mem_usage_bytes)) [
    | inl e ↦ rw e (All-insert d.mem_usage_bytes c ds (ground arith) s.0, insert-IsSorted c ds s.1)
    | inr e ↦
        let le : d.mem_usage_bytes ≤ c.mem_usage_bytes = ground arith in
        rw e ((le, All-le d.mem_usage_bytes c.mem_usage_bytes ds le s.0), s)
  ]

  insert-Perm :
      (c : ContainerResourceStat Number) (cs : List (ContainerResourceStat Number))
      → Perm (insert_by_memory c cs) (c ∷ cs)
  unfolding insert_by_memory
  insert-Perm c [] = Perm.refl (c ∷ [])
  insert-Perm c (d ∷ ds) = elim (Bool-cases (ltb c.mem_usage_bytes d.mem_usage_bytes)) [
    | inl e ↦ rw e (Perm.trans (Perm.cons d (insert-Perm c ds)) (Perm.swap c d ds))
    | inr e ↦ rw e (Perm.refl (c ∷ d ∷ ds))
  ]

  using_one :
      (n : ℕ) (c : ContainerResourceStat Number) (cs : List (ContainerResourceStat Number))
      → (c.mem_usage_bytes == n) ≡ false
      → using n (c ∷ cs) ≡ using n cs
  using_one n c cs e = rw e refl

  using-insert :
      (n : ℕ) (c : ContainerResourceStat Number) (cs : List (ContainerResourceStat Number))
      → using n (insert_by_memory c cs) ≡ using n (c ∷ cs)
  unfolding insert_by_memory
  using-insert n c [] = refl
  using-insert n c (d ∷ ds) = elim (Bool-cases (ltb c.mem_usage_bytes d.mem_usage_bytes)) [
    | inl e ↦ rw e (elim (Bool-cases (d.mem_usage_bytes == n)) [
      | inl f ↦
          let g : (c.mem_usage_bytes == n) ≡ false = ground arith in
          rw (f, g) (ap (◌∷◌ d) (using-insert n c ds ∙ using_one n c ds g))
      | inr f ↦ rw f (using-insert n c ds)
    ])
    | inr e ↦ rw e refl
  ]

  pub record IsByMemory (given shown : List (ContainerResourceStat Number)) : Type 0 where
    pub perm : Perm shown given
    pub sorted : IsSorted shown
    pub stable : (n : ℕ) → using n shown ≡ using n given

  using-cons :
      (n : ℕ) (c : ContainerResourceStat Number) (xs ys : List (ContainerResourceStat Number))
      → using n xs ≡ using n ys
      → using n (c ∷ xs) ≡ using n (c ∷ ys)
  using-cons n c xs ys h = elim (Bool-cases (c.mem_usage_bytes == n)) [
    | inl e ↦ rw e (ap (◌∷◌ c) h)
    | inr e ↦ rw e h
  ]

  -- The containers of the table are all those given, each once; none uses more memory than one above
  -- it, and those that use the same stand in the order given.
  pub sort_by_memory-IsByMemory :
      (containers : List (ContainerResourceStat Number))
      → IsByMemory containers (sort_by_memory containers)
  unfolding sort_by_memory
  sort_by_memory-IsByMemory [] = record { perm = Perm.refl []; sorted = tt; stable = λ n. refl }
  sort_by_memory-IsByMemory (c ∷ cs) =
      let ih = sort_by_memory-IsByMemory cs in
      let before = sort_by_memory cs in
      record {
        perm = Perm.trans (insert-Perm c before) (Perm.cons c ih.perm);
        sorted = insert-IsSorted c before ih.sorted;
        stable = λ n. using-insert n c before ∙ using-cons n c before cs (ih.stable n);
      }
