-- ===== src/Memory/Examples.antt =====
-- Addresses, pages, and a physical page allocator with one free cell of 16K.
use sophon_rpi_cross.Base.{
  Option, Outcome, panic, count, ℕ, ◌+◌, ◌≤◌, ◌%◌, subst, ◌<◌, ◌≡◌, ◌↔◌, ◌⊎◌, inl, inr, refl, Bool,
  true, false, some, List, [], ◌∷◌, done, panic, if◌then◌else◌, ◌==◌, arith, Bool-cases,
}
use sophon_rpi_cross.Memory.Page.{size4k}
use sophon_rpi_cross.Memory.Physical.{size, PhysicalPageResource, allocate_cell}
use sophon_rpi_cross.Memory.Physical.Lists.{Chain, Keeps, FreeAt}
use sophon_rpi_cross.Memory.Physical.Allocate.{Allocation}
use sophon_rpi_cross.Memory.Physical.Fill.{release_contiguous}
use sophon_rpi_cross.Memory.Physical.Fill.Range.{OutRange, IsPages, release_contiguous_lem}
use sophon_rpi_cross.Memory.Powers.{ceil_from}
use sophon_rpi_cross.Memory.Page.{page_new}
use sophon_rpi_cross.Memory.Physical.Frames.{acquire, release, acquire_lem, release-acquire}

abbrev one_cell : ℕ → List ℕ
one_cell c = if c == 2 then 0x400000 ∷ [] else []

abbrev with_cell : PhysicalPageResource
with_cell = record { table = λ c. if c == 2 then 0x400000 else 0; memory = λ a. 0 }

one_cell-Chain :
    (c : ℕ) (b : Bool)
    → Chain (λ a. 0) (if b then 0x400000 else 0) (if b then 0x400000 ∷ [] else [])
one_cell-Chain c true = (refl, (λ e. omega arith), refl)
one_cell-Chain c false = refl

one_cell-aligned : (c x : ℕ) → 0 < count x (one_cell c) → x % size c ≡ 0
one_cell-aligned c x h = elim (Bool-cases (c == 2)) [
  | inl e ↦
      let class : 2 ≡ c = ground arith in
      let cell : 0x400000 ≡ x = ground arith in
      subst (λ y. y % size c ≡ 0) cell (subst (λ d. 0x400000 % size d ≡ 0) class refl)
  | inr n ↦ ground arith
]

with_cell-Keeps : Keeps with_cell one_cell
with_cell-Keeps = record {
  chain = λ c. one_cell-Chain c (c == 2);
  once = λ c x. ground arith;
  aligned = λ c x h. one_cell-aligned c x h;
  disjoint = λ c x d y h h'. ground arith;
}

abbrev no_cell : ℕ → List ℕ
no_cell c = []

abbrev without_cell : PhysicalPageResource
without_cell = record { table = λ c. 0; memory = λ a. 0 }

-- A frame of 4K is split off the cell.
acquire_lem_example : Allocation 0 one_cell with_cell (acquire size4k with_cell)
acquire_lem_example = acquire_lem size4k with_cell one_cell with_cell-Keeps

abbrev rest_of : Outcome (Option ℕ × PhysicalPageResource) → PhysicalPageResource
rest_of (done (o, r)) = r
rest_of (panic p) = without_cell

abbrev after : PhysicalPageResource
after = rest_of (acquire size4k with_cell)

acquires : acquire size4k with_cell ≡ done (some 0x400000, after)
unfolding acquire allocate_cell ceil_from page_new
acquires = refl

release-acquire_example :
    (r'' : PhysicalPageResource) × (lists'' : ℕ → List ℕ) × (release size4k 0x400000 after
      ≡ done r'')
    × Keeps r'' lists''
    × ((a : ℕ) → FreeAt lists'' a ↔ FreeAt one_cell a)
release-acquire_example =
    release-acquire size4k 0x400000 with_cell after one_cell with_cell-Keeps acquires

no_cell-Keeps : Keeps without_cell no_cell
no_cell-Keeps = record {
  chain = λ c. refl;
  once = λ c x. omega arith;
  aligned = λ c x h. absurd (omega arith);
  disjoint = λ c x d y h h'. absurd (omega arith);
}

three-IsPages : IsPages 0x7f000 (0x7f000 + 0x3000)
three-IsPages = record {
  start_aligned = refl;
  whole_pages = refl;
  ordered = omega arith;
  below = omega arith;
  not_null = λ e. omega arith;
}

no_cell-OutRange : OutRange 0x7f000 (0x7f000 + 0x3000) no_cell
unfolding OutRange
no_cell-OutRange d y h = absurd (omega arith)

release_contiguous_lem_example :
    (r' : PhysicalPageResource) × (lists' : ℕ → List ℕ) × (release_contiguous 0x7f000 0x3000
        without_cell
      ≡ done r')
    × Keeps r' lists'
    × ((a : ℕ) → FreeAt lists' a ↔ (FreeAt no_cell a ⊎ ((0x7f000 ≤ a) × (a < 0x7f000 + 0x3000))))
release_contiguous_lem_example =
    release_contiguous_lem 0x7f000 0x3000 without_cell no_cell no_cell-Keeps three-IsPages
      no_cell-OutRange
