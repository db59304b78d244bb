-- ===== src/Memory/Physical.antt =====
-- sophon/src/memory/physical/physical_page_resource.rs: free physical memory as one list of cells for
-- each power of two. A list is threaded through the memory that is free: the first word of a cell is
-- the address of the next.
pub mod Lists
pub mod Split
pub mod Allocate
pub mod Fill
pub mod Frames
use sophon_rpi_cross.Base.{
  ℕ, zero, suc, ◌+◌, ◌-◌, ◌^◌, Bool, true, false, Option, none, some, Outcome, done, panic,
  index_out_of_range, ◌>>=◌, if◌then◌else◌, ◌==◌, ltb, update,
}

-- `NUM_SIZE_CLASS`, for addresses of 48 bits and cells from 4K up.
abbrev pub num_size_class : ℕ
num_size_class = 37

-- The table, and the word at each physical address.
pub record PhysicalPageResource : Type 0 where
  pub table : ℕ → ℕ
  pub memory : ℕ → ℕ

-- `size(size_class)`
abbrev pub size : ℕ → ℕ
size size_class = 2 ^ (size_class + 12)

unfoldable pub push : ℕ → ℕ → PhysicalPageResource → Outcome PhysicalPageResource
push cell size_class r =
    if ltb size_class num_size_class
    then done (record {
      table = update r.table size_class cell;
      memory = update r.memory cell (r.table size_class);
    })
    else panic index_out_of_range

unfoldable pub pop : ℕ → PhysicalPageResource → Outcome (Option ℕ × PhysicalPageResource)
pop size_class r =
    if ltb size_class num_size_class
    then (let cell = r.table size_class in
        if cell == 0
        then done (none, r)
        else done (some cell, record r { table = update r.table size_class (r.memory cell) }))
    else panic index_out_of_range

abbrev pub split_cell : ℕ → ℕ → ℕ × ℕ
split_cell parent parent_size_class = (parent, parent + 2 ^ (parent_size_class - 1 + 12))

-- The inner loop of `allocate_cell_slow`, with the number of rounds that are left: the parent is split
-- down to the size class that was asked for, and the second half of each split is free.
unfoldable pub split_down : ℕ → ℕ → ℕ → PhysicalPageResource → Outcome PhysicalPageResource
unfolding push
split_down zero request parent r = done r
split_down (suc n) request parent r = do
  let parent_size_class = request + suc n
  let (unit1, unit2) = split_cell parent parent_size_class
  r' ← push unit2 (parent_size_class - 1) r
  split_down n request parent r'

-- The outer loop, with the number of size classes that are left.
unfoldable pub search : ℕ → ℕ → ℕ → PhysicalPageResource → Outcome (Option ℕ × PhysicalPageResource)
unfolding pop split_down
search zero request size_class r = done (none, r)
search (suc n) request size_class r = do
  (found, r') ← pop size_class r
  elim found [
    | some unit ↦ (do
      r'' ← split_down (size_class - request) request unit r'
      done (some unit, r''))
    | none ↦ search n request (size_class + 1) r'
  ]

unfoldable pub allocate_cell_slow :
    ℕ → PhysicalPageResource → Outcome (Option ℕ × PhysicalPageResource)
unfolding search
allocate_cell_slow request r = search (num_size_class - request) request request r

unfoldable pub allocate_cell : ℕ → PhysicalPageResource → Outcome (Option ℕ × PhysicalPageResource)
unfolding pop allocate_cell_slow
allocate_cell size_class r = do
  (found, r') ← pop size_class r
  elim found [ some cell ↦ done (some cell, r') | none ↦ allocate_cell_slow size_class r' ]

unfoldable pub release_cell : ℕ → ℕ → PhysicalPageResource → Outcome PhysicalPageResource
unfolding push
release_cell cell size_class r = push cell size_class r
