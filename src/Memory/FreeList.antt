-- ===== src/Memory/FreeList.antt =====
-- libs/memory/src/free_list_allocator.rs: a heap of cells, with a list of free cells for each power of
-- two. A list is threaded through the memory that is free: the first word of a cell is the address of
-- the next. Pages of 2 MiB come from a resource that is a parameter.
pub mod Refill
pub mod Reuse
mod Examples
use sophon_rpi_cross.Base.{
  ℕ, zero, suc, ◌+◌, ◌-◌, ◌*◌, ◌/◌, ◌^◌, min, max, Bool, true, false, not, Option, none, some,
  Outcome, done, panic, overflow, explicit, index_out_of_range, ◌>>=◌, ◌>>◌, assert, unwrap,
  if◌then◌else◌, ◌==◌, ltb, update,
}
use sophon_rpi_cross.Memory.Bits.{word_and}
use sophon_rpi_cross.Memory.Powers.{trailing_zeros, log_ceil}
use sophon_rpi_cross.Memory.Address.{checked_add, checked_sub, is_power_of_two}
use sophon_rpi_cross.Memory.Page.{size2m, page_new}

-- `core::alloc::Layout`
pub record Layout : Type 0 where
  pub bytes : ℕ
  pub align : ℕ

-- The allocator, the word at each address, and the page resource, where `init` has set it.
pub record FreeListAllocator (R : Type 0) : Type 0 where
  pub cells : ℕ → ℕ
  pub retry : Bool
  pub page_resource : Option R
  pub memory : ℕ → ℕ

abbrev pub min_size : ℕ
min_size = 2 ^ 4

-- `Size2M::LOG_BYTES`
abbrev pub log_2m : ℕ
log_2m = 21

abbrev pub size_class : ℕ → ℕ
size_class block_size = log_ceil block_size

-- `layout.pad_to_align().size()`: up to the next multiple of the alignment.
abbrev pub padded : Layout → ℕ
padded layout = (layout.bytes + (layout.align - 1)) / layout.align * layout.align

abbrev pub cell_size : Layout → ℕ
cell_size layout = max (padded layout) min_size

-- `if size.is_power_of_two() { .. } else { .. }` of `alloc_cell_slow`.
abbrev pub floor_class : ℕ → Outcome ℕ
floor_class size =
    if is_power_of_two size then done (size_class size) else checked_sub (size_class size) 1

-- `1 << align`, by a number of zeros that may be that of the whole word.
abbrev pub checked_shift : ℕ → Outcome ℕ
checked_shift n = if ltb n 64 then done (2 ^ n) else panic overflow

-- The resource takes and gives ranges of pages, by their first and last address.
module _ {R : Type 0} (log_heap_size : ℕ) (acquire_pages : ℕ → R → Option (ℕ × ℕ) × R)
    (release_pages : ℕ → ℕ → R → R) where
  -- `self.cells.len()`
  abbrev pub table_len : ℕ
  table_len = log_heap_size + 1

  unfoldable pub pop_cell : ℕ → FreeListAllocator R → Outcome (Option ℕ × FreeListAllocator R)
  pop_cell sc a =
      if ltb sc table_len
      then (let cell = a.cells sc in
          if cell == 0
          then done (none, a)
          else done (some cell, record a { cells = update a.cells sc (a.memory cell) }))
      else panic index_out_of_range

  unfoldable pub push_cell : ℕ → ℕ → FreeListAllocator R → Outcome (FreeListAllocator R)
  push_cell sc cell a =
      if ltb sc table_len
      then done
          (record a { memory = update a.memory cell (a.cells sc); cells = update a.cells sc cell })
      else panic index_out_of_range

  -- The inner loop of `release_large_pages`: the cells of a class go back to the resource.
  unfoldable pub drain : ℕ → ℕ → FreeListAllocator R → Outcome (FreeListAllocator R)
  unfolding pop_cell page_new
  drain zero sc a = panic explicit
  drain (suc f) sc a = do
    (found, a₁) ← pop_cell sc a
    elim found [
      | none ↦ done a₁
      | some cell ↦ (do
        start ← page_new size2m cell
        r ← unwrap a₁.page_resource
        end ← checked_add start (2 ^ sc)
        drain f sc (record a₁ { page_resource = some (release_pages start end r) }))
    ]

  -- The outer loop, with the number of classes that are left. No more than 2 ^ 43 cells of 2 MiB are
  -- free at a time.
  unfoldable pub release_from : ℕ → ℕ → FreeListAllocator R → Outcome (FreeListAllocator R)
  unfolding drain
  release_from zero sc a = done a
  release_from (suc n) sc a = do a₁ ← drain (2 ^ 43) sc a; release_from n (sc + 1) a₁

  unfoldable pub release_large_pages : FreeListAllocator R → Outcome (FreeListAllocator R)
  unfolding release_from
  release_large_pages a = release_from (table_len - log_2m) log_2m a

  -- With the number of classes that are left.
  unfoldable pub alloc_cell_from :
      ℕ → ℕ → FreeListAllocator R → Outcome (Option ℕ × FreeListAllocator R)
  unfolding pop_cell push_cell
  alloc_cell_from zero sc a = done (none, a)
  alloc_cell_from (suc n) sc a = do
    (found, a₁) ← pop_cell sc a
    elim found [
      | some cell ↦ done (some cell, a₁)
      | none ↦ (do
        (next_level_cell, a₂) ← alloc_cell_from n (sc + 1) a₁
        elim next_level_cell [
          | none ↦ done (none, a₂)
          | some cell0 ↦ (do
            cell1 ← checked_add cell0 (2 ^ sc)
            a₃ ← push_cell sc cell1 a₂
            done (some cell0, a₃))
        ])
    ]

  unfoldable pub alloc_cell : ℕ → FreeListAllocator R → Outcome (Option ℕ × FreeListAllocator R)
  unfolding alloc_cell_from
  alloc_cell sc a = alloc_cell_from (table_len - sc) sc a

  -- The loop of `alloc_cell_slow` that cuts the new pages into cells, with fuel.
  unfoldable pub refill : ℕ → ℕ → ℕ → FreeListAllocator R → Outcome (FreeListAllocator R)
  unfolding push_cell
  refill zero cursor end a = panic explicit
  refill (suc f) cursor end a =
      if ltb cursor end
      then (do
        align ← checked_shift (trailing_zeros cursor)
        left ← checked_sub end cursor
        let size = min align left
        assert (ltb 0 size)
        sc ← floor_class size
        assert (word_and 64 cursor (2 ^ sc - 1) == 0)
        a₁ ← push_cell sc cursor a
        next ← checked_add cursor size
        refill f next end a₁)
      else done a

  -- `alloc_cell_slow` calls itself once at most, with `retry` set.
  unfoldable pub alloc_cell_slow_from :
      ℕ → ℕ → FreeListAllocator R → Outcome (ℕ × FreeListAllocator R)
  unfolding alloc_cell refill
  alloc_cell_slow_from zero sc a = panic explicit
  alloc_cell_slow_from (suc f) sc a = do
    (found, a₁) ← alloc_cell sc a
    elim found [
      | some cell ↦ done (cell, a₁)
      | none ↦ (do
        assert (not a₁.retry)
        let pages = (2 ^ sc + (2 ^ log_2m - 1)) / 2 ^ log_2m * 2
        r ← unwrap a₁.page_resource
        let (range, r₁) = acquire_pages pages r
        (start, end) ← unwrap range
        a₂ ← refill (suc (end - start)) start end (record a₁ { page_resource = some r₁ })
        (x, a₃) ← alloc_cell_slow_from f sc (record a₂ { retry = true })
        done (x, record a₃ { retry = false }))
    ]

  unfoldable pub alloc : Layout → FreeListAllocator R → Outcome (ℕ × FreeListAllocator R)
  unfolding pop_cell alloc_cell_slow_from
  alloc layout a = do
    let sc = size_class (cell_size layout)
    (found, a₁) ← pop_cell sc a
    elim found [ some cell ↦ done (cell, a₁) | none ↦ alloc_cell_slow_from 2 sc a₁ ]

  -- `RELEASE_LARGE_PAGES` is a parameter of the type.
  unfoldable pub free : Bool → ℕ → Layout → FreeListAllocator R → Outcome (FreeListAllocator R)
  unfolding push_cell release_large_pages
  free release_large start layout a = do
    a₁ ← push_cell (size_class (cell_size layout)) start a
    if release_large then release_large_pages a₁ else done a₁
