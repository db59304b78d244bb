-- ===== src/Memory/FreeList/Examples.antt =====
-- The heap at concrete tables of cells.
use sophon_rpi_cross.Base.{
  ℕ, ◌+◌, ◌*◌, ◌≡◌, ◌≢◌, refl, inr, true, false, Option, some, List, done, arith,
}
use sophon_rpi_cross.Memory.Powers.{ceil_from}
use sophon_rpi_cross.Memory.FreeList.{FreeListAllocator, Layout, alloc, free, refill}
use sophon_rpi_cross.Memory.FreeList.Refill.{push_all, Placed, refill_lem}
use sophon_rpi_cross.Memory.FreeList.Reuse.{alloc-free}

-- The resource counts the pages that it gave; the next range starts after them.
abbrev acquire_after : ℕ → ℕ → Option (ℕ × ℕ) × ℕ
acquire_after pages given =
    (some (0x400000 + given * 0x200000, 0x400000 + (given + pages) * 0x200000), given + pages)

abbrev keep_pages : ℕ → ℕ → ℕ → ℕ
keep_pages start end given = given

-- The kernel's heap before its first cell.
abbrev empty_heap : FreeListAllocator ℕ
empty_heap = record { cells = λ sc. 0; retry = false; page_resource = some 0; memory = λ x. 0 }

-- 6 MiB from an address that is 2 MiB past a multiple of 4 MiB.
refill_lem_example :
    (cells : List (ℕ × ℕ)) × (a' : FreeListAllocator ℕ) × (refill 22 acquire_after keep_pages
        0x600001 0x600000 0xc00000 empty_heap
      ≡ done a')
    × (push_all 22 acquire_after keep_pages cells empty_heap ≡ done a')
    × Placed 0x600000 0xc00000 cells
refill_lem_example =
    refill_lem 22 acquire_after keep_pages 0x600001 0x600000 0xc00000 empty_heap (omega arith)
      (omega arith) (omega arith) (omega arith) (omega arith) (omega arith)

-- 24 bytes, of alignment 8: a cell of 32 bytes.
abbrev small_layout : Layout
small_layout = record { bytes = 24; align = 8 }

alloc-free_example :
    (a₁ : FreeListAllocator ℕ) × (a₂ : FreeListAllocator ℕ) × (free 22 acquire_after keep_pages true
        0x1000 small_layout empty_heap
      ≡ done a₁)
    × (alloc 22 acquire_after keep_pages small_layout a₁ ≡ done (0x1000, a₂))
    × ((c : ℕ) → a₂.cells c ≡ empty_heap.cells c)
    × ((x : ℕ) → x ≢ 0x1000 → a₂.memory x ≡ empty_heap.memory x)
unfolding ceil_from
alloc-free_example =
    alloc-free 22 acquire_after keep_pages true 0x1000 small_layout empty_heap (omega arith)
      (omega arith) (inr (omega arith, λ c le. refl))
