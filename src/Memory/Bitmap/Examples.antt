-- ===== src/Memory/Bitmap/Examples.antt =====
-- A bitmap allocator of 256 units.
use sophon_rpi_cross.Base.{ℕ, ◌-◌, ◌^◌, ◌≤◌, ◌<◌, ◌≡◌, ◌≢◌, ◌⊎◌, none, some, done, update, arith}
use sophon_rpi_cross.Memory.Bitmap.{BitMapPageAllocator, get, set, acquire_cell, free}
use sophon_rpi_cross.Memory.Bitmap.Bits.{bit_at, offset}
use sophon_rpi_cross.Memory.Bitmap.Acquire.{Acquired, acquire_cell_lem}
use sophon_rpi_cross.Memory.Bitmap.Array.{get-set}

-- After `init`: all units are one free cell.
abbrev all_free : BitMapPageAllocator
all_free = record { base = 0x100000; table = update (λ i. 0) 0 2 }

get-set_example :
    (m' : BitMapPageAllocator) × (set 8 3 5 1 all_free ≡ done m')
    × (get 8 3 5 m' ≡ done 1)
    × ((c j : ℕ) → c ≤ 8 → j < 2 ^ (8 - c) → (c ≢ 3) ⊎ (j ≢ 5) → get 8 c j m' ≡ get 8 c j all_free)
get-set_example = get-set 8 3 5 1 all_free (omega arith) (omega arith) (omega arith) (omega arith)

acquire_cell_lem_example :
    ((acquire_cell 8 2 all_free ≡ done (none, all_free))
      × ((c i : ℕ) → 2 ≤ c → c ≤ 8 → i < 2 ^ (8 - c) → bit_at all_free (offset 8 c i) ≢ free))
    ⊎ ((unit : ℕ) × (m' : BitMapPageAllocator) × (acquire_cell 8 2 all_free ≡ done (some unit, m'))
        × Acquired 8 (omega arith) 2 unit all_free m')
acquire_cell_lem_example = acquire_cell_lem 8 (omega arith) 2 all_free (omega arith)
