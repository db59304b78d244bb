-- ===== src/Memory/Physical/Fill.antt =====
-- `release_contiguous` of sophon/src/memory/physical/physical_page_resource.rs: a range of memory
-- becomes free as cells, each as large as its alignment and what is left allow. An endless loop of the
-- source stands as a panic.
pub mod Class
pub mod Range
use sophon_rpi_cross.Base.{
  ℕ, zero, suc, ◌+◌, ◌-◌, ◌/◌, ◌^◌, min, Bool, true, false, not, List, [], ◌∷◌, Outcome, done,
  panic, explicit, ◌>>=◌, ◌>>◌, assert, if◌then◌else◌, ◌==◌, ltb,
}
use sophon_rpi_cross.Memory.Bits.{word_and}
use sophon_rpi_cross.Memory.Powers.{log_ceil, trailing_zeros}
use sophon_rpi_cross.Memory.Address.{checked_add, checked_sub}
use sophon_rpi_cross.Memory.Physical.{PhysicalPageResource, size, release_cell}

-- `size_class(size)`
unfoldable pub size_class_of : ℕ → Outcome ℕ
size_class_of n = checked_sub (log_ceil n) 12

-- The class of the next cell, at `start`, with `n` bytes left.
unfoldable pub next_class : ℕ → ℕ → Outcome ℕ
unfolding size_class_of
next_class start n = do
  curr ← size_class_of n
  prev ← (if n == size curr then done curr else checked_sub curr 1)
  zeros ← checked_sub (trailing_zeros start) 12
  done (min prev zeros)

-- `if !test { loop {} }`
abbrev pub loop_unless : Bool → Outcome (Unit {0})
loop_unless true = done tt
loop_unless false = panic explicit

-- The loop, with fuel.
unfoldable pub release_loop : ℕ → ℕ → ℕ → ℕ → PhysicalPageResource → Outcome PhysicalPageResource
unfolding next_class release_cell
release_loop zero start limit n r = panic explicit
release_loop (suc f) start limit n r =
    if ltb start limit
    then (do
      c ← next_class start n
      end ← checked_add start (size c)
      loop_unless (word_and 64 start (size c - 1) == 0)
      loop_unless (not (ltb limit end))
      r' ← release_cell start c r
      left ← checked_sub limit end
      release_loop f end limit left r')
    else (do assert (start == limit); done r)

-- Each round releases at least a page of 4K.
unfoldable pub release_contiguous : ℕ → ℕ → PhysicalPageResource → Outcome PhysicalPageResource
unfolding release_loop
release_contiguous start n r = do
  limit ← checked_add start n
  release_loop (suc (n / 2 ^ 12)) start limit n r

-- `init`: the ranges of frames that the boot loader reports, by their first and last address.
unfoldable pub init : List (ℕ × ℕ) → PhysicalPageResource → Outcome PhysicalPageResource
unfolding release_contiguous
init [] r = done r
init ((start, end) ∷ frames) r = do
  n ← checked_sub end start
  r' ← release_contiguous start n r
  init frames r'
