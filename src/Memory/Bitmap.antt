-- ===== src/Memory/Bitmap.antt =====
-- libs/memory/src/bitmap_page_allocator.rs: a buddy allocator of units of 4 KiB. For each size class,
-- a bit for each cell of it says whether the cell is free; the bits of class `sc` stand from
-- 2 ^ (log_units - sc) on.
pub mod Bits
pub mod Cells
pub mod Acquire
pub mod Splits
pub mod Units
pub mod Array
mod Examples
use sophon_rpi_cross.Base.{
  ℕ, zero, suc, ◌+◌, ◌-◌, ◌*◌, ◌/◌, ◌%◌, ◌^◌, min, Bool, true, false, not, Option, none, some,
  Outcome, done, panic, index_out_of_range, ◌>>=◌, ◌>>◌, assert, unwrap, if◌then◌else◌, ◌==◌, ltb,
  leb, update,
}
use sophon_rpi_cross.Memory.Bits.{word_and, word_not}
use sophon_rpi_cross.Memory.Bits.Masks.{word_or, word_xor}
use sophon_rpi_cross.Memory.Powers.{trailing_zeros, log_ceil}
use sophon_rpi_cross.Memory.Address.{checked_add, checked_sub, distance}
use sophon_rpi_cross.Memory.Page.{PageSize, log_bytes, page_new, page_forward, page_steps}

abbrev pub free : ℕ
free = 1

abbrev pub used : ℕ
used = 0

-- `table_length`, of the heap of 2 ^ (log_units + 12) bytes.
abbrev pub table_length : ℕ → ℕ
table_length log_units = 2 ^ log_units * 2 / 8

pub record BitMapPageAllocator : Type 0 where
  pub base : ℕ
  pub table : ℕ → ℕ

-- `LOG_BITS_IN_WORD`, `BITS_IN_WORD`
abbrev pub log_bits_in_word : ℕ
log_bits_in_word = 6

abbrev pub bits_in_word : ℕ
bits_in_word = 2 ^ log_bits_in_word

-- `new`
abbrev pub new : BitMapPageAllocator
new = record { base = 0; table = λ i. 0 }

abbrev pub size_class : ℕ → ℕ
size_class units = log_ceil units

abbrev pub index_in_size_class : ℕ → ℕ → ℕ
index_in_size_class sc unit = unit / 2 ^ sc

abbrev pub sibling_unit : ℕ → ℕ → ℕ
sibling_unit sc unit = word_xor 64 unit (2 ^ sc)

abbrev pub parent_unit : ℕ → ℕ → ℕ
parent_unit sc unit = word_and 64 unit (word_not 64 (2 ^ (sc + 1) - 1))

-- `LOG_UNITS` is a parameter of the type.
module _ (log_units : ℕ) where
  abbrev pub entries_in_size_class : ℕ → ℕ
  entries_in_size_class sc = 2 ^ (log_units - sc)

  abbrev pub words_in_size_class : ℕ → ℕ
  words_in_size_class sc = 2 ^ (log_units - log_bits_in_word - sc)

  -- `self.table[i]`
  unfoldable pub word_at : ℕ → BitMapPageAllocator → Outcome ℕ
  word_at i m =
      if ltb i (table_length log_units) then done (m.table i) else panic index_out_of_range

  unfoldable pub get : ℕ → ℕ → BitMapPageAllocator → Outcome ℕ
  get sc i m = do
    e ← checked_sub log_units sc
    let bit_offset = 2 ^ e + i
    let shift = word_and 64 bit_offset (bits_in_word - 1)
    entry ← word_at (bit_offset / 2 ^ log_bits_in_word) m
    done (word_and 64 (entry / 2 ^ shift) 1)

  unfoldable pub set : ℕ → ℕ → ℕ → BitMapPageAllocator → Outcome BitMapPageAllocator
  set sc i v m = do
    e ← checked_sub log_units sc
    let bit_offset = 2 ^ e + i
    let shift = word_and 64 bit_offset (bits_in_word - 1)
    entry ← word_at (bit_offset / 2 ^ log_bits_in_word) m
    let new_entry =
        word_or 64 (v * 2 ^ shift % 2 ^ 64) (word_and 64 entry (word_not 64 (1 * 2 ^ shift)))
    done (record m { table = update m.table (bit_offset / 2 ^ log_bits_in_word) new_entry })

  abbrev pub get_unit : ℕ → ℕ → BitMapPageAllocator → Outcome ℕ
  get_unit sc unit m = get sc (index_in_size_class sc unit) m

  abbrev pub set_unit : ℕ → ℕ → ℕ → BitMapPageAllocator → Outcome BitMapPageAllocator
  set_unit sc unit v m = set sc (index_in_size_class sc unit) v m

  -- `init`
  unfoldable pub init : ℕ → BitMapPageAllocator → Outcome BitMapPageAllocator
  init base m = set_unit log_units 0 free (record m { base = base })

  -- The first free cell among the `n` from `index` on is taken.
  unfoldable pub scan : ℕ → ℕ → ℕ → BitMapPageAllocator → Outcome (Option ℕ × BitMapPageAllocator)
  scan zero sc index m = done (none, m)
  scan (suc n) sc index m = do
    v ← get sc index m
    let taken = (do m' ← set sc index used m; done (some (index * 2 ^ sc), m'))
    let rest = scan n sc (suc index) m
    if v == free then taken else rest

  -- The same in the `n` words from the `i`-th of the class on, where words of zeros are passed over.
  unfoldable pub scan_words :
      ℕ → ℕ → ℕ → BitMapPageAllocator → Outcome (Option ℕ × BitMapPageAllocator)
  scan_words zero sc i m = done (none, m)
  scan_words (suc n) sc i m = do
    entry ← word_at (2 ^ (log_units - log_bits_in_word - sc) + i) m
    let rest = scan_words n sc (suc i) m
    let here = scan bits_in_word sc (i * 2 ^ log_bits_in_word) m
    if entry == 0
        then rest
        else do (found, m') ← here; elim found [ none ↦ rest | some unit ↦ done (some unit, m') ]

  unfoldable pub search_and_allocate_cell :
      ℕ → BitMapPageAllocator → Outcome (Option ℕ × BitMapPageAllocator)
  search_and_allocate_cell sc m = do
    e ← checked_sub log_units log_bits_in_word
    if leb sc e
        then scan_words (words_in_size_class sc) sc 0 m
        else scan (entries_in_size_class sc) sc 0 m

  -- `acquire_cell`, with `n` classes from `sc` on.
  unfoldable pub acquire_above :
      ℕ → ℕ → BitMapPageAllocator → Outcome (Option ℕ × BitMapPageAllocator)
  acquire_above zero sc m = done (none, m)
  acquire_above (suc n) sc m = do
    (found, m₁) ← search_and_allocate_cell sc m
    let split = (do
      (parent, m₂) ← acquire_above n (suc sc) m₁
      elim parent [
        | none ↦ done (none, m₂)
        | some unit ↦ (do
          m₃ ← set_unit (suc sc) unit used m₂
          m₄ ← set_unit sc unit used m₃
          m₅ ← set_unit sc (unit + 2 ^ sc) free m₄
          done (some unit, m₅))
      ])
    elim found [ some unit ↦ done (some unit, m₁) | none ↦ split ]

  unfoldable pub acquire_cell : ℕ → BitMapPageAllocator → Outcome (Option ℕ × BitMapPageAllocator)
  acquire_cell sc m = acquire_above (suc log_units - sc) sc m

  -- `release_cell`, with `n` classes above `sc`.
  unfoldable pub release_below : ℕ → ℕ → ℕ → BitMapPageAllocator → Outcome BitMapPageAllocator
  release_below zero sc unit m = do
    v ← get_unit sc unit m
    assert (v == used)
    set_unit sc unit free m
  release_below (suc n) sc unit m = do
    v ← get_unit sc unit m
    assert (v == used)
    m₁ ← set_unit sc unit free m
    let sibling = sibling_unit sc unit
    let parent = parent_unit sc unit
    s ← get_unit sc sibling m₁
    let merge = (do
      m₂ ← set_unit sc unit used m₁
      m₃ ← set_unit sc sibling used m₂
      p ← get_unit (suc sc) parent m₃
      assert (p == used)
      release_below n (suc sc) parent m₃)
    if s == free then merge else done m₁

  unfoldable pub release_cell : ℕ → ℕ → BitMapPageAllocator → Outcome BitMapPageAllocator
  release_cell sc unit m = release_below (log_units - sc) sc unit m

  -- The loop of `release_units`, in at most `n` rounds.
  unfoldable pub release_loop : ℕ → ℕ → ℕ → BitMapPageAllocator → Outcome BitMapPageAllocator
  release_loop zero start limit m = done m
  release_loop (suc n) start limit m =
      let units = limit - start in
      let curr = size_class units in
      let prev = if units == 2 ^ curr then curr else curr - 1 in
      let sc = min prev (trailing_zeros start) in
      let end = start + 2 ^ sc in
      let round = (do
        assert (word_and 64 start (2 ^ sc - 1) == 0)
        assert (leb end limit)
        m' ← release_cell sc start m
        release_loop n end limit m') in
      if ltb start limit then round else done m

  unfoldable pub release_units : ℕ → ℕ → BitMapPageAllocator → Outcome BitMapPageAllocator
  release_units start units m = release_loop units start (start + units) m

  unfoldable pub acquire_units : ℕ → BitMapPageAllocator → Outcome (Option ℕ × BitMapPageAllocator)
  acquire_units units m = do
    let sc = size_class units
    (found, m₁) ← acquire_cell sc m
    elim found [
      | none ↦ done (none, m₁)
      | some start ↦
          (let trim = (do
            m₂ ← release_units (start + units) (2 ^ sc - units) m₁
            done (some start, m₂)) in
            if units == 2 ^ sc then done (some start, m₁) else trim)
    ]

  -- `acquire`: the first page of the range and the page after it.
  unfoldable pub acquire :
      PageSize → ℕ → BitMapPageAllocator → Outcome ((ℕ × ℕ) × BitMapPageAllocator)
  acquire s pages m = do
    (found, m') ← acquire_units (pages * 2 ^ (log_bytes s - 12) % 2 ^ 64) m
    unit ← unwrap found
    addr ← checked_add m.base (unit * 2 ^ 12 % 2 ^ 64)
    page ← page_new s addr
    last ← page_forward s page pages
    done ((page, last), m')

  -- `release`
  unfoldable pub release : PageSize → ℕ → ℕ → BitMapPageAllocator → Outcome BitMapPageAllocator
  release s first last m = do
    offset ← distance first m.base
    steps ← page_steps s first last
    pages ← unwrap steps
    release_units (offset / 2 ^ 12) (pages * 2 ^ (log_bytes s - 12) % 2 ^ 64) m
