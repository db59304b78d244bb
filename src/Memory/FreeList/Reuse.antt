-- ===== src/Memory/FreeList/Reuse.antt =====
-- `free` and then `alloc`, and what `release_large_pages` does where no cell is large.
use sophon_rpi_cross.Base.{
  ℕ, zero, suc, ◌+◌, ◌-◌, ◌^◌, ◌≤◌, ◌<◌, ◌≡◌, ◌≢◌, ◌⊎◌, inl, inr, refl, sym, ◌∙◌, Bool, true, false,
  Option, some, done, if◌then◌else◌, ◌==◌, leb, update, update_self, update_ne, arith, Bool-cases,
  lt→ltb,
}
use sophon_rpi_cross.Memory.FreeList.{
  FreeListAllocator, Layout, size_class, cell_size, log_2m, pop_cell, push_cell, drain,
  release_from, release_large_pages, alloc, free,
}

-- No cell of 2 MiB or more is free, and the class is a smaller one.
abbrev pub OnlySmall : {R : Type 0} → ℕ → FreeListAllocator R → Type 0
OnlySmall sc a = (sc < log_2m) × ((c : ℕ) → log_2m ≤ c → a.cells c ≡ 0)

module _ {R : Type 0} (log_heap_size : ℕ) (acquire_pages : ℕ → R → Option (ℕ × ℕ) × R)
    (release_pages : ℕ → ℕ → R → R) where
  drain_empty :
      (f c : ℕ) (a : FreeListAllocator R)
      → 0 < f
      → c < log_heap_size + 1
      → a.cells c ≡ 0
      → drain log_heap_size acquire_pages release_pages f c a ≡ done a
  unfolding drain pop_cell
  drain_empty zero c a pos lt none_free = absurd (omega arith)
  drain_empty (suc f) c a pos lt none_free = rw (lt→ltb c (log_heap_size + 1) lt, none_free) refl

  release_from_empty :
      (n c : ℕ) (a : FreeListAllocator R)
      → c + n ≤ log_heap_size + 1
      → log_2m ≤ c
      → ((d : ℕ) → log_2m ≤ d → a.cells d ≡ 0)
      → release_from log_heap_size acquire_pages release_pages n c a ≡ done a
  unfolding release_from
  release_from_empty zero c a le large none_free = refl
  release_from_empty (suc n) c a le large none_free =
      rw (drain_empty (2 ^ 43) c a (omega arith) (omega arith) (none_free c large))
        (release_from_empty n (c + 1) a (omega arith) (omega arith) none_free)

  release_nothing :
      (a : FreeListAllocator R)
      → ((d : ℕ) → log_2m ≤ d → a.cells d ≡ 0)
      → release_large_pages log_heap_size acquire_pages release_pages a ≡ done a
  unfolding release_large_pages
  release_nothing a none_free = elim (Bool-cases (leb log_2m (log_heap_size + 1))) [
    | inl y ↦
        release_from_empty (log_heap_size + 1 - log_2m) log_2m a (ground arith) (omega arith)
          none_free
    | inr off ↦ let zero_left : log_heap_size + 1 - log_2m ≡ 0 = ground arith in rw zero_left refl
  ]

  abbrev pushed : ℕ → ℕ → FreeListAllocator R → FreeListAllocator R
  pushed sc start a = record a {
    memory = update a.memory start (a.cells sc);
    cells = update a.cells sc start;
  }

  abbrev popped : ℕ → FreeListAllocator R → FreeListAllocator R
  popped sc a = record a { cells = update a.cells sc (a.memory (a.cells sc)) }

  push_cell-pushed :
      (sc start : ℕ) (a : FreeListAllocator R)
      → sc < log_heap_size + 1
      → push_cell log_heap_size acquire_pages release_pages sc start a ≡ done (pushed sc start a)
  unfolding push_cell
  push_cell-pushed sc start a lt = rw (lt→ltb sc (log_heap_size + 1) lt) refl

  pop_cell-popped :
      (sc start : ℕ) (a : FreeListAllocator R)
      → sc < log_heap_size + 1
      → a.cells sc ≡ start
      → start ≢ 0
      → pop_cell log_heap_size acquire_pages release_pages sc a ≡ done (some start, popped sc a)
  unfolding pop_cell
  pop_cell-popped sc start a lt e nz =
      let full : (start == 0) ≡ false = ground arith in
      rw (lt→ltb sc (log_heap_size + 1) lt, e, full) refl

  popped-cells :
      (sc start c : ℕ) (a : FreeListAllocator R)
      → (popped sc (pushed sc start a)).cells c ≡ a.cells c
  popped-cells sc start c a = ground arith

  released :
      (release_large : Bool) (sc start : ℕ) (a : FreeListAllocator R)
      → (release_large ≡ false) ⊎ OnlySmall sc a
      → (if release_large
          then release_large_pages log_heap_size acquire_pages release_pages (pushed sc start a)
          else done (pushed sc start a))
        ≡ done (pushed sc start a)
  released false sc start a large = refl
  released true sc start a (inl h) = absurd (ground arith)
  released true sc start a (inr (small, none_free)) =
      release_nothing (pushed sc start a)
        λ d le. update_ne a.cells sc d start (λ e. omega (arith, e, small, le)) ∙ none_free d le

  -- A cell that is freed is the one that the next `alloc` of its layout hands out, for any table of
  -- free cells: after both the lists are as before, and only the first word of the cell has changed.
  -- The cell is not at address 0, its class has a list, and large pages are not released, or there
  -- are none.
  pub alloc-free :
      (release_large : Bool) (start : ℕ) (layout : Layout) (a : FreeListAllocator R)
      → size_class (cell_size layout) < log_heap_size + 1
      → start ≢ 0
      → (release_large ≡ false) ⊎ OnlySmall (size_class (cell_size layout)) a
      → (a₁ : FreeListAllocator R) × (a₂ : FreeListAllocator R) × (free log_heap_size acquire_pages
            release_pages release_large start layout a
          ≡ done a₁)
        × (alloc log_heap_size acquire_pages release_pages layout a₁ ≡ done (start, a₂))
        × ((c : ℕ) → a₂.cells c ≡ a.cells c)
        × ((x : ℕ) → x ≢ start → a₂.memory x ≡ a.memory x)
  unfolding free alloc
  alloc-free release_large start layout a lt nz large =
      let sc = size_class (cell_size layout) in
      (
        pushed sc start a,
        popped sc (pushed sc start a),
        rw (push_cell-pushed sc start a lt) (released release_large sc start a large),
        rw (pop_cell-popped sc start (pushed sc start a) lt (update_self a.cells sc start) nz) refl,
        λ c. popped-cells sc start c a,
        λ x ne. update_ne a.memory start x (a.cells sc) (λ e. ne (sym e)),
      )
