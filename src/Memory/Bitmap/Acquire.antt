-- ===== src/Memory/Bitmap/Acquire.antt =====
-- `acquire_cell` of libs/memory/src/bitmap_page_allocator.rs: the first free cell of the class, or one
-- of the halves of a larger one.
use sophon_rpi_cross.Base.{
  ℕ, zero, suc, ◌+◌, ◌-◌, ◌*◌, ◌/◌, ◌^◌, ◌≤◌, ◌<◌, ◌≡◌, ◌≢◌, ◌⊎◌, inl, inr, refl, sym, ap, ◌∙◌,
  subst, none, some, done, if◌then◌else◌, ◌==◌, ==→eq, ==→ne, leb, arith, Bool-cases,
}
use native.Mathlib.Nat.{mul-div_cancel, add-div_right}
use sophon_rpi_cross.Memory.Bits.{pow_pos}
use sophon_rpi_cross.Memory.Address.Alignment.{le→leb, pow_mono}
use sophon_rpi_cross.Memory.Bitmap.{
  BitMapPageAllocator, search_and_allocate_cell, acquire_above, acquire_cell, free, used, set,
}
use sophon_rpi_cross.Memory.Bitmap.Bits.{bit_at, offset, set_lem}
use sophon_rpi_cross.Memory.Bitmap.Units.{unit_index}
use sophon_rpi_cross.Memory.Bitmap.Splits.{after, after_took, after_split, stored_lem}
use sophon_rpi_cross.Memory.Bitmap.Cells.{Took, two, AllUsed, scan_lem, scan_words_lem, class_words}

module _ (log_units : ℕ) (large : 6 ≤ log_units) where
  search_lem :
      (sc : ℕ) (m : BitMapPageAllocator)
      → sc ≤ log_units
      → ((search_and_allocate_cell log_units sc m ≡ done (none, m))
          × AllUsed log_units large sc 0 (2 ^ (log_units - sc)) m)
        ⊎ ((i : ℕ) × (m' : BitMapPageAllocator) × (search_and_allocate_cell log_units sc m
              ≡ done (some (i * 2 ^ sc), m'))
            × Took log_units large sc i m m')
  unfolding search_and_allocate_cell
  search_lem sc m le =
      let room = le→leb 6 log_units large in
      elim (Bool-cases (leb sc (log_units - 6))) [
        | inl whole ↦
            let le' : sc ≤ log_units - 6 = ground (arith, whole) in
            elim (scan_words_lem log_units large (2 ^ (log_units - 6 - sc)) sc 0 m le'
              (omega arith)) [
                | inl (e, all) ↦ inl (
                  rw (room, whole) e,
                  λ k low high.
                      all k (omega arith) (omega (arith, high, class_words log_units large sc le')),
                )
                | inr (i, m', e, took) ↦ inr (i, m', rw (room, whole) e, took)
              ]
        | inr part ↦
            elim (scan_lem log_units large (2 ^ (log_units - sc)) sc 0 m le (omega arith)) [
              | inl (e, all) ↦
                  inl (rw (room, part) e, λ k low high. all k low (omega (arith, high)))
              | inr (i, m', e, took) ↦ inr (i, m', rw (room, part) e, took)
            ]
      ]

  -- A cell for class `sc` at `unit`, from a free cell of class `class`, and the bits of all cells.
  pub record Acquired (sc unit : ℕ) (m m' : BitMapPageAllocator) : Type 0 where
    pub class : ℕ
    pub cell : ℕ
    pub large_enough : sc ≤ class
    pub in_range : cell < 2 ^ (log_units - class)
    pub class_exists : class ≤ log_units
    pub at_start : unit ≡ cell * 2 ^ class
    pub was_free : bit_at m (offset log_units class cell) ≡ free
    pub base : m'.base ≡ m.base
    pub now_used : bit_at m' (offset log_units sc (unit / 2 ^ sc)) ≡ used
    pub bits :
        (d j : ℕ)
        → d ≤ log_units
        → j < 2 ^ (log_units - d)
        → bit_at m' (offset log_units d j)
          ≡ after sc class (unit / 2 ^ d) d j (bit_at m (offset log_units d j))

  took-Acquired :
      (sc i : ℕ) (m m' : BitMapPageAllocator)
      → sc ≤ log_units
      → Took log_units large sc i m m'
      → Acquired sc (i * 2 ^ sc) m m'
  took-Acquired sc i m m' le took = record {
    class = sc;
    cell = i;
    large_enough = omega arith;
    in_range = took.in_range;
    class_exists = le;
    at_start = refl;
    was_free = took.was_free;
    base = took.base;
    now_used =
        let index = mul-div_cancel i (pow_pos sc) in
        ap (λ (x : ℕ). bit_at m' (offset log_units sc x)) index
        ∙ took.bits (offset log_units sc i)
        ∙ ground arith;
    bits = λ d j ld lj.
        took.bits (offset log_units d j)
        ∙ stored_lem log_units sc i used d j (bit_at m (offset log_units d j)) le took.in_range ld
            lj
        ∙ after_took sc d j (i * 2 ^ sc / 2 ^ d) i (bit_at m (offset log_units d j))
            (λ e. ap (λ (k : ℕ). i * 2 ^ sc / 2 ^ k) e ∙ mul-div_cancel i (pow_pos sc));
  }

  -- The halves of a cell that is split are in range.
  halves :
      (sc unit : ℕ) (m₁ m₂ : BitMapPageAllocator)
      → Acquired (suc sc) unit m₁ m₂
      → (unit / 2 ^ suc sc < 2 ^ (log_units - suc sc))
        × (unit / 2 ^ sc < 2 ^ (log_units - sc))
        × ((unit + 2 ^ sc) / 2 ^ sc ≡ suc (unit / 2 ^ sc))
        × (suc (unit / 2 ^ sc) < 2 ^ (log_units - sc))
  halves sc unit m₁ m₂ a =
      let c = a.class in
      let (up, up_fits) =
        unit_index log_units (suc sc) c a.cell a.large_enough a.class_exists a.in_range in
      let (low, low_fits) =
        unit_index log_units sc c a.cell (omega (arith, a.large_enough)) a.class_exists
          a.in_range in
      let up' : unit / 2 ^ suc sc ≡ a.cell * 2 ^ (c - suc sc) =
        ap (λ (u : ℕ). u / 2 ^ suc sc) a.at_start ∙ up in
      let low' : unit / 2 ^ sc ≡ a.cell * 2 ^ (c - sc) =
        ap (λ (u : ℕ). u / 2 ^ sc) a.at_start ∙ low in
      let pair = pow_mono 1 (c - sc) (omega (arith, a.large_enough)) in
      (
        bounded up' up_fits (pow_pos (c - suc sc)),
        bounded low' low_fits (pow_pos (c - sc)),
        omega (arith, add-div_right unit (pow_pos sc)),
        bounded_next low' low_fits pair,
      )
    where
      bounded : {x y p n : ℕ} → x ≡ y → y + p ≤ n → 0 < p → x < n
      bounded e h pos = omega (arith, e, h, pos)

      bounded_next : {x y p n : ℕ} → x ≡ y → y + p ≤ n → 2 ≤ p → suc x < n
      bounded_next e h pos = omega (arith, e, h, pos)

  -- The writes after a larger cell has been split.
  split_cell :
      (sc unit : ℕ) (m₁ m₂ : BitMapPageAllocator)
      → sc < log_units
      → Acquired (suc sc) unit m₁ m₂
      → (m₃ : BitMapPageAllocator) × (m₄ : BitMapPageAllocator) × (m₅ : BitMapPageAllocator) × (set
            log_units
            (suc sc)
            (unit / 2 ^ suc sc)
            used
            m₂
          ≡ done m₃)
        × (set log_units sc (unit / 2 ^ sc) used m₃ ≡ done m₄)
        × (set log_units sc ((unit + 2 ^ sc) / 2 ^ sc) free m₄ ≡ done m₅)
        × Acquired sc unit m₁ m₅
  split_cell sc unit m₁ m₂ lt a =
      let (up, low, next, right) = halves sc unit m₁ m₂ a in
      let le : sc ≤ log_units = omega (arith, lt) in
      let right' = subst (λ (x : ℕ). x < 2 ^ (log_units - sc)) (sym next) right in
      let (m₃, e₃, b₃, at₃) =
        set_lem log_units (two log_units large) (suc sc) (unit / 2 ^ suc sc) used m₂ lt up
          used_bit in
      let (m₄, e₄, b₄, at₄) =
        set_lem log_units (two log_units large) sc (unit / 2 ^ sc) used m₃ le low used_bit in
      let (m₅, e₅, b₅, at₅) =
        set_lem log_units (two log_units large) sc ((unit + 2 ^ sc) / 2 ^ sc) free m₄ le right'
          free_bit in
      (
        m₃,
        m₄,
        m₅,
        e₃,
        e₄,
        e₅,
        record {
          class = a.class;
          cell = a.cell;
          large_enough = omega (arith, a.large_enough);
          in_range = a.in_range;
          class_exists = a.class_exists;
          at_start = a.at_start;
          was_free = a.was_free;
          base = b₅ ∙ b₄ ∙ b₃ ∙ a.base;
          now_used =
              let o = offset log_units sc (unit / 2 ^ sc) in
              at₅ o
              ∙ kept (2 ^ (log_units - sc)) (unit / 2 ^ sc) ((unit + 2 ^ sc) / 2 ^ sc) (bit_at m₄ o)
                  (bit_at m₃ o) next (at₄ o);
          bits = λ d j ld lj.
              let o = offset log_units d j in
              after_split sc a.class d j (unit / 2 ^ d) (unit / 2 ^ sc) (unit / 2 ^ suc sc)
                (bit_at m₁ o) (bit_at m₂ o) (bit_at m₃ o) (bit_at m₄ o) (bit_at m₅ o) a.large_enough
                (ap (λ (k : ℕ). unit / 2 ^ k)) (ap (λ (k : ℕ). unit / 2 ^ k)) (a.bits d j ld lj)
                (at₃ o
                  ∙ stored_lem log_units (suc sc) (unit / 2 ^ suc sc) used d j (bit_at m₂ o) lt up
                      ld lj)
                (at₄ o
                  ∙ stored_lem log_units sc (unit / 2 ^ sc) used d j (bit_at m₃ o) le low ld lj)
                (at₅ o
                  ∙ ap (λ (x : ℕ). if o == offset log_units sc x then free else bit_at m₄ o) next
                  ∙ stored_lem log_units sc (suc (unit / 2 ^ sc)) free d j (bit_at m₄ o) le right ld
                      lj);
        },
      )
    where
      used_bit : used < 2
      used_bit = omega arith

      free_bit : free < 2
      free_bit = omega arith

      kept :
          (p x y b₄ b₃ : ℕ)
          → y ≡ suc x
          → b₄ ≡ (if p + x == p + x then used else b₃)
          → (if p + x == p + y then free else b₄) ≡ used
      kept p x y b₄ b₃ next e = ground (arith, next, e)

  -- With `n` classes from `sc` on.
  acquire_above_lem :
      (n sc : ℕ) (m : BitMapPageAllocator)
      → sc + n ≡ suc log_units
      → ((acquire_above log_units n sc m ≡ done (none, m))
          × ((c : ℕ)
              → sc ≤ c
              → c ≤ log_units
              → AllUsed log_units large c 0 (2 ^ (log_units - c)) m))
        ⊎ ((unit : ℕ) × (m' : BitMapPageAllocator) × (acquire_above log_units n sc m
              ≡ done (some unit, m'))
            × Acquired sc unit m m')
  unfolding acquire_above
  acquire_above_lem zero sc m h = inl (refl, λ c low high. absurd (omega (arith, h, low, high)))
  acquire_above_lem (suc n) sc m h = elim (search_lem sc m (omega (arith, h))) [
    | inr (i, m₁, e, took) ↦
        inr (i * 2 ^ sc, m₁, rw e refl, took-Acquired sc i m m₁ (omega (arith, h)) took)
    | inl (e, all) ↦ elim (acquire_above_lem n (suc sc) m (omega (arith, h))) [
      | inl (e', all') ↦ inl (
        rw (e, e') refl,
        λ c low high. elim (Bool-cases (c == sc)) [
          | inl y ↦
              subst (λ (c : ℕ). AllUsed log_units large c 0 (2 ^ (log_units - c)) m)
                (sym (==→eq c sc y)) all
          | inr ne ↦ all' c (omega (arith, low, ==→ne c sc ne)) high
        ],
      )
      | inr (unit, m₂, e', a) ↦
          let (m₃, m₄, m₅, e₃, e₄, e₅, a') =
            split_cell sc unit m m₂ (omega (arith, a.large_enough, a.class_exists)) a in
          inr (unit, m₅, rw (e, e', e₃, e₄, e₅) refl, a')
    ]
  ]

  -- `acquire_cell` does not panic. It returns the first unit of a cell that was free, of the class or a
  -- larger one. That cell is used afterwards, and so are its halves that the unit is in, down to the
  -- class that was asked for; the other half of each of them is free, and the bits of all other cells
  -- are as before. Or, where no cell of the class or of a larger one is free, it returns `None` and
  -- changes nothing. The table has at least 64 units.
  pub acquire_cell_lem :
      (sc : ℕ) (m : BitMapPageAllocator)
      → sc ≤ log_units
      → ((acquire_cell log_units sc m ≡ done (none, m))
          × ((c i : ℕ)
              → sc ≤ c
              → c ≤ log_units
              → i < 2 ^ (log_units - c)
              → bit_at m (offset log_units c i) ≢ free))
        ⊎ ((unit : ℕ) × (m' : BitMapPageAllocator) × (acquire_cell log_units sc m
              ≡ done (some unit, m'))
            × Acquired sc unit m m')
  unfolding acquire_cell
  acquire_cell_lem sc m le =
      elim (acquire_above_lem (suc log_units - sc) sc m (omega (arith, le))) [
        | inl (e, all) ↦ inl (e, λ c i low high lt. all c low high i (omega arith) lt)
        | inr found ↦ inr found
      ]
