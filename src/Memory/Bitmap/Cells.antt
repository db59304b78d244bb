-- ===== src/Memory/Bitmap/Cells.antt =====
-- Cells that `acquire_cell` takes, in libs/memory/src/bitmap_page_allocator.rs.
use sophon_rpi_cross.Base.{
  ℕ, zero, suc, ◌+◌, ◌-◌, ◌*◌, ◌/◌, ◌%◌, ◌^◌, ◌≤◌, ◌<◌, ◌≡◌, ◌≢◌, ◌⊎◌, inl, inr, refl, sym, ap, ◌∙◌,
  subst, none, some, done, if◌then◌else◌, ◌==◌, ==→eq, ==→ne, ltb, lt→ltb, arith, Bool-cases,
}
use native.Mathlib.Nat.{two-pow-succ}
use sophon_rpi_cross.Memory.Bitmap.{
  BitMapPageAllocator, table_length, word_at, scan, scan_words, free, used,
}
use sophon_rpi_cross.Memory.Bitmap.Bits.{
  offset-fits, bit_at, bit, bit_of_zero, offset, get_lem, set_lem,
}

module _ (log_units : ℕ) (large : 6 ≤ log_units) where
  pub two : 2 ≤ log_units
  two = omega (arith, large)

  -- The cell `i` of class `sc` was free and is used now; all else is as before.
  pub record Took (sc i : ℕ) (m m' : BitMapPageAllocator) : Type 0 where
    pub in_range : i < 2 ^ (log_units - sc)
    pub was_free : bit_at m (offset log_units sc i) ≡ free
    pub base : m'.base ≡ m.base
    pub bits : (o : ℕ) → bit_at m' o ≡ (if o == offset log_units sc i then used else bit_at m o)

  pub scan_lem :
      (n sc index : ℕ) (m : BitMapPageAllocator)
      → sc ≤ log_units
      → index + n ≤ 2 ^ (log_units - sc)
      → ((scan log_units n sc index m ≡ done (none, m))
          × ((i : ℕ) → index ≤ i → i < index + n → bit_at m (offset log_units sc i) ≢ free))
        ⊎ ((i : ℕ) × (m' : BitMapPageAllocator) × (scan log_units n sc index m
              ≡ done (some (i * 2 ^ sc), m'))
            × Took sc i m m')
  unfolding scan
  scan_lem zero sc index m le fits = inl (refl, λ i low high. absurd (omega (arith, low, high)))
  scan_lem (suc n) sc index m le fits =
      let here = get_lem log_units two sc index m le (omega (arith, fits)) in
      elim (Bool-cases (bit_at m (offset log_units sc index) == free)) [
        | inl y ↦
            let (m', st, base, bits) =
              set_lem log_units two sc index used m le (omega (arith, fits)) (omega arith) in
            inr (
              index,
              m',
              rw (here, y, st) refl,
              record {
                in_range = omega (arith, fits);
                was_free = ==→eq (bit_at m (offset log_units sc index)) free y;
                base = base;
                bits = bits;
              },
            )
        | inr no_free ↦ elim (scan_lem n sc (suc index) m le (omega (arith, fits))) [
          | inl (e, all) ↦ inl (
            rw (here, no_free) e,
            λ i low high. elim (Bool-cases (i == index)) [
              | inl y ↦
                  subst (λ (j : ℕ). bit_at m (offset log_units sc j) ≢ free) (sym (==→eq i index y))
                    (==→ne (bit_at m (offset log_units sc index)) free no_free)
              | inr n' ↦
                  (let further = ==→ne i index n' in
                    all i (omega (arith, low, further)) (omega (arith, high)))
            ],
          )
          | inr (i, m', e, took) ↦ inr (i, m', rw (here, no_free) e, took)
        ]
      ]

  -- The cells of a class that has whole words, 64 to a word.
  pub class_words :
      (sc : ℕ) → sc ≤ log_units - 6 → 2 ^ (log_units - sc) ≡ 2 ^ (log_units - 6 - sc) * 64
  class_words sc le =
      let e = log_units - 6 - sc in
      let split : log_units - sc ≡ suc (suc (suc (suc (suc (suc e))))) = omega (arith, large, le) in
      ap (λ (k : ℕ). 2 ^ k) split ∙ six e
    where
      six : (e : ℕ) → 2 ^ suc (suc (suc (suc (suc (suc e))))) ≡ 2 ^ e * 64
      six e = omega (
        arith,
        two-pow-succ e,
        two-pow-succ (suc e),
        two-pow-succ (suc (suc e)),
        two-pow-succ (suc (suc (suc e))),
        two-pow-succ (suc (suc (suc (suc e)))),
        two-pow-succ (suc (suc (suc (suc (suc e))))),
      )

  word_of :
      (sc k : ℕ)
      → sc ≤ log_units - 6
      → offset log_units sc k / 64 ≡ 2 ^ (log_units - 6 - sc) + k / 64
  word_of sc k le = omega (arith, class_words sc le)

  -- None of the cells from `i` on and before `j` is free.
  abbrev pub AllUsed : ℕ → ℕ → ℕ → BitMapPageAllocator → Type 0
  AllUsed sc i j m = (k : ℕ) → i ≤ k → k < j → bit_at m (offset log_units sc k) ≢ free

  word_clear :
      (sc i : ℕ) (m : BitMapPageAllocator)
      → sc ≤ log_units - 6
      → m.table (2 ^ (log_units - 6 - sc) + i) ≡ 0
      → AllUsed sc (i * 64) (suc i * 64) m
  unfolding bit_at
  word_clear sc i m le z k low high is_free =
      let at : offset log_units sc k / 64 ≡ 2 ^ (log_units - 6 - sc) + i =
        omega (arith, word_of sc k le, low, high) in
      let word : m.table (offset log_units sc k / 64) ≡ 0 = ap m.table at ∙ z in
      let zero_bit =
        ap (bit (offset log_units sc k % 64)) word ∙ bit_of_zero (offset log_units sc k % 64) in
      omega (arith, sym zero_bit ∙ is_free)

  abbrev pub FoundWords : ℕ → ℕ → ℕ → BitMapPageAllocator → Type 0
  FoundWords n sc i m =
      ((scan_words log_units n sc i m ≡ done (none, m)) × AllUsed sc (i * 64) ((i + n) * 64) m)
      ⊎ ((k : ℕ) × (m' : BitMapPageAllocator) × (scan_words log_units n sc i m
            ≡ done (some (k * 2 ^ sc), m'))
          × Took sc k m m')

  word_at_lem :
      (i : ℕ) (m : BitMapPageAllocator)
      → i < table_length log_units
      → word_at log_units i m ≡ done (m.table i)
  unfolding word_at
  word_at_lem i m lt = rw (lt→ltb i (table_length log_units) lt) refl

  word_in_range :
      (sc i : ℕ)
      → sc ≤ log_units - 6
      → i < 2 ^ (log_units - 6 - sc)
      → 2 ^ (log_units - 6 - sc) + i < table_length log_units
  word_in_range sc i le lt =
      let fits = offset-fits log_units two sc (i * 64) (omega (arith, class_words sc le, lt)) in
      subst (λ (x : ℕ). x < table_length log_units)
        (word_of sc (i * 64) le ∙ whole (2 ^ (log_units - 6 - sc)) i) fits
    where
      whole : (p i : ℕ) → p + i * 64 / 64 ≡ p + i
      whole p i = omega arith

  next_word :
      (n sc i : ℕ) (m : BitMapPageAllocator)
      → AllUsed sc (i * 64) (suc i * 64) m
      → AllUsed sc (suc i * 64) ((suc i + n) * 64) m
      → AllUsed sc (i * 64) ((i + suc n) * 64) m
  next_word n sc i m first rest k low high = elim (Bool-cases (ltb k (suc i * 64))) [
    | inl y ↦ first k low (ground (arith, y))
    | inr n' ↦ rest k (ground (arith, n')) (omega (arith, high))
  ]

  pub scan_words_lem :
      (n sc i : ℕ) (m : BitMapPageAllocator)
      → sc ≤ log_units - 6
      → i + n ≤ 2 ^ (log_units - 6 - sc)
      → FoundWords n sc i m
  unfolding scan_words
  scan_words_lem zero sc i m le fits = inl (refl, λ k low high. absurd (omega (arith, low, high)))
  scan_words_lem (suc n) sc i m le fits =
      let index = 2 ^ (log_units - 6 - sc) + i in
      let read = word_at_lem index m (word_in_range sc i le (omega (arith, fits))) in
      elim (Bool-cases (m.table index == 0)) [
        | inl z ↦ elim (scan_words_lem n sc (suc i) m le (omega (arith, fits))) [
          | inl (e, all) ↦ inl (
            rw (read, z) e,
            next_word n sc i m (word_clear sc i m le (==→eq (m.table index) 0 z)) all,
          )
          | inr (k, m', e, took) ↦ inr (k, m', rw (read, z) e, took)
        ]
        | inr nz ↦
            elim (scan_lem 64 sc (i * 64) m (omega (arith, le))
              (omega (arith, fits, class_words sc le))) [
                | inr (k, m', e, took) ↦ inr (k, m', rw (read, nz, e) refl, took)
                | inl (e, none_here) ↦
                    elim (scan_words_lem n sc (suc i) m le (omega (arith, fits))) [
                      | inl (e', all) ↦ inl (
                        rw (read, nz, e) e',
                        next_word n sc i m (λ k low high. none_here k low (omega (arith, high)))
                            all,
                      )
                      | inr (k, m', e', took) ↦ inr (k, m', rw (read, nz, e) e', took)
                    ]
              ]
      ]
