-- ===== src/Memory/Bitmap/Bits.antt =====
-- The bits of the table of libs/memory/src/bitmap_page_allocator.rs, one by one.
use sophon_rpi_cross.Base.{
  ℕ, zero, suc, ◌+◌, ◌-◌, ◌*◌, ◌/◌, ◌%◌, ◌^◌, ◌≤◌, ◌<◌, min, max, ◌≡◌, inl, inr, refl, sym, ap, ◌∙◌,
  done, if◌then◌else◌, ◌==◌, ==→eq, ==→ne, ne→==, false, lt→ltb, update, arith, Bool-cases,
}
use native.Mathlib.Nat.{two-pow-succ, div-div-eq-div-mul, mod-lt, mod-eq_of_lt}
use sophon_rpi_cross.Memory.Bits.{word_and, word_not, word_and-low, pow_pos}
use sophon_rpi_cross.Memory.Bits.Masks.{word_or}
use sophon_rpi_cross.Memory.Address.Alignment.{pow_mono, le→leb}
use sophon_rpi_cross.Memory.Bitmap.{BitMapPageAllocator, table_length, word_at, get, set}

-- The digit `k` of a word.
unfoldable pub bit : ℕ → ℕ → ℕ
bit k a = a / 2 ^ k % 2

bit-suc : (k a : ℕ) → bit (suc k) a ≡ bit k (a / 2)
unfolding bit
bit-suc k a =
    let twice : 2 ^ suc k ≡ 2 * 2 ^ k = omega (arith, two-pow-succ k) in
    ap (λ (d : ℕ). a / d % 2) twice ∙ ap (λ (q : ℕ). q % 2) (sym (div-div-eq-div-mul a 2 (2 ^ k)))

bit-zero : (a : ℕ) → bit 0 a ≡ a % 2
unfolding bit
bit-zero a = omega arith

bit-lt : (k a : ℕ) → bit k a < 2
unfolding bit
bit-lt k a = mod-lt (a / 2 ^ k) (omega arith)

bit-word_and : (w k a b : ℕ) → k < w → bit k (word_and w a b) ≡ min (bit k a) (bit k b)
bit-word_and zero k a b h = absurd (omega arith)
bit-word_and (suc w) zero a b h =
    let whole = word_and (suc w) a b in bit-zero whole ∙ omega (arith, bit-zero a, bit-zero b)
bit-word_and (suc w) (suc k) a b h =
    let half : word_and (suc w) a b / 2 ≡ word_and w (a / 2) (b / 2) = omega arith in
    bit-suc k (word_and (suc w) a b)
    ∙ ap (bit k) half
    ∙ omega (arith, bit-word_and w k (a / 2) (b / 2) (omega arith), bit-suc k a, bit-suc k b)

bit-word_or : (w k a b : ℕ) → k < w → bit k (word_or w a b) ≡ max (bit k a) (bit k b)
bit-word_or zero k a b h = absurd (omega arith)
bit-word_or (suc w) zero a b h =
    let whole = word_or (suc w) a b in bit-zero whole ∙ omega (arith, bit-zero a, bit-zero b)
bit-word_or (suc w) (suc k) a b h =
    let half : word_or (suc w) a b / 2 ≡ word_or w (a / 2) (b / 2) = omega arith in
    bit-suc k (word_or (suc w) a b)
    ∙ ap (bit k) half
    ∙ omega (arith, bit-word_or w k (a / 2) (b / 2) (omega arith), bit-suc k a, bit-suc k b)

bit-word_not : (w k a : ℕ) → k < w → a < 2 ^ w → bit k (word_not w a) ≡ 1 - bit k a
bit-word_not zero k a h lt = absurd (omega arith)
bit-word_not (suc w) zero a h lt =
    bit-zero (word_not (suc w) a) ∙ omega (arith, bit-zero a, two-pow-succ w, pow_pos w)
bit-word_not (suc w) (suc k) a h lt =
    let half : word_not (suc w) a / 2 ≡ word_not w (a / 2) =
      omega (arith, two-pow-succ w, pow_pos w) in
    bit-suc k (word_not (suc w) a)
    ∙ ap (bit k) half
    ∙ bit-word_not w k (a / 2) (omega arith) (omega (arith, two-pow-succ w))
    ∙ omega (arith, bit-suc k a)

pub bit_of_zero : (k : ℕ) → bit k 0 ≡ 0
bit_of_zero zero = bit-zero 0
bit_of_zero (suc k) = bit-suc k 0 ∙ bit_of_zero k

-- The one digit of a power of two.
bit-power : (k s : ℕ) → bit k (2 ^ s) ≡ (if k == s then 1 else 0)
bit-power zero zero = bit-zero 1
bit-power zero (suc s) = bit-zero (2 ^ suc s) ∙ ground (arith, two-pow-succ s)
bit-power (suc k) zero = bit-suc k 1 ∙ bit_of_zero k ∙ ground arith
bit-power (suc k) (suc s) =
    let half : 2 ^ suc s / 2 ≡ 2 ^ s = omega (arith, two-pow-succ s) in
    bit-suc k (2 ^ suc s) ∙ ap (bit k) half ∙ bit-power k s ∙ ground arith

-- The word that `set` stores: one digit is `v`, and the others are the old ones.
abbrev with_bit : ℕ → ℕ → ℕ → ℕ
with_bit s v entry = word_or 64 (v * 2 ^ s % 2 ^ 64) (word_and 64 entry (word_not 64 (1 * 2 ^ s)))

power-lt : (s : ℕ) → s < 64 → 2 ^ s < 2 ^ 64
power-lt s h = omega (arith, two-pow-succ s, pow_pos s, pow_mono (suc s) 64 h)

shifted : (s v : ℕ) → s < 64 → v < 2 → v * 2 ^ s % 2 ^ 64 ≡ v * 2 ^ s
shifted s zero h lt = let none : 0 * 2 ^ s ≡ 0 = omega arith in rw none refl
shifted s (suc zero) h lt =
    let one : 1 * 2 ^ s ≡ 2 ^ s = omega arith in rw one (mod-eq_of_lt (power-lt s h))
shifted s (suc (suc v)) h lt = absurd (omega arith)

bit-shifted : (k s v : ℕ) → v < 2 → bit k (v * 2 ^ s) ≡ (if k == s then v else 0)
bit-shifted k s zero lt =
    let none : 0 * 2 ^ s ≡ 0 = omega arith in ap (bit k) none ∙ bit_of_zero k ∙ ground arith
bit-shifted k s (suc zero) lt =
    let one : 1 * 2 ^ s ≡ 2 ^ s = omega arith in ap (bit k) one ∙ bit-power k s
bit-shifted k s (suc (suc v)) lt = absurd (omega arith)

bit-with_bit :
    (k s v entry : ℕ)
    → k < 64
    → s < 64
    → v < 2
    → bit k (with_bit s v entry) ≡ (if k == s then v else bit k entry)
bit-with_bit k s v entry hk hs lt =
    let one : 1 * 2 ^ s ≡ 2 ^ s = omega arith in
    let kept = word_and 64 entry (word_not 64 (1 * 2 ^ s)) in
    let low : bit k (v * 2 ^ s % 2 ^ 64) ≡ (if k == s then v else 0) =
      ap (bit k) (shifted s v hs lt) ∙ bit-shifted k s v lt in
    let mask : bit k (word_not 64 (1 * 2 ^ s)) ≡ 1 - (if k == s then 1 else 0) =
      ap (λ (p : ℕ). bit k (word_not 64 p)) one
      ∙ bit-word_not 64 k (2 ^ s) hk (power-lt s hs)
      ∙ ap (λ (x : ℕ). 1 - x) (bit-power k s) in
    let high : bit k kept ≡ min (bit k entry) (bit k (word_not 64 (1 * 2 ^ s))) =
      bit-word_and 64 k entry (word_not 64 (1 * 2 ^ s)) hk in
    bit-word_or 64 k (v * 2 ^ s % 2 ^ 64) kept hk
    ∙ choose (bit k (v * 2 ^ s % 2 ^ 64)) (bit k kept) (bit k entry)
        (bit k (word_not 64 (1 * 2 ^ s))) k s v lt (bit-lt k entry) low high mask
  where
    choose :
        (l h e m k s v : ℕ)
        → v < 2
        → e < 2
        → l ≡ (if k == s then v else 0)
        → h ≡ min e m
        → m ≡ 1 - (if k == s then 1 else 0)
        → max l h ≡ (if k == s then v else e)
    choose l h e m k s v lt lt' low high mask = ground arith

-- The bit of the table at an offset.
unfoldable pub bit_at : BitMapPageAllocator → ℕ → ℕ
bit_at m o = bit (o % 64) (m.table (o / 64))

shift_of : (o : ℕ) → word_and 64 o (2 ^ 6 - 1) ≡ o % 64
shift_of o = word_and-low 64 6 o (omega arith)

same_offset : (o o' : ℕ) → o' / 64 ≡ o / 64 → o' % 64 ≡ o % 64 → o' ≡ o
same_offset o o' q r = omega arith

-- The offset of the bit of a cell of a class.
abbrev pub offset : ℕ → ℕ → ℕ → ℕ
offset log_units sc i = 2 ^ (log_units - sc) + i

module _ (log_units : ℕ) (large : 2 ≤ log_units) where
  pub offset-fits :
      (sc i : ℕ) → i < 2 ^ (log_units - sc) → offset log_units sc i / 64 < table_length log_units
  offset-fits sc i lt =
      bound (2 ^ (log_units - sc)) (2 ^ log_units) i lt
        (pow_mono (log_units - sc) log_units (omega arith)) (pow_mono 2 log_units large)
    where
      bound : (q p i : ℕ) → i < q → q ≤ p → 4 ≤ p → (q + i) / 64 < p * 2 / 8
      bound q p i lt le big = omega arith

  -- `get` of a cell in range reads its bit.
  pub get_lem :
      (sc i : ℕ) (m : BitMapPageAllocator)
      → sc ≤ log_units
      → i < 2 ^ (log_units - sc)
      → get log_units sc i m ≡ done (bit_at m (offset log_units sc i))
  unfolding get word_at bit_at bit
  get_lem sc i m le lt =
      let o = offset log_units sc i in
      rw
        (
          le→leb sc log_units le,
          lt→ltb (o / 64) (table_length log_units) (offset-fits sc i lt),
          shift_of o,
          word_and-low 64 1 (m.table (o / 64) / 2 ^ (o % 64)) (omega arith),
        )
        refl

  stored_entry :
      (o v : ℕ) (m : BitMapPageAllocator)
      → v < 2
      → (o' : ℕ)
      → bit_at
          (record m { table = update m.table (o / 64) (with_bit (o % 64) v (m.table (o / 64))) })
          o'
        ≡ (if o' == o then v else bit_at m o')
  unfolding bit_at
  stored_entry o v m lt o' = elim (Bool-cases (o / 64 == o' / 64)) [
    | inr n ↦ rw n (elim (Bool-cases (o' == o)) [
      | inl y ↦ absurd (==→ne (o / 64) (o' / 64) n (ap (λ (x : ℕ). x / 64) (sym (==→eq o' o y))))
      | inr n' ↦ rw n' refl
    ])
    | inl y ↦
        let word = ==→eq (o / 64) (o' / 64) y in
        rw y (
          bit-with_bit (o' % 64) (o % 64) v (m.table (o / 64)) (mod-lt o' (omega arith))
            (mod-lt o (omega arith)) lt
          ∙ elim (Bool-cases (o' % 64 == o % 64)) [
            | inl r ↦
                (let same : o' ≡ o = same_offset o o' (sym word) (==→eq (o' % 64) (o % 64) r) in
                  ground (arith, same, r))
            | inr d ↦
                let ne : (o' == o) ≡ false =
                  ne→== o' o (λ z. ==→ne (o' % 64) (o % 64) d (ap (λ (x : ℕ). x % 64) z)) in
                rw (d, ne) (ap (λ (x : ℕ). bit (o' % 64) (m.table x)) word)
          ])
  ]

  -- `set` of a cell in range changes its bit, and no other.
  pub set_lem :
      (sc i v : ℕ) (m : BitMapPageAllocator)
      → sc ≤ log_units
      → i < 2 ^ (log_units - sc)
      → v < 2
      → (m' : BitMapPageAllocator) × (set log_units sc i v m ≡ done m')
        × (m'.base ≡ m.base)
        × ((o : ℕ) → bit_at m' o ≡ (if o == offset log_units sc i then v else bit_at m o))
  unfolding set word_at
  set_lem sc i v m le lt small =
      let o = offset log_units sc i in
      (
        record m { table = update m.table (o / 64) (with_bit (o % 64) v (m.table (o / 64))) },
        rw
            (
              le→leb sc log_units le,
              lt→ltb (o / 64) (table_length log_units) (offset-fits sc i lt),
              shift_of o,
            )
            refl,
        refl,
        stored_entry o v m small,
      )
