-- ===== src/Memory/Bitmap/Array.antt =====
-- `get` and `set` of libs/memory/src/bitmap_page_allocator.rs: one table of words holds the bits of all
-- cells of all classes.
use sophon_rpi_cross.Base.{
  ℕ, suc, ◌-◌, ◌^◌, ◌≤◌, ◌<◌, ◌≡◌, ◌≢◌, ◌⊎◌, inl, inr, ap, ◌∙◌, sym, done, ◌==◌, arith, Bool-cases,
  ==→eq, ==_refl, ne→==, ltb, false,
}
use native.Mathlib.Nat.{two-pow-succ}
use sophon_rpi_cross.Memory.Address.Alignment.{pow_mono}
use sophon_rpi_cross.Memory.Bitmap.{BitMapPageAllocator, get, set}
use sophon_rpi_cross.Memory.Bitmap.Bits.{offset, get_lem, set_lem}

-- The bits of a class end where those of the next smaller class begin.
class_before :
    (log_units a b i j : ℕ)
    → a < b
    → b ≤ log_units
    → i < 2 ^ (log_units - a)
    → j < 2 ^ (log_units - b)
    → offset log_units b j < offset log_units a i
class_before log_units a b i j lt le hi hj = omega (
  arith,
  two-pow-succ (log_units - b),
  pow_mono (suc (log_units - b)) (log_units - a) (omega (arith, lt, le)),
  hj,
)

-- Two cells of one class or of two have different bits.
pub cell_of :
    (log_units a b i j : ℕ)
    → a ≤ log_units
    → b ≤ log_units
    → i < 2 ^ (log_units - a)
    → j < 2 ^ (log_units - b)
    → offset log_units a i ≡ offset log_units b j
    → (a ≡ b) × (i ≡ j)
cell_of log_units a b i j la lb hi hj e = elim (Bool-cases (a == b)) [
  | inl y ↦
      (let same = ==→eq a b y in (same, omega (arith, e, ap (λ (c : ℕ). 2 ^ (log_units - c)) same)))
  | inr n ↦ elim (Bool-cases (ltb a b)) [
    | inl l ↦ absurd (omega (arith, e, class_before log_units a b i j (ground (arith, l)) lb hi hj))
    | inr l ↦
        absurd (omega (arith, e, class_before log_units b a j i (ground (arith, l, n)) la hj hi))
  ]
]

-- The table is an array with a bit for each cell of each class: `set` of a cell in range does not panic,
-- `get` gives back the bit that was set, and the bit of every other cell is as before.
pub get-set :
    (log_units sc i v : ℕ) (m : BitMapPageAllocator)
    → 2 ≤ log_units
    → sc ≤ log_units
    → i < 2 ^ (log_units - sc)
    → v < 2
    → (m' : BitMapPageAllocator) × (set log_units sc i v m ≡ done m')
      × (get log_units sc i m' ≡ done v)
      × ((c j : ℕ)
          → c ≤ log_units
          → j < 2 ^ (log_units - c)
          → (c ≢ sc) ⊎ (j ≢ i)
          → get log_units c j m' ≡ get log_units c j m)
get-set log_units sc i v m large le lt small =
    let (m', e, _, bits) = set_lem log_units large sc i v m le lt small in
    (
      m',
      e,
      get_lem log_units large sc i m' le lt
          ∙ ap (λ (b : ℕ). done b)
              (bits (offset log_units sc i) ∙ rw (==_refl (offset log_units sc i))),
      λ c j lc lj ne.
          let other : (offset log_units c j == offset log_units sc i) ≡ false =
            ne→== (offset log_units c j) (offset log_units sc i)
              (λ z. let (a, b) = cell_of log_units c sc j i lc le lj lt z in apart a b ne) in
          get_lem log_units large c j m' lc lj
          ∙ ap (λ (b : ℕ). done b) (bits (offset log_units c j) ∙ rw other)
          ∙ sym (get_lem log_units large c j m lc lj),
    )
  where
    apart : {c j : ℕ} → c ≡ sc → j ≡ i → ((c ≢ sc) ⊎ (j ≢ i)) → ⊥
    apart a b (inl n) = n a
    apart a b (inr n) = n b
