-- ===== src/Memory/Physical/Fill/Class.antt =====
-- The class of the next cell in `release_contiguous`: it fits, and the cell is aligned to its size.
use sophon_rpi_cross.Base.{
  ℕ, ◌+◌, ◌-◌, ◌%◌, ◌^◌, ◌≤◌, ◌<◌, min, ◌≡◌, ◌≢◌, ◌⊎◌, inl, inr, refl, done, if◌then◌else◌, ◌==◌,
  leb, arith, Bool-cases, ==→eq, ==→ne,
}
use sophon_rpi_cross.Memory.Powers.{
  mod_pow_less, log_ceil, trailing_zeros, zeros_divide, zeros_at_least, ceil_from-bounds,
}
use sophon_rpi_cross.Memory.Address.{checked_sub}
use sophon_rpi_cross.Memory.Address.Alignment.{pow_mono, le→leb}
use sophon_rpi_cross.Memory.Physical.{size, num_size_class}
use sophon_rpi_cross.Memory.Physical.Fill.{size_class_of, next_class}

pub checked_sub-done : (a b : ℕ) → b ≤ a → checked_sub a b ≡ done (a - b)
checked_sub-done a b h = rw (le→leb b a h) refl

-- What the loop needs to know of the class of a round.
pub record Fits (start n c : ℕ) : Type 0 where
  pub fits : size c ≤ n
  pub on_size : start % size c ≡ 0
  pub in_table : c < num_size_class

least-12 : (l n : ℕ) → 2 ^ 12 ≤ n → n ≤ 2 ^ l → 12 ≤ l
least-12 l n big h = elim (Bool-cases (leb 12 l)) [
  | inl y ↦ ground arith
  | inr off ↦ absurd (omega (arith, pow_mono l 11 (ground arith)))
]

class-37 : (c n : ℕ) → size c ≤ n → n < 2 ^ 49 → c < num_size_class
class-37 c n h lt = elim (Bool-cases (leb c 36)) [
  | inl y ↦ ground arith
  | inr off ↦ absurd (omega (arith, pow_mono 49 (c + 12) (ground arith)))
]

-- The largest class whose cells are no larger than `n`.
prev_class :
    (n l : ℕ)
    → 2 ^ 12 ≤ n
    → n ≤ 2 ^ l
    → (l ≡ 0) ⊎ (2 ^ (l - 1) < n)
    → (p : ℕ) × ((if n == size (l - 12) then done (l - 12) else checked_sub (l - 12) 1) ≡ done p)
      × (size p ≤ n)
prev_class n l big h low = elim (Bool-cases (n == size (l - 12))) [
  | inl y ↦ (l - 12, rw y refl, omega (arith, ==→eq n (size (l - 12)) y))
  | inr off ↦
      let twelve = least-12 l n big h in
      let whole : l - 12 + 12 ≡ l = omega (arith, twelve) in
      let ne : n ≢ 2 ^ l = rw whole at (==→ne n (size (l - 12)) off) in
      let more : 13 ≤ l = least-13 l n big h ne in
      let half : l - 12 - 1 + 12 ≡ l - 1 = omega (arith, more) in
      (
        l - 12 - 1,
        rw off (checked_sub-done (l - 12) 1 (omega (arith, more))),
        rw half (elim low [ inl z ↦ absurd (omega (arith, more, z)) | inr lt ↦ omega (arith, lt) ]),
      )
]
  where
    least-13 : (l n : ℕ) → 2 ^ 12 ≤ n → n ≤ 2 ^ l → n ≢ 2 ^ l → 13 ≤ l
    least-13 l n big h ne = elim (Bool-cases (leb 13 l)) [
      | inl y ↦ ground arith
      | inr off ↦ absurd (ne (omega (arith, pow_mono l 12 (ground arith))))
    ]

-- For a page-aligned start and a whole number of pages below 2 ^ 49 bytes.
pub next_class-Fits :
    (start n : ℕ)
    → start % 2 ^ 12 ≡ 0
    → 2 ^ 12 ≤ n
    → n < 2 ^ 49
    → (c : ℕ) × (next_class start n ≡ done c) × Fits start n c
unfolding next_class size_class_of
next_class-Fits start n al big small =
    let l = log_ceil n in
    let (above, low) = ceil_from-bounds 63 0 n (omega arith) (inl refl) in
    let (p, e, le) = prev_class n l big above low in
    let t = trailing_zeros start in
    let zeros = zeros_at_least 12 64 start (omega arith) al in
    let c = min p (t - 12) in
    let fits : size c ≤ n = omega (arith, le, pow_mono (c + 12) (p + 12) (omega arith)) in
    (
      c,
      rw (checked_sub-done l 12 (least-12 l n big above), e, checked_sub-done t 12 zeros) refl,
      record {
        fits = fits;
        on_size = mod_pow_less (c + 12) t start (omega (arith, zeros)) (zeros_divide 64 start);
        in_table = class-37 c n fits small;
      },
    )
