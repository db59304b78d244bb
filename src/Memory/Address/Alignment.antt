-- ===== src/Memory/Address/Alignment.antt =====
-- Rounding of addresses to a power of two, in libs/memory/src/address.rs.
use sophon_rpi_cross.Base.{
  ℕ, zero, suc, ◌+◌, ◌-◌, ◌*◌, ◌/◌, ◌%◌, ◌^◌, ◌≤◌, ◌<◌, ◌≡◌, ap, ◌∙◌, true, done, panic, assertion,
  if◌then◌else◌, ◌==◌, leb, arith, lt→ltb,
}
use native.Mathlib.Nat.{mod-lt, mod-le, mul-mod_right, div-add-mod, two-pow-succ}
use sophon_rpi_cross.Memory.Bits.{word_and, word_not, word_and-low, word_and-high, pow_pos}
use sophon_rpi_cross.Memory.Address.{
  is_power_below, is_power_of_two, align_up, align_down, is_aligned_to, clamp, lt, gt,
}

pub le→leb : (a b : ℕ) → a ≤ b → leb a b ≡ true
le→leb a b h = ground arith

is_power_below-pow : (n k : ℕ) → k < n → is_power_below n (2 ^ k) ≡ true
is_power_below-pow zero k h = absurd (omega arith)
is_power_below-pow (suc n) k h = ground (arith, is_power_below-pow n k)

pub is_power_of_two-pow : (k : ℕ) → k < 64 → is_power_of_two (2 ^ k) ≡ true
unfolding is_power_of_two
is_power_of_two-pow k h = is_power_below-pow 64 k h

pub pow_mono : (k w : ℕ) → k ≤ w → 2 ^ k ≤ 2 ^ w
pow_mono zero zero h = omega arith
pow_mono zero (suc w) h = omega (arith, pow_pos (suc w))
pow_mono (suc k) zero h = absurd (omega arith)
pow_mono (suc k) (suc w) h =
    omega (arith, two-pow-succ k, two-pow-succ w, pow_mono k w (omega arith))

-- What the two masks of a power of two do to a word.
pub mask_off :
    (k a : ℕ) → k < 64 → a < 2 ^ 64 → word_and 64 a (word_not 64 (2 ^ k - 1)) ≡ a - a % 2 ^ k
mask_off k a h lt =
    let flip : word_not 64 (2 ^ k - 1) ≡ 2 ^ 64 - 2 ^ k =
      omega (arith, pow_pos k, pow_mono k 64 (omega arith)) in
    ap (word_and 64 a) flip ∙ word_and-high 64 k a (omega arith) lt

pub mask_in : (k a : ℕ) → k < 64 → word_and 64 a (2 ^ k - 1) ≡ a % 2 ^ k
mask_in k a h = word_and-low 64 k a (omega arith)

pub rounded-mod : (a m : ℕ) → (a - a % m) % m ≡ 0
rounded-mod a m = ap (λ (x : ℕ). x % m) (rounded a m) ∙ mul-mod_right m (a / m)
  where
    rounded : (a m : ℕ) → a - a % m ≡ m * (a / m)
    rounded a m = omega (arith, div-add-mod a m)

pub is_aligned_to-pow : (k a : ℕ) → k < 64 → is_aligned_to a (2 ^ k) ≡ done (a % 2 ^ k == 0)
unfolding is_aligned_to
is_aligned_to-pow k a h = ground (arith, is_power_of_two-pow k h, pow_pos k, mask_in k a h)

-- `align_down` to a power of two gives the multiple of it at or below the address, less than one
-- multiple away.
pub align_down-rounds :
    (k a : ℕ)
    → k < 64
    → a < 2 ^ 64
    → (d : ℕ) × (align_down a (2 ^ k) ≡ done d)
      × (d ≤ a)
      × (a < d + 2 ^ k)
      × (is_aligned_to d (2 ^ k) ≡ done true)
unfolding align_down
align_down-rounds k a h lt =
    let d = a - a % 2 ^ k in
    (
      d,
      ground (arith, is_power_of_two-pow k h, pow_pos k, mask_off k a h lt),
      omega arith,
      omega (arith, mod-lt a (pow_pos k), mod-le a (2 ^ k)),
      is_aligned_to-pow k d h ∙ ap (λ (r : ℕ). done (r == 0)) (rounded-mod a (2 ^ k)),
    )

align_up_value :
    (a p : ℕ)
    → is_power_of_two p ≡ true
    → 0 < p
    → a + (p - 1) < 2 ^ 64
    → align_up a p ≡ done (word_and 64 (a + (p - 1)) (word_not 64 (p - 1)))
unfolding align_up
align_up_value a p pow pos fits = rw (pow, le→leb 1 p pos, lt→ltb (a + (p - 1)) (2 ^ 64) fits)

-- `align_up` to a power of two, where it does not overflow, gives the multiple of it at or above the
-- address, less than one multiple away.
pub align_up-rounds :
    (k a : ℕ)
    → k < 64
    → a + 2 ^ k ≤ 2 ^ 64
    → (u : ℕ) × (align_up a (2 ^ k) ≡ done u)
      × (a ≤ u)
      × (u < a + 2 ^ k)
      × (is_aligned_to u (2 ^ k) ≡ done true)
align_up-rounds k a h fits =
    let s = a + (2 ^ k - 1) in
    let u = s - s % 2 ^ k in
    let lt : s < 2 ^ 64 = omega (arith, pow_pos k) in
    (
      u,
      align_up_value a (2 ^ k) (is_power_of_two-pow k h) (pow_pos k) lt
          ∙ ap done (mask_off k s h lt),
      omega (arith, mod-lt s (pow_pos k), mod-le s (2 ^ k)),
      omega (arith, pow_pos k),
      is_aligned_to-pow k u h ∙ ap (λ (r : ℕ). done (r == 0)) (rounded-mod s (2 ^ k)),
    )

-- `clamp` gives an address between the two bounds, the same one if it is there already, and panics on
-- bounds that are the wrong way round.
pub clamp_between :
    (a low high : ℕ)
    → (low ≤ high
        → (r : ℕ) × (clamp a low high ≡ done r)
          × (low ≤ r)
          × (r ≤ high)
          × (low ≤ a → a ≤ high → r ≡ a))
      × (high < low → clamp a low high ≡ panic assertion)
unfolding clamp
clamp_between a low high = (
  λ h. (
    (if lt a low then low else if gt a high then high else a),
    ground arith,
    ground arith,
    ground arith,
    ground arith,
  ),
  λ h. ground arith,
)
