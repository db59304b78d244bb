-- ===== src/Memory/Powers.antt =====
-- `usize::trailing_zeros` and `usize::next_power_of_two`, as the allocators of pages use them.
use sophon_rpi_cross.Base.{
  ℕ, zero, suc, ◌+◌, ◌-◌, ◌*◌, ◌/◌, ◌%◌, ◌^◌, ◌≤◌, ◌<◌, ◌≡◌, ◌⊎◌, inl, inr, sym, ap, ◌∙◌, true,
  if◌then◌else◌, ◌==◌, leb, arith, Bool-cases,
}
use native.Mathlib.Nat.{mod-one, two-pow-succ}
use sophon_rpi_cross.Memory.Bits.{pow_pos, mod-double}

-- The zeros at the low end of a word of so many bits.
unfoldable pub zeros_below : ℕ → ℕ → ℕ
zeros_below zero n = 0
zeros_below (suc f) n = let rest = zeros_below f (n / 2) in if n % 2 == 0 then suc rest else 0

abbrev pub trailing_zeros : ℕ → ℕ
trailing_zeros n = zeros_below 64 n

-- The exponent of the next power of two, from `k` on, with `f` exponents left.
unfoldable pub ceil_from : ℕ → ℕ → ℕ → ℕ
ceil_from zero k n = k
ceil_from (suc f) k n = let rest = ceil_from f (suc k) n in if leb n (2 ^ k) then k else rest

-- `n.next_power_of_two().trailing_zeros()`, for `n` up to 2 ^ 63.
abbrev pub log_ceil : ℕ → ℕ
log_ceil n = ceil_from 63 0 n

-- A number is a multiple of 2 to the number of its trailing zeros.
pub zeros_divide : (f n : ℕ) → n % 2 ^ zeros_below f n ≡ 0
unfolding zeros_below
zeros_divide zero n = mod-one n
zeros_divide (suc f) n = elim (Bool-cases (n % 2 == 0)) [
  | inl even ↦
      rw (even, two-pow-succ (zeros_below f (n / 2)))
        (mod-double n (2 ^ zeros_below f (n / 2)) (pow_pos (zeros_below f (n / 2)))
          ∙ ground (arith, even, zeros_divide f (n / 2)))
  | inr odd ↦ rw odd (mod-one n)
]

-- A multiple of 2 ^ k has at least `k` trailing zeros.
pub zeros_at_least : (k f n : ℕ) → k ≤ f → n % 2 ^ k ≡ 0 → k ≤ zeros_below f n
unfolding zeros_below
zeros_at_least zero f n h e = omega arith
zeros_at_least (suc k) zero n h e = absurd (omega arith)
zeros_at_least (suc k) (suc f) n h e =
    let parts : n / 2 % 2 ^ k * 2 + n % 2 ≡ 0 =
      sym (mod-double n (2 ^ k) (pow_pos k)) ∙ ap (λ (p : ℕ). n % p) (sym (two-pow-succ k)) ∙ e in
    let even : (n % 2 == 0) ≡ true = ground (arith, parts) in
    let rest = zeros_at_least k f (n / 2) (omega arith) (omega (arith, parts)) in
    rw even (omega (arith, rest))

-- The next power of two is at least the number, and the power before it is less.
pub ceil_from-bounds :
    (f k n : ℕ)
    → n ≤ 2 ^ (k + f)
    → (k ≡ 0) ⊎ (2 ^ (k - 1) < n)
    → (n ≤ 2 ^ ceil_from f k n) × ((ceil_from f k n ≡ 0) ⊎ (2 ^ (ceil_from f k n - 1) < n))
unfolding ceil_from
ceil_from-bounds zero k n h low = let e : k + 0 ≡ k = omega arith in ((rw e at h), low)
ceil_from-bounds (suc f) k n h low = elim (Bool-cases (leb n (2 ^ k))) [
  | inl fits ↦ rw fits ((ground arith), low)
  | inr over ↦
      let e : k + suc f ≡ suc k + f = omega arith in
      rw over (
        ceil_from-bounds f (suc k) n (rw e at h)
          (inr (let b : suc k - 1 ≡ k = omega arith in rw b (ground arith))))
]

-- A multiple of a power of two is one of every smaller power.
pub mod_pow_less : (a b n : ℕ) → a ≤ b → n % 2 ^ b ≡ 0 → n % 2 ^ a ≡ 0
mod_pow_less zero b n h e = mod-one n
mod_pow_less (suc a) zero n h e = absurd (omega arith)
mod_pow_less (suc a) (suc b) n h e =
    let parts : n / 2 % 2 ^ b * 2 + n % 2 ≡ 0 =
      sym (mod-double n (2 ^ b) (pow_pos b)) ∙ ap (λ (p : ℕ). n % p) (sym (two-pow-succ b)) ∙ e in
    let rest = mod_pow_less a b (n / 2) (omega arith) (omega (arith, parts)) in
    rw (two-pow-succ a) (mod-double n (2 ^ a) (pow_pos a) ∙ omega (arith, rest, parts))
