-- ===== src/Memory/Bits.antt =====
-- Bitwise operations on words of a given width, and the masks of libs/memory.
pub mod Masks
use sophon_rpi_cross.Base.{
  ℕ, zero, suc, ◌+◌, ◌-◌, ◌*◌, ◌/◌, ◌%◌, ◌^◌, ◌≤◌, ◌<◌, min, ◌≡◌, ◌∙◌, ap, arith,
}
use native.Mathlib.Nat.{
  add-mul, add-mul-mod_self_left, mod-eq_of_lt, mod-lt, mod-le, mod-one, div-add-mod, two-pow-succ,
  one-le-pow,
}

-- `a & b`, by the lowest digit.
abbrev pub word_and : ℕ → ℕ → ℕ → ℕ
word_and zero a b = 0
word_and (suc w) a b = word_and w (a / 2) (b / 2) * 2 + min (a % 2) (b % 2)

-- `!a`
abbrev pub word_not : ℕ → ℕ → ℕ
word_not w a = 2 ^ w - 1 - a

pub pow_pos : (k : ℕ) → 0 < 2 ^ k
pow_pos k = one-le-pow k 2 (omega arith)

pub mod-double : (a p : ℕ) → 0 < p → a % (p + p) ≡ a / 2 % p * 2 + a % 2
mod-double a p h =
    let q = a / 2 / p in
    let r = a / 2 % p in
    let low : ℕ = r * 2 + a % 2 in
    let whole : a ≡ low + (p + p) * q = whole_lem in
    ap (λ (x : ℕ). x % (p + p)) whole
    ∙ add-mul-mod_self_left low (p + p) q
    ∙ mod-eq_of_lt (omega (arith, mod-lt (a / 2) h))
  where
    whole_lem : a ≡ a / 2 % p * 2 + a % 2 + (p + p) * (a / 2 / p)
    whole_lem = omega (arith, div-add-mod (a / 2) p, add-mul p p (a / 2 / p))

pub word_and-low : (w k a : ℕ) → k ≤ w → word_and w a (2 ^ k - 1) ≡ a % 2 ^ k
word_and-low zero zero a h = omega (arith, mod-one a)
word_and-low zero (suc k) a h = absurd (omega arith)
word_and-low (suc w) zero a h =
    omega (arith, mod-one a, word_and-low w zero (a / 2) (omega arith), mod-one (a / 2))
word_and-low (suc w) (suc k) a h =
    let half : (2 ^ suc k - 1) / 2 ≡ 2 ^ k - 1 = omega (arith, two-pow-succ k, pow_pos k) in
    rw (half, two-pow-succ k)
      (omega (
        arith,
        two-pow-succ k,
        pow_pos k,
        word_and-low w k (a / 2) (omega arith),
        mod-double a (2 ^ k) (pow_pos k),
      ))

pub word_and-high : (w k a : ℕ) → k ≤ w → a < 2 ^ w → word_and w a (2 ^ w - 2 ^ k) ≡ a - a % 2 ^ k
word_and-high zero zero a h lt = omega (arith, mod-one a)
word_and-high zero (suc k) a h lt = absurd (omega arith)
word_and-high (suc w) zero a h lt =
    let half : (2 ^ suc w - 2 ^ zero) / 2 ≡ 2 ^ w - 1 = omega (arith, two-pow-succ w, pow_pos w) in
    rw half (
      omega (
        arith,
        two-pow-succ w,
        pow_pos w,
        word_and-high w zero (a / 2) (omega arith) (omega (arith, two-pow-succ w)),
        mod-one a,
        mod-one (a / 2),
      ))
word_and-high (suc w) (suc k) a h lt =
    let half : (2 ^ suc w - 2 ^ suc k) / 2 ≡ 2 ^ w - 2 ^ k =
      omega (arith, two-pow-succ w, two-pow-succ k) in
    rw (half, two-pow-succ k)
      (omega (
        arith,
        two-pow-succ w,
        two-pow-succ k,
        pow_pos k,
        word_and-high w k (a / 2) (omega arith) (omega (arith, two-pow-succ w)),
        mod-double a (2 ^ k) (pow_pos k),
        mod-le (a / 2) (2 ^ k),
      ))
