-- ===== src/Memory/Bits/Masks.antt =====
-- `a | b` and `a ^ b` on words, and the laws of masks.
use sophon_rpi_cross.Base.{
  ℕ, zero, suc, ◌+◌, ◌-◌, ◌*◌, ◌/◌, ◌%◌, ◌^◌, ◌≤◌, ◌<◌, min, max, ◌≡◌, refl, ◌∙◌, ap, arith,
}
use native.Mathlib.Nat.{two-pow-succ, div-div-eq-div-mul, mul-add}
use sophon_rpi_cross.Memory.Bits.{word_and, word_and-high, pow_pos}

-- `a | b`, by the lowest digit.
abbrev pub word_or : ℕ → ℕ → ℕ → ℕ
word_or zero a b = 0
word_or (suc w) a b = word_or w (a / 2) (b / 2) * 2 + max (a % 2) (b % 2)

-- `a ^ b`
abbrev pub word_xor : ℕ → ℕ → ℕ → ℕ
word_xor zero a b = 0
word_xor (suc w) a b = word_xor w (a / 2) (b / 2) * 2 + (a + b) % 2

pub word_and-lt : (w a b : ℕ) → word_and w a b < 2 ^ w
word_and-lt zero a b = omega arith
word_and-lt (suc w) a b = omega (arith, two-pow-succ w, word_and-lt w (a / 2) (b / 2))

pub word_or-lt : (w a b : ℕ) → word_or w a b < 2 ^ w
word_or-lt zero a b = omega arith
word_or-lt (suc w) a b = omega (arith, two-pow-succ w, word_or-lt w (a / 2) (b / 2))

-- The mask of a union is the union of the masked words.
pub word_and-word_or :
    (w a b m : ℕ) → word_and w (word_or w a b) m ≡ word_or w (word_and w a m) (word_and w b m)
word_and-word_or zero a b m = refl
word_and-word_or (suc w) a b m =
    let or_half : (word_or w (a / 2) (b / 2) * 2 + max (a % 2) (b % 2)) / 2
        ≡ word_or w (a / 2) (b / 2) =
      omega arith in
    let left : (word_and w (a / 2) (m / 2) * 2 + min (a % 2) (m % 2)) / 2
        ≡ word_and w (a / 2) (m / 2) =
      omega arith in
    let right : (word_and w (b / 2) (m / 2) * 2 + min (b % 2) (m % 2)) / 2
        ≡ word_and w (b / 2) (m / 2) =
      omega arith in
    rw (or_half, left, right) (omega (arith, word_and-word_or w (a / 2) (b / 2) (m / 2)))

pub word_and_assoc : (w a b c : ℕ) → word_and w (word_and w a b) c ≡ word_and w a (word_and w b c)
word_and_assoc zero a b c = refl
word_and_assoc (suc w) a b c =
    let left : (word_and w (a / 2) (b / 2) * 2 + min (a % 2) (b % 2)) / 2
        ≡ word_and w (a / 2) (b / 2) =
      omega arith in
    let right : (word_and w (b / 2) (c / 2) * 2 + min (b % 2) (c % 2)) / 2
        ≡ word_and w (b / 2) (c / 2) =
      omega arith in
    rw (left, right) (omega (arith, word_and_assoc w (a / 2) (b / 2) (c / 2)))

pub word_or-zero : (w a : ℕ) → a < 2 ^ w → word_or w a 0 ≡ a
word_or-zero zero a h = omega arith
word_or-zero (suc w) a h =
    omega (arith, two-pow-succ w, word_or-zero w (a / 2) (omega (arith, two-pow-succ w)))

pub zero-word_or : (w a : ℕ) → a < 2 ^ w → word_or w 0 a ≡ a
zero-word_or zero a h = omega arith
zero-word_or (suc w) a h =
    omega (arith, two-pow-succ w, zero-word_or w (a / 2) (omega (arith, two-pow-succ w)))

word_and-zero : (w a : ℕ) → word_and w a 0 ≡ 0
word_and-zero zero a = refl
word_and-zero (suc w) a = omega (arith, word_and-zero w (a / 2))

-- The digits past the end of the mask do not matter.
pub word_and-narrow : (k w a m : ℕ) → k ≤ w → m < 2 ^ k → word_and w a m ≡ word_and k a m
word_and-narrow zero w a m le h = let z : m ≡ 0 = omega arith in rw z (word_and-zero w a)
word_and-narrow (suc k) zero a m le h = absurd (omega arith)
word_and-narrow (suc k) (suc w) a m le h = omega (
  arith,
  two-pow-succ k,
  word_and-narrow k w (a / 2) (m / 2) (omega arith) (omega (arith, two-pow-succ k)),
)

-- A mask that is shifted by `s` reads the digits from `s` on.
pub word_and-shift :
    (s w v a m : ℕ) → s + v ≡ w → word_and w a (m * 2 ^ s) ≡ word_and v (a / 2 ^ s) m * 2 ^ s
word_and-shift zero w v a m e =
    let same : v ≡ w = omega arith in
    let l : m * 2 ^ 0 ≡ m = omega arith in
    let r : a / 2 ^ 0 ≡ a = omega arith in rw (same, l, r) (omega arith)
word_and-shift (suc s) zero v a m e = absurd (omega arith)
word_and-shift (suc s) (suc w) v a m e =
    let split = scale m s in
    let half : m * 2 ^ suc s / 2 ≡ m * 2 ^ s = omega (arith, split) in
    let twice : 2 * 2 ^ s ≡ 2 ^ suc s = omega (arith, two-pow-succ s) in
    let a_half : a / 2 / 2 ^ s ≡ a / 2 ^ suc s =
      div-div-eq-div-mul a 2 (2 ^ s) ∙ ap (λ (d : ℕ). a / d) twice in
    rw half (
      let rest = word_and-shift s w v (a / 2) m (omega arith) in
      let there = rest ∙ ap (λ (b : ℕ). word_and v b m * 2 ^ s) a_half in
      omega (arith, there, split, scale (word_and v (a / 2 ^ suc s) m) s))
  where
    mul_add : (m p : ℕ) → m * (p + p) ≡ m * p * 2
    mul_add m p = omega (arith, mul-add m p p)

    scale : (x s : ℕ) → x * 2 ^ suc s ≡ x * 2 ^ s * 2
    scale x s = ap (λ (p : ℕ). x * p) (two-pow-succ s) ∙ mul_add x (2 ^ s)

-- A word that lies in the mask is left alone.
pub word_and-inside :
    (k w a j : ℕ) → k ≤ w → j ≤ k → a < 2 ^ k → a % 2 ^ j ≡ 0 → word_and w a (2 ^ k - 2 ^ j) ≡ a
word_and-inside k w a j le' le lt e =
    let below : 2 ^ k - 2 ^ j < 2 ^ k = omega (arith, pow_pos k, pow_pos j) in
    word_and-narrow k w a (2 ^ k - 2 ^ j) le' below ∙ word_and-high k j a le lt ∙ omega (arith, e)
