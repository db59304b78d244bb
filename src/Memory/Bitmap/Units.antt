-- ===== src/Memory/Bitmap/Units.antt =====
-- Cells of one class inside a cell of a larger one, in libs/memory/src/bitmap_page_allocator.rs.
use sophon_rpi_cross.Base.{
  ℕ, zero, suc, ◌+◌, ◌-◌, ◌*◌, ◌/◌, ◌^◌, ◌≤◌, ◌<◌, ◌≡◌, sym, ap, ◌∙◌, arith,
}
use native.Mathlib.Nat.{two-pow-succ, mul-div_cancel, mul_assoc, mul-le-mul_right, suc-mul, add-mul}
use sophon_rpi_cross.Memory.Bits.{pow_pos}

pow_plus : (a b : ℕ) → 2 ^ (a + b) ≡ 2 ^ a * 2 ^ b
pow_plus zero b =
    let none : zero + b ≡ b = omega arith in
    let one : 1 * 2 ^ b ≡ 2 ^ b = omega arith in ap (λ (k : ℕ). 2 ^ k) none ∙ sym one
pow_plus (suc a) b =
    let next : suc a + b ≡ suc (a + b) = omega arith in
    ap (λ (k : ℕ). 2 ^ k) next
    ∙ two-pow-succ (a + b)
    ∙ ap (λ (x : ℕ). x + x) (pow_plus a b)
    ∙ sym (add-mul (2 ^ a) (2 ^ a) (2 ^ b))
    ∙ ap (λ (x : ℕ). x * 2 ^ b) (sym (two-pow-succ a))

-- The cells of class `sc` in a cell of class `c`.
pub unit_index :
    (log_units sc c j : ℕ)
    → sc ≤ c
    → c ≤ log_units
    → j < 2 ^ (log_units - c)
    → (j * 2 ^ c / 2 ^ sc ≡ j * 2 ^ (c - sc))
      × (j * 2 ^ (c - sc) + 2 ^ (c - sc) ≤ 2 ^ (log_units - sc))
unit_index log_units sc c j le le' lt =
    let d = c - sc in
    let whole : c ≡ d + sc = omega (arith, le) in
    let rest : log_units - sc ≡ log_units - c + d = omega (arith, le, le') in
    let product : j * 2 ^ c ≡ j * 2 ^ d * 2 ^ sc =
      ap (λ (k : ℕ). j * 2 ^ k) whole
      ∙ ap (λ (x : ℕ). j * x) (pow_plus d sc)
      ∙ sym (mul_assoc j (2 ^ d) (2 ^ sc)) in
    (
      ap (λ (x : ℕ). x / 2 ^ sc) product ∙ mul-div_cancel (j * 2 ^ d) (pow_pos sc),
      omega (
        arith,
        mul-le-mul_right (2 ^ d) lt,
        suc-mul j (2 ^ d),
        ap (λ (k : ℕ). 2 ^ k) rest ∙ pow_plus (log_units - c) d,
      ),
    )
