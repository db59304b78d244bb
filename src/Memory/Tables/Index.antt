-- ===== src/Memory/Tables/Index.antt =====
-- Indices into page tables: nine digits of an address for each level, in
-- libs/memory/src/page_table/page_table.rs.
use sophon_rpi_cross.Base.{
  ℕ, suc, ◌+◌, ◌*◌, ◌/◌, ◌%◌, ◌^◌, ◌≤◌, ◌<◌, ◌≡◌, refl, sym, ap, ◌∙◌, arith,
}
use native.Mathlib.Nat.{mul-div_cancel, div-add-mod, mod-lt}
use sophon_rpi_cross.Memory.Bits.{word_and, word_and-low, pow_pos}
use sophon_rpi_cross.Memory.Bits.Masks.{word_and-shift}
use sophon_rpi_cross.Memory.Tables.{shift, get_index}

digits :
    (s v a : ℕ) → s + v ≡ 64 → 9 ≤ v → word_and 64 a (0b111111111 * 2 ^ s) / 2 ^ s ≡ a / 2 ^ s % 512
digits s v a e le =
    ap (λ (x : ℕ). x / 2 ^ s) (word_and-shift s 64 v a 0b111111111 e)
    ∙ mul-div_cancel (word_and v (a / 2 ^ s) 0b111111111) (pow_pos s)
    ∙ word_and-low v 9 (a / 2 ^ s) le

-- The levels of tables.
pub data Level : ℕ → Type 0 where
  l1 : Level 1
  l2 : Level 2
  l3 : Level 3
  l4 : Level 4

pub get_index_lem : {l : ℕ} (a : ℕ) → Level l → get_index l a ≡ a / 2 ^ shift l % 512
unfolding get_index
get_index_lem a l1 = digits 12 52 a refl (omega arith)
get_index_lem a l2 = digits 21 43 a refl (omega arith)
get_index_lem a l3 = digits 30 34 a refl (omega arith)
get_index_lem a l4 = digits 39 25 a refl (omega arith)

pub get_index-lt : {l : ℕ} (a : ℕ) → Level l → get_index l a < 512
get_index-lt a l = rw (get_index_lem a l) (mod-lt (a / 2 ^ shift _) (omega arith))

-- The digits of an address above those that a table of the level is indexed with.
unfoldable pub above : ℕ → ℕ → ℕ
above l a = a / 2 ^ shift l / 512

pub above-four : (a : ℕ) → a < 2 ^ 48 → above 4 a ≡ 0
unfolding above
above-four a lt = omega arith

-- The table below is one digit further.
pub above-below :
    {l : ℕ} (a : ℕ)
    → Level (suc l)
    → Level l
    → above l a ≡ above (suc l) a * 512 + get_index (suc l) a
unfolding above
above-below a up l = rw (get_index_lem a up) (step a l)
  where
    step :
        {l : ℕ} (a : ℕ)
        → Level l
        → a / 2 ^ shift l / 512 ≡ a / 2 ^ shift (suc l) / 512 * 512 + a / 2 ^ shift (suc l) % 512
    step a l1 = omega arith
    step a l2 = omega arith
    step a l3 = omega arith
    step a l4 = omega arith

-- An index and the digits above it are the number of the page.
page_number : {l : ℕ} (a : ℕ) → Level l → above l a * 512 + get_index l a ≡ a / 2 ^ shift l
unfolding above
page_number a l = rw (get_index_lem a l) (omega (arith, div-add-mod (a / 2 ^ shift _) 512))

pub Level-pos : {l : ℕ} → Level l → 0 < l
Level-pos l1 = omega arith
Level-pos l2 = omega arith
Level-pos l3 = omega arith
Level-pos l4 = omega arith

pub Level-le : {l : ℕ} → Level l → l ≤ 4
Level-le l1 = omega arith
Level-le l2 = omega arith
Level-le l3 = omega arith
Level-le l4 = omega arith

pub under : {l : ℕ} → Level (suc (suc l)) → Level (suc l)
under l2 = l1
under l3 = l2
under l4 = l3

-- Addresses with the same digits above a level have the same index one level up.
pub above_up :
    {l : ℕ} (a b : ℕ) (u : Level (suc l)) (v : Level l)
    → above l a ≡ above l b
    → (get_index (suc l) a ≡ get_index (suc l) b) × (above (suc l) a ≡ above (suc l) b)
above_up {l = l} a b u v e =
    digit (above (suc l) a) (above (suc l) b) (get_index (suc l) a) (get_index (suc l) b)
      (get_index-lt a u) (get_index-lt b u) (sym (above-below a u v) ∙ e ∙ above-below b u v)
  where
    digit : (q r i j : ℕ) → i < 512 → j < 512 → q * 512 + i ≡ r * 512 + j → (i ≡ j) × (q ≡ r)
    digit q r i j lt lt' h = (omega arith, omega arith)

pub same_number :
    {l : ℕ} (a b : ℕ) (v : Level l)
    → a / 2 ^ shift l ≡ b / 2 ^ shift l
    → (get_index l a ≡ get_index l b) × (above l a ≡ above l b)
unfolding above
same_number a b v e = (
  get_index_lem a v ∙ ap (λ (n : ℕ). n % 512) e ∙ sym (get_index_lem b v),
  ap (λ (n : ℕ). n / 512) e,
)

pub page_numbers :
    {l : ℕ} (a b : ℕ) (v : Level l)
    → above l a ≡ above l b
    → get_index l a ≡ get_index l b
    → a / 2 ^ shift l ≡ b / 2 ^ shift l
page_numbers {l = l} a b v e i =
    sym (page_number a v)
    ∙ ap (λ (q : ℕ). q * 512 + get_index l a) e
    ∙ ap (λ (j : ℕ). above l b * 512 + j) i
    ∙ page_number b v
