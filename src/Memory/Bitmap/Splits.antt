-- ===== src/Memory/Bitmap/Splits.antt =====
-- The bits of all cells after `acquire_cell` of libs/memory/src/bitmap_page_allocator.rs.
use sophon_rpi_cross.Base.{
  ℕ, suc, ◌-◌, ◌^◌, ◌≤◌, ◌<◌, ◌≡◌, inl, inr, refl, ap, ◌∙◌, true, false, if◌then◌else◌, ◌==◌, ==→eq,
  ==→ne, ne→==, ltb, arith, Bool-cases,
}
use sophon_rpi_cross.Memory.Bitmap.{free, used}
use sophon_rpi_cross.Memory.Bitmap.Bits.{offset}
use sophon_rpi_cross.Memory.Bitmap.Array.{cell_of}

-- The bit of cell `j` of class `d`, which was `old`, after a cell of class `sc` was taken from a free
-- one of class `class`; `x` is the cell of class `d` that the unit is in. From `class` down to `sc`
-- that cell is used, and below `class` the cell next to it is free.
abbrev pub after : ℕ → ℕ → ℕ → ℕ → ℕ → ℕ → ℕ
after sc class x d j old =
    if ltb d sc
    then old
    else if ltb class d
    then old
    else if j == x
    then used
    else if ltb d class
    then (if j == suc x then free else old)
    else old

abbrev pub stored : ℕ → ℕ → ℕ → ℕ → ℕ → ℕ → ℕ
stored c i v d j old = if d == c then (if j == i then v else old) else old

-- A store to the bit of one cell, as the bits of the cells show it.
pub stored_lem :
    (log_units c i v d j old : ℕ)
    → c ≤ log_units
    → i < 2 ^ (log_units - c)
    → d ≤ log_units
    → j < 2 ^ (log_units - d)
    → (if offset log_units d j == offset log_units c i then v else old) ≡ stored c i v d j old
stored_lem log_units c i v d j old lc hi ld hj = elim (Bool-cases (d == c)) [
  | inl y ↦
      let base : offset log_units d j ≡ offset log_units c j =
        ap (λ (k : ℕ). offset log_units k j) (==→eq d c y) in
      elim (Bool-cases (j == i)) [
        | inl y' ↦
            let hit : (offset log_units d j == offset log_units c i) ≡ true =
              same (offset log_units d j) (offset log_units c i)
                (base ∙ ap (λ (k : ℕ). offset log_units c k) (==→eq j i y')) in
            rw (y, y', hit) refl
        | inr n' ↦
            let differ : (offset log_units d j == offset log_units c i) ≡ false =
              ne→== (offset log_units d j) (offset log_units c i)
                (λ e. ==→ne j i n' (omega (arith, base, e))) in
            rw (y, n', differ) refl
      ]
  | inr n ↦
      let differ : (offset log_units d j == offset log_units c i) ≡ false =
        ne→== (offset log_units d j) (offset log_units c i)
          (λ e. ==→ne d c n (cell_of log_units d c j i ld lc hj hi e).0) in
      rw (n, differ) refl
]
  where
    same : (a b : ℕ) → a ≡ b → (a == b) ≡ true
    same a b e = ground (arith, e)

pub after_took :
    (sc d j x i old : ℕ) → (d ≡ sc → x ≡ i) → stored sc i used d j old ≡ after sc sc x d j old
after_took sc d j x i old same = ground (arith, same)

pub after_split :
    (sc class d j x u v b b₂ b₃ b₄ b₅ : ℕ)
    → suc sc ≤ class
    → (d ≡ sc → x ≡ u)
    → (d ≡ suc sc → x ≡ v)
    → b₂ ≡ after (suc sc) class x d j b
    → b₃ ≡ stored (suc sc) v used d j b₂
    → b₄ ≡ stored sc u used d j b₃
    → b₅ ≡ stored sc (suc u) free d j b₄
    → b₅ ≡ after sc class x d j b
after_split sc class d j x u v b b₂ b₃ b₄ b₅ le same_u same_v e₂ e₃ e₄ e₅ =
    ground (arith, same_u, same_v)
