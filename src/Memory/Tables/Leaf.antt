-- ===== src/Memory/Tables/Leaf.antt =====
-- The last entry that `map` writes, in libs/memory/src/page_table/page_table.rs.
use sophon_rpi_cross.Base.{
  ℕ, ◌+◌, ◌/◌, ◌^◌, ◌%◌, ◌≤◌, ◌<◌, ◌≡◌, ◌≢◌, ◌⊎◌, inl, inr, refl, sym, ap, ◌∙◌, true, false, ◌==◌,
  arith,
}
use sophon_rpi_cross.Memory.Page.{PageSize, size4k, size2m, size1g, log_bytes, bytes}
use sophon_rpi_cross.Memory.Entry.{is_empty, is_block}
use sophon_rpi_cross.Memory.Entry.Words.{small_bit, EntryOf}
use sophon_rpi_cross.Memory.Tables.{Memory, get_index, shift, translate, store}
use sophon_rpi_cross.Memory.Tables.Index.{above, same_number, page_numbers}
use sophon_rpi_cross.Memory.Tables.Walk.{Shaped, Covers, Reach, translate_at, level_of, leaf_level}
use sophon_rpi_cross.Memory.Tables.Agree.{Reach-Covers, translate-Reach, translate-alike}
use sophon_rpi_cross.Memory.Tables.Enter.{Reach-kept}

-- The address lies in the page.
abbrev pub InPage : PageSize → ℕ → ℕ → Type 0
InPage s page a = (page ≤ a) × (a < page + bytes s)

shift-level_of : (s : PageSize) → shift (level_of s) ≡ log_bytes s
shift-level_of size4k = refl
shift-level_of size2m = refl
shift-level_of size1g = refl

InPage-number :
    (s : PageSize) (page a : ℕ)
    → page % bytes s ≡ 0
    → InPage s page a
    → a / 2 ^ shift (level_of s) ≡ page / 2 ^ shift (level_of s)
InPage-number size4k page a al h = omega (arith, h.0, h.1)
InPage-number size2m page a al h = omega (arith, h.0, h.1)
InPage-number size1g page a al h = omega (arith, h.0, h.1)

number-InPage :
    (s : PageSize) (page a : ℕ)
    → page % bytes s ≡ 0
    → a / 2 ^ shift (level_of s) ≡ page / 2 ^ shift (level_of s)
    → InPage s page a
number-InPage size4k page a al e = (omega arith, omega arith)
number-InPage size2m page a al e = (omega arith, omega arith)
number-InPage size1g page a al e = (omega arith, omega arith)

level_of-le : (s : PageSize) → level_of s ≤ 3
level_of-le size4k = omega arith
level_of-le size2m = omega arith
level_of-le size1g = omega arith

large-block : (s : PageSize) → 2 ≤ level_of s → (small_bit s == 0) ≡ true
large-block size4k h = absurd (omega arith)
large-block size2m h = refl
large-block size1g h = refl

pub store-cases :
    (m : Memory) (t i e t' j : ℕ)
    → ((t' ≡ t) × (j ≡ i) × (store m t i e t' j ≡ e))
      ⊎ (((t' ≢ t) ⊎ (j ≢ i)) × (store m t i e t' j ≡ m t' j))
store-cases m t i e t' j = ground arith

module _ (m : Memory) (root : ℕ) (level place : ℕ → ℕ) (shape : Shaped m root level place)
    (s : PageSize) (page t e : ℕ) (small : page < 2 ^ 48) (aligned : page % bytes s ≡ 0)
    (reach : Reach m root page (level_of s) t) where
  abbrev pub index : ℕ
  index = get_index (level_of s) page

  abbrev pub stored : Memory
  stored = store m t index e

  at : Covers level place page (level_of s) t
  at = Reach-Covers m root level place shape page t small reach

  pub stored-Shaped : (frame : ℕ) → EntryOf s frame e → Shaped stored root level place
  stored-Shaped frame entry = record {
    root_level = shape.root_level;
    root_place = shape.root_place;
    aligned = shape.aligned;
    below = λ t' j lt two n b. elim (store-cases m t index e t' j) [
      | inl (same, _, w) ↦
          (let deep : 2 ≤ level_of s = omega (arith, ap level same, at.0) in
            absurd (cc (w, entry.block, large-block s deep, b)))
      | inr (_, w) ↦
          rw w (shape.below t' j lt two (sym (ap is_empty w) ∙ n) (sym (ap is_block w) ∙ b))
    ];
    no_block = λ t' j lt four n. elim (store-cases m t index e t' j) [
      | inl (same, _, w) ↦ absurd (omega (arith, ap level same, at.0, level_of-le s))
      | inr (_, w) ↦ ap is_block w ∙ shape.no_block t' j lt four (sym (ap is_empty w) ∙ n)
    ];
  }

  -- The walk for an address in the page arrives at the table that has been written.
  pub stored-Reach : (a : ℕ) → a < 2 ^ 48 → InPage s page a → Reach stored root a (level_of s) t
  stored-Reach a lt inside =
      let (_, same_above) =
        same_number a page (leaf_level s) (InPage-number s page a aligned inside) in
      Reach-kept m stored root level place shape page a t kept small (sym same_above) reach
    where
      kept : (t' j : ℕ) → level_of s < level t' → is_empty (m t' j) ≡ false → stored t' j ≡ m t' j
      kept t' j deep n = elim (store-cases m t index e t' j) [
        | inl (same, _, w) ↦ absurd (omega (arith, ap level same, at.0, deep))
        | inr (_, w) ↦ w
      ]

  pub stored_inside :
      Shaped stored root level place
      → (a : ℕ) → a < 2 ^ 48
      → InPage s page a
      → translate stored root a ≡ translate_at (leaf_level s) stored t a
  stored_inside shaped a lt inside =
      translate-Reach stored root level place shaped a t (leaf_level s) (stored-Reach a lt inside)

  -- The entry for it is the new one.
  pub stored_entry : (a : ℕ) → InPage s page a → stored t (get_index (level_of s) a) ≡ e
  stored_entry a inside =
      let (same_index, _) =
        same_number a page (leaf_level s) (InPage-number s page a aligned inside) in
      stored-at (get_index (level_of s) a) same_index
    where
      stored-at : (j : ℕ) → j ≡ index → stored t j ≡ e
      stored-at j h = ground (arith, h)

  pub stored_outside :
      (a : ℕ) → a < 2 ^ 48 → (InPage s page a → ⊥) → translate stored root a ≡ translate m root a
  stored_outside a lt outside = translate-alike m stored root level place shape a lt (λ k v t' c.
      elim (store-cases m t index e t' (get_index k a)) [
        | inr (_, w) ↦ inl w
        | inl (same, here, w) ↦
            let deep : k ≡ level_of s = sym c.0 ∙ ap level same ∙ at.0 in
            let digits : above (level_of s) a ≡ above (level_of s) page =
              ap (λ (k : ℕ). above k a) (sym deep) ∙ sym c.1 ∙ ap place same ∙ at.1 in
            let last : get_index (level_of s) a ≡ index =
              ap (λ (k : ℕ). get_index k a) (sym deep) ∙ here in
            absurd (
              outside
                (number-InPage s page a aligned (page_numbers a page (leaf_level s) digits last)))
      ])
