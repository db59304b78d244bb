-- ===== src/Memory/Tables/Clear.antt =====
-- Page tables with an entry cleared, as `unmap` of libs/memory/src/page_table/page_table.rs leaves them.
use sophon_rpi_cross.Base.{
  ℕ, zero, suc, ◌<◌, ◌≡◌, inl, inr, sym, subst, ap, ◌∙◌, true, ◌&&◌, some, ◌==◌, arith, Bool-cases,
  ==→eq,
}
use sophon_rpi_cross.Memory.Entry.{is_empty, is_block}
use sophon_rpi_cross.Memory.Tables.{Memory, get_index, get_next_table, clear_below, is_clear, store}
use sophon_rpi_cross.Memory.Tables.Index.{Level, get_index-lt}
use sophon_rpi_cross.Memory.Tables.Walk.{Shaped, translate_at, at_empty, at_next}
use sophon_rpi_cross.Memory.Tables.Agree.{Alike}
use sophon_rpi_cross.Memory.Tables.Leaf.{store-cases}

clear-entry :
    (entries : ℕ → ℕ) (n i : ℕ) → i < n → clear_below entries n ≡ true → is_empty (entries i) ≡ true
clear-entry entries zero i lt h = absurd (omega arith)
clear-entry entries (suc n) i lt h = elim (Bool-cases (clear_below entries n)) [
  | inr b ↦ absurd (cc (h, b))
  | inl b ↦ elim (Bool-cases (i == n)) [
    | inl y ↦
        (let last : is_empty (entries n) ≡ true = sym (ap (λ c. c && is_empty (entries n)) b) ∙ h in
          subst (λ j. is_empty (entries j) ≡ true) (sym (==→eq i n y)) last)
    | inr ne ↦ clear-entry entries n i (ground (arith, ne)) b
  ]
]

gone : (m : Memory) (t i j : ℕ) → j ≡ i → is_empty (store m t i 0 t j) ≡ true
gone m t i j h = ground (arith, h)

module _ (m : Memory) (root : ℕ) (level place : ℕ → ℕ) (shape : Shaped m root level place) where
  -- Without an entry the tables are still well formed.
  pub cleared-Shaped : (t i : ℕ) → Shaped (store m t i 0) root level place
  cleared-Shaped t i = record {
    root_level = shape.root_level;
    root_place = shape.root_place;
    aligned = shape.aligned;
    below = λ t' j lt two n b. elim (store-cases m t i 0 t' j) [
      | inl (_, _, w) ↦ absurd (cc (ap is_empty w, n))
      | inr (_, w) ↦
          rw w (shape.below t' j lt two (sym (ap is_empty w) ∙ n) (sym (ap is_block w) ∙ b))
    ];
    no_block = λ t' j lt four n. elim (store-cases m t i 0 t' j) [
      | inl (_, _, w) ↦ absurd (cc (ap is_empty w, n))
      | inr (_, w) ↦ ap is_block w ∙ shape.no_block t' j lt four (sym (ap is_empty w) ∙ n)
    ];
  }

  module _ (l t t' i : ℕ) (v : Level l) (at : level t ≡ suc l) (under : level t' ≡ l)
      (link : get_next_table m t i ≡ some t') (clear : is_clear (m t') ≡ true) where
    -- Nothing is mapped through a table that is all empty.
    unlinked :
        (a : ℕ) (u : Level (suc l))
        → get_index (suc l) a ≡ i
        → translate_at u (store m t i 0) t a ≡ translate_at u m t a
    unlinked a u here =
        at_empty u (store m t i 0) t a (gone m t i (get_index (suc l) a) here)
        ∙ sym (
            at_next u v m t t' a (ap (get_next_table m t) here ∙ link)
            ∙ at_empty v m t' a (clear-entry (m t') 512 (get_index l a) (get_index-lt a v) clear))

    pub unlinked-Alike : (a : ℕ) → Alike m (store m t i 0) root level place shape a
    unlinked-Alike a k w x c = elim (store-cases m t i 0 x (get_index k a)) [
      | inr (_, same) ↦ inl same
      | inl (same, here, _) ↦
          let deep : suc l ≡ k = sym at ∙ ap level (sym same) ∙ c.0 in
          inr (
            rw same (
              subst
                (λ k.
                  (u : Level k)
                  → get_index k a ≡ i
                  → translate_at u (store m t i 0) t a ≡ translate_at u m t a)
                deep (unlinked a) w here))
    ]
