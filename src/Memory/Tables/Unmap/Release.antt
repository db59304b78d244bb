-- ===== src/Memory/Tables/Unmap/Release.antt =====
-- The release of page tables that are all empty, in `unmap` of libs/memory/src/page_table/page_table.rs.
use sophon_rpi_cross.Base.{
  ℕ, suc, ◌^◌, ◌%◌, ◌<◌, ◌≡◌, inl, inr, refl, sym, subst, ap, ◌∙◌, Bool, true, false, none, some,
  done, if◌then◌else◌, arith, Bool-cases,
}
use sophon_rpi_cross.Memory.Page.{PageSize, size4k}
use sophon_rpi_cross.Memory.Page.Rounding.{page_new-aligned}
use sophon_rpi_cross.Memory.Entry.{is_empty}
use sophon_rpi_cross.Memory.Tables.{
  Memory, get_index, get_next_table, is_clear, store, translate, Space,
}
use sophon_rpi_cross.Memory.Tables.Index.{Level, l1, Level-pos}
use sophon_rpi_cross.Memory.Tables.Walk.{Shaped, Reach, down, at_empty}
use sophon_rpi_cross.Memory.Tables.Agree.{Reach-Covers, translate-alike, same_next}
use sophon_rpi_cross.Memory.Tables.Leaf.{
  InPage, store-cases, stored_inside, stored_entry, stored_outside,
}
use sophon_rpi_cross.Memory.Tables.Clear.{cleared-Shaped, unlinked-Alike}
use sophon_rpi_cross.Memory.Tables.Unmap.{clear_and_release}

-- What is left after the table `t` of level `l` on the way to a small page: `b` says whether it has
-- been released.
pub record Released (root page : ℕ) (level place : ℕ → ℕ) (m : Memory) (l t : ℕ) (b : Bool)
    (m' : Memory) : Type 0 where
  pub shape : Shaped m' root level place
  pub inside : (a : ℕ) → a < 2 ^ 48 → InPage size4k page a → translate m' root a ≡ done none
  pub outside :
      (a : ℕ) → a < 2 ^ 48 → (InPage size4k page a → ⊥) → translate m' root a ≡ translate m root a
  pub higher : (x j : ℕ) → l < level x → m' x j ≡ m x j
  pub clear : b ≡ true → is_clear (m' t) ≡ true

module _ {A : Type 0} (dealloc : PageSize → ℕ → A → A) (root page : ℕ) (level place : ℕ → ℕ)
    (small : page < 2 ^ 48) (aligned : page % 2 ^ 12 ≡ 0) where
  clear_and_release_lem :
      (t i : ℕ) (w : Space A)
      → t % 2 ^ 12 ≡ 0
      → (b : Bool) × (w' : Space A) × (clear_and_release dealloc size4k t i w ≡ done (b, w'))
        × (w'.memory ≡ store w.memory t i 0)
        × (b ≡ is_clear (w'.memory t))
  unfolding clear_and_release
  clear_and_release_lem t i w al = elim (Bool-cases (is_clear (store w.memory t i 0 t))) [
    | inl y ↦ (
      true,
      record { memory = store w.memory t i 0; pa = dealloc size4k t w.pa },
      rw (y, page_new-aligned size4k t al) refl,
      refl,
      sym y,
    )
    | inr n ↦ (false, record w { memory = store w.memory t i 0 }, rw n refl, refl, sym n)
  ]

  table-aligned :
      (m : Memory) (l t : ℕ)
      → Shaped m root level place
      → Level l
      → Reach m root page l t
      → t % 2 ^ 12 ≡ 0
  table-aligned m l t shape v reach =
      let (deep, _) = Reach-Covers m root level place shape page t small reach in
      shape.aligned t (λ z. omega (arith, z, deep, Level-pos v))

  leaf_cleared :
      (m : Memory) (t : ℕ) (b : Bool)
      → Shaped m root level place
      → Reach m root page 1 t
      → b ≡ is_clear (store m t (get_index 1 page) 0 t)
      → Released root page level place m 1 t b (store m t (get_index 1 page) 0)
  leaf_cleared m t b shape reach bc =
      let m' = store m t (get_index 1 page) 0 in
      let shape' = cleared-Shaped m root level place shape t (get_index 1 page) in
      let (deep, _) = Reach-Covers m root level place shape page t small reach in
      record {
        shape = shape';
        inside = λ a lt at.
            stored_inside m root level place shape size4k page t 0 small aligned reach shape' a lt
              at
            ∙ at_empty l1 m' t a (
                ap is_empty
                  (stored_entry m root level place shape size4k page t 0 small aligned reach a at));
        outside = stored_outside m root level place shape size4k page t 0 small aligned reach;
        higher = λ x j up. elim (store-cases m t (get_index 1 page) 0 x j) [
          | inl (same, _, _) ↦ absurd (omega (arith, up, ap level same, deep))
          | inr (_, same) ↦ same
        ];
        clear = λ h. sym bc ∙ h;
      }

  pub release_leaf :
      (t : ℕ) (w : Space A)
      → Shaped w.memory root level place
      → Reach w.memory root page 1 t
      → (b : Bool) × (w' : Space A) × (clear_and_release dealloc size4k t (get_index 1 page) w
          ≡ done (b, w'))
        × Released root page level place w.memory 1 t b w'.memory
  release_leaf t w shape reach =
      let al = table-aligned w.memory 1 t shape l1 reach in
      let (b, w', e, mem, bc) = clear_and_release_lem t (get_index 1 page) w al in
      let cleared =
        leaf_cleared w.memory t b shape reach (bc ∙ ap (λ (m : Memory). is_clear (m t)) mem) in
      (b, w', e, subst (Released root page level place w.memory 1 t b) (sym mem) cleared)

  -- A table is unlinked after the table below it has been released.
  pub above_cleared :
      (l t t' : ℕ) (u : Level (suc l)) (v : Level l) (m m₁ : Memory) (b : Bool)
      → Shaped m root level place
      → Reach m root page (suc l) t
      → get_next_table m t (get_index (suc l) page) ≡ some t'
      → Released root page level place m l t' true m₁
      → b ≡ is_clear (store m₁ t (get_index (suc l) page) 0 t)
      → Released root page level place m (suc l) t b (store m₁ t (get_index (suc l) page) 0)
  above_cleared l t t' u v m m₁ b shape reach link h bc =
      let i = get_index (suc l) page in
      let m₂ = store m₁ t i 0 in
      let (deep, _) = Reach-Covers m root level place shape page t small reach in
      let (deep', _) = Reach-Covers m root level place shape page t' small (down u v reach link) in
      let link₁ : get_next_table m₁ t i ≡ some t' =
        same_next m m₁ t i (h.higher t i (omega (arith, deep))) ∙ link in
      let same : (a : ℕ) → a < 2 ^ 48 → translate m₂ root a ≡ translate m₁ root a = λ a lt.
        translate-alike m₁ m₂ root level place h.shape a lt (
          unlinked-Alike m₁ root level place h.shape l t t' i v deep deep' link₁ (h.clear refl)
            a) in
      record {
        shape = cleared-Shaped m₁ root level place h.shape t i;
        inside = λ a lt at. same a lt ∙ h.inside a lt at;
        outside = λ a lt out. same a lt ∙ h.outside a lt out;
        higher = λ x j up. elim (store-cases m₁ t i 0 x j) [
          | inl (eq, _, _) ↦ absurd (omega (arith, up, ap level eq, deep))
          | inr (_, eq) ↦ eq ∙ h.higher x j (omega (arith, up))
        ];
        clear = λ y. sym bc ∙ y;
      }

  release_above :
      (l t t' : ℕ) (u : Level (suc l)) (v : Level l) (w w₁ : Space A)
      → Shaped w.memory root level place
      → Reach w.memory root page (suc l) t
      → get_next_table w.memory t (get_index (suc l) page) ≡ some t'
      → Released root page level place w.memory l t' true w₁.memory
      → (b : Bool) × (w' : Space A) × (clear_and_release dealloc size4k t
            (get_index (suc l) page)
            w₁
          ≡ done (b, w'))
        × Released root page level place w.memory (suc l) t b w'.memory
  release_above l t t' u v w w₁ shape reach link h =
      let al = table-aligned w.memory (suc l) t shape u reach in
      let (b, w', e, mem, bc) = clear_and_release_lem t (get_index (suc l) page) w₁ al in
      let cleared =
        above_cleared l t t' u v w.memory w₁.memory b shape reach link h
          (bc ∙ ap (λ (m : Memory). is_clear (m t)) mem) in
      (b, w', e, subst (Released root page level place w.memory (suc l) t b) (sym mem) cleared)

  -- The tables above one that is not released stay as they are.
  pub Released-skip :
      (l t t' : ℕ) (m m' : Memory)
      → Released root page level place m l t' false m'
      → Released root page level place m (suc l) t false m'
  Released-skip l t t' m m' h = record {
    shape = h.shape;
    inside = h.inside;
    outside = h.outside;
    higher = λ x j up. h.higher x j (omega (arith, up));
    clear = λ e. absurd cc;
  }

  pub release_next :
      (l t t' : ℕ) (u : Level (suc l)) (v : Level l) (w w₁ : Space A) (b : Bool)
      → Shaped w.memory root level place
      → Reach w.memory root page (suc l) t
      → get_next_table w.memory t (get_index (suc l) page) ≡ some t'
      → Released root page level place w.memory l t' b w₁.memory
      → (b' : Bool) × (w' : Space A) × ((if b
            then clear_and_release dealloc size4k t (get_index (suc l) page) w₁
            else done (false, w₁))
          ≡ done (b', w'))
        × Released root page level place w.memory (suc l) t b' w'.memory
  release_next l t t' u v w w₁ true shape reach link h =
      release_above l t t' u v w w₁ shape reach link h
  release_next l t t' u v w w₁ false shape reach link h =
      (false, w₁, refl, Released-skip l t t' w.memory w₁.memory h)
