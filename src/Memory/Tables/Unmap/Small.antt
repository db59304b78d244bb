-- ===== src/Memory/Tables/Unmap/Small.antt =====
-- `unmap` of a small page, in libs/memory/src/page_table/page_table.rs.
use sophon_rpi_cross.Base.{
  ℕ, ◌^◌, ◌%◌, ◌<◌, ◌≡◌, refl, ◌∙◌, Bool, true, false, none, some, done, if◌then◌else◌,
}
use sophon_rpi_cross.Memory.Page.{PageSize, size4k}
use sophon_rpi_cross.Memory.Entry.Words.{present-not_empty}
use sophon_rpi_cross.Memory.Tables.{get_index, get_next_table, store, translate, Space}
use sophon_rpi_cross.Memory.Tables.Index.{l1, l2, l3, l4}
use sophon_rpi_cross.Memory.Tables.Walk.{Shaped, Reach, top, down, next_table-some}
use sophon_rpi_cross.Memory.Tables.Leaf.{InPage}
use sophon_rpi_cross.Memory.Tables.Unmap.{clear_and_release, unmap_l2, unmap_l3, unmap}
use sophon_rpi_cross.Memory.Tables.Unmap.Release.{
  Released, release_leaf, release_next, above_cleared, Released-skip,
}

module _ {A : Type 0} (dealloc : PageSize → ℕ → A → A) (root page : ℕ) (level place : ℕ → ℕ)
    (small : page < 2 ^ 48) (aligned : page % 2 ^ 12 ≡ 0) where
  unmap_l2-small :
      (p1 p2 : ℕ) (w w₁ : Space A) (b : Bool)
      → get_next_table w.memory p2 (get_index 2 page) ≡ some p1
      → clear_and_release dealloc size4k p1 (get_index 1 page) w ≡ done (b, w₁)
      → unmap_l2 dealloc size4k p2 page w ≡ (
          if b then clear_and_release dealloc size4k p2 (get_index 2 page) w₁ else done (false, w₁))
  unfolding unmap_l2
  unmap_l2-small p1 p2 w w₁ b link e₁ =
      let (p, not_block, _) = next_table-some w.memory p2 (get_index 2 page) p1 link in
      rw (present-not_empty (w.memory p2 (get_index 2 page)) p, not_block, link, e₁) refl

  unmap_l3-small :
      (p2 p3 : ℕ) (w w₁ : Space A) (b : Bool)
      → get_next_table w.memory p3 (get_index 3 page) ≡ some p2
      → unmap_l2 dealloc size4k p2 page w ≡ done (b, w₁)
      → unmap_l3 dealloc size4k p3 page w ≡ (
          if b then clear_and_release dealloc size4k p3 (get_index 3 page) w₁ else done (false, w₁))
  unfolding unmap_l3
  unmap_l3-small p2 p3 w w₁ b link e₁ =
      let (p, not_block, _) = next_table-some w.memory p3 (get_index 3 page) p2 link in
      rw (present-not_empty (w.memory p3 (get_index 3 page)) p, not_block, link, e₁) refl

  unmap-small :
      (p3 : ℕ) (w w₁ : Space A) (b : Bool)
      → get_next_table w.memory root (get_index 4 page) ≡ some p3
      → unmap_l3 dealloc size4k p3 page w ≡ done (b, w₁)
      → unmap dealloc size4k root page w
        ≡ done (if b then record w₁ { memory = store w₁.memory root (get_index 4 page) 0 } else w₁)
  unfolding unmap
  unmap-small p3 w w₁ b link e₁ =
      let (p, _, _) = next_table-some w.memory root (get_index 4 page) p3 link in
      rw (present-not_empty (w.memory root (get_index 4 page)) p, link, e₁) refl

  last_step :
      (p3 : ℕ) (w w₁ : Space A) (b : Bool)
      → Shaped w.memory root level place
      → get_next_table w.memory root (get_index 4 page) ≡ some p3
      → Released root page level place w.memory 3 p3 b w₁.memory
      → (b' : Bool) × Released root page level place w.memory 4 root b' (
          (if b
            then record w₁ { memory = store w₁.memory root (get_index 4 page) 0 }
            else w₁).memory)
  last_step p3 w w₁ true shape link h = (
    _,
    above_cleared dealloc root page level place small aligned 3 root p3 l4 l3 w.memory w₁.memory _
        shape top link h refl,
  )
  last_step p3 w w₁ false shape link h = (
    false,
    Released-skip dealloc root page level place small aligned 3 root p3 w.memory w₁.memory h,
  )

  -- Where a page is mapped as a small page (`p1` is the table of level 1 that `translate` reads for it),
  -- `unmap` does not panic. Then no address of the page is mapped, all others are translated as before,
  -- and the tables are well formed.
  pub unmap_lem :
      (p1 : ℕ) (w : Space A)
      → Shaped w.memory root level place
      → Reach w.memory root page 1 p1
      → (w' : Space A) × (unmap dealloc size4k root page w ≡ done w')
        × Shaped w'.memory root level place
        × ((a : ℕ) → a < 2 ^ 48 → InPage size4k page a → translate w'.memory root a ≡ done none)
        × ((a : ℕ)
            → a < 2 ^ 48
            → (InPage size4k page a → ⊥)
            → translate w'.memory root a ≡ translate w.memory root a)
  unmap_lem p1 w shape
        (down {t = p2} l2 l1 (down {t = p3} l3 l2 (down l4 l3 (down x _ _ _) h4) h3) h2) =
      elim x [ ]
  unmap_lem p1 w shape (down {t = p2} l2 l1 (down {t = p3} l3 l2 (down l4 l3 top h4) h3) h2) =
      let reach3 = down l4 l3 top h4 in
      let reach2 = down l3 l2 reach3 h3 in
      let (b₁, w₁, e₁, r₁) =
        release_leaf dealloc root page level place small aligned p1 w shape
          (down l2 l1 reach2 h2) in
      let (b₂, w₂, e₂, r₂) =
        release_next dealloc root page level place small aligned 1 p2 p1 l2 l1 w w₁ b₁ shape reach2
          h2 r₁ in
      let (b₃, w₃, e₃, r₃) =
        release_next dealloc root page level place small aligned 2 p3 p2 l3 l2 w w₂ b₂ shape reach3
          h3 r₂ in
      let all = unmap_l3-small p2 p3 w w₂ b₂ h3 (unmap_l2-small p1 p2 w w₁ b₁ h2 e₁ ∙ e₂) ∙ e₃ in
      let (_, r) = last_step p3 w w₃ b₃ shape h4 r₃ in
      (_, unmap-small p3 w w₃ b₃ h4 all, r.shape, r.inside, r.outside)
