-- ===== src/Memory/Tables/Unmap/Large.antt =====
-- `unmap` of a page of 2 MiB, in libs/memory/src/page_table/page_table.rs.
use sophon_rpi_cross.Base.{ℕ, ◌≡◌, refl, true, false, some, panic, assertion}
use sophon_rpi_cross.Memory.Page.{PageSize, size2m, is_aligned, page_new}
use sophon_rpi_cross.Memory.Entry.{is_empty, is_block}
use sophon_rpi_cross.Memory.Entry.Words.{present-not_empty}
use sophon_rpi_cross.Memory.Tables.{get_index, get_next_table, is_clear, store, Space}
use sophon_rpi_cross.Memory.Tables.Walk.{next_table-some}
use sophon_rpi_cross.Memory.Tables.Unmap.{clear_and_release, unmap_l2, unmap_l3, unmap}

module _ {A : Type 0} (dealloc : PageSize → ℕ → A → A) where
  release_panics :
      (t i : ℕ) (w : Space A)
      → is_clear (store w.memory t i 0 t) ≡ true
      → is_aligned size2m t ≡ false
      → clear_and_release dealloc size2m t i w ≡ panic assertion
  unfolding clear_and_release page_new
  release_panics t i w last unaligned = rw (last, unaligned) refl

  unmap_l2_panics :
      (p2 a : ℕ) (w : Space A)
      → is_empty (w.memory p2 (get_index 2 a)) ≡ false
      → is_block (w.memory p2 (get_index 2 a)) ≡ true
      → clear_and_release dealloc size2m p2 (get_index 2 a) w ≡ panic assertion
      → unmap_l2 dealloc size2m p2 a w ≡ panic assertion
  unfolding unmap_l2
  unmap_l2_panics p2 a w full block e = rw (full, block, e) refl

  unmap_l3_panics :
      (p3 p2 a : ℕ) (w : Space A)
      → get_next_table w.memory p3 (get_index 3 a) ≡ some p2
      → unmap_l2 dealloc size2m p2 a w ≡ panic assertion
      → unmap_l3 dealloc size2m p3 a w ≡ panic assertion
  unfolding unmap_l3
  unmap_l3_panics p3 p2 a w h e =
      let (there, not_block, _) = next_table-some w.memory p3 (get_index 3 a) p2 h in
      rw (present-not_empty (w.memory p3 (get_index 3 a)) there, not_block, h, e) refl

  unmap_l4_panics :
      (root p3 a : ℕ) (w : Space A)
      → get_next_table w.memory root (get_index 4 a) ≡ some p3
      → unmap_l3 dealloc size2m p3 a w ≡ panic assertion
      → unmap dealloc size2m root a w ≡ panic assertion
  unfolding unmap
  unmap_l4_panics root p3 a w h e =
      let (there, _, _) = next_table-some w.memory root (get_index 4 a) p3 h in
      rw (present-not_empty (w.memory root (get_index 4 a)) there, h, e) refl

  -- A page of 2 MiB that is the last one mapped in its table of level 2 cannot be unmapped, unless that
  -- table happens to lie at a multiple of 2 MiB: `unmap` releases the table, a frame of 4 KiB, as a
  -- page of 2 MiB, and panics.
  pub unmap_last_panics :
      (root page p3 p2 : ℕ) (w : Space A)
      → get_next_table w.memory root (get_index 4 page) ≡ some p3
      → get_next_table w.memory p3 (get_index 3 page) ≡ some p2
      → is_empty (w.memory p2 (get_index 2 page)) ≡ false
      → is_block (w.memory p2 (get_index 2 page)) ≡ true
      → is_clear (store w.memory p2 (get_index 2 page) 0 p2) ≡ true
      → is_aligned size2m p2 ≡ false
      → unmap dealloc size2m root page w ≡ panic assertion
  unmap_last_panics root page p3 p2 w h4 h3 full block last unaligned =
      unmap_l4_panics root p3 page w h4 (
        unmap_l3_panics p3 p2 page w h3 (
          unmap_l2_panics p2 page w full block
            (release_panics p2 (get_index 2 page) w last unaligned)))
