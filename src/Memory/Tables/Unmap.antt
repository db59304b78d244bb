-- ===== src/Memory/Tables/Unmap.antt =====
-- `unmap` of libs/memory/src/page_table/page_table.rs. It clears the entry of a page, and gives the
-- tables that are all empty then back to the page allocator, as pages of the size that is unmapped.
pub mod Release
pub mod Small
pub mod Large
use sophon_rpi_cross.Base.{
  ℕ, Bool, true, false, not, Option, Outcome, done, panic, ◌>>=◌, ◌>>◌, assert, unwrap,
  if◌then◌else◌, ◌==◌,
}
use sophon_rpi_cross.Memory.Page.{PageSize, page_new}
use sophon_rpi_cross.Memory.Entry
use sophon_rpi_cross.Memory.Tables.{Memory, get_index, get_next_table, is_clear, store, Space}

module _ {A : Type 0} (dealloc : PageSize → ℕ → A → A) where
  -- `clear` of an entry. Where the table is clear then, it is released, and the caller goes on.
  unfoldable pub clear_and_release : PageSize → ℕ → ℕ → Space A → Outcome (Bool × Space A)
  clear_and_release s table index w =
      let m = store w.memory table index 0 in
      let release = (do
        page ← page_new s table
        done (true, record { memory = m; pa = dealloc s page w.pa })) in
      if is_clear (m table) then release else done (false, record w { memory = m })

  -- From the entry of a table of level 2 on.
  unfoldable pub unmap_l2 : PageSize → ℕ → ℕ → Space A → Outcome (Bool × Space A)
  unmap_l2 s p2 a w = do
    assert (not (Entry.is_empty (w.memory p2 (get_index 2 a))))
    let small = (do
      p1 ← unwrap (get_next_table w.memory p2 (get_index 2 a))
      clear_and_release s p1 (get_index 1 a) w)
    (go, w₁) ← if Entry.is_block (w.memory p2 (get_index 2 a)) then done (true, w) else small
    let rest = clear_and_release s p2 (get_index 2 a) w₁
    if go then rest else done (false, w₁)

  -- From the entry of a table of level 3 on.
  unfoldable pub unmap_l3 : PageSize → ℕ → ℕ → Space A → Outcome (Bool × Space A)
  unmap_l3 s p3 a w = do
    assert (not (Entry.is_empty (w.memory p3 (get_index 3 a))))
    let below = (do p2 ← unwrap (get_next_table w.memory p3 (get_index 3 a)); unmap_l2 s p2 a w)
    (go, w₂) ← if Entry.is_block (w.memory p3 (get_index 3 a)) then done (true, w) else below
    let rest = clear_and_release s p3 (get_index 3 a) w₂
    if go then rest else done (false, w₂)

  -- `PageTable::unmap`
  unfoldable pub unmap : PageSize → ℕ → ℕ → Space A → Outcome (Space A)
  unmap s p4 page w = do
    assert (not (Entry.is_empty (w.memory p4 (get_index 4 page))))
    p3 ← unwrap (get_next_table w.memory p4 (get_index 4 page))
    (go, w₃) ← unmap_l3 s p3 page w
    done (if go then record w₃ { memory = store w₃.memory p4 (get_index 4 page) 0 } else w₃)
