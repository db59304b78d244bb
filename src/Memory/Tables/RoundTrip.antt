-- ===== src/Memory/Tables/RoundTrip.antt =====
-- `map` of a small page and then `unmap` of it, in libs/memory/src/page_table/page_table.rs.
use sophon_rpi_cross.Base.{ℕ, ◌^◌, ◌%◌, ◌<◌, ◌≡◌, ◌∙◌, Option, none, done}
use sophon_rpi_cross.Memory.Page.{PageSize, size4k}
use sophon_rpi_cross.Memory.Flags.{PageFlags}
use sophon_rpi_cross.Memory.Entry.Words.{Fits}
use sophon_rpi_cross.Memory.Tables.{translate, Space, map_page}
use sophon_rpi_cross.Memory.Tables.Walk.{Shaped}
use sophon_rpi_cross.Memory.Tables.Leaf.{InPage}
use sophon_rpi_cross.Memory.Tables.Grow.{Supply}
use sophon_rpi_cross.Memory.Tables.Mapping.{map_page_lem}
use sophon_rpi_cross.Memory.Tables.Unmap.{unmap}
use sophon_rpi_cross.Memory.Tables.Unmap.Small.{unmap_lem}

-- A small page that `map` has mapped can be unmapped: no address of the page is mapped then, and every
-- other address is translated as before the two calls.
pub unmap-map_page :
    {A : Type 0} (alloc : A → Option (ℕ × A)) (dealloc : PageSize → ℕ → A → A) (root page frame : ℕ)
    (flags : PageFlags) (w : Space A) (level place : ℕ → ℕ)
    → page < 2 ^ 48
    → page % 2 ^ 12 ≡ 0
    → frame % 2 ^ 12 ≡ 0
    → frame < 2 ^ 48
    → Fits size4k flags
    → Shaped w.memory root level place
    → Supply alloc 3 level w.pa
    → translate w.memory root page ≡ done none
    → (w' : Space A) × (w'' : Space A) × (map_page alloc size4k root page frame flags w
        ≡ done (page, w'))
      × (unmap dealloc size4k root page w' ≡ done w'')
      × ((a : ℕ) → a < 2 ^ 48 → InPage size4k page a → translate w''.memory root a ≡ done none)
      × ((a : ℕ)
          → a < 2 ^ 48
          → (InPage size4k page a → ⊥)
          → translate w''.memory root a ≡ translate w.memory root a)
unmap-map_page alloc dealloc root page frame flags w level place small al fal fsmall fit shape sup
      un =
    let (w', e, mapped) =
      map_page_lem alloc 0 size4k root page frame flags w level place small al fal fsmall fit shape
        sup un in
    let (p1, reach) = mapped.table in
    let (w'', e', shape', inside, outside) =
      unmap_lem dealloc root page mapped.level mapped.place small al p1 w' mapped.shape reach in
    (w', w'', e, e', inside, λ a lt out. outside a lt out ∙ mapped.outside a lt out)
