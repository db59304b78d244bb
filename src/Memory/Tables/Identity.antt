-- ===== src/Memory/Tables/Identity.antt =====
-- `identity_map` of libs/memory/src/page_table/page_table.rs.
use sophon_rpi_cross.Base.{ℕ, ◌+◌, ◌^◌, ◌%◌, ◌<◌, ◌≡◌, ap, ◌∙◌, Option, none, some, done, arith}
use sophon_rpi_cross.Memory.Page.{PageSize, size4k, size2m, size1g, bytes}
use sophon_rpi_cross.Memory.Page.Rounding.{page_new-aligned}
use sophon_rpi_cross.Memory.Flags.{PageFlags}
use sophon_rpi_cross.Memory.Entry.Words.{Fits}
use sophon_rpi_cross.Memory.Tables.{translate, Space, identity_map}
use sophon_rpi_cross.Memory.Tables.Walk.{Shaped}
use sophon_rpi_cross.Memory.Tables.Leaf.{InPage}
use sophon_rpi_cross.Memory.Tables.Grow.{Supply}
use sophon_rpi_cross.Memory.Tables.Mapping.{map_page_lem}

offset :
    (s : PageSize) (frame a : ℕ) → frame % bytes s ≡ 0 → InPage s frame a → frame + a % bytes s ≡ a
offset size4k frame a al h = omega (arith, h.0, h.1)
offset size2m frame a al h = omega (arith, h.0, h.1)
offset size1g frame a al h = omega (arith, h.0, h.1)

-- `identity_map` does not panic where the frame's first address is not mapped and the allocator has
-- three frames to give, and then every address of the frame is translated to itself.
pub identity_map_lem :
    {A : Type 0} (alloc : A → Option (ℕ × A)) (s : PageSize) (root frame : ℕ) (flags : PageFlags)
    (w : Space A) (level place : ℕ → ℕ)
    → frame % bytes s ≡ 0
    → frame < 2 ^ 48
    → Fits s flags
    → Shaped w.memory root level place
    → Supply alloc 3 level w.pa
    → translate w.memory root frame ≡ done none
    → (w' : Space A) × (identity_map alloc s root frame flags w ≡ done (frame, w'))
      × ((a : ℕ) → a < 2 ^ 48 → InPage s frame a → translate w'.memory root a ≡ done (some a))
unfolding identity_map
identity_map_lem alloc s root frame flags w level place al small fit shape sup un =
    let (w', e, mapped) =
      map_page_lem alloc 0 s root frame frame flags w level place small al al small fit shape sup
        un in
    (
      w',
      rw (page_new-aligned s frame al) e,
      λ a lt at. mapped.inside a lt at ∙ ap (λ (b : ℕ). done (some b)) (offset s frame a al at),
    )
