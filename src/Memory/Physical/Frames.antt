-- ===== src/Memory/Physical/Frames.antt =====
-- `acquire` and `release` of sophon/src/memory/physical/physical_page_resource.rs: frames of the three
-- page sizes.
use sophon_rpi_cross.Base.{
  ℕ, ◌^◌, ◌%◌, ◌<◌, ◌≡◌, ◌↔◌, sym, inl, inr, refl, Option, none, some, List, Outcome, done, ◌>>=◌,
  arith,
}
use sophon_rpi_cross.Memory.Page.{PageSize, size4k, size2m, size1g, log_bytes, bytes, page_new}
use sophon_rpi_cross.Memory.Page.Rounding.{page_new-aligned}
use sophon_rpi_cross.Memory.Powers.{ceil_from}
use sophon_rpi_cross.Memory.Physical.{
  PhysicalPageResource, num_size_class, size, allocate_cell, release_cell,
}
use sophon_rpi_cross.Memory.Physical.Lists.{Keeps, FreeAt}
use sophon_rpi_cross.Memory.Physical.Allocate.{Allocation, allocate_cell_lem, release-allocate}
use sophon_rpi_cross.Memory.Physical.Fill.{size_class_of}

unfoldable pub acquire : PageSize → PhysicalPageResource → Outcome (Option ℕ × PhysicalPageResource)
unfolding size_class_of
acquire s r = do
  size_class ← size_class_of (2 ^ log_bytes s)
  (addr, r') ← allocate_cell size_class r
  elim addr [ none ↦ done (none, r') | some a ↦ (do frame ← page_new s a; done (some frame, r')) ]

unfoldable pub release : PageSize → ℕ → PhysicalPageResource → Outcome PhysicalPageResource
unfolding size_class_of
release s frame r = do size_class ← size_class_of (2 ^ log_bytes s); release_cell frame size_class r

-- The size class of the frames of a size.
abbrev pub class_of : PageSize → ℕ
class_of size4k = 0
class_of size2m = 9
class_of size1g = 18

size_class_of-class_of : (s : PageSize) → size_class_of (2 ^ log_bytes s) ≡ done (class_of s)
unfolding size_class_of ceil_from
size_class_of-class_of size4k = refl
size_class_of-class_of size2m = refl
size_class_of-class_of size1g = refl

size-class_of : (s : PageSize) → size (class_of s) ≡ bytes s
size-class_of size4k = refl
size-class_of size2m = refl
size-class_of size1g = refl

class_of-lt : (s : PageSize) → class_of s < num_size_class
class_of-lt size4k = omega arith
class_of-lt size2m = omega arith
class_of-lt size1g = omega arith

-- `acquire` does not panic: in particular the frame is aligned. It returns a frame in memory that was
-- free and is not free any more, and all other free memory stays free; or it returns `None`, changes
-- nothing, and no free cell is as large as the frame.
pub acquire_lem :
    (s : PageSize) (r : PhysicalPageResource) (lists : ℕ → List ℕ)
    → Keeps r lists
    → Allocation (class_of s) lists r (acquire s r)
unfolding acquire
acquire_lem s r lists k = elim (allocate_cell_lem (class_of s) r lists k (class_of-lt s)) [
  | inr (e, empty) ↦ inr ((rw (size_class_of-class_of s, e) refl), empty)
  | inl (x, r', lists', e, h) ↦
      let aligned : x % bytes s ≡ 0 = rw (size-class_of s) at h.on_size in
      inl (x, r', lists', (rw (size_class_of-class_of s, e, page_new-aligned s x aligned) refl), h)
]

-- A frame that `acquire` has returned can be released, and then the free bytes are those from before.
pub release-acquire :
    (s : PageSize) (frame : ℕ) (r r' : PhysicalPageResource) (lists : ℕ → List ℕ)
    → Keeps r lists
    → acquire s r ≡ done (some frame, r')
    → (r'' : PhysicalPageResource) × (lists'' : ℕ → List ℕ) × (release s frame r' ≡ done r'')
      × Keeps r'' lists''
      × ((a : ℕ) → FreeAt lists'' a ↔ FreeAt lists a)
unfolding release
release-acquire s frame r r' lists k got = elim (acquire_lem s r lists k) [
  | inr (e, empty) ↦ absurd (cc (got, e))
  | inl (x, r₁, lists₁, e, h) ↦
      let frame_is : x ≡ frame = cc (got, e) in
      let rest_is : r₁ ≡ r' = cc (got, e) in
      let (r'', lists'', e', k', same) =
        release-allocate (class_of s) x r r₁ lists lists₁ h (class_of-lt s) in
      (r'', lists'', rw (size_class_of-class_of s, sym frame_is, sym rest_is) e', k', same)
]
