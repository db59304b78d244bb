-- ===== src/Memory/Tables/Mapping.antt =====
-- `map` and `identity_map` of libs/memory/src/page_table/page_table.rs.
use sophon_rpi_cross.Base.{
  arith, ℕ, suc, ◌+◌, ◌^◌, ◌%◌, ◌<◌, ◌≡◌, refl, sym, subst, ◌∙◌, Option, none, some, done,
}
use sophon_rpi_cross.Memory.Bits.{pow_pos}
use sophon_rpi_cross.Memory.Page.{log_bytes, PageSize, size4k, size2m, size1g, bytes}
use sophon_rpi_cross.Memory.Flags.{PageFlags, ◌or◌, small_page}
use sophon_rpi_cross.Memory.Entry.Words.{EntryOf, Fits, set-EntryOf, small_page-Fits}
use sophon_rpi_cross.Memory.Tables.{Memory, get_index, translate, Space, enter, write, map_page}
use sophon_rpi_cross.Memory.Tables.Index.{Level, l1, l2, l3, l4}
use sophon_rpi_cross.Memory.Tables.Walk.{Reach, Shaped, top, level_of, at_leaf}
use sophon_rpi_cross.Memory.Tables.Leaf.{
  InPage, stored, stored-Shaped, stored-Reach, stored_inside, stored_entry, stored_outside,
}
use sophon_rpi_cross.Memory.Tables.Grow.{Supply, Supply-less}
use sophon_rpi_cross.Memory.Tables.Enter.{Entered, enter_lem}

-- What mapping a page to a frame leaves: the addresses in the page are those of the frame, and every
-- other address is translated as before.
pub record Mapped {A : Type 0} (alloc : A → Option (ℕ × A)) (root n : ℕ) (s : PageSize)
    (page frame : ℕ) (m : Memory) (w' : Space A) : Type 0 where
  pub level : ℕ → ℕ
  pub place : ℕ → ℕ
  pub shape : Shaped w'.memory root level place
  pub supply : Supply alloc n level w'.pa
  pub table : (t : ℕ) × Reach w'.memory root page (level_of s) t
  pub inside :
      (a : ℕ)
      → a < 2 ^ 48
      → InPage s page a
      → translate w'.memory root a ≡ done (some (frame + a % bytes s))
  pub outside :
      (a : ℕ) → a < 2 ^ 48 → (InPage s page a → ⊥) → translate w'.memory root a ≡ translate m root a

first : (s : PageSize) (page : ℕ) → InPage s page page
first s page = (omega arith, omega (arith, pow_pos (log_bytes s)))

module _ {A : Type 0} (alloc : A → Option (ℕ × A)) where
  Mapped-after :
      (root n : ℕ) (s : PageSize) (page frame : ℕ) (m m₁ : Memory) (w' : Space A)
      → ((a : ℕ) → a < 2 ^ 48 → translate m₁ root a ≡ translate m root a)
      → Mapped alloc root n s page frame m₁ w'
      → Mapped alloc root n s page frame m w'
  Mapped-after root n s page frame m m₁ w' same h = record {
    level = h.level;
    place = h.place;
    shape = h.shape;
    supply = h.supply;
    table = h.table;
    inside = h.inside;
    outside = λ a lt out. h.outside a lt out ∙ same a lt;
  }

  Mapped-less :
      (root n : ℕ) (s : PageSize) (page frame : ℕ) (m : Memory) (w' : Space A)
      → Mapped alloc root (suc n) s page frame m w'
      → Mapped alloc root n s page frame m w'
  Mapped-less root n s page frame m w' h = record {
    level = h.level;
    place = h.place;
    shape = h.shape;
    supply = Supply-less alloc n h.level w'.pa h.supply;
    table = h.table;
    inside = h.inside;
    outside = h.outside;
  }

  write_lem :
      (root p n t : ℕ) (s : PageSize) (page frame : ℕ) (flags : PageFlags) (w₀ w : Space A)
      → page < 2 ^ 48
      → page % bytes s ≡ 0
      → frame % bytes s ≡ 0
      → frame < 2 ^ 48
      → Fits s flags
      → Entered alloc root page (level_of s) n t w₀ w
      → (w' : Space A) × (write alloc t (get_index (level_of s) page) s frame flags w ≡ done w')
        × Mapped alloc root n s page frame w₀.memory w'
  unfolding write
  write_lem root p n t s page frame flags w₀ w small al fal fsmall fit at =
      let m = w.memory in
      let (e, st, entry) = set-EntryOf s frame flags fal fsmall fit in
      let m' = stored m root at.level at.place at.shape s page t e small al at.reach in
      let shaped =
        stored-Shaped m root at.level at.place at.shape s page t e small al at.reach frame entry in
      (
        record w { memory = m' },
        rw st refl,
        Mapped-after root n s page frame w₀.memory m (record w { memory = m' }) at.same
            (record {
              level = at.level;
              place = at.place;
              shape = shaped;
              supply = at.supply;
              table = (
                t,
                stored-Reach m root at.level at.place at.shape s page t e small al at.reach page
                    small (first s page),
              );
              inside = λ a lt at_page.
                  stored_inside m root at.level at.place at.shape s page t e small al at.reach
                    shaped a lt at_page
                  ∙ at_leaf s m' t a frame (
                      subst (EntryOf s frame)
                        (sym (
                          stored_entry m root at.level at.place at.shape s page t e small al
                            at.reach a at_page))
                        entry);
              outside =
                  stored_outside m root at.level at.place at.shape s page t e small al at.reach;
            }),
      )

  Entered-then :
      (root page l n t l' n' t' : ℕ) (w₀ w w' : Space A)
      → Entered alloc root page l n t w₀ w
      → Entered alloc root page l' n' t' w w'
      → Entered alloc root page l' n' t' w₀ w'
  Entered-then root page l n t l' n' t' w₀ w w' h h' = record {
    level = h'.level;
    place = h'.place;
    shape = h'.shape;
    reach = h'.reach;
    supply = h'.supply;
    same = λ a lt. h'.same a lt ∙ h.same a lt;
  }

  -- One level further down.
  enter_again :
      (root page l n t : ℕ) (w₀ w : Space A) (u : Level (suc l)) (v : Level l)
      → page < 2 ^ 48
      → translate w₀.memory root page ≡ done none
      → Entered alloc root page (suc l) (suc n) t w₀ w
      → (t' : ℕ) × (w' : Space A) × (enter alloc t (get_index (suc l) page) w ≡ done (t', w'))
        × Entered alloc root page l n t' w₀ w'
  enter_again root page l n t w₀ w u v small unmapped h =
      let (t', w', e, h') =
        enter_lem alloc root page l n t w h.level h.place u v h.shape small h.reach
          (h.same page small ∙ unmapped) h.supply in
      (t', w', e, Entered-then root page (suc l) (suc n) t l n t' w₀ w w' h h')

  -- Where the page's first address is not mapped and the allocator has three frames to give, `map` does
  -- not panic. Then the addresses of the page are translated to those of the frame, all others as
  -- before, and the tables are well formed again.
  pub map_page_lem :
      (n : ℕ) (s : PageSize) (root page frame : ℕ) (flags : PageFlags) (w : Space A)
      (level place : ℕ → ℕ)
      → page < 2 ^ 48
      → page % bytes s ≡ 0
      → frame % bytes s ≡ 0
      → frame < 2 ^ 48
      → Fits s flags
      → Shaped w.memory root level place
      → Supply alloc (suc (suc (suc n))) level w.pa
      → translate w.memory root page ≡ done none
      → (w' : Space A) × (map_page alloc s root page frame flags w ≡ done (page, w'))
        × Mapped alloc root n s page frame w.memory w'
  unfolding map_page
  map_page_lem n size1g root page frame flags w level place small al fal fsmall fit shape sup un =
      let (p3, w₃, e₃, in₃) =
        enter_lem alloc root page 3 (suc (suc n)) root w level place l4 l3 shape small top un sup in
      let (w', e, ok) =
        write_lem root page (suc (suc n)) p3 size1g page frame flags w w₃ small al fal fsmall fit
          in₃ in
      (
        w',
        rw (e₃, e) refl,
        Mapped-less root n size1g page frame w.memory w'
            (Mapped-less root (suc n) size1g page frame w.memory w' ok),
      )
  map_page_lem n size2m root page frame flags w level place small al fal fsmall fit shape sup un =
      let (p3, w₃, e₃, in₃) =
        enter_lem alloc root page 3 (suc (suc n)) root w level place l4 l3 shape small top un sup in
      let (p2, w₂, e₂, in₂) = enter_again root page 2 (suc n) p3 w w₃ l3 l2 small un in₃ in
      let (w', e, ok) =
        write_lem root page (suc n) p2 size2m page frame flags w w₂ small al fal fsmall fit in₂ in
      (w', rw (e₃, e₂, e) refl, Mapped-less root n size2m page frame w.memory w' ok)
  map_page_lem n size4k root page frame flags w level place small al fal fsmall fit shape sup un =
      let (p3, w₃, e₃, in₃) =
        enter_lem alloc root page 3 (suc (suc n)) root w level place l4 l3 shape small top un sup in
      let (p2, w₂, e₂, in₂) = enter_again root page 2 (suc n) p3 w w₃ l3 l2 small un in₃ in
      let (p1, w₁, e₁, in₁) = enter_again root page 1 n p2 w w₂ l2 l1 small un in₂ in
      let (w', e, ok) =
        write_lem root page n p1 size4k page frame (flags or small_page) w w₁ small al fal fsmall
          (small_page-Fits flags fit) in₁ in
      (w', rw (e₃, e₂, e₁, e) refl, ok)
