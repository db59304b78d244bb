-- ===== src/Memory/Tables/Sbrk.antt =====
-- `sbrk` of sophon/src/memory/utils.rs: a process gets more pages at the end of its memory.
use sophon_rpi_cross.Base.{
  ℕ, zero, suc, ◌+◌, ◌*◌, ◌^◌, ◌%◌, ◌<◌, ◌≤◌, ◌≡◌, ◌⊎◌, inl, inr, refl, ap, ◌∙◌, true, Option, none,
  some, Outcome, done, ◌>>=◌, ◌>>◌, assert, unwrap, ◌==◌, ltb, update, arith, Bool-cases, lt→ltb,
  ==→eq,
}
use native.Mathlib.Nat.{mod-eq_of_lt}
use sophon_rpi_cross.Memory.Address.{checked_add, align_up}
use sophon_rpi_cross.Memory.Address.Alignment.{align_up-rounds, is_aligned_to-pow}
use sophon_rpi_cross.Memory.Page.{size4k, bytes, shift_left, page_new, page_forward}
use sophon_rpi_cross.Memory.Page.Rounding.{page_new-aligned}
use sophon_rpi_cross.Memory.Flags.{user_data_flags_4k}
use sophon_rpi_cross.Memory.Entry.Words.{Fits}
use sophon_rpi_cross.Memory.Tables.{translate, Space, map_page}
use sophon_rpi_cross.Memory.Tables.Walk.{Shaped}
use sophon_rpi_cross.Memory.Tables.Grow.{Supply, Supply-mono}
use sophon_rpi_cross.Memory.Tables.Mapping.{map_page_lem}

-- `MMState`: the end of the memory of the process and its page table; with the space that the table is in.
pub record MmState (A : Type 0) : Type 0 where
  pub virtual_memory_highwater : ℕ
  pub root : ℕ
  pub space : Space A

was_unset : (level : ℕ → ℕ) (f t : ℕ) → update level f 1 t ≡ 0 → level t ≡ 0
was_unset level f t h = ground arith

-- A page takes at most three tables and its frame.
abbrev pub frames_for : ℕ → ℕ
frames_for zero = 0
frames_for (suc n) = suc (suc (suc (suc (frames_for n))))

module _ {A : Type 0} (alloc : A → Option (ℕ × A)) where
  -- The loop over the pages, with the number of those that are left.
  unfoldable pub map_new : ℕ → ℕ → ℕ → Space A → Outcome (Space A)
  map_new zero root page w = done w
  map_new (suc n) root page w = do
    (frame, pa) ← unwrap (alloc w.pa)
    (mapped, w₁) ← map_page alloc size4k root page frame user_data_flags_4k (record w { pa = pa })
    next ← page_forward size4k page 1
    map_new n root next w₁

  -- `sbrk`: the new pages, by their first and last address.
  unfoldable pub sbrk : ℕ → MmState A → Outcome ((ℕ × ℕ) × MmState A)
  unfolding map_new
  sbrk num_pages mm = do
    let old = mm.virtual_memory_highwater
    old_aligned ← align_up old (bytes size4k)
    highwater ← checked_add old_aligned (shift_left size4k num_pages)
    start ← page_new size4k old_aligned
    end ← page_forward size4k start num_pages
    assert (old == start)
    w ← map_new num_pages mm.root start mm.space
    done ((start, end), record mm { virtual_memory_highwater = highwater; space = w })

  forward-pages :
      (page n : ℕ)
      → page % 2 ^ 12 ≡ 0
      → page + n * 2 ^ 12 < 2 ^ 48
      → page_forward size4k page n ≡ done (page + n * 2 ^ 12)
  unfolding page_forward
  forward-pages page n al lt =
      let fits : shift_left size4k n ≡ n * 2 ^ 12 =
        (let small : n * 2 ^ 12 < 2 ^ 64 = omega (arith, lt) in mod-eq_of_lt small) in
      rw (fits, lt→ltb (page + n * 2 ^ 12) (2 ^ 64) (omega (arith, lt)))
        (page_new-aligned size4k (page + n * 2 ^ 12) (omega (arith, al)))

  align_up-aligned : (a : ℕ) → a % 2 ^ 12 ≡ 0 → a < 2 ^ 48 → align_up a (2 ^ 12) ≡ done a
  align_up-aligned a al lt =
      let (u, e, le, less, on) = align_up-rounds 12 a (omega arith) (omega (arith, lt)) in
      let rest : (u % 2 ^ 12 == 0) ≡ true = cc (is_aligned_to-pow 12 u (omega arith), on) in
      let same : u ≡ a = omega (arith, le, less, al, ==→eq (u % 2 ^ 12) 0 rest) in e ∙ ap done same

  -- What `map_new` leaves.
  pub record Extended (root start end : ℕ) (w w' : Space A) : Type 0 where
    pub inside :
        (a : ℕ) → start ≤ a → a < end → (b : ℕ) × (translate w'.memory root a ≡ done (some b))
    pub outside :
        (a : ℕ)
        → a < 2 ^ 48
        → (a < start) ⊎ (end ≤ a)
        → translate w'.memory root a ≡ translate w.memory root a

  map_new_lem :
      (n root page : ℕ) (w : Space A) (level place : ℕ → ℕ)
      → page % 2 ^ 12 ≡ 0
      → page + n * 2 ^ 12 < 2 ^ 48
      → Fits size4k user_data_flags_4k
      → Shaped w.memory root level place
      → Supply alloc (frames_for n) level w.pa
      → ((a : ℕ) → page ≤ a → a < page + n * 2 ^ 12 → translate w.memory root a ≡ done none)
      → (w' : Space A) × (map_new n root page w ≡ done w')
        × Extended root page (page + n * 2 ^ 12) w w'
  unfolding map_new
  map_new_lem zero root page w level place al lt fit shape sup un = (
    w,
    refl,
    record { inside = λ a ge below. absurd (omega arith); outside = λ a small out. refl },
  )
  map_new_lem (suc n) root page w level place al lt fit shape sup un =
      let (frame, pa, given, fal, fsmall, z, rest) = sup in
      let (w₁, e₁, h) =
        map_page_lem alloc (frames_for n) size4k root page frame user_data_flags_4k
          (record w { pa = pa }) level place (omega (arith, lt)) al fal fsmall fit shape
          (Supply-mono alloc (suc (suc (suc (frames_for n)))) (update level frame 1) level pa
            (λ t z'. was_unset level frame t z') rest)
          (un page (omega arith) (omega arith)) in
      let (w₂, e₂, h') =
        map_new_lem n root (page + 1 * 2 ^ 12) w₁ h.level h.place (omega (arith, al))
          (omega (arith, lt)) fit h.shape h.supply
          (λ a ge below.
            h.outside a (omega (arith, lt, below)) (λ inp. omega (arith, inp.1, ge))
            ∙ un a (omega (arith, ge)) (omega (arith, below))) in
      (
        w₂,
        rw (given, e₁, forward-pages page 1 al (omega (arith, lt))) e₂,
        record {
          inside = λ a ge below. elim (Bool-cases (ltb a (page + 2 ^ 12))) [
            | inl y ↦
                let near : a < page + 2 ^ 12 = ground arith in
                (
                  frame + a % 2 ^ 12,
                  h'.outside a (omega (arith, lt, near)) (inl (omega (arith, near)))
                      ∙ h.inside a (omega (arith, lt, near)) (ge, near),
                )
            | inr off ↦
                let far : page + 2 ^ 12 ≤ a = ground arith in
                h'.inside a (omega (arith, far)) (omega (arith, below))
          ];
          outside = λ a small out. elim out [
            | inl before ↦
                h'.outside a small (inl (omega (arith, before)))
                ∙ h.outside a small (λ inp. omega (arith, inp.0, before))
            | inr after ↦
                h'.outside a small (inr (omega (arith, after)))
                ∙ h.outside a small (λ inp. omega (arith, inp.1, after))
          ];
        },
      )

  -- Where a process's memory ends at a page, no page after it is mapped, and the allocator has four
  -- frames for each page asked for, `sbrk` does not panic. It returns the pages from the old end on,
  -- the new end is the end of the last of them, every address in them is translated to some address
  -- of memory, and all others are translated as before.
  pub sbrk_lem :
      (n : ℕ) (mm : MmState A) (level place : ℕ → ℕ)
      → mm.virtual_memory_highwater % 2 ^ 12 ≡ 0
      → mm.virtual_memory_highwater + n * 2 ^ 12 < 2 ^ 48
      → Fits size4k user_data_flags_4k
      → Shaped mm.space.memory mm.root level place
      → Supply alloc (frames_for n) level mm.space.pa
      → ((a : ℕ)
          → mm.virtual_memory_highwater ≤ a
          → a < mm.virtual_memory_highwater + n * 2 ^ 12
          → translate mm.space.memory mm.root a ≡ done none)
      → (mm' : MmState A) × (sbrk n mm
          ≡ done ((mm.virtual_memory_highwater, mm.virtual_memory_highwater + n * 2 ^ 12), mm'))
        × (mm'.virtual_memory_highwater ≡ mm.virtual_memory_highwater + n * 2 ^ 12)
        × (mm'.root ≡ mm.root)
        × Extended mm.root mm.virtual_memory_highwater
            (mm.virtual_memory_highwater + n * 2 ^ 12)
            mm.space
            mm'.space
  unfolding sbrk
  sbrk_lem n mm level place al lt fit shape sup un =
      let old = mm.virtual_memory_highwater in
      let (w, e, h) = map_new_lem n mm.root old mm.space level place al lt fit shape sup un in
      let small : n * 2 ^ 12 < 2 ^ 64 = omega (arith, lt) in
      let fits : shift_left size4k n ≡ n * 2 ^ 12 = mod-eq_of_lt small in
      let itself : (old == old) ≡ true = ground arith in
      (
        record mm { virtual_memory_highwater = old + n * 2 ^ 12; space = w },
        rw
            (
              align_up-aligned old al (omega (arith, lt)),
              fits,
              lt→ltb (old + n * 2 ^ 12) (2 ^ 64) (omega (arith, lt)),
              page_new-aligned size4k old al,
              forward-pages old n al lt,
              itself,
              e,
            )
            refl,
        refl,
        refl,
        h,
      )
