-- ===== src/Memory/Tables.antt =====
-- libs/memory/src/page_table: the entries of page tables and the four-level tables of an address space.
-- The kernel reads tables by their physical addresses: memory is, for the address of each table, the
-- words of its 512 entries. The page allocator is a parameter.
pub mod Index
pub mod Walk
pub mod Agree
pub mod Grow
pub mod Enter
pub mod Leaf
pub mod Mapping
pub mod Clear
pub mod Unmap
pub mod RoundTrip
pub mod Identity
pub mod Enable
pub mod Sbrk
mod Examples
use sophon_rpi_cross.Base.{
  ℕ, zero, suc, ◌+◌, ◌-◌, ◌*◌, ◌/◌, ◌^◌, Bool, true, false, ◌&&◌, not, Option, none, some, Outcome,
  done, panic, ◌>>=◌, ◌>>◌, assert, unwrap, if◌then◌else◌, ◌==◌, update,
}
use sophon_rpi_cross.Memory.Bits.{word_and, word_not}
use sophon_rpi_cross.Memory.Bits.Masks.{word_or}
use sophon_rpi_cross.Memory.Address.{checked_add}
use sophon_rpi_cross.Memory.Page.{PageSize, size4k, size2m, size1g, bytes, mask, page_new}
use sophon_rpi_cross.Memory.Flags.{PageFlags, ◌or◌, small_page, page_table_flags}
use sophon_rpi_cross.Memory.Entry

-- `TableLevel::SHIFT` of L1 to L4
abbrev pub shift : ℕ → ℕ
shift zero = 0
shift (suc l) = 12 + 9 * l

unfoldable pub get_index : ℕ → ℕ → ℕ
get_index level a = word_and 64 a (0b111111111 * 2 ^ shift level) / 2 ^ shift level

abbrev pub Memory : Type 0
Memory = ℕ → ℕ → ℕ

-- `self.entries.iter().all(..)`: the entries below `n`.
abbrev pub clear_below : (ℕ → ℕ) → ℕ → Bool
clear_below entries zero = true
clear_below entries (suc n) = let rest = clear_below entries n in rest && Entry.is_empty (entries n)

abbrev pub is_clear : (ℕ → ℕ) → Bool
is_clear entries = clear_below entries 512

unfoldable pub get_next_table : Memory → ℕ → ℕ → Option ℕ
get_next_table m table index =
    let e = m table index in
    if Entry.present e && not (Entry.is_block e) then some (Entry.address e) else none

abbrev pub store : Memory → ℕ → ℕ → ℕ → Memory
store m table index e = update m table (update (m table) index e)

-- A level of `translate` from L3 down to L2: `next` is the level below.
unfoldable pub translate_level :
    ℕ → PageSize → Memory → ℕ → ℕ → (ℕ → Outcome (Option ℕ)) → Outcome (Option ℕ)
translate_level level s m table a next =
    let e = m table (get_index level a) in
    let below = (do t ← unwrap (get_next_table m table (get_index level a)); next t) in
    if Entry.is_empty e
    then done none
    else if Entry.is_block e
    then (do b ← checked_add (Entry.address e) (word_and 64 a (mask s)); done (some b))
    else below

unfoldable pub translate_l1 : Memory → ℕ → ℕ → Outcome (Option ℕ)
translate_l1 m table a =
    let e = m table (get_index 1 a) in
    if Entry.is_empty e
    then done none
    else (do b ← checked_add (Entry.address e) (word_and 64 a (mask size4k)); done (some b))

unfoldable pub translate_l4 : Memory → ℕ → ℕ → (ℕ → Outcome (Option ℕ)) → Outcome (Option ℕ)
translate_l4 m table a next =
    let e = m table (get_index 4 a) in
    let below = (do t ← unwrap (get_next_table m table (get_index 4 a)); next t) in
    if Entry.is_empty e then done none else below

-- `PageTable::translate`
unfoldable pub translate : Memory → ℕ → ℕ → Outcome (Option ℕ)
translate m p4 a = translate_l4 m p4 a (λ p3.
    translate_level 3 size1g m p3 a
      (λ p2. translate_level 2 size2m m p2 a (λ p1. translate_l1 m p1 a)))

-- Memory and the page allocator's own state.
pub record Space (A : Type 0) : Type 0 where
  pub memory : Memory
  pub pa : A

module _ {A : Type 0} (alloc : A → Option (ℕ × A)) where
  unfoldable pub alloc_frame4k : Space A → Outcome (ℕ × Space A)
  alloc_frame4k w = do
    (frame, pa) ← unwrap (alloc w.pa)
    done (frame, record { memory = update w.memory frame (λ i. 0); pa = pa })

  -- `if table[index].is_empty() { table[index].set(..) }` and then `table.get_next_table(index).unwrap()`
  unfoldable pub enter : ℕ → ℕ → Space A → Outcome (ℕ × Space A)
  enter table index w =
      let fresh = (do
        (frame, w₁) ← alloc_frame4k w
        e ← Entry.set size4k frame page_table_flags
        done (record w₁ { memory = store w₁.memory table index e })) in
      do
        w₂ ← if Entry.is_empty (w.memory table index) then fresh else done w
        t ← unwrap (get_next_table w₂.memory table index)
        done (t, w₂)

  unfoldable pub write : ℕ → ℕ → PageSize → ℕ → PageFlags → Space A → Outcome (Space A)
  write table index s frame flags w = do
    e ← Entry.set s frame flags
    done (record w { memory = store w.memory table index e })

  -- `PageTable::map`
  unfoldable pub map_page : PageSize → ℕ → ℕ → ℕ → PageFlags → Space A → Outcome (ℕ × Space A)
  map_page s p4 page frame flags w = do
    (p3, w₃) ← enter p4 (get_index 4 page) w
    let l3 = (do w' ← write p3 (get_index 3 page) s frame flags w₃; done (page, w'))
    let below = (do
      (p2, w₂) ← enter p3 (get_index 3 page) w₃
      let l2 = (do w' ← write p2 (get_index 2 page) s frame flags w₂; done (page, w'))
      let below = (do
        (p1, w₁) ← enter p2 (get_index 2 page) w₂
        w' ← write p1 (get_index 1 page) s frame (flags or small_page) w₁
        done (page, w'))
      if bytes s == bytes size2m then l2 else below)
    if bytes s == bytes size1g then l3 else below

  -- `PageTable::identity_map`
  unfoldable pub identity_map : PageSize → ℕ → ℕ → PageFlags → Space A → Outcome (ℕ × Space A)
  identity_map s p4 frame flags w = do page ← page_new s frame; map_page s p4 page frame flags w
