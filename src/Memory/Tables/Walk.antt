-- ===== src/Memory/Tables/Walk.antt =====
-- The walk of `translate` through well-formed page tables.
use sophon_rpi_cross.Base.{
  ℕ, suc, ◌+◌, ◌*◌, ◌%◌, ◌^◌, ◌≤◌, ◌<◌, ◌≡◌, ◌≢◌, refl, Bool, true, false, not, ◌&&◌, Option, none,
  some, Outcome, done, if◌then◌else◌, arith, lt→ltb,
}
use sophon_rpi_cross.Memory.Bits.{word_and}
use sophon_rpi_cross.Memory.Address.{checked_add}
use sophon_rpi_cross.Memory.Address.Alignment.{mask_in}
use sophon_rpi_cross.Memory.Entry.Words.{EntryOf, present-not_empty, address-lt}
use sophon_rpi_cross.Memory.Page.{PageSize, size4k, size2m, size1g, bytes, mask}
use sophon_rpi_cross.Memory.Entry.{address, is_block, present, is_empty}
use sophon_rpi_cross.Memory.Tables.{
  Memory, get_index, get_next_table, translate, translate_l1, translate_level, translate_l4,
}
use sophon_rpi_cross.Memory.Tables.Index.{Level, l1, l2, l3, l4, above}

-- Every table has a level and the number of its place in the address space. A table of level 1 maps
-- small pages, and the entries of the tables above it are empty, blocks, or the tables one level down
-- at the place that the index says.
pub record Shaped (m : Memory) (root : ℕ) (level place : ℕ → ℕ) : Type 0 where
  pub root_level : level root ≡ 4
  pub root_place : place root ≡ 0
  pub aligned : (t : ℕ) → level t ≢ 0 → t % 2 ^ 12 ≡ 0
  pub below :
      (t i : ℕ)
      → i < 512
      → 2 ≤ level t
      → is_empty (m t i) ≡ false
      → is_block (m t i) ≡ false
      → (present (m t i) ≡ true)
        × (suc (level (address (m t i))) ≡ level t)
        × (place (address (m t i)) ≡ place t * 512 + i)
  pub no_block :
      (t i : ℕ) → i < 512 → level t ≡ 4 → is_empty (m t i) ≡ false → is_block (m t i) ≡ false

-- `a` lies in the part of the address space that the table `t` of level `l` is for.
abbrev pub Covers : (ℕ → ℕ) → (ℕ → ℕ) → ℕ → ℕ → ℕ → Type 0
Covers level place a l t = (level t ≡ l) × (place t ≡ above l a)

-- The tables that `translate` reads for `a`.
pub data Reach (m : Memory) (root a : ℕ) : ℕ → ℕ → Type 0 where
  top : Reach m root a 4 root
  down :
      {l t t' : ℕ}
      → Level (suc l)
      → Level l
      → Reach m root a (suc l) t
      → get_next_table m t (get_index (suc l) a) ≡ some t'
      → Reach m root a l t'

pub next_table-some :
    (m : Memory) (t i t' : ℕ)
    → get_next_table m t i ≡ some t'
    → (present (m t i) ≡ true) × (is_block (m t i) ≡ false) × (address (m t i) ≡ t')
unfolding get_next_table
next_table-some m t i t' h = parts (present (m t i)) (is_block (m t i)) (address (m t i)) t' h
  where
    parts :
        (p b : Bool) (x t' : ℕ)
        → ◌≡◌ {A = Option ℕ} (if p && not b then some x else none) (some t')
        → (p ≡ true) × (b ≡ false) × (x ≡ t')
    parts true false x t' h = (refl, refl, cc)
    parts true true x t' h = absurd cc
    parts false b x t' h = absurd cc

pub next-table :
    (m : Memory) (t i : ℕ)
    → present (m t i) ≡ true
    → is_block (m t i) ≡ false
    → get_next_table m t i ≡ some (address (m t i))
unfolding get_next_table
next-table m t i p b = rw (p, b) refl

-- An offset in a page never takes an entry's address past the end of the word.
add_offset :
    (e a : ℕ) (s : PageSize)
    → checked_add (address e) (word_and 64 a (mask s)) ≡ done (address e + a % bytes s)
add_offset e a s =
    rw (offset a s, lt→ltb (address e + a % bytes s) (2 ^ 64) (fits (address e) a s (address-lt e)))
      refl
  where
    offset : (a : ℕ) (s : PageSize) → word_and 64 a (mask s) ≡ a % bytes s
    offset a size4k = mask_in 12 a (omega arith)
    offset a size2m = mask_in 21 a (omega arith)
    offset a size1g = mask_in 30 a (omega arith)

    fits : (b a : ℕ) (s : PageSize) → b < 2 ^ 48 → b + a % bytes s < 2 ^ 64
    fits b a size4k lt = omega arith
    fits b a size2m lt = omega arith
    fits b a size1g lt = omega arith

-- `translate` from a table of a level on.
abbrev from_l2 : Memory → ℕ → ℕ → Outcome (Option ℕ)
from_l2 m t a = translate_level 2 size2m m t a (λ p1. translate_l1 m p1 a)

abbrev from_l3 : Memory → ℕ → ℕ → Outcome (Option ℕ)
from_l3 m t a = translate_level 3 size1g m t a (λ p2. from_l2 m p2 a)

unfoldable pub translate_at : {l : ℕ} → Level l → Memory → ℕ → ℕ → Outcome (Option ℕ)
translate_at l1 m t a = translate_l1 m t a
translate_at l2 m t a = from_l2 m t a
translate_at l3 m t a = from_l3 m t a
translate_at l4 m t a = translate_l4 m t a (λ p3. from_l3 m p3 a)

pub translate-at : (m : Memory) (root a : ℕ) → translate m root a ≡ translate_at l4 m root a
unfolding translate translate_at
translate-at m root a = refl

pub at_empty :
    {l : ℕ} (v : Level l) (m : Memory) (t a : ℕ)
    → is_empty (m t (get_index l a)) ≡ true
    → translate_at v m t a ≡ done none
unfolding translate_at translate_l1 translate_level translate_l4
at_empty l1 m t a h = rw h refl
at_empty l2 m t a h = rw h refl
at_empty l3 m t a h = rw h refl
at_empty l4 m t a h = rw h refl

pub at_next :
    {l : ℕ} (u : Level (suc l)) (v : Level l) (m : Memory) (t t' a : ℕ)
    → get_next_table m t (get_index (suc l) a) ≡ some t'
    → translate_at u m t a ≡ translate_at v m t' a
unfolding translate_at translate_level translate_l4
at_next l1 v m t t' a h = elim v [ ]
at_next l2 l1 m t t' a h =
    let (p, b, x) = next_table-some m t (get_index 2 a) t' h in
    rw (present-not_empty (m t (get_index 2 a)) p, b, h) refl
at_next l3 l2 m t t' a h =
    let (p, b, x) = next_table-some m t (get_index 3 a) t' h in
    rw (present-not_empty (m t (get_index 3 a)) p, b, h) refl
at_next l4 l3 m t t' a h =
    let (p, b, x) = next_table-some m t (get_index 4 a) t' h in
    rw (present-not_empty (m t (get_index 4 a)) p, h) refl

-- The level whose entries map pages of a size.
abbrev pub level_of : PageSize → ℕ
level_of size4k = 1
level_of size2m = 2
level_of size1g = 3

abbrev pub leaf_level : (s : PageSize) → Level (level_of s)
leaf_level size4k = l1
leaf_level size2m = l2
leaf_level size1g = l3

pub at_leaf :
    (s : PageSize) (m : Memory) (t a frame : ℕ)
    → EntryOf s frame (m t (get_index (level_of s) a))
    → translate_at (leaf_level s) m t a ≡ done (some (frame + a % bytes s))
unfolding translate_at translate_level translate_l1
at_leaf size4k m t a frame h =
    rw (h.not_empty, add_offset (m t (get_index 1 a)) a size4k, h.points) refl
at_leaf size2m m t a frame h =
    rw (h.not_empty, h.block, add_offset (m t (get_index 2 a)) a size2m, h.points) refl
at_leaf size1g m t a frame h =
    rw (h.not_empty, h.block, add_offset (m t (get_index 3 a)) a size1g, h.points) refl

-- A block translates to some address.
pub at_block :
    {l : ℕ} (u : Level (suc l)) (m : Memory) (t a : ℕ)
    → is_empty (m t (get_index (suc l) a)) ≡ false
    → is_block (m t (get_index (suc l) a)) ≡ true
    → suc l ≢ 4
    → (x : ℕ) × (translate_at u m t a ≡ done (some x))
unfolding translate_at translate_level translate_l1
at_block l1 m t a e b ne = (
  address (m t (get_index 1 a)) + a % bytes size4k,
  rw (e, add_offset (m t (get_index 1 a)) a size4k) refl,
)
at_block l2 m t a e b ne = (
  address (m t (get_index 2 a)) + a % bytes size2m,
  rw (e, b, add_offset (m t (get_index 2 a)) a size2m) refl,
)
at_block l3 m t a e b ne = (
  address (m t (get_index 3 a)) + a % bytes size1g,
  rw (e, b, add_offset (m t (get_index 3 a)) a size1g) refl,
)
at_block l4 m t a e b ne = absurd (ne refl)
