-- ===== src/Memory/Tables/Examples.antt =====
-- Page tables on concrete memories.
use sophon_rpi_cross.Base.{
  ℕ, ◌^◌, ◌%◌, ◌≤◌, ◌<◌, ◌≡◌, refl, true, false, Option, none, some, List, [], ◌∷◌, done, panic,
  assertion, ◌==◌, update, arith, Bool-cases, ==→eq, subst, inl, inr,
}
use sophon_rpi_cross.Memory.Page.{PageSize, size4k, size2m}
use sophon_rpi_cross.Memory.Flags.{kernel_data_flags_4k, user_data_flags_4k, contains}
use sophon_rpi_cross.Memory.Entry.{is_empty, is_block, present, address, flags}
use sophon_rpi_cross.Memory.Entry.Words.{Fits}
use sophon_rpi_cross.Memory.Tables.{
  translate, translate_l4, Space, map_page, identity_map, get_next_table, get_index, is_clear,
  store,
}
use sophon_rpi_cross.Memory.Tables.Walk.{Shaped}
use sophon_rpi_cross.Memory.Tables.Leaf.{InPage}
use sophon_rpi_cross.Memory.Tables.Grow.{Supply}
use sophon_rpi_cross.Memory.Tables.Mapping.{Mapped, map_page_lem}
use sophon_rpi_cross.Memory.Tables.Identity.{identity_map_lem}
use sophon_rpi_cross.Memory.Tables.RoundTrip.{unmap-map_page}
use sophon_rpi_cross.Memory.Tables.Unmap.{unmap}
use sophon_rpi_cross.Memory.Tables.Unmap.Large.{unmap_last_panics}
use sophon_rpi_cross.Memory.Tables.Sbrk.{MmState, sbrk, frames_for, Extended, sbrk_lem}

-- An allocator that hands out the frames of a list.
abbrev next_frame : List ℕ → Option (ℕ × List ℕ)
next_frame [] = none
next_frame (f ∷ fs) = some (f, fs)

abbrev give_back : PageSize → ℕ → List ℕ → List ℕ
give_back s f fs = f ∷ fs

abbrev root_only : ℕ → ℕ
root_only = update (λ t. 0) 0x1000 4

abbrev no_place : ℕ → ℕ
no_place t = 0

-- Only a table of level 4, which is all empty.
abbrev fresh_space : Space (List ℕ)
fresh_space = record { memory = λ t i. 0; pa = 0x2000 ∷ 0x3000 ∷ 0x4000 ∷ [] }

fresh_space-Shaped : Shaped fresh_space.memory 0x1000 root_only no_place
fresh_space-Shaped = record {
  root_level = refl;
  root_place = refl;
  aligned = λ t h. elim (Bool-cases (0x1000 == t)) [
    | inl y ↦ subst (λ (x : ℕ). x % 2 ^ 12 ≡ 0) (==→eq 0x1000 t y) refl
    | inr n ↦ absurd (h (rw n refl))
  ];
  below = λ t i lt two n b. absurd (cc n);
  no_block = λ t i lt four n. absurd (cc n);
}

fresh_space-Supply : Supply next_frame 3 root_only fresh_space.pa
fresh_space-Supply =
    let third : Supply next_frame 1 (update (update root_only 0x2000 1) 0x3000 1) (0x4000 ∷ []) =
      (0x4000, [], refl, refl, omega arith, refl, tt) in
    let second : Supply next_frame 2 (update root_only 0x2000 1) (0x3000 ∷ 0x4000 ∷ []) =
      (0x3000, 0x4000 ∷ [], refl, refl, omega arith, refl, third) in
    (0x2000, 0x3000 ∷ 0x4000 ∷ [], refl, refl, omega arith, refl, second)

kernel_data_flags_4k-Fits : Fits size4k kernel_data_flags_4k
kernel_data_flags_4k-Fits = record {
  word = omega arith;
  no_address = refl;
  is_present = refl;
  small = refl;
}

fresh_space-unmapped : translate fresh_space.memory 0x1000 0x80000 ≡ done none
unfolding translate translate_l4
fresh_space-unmapped = refl

map_page_lem_example :
    (w' : Space (List ℕ)) × (map_page next_frame size4k 0x1000 0x80000 0x5000 kernel_data_flags_4k
        fresh_space
      ≡ done (0x80000, w'))
    × Mapped next_frame 0x1000 0 size4k 0x80000 0x5000 fresh_space.memory w'
map_page_lem_example =
    map_page_lem next_frame 0 size4k 0x1000 0x80000 0x5000 kernel_data_flags_4k fresh_space
      root_only no_place (omega arith) refl refl (omega arith) kernel_data_flags_4k-Fits
      fresh_space-Shaped fresh_space-Supply fresh_space-unmapped

identity_map_lem_example :
    (w' : Space (List ℕ)) × (identity_map next_frame size4k 0x1000 0x80000 kernel_data_flags_4k
        fresh_space
      ≡ done (0x80000, w'))
    × ((a : ℕ)
        → a < 2 ^ 48
        → InPage size4k 0x80000 a
        → translate w'.memory 0x1000 a ≡ done (some a))
identity_map_lem_example =
    identity_map_lem next_frame size4k 0x1000 0x80000 kernel_data_flags_4k fresh_space root_only
      no_place refl (omega arith) kernel_data_flags_4k-Fits fresh_space-Shaped fresh_space-Supply
      fresh_space-unmapped

unmap-map_page_example :
    (w' : Space (List ℕ)) × (w'' : Space (List ℕ)) × (map_page next_frame size4k 0x1000 0x80000
        0x5000 kernel_data_flags_4k fresh_space
      ≡ done (0x80000, w'))
    × (unmap give_back size4k 0x1000 0x80000 w' ≡ done w'')
    × ((a : ℕ) → a < 2 ^ 48 → InPage size4k 0x80000 a → translate w''.memory 0x1000 a ≡ done none)
    × ((a : ℕ)
        → a < 2 ^ 48
        → (InPage size4k 0x80000 a → ⊥)
        → translate w''.memory 0x1000 a ≡ translate fresh_space.memory 0x1000 a)
unmap-map_page_example =
    unmap-map_page next_frame give_back 0x1000 0x80000 0x5000 kernel_data_flags_4k fresh_space
      root_only no_place (omega arith) refl refl (omega arith) kernel_data_flags_4k-Fits
      fresh_space-Shaped fresh_space-Supply fresh_space-unmapped

-- Three tables, and a page of 2 MiB in the last one.
abbrev one_large : Space (List ℕ)
one_large = record {
  memory =
      update
        (update (update (λ t i. 0) 0x1000 (update (λ i. 0) 0 0x2747)) 0x2000
          (update (λ i. 0) 0 0x3747))
        0x3000 (update (λ i. 0) 0 0x400705);
  pa = [];
}

one_large-link_4 : get_next_table one_large.memory 0x1000 (get_index 4 0) ≡ some 0x2000
unfolding get_next_table get_index address present is_block flags contains
one_large-link_4 = refl

one_large-link_3 : get_next_table one_large.memory 0x2000 (get_index 3 0) ≡ some 0x3000
unfolding get_next_table get_index address present is_block flags contains
one_large-link_3 = refl

one_large-full : is_empty (one_large.memory 0x3000 (get_index 2 0)) ≡ false
unfolding get_index
one_large-full = refl

one_large-block : is_block (one_large.memory 0x3000 (get_index 2 0)) ≡ true
unfolding get_index is_block flags contains
one_large-block = refl

one_large-last : is_clear (store one_large.memory 0x3000 (get_index 2 0) 0 0x3000) ≡ true
unfolding get_index
one_large-last = refl

unmap_last_panics_example : unmap give_back size2m 0x1000 0 one_large ≡ panic assertion
unmap_last_panics_example =
    unmap_last_panics give_back 0x1000 0 0x2000 0x3000 one_large one_large-link_4 one_large-link_3
      one_large-full one_large-block one_large-last refl

-- A process whose memory ends at 0x80000, with one more frame to give.
abbrev fresh_process : MmState (List ℕ)
fresh_process = record {
  virtual_memory_highwater = 0x80000;
  root = 0x1000;
  space = record fresh_space { pa = 0x5000 ∷ 0x6000 ∷ 0x7000 ∷ 0x8000 ∷ [] };
}

fresh_process-Supply : Supply next_frame (frames_for 1) root_only fresh_process.space.pa
fresh_process-Supply =
    let set = update (update root_only 0x5000 1) 0x6000 1 in
    let fourth : Supply next_frame 1 (update set 0x7000 1) (0x8000 ∷ []) =
      (0x8000, [], refl, refl, omega arith, refl, tt) in
    let third : Supply next_frame 2 set (0x7000 ∷ 0x8000 ∷ []) =
      (0x7000, 0x8000 ∷ [], refl, refl, omega arith, refl, fourth) in
    let second : Supply next_frame 3 (update root_only 0x5000 1) (0x6000 ∷ 0x7000 ∷ 0x8000 ∷ []) =
      (0x6000, 0x7000 ∷ 0x8000 ∷ [], refl, refl, omega arith, refl, third) in
    (0x5000, 0x6000 ∷ 0x7000 ∷ 0x8000 ∷ [], refl, refl, omega arith, refl, second)

user_data_flags_4k-Fits : Fits size4k user_data_flags_4k
user_data_flags_4k-Fits = record {
  word = omega arith;
  no_address = refl;
  is_present = refl;
  small = refl;
}

fresh_process-unmapped :
    (a : ℕ) → 0x80000 ≤ a → a < 0x81000 → translate fresh_space.memory 0x1000 a ≡ done none
unfolding translate translate_l4
fresh_process-unmapped a ge lt = refl

sbrk_lem_example :
    (mm' : MmState (List ℕ)) × (sbrk next_frame 1 fresh_process ≡ done ((0x80000, 0x81000), mm'))
    × (mm'.virtual_memory_highwater ≡ 0x81000)
    × (mm'.root ≡ 0x1000)
    × Extended next_frame 0x1000 0x80000 0x81000 fresh_process.space mm'.space
sbrk_lem_example =
    sbrk_lem next_frame 1 fresh_process root_only no_place refl (omega arith)
      user_data_flags_4k-Fits fresh_space-Shaped fresh_process-Supply fresh_process-unmapped
