-- ===== src/Memory/Address.antt =====
-- libs/memory/src/address.rs: an address is a 64-bit word, of virtual or of physical memory. Sums and
-- differences are checked for overflow.
pub mod Alignment
use sophon_rpi_cross.Base.{
  ℕ, zero, suc, ◌+◌, ◌-◌, ◌^◌, Bool, true, false, Option, none, some, Outcome, done, panic,
  overflow, ◌>>=◌, ◌>>◌, assert, unwrap, if◌then◌else◌, ◌==◌, ltb, leb,
}
use Prim.Native.Nat.{Ordering}
use sophon_rpi_cross.Memory.Bits.{word_and, word_not}

-- A sum of two words, and a difference.
abbrev pub checked_add : ℕ → ℕ → Outcome ℕ
checked_add a b = let s = a + b in if ltb s (2 ^ 64) then done s else panic overflow

abbrev pub checked_sub : ℕ → ℕ → Outcome ℕ
checked_sub a b = if leb b a then done (a - b) else panic overflow

-- `usize::is_power_of_two`
abbrev pub is_power_below : ℕ → ℕ → Bool
is_power_below zero n = false
is_power_below (suc i) n = let rest = is_power_below i n in if n == 2 ^ i then true else rest

unfoldable pub is_power_of_two : ℕ → Bool
is_power_of_two n = is_power_below 64 n

unfoldable pub align_up : ℕ → ℕ → Outcome ℕ
align_up a align = do
  assert (is_power_of_two align)
  mask ← checked_sub align 1
  s ← checked_add a mask
  done (word_and 64 s (word_not 64 mask))

unfoldable pub align_down : ℕ → ℕ → Outcome ℕ
align_down a align = do
  assert (is_power_of_two align)
  mask ← checked_sub align 1
  done (word_and 64 a (word_not 64 mask))

unfoldable pub is_aligned_to : ℕ → ℕ → Outcome Bool
is_aligned_to a align = do
  assert (is_power_of_two align)
  mask ← checked_sub align 1
  done (word_and 64 a mask == 0)

-- `Ord::cmp`
abbrev pub cmp : ℕ → ℕ → Ordering
cmp a b = if a == b then Ordering.eq else if ltb a b then Ordering.lt else Ordering.gt

-- `PartialOrd::lt`, `le`, `gt`, `ge`
abbrev pub lt : ℕ → ℕ → Bool
lt a b = elim (cmp a b) [ Ordering.lt ↦ true | _ ↦ false ]

abbrev pub le : ℕ → ℕ → Bool
le a b = elim (cmp a b) [ Ordering.gt ↦ false | _ ↦ true ]

abbrev pub gt : ℕ → ℕ → Bool
gt a b = elim (cmp a b) [ Ordering.gt ↦ true | _ ↦ false ]

abbrev pub ge : ℕ → ℕ → Bool
ge a b = elim (cmp a b) [ Ordering.lt ↦ false | _ ↦ true ]

-- `Ord::max`, `min`, `clamp`
abbrev pub max_of : ℕ → ℕ → ℕ
max_of a b = elim (cmp a b) [ Ordering.gt ↦ a | _ ↦ b ]

abbrev pub min_of : ℕ → ℕ → ℕ
min_of a b = elim (cmp a b) [ Ordering.gt ↦ b | _ ↦ a ]

unfoldable pub clamp : ℕ → ℕ → ℕ → Outcome ℕ
clamp a low high = do
  assert (le low high)
  done (if lt a low then low else if gt a high then high else a)

-- `Sub<Self>`
abbrev pub distance : ℕ → ℕ → Outcome ℕ
distance a b = do assert (leb b a); checked_sub a b

-- `Step::steps_between`
unfoldable pub steps_between : ℕ → ℕ → Outcome (Option ℕ)
steps_between start end =
    if ltb end start then done none else (do n ← distance end start; done (some n))

-- `Step::forward_checked` and `forward`, which adds with the operator `+`.
unfoldable pub forward : ℕ → ℕ → Outcome ℕ
forward start count = checked_add start count

-- `Step::backward_checked` and `backward`
unfoldable pub backward : ℕ → ℕ → Outcome ℕ
backward start count = checked_sub start count
