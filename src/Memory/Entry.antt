-- ===== src/Memory/Entry.antt =====
-- `PageTableEntry` of libs/memory/src/page_table/mod.rs: a word with the address of a frame and flags.
pub mod Words
use sophon_rpi_cross.Base.{
  ℕ, Bool, not, Outcome, done, panic, ◌>>=◌, ◌>>◌, assert, if◌then◌else◌, ◌==◌,
}
use sophon_rpi_cross.Memory.Bits.{word_and, word_not}
use sophon_rpi_cross.Memory.Bits.Masks.{word_or}
use sophon_rpi_cross.Memory.Page.{PageSize, size4k, bytes}
use sophon_rpi_cross.Memory.Flags.{PageFlags, from_word, contains, present_flag, small_page}

abbrev pub address_mask : ℕ
address_mask = 0x0000_ffff_ffff_f000

abbrev pub flags_mask : ℕ
flags_mask = word_not 64 address_mask

-- `PageTableEntry`: its word.
abbrev pub is_empty : ℕ → Bool
is_empty e = e == 0

unfoldable pub address : ℕ → ℕ
address e = word_and 64 e address_mask

unfoldable pub flags : ℕ → PageFlags
flags e = from_word (word_and 64 e flags_mask)

unfoldable pub present : ℕ → Bool
unfolding flags
present e = contains (flags e) present_flag

unfoldable pub is_block : ℕ → Bool
unfolding flags
is_block e = not (contains (flags e) small_page)

unfoldable pub update_flags : PageFlags → ℕ → ℕ
unfolding address
update_flags new_flags e = word_or 64 (address e) new_flags.value

-- The word that `set` stores.
unfoldable pub set : PageSize → ℕ → PageFlags → Outcome ℕ
set s frame flags = do
  assert (
      if bytes s == bytes size4k
      then word_and 64 flags.value 0b10 == 0b10
      else word_and 64 flags.value 0b10 == 0)
  done (word_or 64 (word_and 64 frame (word_not 64 0xffff_0000_0000_0000)) flags.value)
