-- ===== src/Memory/Page.antt =====
-- libs/memory/src/page.rs: a page of one of three sizes is the address of its first byte.
pub mod Rounding
use sophon_rpi_cross.Base.{
  ℕ, ◌+◌, ◌-◌, ◌*◌, ◌/◌, ◌%◌, ◌^◌, Bool, true, false, Option, none, some, Outcome, done, panic,
  ◌>>=◌, ◌>>◌, assert, if◌then◌else◌, ◌==◌, ltb,
}
use sophon_rpi_cross.Memory.Bits.{word_and, word_not}
use sophon_rpi_cross.Memory.Address.{checked_add, checked_sub, distance}

-- `Size4K`, `Size2M`, `Size1G`
pub data PageSize : Type 0 where
  size4k size2m size1g : PageSize

abbrev pub log_bytes : PageSize → ℕ
log_bytes size4k = 12
log_bytes size2m = 21
log_bytes size1g = 30

-- `Page::BYTES`, `Page::MASK`
abbrev pub bytes : PageSize → ℕ
bytes s = 2 ^ log_bytes s

abbrev pub mask : PageSize → ℕ
mask s = bytes s - 1

abbrev pub align : PageSize → ℕ → ℕ
align s a = word_and 64 a (word_not 64 (mask s))

abbrev pub is_aligned : PageSize → ℕ → Bool
is_aligned s a = word_and 64 a (mask s) == 0

-- `Page::new`
unfoldable pub page_new : PageSize → ℕ → Outcome ℕ
page_new s a = do assert (is_aligned s a); done a

unfoldable pub containing : PageSize → ℕ → Outcome ℕ
containing s a = page_new s (align s a)

-- `Page::end`
abbrev pub page_end : PageSize → ℕ → Outcome ℕ
page_end s p = checked_add p (bytes s)

-- `count << LOG_BYTES`: bits past the end of the word are lost.
abbrev pub shift_left : PageSize → ℕ → ℕ
shift_left s count = count * bytes s % 2 ^ 64

-- `Step::steps_between`
unfoldable pub page_steps : PageSize → ℕ → ℕ → Outcome (Option ℕ)
page_steps s start end =
    if ltb end start then done none else (do n ← distance end start; done (some (n / bytes s)))

-- `Step::forward_checked` and `forward`
unfoldable pub page_forward : PageSize → ℕ → ℕ → Outcome ℕ
page_forward s start count = do a ← checked_add start (shift_left s count); page_new s a

-- `Step::backward_checked` and `backward`
unfoldable pub page_backward : PageSize → ℕ → ℕ → Outcome ℕ
page_backward s start count = do a ← checked_sub start (shift_left s count); page_new s a
