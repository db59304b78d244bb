-- ===== src/Memory/Flags.antt =====
-- The flags of page-table entries, in libs/memory/src/page_table/mod.rs, a type that the macro
-- `bitflags` of libs/bitflags/src/lib.rs generates: a word, of which a flag is one bit or more.
use sophon_rpi_cross.Base.{ℕ, ◌^◌, ◌*◌, Bool, List, [], ◌∷◌, if◌then◌else◌, ◌==◌}
use sophon_rpi_cross.Memory.Bits.{word_and, word_not}
use sophon_rpi_cross.Memory.Bits.Masks.{word_or, word_xor}
use sophon_rpi_cross.Memory.Page.{PageSize, size4k, size2m, size1g, bytes}

pub record PageFlags : Type 0 where
  pub value : ℕ

-- `From<u64>`
abbrev pub from_word : ℕ → PageFlags
from_word v = record { value = v }

unfoldable pub contains : PageFlags → PageFlags → Bool
contains x flags = word_and 64 x.value flags.value == flags.value

-- `Not`, `BitAnd`, `BitOr`, `BitXor`
abbrev pub flags_not : PageFlags → PageFlags
flags_not x = record { value = word_not 64 x.value }

abbrev pub flags_and : PageFlags → PageFlags → PageFlags
flags_and x y = record { value = word_and 64 x.value y.value }

infixl 20 ◌or◌
abbrev pub ◌or◌ : PageFlags → PageFlags → PageFlags
x or y = record { value = word_or 64 x.value y.value }

abbrev pub flags_xor : PageFlags → PageFlags → PageFlags
flags_xor x y = record { value = word_xor 64 x.value y.value }

abbrev pub present_flag : PageFlags
present_flag = from_word 0b01

abbrev pub small_page : PageFlags
small_page = from_word 0b10

abbrev pub user : PageFlags
user = from_word (2 ^ 6)

abbrev pub no_write : PageFlags
no_write = from_word (2 ^ 7)

abbrev pub accessed : PageFlags
accessed = from_word (2 ^ 10)

abbrev pub no_exec : PageFlags
no_exec = from_word (2 ^ 54)

abbrev pub inner_share : PageFlags
inner_share = from_word (0b10 * 2 ^ 8)

abbrev pub outer_share : PageFlags
outer_share = from_word (0b11 * 2 ^ 8)

abbrev pub copy_on_write : PageFlags
copy_on_write = from_word (2 ^ 53)

abbrev pub normal_memory : PageFlags
normal_memory = from_word (0b001 * 2 ^ 2)

abbrev pub device_memory : PageFlags
device_memory = from_word 0

abbrev pub no_cache : PageFlags
no_cache = from_word (0b10 * 2 ^ 2)

-- `PageFlags::values`
abbrev pub values : List PageFlags
values =
    present_flag ∷ small_page ∷ user ∷ no_write ∷ accessed ∷ no_exec ∷ inner_share ∷ outer_share
    ∷ copy_on_write ∷ normal_memory ∷ device_memory ∷ no_cache ∷ []

abbrev pub page_table_flags : PageFlags
page_table_flags = normal_memory or present_flag or small_page or outer_share or accessed or user

abbrev pub kernel_data_flags : PageSize → PageFlags
kernel_data_flags s =
    let flags = normal_memory or present_flag or accessed or outer_share in
    if bytes s == bytes size4k then flags or small_page else flags

abbrev pub kernel_data_flags_1g : PageFlags
kernel_data_flags_1g = kernel_data_flags size1g

abbrev pub kernel_data_flags_2m : PageFlags
kernel_data_flags_2m = kernel_data_flags size2m

abbrev pub kernel_data_flags_4k : PageFlags
kernel_data_flags_4k = kernel_data_flags size4k

abbrev pub kernel_code_flags_2m : PageFlags
kernel_code_flags_2m = normal_memory or present_flag or accessed or outer_share

abbrev pub kernel_code_flags_1g : PageFlags
kernel_code_flags_1g = kernel_code_flags_2m

abbrev pub kernel_code_flags_4k : PageFlags
kernel_code_flags_4k = kernel_code_flags_2m or small_page

abbrev pub user_code_flags_2m : PageFlags
user_code_flags_2m = kernel_code_flags_2m or user

abbrev pub user_code_flags_4k : PageFlags
user_code_flags_4k = kernel_code_flags_4k or user

abbrev pub user_data_flags_4k : PageFlags
user_data_flags_4k = kernel_data_flags_4k or user

abbrev pub user_stack_flags : PageFlags
user_stack_flags = normal_memory or present_flag or small_page or outer_share or accessed or user

abbrev pub device : PageFlags
device = device_memory or present_flag or small_page or outer_share or accessed
