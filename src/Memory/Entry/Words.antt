-- ===== src/Memory/Entry/Words.antt =====
-- What the word of a page-table entry holds after `set`, in libs/memory/src/page_table/mod.rs.
use sophon_rpi_cross.Base.{
  ℕ, ◌-◌, ◌/◌, ◌^◌, ◌%◌, ◌<◌, ◌≡◌, refl, sym, ap, ◌∙◌, ◌≢◌, true, false, not, done, ◌>>◌, assert,
  if◌then◌else◌, ◌==◌, arith, ne→==, ==→eq, Bool-cases, inl, inr,
}
use native.Mathlib.Nat.{mod-eq_of_lt}
use sophon_rpi_cross.Memory.Bits.{word_and, word_not, word_and-low}
use sophon_rpi_cross.Memory.Bits.Masks.{
  word_or, word_or-lt, word_and-lt, word_and-word_or, word_and_assoc, word_or-zero, zero-word_or,
  word_and-inside, word_and-shift, word_and-narrow,
}
use sophon_rpi_cross.Memory.Powers.{mod_pow_less}
use sophon_rpi_cross.Memory.Page.{PageSize, size4k, size2m, size1g, bytes}
use sophon_rpi_cross.Memory.Flags.{PageFlags, ◌or◌, small_page, page_table_flags, contains}
use sophon_rpi_cross.Memory.Entry.{
  address_mask, flags_mask, is_empty, address, flags, present, is_block, set,
}

abbrev pub small_bit : PageSize → ℕ
small_bit size4k = 2
small_bit size2m = 0
small_bit size1g = 0

-- Flags for a page of a size: present, with the bit for small pages exactly for a small page, and no
-- bit among those of the address.
pub record Fits (s : PageSize) (f : PageFlags) : Type 0 where
  pub word : f.value < 2 ^ 64
  pub no_address : word_and 64 f.value address_mask ≡ 0
  pub is_present : word_and 64 f.value 1 ≡ 1
  pub small : word_and 64 f.value 2 ≡ small_bit s

-- The word is the entry of a page of size `s` at `frame`.
pub record EntryOf (s : PageSize) (frame e : ℕ) : Type 0 where
  pub not_empty : is_empty e ≡ false
  pub points : address e ≡ frame
  pub is_there : present e ≡ true
  pub block : is_block e ≡ (small_bit s == 0)

pub frame-aligned : (s : PageSize) (frame : ℕ) → frame % bytes s ≡ 0 → frame % 2 ^ 12 ≡ 0
frame-aligned size4k frame h = h
frame-aligned size2m frame h = mod_pow_less 12 21 frame (omega arith) h
frame-aligned size1g frame h = mod_pow_less 12 30 frame (omega arith) h

kept : (frame : ℕ) → frame < 2 ^ 48 → word_and 64 frame (2 ^ 48 - 1) ≡ frame
kept frame lt = word_and-low 64 48 frame (omega arith) ∙ mod-eq_of_lt lt

wide : (frame : ℕ) → frame < 2 ^ 48 → frame < 2 ^ 64
wide frame lt = omega arith

in_address :
    (frame : ℕ) → frame < 2 ^ 48 → frame % 2 ^ 12 ≡ 0 → word_and 64 frame address_mask ≡ frame
in_address frame lt al = word_and-inside 48 64 frame 12 (omega arith) (omega arith) lt al

-- The bits of a mask that a frame has none of are those of the flags.
or-flags :
    (frame v m : ℕ) → word_and 64 frame m ≡ 0 → word_and 64 (word_or 64 frame v) m ≡ word_and 64 v m
or-flags frame v m z =
    word_and-word_or 64 frame v m
    ∙ ap (λ (x : ℕ). word_or 64 x (word_and 64 v m)) z
    ∙ zero-word_or 64 (word_and 64 v m) (word_and-lt 64 v m)

frame-bit_0 : (frame : ℕ) → frame % 2 ^ 12 ≡ 0 → word_and 64 frame 1 ≡ 0
frame-bit_0 frame al =
    word_and-low 64 1 frame (omega arith) ∙ mod_pow_less 1 12 frame (omega arith) al

frame-bit_1 : (frame : ℕ) → frame % 2 ^ 12 ≡ 0 → word_and 64 frame 2 ≡ 0
frame-bit_1 frame al =
    word_and-shift 1 64 63 frame 1 refl
    ∙ omega (
      arith,
      word_and-low 63 1 (frame / 2 ^ 1) (omega arith),
      mod_pow_less 2 12 frame (omega arith) al,
    )

flags-bit :
    (e m : ℕ) → word_and 64 flags_mask m ≡ m → word_and 64 (flags e).value m ≡ word_and 64 e m
unfolding flags
flags-bit e m h = word_and_assoc 64 e flags_mask m ∙ ap (word_and 64 e) h

-- An entry is read back as it was set.
pub word-EntryOf :
    (s : PageSize) (frame : ℕ) (f : PageFlags)
    → frame % 2 ^ 12 ≡ 0
    → frame < 2 ^ 48
    → Fits s f
    → EntryOf s frame (word_or 64 frame f.value)
unfolding address present is_block contains
word-EntryOf s frame f al lt fit =
    let e = word_or 64 frame f.value in
    let bit_0 : word_and 64 e 1 ≡ 1 =
      or-flags frame f.value 1 (frame-bit_0 frame al) ∙ fit.is_present in
    let bit_1 : word_and 64 e 2 ≡ small_bit s =
      or-flags frame f.value 2 (frame-bit_1 frame al) ∙ fit.small in
    record {
      not_empty =
          ne→== e 0 (λ z. empty (word_and 64 e 1) bit_0 (ap (λ (x : ℕ). word_and 64 x 1) z));
      points =
          word_and-word_or 64 frame f.value address_mask
          ∙ ap (λ (x : ℕ). word_or 64 x (word_and 64 f.value address_mask)) (in_address frame lt al)
          ∙ ap (word_or 64 frame) fit.no_address
          ∙ word_or-zero 64 frame (wide frame lt);
      is_there = rw (flags-bit e 1 refl ∙ bit_0) refl;
      block = rw (flags-bit e 2 refl ∙ bit_1) (block_bit s);
    }
  where
    empty : (n : ℕ) → n ≡ 1 → n ≢ 0
    empty n h z = omega arith

    block_bit : (s : PageSize) → not (small_bit s == 2) ≡ (small_bit s == 0)
    block_bit size4k = refl
    block_bit size2m = refl
    block_bit size1g = refl

-- `set` does not panic on flags that fit the page's size, and stores the frame and the flags.
pub set-EntryOf :
    (s : PageSize) (frame : ℕ) (f : PageFlags)
    → frame % bytes s ≡ 0
    → frame < 2 ^ 48
    → Fits s f
    → (e : ℕ) × (set s frame f ≡ done e) × EntryOf s frame e
unfolding set
set-EntryOf s frame f al lt fit =
    let in_word : word_and 64 frame (word_not 64 0xffff_0000_0000_0000) ≡ frame = kept frame lt in
    (
      word_or 64 frame f.value,
      rw (in_word, fit.small) (checked s (word_or 64 frame f.value)),
      word-EntryOf s frame f (frame-aligned s frame al) lt fit,
    )
  where
    checked :
        (s : PageSize) (e : ℕ)
        → (assert (if bytes s == bytes size4k then small_bit s == 2 else small_bit s == 0)
            >> done e)
          ≡ done e
    checked size4k e = refl
    checked size2m e = refl
    checked size1g e = refl

-- The flags of the tables themselves fit a small page.
pub page_table_flags-Fits : Fits size4k page_table_flags
page_table_flags-Fits = record {
  word = omega arith;
  no_address = refl;
  is_present = refl;
  small = refl;
}

-- `map` sets the bit for small pages in the flags of a small page.
pub small_page-Fits : (f : PageFlags) → Fits size4k f → Fits size4k (f or small_page)
small_page-Fits f fit = record {
  word = word_or-lt 64 f.value 2;
  no_address =
      word_and-word_or 64 f.value 2 address_mask
      ∙ ap (λ (x : ℕ). word_or 64 x (word_and 64 2 address_mask)) fit.no_address;
  is_present =
      word_and-word_or 64 f.value 2 1
      ∙ ap (λ (x : ℕ). word_or 64 x (word_and 64 2 1)) fit.is_present;
  small =
      word_and-word_or 64 f.value 2 2 ∙ ap (λ (x : ℕ). word_or 64 x (word_and 64 2 2)) fit.small;
}

-- An entry that is present is not empty.
pub present-not_empty : (e : ℕ) → present e ≡ true → is_empty e ≡ false
unfolding present flags contains
present-not_empty e h = elim (Bool-cases (is_empty e)) [
  | inl z ↦ clash (ap present (sym (==→eq e 0 z)) ∙ h)
  | inr n ↦ n
]
  where
    clash : present 0 ≡ true → is_empty e ≡ false
    clash h = cc

pub address-lt : (e : ℕ) → address e < 2 ^ 48
unfolding address
address-lt e =
    let narrow : word_and 64 e address_mask ≡ word_and 48 e address_mask =
      word_and-narrow 48 64 e address_mask (omega arith) (omega arith) in
    rw narrow (word_and-lt 48 e address_mask)
