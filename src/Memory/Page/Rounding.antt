-- ===== src/Memory/Page/Rounding.antt =====
-- Pages and the addresses in them, in libs/memory/src/page.rs.
use sophon_rpi_cross.Base.{
  ℕ, ◌+◌, ◌-◌, ◌*◌, ◌/◌, ◌%◌, ◌^◌, ◌≤◌, ◌<◌, ◌≡◌, sym, ap, ◌∙◌, true, some, done, ◌==◌, arith,
  lt→ltb, le→ltb, ==→eq,
}
use native.Mathlib.Nat.{
  mod-lt, mod-le, mod-eq_of_lt, div-add-mod, mul-div_cancel, add-mul-mod_self_right,
  add-mul-mod_self_left,
}
use sophon_rpi_cross.Memory.Bits.{pow_pos}
use sophon_rpi_cross.Memory.Address.Alignment.{le→leb, mask_off, mask_in, rounded-mod}
use sophon_rpi_cross.Memory.Page.{
  PageSize, size4k, size2m, size1g, log_bytes, bytes, align, is_aligned, page_new, containing,
  page_steps, page_forward, page_backward,
}

log_bytes-lt : (s : PageSize) → log_bytes s < 64
log_bytes-lt size4k = omega arith
log_bytes-lt size2m = omega arith
log_bytes-lt size1g = omega arith

bytes_pos : (s : PageSize) → 0 < bytes s
bytes_pos s = pow_pos (log_bytes s)

align-mod : (s : PageSize) (a : ℕ) → a < 2 ^ 64 → align s a ≡ a - a % bytes s
align-mod s a lt = mask_off (log_bytes s) a (log_bytes-lt s) lt

is_aligned-mod : (s : PageSize) (a : ℕ) → is_aligned s a ≡ (a % bytes s == 0)
is_aligned-mod s a = ap (λ (r : ℕ). r == 0) (mask_in (log_bytes s) a (log_bytes-lt s))

aligned-mod : (s : PageSize) (a : ℕ) → is_aligned s a ≡ true → a % bytes s ≡ 0
aligned-mod s a e = ==→eq (a % bytes s) 0 (sym (is_aligned-mod s a) ∙ e)

pub page_new-aligned : (s : PageSize) (a : ℕ) → a % bytes s ≡ 0 → page_new s a ≡ done a
unfolding page_new
page_new-aligned s a e = rw (is_aligned-mod s a, e)

-- Two multiples of `m` that lie less than `m` below the same number are the same.
multiple_unique : (a m q : ℕ) → 0 < m → q % m ≡ 0 → q ≤ a → a < q + m → q ≡ a - a % m
multiple_unique a m q pos e le lt =
    let r : a % m ≡ a - q =
      ap (λ (x : ℕ). x % m) split
      ∙ add-mul-mod_self_left (a - q) m (q / m)
      ∙ mod-eq_of_lt (omega arith) in
    omega arith
  where
    split : a ≡ a - q + m * (q / m)
    split = omega (arith, div-add-mod q m)

-- `containing` does not panic: it gives the page that an address lies in, and no other page of that
-- size has the address in it.
pub containing_unique :
    (s : PageSize) (a : ℕ)
    → a < 2 ^ 64
    → (p : ℕ) × (containing s a ≡ done p)
      × (p ≤ a)
      × (a < p + bytes s)
      × ((q : ℕ) → is_aligned s q ≡ true → q ≤ a → a < q + bytes s → q ≡ p)
unfolding containing
containing_unique s a lt =
    let p = a - a % bytes s in
    (
      p,
      ap (page_new s) (align-mod s a lt) ∙ page_new-aligned s p (rounded-mod a (bytes s)),
      omega arith,
      omega (arith, mod-lt a (bytes_pos s), mod-le a (bytes s)),
      λ q e le lt'. multiple_unique a (bytes s) q (bytes_pos s) (aligned-mod s q e) le lt',
    )

forward_value :
    (s : PageSize) (p n : ℕ)
    → is_aligned s p ≡ true
    → p + n * bytes s < 2 ^ 64
    → page_forward s p n ≡ done (p + n * bytes s)
unfolding page_forward
forward_value s p n al fits =
    let fits' : n * bytes s < 2 ^ 64 = omega arith in
    rw (mod-eq_of_lt fits', lt→ltb (p + n * bytes s) (2 ^ 64) fits)
      (page_new-aligned s (p + n * bytes s)
        (add-mul-mod_self_right p n (bytes s) ∙ aligned-mod s p al))

steps_value : (s : PageSize) (p n : ℕ) → page_steps s p (p + n * bytes s) ≡ done (some n)
unfolding page_steps
steps_value s p n =
    let back : p + n * bytes s - p ≡ n * bytes s = omega arith in
    rw (
      le→ltb (p + n * bytes s) p (omega arith),
      le→leb p (p + n * bytes s) (omega arith),
      back,
      mul-div_cancel n (bytes_pos s),
    )

backward_value :
    (s : PageSize) (p n : ℕ)
    → is_aligned s p ≡ true
    → n * bytes s < 2 ^ 64
    → page_backward s (p + n * bytes s) n ≡ done p
unfolding page_backward
backward_value s p n al fits =
    let back : p + n * bytes s - n * bytes s ≡ p = omega arith in
    rw (mod-eq_of_lt fits, le→leb (n * bytes s) (p + n * bytes s) (omega arith), back)
      (page_new-aligned s p (aligned-mod s p al))

-- Going `n` pages on, where that stays in the address space, gives the page that is `n` steps away,
-- and going `n` pages back from there gives the first page again.
pub steps-forward :
    (s : PageSize) (p n : ℕ)
    → is_aligned s p ≡ true
    → p + n * bytes s < 2 ^ 64
    → (q : ℕ) × (page_forward s p n ≡ done q)
      × (page_steps s p q ≡ done (some n))
      × (page_backward s q n ≡ done p)
steps-forward s p n al fits = (
  p + n * bytes s,
  forward_value s p n al fits,
  steps_value s p n,
  backward_value s p n al (omega arith),
)
