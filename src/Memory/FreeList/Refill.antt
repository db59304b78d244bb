-- ===== src/Memory/FreeList/Refill.antt =====
-- The loop of `alloc_cell_slow` that cuts new pages into cells.
use sophon_rpi_cross.Base.{
  ℕ, zero, suc, ◌+◌, ◌-◌, ◌%◌, ◌^◌, ◌≤◌, ◌<◌, min, ◌≡◌, ◌⊎◌, inl, inr, refl, sym, ap, ◌∙◌, true,
  false, Option, List, [], ◌∷◌, Outcome, done, ◌>>=◌, ◌==◌, ltb, leb, arith, Bool-cases, lt→ltb,
  update, ==→eq,
}
use native.Mathlib.Nat.{mod-eq_of_lt, two-pow-succ}
use sophon_rpi_cross.Memory.Bits.{word_and, word_and-low, pow_pos}
use sophon_rpi_cross.Memory.Powers.{
  trailing_zeros, log_ceil, zeros_divide, mod_pow_less, ceil_from-bounds,
}
use sophon_rpi_cross.Memory.Address.{is_power_below, is_power_of_two}
use sophon_rpi_cross.Memory.Address.Alignment.{pow_mono, le→leb, is_power_of_two-pow}
use sophon_rpi_cross.Memory.FreeList.{FreeListAllocator, floor_class, push_cell, refill}

power_of : (f n : ℕ) → is_power_below f n ≡ true → (i : ℕ) × (n ≡ 2 ^ i)
power_of zero n h = absurd (ground arith)
power_of (suc f) n h = elim (Bool-cases (n == 2 ^ f)) [
  | inl y ↦ (f, ==→eq n (2 ^ f) y)
  | inr off ↦ power_of f n (rw off at h)
]

less_exponent : (p k n : ℕ) → 2 ^ p ≤ n → n < 2 ^ k → p < k
less_exponent p k n le lt = elim (Bool-cases (leb k p)) [
  | inl y ↦ absurd (omega (arith, le, lt, pow_mono k p (ground arith)))
  | inr off ↦ ground arith
]

power_of_two : (n : ℕ) → is_power_of_two n ≡ true → (i : ℕ) × (n ≡ 2 ^ i)
unfolding is_power_of_two
power_of_two n h = power_of 64 n h

-- The largest class whose cells are no larger than the block, for the class that the code finds.
floor_class-fits : (n : ℕ) → 0 < n → n ≤ 2 ^ 63 → (p : ℕ) × (floor_class n ≡ done p) × (2 ^ p ≤ n)
floor_class-fits n pos le =
    let l = log_ceil n in
    let (above, low) = ceil_from-bounds 63 0 n le (inl refl) in
    elim (Bool-cases (is_power_of_two n)) [
      | inl y ↦ (l, rw y refl, exact l (power_of_two n y) low)
      | inr off ↦ elim low [
        | inl z ↦ absurd (one l above z off)
        | inr lt ↦ (
          l - 1,
          rw
              (
                off,
                le→leb 1 l (elim (Bool-cases (leb 1 l)) [
                  | inl y ↦ ground arith
                  | inr less ↦ absurd (one l above (ground arith) off)
                ]),
              )
              refl,
          omega (arith, lt),
        )
      ]
    ]
  where
    exact : (l : ℕ) → (i : ℕ) × (n ≡ 2 ^ i) → (l ≡ 0) ⊎ (2 ^ (l - 1) < n) → 2 ^ l ≤ n
    exact l (i, e) (inl z) = rw z (omega (arith, pos))
    exact l (i, e) (inr lt) =
        let less : l - 1 < i = less_exponent (l - 1) i (2 ^ (l - 1)) (omega arith) (rw e at lt) in
        omega (arith, e, pow_mono l i (omega (arith, less)))

    one : (l : ℕ) → n ≤ 2 ^ l → l ≡ 0 → is_power_of_two n ≡ false → ⊥
    one l above z off =
        let small : n ≤ 1 = rw z at above in
        let e : n ≡ 2 ^ 0 = omega (arith, small, pos) in
        cc (off, ap is_power_of_two e, is_power_of_two-pow 0 (omega arith))

-- These cells lie one after the other between the two addresses, each aligned to its size.
abbrev pub Placed : ℕ → ℕ → List (ℕ × ℕ) → Type 0
Placed from end [] = from ≤ end
Placed from end ((sc, x) ∷ cells) = (from ≤ x) × (x % 2 ^ sc ≡ 0) × Placed (x + 2 ^ sc) end cells

Placed-earlier :
    (from from' end : ℕ) (cells : List (ℕ × ℕ))
    → from' ≤ from
    → Placed from end cells
    → Placed from' end cells
Placed-earlier from from' end [] le p = omega (arith, le, p)
Placed-earlier from from' end ((sc, x) ∷ cells) le p = (omega (arith, le, p.0), p.1, p.2)

zeros_below_64 : (n : ℕ) → 0 < n → n < 2 ^ 64 → trailing_zeros n < 64
zeros_below_64 n pos lt = elim (Bool-cases (ltb (trailing_zeros n) 64)) [
  | inl y ↦ ground arith
  | inr off ↦
      let e : n % 2 ^ 64 ≡ 0 =
        mod_pow_less 64 (trailing_zeros n) n (ground arith) (zeros_divide 64 n) in
      absurd (omega (arith, pos, sym (mod-eq_of_lt lt) ∙ e))
]

-- A round: the class that the code finds fits what is left, and the cell is aligned to its size.
round_class :
    (cursor left : ℕ)
    → 0 < left
    → left ≤ 2 ^ 63
    → (p : ℕ) × (floor_class (min (2 ^ trailing_zeros cursor) left) ≡ done p)
      × (2 ^ p ≤ min (2 ^ trailing_zeros cursor) left)
      × (cursor % 2 ^ p ≡ 0)
round_class cursor left pos le =
    let z = trailing_zeros cursor in
    let (p, e, fits) =
      floor_class-fits (min (2 ^ z) left) (omega (arith, pos, pow_pos z)) (omega (arith, le)) in
    let below : p < suc z =
      less_exponent p (suc z) (2 ^ p) (omega arith)
        (omega (arith, fits, two-pow-succ z, pow_pos z)) in
    (p, e, fits, mod_pow_less p z cursor (omega (arith, below)) (zeros_divide 64 cursor))

module _ {R : Type 0} (log_heap_size : ℕ) (acquire_pages : ℕ → R → Option (ℕ × ℕ) × R)
    (release_pages : ℕ → ℕ → R → R) where
  abbrev pub push_all : List (ℕ × ℕ) → FreeListAllocator R → Outcome (FreeListAllocator R)
  push_all [] a = done a
  push_all ((sc, x) ∷ cells) a = do
    a₁ ← push_cell log_heap_size acquire_pages release_pages sc x a
    push_all cells a₁

  push_in_table :
      (sc x : ℕ) (a : FreeListAllocator R)
      → sc < log_heap_size + 1
      → (a₁ : FreeListAllocator R) × (push_cell log_heap_size acquire_pages release_pages sc x a
          ≡ done a₁)
  unfolding push_cell
  push_in_table sc x a lt = (
    record a { memory = update a.memory x (a.cells sc); cells = update a.cells sc x },
    rw (lt→ltb sc (log_heap_size + 1) lt) refl,
  )

  -- One round, for what its calls give.
  refill_round :
      (f cursor end p : ℕ) (a a₁ : FreeListAllocator R)
      → cursor < end
      → ltb (trailing_zeros cursor) 64 ≡ true
      → 0 < min (2 ^ trailing_zeros cursor) (end - cursor)
      → floor_class (min (2 ^ trailing_zeros cursor) (end - cursor)) ≡ done p
      → word_and 64 cursor (2 ^ p - 1) ≡ 0
      → push_cell log_heap_size acquire_pages release_pages p cursor a ≡ done a₁
      → cursor + min (2 ^ trailing_zeros cursor) (end - cursor) < 2 ^ 64
      → refill log_heap_size acquire_pages release_pages (suc f) cursor end a
        ≡ refill log_heap_size acquire_pages release_pages f
            (cursor + min (2 ^ trailing_zeros cursor) (end - cursor))
            end
            a₁
  unfolding refill
  refill_round f cursor end p a a₁ less zeros some_left e al e₁ top =
      let n = min (2 ^ trailing_zeros cursor) (end - cursor) in
      rw
        (
          lt→ltb cursor end less,
          zeros,
          le→leb cursor end (omega (arith, less)),
          lt→ltb 0 n some_left,
          e,
          al,
          e₁,
          lt→ltb (cursor + n) (2 ^ 64) top,
        )
        refl

  -- Cutting a range of new pages into cells ends without a panic, on fuel of more than its bytes: no
  -- assertion of the loop fails, and what it does is to push cells of the range, none of which
  -- overlaps another, each aligned to its size. The range does not start at address 0, lies in the
  -- words, and is smaller than the size class past the last.
  pub refill_lem :
      (f cursor end : ℕ) (a : FreeListAllocator R)
      → log_heap_size ≤ 62
      → 0 < cursor
      → cursor ≤ end
      → end < 2 ^ 64
      → end - cursor < f
      → end - cursor < 2 ^ (log_heap_size + 1)
      → (cells : List (ℕ × ℕ)) × (a' : FreeListAllocator R) × (refill log_heap_size acquire_pages
            release_pages f cursor end a
          ≡ done a')
        × (push_all cells a ≡ done a')
        × Placed cursor end cells
  unfolding refill
  refill_lem zero cursor end a lh pos le top fuel room = absurd (omega arith)
  refill_lem (suc f) cursor end a lh pos le top fuel room = elim (Bool-cases (ltb cursor end)) [
    | inr off ↦ ([], a, rw off refl, refl, le)
    | inl y ↦
        let z = trailing_zeros cursor in
        let left = end - cursor in
        let n = min (2 ^ z) left in
        let less : cursor < end = ground arith in
        let big : left ≤ 2 ^ 63 =
          omega (arith, room, pow_mono (log_heap_size + 1) 63 (omega arith)) in
        let (p, e, fits, al) = round_class cursor left (omega (arith, less)) big in
        let in_table = less_exponent p (log_heap_size + 1) left (omega (arith, fits)) room in
        let (a₁, e₁) = push_in_table p cursor a in_table in
        let zeros = lt→ltb z 64 (zeros_below_64 cursor pos (omega (arith, less, top))) in
        let some_left : 0 < n = omega (arith, less, pow_pos z) in
        let (cells, a', e₂, e₃, placed) =
          refill_lem f (cursor + n) end a₁ lh (omega (arith, pos)) (omega (arith, less)) top
            (omega (arith, some_left, fuel)) (omega (arith, room)) in
        (
          (p, cursor) ∷ cells,
          a',
          refill_round f cursor end p a a₁ less zeros some_left e
                (word_and-low 64 p cursor (
                    omega
                      (arith, less_exponent p 64 left (omega (arith, fits)) (omega (arith, big))))
                  ∙ al)
                e₁ (omega (arith, less, top))
              ∙ e₂,
          rw e₁ e₃,
          (
            omega arith,
            al,
            Placed-earlier (cursor + n) (cursor + 2 ^ p) end cells (omega (arith, fits)) placed,
          ),
        )
  ]
