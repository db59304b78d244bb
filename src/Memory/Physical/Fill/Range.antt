-- ===== src/Memory/Physical/Fill/Range.antt =====
-- `release_contiguous` makes a range of pages free, all of it and nothing else.
use sophon_rpi_cross.Base.{
  ℕ, zero, suc, ◌+◌, ◌-◌, ◌*◌, ◌/◌, ◌%◌, ◌^◌, ◌≤◌, ◌<◌, ◌≡◌, ◌≢◌, ◌⊎◌, ◌↔◌, inl, inr, refl, sym, ap,
  ◌∙◌, true, List, ◌∷◌, done, ◌==◌, ltb, update, count, arith, Bool-cases, lt→ltb, le→ltb, ltb→lt,
  ltb→le, ==_refl,
}
use native.Mathlib.Nat.{zero-mod, mod_self, add-mod, mod-mod}
use sophon_rpi_cross.Memory.Bits.{word_and}
use sophon_rpi_cross.Memory.Address.Alignment.{mask_in, pow_mono}
use sophon_rpi_cross.Memory.Powers.{mod_pow_less}
use sophon_rpi_cross.Memory.Physical.{PhysicalPageResource, size, release_cell, num_size_class}
use sophon_rpi_cross.Memory.Physical.Lists.{Apart, Out, Keeps, FreeAt, size_pos, push-Keeps}
use sophon_rpi_cross.Memory.Physical.Split.{Covered, push_covers}
use sophon_rpi_cross.Memory.Physical.Fill.{release_loop, release_contiguous, next_class}
use sophon_rpi_cross.Memory.Physical.Fill.Class.{next_class-Fits, checked_sub-done}

-- The range has no byte in common with a free cell.
unfoldable pub OutRange : ℕ → ℕ → (ℕ → List ℕ) → Type 0
OutRange start limit lists = (d y : ℕ) → 0 < count y (lists d) → (limit ≤ y) ⊎ (y + size d ≤ start)

-- Whole pages below 2 ^ 49, none of them the one at address 0.
pub record IsPages (start limit : ℕ) : Type 0 where
  pub start_aligned : start % 2 ^ 12 ≡ 0
  pub whole_pages : (limit - start) % 2 ^ 12 ≡ 0
  pub ordered : start ≤ limit
  pub below : limit < 2 ^ 49
  pub not_null : start ≢ 0

sum-mod : (a b m : ℕ) → a % m ≡ 0 → b % m ≡ 0 → (a + b) % m ≡ 0
sum-mod a b m e e' = add-mod a b m ∙ rw (e, e') (mod_zero m)
  where
    mod_zero : (m : ℕ) → 0 % m ≡ 0
    mod_zero m = zero-mod m

difference-mod : (a b m : ℕ) → (a + b) % m ≡ 0 → b % m ≡ 0 → a % m ≡ 0
difference-mod a b m e e' =
    let plain : a % m + b % m ≡ a % m = omega (arith, e') in
    sym (mod-mod a m) ∙ ap (λ (x : ℕ). x % m) (sym plain) ∙ sym (add-mod a b m) ∙ e

page_or_more : (n : ℕ) → n % 2 ^ 12 ≡ 0 → 0 < n → 2 ^ 12 ≤ n
page_or_more n e h = omega arith

size-page : (c : ℕ) → size c % 2 ^ 12 ≡ 0
size-page c = mod_pow_less 12 (c + 12) (size c) (omega arith) (mod_self (size c))

size-least : (c : ℕ) → 2 ^ 12 ≤ size c
size-least c = pow_mono 12 (c + 12) (omega arith)

module _ (start limit c : ℕ) (lists : ℕ → List ℕ) (fits : size c ≤ limit - start) where
  -- The next cell, and the rest of the range.
  Out-cell : start ≤ limit → OutRange start limit lists → Out start c lists
  unfolding Out Apart OutRange
  Out-cell le o d y h = ground (arith, o d y h)

  OutRange-rest :
      start ≤ limit
      → OutRange start limit lists
      → OutRange (start + size c) limit (update lists c (start ∷ lists c))
  unfolding OutRange
  OutRange-rest le o d y h = ground (arith, o d y)

  IsPages-rest : IsPages start limit → IsPages (start + size c) limit
  IsPages-rest p = record {
    start_aligned = sum-mod start (size c) (2 ^ 12) p.start_aligned (size-page c);
    whole_pages =
        difference-mod (limit - (start + size c)) (size c) (2 ^ 12)
          (let e : limit - (start + size c) + size c ≡ limit - start = omega (arith, p.ordered) in
            rw e p.whole_pages)
          (size-page c);
    ordered = omega (arith, p.ordered);
    below = p.below;
    not_null = λ e. p.not_null (omega (arith, e));
  }

  -- The bytes of the range are those of the cell and of the rest.
  range_covers :
      start ≤ limit
      → (lists' : ℕ → List ℕ)
      → ((a : ℕ)
          → FreeAt lists' a
            ↔ (FreeAt (update lists c (start ∷ lists c)) a ⊎ ((start + size c ≤ a) × (a < limit))))
      → (a : ℕ) → FreeAt lists' a ↔ (FreeAt lists a ⊎ ((start ≤ a) × (a < limit)))
  range_covers le lists' cov a = (there, back)
    where
      cell : FreeAt (update lists c (start ∷ lists c)) a ↔ Covered lists start c a
      cell = push_covers lists start c a

      there : FreeAt lists' a → FreeAt lists a ⊎ ((start ≤ a) × (a < limit))
      there f = elim ((cov a).0 f) [
        | inr w ↦ inr (omega (arith, w.0, size_pos c), w.1)
        | inl g ↦ elim (cell.0 g) [ inl old ↦ inl old | inr w ↦ inr (w.0, omega (arith, w.1)) ]
      ]

      back : FreeAt lists a ⊎ ((start ≤ a) × (a < limit)) → FreeAt lists' a
      back (inl f) = (cov a).1 (inl (cell.1 (inl f)))
      back (inr w) = elim (Bool-cases (ltb a (start + size c))) [
        | inl y ↦ (cov a).1 (inl (cell.1 (inr (w.0, ltb→lt a (start + size c) y))))
        | inr off ↦ (cov a).1 (inr (ltb→le a (start + size c) off, w.1))
      ]

-- One round of the loop, from the class of its cell.
release_loop-round :
    (f start limit n c : ℕ) (r r' : PhysicalPageResource)
    → start < limit
    → limit < 2 ^ 49
    → next_class start n ≡ done c
    → start % size c ≡ 0
    → c < num_size_class
    → start + size c ≤ limit
    → release_cell start c r ≡ done r'
    → release_loop (suc f) start limit n r
      ≡ release_loop f (start + size c) limit (limit - (start + size c)) r'
unfolding release_loop
release_loop-round f start limit n c r r' lt below e al small within pushed =
    let aligned : (word_and 64 start (size c - 1) == 0) ≡ true =
      rw (mask_in (c + 12) start (omega arith), al) refl in
    rw
      (
        lt→ltb start limit lt,
        e,
        lt→ltb (start + size c) (2 ^ 64) (omega arith),
        aligned,
        le→ltb limit (start + size c) within,
        pushed,
        checked_sub-done limit (start + size c) within,
      )
      refl

release_loop-Keeps :
    (f start limit : ℕ) (r : PhysicalPageResource) (lists : ℕ → List ℕ)
    → Keeps r lists
    → IsPages start limit
    → OutRange start limit lists
    → limit - start < f * 2 ^ 12
    → (r' : PhysicalPageResource) × (lists' : ℕ → List ℕ) × (release_loop f start limit
          (limit - start)
          r
        ≡ done r')
      × Keeps r' lists'
      × ((a : ℕ) → FreeAt lists' a ↔ (FreeAt lists a ⊎ ((start ≤ a) × (a < limit))))
unfolding release_loop
release_loop-Keeps zero start limit r lists k p o enough = absurd (omega arith)
release_loop-Keeps (suc f) start limit r lists k p o enough = elim (Bool-cases (ltb start limit)) [
  | inr off ↦
      let same : start ≡ limit = omega (arith, p.ordered, ltb→le start limit off) in
      (
        r,
        lists,
        (let equal : (start == limit) ≡ true = rw same (==_refl limit) in rw (off, equal) refl),
        k,
        λ a. (inl, λ h. elim h [ inl g ↦ g | inr w ↦ absurd (omega (arith, w.0, w.1, same)) ]),
      )
  | inl y ↦
      let lt = ltb→lt start limit y in
      let big = page_or_more (limit - start) p.whole_pages (omega arith) in
      let (c, e, fit) =
        next_class-Fits start (limit - start) p.start_aligned big (omega (arith, p.below)) in
      let (r₁, e₁, k₁) =
        push-Keeps r lists start c k (Out-cell start limit c lists fit.fits p.ordered o) p.not_null
          fit.on_size fit.in_table in
      let pushed : release_cell start c r ≡ done r₁ = unfold release_cell in e₁ in
      let (r₂, lists₂, e₂, k₂, cov) =
        release_loop-Keeps f (start + size c) limit r₁ (update lists c (start ∷ lists c)) k₁
          (IsPages-rest start limit c lists fit.fits p)
          (OutRange-rest start limit c lists fit.fits p.ordered o) (omega (arith, size-least c)) in
      (
        r₂,
        lists₂,
        release_loop-round f start limit (limit - start) c r r₁ lt p.below e fit.on_size
              fit.in_table (omega (arith, fit.fits, p.ordered)) pushed
            ∙ e₂,
        k₂,
        range_covers start limit c lists fit.fits p.ordered lists₂ cov,
      )
]

-- Releasing whole pages, below 2 ^ 49 and none of them the one at address 0, that have no byte in
-- common with free memory ends, does not panic, and makes exactly their bytes free besides those that
-- were.
pub release_contiguous_lem :
    (start n : ℕ) (r : PhysicalPageResource) (lists : ℕ → List ℕ)
    → Keeps r lists
    → IsPages start (start + n)
    → OutRange start (start + n) lists
    → (r' : PhysicalPageResource) × (lists' : ℕ → List ℕ) × (release_contiguous start n r ≡ done r')
      × Keeps r' lists'
      × ((a : ℕ) → FreeAt lists' a ↔ (FreeAt lists a ⊎ ((start ≤ a) × (a < start + n))))
unfolding release_contiguous
release_contiguous_lem start n r lists k p o =
    let whole : start + n - start ≡ n = omega arith in
    let (r', lists', e, k', cov) =
      release_loop-Keeps (suc (n / 2 ^ 12)) start (start + n) r lists k p o (omega arith) in
    (r', lists', rw (lt→ltb (start + n) (2 ^ 64) (omega (arith, p.below))) (rw whole at e), k', cov)
