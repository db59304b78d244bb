-- ===== src/Memory/Physical/Split.antt =====
-- The inner loop of `allocate_cell_slow`, which splits a cell down to the class that was asked for.
use sophon_rpi_cross.Base.{
  ℕ, zero, suc, ◌+◌, ◌-◌, ◌^◌, ◌%◌, ◌<◌, ◌≡◌, ◌≢◌, ◌⊎◌, ◌↔◌, inl, inr, refl, ap, ◌∙◌, subst, List,
  ◌∷◌, done, ◌==◌, ltb, update, arith, Bool-cases,
}
use native.Mathlib.Nat.{add-mod_right, two-pow-succ}
use sophon_rpi_cross.Memory.Powers.{mod_pow_less}
use sophon_rpi_cross.Memory.Physical.{PhysicalPageResource, num_size_class, size, split_down}
use sophon_rpi_cross.Memory.Physical.Lists.{Apart, Out, Keeps, Within, FreeAt, size_pos, push-Keeps}

-- The byte at `a` is free, or in the cell `x` of class `c`.
abbrev pub Covered : (ℕ → List ℕ) → ℕ → ℕ → ℕ → Type 0
Covered lists x c a = FreeAt lists a ⊎ Within x c a

push-Covered :
    (lists : ℕ → List ℕ) (x c a : ℕ) → FreeAt (update lists c (x ∷ lists c)) a → Covered lists x c a
push-Covered lists x c a (d, y, h, w) = elim (Bool-cases (c == d)) [
  | inl e ↦ elim (Bool-cases (x == y)) [
    | inl e' ↦ inr (ground arith)
    | inr n ↦ inl (d, y, ground arith, w)
  ]
  | inr n ↦ inl (d, y, ground arith, w)
]

Covered-push :
    (lists : ℕ → List ℕ) (x c a : ℕ) → Covered lists x c a → FreeAt (update lists c (x ∷ lists c)) a
Covered-push lists x c a (inl (d, y, h, w)) = (d, y, ground arith, w)
Covered-push lists x c a (inr w) = (c, x, ground arith, w)

-- A push makes free what was free and the cell, nothing else.
pub push_covers :
    (lists : ℕ → List ℕ) (x c a : ℕ) → FreeAt (update lists c (x ∷ lists c)) a ↔ Covered lists x c a
push_covers lists x c a = (push-Covered lists x c a, Covered-push lists x c a)

pub size-suc : (c : ℕ) → size (suc c) ≡ size c + size c
size-suc c =
    let e : suc c + 12 ≡ suc (c + 12) = omega arith in
    ap (λ (n : ℕ). 2 ^ n) e ∙ two-pow-succ (c + 12)

-- Both halves of a cell lie apart from what the cell lies apart from.
Out-upper : (lists : ℕ → List ℕ) (x c : ℕ) → Out x (suc c) lists → Out (x + size c) c lists
unfolding Out Apart
Out-upper lists x c o d y h = ground (arith, o d y h, size-suc c)

Out-lower :
    (lists : ℕ → List ℕ) (x c : ℕ)
    → Out x (suc c) lists
    → Out x c (update lists c ((x + size c) ∷ lists c))
unfolding Out Apart
Out-lower lists x c o d y h = ground (arith, o d y, size-suc c)

halves_cover :
    (lists : ℕ → List ℕ) (x c a : ℕ)
    → Covered (update lists c ((x + size c) ∷ lists c)) x c a ↔ Covered lists x (suc c) a
halves_cover lists x c a = (there, back)
  where
    there : Covered (update lists c ((x + size c) ∷ lists c)) x c a → Covered lists x (suc c) a
    there (inl f) = elim (push-Covered lists (x + size c) c a f) [
      | inl g ↦ inl g
      | inr w ↦ inr (omega (arith, w.0, size_pos c), omega (arith, w.1, size-suc c))
    ]
    there (inr w) = inr (w.0, omega (arith, w.1, size-suc c))

    back : Covered lists x (suc c) a → Covered (update lists c ((x + size c) ∷ lists c)) x c a
    back (inl f) = inl (Covered-push lists (x + size c) c a (inl f))
    back (inr w) = elim (Bool-cases (ltb a (x + size c))) [
      | inl lower ↦ inr (w.0, ground arith)
      | inr upper ↦
          inl (
            Covered-push lists (x + size c) c a
              (inr (ground arith, omega (arith, w.1, size-suc c))))
    ]

-- Splitting a cell that is apart from the free ones down by `n` classes does not panic. It leaves the
-- first cell of the smaller class apart from the free ones, and what is free or in that cell is what
-- was free or in the cell that was split.
pub split_down-Keeps :
    (n request x : ℕ) (r : PhysicalPageResource) (lists : ℕ → List ℕ)
    → Keeps r lists
    → Out x (request + n) lists
    → x ≢ 0
    → x % size (request + n) ≡ 0
    → request + n < num_size_class
    → (r' : PhysicalPageResource) × (lists' : ℕ → List ℕ) × (split_down n request x r ≡ done r')
      × Keeps r' lists'
      × Out x request lists'
      × (x % size request ≡ 0)
      × ((a : ℕ) → Covered lists' x request a ↔ Covered lists x (request + n) a)
unfolding split_down
split_down-Keeps zero request x r lists k o nz al lt =
    let e : request + 0 ≡ request = omega arith in
    (
      r,
      lists,
      refl,
      k,
      subst (λ c. Out x c lists) e o,
      subst (λ c. x % size c ≡ 0) e al,
      λ a. rw e ((λ h. h), (λ h. h)),
    )
split_down-Keeps (suc n) request x r lists k o nz al lt =
    let c = request + n in
    let e : request + suc n ≡ suc c = omega arith in
    let al' =
      mod_pow_less (c + 12) (suc c + 12) x (omega arith) (subst (λ c. x % size c ≡ 0) e al) in
    let o' = subst (λ c. Out x c lists) e o in
    let (r₁, e₁, k₁) =
      push-Keeps r lists (x + size c) c k (Out-upper lists x c o') (omega arith)
        (add-mod_right x (size c) ∙ al') (omega arith) in
    let (r₂, lists₂, e₂, k₂, o₂, al₂, cov) =
      split_down-Keeps n request x r₁ (update lists c ((x + size c) ∷ lists c)) k₁
        (Out-lower lists x c o') nz al' (omega arith) in
    (
      r₂,
      lists₂,
      (let back : request + suc n - 1 ≡ c = omega arith in rw (back, e₁) e₂),
      k₂,
      o₂,
      al₂,
      λ a. rw e (
        (λ h. (halves_cover lists x c a).0 ((cov a).0 h)),
        (λ h. (cov a).1 ((halves_cover lists x c a).1 h)),
      ),
    )
