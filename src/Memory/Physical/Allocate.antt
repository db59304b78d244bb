-- ===== src/Memory/Physical/Allocate.antt =====
-- Allocation and release of cells by the physical page allocator, and what they do to free memory.
use sophon_rpi_cross.Base.{
  ℕ, zero, suc, ◌+◌, ◌-◌, ◌≤◌, ◌%◌, ◌<◌, ◌≡◌, ◌≢◌, ◌⊎◌, ◌↔◌, inl, inr, refl, sym, subst, Option,
  none, some, List, [], ◌∷◌, Outcome, done, ◌==◌, update, arith, Bool-cases,
}
use sophon_rpi_cross.Memory.Physical.{
  size, PhysicalPageResource, num_size_class, search, allocate_cell_slow, allocate_cell,
  release_cell,
}
use sophon_rpi_cross.Memory.Physical.Lists.{Out, Keeps, FreeAt, push-Keeps, pop-empty, pop-Keeps}
use sophon_rpi_cross.Memory.Physical.Split.{Covered, push_covers, split_down-Keeps}

List-cases : (xs : List ℕ) → (xs ≡ []) ⊎ ((y : ℕ) × (ys : List ℕ) × (xs ≡ y ∷ ys))
List-cases [] = inl refl
List-cases (y ∷ ys) = inr (y, ys, refl)

-- What was free is what is still free, and the cell that was popped.
pop_covers :
    (lists : ℕ → List ℕ) (x c a : ℕ) (xs : List ℕ)
    → lists c ≡ x ∷ xs
    → Covered (update lists c xs) x c a ↔ FreeAt lists a
pop_covers lists x c a xs e = (there, back)
  where
    there : Covered (update lists c xs) x c a → FreeAt lists a
    there (inl (d, y, h, w)) = (d, y, ground arith, w)
    there (inr w) = (c, x, ground arith, w)

    back : FreeAt lists a → Covered (update lists c xs) x c a
    back (d, y, h, w) = elim (Bool-cases (c == d)) [
      | inr n ↦ inl (d, y, ground arith, w)
      | inl e' ↦ elim (Bool-cases (x == y)) [
        | inl e'' ↦ inr (ground arith)
        | inr n ↦ inl (d, y, ground arith, w)
      ]
    ]

-- A cell `x` of the class was handed out: the resource keeps what is still free, `x` has no byte in
-- common with it, and each byte that was free is either free still or in `x`.
pub record HandedOut (request : ℕ) (lists : ℕ → List ℕ) (x : ℕ) (r' : PhysicalPageResource)
    (lists' : ℕ → List ℕ) : Type 0 where
  pub keeps : Keeps r' lists'
  pub apart : Out x request lists'
  pub not_null : x ≢ 0
  pub on_size : x % size request ≡ 0
  pub same_bytes : (a : ℕ) → Covered lists' x request a ↔ FreeAt lists a

-- A cell was handed out, or there was none of the class or a larger one.
abbrev pub Allocation :
    ℕ → (ℕ → List ℕ) → PhysicalPageResource → Outcome (Option ℕ × PhysicalPageResource) → Type 0
Allocation request lists r result =
    ((x : ℕ) × (r' : PhysicalPageResource) × (lists' : ℕ → List ℕ) × (result ≡ done (some x, r'))
      × HandedOut request lists x r' lists')
    ⊎ ((result ≡ done (none, r)) × ((d : ℕ) → request ≤ d → d < num_size_class → lists d ≡ []))

search-Keeps :
    (n request c : ℕ) (r : PhysicalPageResource) (lists : ℕ → List ℕ)
    → Keeps r lists
    → request ≤ c
    → c + n ≡ num_size_class
    → ((d : ℕ) → request ≤ d → d < c → lists d ≡ [])
    → Allocation request lists r (search n request c r)
unfolding search
search-Keeps zero request c r lists k le e none_below =
    inr (refl, λ d ge lt. none_below d ge (omega arith))
search-Keeps (suc n) request c r lists k le e none_below = elim (List-cases (lists c)) [
  | inl empty ↦
      let p = pop-empty r lists c k empty (omega arith) in
      rw p (
        search-Keeps n request (c + 1) r lists k (omega arith) (omega arith) (λ d ge lt.
          elim (Bool-cases (c == d)) [
            | inl e' ↦ ground arith
            | inr ne ↦ none_below d ge (ground arith)
          ]))
  | inr (x, xs, top) ↦
      let (r₁, e₁, k₁, o₁, nz, al) = pop-Keeps r lists c x xs k top (omega arith) in
      let steps : request + (c - request) ≡ c = omega arith in
      let (r₂, lists₂, e₂, k₂, o₂, al₂, cov) =
        split_down-Keeps (c - request) request x r₁ (update lists c xs) k₁
          (subst (λ d. Out x d (update lists c xs)) (sym steps) o₁) nz
          (subst (λ d. x % size d ≡ 0) (sym steps) al) (omega arith) in
      inl (
        x,
        r₂,
        lists₂,
        (rw (e₁, e₂) refl),
        record {
          keeps = k₂;
          apart = o₂;
          not_null = nz;
          on_size = al₂;
          same_bytes = λ a. (
            (λ h.
                (pop_covers lists x c a xs top).0
                  (subst (λ d. Covered (update lists c xs) x d a) steps ((cov a).0 h))),
            (λ h. (cov a).1 (
                subst (λ d. Covered (update lists c xs) x d a) (sym steps)
                  ((pop_covers lists x c a xs top).1 h))),
          );
        },
      )
]

-- `allocate_cell` does not panic. It hands out a cell of the class that was asked for, in memory that
-- was free and is not free any more, and keeps all other free memory free; or it returns `None`,
-- changes nothing, and there is no free cell of this class or a larger one.
pub allocate_cell_lem :
    (request : ℕ) (r : PhysicalPageResource) (lists : ℕ → List ℕ)
    → Keeps r lists
    → request < num_size_class
    → Allocation request lists r (allocate_cell request r)
unfolding allocate_cell
allocate_cell_lem request r lists k lt = elim (List-cases (lists request)) [
  | inl empty ↦ rw (pop-empty r lists request k empty lt) (
      unfold allocate_cell_slow in
      search-Keeps (num_size_class - request) request request r lists k (omega arith) (omega arith)
        (λ d ge lt'. absurd (omega arith)))
  | inr (x, xs, top) ↦
      let (r₁, e₁, k₁, o₁, nz, al) = pop-Keeps r lists request x xs k top lt in
      inl (
        x,
        r₁,
        update lists request xs,
        (rw e₁ refl),
        record {
          keeps = k₁;
          apart = o₁;
          not_null = nz;
          on_size = al;
          same_bytes = λ a. pop_covers lists x request a xs top;
        },
      )
]

-- Releasing a cell that has no byte in common with free memory does not panic, and makes free what was
-- free and the cell.
pub release_cell_lem :
    (x c : ℕ) (r : PhysicalPageResource) (lists : ℕ → List ℕ)
    → Keeps r lists
    → Out x c lists
    → x ≢ 0
    → x % size c ≡ 0
    → c < num_size_class
    → (r' : PhysicalPageResource) × (lists' : ℕ → List ℕ) × (release_cell x c r ≡ done r')
      × Keeps r' lists'
      × ((a : ℕ) → FreeAt lists' a ↔ Covered lists x c a)
unfolding release_cell
release_cell_lem x c r lists k o nz al lt =
    let (r', e, k') = push-Keeps r lists x c k o nz al lt in
    (r', update lists c (x ∷ lists c), e, k', λ a. push_covers lists x c a)

-- A cell that was allocated can be released: afterwards the free bytes are those from before.
pub release-allocate :
    (request x : ℕ) (r r' : PhysicalPageResource) (lists lists' : ℕ → List ℕ)
    → HandedOut request lists x r' lists'
    → request < num_size_class
    → (r'' : PhysicalPageResource) × (lists'' : ℕ → List ℕ) × (release_cell x request r' ≡ done r'')
      × Keeps r'' lists''
      × ((a : ℕ) → FreeAt lists'' a ↔ FreeAt lists a)
release-allocate request x r r' lists lists' h lt =
    let (r'', lists'', e, k, cov) =
      release_cell_lem x request r' lists' h.keeps h.apart h.not_null h.on_size lt in
    (
      r'',
      lists'',
      e,
      k,
      λ a. ((λ f. (h.same_bytes a).0 ((cov a).0 f)), (λ f. (cov a).1 ((h.same_bytes a).1 f))),
    )
