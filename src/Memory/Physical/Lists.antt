-- ===== src/Memory/Physical/Lists.antt =====
-- What the table and the memory of the physical page allocator stand for: a list of free cells for
-- each size class.
use sophon_rpi_cross.Base.{
  ◌%◌, ℕ, ◌+◌, ◌≤◌, ◌<◌, ◌≡◌, ◌≢◌, ◌⊎◌, inl, inr, refl, none, some, List, [], ◌∷◌, done, ◌==◌,
  update, count, arith, Bool-cases, subst,
}
use sophon_rpi_cross.Memory.Bits.{pow_pos}
use sophon_rpi_cross.Memory.Physical.{PhysicalPageResource, num_size_class, size, push, pop}

-- The cells `xs` are linked from `head` on.
abbrev pub Chain : (ℕ → ℕ) → ℕ → List ℕ → Type 0
Chain memory head [] = head ≡ 0
Chain memory head (x ∷ xs) = (head ≡ x) × (x ≢ 0) × Chain memory (memory x) xs

unfoldable pub Apart : ℕ → ℕ → ℕ → ℕ → Type 0
Apart x c y d = (x + size c ≤ y) ⊎ (y + size d ≤ x)

-- The cell `x` of class `c` has no byte in common with a free cell.
unfoldable pub Out : ℕ → ℕ → (ℕ → List ℕ) → Type 0
Out x c lists = (d y : ℕ) → 0 < count y (lists d) → Apart x c y d

-- The resource keeps these lists. Every cell is aligned to its size, and no two have a byte in common.
pub record Keeps (r : PhysicalPageResource) (lists : ℕ → List ℕ) : Type 0 where
  pub chain : (c : ℕ) → Chain r.memory (r.table c) (lists c)
  pub once : (c x : ℕ) → count x (lists c) ≤ 1
  pub aligned : (c x : ℕ) → 0 < count x (lists c) → x % size c ≡ 0
  pub disjoint :
      (c x d y : ℕ)
      → 0 < count x (lists c)
      → 0 < count y (lists d)
      → ((x ≡ y) × (c ≡ d)) ⊎ Apart x c y d

abbrev pub Within : ℕ → ℕ → ℕ → Type 0
Within x c a = (x ≤ a) × (a < x + size c)

-- The byte at `a` is free.
abbrev pub FreeAt : (ℕ → List ℕ) → ℕ → Type 0
FreeAt lists a = (c : ℕ) × (x : ℕ) × (0 < count x (lists c)) × Within x c a

pub size_pos : (c : ℕ) → 0 < size c
size_pos c = pow_pos (c + 12)

-- A store into a cell that is not in a list leaves the list.
Chain-update :
    (m : ℕ → ℕ) (h y v : ℕ) (xs : List ℕ)
    → count y xs ≡ 0
    → Chain m h xs
    → Chain (update m y v) h xs
Chain-update m h y v [] n ch = ch
Chain-update m h y v (x ∷ xs) n ch =
    let here : update m y v x ≡ m x = ground arith in
    (ch.0, ch.1, rw here (Chain-update m (m x) y v xs (ground arith) ch.2))

Out-not_free : (x c : ℕ) (lists : ℕ → List ℕ) (d : ℕ) → Out x c lists → count x (lists d) ≡ 0
unfolding Out Apart
Out-not_free x c lists d o = ground (arith, o d x, size_pos c, size_pos d)

push-Chain :
    (r : PhysicalPageResource) (lists : ℕ → List ℕ) (x c d : ℕ)
    → Chain r.memory (r.table d) (lists d)
    → Chain r.memory (r.table c) (lists c)
    → count x (lists d) ≡ 0
    → count x (lists c) ≡ 0
    → x ≢ 0
    → Chain (update r.memory x (r.table c)) (update r.table c x d) (update lists c (x ∷ lists c) d)
push-Chain r lists x c d ch ch' n n' nz = elim (Bool-cases (c == d)) [
  | inl y ↦
      let here : update r.memory x (r.table c) x ≡ r.table c = ground arith in
      rw y (refl, nz, rw here (Chain-update r.memory (r.table c) x (r.table c) (lists c) n' ch'))
  | inr n₀ ↦ rw n₀ (Chain-update r.memory (r.table d) x (r.table c) (lists d) n ch)
]

push-disjoint :
    (r : PhysicalPageResource) (lists : ℕ → List ℕ) (x c d y e z : ℕ)
    → Keeps r lists
    → Out x c lists
    → 0 < count y (update lists c (x ∷ lists c) d)
    → 0 < count z (update lists c (x ∷ lists c) e)
    → ((y ≡ z) × (d ≡ e)) ⊎ Apart y d z e
unfolding Out Apart
push-disjoint r lists x c d y e z k o h h' = ground (arith, k.disjoint d y e z, o d y, o e z)

push-aligned :
    (r : PhysicalPageResource) (lists : ℕ → List ℕ) (x c d y : ℕ)
    → Keeps r lists
    → x % size c ≡ 0
    → 0 < count y (update lists c (x ∷ lists c) d)
    → y % size d ≡ 0
push-aligned r lists x c d y k al h = elim (Bool-cases (c == d)) [
  | inl e ↦ elim (Bool-cases (x == y)) [
    | inl e' ↦
        (let same : x ≡ y = ground arith in
          let class : c ≡ d = ground arith in
          subst (λ z. z % size d ≡ 0) same (subst (λ b. x % size b ≡ 0) class al))
    | inr n ↦ k.aligned d y (ground arith)
  ]
  | inr n ↦ k.aligned d y (ground arith)
]

pop-aligned :
    (r : PhysicalPageResource) (lists : ℕ → List ℕ) (c x d y : ℕ) (xs : List ℕ)
    → Keeps r lists
    → lists c ≡ x ∷ xs
    → 0 < count y (update lists c xs d)
    → y % size d ≡ 0
pop-aligned r lists c x d y xs k e h = k.aligned d y (ground arith)

-- A cell that has no byte in common with a free one can be pushed.
pub push-Keeps :
    (r : PhysicalPageResource) (lists : ℕ → List ℕ) (x c : ℕ)
    → Keeps r lists
    → Out x c lists
    → x ≢ 0
    → x % size c ≡ 0
    → c < num_size_class
    → (r' : PhysicalPageResource) × (push x c r ≡ done r') × Keeps r' (update lists c (x ∷ lists c))
unfolding push
push-Keeps r lists x c k o nz al lt = (
  record { table = update r.table c x; memory = update r.memory x (r.table c) },
  ground arith,
  record {
    chain = λ d.
        push-Chain r lists x c d (k.chain d) (k.chain c) (Out-not_free x c lists d o)
          (Out-not_free x c lists c o) nz;
    once = λ d y. ground (arith, k.once d y, Out-not_free x c lists d o);
    aligned = λ d y h. push-aligned r lists x c d y k al h;
    disjoint = λ d y e z h h'. push-disjoint r lists x c d y e z k o h h';
  },
)

pub pop-empty :
    (r : PhysicalPageResource) (lists : ℕ → List ℕ) (c : ℕ)
    → Keeps r lists
    → lists c ≡ []
    → c < num_size_class
    → pop c r ≡ done (none, r)
unfolding pop
pop-empty r lists c k e lt =
    let ch : r.table c ≡ 0 = subst (Chain r.memory (r.table c)) e (k.chain c) in ground arith

pop-Chain :
    (r : PhysicalPageResource) (lists : ℕ → List ℕ) (c d v : ℕ) (xs : List ℕ)
    → Chain r.memory (r.table d) (lists d)
    → Chain r.memory v xs
    → Chain r.memory (update r.table c v d) (update lists c xs d)
pop-Chain r lists c d v xs ch ch' = elim (Bool-cases (c == d)) [
  | inl y ↦ rw y ch'
  | inr n ↦ rw n ch
]

-- Where there is a free cell of the class, `pop` takes the first one off the list, and it has no byte
-- in common with the cells that are still free.
pub pop-Keeps :
    (r : PhysicalPageResource) (lists : ℕ → List ℕ) (c x : ℕ) (xs : List ℕ)
    → Keeps r lists
    → lists c ≡ x ∷ xs
    → c < num_size_class
    → (r' : PhysicalPageResource) × (pop c r ≡ done (some x, r'))
      × Keeps r' (update lists c xs)
      × Out x c (update lists c xs)
      × (x ≢ 0)
      × (x % size c ≡ 0)
unfolding pop Out
pop-Keeps r lists c x xs k e lt =
    let ch = subst (Chain r.memory (r.table c)) e (k.chain c) in
    let next : Chain r.memory (r.memory (r.table c)) xs = rw ch.0 ch.2 in
    (
      record r { table = update r.table c (r.memory (r.table c)) },
      pops r c x lt ch.0 ch.1,
      record {
        chain = λ d. pop-Chain r lists c d (r.memory (r.table c)) xs (k.chain d) next;
        once = λ d y. ground (arith, k.once d y);
        aligned = λ d y h. pop-aligned r lists c x d y xs k e h;
        disjoint = λ d y e' z h h'. ground (arith, k.disjoint d y e' z);
      },
      λ d y h. ground (arith, k.disjoint c x d y, k.once c x),
      ch.1,
      k.aligned c x (ground arith),
    )
  where
    pops :
        (r : PhysicalPageResource) (c x : ℕ)
        → c < num_size_class
        → r.table c ≡ x
        → x ≢ 0
        → pop c r ≡ done (some x, record r { table = update r.table c (r.memory (r.table c)) })
    pops r c x lt h nz = ground arith
