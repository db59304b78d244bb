-- ===== src/Memory/Tables/Grow.antt =====
-- Memory in which `map` has added an empty page table, and the frames that it takes for tables.
use sophon_rpi_cross.Base.{
  ℕ, zero, suc, ◌+◌, ◌*◌, ◌^◌, ◌%◌, ◌≤◌, ◌<◌, ◌≡◌, ◌≢◌, ◌⊎◌, inl, inr, sym, subst, ap, ◌∙◌, true,
  false, Option, some, ◌==◌, update, arith, Bool-cases, ==→eq,
}
use sophon_rpi_cross.Memory.Page.{size4k}
use sophon_rpi_cross.Memory.Entry.{address, is_block, is_empty, present}
use sophon_rpi_cross.Memory.Entry.Words.{EntryOf}
use sophon_rpi_cross.Memory.Tables.{Memory, get_index, get_next_table, store}
use sophon_rpi_cross.Memory.Tables.Index.{Level, Level-pos}
use sophon_rpi_cross.Memory.Tables.Walk.{Shaped, next-table, translate_at, at_empty, at_next}
use sophon_rpi_cross.Memory.Tables.Agree.{Alike}

-- The next `n` frames that the allocator hands out are frames of memory, are no tables, and differ.
abbrev pub Supply : {A : Type 0} → (A → Option (ℕ × A)) → ℕ → (ℕ → ℕ) → A → Type 0
Supply alloc zero level s = Unit
Supply {A = A} alloc (suc n) level s =
    (f : ℕ) × (s' : A) × (alloc s ≡ some (f, s'))
    × (f % 2 ^ 12 ≡ 0)
    × (f < 2 ^ 48)
    × (level f ≡ 0)
    × Supply alloc n (update level f 1) s'

module _ {A : Type 0} (alloc : A → Option (ℕ × A)) where
  pub Supply-mono :
      (n : ℕ) (level level' : ℕ → ℕ) (s : A)
      → ((t : ℕ) → level t ≡ 0 → level' t ≡ 0)
      → Supply alloc n level s
      → Supply alloc n level' s
  Supply-mono zero level level' s h sup = tt
  Supply-mono (suc n) level level' s h (f, s', e, al, lt, z, rest) = (
    f,
    s',
    e,
    al,
    lt,
    h f z,
    Supply-mono n (update level f 1) (update level' f 1) s' (λ t z'. ground (arith, h t)) rest,
  )

  pub Supply-less :
      (n : ℕ) (level : ℕ → ℕ) (s : A) → Supply alloc (suc n) level s → Supply alloc n level s
  Supply-less zero level s sup = tt
  Supply-less (suc n) level s (f, s', e, al, lt, z, rest) =
      (f, s', e, al, lt, z, Supply-less n (update level f 1) s' rest)

-- Memory with an empty table at `f` that the entry `i` of `t` points to.
abbrev pub grown : Memory → ℕ → ℕ → ℕ → ℕ → Memory
grown m f t i e = store (update m f (λ j. 0)) t i e

grown-entry : (m : Memory) (f t i e : ℕ) → grown m f t i e t i ≡ e
grown-entry m f t i e = ground arith

grown-fresh : (m : Memory) (f t i e j : ℕ) → t ≢ f → grown m f t i e f j ≡ 0
grown-fresh m f t i e j ne = ground arith

grown-other :
    (m : Memory) (f t i e t' j : ℕ) → t' ≢ f → (t' ≢ t) ⊎ (j ≢ i) → grown m f t i e t' j ≡ m t' j
grown-other m f t i e t' j nf ne = ground (arith, ne)

-- Which entry of memory with a new table it is.
grown-cases :
    (m : Memory) (f t i e t' j : ℕ)
    → t ≢ f
    → ((t' ≡ f) × (grown m f t i e t' j ≡ 0))
      ⊎ (((t' ≢ f) × (t' ≡ t) × (j ≡ i) × (grown m f t i e t' j ≡ e))
          ⊎ ((t' ≢ f) × (grown m f t i e t' j ≡ m t' j)))
grown-cases m f t i e t' j ne = ground arith

module _ (m : Memory) (root : ℕ) (level place : ℕ → ℕ) (shape : Shaped m root level place)
    (f t i e l : ℕ) (fresh : level f ≡ 0) (page : f % 2 ^ 12 ≡ 0) (at : level t ≡ suc l)
    (low : Level l) (entry : EntryOf size4k f e) (old : is_empty (m t i) ≡ true) where
  different : t ≢ f
  different h = omega (arith, ap level h)

  grown_below :
      (t' j : ℕ)
      → j < 512
      → 2 ≤ update level f l t'
      → is_empty (grown m f t i e t' j) ≡ false
      → is_block (grown m f t i e t' j) ≡ false
      → (present (grown m f t i e t' j) ≡ true)
        × (suc (update level f l (address (grown m f t i e t' j))) ≡ update level f l t')
        × (update place f (place t * 512 + i) (address (grown m f t i e t' j))
            ≡ update place f (place t * 512 + i) t' * 512 + j)
  grown_below t' j lt two n b = elim (grown-cases m f t i e t' j different) [
    | inl (same, z) ↦ absurd (cc (ap is_empty z, n))
    | inr (inl (nf, same, here, w)) ↦
        rw (w, entry.points, same, here)
          (entry.is_there, ground (arith, at, different), ground (arith, different))
    | inr (inr (nf, w)) ↦
        let same_level : 2 ≤ level t' = ground (arith, two, nf) in
        let old =
          shape.below t' j lt same_level (sym (ap is_empty w) ∙ n) (sym (ap is_block w) ∙ b) in
        let away : address (m t' j) ≢ f =
          λ h. omega (arith, old.1, ap level h, fresh, same_level) in
        rw w (old.0, ground (arith, away, nf, old.1), ground (arith, away, nf, old.2))
  ]

  grown_no_block :
      (t' j : ℕ)
      → j < 512
      → update level f l t' ≡ 4
      → is_empty (grown m f t i e t' j) ≡ false
      → is_block (grown m f t i e t' j) ≡ false
  grown_no_block t' j lt four n = elim (grown-cases m f t i e t' j different) [
    | inl (same, z) ↦ absurd (cc (ap is_empty z, n))
    | inr (inl (nf, same, here, w)) ↦ ap is_block w ∙ entry.block
    | inr (inr (nf, w)) ↦
        let same_four : level t' ≡ 4 = ground (arith, four, nf) in
        ap is_block w ∙ shape.no_block t' j lt same_four (sym (ap is_empty w) ∙ n)
  ]

  grown_aligned : (t' : ℕ) → update level f l t' ≢ 0 → t' % 2 ^ 12 ≡ 0
  grown_aligned t' nz = elim (Bool-cases (f == t')) [
    | inl y ↦ subst (λ (x : ℕ). x % 2 ^ 12 ≡ 0) (==→eq f t' y) page
    | inr n ↦ shape.aligned t' (λ z. nz (rw n z))
  ]

  -- The tables keep their shape.
  pub grown-Shaped :
      Shaped (grown m f t i e) root (update level f l) (update place f (place t * 512 + i))
  grown-Shaped = record {
    root_level = ground (arith, shape.root_level);
    root_place = ground (arith, shape.root_level, shape.root_place);
    aligned = grown_aligned;
    below = grown_below;
    no_block = grown_no_block;
  }

  pub grown_next : get_next_table (grown m f t i e) t i ≡ some f
  grown_next =
      let w = grown-entry m f t i e in
      next-table (grown m f t i e) t i (ap present w ∙ entry.is_there) (ap is_block w ∙ entry.block)
      ∙ ap some (ap address w ∙ entry.points)

  -- Through the new entry nothing is mapped, as before.
  grown_new :
      (a : ℕ) (u : Level (suc l))
      → get_index (suc l) a ≡ i
      → translate_at u (grown m f t i e) t a ≡ translate_at u m t a
  grown_new a u here =
      at_next u low (grown m f t i e) t f a
        (ap (get_next_table (grown m f t i e) t) here ∙ grown_next)
      ∙ at_empty low (grown m f t i e) f a
          (ap is_empty (grown-fresh m f t i e (get_index l a) different))
      ∙ sym (at_empty u m t a (ap (λ (j : ℕ). is_empty (m t j)) here ∙ old))

  pub grown-Alike : (a : ℕ) → Alike m (grown m f t i e) root level place shape a
  grown-Alike a k v t' c = elim (grown-cases m f t i e t' (get_index k a) different) [
    | inl (same, z) ↦ absurd (omega (arith, ap level same, fresh, c.0, Level-pos v))
    | inr (inr (nf, w)) ↦ inl w
    | inr (inl (nf, same, here, w)) ↦
        let deep : suc l ≡ k = sym at ∙ ap level (sym same) ∙ c.0 in
        inr (
          rw same (
            subst
              (λ k.
                (u : Level k)
                → get_index k a ≡ i
                → translate_at u (grown m f t i e) t a ≡ translate_at u m t a)
              deep (grown_new a) v here))
  ]

  -- Entries of tables that are not empty are kept.
  pub grown_kept :
      (t' j : ℕ) → level t' ≢ 0 → is_empty (m t' j) ≡ false → grown m f t i e t' j ≡ m t' j
  grown_kept t' j nz n = elim (grown-cases m f t i e t' j different) [
    | inl (same, _) ↦ absurd (nz (ap level same ∙ fresh))
    | inr (inr (_, kept)) ↦ kept
    | inr (inl (_, same, here, _)) ↦ absurd (cc (same, here, old, n))
  ]
