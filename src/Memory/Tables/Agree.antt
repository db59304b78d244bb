-- ===== src/Memory/Tables/Agree.antt =====
-- When two memories translate an address alike.
use sophon_rpi_cross.Base.{
  ℕ, zero, suc, ◌^◌, ◌≤◌, ◌<◌, ◌≡◌, ◌≢◌, ◌⊎◌, inl, inr, refl, sym, subst, ap, ◌∙◌, true, false,
  some, arith, Bool-cases,
}
use sophon_rpi_cross.Memory.Entry.{address, is_block, is_empty, present}
use sophon_rpi_cross.Memory.Entry.Words.{present-not_empty}
use sophon_rpi_cross.Memory.Tables.{
  Memory, get_index, get_next_table, translate, translate_l1, translate_level,
}
use sophon_rpi_cross.Memory.Tables.Index.{
  Level, l1, l2, l3, l4, Level-pos, under, get_index-lt, above-four, above-below,
}
use sophon_rpi_cross.Memory.Tables.Walk.{
  Shaped, Covers, Reach, top, down, next-table, next_table-some, translate_at, translate-at,
  at_empty, at_next,
}

-- What the entry for `a` of a table of level `suc l` can be.
pub data EntryCases (m : Memory) (level place : ℕ → ℕ) (l t a : ℕ) : Type 0 where
  nothing : is_empty (m t (get_index (suc l) a)) ≡ true → EntryCases m level place l t a
  block :
      is_empty (m t (get_index (suc l) a)) ≡ false
      → is_block (m t (get_index (suc l) a)) ≡ true
      → suc l ≢ 4
      → EntryCases m level place l t a
  table :
      (t' : ℕ)
      → get_next_table m t (get_index (suc l) a) ≡ some t'
      → Covers level place a l t'
      → EntryCases m level place l t a

module _ (m : Memory) (root : ℕ) (level place : ℕ → ℕ) (shape : Shaped m root level place) where
  -- The table at an entry of a table that covers `a` covers `a`.
  below-Covers :
      {l : ℕ} (u : Level (suc l)) (v : Level l) (t a : ℕ)
      → Covers level place a (suc l) t
      → is_empty (m t (get_index (suc l) a)) ≡ false
      → is_block (m t (get_index (suc l) a)) ≡ false
      → (present (m t (get_index (suc l) a)) ≡ true)
        × Covers level place a l (address (m t (get_index (suc l) a)))
  below-Covers u v t a c e b =
      let two : 2 ≤ level t = omega (arith, c.0, Level-pos v) in
      let (p, lv, pl) = shape.below t (get_index (suc _) a) (get_index-lt a u) two e b in
      (p, (omega (arith, lv, c.0), omega (arith, pl, c.1, above-below a u v)))

  pub next-Covers :
      {l : ℕ} (u : Level (suc l)) (v : Level l) (t t' a : ℕ)
      → Covers level place a (suc l) t
      → get_next_table m t (get_index (suc l) a) ≡ some t'
      → Covers level place a l t'
  next-Covers {l = l} u v t t' a c h =
      let (p, b, x) = next_table-some m t (get_index (suc l) a) t' h in
      let under = below-Covers u v t a c (present-not_empty (m t (get_index (suc l) a)) p) b in
      subst (Covers level place a l) x under.1

  pub entry_cases :
      {l : ℕ} (u : Level (suc l)) (v : Level l) (t a : ℕ)
      → Covers level place a (suc l) t
      → EntryCases m level place l t a
  entry_cases {l = l} u v t a c = elim (Bool-cases (is_empty (m t (get_index (suc l) a)))) [
    | inl e ↦ nothing e
    | inr e ↦ elim (Bool-cases (is_block (m t (get_index (suc l) a)))) [
      | inl b ↦ block e b (λ four.
          absurd (cc (b, shape.no_block t (get_index (suc l) a) (get_index-lt a u) (c.0 ∙ four) e)))
      | inr b ↦
          let (p, under) = below-Covers u v t a c e b in
          table (address (m t (get_index (suc l) a))) (next-table m t (get_index (suc l) a) p b)
            under
    ]
  ]

  pub root-Covers : (a : ℕ) → a < 2 ^ 48 → Covers level place a 4 root
  root-Covers a lt = (shape.root_level, shape.root_place ∙ sym (above-four a lt))

  pub Reach-Covers :
      (a : ℕ) {l : ℕ} (t : ℕ) → a < 2 ^ 48 → Reach m root a l t → Covers level place a l t
  Reach-Covers a t lt top = root-Covers a lt
  Reach-Covers a t lt (down u v r h) = next-Covers u v _ t a (Reach-Covers a _ lt r) h

  -- `translate` arrives at the tables that it reaches.
  pub translate-Reach :
      (a : ℕ) {l : ℕ} (t : ℕ) (v : Level l)
      → Reach m root a l t
      → translate m root a ≡ translate_at v m t a
  translate-Reach a t l4 top = translate-at m root a
  translate-Reach a t v (down u v' r h) = translate-Reach a _ u r ∙ at_next u v m _ t a h

same_leaf :
    (m m' : Memory) (t a : ℕ)
    → m' t (get_index 1 a) ≡ m t (get_index 1 a)
    → translate_at l1 m' t a ≡ translate_at l1 m t a
unfolding translate_at translate_l1
same_leaf m m' t a e = rw e refl

same_block :
    {l : ℕ} (u : Level (suc l)) (m m' : Memory) (t a : ℕ)
    → m' t (get_index (suc l) a) ≡ m t (get_index (suc l) a)
    → is_empty (m t (get_index (suc l) a)) ≡ false
    → is_block (m t (get_index (suc l) a)) ≡ true
    → suc l ≢ 4
    → translate_at u m' t a ≡ translate_at u m t a
unfolding translate_at translate_level
same_block l1 m m' t a e n b ne = same_leaf m m' t a e
same_block l2 m m' t a e n b ne = rw (e, n, b) refl
same_block l3 m m' t a e n b ne = rw (e, n, b) refl
same_block l4 m m' t a e n b ne = absurd (ne refl)

pub same_next :
    (m m' : Memory) (t i : ℕ) → m' t i ≡ m t i → get_next_table m' t i ≡ get_next_table m t i
unfolding get_next_table
same_next m m' t i e = rw e refl

module _ (m m' : Memory) (root : ℕ) (level place : ℕ → ℕ) (shape : Shaped m root level place)
    (a : ℕ) where
  -- In every table for `a`, the entry is the same, or the rest of the walk is.
  abbrev pub Alike : Type 0
  Alike =
      (l : ℕ) (v : Level l) (t : ℕ)
      → Covers level place a l t
      → (m' t (get_index l a) ≡ m t (get_index l a))
        ⊎ (translate_at v m' t a ≡ translate_at v m t a)

  alike-step :
      {l : ℕ} (u : Level (suc l)) (v : Level l) (t : ℕ)
      → ((t' : ℕ) → Covers level place a l t' → translate_at v m' t' a ≡ translate_at v m t' a)
      → Covers level place a (suc l) t
      → m' t (get_index (suc l) a) ≡ m t (get_index (suc l) a)
      → translate_at u m' t a ≡ translate_at u m t a
  alike-step {l = l} u v t below c e = elim (entry_cases m root level place shape u v t a c) [
    | nothing n ↦ at_empty u m' t a (ap is_empty e ∙ n) ∙ sym (at_empty u m t a n)
    | block n b ne ↦ same_block u m m' t a e n b ne
    | table t' h c' ↦
        at_next u v m' t t' a (same_next m m' t (get_index (suc l) a) e ∙ h)
        ∙ below t' c'
        ∙ sym (at_next u v m t t' a h)
  ]

  alike-at :
      (l : ℕ) (v : Level l) (t : ℕ)
      → Alike
      → Covers level place a l t
      → translate_at v m' t a ≡ translate_at v m t a
  alike-at zero v t h c = elim v [ ]
  alike-at (suc zero) l1 t h c = elim (h 1 l1 t c) [ inr e ↦ e | inl e ↦ same_leaf m m' t a e ]
  alike-at (suc (suc l)) u t h c = elim (h (suc (suc l)) u t c) [
    | inr e ↦ e
    | inl e ↦ alike-step u (under u) t (λ t' c'. alike-at (suc l) (under u) t' h c') c e
  ]

  pub translate-alike : a < 2 ^ 48 → Alike → translate m' root a ≡ translate m root a
  translate-alike lt h =
      translate-at m' root a
      ∙ alike-at 4 l4 root h (root-Covers m root level place shape a lt)
      ∙ sym (translate-at m root a)
