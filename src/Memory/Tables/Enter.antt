-- ===== src/Memory/Tables/Enter.antt =====
-- A step of `map` one level down, which adds an empty table where there is none.
use sophon_rpi_cross.Base.{
  ℕ, suc, ◌+◌, ◌*◌, ◌^◌, ◌<◌, ◌≡◌, refl, sym, ap, ◌∙◌, true, false, Option, none, some, done,
  update, arith,
}
use sophon_rpi_cross.Memory.Page.{size4k}
use sophon_rpi_cross.Memory.Flags.{page_table_flags}
use sophon_rpi_cross.Memory.Entry.{is_empty, set}
use sophon_rpi_cross.Memory.Entry.Words.{set-EntryOf, page_table_flags-Fits, present-not_empty}
use sophon_rpi_cross.Memory.Tables.{
  Memory, get_index, get_next_table, translate, Space, alloc_frame4k, enter,
}
use sophon_rpi_cross.Memory.Tables.Index.{Level, above, above_up}
use sophon_rpi_cross.Memory.Tables.Walk.{Shaped, Reach, top, down, next_table-some, at_block}
use sophon_rpi_cross.Memory.Tables.Agree.{
  entry_cases, nothing, block, table, Reach-Covers, translate-Reach, translate-alike, same_next,
}
use sophon_rpi_cross.Memory.Tables.Grow.{
  Supply, Supply-mono, Supply-less, grown, grown_kept, grown-Shaped, grown_next, grown-Alike,
}

-- What a step down to the table `t'` of level `l` for `p` leaves.
pub record Entered {A : Type 0} (alloc : A → Option (ℕ × A)) (root p l n t' : ℕ) (w w' : Space A)
    : Type 0 where
  pub level : ℕ → ℕ
  pub place : ℕ → ℕ
  pub shape : Shaped w'.memory root level place
  pub reach : Reach w'.memory root p l t'
  pub supply : Supply alloc n level w'.pa
  pub same : (a : ℕ) → a < 2 ^ 48 → translate w'.memory root a ≡ translate w.memory root a

-- A change that leaves the entries that are not empty, of the tables above level `l`, leaves the walk
-- down to that level, and so it is for every address with the same digits above.
pub Reach-kept :
    (m m' : Memory) (root : ℕ) (level place : ℕ → ℕ) (shape : Shaped m root level place) (a b : ℕ)
    {l : ℕ} (t : ℕ)
    → ((t j : ℕ) → l < level t → is_empty (m t j) ≡ false → m' t j ≡ m t j)
    → a < 2 ^ 48
    → above l a ≡ above l b
    → Reach m root a l t
    → Reach m' root b l t
Reach-kept m m' root level place shape a b t kept lt e top = top
Reach-kept m m' root level place shape a b t' kept lt e (down {l = l} {t = t} u v r h) =
    let i = get_index (suc l) a in
    let (p, _, _) = next_table-some m t i t' h in
    let (deep, _) = Reach-Covers m root level place shape a t lt r in
    let (index, up) = above_up a b u v e in
    let same = kept t i (omega (arith, deep)) (present-not_empty (m t i) p) in
    down u v
      (Reach-kept m m' root level place shape a b t (λ t j d. kept t j (omega (arith, d))) lt up r)
      (ap (get_next_table m' t) (sym index) ∙ same_next m m' t i same ∙ h)

module _ {A : Type 0} (alloc : A → Option (ℕ × A)) where
  -- Where there is a table already, nothing changes.
  enter-there :
      (t i t' : ℕ) (w : Space A)
      → get_next_table w.memory t i ≡ some t'
      → enter alloc t i w ≡ done (t', w)
  unfolding enter
  enter-there t i t' w h =
      let (p, b, x) = next_table-some w.memory t i t' h in
      rw (present-not_empty (w.memory t i) p, h) refl

  enter-fresh :
      (t i f e : ℕ) (w : Space A) (s : A)
      → is_empty (w.memory t i) ≡ true
      → alloc w.pa ≡ some (f, s)
      → set size4k f page_table_flags ≡ done e
      → get_next_table (grown w.memory f t i e) t i ≡ some f
      → enter alloc t i w ≡ done (f, record { memory = grown w.memory f t i e; pa = s })
  unfolding enter alloc_frame4k
  enter-fresh t i f e w s z al st h = rw (z, al, st, h) refl

  -- Where there is none, there is an empty one now.
  enter-grown :
      (root p l n t : ℕ) (w : Space A) (level place : ℕ → ℕ) (u : Level (suc l)) (v : Level l)
      → Shaped w.memory root level place
      → p < 2 ^ 48
      → Reach w.memory root p (suc l) t
      → is_empty (w.memory t (get_index (suc l) p)) ≡ true
      → Supply alloc (suc n) level w.pa
      → (t' : ℕ) × (w' : Space A) × (enter alloc t (get_index (suc l) p) w ≡ done (t', w'))
        × Entered alloc root p l n t' w w'
  enter-grown root p l n t w level place u v shape lt r z (f, s, got, al, lt_f, fresh, rest) =
      let m = w.memory in
      let i = get_index (suc l) p in
      let (at, _) = Reach-Covers m root level place shape p t lt r in
      let (e, st, entry) = set-EntryOf size4k f page_table_flags al lt_f page_table_flags-Fits in
      let link = grown_next m root level place shape f t i e l fresh al at v entry z in
      let kept = grown_kept m root level place shape f t i e l fresh al at v entry z in
      (
        f,
        record { memory = grown m f t i e; pa = s },
        enter-fresh t i f e w s z got st link,
        record {
          level = update level f l;
          place = update place f (place t * 512 + i);
          shape = grown-Shaped m root level place shape f t i e l fresh al at v entry z;
          reach =
              down u v
                (Reach-kept m (grown m f t i e) root level place shape p p t
                  (λ t' j d. kept t' j (λ z. omega (arith, d, z))) lt refl r)
                link;
          supply =
              Supply-mono alloc n (update level f 1) (update level f l) s
                (λ t' h. ground (arith, h)) rest;
          same = λ a lt'.
              translate-alike m (grown m f t i e) root level place shape a lt'
                (grown-Alike m root level place shape f t i e l fresh al at v entry z a);
        },
      )

  -- Where no block is in the way, there is a table for `p` one level down, and every address is
  -- translated as before.
  pub enter_lem :
      (root p l n t : ℕ) (w : Space A) (level place : ℕ → ℕ) (u : Level (suc l)) (v : Level l)
      → Shaped w.memory root level place
      → p < 2 ^ 48
      → Reach w.memory root p (suc l) t
      → translate w.memory root p ≡ done none
      → Supply alloc (suc n) level w.pa
      → (t' : ℕ) × (w' : Space A) × (enter alloc t (get_index (suc l) p) w ≡ done (t', w'))
        × Entered alloc root p l n t' w w'
  enter_lem root p l n t w level place u v shape lt r unmapped sup =
      let c = Reach-Covers w.memory root level place shape p t lt r in
      let i = get_index (suc l) p in
      elim (entry_cases w.memory root level place shape u v t p c) [
        | block e b ne ↦
            let (x, at) = at_block u w.memory t p e b ne in
            let arrives = translate-Reach w.memory root level place shape p t u r in
            absurd (cc (unmapped, arrives, at))
        | table t' h c' ↦ (
          t',
          w,
          enter-there t i t' w h,
          record {
            level = level;
            place = place;
            shape = shape;
            reach = down u v r h;
            supply = Supply-less alloc n level w.pa sup;
            same = λ a lt'. refl;
          },
        )
        | nothing z ↦ enter-grown root p l n t w level place u v shape lt r z sup
      ]
